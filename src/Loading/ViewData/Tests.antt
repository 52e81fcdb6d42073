-- ===== src/Loading/ViewData/Tests.antt =====
-- The settings and the status of a window, with their replies.
use strata_pvr.Base.{true, false, none, some, [], ◌∷◌, ◌≡◌, refl}
use strata_pvr.Loading.ViewData.{
  settings, status, Slot, Views, Value, slot, load_view_data, load_section, on_reply, on_data,
  answered, failed, loaded, replied, step, run,
}
use strata_pvr.Loading.ViewData.Laws.{IsLoaded, load_view_data-IsLoaded, load_view_data-tokens}

abbrev fresh : Slot
fresh = record { is_ready = false; request = none; error = none }

abbrev opened : Views
opened = record {
  current_view = "settings";
  of_rules = fresh;
  of_settings = fresh;
  of_status = fresh;
  rule_texts = [];
  config = record { text = ""; has_authentication = false };
  storage = none;
  api_tokens = [];
  calls = [];
}

abbrev values : Value
values = record {
  rule_texts = "rule" ∷ [];
  config = record { text = "{}"; has_authentication = true };
  storage = some "disk";
  tokens = "token" ∷ [];
}

abbrev with_tokens : Views
with_tokens = record opened {
  of_settings = record { is_ready = true; request = none; error = none };
  api_tokens = "token" ∷ [];
}

-- The settings ask for the tokens behind the configuration.
settings_test :
    (run
      (loaded "settings" true
        ∷ replied settings (answered values)
        ∷ replied settings (answered values)
        ∷ [])
      opened).api_tokens
    ≡ "token" ∷ []
unfolding run step load_view_data load_section on_reply on_data
settings_test = refl

refused_example : IsLoaded (
    slot settings (
      run
        (loaded "settings" true
          ∷ replied settings (answered values)
          ∷ replied settings (failed "no")
          ∷ [])
        opened))
refused_example = load_view_data-IsLoaded settings (answered values) (failed "no") opened refl

lost_tokens_example :
    let s' =
      run
        (loaded "status" true ∷ replied status (answered values) ∷ loaded "settings" false ∷ [])
        with_tokens in
    (s'.api_tokens ≡ [])
    × (slot settings s' ≡ slot settings with_tokens)
    × (s'.config ≡ with_tokens.config)
lost_tokens_example = load_view_data-tokens values with_tokens refl refl
