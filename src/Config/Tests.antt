-- ===== src/Config/Tests.antt =====
-- Concrete configurations.
use strata_pvr.Base.{
  ℕ, ◌<◌, String, true, false, ◌&&◌, Option, none, some, List, [], ◌∷◌, ◌==◌, All, trim, trim_start,
  trim_end, is_space, is_inherited, ◌≡◌, refl, if◌then◌else◌,
}
use strata_pvr.Status.{split_list}
use strata_pvr.Rules.Form.{Fraction}
use strata_pvr.Config.Users.{Row, User, AreUsers, read_users, read_rows, after_refusal}
use strata_pvr.Config.{
  Signed, ConfigForm, Former, Config, Command, check_fields, required_integer, strata_service_list,
  build, is_empty, made, thrown, read_strata_config_form,
}
use strata_pvr.Config.Laws.{IsPort, read_strata_config_form-valid, read_strata_config_form-thrown}

abbrev whole : ℕ → Fraction
whole n = record { is_negative = false; numerator = n; rest = 0 }

abbrev read_some : String → Option Fraction
read_some s =
    if s == "10" then some (whole 10) else (if s == "8888" then some (whole 8888) else none)

abbrev former : Former
former = record {
  schema = "";
  version = "1";
  trust_forwarded_headers = false;
  trusted_proxies = [];
  web_dir = "";
}

abbrev admin : Row
admin = record { username = "admin"; password = "secret"; is_configured = false }

abbrev nobody : Row
nobody = record { username = ""; password = "secret"; is_configured = false }

abbrev form_of : List Row → ConfigForm
form_of users = record {
  mirakurun_url = "http://localhost:40772";
  listen_address = "0.0.0.0";
  port = "8888";
  directory = "/recorded";
  filename_format = "<title>.m2ts";
  start_margin = "10";
  end_margin = "10";
  threshold = "10";
  timeout = "10";
  max_concurrent = "10";
  max_age = "10";
  max_size = "10";
  excluded = "10";
  order = "";
  commands = [];
  is_enabled = true;
  users = users;
  recording_priority = "10";
  conflicted_priority = "10";
  low_space_action = "none";
  normalization_form = "";
  encoder = "";
}

abbrev ten : Signed
ten = record { is_negative = false; magnitude = 10 }

abbrev config_with : List Command → List User → Config
config_with =
    build read_some former (form_of [])
      (record {
        mirakurun_url = "http://localhost:40772";
        listen_address = "0.0.0.0";
        directory = "/recorded";
        filename_format = "<title>.m2ts";
      })
      (record {
        port = record { is_negative = false; magnitude = 8888 };
        start_margin = ten;
        end_margin = ten;
        threshold = ten;
        timeout = ten;
        max_concurrent = ten;
        max_age = ten;
        max_size = ten;
      })
      (record { excluded = 10 ∷ []; order = [] })

abbrev config : Config
config =
    config_with [] (record { username = "admin"; password = "secret"; is_configured = false } ∷ [])

form_made : read_strata_config_form read_some former (form_of (admin ∷ [])) ≡ made config
unfolding read_strata_config_form check_fields required_integer strata_service_list split_list
    read_users read_rows after_refusal trim trim_start trim_end is_space is_inherited
form_made = refl

valid_example :
    IsPort config.port
    × All (λ n. 0 < n) config.excluded
    × All (λ n. 0 < n) config.order
    × AreUsers config.users
    × ((config.is_enabled && is_empty config.users) ≡ false)
valid_example =
    read_strata_config_form-valid read_some former (form_of (admin ∷ [])) config form_made

thrown_example :
    read_strata_config_form read_some former (form_of (nobody ∷ admin ∷ [])) ≡ thrown []
unfolding check_fields required_integer strata_service_list split_list trim trim_start trim_end
    is_space is_inherited
thrown_example =
    read_strata_config_form-thrown read_some former (form_of (nobody ∷ admin ∷ [])) config_with []
      nobody admin [] refl refl refl refl refl
