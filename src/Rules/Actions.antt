-- ===== src/Rules/Actions.antt =====
-- A rule for a programme, and the buttons of the form (web/app.js: `fillRuleFormFromProgram`,
-- `clearRuleForm`, `addBasicRule`, `saveBasicRule`, `resetRuleForm`). What is sent is what a confirmed
-- question sends; the dialog of the question is modal, so the form stays as it is meanwhile.
use strata_pvr.Base.{
  ℕ, ◌+◌, ◌-◌, ◌*◌, ◌/◌, min, max, String, Bool, true, false, not, ◌&&◌, Option, none, some, [],
  ◌∷◌, ◌==◌, ◌or◌, ◌⧺◌, eqb, ltb, leb, truthy, show, all_chars, if◌then◌else◌,
}
use strata_pvr.Settings.{Properties}
use strata_pvr.Program.{Program, program_channel_id, program_channel_type}
use strata_pvr.Program.Title.{program_title}
use strata_pvr.Rules.Fields.{Reading, accepted, refused, ◌>>=◌}
use strata_pvr.Rules.Form.{Form, read_rule_form}
use strata_pvr.Rules.Fill.{World, Editor, render_options, select_value, selected_of}

abbrev pub empty_form : Form
empty_form = record {
  title = "";
  ignore_title = "";
  description = "";
  ignore_description = "";
  type = "";
  sid = "";
  categories = [];
  channels = [];
  ignore_channels = [];
  flags = "";
  ignore_flags = "";
  duration_min = "";
  duration_max = "";
  hour_start = "";
  hour_end = "";
  recorded_format = "";
  is_disabled = false;
  extra = "";
}

unfoldable pub clear_rule_form : Editor → Editor
clear_rule_form e = record e { form = empty_form; source_channels = [] }

-- The end of a programme; half an hour behind its start if it has none.
abbrev pub end_of : Program → ℕ
end_of p = if eqb p.end 0 then p.start + 1800000 else p.end

-- `Math.round((end - start) / 60000)`
abbrev pub duration_text : Program → String
duration_text p =
    if not (eqb p.start 0) && ltb p.start (end_of p)
    then show ((end_of p - p.start + 30000) / 60000)
    else ""

-- `Math.min(24, Math.max(1, Math.ceil(minutes / 60)))`, or 24 on another day.
abbrev pub end_hour : World → Program → ℕ
end_hour w p =
    if not (w.date_key p.start == w.date_key (end_of p))
    then 24
    else min 24 (max 1 ((w.hours (end_of p) * 60 + w.minutes (end_of p) + 59) / 60))

-- `/^\\d+$/`
abbrev pub is_number : String → Bool
is_number s = truthy s && all_chars (λ c. leb b'0' c && leb c b'9') s

unfoldable pub fill_rule_form_from_program : World → Option Program → Editor → Editor
fill_rule_form_from_program w none e = e
fill_rule_form_from_program w (some p) e =
    let id = program_channel_id p.channel in
    let categories = if truthy p.category then p.category ∷ [] else [] in
    let channels = if truthy id && not (is_number id) then id ∷ [] else [] in
    let source = if w.is_search then w.search_channels else [] in
    let o =
      render_options w categories channels [] source
        (record e { form = record e.form { categories = [] } }) in
    let form : Form = record {
      title = p.title or p.full_title or program_title p;
      ignore_title = "";
      description = "";
      ignore_description = "";
      type = select_value (program_channel_type p.channel p.type);
      sid = if is_number id then id else "";
      categories = selected_of o.category_options categories;
      channels = selected_of o.channel_options channels;
      ignore_channels = selected_of o.ignore_channel_options [];
      flags = "";
      ignore_flags = "";
      duration_min = duration_text p;
      duration_max = duration_text p;
      hour_start = if eqb p.start 0 then "" else show (w.hours p.start);
      hour_end = if eqb p.start 0 then "" else show (end_hour w p);
      recorded_format = "";
      is_disabled = false;
      extra = "";
    } in
    record o { form = form; editing = none }

-- A request that a confirmed question sends.
pub data Sent : Type 0 where
  post : Properties → Sent
  put : ℕ → Properties → Sent

unfoldable pub add_basic_rule : World → Editor → Reading Sent
unfolding read_rule_form
add_basic_rule w e = read_rule_form w.read w.format e.form >>= (λ rule. accepted (post rule))

abbrev pub save_at : World → Form → Option ℕ → Reading Sent
save_at w form none = refused "フォーム編集するルールが選択されていません"
save_at w form (some index) =
    read_rule_form w.read w.format form >>= (λ rule. accepted (put index rule))

unfoldable pub save_basic_rule : World → Editor → Reading Sent
unfolding read_rule_form
save_basic_rule w e = save_at w e.form e.editing

-- The handler of the reply, and the button that begins a new rule.
unfoldable pub on_saved : Editor → Editor
unfolding clear_rule_form
on_saved e = record (clear_rule_form e) { editing = none }

unfoldable pub reset_rule_form : Editor → Editor
unfolding clear_rule_form
reset_rule_form e = record (clear_rule_form e) { editing = none }

-- The controls: the button "save" is off, the button "reset" is off, and the text of the state.
unfoldable pub render_rule_form_state : Editor → Bool × Bool × String
render_rule_form_state e = elim e.editing [
  | none ↦ (true, true, "新規作成")
  | some index ↦ (false, false, "編集中: ルール #" ⧺ show index)
]
