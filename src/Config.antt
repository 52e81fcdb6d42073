-- ===== src/Config.antt =====
-- The form of the configuration (web/app.js: `requiredString`, `requiredInteger`, `strataServiceList`,
-- `legacyPostProcessCommands`, `readStrataConfigForm`). The marks at the fields are left out; `messages`
-- are those of `showError`, in order.
mod Tests
pub mod Users
pub mod Laws
use strata_pvr.Base.{
  ℕ, suc, String, Bool, true, false, not, ◌&&◌, ◌||◌, Option, none, some, List, [], ◌∷◌, ◌++◌, ◌==◌,
  ◌or◌, ◌⧺◌, eqb, leb, truthy, trim, any, map, show, ◌>>=◌, if◌then◌else◌,
}
use strata_pvr.Status.{split_list}
use strata_pvr.Rules.Form.{Fraction, is_integer, value_of, is_below_zero, is_sid}
use strata_pvr.Config.Users.{Row, User, Gathered, read_users, broken, ended}

-- A value with the messages of its check; none is `null`.
abbrev pub Checked : Type 0 → Type 0
Checked A = Option A × List String

abbrev pub required_string : String → String → Checked String
required_string label value =
    if truthy value then (some value, []) else (none, (label ⧺ "を入力してください") ∷ [])

abbrev pub max_safe_integer : ℕ
max_safe_integer = 9007199254740991

-- An integer of a field, and the ranges that are asked for: from a number on, or of either sign.
pub record Signed : Type 0 where
  pub is_negative : Bool
  pub magnitude : ℕ

pub data Range : Type 0 where
  between : ℕ → ℕ → Range
  around_zero : ℕ → Range

abbrev pub is_within : Range → Fraction → Bool
is_within (between low high) n =
    is_integer n && not (is_below_zero n) && leb low (value_of n) && leb (value_of n) high
is_within (around_zero high) n = is_integer n && leb (value_of n) high

abbrev range_text : Range → String
range_text (between low high) = show low ⧺ "から" ⧺ show high
range_text (around_zero high) = "-" ⧺ show high ⧺ "から" ⧺ show high

abbrev pub integer_from : String → Range → Option Fraction → Checked Signed
integer_from label range none = (none, (label ⧺ "は" ⧺ range_text range ⧺ "の整数にしてください") ∷ [])
integer_from label range (some n) =
    if is_within range n
    then (some (record { is_negative = is_below_zero n; magnitude = value_of n }), [])
    else (none, (label ⧺ "は" ⧺ range_text range ⧺ "の整数にしてください") ∷ [])

-- `map(Number)`, where each is a positive integer.
abbrev pub positive_integers : List (Option Fraction) → Option (List ℕ)
positive_integers [] = some []
positive_integers (none ∷ values) = none
positive_integers (some n ∷ values) =
    if is_sid n then positive_integers values >>= (λ ns. some (value_of n ∷ ns)) else none

abbrev pub services_from : String → Option (List ℕ) → Checked (List ℕ)
services_from label none = (none, (label ⧺ "はカンマ区切りの正の整数にしてください") ∷ [])
services_from label (some ns) = (some ns, [])

unfoldable pub strata_service_list : (String → Option Fraction) → String → String → Checked (List ℕ)
strata_service_list read label value =
    services_from label (positive_integers (map read (split_list value)))

pub record Command : Type 0 where
  pub command : String
  pub arguments : List String

unfoldable pub legacy_post_process_commands : List String → List Command
legacy_post_process_commands [] = []
legacy_post_process_commands (c ∷ arguments) = record { command = c; arguments = arguments } ∷ []

-- The rows of commands: none if one has no command or an empty argument.
abbrev pub read_commands : List Command → Option (List Command)
read_commands [] = some []
read_commands (row ∷ rows) =
    let arguments = map trim row.arguments in
    let command = trim row.command in
    let rest = read_commands rows in
    if not (truthy command) || any (λ a. not (truthy a)) arguments
    then none
    else rest
      >>= (λ commands. some (record { command = command; arguments = arguments } ∷ commands))

-- The controls of the form: `controlString` trims each text.
pub record ConfigForm : Type 0 where
  pub mirakurun_url : String
  pub listen_address : String
  pub port : String
  pub directory : String
  pub filename_format : String
  pub start_margin : String
  pub end_margin : String
  pub threshold : String
  pub timeout : String
  pub max_concurrent : String
  pub max_age : String
  pub max_size : String
  pub excluded : String
  pub order : String
  pub commands : List Command
  pub is_enabled : Bool
  pub users : List Row
  pub recording_priority : String
  pub conflicted_priority : String
  pub low_space_action : String
  pub normalization_form : String
  pub encoder : String

-- What stays from the configuration before.
pub record Former : Type 0 where
  pub schema : String
  pub version : String
  pub trust_forwarded_headers : Bool
  pub trusted_proxies : List String
  pub web_dir : String

pub record Config : Type 0 where
  pub former : Former
  pub mirakurun_url : String
  pub recording_priority : Option Fraction
  pub conflicted_priority : Option Fraction
  pub directory : String
  pub filename_format : String
  pub start_margin : Signed
  pub end_margin : Signed
  pub threshold : Signed
  pub low_space_action : String
  pub commands : List Command
  pub timeout : Signed
  pub max_concurrent : Signed
  pub max_age : Signed
  pub max_size : Signed
  pub listen_address : String
  pub port : Signed
  pub is_enabled : Bool
  pub users : List User
  pub excluded : List ℕ
  pub order : List ℕ
  pub normalization_form : String
  pub encoder : String

-- The configuration; the messages of a refusal; or an exception behind the messages.
pub data Outcome : Type 0 where
  made : Config → Outcome
  rejected thrown : List String → Outcome

-- The fields that are checked.
pub record Fields : Type 0 where
  pub mirakurun_url : Checked String
  pub listen_address : Checked String
  pub port : Checked Signed
  pub directory : Checked String
  pub filename_format : Checked String
  pub start_margin : Checked Signed
  pub end_margin : Checked Signed
  pub threshold : Checked Signed
  pub timeout : Checked Signed
  pub max_concurrent : Checked Signed
  pub max_age : Checked Signed
  pub max_size : Checked Signed
  pub excluded : Checked (List ℕ)
  pub order : Checked (List ℕ)

abbrev pub at_least_zero : Range
at_least_zero = between 0 max_safe_integer

unfoldable pub required_integer :
    (String → Option Fraction) → String → Range → String → Checked Signed
required_integer read label range value = integer_from label range (read value)

unfoldable pub check_fields : (String → Option Fraction) → ConfigForm → Fields
unfolding strata_service_list required_integer
check_fields read f = record {
  mirakurun_url = required_string "Mirakurun URL" f.mirakurun_url;
  listen_address = required_string "待受アドレス" f.listen_address;
  port = required_integer read "ポート" (between 1 65535) f.port;
  directory = required_string "録画保存先" f.directory;
  filename_format = required_string "ファイル名形式" f.filename_format;
  start_margin = required_integer read "録画開始マージン" (around_zero max_safe_integer) f.start_margin;
  end_margin = required_integer read "録画終了マージン" (around_zero max_safe_integer) f.end_margin;
  threshold = required_integer read "空き容量しきい値" at_least_zero f.threshold;
  timeout = required_integer read "後処理タイムアウト" at_least_zero f.timeout;
  max_concurrent = required_integer read "後処理の最大同時実行数" at_least_zero f.max_concurrent;
  max_age = required_integer read "プレビュー保持日数" at_least_zero f.max_age;
  max_size = required_integer read "プレビュー上限" at_least_zero f.max_size;
  excluded = strata_service_list read "除外サービス" f.excluded;
  order = strata_service_list read "サービス順" f.order;
}

abbrev pub messages_of : Fields → List String
messages_of c =
    c.mirakurun_url.1 ++ c.listen_address.1 ++ c.port.1 ++ c.directory.1 ++ c.filename_format.1
    ++ c.start_margin.1 ++ c.end_margin.1 ++ c.threshold.1 ++ c.timeout.1 ++ c.max_concurrent.1
    ++ c.max_age.1 ++ c.max_size.1 ++ c.excluded.1 ++ c.order.1

-- The values of the fields, if none of them is `null`.
pub record Strings : Type 0 where
  pub mirakurun_url : String
  pub listen_address : String
  pub directory : String
  pub filename_format : String

pub record Numbers : Type 0 where
  pub port : Signed
  pub start_margin : Signed
  pub end_margin : Signed
  pub threshold : Signed
  pub timeout : Signed
  pub max_concurrent : Signed
  pub max_age : Signed
  pub max_size : Signed

pub record Lists : Type 0 where
  pub excluded : List ℕ
  pub order : List ℕ

abbrev pub strings_of : Fields → Option Strings
strings_of c = c.mirakurun_url.0 >>= λ mirakurun_url. c.listen_address.0 >>= λ listen_address.
    c.directory.0 >>= λ directory. c.filename_format.0 >>= λ filename_format. some (record {
      mirakurun_url = mirakurun_url;
      listen_address = listen_address;
      directory = directory;
      filename_format = filename_format;
    })

abbrev pub numbers_of : Fields → Option Numbers
numbers_of c = c.port.0 >>= λ port. c.start_margin.0 >>= λ start_margin.
    c.end_margin.0 >>= λ end_margin. c.threshold.0 >>= λ threshold. c.timeout.0 >>= λ timeout.
    c.max_concurrent.0 >>= λ max_concurrent. c.max_age.0 >>= λ max_age. c.max_size.0 >>= λ max_size.
    some (record {
      port = port;
      start_margin = start_margin;
      end_margin = end_margin;
      threshold = threshold;
      timeout = timeout;
      max_concurrent = max_concurrent;
      max_age = max_age;
      max_size = max_size;
    })

abbrev pub lists_of : Fields → Option Lists
lists_of c = c.excluded.0 >>= λ excluded.
    c.order.0 >>= λ order. some (record { excluded = excluded; order = order })

abbrev pub build :
    (String → Option Fraction)
    → Former
    → ConfigForm
    → Strings
    → Numbers
    → Lists
    → List Command
    → List User
    → Config
build read former f s n l commands users = record {
  former = former;
  mirakurun_url = s.mirakurun_url;
  recording_priority = read f.recording_priority;
  conflicted_priority = read f.conflicted_priority;
  directory = s.directory;
  filename_format = s.filename_format;
  start_margin = n.start_margin;
  end_margin = n.end_margin;
  threshold = n.threshold;
  low_space_action = f.low_space_action;
  commands = commands;
  timeout = n.timeout;
  max_concurrent = n.max_concurrent;
  max_age = n.max_age;
  max_size = n.max_size;
  listen_address = s.listen_address;
  port = n.port;
  is_enabled = f.is_enabled;
  users = users;
  excluded = l.excluded;
  order = l.order;
  normalization_form = f.normalization_form;
  encoder = f.encoder;
}

abbrev pub config_of :
    (String → Option Fraction)
    → Former
    → ConfigForm
    → Fields
    → Option (List Command → List User → Config)
config_of read former f c =
    strings_of c >>= λ s. numbers_of c >>= λ n. lists_of c >>= λ l. some (build read former f s n l)

abbrev pub commands_text : String
commands_text = "録画後処理のコマンドと引数を入力するか、空の行を削除してください"

abbrev pub users_text : String
users_text = "認証ユーザーの名前とパスワードを確認してください"

abbrev pub is_empty : List User → Bool
is_empty [] = true
is_empty (u ∷ us) = false

abbrev pub with_users : Bool → Gathered → (List User → Config) → Outcome
with_users is_enabled broken config = thrown []
with_users is_enabled (ended none) config = rejected (users_text ∷ [])
with_users is_enabled (ended (some users)) config =
    if is_enabled && is_empty users then rejected (users_text ∷ []) else made (config users)

abbrev pub with_commands :
    Bool → Option (List Command) → Gathered → (List Command → List User → Config) → Outcome
with_commands is_enabled none users config = rejected (commands_text ∷ [])
with_commands is_enabled (some commands) users config =
    with_users is_enabled users (config commands)

abbrev pub with_fields :
    List String
    → Bool
    → Option (List Command)
    → Gathered
    → Option (List Command → List User → Config)
    → Outcome
with_fields messages is_enabled commands users none = rejected messages
with_fields messages is_enabled commands users (some config) =
    with_commands is_enabled commands users config

unfoldable pub read_strata_config_form : (String → Option Fraction) → Former → ConfigForm → Outcome
unfolding check_fields read_users
read_strata_config_form read former f =
    let c = check_fields read f in
    with_fields (messages_of c) f.is_enabled (read_commands f.commands) (read_users f.users)
      (config_of read former f c)
