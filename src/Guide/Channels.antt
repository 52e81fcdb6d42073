-- ===== src/Guide/Channels.antt =====
-- The channels of the guide (web/app.js: `scheduleChannelID`, `scheduleChannelName`,
-- `scheduleChannelHasLogo`, `scheduleChannelType`, `scheduleChannelTypeRank`,
-- `compareScheduleChannelGroups`, `scheduleProgramChannelName`) and the class of a category
-- (`categoryClass`). The upper case of a type and the lower case of a category are those of the
-- language, and a parameter.
use Prim.Native.Nat.{Ordering, compare}
use strata_pvr.Base.{
  ℕ, String, Bool, false, Option, none, some, List, [], ◌∷◌, ◌==◌, ◌or◌, any, includes, then_by,
  if◌then◌else◌,
}
use strata_pvr.Program.{Channel, ChannelRef, missing, named, object}

-- An entry of the guide: its own fields, the object or the text that stands under `channel`, and
-- whether each of the two has a logo; none stands for a property that is missing.
pub record Entry : Type 0 where
  pub own : Channel
  pub channel_name : String
  pub channel : ChannelRef
  pub has_logo_data : Option Bool
  pub channel_has_logo_data : Option Bool

-- `entry.channel`, where it is a text: an object is no text, and is shown by its own names.
abbrev text_of : ChannelRef → String
text_of missing = ""
text_of (named s) = s
text_of (object c) = ""

abbrev id_of : ChannelRef → String
id_of missing = ""
id_of (named s) = ""
id_of (object c) = c.id

unfoldable pub schedule_channel_id : Entry → String
schedule_channel_id e = id_of e.channel or e.own.id

abbrev name_of : ChannelRef → String → String
name_of missing otherwise = otherwise
name_of (named s) otherwise = otherwise
name_of (object c) otherwise = c.name or c.service_name or c.display_name or c.channel or c.id

unfoldable pub schedule_channel_name : Entry → String
schedule_channel_name e = name_of e.channel (
    e.own.name
    or e.own.service_name
    or e.own.display_name
    or e.channel_name
    or text_of e.channel
    or e.own.id)

abbrev holds : Option Bool → Bool
holds none = false
holds (some b) = b

abbrev logo_of : ChannelRef → Option Bool → Bool → Bool
logo_of missing inner otherwise = otherwise
logo_of (named s) inner otherwise = otherwise
logo_of (object c) none otherwise = otherwise
logo_of (object c) (some b) otherwise = b

unfoldable schedule_channel_has_logo : Entry → Bool
schedule_channel_has_logo e = logo_of e.channel e.channel_has_logo_data (holds e.has_logo_data)

abbrev type_of : ChannelRef → String → String
type_of missing otherwise = otherwise
type_of (named s) otherwise = otherwise
type_of (object c) otherwise = c.type or c.channel_type

unfoldable pub schedule_channel_type : Entry → String
schedule_channel_type e = type_of e.channel (e.own.type or e.own.channel_type)

unfoldable schedule_channel_type_rank : (String → String) → String → ℕ
schedule_channel_type_rank upper type =
    if upper type == "GR"
    then 0
    else (if upper type == "BS" then 1 else (if upper type == "CS" then 2 else 3))

-- Groups are compared by the rank of their type, and then by their order in the guide.
unfoldable compare_schedule_channel_groups : (String → String) → String × ℕ → String × ℕ → Ordering
unfolding schedule_channel_type_rank
compare_schedule_channel_groups upper (type_a, order_a) (type_b, order_b) =
    then_by
      (compare (schedule_channel_type_rank upper type_a) (schedule_channel_type_rank upper type_b))
      (compare order_a order_b)

abbrev program_name_of : ChannelRef → String → String
program_name_of missing fallback = fallback
program_name_of (named s) fallback = fallback
program_name_of (object c) fallback =
    c.name or c.service_name or c.display_name or c.channel or fallback

unfoldable schedule_program_channel_name : ChannelRef → String → String
schedule_program_channel_name channel fallback = program_name_of channel fallback

-- The words of a category's class, in the order of the tests.
abbrev category_words : List (String × List String)
category_words =
    ("anime", "anime" ∷ "アニメ" ∷ [])
    ∷ ("movie", "movie" ∷ "cinema" ∷ "映画" ∷ [])
    ∷ ("news", "news" ∷ "ニュース" ∷ "報道" ∷ [])
    ∷ ("sports", "sports" ∷ "スポーツ" ∷ [])
    ∷ ("drama", "drama" ∷ "ドラマ" ∷ [])
    ∷ ("music", "music" ∷ "音楽" ∷ [])
    ∷ ("information", "information" ∷ "情報" ∷ [])
    ∷ ("variety", "variety" ∷ "バラエティ" ∷ [])
    ∷ ("documentary", "documentary" ∷ "ドキュメンタリー" ∷ [])
    ∷ ("theater", "theater" ∷ "劇場" ∷ [])
    ∷ ("hobby", "hobby" ∷ "趣味" ∷ [])
    ∷ ("welfare", "welfare" ∷ "福祉" ∷ [])
    ∷ ("etc", "etc" ∷ "その他" ∷ [])
    ∷ []

-- The class of the first entry one of whose words the category holds.
abbrev class_of : List (String × List String) → String → String
class_of [] value = ""
class_of ((name, words) ∷ more) value =
    if any (includes value) words then name else class_of more value

-- The name behind " category-"; without a name there is no class at all.
unfoldable category_class : (String → String) → String → String
category_class lower category = class_of category_words (lower category)
