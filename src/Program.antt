-- ===== src/Program.antt =====
-- Programmes of web/app.js: the fields that the functions read (`channelName`, `programChannelID`,
-- `programChannelType`, `programCategory`, `programEnd`, `programOnAir`, `formatDuration`). A
-- text that is missing reads as the empty one, a number as 0 and a flag as false: each is a false
-- value of the language, and the code tests them by their truth alone. Times are milliseconds.
mod Tables
mod Tests
pub mod Samples
pub mod Title
pub mod Flags
pub mod State
pub mod Actions
use strata_pvr.Base.{
  ℕ, ◌+◌, ◌-◌, ◌*◌, ◌/◌, ◌<◌, ◌≤◌, String, Bool, true, false, not, ◌&&◌, ◌||◌, Option, none, some,
  List, [], ◌∷◌, ◌==◌, eqb, leb, ◌⧺◌, ◌or◌, truthy, filter, join, show, ◌≡◌, if◌then◌else◌,
}

-- What `program.channel` and an entry of the guide hold when they are objects. The ids are texts
-- after `String`.
pub record Channel : Type 0 where
  pub id : String
  pub service_id : String
  pub sid : String
  pub channel : String
  pub name : String
  pub service_name : String
  pub display_name : String
  pub type : String
  pub channel_type : String

pub data ChannelRef : Type 0 where
  missing : ChannelRef
  named : String → ChannelRef
  object : Channel → ChannelRef

pub record Program : Type 0 where
  pub id : String
  pub title : String
  pub full_title : String
  pub detail : String
  pub description : String
  pub category : String
  pub genre : String
  pub type : String
  pub channel : ChannelRef
  pub start : ℕ
  pub end : ℕ
  pub flags : List String
  pub is_reserved : Bool
  pub is_manual_reserved : Bool
  pub is_skip : Bool
  pub is_conflict : Bool
  pub is_recording : Bool
  pub abort : Bool
  pub abort_reason : String
  pub pid : ℕ
  pub recorded : String

-- A property of a text, `program.channel.name` for one, is missing.
unfoldable pub channel_name : ChannelRef → String
channel_name missing = ""
channel_name (named s) = ""
channel_name (object c) = c.name or c.channel or c.id

unfoldable pub program_channel_id : ChannelRef → String
program_channel_id missing = ""
program_channel_id (named s) = s
program_channel_id (object c) = c.id or c.service_id or c.sid or c.channel

-- `type` is the type of the programme itself.
unfoldable pub program_channel_type : ChannelRef → String → String
program_channel_type missing type = type
program_channel_type (named s) type = type
program_channel_type (object c) type = c.type or c.channel_type or type

unfoldable pub program_category : Program → String
program_category p = p.category or p.genre

abbrev schedule_minimum_program_minutes : ℕ
schedule_minimum_program_minutes = 30

-- A programme without an end ends after the minimum duration.
pub program_end : Program → ℕ
program_end p =
    if eqb p.end 0 then p.start + schedule_minimum_program_minutes * 60 * 1000 else p.end

-- At the time `now`.
unfoldable program_on_air : ℕ → Program → Bool
unfolding program_end
program_on_air now p = if eqb p.start 0 then false else leb p.start now && leb now (program_end p)

-- `Math.round((end - start) / 60000)`: a half is rounded up.
unfoldable format_duration : ℕ → ℕ → String
format_duration start end =
    if eqb start 0 || eqb end 0 || leb end start
    then ""
    else show ((end - start + 30000) / 60000) ⧺ "分"
