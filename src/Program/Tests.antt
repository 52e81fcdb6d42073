-- ===== src/Program/Tests.antt =====
-- The titles, flags, states and buttons of the sample programmes.
use strata_pvr.Base.{[], ◌∷◌, ◌or◌, ◌≡◌, refl}
use strata_pvr.Program.Samples.{news, film}
use strata_pvr.Program.Flags.{program_flag_names}
use strata_pvr.Program.Flags.Laws.{NamedIn, program_flag_names-NamedIn}
use strata_pvr.Program.State.{Lists}
use strata_pvr.Program.Actions.{action_button}
use strata_pvr.Program.Actions.Shown.{is_shown, control_count, one_control}

named_example : NamedIn (program_flag_names news) (news.full_title or news.title)
named_example = program_flag_names-NamedIn news

abbrev lists : Lists
lists = record {
  reserves = news ∷ film ∷ [];
  recording = film ∷ [];
  recorded = [];
  reserve_index = ("a1", news) ∷ ("b2", film) ∷ [];
  recording_index = ("b2", film) ∷ [];
}

control_example :
    (control_count 2000 news ≡ 1) × (is_shown (action_button 2000 news "stop") ≡ news.is_recording)
control_example = one_control 2000 news (λ _. refl)
