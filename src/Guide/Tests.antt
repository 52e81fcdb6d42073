-- ===== src/Guide/Tests.antt =====
-- Cards of two channels.
use strata_pvr.Base.{List, [], ◌∷◌}
use strata_pvr.Guide.Cards.{Card, down, adjacent_schedule_card}
use strata_pvr.Guide.Cards.Nearest.{IsBelow, adjacent_schedule_card-IsBelow}

abbrev morning : Card
morning = record { program = 1; channel_index = 0; start = 100 }

abbrev cards : List Card
cards =
    record { program = 3; channel_index = 0; start = 300 }
    ∷ morning
    ∷ record { program = 4; channel_index = 1; start = 150 }
    ∷ record { program = 2; channel_index = 0; start = 200 }
    ∷ []

below_example : IsBelow morning cards (adjacent_schedule_card morning down cards)
below_example = adjacent_schedule_card-IsBelow morning cards
