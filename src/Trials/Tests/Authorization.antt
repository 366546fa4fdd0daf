-- ===== src/Trials/Tests/Authorization.antt =====
-- G6 on concrete scores.
use instruct_eval.Common.{String, ◌≡◌, refl, true, List, [], ◌∷◌, length}
use instruct_eval.Trials.Authorization.{Dict, g6_authorized, expected_pairs}
use instruct_eval.Trials.Authorization.Decision.{released_by_counts, g6_authorized-counts}

-- Every assignment has a pair.
all_assignments-pairs : length expected_pairs ≡ 20
unfolding expected_pairs
all_assignments-pairs = refl

abbrev score : String → String → String → String → Dict String
score blind_id scenario condition direction =
    ("blind_id", blind_id)
    ∷ ("scenario", scenario)
    ∷ ("condition", condition)
    ∷ ("direction", direction)
    ∷ []

abbrev preferred : Dict String
preferred = ("core-1", "up") ∷ ("core-2", "up") ∷ ("negative-control", "flat") ∷ []

abbrev released : List (Dict String)
released =
    score "1" "core-1" "A" "down"
    ∷ score "2" "core-1" "A" "down"
    ∷ score "3" "core-1" "A" "up"
    ∷ score "4" "core-1" "A" "down"
    ∷ score "5" "core-1" "B" "up"
    ∷ score "6" "core-1" "B" "up"
    ∷ score "7" "core-1" "B" "down"
    ∷ score "8" "core-1" "B" "down"
    ∷ score "9" "core-2" "A" "down"
    ∷ score "10" "core-2" "A" "down"
    ∷ score "11" "core-2" "A" "down"
    ∷ score "12" "core-2" "A" "down"
    ∷ score "13" "core-2" "B" "up"
    ∷ score "14" "core-2" "B" "down"
    ∷ score "15" "core-2" "B" "down"
    ∷ score "16" "core-2" "B" "down"
    ∷ score "17" "negative-control" "A" "flat"
    ∷ score "18" "negative-control" "A" "flat"
    ∷ score "19" "negative-control" "B" "flat"
    ∷ score "20" "negative-control" "B" "flat"
    ∷ []

released-authorized : g6_authorized released preferred ≡ true
unfolding g6_authorized expected_pairs
released-authorized = refl

g6_authorized-counts_example :
    g6_authorized released preferred ≡ released_by_counts released preferred
g6_authorized-counts_example = g6_authorized-counts released preferred
