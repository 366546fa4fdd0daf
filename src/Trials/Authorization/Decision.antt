-- ===== src/Trials/Authorization/Decision.antt =====
-- What G6 decides, in counts of rows.
use instruct_eval.Common.{
  String, ◌≡◌, refl, ap, Bool, true, false, not, ◌&&◌, ◌||◌, Option, none, some, List, [], ◌∷◌, ltb,
  ◌==◌, nat_eq, string_eq, length, count_where, Bool-cases, inl, inr,
}
use instruct_eval.Trials.Authorization.{
  Pair, same_pair, Score, all_of, pair_of_row, directions_at, directions_of, rows_valid, votes,
  preference, Dict, counts_valid, core_authorized, negative_control_authorized, rows_authorized,
  expected_pairs, is_input_valid, rows_of, g6_authorized,
}
use instruct_eval.Trials.Authorization.Counts.{
  rows_of_pair, rows_voting, expected_rows, directions_at-directions_of, rows_valid-expected,
  length-row_directions, votes-row_directions, all_of-row_directions,
}

all_of_ext {ℓ} :
    {A : Type ℓ} (f g : A → Bool) (xs : List A) → ((x : A) → f x ≡ g x) → all_of f xs ≡ all_of g xs
unfolding all_of
all_of_ext f g [] h = refl
all_of_ext f g (x ∷ xs) h = rw (h x, all_of_ext f g xs h) refl

-- Each expected pair has as many rows as `ASSIGNMENT_IDS` has assignments of it.
unfoldable pub has_right_counts : List Score → List Pair → Bool
unfolding all_of
has_right_counts rows expected =
    all_of (λ pair. rows_of_pair pair rows == count_where (same_pair pair) expected) expected

-- More rows of condition B than of condition A have the preferred direction.
unfoldable pub prefers_treatment : List Score → Dict String → String → Bool
prefers_treatment rows preferred scenario =
    ltb (rows_voting (scenario, "A") (preference preferred scenario) rows)
      (rows_voting (scenario, "B") (preference preferred scenario) rows)

-- Every row of a pair has a direction.
unfoldable pub agrees : List Score → Pair → String → Bool
unfolding all_of
agrees rows pair direction =
    all_of (λ row. not (same_pair (pair_of_row row) pair) || row.direction == direction) rows

-- the decision of G6 in counts of rows
unfoldable pub authorized_by_counts : List Score → Dict String → Bool
authorized_by_counts rows preferred =
    rows_valid rows expected_pairs
    && has_right_counts rows expected_pairs
    && (prefers_treatment rows preferred "core-1" && prefers_treatment rows preferred "core-2")
    && (agrees rows ("negative-control", "A") (preference preferred "negative-control")
        && agrees rows ("negative-control", "B") (preference preferred "negative-control"))

module _ (rows : List Score) (expected : List Pair) (h : expected_rows rows expected ≡ true) where
  counts_valid-rows :
      counts_valid (directions_of rows expected) expected ≡ has_right_counts rows expected
  unfolding counts_valid has_right_counts
  counts_valid-rows =
      all_of_ext
        (λ pair.
          length (directions_at pair (directions_of rows expected))
          == count_where (same_pair pair) expected)
        (λ pair. rows_of_pair pair rows == count_where (same_pair pair) expected) expected
        (λ pair.
          rw (directions_at-directions_of pair rows expected h)
            (rw (length-row_directions pair rows) refl))

  votes-rows :
      (scenario condition direction : String)
      → votes (directions_of rows expected) scenario condition direction
        ≡ rows_voting (scenario, condition) direction rows
  unfolding votes
  votes-rows s c d =
      rw (directions_at-directions_of (s, c) rows expected h) (votes-row_directions (s, c) d rows)

  agrees-rows :
      (pair : Pair) (d : String)
      → all_of (λ direction. direction == d) (directions_at pair (directions_of rows expected))
        ≡ agrees rows pair d
  unfolding agrees
  agrees-rows pair d =
      rw (directions_at-directions_of pair rows expected h) (all_of-row_directions pair d rows)

  core-rows :
      (preferred : Dict String)
      → core_authorized (directions_of rows expected) preferred
        ≡ (prefers_treatment rows preferred "core-1" && prefers_treatment rows preferred "core-2")
  unfolding core_authorized prefers_treatment
  core-rows preferred =
      rw
        (
          votes-rows "core-1" "A" (preference preferred "core-1"),
          votes-rows "core-1" "B" (preference preferred "core-1"),
          votes-rows "core-2" "A" (preference preferred "core-2"),
          votes-rows "core-2" "B" (preference preferred "core-2"),
        )
        refl

  control-rows :
      (preferred : Dict String)
      → negative_control_authorized (directions_of rows expected) preferred ≡ (
          agrees rows ("negative-control", "A") (preference preferred "negative-control")
          && agrees rows ("negative-control", "B") (preference preferred "negative-control"))
  unfolding negative_control_authorized
  control-rows preferred =
      rw
        (
          agrees-rows ("negative-control", "A") (preference preferred "negative-control"),
          agrees-rows ("negative-control", "B") (preference preferred "negative-control"),
        )
        refl

rows_authorized-counts :
    (rows : List Score) (preferred : Dict String)
    → rows_authorized rows preferred ≡ authorized_by_counts rows preferred
unfolding rows_authorized authorized_by_counts
rows_authorized-counts rows preferred = elim (Bool-cases (rows_valid rows expected_pairs)) [
  | inr invalid ↦ rw invalid refl
  | inl valid ↦
      let h = rows_valid-expected rows expected_pairs valid in
      rw
        (
          counts_valid-rows rows expected_pairs h,
          core-rows rows expected_pairs h preferred,
          control-rows rows expected_pairs h preferred,
        )
        refl
]

-- the decision of G6 on the released scores, in counts of rows
abbrev pub released_by_counts : List (Dict String) → Dict String → Bool
released_by_counts released preferred =
    is_input_valid released preferred
    && elim (rows_of released) [ none ↦ false | some rows ↦ authorized_by_counts rows preferred ]

decided :
    (rows : Option (List Score)) (preferred : Dict String)
    → elim rows [ none ↦ false | some rows ↦ rows_authorized rows preferred ]
      ≡ elim rows [ none ↦ false | some rows ↦ authorized_by_counts rows preferred ]
decided none preferred = refl
decided (some rows) preferred = rows_authorized-counts rows preferred

-- `g6_authorized` is true exactly when the input and its rows are valid, each pair of a scenario
-- and a condition has as many rows as it has assignments, in both core scenarios more rows of
-- condition B than of condition A have the preferred direction, and every row of the negative
-- control has it; all of it counted on the rows, without the grouping into lists of directions.
pub g6_authorized-counts :
    (released : List (Dict String)) (preferred : Dict String)
    → g6_authorized released preferred ≡ released_by_counts released preferred
unfolding g6_authorized
g6_authorized-counts released preferred =
    ap (λ (b : Bool). is_input_valid released preferred && b) (decided (rows_of released) preferred)
