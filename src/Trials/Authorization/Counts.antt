-- ===== src/Trials/Authorization/Counts.antt =====
-- What G6 decides, in counts of rows: the grouping of directions by scenario and condition does
-- not show.
use instruct_eval.Common.{
  ℕ, String, ◌≡◌, refl, sym, ap, ◌∙◌, Bool, true, false, not, ◌&&◌, ◌||◌, List, [], ◌∷◌, ◌++◌,
  arith, ◌==◌, nat_eq, string_eq, eq_iff, if◌then◌else◌, length, map, count_where, Bool-cases, inl,
  inr,
}
use instruct_eval.Trials.Authorization.{
  Pair, same_pair, Score, any_of, all_of, pair_of_row, Directions, no_directions, directions_at,
  append_direction, add_rows, directions_of, same_members, rows_valid,
}

-- the directions of the rows of one pair, in their order
unfoldable pub row_directions : Pair → List Score → List String
row_directions pair [] = []
row_directions pair (row ∷ rows) =
    if same_pair (pair_of_row row) pair
    then row.direction ∷ row_directions pair rows
    else row_directions pair rows

-- whether a dictionary of directions has a pair
unfoldable pub has_pair : Pair → Directions → Bool
unfolding any_of
has_pair pair ds = any_of (λ (item : Pair × List String). same_pair item.0 pair) ds

same_pair_trans : (p q r : Pair) → same_pair p q ≡ true → same_pair p r ≡ same_pair q r
same_pair_trans p q r h = ground (arith, eq_iff p.0 q.0, eq_iff p.1 q.1)

append_keeps :
    (p q : Pair) (d : String) (ds : Directions)
    → has_pair p (append_direction q d ds) ≡ has_pair p ds
unfolding has_pair any_of append_direction
append_keeps p q d [] = refl
append_keeps p q d (item ∷ items) = ground (arith, append_keeps p q d items)

directions_at-append :
    (p q : Pair) (d : String) (ds : Directions)
    → has_pair q ds ≡ true
    → directions_at p (append_direction q d ds)
      ≡ (if same_pair q p then directions_at p ds ++ d ∷ [] else directions_at p ds)
unfolding has_pair any_of append_direction directions_at
directions_at-append p q d [] h = cc
directions_at-append p q d (item ∷ items) h = ground (
  arith,
  eq_iff item.0.0 q.0,
  eq_iff item.0.1 q.1,
  eq_iff q.0 p.0,
  eq_iff q.1 p.1,
  eq_iff item.0.0 p.0,
  eq_iff item.0.1 p.1,
  directions_at-append p q d items,
)

-- whether every row's pair is one of a dictionary
abbrev covered : List Score → Directions → Bool
covered rows ds = all_of (λ row. has_pair (pair_of_row row) ds) rows

covered-append :
    (q : Pair) (d : String) (rows : List Score) (ds : Directions)
    → covered rows ds ≡ true
    → covered rows (append_direction q d ds) ≡ true
unfolding all_of
covered-append q d [] ds h = refl
covered-append q d (row ∷ rows) ds h =
    ground (arith, append_keeps (pair_of_row row) q d ds, covered-append q d rows ds)

append_nil : (xs : List String) → xs ++ [] ≡ xs
append_nil [] = refl
append_nil (x ∷ xs) = ap (λ (l : List String). x ∷ l) (append_nil xs)

append_assoc_one :
    (b : Bool) (xs ys : List String) (d : String)
    → (if b then xs ++ d ∷ [] else xs) ++ ys ≡ xs ++ (if b then d ∷ ys else ys)
append_assoc_one true [] ys d = refl
append_assoc_one true (x ∷ xs) ys d =
    ap (λ (l : List String). x ∷ l) (append_assoc_one true xs ys d)
append_assoc_one false xs ys d = refl

row_directions_cons :
    (p : Pair) (row : Score) (rows : List Score)
    → row_directions p (row ∷ rows) ≡ (
        if same_pair (pair_of_row row) p
        then row.direction ∷ row_directions p rows
        else row_directions p rows)
unfolding row_directions
row_directions_cons p row rows = refl

directions_at-add_rows :
    (p : Pair) (rows : List Score) (ds : Directions)
    → covered rows ds ≡ true
    → directions_at p (add_rows rows ds) ≡ directions_at p ds ++ row_directions p rows
unfolding all_of add_rows row_directions
directions_at-add_rows p [] ds h = sym (append_nil (directions_at p ds))
directions_at-add_rows p (row ∷ rows) ds h =
    directions_at-add_rows p rows (append_direction (pair_of_row row) row.direction ds)
      (covered-append (pair_of_row row) row.direction rows ds (ground arith))
    ∙ rw (directions_at-append p (pair_of_row row) row.direction ds (ground arith)) (
        append_assoc_one (same_pair (pair_of_row row) p) (directions_at p ds)
          (row_directions p rows) row.direction)

has_pair-end :
    (p q : Pair) (ds : Directions)
    → has_pair p (ds ++ (q, []) ∷ []) ≡ (has_pair p ds || same_pair q p)
unfolding has_pair any_of
has_pair-end p q [] = ground arith
has_pair-end p q (item ∷ items) = ground (arith, has_pair-end p q items)

has_same_pair :
    (p q : Pair) (ds : Directions) → same_pair p q ≡ true → has_pair p ds ≡ has_pair q ds
unfolding has_pair any_of
has_same_pair p q [] h = refl
has_same_pair p q (item ∷ items) h =
    ground (arith, eq_iff p.0 q.0, eq_iff p.1 q.1, has_same_pair p q items)

same_pair_sym : (p q : Pair) → same_pair p q ≡ same_pair q p
same_pair_sym p q = ground (arith, eq_iff p.0 q.0, eq_iff p.1 q.1, eq_iff q.0 p.0, eq_iff q.1 p.1)

or_absorb : (a b c d : Bool) → (b ≡ true → a ≡ d) → d ≡ true → (a || c) ≡ (a || (b || c))
or_absorb a b c d h k = ground (arith, h)

or_swap : (a b c : Bool) → ((a || b) || c) ≡ (a || (b || c))
or_swap a b c = ground arith

has_pair_of :
    (q : Pair) (ds : Directions)
    → any_of (λ (item : Pair × List String). same_pair item.0 q) ds ≡ true
    → has_pair q ds ≡ true
unfolding has_pair
has_pair_of q ds h = h

-- Every expected pair has an entry.
has_pair-no_directions :
    (p : Pair) (expected : List Pair) (seen : Directions)
    → has_pair p (no_directions expected seen)
      ≡ (has_pair p seen || any_of (λ q. same_pair p q) expected)
unfolding no_directions any_of
has_pair-no_directions p [] seen = ground arith
has_pair-no_directions p (q ∷ expected) seen =
    elim (Bool-cases (any_of (λ (item : Pair × List String). same_pair item.0 q) seen)) [
      | inl e ↦ rw e (
          has_pair-no_directions p expected seen
          ∙ or_absorb (has_pair p seen) (same_pair p q) (any_of (λ r. same_pair p r) expected)
              (has_pair q seen) (has_same_pair p q seen) (has_pair_of q seen e))
      | inr e ↦ rw e (
          has_pair-no_directions p expected (seen ++ (q, []) ∷ [])
          ∙ ap (λ (b : Bool). b || any_of (λ r. same_pair p r) expected)
              (has_pair-end p q seen ∙ ap (λ (b : Bool). has_pair p seen || b) (same_pair_sym q p))
          ∙ or_swap (has_pair p seen) (same_pair p q) (any_of (λ r. same_pair p r) expected))
    ]

directions_at-end :
    (p q : Pair) (ds : Directions)
    → directions_at p ds ≡ []
    → directions_at p (ds ++ (q, []) ∷ []) ≡ []
unfolding directions_at
directions_at-end p q [] h = ground arith
directions_at-end p q (item ∷ items) h = ground (arith, directions_at-end p q items)

directions_at-no_directions :
    (p : Pair) (expected : List Pair) (seen : Directions)
    → directions_at p seen ≡ []
    → directions_at p (no_directions expected seen) ≡ []
unfolding no_directions any_of
directions_at-no_directions p [] seen h = h
directions_at-no_directions p (q ∷ expected) seen h =
    elim (Bool-cases (any_of (λ (item : Pair × List String). same_pair item.0 q) seen)) [
      | inl e ↦ rw e (directions_at-no_directions p expected seen h)
      | inr e ↦ rw e (
          directions_at-no_directions p expected (seen ++ (q, []) ∷ [])
            (directions_at-end p q seen h))
    ]

-- whether every row's pair is an expected one
abbrev pub expected_rows : List Score → List Pair → Bool
expected_rows rows expected =
    all_of (λ row. any_of (λ q. same_pair (pair_of_row row) q) expected) rows

covered-no_directions :
    (rows : List Score) (expected : List Pair)
    → expected_rows rows expected ≡ true
    → covered rows (no_directions expected []) ≡ true
unfolding all_of
covered-no_directions [] expected h = refl
covered-no_directions (row ∷ rows) expected h = ground (
  arith,
  has_pair-no_directions (pair_of_row row) expected [],
  covered-no_directions rows expected,
)

-- The grouping: the list of a pair is the directions of its rows, in their order.
pub directions_at-directions_of :
    (p : Pair) (rows : List Score) (expected : List Pair)
    → expected_rows rows expected ≡ true
    → directions_at p (directions_of rows expected) ≡ row_directions p rows
unfolding directions_of
directions_at-directions_of p rows expected h =
    directions_at-add_rows p rows (no_directions expected [])
      (covered-no_directions rows expected h)
    ∙ rw (directions_at-no_directions p expected [] (unfold directions_at in refl)) refl

all_of-map :
    (f : Pair → Bool) (rows : List Score)
    → all_of f (map pair_of_row rows) ≡ all_of (λ row. f (pair_of_row row)) rows
unfolding all_of
all_of-map f [] = refl
all_of-map f (row ∷ rows) = ap (λ (b : Bool). f (pair_of_row row) && b) (all_of-map f rows)

pub rows_valid-expected :
    (rows : List Score) (expected : List Pair)
    → rows_valid rows expected ≡ true
    → expected_rows rows expected ≡ true
unfolding rows_valid same_members
rows_valid-expected rows expected h =
    let all_expected : all_of (λ p. any_of (same_pair p) expected) (map pair_of_row rows) ≡ true =
      ground arith in
    sym (all_of-map (λ p. any_of (same_pair p) expected) rows) ∙ all_expected

-- how many rows have a pair
unfoldable pub rows_of_pair : Pair → List Score → ℕ
rows_of_pair pair rows = count_where (λ row. same_pair (pair_of_row row) pair) rows

-- how many rows of a pair have a direction
unfoldable pub rows_voting : Pair → String → List Score → ℕ
rows_voting pair direction rows =
    count_where (λ row. same_pair (pair_of_row row) pair && row.direction == direction) rows

pub length-row_directions :
    (p : Pair) (rows : List Score) → length (row_directions p rows) ≡ rows_of_pair p rows
unfolding row_directions rows_of_pair
length-row_directions p [] = refl
length-row_directions p (row ∷ rows) = ground (arith, length-row_directions p rows)

pub votes-row_directions :
    (p : Pair) (d : String) (rows : List Score)
    → count_where (λ direction. direction == d) (row_directions p rows) ≡ rows_voting p d rows
unfolding row_directions rows_voting
votes-row_directions p d [] = refl
votes-row_directions p d (row ∷ rows) = ground (arith, votes-row_directions p d rows)

pub all_of-row_directions :
    (p : Pair) (d : String) (rows : List Score)
    → all_of (λ direction. direction == d) (row_directions p rows)
      ≡ all_of (λ row. not (same_pair (pair_of_row row) p) || row.direction == d) rows
unfolding row_directions all_of
all_of-row_directions p d [] = refl
all_of-row_directions p d (row ∷ rows) = ground (arith, all_of-row_directions p d rows)
