-- ===== src/Trials/Authorization.antt =====
-- `g6_authorized` of trials.py: whether the released scores authorize the treatment. A mapping is
-- the list of its items, and a set is a list of its members.
pub mod Counts
pub mod Decision
use Prim.Native.Char.{code}
use Prim.Native.String
use instruct_eval.Common.{
  ℕ, ◌+◌, String, Bool, true, false, not, ◌&&◌, ◌||◌, Option, none, some, List, [], ◌∷◌, ◌++◌, ltb,
  ◌==◌, nat_eq, string_eq, if◌then◌else◌, length, map, count_where,
}

abbrev pub Dict : Type 0 → Type 0
Dict A = List (String × A)

-- a scenario and a condition
abbrev pub Pair : Type 0
Pair = String × String

abbrev pub same_pair : Pair → Pair → Bool
same_pair p q = p.0 == q.0 && p.1 == q.1

-- a row: blind id, scenario, condition and direction
pub record Score : Type 0 where
  pub blind_id : String
  pub scenario : String
  pub condition : String
  pub direction : String

unfoldable pub any_of {ℓ} : {A : Type ℓ} → (A → Bool) → List A → Bool
any_of p [] = false
any_of p (x ∷ xs) = p x || any_of p xs

unfoldable pub all_of {ℓ} : {A : Type ℓ} → (A → Bool) → List A → Bool
all_of p [] = true
all_of p (x ∷ xs) = p x && all_of p xs

-- `set(a) == set(b)`
pub same_members {ℓ} : {A : Type ℓ} → (A → A → Bool) → List A → List A → Bool
unfolding any_of all_of
same_members same xs ys = all_of (λ x. any_of (same x) ys) xs && all_of (λ y. any_of (same y) xs) ys

-- `len(set(a))`
pub distinct_count {ℓ} : {A : Type ℓ} → (A → A → Bool) → List A → ℕ
unfolding any_of
distinct_count same [] = 0
distinct_count same (x ∷ xs) = (if any_of (same x) xs then 0 else 1) + distinct_count same xs

unfoldable pub get : String → Dict String → Option String
get key [] = none
get key (item ∷ items) = if item.0 == key then some item.1 else get key items

infixl 5 ◌>>=◌
abbrev ◌>>=◌ : {A B : Type 0} → Option A → (A → Option B) → Option B
none >>= f = none
some a >>= f = f a

-- `ASSIGNMENT_IDS`
abbrev pub assignment_ids : List String
assignment_ids =
    "core-1-A-1" ∷ "core-1-A-2" ∷ "core-1-A-3" ∷ "core-1-A-4" ∷ "core-1-B-1" ∷ "core-1-B-2"
    ∷ "core-1-B-3" ∷ "core-1-B-4" ∷ "core-2-A-1" ∷ "core-2-A-2" ∷ "core-2-A-3" ∷ "core-2-A-4"
    ∷ "core-2-B-1" ∷ "core-2-B-2" ∷ "core-2-B-3" ∷ "core-2-B-4" ∷ "negative-control-A-1"
    ∷ "negative-control-A-2" ∷ "negative-control-B-1" ∷ "negative-control-B-2" ∷ []

-- `SCENARIOS`
abbrev pub scenarios : List String
scenarios = "core-1" ∷ "core-2" ∷ "negative-control" ∷ []

-- `value.rsplit("-", 1)`, where the value has a dash
unfoldable pub split_last : String → Option (String × String)
split_last String.[] = none
split_last (String.◌∷◌ c s) = elim (split_last s) [
  | some parts ↦ some (String.◌∷◌ c parts.0, parts.1)
  | none ↦ if code c == b'-' then some (String.[], s) else none
]

-- the first two parts of `assignment.rsplit("-", 2)`, where it has three
unfoldable pub pair_of : String → Option Pair
unfolding split_last
pair_of assignment = elim (split_last assignment) [ none ↦ none | some parts ↦ split_last parts.0 ]

unfoldable pub pairs_of : List String → List Pair
unfolding pair_of
pairs_of [] = []
pairs_of (assignment ∷ rest) = elim (pair_of assignment) [
  | none ↦ pairs_of rest
  | some pair ↦ pair ∷ pairs_of rest
]

-- `_g6_expected_pairs`, each pair as often as an assignment has it
unfoldable pub expected_pairs : List Pair
unfolding pairs_of
expected_pairs = pairs_of assignment_ids

-- `_g6_input_valid`, without the tests of types
unfoldable pub is_input_valid : List (Dict String) → Dict String → Bool
unfolding same_members any_of
is_input_valid released preferred =
    same_members (λ a b. a == b) (map (λ (item : String × String). item.0) preferred) scenarios
    && not (any_of (λ (item : String × String). item.1 == "") preferred)
    && length released == length assignment_ids

-- the fields of a score, when they are the four
unfoldable pub row_of_score : Dict String → Option Score
unfolding get same_members
row_of_score score =
    if same_members (λ a b. a == b) (map (λ (item : String × String). item.0) score)
      ("blind_id" ∷ "scenario" ∷ "condition" ∷ "direction" ∷ [])
    then (do
      blind_id ← get "blind_id" score
      scenario ← get "scenario" score
      condition ← get "condition" score
      direction ← get "direction" score
      some (record {
        blind_id = blind_id;
        scenario = scenario;
        condition = condition;
        direction = direction;
      }))
    else none

-- `_g6_rows`
unfoldable pub rows_of : List (Dict String) → Option (List Score)
unfolding row_of_score
rows_of [] = some []
rows_of (score ∷ released) =
    let rest = rows_of released in do row ← row_of_score score; rows ← rest; some (row ∷ rows)

abbrev pub pair_of_row : Score → Pair
pair_of_row row = (row.scenario, row.condition)

-- whether a row has an empty text
abbrev pub has_empty : Score → Bool
has_empty row =
    row.blind_id == "" || row.scenario == "" || row.condition == "" || row.direction == ""

-- `_g6_rows_valid`
unfoldable pub rows_valid : List Score → List Pair → Bool
unfolding any_of distinct_count same_members
rows_valid rows expected =
    not (any_of has_empty rows)
    && distinct_count (λ a b. a == b) (map (λ (row : Score). row.blind_id) rows)
      == length assignment_ids
    && same_members same_pair (map pair_of_row rows) expected

-- `directions`: each expected pair with its list
abbrev pub Directions : Type 0
Directions = List (Pair × List String)

-- `{pair: [] for pair in expected}`
unfoldable pub no_directions : List Pair → Directions → Directions
unfolding any_of
no_directions [] seen = seen
no_directions (pair ∷ expected) seen = no_directions expected (
    if any_of (λ (item : Pair × List String). same_pair item.0 pair) seen
    then seen
    else seen ++ (pair, []) ∷ [])

-- `directions[pair]`, at a pair that it has
unfoldable pub directions_at : Pair → Directions → List String
directions_at pair [] = []
directions_at pair (item ∷ items) =
    if same_pair item.0 pair then item.1 else directions_at pair items

-- `directions[pair].append(direction)`, at a pair that it has
unfoldable pub append_direction : Pair → String → Directions → Directions
append_direction pair direction [] = []
append_direction pair direction (item ∷ items) =
    if same_pair item.0 pair
    then (item.0, item.1 ++ direction ∷ []) ∷ items
    else item ∷ append_direction pair direction items

-- the loop of `_g6_directions`
unfoldable pub add_rows : List Score → Directions → Directions
add_rows [] directions = directions
add_rows (row ∷ rows) directions =
    add_rows rows (append_direction (pair_of_row row) row.direction directions)

-- `_g6_directions`
unfoldable pub directions_of : List Score → List Pair → Directions
unfolding no_directions add_rows append_direction
directions_of rows expected = add_rows rows (no_directions expected [])

-- `_g6_counts_valid`
unfoldable pub counts_valid : Directions → List Pair → Bool
unfolding all_of directions_at
counts_valid directions expected =
    all_of (λ pair. length (directions_at pair directions) == count_where (same_pair pair) expected)
      expected

-- `sum(direction == preferred[scenario] for direction in directions[(scenario, condition)])`
unfoldable pub votes : Directions → String → String → String → ℕ
unfolding directions_at
votes directions scenario condition preference =
    count_where (λ direction. direction == preference)
      (directions_at (scenario, condition) directions)

-- `preferred[scenario]`, at a scenario that it has
unfoldable pub preference : Dict String → String → String
unfolding get
preference preferred scenario = elim (get scenario preferred) [ some d ↦ d | none ↦ "" ]

-- `_g6_core_authorized`
unfoldable pub core_authorized : Directions → Dict String → Bool
unfolding votes preference
core_authorized directions preferred =
    ltb (votes directions "core-1" "A" (preference preferred "core-1"))
      (votes directions "core-1" "B" (preference preferred "core-1"))
    && ltb (votes directions "core-2" "A" (preference preferred "core-2"))
        (votes directions "core-2" "B" (preference preferred "core-2"))

-- `_g6_negative_control_authorized`
unfoldable pub negative_control_authorized : Directions → Dict String → Bool
unfolding all_of directions_at preference
negative_control_authorized directions preferred =
    all_of (λ direction. direction == preference preferred "negative-control")
      (directions_at ("negative-control", "A") directions)
    && all_of (λ direction. direction == preference preferred "negative-control")
        (directions_at ("negative-control", "B") directions)

-- `g6_authorized` on its rows
unfoldable pub rows_authorized : List Score → Dict String → Bool
unfolding rows_valid directions_of counts_valid core_authorized negative_control_authorized
rows_authorized rows preferred =
    rows_valid rows expected_pairs
    && counts_valid (directions_of rows expected_pairs) expected_pairs
    && core_authorized (directions_of rows expected_pairs) preferred
    && negative_control_authorized (directions_of rows expected_pairs) preferred

unfoldable pub g6_authorized : List (Dict String) → Dict String → Bool
unfolding is_input_valid rows_of rows_authorized
g6_authorized released preferred =
    is_input_valid released preferred
    && elim (rows_of released) [ none ↦ false | some rows ↦ rows_authorized rows preferred ]
