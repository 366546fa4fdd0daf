-- ===== src/Workflows/Json.antt =====
-- JSON values, as the activities and workflows exchange them. A mapping is the list of its items.
use instruct_eval.Common.{
  ℕ, suc, ◌+◌, String, Bool, true, false, not, ◌&&◌, ◌||◌, Option, none, some, List, [], ◌∷◌, ◌==◌,
  nat_eq, string_eq, if◌then◌else◌,
}

-- `other` is any other scalar, known by its text.
mutual
  pub data Value : Type 0 where
    text : String → Value
    flag : Bool → Value
    number : ℕ → Value
    other : String → Value
    sequence : Values → Value
    mapping : Items → Value

  pub data Values : Type 0 where
    no_values : Values
    value : Value → Values → Values

  pub data Items : Type 0 where
    no_items : Items
    item : String → Value → Items → Items

abbrev pub Payload : Type 0
Payload = List (String × Value)

-- an object inside a value, and back
unfoldable pub items : Payload → Items
items [] = no_items
items (entry ∷ entries) = item entry.0 entry.1 (items entries)

unfoldable pub entries_of : Items → Payload
entries_of no_items = []
entries_of (item key v rest) = (key, v) ∷ entries_of rest

unfoldable pub values : List Value → Values
values [] = no_values
values (v ∷ vs) = value v (values vs)

unfoldable pub elements : Values → List Value
elements no_values = []
elements (value v rest) = v ∷ elements rest

-- `mapping.get(key)`
unfoldable pub get : String → Payload → Option Value
get key [] = none
get key (entry ∷ entries) = if entry.0 == key then some entry.1 else get key entries

pub item_at : String → Items → Option Value
item_at key no_items = none
item_at key (item name v rest) = if name == key then some v else item_at key rest

pub item_count : Items → ℕ
item_count no_items = 0
item_count (item name v rest) = suc (item_count rest)

abbrev bool_beq : Bool → Bool → Bool
bool_beq true b = b
bool_beq false b = not b

-- `a == b`; mappings are equal when they have as many items, and each of the first is in the second.
unfoldable mutual
  unfolding item_at item_count

  pub value_beq : Value → Value → Bool
  value_beq (text a) (text b) = a == b
  value_beq (flag a) (flag b) = bool_beq a b
  value_beq (number a) (number b) = a == b
  value_beq (other a) (other b) = a == b
  value_beq (sequence a) (sequence b) = values_beq a b
  value_beq (mapping a) (mapping b) = item_count a == item_count b && items_within a b
  value_beq _ _ = false

  pub values_beq : Values → Values → Bool
  values_beq no_values no_values = true
  values_beq (value a as_) (value b bs) = value_beq a b && values_beq as_ bs
  values_beq _ _ = false

  pub items_within : Items → Items → Bool
  items_within no_items found = true
  items_within (item key v rest) found =
      elim (item_at key found) [ none ↦ false | some w ↦ value_beq v w ] && items_within rest found

abbrev pub option_value_beq : Option Value → Option Value → Bool
option_value_beq none none = true
option_value_beq (some a) (some b) = value_beq a b
option_value_beq _ _ = false

-- `mapping.get(key) is flag`
abbrev pub is_flag : Bool → Option Value → Bool
is_flag b (some (flag c)) = bool_beq b c
is_flag b _ = false

-- every item of the first mapping is one of the second
unfoldable pub is_within : Payload → Payload → Bool
unfolding get
is_within [] payload = true
is_within (entry ∷ entries) payload =
    option_value_beq (get entry.0 payload) (some entry.1) && is_within entries payload

-- `a == b` on mappings
abbrev pub same_payload : Payload → Payload → Bool
same_payload a b = is_within a b && is_within b a

unfoldable pub has_key : String → Payload → Bool
has_key key [] = false
has_key key (entry ∷ entries) = entry.0 == key || has_key key entries

unfoldable pub is_member : String → List String → Bool
is_member key [] = false
is_member key (name ∷ names) = name == key || is_member key names

unfoldable pub keys_within : Payload → List String → Bool
unfolding is_member
keys_within [] names = true
keys_within (entry ∷ entries) names = is_member entry.0 names && keys_within entries names

unfoldable pub has_keys : List String → Payload → Bool
unfolding has_key
has_keys [] payload = true
has_keys (name ∷ names) payload = has_key name payload && has_keys names payload

-- `set(mapping) == names`
abbrev pub has_exactly : List String → Payload → Bool
has_exactly names payload = keys_within payload names && has_keys names payload

-- `len(set(texts))`
unfoldable pub distinct_texts : List String → ℕ
unfolding is_member
distinct_texts [] = 0
distinct_texts (t ∷ ts) = (if is_member t ts then 0 else 1) + distinct_texts ts

-- the text of a value that is a nonempty text
abbrev pub nonempty_text : Option Value → Option String
nonempty_text (some (text t)) = if t == "" then none else some t
nonempty_text _ = none

-- the mapping that a value is
abbrev pub as_mapping : Value → Option Payload
as_mapping (mapping fields) = some (entries_of fields)
as_mapping _ = none

-- the list that a value is
abbrev pub as_sequence : Option Value → Option (List Value)
as_sequence (some (sequence vs)) = some (elements vs)
as_sequence _ = none

-- every element of a list, when all of them are mappings
unfoldable pub all_mappings : List Value → Option (List Payload)
unfolding entries_of
all_mappings [] = some []
all_mappings (v ∷ vs) = elim (as_mapping v) [
  | none ↦ none
  | some fields ↦ elim (all_mappings vs) [ none ↦ none | some rest ↦ some (fields ∷ rest) ]
]

-- every element of a list, when all of them are texts
unfoldable pub all_texts : List Value → Option (List String)
all_texts [] = some []
all_texts (text t ∷ vs) = elim (all_texts vs) [ none ↦ none | some rest ↦ some (t ∷ rest) ]
all_texts (_ ∷ vs) = none
