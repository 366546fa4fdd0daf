-- ===== src/Trials/Release/Order.antt =====
-- The order of the records that `release_g5` releases.
use Prim.Native.Nat.{Ordering, compare as compare_ℕ}
use Prim.Native.Char.{code}
use Prim.Native.String.compare
use Prim.Native.String.{compare, then as chain}
use instruct_eval.Common.{
  ℕ, ◌+◌, String, ◌≡◌, refl, sym, ◌∙◌, Bool, true, false, none, some, List, [], ◌∷◌, arith,
  if◌then◌else◌, map, nat_eq, string_eq, ◌==◌, eq_iff, ==_refl, Bool-cases, inl, inr, count_where,
}
use instruct_eval.Workflows.Json.{Payload, text, get}
use instruct_eval.Workflows.Experiment.Results.{every, is_sorted, text_leb}
use instruct_eval.Trials.Release.{
  PrivateAssignment, FrozenPrivateMap, Released, released_assignment, insert_released,
  sort_released, released_assignments,
}

number_order : (m n : ℕ) → compare_ℕ m n ≡ Ordering.gt → compare_ℕ n m ≡ Ordering.lt
number_order m n h = ground arith

same_order : (m n : ℕ) → compare_ℕ m n ≡ Ordering.eq → compare_ℕ n m ≡ Ordering.eq
same_order m n h = ground arith

then_order :
    (o p q r : Ordering)
    → (o ≡ Ordering.gt → p ≡ Ordering.lt)
    → (o ≡ Ordering.eq → p ≡ Ordering.eq)
    → (q ≡ Ordering.gt → r ≡ Ordering.lt)
    → chain o q ≡ Ordering.gt
    → chain p r ≡ Ordering.lt
then_order Ordering.lt p q r g e k h = absurd (let no : ⊥ = cc in no)
then_order Ordering.eq p q r g e k h = rw (e refl) (k h)
then_order Ordering.gt p q r g e k h = rw (g refl) refl

-- Of two texts, the first is not after the second, or the second is before the first.
text_order : (s t : String) → compare s t ≡ Ordering.gt → compare t s ≡ Ordering.lt
text_order String.[] String.[] h = ground arith
text_order String.[] (String.◌∷◌ d t) h =
    absurd (let no : ⊥ = ground (arith, compare.nil-cons d t) in no)
text_order (String.◌∷◌ c s) String.[] h = compare.nil-cons c s
text_order (String.◌∷◌ c s) (String.◌∷◌ d t) h =
    compare.cons-cons d c t s
    ∙ then_order (compare_ℕ (code c) (code d)) (compare_ℕ (code d) (code c)) (compare s t)
        (compare t s) (number_order (code c) (code d)) (same_order (code c) (code d))
        (text_order s t) (sym (compare.cons-cons c d s t) ∙ h)

-- the blind ids of records
abbrev blind_ids : List Released → List String
blind_ids rs = map (λ (r : Released). r.0) rs

text_leb_total : (s t : String) → text_leb s t ≡ false → text_leb t s ≡ true
text_leb_total s t h = by_order (compare s t) refl
  where
    by_order : (o : Ordering) → compare s t ≡ o → text_leb t s ≡ true
    by_order Ordering.lt e = ground (arith, h, e)
    by_order Ordering.eq e = ground (arith, h, e)
    by_order Ordering.gt e = ground (arith, text_order s t e)

-- A list is sorted after a text that is before its first.
abbrev is_before : String → List String → Bool
is_before a [] = true
is_before a (b ∷ bs) = text_leb a b

sorted_cons :
    (a : String) (bs : List String)
    → is_before a bs ≡ true
    → is_sorted bs ≡ true
    → is_sorted (a ∷ bs) ≡ true
unfolding is_sorted
sorted_cons a [] b h = refl
sorted_cons a (b ∷ bs) l h = ground arith

sorted_tail : (a : String) (bs : List String) → is_sorted (a ∷ bs) ≡ true → is_sorted bs ≡ true
unfolding is_sorted
sorted_tail a [] h = refl
sorted_tail a (b ∷ bs) h = ground arith

before_first : (a : String) (bs : List String) → is_sorted (a ∷ bs) ≡ true → is_before a bs ≡ true
unfolding is_sorted
before_first a [] h = refl
before_first a (b ∷ bs) h = ground arith

before_insert :
    (a : String) (r : Released) (rs : List Released)
    → text_leb a r.0 ≡ true
    → is_before a (blind_ids rs) ≡ true
    → is_before a (blind_ids (insert_released r rs)) ≡ true
unfolding insert_released
before_insert a r [] h k = h
before_insert a r (s ∷ ss) h k = elim (Bool-cases (text_leb r.0 s.0)) [
  | inl first ↦ ground arith
  | inr later ↦ ground arith
]

insert_sorted :
    (r : Released) (rs : List Released)
    → is_sorted (blind_ids rs) ≡ true
    → is_sorted (blind_ids (insert_released r rs)) ≡ true
unfolding insert_released is_sorted
insert_sorted r [] h = refl
insert_sorted r (s ∷ ss) h =
    by_test (text_leb r.0 s.0) refl (insert_sorted r ss (sorted_tail s.0 (blind_ids ss) h))
  where
    by_test :
        (b : Bool)
        → text_leb r.0 s.0 ≡ b
        → is_sorted (blind_ids (insert_released r ss)) ≡ true
        → is_sorted (blind_ids (if b then r ∷ s ∷ ss else s ∷ insert_released r ss)) ≡ true
    by_test true e k = sorted_cons r.0 (s.0 ∷ blind_ids ss) e h
    by_test false e k =
        sorted_cons s.0 (blind_ids (insert_released r ss))
          (before_insert s.0 r ss (text_leb_total r.0 s.0 e) (before_first s.0 (blind_ids ss) h)) k

sort_sorted : (rs : List Released) → is_sorted (blind_ids (sort_released rs)) ≡ true
unfolding sort_released is_sorted
sort_sorted [] = refl
sort_sorted (r ∷ rs) = insert_sorted r (sort_released rs) (sort_sorted rs)

-- how many records a property has
count-insert :
    (p : Released → Bool) (r : Released) (rs : List Released)
    → count_where p (insert_released r rs) ≡ (if p r then 1 else 0) + count_where p rs
unfolding insert_released
count-insert p r [] = refl
count-insert p r (s ∷ ss) = elim (Bool-cases (text_leb r.0 s.0)) [
  | inl first ↦ ground arith
  | inr later ↦ ground (arith, count-insert p r ss)
]

count-sort :
    (p : Released → Bool) (rs : List Released) → count_where p (sort_released rs) ≡ count_where p rs
unfolding sort_released
count-sort p [] = refl
count-sort p (r ∷ rs) = ground (arith, count-insert p r (sort_released rs), count-sort p rs)

-- the blind id of a record, as a text
abbrev pub blind_id_of : Payload → String
blind_id_of packet = elim (get "blind_id" packet) [
  | none ↦ ""
  | some v ↦ elim v [ text t ↦ t | _ ↦ "" ]
]

-- whether a record stands with its blind id
abbrev is_labelled : Released → Bool
is_labelled r = blind_id_of r.1 == r.0

every-insert :
    (p : Released → Bool) (r : Released) (rs : List Released)
    → p r ≡ true
    → every p rs ≡ true
    → every p (insert_released r rs) ≡ true
unfolding insert_released every
every-insert p r [] h k = ground arith
every-insert p r (s ∷ ss) h k = elim (Bool-cases (text_leb r.0 s.0)) [
  | inl first ↦ ground arith
  | inr later ↦ ground (arith, every-insert p r ss h (ground arith))
]

every-sort :
    (p : Released → Bool) (rs : List Released)
    → every p rs ≡ true
    → every p (sort_released rs) ≡ true
unfolding sort_released every
every-sort p [] h = refl
every-sort p (r ∷ rs) h =
    every-insert p r (sort_released rs) (ground arith) (every-sort p rs (ground arith))

labelled :
    (directions : Payload) (as_ : List PrivateAssignment)
    → every is_labelled (map (released_assignment directions) as_) ≡ true
unfolding every get released_assignment
labelled directions [] = refl
labelled directions (a ∷ as_) = ground (arith, labelled directions as_, ==_refl a.blind_id)

map-blind_id_of :
    (rs : List Released)
    → every is_labelled rs ≡ true
    → map blind_id_of (map (λ (r : Released). r.1) rs) ≡ blind_ids rs
unfolding every
map-blind_id_of [] h = refl
map-blind_id_of (r ∷ rs) h =
    let first : blind_id_of r.1 ≡ r.0 = (eq_iff (blind_id_of r.1) r.0).0 (ground arith) in
    let others = map-blind_id_of rs (ground arith) in cc

count-map :
    {A B : Type 0} (p : B → Bool) (f : A → B) (xs : List A)
    → count_where p (map f xs) ≡ count_where (λ x. p (f x)) xs
count-map p f [] = refl
count-map p f (x ∷ xs) = ground (arith, count-map p f xs)

-- The records of _released_assignments are in the order of their blind ids, as the workflow asks,
-- and they are those of the assignments: whatever the test, as many of the ones pass it as of the
-- others.
pub released_assignments-sorted :
    (m : FrozenPrivateMap) (directions : Payload) (p : Payload → Bool)
    → (is_sorted (map blind_id_of (released_assignments m directions)) ≡ true)
      × (count_where p (released_assignments m directions)
          ≡ count_where
              (λ (a : PrivateAssignment). p (released_assignment directions a).1)
              m.assignments)
unfolding released_assignments
released_assignments-sorted m directions p =
    let rs = map (released_assignment directions) m.assignments in
    let ids =
      map-blind_id_of (sort_released rs)
        (every-sort is_labelled rs (labelled directions m.assignments)) in
    (
      rw ids (sort_sorted rs),
      count-map p (λ (r : Released). r.1) (sort_released rs)
          ∙ count-sort (λ r. p r.1) rs
          ∙ count-map (λ (r : Released). p r.1) (released_assignment directions) m.assignments,
    )
