-- ===== src/Sql/Distinct.antt =====
-- Tables in which no two rows have the same key, as a `PRIMARY KEY` keeps them, and what
-- `rowcount` is for them.
use mathlib.Core.Path.{fun_ext}
use instruct_eval.Common.{
  ◌≡◌, refl, Bool, true, none, some, List, [], ◌∷◌, ◌++◌, arith, if◌then◌else◌, Bool-cases, inl,
  inr,
}
use instruct_eval.Sql.{select_one, update, rowcount, select_one-update, select_one-append}

module _ {ℓ} {R : Type ℓ} (same : R → R → Bool) where
  -- `same r r'`: the rows have one key
  abbrev pub Distinct : List R → Type ℓ
  Distinct [] = Unit
  Distinct (r ∷ rows) = (select_one (same r) rows ≡ none) × Distinct rows

  fresh_after_update :
      (q : R → Bool) (f : R → R) (r : R) (rows : List R)
      → ((r s : R) → same r (f s) ≡ same r s)
      → ((r s : R) → same (f r) s ≡ same r s)
      → select_one (same r) rows ≡ none
      → select_one (same (if q r then f r else r)) (update q f rows) ≡ none
  fresh_after_update q f r rows right left h = elim (Bool-cases (q r)) [
    | inl e ↦
        rw e (rw (fun_ext (left r)) (rw (select_one-update (same r) q f rows (right r)) (rw h)))
    | inr e ↦ rw e (rw (select_one-update (same r) q f rows (right r)) (rw h))
  ]

  pub Distinct-update :
      (q : R → Bool) (f : R → R) (rows : List R)
      → ((r s : R) → same r (f s) ≡ same r s)
      → ((r s : R) → same (f r) s ≡ same r s)
      → Distinct rows
      → Distinct (update q f rows)
  unfolding update
  Distinct-update q f [] right left h = tt
  Distinct-update q f (r ∷ rows) right left h =
      (fresh_after_update q f r rows right left h.0, Distinct-update q f rows right left h.1)

  pub Distinct-append :
      (rows : List R) (new : R)
      → ((r s : R) → same r s ≡ same s r)
      → select_one (same new) rows ≡ none
      → Distinct rows
      → Distinct (rows ++ new ∷ [])
  unfolding select_one
  Distinct-append [] new sym_same fresh h = (refl, tt)
  Distinct-append (r ∷ rows) new sym_same fresh h = (
    ground (arith, sym_same r new, select_one-append (same r) rows new),
    Distinct-append rows new sym_same (ground arith) h.1,
  )

  module _ (p q : R → Bool) (narrows : (r : R) → q r ≡ true → p r ≡ true)
      (one : (r s : R) → p r ≡ true → p s ≡ true → same r s ≡ true) where
    rowcount_zero :
        (r : R) (rows : List R) → p r ≡ true → select_one (same r) rows ≡ none → rowcount q rows ≡ 0
    unfolding select_one rowcount
    rowcount_zero r [] pr h = refl
    rowcount_zero r (s ∷ rows) pr h = ground (arith, narrows s, one r s, rowcount_zero r rows)

    rowcount-none : (rows : List R) → select_one p rows ≡ none → rowcount q rows ≡ 0
    unfolding select_one rowcount
    rowcount-none [] h = refl
    rowcount-none (s ∷ rows) h = ground (arith, narrows s, rowcount-none rows)

    -- The statement changes the one row that its key selects.
    pub rowcount_one :
        (rows : List R) (r : R)
        → Distinct rows
        → select_one p rows ≡ some r
        → q r ≡ true
        → rowcount q rows ≡ 1
    unfolding select_one rowcount
    rowcount_one [] r h e t = cc
    rowcount_one (s ∷ rows) r h e t =
        ground (arith, narrows s, rowcount_zero s rows, rowcount_one rows r h.1)
