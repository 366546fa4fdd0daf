-- ===== src/Sql.antt =====
-- The statements of SQLite that coordination.py sends, over a table as the list of its rows:
-- `SELECT ... WHERE` with `fetchone`, `UPDATE ... WHERE` with its `rowcount`, and `INSERT`.
pub mod Distinct
use instruct_eval.Common.{
  ℕ, suc, ◌+◌, ◌≤◌, ◌≡◌, refl, Bool, true, false, not, ◌&&◌, Option, none, some, List, [], ◌∷◌,
  ◌++◌, arith, if◌then◌else◌, count_where, All, Bool-cases, inl, inr,
}
use mathlib.Core.Option
use mathlib.Core.Path.{subst}

module _ {ℓ} {R : Type ℓ} where
  -- `SELECT ... WHERE p`, then `fetchone()`
  unfoldable pub select_one : (R → Bool) → List R → Option R
  select_one p [] = none
  select_one p (r ∷ rows) = if p r then some r else select_one p rows

  -- `UPDATE ... SET f WHERE p`
  unfoldable pub update : (R → Bool) → (R → R) → List R → List R
  update p f [] = []
  update p f (r ∷ rows) = (if p r then f r else r) ∷ update p f rows

  -- `rowcount` of that statement
  unfoldable pub rowcount : (R → Bool) → List R → ℕ
  rowcount p rows = count_where p rows

  -- `INSERT`; `conflicts` holds of a row that breaks a `PRIMARY KEY` or `UNIQUE` constraint with
  -- the new one.
  unfoldable pub insert : (R → Bool) → R → List R → Option (List R)
  insert conflicts r rows = elim (select_one conflicts rows) [
    | none ↦ some (rows ++ r ∷ [])
    | some _ ↦ none
  ]

  -- An update that does not change who passes `p` changes what `p` selects, and that row alone.
  pub select_one-update :
      (p q : R → Bool) (f : R → R) (rows : List R)
      → ((r : R) → p (f r) ≡ p r)
      → select_one p (update q f rows)
        ≡ Option.map (λ r. if q r then f r else r) (select_one p rows)
  unfolding select_one update
  select_one-update p q f [] h = refl
  select_one-update p q f (r ∷ rows) h = ground (arith, h r, select_one-update p q f rows h)

  pub select_one-append :
      (p : R → Bool) (rows : List R) (r : R)
      → select_one p (rows ++ r ∷ [])
        ≡ elim (select_one p rows) [ none ↦ if p r then some r else none | some s ↦ some s ]
  unfolding select_one
  select_one-append p [] r = ground arith
  select_one-append p (s ∷ rows) r = ground (arith, select_one-append p rows r)

  -- What is selected passes the test.
  pub select_one_passes :
      (p : R → Bool) (rows : List R) (r : R) → select_one p rows ≡ some r → p r ≡ true
  unfolding select_one
  select_one_passes p [] r h = cc
  select_one_passes p (s ∷ rows) r h = ground (arith, select_one_passes p rows r)

module _ {ℓ κ} {R : Type ℓ} (P : R → Type κ) where
  pub All-select_one :
      (p : R → Bool) (rows : List R) {r : R} → All P rows → select_one p rows ≡ some r → P r
  unfolding select_one
  All-select_one p [] hs h = cc
  All-select_one p (s ∷ rows) {r} hs h = elim (Bool-cases (p s)) [
    | inl e ↦ let same : s ≡ r = ground arith in subst P same hs.0
    | inr e ↦ All-select_one p rows hs.1 (rw e at h)
  ]

  pub All-update :
      (p : R → Bool) (f : R → R) (rows : List R)
      → ((r : R) → p r ≡ true → P r → P (f r))
      → All P rows
      → All P (update p f rows)
  unfolding update
  All-update p f [] keep h = tt
  All-update p f (r ∷ rows) keep h = elim (Bool-cases (p r)) [
    | inl e ↦ rw e (keep r e h.0, All-update p f rows keep h.1)
    | inr e ↦ rw e (h.0, All-update p f rows keep h.1)
  ]

module _ {ℓ κ μ} {R : Type ℓ} (P : R → Type κ) (Q : R → Type μ) where
  -- An update where the predicate changes too.
  pub All-update_to :
      (p : R → Bool) (f : R → R) (rows : List R)
      → ((r : R) → P r → Q (if p r then f r else r))
      → All P rows
      → All Q (update p f rows)
  unfolding update
  All-update_to p f [] keep h = tt
  All-update_to p f (r ∷ rows) keep h = (keep r h.0, All-update_to p f rows keep h.1)
