-- ===== src/Exec.antt =====
-- Methods that change the state of an object and may raise. The state comes back beside the error
-- too, since what was written before a raise stays written, unless a transaction rolls it back.
pub mod Ensures
pub mod Keeps
use instruct_eval.Common.{◌≡◌, refl, Bool, true, false, Option, none, some, if◌then◌else◌}

pub data Result {ℓ} (E A : Type ℓ) : Type ℓ where
  ok : A → Result E A
  err : E → Result E A

-- whether a call returned
abbrev pub is_ok {ℓ} : {E A : Type ℓ} → Result E A → Bool
is_ok (ok _) = true
is_ok (err _) = false

abbrev pub Exec {ℓ} : Type ℓ → Type ℓ → Type ℓ → Type ℓ
Exec E S A = S → Result E A × S

module _ {ℓ} {E S A : Type ℓ} where
  abbrev pub pure : A → Exec E S A
  pure a s = (ok a, s)

  abbrev pub raise : E → Exec E S A
  raise e s = (err e, s)

  abbrev pub gets : (S → A) → Exec E S A
  gets f s = (ok (f s), s)

  abbrev pub or_raise : Option A → E → Exec E S A
  or_raise none e = raise e
  or_raise (some a) e = pure a

  -- `with self._transaction()`: COMMIT at the end, and ROLLBACK on any exception.
  abbrev roll_back : S → Result E A × S → Result E A × S
  roll_back s (ok a, s') = (ok a, s')
  roll_back s (err e, s') = (err e, s)

  abbrev pub transaction : Exec E S A → Exec E S A
  transaction m s = roll_back s (m s)

module _ {ℓ} {E S A B : Type ℓ} where
  abbrev pub continue : (A → Exec E S B) → Result E A × S → Result E B × S
  continue f (ok a, s) = f a s
  continue f (err e, s) = (err e, s)

  infixl 5 ◌>>=◌
  abbrev pub ◌>>=◌ : Exec E S A → (A → Exec E S B) → Exec E S B
  ◌>>=◌ m f s = continue f (m s)

infixl 5 ◌>>◌
abbrev pub ◌>>◌ : {E S B : Type 0} → Exec E S (Unit {0}) → Exec E S B → Exec E S B
m >> k = m >>= λ _. k

module _ {E S : Type 0} where
  -- `if b: raise e`
  abbrev pub raise_if : Bool → E → Exec E S (Unit {0})
  raise_if b e s = (if b then err e else ok tt, s)

  abbrev pub modify : (S → S) → Exec E S (Unit {0})
  modify f s = (ok tt, f s)

roll_back_undoes {ℓ} :
    {E S A : Type ℓ} (s : S) (r : Result E A × S) {e : E}
    → (roll_back s r).0 ≡ err e
    → (roll_back s r).1 ≡ s
roll_back_undoes s (ok a, s') h = cc
roll_back_undoes s (err e, s') h = refl

-- A transaction that raises leaves the state as it was.
pub transaction_rolls_back {ℓ} :
    {E S A : Type ℓ} (m : Exec E S A) (s : S) {e : E}
    → (transaction m s).0 ≡ err e
    → (transaction m s).1 ≡ s
transaction_rolls_back m s h = roll_back_undoes s (m s) h
