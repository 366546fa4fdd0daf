-- ===== src/Exec/Ensures.antt =====
-- What an action ensures: from a state with `P` it returns with `Q`, or raises in a state with `R`.
use instruct_eval.Common.{◌≡◌, refl, Bool, true, false, if◌then◌else◌}
use instruct_eval.Exec.{Result, ok, err, Exec, pure, raise, gets, continue, ◌>>=◌}

abbrev pub Post {ℓ} : {E S A : Type ℓ} → (A → S → Type ℓ) → (S → Type ℓ) → Result E A × S → Type ℓ
Post Q R (ok a, s) = Q a s
Post Q R (err e, s) = R s

pub record Ensures {ℓ} {E S A : Type ℓ} (P : S → Type ℓ) (m : Exec E S A) (Q : A → S → Type ℓ)
    (R : S → Type ℓ) : Type ℓ where
  pub at : (s : S) → P s → Post Q R (m s)

module _ {ℓ} {E S A B : Type ℓ} where
  continued :
      (P : A → S → Type ℓ) (Q : B → S → Type ℓ) (R : S → Type ℓ) (f : A → Exec E S B)
      (r : Result E A × S)
      → ((a : A) → Ensures (P a) (f a) Q R)
      → Post P R r
      → Post Q R (continue f r)
  continued P Q R f (ok a, s) h p = (h a).at s p
  continued P Q R f (err e, s) h p = p

  pub Ensures-bind :
      {P : S → Type ℓ} {I : A → S → Type ℓ} {Q : B → S → Type ℓ} {R : S → Type ℓ} (m : Exec E S A)
      (f : A → Exec E S B)
      → Ensures P m I R
      → ((a : A) → Ensures (I a) (f a) Q R)
      → Ensures P (m >>= f) Q R
  Ensures-bind {P} {I} {Q} {R} m f h k = record { at = λ s p. continued I Q R f (m s) k (h.at s p) }

module _ {ℓ} {E S A : Type ℓ} {P : S → Type ℓ} {R : S → Type ℓ} where
  pub Ensures-pure :
      {Q : A → S → Type ℓ} (a : A) → ((s : S) → P s → Q a s) → Ensures {E = E} P (pure a) Q R
  Ensures-pure a h = record { at = h }

  pub Ensures-raise : {Q : A → S → Type ℓ} (e : E) → ((s : S) → P s → R s) → Ensures P (raise e) Q R
  Ensures-raise e h = record { at = h }

  pub Ensures-gets :
      {Q : A → S → Type ℓ} (f : S → A)
      → ((s : S) → P s → Q (f s) s)
      → Ensures {E = E} P (gets f) Q R
  Ensures-gets f h = record { at = h }

  pub Ensures-if :
      {Q : A → S → Type ℓ} (b : Bool) (m n : Exec E S A)
      → (b ≡ true → Ensures P m Q R)
      → (b ≡ false → Ensures P n Q R)
      → Ensures P (if b then m else n) Q R
  Ensures-if true m n h k = h refl
  Ensures-if false m n h k = k refl

  pub Ensures-weaken :
      {P' : S → Type ℓ} {Q Q' : A → S → Type ℓ} {R' : S → Type ℓ} (m : Exec E S A)
      → ((s : S) → P' s → P s)
      → ((a : A) (s : S) → Q a s → Q' a s)
      → ((s : S) → R s → R' s)
      → Ensures P m Q R
      → Ensures P' m Q' R'
  Ensures-weaken {P'} {Q} {Q'} {R'} m p q r h = record {
    at = λ s x. weakened (m s) (h.at s (p s x));
  }
    where
      weakened : (o : Result E A × S) → Post Q R o → Post Q' R' o
      weakened (ok a, s) x = q a s x
      weakened (err e, s) x = r s x

module _ {ℓ} {E S A : Type ℓ} (Q : A → S → Type ℓ) (R : S → Type ℓ) where
  returned : (r : Result E A × S) {a : A} → r.0 ≡ ok a → Post Q R r → Q a r.1
  returned (ok b, s) {a} e p = let same : b ≡ a = cc in rw⁻¹ same p
  returned (err x, s) e p = absurd (let no : ⊥ = cc in no)

  raised : (r : Result E A × S) {e : E} → r.0 ≡ err e → Post Q R r → R r.1
  raised (ok b, s) e p = absurd (let no : ⊥ = cc in no)
  raised (err x, s) e p = p

module _ {ℓ} {E S A : Type ℓ} {P : S → Type ℓ} {Q : A → S → Type ℓ} {R : S → Type ℓ} where
  -- what holds where the action returns
  pub Ensures-returns :
      (m : Exec E S A) (s : S) {a : A} → Ensures P m Q R → P s → (m s).0 ≡ ok a → Q a (m s).1
  Ensures-returns m s h p e = returned Q R (m s) e (h.at s p)

  -- what holds where it raises
  pub Ensures-raises :
      (m : Exec E S A) (s : S) {e : E} → Ensures P m Q R → P s → (m s).0 ≡ err e → R (m s).1
  Ensures-raises m s h p e = raised Q R (m s) e (h.at s p)
