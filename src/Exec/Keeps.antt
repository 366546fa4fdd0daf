-- ===== src/Exec/Keeps.antt =====
-- What an action keeps, whether it returns or raises: a relation between the states before and after.
use instruct_eval.Common.{Bool, true, false, Option, none, some, if◌then◌else◌}
use instruct_eval.Exec.{Result, ok, err, Exec, pure, raise, gets, or_raise, continue, ◌>>=◌}

pub record Keeps {ℓ} {E S A : Type ℓ} (R : S → S → Type ℓ) (m : Exec E S A) : Type ℓ where
  pub at : (s : S) → R s (m s).1

-- a relation that has the steps that an action can have
pub record IsPreorder {ℓ} {S : Type ℓ} (R : S → S → Type ℓ) : Type ℓ where
  pub rel_refl : (s : S) → R s s
  pub rel_trans : (s t u : S) → R s t → R t u → R s u

module _ {ℓ} {S : Type ℓ} {R : S → S → Type ℓ} (p : IsPreorder R) {E A : Type ℓ} where
  pub Keeps-pure : (a : A) → Keeps {E = E} R (pure a)
  Keeps-pure a = record { at = p.rel_refl }

  pub Keeps-raise : (e : E) → Keeps {A = A} R (raise e)
  Keeps-raise e = record { at = p.rel_refl }

  pub Keeps-gets : (f : S → A) → Keeps {E = E} R (gets f)
  Keeps-gets f = record { at = p.rel_refl }

  pub Keeps-or_raise : (o : Option A) (e : E) → Keeps R (or_raise o e)
  Keeps-or_raise none e = record { at = p.rel_refl }
  Keeps-or_raise (some a) e = record { at = p.rel_refl }

  pub Keeps-if :
      (b : Bool) (m n : Exec E S A) → Keeps R m → Keeps R n → Keeps R (if b then m else n)
  Keeps-if true m n h k = h
  Keeps-if false m n h k = k

module _ {ℓ} {S : Type ℓ} {R : S → S → Type ℓ} (p : IsPreorder R) {E A B : Type ℓ} where
  continued :
      (f : A → Exec E S B) (s : S) (r : Result E A × S)
      → R s r.1
      → ((a : A) → Keeps R (f a))
      → R s (continue f r).1
  continued f s (ok a, t) h k = p.rel_trans s t (f a t).1 h ((k a).at t)
  continued f s (err e, t) h k = h

  pub Keeps-bind :
      (m : Exec E S A) (f : A → Exec E S B)
      → Keeps R m
      → ((a : A) → Keeps R (f a))
      → Keeps R (m >>= f)
  Keeps-bind m f h k = record { at = λ s. continued f s (m s) (h.at s) k }
