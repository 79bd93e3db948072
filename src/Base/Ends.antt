-- ===== src/Base/Ends.antt =====
-- How an action ends: a condition on what it returns, and one on what it raises.
use mathlib.Core.Path.{◌≡◌, refl}
use qwarz.Base.Outcome.{Error, Result, ok, raise}
use qwarz.Base.Action.{Exec, resume}

pub data EndsAt {S A : Type 0} (Q : A → S → Type 0) (E : Error → S → Type 0)
    : Result A → S → Type 0 where
  returned : (a : A) (s : S) → Q a s → EndsAt Q E (ok a) s
  raised : (err : Error) (s : S) → E err s → EndsAt Q E (raise err) s

abbrev pub Ends : {S A : Type 0} → (A → S → Type 0) → (Error → S → Type 0) → Exec S A → S → Type 0
Ends Q E m s = EndsAt Q E (m s).0 (m s).1

module _ {S A : Type 0} {Q : A → S → Type 0} {E : Error → S → Type 0} where
  pub EndsAt-of_eq : (r : Result A) (s : S) (a : A) → r ≡ ok a → Q a s → EndsAt Q E r s
  EndsAt-of_eq r s a h q = rw h (EndsAt.returned a s q)

  -- an action that may not raise returns
  pub ok_of_EndsAt :
      (r : Result A) (s : S)
      → EndsAt Q E r s
      → ((err : Error) → E err s → ⊥)
      → (a : A) × (r ≡ ok a) × Q a s
  ok_of_EndsAt r s (EndsAt.returned a _ q) never = (a, refl, q)
  ok_of_EndsAt r s (EndsAt.raised err _ h) never = absurd (never err h)

  pub EndsAt-mono :
      {P : A → S → Type 0} (r : Result A) (s : S)
      → EndsAt Q E r s
      → ((a : A) → Q a s → P a s)
      → EndsAt P E r s
  EndsAt-mono r s (EndsAt.returned a _ q) k = EndsAt.returned a s (k a q)
  EndsAt-mono r s (EndsAt.raised err _ h) k = EndsAt.raised err s h

module _ {S A B : Type 0} {P : A → S → Type 0} {Q : B → S → Type 0} {E : Error → S → Type 0} where
  -- what holds after the first action is what the rest may use
  pub EndsAt-resume :
      {r : Result A} {f : A → Exec S B} {s : S}
      → EndsAt P E r s
      → ((a : A) (s' : S) → P a s' → Ends Q E (f a) s')
      → EndsAt Q E (resume r f s).0 (resume r f s).1
  EndsAt-resume {f} {s} (EndsAt.returned a _ h) k = k a s h
  EndsAt-resume {f} {s} (EndsAt.raised err _ h) k = EndsAt.raised err s h
