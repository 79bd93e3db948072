-- ===== src/Base/Outcome.antt =====
-- Python exceptions as values: what a function that may raise returns.
use Prim.Native.Nat.{ℕ}
use Prim.Native.String.{String}
use mathlib.Core.List.{List}

-- A message is the source's text, with its interpolated numbers listed behind it.
pub data Error : Type 0 where
  value_error : String → List ℕ → Error
  runtime_error : String → List ℕ → Error
  session_busy : Error
  cancelled_turn : List ℕ → Error

pub data Result {ℓ} (A : Type ℓ) : Type ℓ where
  ok : A → Result A
  raise : Error → Result A

infixl 5 ◌>>=◌
abbrev pub ◌>>=◌ {ℓ κ} : {A : Type ℓ} {B : Type κ} → Result A → (A → Result B) → Result B
ok a >>= f = f a
raise e >>= f = raise e

infixl 5 ◌>>◌
abbrev pub ◌>>◌ {ℓ} : {B : Type ℓ} → Result (Unit {0}) → Result B → Result B
m >> n = m >>= λ _. n
