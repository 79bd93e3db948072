-- ===== src/Cycle/Suffix/Sound.antt =====
-- What a copied proposal is.
use qwarz.Base.{ℕ, ◌≡◌, some, List, length, arith}
use qwarz.Cycle.Suffix.{SuffixIndex, propose}

-- a proposal has exactly the length asked for
pub length-propose :
    (s : SuffixIndex) (held steps : ℕ) (copied : List ℕ)
    → propose s held steps ≡ some copied
    → length copied ≡ steps
unfolding propose
length-propose s held steps copied h = ground arith
