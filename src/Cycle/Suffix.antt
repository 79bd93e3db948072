-- ===== src/Cycle/Suffix.antt =====
-- `SuffixIndex` of engine/forward/cycle.py: the last position after each n-gram of the history.
pub mod Sound
pub mod Copied
use qwarz.Base.{
  ℕ, zero, suc, ◌+◌, ◌-◌, max, Bool, true, false, ◌&&◌, Option, none, some, List, [], ◌∷◌, ◌++◌,
  length, take, drop, ltb, leb, ◌==◌, if◌then◌else◌,
}

-- equality of the tuples that are the dictionary's keys
abbrev pub same : List ℕ → List ℕ → Bool
same [] [] = true
same (a ∷ xs) (b ∷ ys) = a == b && same xs ys
same _ _ = false

-- the dictionary `after`: a later entry hides an earlier one
abbrev pub Positions : Type 0
Positions = List (List ℕ × ℕ)

unfoldable pub lookup : List ℕ → Positions → Option ℕ
lookup gram [] = none
lookup gram ((key, end) ∷ after) = if same key gram then some end else lookup gram after

pub record SuffixIndex : Type 0 where
  pub n : ℕ
  pub tokens : List ℕ
  pub after : Positions

-- `tokens[end - n:end]`
abbrev pub gram_before : ℕ → List ℕ → ℕ → List ℕ
gram_before n tokens end = take n (drop (end - n) tokens)

-- `for end in range(start, len(tokens))`, by the rounds left
unfoldable pub index_range : ℕ → List ℕ → ℕ → ℕ → Positions → Positions
index_range n tokens end zero after = after
index_range n tokens end (suc rounds) after =
    index_range n tokens (end + 1) rounds ((gram_before n tokens end, end) ∷ after)

unfoldable pub init : List ℕ → ℕ → ℕ → SuffixIndex
unfolding index_range
init tokens n span =
    let start = max n (length tokens - span) in
    record { n = n; tokens = tokens; after = index_range n tokens start (length tokens - start) [] }

unfoldable pub extend_one : SuffixIndex → ℕ → SuffixIndex
extend_one s token =
    let end = length s.tokens in
    record s {
      tokens = s.tokens ++ token ∷ [];
      after = if leb s.n end then (gram_before s.n s.tokens end, end) ∷ s.after else s.after;
    }

unfoldable pub extend : SuffixIndex → List ℕ → SuffixIndex
unfolding extend_one
extend s [] = s
extend s (token ∷ tokens) = extend (extend_one s token) tokens

-- the last `n - 1` tokens of the history and the held one
unfoldable pub tail_gram : SuffixIndex → ℕ → List ℕ
tail_gram s held =
    if ltb 1 s.n then drop (length s.tokens - (s.n - 1)) s.tokens ++ held ∷ [] else held ∷ []

unfoldable pub propose : SuffixIndex → ℕ → ℕ → Option (List ℕ)
unfolding tail_gram lookup
propose s held steps = elim (lookup (tail_gram s held) s.after) [
  | none ↦ none
  | some start ↦
      let proposal = take steps (drop start s.tokens) in
      if length proposal == steps then some proposal else none
]
