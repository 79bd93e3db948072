-- ===== src/Mtp.antt =====
-- engine/forward/mtp.py: which tokens of a verified draft window are kept.
pub mod Greedy
pub mod Accept
pub mod Verify
use qwarz.Base.{
  ℕ, zero, suc, ◌+◌, ◌≡◌, min, max, Bool, ◌||◌, Option, none, some, List, [], ◌∷◌, ◌++◌, String,
  length, take, get_elem?, last_or, ltb, ◌==◌, if◌then◌else◌, not,
}
use qwarz.Base.Int.{ℤ}
use qwarz.Base.Outcome.{Result, ok, raise, Error, value_error, runtime_error, ◌>>=◌}

-- `DRAFT_TOKENS`, from the environment's setting
unfoldable pub draft_tokens : ℤ → ℕ
draft_tokens (ℤ.pos setting) = min (max setting 1) 7
draft_tokens (ℤ.negsuc _) = 1

-- the loop over `zip(draft, verified)`
unfoldable pub matching : List ℕ → List ℕ → ℕ
matching (proposed ∷ draft) (sampled ∷ verified) =
    if proposed == sampled then suc (matching draft verified) else 0
matching _ _ = 0

unfoldable pub accepted_prefix : ℕ → List ℕ → List ℕ → Result ℕ
accepted_prefix limit draft verified =
    if length draft == 0 || ltb limit (length draft)
    then raise (value_error "MTP proposes too many or no tokens" (limit ∷ []))
    else ok (matching draft verified)

-- a ratio is kept as its two terms
unfoldable pub acceptance : ℕ → ℕ → Option (ℕ × ℕ)
acceptance accepted rejected =
    if accepted + rejected == 0 then none else some (accepted, accepted + rejected)

-- `xs[i]`, and the exception out of range
unfoldable pub item {ℓ} : {A : Type ℓ} → List A → ℕ → Result A
item xs i = elim (get_elem? xs i) [
  | none ↦ raise (runtime_error "list index out of range" (i ∷ []))
  | some x ↦ ok x
]

unfoldable pub emitted_tokens : ℕ → List ℕ → List ℕ → Result (List ℕ × ℕ)
unfolding accepted_prefix item
emitted_tokens limit draft samples =
    if length samples == length draft + 1
    then (do
      matched ← accepted_prefix limit draft samples
      if matched == length draft
          then ok (draft ++ last_or 0 samples ∷ [], matched)
          else do kept ← item samples matched; ok (take matched draft ++ kept ∷ [], matched))
    else raise (value_error "the target returns one sample per draft token plus the bonus" [])
