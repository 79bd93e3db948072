-- ===== src/Mtp/Accept.antt =====
-- What a window emits is what the target alone would have produced.
use qwarz.Base.{
  ℕ, zero, suc, ◌+◌, ◌≤◌, ◌<◌, ◌≡◌, refl, ap, inl, inr, some, List, [], ◌∷◌, ◌++◌, length, take,
  take_of_length-le, length-take_of_le, take-append_left, take-take, ◌∙◌, get_elem?, last_or, ◌==◌,
  arith, Bool-cases, ==→eq,
}
use qwarz.Base.Outcome.{ok}
use qwarz.Mtp.{matching, emitted_tokens}
use qwarz.Mtp.Greedy.{greedy, scores, length-scores}

pub matching-le : (draft samples : List ℕ) → matching draft samples ≤ length draft
unfolding matching
matching-le (d ∷ draft) (s ∷ samples) = ground (arith, matching-le draft samples)
matching-le _ _ = omega arith

-- the matching prefix and the sample behind it are the samples themselves
kept_samples :
    (draft samples : List ℕ)
    → length samples ≡ length draft + 1
    → (kept : ℕ) × (get_elem? samples (matching draft samples) ≡ some kept)
      × (take (matching draft samples) draft ++ kept ∷ []
          ≡ take (suc (matching draft samples)) samples)
unfolding matching
kept_samples draft [] h = absurd (omega arith)
kept_samples [] (s ∷ samples) h = (s, refl, refl)
kept_samples (d ∷ draft) (s ∷ samples) h =
    let (kept, found, same) = kept_samples draft samples (omega arith) in
    elim (Bool-cases (d == s)) [
      | inl hit ↦ rw hit (kept, found, ground (arith, ==→eq d s hit))
      | inr miss ↦ rw miss (s, refl, refl)
    ]

last_sample : (xs : List ℕ) (d n : ℕ) → length xs ≡ n + 1 → get_elem? xs n ≡ some (last_or d xs)
last_sample [] d n h = absurd (omega arith)
last_sample (x ∷ []) d zero h = refl
last_sample (x ∷ []) d (suc n) h = absurd (omega arith)
last_sample (x ∷ y ∷ xs) d zero h = absurd (omega arith)
last_sample (x ∷ y ∷ xs) d (suc n) h = last_sample (y ∷ xs) x n (omega arith)

pub emitted_tokens-take :
    (limit : ℕ) (draft samples : List ℕ)
    → 0 < length draft
    → length draft ≤ limit
    → length samples ≡ length draft + 1
    → emitted_tokens limit draft samples
      ≡ ok (take (suc (matching draft samples)) samples, matching draft samples)
unfolding emitted_tokens
emitted_tokens-take limit draft samples some_draft fits h =
    let m = matching draft samples in
    let (kept, found, same) = kept_samples draft samples h in
    ground (arith, last_sample samples 0 (length draft), take_of_length-le m draft, same, found)

-- the samples that a greedy target gives, as far as they match, are its greedy run
pub take-scores :
    (next : List ℕ → ℕ) (context draft : List ℕ)
    → take (suc (matching draft (scores next context draft))) (scores next context draft)
      ≡ greedy next [] (suc (matching draft (scores next context draft))) context
unfolding matching scores greedy
take-scores next context [] = refl
take-scores next context (d ∷ draft) = elim (Bool-cases (d == next context)) [
  | inl hit ↦
      rw (hit, ==→eq _ _ hit)
        (ap (◌∷◌ (next context))
          (rw (← ==→eq _ _ hit) (take-scores next (context ++ d ∷ []) draft)))
  | inr miss ↦ rw miss
]

-- below the mismatch the greedy run is the draft
pub take-greedy-draft :
    (next : List ℕ → ℕ) (context draft : List ℕ) (j : ℕ)
    → j ≤ matching draft (scores next context draft)
    → take j (greedy next [] (suc (matching draft (scores next context draft))) context)
      ≡ take j draft
take-greedy-draft next context draft j h =
    let samples = scores next context draft in
    let m = matching draft samples in
    let (kept, found, same) = kept_samples draft samples (length-scores next context draft) in
    rw (← take-scores next context draft, ← same)
      (take-append_left j (take m draft) (kept ∷ [])
          (omega (arith, length-take_of_le m draft (matching-le draft samples)))
        ∙ take-take j m draft h)
