-- ===== src/Schedule/Cover.antt =====
-- The spans cover the prompt: consecutive, none empty or longer than a chunk, cut at pages.
use qwarz.Base.{
  ℕ, zero, suc, ◌+◌, ◌-◌, ◌/◌, ◌%◌, ◌≤◌, ◌<◌, ◌≡◌, refl, ◌⊎◌, inl, inr, List, [], ◌∷◌, leb, arith,
  Bool-cases, leb→le, leb→lt,
}
use native.Mathlib.Nat.{lt-div-mul-add, div-mul-le_self, mul-mod_left}
use native.Mathlib.Decide.{dec_lt}
use qwarz.Base.Int.{ℤ}
use qwarz.Base.Outcome.{ok}
use qwarz.Schedule.{Span, span_end, bounds_from, suffix_bounds}

-- The spans lead from `start` to `stop` with no gap, each of 1 to `chunk` tokens, and each ends on
-- a page or at `stop`.
unfoldable pub Covers : ℕ → ℕ → ℕ → ℕ → List Span → Type 0
Covers chunk page stop start [] = start ≡ stop
Covers chunk page stop start ((begin, end) ∷ spans) =
    (begin ≡ start)
    × (begin < end)
    × (end ≤ begin + chunk)
    × (end % page ≡ 0 ⊎ end ≡ stop)
    × Covers chunk page stop end spans

module _ (chunk page seqlen : ℕ) (some_page : 0 < page) (fits : page ≤ chunk) where
  span_end_bounds :
      (p : ℕ)
      → p < seqlen
      → (p < span_end chunk page seqlen p)
        × (span_end chunk page seqlen p ≤ p + chunk)
        × (span_end chunk page seqlen p ≤ seqlen)
  unfolding span_end
  span_end_bounds p h = ground (
    arith,
    lt-div-mul-add {a = p + chunk} {b = page} some_page,
    div-mul-le_self (p + chunk) page,
    div-mul-le_self seqlen page,
  )

  span_end_aligned :
      (p : ℕ) → (span_end chunk page seqlen p % page ≡ 0) ⊎ (span_end chunk page seqlen p ≡ seqlen)
  unfolding span_end
  span_end_aligned p =
      ground (arith, mul-mod_left (seqlen / page) page, mul-mod_left ((p + chunk) / page) page)

  bounds_from_more :
      (fuel p : ℕ)
      → p < seqlen
      → bounds_from chunk page seqlen (suc fuel) p
        ≡ (p, span_end chunk page seqlen p)
          ∷ bounds_from chunk page seqlen fuel (span_end chunk page seqlen p)
  unfolding bounds_from
  bounds_from_more fuel p h = ground (arith, span_end_bounds p h)

  bounds_from_done : (fuel p : ℕ) → seqlen ≤ p → bounds_from chunk page seqlen (suc fuel) p ≡ []
  unfolding bounds_from
  bounds_from_done fuel p h = ground arith

  bounds_from-Covers :
      (fuel p : ℕ)
      → p ≤ seqlen
      → seqlen ≤ p + fuel
      → Covers chunk page seqlen p (bounds_from chunk page seqlen fuel p)
  unfolding Covers
  bounds_from-Covers zero p h enough = unfold bounds_from in let e : p ≡ seqlen = omega arith in e
  bounds_from-Covers (suc fuel) p h enough = elim (dec_lt p seqlen) [
    | yes more ↦
        let (grows, short, inside) = span_end_bounds p more in
        rw (bounds_from_more fuel p more) (
          refl,
          grows,
          short,
          span_end_aligned p,
          bounds_from-Covers fuel (span_end chunk page seqlen p) inside (omega arith),
        )
    | no done ↦ rw (bounds_from_done fuel p (omega arith)) (omega arith)
  ]

-- With a page of at least one token and a chunk of at least a page, a prefill of `length` ids that
-- starts before the last one forwards every id but the last, in consecutive spans of 1 to `chunk`
-- tokens that end on pages or at the end; the loop never breaks early. With nothing to do it
-- returns no span, and it raises nothing.
pub suffix_bounds-Covers :
    (chunk page start length : ℕ)
    → 0 < page
    → page ≤ chunk
    → (spans : List Span) × (suffix_bounds chunk page (ℤ.pos start) (ℤ.pos length) ≡ ok spans)
      × (start < length - 1 → Covers chunk page (length - 1) start spans)
      × (length - 1 ≤ start → spans ≡ [])
unfolding suffix_bounds
suffix_bounds-Covers chunk page start length some_page fits =
    elim (Bool-cases (leb (length - 1) start)) [
      | inl done ↦ ([], rw done, (λ h. absurd (omega (arith, leb→le _ _ done))), λ h. refl)
      | inr more ↦ (
        bounds_from chunk page (length - 1) (length - 1) start,
        rw more,
        (λ h.
            bounds_from-Covers chunk page (length - 1) some_page fits (length - 1) start
              (omega arith) (omega arith)),
        λ h. absurd (omega (arith, leb→lt _ _ more)),
      )
    ]
