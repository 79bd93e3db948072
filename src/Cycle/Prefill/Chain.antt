-- ===== src/Cycle/Prefill/Chain.antt =====
-- The spans of a prefill lead from the resident cursor to the held token, also after the extra cuts.
use qwarz.Base.{ℕ, ◌≤◌, ◌<◌, ◌≡◌, refl, inl, inr, List, [], ◌∷◌, ◌++◌, ltb, ◌==◌, arith, Bool-cases}
use qwarz.Schedule.{Span}
use qwarz.Schedule.Cover.{Covers}
use qwarz.Cycle.Prefill.{insert_cut, inner_cuts, split_span, split_spans, span_stop}

-- consecutive nonempty spans from `start` to `stop`
abbrev pub Chain : ℕ → ℕ → List Span → Type 0
Chain start stop [] = start ≡ stop
Chain start stop ((begin, end) ∷ spans) = (begin ≡ start) × (begin < end) × Chain end stop spans

pub Chain-Covers :
    (chunk page stop start : ℕ) (spans : List Span)
    → Covers chunk page stop start spans
    → Chain start stop spans
unfolding Covers
Chain-Covers chunk page stop start [] h = h
Chain-Covers chunk page stop start ((begin, end) ∷ spans) h =
    (h.0, h.1, Chain-Covers chunk page stop end spans h.4)

pub Chain-append :
    (start middle stop : ℕ) (xs ys : List Span)
    → Chain start middle xs
    → Chain middle stop ys
    → Chain start stop (xs ++ ys)
Chain-append start middle stop [] ys h k = rw h k
Chain-append start middle stop ((begin, end) ∷ xs) ys h k =
    (h.0, h.1, Chain-append end middle stop xs ys h.2 k)

-- increasing cuts, all strictly between `begin` and `end`
abbrev Inside : ℕ → ℕ → List ℕ → Type 0
Inside begin end [] = Unit {0}
Inside begin end (cut ∷ cuts) = (begin < cut) × (cut < end) × Inside cut end cuts

insert_cut-Inside :
    (begin end cut : ℕ) (cuts : List ℕ)
    → begin < cut
    → cut < end
    → Inside begin end cuts
    → Inside begin end (insert_cut cut cuts)
unfolding insert_cut
insert_cut-Inside begin end cut [] above below h = (above, below, tt)
insert_cut-Inside begin end cut (c ∷ cuts) above below h = elim (Bool-cases (ltb cut c)) [
  | inl before ↦ rw before (above, below, (ground arith, h.1, h.2))
  | inr _ ↦ elim (Bool-cases (cut == c)) [
    | inl same ↦ ground arith
    | inr other ↦ ground (arith, insert_cut-Inside c end cut cuts)
  ]
]

inner_cuts-Inside : (begin end : ℕ) (cuts : List ℕ) → Inside begin end (inner_cuts begin end cuts)
unfolding inner_cuts
inner_cuts-Inside begin end [] = tt
inner_cuts-Inside begin end (cut ∷ cuts) = ground (
  arith,
  inner_cuts-Inside begin end cuts,
  insert_cut-Inside begin end cut (inner_cuts begin end cuts),
)

split_span-Chain :
    (begin end : ℕ) (inner : List ℕ)
    → begin < end
    → Inside begin end inner
    → Chain begin end (split_span begin end inner)
unfolding split_span
split_span-Chain begin end [] h inside = (refl, h, refl)
split_span-Chain begin end (cut ∷ inner) h inside =
    (refl, inside.0, split_span-Chain cut end inner inside.1 inside.2)

-- Splitting a chain of spans at extra cuts leaves a chain between the same ends.
pub split_spans-Chain :
    (start stop : ℕ) (spans : List Span) (cuts : List ℕ)
    → Chain start stop spans
    → Chain start stop (split_spans spans cuts)
unfolding split_spans
split_spans-Chain start stop [] cuts h = h
split_spans-Chain start stop ((begin, end) ∷ spans) cuts h = rw (← h.0) (
    Chain-append begin end stop (split_span begin end (inner_cuts begin end cuts))
      (split_spans spans cuts)
      (split_span-Chain begin end (inner_cuts begin end cuts) h.1
        (inner_cuts-Inside begin end cuts))
      (split_spans-Chain end stop spans cuts h.2))

pub span_stop-Chain :
    (start stop : ℕ) (spans : List Span) → Chain start stop spans → span_stop start spans ≡ stop
span_stop-Chain start stop [] h = h
span_stop-Chain start stop ((begin, end) ∷ spans) h = span_stop-Chain end stop spans h.2

pub Chain-le : (start stop : ℕ) (spans : List Span) → Chain start stop spans → start ≤ stop
Chain-le start stop [] h = omega arith
Chain-le start stop ((begin, end) ∷ spans) h = omega (arith, Chain-le end stop spans h.2)
