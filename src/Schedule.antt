-- ===== src/Schedule.antt =====
-- engine/forward/schedule.py: the page-aligned token spans of a prefill.
pub mod Cover
use qwarz.Base.{
  ℕ, zero, suc, ◌+◌, ◌-◌, ◌*◌, ◌/◌, min, Bool, true, false, ◌&&◌, List, [], ◌∷◌, ltb, leb,
  if◌then◌else◌,
}
use qwarz.Base.Int.{ℤ}
use qwarz.Base.Outcome.{Result, ok, raise, Error, value_error}

abbrev pub chunk_size : ℕ
chunk_size = 8192

abbrev pub page_size : ℕ
page_size = 256

abbrev pub Span : Type 0
Span = ℕ × ℕ

-- The body of the loop: where the span that begins at `pos` ends.
unfoldable pub span_end : ℕ → ℕ → ℕ → ℕ → ℕ
span_end chunk page seqlen pos =
    let last_page = seqlen / page * page in
    let end = min ((pos + chunk) / page * page) seqlen in
    if ltb pos last_page && leb last_page end then last_page else end

-- The loop, on fuel: a round that goes on moves `pos` up.
unfoldable pub bounds_from : ℕ → ℕ → ℕ → ℕ → ℕ → List Span
bounds_from chunk page seqlen zero pos = []
bounds_from chunk page seqlen (suc fuel) pos = elim (ltb pos seqlen) [
  | false ↦ []
  | true ↦ elim (leb (span_end chunk page seqlen pos) pos) [
    | true ↦ []
    | false ↦
        (pos, span_end chunk page seqlen pos)
        ∷ bounds_from chunk page seqlen fuel (span_end chunk page seqlen pos)
  ]
]

-- With `length` 0 the source's `seqlen` is -1 and here it is 0: both give no span.
unfoldable pub suffix_bounds : ℕ → ℕ → ℤ → ℤ → Result (List Span)
unfolding span_end bounds_from
suffix_bounds chunk page (ℤ.pos start) (ℤ.pos length) =
    let seqlen = length - 1 in
    if leb seqlen start then ok [] else ok (bounds_from chunk page seqlen seqlen start)
suffix_bounds chunk page start length =
    raise (value_error "prefill bounds need nonnegative positions" [])
