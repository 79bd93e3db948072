-- ===== src/Cycle/Prefill.antt =====
-- `split_spans` and `prefill_held` of engine/forward/cycle.py.
pub mod Chain
pub mod Held
use qwarz.Base.{
  ℕ, suc, ◌+◌, ◌-◌, Bool, ◌&&◌, true, false, Option, none, some, List, [], ◌∷◌, ◌++◌, length, take,
  drop, ltb, leb, ◌==◌, if◌then◌else◌, last_or,
}
use qwarz.Base.Int.{ℤ}
use qwarz.Base.Outcome.{Result, ok, raise, Error, value_error, runtime_error}
use qwarz.Base.Action.{Exec, pure, throw, lift, ◌>>=◌, ◌>>◌}
use qwarz.Device.{Engine}
use qwarz.Mtp.{item}
use qwarz.Schedule.{Span, chunk_size, page_size, suffix_bounds}
use qwarz.Cycle.Draft.{DraftCycle, absorb_prefill}
use qwarz.Cycle.Turn.{Turn, World, on_cycle, forward, check_cursor}

-- `sorted(set(cuts))`, one cut at a time
unfoldable pub insert_cut : ℕ → List ℕ → List ℕ
insert_cut cut [] = cut ∷ []
insert_cut cut (c ∷ cuts) =
    if ltb cut c then cut ∷ c ∷ cuts else if cut == c then c ∷ cuts else c ∷ insert_cut cut cuts

unfoldable pub inner_cuts : ℕ → ℕ → List ℕ → List ℕ
unfolding insert_cut
inner_cuts begin end [] = []
inner_cuts begin end (cut ∷ cuts) =
    let rest = inner_cuts begin end cuts in
    if ltb begin cut && ltb cut end then insert_cut cut rest else rest

unfoldable pub split_span : ℕ → ℕ → List ℕ → List Span
split_span begin end [] = (begin, end) ∷ []
split_span begin end (cut ∷ inner) = (begin, cut) ∷ split_span cut end inner

unfoldable pub split_spans : List Span → List ℕ → List Span
unfolding inner_cuts split_span
split_spans [] cuts = []
split_spans ((begin, end) ∷ spans) cuts =
    split_span begin end (inner_cuts begin end cuts) ++ split_spans spans cuts

abbrev pub span_stop : ℕ → List Span → ℕ
span_stop stop [] = stop
span_stop stop ((begin, end) ∷ spans) = span_stop end spans

unfoldable pub note_span :
    {e : Engine} {Host : Type 0}
    → Option (ℕ → Option e.Row → e.Target → Host → Host)
    → ℕ
    → Exec (World e Host) (Unit {0})
note_span none end w = (ok tt, w)
note_span (some on_span) end w =
    (ok tt, record w { host = on_span end w.cycle.carry w.target w.host })

module _ {e : Engine} {Host : Type 0} (turn : Turn e Host) where
  unfoldable pub prefill_span : List ℕ → Span → Exec (World e Host) (Unit {0})
  unfolding note_span on_cycle forward
  prefill_span prompt (begin, end) = do
    let ids = take (end - begin) (drop begin prompt)
    forward turn ids begin
    (λ w. on_cycle (λ t. absorb_prefill e t ids (e.hidden w.target)) w)
    note_span turn.on_span end

  unfoldable pub prefill_spans : List ℕ → List Span → Exec (World e Host) (Unit {0})
  unfolding prefill_span
  prefill_spans prompt [] = pure tt
  prefill_spans prompt (span ∷ spans) =
      let rest = prefill_spans prompt spans in do prefill_span prompt span; rest

  -- the tail of `prefill_held`, for the spans found
  unfoldable pub prefill_from : List ℕ → ℕ → List Span → Exec (World e Host) (ℕ × ℕ)
  unfolding prefill_spans check_cursor
  prefill_from prompt start [] =
      if leb 2 (length prompt) && start == length prompt - 1
      then (do check_cursor start; held ← lift (item prompt start); pure (start, held))
      else throw (value_error "MTP prefill needs a held token after at least one token" [])
  prefill_from prompt start (span ∷ spans) = do
    prefill_spans prompt (span ∷ spans)
    let cache_len = span_stop start (span ∷ spans)
    check_cursor cache_len
    held ← lift (item prompt cache_len)
    pure (cache_len, held)

  unfoldable pub prefill_held : List ℕ → ℕ → Exec (World e Host) (ℕ × ℕ)
  unfolding prefill_from split_spans suffix_bounds
  prefill_held prompt start = do
    spans ← lift (suffix_bounds chunk_size page_size (ℤ.pos start) (ℤ.pos (length prompt)))
    prefill_from prompt start (split_spans spans turn.cuts)
