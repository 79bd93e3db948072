-- ===== src/Cycle/Loop.antt =====
-- `continue_drafted` of engine/forward/cycle.py: prefill, then windows until the budget, a stop id,
-- a directive or a cancellation ends the turn.
pub mod Greedy
pub mod Answer
use qwarz.Base.{
  ℕ, zero, suc, Bool, ◌&&◌, true, false, Option, none, some, List, [], length, take, ltb,
  if◌then◌else◌,
}
use qwarz.Base.Outcome.{Result, ok, raise, Error, runtime_error, cancelled_turn}
use qwarz.Base.Action.{Exec, pure, throw, lift, ◌>>=◌, ◌>>◌}
use qwarz.Device.{Engine}
use qwarz.Cycle.Suffix
use qwarz.Cycle.Suffix.{SuffixIndex}
use qwarz.Cycle.Turn.{Turn, World, stop_requested}
use qwarz.Cycle.Prefill.{prefill_held}
use qwarz.Cycle.Window.{Progress, window}

-- `NGRAM_SPAN`
abbrev pub ngram_span : ℕ
ngram_span = 32768

module _ {e : Engine} {Host : Type 0} (turn : Turn e Host) where
  -- what the flag of a window decides, before the test of the loop is read again
  abbrev pub after_window {ℓ} :
      {S : Type ℓ} → (Progress → Exec S Progress) → Progress × Bool → Exec S Progress
  after_window again (p, true) = pure p
  after_window again (p, false) = again p

  -- `while len(produced) < max_new`, on fuel; running out of it is an error of the model only
  unfoldable pub loop : ℕ → Progress → Exec (World e Host) Progress
  loop zero p =
      if ltb (length p.produced) turn.max_new
      then throw (runtime_error "no fuel left" [])
      else pure p
  loop (suc fuel) p =
      let again = loop fuel in
      if ltb (length p.produced) turn.max_new then window turn p >>= after_window again else pure p

  -- the suffix index of the turn, if copying is on
  unfoldable pub start_suffix : List ℕ → Option SuffixIndex
  start_suffix resident = elim turn.embed_ids [
    | some _ ↦ none
    | none ↦ elim e.rewind_recurrent [
      | none ↦ none
      | some _ ↦ if turn.ngram then some (Suffix.init resident turn.ngram_n ngram_span) else none
    ]
  ]

  unfoldable pub finish : Progress → Exec (World e Host) (List ℕ)
  unfolding stop_requested
  finish p = do
    cancelled ← stop_requested turn.cancel
    if cancelled then throw (cancelled_turn p.produced) else λ w. (
      ok (
          if ltb turn.max_new (length p.produced)
          then p.produced
          else take turn.max_new p.produced),
      record w {
        cycle = record w.cycle {
          tokens = p.produced;
          cache_len = p.cache_len;
          overshot = ltb turn.max_new (length p.produced);
        };
      },
    )

  -- `overshot` is written by `finish` only: the writes before it show in a call that raises, where
  -- nothing reads them.
  unfoldable pub continue_drafted : List ℕ → ℕ → Exec (World e Host) (List ℕ)
  unfolding start_suffix
  continue_drafted prompt start = do
    (cache_len, held) ← prefill_held turn prompt start
    p ← loop turn.max_new (record {
      cache_len = cache_len;
      held = held;
      produced = [];
      suffix = start_suffix (take cache_len prompt);
    })
    finish p
