-- ===== src/Session/Forwards.antt =====
-- `Session.turn` of engine/forward/session.py: a prompt forwarded to its end, with no draft.
pub mod Front
pub mod Whole
use qwarz.Base.{
  ℕ, zero, suc, ◌+◌, ◌-◌, Bool, true, false, Option, none, some, List, [], ◌∷◌, ◌++◌, length, ltb,
  leb, ◌==◌, if◌then◌else◌,
}
use qwarz.Base.Int.{ℤ}
use qwarz.Base.Outcome.{Result, ok, raise, Error, session_busy}
use qwarz.Base.Action.{Exec, pure, throw, lift, ◌>>=◌, ◌>>◌}
use qwarz.Device.{Engine}
use qwarz.Schedule.{Span, chunk_size, page_size, suffix_bounds}
use qwarz.Cycle.Prefill.{span_stop}
use qwarz.Session.{Session, Hardware, shared_prefix, rewind}
use qwarz.Session.Turns.{Status, Forwarding, commit, cancel, check_tape, set_session, forward_span}
use qwarz.Session.Generate.{cancel_on_error}

-- the last id gets a span of its own if the cuts stop before it
unfoldable pub to_the_end : ℕ → ℕ → List Span → List Span
to_the_end cursor size spans =
    if ltb cursor size
    then (if ltb (span_stop cursor spans) size then spans ++ (size - 1, size) ∷ [] else spans)
    else spans

module _ {e : Engine} {Host : Type 0} where
  -- `cancelled is not None and cancelled()`
  unfoldable pub poll : Option (ℕ → Bool) → Exec (Session e Host) Bool
  poll none s = (ok false, s)
  poll (some cancelled) s = (ok (cancelled s.polls), record s { polls = s.polls + 1 })

  unfoldable pub answer_turn : ℕ → Bool × List Span → Exec (Session e Host) Forwarding
  unfolding commit
  answer_turn cached (true, forwarded) s = (
    ok (record {
      status = Status.cancelled;
      forwarded = forwarded;
      cached_tokens = s.committed;
      cursor = none;
    }),
    s,
  )
  answer_turn cached (false, forwarded) s = (
    ok (record {
      status = Status.completed;
      forwarded = forwarded;
      cached_tokens = cached;
      cursor = some s.cursor;
    }),
    commit s,
  )

  -- the spans from the resident cursor on
  unfoldable pub turn_spans : List ℕ → Exec (Session e Host) (List Span)
  unfolding suffix_bounds to_the_end
  turn_spans ids s =
      (do
        spans ← lift (suffix_bounds chunk_size page_size (ℤ.pos s.cursor) (ℤ.pos (length ids)))
        pure (to_the_end s.cursor (length ids) spans))
        s

module _ {e : Engine} {Host : Type 0} (hw : Hardware e) where
  -- The loop over the spans, with those forwarded so far. The flag says that it was cancelled.
  unfoldable pub forward_until :
      Option (ℕ → Bool)
      → Option e.Embedded
      → Option e.Freq
      → List ℕ
      → List Span
      → List Span
      → Exec (Session e Host) (Bool × List Span)
  unfolding poll forward_span cancel set_session
  forward_until cancelled embedded inv_freq ids forwarded [] = pure (false, forwarded)
  forward_until cancelled embedded inv_freq ids forwarded (span ∷ spans) =
      let rest = forward_until cancelled embedded inv_freq ids (forwarded ++ span ∷ []) spans in
      let stopped = (do set_session (cancel hw); pure (true, forwarded)) in
      let going = (do forward_span hw embedded inv_freq ids span; rest) in
      do stop ← poll cancelled; if stop then stopped else going

  unfoldable pub turn_body :
      Option (ℕ → Bool)
      → Option e.Embedded
      → Option e.Freq
      → List ℕ
      → Exec (Session e Host) Forwarding
  unfolding set_session check_tape turn_spans forward_until answer_turn rewind
  turn_body cancelled embedded inv_freq ids s =
      let shared = shared_prefix s.tape ids in
      (do
        set_session (rewind hw shared shared)
        check_tape ids
        cached ← λ s1. (ok s1.cursor, s1)
        spans ← turn_spans ids
        outcome ← forward_until cancelled embedded inv_freq ids [] spans
        answer_turn cached outcome)
        s

  unfoldable pub turn :
      Option (ℕ → Bool)
      → Option e.Embedded
      → Option e.Freq
      → List ℕ
      → Exec (Session e Host) Forwarding
  unfolding turn_body cancel_on_error
  turn cancelled embedded inv_freq ids s =
      if s.busy
      then (raise session_busy, s)
      else cancel_on_error hw
          (turn_body cancelled embedded inv_freq ids (record s { cycle = none; busy = true }))
