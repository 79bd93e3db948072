-- ===== src/Session/Turns.antt =====
-- The operations of engine/forward/session.py: commit, cancel, prefill, generate and turn. Timings
-- are left out of the answers.
use qwarz.Base.{
  ℕ, ◌-◌, false, Option, none, some, List, [], ◌∷◌, length, take, drop, ltb, ◌==◌, if◌then◌else◌,
}
use qwarz.Base.Int.{ℤ}
use qwarz.Base.Outcome.{Result, ok, raise, value_error, runtime_error}
use qwarz.Base.Action.{Exec, pure, ◌>>=◌, ◌>>◌}
use qwarz.Device.{Engine}
use qwarz.Schedule.{Span, chunk_size, page_size, suffix_bounds}
use qwarz.Cycle.Suffix.{same}
use qwarz.Cycle.Draft.{DraftCycle}
use qwarz.Session.{Session, Hardware, DraftMark, RewindSource, shared_prefix, zero_session, rewind}

pub data Status : Type 0 where
  completed cancelled : Status

-- the dictionary that `generate` returns
pub record Generated : Type 0 where
  pub status : Status
  pub tokens : List ℕ
  pub cached_tokens : ℕ
  pub cursor : ℕ
  pub accepted : ℕ
  pub rejected : ℕ
  pub windows : ℕ
  pub prefix_source : RewindSource

-- the dictionary that `turn` returns, with a cursor unless it was cancelled
pub record Forwarding : Type 0 where
  pub status : Status
  pub forwarded : List Span
  pub cached_tokens : ℕ
  pub cursor : Option ℕ

module _ {e : Engine} where
  -- `_draft_mark` as `commit` writes it
  unfoldable pub mark_draft : Option (DraftCycle e) → Option (DraftMark e)
  mark_draft none = none
  mark_draft (some c) = elim c.draft [
    | none ↦ none
    | some draft ↦ some (record {
      position = e.position draft;
      carry = c.carry;
      accepted = c.accepted;
      rejected = c.rejected;
      primed = c.primed;
    })
  ]

  unfoldable pub restored :
      ℕ → DraftMark e → DraftCycle e → Result (Unit {0}) × e.Draft → Option (DraftCycle e)
  restored cursor mark c (raise err, draft) = none
  restored cursor mark c (ok _, draft) =
      if e.position draft == cursor
      then some (record c {
        draft = some draft;
        carry = mark.carry;
        accepted = mark.accepted;
        rejected = mark.rejected;
        primed = mark.primed;
      })
      else none

  -- the cycle behind a `cancel`
  unfoldable pub cancelled_cycle :
      ℕ → Option (DraftMark e) → Option (DraftCycle e) → Option (DraftCycle e)
  unfolding restored
  cancelled_cycle cursor none cycle = none
  cancelled_cycle cursor (some mark) none = none
  cancelled_cycle cursor (some mark) (some c) = elim c.draft [
    | none ↦ none
    | some draft ↦ restored cursor mark c (e.truncate mark.position draft)
  ]

module _ {e : Engine} {Host : Type 0} where
  -- `ids[:cursor] != tape[:cursor]`
  unfoldable pub check_tape : List ℕ → Exec (Session e Host) (Unit {0})
  check_tape ids s =
      if same (take s.cursor ids) (take s.cursor s.tape)
      then (ok tt, s)
      else (raise (runtime_error "resident tape does not match the prompt prefix" []), s)

  unfoldable pub set_session : (Session e Host → Session e Host) → Exec (Session e Host) (Unit {0})
  set_session f s = (ok tt, f s)

  unfoldable pub commit : Session e Host → Session e Host
  unfolding mark_draft
  commit s = record s {
    committed = s.cursor;
    tape = take s.cursor s.tape;
    snapshot = some (e.capture s.target);
    busy = false;
    draft_mark = mark_draft s.cycle;
  }

  unfoldable pub cancel_to : e.Snapshot → Session e Host → Session e Host
  unfolding cancelled_cycle
  cancel_to snapshot s = record s {
    target = e.restore snapshot s.target;
    cursor = s.committed;
    tape = take s.committed s.tape;
    cycle = cancelled_cycle s.committed s.draft_mark s.cycle;
    busy = false;
  }

module _ {e : Engine} {Host : Type 0} (hw : Hardware e) where
  unfoldable pub cancel_with : Option e.Snapshot → Session e Host → Session e Host
  unfolding cancel_to
  cancel_with none s = record (zero_session hw s) { busy = false }
  cancel_with (some snapshot) s = cancel_to snapshot s

  unfoldable pub cancel : Session e Host → Session e Host
  unfolding cancel_with
  cancel s = cancel_with s.snapshot s

  -- `_forward_span`, with the tape and the cursor behind it
  unfoldable pub forward_span :
      Option e.Embedded → Option e.Freq → List ℕ → Span → Exec (Session e Host) (Unit {0})
  forward_span embedded inv_freq ids (start, end) s =
      let rows = elim embedded as (λ _. Option e.Embedded) [
        | none ↦ none
        | some table ↦ some (hw.rows table start end)
      ] in
      let (r, target) =
        e.forward (take (end - start) (drop start ids)) start rows inv_freq s.target in
      elim r [
        | raise err ↦ (raise err, record s { target = target })
        | ok _ ↦ (ok tt, record s { target = target; cursor = end; tape = take end ids })
      ]

  unfoldable pub forward_spans :
      Option e.Embedded → Option e.Freq → List ℕ → List Span → Exec (Session e Host) (Unit {0})
  unfolding forward_span
  forward_spans embedded inv_freq ids [] = pure tt
  forward_spans embedded inv_freq ids (span ∷ spans) =
      let rest = forward_spans embedded inv_freq ids spans in
      do forward_span embedded inv_freq ids span; rest

  -- `Session.prefill`
  unfoldable pub prefill :
      List ℕ → Option e.Embedded → Option e.Freq → Exec (Session e Host) (List Span)
  unfolding set_session check_tape forward_spans rewind
  prefill ids embedded inv_freq s =
      if ltb s.context (length ids)
      then (raise (value_error "prompt exceeds the resident context" []), s)
      else (do
        let shared = shared_prefix s.tape ids
        set_session (rewind hw shared shared)
        check_tape ids
        spans ←
            λ s1. (suffix_bounds chunk_size page_size (ℤ.pos s1.cursor) (ℤ.pos (length ids)), s1)
        forward_spans embedded inv_freq ids spans
        pure spans)
          s
