-- ===== src/Session/Generate.antt =====
-- `Session.generate` of engine/forward/session.py.
pub mod Valid
pub mod Shared
pub mod Rewinds
pub mod Greedy
pub mod Answers
pub mod Repeated
use qwarz.Base.{
  ℕ, suc, ◌+◌, ◌-◌, Bool, true, false, Option, none, some, List, [], ◌∷◌, ◌++◌, length, take, ltb,
  ◌==◌, if◌then◌else◌,
}
use qwarz.Base.Outcome.{
  Result, ok, raise, Error, value_error, runtime_error, session_busy, cancelled_turn,
}
use qwarz.Base.Action.{Exec, pure, throw, lift, ◌>>=◌, ◌>>◌}
use qwarz.Device.{Engine}
use qwarz.Cycle.Draft
use qwarz.Cycle.Draft.{DraftCycle}
use qwarz.Cycle.Turn.{Turn, World, Directive}
use qwarz.Cycle.Loop.{continue_drafted}
use qwarz.Session.Marks.{Mark, note_mark}
use qwarz.Session.{Session, Hardware, RewindSource, shared_prefix, zero_session, rewind}
use qwarz.Session.Turns.{Status, Generated, commit, cancel, check_tape, set_session}

module _ {e : Engine} where
  unfoldable pub keep_at : Option e.Draft → ℕ → DraftCycle e → Option (DraftCycle e)
  keep_at none cursor c = some c
  keep_at (some draft) cursor c = if e.position draft == cursor then some c else none

  -- a cycle whose draft stands away from the cursor is dropped
  unfoldable pub usable_cycle : ℕ → Option (DraftCycle e) → Option (DraftCycle e)
  unfolding keep_at
  usable_cycle cursor none = none
  usable_cycle cursor (some c) = keep_at c.draft cursor c

  -- the cycle to use, a new one on the spare draft if there is none
  abbrev pub cycle_or_new : Option (DraftCycle e) → Option e.Draft → DraftCycle e
  cycle_or_new none spare = Draft.new_cycle e spare
  cycle_or_new (some c) spare = c

  abbrev pub spare_left : Option (DraftCycle e) → Option e.Draft → Option e.Draft
  spare_left none spare = none
  spare_left (some c) spare = spare

  -- a callback on what it keeps, beside the marks
  unfoldable pub beside_marks :
      {Host : Type 0}
      → Option (List ℕ → Host → Option Directive × Host)
      → Option (List ℕ → List (ℕ × Mark e) × Host → Option Directive × (List (ℕ × Mark e) × Host))
  beside_marks none = none
  beside_marks (some hook) =
      some (λ produced kept. ((hook produced kept.1).0, (kept.0, (hook produced kept.1).1)))

module _ {e : Engine} {Host : Type 0} (hw : Hardware e) where
  -- `except Exception: self.cancel(); raise`
  unfoldable pub cancel_on_error :
      {A : Type 0} → Result A × Session e Host → Result A × Session e Host
  unfolding cancel
  cancel_on_error (ok a, s) = (ok a, s)
  cancel_on_error (raise session_busy, s) = (raise session_busy, s)
  cancel_on_error (raise err, s) = (raise err, cancel hw s)

module _ {e : Engine} {Host : Type 0} (hw : Hardware e) (most : ℕ) where
  -- The arguments as the cycle gets them: its `on_span` is the session's own, so the marks stand
  -- beside what the callbacks keep.
  abbrev pub with_marks : Turn e Host → Turn e (List (ℕ × Mark e) × Host)
  with_marks turn = record {
    max_new = turn.max_new;
    steps = turn.steps;
    limit = turn.limit;
    stop_ids = turn.stop_ids;
    cuts = turn.cuts;
    choose = turn.choose;
    on_accepted = beside_marks turn.on_accepted;
    on_span =
        some (λ end carry target kept.
          (note_mark most hw.capture_host end carry target kept.0, kept.1));
    cancel = turn.cancel;
    embed_ids = turn.embed_ids;
    inv_freq = turn.inv_freq;
    ngram = turn.ngram;
    ngram_n = turn.ngram_n;
  }

  abbrev pub enter : DraftCycle e → Session e Host → World e (List (ℕ × Mark e) × Host)
  enter c s = record {
    target = s.target;
    cycle = c;
    rng = s.rng;
    host = (s.marks, s.host);
    polls = s.polls;
  }

  abbrev pub leave : World e (List (ℕ × Mark e) × Host) → Session e Host → Session e Host
  leave w s = record s {
    target = w.target;
    cycle = some w.cycle;
    rng = w.rng;
    host = w.host.1;
    marks = w.host.0;
    polls = w.polls;
  }

  -- a session that has a tape and no cycle starts over
  unfoldable pub zero_without_cycle : Option (DraftCycle e) → Session e Host → Session e Host
  zero_without_cycle none s =
      if ltb 0 s.cursor
      then zero_session hw (record s { cycle = none })
      else record s { cycle = none }
  zero_without_cycle (some c) s = record s { cycle = some c }

  -- what stands before the call: the rewind, and the cycle that goes on from there
  unfoldable pub arrange : List ℕ → Session e Host → Session e Host
  unfolding rewind usable_cycle zero_without_cycle
  arrange ids s =
      let s1 = rewind hw (shared_prefix s.tape ids) (length ids - 1) s in
      zero_without_cycle (usable_cycle s1.cursor s1.cycle) s1

  -- the answer for a `CancelledTurn`, which leaves the session cancelled
  unfoldable pub answer_cancelled :
      List ℕ → ℕ → DraftCycle e → DraftCycle e → Session e Host → Result Generated × Session e Host
  unfolding cancel
  answer_cancelled produced cached before c s =
      let s' = cancel hw s in
      (
        ok (record {
          status = Status.cancelled;
          tokens = produced;
          cached_tokens = cached;
          cursor = s'.cursor;
          accepted = c.accepted - before.accepted;
          rejected = c.rejected - before.rejected;
          windows = c.windows - before.windows;
          prefix_source = s.rewind_source;
        }),
        s',
      )

  unfoldable pub answer_completed :
      List ℕ
      → List ℕ
      → ℕ
      → DraftCycle e
      → DraftCycle e
      → Session e Host
      → Result Generated × Session e Host
  unfolding commit
  answer_completed ids tokens cached before c s =
      if c.cache_len + 1 == length ids + length c.tokens
      then (
        ok (record {
          status = Status.completed;
          tokens = tokens;
          cached_tokens = cached;
          cursor = c.cache_len;
          accepted = c.accepted - before.accepted;
          rejected = c.rejected - before.rejected;
          windows = c.windows - before.windows;
          prefix_source = s.rewind_source;
        }),
        commit (record s { tape = take c.cache_len (ids ++ c.tokens); cursor = c.cache_len }),
      )
      else (
        raise (runtime_error "drafted cache diverged from the emitted tokens" (c.cache_len ∷ [])),
        s,
      )

  -- behind the call: only a `CancelledTurn` is caught here
  unfoldable pub conclude :
      List ℕ
      → ℕ
      → DraftCycle e
      → Result (List ℕ)
      → World e (List (ℕ × Mark e) × Host)
      → Session e Host
      → Result Generated × Session e Host
  unfolding answer_cancelled answer_completed
  conclude ids cached before (ok tokens) w s =
      answer_completed ids tokens cached before w.cycle (leave w s)
  conclude ids cached before (raise (cancelled_turn produced)) w s =
      answer_cancelled produced cached before w.cycle (leave w s)
  conclude ids cached before (raise err) w s = (raise err, leave w s)

  unfoldable pub call_cycle : Turn e Host → List ℕ → Exec (Session e Host) Generated
  unfolding conclude
  call_cycle turn ids s =
      let c = cycle_or_new s.cycle s.spare_draft in
      let (r, w) = continue_drafted (with_marks turn) ids s.cursor (enter c s) in
      conclude ids s.cursor c r w (record s { spare_draft = spare_left s.cycle s.spare_draft })

  unfoldable pub generate_body : Turn e Host → List ℕ → Exec (Session e Host) Generated
  unfolding arrange check_tape call_cycle set_session
  generate_body turn ids s =
      if ltb s.context (length ids)
      then (raise (value_error "prompt exceeds the resident context" []), s)
      else (do set_session (arrange ids); check_tape ids; call_cycle turn ids) s

  unfoldable pub generate : Turn e Host → List ℕ → Exec (Session e Host) Generated
  unfolding generate_body cancel_on_error
  generate turn ids s =
      if s.busy
      then (raise session_busy, s)
      else (if turn.max_new == 0
          then (raise (value_error "generate needs a positive max_new" []), s)
          else cancel_on_error hw (generate_body turn ids (record s { busy = true })))
