-- ===== src/Session.antt =====
-- `Session` of engine/forward/session.py: its fields, the prefix marks and the ways back to a prefix
-- of the tape. `Turns` has the operations that a worker calls.
pub mod Marks
pub mod Turns
pub mod Generate
pub mod Forwards
use qwarz.Base.{
  ℕ, suc, Bool, true, false, Option, none, some, List, [], ◌∷◌, length, take, min, ltb, leb, ◌==◌,
  if◌then◌else◌,
}
use qwarz.Base.Outcome.{Result, ok, raise}
use qwarz.Device.{Engine}
use qwarz.Cycle.Draft.{DraftCycle}
use qwarz.Session.Marks.{Mark, mark_at, best_mark, prune_above}

-- What a session calls besides: `rezero` and `states`, `reset`, the draft's `reset`, and
-- `capture_host`, which may take a slot to write into. `rows` slices the rows of an image turn.
pub record Hardware (e : Engine) : Type 0 where
  pub has_states : e.Target → Bool
  pub rezero : Option (e.Target → e.Target)
  pub reset : e.Target → e.Target
  pub reset_draft : Option (e.Draft → e.Draft)
  pub capture_host : Option (Option e.Snapshot → e.Target → e.Snapshot)
  pub rows : e.Embedded → ℕ → ℕ → e.Embedded

pub data RewindSource : Type 0 where
  from_tape from_commit from_mark from_zero : RewindSource

-- `_draft_mark`
pub record DraftMark (e : Engine) : Type 0 where
  pub position : ℕ
  pub carry : Option e.Row
  pub accepted : ℕ
  pub rejected : ℕ
  pub primed : ℕ

-- The fields of a session, with the runner's state, the sampler's draws, what the callbacks keep
-- and the polls of the cancel event.
pub record Session (e : Engine) (Host : Type 0) : Type 0 where
  pub context : ℕ
  pub tape : List ℕ
  pub cursor : ℕ
  pub committed : ℕ
  pub snapshot : Option e.Snapshot
  pub busy : Bool
  pub cycle : Option (DraftCycle e)
  pub draft_mark : Option (DraftMark e)
  pub marks : List (ℕ × Mark e)
  pub spare_draft : Option e.Draft
  pub rewind_source : RewindSource
  pub target : e.Target
  pub rng : e.Rng
  pub host : Host
  pub polls : ℕ

-- the loop that counts `shared`
unfoldable pub shared_prefix : List ℕ → List ℕ → ℕ
shared_prefix (t ∷ tape) (i ∷ ids) = if t == i then suc (shared_prefix tape ids) else 0
shared_prefix _ _ = 0

-- the draft that is kept for the next cycle after a `rezero`
unfoldable pub spare_after {ℓ} : {D : Type ℓ} → Option (D → D) → Option D → Option D → Option D
spare_after (some reset) (some draft) spare = some (reset draft)
spare_after none draft spare = spare
spare_after (some reset) none spare = spare

module _ {e : Engine} where
  -- `self.cycle.draft`, where there is one
  abbrev pub draft_of : Option (DraftCycle e) → Option e.Draft
  draft_of none = none
  draft_of (some c) = c.draft

  -- a cycle whose draft is missing or stands elsewhere is dropped
  unfoldable pub cycle_at : ℕ → Option (DraftCycle e) → Option (DraftCycle e)
  cycle_at cursor none = none
  cycle_at cursor (some c) = elim c.draft [
    | none ↦ none
    | some draft ↦ if e.position draft == cursor then some c else none
  ]

module _ {e : Engine} {Host : Type 0} (hw : Hardware e) where
  -- what `_zero` forgets in any case
  unfoldable pub forget : e.Target → Option e.Draft → Session e Host → Session e Host
  forget target spare s = record s {
    rewind_source = from_zero;
    target = target;
    spare_draft = spare;
    snapshot = none;
    tape = [];
    cursor = 0;
    committed = 0;
    cycle = none;
    draft_mark = none;
    marks = [];
  }

  unfoldable pub zero_with : Option (e.Target → e.Target) → Session e Host → Session e Host
  unfolding forget spare_after
  zero_with none s = forget (hw.reset s.target) none s
  zero_with (some rezero) s =
      if hw.has_states s.target
      then forget (rezero s.target) (spare_after hw.reset_draft (draft_of s.cycle) s.spare_draft) s
      else forget (hw.reset s.target) none s

  -- `_zero`
  unfoldable pub zero_session : Session e Host → Session e Host
  unfolding zero_with
  zero_session s = zero_with hw.rezero s

  -- the part of `_restore_mark` behind the draft's truncation
  unfoldable pub return_to : ℕ → Mark e → DraftCycle e → Session e Host → Session e Host
  unfolding prune_above
  return_to best mark c s =
      let target = e.restore mark.snapshot s.target in
      record s {
        target = target;
        cursor = best;
        committed = best;
        tape = take best s.tape;
        snapshot = some (e.capture target);
        cycle = some (record c { carry = mark.carry });
        draft_mark = some (record {
          position = best;
          carry = mark.carry;
          accepted = c.accepted;
          rejected = c.rejected;
          primed = c.primed;
        });
        marks = prune_above best s.marks;
      }

  unfoldable pub truncate_to :
      ℕ
      → Mark e
      → DraftCycle e
      → Result (Unit {0}) × e.Draft
      → Session e Host
      → Bool × Session e Host
  unfolding return_to
  truncate_to best mark c (ok _, draft) s =
      (true, return_to best mark (record c { draft = some draft }) s)
  truncate_to best mark c (raise err, draft) s =
      (false, record s { cycle = some (record c { draft = some draft }) })

  unfoldable pub restore_found :
      DraftCycle e → e.Draft → ℕ → Option (Mark e) → Session e Host → Bool × Session e Host
  unfolding truncate_to
  restore_found c draft best none s = (false, s)
  restore_found c draft best (some mark) s = truncate_to best mark c (e.truncate best draft) s

  unfoldable pub restore_best :
      DraftCycle e → e.Draft → Option ℕ → Session e Host → Bool × Session e Host
  unfolding restore_found mark_at
  restore_best c draft none s = (false, s)
  restore_best c draft (some best) s = restore_found c draft best (mark_at best s.marks) s

  unfoldable pub restore_draft :
      DraftCycle e → Option e.Draft → ℕ → Session e Host → Bool × Session e Host
  unfolding restore_best best_mark
  restore_draft c none limit s = (false, s)
  restore_draft c (some draft) limit s = restore_best c draft (best_mark limit s.marks) s

  unfoldable pub restore_cycle : Option (DraftCycle e) → ℕ → Session e Host → Bool × Session e Host
  unfolding restore_draft
  restore_cycle none limit s = (false, s)
  restore_cycle (some c) limit s = restore_draft c c.draft limit s

  -- `_restore_mark`
  unfoldable pub restore_mark : ℕ → Session e Host → Bool × Session e Host
  unfolding restore_cycle
  restore_mark limit s = restore_cycle s.cycle limit s

  unfoldable pub to_commit : e.Snapshot → Session e Host → Session e Host
  unfolding cycle_at
  to_commit snapshot s = record s {
    target = e.restore snapshot s.target;
    cursor = s.committed;
    tape = take s.committed s.tape;
    cycle = cycle_at s.committed s.cycle;
    rewind_source = from_commit;
  }

  unfoldable pub mark_found : Bool × Session e Host → Session e Host
  unfolding zero_session
  mark_found (true, s) = record s { rewind_source = from_mark }
  mark_found (false, s) = zero_session s

  -- the last two ways of `_rewind_to_commit_or_zero`
  unfoldable pub mark_or_zero : ℕ → Session e Host → Session e Host
  unfolding restore_mark mark_found
  mark_or_zero limit s = mark_found (restore_mark limit s)

  unfoldable pub rewind_below : Option e.Snapshot → ℕ → ℕ → Session e Host → Session e Host
  unfolding to_commit mark_or_zero
  rewind_below none shared limit s = mark_or_zero limit s
  rewind_below (some snapshot) shared limit s =
      if leb s.committed shared then to_commit snapshot s else mark_or_zero limit s

  -- `_rewind_to_commit_or_zero`; without a limit it is `shared`
  unfoldable pub rewind : ℕ → ℕ → Session e Host → Session e Host
  unfolding rewind_below
  rewind shared limit s =
      if leb s.cursor shared
      then record s { rewind_source = if ltb 0 s.cursor then from_tape else from_zero }
      else rewind_below s.snapshot shared (min shared limit) s
