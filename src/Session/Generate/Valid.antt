-- ===== src/Session/Generate/Valid.antt =====
-- What holds of a session between its operations (engine/forward/session.py).
use qwarz.Base.{
  ℕ, ◌≤◌, ◌<◌, ◌≡◌, sym, ◌∙◌, true, Option, some, List, [], ◌∷◌, length, take, arith,
  take_of_length-le,
}
use qwarz.Device.{Engine, Laws}
use qwarz.Cycle.Draft.{DraftCycle}
use qwarz.Cycle.Draft.Aligned.{HasCarry}
use qwarz.Session.Marks.{Mark}
use qwarz.Session.{Session, Hardware}

module _ {e : Engine} {embed_ids : Option (List ℕ → Option e.Embedded)} {freq : Option e.Freq}
    (laws : Laws e embed_ids freq) where
  -- a reset runner holds no ids, and a reset draft stands at 0
  pub record HardwareLaws (hw : Hardware e) : Type 0 where
    pub consumed_reset : (t : e.Target) → laws.consumed (hw.reset t) ≡ []
    pub consumed_rezero :
        (rezero : e.Target → e.Target) (t : e.Target)
        → hw.rezero ≡ some rezero
        → hw.has_states t ≡ true
        → laws.consumed (rezero t) ≡ []
    pub position_reset :
        (reset : e.Draft → e.Draft) (d : e.Draft)
        → hw.reset_draft ≡ some reset
        → e.position (reset d) ≡ 0

  -- A host copy for the first `p` ids of a tape: restored onto a runner whose pages hold those ids,
  -- it gives them back.
  abbrev pub MarkFits : List ℕ → ℕ → Mark e → Type 0
  MarkFits tape p mark =
      p ≤ length tape
      → ((t : e.Target)
          → take p (laws.consumed t) ≡ take p tape
          → laws.consumed (e.restore mark.snapshot t) ≡ take p tape)
        × ((row : e.Row) × (mark.carry ≡ some row))

  abbrev pub MarksFit : List ℕ → List (ℕ × Mark e) → Type 0
  MarksFit tape [] = Unit {0}
  MarksFit tape ((p, mark) ∷ marks) = MarkFits tape p mark × MarksFit tape marks

  -- the cycle's draft stands at the cursor, with a row to go on from
  pub record CycleAt (cursor : ℕ) (c : DraftCycle e) : Type 0 where
    pub draft : e.Draft
    pub has_draft : c.draft ≡ some draft
    pub position : e.position draft ≡ cursor
    pub carry : 0 < cursor → HasCarry c

  -- The runner holds exactly the tape, up to the cursor, and everything is committed.
  pub record Valid {Host : Type 0} (s : Session e Host) : Type 0 where
    pub cursor : s.cursor ≡ length s.tape
    pub consumed : laws.consumed s.target ≡ s.tape
    pub committed : s.committed ≡ s.cursor
    pub snapshot :
        (kept : e.Snapshot) (t : e.Target)
        → s.snapshot ≡ some kept
        → laws.consumed (e.restore kept t) ≡ s.tape
    pub cycle : (c : DraftCycle e) → s.cycle ≡ some c → CycleAt s.cursor c
    pub spare : (d : e.Draft) → s.spare_draft ≡ some d → e.position d ≡ 0

  -- What holds of a session whose last ids may be behind its commit: the runner holds the tape, and the
  -- copy of the commit, restored onto a runner whose pages hold the ids of the commit, gives them back.
  pub record Standing {Host : Type 0} (s : Session e Host) : Type 0 where
    pub cursor : s.cursor ≡ length s.tape
    pub consumed : laws.consumed s.target ≡ s.tape
    pub committed : s.committed ≤ s.cursor
    pub snapshot :
        (kept : e.Snapshot) (t : e.Target)
        → s.snapshot ≡ some kept
        → take s.committed (laws.consumed t) ≡ take s.committed s.tape
        → laws.consumed (e.restore kept t) ≡ take s.committed s.tape
    pub cycle : (c : DraftCycle e) → s.cycle ≡ some c → CycleAt s.cursor c
    pub spare : (d : e.Draft) → s.spare_draft ≡ some d → e.position d ≡ 0

  pub Valid-Standing : {Host : Type 0} (s : Session e Host) → Valid s → Standing s
  Valid-Standing s v =
      let whole : take s.committed s.tape ≡ s.tape =
        take_of_length-le s.committed s.tape (omega (arith, v.committed, v.cursor)) in
      record {
        cursor = v.cursor;
        consumed = v.consumed;
        committed = omega (arith, v.committed);
        snapshot = λ kept t has same. v.snapshot kept t has ∙ sym whole;
        cycle = v.cycle;
        spare = v.spare;
      }

  -- What a rewind for `ids` leaves: a prefix of `ids` that is not all of them.
  pub record Rewound {Host : Type 0} (ids : List ℕ) (s : Session e Host) : Type 0 where
    pub cursor : s.cursor ≡ length s.tape
    pub consumed : laws.consumed s.target ≡ s.tape
    pub tape : s.tape ≡ take s.cursor ids
    pub inside : s.cursor < length ids
    pub cycle : (c : DraftCycle e) → s.cycle ≡ some c → CycleAt s.cursor c
    pub spare : (d : e.Draft) → s.spare_draft ≡ some d → e.position d ≡ 0
