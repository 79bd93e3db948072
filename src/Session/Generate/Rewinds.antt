-- ===== src/Session/Generate/Rewinds.antt =====
-- A rewind of engine/forward/session.py leaves a prefix of the new prompt resident.
use qwarz.Base.{
  ◌==◌, ℕ, ◌-◌, ◌≤◌, ◌<◌, ◌≡◌, refl, ap, sym, subst, ◌∙◌, inl, inr, Bool, true, false, Option, none,
  some, List, [], length, take, min, leb, arith, Bool-cases, leb→le, leb→lt, length-take_of_le,
  take_of_length-le,
}
use native.Mathlib.Decide.{dec_lt}
use qwarz.Base.Outcome.{Result, ok, raise}
use qwarz.Device.{Engine, Laws}
use qwarz.Cycle.Draft.{DraftCycle}
use qwarz.Session.Marks.{Mark, best_mark, mark_at}
use qwarz.Session.{
  cycle_at, to_commit, Session, Hardware, shared_prefix, draft_of, forget, zero_with, zero_session,
  return_to, truncate_to, restore_found, restore_best, restore_draft, restore_cycle, restore_mark,
  mark_found, mark_or_zero, rewind_below, rewind,
}
use qwarz.Session.Generate.Valid.{HardwareLaws, MarkFits, MarksFit, CycleAt, Standing, Rewound}
use qwarz.Session.Generate.Shared.{
  shared_prefix_lem, take_of_le, mark_at-MarksFit, best_mark_lem, spare_after_lem,
}

module _ {e : Engine} {embed_ids : Option (List ℕ → Option e.Embedded)} {freq : Option e.Freq}
    (laws : Laws e embed_ids freq) where
  -- the cycle of a commit that lies below the cursor is dropped
  cycle_at-none :
      (at : ℕ) (cycle : Option (DraftCycle e)) (cursor : ℕ)
      → at < cursor
      → ((c : DraftCycle e) → cycle ≡ some c → CycleAt laws cursor c)
      → cycle_at at cycle ≡ none
  unfolding cycle_at
  cycle_at-none at none cursor below h = refl
  cycle_at-none at (some c) cursor below h =
      let a = h c refl in
      let away : e.position a.draft == at ≡ false = ground (arith, a.position) in
      rw (a.has_draft, away) refl

module _ {e : Engine} {embed_ids : Option (List ℕ → Option e.Embedded)} {freq : Option e.Freq}
    (laws : Laws e embed_ids freq) (hw : Hardware e) (hw_laws : HardwareLaws laws hw)
    {Host : Type 0} (ids : List ℕ) (some_id : 0 < length ids) where
  forget-Rewound :
      (target : e.Target) (spare : Option e.Draft) (s : Session e Host)
      → laws.consumed target ≡ []
      → ((d : e.Draft) → spare ≡ some d → e.position d ≡ 0)
      → Rewound laws ids (forget hw target spare s)
  unfolding forget
  forget-Rewound target spare s empty at_start = record {
    cursor = refl;
    consumed = empty;
    tape = refl;
    inside = some_id;
    cycle = λ c h. absurd (cc);
    spare = at_start;
  }

  zero_with-Rewound :
      (by : Option (e.Target → e.Target)) (s : Session e Host)
      → by ≡ hw.rezero
      → ((d : e.Draft) → s.spare_draft ≡ some d → e.position d ≡ 0)
      → Rewound laws ids (zero_with hw by s)
  unfolding zero_with
  zero_with-Rewound none s has h =
      forget-Rewound (hw.reset s.target) none s (hw_laws.consumed_reset s.target)
        (λ d e1. absurd (cc))
  zero_with-Rewound (some rezero) s has h = elim (Bool-cases (hw.has_states s.target)) [
    | inl ready ↦ rw ready (
        forget-Rewound (rezero s.target) _ s
          (hw_laws.consumed_rezero rezero s.target (sym has) ready)
          (spare_after_lem e.position hw.reset_draft (draft_of s.cycle) s.spare_draft
            hw_laws.position_reset h))
    | inr bare ↦ rw bare (
        forget-Rewound (hw.reset s.target) none s (hw_laws.consumed_reset s.target)
          (λ d e1. absurd (cc)))
  ]

  pub zero_session-Rewound :
      (s : Session e Host)
      → ((d : e.Draft) → s.spare_draft ≡ some d → e.position d ≡ 0)
      → Rewound laws ids (zero_session hw s)
  unfolding zero_session
  zero_session-Rewound s h = zero_with-Rewound hw.rezero s refl h

  zero_with-cursor :
      (by : Option (e.Target → e.Target)) (s : Session e Host) → (zero_with hw by s).cursor ≡ 0
  unfolding zero_with forget
  zero_with-cursor none s = refl
  zero_with-cursor (some rezero) s = ground arith

  pub zero_session-cursor : (s : Session e Host) → (zero_session hw s).cursor ≡ 0
  unfolding zero_session
  zero_session-cursor s = zero_with-cursor hw.rezero s

  -- a mark below the shared prefix is returned to
  return_to-Rewound :
      (best : ℕ) (mark : Mark e) (c : DraftCycle e) (draft : e.Draft) (s : Session e Host)
      → Standing laws s
      → 0 < best
      → best ≤ shared_prefix s.tape ids
      → best < length ids
      → MarkFits laws s.tape best mark
      → c.draft ≡ some draft
      → e.position draft ≡ best
      → Rewound laws ids (return_to hw best mark c s)
  unfolding return_to
  return_to-Rewound best mark c draft s v some_best shared inside fits has at =
      let (in_tape, in_ids, same) = shared_prefix_lem s.tape ids in
      let below : best ≤ length s.tape = omega arith in
      let (gives, carry) = fits below in
      record {
        cursor = sym (length-take_of_le best s.tape below);
        consumed = gives s.target (ap (take best) v.consumed);
        tape = take_of_le best (shared_prefix s.tape ids) s.tape ids shared same;
        inside = inside;
        cycle = λ c' e1.
            let e2 : record c { carry = mark.carry } ≡ c' = cc in
            subst (CycleAt laws best) e2
              (record { draft = draft; has_draft = has; position = at; carry = λ _. carry });
        spare = v.spare;
      }

  -- what a try at the marks gives: a rewind if it says so, and the spare draft in any case
  record Tried (s : Session e Host) (r : Bool × Session e Host) : Type 0 where
    found : r.0 ≡ true → Rewound laws ids r.1
    spare : r.1.spare_draft ≡ s.spare_draft

  no_mark-Tried : (s : Session e Host) → Tried s (false, s)
  no_mark-Tried s = record { found = λ h. absurd (cc); spare = refl }

  module _ (s : Session e Host) (v : Standing laws s) (fit : MarksFit laws s.tape s.marks)
      (limit : ℕ) (low : limit ≤ shared_prefix s.tape ids) (short : limit < length ids)
      (cut : shared_prefix s.tape ids < s.cursor) where
    truncate_to-Tried :
        (best : ℕ) (mark : Mark e) (c : DraftCycle e) (r : Result (Unit {0}) × e.Draft)
        → 0 < best
        → best ≤ limit
        → MarkFits laws s.tape best mark
        → r.0 ≡ ok tt
        → e.position r.1 ≡ best
        → Tried s (truncate_to hw best mark c r s)
    unfolding truncate_to return_to
    truncate_to-Tried best mark c (raise err, draft) some_best inside fits done at = absurd (cc)
    truncate_to-Tried best mark c (ok _, draft) some_best inside fits done at = record {
      found = λ _.
          return_to-Rewound best mark (record c { draft = some draft }) draft s v some_best
            (omega arith) (omega arith) fits refl at;
      spare = refl;
    }

    restore_found-Tried :
        (c : DraftCycle e) (draft : e.Draft) (best : ℕ) (found : Option (Mark e))
        → found ≡ mark_at best s.marks
        → e.position draft ≡ s.cursor
        → 0 < best
        → best ≤ limit
        → Tried s (restore_found hw c draft best found s)
    unfolding restore_found
    restore_found-Tried c draft best none there at some_best inside = no_mark-Tried s
    restore_found-Tried c draft best (some mark) there at some_best inside =
        let (done, stands) = laws.truncate_ok best draft (omega arith) in
        truncate_to-Tried best mark c (e.truncate best draft) some_best inside
          (mark_at-MarksFit laws s.tape best s.marks mark fit (sym there)) done stands

    restore_best-Tried :
        (c : DraftCycle e) (draft : e.Draft) (best : Option ℕ)
        → best ≡ best_mark limit s.marks
        → e.position draft ≡ s.cursor
        → Tried s (restore_best hw c draft best s)
    unfolding restore_best
    restore_best-Tried c draft none there at = no_mark-Tried s
    restore_best-Tried c draft (some best) there at =
        let (some_best, inside) = best_mark_lem limit best s.marks (sym there) in
        restore_found-Tried c draft best (mark_at best s.marks) refl at some_best inside

    restore_draft-Tried :
        (c : DraftCycle e) (draft : Option e.Draft)
        → draft ≡ c.draft
        → CycleAt laws s.cursor c
        → Tried s (restore_draft hw c draft limit s)
    unfolding restore_draft
    restore_draft-Tried c none there at = no_mark-Tried s
    restore_draft-Tried c (some draft) there at =
        let same : at.draft ≡ draft = ground (arith, at.has_draft, there) in
        restore_best-Tried c draft (best_mark limit s.marks) refl
          (ap e.position (sym same) ∙ at.position)

    restore_cycle-Tried :
        (cycle : Option (DraftCycle e)) → cycle ≡ s.cycle → Tried s (restore_cycle hw cycle limit s)
    unfolding restore_cycle
    restore_cycle-Tried none there = no_mark-Tried s
    restore_cycle-Tried (some c) there = restore_draft-Tried c c.draft refl (v.cycle c (sym there))

    mark_found-Rewound :
        (r : Bool × Session e Host) → Tried s r → Rewound laws ids (mark_found hw r)
    unfolding mark_found
    mark_found-Rewound (true, s1) t =
        let w = t.found refl in
        record {
          cursor = w.cursor;
          consumed = w.consumed;
          tape = w.tape;
          inside = w.inside;
          cycle = w.cycle;
          spare = w.spare;
        }
    mark_found-Rewound (false, s1) t =
        zero_session-Rewound s1 (λ d has. v.spare d (sym t.spare ∙ has))

    mark_or_zero-Rewound : Rewound laws ids (mark_or_zero hw limit s)
    unfolding mark_or_zero restore_mark
    mark_or_zero-Rewound =
        mark_found-Rewound (restore_cycle hw s.cycle limit s) (restore_cycle-Tried s.cycle refl)

  to_commit-Rewound :
      (s : Session e Host) (snapshot : e.Snapshot)
      → Standing laws s
      → s.snapshot ≡ some snapshot
      → s.committed ≤ shared_prefix s.tape ids
      → shared_prefix s.tape ids < s.cursor
      → ¬ take s.committed s.tape ≡ ids
      → Rewound laws ids (to_commit hw snapshot s)
  unfolding to_commit
  to_commit-Rewound s snapshot v has low cut other =
      let (in_tape, in_ids, same) = shared_prefix_lem s.tape ids in
      let tape = take_of_le s.committed (shared_prefix s.tape ids) s.tape ids low same in
      record {
        cursor = sym (length-take_of_le s.committed s.tape (omega (arith, v.cursor)));
        consumed = v.snapshot snapshot s.target has (ap (take s.committed) v.consumed);
        tape = tape;
        inside = elim (dec_lt s.committed (length ids)) [
          | yes h ↦ h
          | no h ↦ absurd (other (tape ∙ take_of_length-le s.committed ids (omega arith)))
        ];
        cycle = λ c kept. absurd (
            let dropped = cycle_at-none laws s.committed s.cycle s.cursor (omega arith) v.cycle in
            cc);
        spare = v.spare;
      }

  rewind_below-Rewound :
      (s : Session e Host) (shared limit : ℕ) (snapshot : Option e.Snapshot)
      → Standing laws s
      → snapshot ≡ s.snapshot
      → MarksFit laws s.tape s.marks
      → shared ≡ shared_prefix s.tape ids
      → limit ≤ shared
      → limit < length ids
      → shared < s.cursor
      → ¬ take s.committed s.tape ≡ ids
      → Rewound laws ids (rewind_below hw snapshot shared limit s)
  unfolding rewind_below
  rewind_below-Rewound s shared limit none v has fit here low short cut other =
      mark_or_zero-Rewound s v fit limit (omega arith) short (omega arith)
  rewind_below-Rewound s shared limit (some snapshot) v has fit here low short cut other =
      elim (Bool-cases (leb s.committed shared)) [
        | inl reaches ↦ rw reaches (
            to_commit-Rewound s snapshot v (sym has)
              (omega (arith, leb→le s.committed shared reaches, here)) (omega (arith, here)) other)
        | inr below ↦
            rw below (mark_or_zero-Rewound s v fit limit (omega arith) short (omega arith))
      ]

  -- On a session whose runner holds its tape and whose last ids may be behind its commit, with fitting
  -- marks, a rewind for `ids` that are neither the tape nor the committed part of it leaves a prefix of
  -- `ids` resident that is not all of them, be it by the tape, the commit, a mark or a reset.
  pub rewind-Rewound :
      (s : Session e Host)
      → Standing laws s
      → MarksFit laws s.tape s.marks
      → ¬ s.tape ≡ ids
      → ¬ take s.committed s.tape ≡ ids
      → Rewound laws ids (rewind hw (shared_prefix s.tape ids) (length ids - 1) s)
  unfolding rewind
  rewind-Rewound s v fit other apart =
      let shared = shared_prefix s.tape ids in
      let (in_tape, in_ids, same) = shared_prefix_lem s.tape ids in
      elim (Bool-cases (leb s.cursor shared)) [
        | inl all ↦
            let le = leb→le s.cursor shared all in
            let tape : s.tape ≡ take s.cursor ids =
              sym (take_of_length-le s.cursor s.tape (omega (arith, v.cursor)))
              ∙ take_of_le s.cursor shared s.tape ids le same in
            rw all (record {
              cursor = v.cursor;
              consumed = v.consumed;
              tape = tape;
              inside = elim (dec_lt s.cursor (length ids)) [
                | yes h ↦ h
                | no h ↦ absurd (other (tape ∙ take_of_length-le s.cursor ids (omega arith)))
              ];
              cycle = v.cycle;
              spare = v.spare;
            })
        | inr part ↦ rw part (
            rewind_below-Rewound s shared (min shared (length ids - 1)) s.snapshot v refl fit refl
              (omega arith) (omega arith) (leb→lt s.cursor shared part) apart)
      ]
