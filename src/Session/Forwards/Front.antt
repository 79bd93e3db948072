-- ===== src/Session/Forwards/Front.antt =====
-- A turn of engine/forward/session.py along the way: the runner holds a prefix of the prompt.
use qwarz.Base.{
  ℕ, ◌-◌, ◌≤◌, ◌<◌, ◌≡◌, refl, ap, sym, ◌∙◌, inl, inr, true, false, Option, none, some, List, [],
  ◌++◌, length, take, drop, ltb, leb, arith, Bool-cases, leb→le, leb→lt, length-take_of_le,
  take-add, take-take, take_of_length-le,
}
use native.Mathlib.Decide.{dec_lt}
use qwarz.Base.Ends.{EndsAt, Ends}
use qwarz.Device.{Engine, Laws}
use qwarz.Schedule.{Span}
use qwarz.Cycle.Prefill.{span_stop}
use qwarz.Cycle.Prefill.Chain.{Chain, Chain-append, span_stop-Chain}
use qwarz.Cycle.Resident.{Never}
use qwarz.Session.{
  Session, Hardware, DraftMark, shared_prefix, zero_with, zero_session, forget, rewind,
  rewind_below, mark_or_zero, restore_mark, restore_cycle, mark_found,
}
use qwarz.Session.Turns.{cancelled_cycle, commit, cancel_with, cancel_to, forward_span}
use qwarz.Session.Generate.Valid.{HardwareLaws, Valid}
use qwarz.Session.Generate.Shared.{shared_prefix_lem, take_of_le}
use qwarz.Session.Generate.Rewinds.{zero_session-Rewound, zero_session-cursor}
use qwarz.Session.Forwards.{to_the_end}

no_cycle_left :
    {e : Engine} (cursor : ℕ) (mark : Option (DraftMark e))
    → cancelled_cycle cursor mark none ≡ none
unfolding cancelled_cycle
no_cycle_left cursor none = refl
no_cycle_left cursor (some mark) = refl

-- with at least one id, the cuts and the last span lead from the cursor to the end
pub to_the_end-Chain :
    (cursor size : ℕ) (spans : List Span)
    → 0 < size
    → cursor ≤ size
    → (cursor < size → Chain cursor (size - 1) spans)
    → (size ≤ cursor → spans ≡ [])
    → Chain cursor size (to_the_end cursor size spans)
unfolding to_the_end
to_the_end-Chain cursor size spans some_id inside chain none_left = elim (dec_lt cursor size) [
  | yes more ↦
      let stops = span_stop-Chain cursor (size - 1) spans (chain more) in
      let t1 : ltb cursor size ≡ true = ground arith in
      let t2 : ltb (span_stop cursor spans) size ≡ true = ground (arith, stops) in
      rw (t1, t2)
        (Chain-append cursor (size - 1) size spans _ (chain more) (refl, omega arith, refl))
  | no done ↦
      let t1 : ltb cursor size ≡ false = ground arith in
      rw (t1, none_left (omega arith)) (omega arith)
]

module _ {e : Engine} {Host : Type 0} (hw : Hardware e) where
  zero_with-committed :
      (by : Option (e.Target → e.Target)) (s : Session e Host)
      → ((zero_with hw by s).committed ≡ 0)
        × ((zero_with hw by s).snapshot ≡ none)
        × ((zero_with hw by s).cycle ≡ none)
  unfolding zero_with forget
  zero_with-committed none s = (refl, refl, refl)
  zero_with-committed (some rezero) s = elim (Bool-cases (hw.has_states s.target)) [
    | inl has ↦ rw has (refl, refl, refl)
    | inr bare ↦ rw bare (refl, refl, refl)
  ]

  zero_session-committed :
      (s : Session e Host)
      → ((zero_session hw s).committed ≡ 0)
        × ((zero_session hw s).snapshot ≡ none)
        × ((zero_session hw s).cycle ≡ none)
  unfolding zero_session
  zero_session-committed s = zero_with-committed hw.rezero s

module _ {e : Engine} {freq : Option e.Freq} (laws : Laws e none freq) (hw : Hardware e)
    (hw_laws : HardwareLaws laws hw) (ids : List ℕ) (some_id : 0 < length ids) {Host : Type 0} where
  -- In a turn the runner holds a prefix of `ids`, and so does the snapshot.
  pub record Front (s : Session e Host) : Type 0 where
    pub cursor : s.cursor ≡ length s.tape
    pub consumed : laws.consumed s.target ≡ s.tape
    pub tape : s.tape ≡ take s.cursor ids
    pub inside : s.cursor ≤ length ids
    pub below : s.committed ≤ s.cursor
    pub snapshot :
        (kept : e.Snapshot) (t : e.Target)
        → s.snapshot ≡ some kept
        → laws.consumed (e.restore kept t) ≡ take s.committed ids
    pub cycle : s.cycle ≡ none
    pub spare : (d : e.Draft) → s.spare_draft ≡ some d → e.position d ≡ 0

  -- a valid, free session that holds a prefix of `ids`
  pub record Settled (s : Session e Host) : Type 0 where
    pub valid : Valid laws s
    pub free : s.busy ≡ false
    pub tape : s.tape ≡ take s.cursor ids

  zero_session-Front :
      (s : Session e Host)
      → ((d : e.Draft) → s.spare_draft ≡ some d → e.position d ≡ 0)
      → Front (zero_session hw s)
  zero_session-Front s fresh =
      let r = zero_session-Rewound laws hw hw_laws ids some_id s fresh in
      let (committed, snapshot, cycle) = zero_session-committed hw s in
      record {
        cursor = r.cursor;
        consumed = r.consumed;
        tape = r.tape;
        inside = omega (arith, r.inside);
        below = omega (arith, committed);
        snapshot = λ kept t has. absurd (cc);
        cycle = cycle;
        spare = r.spare;
      }

  mark_or_zero-Front :
      (limit : ℕ) (s : Session e Host)
      → s.cycle ≡ none
      → ((d : e.Draft) → s.spare_draft ≡ some d → e.position d ≡ 0)
      → Front (mark_or_zero hw limit s)
  unfolding mark_or_zero restore_mark
  mark_or_zero-Front limit s no_cycle fresh =
      let no_mark : restore_cycle hw s.cycle limit s ≡ (false, s) =
        ap (λ c. restore_cycle hw c limit s) no_cycle ∙ (unfold restore_cycle in refl) in
      rw no_mark (unfold mark_found in zero_session-Front s fresh)

  rewind_below-Front :
      (snapshot : Option e.Snapshot) (shared limit : ℕ) (s : Session e Host)
      → shared < s.committed
      → s.cycle ≡ none
      → ((d : e.Draft) → s.spare_draft ≡ some d → e.position d ≡ 0)
      → Front (rewind_below hw snapshot shared limit s)
  unfolding rewind_below
  rewind_below-Front none shared limit s behind no_cycle fresh =
      mark_or_zero-Front limit s no_cycle fresh
  rewind_below-Front (some snapshot) shared limit s behind no_cycle fresh =
      let test : leb s.committed shared ≡ false = ground arith in
      rw test (mark_or_zero-Front limit s no_cycle fresh)

  pub rewind-Front :
      (s : Session e Host)
      → Valid laws s
      → s.cycle ≡ none
      → Front (rewind hw (shared_prefix s.tape ids) (shared_prefix s.tape ids) s)
  unfolding rewind
  rewind-Front s v no_cycle =
      let shared = shared_prefix s.tape ids in
      let (in_tape, in_ids, same) = shared_prefix_lem s.tape ids in
      elim (Bool-cases (leb s.cursor shared)) [
        | inl all ↦
            let le = leb→le s.cursor shared all in
            let tape : s.tape ≡ take s.cursor ids =
              sym (take_of_length-le s.cursor s.tape (omega (arith, v.cursor)))
              ∙ take_of_le s.cursor shared s.tape ids le same in
            rw all (record {
              cursor = v.cursor;
              consumed = v.consumed;
              tape = tape;
              inside = omega arith;
              below = omega (arith, v.committed);
              snapshot = λ kept t has.
                  v.snapshot kept t has ∙ tape ∙ ap (λ n. take n ids) (sym v.committed);
              cycle = no_cycle;
              spare = v.spare;
            })
        | inr part ↦ rw part (
            rewind_below-Front s.snapshot shared _ s
              (omega (arith, leb→lt s.cursor shared part, v.committed)) no_cycle v.spare)
      ]

  zero_session-Settled :
      (s : Session e Host)
      → ((d : e.Draft) → s.spare_draft ≡ some d → e.position d ≡ 0)
      → Settled (record (zero_session hw s) { busy = false })
  zero_session-Settled s fresh =
      let r = zero_session-Rewound laws hw hw_laws ids some_id s fresh in
      let (committed, snapshot, cycle) = zero_session-committed hw s in
      let at : (zero_session hw s).cursor ≡ 0 = zero_session-cursor laws hw hw_laws ids some_id s in
      record {
        valid = record {
          cursor = r.cursor;
          consumed = r.consumed;
          committed = committed ∙ sym at;
          snapshot = λ kept t has. absurd (cc);
          cycle = λ c has. absurd (cc);
          spare = r.spare;
        };
        free = refl;
        tape = r.tape;
      }

  cancel_to-Settled :
      (kept : e.Snapshot) (s : Session e Host)
      → s.snapshot ≡ some kept
      → Front s
      → Settled (cancel_to kept s)
  unfolding cancel_to
  cancel_to-Settled kept s has f =
      let tape : take s.committed s.tape ≡ take s.committed ids =
        ap (take s.committed) f.tape ∙ take-take s.committed s.cursor ids f.below in
      let size : s.committed ≡ length (take s.committed s.tape) =
        sym (length-take_of_le s.committed s.tape (omega (arith, f.below, f.cursor))) in
      let gone : cancelled_cycle s.committed s.draft_mark s.cycle ≡ none =
        ap (cancelled_cycle s.committed s.draft_mark) f.cycle
        ∙ no_cycle_left s.committed s.draft_mark in
      record {
        valid = record {
          cursor = size;
          consumed = f.snapshot kept s.target has ∙ sym tape;
          committed = refl;
          snapshot = λ kept' t has'. f.snapshot kept' t has' ∙ sym tape;
          cycle = λ c has'. absurd (let g = gone in cc);
          spare = f.spare;
        };
        free = refl;
        tape = tape;
      }

  pub cancel_with-Settled :
      (snapshot : Option e.Snapshot) (s : Session e Host)
      → s.snapshot ≡ snapshot
      → Front s
      → Settled (cancel_with hw snapshot s)
  unfolding cancel_with
  cancel_with-Settled none s has f = zero_session-Settled s f.spare
  cancel_with-Settled (some kept) s has f = cancel_to-Settled kept s has f

  pub commit-Settled : (s : Session e Host) → Front s → Settled (commit s)
  unfolding commit
  commit-Settled s f =
      let kept : take s.cursor s.tape ≡ s.tape =
        take_of_length-le s.cursor s.tape (omega (arith, f.cursor)) in
      record {
        valid = record {
          cursor = f.cursor ∙ ap length (sym kept);
          consumed = f.consumed ∙ sym kept;
          committed = refl;
          snapshot = λ snapshot t has.
              let same_copy : e.capture s.target ≡ snapshot = cc in
              ap (λ k. laws.consumed (e.restore k t)) (sym same_copy)
              ∙ laws.consumed_restore s.target t
              ∙ f.consumed
              ∙ sym kept;
          cycle = λ c has. absurd (let g = f.cycle in cc);
          spare = f.spare;
        };
        free = refl;
        tape = kept ∙ f.tape;
      }

  pub forward_span-Ends :
      (start end : ℕ) (s : Session e Host)
      → Front s
      → start ≡ s.cursor
      → start < end
      → end ≤ length ids
      → Ends
          (λ _ s1. Front s1 × (s1.cursor ≡ end))
          Never
          (forward_span hw none freq ids (start, end))
          s
  unfolding forward_span
  forward_span-Ends start end s f at more inside =
      let chunk = take (end - start) (drop start ids) in
      let size : start ≡ length (laws.consumed s.target) =
        at ∙ f.cursor ∙ ap length (sym f.consumed) in
      let whole : take start ids ++ chunk ≡ take end ids = take-add start end ids (omega arith) in
      let held : laws.consumed s.target ≡ take start ids =
        f.consumed ∙ f.tape ∙ ap (λ n. take n ids) (sym at) in
      rw (forward_span, laws.forward_ok chunk start s.target size)
        (EndsAt.returned tt _ (
          record {
            cursor = sym (length-take_of_le end ids inside);
            consumed =
                laws.consumed_forward chunk start s.target size ∙ ap (λ l. l ++ chunk) held ∙ whole;
            tape = refl;
            inside = inside;
            below = omega (arith, f.below);
            snapshot = f.snapshot;
            cycle = f.cycle;
            spare = f.spare;
          },
          refl,
        ))
