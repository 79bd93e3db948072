-- ===== src/Session/Generate/Repeated.antt =====
-- `Session.generate` (engine/forward/session.py) for the prompt that is resident already.
use qwarz.Cycle.Suffix.{same}
use qwarz.Base.{
  String, ℕ, suc, ◌-◌, ◌≤◌, ◌<◌, ◌≡◌, refl, ap, ◌∙◌, ◌&&◌, true, false, Option, none, some, List,
  [], ◌∷◌, length, take, leb, ◌==◌, arith, le→ltb, le→leb, ==_refl,
}
use qwarz.Base.Outcome.{Result, ok, raise, value_error, runtime_error, session_busy, cancelled_turn}
use qwarz.Device.{Engine, Laws}
use qwarz.Schedule.{suffix_bounds}
use qwarz.Cycle.Draft.{DraftCycle}
use qwarz.Cycle.Turn.{Turn, World}
use qwarz.Cycle.Prefill.{split_spans, prefill_from, prefill_held}
use qwarz.Cycle.Loop.{continue_drafted}
use qwarz.Session.Marks.{Mark}
use qwarz.Session.{Session, Hardware, shared_prefix, rewind}
use qwarz.Session.Turns.{Generated, check_tape, set_session}
use qwarz.Session.Generate.{
  with_marks, keep_at, usable_cycle, zero_without_cycle, arrange, conclude, call_cycle,
  generate_body, cancel_on_error, generate,
}
use qwarz.Session.Generate.Valid.{CycleAt, Valid}
use qwarz.Session.Generate.Answers.{same_refl}

prefill_held_behind :
    {e : Engine} {Host : Type 0} (turn : Turn e Host) (prompt : List ℕ) (w : World e Host)
    → 0 < length prompt
    → prefill_held turn prompt (length prompt) w
      ≡ (raise (value_error "MTP prefill needs a held token after at least one token" []), w)
unfolding prefill_held split_spans prefill_from suffix_bounds
prefill_held_behind turn prompt w some_id =
    let done : leb (length prompt - 1) (length prompt) ≡ true = le→leb _ _ (omega arith) in
    let test : (leb 2 (length prompt) && length prompt == length prompt - 1) ≡ false =
      ground arith in
    rw (done, test) refl

continue_drafted_behind :
    {e : Engine} {Host : Type 0} (turn : Turn e Host) (prompt : List ℕ) (w : World e Host)
    → 0 < length prompt
    → (continue_drafted turn prompt (length prompt) w).0
      ≡ raise (value_error "MTP prefill needs a held token after at least one token" [])
unfolding continue_drafted
continue_drafted_behind turn prompt w some_id = rw (prefill_held_behind turn prompt w some_id) refl

shared_prefix_self : (ids : List ℕ) → shared_prefix ids ids ≡ length ids
unfolding shared_prefix
shared_prefix_self [] = refl
shared_prefix_self (i ∷ ids) = rw (==_refl i) (ap suc (shared_prefix_self ids))

module _ {e : Engine} {Host : Type 0} (hw : Hardware e) (most : ℕ) (turn : Turn e Host)
    (laws : Laws e turn.embed_ids turn.inv_freq) (ids : List ℕ) where
  keep_at_eq :
      (draft : Option e.Draft) (cursor : ℕ) (c : DraftCycle e) (d : e.Draft)
      → draft ≡ some d
      → e.position d ≡ cursor
      → keep_at draft cursor c ≡ some c
  unfolding keep_at
  keep_at_eq none cursor c d has at = absurd (cc)
  keep_at_eq (some draft) cursor c d has at =
      let same_draft : draft ≡ d = cc in rw (ap e.position same_draft ∙ at, ==_refl cursor) refl

  usable_cycle_eq :
      (cursor : ℕ) (cycle : Option (DraftCycle e)) (c : DraftCycle e)
      → cycle ≡ some c
      → CycleAt laws cursor c
      → usable_cycle cursor cycle ≡ some c
  unfolding usable_cycle
  usable_cycle_eq cursor none c has at = absurd (cc)
  usable_cycle_eq cursor (some c') c has at =
      let same_cycle : c' ≡ c = cc in
      ap (λ x. keep_at x.draft cursor x) same_cycle
      ∙ keep_at_eq c.draft cursor c at.draft at.has_draft at.position

  zero_without_cycle_eq :
      (cycle : Option (DraftCycle e)) (c : DraftCycle e) (s : Session e Host)
      → cycle ≡ some c
      → zero_without_cycle hw most cycle s ≡ record s { cycle = some c }
  unfolding zero_without_cycle
  zero_without_cycle_eq none c s has = absurd (cc)
  zero_without_cycle_eq (some c') c s has =
      let same_cycle : c' ≡ c = cc in ap (λ x. record s { cycle = some x }) same_cycle

  -- the session that the call starts from has the tape as it was
  arrange_resident :
      (c : DraftCycle e) (s : Session e Host)
      → Valid laws s
      → s.tape ≡ ids
      → s.cycle ≡ some c
      → ((arrange hw most ids s).cursor ≡ length ids) × ((arrange hw most ids s).tape ≡ ids)
  unfolding arrange rewind
  arrange_resident c s v whole has =
      let shared : shared_prefix s.tape ids ≡ length ids =
        ap (λ l. shared_prefix l ids) whole ∙ shared_prefix_self ids in
      let at : s.cursor ≡ length ids = v.cursor ∙ ap length whole in
      let all : leb s.cursor (shared_prefix s.tape ids) ≡ true =
        le→leb s.cursor (shared_prefix s.tape ids) (omega (arith, shared, at)) in
      rw
        (
          all,
          zero_without_cycle_eq (usable_cycle s.cursor s.cycle) c _
              (usable_cycle_eq s.cursor s.cycle c has (v.cycle c has)),
        )
        (at, whole)

  call_cycle_resident :
      (s : Session e Host)
      → 0 < length ids
      → s.cursor ≡ length ids
      → (call_cycle hw most turn ids s).0
        ≡ raise (value_error "MTP prefill needs a held token after at least one token" [])
  unfolding call_cycle conclude
  call_cycle_resident s some_id at =
      let returns = λ (w : World e (List (ℕ × Mark e) × Host)).
        ap (λ n. (continue_drafted (with_marks hw most turn) ids n w).0) at
        ∙ continue_drafted_behind (with_marks hw most turn) ids w some_id in
      rw (returns _) refl

  check_tape_resident : (s : Session e Host) → s.tape ≡ ids → check_tape ids s ≡ (ok tt, s)
  unfolding check_tape
  check_tape_resident s whole =
      let test : same (take s.cursor ids) (take s.cursor s.tape) ≡ true =
        ap (λ l. same (take s.cursor ids) (take s.cursor l)) whole
        ∙ same_refl (take s.cursor ids) in
      rw test refl

  cancel_on_error_raise :
      (r : Result Generated × Session e Host) (message : String) (numbers : List ℕ)
      → r.0 ≡ raise (value_error message numbers)
      → (cancel_on_error hw r).0 ≡ raise (value_error message numbers)
  unfolding cancel_on_error
  cancel_on_error_raise (ok a, s) message numbers h = absurd (cc)
  cancel_on_error_raise (raise (value_error m n), s) message numbers h = h
  cancel_on_error_raise (raise (runtime_error m n), s) message numbers h = h
  cancel_on_error_raise (raise session_busy, s) message numbers h = h
  cancel_on_error_raise (raise (cancelled_turn l), s) message numbers h = h

  -- On a free and valid session with a cycle, a prompt that is exactly the resident tape is refused
  -- with the prefill's ValueError, for every budget and sampler.
  pub generate-resident_prompt :
      (c : DraftCycle e) (s : Session e Host)
      → s.busy ≡ false
      → 0 < turn.max_new
      → 0 < length ids
      → length ids ≤ s.context
      → Valid laws s
      → s.cycle ≡ some c
      → s.tape ≡ ids
      → (generate hw most turn ids s).0
        ≡ raise (value_error "MTP prefill needs a held token after at least one token" [])
  unfolding generate generate_body set_session
  generate-resident_prompt c s free budget some_id fits v has whole =
      let no_budget : turn.max_new == 0 ≡ false = ground arith in
      let s' = record s { busy = true } in
      let (at, tape) =
        arrange_resident c s'
          (record {
            cursor = v.cursor;
            consumed = v.consumed;
            committed = v.committed;
            snapshot = v.snapshot;
            cycle = v.cycle;
            spare = v.spare;
          })
          whole has in
      rw (free, no_budget)
        (cancel_on_error_raise (generate_body hw most turn ids s') _ _ (
          rw (le→ltb s.context (length ids) fits, check_tape_resident (arrange hw most ids s') tape)
            (call_cycle_resident (arrange hw most ids s') some_id at)))
