-- ===== src/Session/Generate/Answers.antt =====
-- The answer of `Session.generate` (engine/forward/session.py) for a greedy turn, and the session
-- that it leaves.
use qwarz.Base.{
  ℕ, ◌+◌, ◌≤◌, ◌<◌, ◌≡◌, refl, ap, sym, subst, ◌∙◌, inl, inr, true, false, Option, none, some, List,
  [], ◌∷◌, ◌++◌, length, take, ◌==◌, arith, Option-cases, le→ltb, ==_refl, length-append,
  take-append_self, take_of_length-le, length-take_of_le, take-take,
}
use qwarz.Base.Outcome.{Result, ok, raise}
use qwarz.Device.{Engine, Laws, IsGreedyTarget}
use qwarz.Mtp.Greedy.{greedy}
use qwarz.Cycle.Suffix.{same}
use qwarz.Cycle.Draft.{DraftCycle, new_cycle}
use qwarz.Cycle.Draft.Aligned.{draft_position, HasCarry}
use qwarz.Cycle.Turn.{Turn, World}
use qwarz.Cycle.Loop.{continue_drafted}
use qwarz.Cycle.Loop.Answer.{Answered, continue_drafted-greedy}
use qwarz.Session.Marks.{Mark}
use qwarz.Session.{Session, Hardware}
use qwarz.Session.Turns.{Status, Generated, commit, check_tape, set_session}
use qwarz.Session.Generate.{
  with_marks, beside_marks, enter, leave, arrange, cycle_or_new, spare_left, answer_completed,
  conclude, call_cycle, generate_body, cancel_on_error, generate,
}
use qwarz.Session.Generate.Valid.{HardwareLaws, MarksFit, CycleAt, Valid, Rewound}
use qwarz.Session.Generate.Greedy.{Arranged, arrange-Arranged}

pos_of_two : {n : ℕ} → 2 ≤ n → 0 < n
pos_of_two h = omega arith

pub same_refl : (xs : List ℕ) → same xs xs ≡ true
same_refl [] = refl
same_refl (x ∷ xs) = rw (==_refl x) (same_refl xs)

module _ {e : Engine} {embed_ids : Option (List ℕ → Option e.Embedded)} {freq : Option e.Freq}
    (laws : Laws e embed_ids freq) where
  -- the cycle that a call starts with stands at the cursor
  start_cycle :
      (cursor : ℕ) (cycle : Option (DraftCycle e)) (spare : Option e.Draft)
      → ((c : DraftCycle e) → cycle ≡ some c → CycleAt laws cursor c)
      → ((d : e.Draft) → spare ≡ some d → e.position d ≡ 0)
      → (cycle ≡ none → cursor ≡ 0)
      → (draft_position (cycle_or_new cycle spare) ≡ cursor)
        × (0 < cursor → HasCarry (cycle_or_new cycle spare))
  unfolding new_cycle
  start_cycle cursor none none at fresh cold =
      (sym (cold refl), λ h. absurd (omega (arith, cold refl)))
  start_cycle cursor none (some d) at fresh cold =
      (fresh d refl ∙ sym (cold refl), λ h. absurd (omega (arith, cold refl)))
  start_cycle cursor (some c) spare at fresh cold =
      let a = at c refl in (ground (arith, a.has_draft, a.position), a.carry)

  CycleAt-draft_position :
      (n : ℕ) (c : DraftCycle e) → draft_position c ≡ n → 0 < n → HasCarry c → CycleAt laws n c
  CycleAt-draft_position n c at some_id carry = elim (Option-cases c.draft) [
    | inl missing ↦ absurd (ground arith)
    | inr (d, has) ↦ record {
      draft = d;
      has_draft = has;
      position = ground arith;
      carry = λ _. carry;
    }
  ]

  spare_left_at_start :
      (cycle : Option (DraftCycle e)) (spare : Option e.Draft)
      → ((d : e.Draft) → spare ≡ some d → e.position d ≡ 0)
      → (d : e.Draft) → spare_left cycle spare ≡ some d
      → e.position d ≡ 0
  spare_left_at_start none spare fresh d h = absurd (cc)
  spare_left_at_start (some c) spare fresh d h = fresh d h

module _ {e : Engine} {Host : Type 0} (hw : Hardware e) (most : ℕ) (turn : Turn e Host)
    (laws : Laws e turn.embed_ids turn.inv_freq) (next : List ℕ → ℕ) (ids : List ℕ) where
  -- A greedy answer: it is completed, its tokens are greedy decoding's, and the session is valid,
  -- free, and holds the prompt and the tokens but the last.
  pub record Completed (r : Result Generated × Session e Host) : Type 0 where
    pub answer : Generated
    pub returns : r.0 ≡ ok answer
    pub status : answer.status ≡ Status.completed
    pub tokens : answer.tokens ≡ greedy next turn.stop_ids turn.max_new ids
    pub valid : Valid laws r.1
    pub free : r.1.busy ≡ false
    pub held : ℕ
    pub tape : r.1.tape ++ held ∷ [] ≡ ids ++ answer.tokens

  answer_completed-Completed :
      (tokens : List ℕ) (cached : ℕ) (before : DraftCycle e)
      (w : World e (List (ℕ × Mark e) × Host)) (s : Session e Host)
      → 2 ≤ length ids
      → Answered (with_marks hw most turn) laws next ids tokens w
      → ((d : e.Draft) → s.spare_draft ≡ some d → e.position d ≡ 0)
      → Completed (answer_completed hw most ids tokens cached before w.cycle (leave hw most w s))
  unfolding answer_completed commit
  answer_completed-Completed tokens cached before w s long a fresh =
      let c = w.cycle in
      let size : length (a.prefix ++ a.held ∷ []) ≡ length (ids ++ tokens) = ap length a.whole in
      let ends : length a.prefix + 1 ≡ length ids + length tokens =
        omega (arith, size, length-append a.prefix (a.held ∷ []), length-append ids tokens) in
      let test : c.cache_len + 1 == length ids + length c.tokens ≡ true =
        rw (a.cache_len, a.cycle_tokens, ends) (==_refl (length ids + length tokens)) in
      let kept : take c.cache_len (take c.cache_len (ids ++ c.tokens)) ≡ a.prefix =
        take-take c.cache_len c.cache_len (ids ++ c.tokens) (omega arith)
        ∙ ap (λ l. take c.cache_len (ids ++ l)) a.cycle_tokens
        ∙ ap (λ l. take c.cache_len l) (sym a.whole)
        ∙ ap (λ n. take n (a.prefix ++ a.held ∷ [])) a.cache_len
        ∙ take-append_self a.prefix (a.held ∷ []) in
      rw test (record {
        answer = _;
        returns = refl;
        status = refl;
        tokens = a.tokens_greedy;
        valid = record {
          cursor = a.cache_len ∙ ap length (sym kept);
          consumed = a.resident.consumed ∙ sym kept;
          committed = refl;
          snapshot = λ snapshot t has.
              let same_copy : e.capture w.target ≡ snapshot = cc in
              ap (λ k. laws.consumed (e.restore k t)) (sym same_copy)
              ∙ laws.consumed_restore w.target t
              ∙ a.resident.consumed
              ∙ sym kept;
          cycle = λ c' has.
              let same_cycle : c ≡ c' = cc in
              subst (CycleAt laws c.cache_len) same_cycle (
                CycleAt-draft_position laws c.cache_len c (a.resident.position ∙ sym a.cache_len)
                  (omega (arith, a.cache_len, ends)) a.carry);
          spare = fresh;
        };
        free = refl;
        held = a.held;
        tape = ap (λ l. l ++ a.held ∷ []) kept ∙ a.whole;
      })

  module _ (hw_laws : HardwareLaws laws hw) (no_cancel : turn.cancel ≡ none)
      (no_chooser : turn.choose ≡ none) (no_hook : turn.on_accepted ≡ none)
      (some_step : 0 < turn.steps) (few : turn.steps ≤ turn.limit)
      (target : IsGreedyTarget e turn.embed_ids turn.inv_freq laws next)
      (long : 2 ≤ length ids) where
    call_cycle-Completed :
        (s : Session e Host)
        → Arranged laws hw hw_laws most ids (pos_of_two long) s
        → Completed (call_cycle hw most turn ids s)
    unfolding call_cycle conclude
    call_cycle-Completed s arranged =
        let r = arranged.rewound in
        let c = cycle_or_new s.cycle s.spare_draft in
        let (at, carry) =
          start_cycle laws s.cursor s.cycle s.spare_draft r.cycle r.spare arranged.cold in
        let left = record s { spare_draft = spare_left s.cycle s.spare_draft } in
        let (returns, answered) =
          continue_drafted-greedy (with_marks hw most turn) laws next ids s.cursor
            (enter hw most c s) no_cancel no_chooser
            (ap beside_marks no_hook ∙ (unfold beside_marks in refl)) some_step few target long
            r.inside
            (record {
              consumed = r.consumed ∙ r.tape;
              position = at ∙ sym (length-take_of_le s.cursor ids (omega (arith, r.inside)));
            })
            (λ last. carry (omega (arith, last))) in
        rw returns (
          answer_completed-Completed _ s.cursor c
            (continue_drafted (with_marks hw most turn) ids s.cursor (enter hw most c s)).1 left
            long answered (spare_left_at_start laws s.cycle s.spare_draft r.spare))

    check_tape-Rewound : (s : Session e Host) → Rewound laws ids s → check_tape ids s ≡ (ok tt, s)
    unfolding check_tape
    check_tape-Rewound s r =
        let whole : take s.cursor s.tape ≡ take s.cursor ids =
          take_of_length-le s.cursor s.tape (omega (arith, r.cursor)) ∙ r.tape in
        let test : same (take s.cursor ids) (take s.cursor s.tape) ≡ true =
          ap (same (take s.cursor ids)) whole ∙ same_refl (take s.cursor ids) in
        rw test refl

    generate_body-Completed :
        (s : Session e Host)
        → length ids ≤ s.context
        → Valid laws s
        → MarksFit laws s.tape s.marks
        → ¬ s.tape ≡ ids
        → Completed (generate_body hw most turn ids s)
    unfolding generate_body set_session
    generate_body-Completed s fits v marks other =
        let arranged =
          arrange-Arranged laws hw hw_laws most ids (pos_of_two long) s v marks other in
        rw
          (
            le→ltb s.context (length ids) fits,
            check_tape-Rewound (arrange hw most ids s) arranged.rewound,
          )
          (call_cycle-Completed (arrange hw most ids s) arranged)

    cancel_on_error-Completed :
        (r : Result Generated × Session e Host) → Completed r → Completed (cancel_on_error hw r)
    unfolding cancel_on_error
    cancel_on_error-Completed (ok a, s) c = c
    cancel_on_error-Completed (raise err, s) c = absurd (let no_error = c.returns in cc)

    -- On a free and valid session whose marks fit its tape, with greedy samples, no hook, no cancel
    -- event, a budget, and at least one and at most `limit` drafts in a window, a prompt of two ids or
    -- more that fits the context and is not the tape itself is answered with exactly the tokens of
    -- greedy decoding, whatever part of it is resident; the session is valid and free again and holds
    -- the prompt and the tokens but the last. Whether the marks that the turn leaves fit is not said.
    pub generate-greedy :
        (s : Session e Host)
        → s.busy ≡ false
        → 0 < turn.max_new
        → length ids ≤ s.context
        → Valid laws s
        → MarksFit laws s.tape s.marks
        → ¬ s.tape ≡ ids
        → Completed (generate hw most turn ids s)
    unfolding generate
    generate-greedy s free budget fits v marks other =
        let test : turn.max_new == 0 ≡ false = ground arith in
        rw (free, test)
          (cancel_on_error-Completed _ (
            generate_body-Completed (record s { busy = true }) fits
              (record {
                cursor = v.cursor;
                consumed = v.consumed;
                committed = v.committed;
                snapshot = v.snapshot;
                cycle = v.cycle;
                spare = v.spare;
              })
              marks other))
