-- ===== src/Session/Forwards/Whole.antt =====
-- What a turn of engine/forward/session.py leaves resident.
use qwarz.Base.{
  ℕ, ◌+◌, ◌-◌, ◌≤◌, ◌<◌, ◌≡◌, refl, ap, sym, ◌∙◌, inl, inr, Bool, true, false, Option, none, some,
  List, [], ◌∷◌, length, take, arith, Bool-cases, take_of_length-le,
}
use native.Mathlib.Decide.{dec_lt}
use qwarz.Base.Outcome.{Result, ok, raise}
use qwarz.Base.Ends.{EndsAt, Ends, EndsAt-resume}
use qwarz.Device.{Engine, Laws}
use qwarz.Schedule.{Span, chunk_size, page_size}
use qwarz.Schedule.Cover.{suffix_bounds-Covers}
use qwarz.Cycle.Prefill.Chain.{Chain, Chain-le, Chain-Covers}
use qwarz.Cycle.Resident.{Never}
use qwarz.Session.{Session, Hardware, shared_prefix, rewind}
use qwarz.Session.Turns.{Status, Forwarding, commit, cancel, check_tape, set_session}
use qwarz.Session.Generate.{cancel_on_error}
use qwarz.Session.Generate.Valid.{HardwareLaws, Valid}
use qwarz.Session.Forwards.{
  to_the_end, poll, forward_until, answer_turn, turn_spans, turn_body, turn,
}
use qwarz.Session.Forwards.Front.{
  to_the_end-Chain, Front, Settled, rewind-Front, cancel_with-Settled, commit-Settled,
  forward_span-Ends,
}
use qwarz.Session.Generate.Answers.{same_refl}
use qwarz.Cycle.Suffix.{same}

module _ {e : Engine} {freq : Option e.Freq} (laws : Laws e none freq) (hw : Hardware e)
    (hw_laws : HardwareLaws laws hw) (ids : List ℕ) (some_id : 0 < length ids) {Host : Type 0} where
  -- How the loop ends: at the last id, or cancelled.
  abbrev Looped : Option (ℕ → Bool) → Bool × List Span → Session e Host → Type 0
  Looped cancelled (false, spans) s = Front laws hw hw_laws ids some_id s × (s.cursor ≡ length ids)
  Looped cancelled (true, spans) s = Settled laws hw hw_laws ids some_id s × ¬ cancelled ≡ none

  -- a poll changes nothing but the count of polls
  polled-Front :
      (s : Session e Host)
      → Front laws hw hw_laws ids some_id s
      → Front laws hw hw_laws ids some_id (record s { polls = s.polls + 1 })
  polled-Front s f = record {
    cursor = f.cursor;
    consumed = f.consumed;
    tape = f.tape;
    inside = f.inside;
    below = f.below;
    snapshot = f.snapshot;
    cycle = f.cycle;
    spare = f.spare;
  }

  cancel-Settled :
      (s : Session e Host)
      → Front laws hw hw_laws ids some_id s
      → Settled laws hw hw_laws ids some_id (cancel hw s)
  unfolding cancel
  cancel-Settled s f = cancel_with-Settled laws hw hw_laws ids some_id s.snapshot s refl f

  forward_until-Ends :
      (cancelled : Option (ℕ → Bool)) (start : ℕ) (spans forwarded : List Span) (s : Session e Host)
      → Front laws hw hw_laws ids some_id s
      → s.cursor ≡ start
      → Chain start (length ids) spans
      → Ends (Looped cancelled) Never (forward_until hw cancelled none freq ids forwarded spans) s
  unfolding forward_until
  forward_until-Ends cancelled start [] forwarded s f at chain = EndsAt.returned _ s (f, at ∙ chain)
  forward_until-Ends none start ((begin, end) ∷ spans) forwarded s f at chain =
      unfold poll in
      EndsAt-resume
        (forward_span-Ends laws hw hw_laws ids some_id begin end s f (chain.0 ∙ sym at) chain.1
          (Chain-le end (length ids) spans chain.2))
        λ _ s1 h. forward_until-Ends none end spans _ s1 h.0 h.1 chain.2
  forward_until-Ends (some test) start ((begin, end) ∷ spans) forwarded s f at chain =
      let s' = record s { polls = s.polls + 1 } in
      unfold poll in
      elim (Bool-cases (test s.polls)) [
        | inl stop ↦ rw stop (
            unfold set_session in
            EndsAt.returned (true, forwarded) (cancel hw s')
              (cancel-Settled s' (polled-Front s f), λ h. absurd (cc)))
        | inr go ↦ rw go (
            EndsAt-resume
              (forward_span-Ends laws hw hw_laws ids some_id begin end s' (polled-Front s f)
                (chain.0 ∙ sym at) chain.1 (Chain-le end (length ids) spans chain.2))
              λ _ s1 h. forward_until-Ends (some test) end spans _ s1 h.0 h.1 chain.2)
      ]

  turn_spans-Chain :
      (s : Session e Host)
      → s.cursor ≤ length ids
      → (spans : List Span) × (turn_spans ids s ≡ (ok spans, s)) × Chain s.cursor (length ids) spans
  unfolding turn_spans
  turn_spans-Chain s inside =
      let (cuts, found, covers, none_left) =
        suffix_bounds-Covers chunk_size page_size s.cursor (length ids) (omega arith)
          (omega arith) in
      let chain = λ (more : s.cursor < length ids).
        (elim (dec_lt s.cursor (length ids - 1)) as (λ _. Chain s.cursor (length ids - 1) cuts) [
          | yes before ↦
              Chain-Covers chunk_size page_size (length ids - 1) s.cursor cuts (covers before)
          | no at_last ↦ rw (none_left (omega arith)) (omega arith)
        ]) in
      (
        to_the_end s.cursor (length ids) cuts,
        rw found refl,
        to_the_end-Chain s.cursor (length ids) cuts some_id inside chain
            (λ h. none_left (omega arith)),
      )

  -- a completed turn holds all ids, and only a cancel event ends one before
  abbrev pub Outcome : Option (ℕ → Bool) → Status → Forwarding → Session e Host → Type 0
  Outcome cancelled Status.completed answer s = (s.tape ≡ ids) × (answer.cursor ≡ some (length ids))
  Outcome cancelled Status.cancelled answer s = ¬ cancelled ≡ none

  abbrev pub Turned : Option (ℕ → Bool) → Forwarding → Session e Host → Type 0
  Turned cancelled answer s =
      Settled laws hw hw_laws ids some_id s × Outcome cancelled answer.status answer s

  answer_turn-Ends :
      (cancelled : Option (ℕ → Bool)) (cached : ℕ) (outcome : Bool × List Span) (s : Session e Host)
      → Looped cancelled outcome s
      → Ends (Turned cancelled) Never (answer_turn cached outcome) s
  unfolding answer_turn
  answer_turn-Ends cancelled cached (true, forwarded) s (settled, why) =
      EndsAt.returned _ s (settled, why)
  answer_turn-Ends cancelled cached (false, forwarded) s (f, at) =
      let done = commit-Settled laws hw hw_laws ids some_id s f in
      let size : (commit s).cursor ≡ length ids = unfold commit in at in
      EndsAt.returned _ (commit s) (
        done,
        (done.tape ∙ take_of_length-le (commit s).cursor ids (omega (arith, size)), ap some at),
      )

  check_tape-Front :
      (s : Session e Host) → Front laws hw hw_laws ids some_id s → check_tape ids s ≡ (ok tt, s)
  unfolding check_tape
  check_tape-Front s f =
      let whole : take s.cursor s.tape ≡ take s.cursor ids =
        take_of_length-le s.cursor s.tape (omega (arith, f.cursor)) ∙ f.tape in
      let test : same (take s.cursor ids) (take s.cursor s.tape) ≡ true =
        ap (same (take s.cursor ids)) whole ∙ same_refl (take s.cursor ids) in
      rw test refl

  turn_body-Ends :
      (cancelled : Option (ℕ → Bool)) (s : Session e Host)
      → Valid laws s
      → s.cycle ≡ none
      → Ends (Turned cancelled) Never (turn_body hw cancelled none freq ids) s
  unfolding turn_body set_session
  turn_body-Ends cancelled s v no_cycle =
      let s1 = rewind hw (shared_prefix s.tape ids) (shared_prefix s.tape ids) s in
      let f = rewind-Front laws hw hw_laws ids some_id s v no_cycle in
      let (spans, found, chain) = turn_spans-Chain s1 f.inside in
      rw (check_tape-Front s1 f, found)
        (EndsAt-resume (forward_until-Ends cancelled s1.cursor spans [] s1 f refl chain)
          λ outcome s2 h. answer_turn-Ends cancelled s1.cursor outcome s2 h)

  cancel_on_error-Ends :
      (cancelled : Option (ℕ → Bool)) (r : Result Forwarding × Session e Host)
      → EndsAt (Turned cancelled) Never r.0 r.1
      → EndsAt (Turned cancelled) Never (cancel_on_error hw r).0 (cancel_on_error hw r).1
  unfolding cancel_on_error
  cancel_on_error-Ends cancelled (ok a, s) h = h
  cancel_on_error-Ends cancelled (raise err, s) (EndsAt.raised _ _ never) = absurd never

  -- On a free and valid session and with no image rows, a turn of one id or more raises nothing and
  -- leaves a valid, free session that holds a prefix of the ids. A turn whose answer is completed
  -- holds all of them, and only a turn with a cancel event is cancelled.
  pub turn-Ends :
      (cancelled : Option (ℕ → Bool)) (s : Session e Host)
      → s.busy ≡ false
      → Valid laws s
      → Ends (Turned cancelled) Never (turn hw cancelled none freq ids) s
  unfolding turn
  turn-Ends cancelled s free v =
      let s' = record s { cycle = none; busy = true } in
      rw free (
        cancel_on_error-Ends cancelled (turn_body hw cancelled none freq ids s') (
          turn_body-Ends cancelled s'
            (record {
              cursor = v.cursor;
              consumed = v.consumed;
              committed = v.committed;
              snapshot = v.snapshot;
              cycle = λ c has. absurd (cc);
              spare = v.spare;
            })
            refl))
