-- ===== src/Service/Tidy/Kept.antt =====
-- Every step of the service keeps it tidy.
use qwarz.Base.{
  ℕ, suc, subst, ◌≤◌, ◌≡◌, refl, sym, ap, Bool, true, false, Bool-cases, inl, inr, Option, none,
  some, List, [], ◌∷◌, ◌++◌, ◌∙◌, length, if◌then◌else◌, arith,
}
use qwarz.Cycle.Suffix.{same}
use qwarz.Session.Generate.Answers.{same_refl}
use qwarz.Service.{
  Job, Reader, Main, Serve, Message, tell_refusal, leave, put_end, get_job, yield_event, tell,
  end_job, pop_active, fail_refusal,
}
use qwarz.Service.Tidy.{finishing, entry, own, queued, clash, is_crashed, IsTidy, Step, Waits}
use qwarz.Service.Tidy.Read.{quiet-IsTidy, read_line-IsTidy}

pub none_left : {A : Type 0} (xs : List A) → suc (length xs) ≤ 1 → xs ≡ []
none_left [] h = refl
none_left (x ∷ xs) h = absurd (omega arith)

no_clash : (active : List (List ℕ × ℕ)) → clash none active ≡ false
no_clash [] = refl
no_clash ((key, e) ∷ active) = no_clash active

pop-apart :
    (id : List ℕ) (active : List (List ℕ × ℕ))
    → clash (some id) active ≡ false
    → pop_active id active ≡ active
unfolding pop_active
pop-apart id [] h = refl
pop-apart id ((key, e) ∷ active) h = elim (Bool-cases (same id key)) [
  | inl hit ↦ absurd (
      let bad : true ≡ false =
        subst (λ b. (if b then true else clash (some id) active) ≡ false) hit h in
      cc bad)
  | inr miss ↦ rw miss (
      ap (◌∷◌ (key, e)) (
        pop-apart id active
          (subst (λ b. (if b then true else clash (some id) active) ≡ false) miss h)))
]

-- the active dictionary behind the generation's own `pop`
popped : {Real : Type 0} (job : Job Real) → pop_active job.id (entry job ∷ []) ≡ []
unfolding pop_active
popped job = rw (same_refl job.id) refl

-- the loop behind a generation
abbrev between : (Real E : Type 0) → Bool → Main Real E
between Real E raised = if raised then Main.returned else Main.waiting

no_own : (Real E : Type 0) (raised : Bool) → own (between Real E raised) ≡ []
no_own Real E true = refl
no_own Real E false = refl

no_finishing : (Real E : Type 0) (raised : Bool) → finishing (between Real E raised) ≡ none
no_finishing Real E true = refl
no_finishing Real E false = refl

module _ {Real E : Type 0} where
  put_end-IsTidy :
      (full : Bool) (s : Serve Real E)
      → s.reader ≡ Reader.closing full
      → s.jobs ≡ []
      → IsTidy s
      → IsTidy (put_end full s)
  unfolding put_end
  put_end-IsTidy full s at_end empty t = record {
    registered = rw empty (t.registered ∙ ap (λ jobs. own s.main ++ queued jobs) empty);
    alone = rw empty (subst (λ jobs. length (own s.main ++ queued jobs) ≤ 1) empty t.alone);
    room = rw empty (omega arith);
    ended = λ h. refl;
    distinct = rw empty refl;
    calm = sym (ap is_crashed at_end) ∙ t.calm;
  }

  get_job-IsTidy :
      (job : Option (Job Real)) (rest : List (Option (Job Real))) (s : Serve Real E)
      → s.main ≡ Main.waiting
      → s.jobs ≡ job ∷ rest
      → IsTidy s
      → IsTidy (get_job job rest s)
  unfolding get_job
  get_job-IsTidy none rest s at_get has t =
      let only : rest ≡ [] = none_left rest (subst (λ jobs. length jobs ≤ 1) has t.room) in
      record {
        registered = t.registered ∙ ap (λ m. own m ++ queued s.jobs) at_get ∙ ap queued has;
        alone = rw only (omega arith);
        room = rw only (omega arith);
        ended = rw only (λ h. cc h);
        distinct = rw only refl;
        calm = t.calm;
      }
  get_job-IsTidy (some job) rest s at_get has t =
      let only : rest ≡ [] = none_left rest (subst (λ jobs. length jobs ≤ 1) has t.room) in
      record {
        registered = t.registered ∙ ap (λ m. own m ++ queued s.jobs) at_get ∙ ap queued has;
        alone = rw only (omega arith);
        room = rw only (omega arith);
        ended = rw only (λ h. cc h);
        distinct = rw only refl;
        calm = t.calm;
      }

  own_alone :
      (job : Job Real) (s : Serve Real E)
      → own s.main ≡ entry job ∷ []
      → IsTidy s
      → (s.active ≡ entry job ∷ []) × (queued s.jobs ≡ [])
  own_alone job s at_event t =
      let none_queued =
        none_left (queued s.jobs) (subst (λ o. length (o ++ queued s.jobs) ≤ 1) at_event t.alone) in
      (
        t.registered ∙ ap (λ o. o ++ queued s.jobs) at_event ∙ ap (◌∷◌ (entry job)) none_queued,
        none_queued,
      )

  yield_event-IsTidy :
      (last : Bool) (e : E) (job : Job Real) (s : Serve Real E)
      → s.main ≡ Main.running job
      → IsTidy s
      → IsTidy (yield_event last e job s)
  unfolding yield_event
  yield_event-IsTidy false e job s at_event t = record {
    registered = t.registered ∙ ap (λ m. own m ++ queued s.jobs) at_event;
    alone = subst (λ m. length (own m ++ queued s.jobs) ≤ 1) at_event t.alone;
    room = t.room;
    ended = t.ended;
    distinct = subst (λ m. clash (finishing m) (queued s.jobs) ≡ false) at_event t.distinct;
    calm = t.calm;
  }
  yield_event-IsTidy true e job s at_event t =
      let (only, no_queued) = own_alone job s (ap own at_event) t in
      record {
        registered = ap (pop_active job.id) only ∙ popped job ∙ sym no_queued;
        alone = rw no_queued (omega arith);
        room = t.room;
        ended = t.ended;
        distinct = rw no_queued refl;
        calm = t.calm;
      }

  -- the loop goes to a place with the same job
  told-IsTidy :
      (next : Main Real E) (output' : List (Message E)) (s : Serve Real E)
      → own next ≡ own s.main
      → finishing next ≡ finishing s.main
      → IsTidy s
      → IsTidy (record s { main = next; output = output' })
  told-IsTidy next output' s as_own as_finishing t = record {
    registered = t.registered ∙ ap (λ o. o ++ queued s.jobs) (sym as_own);
    alone = subst (λ o. length (o ++ queued s.jobs) ≤ 1) (sym as_own) t.alone;
    room = t.room;
    ended = t.ended;
    distinct = ap (λ f. clash f (queued s.jobs)) as_finishing ∙ t.distinct;
    calm = t.calm;
  }

  -- the loop gives its job up
  gone-IsTidy :
      (next : Main Real E) (active' : List (List ℕ × ℕ)) (s : Serve Real E)
      → own next ≡ []
      → finishing next ≡ none
      → active' ≡ queued s.jobs
      → length (queued s.jobs) ≤ 1
      → IsTidy s
      → IsTidy (record s { active = active'; main = next })
  gone-IsTidy next active' s no_own not_finishing rest one t = record {
    registered = rest ∙ ap (λ o. o ++ queued s.jobs) (sym no_own);
    alone = rw no_own one;
    room = t.room;
    ended = t.ended;
    distinct = ap (λ f. clash f (queued s.jobs)) not_finishing ∙ no_clash (queued s.jobs);
    calm = t.calm;
  }

  -- the `finally` behind a generation that is registered no more
  end_finishing-IsTidy :
      (raised : Bool) (job : Job Real) (s : Serve Real E)
      → own s.main ≡ []
      → finishing s.main ≡ some job.id
      → IsTidy s
      → IsTidy (end_job raised job s)
  unfolding end_job
  end_finishing-IsTidy raised job s left at_end t =
      let apart = subst (λ f. clash f (queued s.jobs) ≡ false) at_end t.distinct in
      let rest = t.registered ∙ ap (λ o. o ++ queued s.jobs) left in
      gone-IsTidy (between Real E raised) _ s (no_own Real E raised) (no_finishing Real E raised)
        (ap (pop_active job.id) rest ∙ pop-apart job.id (queued s.jobs) apart)
        (subst (λ o. length (o ++ queued s.jobs) ≤ 1) left t.alone) t

  -- and behind one that is
  end_registered-IsTidy :
      (raised : Bool) (job : Job Real) (s : Serve Real E)
      → own s.main ≡ entry job ∷ []
      → IsTidy s
      → IsTidy (end_job raised job s)
  unfolding end_job
  end_registered-IsTidy raised job s at_event t =
      let (only, no_queued) = own_alone job s at_event t in
      gone-IsTidy (between Real E raised) _ s (no_own Real E raised) (no_finishing Real E raised)
        (ap (pop_active job.id) only ∙ popped job ∙ sym no_queued) (rw no_queued (omega arith)) t

  pub step-IsTidy : {s s' : Serve Real E} (step : Step s s') → Waits step → IsTidy s → IsTidy s'
  unfolding tell_refusal fail_refusal leave tell
  step-IsTidy {s} (Step.reads line at_line) fresh t = read_line-IsTidy line s at_line fresh t
  step-IsTidy {s} (Step.refuses id r at_emit) w t =
      quiet-IsTidy s _ s.fired _ (λ h. cc (h, at_emit)) refl t
  step-IsTidy {s} (Step.refusal_fails id r at_emit) w t =
      quiet-IsTidy s _ s.fired s.output (λ h. cc (h, at_emit)) refl t
  step-IsTidy {s} (Step.leaves full at_leave) w t =
      quiet-IsTidy s _ _ s.output (λ h. cc (h, at_leave)) (sym (ap is_crashed at_leave) ∙ t.calm) t
  step-IsTidy {s} (Step.puts_end full at_end empty) w t = put_end-IsTidy full s at_end empty t
  step-IsTidy {s} (Step.gets job rest at_get has) w t = get_job-IsTidy job rest s at_get has t
  step-IsTidy {s} (Step.yields last e job at_event) w t = yield_event-IsTidy last e job s at_event t
  step-IsTidy {s} (Step.tells e job at_emit) w t =
      told-IsTidy (Main.running job) _ s (sym (ap own at_emit)) (sym (ap finishing at_emit)) t
  step-IsTidy {s} (Step.tells_last e job at_emit) w t =
      told-IsTidy (Main.done job) _ s (sym (ap own at_emit)) (sym (ap finishing at_emit)) t
  step-IsTidy {s} (Step.telling_fails e job at_emit) w t =
      end_registered-IsTidy true job s (ap own at_emit) t
  step-IsTidy {s} (Step.last_fails e job at_emit) w t =
      end_finishing-IsTidy true job s (ap own at_emit) (ap finishing at_emit) t
  step-IsTidy {s} (Step.ends raised job at_end) w t =
      end_finishing-IsTidy raised job s (ap own at_end) (ap finishing at_end) t
  step-IsTidy {s} (Step.stops raised job at_event) w t =
      end_registered-IsTidy raised job s (ap own at_event) t
