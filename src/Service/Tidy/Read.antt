-- ===== src/Service/Tidy/Read.antt =====
-- The reading thread keeps the service tidy.
use qwarz.Base.{
  ltb, ◌||◌, ℕ, suc, subst, ◌≡◌, refl, sym, ap, true, false, Bool-cases, inl, inr, Option, none,
  some, List, [], ◌∷◌, ◌++◌, ◌∙◌, length, arith,
}
use qwarz.Base.Texts.{codes}
use qwarz.Cycle.Suffix.{same}
use qwarz.Parsing.Json.{Json, Members, get_member}
use qwarz.Worker.State.{Line, is_id}
use qwarz.Worker.{operation_of}
use qwarz.Service.{
  Job, Reader, Serve, Message, put_nowait, accept_with, accept, cancel_job, fire_found,
  run_operation, read_id, read_line, find_active, set_active, is_full,
}
use qwarz.Service.Tidy.{
  asked_with, asked, finishing, own, queued, has_end, is_closed, is_crashed, IsTidy,
}

-- nothing registered and no end: the queue is empty
free :
    {Real : Type 0} (jobs : List (Option (Job Real)))
    → queued jobs ≡ []
    → has_end jobs ≡ false
    → jobs ≡ []
free [] e h = refl
free (none ∷ jobs) e h = cc
free (some job ∷ jobs) e h = cc

append-eq-nil : {A : Type 0} (xs ys : List A) → xs ++ ys ≡ [] → (xs ≡ []) × (ys ≡ [])
append-eq-nil [] ys e = (refl, e)
append-eq-nil (x ∷ xs) ys e = cc

module _ {Real E : Type 0} where
  -- what leaves the queue, the dictionary and the loop alone
  pub quiet-IsTidy :
      (s : Serve Real E) (reader' : Reader) (fired' : List ℕ) (output' : List (Message E))
      → (is_closed s.reader ≡ true → is_closed reader' ≡ true)
      → is_crashed reader' ≡ false
      → IsTidy s
      → IsTidy (record s { reader = reader'; fired = fired'; output = output' })
  quiet-IsTidy s reader' fired' output' shut calm t = record {
    registered = t.registered;
    alone = t.alone;
    room = t.room;
    ended = λ h. shut (t.ended h);
    distinct = t.distinct;
    calm = calm;
  }

  no_end : (s : Serve Real E) → IsTidy s → s.reader ≡ Reader.reading → has_end s.jobs ≡ false
  no_end s t at_line = elim (Bool-cases (has_end s.jobs)) [
    | inl there ↦ absurd (let e = t.ended there in cc (e, at_line))
    | inr gone ↦ gone
  ]

  accept_with-IsTidy :
      (active : List (List ℕ × ℕ)) (id : List ℕ) (payload : Members Real) (s : Serve Real E)
      → s.active ≡ active
      → s.reader ≡ Reader.reading
      → is_id (finishing s.main) id ≡ false
      → IsTidy s
      → IsTidy (accept_with active id payload s)
  unfolding accept_with put_nowait set_active
  accept_with-IsTidy (a ∷ active) id payload s has at_line fresh t =
      quiet-IsTidy s _ s.fired s.output (λ h. cc (h, at_line)) refl t
  accept_with-IsTidy [] id payload s has at_line fresh t =
      let (no_own, no_queued) =
        append-eq-nil (own s.main) (queued s.jobs) (sym t.registered ∙ has) in
      let empty = free s.jobs no_queued (no_end s t at_line) in
      let job : Job Real = record {
        id = id;
        request = get_member (codes "request") payload;
        parent = get_member (codes "parent") payload;
        cancellation = s.next_event;
      } in
      let s' : Serve Real E = record s {
        jobs = s.jobs ++ some job ∷ [];
        active = (id, s.next_event) ∷ [];
        next_event = suc s.next_event;
      } in
      let tidy : IsTidy s' = record {
        registered = rw (no_own, empty) refl;
        alone = rw (no_own, empty) (omega arith);
        room = rw empty (omega arith);
        ended = rw empty (λ h. cc h);
        distinct = rw (empty, fresh) refl;
        calm = ap is_crashed at_line;
      } in
      subst
        (λ b. IsTidy (
          put_nowait job b
            (record s { active = (id, s.next_event) ∷ []; next_event = suc s.next_event })))
        (sym (ap is_full empty)) tidy

  fire_found-IsTidy : (found : Option ℕ) (s : Serve Real E) → IsTidy s → IsTidy (fire_found found s)
  unfolding fire_found
  fire_found-IsTidy none s t = t
  fire_found-IsTidy (some e) s t = quiet-IsTidy s s.reader _ s.output (λ h. h) t.calm t

  run_operation-IsTidy :
      (id : List ℕ) (payload : Members Real) (operation : List ℕ) (s : Serve Real E)
      → s.reader ≡ Reader.reading
      → (same operation (codes "generate") ≡ true
          → ltb (length id) 1 || ltb 256 (length id) ≡ false
          → is_id (finishing s.main) id ≡ false)
      → IsTidy s
      → IsTidy (run_operation id payload operation s)
  unfolding run_operation accept cancel_job
  run_operation-IsTidy id payload operation s at_line fresh t =
      elim (Bool-cases (same operation (codes "shutdown"))) [
        | inl e ↦ rw e (quiet-IsTidy s _ _ s.output (λ h. cc (h, at_line)) refl t)
        | inr e ↦ rw e (elim (Bool-cases (same operation (codes "cancel"))) [
          | inl c ↦ rw c (fire_found-IsTidy (find_active id s.active) s t)
          | inr c ↦ rw c (elim (Bool-cases (same operation (codes "generate"))) [
            | inl g ↦ rw g (elim (Bool-cases (ltb (length id) 1 || ltb 256 (length id))) [
              | inl bad ↦ rw bad (quiet-IsTidy s _ s.fired s.output (λ h. cc (h, at_line)) refl t)
              | inr good ↦
                  rw good (accept_with-IsTidy s.active id payload s refl at_line (fresh g good) t)
            ])
            | inr g ↦ rw g (quiet-IsTidy s _ s.fired s.output (λ h. cc (h, at_line)) refl t)
          ])
        ])
      ]

  read_id-IsTidy :
      (payload : Members Real) (found : Option (Json Real)) (s : Serve Real E)
      → s.reader ≡ Reader.reading
      → ((id : List ℕ)
          → asked_with found (operation_of (get_member (codes "op") payload)) ≡ some id
          → is_id (finishing s.main) id ≡ false)
      → IsTidy s
      → IsTidy (read_id payload found s)
  unfolding read_id asked_with
  read_id-IsTidy payload none s at_line fresh t =
      run_operation-IsTidy [] payload (operation_of (get_member (codes "op") payload)) s at_line
        (λ g bad. cc bad) t
  read_id-IsTidy payload (some (Json.text id)) s at_line fresh t =
      run_operation-IsTidy id payload (operation_of (get_member (codes "op") payload)) s at_line
        (λ g good. fresh id (rw g refl)) t
  read_id-IsTidy payload (some other) s at_line fresh t =
      quiet-IsTidy s _ s.fired s.output (λ h. cc (h, at_line)) refl t

  pub read_line-IsTidy :
      (line : Option (Line Real)) (s : Serve Real E)
      → s.reader ≡ Reader.reading
      → ((id : List ℕ) → asked line ≡ some id → is_id (finishing s.main) id ≡ false)
      → IsTidy s
      → IsTidy (read_line line s)
  unfolding read_line asked
  read_line-IsTidy none s at_line fresh t =
      quiet-IsTidy s _ s.fired s.output (λ h. cc (h, at_line)) refl t
  read_line-IsTidy (some Line.too_long) s at_line fresh t =
      quiet-IsTidy s _ s.fired s.output (λ h. cc (h, at_line)) refl t
  read_line-IsTidy (some Line.not_json) s at_line fresh t =
      quiet-IsTidy s _ s.fired s.output (λ h. cc (h, at_line)) refl t
  read_line-IsTidy (some (Line.command (Json.object payload))) s at_line fresh t =
      read_id-IsTidy payload (get_member (codes "id") payload) s at_line fresh t
  read_line-IsTidy (some (Line.command other)) s at_line fresh t =
      quiet-IsTidy s _ s.fired s.output (λ h. cc (h, at_line)) refl t
