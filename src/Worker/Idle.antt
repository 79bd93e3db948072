-- ===== src/Worker/Idle.antt =====
-- Between two commands the worker of engine/forward/worker.py is idle, and a generate has one answer.
use qwarz.Base.{
  ◌++◌, if◌then◌else◌, true, ℕ, ◌≡◌, refl, ap, sym, subst, ◌∙◌, inl, inr, Bool, ◌||◌, ◌&&◌, not,
  false, Option, none, some, List, [], ◌∷◌, length, ltb, Bool-cases,
}
use qwarz.Base.Outcome.{Result, ok, raise, value_error, runtime_error, session_busy, cancelled_turn}
use qwarz.Base.Texts.{codes}
use qwarz.Cycle.Suffix.{same}
use qwarz.Parsing.Json.{Json, Jsons, Members, get_member}
use qwarz.Session.Turns.{Generated}
use qwarz.Worker.State.{
  Failure, Event, Calls, Worker, Line, is_id, has_event, end_turn, note_cancel, request_stop,
  set_event, refuse, ChatTurn, Prompt,
}
use qwarz.Parsing.Feed.{Events}
use qwarz.Worker.Chat.{told_deltas, conclude_chat, run_chat, chat_prepared, chat}
use qwarz.Worker.{
  operation_of, object_of, budget_of, conclude_generate, run_generate, generate_ids, generate_for,
  push_request, push_generate, push_operation, push_id, push,
}

-- no id is active and there is no cancel event
pub record Idle {S : Type 0} (w : Worker S) : Type 0 where
  pub no_active : w.active ≡ none
  pub no_cancel : w.cancel ≡ none

-- the events of a chat and one terminal event behind them, all of the id
abbrev pub IsAnswer : {Real : Type 0} → List ℕ → List (Event Real) → Type 0
IsAnswer id (Event.started key size ∷ events) = (key ≡ id) × IsAnswer id events
IsAnswer id (Event.delta key channel text ∷ events) = (key ≡ id) × IsAnswer id events
IsAnswer id (Event.failed key failure ∷ []) = key ≡ id
IsAnswer id (Event.answered key status usage tokens snapshot ∷ []) = key ≡ id
IsAnswer id (Event.turned key status usage message tokens snapshot ∷ []) = key ≡ id
IsAnswer id _ = ⊥

-- what is returned is an answer; an exception is none
abbrev pub AnswerOf : {Real : Type 0} → List ℕ → Result (List (Event Real)) → Type 0
AnswerOf id (ok events) = IsAnswer id events
AnswerOf id (raise err) = Unit {0}

-- The worker is idle, and what it returns is an answer.
pub record Served {Real S : Type 0} (id : List ℕ) (r : Result (List (Event Real)) × Worker S)
    : Type 0 where
  pub answer : AnswerOf id r.0
  pub idle : Idle r.1

refuse-Served :
    {Real S : Type 0} (id : List ℕ) (failure : Failure) (w : Worker S)
    → Idle w
    → Served {Real = Real} id (refuse id failure w)
refuse-Served id failure w idle = record { answer = refl; idle = idle }

pub note_cancel_free :
    {S : Type 0} (id : List ℕ) (w : Worker S)
    → Idle w
    → note_cancel id w ≡ record w { pending_cancel = some id }
unfolding note_cancel
note_cancel_free id w idle =
    let test : (is_id w.active id && has_event w.cancel) ≡ false =
      ap (λ a. is_id a id && has_event w.cancel) idle.no_active in
    rw test refl

module _ {Real S : Type 0} (calls : Calls Real S) where
  conclude_generate-AnswerOf :
      (id : List ℕ) (request : Members Real) (prompt : ℕ) (r : Result Generated × S)
      → AnswerOf id (conclude_generate calls id request prompt r)
  unfolding conclude_generate
  conclude_generate-AnswerOf id request prompt (raise session_busy, s) = refl
  conclude_generate-AnswerOf id request prompt (raise (value_error message numbers), s) = refl
  conclude_generate-AnswerOf id request prompt (raise (runtime_error message numbers), s) = tt
  conclude_generate-AnswerOf id request prompt (raise (cancelled_turn produced), s) = tt
  conclude_generate-AnswerOf id request prompt (ok result, s) = refl

  told_deltas-IsAnswer :
      (id : List ℕ) (deltas : Events) (events : List (Event Real))
      → IsAnswer id events
      → IsAnswer id (told_deltas id deltas ++ events)
  unfolding told_deltas
  told_deltas-IsAnswer id [] events h = h
  told_deltas-IsAnswer id ((channel, text) ∷ deltas) events h =
      (refl, told_deltas-IsAnswer id deltas events h)

  -- what was published stands in front, or was emitted
  published-IsAnswer :
      (b : Bool) (id : List ℕ) (published events : List (Event Real))
      → IsAnswer id (published ++ events)
      → IsAnswer id events
      → IsAnswer id ((if b then [] else published) ++ events)
  published-IsAnswer true id published events h k = k
  published-IsAnswer false id published events h k = h

  conclude_chat-AnswerOf :
      (id : List ℕ) (prompt : Prompt Real) (deltas : Events) (r : Result ChatTurn) (s : S)
      → AnswerOf id (
          conclude_chat calls id prompt
            (Event.started id (length prompt.tokens) ∷ told_deltas id deltas)
            r
            s)
  unfolding conclude_chat
  conclude_chat-AnswerOf id prompt deltas (raise session_busy) s = refl
  conclude_chat-AnswerOf id prompt deltas (raise (value_error message numbers)) s = refl
  conclude_chat-AnswerOf id prompt deltas (raise (runtime_error message numbers)) s = tt
  conclude_chat-AnswerOf id prompt deltas (raise (cancelled_turn produced)) s = tt
  conclude_chat-AnswerOf id prompt deltas (ok turn) s =
      published-IsAnswer calls.emits id
        (Event.started id (length prompt.tokens) ∷ told_deltas id deltas) _
        (refl, told_deltas-IsAnswer id deltas _ refl) refl

  module _ (later : ℕ → Bool) (arrived : List (List ℕ)) where
    chat_prepared-Served :
        (id : List ℕ) (r : Result (Prompt Real)) (w : Worker S)
        → Idle w
        → Served id (chat_prepared calls later arrived id r w)
    unfolding chat_prepared run_chat end_turn
    chat_prepared-Served id (ok prompt) w idle = record {
      answer = conclude_chat-AnswerOf id prompt _ _ _;
      idle = record { no_active = refl; no_cancel = refl };
    }
    chat_prepared-Served id (raise (value_error message numbers)) w idle = refuse-Served id _ w idle
    chat_prepared-Served id (raise (runtime_error message numbers)) w idle = record {
      answer = tt;
      idle = idle;
    }
    chat_prepared-Served id (raise session_busy) w idle = record { answer = tt; idle = idle }
    chat_prepared-Served id (raise (cancelled_turn produced)) w idle = record {
      answer = tt;
      idle = idle;
    }

    chat-Served :
        (id : List ℕ) (request : Members Real) (parent : Option (Json Real)) (w : Worker S)
        → Idle w
        → Served id (chat calls later arrived id request parent w)
    unfolding chat
    chat-Served id request parent w idle = elim (Bool-cases calls.has_tokenizer) [
      | inl there ↦
          rw there (chat_prepared-Served id (calls.prepare request parent w.session) w idle)
      | inr missing ↦ rw missing (refuse-Served id _ w idle)
    ]

    generate_ids-Served :
        (id : List ℕ) (request : Members Real) (ids : Jsons Real) (budget : Option ℕ) (w : Worker S)
        → Idle w
        → Served id (generate_ids calls later arrived id request ids budget w)
    unfolding generate_ids run_generate end_turn
    generate_ids-Served id request ids none w idle = refuse-Served id _ w idle
    generate_ids-Served id request ids (some n) w idle = record {
      answer = conclude_generate-AnswerOf id request _ _;
      idle = record { no_active = refl; no_cancel = refl };
    }

    generate_for-Served :
        (id : List ℕ) (request : Members Real) (parent : Option (Json Real))
        (ids messages : Option (Jsons Real)) (w : Worker S)
        → Idle w
        → Served id (generate_for calls later arrived id request parent ids messages w)
    unfolding generate_for
    generate_for-Served id request parent (some ids) messages w idle =
        generate_ids-Served id request ids (budget_of (get_member (codes "max_new") request)) w idle
    generate_for-Served id request parent none (some messages) w idle =
        chat-Served id request parent w idle
    generate_for-Served id request parent none none w idle = refuse-Served id _ w idle

    push_request-Served :
        (id : List ℕ) (parent : Option (Json Real)) (request : Option (Members Real)) (w : Worker S)
        → Idle w
        → Served id (push_request calls later arrived id parent request w)
    unfolding push_request
    push_request-Served id parent (some request) w idle =
        generate_for-Served id request parent _ _ w idle
    push_request-Served id parent none w idle = refuse-Served id _ w idle

    push_generate-Served :
        (id : List ℕ) (payload : Members Real) (active : Option (List ℕ)) (w : Worker S)
        → Idle w
        → Served id (push_generate calls later arrived id payload active w)
    unfolding push_generate
    push_generate-Served id payload (some key) w idle = refuse-Served id _ w idle
    push_generate-Served id payload none w idle =
        push_request-Served id (get_member (codes "parent") payload)
          (object_of (get_member (codes "request") payload)) w idle

    request_stop-Idle : (w : Worker S) → Idle w → Idle (request_stop w)
    unfolding request_stop
    request_stop-Idle w idle = record {
      no_active = idle.no_active;
      no_cancel = ap set_event idle.no_cancel;
    }

    note_cancel-Idle : (id : List ℕ) (w : Worker S) → Idle w → Idle (note_cancel id w)
    note_cancel-Idle id w idle =
        let kept : Idle (record w { pending_cancel = some id }) = record {
          no_active = idle.no_active;
          no_cancel = idle.no_cancel;
        } in
        subst Idle (sym (note_cancel_free id w idle)) kept

    -- an operation on an idle worker; a generate is served
    push_operation-Idle :
        (id : List ℕ) (payload : Members Real) (operation : List ℕ) (w : Worker S)
        → Idle w
        → Idle (push_operation calls later arrived id payload operation w).1
          × (operation ≡ codes "generate"
              → Served id (push_operation calls later arrived id payload operation w))
    unfolding push_operation
    push_operation-Idle id payload operation w idle =
        elim (Bool-cases (same operation (codes "shutdown"))) [
          | inl stops ↦ rw stops (
            request_stop-Idle w idle,
            λ h. absurd (let t = ap (λ o. same o (codes "shutdown")) (sym h) ∙ stops in cc),
          )
          | inr no_stop ↦ elim (Bool-cases (same operation (codes "cancel"))) [
            | inl cancels ↦
                rw (no_stop, cancels)
                  (
                    note_cancel-Idle id w idle,
                    λ h. absurd (let t = ap (λ o. same o (codes "cancel")) (sym h) ∙ cancels in cc),
                  )
            | inr no_cancel ↦ elim (Bool-cases (same operation (codes "promote"))) [
              | inl promotes ↦
                  rw (no_stop, no_cancel, promotes)
                    (
                      idle,
                      λ h.
                          absurd
                            (let t = ap (λ o. same o (codes "promote")) (sym h) ∙ promotes in cc),
                    )
              | inr no_promote ↦
                  elim (Bool-cases (
                    not (same operation (codes "generate"))
                    || ltb (length id) 1
                    || ltb 256 (length id))) [
                      | inl bad ↦
                          let r = refuse-Served id _ w idle in
                          rw (no_stop, no_cancel, no_promote, bad) (r.idle, λ h. r)
                      | inr good ↦
                          let r = push_generate-Served id payload w.active w idle in
                          rw (no_stop, no_cancel, no_promote, good) (r.idle, λ h. r)
                    ]
            ]
          ]
        ]

    push_id-Idle :
        (payload : Members Real) (key : Option (Json Real)) (w : Worker S)
        → Idle w
        → Idle (push_id calls later arrived payload key w).1
          × ((id : List ℕ)
              → key ≡ some (Json.text id)
              → get_member (codes "op") payload ≡ some (Json.text (codes "generate"))
              → Served id (push_id calls later arrived payload key w))
    unfolding push_id
    push_id-Idle payload none w idle = (
      (push_operation-Idle [] payload (operation_of (get_member (codes "op") payload)) w idle).0,
      λ id h. absurd (cc),
    )
    push_id-Idle payload (some (Json.text key)) w idle =
        let (kept, served) =
          push_operation-Idle key payload (operation_of (get_member (codes "op") payload)) w idle in
        (
          kept,
          λ id h op.
              let same_id : key ≡ id = cc in
              subst
                (λ i. Served i (
                  push_operation calls later arrived key payload
                    (operation_of (get_member (codes "op") payload)) w))
                same_id (served (ap operation_of op)),
        )
    push_id-Idle payload (some Json.null) w idle = (idle, λ id h. absurd (cc))
    push_id-Idle payload (some (Json.boolean b)) w idle = (idle, λ id h. absurd (cc))
    push_id-Idle payload (some (Json.integer b)) w idle = (idle, λ id h. absurd (cc))
    push_id-Idle payload (some (Json.real b)) w idle = (idle, λ id h. absurd (cc))
    push_id-Idle payload (some (Json.array b)) w idle = (idle, λ id h. absurd (cc))
    push_id-Idle payload (some (Json.object b)) w idle = (idle, λ id h. absurd (cc))

  -- Behind every line an idle worker is idle again: behind a generate of ids or of messages, behind one
  -- that is refused or cancelled, behind a line that is no command, and when an exception goes through.
  pub push-Idle :
      (later : ℕ → Bool) (arrived : List (List ℕ)) (line : Line Real) (w : Worker S)
      → Idle w
      → Idle (push calls later arrived line w).1
  unfolding push
  push-Idle later arrived Line.too_long w idle = idle
  push-Idle later arrived Line.not_json w idle = idle
  push-Idle later arrived (Line.command (Json.object fields)) w idle =
      (push_id-Idle later arrived fields (get_member (codes "id") fields) w idle).0
  push-Idle later arrived (Line.command Json.null) w idle = idle
  push-Idle later arrived (Line.command (Json.boolean b)) w idle = idle
  push-Idle later arrived (Line.command (Json.integer b)) w idle = idle
  push-Idle later arrived (Line.command (Json.real b)) w idle = idle
  push-Idle later arrived (Line.command (Json.text b)) w idle = idle
  push-Idle later arrived (Line.command (Json.array b)) w idle = idle

  -- An idle worker that gets a generate with an id, be it of ids or of messages, is idle again, and what
  -- it returns is exactly one terminal event with that id, behind the events of a chat that were not
  -- emitted and that have that id too, unless an exception goes through.
  pub push-Served :
      (later : ℕ → Bool) (arrived : List (List ℕ)) (payload : Members Real) (id : List ℕ)
      (w : Worker S)
      → Idle w
      → get_member (codes "id") payload ≡ some (Json.text id)
      → get_member (codes "op") payload ≡ some (Json.text (codes "generate"))
      → Served id (push calls later arrived (Line.command (Json.object payload)) w)
  unfolding push
  push-Served later arrived payload id w idle key op =
      (push_id-Idle later arrived payload (get_member (codes "id") payload) w idle).1 id key op
