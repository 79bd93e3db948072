-- ===== src/Chat/Finish/Message.antt =====
-- The message at the end of a turn of engine/forward/chat.py, and that there is one.
use qwarz.Base.{
  ◌⊎◌, inl, inr, ℕ, ◌≡◌, refl, ap, subst, Bool, false, ◌&&◌, not, Option, List, ◌++◌, append_assoc,
}
use qwarz.Base.Outcome.{
  Error, Result, ok, raise, value_error, session_busy, cancelled_turn, runtime_error, ◌>>=◌,
}
use qwarz.Base.Texts.{codes}
use qwarz.Parsing.Json.{Members}
use qwarz.Parsing.Feed.{StreamParser}
use qwarz.Parsing.Messages.{Call}
use qwarz.Parsing.Tools.Declared.{bound, ok-injective, passed}
use qwarz.Parsing.Finish.{
  Answer, Finisher, ToolChoice, is_reasoning, needs_call, has_calls, pending_on, calls_of,
  answer_with, finish,
}
use qwarz.Parsing.Finish.Errors.{IsCaught, Comes, finish-IsCaught, finish-incomplete}
use qwarz.Engine.{Reason}
use qwarz.Chat.Finish.{
  TurnStatus, Ended, is_completed, rejected_status, ended_with, conclude_with, conclude,
}

-- a message that goes on behind what the parser has recorded
pub record Extends {Real : Type 0} (p : StreamParser (Members Real)) (message : Answer)
    : Type 0 where
  pub content : (x : List ℕ) × (message.content ≡ p.content ++ x)
  pub reasoning : (y : List ℕ) × (message.reasoning_content ≡ p.reasoning ++ y)

answer_with-Extends :
    {Real : Type 0} (complete : Bool) (choice : ToolChoice) (p : StreamParser (Members Real))
    (calls : List Call) (answer : Answer)
    → answer_with complete choice p calls ≡ ok answer
    → Extends p answer
unfolding answer_with
answer_with-Extends complete choice p calls answer h =
    let (_, made) =
      passed (complete && (needs_call choice && not (has_calls calls))) _ _ answer h in
    subst (Extends p) (ok-injective _ answer made) (record {
      content = (
        p.leading ++ pending_on (not (is_reasoning p.channel) && not p.in_tools) p.pending,
        append_assoc p.content p.leading
            (pending_on (not (is_reasoning p.channel) && not p.in_tools) p.pending),
      );
      reasoning = (pending_on (is_reasoning p.channel) p.pending, refl);
    })

-- an error that is no ValueError
abbrev pub IsOther : Error → Type 0
IsOther (value_error text numbers) = ⊥
IsOther err = Unit {0}

module _ {Real : Type 0} (finisher : Finisher Real) (choice : ToolChoice) where
  finish-Extends :
      (complete : Bool) (p : StreamParser (Members Real)) (answer : Answer)
      → finish finisher complete choice p ≡ ok answer
      → Extends p answer
  unfolding finish
  finish-Extends complete p answer h =
      let (_, finished) = passed (complete && is_reasoning p.channel) _ _ answer h in
      let (calls, _, made) =
        bound (calls_of finisher (complete && p.in_tools) choice p) (answer_with complete choice p)
          answer finished in
      answer_with-Extends complete choice p calls answer made

  conclude_with-Extends :
      (out complete : Bool) (status : TurnStatus × Option Reason) (p : StreamParser (Members Real))
      (r : Result Answer) (ended : Ended)
      → finish finisher complete choice p ≡ r
      → conclude_with finisher choice out status p r ≡ ok ended
      → Extends p ended.message
  unfolding conclude_with
  conclude_with-Extends out complete status p (ok message) ended e h =
      subst (Extends p) (ap (λ (d : Ended). d.message) (ok-injective _ ended h))
        (finish-Extends complete p message e)
  conclude_with-Extends out complete status p (raise (value_error text numbers)) ended e h =
      let (answer, finished, made) =
        bound (finish finisher false choice p)
          (λ answer. ok (ended_with (rejected_status (codes text) out status) answer)) ended h in
      subst (Extends p) (ap (λ (d : Ended). d.message) (ok-injective _ ended made))
        (finish-Extends false p answer finished)
  conclude_with-Extends out complete status p (raise (runtime_error text numbers)) ended e h =
      absurd (cc)
  conclude_with-Extends out complete status p (raise session_busy) ended e h = absurd (cc)
  conclude_with-Extends out complete status p (raise (cancelled_turn ids)) ended e h = absurd (cc)

  pub conclude-Extends :
      (out : Bool) (status : TurnStatus × Option Reason) (p : StreamParser (Members Real))
      (ended : Ended)
      → conclude finisher choice out status p ≡ ok ended
      → Extends p ended.message
  unfolding conclude
  conclude-Extends out status p ended h =
      conclude_with-Extends out (is_completed status.0) status p
        (finish finisher (is_completed status.0) choice p) ended refl h

  -- a message, or an error that is no ValueError and comes from a library or from `validate_value`
  abbrev pub Concluded : Result Ended → Type 0
  Concluded r =
      ((ended : Ended) × (r ≡ ok ended))
      ⊎ ((err : Error) × (r ≡ raise err) × IsOther err × Comes finisher err)

  conclude_with-Concluded :
      (out : Bool) (status : TurnStatus × Option Reason) (p : StreamParser (Members Real))
      (r : Result Answer)
      → IsCaught (Comes finisher) r
      → Concluded (conclude_with finisher choice out status p r)
  unfolding conclude_with
  conclude_with-Concluded out status p (ok message) h = inl (ended_with status message, refl)
  conclude_with-Concluded out status p (raise (value_error text numbers)) h =
      let (answer, finished) = finish-incomplete finisher choice p in
      inl (
        ended_with (rejected_status (codes text) out status) answer,
        ap (λ r. r >>= λ answer. ok (ended_with (rejected_status (codes text) out status) answer))
            finished,
      )
  conclude_with-Concluded out status p (raise (runtime_error text numbers)) h =
      inr (runtime_error text numbers, refl, tt, h)
  conclude_with-Concluded out status p (raise session_busy) h = inr (session_busy, refl, tt, h)
  conclude_with-Concluded out status p (raise (cancelled_turn ids)) h =
      inr (cancelled_turn ids, refl, tt, h)

  pub conclude-Concluded :
      (out : Bool) (status : TurnStatus × Option Reason) (p : StreamParser (Members Real))
      → Concluded (conclude finisher choice out status p)
  unfolding conclude
  conclude-Concluded out status p =
      conclude_with-Concluded out status p (finish finisher (is_completed status.0) choice p)
        (finish-IsCaught finisher (is_completed status.0) choice p)
