-- ===== src/Chat/Finish.antt =====
-- The end of `run_turn` in engine/forward/chat.py: behind `session.generate`, the rest of the text is
-- fed, the parser is finished, the turn classified, and what was not streamed yet is published.
pub mod Adds
pub mod Told
pub mod Message
pub mod Published
use qwarz.Base.{
  ℕ, Bool, true, false, ◌&&◌, ◌||◌, not, Option, none, some, List, [], ◌∷◌, length, drop, last_or,
  ◌==◌, if◌then◌else◌,
}
use qwarz.Base.Outcome.{Result, ok, raise, Error, value_error, ◌>>=◌}
use qwarz.Base.Texts.{codes}
use qwarz.Parsing.Json.{Members}
use qwarz.Parsing.Feed.{Channel, StreamParser, Events}
use qwarz.Parsing.Finish.{Answer, Finisher, ToolChoice, finish, unclosed_tool_xml}
use qwarz.Engine.{Reason, ToolError, incomplete_reason_from_error}
use qwarz.Session.Turns.{Status}
use qwarz.Chat.{Text, flush_text}
use qwarz.Chat.Hook.{TurnState, emit_text, feed_text}

-- the status of the turn's terminal event
pub data TurnStatus : Type 0 where
  completed cancelled incomplete : TurnStatus

pub record Ended : Type 0 where
  pub status : TurnStatus
  pub incomplete_reason : Option Reason
  pub message : Answer

-- `not produced or produced[-1] != stop`
abbrev pub ran_out : List ℕ → ℕ → Bool
ran_out [] stop = true
ran_out (n ∷ produced) stop = not (last_or n produced == stop)

abbrev pub is_completed : TurnStatus → Bool
is_completed TurnStatus.completed = true
is_completed _ = false

abbrev pub is_cancelled_turn : TurnStatus → Bool
is_cancelled_turn TurnStatus.cancelled = true
is_cancelled_turn _ = false

-- a reason that stands, or another
abbrev pub or_reason : Option Reason → Reason → Option Reason
or_reason none reason = some reason
or_reason (some given) reason = some given

-- by the result of `generate`, the budget and the last id
unfoldable pub first_status : Status → Bool → Bool → TurnStatus × Option Reason
first_status Status.cancelled halted out = (TurnStatus.cancelled, none)
first_status Status.completed true out = (TurnStatus.incomplete, some Reason.reasoning_budget_used)
first_status Status.completed false true = (TurnStatus.incomplete, some Reason.max_new_tokens)
first_status Status.completed false false = (TurnStatus.completed, none)

-- a tool call that is cut off
unfoldable pub unclosed_status :
    Bool → Bool → TurnStatus × Option Reason → TurnStatus × Option Reason
unclosed_status unclosed out (status, reason) =
    if not (is_cancelled_turn status) && unclosed
    then (
      TurnStatus.incomplete,
      or_reason reason (if out then Reason.max_new_tokens else Reason.unclosed_tool_call),
    )
    else (status, reason)

-- the reason of a turn whose message was rejected
unfoldable pub rejected_status :
    List ℕ → Bool → TurnStatus × Option Reason → TurnStatus × Option Reason
unfolding incomplete_reason_from_error
rejected_status message out (status, reason) =
    if is_cancelled_turn status then (status, reason) else (
      TurnStatus.incomplete,
      or_reason reason (
          incomplete_reason_from_error (record { from_schema = false; message = message })
            (some (if out then codes "max_new_tokens" else codes "stop_token"))),
    )

abbrev pub ended_with : TurnStatus × Option Reason → Answer → Ended
ended_with status message = record {
  status = status.0;
  incomplete_reason = status.1;
  message = message;
}

-- what of the message was not streamed
unfoldable pub publish_tails :
    {Real : Type 0} → Answer → TurnState (Members Real) → TurnState (Members Real)
unfolding emit_text
publish_tails message s =
    let t = emit_text Channel.content_channel (drop s.streamed_content message.content) s in
    emit_text Channel.reasoning_channel (drop t.streamed_reasoning message.reasoning_content) t

module _ {Real : Type 0} (finisher : Finisher Real) (choice : ToolChoice) where
  -- the message, or that of the answer taken as incomplete; only a ValueError is caught
  unfoldable pub conclude_with :
      Bool → TurnStatus × Option Reason → StreamParser (Members Real) → Result Answer → Result Ended
  unfolding finish rejected_status
  conclude_with out status p (ok message) = ok (ended_with status message)
  conclude_with out status p (raise (value_error message numbers)) =
      finish finisher false choice p >>= λ answer.
      ok (ended_with (rejected_status (codes message) out status) answer)
  conclude_with out status p (raise err) = raise err

  unfoldable pub conclude :
      Bool → TurnStatus × Option Reason → StreamParser (Members Real) → Result Ended
  unfolding conclude_with finish
  conclude out status p =
      conclude_with out status p (finish finisher (is_completed status.0) choice p)

module _ {Schema : Type 0} (decode : List ℕ → Text) where
  unfoldable pub flushed_with : List ℕ → TurnState Schema → TurnState Schema
  unfolding flush_text feed_text
  flushed_with [] s = s
  flushed_with (v ∷ visible) s =
      let (piece, text) = flush_text decode s.text in feed_text piece (record s { text = text })

  -- `feed(state["text"].flush())` if anything is visible
  unfoldable pub flushed : TurnState Schema → TurnState Schema
  unfolding flushed_with
  flushed s = flushed_with s.visible s

module _ {Real : Type 0} (decode : List ℕ → Text) (finisher : Finisher Real)
    (choice : ToolChoice) where
  -- what `run_turn` does behind `generate`: the end of the turn, and the state with the last deltas
  unfoldable pub end_turn :
      ℕ → Status → List ℕ → TurnState (Members Real) → Result (Ended × TurnState (Members Real))
  unfolding flushed first_status unclosed_status unclosed_tool_xml conclude publish_tails
  end_turn stop status produced s =
      let t = flushed decode s in
      let out = ran_out produced stop in
      conclude finisher choice out
        (unclosed_status (unclosed_tool_xml t.parser) out (first_status status t.budget_halt out))
        t.parser
      >>= λ ended. ok (ended, publish_tails ended.message t)
