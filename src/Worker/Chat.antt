-- ===== src/Worker/Chat.antt =====
-- `_chat` of engine/forward/worker.py: a request of messages, prepared, run between `_begin` and `_end`,
-- and told by a terminal event.
use qwarz.Base.{
  drop, ℕ, ◌+◌, Bool, ◌||◌, Option, none, some, List, [], ◌∷◌, ◌++◌, length, if◌then◌else◌,
}
use qwarz.Base.Outcome.{Result, ok, raise, value_error, session_busy}
use qwarz.Parsing.Json.{Json, Members}
use qwarz.Vision.{canonical_tape}
use qwarz.Parsing.Feed.{Events}
use qwarz.Chat.Finish.{TurnStatus}
use qwarz.Worker.State.{
  Failure, Usage, Event, ChatSnapshot, Worker, ChatTurn, Prompt, Calls, is_set, begin, end_turn,
  refuse, invalid, note_all,
}

-- the deltas of `emit_text`
unfoldable pub told_deltas : {Real : Type 0} → List ℕ → Events → List (Event Real)
told_deltas id [] = []
told_deltas id ((channel, text) ∷ deltas) = Event.delta id channel text ∷ told_deltas id deltas

module _ {Real S : Type 0} (calls : Calls Real S) where
  -- the snapshot of a completed chat
  abbrev pub chat_snapshot : TurnStatus → Prompt Real → ChatTurn → S → Option (ChatSnapshot Real)
  chat_snapshot TurnStatus.completed prompt turn s = some (record {
    header = prompt.header;
    messages = prompt.messages;
    message = turn.ended.message;
    tape = canonical_tape (calls.tape s);
    segments = prompt.segments;
    segment_tokens = drop prompt.assistant_start prompt.tokens ++ turn.tokens;
  })
  chat_snapshot other prompt turn s = none

  -- the events that are returned: those published before come in front unless they were emitted
  unfoldable pub conclude_chat :
      List ℕ → Prompt Real → List (Event Real) → Result ChatTurn → S → Result (List (Event Real))
  conclude_chat id prompt published (raise session_busy) s =
      ok (Event.failed id Failure.runtime_busy ∷ [])
  conclude_chat id prompt published (raise (value_error message numbers)) s =
      ok (Event.failed id (Failure.invalid_request (value_error message numbers)) ∷ [])
  conclude_chat id prompt published (raise err) s = raise err
  conclude_chat id prompt published (ok turn) s =
      let size = length prompt.tokens in
      let usage : Usage = record {
        prompt_tokens = size;
        completion_tokens = length turn.tokens;
        total_tokens = size + length turn.tokens;
        cached_tokens = turn.cached_tokens;
      } in
      let event =
        Event.turned id turn.ended.status usage turn.ended.message turn.tokens
          (chat_snapshot turn.ended.status prompt turn s) in
      ok ((if calls.emits then [] else published) ++ event ∷ [])

  -- `run_turn` between `_begin` and `_end`, which runs whatever is raised
  unfoldable pub run_chat :
      (ℕ → Bool)
      → List (List ℕ)
      → List ℕ
      → Prompt Real
      → Worker S
      → Result (List (Event Real)) × Worker S
  unfolding begin end_turn note_all told_deltas conclude_chat
  run_chat later arrived id prompt w =
      let w1 = begin id w in
      let ((deltas, r), s) =
        calls.run_turn prompt id (λ n. is_set w1.cancel || later n) w1.session in
      (
        conclude_chat id prompt (Event.started id (length prompt.tokens) ∷ told_deltas id deltas) r
            s,
        end_turn (note_all arrived (record w1 { session = s })),
      )

  unfoldable pub chat_prepared :
      (ℕ → Bool)
      → List (List ℕ)
      → List ℕ
      → Result (Prompt Real)
      → Worker S
      → Result (List (Event Real)) × Worker S
  unfolding run_chat
  chat_prepared later arrived id (ok prompt) w = run_chat later arrived id prompt w
  chat_prepared later arrived id (raise (value_error message numbers)) w =
      refuse id (Failure.invalid_request (value_error message numbers)) w
  chat_prepared later arrived id (raise err) w = (raise err, w)

  -- `_chat`
  unfoldable pub chat :
      (ℕ → Bool)
      → List (List ℕ)
      → List ℕ
      → Members Real
      → Option (Json Real)
      → Worker S
      → Result (List (Event Real)) × Worker S
  unfolding chat_prepared
  chat later arrived id request parent w =
      if calls.has_tokenizer
      then chat_prepared later arrived id (calls.prepare request parent w.session) w
      else refuse id (invalid "chat rendering is not available") w
