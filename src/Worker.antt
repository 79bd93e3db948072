-- ===== src/Worker.antt =====
-- `Worker` of engine/forward/worker.py: the commands of the JSONL protocol, one at a time. The reader
-- thread may set the cancel event while a generate runs, so when it does is an argument.
pub mod State
pub mod Chat
pub mod Idle
pub mod Early
use qwarz.Base.{
  ℕ, String, zero, suc, ◌+◌, Bool, ◌||◌, ◌&&◌, not, true, false, Option, none, some, List, [], ◌∷◌,
  ◌++◌, length, leb, ltb, if◌then◌else◌,
}
use qwarz.Base.Int.{ℤ}
use qwarz.Base.Outcome.{Result, ok, raise, Error, value_error, session_busy}
use qwarz.Base.Texts.{codes}
use qwarz.Cycle.Suffix.{same}
use qwarz.Parsing.Json.{Json, Jsons, Members, items, get_member}
use qwarz.Session.Turns.{Status, Generated}
use qwarz.Worker.State.{
  invalid_request, runtime_busy, failed, answered, promoted, stop, too_long, not_json, command,
  Failure, Usage, Snapshot, Event, Worker, Calls, Line, is_id, set_event, has_event, is_set,
  begin_with, begin, end_turn, note_cancel, request_stop, refuse, invalid, note_all,
}
use qwarz.Worker.Chat.{chat}

abbrev pub prior_messages : {Real : Type 0} → Option (Json Real) → List (Json Real)
prior_messages (some (Json.array messages)) = items messages
prior_messages _ = []

-- `payload.get("op")`; what is no text is no operation, as the empty text
abbrev pub operation_of : {Real : Type 0} → Option (Json Real) → List ℕ
operation_of (some (Json.text operation)) = operation
operation_of _ = []

-- a value that is a list, or a dictionary
abbrev pub list_of : {Real : Type 0} → Option (Json Real) → Option (Jsons Real)
list_of (some (Json.array values)) = some values
list_of _ = none

abbrev pub object_of : {Real : Type 0} → Option (Json Real) → Option (Members Real)
object_of (some (Json.object members)) = some members
object_of _ = none

-- `request.get("max_new", 1)`, if it is a positive int
unfoldable pub budget_of : {Real : Type 0} → Option (Json Real) → Option ℕ
budget_of none = some 1
budget_of (some (Json.integer (ℤ.pos (suc n)))) = some (suc n)
budget_of (some other) = none

module _ {Real S : Type 0} (calls : Calls Real S) where
  abbrev pub snapshot_of : Status → Members Real → S → Option (Snapshot Real)
  snapshot_of Status.completed request s = some (record {
    messages = prior_messages (get_member (codes "messages") request);
    tape = calls.tape s;
  })
  snapshot_of Status.cancelled request s = none

  -- the terminal event for what `generate` gives; another exception goes on
  unfoldable pub conclude_generate :
      List ℕ → Members Real → ℕ → Result Generated × S → Result (List (Event Real))
  unfolding get_member
  conclude_generate id request prompt (raise session_busy, s) = ok (failed id runtime_busy ∷ [])
  conclude_generate id request prompt (raise (value_error message numbers), s) =
      ok (failed id (invalid_request (value_error message numbers)) ∷ [])
  conclude_generate id request prompt (raise err, s) = raise err
  conclude_generate id request prompt (ok result, s) =
      let usage : Usage = record {
        prompt_tokens = prompt;
        completion_tokens = length result.tokens;
        total_tokens = prompt + length result.tokens;
        cached_tokens = result.cached_tokens;
      } in
      ok (answered id result.status usage result.tokens (snapshot_of result.status request s) ∷ [])

  -- `generate` between `_begin` and `_end`, which runs whatever is raised. `later` says at which
  -- polls the event is set by a cancel that comes in meanwhile, and `arrived` has those cancels.
  unfoldable pub run_generate :
      (ℕ → Bool)
      → List (List ℕ)
      → List ℕ
      → Members Real
      → Jsons Real
      → ℕ
      → Worker S
      → Result (List (Event Real)) × Worker S
  unfolding begin end_turn note_all conclude_generate
  run_generate later arrived id request ids max_new w =
      let w1 = begin id w in
      let (r, s) = calls.generate ids max_new (λ n. is_set w1.cancel || later n) w1.session in
      (
        conclude_generate id request (length (items ids)) (r, s),
        end_turn (note_all arrived (record w1 { session = s })),
      )

  unfoldable pub generate_ids :
      (ℕ → Bool)
      → List (List ℕ)
      → List ℕ
      → Members Real
      → Jsons Real
      → Option ℕ
      → Worker S
      → Result (List (Event Real)) × Worker S
  unfolding run_generate
  generate_ids later arrived id request ids none w =
      refuse id (invalid "generate needs a positive max_new") w
  generate_ids later arrived id request ids (some max_new) w =
      run_generate later arrived id request ids max_new w

  -- a request of ids, or of messages
  unfoldable pub generate_for :
      (ℕ → Bool)
      → List (List ℕ)
      → List ℕ
      → Members Real
      → Option (Json Real)
      → Option (Jsons Real)
      → Option (Jsons Real)
      → Worker S
      → Result (List (Event Real)) × Worker S
  unfolding generate_ids chat budget_of get_member
  generate_for later arrived id request parent (some ids) messages w =
      generate_ids later arrived id request ids (budget_of (get_member (codes "max_new") request)) w
  generate_for later arrived id request parent none (some messages) w =
      chat calls later arrived id request parent w
  generate_for later arrived id request parent none none w =
      refuse id (invalid "generate request needs an ids list") w

  unfoldable pub push_request :
      (ℕ → Bool)
      → List (List ℕ)
      → List ℕ
      → Option (Json Real)
      → Option (Members Real)
      → Worker S
      → Result (List (Event Real)) × Worker S
  unfolding generate_for get_member
  push_request later arrived id parent (some request) w =
      generate_for later arrived id request parent (list_of (get_member (codes "ids") request))
        (list_of (get_member (codes "messages") request)) w
  push_request later arrived id parent none w =
      refuse id (invalid "generate request needs an ids list") w

  -- `if self.active is not None`
  unfoldable pub push_generate :
      (ℕ → Bool)
      → List (List ℕ)
      → List ℕ
      → Members Real
      → Option (List ℕ)
      → Worker S
      → Result (List (Event Real)) × Worker S
  unfolding push_request get_member
  push_generate later arrived id payload (some active) w = refuse id runtime_busy w
  push_generate later arrived id payload none w =
      push_request later arrived id (get_member (codes "parent") payload)
        (object_of (get_member (codes "request") payload)) w

  unfoldable pub push_operation :
      (ℕ → Bool)
      → List (List ℕ)
      → List ℕ
      → Members Real
      → List ℕ
      → Worker S
      → Result (List (Event Real)) × Worker S
  unfolding request_stop note_cancel push_generate get_member
  push_operation later arrived id payload operation w =
      if same operation (codes "shutdown")
      then (ok (stop ∷ []), request_stop w)
      else (if same operation (codes "cancel")
          then (ok [], note_cancel id w)
          else (if same operation (codes "promote")
              then (
                ok (promoted (calls.promotion_allowed (get_member (codes "report") payload)) ∷ []),
                w,
              )
              else (if not (same operation (codes "generate"))
                    || ltb (length id) 1
                    || ltb 256 (length id)
                  then refuse id (invalid "generate needs a nonempty id of at most 256 characters")
                      w
                  else push_generate later arrived id payload w.active w)))

  -- the id is a string, empty if it is left out
  unfoldable pub push_id :
      (ℕ → Bool)
      → List (List ℕ)
      → Members Real
      → Option (Json Real)
      → Worker S
      → Result (List (Event Real)) × Worker S
  unfolding push_operation get_member
  push_id later arrived payload none w =
      push_operation later arrived [] payload (operation_of (get_member (codes "op") payload)) w
  push_id later arrived payload (some (Json.text id)) w =
      push_operation later arrived id payload (operation_of (get_member (codes "op") payload)) w
  push_id later arrived payload (some other) w = refuse [] (invalid "request id must be a string") w

  -- `push`
  unfoldable pub push :
      (ℕ → Bool) → List (List ℕ) → Line Real → Worker S → Result (List (Event Real)) × Worker S
  unfolding push_id get_member
  push later arrived too_long w =
      (ok (stop ∷ failed [] (invalid "worker protocol line exceeds 32 MiB") ∷ []), w)
  push later arrived not_json w = refuse [] (invalid "protocol command is not JSON") w
  push later arrived (command (Json.object payload)) w =
      push_id later arrived payload (get_member (codes "id") payload) w
  push later arrived (command other) w = refuse [] (invalid "protocol command must be an object") w
