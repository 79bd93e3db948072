-- ===== src/Worker/State.antt =====
-- The state of `Worker` in engine/forward/worker.py, what it calls and tells, and what its reader thread
-- does to it: `_begin`, `_end`, `note_cancel` and `request_stop`.
use qwarz.Base.{
  ℕ, String, Bool, ◌&&◌, true, false, Option, none, some, List, [], ◌∷◌, if◌then◌else◌,
}
use qwarz.Base.Int.{ℤ}
use qwarz.Base.Outcome.{Result, ok, Error, value_error}
use qwarz.Cycle.Suffix.{same}
use qwarz.Parsing.Json.{Json, Jsons, Members}
use qwarz.Session.Turns.{Status, Generated}
use qwarz.Parsing.Feed.{Channel, Events}
use qwarz.Parsing.Messages.{Message}
use qwarz.Parsing.Finish.{Answer}
use qwarz.Chat.Request.{Prepared}
use qwarz.Chat.Finish.{TurnStatus, Ended}

-- an error of a terminal event, with its code and its HTTP status
pub data Failure : Type 0 where
  invalid_request : Error → Failure
  runtime_busy : Failure

pub record Usage : Type 0 where
  pub prompt_tokens : ℕ
  pub completion_tokens : ℕ
  pub total_tokens : ℕ
  pub cached_tokens : ℕ

-- the history of a completed answer, without the empty message put behind it, and the tape
pub record Snapshot (Real : Type 0) : Type 0 where
  pub messages : List (Json Real)
  pub tape : List ℕ

-- the snapshot of a completed chat: its history with the message, and the segments with the last one
pub record ChatSnapshot (Real : Type 0) : Type 0 where
  pub header : List ℕ
  pub messages : List Message
  pub message : Answer
  pub tape : List ℤ
  pub segments : List (Json Real)
  pub segment_tokens : List ℕ

-- What the worker tells. `turned` ends a chat, `started` and `delta` come before.
pub data Event (Real : Type 0) : Type 0 where
  failed : List ℕ → Failure → Event Real
  answered : List ℕ → Status → Usage → List ℕ → Option (Snapshot Real) → Event Real
  promoted : Bool → Event Real
  stop : Event Real
  started : List ℕ → ℕ → Event Real
  delta : List ℕ → Channel → List ℕ → Event Real
  turned : List ℕ → TurnStatus → Usage → Answer → List ℕ → Option (ChatSnapshot Real) → Event Real

-- The session, the id that is active, its cancel event and whether it is set, and the id of a cancel
-- that came early.
pub record Worker (S : Type 0) : Type 0 where
  pub session : S
  pub active : Option (List ℕ)
  pub cancel : Option Bool
  pub pending_cancel : Option (List ℕ)

-- What `run_turn` returns, its metrics left out.
pub record ChatTurn : Type 0 where
  pub ended : Ended
  pub tokens : List ℕ
  pub cached_tokens : ℕ

-- a prepared chat; an image is its hash and its tokens
abbrev pub Prompt : Type 0 → Type 0
Prompt Real = Prepared Real (List ℕ × List ℕ)

-- What the worker calls: `Session.generate` with raw ids, a budget and the polls of the cancel
-- event, `Session.tape`, `promotion_allowed`; and for a chat, whether there is a tokenizer,
-- `prepare_chat`, whose TypeError, KeyError or IndexError counts as a ValueError, and `run_turn` with
-- the hooks of `_vision_hooks`, as the deltas that it publishes and its result. `emits` says whether
-- `push` is given an `emit`, which then takes what is published before the terminal event.
pub record Calls (Real S : Type 0) : Type 0 where
  pub generate : Jsons Real → ℕ → (ℕ → Bool) → S → Result Generated × S
  pub tape : S → List ℕ
  pub promotion_allowed : Option (Json Real) → Bool
  pub emits : Bool
  pub has_tokenizer : Bool
  pub prepare : Members Real → Option (Json Real) → S → Result (Prompt Real)
  pub run_turn : Prompt Real → List ℕ → (ℕ → Bool) → S → (Events × Result ChatTurn) × S

-- a line as `json.loads` reads it
pub data Line (Real : Type 0) : Type 0 where
  too_long : Line Real
  not_json : Line Real
  command : Json Real → Line Real

abbrev pub is_id : Option (List ℕ) → List ℕ → Bool
is_id none id = false
is_id (some key) id = same key id

abbrev pub set_event : Option Bool → Option Bool
set_event none = none
set_event (some b) = some true

abbrev pub has_event : Option Bool → Bool
has_event none = false
has_event (some b) = true

abbrev pub is_set : Option Bool → Bool
is_set none = false
is_set (some b) = b

module _ {S : Type 0} where
  unfoldable pub begin_with : Bool → List ℕ → Worker S → Worker S
  begin_with true id w = record w { cancel = some true; pending_cancel = none; active = some id }
  begin_with false id w = record w { cancel = some false; active = some id }

  -- `_begin`
  unfoldable pub begin : List ℕ → Worker S → Worker S
  unfolding begin_with
  begin id w = begin_with (is_id w.pending_cancel id) id w

  -- `_end`
  unfoldable pub end_turn : Worker S → Worker S
  end_turn w = record w { active = none; cancel = none }

  unfoldable pub note_cancel : List ℕ → Worker S → Worker S
  note_cancel id w =
      if is_id w.active id && has_event w.cancel
      then record w { cancel = some true }
      else record w { pending_cancel = some id }

  unfoldable pub request_stop : Worker S → Worker S
  request_stop w = record w { cancel = set_event w.cancel }

-- an answer that is one terminal event
abbrev pub refuse :
    {Real S : Type 0} → List ℕ → Failure → Worker S → Result (List (Event Real)) × Worker S
refuse id failure w = (ok (failed id failure ∷ []), w)

abbrev pub invalid : String → Failure
invalid message = invalid_request (value_error message [])

-- the cancels that come in while a generate runs
unfoldable pub note_all : {S : Type 0} → List (List ℕ) → Worker S → Worker S
unfolding note_cancel
note_all [] w = w
note_all (id ∷ ids) w = note_all ids (note_cancel id w)
