-- ===== src/Parsing/Messages.antt =====
-- `validate_messages` of src/qwasar_runtime/parsing.py. What `json` reads and writes is a parameter. A
-- dictionary or a list as a key raises a TypeError in the source and a ValueError here.
pub mod NewCalls
pub mod Protocol
use qwarz.Base.{
  ℕ, zero, suc, Bool, ◌&&◌, ◌||◌, not, true, false, Option, none, some, List, [], ◌∷◌, ◌++◌, length,
  leb, ◌==◌, if◌then◌else◌,
}
use qwarz.Base.Outcome.{Result, ok, raise, Error, value_error, ◌>>=◌, ◌>>◌}
use qwarz.Base.Int.{ℤ}
use qwarz.Base.Texts.{codes}
use qwarz.Cycle.Suffix.{same}
use qwarz.Parsing.Json.{Json, Jsons, Members, items, keys, get_member, or_else, contains, all_of}
use qwarz.Parsing.Schema.{require}
use qwarz.Parsing.Tools.{is_name, is_word, has_word, validate_tools}
use qwarz.Parsing.Parts.{Role, Content, plain, normalize_parts}

pub record Call : Type 0 where
  pub id : List ℕ
  pub name : List ℕ
  pub arguments : List ℕ

-- a normalized message, by its role
pub data Message : Type 0 where
  system_message : Content → Message
  user_message : Content → Message
  assistant_message : Content → List ℕ → List Call → Message
  tool_message : Content → List ℕ → Message

-- the calls that wait for their results, by id, with the function's name
abbrev pub Pending : Type 0
Pending = List (List ℕ × List ℕ)

-- `pending.get`
unfoldable pub pending_name : List ℕ → Pending → Option (List ℕ)
pending_name id [] = none
pending_name id ((key, name) ∷ pending) =
    let rest = pending_name id pending in if same id key then some name else rest

-- `del pending[call_id]`
unfoldable pub drop_pending : List ℕ → Pending → Pending
drop_pending id [] = []
drop_pending id ((key, name) ∷ pending) =
    let rest = drop_pending id pending in if same id key then pending else (key, name) ∷ rest

abbrev pub pending_calls : List Call → Pending
pending_calls [] = []
pending_calls (call ∷ calls) = (call.id, call.name) ∷ pending_calls calls

abbrev pub call_ids : List Call → List (List ℕ)
call_ids [] = []
call_ids (call ∷ calls) = call.id ∷ call_ids calls

-- the calls that wait and the ids that were used
pub record Open : Type 0 where
  pub pending : Pending
  pub used : List (List ℕ)

abbrev pub nothing_open : Open
nothing_open = record { pending = []; used = [] }

abbrev pub nothing_pending : Pending → Bool
nothing_pending [] = true
nothing_pending (call ∷ pending) = false

abbrev pub is_user_message : Message → Bool
is_user_message (user_message content) = true
is_user_message _ = false

unfoldable pub any_user : List Message → Bool
any_user [] = false
any_user (message ∷ messages) = is_user_message message || any_user messages

-- the role, with `system` at the first place only
unfoldable pub role_named : Bool → List ℕ → Result Role
role_named first name =
    if same name (codes "system")
    then (if first
        then ok Role.system_role
        else raise (value_error "invalid message role or system position" []))
    else (if same name (codes "user")
        then ok Role.user_role
        else (if same name (codes "assistant")
            then ok Role.assistant_role
            else (if same name (codes "tool")
                then ok Role.tool_role
                else raise (value_error "invalid message role or system position" []))))

module _ {Real : Type 0} where
  unfoldable pub role_of : Bool → Option (Json Real) → Result Role
  unfolding role_named
  role_of first (some (Json.text name)) = role_named first name
  role_of first other = raise (value_error "invalid message role or system position" [])

  unfoldable pub content_of : Role → Option (Json Real) → Result Content
  unfolding normalize_parts
  content_of role none = ok (plain [])
  content_of role (some Json.null) = ok (plain [])
  content_of role (some (Json.text t)) = ok (plain t)
  content_of role (some (Json.array parts)) = normalize_parts role (items parts)
  content_of role (some other) = raise (value_error "message content must be text" [])

  abbrev pub names_call : List ℕ → Option (Json Real) → Bool
  names_call name given = has_word true name given

  -- a tool's result for the call found by its id
  unfoldable pub answer_named :
      Content → List ℕ → Members Real → Open → Option (List ℕ) → Result (Message × Open)
  unfolding drop_pending get_member
  answer_named content id message waiting none =
      raise (value_error "tool result has no pending call" [])
  answer_named content id message waiting (some name) =
      if names_call name (get_member (codes "name") message)
      then ok
          (tool_message content id, record waiting { pending = drop_pending id waiting.pending })
      else raise (value_error "tool result name mismatch" [])

  unfoldable pub answer_call :
      Content → Option (Json Real) → Members Real → Open → Result (Message × Open)
  unfolding pending_name answer_named
  answer_call content (some (Json.text id)) message waiting =
      answer_named content id message waiting (pending_name id waiting.pending)
  answer_call content other message waiting =
      raise (value_error "tool result has no pending call" [])

  -- `function.get("name", "")` with the call's id: an id that is new and a valid name
  unfoldable pub call_key :
      List (List ℕ) → Option (Json Real) → Option (Json Real) → Result (List ℕ × List ℕ)
  unfolding contains is_name
  call_key used (some (Json.text id)) (some (Json.text name)) =
      if leb 1 (length id) && not (contains id used) && is_name name
      then ok (id, name)
      else raise (value_error "invalid or duplicate tool call" [])
  call_key used id name = raise (value_error "invalid or duplicate tool call" [])

  unfoldable pub function_of_call : Option (Json Real) → Result (Members Real)
  function_of_call none = ok Members.end
  function_of_call (some (Json.object function)) = ok function
  function_of_call (some other) = raise (value_error "tool call function must be an object" [])

  -- `message.get("tool_calls")`
  unfoldable pub listed_calls : Option (Json Real) → Result (List (Json Real))
  listed_calls none = ok []
  listed_calls (some Json.null) = ok []
  listed_calls (some (Json.array calls)) = ok (items calls)
  listed_calls (some other) = raise (value_error "tool_calls must be an array" [])

abbrev pub call_of : List ℕ × List ℕ → List ℕ → Result Call
call_of key arguments = ok (record { id = key.0; name = key.1; arguments = arguments })

abbrev pub asked : Content → List ℕ → Open → List Call → Result (Message × Open)
asked content reasoning waiting calls = ok (
  assistant_message content reasoning calls,
  record { pending = pending_calls calls; used = waiting.used ++ call_ids calls },
)

unfoldable pub close_messages : List Message × Open → Result (List Message)
unfolding any_user
close_messages (output, waiting) =
    if nothing_pending waiting.pending && any_user output
    then ok output
    else raise (value_error "messages need a user query and all pending tool results" [])

-- What `json` does: `parse_json` reads a text and `canonical` writes a value, and a number may be zero.
pub record JsonText (Real : Type 0) : Type 0 where
  pub parse_json : List ℕ → Result (Json Real)
  pub canonical : Json Real → Result (List ℕ)
  pub is_zero : Real → Bool

module _ {Real : Type 0} (json : JsonText Real) where
  -- `message.get("reasoning_content") or ""`
  unfoldable pub reasoning_of : Option (Json Real) → Result (List ℕ)
  reasoning_of none = ok []
  reasoning_of (some Json.null) = ok []
  reasoning_of (some (Json.boolean false)) = ok []
  reasoning_of (some (Json.integer (ℤ.pos zero))) = ok []
  reasoning_of (some (Json.real r)) =
      if json.is_zero r then ok [] else raise (value_error "reasoning_content must be text" [])
  reasoning_of (some (Json.text t)) = ok t
  reasoning_of (some (Json.array Jsons.nil)) = ok []
  reasoning_of (some (Json.object Members.end)) = ok []
  reasoning_of (some other) = raise (value_error "reasoning_content must be text" [])

  -- the arguments as text, from a text that is read first or from a dictionary
  unfoldable pub dumped : Json Real → Result (List ℕ)
  unfolding is_name all_of
  dumped (Json.object arguments) =
      require (all_of is_name (keys arguments)) (value_error "invalid historical parameter name" [])
      >> json.canonical (Json.object arguments)
  dumped other = raise (value_error "tool arguments must be an object" [])

  unfoldable pub arguments_of : Option (Json Real) → Result (List ℕ)
  unfolding dumped
  arguments_of none = json.parse_json (codes "{}") >>= dumped
  arguments_of (some (Json.text t)) = json.parse_json t >>= dumped
  arguments_of (some other) = dumped other

  unfoldable pub finish_call : Members Real → List ℕ × List ℕ → Result Call
  unfolding arguments_of get_member
  finish_call function key = arguments_of (get_member (codes "arguments") function) >>= call_of key

  unfoldable pub read_function : List (List ℕ) → Option (Json Real) → Members Real → Result Call
  unfolding call_key get_member finish_call
  read_function used id function =
      call_key used id (get_member (codes "name") function) >>= finish_call function

  unfoldable pub read_call : List (List ℕ) → Json Real → Result Call
  unfolding function_of_call get_member read_function
  read_call used (Json.object call) =
      function_of_call (get_member (codes "function") call)
      >>= read_function used (get_member (codes "id") call)
  read_call used other = raise (value_error "tool call must be an object" [])

  -- the loop over the calls, each of which takes its id
  unfoldable pub read_calls : List (List ℕ) → List (Json Real) → Result (List Call)
  unfolding read_call
  read_calls used [] = ok []
  read_calls used (call ∷ calls) = read_call used call >>= λ first.
      (read_calls (used ++ first.id ∷ []) calls >>= λ rest. ok (first ∷ rest))

  unfoldable pub read_assistant : Content → Members Real → Open → List ℕ → Result (Message × Open)
  unfolding listed_calls read_calls get_member
  read_assistant content message waiting reasoning =
      listed_calls (get_member (codes "tool_calls") message) >>= λ calls.
      (read_calls waiting.used calls >>= asked content reasoning waiting)

  -- what a message other than a tool's result needs: no call that waits
  unfoldable pub read_role : Members Real → Open → Role → Content → Result (Message × Open)
  unfolding answer_call get_member reasoning_of read_assistant
  read_role message waiting Role.tool_role content =
      answer_call content (get_member (codes "tool_call_id") message) message waiting
  read_role message waiting Role.assistant_role content =
      if nothing_pending waiting.pending
      then (reasoning_of (get_member (codes "reasoning_content") message)
          >>= read_assistant content message waiting)
      else raise (value_error "all tool results must precede the next message" [])
  read_role message waiting Role.user_role content =
      if nothing_pending waiting.pending
      then ok (user_message content, waiting)
      else raise (value_error "all tool results must precede the next message" [])
  read_role message waiting Role.system_role content =
      if nothing_pending waiting.pending
      then ok (system_message content, waiting)
      else raise (value_error "all tool results must precede the next message" [])

  unfoldable pub read_content : Members Real → Open → Role → Result (Message × Open)
  unfolding content_of get_member read_role
  read_content message waiting role =
      content_of role (get_member (codes "content") message) >>= read_role message waiting role

  -- the body of the loop
  unfoldable pub read_message : Bool → Open → Json Real → Result (Message × Open)
  unfolding role_of get_member read_content
  read_message first waiting (Json.object message) =
      role_of first (get_member (codes "role") message) >>= read_content message waiting
  read_message first waiting other = raise (value_error "messages must be objects" [])

  -- the loop, with what is open at its end
  unfoldable pub read_messages : Bool → Open → List (Json Real) → Result (List Message × Open)
  unfolding read_message
  read_messages first waiting [] = ok ([], waiting)
  read_messages first waiting (message ∷ messages) = read_message first waiting message >>= λ step.
      (read_messages false step.1 messages >>= λ rest. ok (step.0 ∷ rest.0, rest.1))

  unfoldable pub check_messages : Json Real → Result (List Message)
  unfolding read_messages close_messages
  check_messages (Json.array (Jsons.cons message messages)) =
      read_messages true nothing_open (message ∷ items messages) >>= close_messages
  check_messages other = raise (value_error "messages must be a nonempty array" [])

  unfoldable pub validate_messages : (List ℕ → Bool) → Json Real → Json Real → Result (List Message)
  unfolding validate_tools check_messages
  validate_messages compiles messages tools =
      validate_tools compiles tools >>= λ functions. check_messages messages
