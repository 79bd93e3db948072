-- ===== src/Parsing/Messages/Protocol.antt =====
-- The order of tool calls and results in the messages that src/qwasar_runtime/parsing.py accepts.
use qwarz.Base.{
  ℕ, ◌≡◌, refl, ap, ◌∙◌, subst, inl, inr, Bool, ◌&&◌, true, false, Option, none, some, List, [],
  ◌∷◌, ◌++◌, arith, Bool-cases, if◌then◌else◌,
}
use qwarz.Base.Outcome.{Result, ok, raise, Error, ◌>>=◌}
use qwarz.Base.Texts.{codes}
use qwarz.Parsing.Json.{Json, Jsons, Members, items, get_member}
use qwarz.Parsing.Tools.{validate_tools}
use qwarz.Parsing.Tools.Declared.{bound, ok-injective}
use qwarz.Parsing.Parts.{Role, Content}
use qwarz.Parsing.Messages.NewCalls.{NewCalls, read_calls-NewCalls}
use qwarz.Parsing.Messages.{
  Message, Pending, pending_name, drop_pending, pending_calls, call_ids, Open, nothing_pending,
  any_user, role_of, content_of, names_call, answer_named, answer_call, listed_calls, JsonText,
  reasoning_of, read_calls, asked, read_assistant, read_role, read_content, read_message,
  read_messages, close_messages, nothing_open, check_messages, validate_messages,
}

-- What follows `pending` calls that wait and `used` ids, to an end where no call waits: a tool's result
-- takes its call, every other message stands where none waits, and an assistant opens its own.
abbrev pub Protocol : Pending → List (List ℕ) → List Message → Type 0
Protocol pending used [] = pending ≡ []
Protocol pending used (Message.system_message content ∷ rest) =
    (pending ≡ []) × Protocol [] used rest
Protocol pending used (Message.user_message content ∷ rest) = (pending ≡ []) × Protocol [] used rest
Protocol pending used (Message.assistant_message content reasoning calls ∷ rest) =
    (pending ≡ [])
    × NewCalls used calls
    × Protocol (pending_calls calls) (used ++ call_ids calls) rest
Protocol pending used (Message.tool_message content id ∷ rest) =
    ((name : List ℕ) × (pending_name id pending ≡ some name))
    × Protocol (drop_pending id pending) used rest

-- one message takes what is open to what is open behind it
abbrev Step : Open → Message → Open → Type 0
Step before message after =
    (rest : List Message)
    → Protocol after.pending after.used rest
    → Protocol before.pending before.used (message ∷ rest)

nothing_pending-eq : (pending : Pending) → nothing_pending pending ≡ true → pending ≡ []
nothing_pending-eq [] h = refl
nothing_pending-eq (call ∷ pending) h = absurd (cc)

abbrev returned : Message → Open → Result (Message × Open)
returned message after = ok (message, after)

-- what is returned is the message and what is open behind it
Step-returned :
    (before after after' : Open) (m m' : Message)
    → returned m' after' ≡ returned m after
    → Step before m' after'
    → Step before m after
Step-returned before after after' m m' h step =
    let same_message : m' ≡ m = ap (λ r. r.0) (ok-injective (m', after') (m, after) h) in
    let same_open : after' ≡ after = ap (λ r. r.1) (ok-injective (m', after') (m, after) h) in
    subst (λ x. Step before x after) same_message (subst (λ w. Step before m' w) same_open step)

module _ {Real : Type 0} where
  answer_named-Step :
      (content : Content) (id : List ℕ) (message : Members Real) (before after : Open) (m : Message)
      (o : Option (List ℕ))
      → pending_name id before.pending ≡ o
      → answer_named content id message before o ≡ returned m after
      → Step before m after
  unfolding answer_named
  answer_named-Step content id message before after m none has h = absurd (cc)
  answer_named-Step content id message before after m (some name) has h =
      elim (Bool-cases (names_call name (get_member (codes "name") message))) [
        | inl same ↦
            let after' = record before { pending = drop_pending id before.pending } in
            let same_result : returned (Message.tool_message content id) after' ≡ returned m after =
              ground (arith, same, h) in
            Step-returned before after after' m (Message.tool_message content id) same_result
              (λ rest p. ((name, has), p))
        | inr other ↦ absurd (ground (arith, other, h))
      ]

  answer_call-Step :
      (content : Content) (o : Option (Json Real)) (message : Members Real) (before after : Open)
      (m : Message)
      → answer_call content o message before ≡ returned m after
      → Step before m after
  unfolding answer_call
  answer_call-Step content (some (Json.text id)) message before after m h rest p =
      answer_named-Step content id message before after m (pending_name id before.pending) refl h
        rest p
  answer_call-Step content none message before after m h rest p = absurd (cc)
  answer_call-Step content (some Json.null) message before after m h rest p = absurd (cc)
  answer_call-Step content (some (Json.boolean b)) message before after m h rest p = absurd (cc)
  answer_call-Step content (some (Json.integer b)) message before after m h rest p = absurd (cc)
  answer_call-Step content (some (Json.real b)) message before after m h rest p = absurd (cc)
  answer_call-Step content (some (Json.array b)) message before after m h rest p = absurd (cc)
  answer_call-Step content (some (Json.object b)) message before after m h rest p = absurd (cc)

module _ {Real : Type 0} (json : JsonText Real) where
  read_assistant-Step :
      (content : Content) (message : Members Real) (before : Open) (reasoning : List ℕ)
      (after : Open) (m : Message)
      → before.pending ≡ []
      → read_assistant json content message before reasoning ≡ returned m after
      → Step before m after
  unfolding read_assistant
  read_assistant-Step content message before reasoning after m free h =
      let (values, _, h1) =
        bound (listed_calls (get_member (codes "tool_calls") message))
          (λ calls. (read_calls json before.used calls >>= asked content reasoning before))
          (m, after) h in
      let (calls, read, h2) =
        bound (read_calls json before.used values) (asked content reasoning before) (m, after) h1 in
      let after' : Open = record {
        pending = pending_calls calls;
        used = before.used ++ call_ids calls;
      } in
      Step-returned before after after' m (Message.assistant_message content reasoning calls) h2
        (λ rest p. (free, read_calls-NewCalls json values before.used calls read, p))

  -- where a call waits, nothing but a tool's result is returned
  guarded-Step :
      (before after : Open) (m : Message) (action : Result (Message × Open)) (err : Error)
      → (if nothing_pending before.pending then action else raise err) ≡ returned m after
      → (before.pending ≡ [] → action ≡ returned m after → Step before m after)
      → Step before m after
  guarded-Step before after m action err h then_step =
      elim (Bool-cases (nothing_pending before.pending)) [
        | inl free ↦ then_step (nothing_pending-eq before.pending free) (ground (arith, free, h))
        | inr waiting ↦ absurd (ground (arith, waiting, h))
      ]

  read_role-Step :
      (message : Members Real) (before : Open) (role : Role) (content : Content) (after : Open)
      (m : Message)
      → read_role json message before role content ≡ returned m after
      → Step before m after
  unfolding read_role
  read_role-Step message before Role.tool_role content after m h =
      answer_call-Step content (get_member (codes "tool_call_id") message) message before after m h
  read_role-Step message before Role.assistant_role content after m h =
      guarded-Step before after m _ _ h (λ free h1.
        let (reasoning, _, h2) =
          bound (reasoning_of json (get_member (codes "reasoning_content") message))
            (read_assistant json content message before) (m, after) h1 in
        read_assistant-Step content message before reasoning after m free h2)
  read_role-Step message before Role.user_role content after m h =
      guarded-Step before after m _ _ h (λ free h1.
        Step-returned before after before m (Message.user_message content) h1
          (λ rest p. (free, subst (λ w. Protocol w before.used rest) free p)))
  read_role-Step message before Role.system_role content after m h =
      guarded-Step before after m _ _ h (λ free h1.
        Step-returned before after before m (Message.system_message content) h1
          (λ rest p. (free, subst (λ w. Protocol w before.used rest) free p)))

  read_message-Step :
      (first : Bool) (before : Open) (value : Json Real) (after : Open) (m : Message)
      → read_message json first before value ≡ returned m after
      → Step before m after
  unfolding read_message read_content
  read_message-Step first before (Json.object message) after m h =
      let (role, _, h1) =
        bound (role_of first (get_member (codes "role") message)) (read_content json message before)
          (m, after) h in
      let (content, _, h2) =
        bound (content_of role (get_member (codes "content") message))
          (read_role json message before role) (m, after) h1 in
      read_role-Step message before role content after m h2
  read_message-Step first before Json.null after m h = absurd (cc)
  read_message-Step first before (Json.boolean b) after m h = absurd (cc)
  read_message-Step first before (Json.integer b) after m h = absurd (cc)
  read_message-Step first before (Json.real b) after m h = absurd (cc)
  read_message-Step first before (Json.text b) after m h = absurd (cc)
  read_message-Step first before (Json.array b) after m h = absurd (cc)

  abbrev ReadResult : Result (List Message × Open) → List Message → Open → Type 0
  ReadResult r messages end = r ≡ ok (messages, end)

  read_messages-Protocol :
      (values : List (Json Real)) (first : Bool) (before end : Open) (messages : List Message)
      → ReadResult (read_messages json first before values) messages end
      → end.pending ≡ []
      → Protocol before.pending before.used messages
  unfolding read_messages
  read_messages-Protocol [] first before end messages h closed =
      let none_read : List Message × Open = ([], before) in
      let same_end : none_read ≡ (messages, end) = ok-injective none_read (messages, end) h in
      subst (λ r. Protocol before.pending before.used r.0) same_end
        (ap (λ r. r.1.pending) same_end ∙ closed)
  read_messages-Protocol (value ∷ values) first before end messages h closed =
      let next = λ (step : Message × Open).
        (read_messages json false step.1 values >>= λ rest. ok (step.0 ∷ rest.0, rest.1)) in
      let (step, read, h1) = bound (read_message json first before value) next (messages, end) h in
      let (rest, later, h2) =
        bound (read_messages json false step.1 values) (λ rest. ok (step.0 ∷ rest.0, rest.1))
          (messages, end) h1 in
      let whole : List Message × Open = (step.0 ∷ rest.0, rest.1) in
      let same_end : whole ≡ (messages, end) = ok-injective whole (messages, end) h2 in
      subst (λ r. Protocol before.pending before.used r.0) same_end
        (read_message-Step first before value step.1 step.0 read rest.0 (
          read_messages-Protocol values false step.1 rest.1 rest.0 later
            (ap (λ r. r.1.pending) same_end ∙ closed)))

  check_messages-Protocol :
      (values : Json Real) (messages : List Message)
      → check_messages json values ≡ ok messages
      → Protocol [] [] messages × (any_user messages ≡ true)
  unfolding check_messages close_messages
  check_messages-Protocol (Json.array (Jsons.cons value values)) messages h =
      let (read, found, h2) =
        bound (read_messages json true nothing_open (value ∷ items values)) close_messages messages
          h in
      elim (Bool-cases (nothing_pending read.1.pending && any_user read.0)) [
        | inl good ↦
            let same_messages : read.0 ≡ messages =
              ok-injective read.0 messages (ground (arith, good, h2)) in
            subst (λ l. Protocol [] [] l × (any_user l ≡ true)) same_messages
              (
                read_messages-Protocol (value ∷ items values) true nothing_open read.1 read.0 found
                    (nothing_pending-eq read.1.pending (ground (arith, good))),
                ground (arith, good),
              )
        | inr bad ↦ absurd (ground (arith, bad, h2))
      ]
  check_messages-Protocol (Json.array Jsons.nil) messages h = absurd (cc)
  check_messages-Protocol Json.null messages h = absurd (cc)
  check_messages-Protocol (Json.boolean b) messages h = absurd (cc)
  check_messages-Protocol (Json.integer b) messages h = absurd (cc)
  check_messages-Protocol (Json.real b) messages h = absurd (cc)
  check_messages-Protocol (Json.text b) messages h = absurd (cc)
  check_messages-Protocol (Json.object b) messages h = absurd (cc)

  -- Messages that are accepted keep to the protocol of tool calls: every result of a tool answers a
  -- call that waits, no other message stands while a call waits, every call has a new id and a valid
  -- name, and no call waits at the end; and there is a user's message.
  pub validate_messages-Protocol :
      (compiles : List ℕ → Bool) (values tools : Json Real) (messages : List Message)
      → validate_messages json compiles values tools ≡ ok messages
      → Protocol [] [] messages × (any_user messages ≡ true)
  unfolding validate_messages
  validate_messages-Protocol compiles values tools messages h =
      let (functions, _, accepted) =
        bound (validate_tools compiles tools) (λ functions. check_messages json values) messages
          h in
      check_messages-Protocol values messages accepted
