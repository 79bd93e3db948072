-- ===== src/Parsing/Finish.antt =====
-- `StreamParser.finish` of src/qwasar_runtime/parsing.py: the message behind an answer. The evidence
-- that it keeps of a rejected call is left out; `validate_value`, whose verdict goes into that evidence
-- only, may still raise and is a parameter, as is the hash of a call's id.
pub mod Allowed
pub mod Fuel
pub mod Errors
use qwarz.Base.{
  ℕ, zero, suc, ◌+◌, Bool, true, false, ◌&&◌, not, Option, none, some, List, [], ◌∷◌, ◌++◌, length,
  if◌then◌else◌,
}
use qwarz.Base.Outcome.{Result, ok, raise, value_error, ◌>>=◌, ◌>>◌}
use qwarz.Base.Texts.{codes, begins, find_text, strip}
use qwarz.Cycle.Suffix.{same}
use qwarz.Parsing.Json.{Json, Members, keys, contains}
use qwarz.Parsing.Schema.{require}
use qwarz.Parsing.Tools.{Functions}
use qwarz.Parsing.Messages.{Call}
use qwarz.Parsing.Calls.{Function, Parameters, next_tool_call, parse_tool_calls, is_ok}
use qwarz.Parsing.Coerce.{Reader, parse_tool_parameter, property_schemas}
use qwarz.Parsing.Coerce.Values.{coerce_arguments}
use qwarz.Parsing.Feed.{Channel, StreamParser}

-- `tool_choice`: "none", "required", a function's name, or another word
pub data ToolChoice : Type 0 where
  forbidden required automatic : ToolChoice
  function_named : List ℕ → ToolChoice

pub record Finisher (Real : Type 0) : Type 0 where
  pub reader : Reader Real
  pub canonical : Json Real → Result (List ℕ)
  pub validate_value : Members Real → Members Real → Result (Unit {0})
  pub call_id : ℕ → List ℕ

-- the message that `finish` returns
pub record Answer : Type 0 where
  pub content : List ℕ
  pub reasoning_content : List ℕ
  pub tool_calls : List Call

abbrev pub is_reasoning : Channel → Bool
is_reasoning Channel.reasoning_channel = true
is_reasoning Channel.content_channel = false

abbrev pub find_function : {Real : Type 0} → List ℕ → Functions Real → Option (Members Real)
find_function name [] = none
find_function name ((key, schema) ∷ functions) =
    if same name key then some schema else find_function name functions

abbrev pub is_named : ToolChoice → List ℕ → Bool
is_named (ToolChoice.function_named wanted) name = same name wanted
is_named other name = true

abbrev pub needs_call : ToolChoice → Bool
needs_call ToolChoice.required = true
needs_call (ToolChoice.function_named wanted) = true
needs_call other = false

abbrev pub has_calls : List Call → Bool
has_calls [] = false
has_calls (call ∷ calls) = true

-- the function's schema, if the call is allowed
unfoldable pub allowed_schema :
    {Real : Type 0} → ToolChoice → List ℕ → Option (Members Real) → Result (Members Real)
allowed_schema choice name none = raise (value_error "undeclared or prohibited tool" [])
allowed_schema ToolChoice.forbidden name (some schema) =
    raise (value_error "undeclared or prohibited tool" [])
allowed_schema choice name (some schema) =
    if is_named choice name
    then ok schema
    else raise (value_error "tool does not match tool_choice" [])

abbrev pub or_invalid : {A : Type 0} → Result A → Result A
or_invalid (ok value) = ok value
or_invalid (raise (value_error message numbers)) =
    raise (value_error "invalid JSON value for a parameter" [])
or_invalid (raise err) = raise err

-- `arguments[key] = value`, behind the others
unfoldable pub add_argument : {Real : Type 0} → Members Real → List ℕ → Json Real → Members Real
add_argument Members.end key value = Members.member key value Members.end
add_argument (Members.member k v arguments) key value =
    Members.member k v (add_argument arguments key value)

abbrev pub pending_on : Bool → List ℕ → List ℕ
pending_on there pending = if there then pending else []

unfoldable pub answer_with :
    {Real : Type 0} → Bool → ToolChoice → StreamParser (Members Real) → List Call → Result Answer
answer_with complete choice p calls =
    if complete && (needs_call choice && not (has_calls calls))
    then raise (value_error "required tool call was not generated" [])
    else ok (record {
      content =
          p.content
          ++ p.leading
          ++ pending_on (not (is_reasoning p.channel) && not p.in_tools) p.pending;
      reasoning_content = p.reasoning ++ pending_on (is_reasoning p.channel) p.pending;
      tool_calls = calls;
    })

-- `unclosed_tool_xml`, for what remains of the text
unfoldable pub unclosed_in : List ℕ → Bool
unfolding parse_tool_calls begins find_text
unclosed_in [] = false
unclosed_in (c ∷ remaining) =
    if is_ok (parse_tool_calls (c ∷ remaining))
    then false
    else begins (codes "<tool_call>") (c ∷ remaining)
      && (elim (find_text (codes "</tool_call>") (c ∷ remaining)) [ none ↦ true | some at ↦ false ])

unfoldable pub unclosed_tool_xml : {Real : Type 0} → StreamParser (Members Real) → Bool
unfolding unclosed_in strip
unclosed_tool_xml p = if p.in_tools then unclosed_in (strip p.xml) else false

module _ {Real : Type 0} (finisher : Finisher Real) where
  -- the loop over the parameters
  unfoldable pub read_arguments : Members Real → Members Real → Parameters → Result (Members Real)
  unfolding parse_tool_parameter property_schemas contains add_argument
  read_arguments schema arguments [] = ok arguments
  read_arguments schema arguments ((key, value) ∷ parameters) =
      require (not (contains key (keys arguments)))
        (value_error "malformed or duplicate parameter" [])
      >> (or_invalid (
            parse_tool_parameter finisher.reader value
              (property_schemas finisher.reader schema key))
          >>= λ read. read_arguments schema (add_argument arguments key read) parameters)

  abbrev pub call_with : ℕ → List ℕ → List ℕ → Result Call
  call_with index name arguments =
      ok (record { id = finisher.call_id index; name = name; arguments = arguments })

  unfoldable pub write_call : ℕ → List ℕ → Members Real → Members Real → Result Call
  unfolding coerce_arguments
  write_call index name schema arguments =
      let coerced = coerce_arguments finisher.reader schema arguments in
      finisher.validate_value coerced schema
      >> (finisher.canonical (Json.object coerced) >>= call_with index name)

  unfoldable pub with_schema : ℕ → Function → Members Real → Result Call
  unfolding read_arguments write_call
  with_schema index function schema =
      read_arguments schema Members.end function.1 >>= write_call index function.0 schema

  -- one round of the loop over the calls
  unfoldable pub finish_call : ToolChoice → Functions Real → ℕ → Function → Result Call
  unfolding allowed_schema with_schema
  finish_call choice functions index function =
      allowed_schema choice function.0 (find_function function.0 functions)
      >>= with_schema index function

  -- The loop over what remains, whose fuel is its length, since every round takes a call off it.
  unfoldable pub finish_calls : ℕ → ToolChoice → Functions Real → ℕ → List ℕ → Result (List Call)
  unfolding finish_call next_tool_call parse_tool_calls
  finish_calls fuel choice functions index [] = ok []
  finish_calls zero choice functions index (c ∷ xml) =
      raise (value_error "malformed native tool call" [])
  finish_calls (suc fuel) choice functions index (c ∷ xml) =
      next_tool_call (λ rest. is_ok (parse_tool_calls rest)) (c ∷ xml) >>= λ step.
      (finish_call choice functions index step.0 >>= λ call.
      (finish_calls fuel choice functions (suc index) step.1 >>= λ calls. ok (call ∷ calls)))

  unfoldable pub calls_of : Bool → ToolChoice → StreamParser (Members Real) → Result (List Call)
  unfolding finish_calls strip
  calls_of false choice p = ok []
  calls_of true choice p = finish_calls (length p.xml) choice p.functions 0 (strip p.xml)

  -- `finish`
  unfoldable pub finish : Bool → ToolChoice → StreamParser (Members Real) → Result Answer
  unfolding calls_of answer_with
  finish complete choice p =
      if complete && is_reasoning p.channel
      then raise (value_error "generation ended before reasoning closed" [])
      else (calls_of (complete && p.in_tools) choice p >>= answer_with complete choice p)
