-- ===== src/Parsing/Finish/Errors.antt =====
-- What `finish` of src/qwasar_runtime/parsing.py raises.
use qwarz.Base.{
  ℕ, zero, suc, ◌≡◌, refl, Bool, true, false, ◌&&◌, not, Option, none, some, List, [], ◌∷◌, length,
  drop, if◌then◌else◌,
}
use qwarz.Base.Outcome.{
  Error, Result, ok, raise, value_error, runtime_error, session_busy, cancelled_turn, ◌>>=◌,
}
use qwarz.Base.Texts.{codes, begins, strip}
use qwarz.Parsing.Json.{Json, Members, keys, contains}
use qwarz.Parsing.Schema.{require}
use qwarz.Parsing.Tools.{Functions}
use qwarz.Parsing.Calls.{
  Function, Parameters, open_call, close_call, closes, parse_function, malformed, call_step,
  call_close, next_tool_call, parse_tool_calls, is_ok, keep_first,
}
use qwarz.Parsing.Coerce.{
  Types, Reader, all_types, boolean_literal, literal_or, read_scalar, read_json,
  parse_tool_parameter, property_schemas,
}
use qwarz.Parsing.Coerce.Values.{coerce_arguments}
use qwarz.Parsing.Feed.{StreamParser}
use qwarz.Parsing.Finish.{
  ToolChoice, Finisher, Answer, find_function, is_named, needs_call, has_calls, allowed_schema,
  or_invalid, add_argument, read_arguments, call_with, write_call, with_schema, finish_call,
  finish_calls, calls_of, answer_with, finish, is_reasoning,
}

-- What a call of a library may raise, as a predicate on errors; and the other result of a call: a value,
-- a ValueError, or another error that comes out of a library.
abbrev pub IsCaught : {A : Type 0} → (Error → Type 0) → Result A → Type 0
IsCaught Outer (ok a) = Unit {0}
IsCaught Outer (raise (value_error message numbers)) = Unit {0}
IsCaught Outer (raise (runtime_error message numbers)) = Outer (runtime_error message numbers)
IsCaught Outer (raise session_busy) = Outer session_busy
IsCaught Outer (raise (cancelled_turn ids)) = Outer (cancelled_turn ids)

bind-IsCaught :
    {A B : Type 0} (Outer : Error → Type 0) (m : Result A) (f : A → Result B)
    → IsCaught Outer m
    → ((a : A) → IsCaught Outer (f a))
    → IsCaught Outer (m >>= f)
bind-IsCaught Outer (ok a) f h k = k a
bind-IsCaught Outer (raise (value_error message numbers)) f h k = tt
bind-IsCaught Outer (raise (runtime_error message numbers)) f h k = h
bind-IsCaught Outer (raise session_busy) f h k = h
bind-IsCaught Outer (raise (cancelled_turn ids)) f h k = h

if-IsCaught :
    {A : Type 0} (Outer : Error → Type 0) (b : Bool) (x y : Result A)
    → IsCaught Outer x
    → IsCaught Outer y
    → IsCaught Outer (if b then x else y)
if-IsCaught Outer true x y h k = h
if-IsCaught Outer false x y h k = k

-- what a call raises, where `Outer` holds of it
raised-IsCaught :
    {A : Type 0} (Outer : Error → Type 0) (r : Result A)
    → ((err : Error) → r ≡ raise err → Outer err)
    → IsCaught Outer r
raised-IsCaught Outer (ok a) h = tt
raised-IsCaught Outer (raise (value_error message numbers)) h = tt
raised-IsCaught Outer (raise (runtime_error message numbers)) h =
    h (runtime_error message numbers) refl
raised-IsCaught Outer (raise session_busy) h = h session_busy refl
raised-IsCaught Outer (raise (cancelled_turn ids)) h = h (cancelled_turn ids) refl

call_step-IsCaught :
    (Outer : Error → Type 0) (o : Option Function) (b : Bool) (rest : List ℕ)
    (fallback : Option (Function × List ℕ))
    (later : Option (Function × List ℕ) → Result (Function × List ℕ))
    → ((kept : Option (Function × List ℕ)) → IsCaught Outer (later kept))
    → IsCaught Outer (call_step o b rest fallback later)
unfolding call_step
call_step-IsCaught Outer none b rest fallback later h = h fallback
call_step-IsCaught Outer (some f) true rest fallback later h = tt
call_step-IsCaught Outer (some f) false rest fallback later h =
    h (keep_first fallback (begins open_call rest) (f, rest))

call_close-IsCaught :
    (Outer : Error → Type 0) (parses : List ℕ → Bool) (fallback : Option (Function × List ℕ))
    (list : List (List ℕ × List ℕ))
    → IsCaught Outer (call_close parses fallback list)
unfolding call_close
call_close-IsCaught Outer parses none [] = tt
call_close-IsCaught Outer parses (some call) [] = tt
call_close-IsCaught Outer parses fallback ((interior, tail) ∷ more) =
    call_step-IsCaught Outer (parse_function interior) (parses (strip tail)) (strip tail) fallback
      (λ kept. call_close parses kept more) (λ kept. call_close-IsCaught Outer parses kept more)

next_tool_call-IsCaught :
    (Outer : Error → Type 0) (parses : List ℕ → Bool) (xml : List ℕ)
    → IsCaught Outer (next_tool_call parses xml)
unfolding next_tool_call
next_tool_call-IsCaught Outer parses xml =
    if-IsCaught Outer (begins open_call xml) _ malformed
      (call_close-IsCaught Outer parses none
        (closes (length xml) close_call [] (drop (length open_call) xml)))
      tt

require-IsCaught :
    (Outer : Error → Type 0) (test : Bool)
    → IsCaught Outer (require test (value_error "malformed or duplicate parameter" []))
require-IsCaught Outer true = tt
require-IsCaught Outer false = tt

or_invalid-IsCaught :
    {A : Type 0} (Outer : Error → Type 0) (r : Result A)
    → IsCaught Outer r
    → IsCaught Outer (or_invalid r)
or_invalid-IsCaught Outer (ok a) h = tt
or_invalid-IsCaught Outer (raise (value_error message numbers)) h = tt
or_invalid-IsCaught Outer (raise (runtime_error message numbers)) h = h
or_invalid-IsCaught Outer (raise session_busy) h = h
or_invalid-IsCaught Outer (raise (cancelled_turn ids)) h = h

allowed_schema-IsCaught :
    {Real : Type 0} (Outer : Error → Type 0) (choice : ToolChoice) (name : List ℕ)
    (o : Option (Members Real))
    → IsCaught Outer (allowed_schema choice name o)
unfolding allowed_schema
allowed_schema-IsCaught Outer choice name none = tt
allowed_schema-IsCaught Outer ToolChoice.forbidden name (some schema) = tt
allowed_schema-IsCaught Outer ToolChoice.required name (some schema) = tt
allowed_schema-IsCaught Outer ToolChoice.automatic name (some schema) = tt
allowed_schema-IsCaught Outer (ToolChoice.function_named wanted) name (some schema) =
    if-IsCaught Outer (is_named (ToolChoice.function_named wanted) name) _ _ tt tt

literal_or-IsCaught :
    {Real : Type 0} (Outer : Error → Type 0) (text : List ℕ) (types : Types) (o : Option Bool)
    (reader : Reader Real)
    → IsCaught Outer (literal_or reader text types o)
unfolding literal_or
literal_or-IsCaught Outer text types (some b) reader = tt
literal_or-IsCaught Outer text [] none reader = tt
literal_or-IsCaught Outer text (t ∷ types) none reader = tt

read_json-IsCaught :
    {Real : Type 0} (Outer : Error → Type 0) (reader : Reader Real) (text : List ℕ) (types : Types)
    (r : Result (Json Real))
    → IsCaught Outer r
    → IsCaught Outer (read_json reader text types r)
unfolding read_json read_scalar
read_json-IsCaught Outer reader text types (ok value) h = tt
read_json-IsCaught Outer reader text types (raise (value_error message numbers)) h =
    literal_or-IsCaught Outer text types
      (if contains (codes "boolean") types
        then boolean_literal (reader.casefold (strip text))
        else none)
      reader
read_json-IsCaught Outer reader text types (raise (runtime_error message numbers)) h = h
read_json-IsCaught Outer reader text types (raise session_busy) h = h
read_json-IsCaught Outer reader text types (raise (cancelled_turn ids)) h = h

-- The other errors that may come out of `finish`: what `json.loads`, `json.dumps` or `validate_value`
-- raised. `validate_value` is of the same file and is not modelled: a reference that does not resolve
-- makes it raise a KeyError.
pub data Comes {Real : Type 0} (finisher : Finisher Real) (err : Error) : Type 0 where
  from_loads : (text : List ℕ) → finisher.reader.parse_json text ≡ raise err → Comes finisher err
  from_dumps : (value : Json Real) → finisher.canonical value ≡ raise err → Comes finisher err
  from_validation :
      (arguments schema : Members Real)
      → finisher.validate_value arguments schema ≡ raise err
      → Comes finisher err

module _ {Real : Type 0} (finisher : Finisher Real) where
  abbrev Outer : Error → Type 0
  Outer err = Comes finisher err

  parse_tool_parameter-IsCaught :
      (text : List ℕ) (schemas : List (Json Real))
      → IsCaught Outer (parse_tool_parameter finisher.reader text schemas)
  unfolding parse_tool_parameter
  parse_tool_parameter-IsCaught text schemas =
      if-IsCaught Outer (contains (codes "string") (all_types schemas)) (ok (Json.text text)) _ tt (
        read_json-IsCaught Outer finisher.reader text (all_types schemas)
          (finisher.reader.parse_json (strip text))
          (raised-IsCaught Outer (finisher.reader.parse_json (strip text))
            (λ err h. Comes.from_loads (strip text) h)))

  read_arguments-IsCaught :
      (schema arguments : Members Real) (parameters : Parameters)
      → IsCaught Outer (read_arguments finisher schema arguments parameters)
  unfolding read_arguments
  read_arguments-IsCaught schema arguments [] = tt
  read_arguments-IsCaught schema arguments ((key, value) ∷ parameters) =
      let schemas = property_schemas finisher.reader schema key in
      let parsed = parse_tool_parameter finisher.reader value schemas in
      bind-IsCaught Outer
        (require (not (contains key (keys arguments)))
          (value_error "malformed or duplicate parameter" []))
        _ (require-IsCaught Outer (not (contains key (keys arguments))))
        (λ _.
          bind-IsCaught Outer (or_invalid parsed)
            (λ read. read_arguments finisher schema (add_argument arguments key read) parameters)
            (or_invalid-IsCaught Outer parsed (parse_tool_parameter-IsCaught value schemas))
            (λ read. read_arguments-IsCaught schema (add_argument arguments key read) parameters))

  write_call-IsCaught :
      (index : ℕ) (name : List ℕ) (schema arguments : Members Real)
      → IsCaught Outer (write_call finisher index name schema arguments)
  unfolding write_call
  write_call-IsCaught index name schema arguments =
      let coerced = coerce_arguments finisher.reader schema arguments in
      bind-IsCaught Outer (finisher.validate_value coerced schema) _
        (raised-IsCaught Outer (finisher.validate_value coerced schema)
          (λ err h. Comes.from_validation coerced schema h))
        (λ _.
          bind-IsCaught Outer (finisher.canonical (Json.object coerced))
            (call_with finisher index name)
            (raised-IsCaught Outer (finisher.canonical (Json.object coerced))
              (λ err h. Comes.from_dumps (Json.object coerced) h))
            (λ text. tt))

  finish_call-IsCaught :
      (choice : ToolChoice) (functions : Functions Real) (index : ℕ) (function : Function)
      → IsCaught Outer (finish_call finisher choice functions index function)
  unfolding finish_call with_schema
  finish_call-IsCaught choice functions index function =
      bind-IsCaught Outer (allowed_schema choice function.0 (find_function function.0 functions))
        (with_schema finisher index function)
        (allowed_schema-IsCaught Outer choice function.0 (find_function function.0 functions))
        (λ schema.
          bind-IsCaught Outer (read_arguments finisher schema Members.end function.1)
            (write_call finisher index function.0 schema)
            (read_arguments-IsCaught schema Members.end function.1)
            (λ arguments. write_call-IsCaught index function.0 schema arguments))

  finish_calls-IsCaught :
      (fuel : ℕ) (choice : ToolChoice) (functions : Functions Real) (index : ℕ) (xml : List ℕ)
      → IsCaught Outer (finish_calls finisher fuel choice functions index xml)
  unfolding finish_calls
  finish_calls-IsCaught zero choice functions index [] = tt
  finish_calls-IsCaught (suc fuel) choice functions index [] = tt
  finish_calls-IsCaught zero choice functions index (c ∷ xml) = tt
  finish_calls-IsCaught (suc fuel) choice functions index (c ∷ xml) =
      bind-IsCaught Outer (next_tool_call (λ rest. is_ok (parse_tool_calls rest)) (c ∷ xml)) _
        (next_tool_call-IsCaught Outer (λ rest. is_ok (parse_tool_calls rest)) (c ∷ xml))
        (λ step.
          bind-IsCaught Outer (finish_call finisher choice functions index step.0) _
            (finish_call-IsCaught choice functions index step.0)
            (λ call.
              bind-IsCaught Outer (finish_calls finisher fuel choice functions (suc index) step.1)
                (λ calls. ok (call ∷ calls))
                (finish_calls-IsCaught fuel choice functions (suc index) step.1) (λ calls. tt)))

  calls_of-IsCaught :
      (there : Bool) (choice : ToolChoice) (p : StreamParser (Members Real))
      → IsCaught Outer (calls_of finisher there choice p)
  unfolding calls_of
  calls_of-IsCaught false choice p = tt
  calls_of-IsCaught true choice p =
      finish_calls-IsCaught (length p.xml) choice p.functions 0 (strip p.xml)

  pub finish-IsCaught :
      (complete : Bool) (choice : ToolChoice) (p : StreamParser (Members Real))
      → IsCaught (Comes finisher) (finish finisher complete choice p)
  unfolding finish answer_with
  finish-IsCaught complete choice p =
      if-IsCaught Outer (complete && is_reasoning p.channel) _ _ tt (
        bind-IsCaught Outer (calls_of finisher (complete && p.in_tools) choice p)
          (answer_with complete choice p) (calls_of-IsCaught (complete && p.in_tools) choice p)
          (λ calls.
            if-IsCaught Outer (complete && (needs_call choice && not (has_calls calls))) _ _ tt tt))

-- an answer that is not complete always has a message
pub finish-incomplete :
    {Real : Type 0} (finisher : Finisher Real) (choice : ToolChoice)
    (p : StreamParser (Members Real))
    → (answer : Answer) × (finish finisher false choice p ≡ ok answer)
unfolding finish calls_of answer_with
finish-incomplete finisher choice p = (_, refl)
