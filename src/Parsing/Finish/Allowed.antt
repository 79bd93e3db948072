-- ===== src/Parsing/Finish/Allowed.antt =====
-- Which tool calls a message of src/qwasar_runtime/parsing.py can have, and the fuel of their loop.
use qwarz.Base.{
  ℕ, zero, suc, ◌≡◌, refl, sym, ap, subst, ◌∙◌, Bool, true, false, ◌&&◌, not, Bool-cases, inl, inr,
  Option, none, some, List, [], ◌∷◌, length, if◌then◌else◌,
}
use qwarz.Base.Outcome.{ok, raise, value_error, ◌>>=◌}
use qwarz.Base.Texts.{strip}
use qwarz.Parsing.Json.{Json, Members}
use qwarz.Parsing.Tools.{Functions}
use qwarz.Parsing.Tools.Declared.{bound, ok-injective, passed}
use qwarz.Parsing.Messages.{Call}
use qwarz.Parsing.Calls.{Function, next_tool_call, parse_tool_calls, is_ok}
use qwarz.Parsing.Coerce.Values.{coerce_arguments}
use qwarz.Parsing.Feed.{StreamParser}
use qwarz.Parsing.Finish.{
  ToolChoice, Finisher, Answer, find_function, is_named, needs_call, has_calls, allowed_schema,
  read_arguments, call_with, write_call, with_schema, finish_call, finish_calls, calls_of,
  answer_with, finish, is_reasoning,
}

-- whether the choice lets a function be called
abbrev pub permits : ToolChoice → List ℕ → Bool
permits ToolChoice.forbidden name = false
permits choice name = is_named choice name

module _ {Real : Type 0} where
  -- a call of a declared function that the choice permits
  pub record IsAllowed (choice : ToolChoice) (functions : Functions Real) (call : Call)
      : Type 0 where
    pub schema : Members Real
    pub declared : find_function call.name functions ≡ some schema
    pub permitted : permits choice call.name ≡ true

  abbrev pub AllAllowed : ToolChoice → Functions Real → List Call → Type 0
  AllAllowed choice functions [] = Unit {0}
  AllAllowed choice functions (call ∷ calls) =
      IsAllowed choice functions call × AllAllowed choice functions calls

  chosen-schema :
      (choice : ToolChoice) (name : List ℕ) (schema found : Members Real)
      → (if is_named choice name
          then ok schema
          else raise (value_error "tool does not match tool_choice" []))
        ≡ ok found
      → (schema ≡ found) × (is_named choice name ≡ true)
  chosen-schema choice name schema found h = elim (Bool-cases (is_named choice name)) [
    | inl hit ↦ (ok-injective schema found (sym (rw hit refl) ∙ h), hit)
    | inr miss ↦ absurd (
        let bad : raise (value_error "tool does not match tool_choice" []) ≡ ok found =
          sym (rw miss refl) ∙ h in
        cc bad)
  ]

  allowed_schema-some :
      (choice : ToolChoice) (name : List ℕ) (o : Option (Members Real)) (schema : Members Real)
      → allowed_schema choice name o ≡ ok schema
      → (o ≡ some schema) × (permits choice name ≡ true)
  unfolding allowed_schema
  allowed_schema-some choice name none schema h = absurd (cc)
  allowed_schema-some ToolChoice.forbidden name (some s) schema h = absurd (cc)
  allowed_schema-some ToolChoice.required name (some s) schema h =
      let (e, hit) = chosen-schema ToolChoice.required name s schema h in (ap some e, hit)
  allowed_schema-some ToolChoice.automatic name (some s) schema h =
      let (e, hit) = chosen-schema ToolChoice.automatic name s schema h in (ap some e, hit)
  allowed_schema-some (ToolChoice.function_named wanted) name (some s) schema h =
      let (e, hit) = chosen-schema (ToolChoice.function_named wanted) name s schema h in
      (ap some e, hit)

demanded :
    (complete needs has : Bool)
    → complete && (needs && not has) ≡ false
    → complete ≡ true
    → needs ≡ true
    → has ≡ true
demanded true true true h a b = refl
demanded true true false h a b = sym h
demanded true false has h a b = absurd (cc)
demanded false needs has h a b = absurd (cc)

answer_with-calls :
    {Real : Type 0} (complete : Bool) (choice : ToolChoice) (p : StreamParser (Members Real))
    (calls : List Call) (answer : Answer)
    → answer_with complete choice p calls ≡ ok answer
    → (calls ≡ answer.tool_calls)
      × (complete ≡ true → needs_call choice ≡ true → has_calls answer.tool_calls ≡ true)
unfolding answer_with
answer_with-calls complete choice p calls answer h =
    let (demand, made) =
      passed (complete && (needs_call choice && not (has_calls calls))) _ _ answer h in
    let e = ap (λ (a : Answer). a.tool_calls) (ok-injective _ answer made) in
    (
      e,
      λ whole needs.
          subst (λ l. has_calls l ≡ true) e
            (demanded complete (needs_call choice) (has_calls calls) demand whole needs),
    )

module _ {Real : Type 0} (finisher : Finisher Real) where
  write_call-name :
      (index : ℕ) (name : List ℕ) (schema arguments : Members Real) (call : Call)
      → write_call finisher index name schema arguments ≡ ok call
      → name ≡ call.name
  unfolding write_call
  write_call-name index name schema arguments call h =
      let coerced = coerce_arguments finisher.reader schema arguments in
      let (_, _, checked) =
        bound (finisher.validate_value coerced schema)
          (λ _. (finisher.canonical (Json.object coerced) >>= call_with finisher index name)) call
          h in
      let (written, _, made) =
        bound (finisher.canonical (Json.object coerced)) (call_with finisher index name) call
          checked in
      ap (λ (c : Call). c.name) (ok-injective _ call made)

  finish_call-IsAllowed :
      (choice : ToolChoice) (functions : Functions Real) (index : ℕ) (function : Function)
      (call : Call)
      → finish_call finisher choice functions index function ≡ ok call
      → IsAllowed choice functions call
  unfolding finish_call with_schema
  finish_call-IsAllowed choice functions index function call h =
      let (schema, allowed, rest) =
        bound (allowed_schema choice function.0 (find_function function.0 functions))
          (with_schema finisher index function) call h in
      let (arguments, _, written) =
        bound (read_arguments finisher schema Members.end function.1)
          (write_call finisher index function.0 schema) call rest in
      let name = write_call-name index function.0 schema arguments call written in
      let (declared, permitted) =
        allowed_schema-some choice function.0 (find_function function.0 functions) schema allowed in
      record {
        schema = schema;
        declared = subst (λ n. find_function n functions ≡ some schema) name declared;
        permitted = subst (λ n. permits choice n ≡ true) name permitted;
      }

  finish_calls-AllAllowed :
      (fuel : ℕ) (choice : ToolChoice) (functions : Functions Real) (index : ℕ) (xml : List ℕ)
      (calls : List Call)
      → finish_calls finisher fuel choice functions index xml ≡ ok calls
      → AllAllowed choice functions calls
  unfolding finish_calls
  finish_calls-AllAllowed zero choice functions index [] calls h =
      subst (AllAllowed choice functions) (ok-injective [] calls h) tt
  finish_calls-AllAllowed (suc fuel) choice functions index [] calls h =
      subst (AllAllowed choice functions) (ok-injective [] calls h) tt
  finish_calls-AllAllowed zero choice functions index (c ∷ xml) calls h = absurd (cc)
  finish_calls-AllAllowed (suc fuel) choice functions index (c ∷ xml) calls h =
      let (step, _, rest) =
        bound (next_tool_call (λ rest. is_ok (parse_tool_calls rest)) (c ∷ xml))
          (λ step.
            (finish_call finisher choice functions index step.0 >>= λ call.
            (finish_calls finisher fuel choice functions (suc index) step.1 >>= λ calls.
            ok (call ∷ calls))))
          calls h in
      let (call, one, more) =
        bound (finish_call finisher choice functions index step.0)
          (λ call.
            (finish_calls finisher fuel choice functions (suc index) step.1 >>= λ calls.
            ok (call ∷ calls)))
          calls rest in
      let (later, found, made) =
        bound (finish_calls finisher fuel choice functions (suc index) step.1)
          (λ calls. ok (call ∷ calls)) calls more in
      subst (AllAllowed choice functions) (ok-injective (call ∷ later) calls made) (
        finish_call-IsAllowed choice functions index step.0 call one,
        finish_calls-AllAllowed fuel choice functions (suc index) step.1 later found,
      )

  no_calls :
      (complete there : Bool) (choice : ToolChoice) (p : StreamParser (Members Real))
      (calls : List Call)
      → complete ≡ false
      → calls_of finisher (complete && there) choice p ≡ ok calls
      → calls ≡ []
  unfolding calls_of
  no_calls false there choice p calls part h = sym (ok-injective [] calls h)
  no_calls true there choice p calls part h = absurd (cc)

  calls_of-AllAllowed :
      (there : Bool) (choice : ToolChoice) (p : StreamParser (Members Real)) (calls : List Call)
      → calls_of finisher there choice p ≡ ok calls
      → AllAllowed choice p.functions calls
  unfolding calls_of
  calls_of-AllAllowed false choice p calls h =
      subst (AllAllowed choice p.functions) (ok-injective [] calls h) tt
  calls_of-AllAllowed true choice p calls h =
      finish_calls-AllAllowed (length p.xml) choice p.functions 0 (strip p.xml) calls h

  -- What `finish` accepts: every call of the message is of a declared function that `tool_choice`
  -- permits (none at all under "none", only the named function under a name), a complete answer has a
  -- call if the choice asks for one, and an answer that is not complete has no call.
  pub finish-AllAllowed :
      (complete : Bool) (choice : ToolChoice) (p : StreamParser (Members Real)) (answer : Answer)
      → finish finisher complete choice p ≡ ok answer
      → AllAllowed choice p.functions answer.tool_calls
        × (complete ≡ true → needs_call choice ≡ true → has_calls answer.tool_calls ≡ true)
        × (complete ≡ false → answer.tool_calls ≡ [])
  unfolding finish
  finish-AllAllowed complete choice p answer h =
      let (_, finished) = passed (complete && is_reasoning p.channel) _ _ answer h in
      let (calls, found, made) =
        bound (calls_of finisher (complete && p.in_tools) choice p) (answer_with complete choice p)
          answer finished in
      let (e, needed) = answer_with-calls complete choice p calls answer made in
      (
        subst (AllAllowed choice p.functions) e
            (calls_of-AllAllowed (complete && p.in_tools) choice p calls found),
        needed,
        λ part. sym e ∙ no_calls complete p.in_tools choice p calls part found,
      )
