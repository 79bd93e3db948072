-- ===== src/Engine.antt =====
-- src/qwasar_runtime/engine.py: the reasoning budget of a turn, and how a turn that ended with a
-- rejected tool call is classified.
pub mod Budget
use qwarz.Base.{
  ℕ, ◌-◌, ◌/◌, min, max, Bool, true, false, ◌||◌, not, Option, none, some, List, [], ◌∷◌, ◌==◌,
  if◌then◌else◌,
}
use qwarz.Base.Int.{ℤ}
use qwarz.Base.Texts.{codes, begins, find_text}
use qwarz.Cycle.Suffix.{same}
use qwarz.Parsing.Json.{Json, Jsons, Members, get_member}

abbrev pub content_reserve : ℕ
content_reserve = 1024

pub data Thinking : Type 0 where
  off low medium xhigh : Thinking

-- `REASONING_BUDGETS`
abbrev pub reasoning_budget : Thinking → ℕ
reasoning_budget Thinking.off = 0
reasoning_budget Thinking.low = 1024
reasoning_budget Thinking.medium = 2048
reasoning_budget Thinking.xhigh = 8192

abbrev pub is_off : Thinking → Bool
is_off Thinking.off = true
is_off _ = false

abbrev pub is_zero : Option ℕ → Bool
is_zero none = false
is_zero (some n) = n == 0

abbrev pub budget_or : ℕ → Option ℕ → ℕ
budget_or default none = default
budget_or default (some n) = n

unfoldable pub reasoning_token_cap : Thinking → ℕ → Option ℕ → ℕ
reasoning_token_cap thinking max_tokens override =
    if is_off thinking || is_zero override
    then 0
    else (let reserve = min content_reserve (max_tokens / 2) in
        min (budget_or (reasoning_budget thinking) override) (max_tokens - reserve))

-- what `incomplete_reason` says
pub data Reason : Type 0 where
  max_new_tokens reasoning_budget_used : Reason
  invalid_tool_arguments undeclared_tool tool_choice_mismatch missing_tool_call : Reason
  malformed_tool_call unterminated_reasoning unclosed_tool_call tool_call_error : Reason

-- an error of `StreamParser.finish`: whether it is a `SchemaValidationError`, and its text
pub record ToolError : Type 0 where
  pub from_schema : Bool
  pub message : List ℕ

-- `needle in text`
abbrev pub has_text : List ℕ → List ℕ → Bool
has_text needle text = elim (find_text needle text) [ none ↦ false | some at ↦ true ]

-- `final.get("eos_reason") == "max_new_tokens"`, of a final event if there is one
abbrev pub out_of_tokens : Option (List ℕ) → Bool
out_of_tokens none = false
out_of_tokens (some eos_reason) = same eos_reason (codes "max_new_tokens")

unfoldable pub incomplete_reason_from_error : ToolError → Option (List ℕ) → Reason
unfolding find_text begins
incomplete_reason_from_error error final =
    if out_of_tokens final
    then max_new_tokens
    else (if error.from_schema || begins (codes "invalid JSON value") error.message
        then invalid_tool_arguments
        else (if has_text (codes "undeclared or prohibited") error.message
            then undeclared_tool
            else (if has_text (codes "does not match tool_choice") error.message
                then tool_choice_mismatch
                else (if has_text (codes "required tool call was not generated") error.message
                    then missing_tool_call
                    else (if has_text (codes "malformed") error.message
                        then malformed_tool_call
                        else (if has_text (codes "reasoning") error.message
                            then unterminated_reasoning
                            else tool_call_error))))))

abbrev pub or_null : {Real : Type 0} → Option (Json Real) → Json Real
or_null none = Json.null
or_null (some value) = value

module _ {Real : Type 0} (real_is_zero : Real → Bool) where
  -- what Python takes for true
  unfoldable pub truthy : Json Real → Bool
  truthy Json.null = false
  truthy (Json.boolean b) = b
  truthy (Json.integer (ℤ.pos n)) = not (n == 0)
  truthy (Json.integer (ℤ.negsuc n)) = true
  truthy (Json.real r) = not (real_is_zero r)
  truthy (Json.text []) = false
  truthy (Json.text (c ∷ t)) = true
  truthy (Json.array Jsons.nil) = false
  truthy (Json.array (Jsons.cons value values)) = true
  truthy (Json.object Members.end) = false
  truthy (Json.object (Members.member key value members)) = true

  -- `first or second`, of two values that may be missing
  unfoldable pub either : Option (Json Real) → Json Real → Json Real
  unfolding truthy
  either none second = second
  either (some first) second = if truthy first then first else second

  -- a key of the evidence whose value is not None
  abbrev pub kept_key : List ℕ → Option (Json Real) → Members Real → Members Real
  kept_key key none rest = rest
  kept_key key (some Json.null) rest = rest
  kept_key key (some value) rest = Members.member key value rest

  abbrev pub error_key : Option (Json Real) → Members Real
  error_key (some (Json.object error)) =
      Members.member (codes "error")
        (either (get_member (codes "message") error) (or_null (get_member (codes "class") error)))
        Members.end
  error_key _ = Members.end

  abbrev pub some_members : Members Real → Option (Members Real)
  some_members Members.end = none
  some_members (Members.member key value rest) = some (Members.member key value rest)

  unfoldable pub tool_error_summary : Json Real → Option (Members Real)
  unfolding either get_member
  tool_error_summary (Json.object evidence) = some_members (
      kept_key (codes "stage") (get_member (codes "stage") evidence) (
        kept_key (codes "tool") (get_member (codes "tool") evidence) (
          kept_key (codes "call_index") (get_member (codes "call_index") evidence)
            (error_key (get_member (codes "error") evidence)))))
  tool_error_summary _ = none
