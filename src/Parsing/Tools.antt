-- ===== src/Parsing/Tools.antt =====
-- `validate_tools` of src/qwasar_runtime/parsing.py: the functions that a request declares.
pub mod Declared
use qwarz.Base.{
  ℕ, zero, suc, Bool, ◌&&◌, ◌||◌, not, true, false, Option, none, some, List, [], ◌∷◌, ◌++◌, length,
  leb, ltb, ◌==◌, if◌then◌else◌,
}
use qwarz.Base.Outcome.{Result, ok, raise, Error, value_error, ◌>>=◌, ◌>>◌}
use qwarz.Base.Texts.{codes}
use qwarz.Cycle.Suffix.{same}
use qwarz.Parsing.Json.{Json, Members, items, keys, get_member, contains, all_of}
use qwarz.Parsing.Schema.{require, validate_schema}

-- `[A-Za-z0-9_-]`
unfoldable pub is_name_code : ℕ → Bool
is_name_code c =
    (leb 65 c && leb c 90)
    || (leb 97 c && leb c 122)
    || (leb 48 c && leb c 57)
    || c == 95
    || c == 45

-- `NAME.fullmatch`
unfoldable pub is_name : List ℕ → Bool
unfolding is_name_code all_of
is_name name = leb 1 (length name) && leb (length name) 128 && all_of is_name_code name

abbrev pub Functions : Type 0 → Type 0
Functions Real = List (List ℕ × Members Real)

module _ {Real : Type 0} where
  abbrev pub names : Functions Real → List (List ℕ)
  names [] = []
  names ((name, schema) ∷ functions) = name ∷ names functions

  abbrev pub is_word : List ℕ → Json Real → Bool
  is_word word (Json.text t) = same t word
  is_word word _ = false

  -- `tool.get("type") == "function"`, and the schema's `type`, which is an object if it is left out
  abbrev pub has_word : Bool → List ℕ → Option (Json Real) → Bool
  has_word missing word none = missing
  has_word missing word (some value) = is_word word value

  -- what `function` gives for a tool, with an empty dictionary for none
  unfoldable pub function_of : Json Real → Result (Members Real)
  unfolding get_member
  function_of (Json.object tool) = do
    require (has_word false (codes "function") (get_member (codes "type") tool))
        (value_error "only function tools are supported" [])
    elim (get_member (codes "function") tool) [
      | none ↦ ok Members.end
      | some (Json.object function) ↦ ok function
      | some other ↦ raise (value_error "function must be an object" [])
    ]
  function_of other = raise (value_error "only function tools are supported" [])

  unfoldable pub name_of : Functions Real → Option (Json Real) → Result (List ℕ)
  unfolding is_name contains
  name_of functions (some (Json.text name)) =
      if is_name name && not (contains name (names functions))
      then ok name
      else raise (value_error "tool names must be valid and unique" [])
  name_of functions other = raise (value_error "tool names must be valid and unique" [])

  abbrev pub no_parameters : Members Real
  no_parameters =
      Members.member (codes "type") (Json.text (codes "object"))
        (Members.member (codes "properties") (Json.object Members.end) Members.end)

  unfoldable pub parameters_of : Option (Json Real) → Result (Members Real)
  unfolding get_member
  parameters_of none = ok no_parameters
  parameters_of (some (Json.object schema)) =
      if has_word true (codes "object") (get_member (codes "type") schema)
      then ok schema
      else raise (value_error "tool parameters must use an object schema" [])
  parameters_of (some other) = raise (value_error "tool parameters must use an object schema" [])

  abbrev pub property_names : Option (Json Real) → List (List ℕ)
  property_names (some (Json.object properties)) = keys properties
  property_names _ = []

module _ {Real : Type 0} (compiles : List ℕ → Bool) where
  -- the body of the loop, from its end: the checks of the parameters, behind the name, behind the
  -- function
  unfoldable pub declare_schema : Functions Real → List ℕ → Members Real → Result (Functions Real)
  unfolding validate_schema get_member is_name all_of
  declare_schema functions name schema = do
    validate_schema compiles 33 (Json.object schema)
    require (all_of is_name (property_names (get_member (codes "properties") schema)))
        (value_error "invalid parameter name" [])
    ok (functions ++ (name, schema) ∷ [])

  unfoldable pub declare_named : Functions Real → Members Real → List ℕ → Result (Functions Real)
  unfolding parameters_of get_member declare_schema
  declare_named functions function name =
      parameters_of (get_member (codes "parameters") function) >>= declare_schema functions name

  unfoldable pub declare_function : Functions Real → Members Real → Result (Functions Real)
  unfolding name_of get_member declare_named
  declare_function functions function =
      name_of functions (get_member (codes "name") function) >>= declare_named functions function

  unfoldable pub declare : Functions Real → Json Real → Result (Functions Real)
  unfolding function_of declare_function
  declare functions tool = function_of tool >>= declare_function functions

  unfoldable pub declare_all : Functions Real → List (Json Real) → Result (Functions Real)
  unfolding declare
  declare_all functions [] = ok functions
  declare_all functions (tool ∷ tools) =
      declare functions tool >>= λ functions'. declare_all functions' tools

  unfoldable pub validate_tools : Json Real → Result (Functions Real)
  unfolding declare_all
  validate_tools (Json.array tools) = declare_all [] (items tools)
  validate_tools other = raise (value_error "tools must be an array" [])
