-- ===== src/Parsing/Coerce.antt =====
-- How src/qwasar_runtime/parsing.py reads the parameters of a native tool call: by the types that the
-- tool's schema allows, and with the coercions that it makes afterwards. A set of types is a list.
pub mod Values
use qwarz.Base.{
  ℕ, Bool, true, false, ◌&&◌, ◌||◌, not, Option, none, some, List, [], ◌∷◌, ◌++◌, if◌then◌else◌,
}
use qwarz.Base.Outcome.{Result, ok, raise, value_error}
use qwarz.Base.Texts.{codes, strip}
use qwarz.Cycle.Suffix.{same}
use qwarz.Parsing.Json.{Json, Jsons, Members, get_member, contains}

-- What `re`, `json` and `str.casefold` do. A TypeError of `json.loads` is caught with a ValueError
-- everywhere, and counts as one.
pub record Reader (Real : Type 0) : Type 0 where
  pub parse_json : List ℕ → Result (Json Real)
  pub casefold : List ℕ → List ℕ
  pub search : List ℕ → List ℕ → Bool

abbrev pub Types : Type 0
Types = List (List ℕ)

abbrev pub texts_in : {Real : Type 0} → Jsons Real → Types
texts_in Jsons.nil = []
texts_in (Jsons.cons (Json.text t) values) = t ∷ texts_in values
texts_in (Jsons.cons other values) = texts_in values

-- a schema's `type`, one or several
abbrev pub own_types : {Real : Type 0} → Option (Json Real) → Types
own_types (some (Json.text t)) = t ∷ []
own_types (some (Json.array values)) = texts_in values
own_types _ = []

abbrev pub is_branch : List ℕ → Bool
is_branch key = same key (codes "anyOf") || same key (codes "oneOf") || same key (codes "allOf")

-- `schema_types`
unfoldable mutual
  unfolding get_member

  pub schema_types : {Real : Type 0} → Json Real → Types
  schema_types (Json.object members) =
      own_types (get_member (codes "type") members) ++ branch_types members
  schema_types Json.null = []
  schema_types (Json.boolean b) = []
  schema_types (Json.integer n) = []
  schema_types (Json.real r) = []
  schema_types (Json.text t) = []
  schema_types (Json.array values) = []

  pub branch_types : {Real : Type 0} → Members Real → Types
  branch_types Members.end = []
  branch_types (Members.member key value members) =
      (if is_branch key then listed_types value else []) ++ branch_types members

  pub listed_types : {Real : Type 0} → Json Real → Types
  listed_types (Json.array values) = each_types values
  listed_types Json.null = []
  listed_types (Json.boolean b) = []
  listed_types (Json.integer n) = []
  listed_types (Json.real r) = []
  listed_types (Json.text t) = []
  listed_types (Json.object members) = []

  pub each_types : {Real : Type 0} → Jsons Real → Types
  each_types Jsons.nil = []
  each_types (Jsons.cons value values) = schema_types value ++ each_types values

abbrev pub all_types : {Real : Type 0} → List (Json Real) → Types
all_types [] = []
all_types (schema ∷ schemas) = schema_types schema ++ all_types schemas

-- `BOOLEAN_LITERALS`
unfoldable pub boolean_literal : List ℕ → Option Bool
boolean_literal t =
    if same t (codes "true") || same t (codes "yes") || same t (codes "on")
    then some true
    else (if same t (codes "false") || same t (codes "no") || same t (codes "off")
        then some false
        else none)

-- `TEXT_KEYS`
abbrev pub text_keys : List (List ℕ)
text_keys =
    codes "title"
    ∷ codes "label"
    ∷ codes "text"
    ∷ codes "value"
    ∷ codes "question"
    ∷ codes "name"
    ∷ []

module _ {Real : Type 0} (reader : Reader Real) where
  unfoldable pub literal_or : List ℕ → Types → Option Bool → Result (Json Real)
  literal_or text types (some b) = ok (Json.boolean b)
  literal_or text [] none = ok (Json.text text)
  literal_or text (t ∷ types) none = raise (value_error "invalid JSON value" [])

  -- what is no JSON
  unfoldable pub read_scalar : List ℕ → Types → Result (Json Real)
  unfolding literal_or boolean_literal contains strip
  read_scalar text types = literal_or text types (
      if contains (codes "boolean") types
      then boolean_literal (reader.casefold (strip text))
      else none)

  unfoldable pub read_json : List ℕ → Types → Result (Json Real) → Result (Json Real)
  unfolding read_scalar
  read_json text types (ok value) = ok value
  read_json text types (raise (value_error message numbers)) = read_scalar text types
  read_json text types (raise err) = raise err

  unfoldable pub parse_tool_parameter : List ℕ → List (Json Real) → Result (Json Real)
  unfolding read_json schema_types contains strip
  parse_tool_parameter text schemas =
      if contains (codes "string") (all_types schemas)
      then ok (Json.text text)
      else read_json text (all_types schemas) (reader.parse_json (strip text))

  abbrev pub members_of : Option (Json Real) → Members Real
  members_of (some (Json.object members)) = members
  members_of _ = Members.end

  unfoldable pub matching_patterns : List ℕ → Members Real → List (Json Real)
  matching_patterns name Members.end = []
  matching_patterns name (Members.member pattern schema patterns) =
      let rest = matching_patterns name patterns in
      if reader.search pattern name then schema ∷ rest else rest

  abbrev pub found_first : Option (Json Real) → List (Json Real) → List (Json Real)
  found_first none schemas = schemas
  found_first (some schema) schemas = schema ∷ schemas

  abbrev pub or_additional : Option (Json Real) → List (Json Real) → List (Json Real)
  or_additional none [] = Json.boolean true ∷ []
  or_additional (some schema) [] = schema ∷ []
  or_additional additional (schema ∷ schemas) = schema ∷ schemas

  unfoldable pub property_schemas : Members Real → List ℕ → List (Json Real)
  unfolding matching_patterns get_member
  property_schemas schema name = or_additional (get_member (codes "additionalProperties") schema) (
      found_first (get_member name (members_of (get_member (codes "properties") schema)))
        (matching_patterns name (members_of (get_member (codes "patternProperties") schema))))
