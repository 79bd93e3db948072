-- ===== src/Parsing/Schema.antt =====
-- `validate_schema` and `validate_tools` of src/qwasar_runtime/parsing.py. What `re` accepts and
-- finds is a parameter. An error's message is the source's, without the names set into it.
pub mod Nested
use qwarz.Base.{
  ℕ, zero, suc, Bool, ◌&&◌, ◌||◌, not, true, false, Option, none, some, List, [], ◌∷◌, ◌++◌, length,
  leb, ltb, if◌then◌else◌,
}
use qwarz.Base.Outcome.{Result, ok, raise, Error, value_error, ◌>>=◌, ◌>>◌}
use qwarz.Base.Texts.{codes, begins}
use qwarz.Parsing.Json.{
  Json, Jsons, Members, items, entries, keys, values, get_member, or_else, is_text, contains,
  all_distinct, all_of,
}

abbrev pub supported : List (List ℕ)
supported =
    codes "type"
    ∷ codes "properties"
    ∷ codes "patternProperties"
    ∷ codes "propertyNames"
    ∷ codes "required"
    ∷ codes "additionalProperties"
    ∷ codes "items"
    ∷ codes "prefixItems"
    ∷ codes "minItems"
    ∷ codes "maxItems"
    ∷ codes "uniqueItems"
    ∷ codes "minLength"
    ∷ codes "maxLength"
    ∷ codes "pattern"
    ∷ codes "format"
    ∷ codes "minimum"
    ∷ codes "maximum"
    ∷ codes "exclusiveMinimum"
    ∷ codes "exclusiveMaximum"
    ∷ codes "enum"
    ∷ codes "const"
    ∷ codes "anyOf"
    ∷ codes "oneOf"
    ∷ codes "allOf"
    ∷ codes "not"
    ∷ codes "$ref"
    ∷ codes "$defs"
    ∷ codes "definitions"
    ∷ codes "$schema"
    ∷ codes "$id"
    ∷ codes "title"
    ∷ codes "description"
    ∷ codes "default"
    ∷ codes "examples"
    ∷ codes "deprecated"
    ∷ codes "readOnly"
    ∷ codes "writeOnly"
    ∷ []

abbrev pub kinds : List (List ℕ)
kinds =
    codes "object"
    ∷ codes "array"
    ∷ codes "string"
    ∷ codes "integer"
    ∷ codes "number"
    ∷ codes "boolean"
    ∷ codes "null"
    ∷ []

-- a guard that raises
abbrev pub require : Bool → Error → Result (Unit {0})
require true err = ok tt
require false err = raise err

-- a loop that only checks
unfoldable pub check_all {ℓ} : {A : Type ℓ} → (A → Result (Unit {0})) → List A → Result (Unit {0})
check_all check [] = ok tt
check_all check (x ∷ xs) = let rest = check_all check xs in (check x >>= λ _. rest)

abbrev pub distinct_texts : Option (List (List ℕ)) → Bool
distinct_texts none = false
distinct_texts (some names) = all_distinct names

module _ {Real : Type 0} where
  abbrev pub is_kind : Json Real → Bool
  is_kind (Json.text t) = contains t kinds
  is_kind _ = false

  -- the schema's `type`, which is a name or a list of names
  unfoldable pub check_type : Option (Json Real) → Result (Unit {0})
  unfolding contains all_of
  check_type none = ok tt
  check_type (some (Json.text t)) =
      require (contains t kinds) (value_error "invalid schema type" [])
  check_type (some (Json.array kinds_given)) =
      require (all_of is_kind (items kinds_given)) (value_error "invalid schema type" [])
  check_type (some other) = raise (value_error "invalid schema type" [])

  abbrev pub texts_of : List (Json Real) → Option (List (List ℕ))
  texts_of [] = some []
  texts_of (Json.text t ∷ rest) = elim (texts_of rest) [ none ↦ none | some ts ↦ some (t ∷ ts) ]
  texts_of (other ∷ rest) = none

  unfoldable pub check_required : Option (Json Real) → Result (Unit {0})
  unfolding all_distinct
  check_required none = ok tt
  check_required (some (Json.array names)) =
      require (distinct_texts (texts_of (items names)))
        (value_error "required must contain unique property names" [])
  check_required (some other) = raise (value_error "required must contain unique property names" [])

  unfoldable pub check_reference : Option (Json Real) → Result (Unit {0})
  unfolding begins
  check_reference none = ok tt
  check_reference (some (Json.text t)) =
      require (begins (codes "#/") t) (value_error "only local schema references are supported" [])
  check_reference (some other) = raise (value_error "only local schema references are supported" [])

  unfoldable pub check_format : Option (Json Real) → Result (Unit {0})
  check_format none = ok tt
  check_format (some (Json.text [])) = raise (value_error "format must be a nonempty string" [])
  check_format (some (Json.text (c ∷ t))) = ok tt
  check_format (some other) = raise (value_error "format must be a nonempty string" [])

module _ {Real : Type 0} (compiles : List ℕ → Bool) where
  unfoldable pub check_pattern : Option (Json Real) → Result (Unit {0})
  check_pattern none = ok tt
  check_pattern (some (Json.text t)) =
      require (compiles t) (value_error "invalid schema pattern" [])
  check_pattern (some other) = raise (value_error "invalid schema pattern" [])

  -- the keywords whose value is a dictionary of schemas; the patterns are checked before the schemas
  unfoldable pub check_table :
      (Json Real → Result (Unit {0})) → Bool → Option (Json Real) → Result (Unit {0})
  unfolding all_of check_all
  check_table check patterns none = ok tt
  check_table check patterns (some (Json.object members)) = do
    require (not patterns || all_of compiles (keys members))
        (value_error "invalid patternProperties pattern" [])
    check_all check (values members)
  check_table check patterns (some other) = raise (value_error "keyword must be an object" [])

  unfoldable pub check_child :
      (Json Real → Result (Unit {0})) → Option (Json Real) → Result (Unit {0})
  check_child check none = ok tt
  check_child check (some child) = check child

  unfoldable pub check_prefixes :
      (Json Real → Result (Unit {0})) → Option (Json Real) → Result (Unit {0})
  unfolding check_all
  check_prefixes check none = ok tt
  check_prefixes check (some (Json.array prefixes)) = check_all check (items prefixes)
  check_prefixes check (some other) = raise (value_error "prefixItems must be an array" [])

  unfoldable pub check_choice :
      (Json Real → Result (Unit {0})) → Option (Json Real) → Result (Unit {0})
  unfolding check_all
  check_choice check none = ok tt
  check_choice check (some (Json.array (Jsons.cons child children))) =
      check_all check (child ∷ items children)
  check_choice check (some other) = raise (value_error "keyword must be a nonempty array" [])

  -- the keywords that hold schemas, in the order of the source
  unfoldable pub check_nested : (Json Real → Result (Unit {0})) → Members Real → Result (Unit {0})
  unfolding get_member check_table check_child check_prefixes check_choice
  check_nested check members = do
    check_table check false (get_member (codes "properties") members)
    check_table check true (get_member (codes "patternProperties") members)
    check_table check false (get_member (codes "$defs") members)
    check_table check false (get_member (codes "definitions") members)
    check_child check (get_member (codes "additionalProperties") members)
    check_child check (get_member (codes "items") members)
    check_child check (get_member (codes "propertyNames") members)
    check_prefixes check (get_member (codes "prefixItems") members)
    check_choice check (get_member (codes "anyOf") members)
    check_choice check (get_member (codes "oneOf") members)
    check_choice check (get_member (codes "allOf") members)
    check_child check (get_member (codes "not") members)

  -- the checks of one dictionary
  unfoldable pub check_members : (Json Real → Result (Unit {0})) → Members Real → Result (Unit {0})
  unfolding contains all_of get_member check_type check_nested check_required check_reference
      check_pattern check_format
  check_members check members = do
    require (all_of (λ key. contains key supported) (keys members))
        (value_error "unsupported schema keywords" [])
    check_type (get_member (codes "type") members)
    check_nested check members
    check_required (get_member (codes "required") members)
    check_reference (get_member (codes "$ref") members)
    check_pattern (get_member (codes "pattern") members)
    check_format (get_member (codes "format") members)

  -- `validate_schema`, with the depth that is left: 33 for the depth 0
  unfoldable pub validate_schema : ℕ → Json Real → Result (Unit {0})
  unfolding check_members
  validate_schema room (Json.boolean b) = ok tt
  validate_schema (suc room) (Json.object members) =
      let nested = validate_schema room in check_members nested members
  validate_schema _ _ = raise (value_error "invalid or excessively nested schema" [])
