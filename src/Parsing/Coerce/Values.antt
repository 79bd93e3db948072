-- ===== src/Parsing/Coerce/Values.antt =====
-- `coerce_value` and `coerce_arguments` of src/qwasar_runtime/parsing.py. The recursion follows the
-- schema: each schema becomes its coercion, with those of the schemas that it holds.
use qwarz.Base.{ℕ, Bool, Option, none, some, List, [], ◌∷◌, if◌then◌else◌}
use qwarz.Base.Texts.{codes, strip}
use qwarz.Cycle.Suffix.{same}
use qwarz.Parsing.Json.{Json, Jsons, Members, get_member, contains}
use qwarz.Parsing.Coerce.{
  Types, Reader, texts_in, own_types, boolean_literal, text_keys, property_schemas,
}

abbrev pub Coercion : Type 0 → Type 0
Coercion Real = Json Real → Json Real

-- the coercion of a schema, and of the schemas in it if it is an array or an object
pub record Coercer (Real : Type 0) : Type 0 where
  pub coerce : Coercion Real
  pub listed : List (Coercion Real)
  pub named : List (List ℕ × Coercion Real)

abbrev pub Table : Type 0 → Type 0
Table Real = List (List ℕ × Coercer Real)

abbrev pub as_is : {Real : Type 0} → Coercion Real
as_is value = value

abbrev pub coercions : {Real : Type 0} → Table Real → List (List ℕ × Coercion Real)
coercions [] = []
coercions ((key, coercer) ∷ table) = (key, coercer.coerce) ∷ coercions table

abbrev pub find_coercer : {Real : Type 0} → List ℕ → Table Real → Option (Coercer Real)
find_coercer key [] = none
find_coercer key ((k, coercer) ∷ table) =
    if same key k then some coercer else find_coercer key table

abbrev pub find_coercion : {Real : Type 0} → List ℕ → List (List ℕ × Coercion Real) → Coercion Real
find_coercion key [] = as_is
find_coercion key ((k, coerce) ∷ rest) = if same key k then coerce else find_coercion key rest

abbrev pub coerce_of : {Real : Type 0} → Option (Coercer Real) → Coercion Real
coerce_of none = as_is
coerce_of (some coercer) = coercer.coerce

abbrev pub listed_of : {Real : Type 0} → Option (Coercer Real) → List (Coercion Real)
listed_of none = []
listed_of (some coercer) = coercer.listed

abbrev pub named_of : {Real : Type 0} → Option (Coercer Real) → List (List ℕ × Coercion Real)
named_of none = []
named_of (some coercer) = coercer.named

-- the first of the keys that has a text with something in it
unfoldable pub first_text : {Real : Type 0} → List (List ℕ) → Members Real → Option (List ℕ)
unfolding get_member
first_text [] members = none
first_text (key ∷ keys) members =
    let rest = first_text keys members in
    elim (get_member key members) [ some (Json.text (c ∷ t)) ↦ some (c ∷ t) | _ ↦ rest ]

-- `_as_text`
unfoldable pub as_text : {Real : Type 0} → Json Real → Option (List ℕ)
unfolding first_text
as_text (Json.text t) = some t
as_text (Json.object members) = first_text text_keys members
as_text _ = none

abbrev pub text_or : {Real : Type 0} → Json Real → Option (List ℕ) → Json Real
text_or value none = value
text_or value (some t) = Json.text t

abbrev pub boolean_or : {Real : Type 0} → Json Real → Option Bool → Json Real
boolean_or value none = value
boolean_or value (some b) = Json.boolean b

-- the items by the prefix schemas, and then by `items`
unfoldable pub coerce_items :
    {Real : Type 0} → List (Coercion Real) → Coercion Real → Jsons Real → Jsons Real
coerce_items prefixes rest Jsons.nil = Jsons.nil
coerce_items [] rest (Jsons.cons value values) =
    Jsons.cons (rest value) (coerce_items [] rest values)
coerce_items (coerce ∷ prefixes) rest (Jsons.cons value values) =
    Jsons.cons (coerce value) (coerce_items prefixes rest values)

unfoldable pub coerce_members :
    {Real : Type 0} → List (List ℕ × Coercion Real) → Members Real → Members Real
coerce_members named Members.end = Members.end
coerce_members named (Members.member key value members) =
    Members.member key (find_coercion key named value) (coerce_members named members)

unfoldable pub known_keys : Types → Types
unfolding contains
known_keys [] = []
known_keys (key ∷ keys) = if contains key text_keys then key ∷ known_keys keys else known_keys keys

-- the names in a schema's `required`
abbrev pub required_of : {Real : Type 0} → Option (Json Real) → Types
required_of (some (Json.array values)) = texts_in values
required_of _ = []

-- a text as the only required key that is known to hold texts
abbrev pub wrapped : {Real : Type 0} → List ℕ → Types → Json Real
wrapped t (key ∷ []) = Json.object (Members.member key (Json.text t) Members.end)
wrapped t _ = Json.text t

module _ {Real : Type 0} (reader : Reader Real) where
  unfoldable pub as_string : Types → Coercion Real
  unfolding as_text contains
  as_string types (Json.text t) = Json.text t
  as_string types other =
      if contains (codes "string") types then text_or other (as_text other) else other

  unfoldable pub as_boolean : Types → Coercion Real
  unfolding boolean_literal contains strip
  as_boolean types (Json.text t) =
      if contains (codes "boolean") types
      then boolean_or (Json.text t) (boolean_literal (reader.casefold (strip t)))
      else Json.text t
  as_boolean types other = other

  unfoldable pub as_array : Types → Table Real → Coercion Real
  unfolding coerce_items contains
  as_array types table (Json.array values) =
      if contains (codes "array") types
      then Json.array (
          coerce_items (listed_of (find_coercer (codes "prefixItems") table))
            (coerce_of (find_coercer (codes "items") table)) values)
      else Json.array values
  as_array types table other = other

  unfoldable pub as_wrapped : Types → Members Real → Coercion Real
  unfolding known_keys contains get_member
  as_wrapped types schema (Json.text t) =
      if contains (codes "object") types
      then wrapped t (known_keys (required_of (get_member (codes "required") schema)))
      else Json.text t
  as_wrapped types schema other = other

  unfoldable pub as_object : Types → Table Real → Coercion Real
  unfolding coerce_members contains
  as_object types table (Json.object members) =
      if contains (codes "object") types
      then Json.object (coerce_members (named_of (find_coercer (codes "properties") table)) members)
      else Json.object members
  as_object types table other = other

  -- the steps of `coerce_value` in their order
  unfoldable pub coerce_by : Members Real → Table Real → Coercion Real
  unfolding as_string as_boolean as_array as_wrapped as_object get_member
  coerce_by schema table value =
      let types = own_types (get_member (codes "type") schema) in
      as_object types table
        (as_wrapped types schema (as_array types table (as_boolean types (as_string types value))))

unfoldable mutual
  unfolding coerce_by

  pub coercer : {Real : Type 0} → Reader Real → Json Real → Coercer Real
  coercer reader (Json.object members) = record {
    coerce = coerce_by reader members (table_of reader members);
    listed = [];
    named = coercions (table_of reader members);
  }
  coercer reader (Json.array values) = record {
    coerce = as_is;
    listed = list_of reader values;
    named = [];
  }
  coercer reader Json.null = record { coerce = as_is; listed = []; named = [] }
  coercer reader (Json.boolean b) = record { coerce = as_is; listed = []; named = [] }
  coercer reader (Json.integer n) = record { coerce = as_is; listed = []; named = [] }
  coercer reader (Json.real r) = record { coerce = as_is; listed = []; named = [] }
  coercer reader (Json.text t) = record { coerce = as_is; listed = []; named = [] }

  pub table_of : {Real : Type 0} → Reader Real → Members Real → Table Real
  table_of reader Members.end = []
  table_of reader (Members.member key value members) =
      (key, coercer reader value) ∷ table_of reader members

  pub list_of : {Real : Type 0} → Reader Real → Jsons Real → List (Coercion Real)
  list_of reader Jsons.nil = []
  list_of reader (Jsons.cons value values) = (coercer reader value).coerce ∷ list_of reader values

module _ {Real : Type 0} (reader : Reader Real) where
  unfoldable pub coerce_value : Json Real → Json Real → Json Real
  unfolding coercer
  coerce_value value schema = (coercer reader schema).coerce value

  unfoldable pub coerce_all : Json Real → List (Json Real) → Json Real
  unfolding coerce_value
  coerce_all value [] = value
  coerce_all value (schema ∷ schemas) = coerce_all (coerce_value value schema) schemas

  unfoldable pub coerce_arguments : Members Real → Members Real → Members Real
  unfolding coerce_all property_schemas
  coerce_arguments schema Members.end = Members.end
  coerce_arguments schema (Members.member key value arguments) =
      Members.member key (coerce_all value (property_schemas reader schema key))
        (coerce_arguments schema arguments)
