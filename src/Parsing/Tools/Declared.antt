-- ===== src/Parsing/Tools/Declared.antt =====
-- What `validate_tools` of src/qwasar_runtime/parsing.py returns.
use qwarz.Base.{
  ℕ, ◌≡◌, refl, ap, sym, ◌∙◌, inl, inr, Bool, ◌&&◌, not, true, false, Option, none, some, List, [],
  ◌∷◌, ◌++◌, arith, subst, append-nil, append_assoc, Bool-cases, if◌then◌else◌,
}
use qwarz.Base.Outcome.{Result, ok, raise, Error, value_error, ◌>>=◌, ◌>>◌}
use qwarz.Base.Texts.{codes}
use qwarz.Cycle.Suffix.{same}
use qwarz.Parsing.Json.{Json, Members, items, keys, get_member, contains, all_of}
use qwarz.Parsing.Schema.{require, validate_schema}
use qwarz.Parsing.Schema.Nested.{validate_schema-property}
use qwarz.Parsing.Tools.{
  Functions, names, is_name, name_of, function_of, parameters_of, property_names, declare_schema,
  declare_named, declare_function, declare, declare_all, validate_tools,
}

-- a chain that returns has a first step that returns
pub bound :
    {A B : Type 0} (m : Result A) (f : A → Result B) (b : B)
    → m >>= f ≡ ok b
    → (a : A) × (m ≡ ok a) × (f a ≡ ok b)
bound (ok a) f b h = (a, refl, h)
bound (raise err) f b h = absurd (cc)

pub ok-injective : {A : Type 0} (a b : A) → ok a ≡ ok b → a ≡ b
ok-injective a b h = cc

-- a guard that let through
pub passed :
    {A : Type 0} (test : Bool) (err : Error) (m : Result A) (a : A)
    → (if test then raise err else m) ≡ ok a
    → (test ≡ false) × (m ≡ ok a)
passed true err m a h = absurd (cc)
passed false err m a h = (refl, h)

pub require-true : (test : Bool) (err : Error) → require test err ≡ ok tt → test ≡ true
require-true true err h = refl
require-true false err h = absurd (cc)

same→eq : (a b : List ℕ) → same a b ≡ true → a ≡ b
same→eq [] [] h = refl
same→eq [] (y ∷ b) h = absurd (cc)
same→eq (x ∷ a) [] h = absurd (cc)
same→eq (x ∷ a) (y ∷ b) h = ground (arith, same→eq a b)

module _ {Real : Type 0} (compiles : List ℕ → Bool) where
  -- A declared function: a valid name, an accepted schema, and properties with valid names and
  -- accepted schemas.
  pub record Declared (named : List ℕ) (parameters : Members Real) : Type 0 where
    pub name : is_name named ≡ true
    pub schema : validate_schema compiles 33 (Json.object parameters) ≡ ok tt
    pub property :
        (properties : Members Real) (key : List ℕ) (child : Json Real)
        → get_member (codes "properties") parameters ≡ some (Json.object properties)
        → get_member key properties ≡ some child
        → (is_name key ≡ true) × (validate_schema compiles 33 child ≡ ok tt)

  -- all declared, and no name twice
  abbrev pub AllDeclared : Functions Real → Functions Real → Type 0
  AllDeclared before [] = Unit {0}
  AllDeclared before ((name, schema) ∷ functions) =
      Declared name schema
      × (contains name (names before) ≡ false)
      × AllDeclared (before ++ (name, schema) ∷ []) functions

  AllDeclared-append :
      (before functions : Functions Real) (name : List ℕ) (schema : Members Real)
      → AllDeclared before functions
      → Declared name schema
      → contains name (names (before ++ functions)) ≡ false
      → AllDeclared before (functions ++ (name, schema) ∷ [])
  AllDeclared-append before [] name schema h d new =
      (d, ap (λ l. contains name (names l)) (sym (append-nil before)) ∙ new, tt)
  AllDeclared-append before ((n, s) ∷ functions) name schema h d new = (
    h.0,
    h.1,
    AllDeclared-append (before ++ (n, s) ∷ []) functions name schema h.2 d
        (ap (λ l. contains name (names l)) (append_assoc before ((n, s) ∷ []) functions) ∙ new),
  )

  name_of-new :
      (functions : Functions Real) (o : Option (Json Real)) (name : List ℕ)
      → name_of functions o ≡ ok name
      → (is_name name ≡ true) × (contains name (names functions) ≡ false)
  unfolding name_of
  name_of-new functions (some (Json.text t)) name h =
      elim (Bool-cases (is_name t && not (contains t (names functions)))) [
        | inl good ↦
            let same_name : t ≡ name = ground (arith, good, h) in
            subst (λ n. (is_name n ≡ true) × (contains n (names functions) ≡ false)) same_name
              (ground (arith, good))
        | inr bad ↦ absurd (ground (arith, bad, h))
      ]
  name_of-new functions none name h = absurd (cc)
  name_of-new functions (some Json.null) name h = absurd (cc)
  name_of-new functions (some (Json.boolean b)) name h = absurd (cc)
  name_of-new functions (some (Json.integer b)) name h = absurd (cc)
  name_of-new functions (some (Json.real b)) name h = absurd (cc)
  name_of-new functions (some (Json.array b)) name h = absurd (cc)
  name_of-new functions (some (Json.object b)) name h = absurd (cc)

  keys-get :
      (test : List ℕ → Bool) (key : List ℕ) (members : Members Real) (child : Json Real)
      → all_of test (keys members) ≡ true
      → get_member key members ≡ some child
      → test key ≡ true
  unfolding all_of get_member
  keys-get test key Members.end child h found = absurd (cc)
  keys-get test key (Members.member k value members) child h found =
      elim (Bool-cases (same key k)) [
        | inl here ↦ ap test (same→eq key k here) ∙ ground (arith, h)
        | inr other ↦
            keys-get test key members child (ground (arith, h)) (ground (arith, other, found))
      ]

  declare_schema-Declared :
      (functions functions' : Functions Real) (name : List ℕ) (schema : Members Real)
      → is_name name ≡ true
      → declare_schema compiles functions name schema ≡ ok functions'
      → (functions' ≡ functions ++ (name, schema) ∷ []) × Declared name schema
  unfolding declare_schema
  declare_schema-Declared functions functions' name schema valid h =
      let good_names = all_of is_name (property_names (get_member (codes "properties") schema)) in
      let end : Result (Functions Real) = ok (functions ++ (name, schema) ∷ []) in
      let (_, accepted, h1) =
        bound (validate_schema compiles 33 (Json.object schema))
          (λ _. require good_names (value_error "invalid parameter name" []) >> end) functions' h in
      let (_, guard, h2) =
        bound (require good_names (value_error "invalid parameter name" [])) (λ _. end) functions'
          h1 in
      let good = require-true good_names _ guard in
      (
        sym (ok-injective _ _ h2),
        record {
          name = valid;
          schema = accepted;
          property = λ properties key child has found. (
            keys-get is_name key properties child
                (ap (λ o. all_of is_name (property_names o)) (sym has) ∙ good) found,
            validate_schema-property compiles 33 schema properties key child accepted has found,
          );
        },
      )

  declare-Declared :
      (functions functions' : Functions Real) (tool : Json Real)
      → declare compiles functions tool ≡ ok functions'
      → (name : List ℕ) × (schema : Members Real) × (functions' ≡ functions ++ (name, schema) ∷ [])
        × Declared name schema
        × (contains name (names functions) ≡ false)
  unfolding declare declare_function declare_named
  declare-Declared functions functions' tool h =
      let (function, _, h1) =
        bound (function_of tool) (declare_function compiles functions) functions' h in
      let (name, named, h2) =
        bound (name_of functions (get_member (codes "name") function))
          (declare_named compiles functions function) functions' h1 in
      let (schema, _, h3) =
        bound (parameters_of (get_member (codes "parameters") function))
          (declare_schema compiles functions name) functions' h2 in
      let (valid, new) = name_of-new functions (get_member (codes "name") function) name named in
      let (grown, declared) = declare_schema-Declared functions functions' name schema valid h3 in
      (name, schema, grown, declared, new)

  declare_all-AllDeclared :
      (tools : List (Json Real)) (before functions : Functions Real)
      → declare_all compiles before tools ≡ ok functions
      → AllDeclared [] before
      → AllDeclared [] functions
  unfolding declare_all
  declare_all-AllDeclared [] before functions h d =
      let e : before ≡ functions = ground (arith, h) in subst (AllDeclared []) e d
  declare_all-AllDeclared (tool ∷ tools) before functions h d =
      let (next, declared, rest) = bound (declare compiles before tool) _ functions h in
      let (name, schema, grown, good, new) = declare-Declared before next tool declared in
      declare_all-AllDeclared tools next functions rest
        (subst (AllDeclared []) (sym grown) (AllDeclared-append [] before name schema d good new))

  -- Where the tools of a request are accepted, every declared function has a valid name that no
  -- earlier one has and an accepted schema, and every property of it has a valid name and a schema
  -- that is accepted on its own.
  pub validate_tools-AllDeclared :
      (tools : Json Real) (functions : Functions Real)
      → validate_tools compiles tools ≡ ok functions
      → AllDeclared [] functions
  unfolding validate_tools
  validate_tools-AllDeclared (Json.array tools) functions h =
      declare_all-AllDeclared (items tools) [] functions h tt
  validate_tools-AllDeclared Json.null functions h = absurd (cc)
  validate_tools-AllDeclared (Json.boolean b) functions h = absurd (cc)
  validate_tools-AllDeclared (Json.integer b) functions h = absurd (cc)
  validate_tools-AllDeclared (Json.real b) functions h = absurd (cc)
  validate_tools-AllDeclared (Json.text b) functions h = absurd (cc)
  validate_tools-AllDeclared (Json.object b) functions h = absurd (cc)
