-- ===== src/Parsing/Schema/Nested.antt =====
-- A schema that is accepted inside another one is a schema on its own
-- (src/qwasar_runtime/parsing.py, `validate_schema`).
use qwarz.Base.{
  ℕ, zero, suc, ◌≡◌, refl, ap, sym, ◌∙◌, subst, inl, inr, Bool, true, false, Option, none, some,
  List, [], ◌∷◌, arith, Bool-cases,
}
use qwarz.Base.Outcome.{Result, ok, raise, ◌>>◌}
use qwarz.Base.Texts.{codes}
use qwarz.Cycle.Suffix.{same}
use qwarz.Parsing.Json.{Json, Jsons, Members, items, values, get_member}
use qwarz.Parsing.Schema.{
  check_all, check_table, check_child, check_prefixes, check_choice, check_nested, check_members,
  validate_schema,
}

-- if both return, both have
both : (m n : Result (Unit {0})) → m >> n ≡ ok tt → (m ≡ ok tt) × (n ≡ ok tt)
both (ok _) n h = (refl, h)
both (raise err) n h = absurd (cc)

in_turn : (m n : Result (Unit {0})) → m ≡ ok tt → n ≡ ok tt → m >> n ≡ ok tt
in_turn m n h k = rw (h, k) refl

laxer_chain :
    {m m' n n' : Result (Unit {0})}
    → (m ≡ ok tt → m' ≡ ok tt)
    → (n ≡ ok tt → n' ≡ ok tt)
    → m >> n ≡ ok tt
    → m' >> n' ≡ ok tt
laxer_chain {m} {m'} {n} {n'} f g h =
    let (now, later) = both m n h in in_turn m' n' (f now) (g later)

module _ {Real : Type 0} where
  -- a check that accepts at least as much
  abbrev Laxer : (Json Real → Result (Unit {0})) → (Json Real → Result (Unit {0})) → Type 0
  Laxer check check' = (s : Json Real) → check s ≡ ok tt → check' s ≡ ok tt

  check_all-Laxer :
      (check check' : Json Real → Result (Unit {0})) (schemas : List (Json Real))
      → Laxer check check'
      → check_all check schemas ≡ ok tt
      → check_all check' schemas ≡ ok tt
  unfolding check_all
  check_all-Laxer check check' [] lax h = refl
  check_all-Laxer check check' (s ∷ schemas) lax h =
      let (now, later) = both (check s) (check_all check schemas) h in
      in_turn (check' s) (check_all check' schemas) (lax s now)
        (check_all-Laxer check check' schemas lax later)

  module _ (compiles : List ℕ → Bool) (check check' : Json Real → Result (Unit {0}))
      (lax : Laxer check check') where
    check_table-Laxer :
        (patterns : Bool) (o : Option (Json Real))
        → check_table compiles check patterns o ≡ ok tt
        → check_table compiles check' patterns o ≡ ok tt
    unfolding check_table
    check_table-Laxer patterns none h = refl
    check_table-Laxer patterns (some (Json.object members)) h =
        let (guard, children) = both _ (check_all check (values members)) h in
        in_turn _ (check_all check' (values members)) guard
          (check_all-Laxer check check' (values members) lax children)
    check_table-Laxer patterns (some Json.null) h = h
    check_table-Laxer patterns (some (Json.boolean b)) h = h
    check_table-Laxer patterns (some (Json.integer n)) h = h
    check_table-Laxer patterns (some (Json.real r)) h = h
    check_table-Laxer patterns (some (Json.text t)) h = h
    check_table-Laxer patterns (some (Json.array xs)) h = h

    check_child-Laxer :
        (o : Option (Json Real))
        → check_child compiles check o ≡ ok tt
        → check_child compiles check' o ≡ ok tt
    unfolding check_child
    check_child-Laxer none h = refl
    check_child-Laxer (some s) h = lax s h

    check_prefixes-Laxer :
        (o : Option (Json Real))
        → check_prefixes compiles check o ≡ ok tt
        → check_prefixes compiles check' o ≡ ok tt
    unfolding check_prefixes
    check_prefixes-Laxer none h = refl
    check_prefixes-Laxer (some (Json.array schemas)) h =
        check_all-Laxer check check' (items schemas) lax h
    check_prefixes-Laxer (some (Json.object m)) h = h
    check_prefixes-Laxer (some Json.null) h = h
    check_prefixes-Laxer (some (Json.boolean b)) h = h
    check_prefixes-Laxer (some (Json.integer n)) h = h
    check_prefixes-Laxer (some (Json.real r)) h = h
    check_prefixes-Laxer (some (Json.text t)) h = h

    check_choice-Laxer :
        (o : Option (Json Real))
        → check_choice compiles check o ≡ ok tt
        → check_choice compiles check' o ≡ ok tt
    unfolding check_choice
    check_choice-Laxer none h = refl
    check_choice-Laxer (some (Json.array (Jsons.cons s schemas))) h =
        check_all-Laxer check check' (s ∷ items schemas) lax h
    check_choice-Laxer (some (Json.array Jsons.nil)) h = h
    check_choice-Laxer (some (Json.object m)) h = h
    check_choice-Laxer (some Json.null) h = h
    check_choice-Laxer (some (Json.boolean b)) h = h
    check_choice-Laxer (some (Json.integer n)) h = h
    check_choice-Laxer (some (Json.real r)) h = h
    check_choice-Laxer (some (Json.text t)) h = h

    check_nested-Laxer :
        (members : Members Real)
        → check_nested compiles check members ≡ ok tt
        → check_nested compiles check' members ≡ ok tt
    unfolding check_nested
    check_nested-Laxer members =
        let at = λ (key : List ℕ). get_member key members in
        laxer_chain (check_table-Laxer false (at (codes "properties"))) (
          laxer_chain (check_table-Laxer true (at (codes "patternProperties"))) (
            laxer_chain (check_table-Laxer false (at (codes "$defs"))) (
              laxer_chain (check_table-Laxer false (at (codes "definitions"))) (
                laxer_chain (check_child-Laxer (at (codes "additionalProperties"))) (
                  laxer_chain (check_child-Laxer (at (codes "items"))) (
                    laxer_chain (check_child-Laxer (at (codes "propertyNames"))) (
                      laxer_chain (check_prefixes-Laxer (at (codes "prefixItems"))) (
                        laxer_chain (check_choice-Laxer (at (codes "anyOf"))) (
                          laxer_chain (check_choice-Laxer (at (codes "oneOf"))) (
                            laxer_chain (check_choice-Laxer (at (codes "allOf")))
                              (check_child-Laxer (at (codes "not")))))))))))))

    check_members-Laxer :
        (members : Members Real)
        → check_members compiles check members ≡ ok tt
        → check_members compiles check' members ≡ ok tt
    unfolding check_members
    check_members-Laxer members =
        laxer_chain (λ h. h)
          (laxer_chain (λ h. h) (laxer_chain (check_nested-Laxer members) (λ h. h)))

  module _ (compiles : List ℕ → Bool) where
    -- more room accepts at least as much
    validate_schema-suc :
        (room : ℕ) (s : Json Real)
        → validate_schema compiles room s ≡ ok tt
        → validate_schema compiles (suc room) s ≡ ok tt
    unfolding validate_schema
    validate_schema-suc room (Json.boolean b) h = refl
    validate_schema-suc zero (Json.object members) h = absurd (let e : raise _ ≡ ok tt = h in cc)
    validate_schema-suc (suc room) (Json.object members) h =
        check_members-Laxer compiles (validate_schema compiles room)
          (validate_schema compiles (suc room)) (validate_schema-suc room) members h
    validate_schema-suc room Json.null h = absurd (let e : raise _ ≡ ok tt = h in cc)
    validate_schema-suc room (Json.integer n) h = absurd (cc)
    validate_schema-suc room (Json.real n) h = absurd (cc)
    validate_schema-suc room (Json.text n) h = absurd (cc)
    validate_schema-suc room (Json.array n) h = absurd (cc)

    check_all-get :
        (check : Json Real → Result (Unit {0})) (key : List ℕ) (members : Members Real)
        (child : Json Real)
        → check_all check (values members) ≡ ok tt
        → get_member key members ≡ some child
        → check child ≡ ok tt
    unfolding check_all get_member
    check_all-get check key Members.end child h found = absurd (cc)
    check_all-get check key (Members.member k value members) child h found =
        let (now, later) = both (check value) (check_all check (values members)) h in
        elim (Bool-cases (same key k)) [
          | inl here ↦ let e : value ≡ child = ground (arith, here, found) in ap check (sym e) ∙ now
          | inr other ↦ check_all-get check key members child later (ground (arith, other, found))
        ]

    table-get :
        (check : Json Real → Result (Unit {0})) (patterns : Bool) (o : Option (Json Real))
        (key : List ℕ) (members : Members Real) (child : Json Real)
        → check_table compiles check patterns o ≡ ok tt
        → o ≡ some (Json.object members)
        → get_member key members ≡ some child
        → check child ≡ ok tt
    unfolding check_table
    table-get check patterns o key members child h has found =
        let (guard, children) =
          both _ (check_all check (values members))
            (subst (λ x. check_table compiles check patterns x ≡ ok tt) has h) in
        check_all-get check key members child children found

    -- A schema that is accepted at any depth has property schemas that are accepted at that depth too.
    pub validate_schema-property :
        (room : ℕ) (schema properties : Members Real) (key : List ℕ) (child : Json Real)
        → validate_schema compiles room (Json.object schema) ≡ ok tt
        → get_member (codes "properties") schema ≡ some (Json.object properties)
        → get_member key properties ≡ some child
        → validate_schema compiles room child ≡ ok tt
    unfolding validate_schema check_members check_nested
    validate_schema-property zero schema properties key child h has found =
        absurd (let e : raise _ ≡ ok tt = h in cc)
    validate_schema-property (suc room) schema properties key child h has found =
        let (_, after_keys) = both _ _ h in
        let (_, after_type) = both _ _ after_keys in
        let (nested, _) = both _ _ after_type in
        let (table, _) = both _ _ nested in
        validate_schema-suc room child (
          table-get (validate_schema compiles room) false (get_member (codes "properties") schema)
            key properties child table has found)
