-- ===== src/Parsing/Messages/NewCalls.antt =====
-- The calls of an assistant that src/qwasar_runtime/parsing.py accepts.
use qwarz.Base.{
  ℕ, ◌≡◌, subst, inl, inr, ◌&&◌, not, true, false, Option, none, some, List, [], ◌∷◌, ◌++◌, length,
  leb, arith, Bool-cases,
}
use qwarz.Base.Outcome.{ok, ◌>>=◌}
use qwarz.Base.Texts.{codes}
use qwarz.Parsing.Json.{Json, Members, get_member, contains}
use qwarz.Parsing.Tools.{is_name}
use qwarz.Parsing.Tools.Declared.{bound, ok-injective}
use qwarz.Parsing.Messages.{
  Call, call_key, function_of_call, JsonText, arguments_of, call_of, finish_call, read_function,
  read_call, read_calls,
}

-- each call has a valid name and an id that is not empty and that no call before has
abbrev pub NewCalls : List (List ℕ) → List Call → Type 0
NewCalls used [] = Unit {0}
NewCalls used (call ∷ calls) =
    (leb 1 (length call.id) ≡ true)
    × (contains call.id used ≡ false)
    × (is_name call.name ≡ true)
    × NewCalls (used ++ call.id ∷ []) calls

module _ {Real : Type 0} where
  call_key-new :
      (used : List (List ℕ)) (id name : Option (Json Real)) (key : List ℕ × List ℕ)
      → call_key used id name ≡ ok key
      → (leb 1 (length key.0) ≡ true) × (contains key.0 used ≡ false) × (is_name key.1 ≡ true)
  unfolding call_key
  call_key-new used (some (Json.text id)) (some (Json.text name)) key h =
      elim (Bool-cases (leb 1 (length id) && not (contains id used) && is_name name)) [
        | inl good ↦
            let pair : List ℕ × List ℕ = (id, name) in
            let same_key : pair ≡ key = ok-injective pair key (ground (arith, good, h)) in
            subst
              (λ k.
                (leb 1 (length k.0) ≡ true) × (contains k.0 used ≡ false) × (is_name k.1 ≡ true))
              same_key (ground (arith, good))
        | inr bad ↦ absurd (ground (arith, bad, h))
      ]
  call_key-new used none name key h = absurd (cc)
  call_key-new used (some Json.null) name key h = absurd (cc)
  call_key-new used (some (Json.boolean b)) name key h = absurd (cc)
  call_key-new used (some (Json.integer b)) name key h = absurd (cc)
  call_key-new used (some (Json.real b)) name key h = absurd (cc)
  call_key-new used (some (Json.array b)) name key h = absurd (cc)
  call_key-new used (some (Json.object b)) name key h = absurd (cc)
  call_key-new used (some (Json.text id)) none key h = absurd (cc)
  call_key-new used (some (Json.text id)) (some Json.null) key h = absurd (cc)
  call_key-new used (some (Json.text id)) (some (Json.boolean b)) key h = absurd (cc)
  call_key-new used (some (Json.text id)) (some (Json.integer b)) key h = absurd (cc)
  call_key-new used (some (Json.text id)) (some (Json.real b)) key h = absurd (cc)
  call_key-new used (some (Json.text id)) (some (Json.array b)) key h = absurd (cc)
  call_key-new used (some (Json.text id)) (some (Json.object b)) key h = absurd (cc)

module _ {Real : Type 0} (json : JsonText Real) where
  abbrev NewCall : List (List ℕ) → Call → Type 0
  NewCall used call =
      (leb 1 (length call.id) ≡ true) × (contains call.id used ≡ false) × (is_name call.name ≡ true)

  read_function-new :
      (used : List (List ℕ)) (id : Option (Json Real)) (function : Members Real) (call : Call)
      → read_function json used id function ≡ ok call
      → NewCall used call
  unfolding read_function finish_call
  read_function-new used id function call h =
      let (key, found, h1) =
        bound (call_key used id (get_member (codes "name") function)) (finish_call json function)
          call h in
      let (arguments, _, h2) =
        bound (arguments_of json (get_member (codes "arguments") function)) (call_of key) call h1 in
      subst (NewCall used)
        (ok-injective (record { id = key.0; name = key.1; arguments = arguments }) call h2)
        (call_key-new used id (get_member (codes "name") function) key found)

  read_call-new :
      (used : List (List ℕ)) (value : Json Real) (call : Call)
      → read_call json used value ≡ ok call
      → NewCall used call
  unfolding read_call
  read_call-new used (Json.object fields) call h =
      let (function, _, h1) =
        bound (function_of_call (get_member (codes "function") fields))
          (read_function json used (get_member (codes "id") fields)) call h in
      read_function-new used (get_member (codes "id") fields) function call h1
  read_call-new used Json.null call h = absurd (cc)
  read_call-new used (Json.boolean b) call h = absurd (cc)
  read_call-new used (Json.integer b) call h = absurd (cc)
  read_call-new used (Json.real b) call h = absurd (cc)
  read_call-new used (Json.text b) call h = absurd (cc)
  read_call-new used (Json.array b) call h = absurd (cc)

  pub read_calls-NewCalls :
      (values : List (Json Real)) (used : List (List ℕ)) (calls : List Call)
      → read_calls json used values ≡ ok calls
      → NewCalls used calls
  unfolding read_calls
  read_calls-NewCalls [] used calls h = subst (NewCalls used) (ok-injective [] calls h) tt
  read_calls-NewCalls (value ∷ values) used calls h =
      let (call, read, h1) =
        bound (read_call json used value)
          (λ first. (read_calls json (used ++ first.id ∷ []) values >>= λ rest. ok (first ∷ rest)))
          calls h in
      let (rest, later, h2) =
        bound (read_calls json (used ++ call.id ∷ []) values) (λ rest. ok (call ∷ rest)) calls h1 in
      let (nonempty, new, named) = read_call-new used value call read in
      subst (NewCalls used) (ok-injective (call ∷ rest) calls h2)
        (nonempty, new, named, read_calls-NewCalls values (used ++ call.id ∷ []) rest later)
