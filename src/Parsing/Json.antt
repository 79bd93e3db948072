-- ===== src/Parsing/Json.antt =====
-- The JSON values that src/qwasar_runtime/parsing.py reads: what Python's `json` gives. A dictionary is
-- the list of its items, in their order; `Real` stands for floats.
use qwarz.Base.{ℕ, Bool, true, false, Option, none, some, List, [], ◌∷◌, ◌&&◌, not, if◌then◌else◌}
use qwarz.Base.Int.{ℤ}
use qwarz.Cycle.Suffix.{same}

mutual
  pub data Json (Real : Type 0) : Type 0 where
    null : Json Real
    boolean : Bool → Json Real
    integer : ℤ → Json Real
    real : Real → Json Real
    text : List ℕ → Json Real
    array : Jsons Real → Json Real
    object : Members Real → Json Real

  pub data Jsons (Real : Type 0) : Type 0 where
    nil : Jsons Real
    cons : Json Real → Jsons Real → Jsons Real

  pub data Members (Real : Type 0) : Type 0 where
    end : Members Real
    member : List ℕ → Json Real → Members Real → Members Real

module _ {Real : Type 0} where
  abbrev pub items : Jsons Real → List (Json Real)
  items Jsons.nil = []
  items (Jsons.cons value values) = value ∷ items values

  -- `dict.items()`
  abbrev pub entries : Members Real → List (List ℕ × Json Real)
  entries Members.end = []
  entries (Members.member key value members) = (key, value) ∷ entries members

  abbrev pub keys : Members Real → List (List ℕ)
  keys Members.end = []
  keys (Members.member key value members) = key ∷ keys members

  abbrev pub values : Members Real → List (Json Real)
  values Members.end = []
  values (Members.member key value members) = value ∷ values members

  -- `dict.get`
  unfoldable pub get_member : List ℕ → Members Real → Option (Json Real)
  get_member key Members.end = none
  get_member key (Members.member k value members) =
      let rest = get_member key members in if same key k then some value else rest

  -- `dict.get` with a default
  abbrev pub or_else : Json Real → Option (Json Real) → Json Real
  or_else default none = default
  or_else default (some value) = value

  abbrev pub is_text : Json Real → Bool
  is_text (Json.text t) = true
  is_text _ = false

-- `in`, over texts
unfoldable pub contains : List ℕ → List (List ℕ) → Bool
contains key [] = false
contains key (k ∷ others) = if same key k then true else contains key others

-- `len(names) == len(set(names))`
unfoldable pub all_distinct : List (List ℕ) → Bool
unfolding contains
all_distinct [] = true
all_distinct (name ∷ names) = not (contains name names) && all_distinct names

unfoldable pub all_of {ℓ} : {A : Type ℓ} → (A → Bool) → List A → Bool
all_of test [] = true
all_of test (x ∷ xs) = test x && all_of test xs
