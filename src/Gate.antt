-- ===== src/Gate.antt =====
-- engine/forward/gate.py: a report opens the cutover only with all of its cells and gates.
pub mod Whole
use qwarz.Base.{ℕ, Bool, ◌&&◌, true, false, Option, none, some, List, [], ◌∷◌, ◌++◌}
use qwarz.Base.Texts.{codes}
use qwarz.Parsing.Json.{Json, Members, keys, values, get_member, contains, all_of}

abbrev pub families : List (List ℕ)
families = codes "lru" ∷ codes "ring" ∷ codes "bucket" ∷ codes "ttl" ∷ []

-- the contexts as the labels print them
abbrev pub contexts : List (List ℕ)
contexts = codes "32768" ∷ codes "65536" ∷ codes "131072" ∷ codes "258048" ∷ []

abbrev pub gate_names : List (List ℕ)
gate_names =
    codes "coding_not_worse"
    ∷ codes "json_all"
    ∷ codes "acceptance_within_5pp"
    ∷ codes "memory_within_half_gib"
    ∷ []

abbrev pub labels_of : List ℕ → List (List ℕ) → List (List ℕ)
labels_of family [] = []
labels_of family (context ∷ rest) =
    (family ++ codes "-" ++ context ++ codes "-0")
    ∷ (family ++ codes "-" ++ context ++ codes "-1")
    ∷ labels_of family rest

abbrev pub coding_cells : List (List ℕ) → List (List ℕ)
coding_cells [] = []
coding_cells (family ∷ rest) = labels_of family contexts ++ coding_cells rest

abbrev pub json_cells : List (List ℕ) → List (List ℕ)
json_cells [] = []
json_cells (context ∷ rest) = (codes "json-" ++ context ++ codes "-0-cold") ∷ json_cells rest

unfoldable pub cells : List (List ℕ)
cells = coding_cells families ++ json_cells contexts ++ codes "warmup" ∷ []

module _ {Real : Type 0} where
  abbrev pub is_true : Option (Json Real) → Bool
  is_true (some (Json.boolean true)) = true
  is_true _ = false

  -- a row with `passed`
  unfoldable pub passed : Json Real → Bool
  unfolding get_member
  passed (Json.object row) = is_true (get_member (codes "passed") row)
  passed _ = false

  -- the keys are exactly the cells, and every row has passed
  unfoldable pub cells_passed : Option (Json Real) → Bool
  unfolding contains all_of cells passed
  cells_passed (some (Json.object got)) =
      all_of (λ cell. contains cell (keys got)) cells
      && all_of (λ key. contains key cells) (keys got)
      && all_of passed (values got)
  cells_passed _ = false

  unfoldable pub gates_passed : Option (Json Real) → Bool
  unfolding all_of get_member
  gates_passed (some (Json.object gates)) =
      all_of (λ name. is_true (get_member name gates)) gate_names
  gates_passed _ = false

  unfoldable pub promotion_allowed : Json Real → Bool
  unfolding cells_passed gates_passed get_member
  promotion_allowed (Json.object report) =
      cells_passed (get_member (codes "cells") report)
      && gates_passed (get_member (codes "gates") report)
  promotion_allowed _ = false
