-- ===== src/Gate/Whole.antt =====
-- What an open gate of engine/forward/gate.py says of the report.
use qwarz.Base.{
  ℕ, ◌≡◌, refl, ap, sym, ◌∙◌, inl, inr, Bool, ◌&&◌, true, Option, none, some, List, [], ◌∷◌, arith,
  Bool-cases,
}
use qwarz.Base.Texts.{codes}
use qwarz.Cycle.Suffix.{same}
use qwarz.Parsing.Json.{Json, Members, keys, values, get_member, contains, all_of}
use qwarz.Gate.{gate_names, cells, is_true, passed, cells_passed, gates_passed, promotion_allowed}

-- `test` at every key of a list
abbrev pub Each : (List ℕ → Type 0) → List (List ℕ) → Type 0
Each P [] = Unit {0}
Each P (key ∷ keys) = P key × Each P keys

Each-all_of :
    (test : List ℕ → Bool) (P : List ℕ → Type 0) (list : List (List ℕ))
    → ((key : List ℕ) → test key ≡ true → P key)
    → all_of test list ≡ true
    → Each P list
unfolding all_of
Each-all_of test P [] f h = tt
Each-all_of test P (key ∷ list) f h =
    (f key (ground (arith, h)), Each-all_of test P list f (ground (arith, h)))

module _ {Real : Type 0} where
  -- a key that is there has a row, which passed if all rows did
  passed_row :
      (got : Members Real) (key : List ℕ)
      → all_of passed (values got) ≡ true
      → contains key (keys got) ≡ true
      → (row : Json Real) × (get_member key got ≡ some row) × (passed row ≡ true)
  unfolding all_of contains get_member
  passed_row Members.end key all there = absurd (cc)
  passed_row (Members.member k row got) key all there = elim (Bool-cases (same key k)) [
    | inl here ↦ rw here (row, refl, ground (arith, all))
    | inr other ↦ rw other (passed_row got key (ground (arith, all)) (ground (arith, other, there)))
  ]

  -- The report of an open gate: every one of the cells has a row that passed, no other cell is
  -- there, and every gate is true.
  pub record Opened (report : Members Real) : Type 0 where
    pub got : Members Real
    pub has_cells : get_member (codes "cells") report ≡ some (Json.object got)
    pub rows :
        Each
          (λ cell. (row : Json Real) × (get_member cell got ≡ some row) × (passed row ≡ true))
          cells
    pub no_other : Each (λ key. contains key cells ≡ true) (keys got)
    pub gates : Members Real
    pub has_gates : get_member (codes "gates") report ≡ some (Json.object gates)
    pub all_gates : Each (λ name. is_true (get_member name gates) ≡ true) gate_names

  object_of_cells :
      (o : Option (Json Real))
      → cells_passed o ≡ true
      → (got : Members Real) × (o ≡ some (Json.object got))
  unfolding cells_passed
  object_of_cells (some (Json.object got)) h = (got, refl)
  object_of_cells none h = absurd (cc)
  object_of_cells (some Json.null) h = absurd (cc)
  object_of_cells (some (Json.boolean b)) h = absurd (cc)
  object_of_cells (some (Json.integer b)) h = absurd (cc)
  object_of_cells (some (Json.real b)) h = absurd (cc)
  object_of_cells (some (Json.text b)) h = absurd (cc)
  object_of_cells (some (Json.array b)) h = absurd (cc)

  object_of_gates :
      (o : Option (Json Real))
      → gates_passed o ≡ true
      → (gates : Members Real) × (o ≡ some (Json.object gates))
  unfolding gates_passed
  object_of_gates (some (Json.object gates)) h = (gates, refl)
  object_of_gates none h = absurd (cc)
  object_of_gates (some Json.null) h = absurd (cc)
  object_of_gates (some (Json.boolean b)) h = absurd (cc)
  object_of_gates (some (Json.integer b)) h = absurd (cc)
  object_of_gates (some (Json.real b)) h = absurd (cc)
  object_of_gates (some (Json.text b)) h = absurd (cc)
  object_of_gates (some (Json.array b)) h = absurd (cc)

  -- A report that opens the gate has a passed row for every cell of the matrix, no other cell, and
  -- every gate true.
  pub promotion_allowed-Opened :
      (report : Members Real) → promotion_allowed (Json.object report) ≡ true → Opened report
  unfolding promotion_allowed
  promotion_allowed-Opened report h =
      let cells_good : cells_passed (get_member (codes "cells") report) ≡ true =
        ground (arith, h) in
      let gates_good : gates_passed (get_member (codes "gates") report) ≡ true =
        ground (arith, h) in
      let (got, has) = object_of_cells (get_member (codes "cells") report) cells_good in
      let (gates, has_gates) = object_of_gates (get_member (codes "gates") report) gates_good in
      let all : (all_of (λ cell. contains cell (keys got)) cells
            && all_of (λ key. contains key cells) (keys got)
            && all_of passed (values got))
          ≡ true =
        unfold cells_passed in (ap cells_passed (sym has) ∙ cells_good) in
      record {
        got = got;
        has_cells = has;
        rows =
            Each-all_of _ _ cells (λ cell there. passed_row got cell (ground (arith, all)) there)
              (ground (arith, all));
        no_other = Each-all_of _ _ (keys got) (λ key there. there) (ground (arith, all));
        gates = gates;
        has_gates = has_gates;
        all_gates =
            Each-all_of (λ name. is_true (get_member name gates)) _ gate_names (λ name h1. h1)
              (unfold gates_passed in (ap gates_passed (sym has_gates) ∙ gates_good));
      }
