-- ===== src/Session/Marks.antt =====
-- The prefix marks of engine/forward/session.py: a dictionary from positions to host copies.
use qwarz.Base.{
  ℕ, ◌-◌, ◌&&◌, Option, none, some, List, [], ◌∷◌, ◌++◌, length, ltb, leb, ◌==◌, if◌then◌else◌, max,
}
use qwarz.Device.{Engine}
use qwarz.Cycle.Prefill.{insert_cut}

-- a pinned state and the row carried behind it
pub record Mark (e : Engine) : Type 0 where
  pub snapshot : e.Snapshot
  pub carry : Option e.Row

module _ {e : Engine} where
  unfoldable pub mark_at : ℕ → List (ℕ × Mark e) → Option (Mark e)
  mark_at position [] = none
  mark_at position ((p, mark) ∷ marks) = if p == position then some mark else mark_at position marks

  unfoldable pub drop_mark : ℕ → List (ℕ × Mark e) → List (ℕ × Mark e)
  drop_mark position [] = []
  drop_mark position ((p, mark) ∷ marks) =
      let rest = drop_mark position marks in if p == position then rest else (p, mark) ∷ rest

  -- `max(position for position in self.marks if 0 < position <= limit)`
  unfoldable pub best_mark : ℕ → List (ℕ × Mark e) → Option ℕ
  best_mark limit [] = none
  best_mark limit ((p, mark) ∷ marks) =
      let rest = best_mark limit marks in
      if ltb 0 p && leb p limit then some (elim rest [ none ↦ p | some q ↦ max p q ]) else rest

  -- the marks behind the one returned to are deleted
  unfoldable pub prune_above : ℕ → List (ℕ × Mark e) → List (ℕ × Mark e)
  prune_above best [] = []
  prune_above best ((p, mark) ∷ marks) =
      let rest = prune_above best marks in if ltb best p then rest else (p, mark) ∷ rest

  -- `sorted(self.marks)`
  unfoldable pub sorted_positions : List (ℕ × Mark e) → List ℕ
  unfolding insert_cut
  sorted_positions [] = []
  sorted_positions ((p, mark) ∷ marks) = insert_cut p (sorted_positions marks)

-- The inner position with the smallest gap between its neighbours, the first of several: `key` has
-- the smallest so far, `gap`, and the list begins with a left neighbour.
unfoldable pub narrowest : ℕ → ℕ → List ℕ → ℕ
narrowest gap key (a ∷ b ∷ c ∷ positions) =
    let better = ltb (c - a) gap in
    narrowest (if better then c - a else gap) (if better then b else key) (b ∷ c ∷ positions)
narrowest gap key _ = key

-- `victim`: none with fewer than three marks
unfoldable pub victim : List ℕ → Option ℕ
unfolding narrowest
victim (a ∷ b ∷ c ∷ positions) = some (narrowest (c - a) b (b ∷ c ∷ positions))
victim _ = none

module _ {e : Engine} (most : ℕ)
    (capture_host : Option (Option e.Snapshot → e.Target → e.Snapshot)) where
  -- one mark makes room, and its host copy is written over
  unfoldable pub replace_mark :
      (Option e.Snapshot → e.Target → e.Snapshot)
      → Option ℕ
      → ℕ
      → Option e.Row
      → e.Target
      → List (ℕ × Mark e)
      → List (ℕ × Mark e)
  unfolding mark_at drop_mark
  replace_mark capture none end carry target marks = marks
  replace_mark capture (some position) end carry target marks =
      let slot : Option e.Snapshot = elim (mark_at position marks) [
        | none ↦ none
        | some mark ↦ some mark.snapshot
      ] in
      drop_mark position marks
      ++ (end, record { snapshot = capture slot target; carry = carry }) ∷ []

  -- `_on_span`, with `most` for `PREFIX_MARKS`
  unfoldable pub note_mark : ℕ → Option e.Row → e.Target → List (ℕ × Mark e) → List (ℕ × Mark e)
  unfolding replace_mark victim sorted_positions mark_at
  note_mark end carry target marks = elim capture_host [
    | none ↦ marks
    | some capture ↦ elim (mark_at end marks) [
      | some mark ↦ marks
      | none ↦
          if most == 0
          then marks
          else (if leb most (length marks)
              then replace_mark capture (victim (sorted_positions marks)) end carry target marks
              else marks ++ (end, record { snapshot = capture none target; carry = carry }) ∷ [])
    ]
  ]
