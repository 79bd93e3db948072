-- ===== src/Chat/Cuts.antt =====
-- `prefix_cuts` of engine/forward/chat.py: where a prefill is cut so that a later session finds a
-- mark there.
pub mod Aligned
use qwarz.Base.{
  ℕ, suc, ◌+◌, ◌-◌, ◌*◌, ◌/◌, Option, none, some, List, [], ◌∷◌, length, get_elem?, ltb, leb, ◌==◌,
  if◌then◌else◌,
}
use qwarz.Cycle.Prefill.{insert_cut}

-- `IM_START`
abbrev pub im_start : ℕ
im_start = 248_045

-- the positions of the message starts, from `index` on
unfoldable pub im_starts : ℕ → List ℕ → List ℕ
im_starts index [] = []
im_starts index (token ∷ tokens) =
    let rest = im_starts (index + 1) tokens in if token == im_start then index ∷ rest else rest

-- `cuts.add(start // page * page)`
unfoldable pub add_floor : ℕ → Option ℕ → List ℕ → List ℕ
unfolding insert_cut
add_floor page none cuts = cuts
add_floor page (some start) cuts = insert_cut (start / page * page) cuts

-- the cuts above 0
unfoldable pub above_zero : List ℕ → List ℕ
above_zero [] = []
above_zero (cut ∷ cuts) = let rest = above_zero cuts in if ltb 0 cut then cut ∷ rest else rest

unfoldable pub prefix_cuts : List ℕ → ℕ → List ℕ
unfolding im_starts add_floor above_zero
prefix_cuts tokens page =
    let starts = im_starts 0 tokens in
    let shared = if leb 2 (length starts) then add_floor page (get_elem? starts 1) [] else [] in
    above_zero (
      if leb 3 (length starts)
      then add_floor page (get_elem? starts (length starts - 2)) shared
      else shared)
