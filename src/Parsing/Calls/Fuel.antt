-- ===== src/Parsing/Calls/Fuel.antt =====
-- The fuel of `_parse_parameters` (src/qwasar_runtime/parsing.py) is enough.
use qwarz.Base.{
  ℕ, zero, suc, ◌+◌, ◌≤◌, ◌<◌, ◌≡◌, inl, inr, some, List, [], ◌∷◌, ◌++◌, length, take, drop, arith,
  Bool-cases, Option-cases, length-drop,
}
use qwarz.Base.Texts.{find_text, strip_left, is_space}
use qwarz.Parsing.Feed.Cut.{find_text-some}
use qwarz.Parsing.Calls.{closes}

-- every text behind a closing tag is shorter than `bound`
abbrev pub Shorter : ℕ → List (List ℕ × List ℕ) → Type 0
Shorter bound [] = Unit {0}
Shorter bound ((value, tail) ∷ more) = (length tail < bound) × Shorter bound more

pub Shorter-mono :
    (a b : ℕ) (list : List (List ℕ × List ℕ)) → a ≤ b → Shorter a list → Shorter b list
Shorter-mono a b [] h s = tt
Shorter-mono a b ((value, tail) ∷ more) h s = (omega (arith, s.0), Shorter-mono a b more h s.1)

found_inside : (m w : List ℕ) (p : ℕ) → find_text m w ≡ some p → p + length m ≤ length w
found_inside m w p h = (find_text-some m w [] p h).1

pub closes-Shorter :
    (fuel : ℕ) (needle seen text : List ℕ)
    → 0 < length needle
    → Shorter (length text) (closes fuel needle seen text)
unfolding closes
closes-Shorter zero needle seen text h = tt
closes-Shorter (suc fuel) needle seen text h = elim (Option-cases (find_text needle text)) [
  | inl nothing ↦ rw (Shorter, closes, nothing) tt
  | inr (p, found) ↦
      let rest = drop (p + length needle) text in
      let size : length rest < length text =
        omega (arith, length-drop (p + length needle) text, found_inside needle text p found) in
      rw (Shorter, closes, found)
        (
          size,
          Shorter-mono (length rest) (length text)
              (closes fuel needle (seen ++ take (p + length needle) text) rest)
              (omega (arith, size))
              (closes-Shorter fuel needle (seen ++ take (p + length needle) text) rest h),
        )
]

pub length-strip_left : (text : List ℕ) → length (strip_left text) ≤ length text
unfolding strip_left
length-strip_left [] = omega arith
length-strip_left (c ∷ text) = elim (Bool-cases (is_space c)) [
  | inl space ↦ rw space (omega (arith, length-strip_left text))
  | inr other ↦ rw other (omega arith)
]
