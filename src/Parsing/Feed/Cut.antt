-- ===== src/Parsing/Feed/Cut.antt =====
-- Searches in a text that comes in two parts (src/qwasar_runtime/parsing.py, `feed`).
use qwarz.Base.{
  ℕ, suc, ◌+◌, ◌-◌, ◌≤◌, ◌≡◌, refl, ap, sym, ◌∙◌, inl, inr, ◌&&◌, false, Option, none, some, List,
  [], ◌∷◌, ◌++◌, length, ltb, arith, Bool-cases, Option-cases, length-append,
}
use qwarz.Base.Texts.{begins, find_text, shift}
use qwarz.Parsing.Feed.Held.{
  held_end, held_end-drop, begins-append, begins-length, begins-append_split, begins_of_append,
}

pub shift-shift : (a b : ℕ) (o : Option ℕ) → shift a (shift b o) ≡ shift (a + b) o
shift-shift a b none = refl
shift-shift a b (some p) = ap some (omega arith)

shift_zero : (o : Option ℕ) → shift 0 o ≡ o
shift_zero none = refl
shift_zero (some p) = ap some (omega arith)

-- nothing of a text that is not held back is part of the marker
miss_at :
    (m : List ℕ) (x : ℕ) (w ys : List ℕ)
    → begins m (x ∷ w) ≡ false
    → (begins (x ∷ w) m && ltb (suc (length w)) (length m)) ≡ false
    → begins m (x ∷ (w ++ ys)) ≡ false
miss_at m x w ys miss short = elim (Bool-cases (begins m (x ∷ (w ++ ys)))) [
  | inr off ↦ off
  | inl hit ↦ elim (begins-append_split m (x ∷ w) ys hit) [
    | inl now ↦ absurd (cc)
    | inr (prefix, fits) ↦ absurd (ground (arith, prefix, fits, short))
  ]
]

find_text-none :
    (m : List ℕ) (x : ℕ) (w : List ℕ)
    → find_text m (x ∷ w) ≡ none
    → (begins m (x ∷ w) ≡ false) × (find_text m w ≡ none)
unfolding find_text
find_text-none m x w h = elim (Bool-cases (begins m (x ∷ w))) [
  | inl hit ↦ absurd (ground (arith, hit, h))
  | inr miss ↦ (
    miss,
    elim (Option-cases (find_text m w)) [
      | inl none_there ↦ none_there
      | inr (p, there) ↦ absurd (ground (arith, miss, h, there))
    ],
  )
]

find_text-miss :
    (m : List ℕ) (x : ℕ) (w : List ℕ)
    → begins m (x ∷ w) ≡ false
    → find_text m (x ∷ w) ≡ shift 1 (find_text m w)
unfolding find_text
find_text-miss m x w miss = rw miss refl

-- a search that has found nothing goes on from what is held back
pub find_text-held :
    (m w ys : List ℕ)
    → find_text m w ≡ none
    → find_text m (w ++ ys)
      ≡ shift (length w - length (held_end m w)) (find_text m (held_end m w ++ ys))
unfolding held_end
find_text-held m [] ys h = sym (shift_zero (find_text m ys))
find_text-held m (x ∷ w) ys h =
    elim (Bool-cases (begins (x ∷ w) m && ltb (suc (length w)) (length m))) [
      | inl all ↦
          let none_left : suc (length w) - suc (length w) ≡ 0 = omega arith in
          rw (all, none_left) (sym (shift_zero (find_text m (x ∷ (w ++ ys)))))
      | inr part ↦
          let (miss, none_there) = find_text-none m x w h in
          let (short, _) = held_end-drop m w in
          let one_more : suc (length w) - length (held_end m w)
              ≡ 1 + (length w - length (held_end m w)) =
            omega arith in
          rw (part, one_more)
            (find_text-miss m x (w ++ ys) (miss_at m x w ys miss part)
              ∙ ap (shift 1) (find_text-held m w ys none_there)
              ∙ shift-shift 1 (length w - length (held_end m w)) (find_text m (held_end m w ++ ys)))
    ]

pub held_end-append : (m w ys : List ℕ) → held_end m (w ++ ys) ≡ held_end m (held_end m w ++ ys)
unfolding held_end
held_end-append m [] ys = refl
held_end-append m (x ∷ w) ys =
    elim (Bool-cases (begins (x ∷ w) m && ltb (suc (length w)) (length m))) [
      | inl all ↦ rw all refl
      | inr part ↦
          let off : (begins (x ∷ (w ++ ys)) m && ltb (suc (length (w ++ ys))) (length m)) ≡ false =
            ground (arith, begins_of_append (x ∷ w) ys m, length-append w ys, part) in
          rw (part, off) (held_end-append m w ys)
    ]

-- a search that has found the marker finds it there whatever comes behind
pub find_text-some :
    (m w ys : List ℕ) (p : ℕ)
    → find_text m w ≡ some p
    → (find_text m (w ++ ys) ≡ some p) × (p + length m ≤ length w)
unfolding find_text
find_text-some [] [] [] p h = let e : 0 ≡ p = ground (arith, h) in (h, omega arith)
find_text-some [] [] (y ∷ ys) p h = let e : 0 ≡ p = ground (arith, h) in (h, omega arith)
find_text-some (c ∷ m) [] ys p h = absurd (let u : none ≡ some p = h in cc)
find_text-some m (x ∷ w) ys p h = elim (Bool-cases (begins m (x ∷ w))) [
  | inl hit ↦
      let at : 0 ≡ p = ground (arith, hit, h) in
      rw (begins-append m (x ∷ w) ys hit)
        (ap some at, omega (arith, begins-length m (x ∷ w) hit, at))
  | inr miss ↦ elim (Option-cases (find_text m w)) [
    | inl nothing ↦ absurd (ground (arith, miss, h, nothing))
    | inr (q, there) ↦
        let (again, fits) = find_text-some m w ys q there in
        let at : 1 + q ≡ p = ground (arith, miss, h, there) in
        let off : begins m (x ∷ (w ++ ys)) ≡ false = elim (Bool-cases (begins m (x ∷ (w ++ ys)))) [
          | inr off ↦ off
          | inl hit ↦ elim (begins-append_split m (x ∷ w) ys hit) [
            | inl now ↦ absurd (cc)
            | inr (_, short) ↦ absurd (omega (arith, short, fits))
          ]
        ] in
        rw (off, again) (ap some at, omega arith)
  ]
]
