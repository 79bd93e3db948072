-- ===== src/Parsing/Feed/Held.antt =====
-- What `feed` of src/qwasar_runtime/parsing.py holds back: the longest end of a text that may begin the
-- marker, and what a search finds when more text comes behind.
use qwarz.Base.{
  ℕ, zero, suc, ◌+◌, ◌-◌, ◌≤◌, ◌<◌, ◌≡◌, refl, ap, sym, ◌∙◌, ◌⊎◌, inl, inr, ◌&&◌, true, false, List,
  [], ◌∷◌, ◌++◌, length, take, drop, min, leb, ltb, if◌then◌else◌, arith, Bool-cases,
  length-take_of_le,
}
use qwarz.Base.Texts.{begins, ends_with}
use qwarz.Parsing.Feed.{held, held_upto}

-- the longest end of a text that is a proper prefix of the marker
unfoldable pub held_end : List ℕ → List ℕ → List ℕ
unfolding begins
held_end marker [] = []
held_end marker (c ∷ text) =
    let rest = held_end marker text in
    if begins (c ∷ text) marker && ltb (suc (length text)) (length marker) then c ∷ text else rest

pub begins-append : (m u ys : List ℕ) → begins m u ≡ true → begins m (u ++ ys) ≡ true
unfolding begins
begins-append [] u ys h = refl
begins-append (p ∷ m) [] ys h = absurd (cc)
begins-append (p ∷ m) (c ∷ u) ys h = ground (arith, begins-append m u ys)

pub begins-length : (m u : List ℕ) → begins m u ≡ true → length m ≤ length u
unfolding begins
begins-length [] u h = omega arith
begins-length (p ∷ m) [] h = absurd (cc)
begins-length (p ∷ m) (c ∷ u) h = ground (arith, begins-length m u)

-- a marker that begins in `u` and ends behind it
pub begins-append_split :
    (m u ys : List ℕ)
    → begins m (u ++ ys) ≡ true
    → (begins m u ≡ true) ⊎ ((begins u m ≡ true) × (length u < length m))
unfolding begins
begins-append_split [] u ys h = inl refl
begins-append_split (p ∷ m) [] ys h = inr (refl, omega arith)
begins-append_split (p ∷ m) (c ∷ u) ys h = ground (arith, begins-append_split m u ys)

pub begins_of_append : (u ys m : List ℕ) → begins (u ++ ys) m ≡ true → begins u m ≡ true
unfolding begins
begins_of_append [] ys m h = refl
begins_of_append (c ∷ u) ys [] h = absurd (cc)
begins_of_append (c ∷ u) ys (p ∷ m) h = ground (arith, begins_of_append u ys m)

begins-take : (m u : List ℕ) → length u ≤ length m → begins (take (length u) m) u ≡ begins u m
unfolding begins
begins-take m [] h = refl
begins-take [] (c ∷ u) h = absurd (omega arith)
begins-take (p ∷ m) (c ∷ u) h = let ih = begins-take m u (omega arith) in ground arith

-- a text that is held back is an end of the text
pub held_end-drop :
    (m xs : List ℕ)
    → (length (held_end m xs) ≤ length xs)
      × (drop (length xs - length (held_end m xs)) xs ≡ held_end m xs)
unfolding held_end
held_end-drop m [] = (omega arith, refl)
held_end-drop m (x ∷ xs) =
    let (short, same) = held_end-drop m xs in
    elim (Bool-cases (begins (x ∷ xs) m && ltb (suc (length xs)) (length m))) [
      | inl all ↦
          let none_left : suc (length xs) - suc (length xs) ≡ 0 = omega arith in
          rw all (omega arith, rw none_left refl)
      | inr part ↦
          let one_more : suc (length xs) - length (held_end m xs)
              ≡ suc (length xs - length (held_end m xs)) =
            omega arith in
          rw part (omega arith, rw one_more same)
    ]

ends_with_tail :
    (n : ℕ) (m : List ℕ) (x : ℕ) (xs : List ℕ)
    → n ≤ length xs
    → n ≤ length m
    → ends_with (take n m) (x ∷ xs) ≡ ends_with (take n m) xs
unfolding ends_with
ends_with_tail n m x xs h k =
    let size : length (take n m) ≡ n = length-take_of_le n m k in
    let one_more : suc (length xs) - n ≡ suc (length xs - n) = omega arith in
    let t1 : leb n (suc (length xs)) ≡ true = ground arith in
    let t2 : leb n (length xs) ≡ true = ground arith in rw (size, one_more, t1, t2) refl

held_upto_tail :
    (n : ℕ) (m : List ℕ) (x : ℕ) (xs : List ℕ)
    → n ≤ length xs
    → n ≤ length m
    → held_upto n m (x ∷ xs) ≡ held_upto n m xs
unfolding held_upto
held_upto_tail zero m x xs h k = refl
held_upto_tail (suc n) m x xs h k =
    rw (ends_with_tail (suc n) m x xs h k, held_upto_tail n m x xs (omega arith) (omega arith)) refl

ends_with_all :
    (m : List ℕ) (xs : List ℕ)
    → length xs ≤ length m
    → ends_with (take (length xs) m) xs ≡ begins xs m
unfolding ends_with
ends_with_all m xs h =
    let size : length (take (length xs) m) ≡ length xs = length-take_of_le (length xs) m h in
    let t : leb (length xs) (length xs) ≡ true = ground arith in
    let none_left : length xs - length xs ≡ 0 = omega arith in
    rw (size, t, none_left) (begins-take m xs h)

-- the source's loop finds that end
pub held-length : (m xs : List ℕ) → 0 < length m → held m xs ≡ length (held_end m xs)
unfolding held held_end
held-length m [] some_code =
    let bound : min (length m) (length {A = ℕ} [] + 1) - 1 ≡ 0 = omega arith in
    rw bound (unfold held_upto in refl)
held-length m (x ∷ xs) some_code = elim (Bool-cases (ltb (suc (length xs)) (length m))) [
  | inl short ↦
      let n1 : min (length m) (suc (length xs) + 1) - 1 ≡ suc (length xs) = ground arith in
      let n2 : min (length m) (length xs + 1) - 1 ≡ length xs = ground arith in
      let ih : held_upto (length xs) m xs ≡ length (held_end m xs) =
        ap (λ n. held_upto n m xs) (sym n2) ∙ held-length m xs some_code in
      let le : suc (length xs) ≤ length m = ground arith in
      rw
        (
          n1,
          held_upto,
          ends_with_all m (x ∷ xs) le,
          held_upto_tail (length xs) m x xs (omega arith) (omega arith),
          ih,
          short,
        )
        (elim (Bool-cases (begins (x ∷ xs) m)) [ inl hit ↦ rw hit refl | inr miss ↦ rw miss refl ])
  | inr long ↦
      let le : length m ≤ suc (length xs) = ground arith in
      let n1 : min (length m) (suc (length xs) + 1) - 1 ≡ length m - 1 = ground arith in
      let n2 : min (length m) (length xs + 1) - 1 ≡ length m - 1 = ground arith in
      let ih : held_upto (length m - 1) m xs ≡ length (held_end m xs) =
        ap (λ n. held_upto n m xs) (sym n2) ∙ held-length m xs some_code in
      let off : (begins (x ∷ xs) m && ltb (suc (length xs)) (length m)) ≡ false = ground arith in
      rw (n1, off, held_upto_tail (length m - 1) m x xs (omega arith) (omega arith), ih) refl
]
