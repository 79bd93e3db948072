-- ===== src/Base/Lists.antt =====
-- Lists with lengths and indices in the native numbers.
use Prim.Native.Nat.{ℕ, zero, suc, ◌+◌, ◌-◌, ◌≤◌, ◌<◌}
use mathlib.Core.Path.{◌≡◌, refl, ap}
use mathlib.Core.Bool.{Bool, false, ◌||◌}
use mathlib.Core.Option.{Option, none, some}
use mathlib.Core.List.{List, [], ◌∷◌, ◌++◌, map}
use native.Mathlib.Omega.{arith}
use qwarz.Base.Tests.{◌==◌}

module _ {ℓ} {A : Type ℓ} where
  abbrev pub length : List A → ℕ
  length [] = 0
  length (x ∷ xs) = suc (length xs)

  -- `xs[:n]`
  abbrev pub take : ℕ → List A → List A
  take zero xs = []
  take (suc n) [] = []
  take (suc n) (x ∷ xs) = x ∷ take n xs

  -- `xs[n:]`
  abbrev pub drop : ℕ → List A → List A
  drop zero xs = xs
  drop (suc n) [] = []
  drop (suc n) (x ∷ xs) = drop n xs

  abbrev pub get_elem? : List A → ℕ → Option A
  get_elem? [] i = none
  get_elem? (x ∷ xs) zero = some x
  get_elem? (x ∷ xs) (suc i) = get_elem? xs i

  -- `xs[:-1]`
  abbrev pub init_list : List A → List A
  init_list [] = []
  init_list (x ∷ []) = []
  init_list (x ∷ y ∷ r) = x ∷ init_list (y ∷ r)

  -- `xs[-1]`, with the value for an empty list
  abbrev pub last_or : A → List A → A
  last_or d [] = d
  last_or d (x ∷ r) = last_or x r

  pub length-append : (xs ys : List A) → length (xs ++ ys) ≡ length xs + length ys
  length-append [] ys = omega arith
  length-append (x ∷ xs) ys = omega (arith, length-append xs ys)

  pub length-take-le : (n : ℕ) (xs : List A) → length (take n xs) ≤ n
  length-take-le zero xs = omega arith
  length-take-le (suc n) [] = omega arith
  length-take-le (suc n) (x ∷ xs) = omega (arith, length-take-le n xs)

  pub length-take_of_le : (n : ℕ) (xs : List A) → n ≤ length xs → length (take n xs) ≡ n
  length-take_of_le zero xs h = refl
  length-take_of_le (suc n) [] h = absurd (omega arith)
  length-take_of_le (suc n) (x ∷ xs) h = omega (arith, length-take_of_le n xs (omega arith))

  pub take_of_length-le : (k : ℕ) (items : List A) → length items ≤ k → take k items ≡ items
  take_of_length-le zero [] short = refl
  take_of_length-le (suc k) [] short = refl
  take_of_length-le (suc k) (item ∷ items) short =
      ap (λ l. item ∷ l) (take_of_length-le k items (omega arith))
  take_of_length-le zero (item ∷ items) short = absurd (omega arith)

  pub take-append_left : (n : ℕ) (xs ys : List A) → n ≤ length xs → take n (xs ++ ys) ≡ take n xs
  take-append_left zero xs ys h = refl
  take-append_left (suc n) [] ys h = absurd (omega arith)
  take-append_left (suc n) (x ∷ xs) ys h = ap (◌∷◌ x) (take-append_left n xs ys (omega arith))

  pub take-append_self : (xs ys : List A) → take (length xs) (xs ++ ys) ≡ xs
  take-append_self [] ys = refl
  take-append_self (x ∷ xs) ys = ap (◌∷◌ x) (take-append_self xs ys)

  pub drop-append_self : (xs ys : List A) → drop (length xs) (xs ++ ys) ≡ ys
  drop-append_self [] ys = refl
  drop-append_self (x ∷ xs) ys = drop-append_self xs ys

  pub take-append-drop : (n : ℕ) (xs : List A) → take n xs ++ drop n xs ≡ xs
  take-append-drop zero xs = refl
  take-append-drop (suc n) [] = refl
  take-append-drop (suc n) (x ∷ xs) = ap (◌∷◌ x) (take-append-drop n xs)

  pub length-drop : (n : ℕ) (xs : List A) → length (drop n xs) ≡ length xs - n
  length-drop zero xs = omega arith
  length-drop (suc n) [] = omega arith
  length-drop (suc n) (x ∷ xs) = omega (arith, length-drop n xs)

module _ {ℓ} {A : Type ℓ} where
  pub init_list-append-last :
      (d : A) (xs : List A) → 0 < length xs → init_list xs ++ last_or d xs ∷ [] ≡ xs
  init_list-append-last d [] h = absurd (omega arith)
  init_list-append-last d (x ∷ []) h = refl
  init_list-append-last d (x ∷ y ∷ r) h = ap (◌∷◌ x) (init_list-append-last x (y ∷ r) (omega arith))

  pub length-init_list : (xs : List A) → length (init_list xs) ≡ length xs - 1
  length-init_list [] = omega arith
  length-init_list (x ∷ []) = omega arith
  length-init_list (x ∷ y ∷ r) = omega (arith, length-init_list (y ∷ r))

  pub init_list-take :
      (j : ℕ) (xs : List A) → suc j ≤ length xs → init_list (take (suc j) xs) ≡ take j xs
  init_list-take j [] h = absurd (omega arith)
  init_list-take zero (x ∷ xs) h = refl
  init_list-take (suc j) (x ∷ []) h = absurd (omega arith)
  init_list-take (suc j) (x ∷ y ∷ r) h = ap (◌∷◌ x) (init_list-take j (y ∷ r) (omega arith))

  pub take-take : (j n : ℕ) (xs : List A) → j ≤ n → take j (take n xs) ≡ take j xs
  take-take zero n xs h = refl
  take-take (suc j) zero xs h = absurd (omega arith)
  take-take (suc j) (suc n) [] h = refl
  take-take (suc j) (suc n) (x ∷ xs) h = ap (◌∷◌ x) (take-take j n xs (omega arith))

  pub drop_of_length-le : (k : ℕ) (items : List A) → length items ≤ k → drop k items ≡ []
  drop_of_length-le zero [] short = refl
  drop_of_length-le (suc k) [] short = refl
  drop_of_length-le zero (item ∷ items) short = absurd (omega arith)
  drop_of_length-le (suc k) (item ∷ items) short = drop_of_length-le k items (omega arith)

  pub take-append_more : (v t : List A) (n : ℕ) → take (length v + n) (v ++ t) ≡ v ++ take n t
  take-append_more [] t n = let e : 0 + n ≡ n = omega arith in rw e refl
  take-append_more (x ∷ v) t n =
      let e : suc (length v) + n ≡ suc (length v + n) = omega arith in
      rw e (ap (◌∷◌ x) (take-append_more v t n))

  pub drop-append_more : (v t : List A) (n : ℕ) → drop (length v + n) (v ++ t) ≡ drop n t
  drop-append_more [] t n = let e : 0 + n ≡ n = omega arith in rw e refl
  drop-append_more (x ∷ v) t n =
      let e : suc (length v) + n ≡ suc (length v + n) = omega arith in rw e (drop-append_more v t n)

  pub drop-append_left :
      (n : ℕ) (xs ys : List A) → n ≤ length xs → drop n (xs ++ ys) ≡ drop n xs ++ ys
  drop-append_left zero xs ys h = refl
  drop-append_left (suc n) [] ys h = absurd (omega arith)
  drop-append_left (suc n) (x ∷ xs) ys h = drop-append_left n xs ys (omega arith)

  pub take-nil : (n : ℕ) → take {A = A} n [] ≡ []
  take-nil zero = refl
  take-nil (suc n) = refl

  -- `xs[:n] + xs[n:m]`
  pub take-add : (n m : ℕ) (xs : List A) → n ≤ m → take n xs ++ take (m - n) (drop n xs) ≡ take m xs
  take-add zero m xs h = let e : m - 0 ≡ m = omega arith in rw e
  take-add (suc n) zero xs h = absurd (omega arith)
  take-add (suc n) (suc m) [] h = take-nil (suc m - suc n)
  take-add (suc n) (suc m) (x ∷ xs) h =
      let e : suc m - suc n ≡ m - n = omega arith in
      rw e (ap (◌∷◌ x) (take-add n m xs (omega arith)))

pub length-map {ℓ κ} :
    {A : Type ℓ} {B : Type κ} (f : A → B) (xs : List A) → length (map f xs) ≡ length xs
length-map f [] = refl
length-map f (x ∷ xs) = omega (arith, length-map f xs)

pub get_elem?_of_lt {ℓ} :
    {A : Type ℓ} (xs : List A) (i : ℕ) → i < length xs → (x : A) × (get_elem? xs i ≡ some x)
get_elem?_of_lt [] i h = absurd (omega arith)
get_elem?_of_lt (x ∷ xs) zero h = (x, refl)
get_elem?_of_lt (x ∷ xs) (suc i) h = get_elem?_of_lt xs i (omega arith)

-- `x in xs` over token ids
abbrev pub elem : ℕ → List ℕ → Bool
elem t [] = false
elem t (x ∷ xs) = t == x || elem t xs
