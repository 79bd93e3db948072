-- ===== src/Cycle/Suffix/Copied.antt =====
-- What `SuffixIndex` of engine/forward/cycle.py records, and what it copies.
use qwarz.Base.{
  ℕ, ◌≤◌, ◌≡◌, refl, ap, ◌∙◌, Bool, ◌&&◌, true, false, List, [], ◌∷◌, length, ◌==◌, ==→eq,
}
use qwarz.Cycle.Suffix.{same, Positions, SuffixIndex, gram_before}

-- each entry is the gram that ends where it says
abbrev pub Recorded : ℕ → List ℕ → Positions → Type 0
Recorded n tokens [] = Unit {0}
Recorded n tokens ((key, end) ∷ after) =
    (n ≤ end) × (end ≤ length tokens) × (key ≡ gram_before n tokens end) × Recorded n tokens after

abbrev pub IsSound : SuffixIndex → Type 0
IsSound s = Recorded s.n s.tokens s.after

pub both_of_and : (a b : Bool) → a && b ≡ true → (a ≡ true) × (b ≡ true)
both_of_and true b h = (refl, h)
both_of_and false b h = absurd (cc)

pub same-eq : (xs ys : List ℕ) → same xs ys ≡ true → xs ≡ ys
same-eq [] [] h = refl
same-eq [] (y ∷ ys) h = absurd (cc)
same-eq (x ∷ xs) [] h = absurd (cc)
same-eq (x ∷ xs) (y ∷ ys) h =
    let (heads, tails) = both_of_and (x == y) (same xs ys) h in
    ap (λ z. z ∷ xs) (==→eq x y heads) ∙ ap (◌∷◌ y) (same-eq xs ys tails)
