-- ===== src/Mtp/Greedy.antt =====
-- What the resident engine promises: greedy decoding with one target call per token.
use qwarz.Base.{
  ℕ, zero, suc, ◌+◌, ◌≤◌, ◌<◌, ◌≡◌, refl, ap, Bool, true, false, inl, inr, List, [], ◌∷◌, ◌++◌,
  elem, length, take, if◌then◌else◌, arith, append-nil, append_assoc, Bool-cases, ◌∙◌,
}

-- At most `n` tokens after `context`, the first stop token included and last.
unfoldable pub greedy : (List ℕ → ℕ) → List ℕ → ℕ → List ℕ → List ℕ
greedy next stops zero context = []
greedy next stops (suc n) context =
    let rest = greedy next stops n (context ++ next context ∷ []) in
    next context ∷ (if elem (next context) stops then [] else rest)

-- What the target answers to a window: its token after `context`, and after each longer prefix.
unfoldable pub scores : (List ℕ → ℕ) → List ℕ → List ℕ → List ℕ
scores next context [] = next context ∷ []
scores next context (d ∷ draft) = next context ∷ scores next (context ++ d ∷ []) draft

-- The tokens up to the first stop token, and whether there was one.
unfoldable pub cut_at_stop : List ℕ → List ℕ → List ℕ × Bool
cut_at_stop stops [] = ([], false)
cut_at_stop stops (t ∷ tokens) =
    let (rest, stopped) = cut_at_stop stops tokens in
    if elem t stops then (t ∷ [], true) else (t ∷ rest, stopped)

module _ (next : List ℕ → ℕ) where
  pub length-scores :
      (context draft : List ℕ) → length (scores next context draft) ≡ length draft + 1
  unfolding scores
  length-scores context [] = refl
  length-scores context (d ∷ draft) = omega (arith, length-scores (context ++ d ∷ []) draft)

  pub length-greedy-le :
      (stops : List ℕ) (n : ℕ) (context : List ℕ) → length (greedy next stops n context) ≤ n
  unfolding greedy
  length-greedy-le stops zero context = omega arith
  length-greedy-le stops (suc n) context =
      ground (arith, length-greedy-le stops n (context ++ next context ∷ []))

  pub length-greedy : (n : ℕ) (context : List ℕ) → length (greedy next [] n context) ≡ n
  unfolding greedy
  length-greedy zero context = refl
  length-greedy (suc n) context = omega (arith, length-greedy n (context ++ next context ∷ []))

  pub take-greedy :
      (k n : ℕ) (context : List ℕ)
      → k ≤ n
      → take k (greedy next [] n context) ≡ greedy next [] k context
  unfolding greedy
  take-greedy zero n context h = refl
  take-greedy (suc k) zero context h = absurd (omega arith)
  take-greedy (suc k) (suc n) context h =
      ap (◌∷◌ (next context)) (take-greedy k n (context ++ next context ∷ []) (omega arith))

  pub cut_at_stop-greedy :
      (stops : List ℕ) (n : ℕ) (context : List ℕ)
      → (cut_at_stop stops (greedy next [] n context)).0 ≡ greedy next stops n context
  unfolding greedy cut_at_stop
  cut_at_stop-greedy stops zero context = refl
  cut_at_stop-greedy stops (suc n) context =
      ground (arith, cut_at_stop-greedy stops n (context ++ next context ∷ []))

  -- A run that has stopped is complete; one that has not goes on from where it is.
  pub greedy-add_stopped :
      (stops : List ℕ) (a b n : ℕ) (context : List ℕ)
      → n ≡ a + b
      → (cut_at_stop stops (greedy next [] a context)).1 ≡ true
      → greedy next stops n context ≡ greedy next stops a context
  unfolding greedy cut_at_stop
  greedy-add_stopped stops zero b n context e h = absurd (cc)
  greedy-add_stopped stops (suc a) b zero context e h = absurd (omega arith)
  greedy-add_stopped stops (suc a) b (suc n) context e h =
      let e' : n ≡ a + b = omega arith in
      ground (arith, greedy-add_stopped stops a b n (context ++ next context ∷ []) e')

  pub greedy-add_going :
      (stops : List ℕ) (a b n : ℕ) (context : List ℕ)
      → n ≡ a + b
      → (cut_at_stop stops (greedy next [] a context)).1 ≡ false
      → greedy next stops n context
        ≡ greedy next [] a context ++ greedy next stops b (context ++ greedy next [] a context)
  unfolding greedy cut_at_stop
  greedy-add_going stops zero b n context e h = let e' : n ≡ b = omega arith in rw (append-nil, e')
  greedy-add_going stops (suc a) b zero context e h = absurd (omega arith)
  greedy-add_going stops (suc a) b (suc n) context e h =
      let e' : n ≡ a + b = omega arith in
      let c = context ++ next context ∷ [] in
      elim (Bool-cases (elem (next context) stops)) [
        | inl hit ↦ absurd (ground arith)
        | inr miss ↦ rw miss (
            ap (◌∷◌ (next context)) (
              greedy-add_going stops a b n c e' (ground arith)
              ∙ ap (λ l. greedy next [] a c ++ greedy next stops b l)
                  (append_assoc context (next context ∷ []) (greedy next [] a c))))
      ]

  -- stopping only cuts the run short
  pub greedy-eq-take :
      (stops : List ℕ) (n : ℕ) (context : List ℕ)
      → greedy next stops n context
        ≡ take (length (greedy next stops n context)) (greedy next [] n context)
  unfolding greedy
  greedy-eq-take stops zero context = refl
  greedy-eq-take stops (suc n) context = elim (Bool-cases (elem (next context) stops)) [
    | inl hit ↦ rw hit
    | inr miss ↦
        rw miss (ap (◌∷◌ (next context)) (greedy-eq-take stops n (context ++ next context ∷ [])))
  ]

  pub greedy_pos :
      (stops : List ℕ) (n : ℕ) (context : List ℕ) → 0 < n → 0 < length (greedy next stops n context)
  unfolding greedy
  greedy_pos stops zero context h = absurd (omega arith)
  greedy_pos stops (suc n) context h = omega arith

  -- a run that meets no stop token is the same with and without them
  pub greedy_going :
      (stops : List ℕ) (n : ℕ) (context : List ℕ)
      → (cut_at_stop stops (greedy next [] n context)).1 ≡ false
      → greedy next stops n context ≡ greedy next [] n context
  unfolding greedy cut_at_stop
  greedy_going stops zero context h = refl
  greedy_going stops (suc n) context h =
      ground (arith, greedy_going stops n (context ++ next context ∷ []))

-- no stop id, no stop
pub cut_at_stop-nil : (xs : List ℕ) → (cut_at_stop [] xs).1 ≡ false
unfolding cut_at_stop
cut_at_stop-nil [] = refl
cut_at_stop-nil (x ∷ xs) = cut_at_stop-nil xs

pub cut_at_stop-append :
    (stops xs ys : List ℕ)
    → (cut_at_stop stops xs).1 ≡ false
    → (cut_at_stop stops (xs ++ ys)).1 ≡ (cut_at_stop stops ys).1
unfolding cut_at_stop
cut_at_stop-append stops [] ys h = refl
cut_at_stop-append stops (x ∷ xs) ys h = ground (arith, cut_at_stop-append stops xs ys)
