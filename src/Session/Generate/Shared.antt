-- ===== src/Session/Generate/Shared.antt =====
-- What a prompt shares with the tape of a session, and the marks below a limit.
use qwarz.Base.{
  ℕ, ◌≤◌, ◌<◌, ◌≡◌, refl, ap, sym, subst, ◌∙◌, inl, inr, Option, none, some, List, [], ◌∷◌, length,
  take, ◌==◌, arith, Bool-cases, Option-cases, ==→eq, take-take,
}
use qwarz.Device.{Engine, Laws}
use qwarz.Session.Marks.{Mark, best_mark, mark_at}
use qwarz.Session.{shared_prefix, spare_after}
use qwarz.Session.Generate.Valid.{MarkFits, MarksFit}

pub shared_prefix_lem :
    (tape ids : List ℕ)
    → (shared_prefix tape ids ≤ length tape)
      × (shared_prefix tape ids ≤ length ids)
      × (take (shared_prefix tape ids) tape ≡ take (shared_prefix tape ids) ids)
unfolding shared_prefix
shared_prefix_lem (t ∷ tape) (i ∷ ids) =
    let (a, b, c) = shared_prefix_lem tape ids in
    elim (Bool-cases (t == i)) [
      | inl hit ↦ rw hit (
        omega (arith, a),
        omega (arith, b),
        ap (λ x. x ∷ take (shared_prefix tape ids) tape) (==→eq t i hit) ∙ ap (◌∷◌ i) c,
      )
      | inr miss ↦ rw miss (omega arith, omega arith, refl)
    ]
shared_prefix_lem [] ids = (omega arith, omega arith, refl)
shared_prefix_lem (t ∷ tape) [] = (omega arith, omega arith, refl)

-- two lists that agree so far agree on less
pub take_of_le : (k n : ℕ) (xs ys : List ℕ) → k ≤ n → take n xs ≡ take n ys → take k xs ≡ take k ys
take_of_le k n xs ys h same = sym (take-take k n xs h) ∙ ap (take k) same ∙ take-take k n ys h

module _ {e : Engine} {embed_ids : Option (List ℕ → Option e.Embedded)} {freq : Option e.Freq}
    (laws : Laws e embed_ids freq) where
  pub mark_at-MarksFit :
      (tape : List ℕ) (p : ℕ) (marks : List (ℕ × Mark e)) (mark : Mark e)
      → MarksFit laws tape marks
      → mark_at p marks ≡ some mark
      → MarkFits laws tape p mark
  unfolding mark_at
  mark_at-MarksFit tape p [] mark h found = absurd (cc)
  mark_at-MarksFit tape p ((q, other) ∷ marks) mark h found = elim (Bool-cases (q == p)) [
    | inl hit ↦
        let same : other ≡ mark = ground (arith, found) in
        subst (λ n. MarkFits laws tape n mark) (==→eq q p hit)
          (subst (λ m. MarkFits laws tape q m) same h.0)
    | inr miss ↦ mark_at-MarksFit tape p marks mark h.1 (ground arith)
  ]

pub best_mark_lem :
    {e : Engine} (limit best : ℕ) (marks : List (ℕ × Mark e))
    → best_mark limit marks ≡ some best
    → (0 < best) × (best ≤ limit)
unfolding best_mark
best_mark_lem limit best [] h = absurd (cc)
best_mark_lem limit best ((p, mark) ∷ marks) h = elim (Option-cases (best_mark limit marks)) [
  | inl none_left ↦ ground arith
  | inr (q, there) ↦ let ih = best_mark_lem limit q marks there in ground arith
]

pub spare_after_lem :
    {D : Type 0} (at : D → ℕ) (by : Option (D → D)) (draft spare : Option D)
    → ((reset : D → D) (d : D) → by ≡ some reset → at (reset d) ≡ 0)
    → ((d : D) → spare ≡ some d → at d ≡ 0)
    → (d : D) → spare_after by draft spare ≡ some d
    → at d ≡ 0
unfolding spare_after
spare_after_lem at (some reset) (some draft) spare law h d same =
    let e1 : reset draft ≡ d = cc in ap at (sym e1) ∙ law reset draft refl
spare_after_lem at none draft spare law h d same = h d same
spare_after_lem at (some reset) none spare law h d same = h d same
