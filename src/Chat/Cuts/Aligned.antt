-- ===== src/Chat/Cuts/Aligned.antt =====
-- Where the cuts of engine/forward/chat.py lie.
use native.Mathlib.Nat.{div-mul-le_self, mul-mod_left}
use qwarz.Base.{
  ℕ, zero, suc, subst, ◌+◌, ◌-◌, ◌*◌, ◌/◌, ◌%◌, ◌<◌, ◌≡◌, refl, Bool, true, false, inl, inr, Option,
  none, some, List, [], ◌∷◌, length, get_elem?, ltb, leb, ◌==◌, if◌then◌else◌, arith, Bool-cases,
  ltb→lt,
}
use qwarz.Cycle.Prefill.{insert_cut}
use qwarz.Chat.Cuts.{im_start, im_starts, add_floor, above_zero, prefix_cuts}

abbrev pub Every : (ℕ → Type 0) → List ℕ → Type 0
Every P [] = Unit {0}
Every P (x ∷ xs) = P x × Every P xs

module _ (P : ℕ → Type 0) where
  Every-get_elem? : (xs : List ℕ) (i x : ℕ) → Every P xs → get_elem? xs i ≡ some x → P x
  Every-get_elem? [] i x h found = absurd (cc)
  Every-get_elem? (y ∷ xs) zero x h found = let same : y ≡ x = cc in subst P same h.0
  Every-get_elem? (y ∷ xs) (suc i) x h found = Every-get_elem? xs i x h.1 found

  Every-insert_cut :
      (cut : ℕ) (cuts : List ℕ) → P cut → Every P cuts → Every P (insert_cut cut cuts)
  unfolding insert_cut
  Every-insert_cut cut [] p h = (p, tt)
  Every-insert_cut cut (c ∷ cuts) p h = ground (arith, Every-insert_cut cut cuts)

  Every-either :
      (b : Bool) (xs ys : List ℕ) → Every P xs → Every P ys → Every P (if b then xs else ys)
  Every-either true xs ys h k = h
  Every-either false xs ys h k = k

im_starts-inside :
    (index stop : ℕ) (tokens : List ℕ)
    → index + length tokens ≡ stop
    → Every (λ start. start < stop) (im_starts index tokens)
unfolding im_starts
im_starts-inside index stop [] h = tt
im_starts-inside index stop (token ∷ tokens) h =
    let rest = im_starts-inside (index + 1) stop tokens (omega arith) in
    elim (Bool-cases (token == im_start)) [
      | inl hit ↦ rw hit (omega arith, rest)
      | inr miss ↦ rw miss rest
    ]

module _ (page stop : ℕ) where
  -- on a page and inside the prompt
  abbrev pub OnPage : ℕ → Type 0
  OnPage cut = (cut % page ≡ 0) × (cut < stop)

  add_floor-OnPage :
      (found : Option ℕ) (cuts : List ℕ)
      → ((start : ℕ) → found ≡ some start → start < stop)
      → Every OnPage cuts
      → Every OnPage (add_floor page found cuts)
  unfolding add_floor
  add_floor-OnPage none cuts inside h = h
  add_floor-OnPage (some start) cuts inside h =
      Every-insert_cut OnPage (start / page * page) cuts
        (
          mul-mod_left (start / page) page,
          omega (arith, inside start refl, div-mul-le_self start page),
        )
        h

  above_zero-OnPage :
      (cuts : List ℕ) → Every OnPage cuts → Every (λ cut. (0 < cut) × OnPage cut) (above_zero cuts)
  unfolding above_zero
  above_zero-OnPage [] h = tt
  above_zero-OnPage (cut ∷ cuts) h = elim (Bool-cases (ltb 0 cut)) [
    | inl more ↦ rw more ((ltb→lt 0 cut more, h.0), above_zero-OnPage cuts h.1)
    | inr none_left ↦ rw none_left (above_zero-OnPage cuts h.1)
  ]

start_floor-OnPage :
    (page : ℕ) (tokens : List ℕ) (i : ℕ) (cuts : List ℕ)
    → Every (OnPage page (length tokens)) cuts
    → Every (OnPage page (length tokens)) (add_floor page (get_elem? (im_starts 0 tokens) i) cuts)
start_floor-OnPage page tokens i cuts h =
    let starts = im_starts 0 tokens in
    add_floor-OnPage page (length tokens) (get_elem? starts i) cuts
      (λ start found.
        Every-get_elem? (λ s. s < length tokens) starts i start
          (im_starts-inside 0 (length tokens) tokens (omega arith)) found)
      h

-- With a page of at least one token, every cut of a prompt lies above 0, on a page and inside the
-- prompt.
pub prefix_cuts-OnPage :
    (tokens : List ℕ) (page : ℕ)
    → 0 < page
    → Every (λ cut. (0 < cut) × OnPage page (length tokens) cut) (prefix_cuts tokens page)
unfolding prefix_cuts
prefix_cuts-OnPage tokens page some_page =
    let starts = im_starts 0 tokens in
    let stop = length tokens in
    let shared =
      Every-either (OnPage page stop) (leb 2 (length starts))
        (add_floor page (get_elem? starts 1) []) [] (start_floor-OnPage page tokens 1 [] tt) tt in
    above_zero-OnPage page stop _ (
      Every-either (OnPage page stop) (leb 3 (length starts)) _ _
        (start_floor-OnPage page tokens (length starts - 2) _ shared) shared)
