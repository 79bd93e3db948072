-- ===== src/Chat/Pieces.antt =====
-- How a decoded text of engine/forward/chat.py goes on behind what was streamed.
use qwarz.Base.{
  ℕ, ◌≡◌, refl, ap, ◌∙◌, Bool, true, false, inl, inr, List, [], ◌∷◌, ◌++◌, length, drop, last_or,
  ◌==◌, if◌then◌else◌, Bool-cases, ==_refl, append-nil,
}
use qwarz.Chat.{
  Text, replacement, ends_with_replacement, keep_character, drop_replacements, starts_with,
  stream_piece,
}

starts_with-append : (p r : Text) → starts_with p (p ++ r) ≡ true
unfolding starts_with
starts_with-append [] r = refl
starts_with-append (c ∷ p) r = rw (==_refl c) (starts_with-append p r)

pub drop-append : (p r : List ℕ) → drop (length p) (p ++ r) ≡ r
drop-append [] r = refl
drop-append (c ∷ p) r = drop-append p r

keep_character_other :
    (c : ℕ) (text : Text) → c == replacement ≡ false → keep_character c text ≡ c ∷ text
keep_character_other c [] h = rw h refl
keep_character_other c (d ∷ text) h = refl

keep_character-append :
    (c : ℕ) (rest r : Text)
    → drop_replacements (rest ++ r) ≡ rest ++ drop_replacements r
    → drop_replacements (keep_character c rest ++ r) ≡ keep_character c rest ++ drop_replacements r
unfolding drop_replacements
keep_character-append c [] r h = elim (Bool-cases (c == replacement)) [
  | inl hit ↦ rw hit refl
  | inr miss ↦ rw miss (keep_character_other c (drop_replacements r) miss)
]
keep_character-append c (d ∷ rest) r h = ap (keep_character c) h

pub drop_replacements-append :
    (x r : Text)
    → drop_replacements (drop_replacements x ++ r) ≡ drop_replacements x ++ drop_replacements r
unfolding drop_replacements
drop_replacements-append [] r = refl
drop_replacements-append (c ∷ x) r =
    keep_character-append c (drop_replacements x) r (drop_replacements-append x r)

keep_character_prefix :
    (c : ℕ) (rest r : Text) → (s : Text) × (c ∷ (rest ++ r) ≡ keep_character c rest ++ s)
keep_character_prefix c [] r = elim (Bool-cases (c == replacement)) [
  | inl hit ↦ (c ∷ r, rw hit refl)
  | inr miss ↦ (r, rw miss refl)
]
keep_character_prefix c (d ∷ rest) r = (r, refl)

-- what is dropped stands at the end
pub drop_replacements_prefix : (x : Text) → (s : Text) × (x ≡ drop_replacements x ++ s)
unfolding drop_replacements
drop_replacements_prefix [] = ([], refl)
drop_replacements_prefix (c ∷ x) =
    let (r, h) = drop_replacements_prefix x in
    let (s, k) = keep_character_prefix c (drop_replacements x) r in (s, ap (◌∷◌ c) h ∙ k)

last_or-append : (d : ℕ) (x : Text) (c : ℕ) (y : Text) → last_or d (x ++ c ∷ y) ≡ last_or c y
last_or-append d [] c y = refl
last_or-append d (e ∷ x) c y = last_or-append e x c y

pub ends-append :
    (x y : Text)
    → ends_with_replacement x ≡ false
    → ends_with_replacement y ≡ false
    → ends_with_replacement (x ++ y) ≡ false
ends-append x [] h k = ap ends_with_replacement (append-nil x) ∙ h
ends-append x (c ∷ y) h k = ap (λ n. n == replacement) (last_or-append 0 x c y) ∙ k

-- a text that goes on from what was fed
pub stream_piece-append :
    (fed text r : Text) (hold : Bool)
    → (if hold then drop_replacements text else text) ≡ fed ++ r
    → stream_piece fed text hold ≡ (r, fed ++ r)
unfolding stream_piece
stream_piece-append fed text r hold h = rw (h, starts_with-append fed r, drop-append fed r) refl
