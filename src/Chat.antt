-- ===== src/Chat.antt =====
-- engine/forward/chat.py: the text that a turn streams while its ids come in. A text is the list of
-- its code points; the tokenizer's decode is a parameter.
pub mod Pieces
pub mod Stream
pub mod Cuts
pub mod Request
pub mod Prepare
pub mod Hook
pub mod Finish
use qwarz.Base.{
  ℕ, suc, ◌-◌, Bool, ◌&&◌, not, true, false, List, [], ◌∷◌, ◌++◌, length, drop, last_or, leb, ◌==◌,
  if◌then◌else◌,
}
use qwarz.Cycle.Suffix.{same}

-- U+FFFD
abbrev pub replacement : ℕ
replacement = 65_533

abbrev pub Text : Type 0
Text = List ℕ

-- no ids give no text; the rest is the tokenizer's
unfoldable pub decode_tokens : (List ℕ → Text) → List ℕ → Text
decode_tokens decode [] = []
decode_tokens decode (token ∷ ids) = decode (token ∷ ids)

abbrev pub ends_with_replacement : Text → Bool
ends_with_replacement text = last_or 0 text == replacement

-- one character in front of a text that has lost its trailing replacements
abbrev pub keep_character : ℕ → Text → Text
keep_character c [] = if c == replacement then [] else c ∷ []
keep_character c (d ∷ text) = c ∷ d ∷ text

-- `while stable.endswith("\ufffd")`: the trailing replacements are dropped
unfoldable pub drop_replacements : Text → Text
drop_replacements [] = []
drop_replacements (c ∷ text) = keep_character c (drop_replacements text)

unfoldable pub starts_with : Text → Text → Bool
starts_with [] text = true
starts_with (p ∷ previous) [] = false
starts_with (p ∷ previous) (c ∷ text) = p == c && starts_with previous text

-- the loop over `index`
unfoldable pub common_length : Text → Text → ℕ
common_length (p ∷ previous) (c ∷ text) = if p == c then suc (common_length previous text) else 0
common_length _ _ = 0

-- `_stream_piece`
unfoldable pub stream_piece : Text → Text → Bool → Text × Text
unfolding drop_replacements starts_with common_length
stream_piece previous text hold_replacement =
    let stable = if hold_replacement then drop_replacements text else text in
    if starts_with previous stable
    then (drop (length previous) stable, stable)
    else (drop (common_length previous stable) stable, stable)

pub record IncrementalText : Type 0 where
  pub ids : List ℕ
  pub anchor : ℕ
  pub fed : Text

abbrev pub span : ℕ
span = 32

abbrev pub new_text : IncrementalText
new_text = record { ids = []; anchor = 0; fed = [] }

module _ (decode : List ℕ → Text) where
  unfoldable pub push : List ℕ → IncrementalText → Text × IncrementalText
  unfolding decode_tokens stream_piece
  push new t =
      let ids = t.ids ++ new in
      let tail = decode_tokens decode (drop t.anchor ids) in
      let (piece, fed) = stream_piece t.fed tail true in
      if leb span (length ids - t.anchor) && (same fed tail && not (ends_with_replacement tail))
      then (piece, record { ids = ids; anchor = length ids; fed = [] })
      else (piece, record { ids = ids; anchor = t.anchor; fed = fed })

  unfoldable pub flush_text : IncrementalText → Text × IncrementalText
  unfolding decode_tokens stream_piece
  flush_text t =
      if leb (length t.ids) t.anchor
      then ([], t)
      else (let (piece, fed) =
            stream_piece t.fed (decode_tokens decode (drop t.anchor t.ids)) false in
          (piece, record t { fed = fed }))

  -- the pushes of a turn, one for each accepted window, and the pieces in a row
  unfoldable pub push_all : List (List ℕ) → IncrementalText → Text × IncrementalText
  unfolding push
  push_all [] t = ([], t)
  push_all (new ∷ windows) t =
      let (piece, t') = push new t in
      let (pieces, t'') = push_all windows t' in (piece ++ pieces, t'')
