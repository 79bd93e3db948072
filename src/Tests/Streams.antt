-- ===== src/Tests/Streams.antt =====
-- Streaming with a tokenizer whose ids are code points, and the cuts of a prompt.
use qwarz.Base.{ℕ, ◌<◌, length, arith, ◌≡◌, refl, ap, sym, ◌∙◌, List, [], ◌∷◌, ◌++◌, append_assoc}
use qwarz.Chat.{Text, decode_tokens, drop_replacements, new_text, push_all, flush_text}
use qwarz.Chat.Cuts.{im_start, prefix_cuts}
use qwarz.Chat.Cuts.Aligned.{Every, OnPage, prefix_cuts-OnPage}
use qwarz.Chat.Pieces.{drop_replacements_prefix}
use qwarz.Chat.Stream.{ByteLevel, join, push_all-decode}

abbrev code_points : List ℕ → Text
code_points ids = ids

decode_code_points : (ids : List ℕ) → decode_tokens code_points ids ≡ ids
unfolding decode_tokens
decode_code_points [] = refl
decode_code_points (c ∷ ids) = refl

code_points-ByteLevel : ByteLevel code_points
code_points-ByteLevel = record {
  split = λ a b h.
      decode_code_points (a ++ b)
      ∙ ap (λ l. l ++ b) (sym (decode_code_points a))
      ∙ ap (λ l. decode_tokens code_points a ++ l) (sym (decode_code_points b));
  stable = λ a b.
      let (s, h) = drop_replacements_prefix (decode_tokens code_points a) in
      (
        s ++ b,
        decode_code_points (a ++ b)
            ∙ ap (λ l. l ++ b) (sym (decode_code_points a) ∙ h)
            ∙ append_assoc (drop_replacements (decode_tokens code_points a)) s b,
      );
}

-- a replacement character that is held back, and released by the next window
abbrev windows : List (List ℕ)
windows = (97 ∷ 65_533 ∷ []) ∷ (65_533 ∷ []) ∷ (98 ∷ 65_533 ∷ []) ∷ []

push_all-decode_example :
    (push_all code_points windows new_text).0
      ++ (flush_text code_points (push_all code_points windows new_text).1).0
    ≡ decode_tokens code_points (join windows)
push_all-decode_example = push_all-decode code_points code_points-ByteLevel windows

-- four messages, and pages of two tokens
abbrev four_messages : List ℕ
four_messages = im_start ∷ 1 ∷ 2 ∷ im_start ∷ 4 ∷ im_start ∷ 6 ∷ 7 ∷ im_start ∷ 9 ∷ []

prefix_cuts-OnPage_example :
    Every (λ cut. (0 < cut) × OnPage 2 (length four_messages) cut) (prefix_cuts four_messages 2)
prefix_cuts-OnPage_example = prefix_cuts-OnPage four_messages 2 (omega arith)

two_cuts : prefix_cuts four_messages 2 ≡ 2 ∷ 4 ∷ []
unfolding prefix_cuts
two_cuts = refl
