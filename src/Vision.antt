-- ===== src/Vision.antt =====
-- engine/forward/vision.py: image token ids on the resident tape.
pub mod Rows
use qwarz.Base.{ℕ, Bool, true, false, List, [], ◌∷◌, ◌++◌, map, ltb, leb, if◌then◌else◌}
use qwarz.Base.Int.{ℤ}

-- `MM_TOKEN_BASE`
abbrev pub mm_token_base : ℕ
mm_token_base = 1_000_000_000

unfoldable pub canonical_tape : List ℕ → List ℤ
canonical_tape tokens =
    map (λ token. if ltb token mm_token_base then ℤ.pos token else ℤ.negsuc 0) tokens

unfoldable pub text_table_ids : List ℕ → List ℕ
text_table_ids ids = map (λ token. if leb mm_token_base token then 0 else token) ids

pub data EmbedSpan : Type 0 where
  text : List ℕ → EmbedSpan
  image : ℕ → EmbedSpan

-- the inner `flush`: an empty text is not appended
unfoldable pub flush : List EmbedSpan → List ℕ → List EmbedSpan
flush spans [] = spans
flush spans (t ∷ pending) = spans ++ text (t ∷ pending) ∷ []

-- the loop over `ids`, with its two accumulators
unfoldable pub embed_loop : List EmbedSpan → List ℕ → List ℕ → List EmbedSpan
embed_loop spans pending [] = flush spans pending
embed_loop spans pending (token ∷ ids) = elim (leb mm_token_base token) [
  | true ↦ embed_loop (flush spans pending ++ image token ∷ []) [] ids
  | false ↦ embed_loop spans (pending ++ token ∷ []) ids
]

unfoldable pub embed_spans : List ℕ → List EmbedSpan
unfolding embed_loop flush
embed_spans ids = embed_loop [] [] ids

-- the loop of `assemble_rows` over the spans
unfoldable pub span_rows {ℓ} : {Row : Type ℓ} → (ℕ → Row) → (ℕ → Row) → List EmbedSpan → List Row
span_rows text_row image_row [] = []
span_rows text_row image_row (text payload ∷ spans) =
    map text_row payload ++ span_rows text_row image_row spans
span_rows text_row image_row (image token ∷ spans) =
    image_row token ∷ span_rows text_row image_row spans

unfoldable pub assemble_rows {ℓ} : {Row : Type ℓ} → List ℕ → (ℕ → Row) → (ℕ → Row) → List Row
unfolding embed_spans span_rows
assemble_rows ids text_row image_row = span_rows text_row image_row (embed_spans ids)
