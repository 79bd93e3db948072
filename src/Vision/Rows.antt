-- ===== src/Vision/Rows.antt =====
-- Splitting a row into spans and assembling it again is a map over the ids.
use mathlib.Core.List.{map-append}
use qwarz.Base.{
  ℕ, ◌≡◌, refl, ap, sym, ◌∙◌, inl, inr, List, [], ◌∷◌, ◌++◌, map, append-nil, append_assoc, leb,
  if◌then◌else◌, Bool-cases,
}
use qwarz.Vision.{
  EmbedSpan, text, image, mm_token_base, flush, embed_loop, span_rows, assemble_rows,
}

module _ {ℓ} {Row : Type ℓ} (text_row image_row : ℕ → Row) where
  -- the row that one id stands for
  abbrev pub row_of : ℕ → Row
  row_of token = if leb mm_token_base token then image_row token else text_row token

  span_rows-append :
      (xs ys : List EmbedSpan)
      → span_rows text_row image_row (xs ++ ys)
        ≡ span_rows text_row image_row xs ++ span_rows text_row image_row ys
  unfolding span_rows
  span_rows-append [] ys = refl
  span_rows-append (text payload ∷ xs) ys =
      rw (span_rows-append xs ys) (sym (append_assoc (map text_row payload) _ _))
  span_rows-append (image token ∷ xs) ys = ap (◌∷◌ (image_row token)) (span_rows-append xs ys)

  span_rows-flush :
      (spans : List EmbedSpan) (pending : List ℕ)
      → span_rows text_row image_row (flush spans pending)
        ≡ span_rows text_row image_row spans ++ map text_row pending
  unfolding flush
  span_rows-flush spans [] = sym (append-nil _)
  span_rows-flush spans (t ∷ pending) =
      rw (span_rows-append spans (text (t ∷ pending) ∷ [])) (unfold span_rows in rw append-nil)

  embed_loop-rows :
      (spans : List EmbedSpan) (pending ids : List ℕ)
      → span_rows text_row image_row (embed_loop spans pending ids)
        ≡ span_rows text_row image_row spans ++ (map text_row pending ++ map row_of ids)
  unfolding embed_loop
  embed_loop-rows spans pending [] = simp (span_rows-flush, append-nil)
  embed_loop-rows spans pending (token ∷ ids) = elim (Bool-cases (leb mm_token_base token)) [
    | inl is_image ↦
        rw (is_image, embed_loop)
          (embed_loop-rows (flush spans pending ++ image token ∷ []) [] ids
            ∙ simp (span_rows-append, span_rows-flush, append_assoc) (unfold span_rows in refl))
    | inr is_text ↦
        rw (is_text, embed_loop)
          (embed_loop-rows spans (pending ++ token ∷ []) ids ∙ simp (map-append, append_assoc))
  ]

  -- The rows assembled from text spans and images are, id by id and in order, the text table's
  -- row for each text id and the image's row for each image id, which never indexes the table.
  pub assemble_rows-eq-map : (ids : List ℕ) → assemble_rows ids text_row image_row ≡ map row_of ids
  unfolding assemble_rows
  assemble_rows-eq-map ids = embed_loop-rows [] [] ids
