-- ===== src/Chat/Stream.antt =====
-- What the pieces that `IncrementalText` (engine/forward/chat.py) streams amount to.
use qwarz.Base.{
  ℕ, ◌+◌, ◌-◌, ◌≤◌, ◌≡◌, refl, ap, sym, ◌∙◌, Bool, ◌&&◌, not, true, false, inl, inr, List, [], ◌∷◌,
  ◌++◌, length, drop, leb, if◌then◌else◌, arith, Bool-cases, append-nil, append_assoc,
  length-append, leb→le,
}
use qwarz.Cycle.Suffix.{same}
use qwarz.Cycle.Suffix.Copied.{both_of_and, same-eq}
use qwarz.Chat.{
  Text, decode_tokens, ends_with_replacement, drop_replacements, IncrementalText, new_text, push,
  flush_text, push_all, span,
}
use qwarz.Chat.Pieces.{
  drop-append, drop_replacements-append, drop_replacements_prefix, ends-append, stream_piece-append,
}

-- What the tokenizer's byte-level decode documents: two pieces split at a complete character decode
-- to the decode of the whole, and later ids only rewrite trailing replacements.
pub record ByteLevel (decode : List ℕ → Text) : Type 0 where
  pub split :
      (a b : List ℕ)
      → ends_with_replacement (decode_tokens decode a) ≡ false
      → decode_tokens decode (a ++ b) ≡ decode_tokens decode a ++ decode_tokens decode b
  pub stable :
      (a b : List ℕ)
      → (r : Text) × (decode_tokens decode (a ++ b)
          ≡ drop_replacements (decode_tokens decode a) ++ r)

-- the ids of all windows in a row
abbrev pub join : List (List ℕ) → List ℕ
join [] = []
join (new ∷ windows) = new ++ join windows

nil_of_length : (xs : List ℕ) → length xs ≤ 0 → xs ≡ []
nil_of_length [] h = refl
nil_of_length (x ∷ xs) h = absurd (omega arith)

pub push_ids :
    (decode : List ℕ → Text) (new : List ℕ) (t : IncrementalText)
    → (push decode new t).1.ids ≡ t.ids ++ new
unfolding push
push_ids decode new t = ground arith

push_all_ids :
    (decode : List ℕ → Text) (windows : List (List ℕ)) (t : IncrementalText)
    → (push_all decode windows t).1.ids ≡ t.ids ++ join windows
unfolding push_all
push_all_ids decode [] t = sym (append-nil t.ids)
push_all_ids decode (new ∷ windows) t =
    push_all_ids decode windows (push decode new t).1
    ∙ ap (λ l. l ++ join windows) (push_ids decode new t)
    ∙ append_assoc t.ids new (join windows)

module _ (decode : List ℕ → Text) (bytes : ByteLevel decode) where
  -- `told` is streamed: the ids before the anchor in full, and the stable part behind it
  record Streaming (t : IncrementalText) (told : Text) : Type 0 where
    settled : List ℕ
    rest : List ℕ
    ids : t.ids ≡ settled ++ rest
    anchor : t.anchor ≡ length settled
    told_eq : told ≡ decode_tokens decode settled ++ t.fed
    fed : t.fed ≡ drop_replacements (decode_tokens decode rest)
    complete : ends_with_replacement (decode_tokens decode settled) ≡ false

  Streaming-either :
      (b : Bool) (piece told : Text) (moved stays : IncrementalText)
      → (b ≡ true → Streaming moved (told ++ piece))
      → Streaming stays (told ++ piece)
      → Streaming
          (if◌then◌else◌ {A = Text × IncrementalText} b (piece, moved) (piece, stays)).1
          (told ++ (if◌then◌else◌ {A = Text × IncrementalText} b (piece, moved) (piece, stays)).0)
  Streaming-either true piece told moved stays h k = h refl
  Streaming-either false piece told moved stays h k = k

  tail_ids :
      (t : IncrementalText) (told : Text) (new : List ℕ) (h : Streaming t told)
      → drop t.anchor (t.ids ++ new) ≡ h.rest ++ new
  tail_ids t told new h =
      ap (λ n. drop n (t.ids ++ new)) h.anchor
      ∙ ap (λ l. drop (length h.settled) (l ++ new)) h.ids
      ∙ ap (drop (length h.settled)) (append_assoc h.settled h.rest new)
      ∙ drop-append h.settled (h.rest ++ new)

  ids_now :
      (t : IncrementalText) (told : Text) (new : List ℕ) (h : Streaming t told)
      → t.ids ++ new ≡ h.settled ++ (h.rest ++ new)
  ids_now t told new h = ap (λ l. l ++ new) h.ids ∙ append_assoc h.settled h.rest new

  push-Streaming :
      (t : IncrementalText) (told : Text) (new : List ℕ)
      → Streaming t told
      → Streaming (push decode new t).1 (told ++ (push decode new t).0)
  unfolding push
  push-Streaming t told new h =
      let tail = decode_tokens decode (h.rest ++ new) in
      let (r, grows) = bytes.stable h.rest new in
      let s = drop_replacements r in
      let stable : drop_replacements tail ≡ t.fed ++ s =
        ap drop_replacements grows
        ∙ drop_replacements-append (decode_tokens decode h.rest) r
        ∙ ap (λ l. l ++ s) (sym h.fed) in
      let now : told ++ s ≡ decode_tokens decode h.settled ++ (t.fed ++ s) =
        ap (λ l. l ++ s) h.told_eq ∙ append_assoc (decode_tokens decode h.settled) t.fed s in
      let moves =
        leb span (length (t.ids ++ new) - t.anchor)
        && (same (t.fed ++ s) tail && not (ends_with_replacement tail)) in
      rw (tail_ids t told new h, stream_piece-append t.fed tail s true stable)
        (Streaming-either moves s told _ _
          (λ anchored.
            let (_, rest) = both_of_and (leb span (length (t.ids ++ new) - t.anchor)) _ anchored in
            let (all, ends) = both_of_and (same (t.fed ++ s) tail) _ rest in
            let whole : t.fed ++ s ≡ tail = same-eq (t.fed ++ s) tail all in
            let joined : decode_tokens decode (t.ids ++ new)
                ≡ decode_tokens decode h.settled ++ tail =
              ap (decode_tokens decode) (ids_now t told new h)
              ∙ bytes.split h.settled (h.rest ++ new) h.complete in
            record {
              settled = t.ids ++ new;
              rest = [];
              ids = sym (append-nil (t.ids ++ new));
              anchor = refl;
              told_eq =
                  now
                  ∙ ap (λ l. decode_tokens decode h.settled ++ l) whole
                  ∙ sym joined
                  ∙ sym (append-nil _);
              fed = unfold decode_tokens drop_replacements in refl;
              complete =
                  ap ends_with_replacement joined
                  ∙ ends-append (decode_tokens decode h.settled) tail h.complete (ground arith);
            })
          (record {
            settled = h.settled;
            rest = h.rest ++ new;
            ids = ids_now t told new h;
            anchor = h.anchor;
            told_eq = now;
            fed = sym stable;
            complete = h.complete;
          }))

  flush_text-Streaming :
      (t : IncrementalText) (told : Text)
      → Streaming t told
      → told ++ (flush_text decode t).0 ≡ decode_tokens decode t.ids
  unfolding flush_text
  flush_text-Streaming t told h =
      let tail_eq : drop t.anchor t.ids ≡ h.rest =
        ap (drop t.anchor) (sym (append-nil t.ids)) ∙ tail_ids t told [] h ∙ append-nil h.rest in
      let size : length t.ids ≡ t.anchor + length h.rest =
        omega (arith, ap length h.ids, length-append h.settled h.rest, h.anchor) in
      let whole : decode_tokens decode h.settled ++ decode_tokens decode h.rest
          ≡ decode_tokens decode t.ids =
        sym (ap (decode_tokens decode) h.ids ∙ bytes.split h.settled h.rest h.complete) in
      elim (Bool-cases (leb (length t.ids) t.anchor)) [
        | inl done ↦
            let none_left = nil_of_length h.rest (omega (arith, size, leb→le _ _ done)) in
            rw done (
              append-nil told
              ∙ h.told_eq
              ∙ ap (λ l. decode_tokens decode h.settled ++ l)
                  (h.fed
                    ∙ ap (λ l. drop_replacements (decode_tokens decode l)) none_left
                    ∙ (unfold decode_tokens drop_replacements in refl)
                    ∙ ap (decode_tokens decode) (sym none_left))
              ∙ whole)
        | inr more ↦
            let (s, held) = drop_replacements_prefix (decode_tokens decode h.rest) in
            let goes_on : decode_tokens decode h.rest ≡ t.fed ++ s =
              held ∙ ap (λ l. l ++ s) (sym h.fed) in
            rw
              (
                more,
                tail_eq,
                stream_piece-append t.fed (decode_tokens decode h.rest) s false goes_on,
              )
              (ap (λ l. l ++ s) h.told_eq
                ∙ append_assoc (decode_tokens decode h.settled) t.fed s
                ∙ ap (λ l. decode_tokens decode h.settled ++ l) (sym goes_on)
                ∙ whole)
      ]

  push_all-Streaming :
      (windows : List (List ℕ)) (t : IncrementalText) (told : Text)
      → Streaming t told
      → Streaming (push_all decode windows t).1 (told ++ (push_all decode windows t).0)
  unfolding push_all
  push_all-Streaming [] t told h = rw (append-nil told) h
  push_all-Streaming (new ∷ windows) t told h =
      rw
        (← append_assoc told (push decode new t).0
          (push_all decode windows (push decode new t).1).0)
        (push_all-Streaming windows (push decode new t).1 (told ++ (push decode new t).0)
          (push-Streaming t told new h))

  -- For a byte-level tokenizer, the pieces that a turn streams for its windows and the piece of the
  -- last flush are, in a row, the text of all its ids decoded at once, wherever the anchor moved.
  pub push_all-decode :
      (windows : List (List ℕ))
      → (push_all decode windows new_text).0
          ++ (flush_text decode (push_all decode windows new_text).1).0
        ≡ decode_tokens decode (join windows)
  push_all-decode windows =
      flush_text-Streaming (push_all decode windows new_text).1 (push_all decode windows new_text).0
        (push_all-Streaming windows new_text [] (
          unfold decode_tokens drop_replacements in
          record {
            settled = [];
            rest = [];
            ids = refl;
            anchor = refl;
            told_eq = refl;
            fed = refl;
            complete = refl;
          }))
      ∙ ap (decode_tokens decode) (push_all_ids decode windows new_text)
