-- ===== src/Parsing/Feed/Chunks.antt =====
-- What `feed` of src/qwasar_runtime/parsing.py leaves does not depend on how a text is cut.
use qwarz.Base.{
  ℕ, ◌+◌, ◌-◌, ◌<◌, ◌≡◌, refl, ap, sym, ◌∙◌, inl, inr, Bool, true, false, Option, none, some, List,
  [], ◌∷◌, ◌++◌, length, take, drop, arith, Option-cases, append_assoc, append-nil,
  take-append_more, drop-append_more, take-append_left, drop-append_left,
}
use qwarz.Base.Texts.{find_text, shift}
use qwarz.Parsing.Feed.{
  Channel, StreamParser, is_empty, end_of_thinking, held, emit, keep_held, drain_content,
  reasoning_at, drain, feed_in, feed, feed_all,
}
use qwarz.Parsing.Feed.Cut.{find_text-some}
use qwarz.Parsing.Feed.Emit.{emit-append, emit-Kept}
use qwarz.Parsing.Feed.Content.{
  held_inside, Split-at_held, with_pending, with_channel, keep_held-append, drain_content-pending,
  content_round-append,
}

-- the chunks in a row
abbrev pub joined : List (List ℕ) → List ℕ
joined [] = []
joined (text ∷ chunks) = text ++ joined chunks

module _ {Schema : Type 0} where
  reasoning_at-append :
      (o : Option ℕ) (v t x : List ℕ) (p : StreamParser Schema)
      → held end_of_thinking (v ++ t) ≡ held end_of_thinking t
      → (reasoning_at (shift (length v) o) (v ++ t) p).1
        ≡ (reasoning_at o t (with_pending x (emit v p).1)).1
  unfolding reasoning_at
  reasoning_at-append none v t x p same = rw same (
      keep_held-append v t x (held end_of_thinking t) p
        (held_inside end_of_thinking t (omega arith)))
  reasoning_at-append (some q) v t x p same =
      let at : length v + q + length end_of_thinking ≡ length v + (q + length end_of_thinking) =
        omega arith in
      let k = emit-Kept (take q t) (emit v p).1 in
      let rest = drop (q + length end_of_thinking) t in
      rw (at, take-append_more v t q, drop-append_more v t (q + length end_of_thinking))
        (ap (λ r. (drain_content rest (with_channel Channel.content_channel r)).1)
            (emit-append v (take q t) p)
          ∙ drain_content-pending rest x
              (with_channel Channel.content_channel (emit (take q t) (emit v p).1).1)
          ∙ ap (λ r. (drain_content rest (with_channel Channel.content_channel r)).1)
              (sym (k.pending x)))

  -- the next text while the model still thinks
  feed_reasoning :
      (ys h : List ℕ) (q : StreamParser Schema)
      → q.in_tools ≡ false
      → q.channel ≡ Channel.reasoning_channel
      → (feed ys (with_pending h q)).1
        ≡ (reasoning_at (find_text end_of_thinking (h ++ ys)) (h ++ ys) (with_pending h q)).1
  unfolding feed feed_in drain
  feed_reasoning ys h q out thinks =
      ap (λ b. (feed_in b ys (with_pending h q)).1) out
      ∙ ap (λ c. (drain c (h ++ ys) (with_pending h q)).1) thinks

  drain_content-append :
      (w ys : List ℕ) (p : StreamParser Schema)
      → p.in_tools ≡ false
      → p.channel ≡ Channel.content_channel
      → (drain_content (w ++ ys) p).1 ≡ (feed ys (drain_content w p).1).1
  unfolding drain_content
  drain_content-append w ys p out content =
      content_round-append (is_empty p.functions) w ys p out content refl

  reasoning-append :
      (w ys : List ℕ) (p : StreamParser Schema)
      → p.in_tools ≡ false
      → p.channel ≡ Channel.reasoning_channel
      → (reasoning_at (find_text end_of_thinking (w ++ ys)) (w ++ ys) p).1
        ≡ (feed ys (reasoning_at (find_text end_of_thinking w) w p).1).1
  reasoning-append w ys p out thinks = elim (Option-cases (find_text end_of_thinking w)) [
    | inl nothing ↦
        let s = Split-at_held end_of_thinking w ys (omega arith) nothing in
        let k = emit-Kept s.front p in
        let kept : (keep_held (held end_of_thinking w) w p).1
            ≡ with_pending s.back (emit s.front p).1 =
          unfold keep_held in
          ap (λ l. with_pending (drop (length w - held end_of_thinking w) w) (emit l p).1)
            s.is_front
          ∙ ap (λ l. with_pending l (emit s.front p).1) s.is_back in
        rw (nothing, s.finds)
          (ap
              (λ l.
                (reasoning_at (shift (length s.front) (find_text end_of_thinking (s.back ++ ys))) l
                  p).1)
              s.whole
            ∙ reasoning_at-append (find_text end_of_thinking (s.back ++ ys)) s.front (s.back ++ ys)
                s.back p s.holds
            ∙ sym (
                feed_reasoning ys s.back (emit s.front p).1 (k.in_tools ∙ out) (k.channel ∙ thinks))
            ∙ (unfold reasoning_at in ap (λ q. (feed ys q).1) (sym kept)))
    | inr (position, found) ↦
        let (again, fits) = find_text-some end_of_thinking w ys position found in
        let k = emit-Kept (take position w) p in
        rw (found, again)
          (unfold reasoning_at in
            rw
              (
                take-append_left position w ys (omega (arith, fits)),
                drop-append_left (position + length end_of_thinking) w ys fits,
              )
              (drain_content-append (drop (position + length end_of_thinking) w) ys
                (with_channel Channel.content_channel (emit (take position w) p).1)
                (k.in_tools ∙ out) refl))
  ]

  drain-append :
      (channel : Channel) (w ys : List ℕ) (p : StreamParser Schema)
      → p.in_tools ≡ false
      → p.channel ≡ channel
      → (drain channel (w ++ ys) p).1 ≡ (feed ys (drain channel w p).1).1
  unfolding drain
  drain-append Channel.reasoning_channel w ys p out same = reasoning-append w ys p out same
  drain-append Channel.content_channel w ys p out same = drain_content-append w ys p out same

  feed_in-append :
      (in_tools : Bool) (xs ys : List ℕ) (p : StreamParser Schema)
      → p.in_tools ≡ in_tools
      → (feed_in in_tools (xs ++ ys) p).1 ≡ (feed ys (feed_in in_tools xs p).1).1
  unfolding feed_in
  feed_in-append true xs ys p h =
      ap (λ l. record p { xml = l }) (sym (append_assoc p.xml xs ys))
      ∙ (unfold feed in ap (λ b. (feed_in b ys (record p { xml = p.xml ++ xs })).1) (sym h))
  feed_in-append false xs ys p h =
      ap (λ l. (drain p.channel l p).1) (sym (append_assoc p.pending xs ys))
      ∙ drain-append p.channel (p.pending ++ xs) ys p h refl

  -- Feeding a text in two parts leaves the parser as feeding it whole does, wherever the cut is: also
  -- inside a marker or between the spaces in front of the answer.
  pub feed-append :
      (xs ys : List ℕ) (p : StreamParser Schema) → (feed (xs ++ ys) p).1 ≡ (feed ys (feed xs p).1).1
  feed-append xs ys p =
      let opened : (feed (xs ++ ys) p).1 ≡ (feed_in p.in_tools (xs ++ ys) p).1 =
        unfold feed in refl in
      let closed : (feed ys (feed_in p.in_tools xs p).1).1 ≡ (feed ys (feed xs p).1).1 =
        unfold feed in refl in
      opened ∙ feed_in-append p.in_tools xs ys p refl ∙ closed

  -- A text that is fed in any chunks, of which there is one at least, leaves the parser as the text
  -- fed whole does: the same reasoning, content and tool calls.
  pub feed_all-joined :
      (chunks : List (List ℕ)) (p : StreamParser Schema)
      → 0 < length chunks
      → (feed_all chunks p).1 ≡ (feed (joined chunks) p).1
  unfolding feed_all
  feed_all-joined [] p h = absurd (omega arith)
  feed_all-joined (text ∷ []) p h = ap (λ l. (feed l p).1) (sym (append-nil text))
  feed_all-joined (text ∷ other ∷ chunks) p h =
      feed_all-joined (other ∷ chunks) (feed text p).1 (omega arith)
      ∙ sym (feed-append text (joined (other ∷ chunks)) p)
