-- ===== src/Parsing/Feed/Content.antt =====
-- The content channel of `feed` (src/qwasar_runtime/parsing.py) on a text that comes in two parts.
use qwarz.Base.{
  ℕ, ◌+◌, ◌-◌, ◌≤◌, ◌<◌, ◌≡◌, refl, ap, sym, ◌∙◌, inl, inr, Bool, true, false, Option, none, some,
  List, [], ◌++◌, length, take, drop, arith, Option-cases, append_assoc, length-append,
  take-append-drop, take_of_length-le, drop_of_length-le, take-append_more, drop-append_more,
  take-append_left, drop-append_left, length-take_of_le,
}
use qwarz.Base.Texts.{find_text, shift}
use qwarz.Parsing.Feed.{
  Channel, StreamParser, is_empty, start_of_call, held, emit, keep_held, enter_tools, content_at,
  content_round, drain_content, drain, feed_in, feed,
}
use qwarz.Parsing.Feed.Held.{held_end, held_end-drop, held-length}
use qwarz.Parsing.Feed.Cut.{find_text-held, find_text-some, held_end-append}
use qwarz.Parsing.Feed.Emit.{emit-append, emit-Kept}

pub held_inside : (m t : List ℕ) → 0 < length m → held m t ≤ length t
held_inside m t some_code = omega (arith, held-length m t some_code, held_end-drop m t)

-- The end that is held back, where a search has found nothing: what is in front of it, and what the
-- search finds and holds back when more comes.
pub record Split (m w ys : List ℕ) : Type 0 where
  pub front : List ℕ
  pub back : List ℕ
  pub is_front : take (length w - held m w) w ≡ front
  pub is_back : drop (length w - held m w) w ≡ back
  pub whole : w ++ ys ≡ front ++ (back ++ ys)
  pub finds : find_text m (w ++ ys) ≡ shift (length front) (find_text m (back ++ ys))
  pub holds : held m (front ++ (back ++ ys)) ≡ held m (back ++ ys)

pub Split-at_held : (m w ys : List ℕ) → 0 < length m → find_text m w ≡ none → Split m w ys
Split-at_held m w ys some_code nothing =
    let n = length w - held m w in
    let size = held-length m w some_code in
    let (inside, tail) = held_end-drop m w in
    let at : n ≡ length w - length (held_end m w) = omega (arith, size) in
    let back : drop n w ≡ held_end m w = ap (λ k. drop k w) at ∙ tail in
    let whole : w ++ ys ≡ take n w ++ (drop n w ++ ys) =
      ap (λ l. l ++ ys) (sym (take-append-drop n w)) ∙ append_assoc (take n w) (drop n w) ys in
    let long : length (take n w) ≡ n = length-take_of_le n w (omega arith) in
    record {
      front = take n w;
      back = drop n w;
      is_front = refl;
      is_back = refl;
      whole = whole;
      finds =
          find_text-held m w ys nothing
          ∙ ap (λ k. shift k (find_text m (held_end m w ++ ys))) (sym at ∙ sym long)
          ∙ ap (λ l. shift (length (take n w)) (find_text m (l ++ ys))) (sym back);
      holds =
          ap (held m) (sym whole)
          ∙ held-length m (w ++ ys) some_code
          ∙ ap length (held_end-append m w ys)
          ∙ ap (λ l. length (held_end m (l ++ ys))) (sym back)
          ∙ sym (held-length m (drop n w ++ ys) some_code);
    }

module _ {Schema : Type 0} where
  abbrev pub with_pending : List ℕ → StreamParser Schema → StreamParser Schema
  with_pending x p = record p { pending = x }

  abbrev with_calls : List ℕ → StreamParser Schema → StreamParser Schema
  with_calls xml p = record p { in_tools = true; leading = []; xml = xml; pending = [] }

  abbrev pub with_channel : Channel → StreamParser Schema → StreamParser Schema
  with_channel channel p = record p { channel = channel }

  -- emitting in two parts, with anything pending between them
  pub emit_behind :
      (v a x y : List ℕ) (p : StreamParser Schema)
      → with_pending y (emit (v ++ a) p).1 ≡ with_pending y (emit a (with_pending x (emit v p).1)).1
  emit_behind v a x y p =
      let k = emit-Kept a (emit v p).1 in
      ap (with_pending y) (emit-append v a p) ∙ sym (ap (with_pending y) (k.pending x))

  -- what is held back is pending in front of what comes
  pub keep_held-append :
      (v t x : List ℕ) (n : ℕ) (p : StreamParser Schema)
      → n ≤ length t
      → (keep_held n (v ++ t) p).1 ≡ (keep_held n t (with_pending x (emit v p).1)).1
  unfolding keep_held
  keep_held-append v t x n p h =
      let size : length (v ++ t) - n ≡ length v + (length t - n) =
        omega (arith, length-append v t) in
      rw (size, take-append_more v t (length t - n), drop-append_more v t (length t - n))
        (emit_behind v (take (length t - n) t) x (drop (length t - n) t) p)

  enter_tools-append :
      (v t x : List ℕ) (q : ℕ) (p : StreamParser Schema)
      → (enter_tools (v ++ t) (length v + q) p).1
        ≡ (enter_tools t q (with_pending x (emit v p).1)).1
  unfolding enter_tools
  enter_tools-append v t x q p =
      let at : length v + q + length start_of_call ≡ length v + (q + length start_of_call) =
        omega arith in
      rw (at, take-append_more v t q, drop-append_more v t (q + length start_of_call))
        (ap (with_calls (start_of_call ++ drop (q + length start_of_call) t))
          (emit_behind v (take q t) x [] p))

  -- with nothing found so far, the search goes on from the end that was held back
  content_at-append :
      (o : Option ℕ) (v t x : List ℕ) (p : StreamParser Schema)
      → held start_of_call (v ++ t) ≡ held start_of_call t
      → held start_of_call t ≤ length t
      → (content_at (shift (length v) o) (v ++ t) p).1
        ≡ (content_at o t (with_pending x (emit v p).1)).1
  unfolding content_at
  content_at-append none v t x p same inside =
      rw same (keep_held-append v t x (held start_of_call t) p inside)
  content_at-append (some q) v t x p same inside = enter_tools-append v t x q p

  content_at-pending :
      (o : Option ℕ) (t x : List ℕ) (p : StreamParser Schema)
      → held start_of_call t ≤ length t
      → (content_at o t p).1 ≡ (content_at o t (with_pending x p)).1
  unfolding content_at emit
  content_at-pending none t x p inside = keep_held-append [] t x (held start_of_call t) p inside
  content_at-pending (some q) t x p inside =
      let e : 0 + q ≡ q = omega arith in
      ap (λ n. (enter_tools t n p).1) (sym e) ∙ enter_tools-append [] t x q p

  content_round-pending :
      (flag : Bool) (t x : List ℕ) (p : StreamParser Schema)
      → (content_round flag t p).1 ≡ (content_round flag t (with_pending x p)).1
  unfolding content_round emit
  content_round-pending true t x p = keep_held-append [] t x 0 p (omega arith)
  content_round-pending false t x p =
      content_at-pending (find_text start_of_call t) t x p
        (held_inside start_of_call t (omega arith))

  pub drain_content-pending :
      (t x : List ℕ) (p : StreamParser Schema)
      → (drain_content t p).1 ≡ (drain_content t (with_pending x p)).1
  unfolding drain_content
  drain_content-pending t x p = content_round-pending (is_empty p.functions) t x p

  -- the next text on the content channel
  feed_content :
      (flag : Bool) (ys h : List ℕ) (q : StreamParser Schema)
      → q.in_tools ≡ false
      → q.channel ≡ Channel.content_channel
      → is_empty q.functions ≡ flag
      → (feed ys (with_pending h q)).1 ≡ (content_round flag (h ++ ys) (with_pending h q)).1
  unfolding feed feed_in drain drain_content
  feed_content flag ys h q out content same =
      ap (λ b. (feed_in b ys (with_pending h q)).1) out
      ∙ ap (λ c. (drain c (h ++ ys) (with_pending h q)).1) content
      ∙ ap (λ f. (content_round f (h ++ ys) (with_pending h q)).1) same

  pub content_round-append :
      (flag : Bool) (w ys : List ℕ) (p : StreamParser Schema)
      → p.in_tools ≡ false
      → p.channel ≡ Channel.content_channel
      → is_empty p.functions ≡ flag
      → (content_round flag (w ++ ys) p).1 ≡ (feed ys (content_round flag w p).1).1
  unfolding content_round
  content_round-append true w ys p out content same =
      let k = emit-Kept w p in
      let all : take (length w - 0) w ≡ w = take_of_length-le (length w - 0) w (omega arith) in
      let no_more : drop (length w - 0) w ≡ [] = drop_of_length-le (length w - 0) w (omega arith) in
      keep_held-append w ys [] 0 p (omega arith)
      ∙ sym (
          feed_content true ys [] (emit w p).1 (k.in_tools ∙ out) (k.channel ∙ content)
            (ap is_empty k.functions ∙ same))
      ∙ (unfold keep_held in
          ap (λ l. (feed ys (with_pending [] (emit l p).1)).1) (sym all)
          ∙ ap (λ l. (feed ys (with_pending l (emit (take (length w - 0) w) p).1)).1) (sym no_more))
  content_round-append false w ys p out content same =
      elim (Option-cases (find_text start_of_call w)) [
        | inl nothing ↦
            let s = Split-at_held start_of_call w ys (omega arith) nothing in
            let k = emit-Kept s.front p in
            let kept : (keep_held (held start_of_call w) w p).1
                ≡ with_pending s.back (emit s.front p).1 =
              unfold keep_held in
              ap (λ l. with_pending (drop (length w - held start_of_call w) w) (emit l p).1)
                s.is_front
              ∙ ap (λ l. with_pending l (emit s.front p).1) s.is_back in
            rw (nothing, s.finds)
              (ap
                  (λ l.
                    (content_at (shift (length s.front) (find_text start_of_call (s.back ++ ys))) l
                      p).1)
                  s.whole
                ∙ content_at-append (find_text start_of_call (s.back ++ ys)) s.front (s.back ++ ys)
                    s.back p s.holds (held_inside start_of_call (s.back ++ ys) (omega arith))
                ∙ sym (
                    feed_content false ys s.back (emit s.front p).1 (k.in_tools ∙ out)
                      (k.channel ∙ content) (ap is_empty k.functions ∙ same))
                ∙ (unfold content_at in ap (λ q. (feed ys q).1) (sym kept)))
        | inr (position, found) ↦
            let (again, fits) = find_text-some start_of_call w ys position found in
            rw (found, again)
              (unfold content_at in
                unfold enter_tools in
                unfold feed in
                unfold feed_in in
                rw
                  (
                    take-append_left position w ys (omega (arith, fits)),
                    drop-append_left (position + length start_of_call) w ys fits,
                  )
                  refl)
      ]
