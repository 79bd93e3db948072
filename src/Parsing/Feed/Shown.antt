-- ===== src/Parsing/Feed/Shown.antt =====
-- The events of `feed` (src/qwasar_runtime/parsing.py) are what the parser records.
use qwarz.Base.{
  ℕ, ◌+◌, ◌-◌, ◌≡◌, refl, ap, sym, ◌∙◌, inl, inr, Bool, true, false, Option, none, some, List, [],
  ◌∷◌, ◌++◌, length, take, drop, Bool-cases, append_assoc, append-nil,
}
use qwarz.Base.Texts.{find_text, all_spaces}
use qwarz.Parsing.Feed.{
  Channel, StreamParser, Events, is_empty, end_of_thinking, start_of_call, emit, emit_on,
  emit_content, keep_held, enter_tools, content_at, content_round, drain_content, reasoning_at,
  drain, feed_in, feed, feed_all,
}

abbrev pub in_channel : Channel → Channel → Bool
in_channel Channel.reasoning_channel Channel.reasoning_channel = true
in_channel Channel.content_channel Channel.content_channel = true
in_channel _ _ = false

-- the text of the events on one channel
abbrev pub shown : Channel → Events → List ℕ
shown channel [] = []
shown channel ((c, text) ∷ events) = elim (in_channel channel c) [
  | true ↦ text ++ shown channel events
  | false ↦ shown channel events
]

pub shown-append : (c : Channel) (a b : Events) → shown c (a ++ b) ≡ shown c a ++ shown c b
shown-append c [] b = refl
shown-append Channel.reasoning_channel ((Channel.reasoning_channel, text) ∷ a) b =
    ap (λ l. text ++ l) (shown-append Channel.reasoning_channel a b)
    ∙ sym
        (append_assoc text (shown Channel.reasoning_channel a) (shown Channel.reasoning_channel b))
shown-append Channel.reasoning_channel ((Channel.content_channel, text) ∷ a) b =
    shown-append Channel.reasoning_channel a b
shown-append Channel.content_channel ((Channel.reasoning_channel, text) ∷ a) b =
    shown-append Channel.content_channel a b
shown-append Channel.content_channel ((Channel.content_channel, text) ∷ a) b =
    ap (λ l. text ++ l) (shown-append Channel.content_channel a b)
    ∙ sym (append_assoc text (shown Channel.content_channel a) (shown Channel.content_channel b))

module _ {Schema : Type 0} where
  -- the reasoning and the content grow by what is shown
  pub record Grown (p : StreamParser Schema) (r : Events × StreamParser Schema) : Type 0 where
    pub reasoning : r.1.reasoning ≡ p.reasoning ++ shown Channel.reasoning_channel r.0
    pub content : r.1.content ≡ p.content ++ shown Channel.content_channel r.0

  Grown-refl :
      (p q : StreamParser Schema)
      → q.reasoning ≡ p.reasoning
      → q.content ≡ p.content
      → Grown p ([], q)
  Grown-refl p q a b = record {
    reasoning = a ∙ sym (append-nil p.reasoning);
    content = b ∙ sym (append-nil p.content);
  }

  Grown-trans :
      (p q : StreamParser Schema) (a b : Events) (r : StreamParser Schema)
      → Grown p (a, q)
      → Grown q (b, r)
      → Grown p (a ++ b, r)
  Grown-trans p q a b r first second = record {
    reasoning =
        second.reasoning
        ∙ ap (λ l. l ++ shown Channel.reasoning_channel b) first.reasoning
        ∙ append_assoc p.reasoning (shown Channel.reasoning_channel a)
            (shown Channel.reasoning_channel b)
        ∙ ap (λ l. p.reasoning ++ l) (sym (shown-append Channel.reasoning_channel a b));
    content =
        second.content
        ∙ ap (λ l. l ++ shown Channel.content_channel b) first.content
        ∙ append_assoc p.content (shown Channel.content_channel a) (shown Channel.content_channel b)
        ∙ ap (λ l. p.content ++ l) (sym (shown-append Channel.content_channel a b));
  }

  emit_content-Grown :
      (flag : Bool) (text : List ℕ) (p : StreamParser Schema) → Grown p (emit_content flag text p)
  unfolding emit_content
  emit_content-Grown false text p = record {
    reasoning = sym (append-nil p.reasoning);
    content = ap (λ l. p.content ++ l) (sym (append-nil text));
  }
  emit_content-Grown true text p = elim (Bool-cases (all_spaces text)) [
    | inl space ↦ rw space (Grown-refl p _ refl refl)
    | inr some_text ↦ rw some_text (record {
      reasoning = sym (append-nil p.reasoning);
      content =
          append_assoc p.content p.leading text
          ∙ ap (λ l. p.content ++ l) (sym (append-nil (p.leading ++ text)));
    })
  ]

  emit_on-Grown :
      (channel : Channel) (text : List ℕ) (p : StreamParser Schema)
      → Grown p (emit_on channel text p)
  unfolding emit_on
  emit_on-Grown Channel.reasoning_channel text p = record {
    reasoning = ap (λ l. p.reasoning ++ l) (sym (append-nil text));
    content = sym (append-nil p.content);
  }
  emit_on-Grown Channel.content_channel text p = emit_content-Grown _ text p

  emit-Grown : (text : List ℕ) (p : StreamParser Schema) → Grown p (emit text p)
  unfolding emit
  emit-Grown [] p = Grown-refl p p refl refl
  emit-Grown (c ∷ text) p = emit_on-Grown p.channel (c ∷ text) p

  keep_held-Grown : (n : ℕ) (text : List ℕ) (p : StreamParser Schema) → Grown p (keep_held n text p)
  unfolding keep_held
  keep_held-Grown n text p =
      let g = emit-Grown (take (length text - n) text) p in
      record { reasoning = g.reasoning; content = g.content }

  content_at-Grown :
      (o : Option ℕ) (text : List ℕ) (p : StreamParser Schema) → Grown p (content_at o text p)
  unfolding content_at enter_tools
  content_at-Grown none text p = keep_held-Grown _ text p
  content_at-Grown (some position) text p =
      let g = emit-Grown (take position text) p in
      record { reasoning = g.reasoning; content = g.content }

  content_round-Grown :
      (flag : Bool) (text : List ℕ) (p : StreamParser Schema) → Grown p (content_round flag text p)
  unfolding content_round
  content_round-Grown true text p = keep_held-Grown 0 text p
  content_round-Grown false text p = content_at-Grown (find_text start_of_call text) text p

  reasoning_at-Grown :
      (o : Option ℕ) (text : List ℕ) (p : StreamParser Schema) → Grown p (reasoning_at o text p)
  unfolding reasoning_at drain_content
  reasoning_at-Grown none text p = keep_held-Grown _ text p
  reasoning_at-Grown (some position) text p =
      let p1 = (emit (take position text) p).1 in
      let p2 = record p1 { channel = Channel.content_channel } in
      let g = emit-Grown (take position text) p in
      let h =
        content_round-Grown (is_empty p2.functions) (drop (position + length end_of_thinking) text)
          p2 in
      Grown-trans p p1 _ _ _ g (record { reasoning = h.reasoning; content = h.content })

  drain-Grown :
      (channel : Channel) (text : List ℕ) (p : StreamParser Schema) → Grown p (drain channel text p)
  unfolding drain drain_content
  drain-Grown Channel.reasoning_channel text p =
      reasoning_at-Grown (find_text end_of_thinking text) text p
  drain-Grown Channel.content_channel text p = content_round-Grown (is_empty p.functions) text p

  feed_in-Grown :
      (in_tools : Bool) (text : List ℕ) (p : StreamParser Schema)
      → Grown p (feed_in in_tools text p)
  unfolding feed_in
  feed_in-Grown true text p = Grown-refl p _ refl refl
  feed_in-Grown false text p = drain-Grown p.channel (p.pending ++ text) p

  pub feed-Grown : (text : List ℕ) (p : StreamParser Schema) → Grown p (feed text p)
  unfolding feed
  feed-Grown text p = feed_in-Grown p.in_tools text p

  -- However a text is fed in chunks, the reasoning and the content of the parser grow by exactly the
  -- text of the events of each channel, in their order.
  pub feed_all-Grown :
      (chunks : List (List ℕ)) (p : StreamParser Schema) → Grown p (feed_all chunks p)
  unfolding feed_all feed
  feed_all-Grown [] p = Grown-refl p p refl refl
  feed_all-Grown (text ∷ chunks) p =
      Grown-trans p (feed text p).1 _ _ _ (feed_in-Grown p.in_tools text p)
        (feed_all-Grown chunks (feed text p).1)
