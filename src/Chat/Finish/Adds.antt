-- ===== src/Chat/Finish/Adds.antt =====
-- What the deltas of `emit_text` in engine/forward/chat.py add to what a turn has published.
use qwarz.Base.{
  ◌+◌, ◌≡◌, refl, sym, ap, ◌∙◌, [], ◌∷◌, ◌++◌, length, length-append, append-nil, append_assoc,
  arith,
}
use qwarz.Parsing.Feed.{Channel, StreamParser, Events, feed}
use qwarz.Parsing.Feed.Shown.{shown, shown-append, feed-Grown}
use qwarz.Chat.{Text}
use qwarz.Chat.Hook.{TurnState, emit_text, emit_all, feed_text}

module _ {Schema : Type 0} where
  -- The deltas of each channel are the parser's text of it, and their length is counted.
  pub record IsTold (s : TurnState Schema) : Type 0 where
    pub content : shown Channel.content_channel s.published ≡ s.parser.content
    pub reasoning : shown Channel.reasoning_channel s.published ≡ s.parser.reasoning
    pub content_count : s.streamed_content ≡ length s.parser.content
    pub reasoning_count : s.streamed_reasoning ≡ length s.parser.reasoning

  -- what a list of events adds
  pub record Adds (events : Events) (s t : TurnState Schema) : Type 0 where
    pub content :
        shown Channel.content_channel t.published
        ≡ shown Channel.content_channel s.published ++ shown Channel.content_channel events
    pub reasoning :
        shown Channel.reasoning_channel t.published
        ≡ shown Channel.reasoning_channel s.published ++ shown Channel.reasoning_channel events
    pub content_count :
        t.streamed_content ≡ s.streamed_content + length (shown Channel.content_channel events)
    pub reasoning_count :
        t.streamed_reasoning
        ≡ s.streamed_reasoning + length (shown Channel.reasoning_channel events)
    pub parser : t.parser ≡ s.parser

  pub emit_text-Adds :
      (channel : Channel) (text : Text) (s : TurnState Schema)
      → Adds ((channel, text) ∷ []) s (emit_text channel text s)
  unfolding emit_text
  emit_text-Adds Channel.content_channel [] s = record {
    content = sym (append-nil (shown Channel.content_channel s.published));
    reasoning = sym (append-nil (shown Channel.reasoning_channel s.published));
    content_count = omega arith;
    reasoning_count = omega arith;
    parser = refl;
  }
  emit_text-Adds Channel.reasoning_channel [] s = record {
    content = sym (append-nil (shown Channel.content_channel s.published));
    reasoning = sym (append-nil (shown Channel.reasoning_channel s.published));
    content_count = omega arith;
    reasoning_count = omega arith;
    parser = refl;
  }
  emit_text-Adds Channel.content_channel (c ∷ text) s = record {
    content = shown-append Channel.content_channel s.published _;
    reasoning = shown-append Channel.reasoning_channel s.published _;
    content_count = ap (λ l. s.streamed_content + length l) (sym (append-nil (c ∷ text)));
    reasoning_count = omega arith;
    parser = refl;
  }
  emit_text-Adds Channel.reasoning_channel (c ∷ text) s = record {
    content = shown-append Channel.content_channel s.published _;
    reasoning = shown-append Channel.reasoning_channel s.published _;
    content_count = omega arith;
    reasoning_count = ap (λ l. s.streamed_reasoning + length l) (sym (append-nil (c ∷ text)));
    parser = refl;
  }

  Adds-trans :
      (a b : Events) (s t u : TurnState Schema) → Adds a s t → Adds b t u → Adds (a ++ b) s u
  Adds-trans a b s t u first second =
      let joined = λ (c : Channel). shown-append c a b in
      record {
        content =
            second.content
            ∙ ap (λ l. l ++ shown Channel.content_channel b) first.content
            ∙ append_assoc (shown Channel.content_channel s.published)
                (shown Channel.content_channel a) (shown Channel.content_channel b)
            ∙ ap (λ l. shown Channel.content_channel s.published ++ l)
                (sym (joined Channel.content_channel));
        reasoning =
            second.reasoning
            ∙ ap (λ l. l ++ shown Channel.reasoning_channel b) first.reasoning
            ∙ append_assoc (shown Channel.reasoning_channel s.published)
                (shown Channel.reasoning_channel a) (shown Channel.reasoning_channel b)
            ∙ ap (λ l. shown Channel.reasoning_channel s.published ++ l)
                (sym (joined Channel.reasoning_channel));
        content_count = omega (
          arith,
          second.content_count,
          first.content_count,
          ap length (joined Channel.content_channel),
          length-append (shown Channel.content_channel a) (shown Channel.content_channel b),
        );
        reasoning_count = omega (
          arith,
          second.reasoning_count,
          first.reasoning_count,
          ap length (joined Channel.reasoning_channel),
          length-append (shown Channel.reasoning_channel a) (shown Channel.reasoning_channel b),
        );
        parser = second.parser ∙ first.parser;
      }

  emit_all-Adds : (events : Events) (s : TurnState Schema) → Adds events s (emit_all events s)
  unfolding emit_all
  emit_all-Adds [] s = record {
    content = sym (append-nil (shown Channel.content_channel s.published));
    reasoning = sym (append-nil (shown Channel.reasoning_channel s.published));
    content_count = omega arith;
    reasoning_count = omega arith;
    parser = refl;
  }
  emit_all-Adds ((channel, piece) ∷ events) s =
      Adds-trans ((channel, piece) ∷ []) events s (emit_text channel piece s) _
        (emit_text-Adds channel piece s) (emit_all-Adds events (emit_text channel piece s))

  pub feed_text-IsTold : (text : Text) (s : TurnState Schema) → IsTold s → IsTold (feed_text text s)
  unfolding feed_text
  feed_text-IsTold [] s told = told
  feed_text-IsTold (c ∷ text) s told =
      let (events, parser) = feed (c ∷ text) s.parser in
      let grown = feed-Grown (c ∷ text) s.parser in
      let s' : TurnState Schema = record s { parser = parser } in
      let adds = emit_all-Adds events s' in
      let content_now = ap (λ (p : StreamParser Schema). p.content) adds.parser ∙ grown.content in
      let reasoning_now =
        ap (λ (p : StreamParser Schema). p.reasoning) adds.parser ∙ grown.reasoning in
      record {
        content =
            adds.content
            ∙ ap (λ l. l ++ shown Channel.content_channel events) told.content
            ∙ sym content_now;
        reasoning =
            adds.reasoning
            ∙ ap (λ l. l ++ shown Channel.reasoning_channel events) told.reasoning
            ∙ sym reasoning_now;
        content_count = omega (
          arith,
          adds.content_count,
          told.content_count,
          ap length content_now,
          length-append s.parser.content (shown Channel.content_channel events),
        );
        reasoning_count = omega (
          arith,
          adds.reasoning_count,
          told.reasoning_count,
          ap length reasoning_now,
          length-append s.parser.reasoning (shown Channel.reasoning_channel events),
        );
      }

  pub IsTold-same :
      (s t : TurnState Schema)
      → t.parser ≡ s.parser
      → t.published ≡ s.published
      → t.streamed_content ≡ s.streamed_content
      → t.streamed_reasoning ≡ s.streamed_reasoning
      → IsTold s
      → IsTold t
  IsTold-same s t p q a b told = record {
    content =
        ap (shown Channel.content_channel) q
        ∙ told.content
        ∙ sym (ap (λ (p : StreamParser Schema). p.content) p);
    reasoning =
        ap (shown Channel.reasoning_channel) q
        ∙ told.reasoning
        ∙ sym (ap (λ (p : StreamParser Schema). p.reasoning) p);
    content_count =
        a ∙ told.content_count ∙ sym (ap (λ (p : StreamParser Schema). length p.content) p);
    reasoning_count =
        b ∙ told.reasoning_count ∙ sym (ap (λ (p : StreamParser Schema). length p.reasoning) p);
  }
