-- ===== src/Parsing/Feed/Emit.antt =====
-- `_emit` of src/qwasar_runtime/parsing.py: a text shown in two parts leaves what it leaves in one.
use qwarz.Base.{
  ℕ, ◌≡◌, refl, ap, sym, inl, inr, Bool, ◌&&◌, true, false, List, [], ◌∷◌, ◌++◌, Bool-cases,
  append_assoc, append-nil, arith, arith,
}
use qwarz.Base.Texts.{all_spaces}
use qwarz.Parsing.Feed.{Channel, StreamParser, is_empty, emit, emit_on, emit_content}

all_spaces-append : (a b : List ℕ) → all_spaces (a ++ b) ≡ (all_spaces a && all_spaces b)
unfolding all_spaces
all_spaces-append [] b = refl
all_spaces-append (c ∷ a) b = let ih = all_spaces-append a b in ground (arith, ih)

append-nonempty : (l : List ℕ) (c : ℕ) (a : List ℕ) → is_empty (l ++ c ∷ a) ≡ false
append-nonempty [] c a = refl
append-nonempty (x ∷ l) c a = refl

module _ {Schema : Type 0} where
  abbrev pub parser_of :
      Channel
      → List (List ℕ × Schema)
      → List ℕ
      → List ℕ
      → List ℕ
      → List ℕ
      → List ℕ
      → Bool
      → StreamParser Schema
  parser_of channel functions pending xml reasoning content leading in_tools = record {
    channel = channel;
    functions = functions;
    pending = pending;
    xml = xml;
    reasoning = reasoning;
    content = content;
    leading = leading;
    in_tools = in_tools;
  }

  module _ (functions : List (List ℕ × Schema)) (pending xml reasoning content leading : List ℕ)
      (in_tools : Bool) (c d : ℕ) (a b : List ℕ) where
    abbrev Joins : Channel → List (List ℕ × Schema) → List ℕ → Type 0
    Joins channel functions content =
        let p = parser_of channel functions pending xml reasoning content leading in_tools in
        (emit (c ∷ a ++ d ∷ b) p).1 ≡ (emit (d ∷ b) (emit (c ∷ a) p).1).1

    emit-append_reasoning : Joins Channel.reasoning_channel functions content
    unfolding emit emit_on
    emit-append_reasoning =
        ap
          (λ r.
            parser_of Channel.reasoning_channel functions pending xml r content leading in_tools)
          (sym (append_assoc reasoning (c ∷ a) (d ∷ b)))

    emit-append_plain : Joins Channel.content_channel [] content
    unfolding emit emit_on emit_content
    emit-append_plain =
        ap (λ l. parser_of Channel.content_channel [] pending xml reasoning l leading in_tools)
          (sym (append_assoc content (c ∷ a) (d ∷ b)))

    emit-append_later :
        (f : List ℕ × Schema) (x : ℕ) → Joins Channel.content_channel (f ∷ functions) (x ∷ content)
    unfolding emit emit_on emit_content
    emit-append_later f x =
        ap
          (λ l.
            parser_of Channel.content_channel (f ∷ functions) pending xml reasoning (x ∷ l) leading
              in_tools)
          (sym (append_assoc content (c ∷ a) (d ∷ b)))

    emit-append_first : (f : List ℕ × Schema) → Joins Channel.content_channel (f ∷ functions) []
    unfolding emit emit_on emit_content
    emit-append_first f =
        let parts = all_spaces-append (c ∷ a) (d ∷ b) in
        elim (Bool-cases (all_spaces (c ∷ a))) [
          | inl space ↦
              let rest : all_spaces (c ∷ a ++ d ∷ b) ≡ all_spaces (d ∷ b) =
                ground (arith, parts, space) in
              rw (space, rest)
                (elim (Bool-cases (all_spaces (d ∷ b))) [
                  | inl all ↦ rw all (
                      ap
                        (λ l.
                          parser_of Channel.content_channel (f ∷ functions) pending xml reasoning []
                            l in_tools)
                        (sym (append_assoc leading (c ∷ a) (d ∷ b))))
                  | inr some_text ↦ rw some_text (
                      ap
                        (λ l.
                          parser_of Channel.content_channel (f ∷ functions) pending xml reasoning l
                            [] in_tools)
                        (sym (append_assoc leading (c ∷ a) (d ∷ b))))
                ])
          | inr text ↦
              let whole : all_spaces (c ∷ a ++ d ∷ b) ≡ false = ground (arith, parts, text) in
              rw (text, whole, append-nonempty leading c a)
                (ap
                  (λ l.
                    parser_of Channel.content_channel (f ∷ functions) pending xml reasoning l []
                      in_tools)
                  (sym (append_assoc leading (c ∷ a) (d ∷ b))))
        ]

  emit_fields :
      (channel : Channel) (functions : List (List ℕ × Schema))
      (pending xml reasoning content leading : List ℕ) (in_tools : Bool) (a b : List ℕ)
      → let p = parser_of channel functions pending xml reasoning content leading in_tools in
        (emit (a ++ b) p).1 ≡ (emit b (emit a p).1).1
  emit_fields channel functions pending xml reasoning content leading in_tools [] b =
      unfold emit in refl
  emit_fields channel functions pending xml reasoning content leading in_tools (c ∷ a) [] =
      unfold emit in rw (append-nil a) refl
  emit_fields Channel.reasoning_channel functions pending xml reasoning content leading in_tools
        (c ∷ a) (d ∷ b) =
      emit-append_reasoning functions pending xml reasoning content leading in_tools c d a b
  emit_fields Channel.content_channel [] pending xml reasoning content leading in_tools (c ∷ a)
        (d ∷ b) =
      emit-append_plain [] pending xml reasoning content leading in_tools c d a b
  emit_fields Channel.content_channel (f ∷ functions) pending xml reasoning (x ∷ content) leading
        in_tools (c ∷ a) (d ∷ b) =
      emit-append_later functions pending xml reasoning content leading in_tools c d a b f x
  emit_fields Channel.content_channel (f ∷ functions) pending xml reasoning [] leading in_tools
        (c ∷ a) (d ∷ b) =
      emit-append_first functions pending xml reasoning [] leading in_tools c d a b f

  pub emit-append :
      (a b : List ℕ) (p : StreamParser Schema) → (emit (a ++ b) p).1 ≡ (emit b (emit a p).1).1
  emit-append a b p =
      emit_fields p.channel p.functions p.pending p.xml p.reasoning p.content p.leading p.in_tools a
        b

  -- what a text leaves alone, and that what is pending does not matter to it
  pub record Kept (text : List ℕ) (p : StreamParser Schema) : Type 0 where
    pub channel : (emit text p).1.channel ≡ p.channel
    pub functions : (emit text p).1.functions ≡ p.functions
    pub in_tools : (emit text p).1.in_tools ≡ p.in_tools
    pub pending :
        (x : List ℕ)
        → (emit text (record p { pending = x })).1 ≡ record (emit text p).1 { pending = x }

  emit_content-Kept :
      (flag : Bool) (text : List ℕ) (p : StreamParser Schema)
      → ((emit_content flag text p).1.channel ≡ p.channel)
        × ((emit_content flag text p).1.functions ≡ p.functions)
        × ((emit_content flag text p).1.in_tools ≡ p.in_tools)
        × ((x : List ℕ)
            → (emit_content flag text (record p { pending = x })).1
              ≡ record (emit_content flag text p).1 { pending = x })
  unfolding emit_content
  emit_content-Kept false text p = (refl, refl, refl, λ x. refl)
  emit_content-Kept true text p = elim (Bool-cases (all_spaces text)) [
    | inl space ↦ rw space (refl, refl, refl, λ x. refl)
    | inr shown ↦ rw shown (refl, refl, refl, λ x. refl)
  ]

  emit_on-Kept :
      (channel : Channel) (text : List ℕ) (p : StreamParser Schema)
      → ((emit_on channel text p).1.channel ≡ p.channel)
        × ((emit_on channel text p).1.functions ≡ p.functions)
        × ((emit_on channel text p).1.in_tools ≡ p.in_tools)
        × ((x : List ℕ)
            → (emit_on channel text (record p { pending = x })).1
              ≡ record (emit_on channel text p).1 { pending = x })
  unfolding emit_on
  emit_on-Kept Channel.reasoning_channel text p = (refl, refl, refl, λ x. refl)
  emit_on-Kept Channel.content_channel text p = emit_content-Kept _ text p

  pub emit-Kept : (text : List ℕ) (p : StreamParser Schema) → Kept text p
  unfolding emit
  emit-Kept [] p = record { channel = refl; functions = refl; in_tools = refl; pending = λ x. refl }
  emit-Kept (c ∷ text) p =
      let (a, b, d, e) = emit_on-Kept p.channel (c ∷ text) p in
      record { channel = a; functions = b; in_tools = d; pending = e }
