-- ===== src/Chat/Finish/Published.antt =====
-- What a turn of engine/forward/chat.py publishes is its message.
use qwarz.Base.{
  ◌⊎◌, inl, inr, ℕ, ◌≡◌, sym, ap, subst, ◌∙◌, Bool, Option, List, [], ◌++◌, length, drop,
  drop-append_self, append-nil, arith,
}
use qwarz.Base.Outcome.{Error, Result, ok, raise, ◌>>=◌}
use qwarz.Parsing.Json.{Members}
use qwarz.Parsing.Feed.{Channel, StreamParser}
use qwarz.Parsing.Feed.Shown.{shown}
use qwarz.Parsing.Tools.Declared.{bound, ok-injective}
use qwarz.Parsing.Finish.{Answer, Finisher, ToolChoice, unclosed_tool_xml}
use qwarz.Parsing.Finish.Errors.{Comes}
use qwarz.Session.Turns.{Status}
use qwarz.Chat.{Text}
use qwarz.Chat.Hook.{Limits, TurnState, new_turn, emit_text, accept_all}
use qwarz.Chat.Finish.{
  Ended, ran_out, first_status, unclosed_status, conclude, publish_tails, flushed, end_turn,
}
use qwarz.Chat.Finish.Message.{Extends, IsOther, conclude-Extends, conclude-Concluded}
use qwarz.Chat.Finish.Adds.{IsTold, emit_text-Adds}
use qwarz.Chat.Finish.Told.{accept_all-IsTold, flushed-IsTold}

-- the tails close the gap between what was published and the message
tails :
    {Real : Type 0} (message : Answer) (s : TurnState (Members Real))
    → IsTold s
    → Extends s.parser message
    → let u = publish_tails message s in
      (shown Channel.content_channel u.published ≡ message.content)
      × (shown Channel.reasoning_channel u.published ≡ message.reasoning_content)
unfolding publish_tails
tails message s told extends =
    let (x, content) = extends.content in
    let (y, reasoning) = extends.reasoning in
    let first = drop s.streamed_content message.content in
    let t = emit_text Channel.content_channel first s in
    let second = drop t.streamed_reasoning message.reasoning_content in
    let a = emit_text-Adds Channel.content_channel first s in
    let b = emit_text-Adds Channel.reasoning_channel second t in
    let first_is : first ≡ x =
      ap (λ n. drop n message.content) told.content_count
      ∙ ap (drop (length s.parser.content)) content
      ∙ drop-append_self s.parser.content x in
    let count : t.streamed_reasoning ≡ length s.parser.reasoning =
      omega (arith, a.reasoning_count, told.reasoning_count) in
    let second_is : second ≡ y =
      ap (λ n. drop n message.reasoning_content) count
      ∙ ap (drop (length s.parser.reasoning)) reasoning
      ∙ drop-append_self s.parser.reasoning y in
    (
      b.content
          ∙ append-nil (shown Channel.content_channel t.published)
          ∙ a.content
          ∙ ap (λ l. shown Channel.content_channel s.published ++ l) (append-nil first ∙ first_is)
          ∙ ap (λ l. l ++ x) told.content
          ∙ sym content,
      b.reasoning
          ∙ ap (λ l. shown Channel.reasoning_channel t.published ++ l)
              (append-nil second ∙ second_is)
          ∙ ap (λ l. l ++ y)
              (a.reasoning
                ∙ append-nil (shown Channel.reasoning_channel s.published)
                ∙ told.reasoning)
          ∙ sym reasoning,
    )

module _ {Real : Type 0} (decode : List ℕ → Text) (finisher : Finisher Real) (choice : ToolChoice)
    (limits : Limits) (cancel : Option (ℕ → Bool)) where
  end_turn-tails :
      (parser : StreamParser (Members Real)) (windows : List (List ℕ)) (status : Status)
      (produced : List ℕ) (ended : Ended) (u : TurnState (Members Real))
      → parser.content ≡ []
      → parser.reasoning ≡ []
      → end_turn decode finisher choice limits.stop status produced
          (accept_all decode limits cancel windows [] (new_turn parser)).2
        ≡ ok (ended, u)
      → (shown Channel.content_channel u.published ≡ ended.message.content)
        × (shown Channel.reasoning_channel u.published ≡ ended.message.reasoning_content)
  unfolding end_turn
  end_turn-tails parser windows status produced ended u no_content no_reasoning h =
      let s = (accept_all decode limits cancel windows [] (new_turn parser)).2 in
      let new : IsTold (new_turn parser) = record {
        content = sym no_content;
        reasoning = sym no_reasoning;
        content_count = sym (ap length no_content);
        reasoning_count = sym (ap length no_reasoning);
      } in
      let t = flushed decode s in
      let told =
        flushed-IsTold decode s
          (accept_all-IsTold decode limits cancel windows [] (new_turn parser) new) in
      let out = ran_out produced limits.stop in
      let named =
        unclosed_status (unclosed_tool_xml t.parser) out (first_status status t.budget_halt out) in
      let (e, concluded, made) =
        bound (conclude finisher choice out named t.parser)
          (λ ended. ok (ended, publish_tails ended.message t)) (ended, u) h in
      let extends = conclude-Extends finisher choice out named t.parser e concluded in
      let both = ok-injective (e, publish_tails e.message t) (ended, u) made in
      subst
        (λ (r : Ended × TurnState (Members Real)).
          (shown Channel.content_channel r.1.published ≡ r.0.message.content)
          × (shown Channel.reasoning_channel r.1.published ≡ r.0.message.reasoning_content))
        both (tails e.message t told extends)

  -- A turn that begins with an empty parser, whatever its windows were and however it was closed,
  -- cancelled or cut off: either its end returns a message, and the deltas that the turn published are,
  -- channel by channel, exactly the content and the reasoning of that message; or it raises an error
  -- that is no ValueError and that `json.loads`, `json.dumps` or `validate_value`, which is not
  -- modelled, has raised.
  pub end_turn-published :
      (parser : StreamParser (Members Real)) (windows : List (List ℕ)) (status : Status)
      (produced : List ℕ)
      → parser.content ≡ []
      → parser.reasoning ≡ []
      → let r =
          end_turn decode finisher choice limits.stop status produced
            (accept_all decode limits cancel windows [] (new_turn parser)).2 in
        ((u : Ended × TurnState (Members Real)) × (r ≡ ok u)
          × (shown Channel.content_channel u.1.published ≡ u.0.message.content)
          × (shown Channel.reasoning_channel u.1.published ≡ u.0.message.reasoning_content))
        ⊎ ((err : Error) × (r ≡ raise err) × IsOther err × Comes finisher err)
  end_turn-published parser windows status produced no_content no_reasoning =
      let s = (accept_all decode limits cancel windows [] (new_turn parser)).2 in
      let t = flushed decode s in
      let out = ran_out produced limits.stop in
      let named =
        unclosed_status (unclosed_tool_xml t.parser) out (first_status status t.budget_halt out) in
      elim (conclude-Concluded finisher choice out named t.parser) [
        | inl (ended, concluded) ↦
            let returns : end_turn decode finisher choice limits.stop status produced s
                ≡ ok (ended, publish_tails ended.message t) =
              unfold end_turn in
              ap (λ (q : Result Ended). q >>= λ ended. ok (ended, publish_tails ended.message t))
                concluded in
            let (content, reasoning) =
              end_turn-tails parser windows status produced ended (publish_tails ended.message t)
                no_content no_reasoning returns in
            inl ((ended, publish_tails ended.message t), returns, content, reasoning)
        | inr (err, raised, other, comes) ↦
            let raises : end_turn decode finisher choice limits.stop status produced s ≡ raise err =
              unfold end_turn in
              ap (λ (q : Result Ended). q >>= λ ended. ok (ended, publish_tails ended.message t))
                raised in
            inr (err, raises, other, comes)
      ]
