-- ===== src/Chat/Hook/Ended.antt =====
-- A turn of engine/forward/chat.py whose reasoning was closed is on the channel of content.
use qwarz.Base.{
  ℕ, ◌-◌, ◌≡◌, refl, sym, ap, ◌∙◌, subst, Bool, true, false, ◌&&◌, ◌||◌, Bool-cases, inl, inr,
  Option, none, some, Option-cases, List, [], ◌∷◌, ◌++◌, drop, init_list, last_or, ◌==◌,
  if◌then◌else◌,
}
use qwarz.Base.Texts.{codes}
use qwarz.Parsing.Feed.{StreamParser, content_channel}
use qwarz.Cycle.Turn.{Directive}
use qwarz.Chat.{Text, push}
use qwarz.Chat.Hook.{
  Limits, TurnState, is_reasoning, is_open, reasoning_close, feed_text, count_new, stream_visible,
  hit_budget, close_reasoning, close_if_due, is_cancelled, count_poll, streamed, accept_new,
  on_accepted, accept_all, followed,
}
use qwarz.Chat.Hook.Seen.{feed_text-parser, add_none}
use qwarz.Chat.Hook.Closed.{IsCoherent, feed-IsCoherent, feed-content, feed-closed}

-- what a step may do to the parser
record Onward {Schema : Type 0} (p q : StreamParser Schema) : Type 0 where
  coherent : IsCoherent p → IsCoherent q
  content : p.channel ≡ content_channel → q.channel ≡ content_channel

Onward-refl : {Schema : Type 0} (p q : StreamParser Schema) → q ≡ p → Onward p q
Onward-refl p q e = record {
  coherent = λ h. subst IsCoherent (sym e) h;
  content = λ h. ap (λ (r : StreamParser _). r.channel) e ∙ h;
}

Onward-trans :
    {Schema : Type 0} (p q r : StreamParser Schema) → Onward p q → Onward q r → Onward p r
Onward-trans p q r a b = record {
  coherent = λ h. b.coherent (a.coherent h);
  content = λ h. b.content (a.content h);
}

module _ {Schema : Type 0} where
  feed_text-Onward :
      (text : Text) (s : TurnState Schema) → Onward s.parser (feed_text text s).parser
  feed_text-Onward [] s = unfold feed_text in Onward-refl s.parser s.parser refl
  feed_text-Onward (c ∷ text) s =
      let e = feed_text-parser c text s in
      record {
        coherent = λ h. subst IsCoherent (sym e) (feed-IsCoherent (c ∷ text) s.parser h);
        content =
            λ h. ap (λ (r : StreamParser Schema). r.channel) e ∙ feed-content (c ∷ text) s.parser h;
      }

-- behind a window: the parser moved on, and a directive left it on the channel of content
record Turned {Schema : Type 0} (p : StreamParser Schema) (r : Option Directive × TurnState Schema)
    : Type 0 where
  onward : Onward p r.1.parser
  closed : (d : Directive) → r.0 ≡ some d → IsCoherent p → r.1.parser.channel ≡ content_channel

Turned-idle :
    {Schema : Type 0} (p : StreamParser Schema) (s : TurnState Schema)
    → Onward p s.parser
    → Turned p (none, s)
Turned-idle p s o = record { onward = o; closed = λ d h c. absurd (cc) }

module _ {Schema : Type 0} (limits : Limits) where
  close_reasoning-Turned :
      (hit_stop : Bool) (produced : List ℕ) (s : TurnState Schema)
      → Turned s.parser (close_reasoning limits hit_stop produced s)
  unfolding close_reasoning
  close_reasoning-Turned hit_stop produced s =
      let t : TurnState Schema = record s { seen = if hit_stop then s.seen - 1 else s.seen } in
      record {
        onward = feed_text-Onward reasoning_close t;
        closed = λ d h c.
            ap (λ (r : StreamParser Schema). r.channel)
              (feed_text-parser 60 (codes "/think>\n\n") t)
            ∙ feed-closed (codes "\n\n") s.parser c;
      }

  close_if_due-Turned :
      (set hit_stop : Bool) (produced : List ℕ) (s : TurnState Schema)
      → Turned s.parser (close_if_due limits set hit_stop produced s)
  unfolding close_if_due
  close_if_due-Turned true hit_stop produced s =
      Turned-idle s.parser s (Onward-refl s.parser s.parser refl)
  close_if_due-Turned false hit_stop produced s =
      elim (Bool-cases (
        is_open s.close_reason
        && (is_reasoning s.parser.channel && (hit_budget limits s || hit_stop)))) [
          | inl due ↦ rw due (close_reasoning-Turned hit_stop produced s)
          | inr idle ↦ rw idle (Turned-idle s.parser s (Onward-refl s.parser s.parser refl))
        ]

module _ {Schema : Type 0} (decode : List ℕ → Text) (limits : Limits)
    (cancel : Option (ℕ → Bool)) where
  stream_visible-Onward :
      (visible : List ℕ) (s : TurnState Schema)
      → Onward s.parser (stream_visible decode visible s).parser
  unfolding stream_visible
  stream_visible-Onward [] s = Onward-refl s.parser s.parser refl
  stream_visible-Onward (v ∷ visible) s =
      feed_text-Onward (push decode (v ∷ visible) s.text).0 (record s {
        visible = s.visible ++ v ∷ visible;
        text = (push decode (v ∷ visible) s.text).1;
      })

  accept_new-Turned :
      (produced new : List ℕ) (s : TurnState Schema)
      → Turned s.parser (accept_new decode limits cancel produced new s)
  unfolding accept_new streamed count_new
  accept_new-Turned produced [] s = Turned-idle s.parser s (Onward-refl s.parser s.parser refl)
  accept_new-Turned produced (n ∷ new) s =
      let hit_stop = last_or 0 (n ∷ new) == limits.stop in
      let t = streamed decode limits cancel produced (n ∷ new) hit_stop s in
      let before =
        stream_visible-Onward (if hit_stop then init_list (n ∷ new) else n ∷ new)
          (count_new (n ∷ new) s) in
      let after =
        close_if_due-Turned limits (is_cancelled cancel t.polls) hit_stop produced
          (record t { polls = count_poll cancel t.polls }) in
      record {
        onward = Onward-trans s.parser t.parser _ before after.onward;
        closed = λ d h c. after.closed d h (before.coherent c);
      }

  on_accepted-Turned :
      (produced : List ℕ) (s : TurnState Schema)
      → Turned s.parser (on_accepted decode limits cancel produced s)
  unfolding on_accepted
  on_accepted-Turned produced s = accept_new-Turned produced (drop s.seen produced) s

  accept_all-Onward :
      (windows : List (List ℕ)) (produced : List ℕ) (s : TurnState Schema)
      → Onward s.parser (accept_all decode limits cancel windows produced s).2.parser
  unfolding accept_all
  accept_all-Onward [] produced s = Onward-refl s.parser s.parser refl
  accept_all-Onward (new ∷ windows) produced s =
      let (directive, t) = on_accepted decode limits cancel (produced ++ new) s in
      Onward-trans s.parser t.parser _ (on_accepted-Turned (produced ++ new) s).onward
        (accept_all-Onward windows (followed directive (produced ++ new)) t)

  -- A turn that gave a directive, in any window, ends with its parser on the channel of content: the
  -- end of thinking that it fed closed the reasoning, whatever was pending, and nothing opens it
  -- again. The parser starts coherent, as a new one does.
  pub accept_all-closed :
      (windows : List (List ℕ)) (produced : List ℕ) (s : TurnState Schema) (directive : Directive)
      (directives : List Directive)
      → IsCoherent s.parser
      → (accept_all decode limits cancel windows produced s).0 ≡ directive ∷ directives
      → (accept_all decode limits cancel windows produced s).2.parser.channel ≡ content_channel
  unfolding accept_all
  accept_all-closed [] produced s directive directives coherent h = absurd (cc)
  accept_all-closed (new ∷ windows) produced s directive directives coherent h =
      let turned = on_accepted-Turned (produced ++ new) s in
      let (given, t) = on_accepted decode limits cancel (produced ++ new) s in
      let rest = accept_all decode limits cancel windows (followed given (produced ++ new)) t in
      elim (Option-cases given) [
        | inl nothing ↦
            accept_all-closed windows (followed given (produced ++ new)) t directive directives
              (turned.onward.coherent coherent) (sym (add_none given rest.0 nothing) ∙ h)
        | inr (d, some_given) ↦
            (accept_all-Onward windows (followed given (produced ++ new)) t).content
              (turned.closed d some_given coherent)
      ]
