-- ===== src/Chat/Hook/Seen.antt =====
-- The callback of engine/forward/chat.py sees every id once, and closes the reasoning once.
use qwarz.Base.{
  ℕ, ◌+◌, ◌-◌, ◌≤◌, ◌≡◌, refl, sym, ap, ◌∙◌, subst, Bool, true, false, ◌&&◌, ◌||◌, Bool-cases, inl,
  inr, Option, none, some, List, [], ◌∷◌, ◌++◌, length, drop, init_list, last_or, ◌==◌,
  if◌then◌else◌, length-append, length-init_list, drop-append_self, append-nil, arith,
}
use qwarz.Parsing.Feed.{Channel, Events, feed}
use qwarz.Cycle.Turn.{Directive}
use qwarz.Chat.{Text, push}
use qwarz.Chat.Hook.{
  Limits, TurnState, is_reasoning, is_open, reasoning_close, emit_text, emit_all, feed_text,
  count_new, stream_visible, hit_budget, close_reasoning, close_if_due, is_cancelled, count_poll,
  streamed, accept_new, on_accepted, accept_all, followed, add_directive,
}

module _ {Schema : Type 0} where
  -- what streaming leaves alone
  abbrev Same : TurnState Schema → TurnState Schema → Type 0
  Same s t =
      (t.seen ≡ s.seen)
      × (t.close_reason ≡ s.close_reason)
      × (t.reasoning_tokens ≡ s.reasoning_tokens)
      × (t.parser ≡ s.parser)

  emit_text-Same :
      (channel : Channel) (text : Text) (s : TurnState Schema) → Same s (emit_text channel text s)
  unfolding emit_text
  emit_text-Same channel [] s = (refl, refl, refl, refl)
  emit_text-Same Channel.content_channel (c ∷ text) s = (refl, refl, refl, refl)
  emit_text-Same Channel.reasoning_channel (c ∷ text) s = (refl, refl, refl, refl)

  emit_all-Same : (events : Events) (s : TurnState Schema) → Same s (emit_all events s)
  unfolding emit_all
  emit_all-Same [] s = (refl, refl, refl, refl)
  emit_all-Same ((channel, piece) ∷ events) s =
      let a = emit_text-Same channel piece s in
      let b = emit_all-Same events (emit_text channel piece s) in
      (b.0 ∙ a.0, b.1 ∙ a.1, b.2 ∙ a.2, b.3 ∙ a.3)

  pub feed_text-kept :
      (text : Text) (s : TurnState Schema)
      → ((feed_text text s).seen ≡ s.seen)
        × ((feed_text text s).close_reason ≡ s.close_reason)
        × ((feed_text text s).reasoning_tokens ≡ s.reasoning_tokens)
  unfolding feed_text
  feed_text-kept [] s = (refl, refl, refl)
  feed_text-kept (c ∷ text) s =
      let (events, parser) = feed (c ∷ text) s.parser in
      let a = emit_all-Same events (record s { parser = parser }) in (a.0, a.1, a.2)

  -- the parser behind a text that is fed
  pub feed_text-parser :
      (c : ℕ) (text : Text) (s : TurnState Schema)
      → (feed_text (c ∷ text) s).parser ≡ (feed (c ∷ text) s.parser).1
  unfolding feed_text
  feed_text-parser c text s =
      let (events, parser) = feed (c ∷ text) s.parser in
      (emit_all-Same events (record s { parser = parser })).3

module _ {Schema : Type 0} (decode : List ℕ → Text) where
  stream_visible-kept :
      (visible : List ℕ) (s : TurnState Schema)
      → (stream_visible decode visible s).close_reason ≡ s.close_reason
  unfolding stream_visible
  stream_visible-kept [] s = refl
  stream_visible-kept (v ∷ visible) s = (feed_text-kept (push decode (v ∷ visible) s.text).0 _).1

-- Where the callback stands behind a window: `produced` is what the loop has when it has followed the
-- directive. A directive comes once.
pub record Accepted {Schema : Type 0} (before : TurnState Schema) (produced : List ℕ)
    (r : Option Directive × TurnState Schema) : Type 0 where
  pub seen : r.1.seen ≡ length (followed r.0 produced)
  pub once : is_open before.close_reason ≡ false → r.0 ≡ none
  pub closed : is_open r.1.close_reason ≡ true → (r.0 ≡ none) × (is_open before.close_reason ≡ true)

module _ {Schema : Type 0} (limits : Limits) where
  close_reasoning-Accepted :
      (hit_stop : Bool) (produced : List ℕ) (s : TurnState Schema)
      → s.seen ≡ length produced
      → is_open s.close_reason ≡ true
      → Accepted s produced (close_reasoning limits hit_stop produced s)
  unfolding close_reasoning
  close_reasoning-Accepted true produced s at_end opened = record {
    seen =
        ap (λ n. n + length limits.close_ids)
          ((feed_text-kept reasoning_close (record s { seen = s.seen - 1 })).0)
        ∙ omega (
          arith,
          at_end,
          length-append (init_list produced) limits.close_ids,
          length-init_list produced,
        );
    once = λ h. cc (h, opened);
    closed = λ h. cc h;
  }
  close_reasoning-Accepted false produced s at_end opened = record {
    seen =
        ap (λ n. n + length limits.close_ids)
          ((feed_text-kept reasoning_close (record s { seen = s.seen })).0)
        ∙ omega (arith, at_end, length-append produced limits.close_ids);
    once = λ h. cc (h, opened);
    closed = λ h. cc h;
  }

  close_if_due-Accepted :
      (set hit_stop : Bool) (produced : List ℕ) (s : TurnState Schema)
      → s.seen ≡ length produced
      → Accepted s produced (close_if_due limits set hit_stop produced s)
  unfolding close_if_due
  close_if_due-Accepted true hit_stop produced s at_end = record {
    seen = at_end;
    once = λ h. refl;
    closed = λ h. (refl, h);
  }
  close_if_due-Accepted false hit_stop produced s at_end =
      elim (Bool-cases (is_open s.close_reason)) [
        | inl opened ↦
            elim (Bool-cases (is_reasoning s.parser.channel && (hit_budget limits s || hit_stop))) [
              | inl due ↦
                  rw (opened, due) (close_reasoning-Accepted hit_stop produced s at_end opened)
              | inr idle ↦
                  rw (opened, idle)
                    (record { seen = at_end; once = λ h. refl; closed = λ h. (refl, opened) })
            ]
        | inr shut ↦
            rw shut (record { seen = at_end; once = λ h. refl; closed = λ h. cc (h, shut) })
      ]

pub add_none :
    (d : Option Directive) (more : List Directive) → d ≡ none → add_directive d more ≡ more
add_none none more h = refl
add_none (some d) more h = absurd (cc)

add_first :
    (d : Option Directive) (more : List Directive) → more ≡ [] → length (add_directive d more) ≤ 1
add_first none more h = rw h (omega arith)
add_first (some d) more h = rw h (omega arith)

module _ {Schema : Type 0} (decode : List ℕ → Text) (limits : Limits)
    (cancel : Option (ℕ → Bool)) where
  accept_new-Accepted :
      (produced new : List ℕ) (s : TurnState Schema)
      → (new ≡ [] → s.seen ≡ length produced)
      → Accepted s produced (accept_new decode limits cancel produced new s)
  unfolding accept_new streamed
  accept_new-Accepted produced [] s at_end = record {
    seen = at_end refl;
    once = λ h. refl;
    closed = λ h. (refl, h);
  }
  accept_new-Accepted produced (n ∷ new) s at_end =
      let hit_stop = last_or 0 (n ∷ new) == limits.stop in
      let t = streamed decode limits cancel produced (n ∷ new) hit_stop s in
      let a =
        close_if_due-Accepted limits (is_cancelled cancel t.polls) hit_stop produced
          (record t { polls = count_poll cancel t.polls }) refl in
      let same =
        stream_visible-kept decode (if hit_stop then init_list (n ∷ new) else n ∷ new)
          (count_new (n ∷ new) s) in
      record {
        seen = a.seen;
        once = λ h. a.once (ap is_open same ∙ h);
        closed = λ h. ((a.closed h).0, sym (ap is_open same) ∙ (a.closed h).1);
      }

  pub on_accepted-Accepted :
      (produced new : List ℕ) (s : TurnState Schema)
      → s.seen ≡ length produced
      → Accepted s (produced ++ new) (on_accepted decode limits cancel (produced ++ new) s)
  unfolding on_accepted
  on_accepted-Accepted produced new s at_end =
      let rest : drop s.seen (produced ++ new) ≡ new =
        ap (λ n. drop n (produced ++ new)) at_end ∙ drop-append_self produced new in
      accept_new-Accepted (produced ++ new) (drop s.seen (produced ++ new)) s (λ none_new.
        let e : new ≡ [] = sym rest ∙ none_new in
        at_end ∙ (rw e (ap length (sym (append-nil produced)))))

  -- behind all windows
  pub accept_all-seen :
      (windows : List (List ℕ)) (produced : List ℕ) (s : TurnState Schema)
      → s.seen ≡ length produced
      → let r = accept_all decode limits cancel windows produced s in
        (r.2.seen ≡ length r.1) × (length r.0 ≤ 1) × (is_open s.close_reason ≡ false → r.0 ≡ [])
  unfolding accept_all
  accept_all-seen [] produced s at_end = (at_end, omega arith, λ h. refl)
  accept_all-seen (new ∷ windows) produced s at_end =
      let a = on_accepted-Accepted produced new s at_end in
      let (directive, t) = on_accepted decode limits cancel (produced ++ new) s in
      let (seen, few, none_more) =
        accept_all-seen windows (followed directive (produced ++ new)) t a.seen in
      let more =
        (accept_all decode limits cancel windows (followed directive (produced ++ new)) t).0 in
      elim (Bool-cases (is_open t.close_reason)) [
        | inl opened ↦
            let (nothing, was_open) = a.closed opened in
            (
              seen,
              subst (λ l. length l ≤ 1) (sym (add_none directive more nothing)) few,
              λ h. absurd (let bad : true ≡ false = sym was_open ∙ h in cc bad),
            )
        | inr shut ↦ (
          seen,
          add_first directive more (none_more shut),
          λ h. add_none directive more (a.once h) ∙ none_more shut,
        )
      ]
