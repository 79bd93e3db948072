-- ===== src/Chat/Hook/Closed.antt =====
-- What the directive of the callback in engine/forward/chat.py leaves of the parser: reasoning is over.
use qwarz.Base.{
  ℕ, ◌+◌, ◌-◌, ◌≡◌, refl, sym, ap, ◌∙◌, Bool, true, false, Bool-cases, inl, inr, Option, none, some,
  List, [], ◌∷◌, ◌++◌, take, drop, length, arith,
}
use qwarz.Base.Texts.{begins, find_text}
use qwarz.Parsing.Feed.{
  Channel, StreamParser, content_channel, end_of_thinking, start_of_call, is_empty, held, emit,
  keep_held, enter_tools, content_at, content_round, drain_content, reasoning_at, drain, feed_in,
  feed,
}
use qwarz.Parsing.Feed.Emit.{emit-Kept}

-- the parser collects tool calls on the content channel only
abbrev pub IsCoherent : {Schema : Type 0} → StreamParser Schema → Type 0
IsCoherent p = p.in_tools ≡ true → p.channel ≡ content_channel

begins_self : (m t : List ℕ) → begins m (m ++ t) ≡ true
unfolding begins
begins_self [] t = refl
begins_self (x ∷ m) t = ground (arith, begins_self m t)

-- a text that ends in the marker and more has the marker
found : (m t w : List ℕ) → (p : ℕ) × (find_text m (w ++ (m ++ t)) ≡ some p)
unfolding find_text
found [] [] [] = (0, unfold begins in refl)
found [] (x ∷ t) [] = (0, unfold begins in refl)
found (x ∷ m) t [] = (0, rw (begins_self (x ∷ m) t) refl)
found m t (x ∷ w) = elim (Bool-cases (begins m (x ∷ (w ++ (m ++ t))))) [
  | inl hit ↦ (0, rw hit refl)
  | inr miss ↦ let (p, there) = found m t w in (1 + p, rw (miss, there) refl)
]

module _ {Schema : Type 0} where
  keep_held-kept :
      (n : ℕ) (text : List ℕ) (p : StreamParser Schema)
      → ((keep_held n text p).1.channel ≡ p.channel)
        × ((keep_held n text p).1.in_tools ≡ p.in_tools)
  unfolding keep_held
  keep_held-kept n text p =
      let k = emit-Kept (take (length text - n) text) p in (k.channel, k.in_tools)

  content_at-channel :
      (at : Option ℕ) (text : List ℕ) (p : StreamParser Schema)
      → (content_at at text p).1.channel ≡ p.channel
  unfolding content_at enter_tools
  content_at-channel none text p = (keep_held-kept (held start_of_call text) text p).0
  content_at-channel (some position) text p = (emit-Kept (take position text) p).channel

  drain_content-channel :
      (text : List ℕ) (p : StreamParser Schema) → (drain_content text p).1.channel ≡ p.channel
  unfolding drain_content content_round
  drain_content-channel text p = elim (Bool-cases (is_empty p.functions)) [
    | inl bare ↦ rw bare (keep_held-kept 0 text p).0
    | inr tools ↦ rw tools (content_at-channel (find_text start_of_call text) text p)
  ]

  reasoning_at-IsCoherent :
      (at : Option ℕ) (text : List ℕ) (p : StreamParser Schema)
      → p.in_tools ≡ false
      → IsCoherent (reasoning_at at text p).1
  unfolding reasoning_at
  reasoning_at-IsCoherent none text p out h = absurd (
      let e : true ≡ false = sym h ∙ (keep_held-kept (held end_of_thinking text) text p).1 ∙ out in
      cc e)
  reasoning_at-IsCoherent (some position) text p out h =
      drain_content-channel (drop (position + length end_of_thinking) text)
        (record (emit (take position text) p).1 { channel = content_channel })

  drain-IsCoherent :
      (channel : Channel) (text : List ℕ) (p : StreamParser Schema)
      → p.channel ≡ channel
      → p.in_tools ≡ false
      → IsCoherent (drain channel text p).1
  unfolding drain
  drain-IsCoherent Channel.reasoning_channel text p on out h =
      reasoning_at-IsCoherent (find_text end_of_thinking text) text p out h
  drain-IsCoherent Channel.content_channel text p on out h = drain_content-channel text p ∙ on

  feed_in-IsCoherent :
      (tools : Bool) (text : List ℕ) (p : StreamParser Schema)
      → p.in_tools ≡ tools
      → IsCoherent p
      → IsCoherent (feed_in tools text p).1
  unfolding feed_in
  feed_in-IsCoherent true text p at coherent h = coherent at
  feed_in-IsCoherent false text p at coherent h =
      drain-IsCoherent p.channel (p.pending ++ text) p refl at h

  pub feed-IsCoherent :
      (text : List ℕ) (p : StreamParser Schema) → IsCoherent p → IsCoherent (feed text p).1
  unfolding feed
  feed-IsCoherent text p = feed_in-IsCoherent p.in_tools text p refl

  -- the channel of content is not left
  feed_in-content :
      (tools : Bool) (text : List ℕ) (p : StreamParser Schema)
      → p.channel ≡ content_channel
      → (feed_in tools text p).1.channel ≡ content_channel
  unfolding feed_in drain
  feed_in-content true text p on = on
  feed_in-content false text p on =
      ap (λ c. (drain c (p.pending ++ text) p).1.channel) on
      ∙ drain_content-channel (p.pending ++ text) p
      ∙ on

  pub feed-content :
      (text : List ℕ) (p : StreamParser Schema)
      → p.channel ≡ content_channel
      → (feed text p).1.channel ≡ content_channel
  unfolding feed
  feed-content text p = feed_in-content p.in_tools text p

  reasoning_at-closed :
      (at : Option ℕ) (position : ℕ) (text : List ℕ) (p : StreamParser Schema)
      → at ≡ some position
      → (reasoning_at at text p).1.channel ≡ content_channel
  unfolding reasoning_at
  reasoning_at-closed none position text p h = absurd (cc)
  reasoning_at-closed (some q) position text p h =
      drain_content-channel (drop (q + length end_of_thinking) text)
        (record (emit (take q text) p).1 { channel = content_channel })

  feed_in-closed :
      (tools : Bool) (channel : Channel) (tail : List ℕ) (p : StreamParser Schema)
      → p.in_tools ≡ tools
      → p.channel ≡ channel
      → IsCoherent p
      → (feed_in tools (end_of_thinking ++ tail) p).1.channel ≡ content_channel
  unfolding feed_in drain
  feed_in-closed true channel tail p in_tools on coherent = coherent in_tools
  feed_in-closed false Channel.content_channel tail p in_tools on coherent =
      feed_in-content false (end_of_thinking ++ tail) p on
  feed_in-closed false Channel.reasoning_channel tail p in_tools on coherent =
      let (position, there) = found end_of_thinking tail p.pending in
      ap (λ c. (drain c (p.pending ++ (end_of_thinking ++ tail)) p).1.channel) on
      ∙ reasoning_at-closed (find_text end_of_thinking (p.pending ++ (end_of_thinking ++ tail)))
          position (p.pending ++ (end_of_thinking ++ tail)) p there

  -- behind the end of thinking the parser is on the channel of content
  pub feed-closed :
      (tail : List ℕ) (p : StreamParser Schema)
      → IsCoherent p
      → (feed (end_of_thinking ++ tail) p).1.channel ≡ content_channel
  unfolding feed
  feed-closed tail p = feed_in-closed p.in_tools p.channel tail p refl refl
