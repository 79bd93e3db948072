-- ===== src/Chat/Hook.antt =====
-- The state of `run_turn` in engine/forward/chat.py and its callback `on_accepted`, which streams the
-- accepted ids and closes a reasoning that goes on for too long. Times are left out.
pub mod Seen
pub mod Visible
pub mod Closed
pub mod Ended
use qwarz.Base.{
  ℕ, zero, suc, ◌+◌, ◌-◌, Bool, true, false, ◌&&◌, ◌||◌, not, Option, none, some, List, [], ◌∷◌,
  ◌++◌, length, drop, init_list, last_or, ltb, leb, ◌==◌, if◌then◌else◌,
}
use qwarz.Base.Texts.{codes}
use qwarz.Parsing.Feed.{Channel, StreamParser, Events, reasoning_channel, content_channel, feed}
use qwarz.Cycle.Turn.{Directive}
use qwarz.Chat.{Text, IncrementalText, new_text, push}

-- `close_reason`
pub data Close : Type 0 where
  budget unterminated : Close

-- The fields of `prepared` that the callback reads.
pub record Limits : Type 0 where
  pub stop : ℕ
  pub cap : ℕ
  pub close_ids : List ℕ
  pub maximum : ℕ

-- `state` with the parser, the deltas that were published, and the polls of the cancel event.
-- `first_batch` is none until the first ids come.
pub record TurnState (Schema : Type 0) : Type 0 where
  pub parser : StreamParser Schema
  pub seen : ℕ
  pub visible : List ℕ
  pub text : IncrementalText
  pub streamed_content : ℕ
  pub streamed_reasoning : ℕ
  pub reasoning_tokens : ℕ
  pub close_reason : Option Close
  pub budget_halt : Bool
  pub first_batch : Option ℕ
  pub emitted : ℕ
  pub published : Events
  pub polls : ℕ

abbrev pub new_turn : {Schema : Type 0} → StreamParser Schema → TurnState Schema
new_turn parser = record {
  parser = parser;
  seen = 0;
  visible = [];
  text = new_text;
  streamed_content = 0;
  streamed_reasoning = 0;
  reasoning_tokens = 0;
  close_reason = none;
  budget_halt = false;
  first_batch = none;
  emitted = 0;
  published = [];
  polls = 0;
}

abbrev pub is_reasoning : Channel → Bool
is_reasoning Channel.reasoning_channel = true
is_reasoning Channel.content_channel = false

-- `REASONING_CLOSE`
abbrev pub reasoning_close : Text
reasoning_close = codes "</think>\n\n"

abbrev pub or_first : Option ℕ → ℕ → Option ℕ
or_first none n = some n
or_first (some m) n = some m

abbrev pub is_open : Option Close → Bool
is_open none = true
is_open (some close) = false

module _ {Schema : Type 0} where
  -- `emit_text`
  unfoldable pub emit_text : Channel → Text → TurnState Schema → TurnState Schema
  emit_text channel [] s = s
  emit_text Channel.content_channel (c ∷ text) s = record s {
    streamed_content = s.streamed_content + length (c ∷ text);
    published = s.published ++ (content_channel, c ∷ text) ∷ [];
  }
  emit_text Channel.reasoning_channel (c ∷ text) s = record s {
    streamed_reasoning = s.streamed_reasoning + length (c ∷ text);
    published = s.published ++ (reasoning_channel, c ∷ text) ∷ [];
  }

  unfoldable pub emit_all : Events → TurnState Schema → TurnState Schema
  unfolding emit_text
  emit_all [] s = s
  emit_all ((channel, piece) ∷ events) s = emit_all events (emit_text channel piece s)

  -- the closure `feed`
  unfoldable pub feed_text : Text → TurnState Schema → TurnState Schema
  unfolding feed emit_all
  feed_text [] s = s
  feed_text (c ∷ text) s =
      let (events, parser) = feed (c ∷ text) s.parser in
      emit_all events (record s { parser = parser })

  -- the counters of a batch of new ids
  unfoldable pub count_new : List ℕ → TurnState Schema → TurnState Schema
  count_new new s = record s {
    first_batch = or_first s.first_batch (length new);
    emitted = s.emitted + length new;
    reasoning_tokens =
        if is_reasoning s.parser.channel
        then s.reasoning_tokens + length new
        else s.reasoning_tokens;
  }

module _ {Schema : Type 0} (decode : List ℕ → Text) where
  -- the ids that are not the stop, as text
  unfoldable pub stream_visible : List ℕ → TurnState Schema → TurnState Schema
  unfolding push feed_text
  stream_visible [] s = s
  stream_visible (v ∷ visible) s =
      let (piece, text) = push decode (v ∷ visible) s.text in
      feed_text piece (record s { visible = s.visible ++ v ∷ visible; text = text })

-- how many ids stand behind the injection
abbrev pub closed_length : Limits → Bool → List ℕ → ℕ
closed_length limits hit_stop produced =
    length produced - (if hit_stop then 1 else 0) + length limits.close_ids

module _ {Schema : Type 0} (limits : Limits) where
  abbrev pub hit_budget : TurnState Schema → Bool
  hit_budget s = ltb 0 limits.cap && leb limits.cap s.reasoning_tokens

  -- reasoning is closed: its end is fed, and the ids of the end are injected
  unfoldable pub close_reasoning :
      Bool → List ℕ → TurnState Schema → Option Directive × TurnState Schema
  unfolding feed_text
  close_reasoning hit_stop produced s =
      let fed =
        feed_text reasoning_close (record s { seen = if hit_stop then s.seen - 1 else s.seen }) in
      let halt = leb limits.maximum (closed_length limits hit_stop produced) in
      (
        some (record { drop_last = hit_stop; inject = limits.close_ids; halt = halt }),
        record fed {
          seen = fed.seen + length limits.close_ids;
          emitted = fed.emitted + length limits.close_ids;
          close_reason = some (if hit_budget s then budget else unterminated);
          budget_halt = halt;
        },
      )

  -- behind the poll of the cancel event
  unfoldable pub close_if_due :
      Bool → Bool → List ℕ → TurnState Schema → Option Directive × TurnState Schema
  unfolding close_reasoning
  close_if_due true hit_stop produced s = (none, s)
  close_if_due false hit_stop produced s =
      if is_open s.close_reason && (is_reasoning s.parser.channel && (hit_budget s || hit_stop))
      then close_reasoning hit_stop produced s
      else (none, s)

-- `_stop_requested(cancel)` by the number of polls so far
abbrev pub is_cancelled : Option (ℕ → Bool) → ℕ → Bool
is_cancelled none polls = false
is_cancelled (some is_set) polls = is_set polls

abbrev pub count_poll : Option (ℕ → Bool) → ℕ → ℕ
count_poll none polls = polls
count_poll (some is_set) polls = polls + 1

-- what the loop makes of the ids produced when it follows a directive
abbrev pub followed : Option Directive → List ℕ → List ℕ
followed none produced = produced
followed (some directive) produced =
    (if directive.drop_last then init_list produced else produced) ++ directive.inject

abbrev pub add_directive : Option Directive → List Directive → List Directive
add_directive none directives = directives
add_directive (some directive) directives = directive ∷ directives

module _ {Schema : Type 0} (decode : List ℕ → Text) (limits : Limits)
    (cancel : Option (ℕ → Bool)) where
  -- what the ids leave before the cancel event is polled
  unfoldable pub streamed : List ℕ → List ℕ → Bool → TurnState Schema → TurnState Schema
  unfolding count_new stream_visible
  streamed produced new hit_stop s =
      let t = stream_visible decode (if hit_stop then init_list new else new) (count_new new s) in
      record t { seen = length produced }

  unfoldable pub accept_new :
      List ℕ → List ℕ → TurnState Schema → Option Directive × TurnState Schema
  unfolding streamed close_if_due
  accept_new produced [] s = (none, s)
  accept_new produced (n ∷ new) s =
      let hit_stop = last_or 0 (n ∷ new) == limits.stop in
      let t = streamed produced (n ∷ new) hit_stop s in
      close_if_due limits (is_cancelled cancel t.polls) hit_stop produced
        (record t { polls = count_poll cancel t.polls })

  -- the callback
  unfoldable pub on_accepted : List ℕ → TurnState Schema → Option Directive × TurnState Schema
  unfolding accept_new
  on_accepted produced s = accept_new produced (drop s.seen produced) s

  -- What the loop of `continue_drafted` (engine/forward/cycle.py) does with the callback: one call for
  -- each window, and the directive followed. The directives, the ids produced and the state.
  unfoldable pub accept_all :
      List (List ℕ) → List ℕ → TurnState Schema → List Directive × List ℕ × TurnState Schema
  unfolding on_accepted
  accept_all [] produced s = ([], produced, s)
  accept_all (new ∷ windows) produced s =
      let (directive, t) = on_accepted (produced ++ new) s in
      let (more, all, u) = accept_all windows (followed directive (produced ++ new)) t in
      (add_directive directive more, all, u)
