-- ===== src/Parsing/Feed.antt =====
-- `StreamParser` of src/qwasar_runtime/parsing.py while the text of an answer comes in.
pub mod Held
pub mod Cut
pub mod Emit
pub mod Content
pub mod Chunks
pub mod Shown
use qwarz.Base.{
  ℕ, zero, suc, ◌+◌, ◌-◌, Bool, ◌&&◌, not, true, false, Option, none, some, List, [], ◌∷◌, ◌++◌,
  length, take, drop, min, if◌then◌else◌,
}
use qwarz.Base.Texts.{codes, begins, ends_with, find_text, all_spaces}

pub data Channel : Type 0 where
  reasoning_channel content_channel : Channel

-- The fields that `feed` uses; the functions are those of the request, by name.
pub record StreamParser (Schema : Type 0) : Type 0 where
  pub channel : Channel
  pub functions : List (List ℕ × Schema)
  pub pending : List ℕ
  pub xml : List ℕ
  pub reasoning : List ℕ
  pub content : List ℕ
  pub leading : List ℕ
  pub in_tools : Bool

abbrev pub Events : Type 0
Events = List (Channel × List ℕ)

abbrev pub is_empty {ℓ} : {A : Type ℓ} → List A → Bool
is_empty [] = true
is_empty (x ∷ xs) = false

abbrev pub end_of_thinking : List ℕ
end_of_thinking = codes "</think>"

abbrev pub start_of_call : List ℕ
start_of_call = codes "<tool_call>"

-- The loop over `length`, as far as `n`: the longest of those prefixes of the marker that end the text.
unfoldable pub held_upto : ℕ → List ℕ → List ℕ → ℕ
unfolding ends_with
held_upto zero marker text = 0
held_upto (suc n) marker text =
    let shorter = held_upto n marker text in
    if ends_with (take (suc n) marker) text then suc n else shorter

-- `held`
unfoldable pub held : List ℕ → List ℕ → ℕ
unfolding held_upto
held marker text = held_upto (min (length marker) (length text + 1) - 1) marker text

module _ {Schema : Type 0} where
  unfoldable pub emit_content : Bool → List ℕ → StreamParser Schema → Events × StreamParser Schema
  unfolding all_spaces
  emit_content false text p =
      ((content_channel, text) ∷ [], record p { content = p.content ++ text })
  emit_content true text p =
      if all_spaces text then ([], record p { leading = p.leading ++ text }) else (
        (content_channel, p.leading ++ text) ∷ [],
        record p { leading = []; content = p.content ++ p.leading ++ text },
      )

  unfoldable pub emit_on : Channel → List ℕ → StreamParser Schema → Events × StreamParser Schema
  unfolding emit_content
  emit_on reasoning_channel text p =
      ((reasoning_channel, text) ∷ [], record p { reasoning = p.reasoning ++ text })
  emit_on content_channel text p =
      emit_content (not (is_empty p.functions) && is_empty p.content) text p

  -- `_emit`
  unfoldable pub emit : List ℕ → StreamParser Schema → Events × StreamParser Schema
  unfolding emit_on
  emit [] p = ([], p)
  emit (c ∷ text) p = emit_on p.channel (c ∷ text) p

  -- what the round of the loop does that finds no marker: an end that may begin one is held back
  unfoldable pub keep_held : ℕ → List ℕ → StreamParser Schema → Events × StreamParser Schema
  unfolding emit
  keep_held n text p =
      let (events, p') = emit (take (length text - n) text) p in
      (events, record p' { pending = drop (length text - n) text })

  unfoldable pub enter_tools : List ℕ → ℕ → StreamParser Schema → Events × StreamParser Schema
  unfolding emit
  enter_tools text position p =
      let (events, p') = emit (take position text) p in
      (
        events,
        record p' {
          in_tools = true;
          leading = [];
          xml = start_of_call ++ drop (position + length start_of_call) text;
          pending = [];
        },
      )

  unfoldable pub content_at : Option ℕ → List ℕ → StreamParser Schema → Events × StreamParser Schema
  unfolding keep_held enter_tools held
  content_at none text p = keep_held (held start_of_call text) text p
  content_at (some position) text p = enter_tools text position p

  -- the loop on the content channel, for the text pending; the flag says that no function is declared
  unfoldable pub content_round : Bool → List ℕ → StreamParser Schema → Events × StreamParser Schema
  unfolding content_at find_text keep_held
  content_round true text p = keep_held 0 text p
  content_round false text p = content_at (find_text start_of_call text) text p

  unfoldable pub drain_content : List ℕ → StreamParser Schema → Events × StreamParser Schema
  unfolding content_round
  drain_content text p = content_round (is_empty p.functions) text p

  unfoldable pub reasoning_at :
      Option ℕ → List ℕ → StreamParser Schema → Events × StreamParser Schema
  unfolding keep_held held emit drain_content
  reasoning_at none text p = keep_held (held end_of_thinking text) text p
  reasoning_at (some position) text p =
      let (events, p') = emit (take position text) p in
      let (more, p'') =
        drain_content (drop (position + length end_of_thinking) text)
          (record p' { channel = content_channel }) in
      (events ++ more, p'')

  -- The loop: it goes round again only behind the end of thinking, on the content channel. With
  -- nothing pending both channels leave everything as it is, as the loop's test does.
  unfoldable pub drain : Channel → List ℕ → StreamParser Schema → Events × StreamParser Schema
  unfolding drain_content reasoning_at find_text
  drain reasoning_channel text p = reasoning_at (find_text end_of_thinking text) text p
  drain content_channel text p = drain_content text p

  unfoldable pub feed_in : Bool → List ℕ → StreamParser Schema → Events × StreamParser Schema
  unfolding drain
  feed_in true text p = ([], record p { xml = p.xml ++ text })
  feed_in false text p = drain p.channel (p.pending ++ text) p

  -- `feed`
  unfoldable pub feed : List ℕ → StreamParser Schema → Events × StreamParser Schema
  unfolding feed_in
  feed text p = feed_in p.in_tools text p

  -- the answer as it streams: every chunk is fed
  unfoldable pub feed_all : List (List ℕ) → StreamParser Schema → Events × StreamParser Schema
  unfolding feed
  feed_all [] p = ([], p)
  feed_all (text ∷ chunks) p =
      let (events, p') = feed text p in
      let (more, p'') = feed_all chunks p' in (events ++ more, p'')
