-- ===== src/Tests/Chats.antt =====
-- A request that is prepared, and a turn whose reasoning is closed by its budget.
use qwarz.Base.{ℕ, ◌≡◌, refl, true, false, Option, none, some, List, [], ◌∷◌}
use qwarz.Base.Outcome.{ok}
use qwarz.Base.Texts.{codes}
use qwarz.Parsing.Json.{Json, Jsons, Members}
use qwarz.Parsing.Parts.{image_part, plain, mixed}
use qwarz.Parsing.Messages.{Message, JsonText}
use qwarz.Parsing.Feed.{Channel, StreamParser}
use qwarz.Engine.{Thinking}
use qwarz.Cycle.Turn.{Directive}
use qwarz.Chat.Request.{Library, Prepared, ImageTokens}
use qwarz.Chat.Prepare.Whole.{prepare_chat}
use qwarz.Chat.Prepare.Fits.{Fits, prepare_chat-Fits}
use qwarz.Chat.Hook.{Limits, new_turn, accept_all}
use qwarz.Chat.Hook.Visible.{windows_text}
use qwarz.Chat.Hook.Ended.{accept_all-closed}
use qwarz.Tests.Requests.{Value, string, field, one}

abbrev json : JsonText (Unit {0})
json = record {
  parse_json = λ text. ok (Json.object Members.end);
  canonical = λ value. ok (codes "{}");
  is_zero = λ r. true;
}

-- a template of three ids, and a tokenizer of one
abbrev library : Library (Unit {0}) (Unit {0}) (Unit {0})
library = record {
  json = json;
  floats = record { below = λ r n. false; above = λ r n. false; equals = λ r n. false };
  compiles = λ pattern. true;
  decode_image_data = λ sha256 media_type given. ok tt;
  embedder = some (λ sha256 media_type raw. ok (5 ∷ 6 ∷ [], none));
  render = λ messages tools thinking choice segments images.
      ok (record { tokens = 1 ∷ 2 ∷ 3 ∷ []; assistant_start = 1; segments = [] });
  encode = λ text. 9 ∷ [];
  actual_vocab_size = none;
}

abbrev question : Value
question = Json.object (
    field "messages"
      (Json.array (
        Jsons.cons
          (Json.object (field "role" (string "user") (field "content" (string "hi") Members.end)))
          Jsons.nil))
      Members.end)

abbrev prepared : Prepared (Unit {0}) (Unit {0})
prepared = record {
  tokens = 1 ∷ 2 ∷ 3 ∷ [];
  assistant_start = 1;
  messages = Message.user_message (plain (codes "hi")) ∷ [];
  segments = [];
  header = codes "{}";
  max_new = 7;
  stop = 9;
  thinking = Thinking.xhigh;
  tools = Json.array Jsons.nil;
  tool_choice = string "auto";
  reasoning_cap = 4;
  close_ids = 9 ∷ [];
  temperature = none;
  top_p = none;
  vocab = none;
  cuts = [];
  seed = 42;
  images = [];
}

prepare_chat-Fits_example : Fits 10 prepared
prepare_chat-Fits_example =
    prepare_chat-Fits library 10 question none prepared (unfold prepare_chat in refl)

abbrev picture_of : List ℕ → Message
picture_of sha256 = Message.user_message (mixed (image_part sha256 (codes "image/png") ∷ []))

-- three messages with two images
abbrev pictures : List Message
pictures = picture_of (codes "aa") ∷ picture_of (codes "bb") ∷ picture_of (codes "aa") ∷ []

abbrev supplied : Option Value
supplied = some (
    Json.object (
      field "aa" (one "data" (string "AAAA"))
        (field "bb" (one "data" (string "BBBB")) Members.end)))

abbrev embedded : ImageTokens
embedded = (codes "aa", 5 ∷ 6 ∷ []) ∷ (codes "bb", 5 ∷ 6 ∷ []) ∷ []

abbrev fresh : StreamParser (Unit {0})
fresh = record {
  channel = Channel.reasoning_channel;
  functions = [];
  pending = [];
  xml = [];
  reasoning = [];
  content = [];
  leading = [];
  in_tools = false;
}

-- the ids are code points, and two ids of reasoning are allowed
abbrev limits : Limits
limits = record { stop = 99; cap = 2; close_ids = 7 ∷ 8 ∷ []; maximum = 50 }

abbrev windows : List (List ℕ)
windows = (65 ∷ []) ∷ (66 ∷ 67 ∷ []) ∷ (68 ∷ 99 ∷ []) ∷ []

all_but_stop : windows_text 99 windows ≡ 65 ∷ 66 ∷ 67 ∷ 68 ∷ []
unfolding windows_text
all_but_stop = refl

abbrev closing : Directive
closing = record { drop_last = false; inject = 7 ∷ 8 ∷ []; halt = false }

accept_all-closed_example :
    (accept_all (λ ids. ids) limits none windows [] (new_turn fresh)).2.parser.channel
    ≡ Channel.content_channel
accept_all-closed_example =
    accept_all-closed (λ ids. ids) limits none windows [] (new_turn fresh) closing [] (λ h. cc h)
      (unfold accept_all in refl)

-- the ids of the turn, with the injected ones behind the second window
produced_closed :
    (accept_all (λ ids. ids) limits none windows [] (new_turn fresh)).1
    ≡ 65 ∷ 66 ∷ 67 ∷ 7 ∷ 8 ∷ 68 ∷ 99 ∷ []
unfolding accept_all
produced_closed = refl

-- the end of thinking has two line feeds behind it
close_codes : codes "</think>\n\n" ≡ 60 ∷ 47 ∷ 116 ∷ 104 ∷ 105 ∷ 110 ∷ 107 ∷ 62 ∷ 10 ∷ 10 ∷ []
close_codes = refl
