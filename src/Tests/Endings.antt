-- ===== src/Tests/Endings.antt =====
-- The end of a turn: a tool call that is read, and the deltas of the turn.
use qwarz.Base.{◌⊎◌, ℕ, ◌≡◌, refl, Bool, true, false, none, some, List, [], ◌∷◌}
use qwarz.Base.Outcome.{Error, ok, raise}
use qwarz.Base.Texts.{codes}
use qwarz.Parsing.Json.{Json, Members}
use qwarz.Parsing.Feed.{Channel, StreamParser}
use qwarz.Parsing.Feed.Shown.{shown}
use qwarz.Parsing.Coerce.{Reader}
use qwarz.Parsing.Coerce.Values.{coerce_value}
use qwarz.Parsing.Finish.{Finisher, Answer, ToolChoice, needs_call, has_calls, finish}
use qwarz.Parsing.Finish.Allowed.{AllAllowed, finish-AllAllowed}
use qwarz.Parsing.Finish.Errors.{Comes}
use qwarz.Session.Turns.{Status}
use qwarz.Chat.Hook.{Limits, TurnState, new_turn, accept_all}
use qwarz.Chat.Finish.{Ended, TurnStatus, end_turn, publish_tails, flushed}
use qwarz.Chat.Finish.Message.{IsOther}
use qwarz.Chat.Finish.Published.{end_turn-published}
use qwarz.Engine.{Reason}
use qwarz.Tests.Requests.{Fields, string, field, one}

abbrev reader : Reader (Unit {0})
reader = record {
  parse_json = λ text. ok (Json.text text);
  casefold = λ text. text;
  search = λ pattern name. false;
}

abbrev finisher : Finisher (Unit {0})
finisher = record {
  reader = reader;
  canonical = λ value. ok (codes "{}");
  validate_value = λ arguments schema. ok tt;
  call_id = λ index. index ∷ [];
}

abbrev path_schema : Fields
path_schema = field "properties" (one "path" (one "type" (string "string"))) Members.end

-- a parser that has collected a call of `read`
abbrev collected : StreamParser Fields
collected = record {
  channel = Channel.content_channel;
  functions = (codes "read", path_schema) ∷ [];
  pending = [];
  xml =
      codes
        "<tool_call>\n<function=read>\n<parameter=path>\na.txt\n</parameter>\n</function>\n</tool_call>";
  reasoning = codes "r";
  content = codes "c";
  leading = [];
  in_tools = true;
}

abbrev answer : Answer
answer = record {
  content = codes "c";
  reasoning_content = codes "r";
  tool_calls = record { id = 0 ∷ []; name = codes "read"; arguments = codes "{}" } ∷ [];
}

finish-AllAllowed_example :
    AllAllowed ToolChoice.required collected.functions answer.tool_calls
    × (◌≡◌ {A = Bool} true true
        → needs_call ToolChoice.required ≡ true
        → has_calls answer.tool_calls ≡ true)
    × (◌≡◌ {A = Bool} true false → answer.tool_calls ≡ [])
finish-AllAllowed_example =
    finish-AllAllowed finisher true ToolChoice.required collected answer (unfold finish in refl)

-- a title for a text, and a word for a Boolean
coerced_title :
    coerce_value reader (one "title" (string "T")) (one "type" (string "string")) ≡ string "T"
unfolding coerce_value
coerced_title = refl

coerced_member :
    coerce_value reader (one "b" (string "yes")) (
      Json.object (
        field "type"
          (string "object")
          (field "properties" (one "b" (one "type" (string "boolean"))) Members.end)))
    ≡ one "b" (Json.boolean true)
unfolding coerce_value
coerced_member = refl

abbrev plain_parser : StreamParser Fields
plain_parser = record {
  channel = Channel.reasoning_channel;
  functions = [];
  pending = [];
  xml = [];
  reasoning = [];
  content = [];
  leading = [];
  in_tools = false;
}

abbrev limits : Limits
limits = record { stop = 99; cap = 2; close_ids = 7 ∷ 8 ∷ []; maximum = 50 }

abbrev windows : List (List ℕ)
windows = (65 ∷ []) ∷ (66 ∷ 67 ∷ []) ∷ (68 ∷ 60 ∷ []) ∷ []

abbrev final : TurnState Fields
final = (accept_all (λ ids. ids) limits none windows [] (new_turn plain_parser)).2

-- what is held back, a new line and a `<`, is published at the end
ended :
    (end_turn
      (λ ids. ids)
      finisher
      ToolChoice.automatic
      99
      Status.completed
      (65 ∷ 66 ∷ 67 ∷ 68 ∷ 60 ∷ [])
      final)
    ≡ ok (
      record {
        status = TurnStatus.incomplete;
        incomplete_reason = some Reason.max_new_tokens;
        message = record {
          content = 10 ∷ 10 ∷ 68 ∷ 60 ∷ [];
          reasoning_content = 65 ∷ 66 ∷ 67 ∷ [];
          tool_calls = [];
        };
      },
      publish_tails
          (record {
            content = 10 ∷ 10 ∷ 68 ∷ 60 ∷ [];
            reasoning_content = 65 ∷ 66 ∷ 67 ∷ [];
            tool_calls = [];
          })
          (flushed (λ ids. ids) final),
    )
unfolding end_turn accept_all
ended = refl

end_turn-published_example :
    let r =
      end_turn
        (λ ids. ids)
        finisher
        ToolChoice.automatic
        99
        Status.completed
        (65 ∷ 66 ∷ 67 ∷ 68 ∷ 60 ∷ [])
        (accept_all (λ ids. ids) limits none windows [] (new_turn plain_parser)).2 in
    ((u : Ended × TurnState Fields) × (r ≡ ok u)
      × (shown Channel.content_channel u.1.published ≡ u.0.message.content)
      × (shown Channel.reasoning_channel u.1.published ≡ u.0.message.reasoning_content))
    ⊎ ((err : Error) × (r ≡ raise err) × IsOther err × Comes finisher err)
end_turn-published_example =
    end_turn-published (λ ids. ids) finisher ToolChoice.automatic limits none plain_parser windows
      Status.completed (65 ∷ 66 ∷ 67 ∷ 68 ∷ 60 ∷ []) refl refl
