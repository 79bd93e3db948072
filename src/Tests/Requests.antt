-- ===== src/Tests/Requests.antt =====
-- A request with a tool call in its history, and the chunks of an answer.
use qwarz.Base.{ℕ, ◌≡◌, refl, Bool, true, false, List, [], ◌∷◌, ◌++◌, arith, String}
use qwarz.Base.Outcome.{ok}
use qwarz.Base.Texts.{codes}
use qwarz.Parsing.Json.{Json, Jsons, Members, get_member}
use qwarz.Parsing.Schema.{validate_schema}
use qwarz.Parsing.Schema.Nested.{validate_schema-property}
use qwarz.Parsing.Tools.{validate_tools}
use qwarz.Parsing.Tools.Declared.{AllDeclared, validate_tools-AllDeclared}
use qwarz.Parsing.Parts.{
  Part, Role, text_part, image_part, any_image, is_user, normalize_parts, plain,
}
use qwarz.Parsing.Parts.Mixed.{Alternates, normalize_parts-Alternates}
use qwarz.Parsing.Messages.{Message, JsonText, any_user, validate_messages}
use qwarz.Parsing.Messages.Protocol.{Protocol, validate_messages-Protocol}
use qwarz.Parsing.Feed.{Channel, StreamParser, feed, feed_all}
use qwarz.Parsing.Feed.Chunks.{joined, feed-append, feed_all-joined}
use qwarz.Parsing.Feed.Shown.{Grown, feed_all-Grown}

-- no floats
abbrev pub Value : Type 0
Value = Json (Unit {0})

abbrev pub Fields : Type 0
Fields = Members (Unit {0})

abbrev pub string : String → Value
string s = Json.text (codes s)

abbrev pub field : String → Value → Fields → Fields
field key value rest = Members.member (codes key) value rest

abbrev pub one : String → Value → Value
one key value = Json.object (field key value Members.end)

abbrev path_schema : Value
path_schema = one "type" (string "string")

abbrev read_properties : Fields
read_properties = field "path" path_schema Members.end

abbrev read_schema : Fields
read_schema =
    field "type" (string "object") (field "properties" (Json.object read_properties) Members.end)

-- a tool `read` with one parameter
abbrev tools : Value
tools = Json.array (
    Jsons.cons
      (Json.object (
        field "type" (string "function") (
          field "function"
            (Json.object (
              field "name" (string "read")
                (field "parameters" (Json.object read_schema) Members.end)))
            Members.end)))
      Jsons.nil)

abbrev every_pattern : List ℕ → Bool
every_pattern pattern = true

validate_schema-property_example : validate_schema every_pattern 33 path_schema ≡ ok tt
validate_schema-property_example =
    validate_schema-property every_pattern 33 read_schema read_properties (codes "path") path_schema
      (unfold validate_schema in refl) (unfold get_member in refl) (unfold get_member in refl)

validate_tools-AllDeclared_example : AllDeclared every_pattern [] ((codes "read", read_schema) ∷ [])
validate_tools-AllDeclared_example =
    validate_tools-AllDeclared every_pattern tools ((codes "read", read_schema) ∷ [])
      (unfold validate_tools in refl)

-- a reader that knows the empty dictionary only, and a writer that writes it always
abbrev json : JsonText (Unit {0})
json = record {
  parse_json = λ text. ok (Json.object Members.end);
  canonical = λ value. ok (codes "{}");
  is_zero = λ r. true;
}

abbrev call : Value
call =
    Json.object
      (field "id" (string "c1") (field "function" (one "name" (string "read")) Members.end))

-- a question, a call of `read` and its result
abbrev history : Value
history = Json.array (
    Jsons.cons
      (Json.object (field "role" (string "user") (field "content" (string "hi") Members.end)))
      (Jsons.cons
        (Json.object (
          field "role" (string "assistant")
            (field "tool_calls" (Json.array (Jsons.cons call Jsons.nil)) Members.end)))
        (Jsons.cons
          (Json.object (
            field "role" (string "tool")
              (field "tool_call_id" (string "c1") (field "content" (string "ok") Members.end))))
          Jsons.nil)))

abbrev normalized : List Message
normalized =
    Message.user_message (plain (codes "hi"))
    ∷ Message.assistant_message (plain []) []
        (record { id = codes "c1"; name = codes "read"; arguments = codes "{}" } ∷ [])
    ∷ Message.tool_message (plain (codes "ok")) (codes "c1")
    ∷ []

validate_messages-Protocol_example : Protocol [] [] normalized × (any_user normalized ≡ true)
validate_messages-Protocol_example =
    validate_messages-Protocol json every_pattern history tools normalized
      (unfold validate_messages in refl)

-- a parser behind the end of thinking, with one function declared
abbrev fresh : StreamParser (Unit {0})
fresh = record {
  channel = Channel.reasoning_channel;
  functions = (codes "read", tt) ∷ [];
  pending = [];
  xml = [];
  reasoning = [];
  content = [];
  leading = [];
  in_tools = false;
}

abbrev chunks : List (List ℕ)
chunks = codes "a</thi" ∷ codes "nk> b<tool" ∷ codes "_call><fun" ∷ []

feed-append_example :
    (feed (codes "a</thi" ++ codes "nk> b<tool") fresh).1
    ≡ (feed (codes "nk> b<tool") (feed (codes "a</thi") fresh).1).1
feed-append_example = feed-append (codes "a</thi") (codes "nk> b<tool") fresh

feed_all-joined_example : (feed_all chunks fresh).1 ≡ (feed (joined chunks) fresh).1
feed_all-joined_example = feed_all-joined chunks fresh (omega arith)

feed_all-Grown_example : Grown fresh (feed_all chunks fresh)
feed_all-Grown_example = feed_all-Grown chunks fresh

-- the marker that the second cut splits opens the tool calls
tools_opened : (feed_all chunks fresh).1.xml ≡ codes "<tool_call><fun"
unfolding feed_all
tools_opened = refl

-- two texts and an image
abbrev sha : List ℕ
sha = codes "0123456789abcdef0123456789abcdef0123456789abcdef0123456789abcdef"

abbrev text_of : String → Value
text_of s = Json.object (field "type" (string "text") (field "text" (string s) Members.end))

abbrev picture : Value
picture = Json.object (
    field "type" (string "image")
      (field "sha256" (Json.text sha) (field "media_type" (string "image/png") Members.end)))

abbrev two_parts : List Part
two_parts = text_part (codes "ab") ∷ image_part sha (codes "image/png") ∷ []

normalize_parts-Alternates_example :
    Alternates two_parts × (any_image two_parts ≡ true) × (is_user Role.user_role ≡ true)
normalize_parts-Alternates_example =
    normalize_parts-Alternates Role.user_role (text_of "a" ∷ text_of "b" ∷ picture ∷ []) two_parts
      (unfold normalize_parts in refl)
