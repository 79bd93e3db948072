-- ===== src/Chat/Prepare/Whole.antt =====
-- `prepare_chat` of engine/forward/chat.py from its parts, in the order in which they may raise.
use qwarz.Base.{ℕ, ◌-◌, Option, List, [], ◌∷◌, length, min, leb, if◌then◌else◌}
use qwarz.Base.Outcome.{Result, ok, raise, value_error, ◌>>=◌, ◌>>◌}
use qwarz.Base.Texts.{codes}
use qwarz.Parsing.Json.{Json, Jsons, Members, get_member}
use qwarz.Parsing.Schema.{require}
use qwarz.Parsing.Messages.{Message, validate_messages}
use qwarz.Engine.{Thinking, reasoning_token_cap, either, or_null}
use qwarz.Chat.Cuts.{prefix_cuts}
use qwarz.Chat.Request.{
  ImageTokens, Rendered, Library, Settings, Prepared, vocab_of, is_choice, is_effort,
}
use qwarz.Chat.Prepare.{settings_of, resolve_images, segments_of}

module _ {Real Raw Picture : Type 0} (library : Library Real Raw Picture) where
  -- the header of the snapshot: what a later request has to share
  abbrev pub header_value : Json Real → Json Real → Json Real
  header_value tools choice = Json.object (
      Members.member (codes "tools") tools (
        Members.member (codes "thinking") (Json.text (codes "xhigh"))
          (Members.member (codes "tool_choice") choice Members.end)))

  abbrev pub visible_tools : Json Real → Json Real → Json Real
  visible_tools tools choice =
      if is_choice (codes "none") choice then Json.array Jsons.nil else tools

  -- the prepared turn, with the budget cut to the room behind the prompt
  abbrev pub prepared_with :
      ℕ
      → Json Real
      → Json Real
      → List Message
      → Settings Real
      → List Picture
      → Rendered Real
      → ℕ
      → List ℕ
      → Prepared Real Picture
  prepared_with context tools choice messages settings images rendered stop header =
      let max_new = min settings.maximum (context - length rendered.tokens) in
      record {
        tokens = rendered.tokens;
        assistant_start = rendered.assistant_start;
        messages = messages;
        segments = rendered.segments;
        header = header;
        max_new = max_new;
        stop = stop;
        thinking = Thinking.xhigh;
        tools = visible_tools tools choice;
        tool_choice = choice;
        reasoning_cap = reasoning_token_cap Thinking.xhigh max_new settings.override;
        close_ids = library.encode (codes "</think>\n\n");
        temperature = settings.temperature;
        top_p = settings.top_p;
        vocab = vocab_of library.actual_vocab_size;
        cuts = prefix_cuts rendered.tokens 256;
        seed = settings.seed;
        images = images;
      }

  -- the end token is a single id, and the prompt leaves room
  unfoldable pub fit :
      ℕ
      → Json Real
      → Json Real
      → List Message
      → Settings Real
      → List Picture
      → Rendered Real
      → List ℕ
      → Result (Prepared Real Picture)
  unfolding reasoning_token_cap vocab_of prefix_cuts
  fit context tools choice messages settings images rendered (stop ∷ []) =
      if leb context (length rendered.tokens)
      then raise (
          value_error "prompt exceeds the resident context" (length rendered.tokens ∷ context ∷ []))
      else (library.json.canonical (header_value tools choice) >>= λ header.
          ok (prepared_with context tools choice messages settings images rendered stop header))
  fit context tools choice messages settings images rendered other =
      raise (value_error "native end token must be a single id" [])

  unfoldable pub with_rendered :
      ℕ
      → Json Real
      → Json Real
      → List Message
      → Settings Real
      → List Picture
      → Rendered Real
      → Result (Prepared Real Picture)
  unfolding fit
  with_rendered context tools choice messages settings images rendered =
      fit context tools choice messages settings images rendered
        (library.encode (codes "<|im_end|>"))

  unfoldable pub with_images :
      ℕ
      → Option (Json Real)
      → Json Real
      → Json Real
      → List Message
      → Settings Real
      → ImageTokens × List Picture
      → Result (Prepared Real Picture)
  unfolding with_rendered segments_of
  with_images context parent tools choice messages settings images =
      library.render messages (visible_tools tools choice) Thinking.xhigh choice
        (segments_of library parent) images.0
      >>= with_rendered context tools choice messages settings images.1

  unfoldable pub with_settings :
      ℕ
      → Members Real
      → Option (Json Real)
      → Json Real
      → Json Real
      → List Message
      → Settings Real
      → Result (Prepared Real Picture)
  unfolding with_images resolve_images get_member
  with_settings context request parent tools choice messages settings =
      resolve_images library messages (get_member (codes "images") request)
      >>= with_images context parent tools choice messages settings

  unfoldable pub with_messages :
      ℕ
      → Members Real
      → Option (Json Real)
      → Json Real
      → Json Real
      → List Message
      → Result (Prepared Real Picture)
  unfolding with_settings settings_of
  with_messages context request parent tools choice messages =
      settings_of library request >>= with_settings context request parent tools choice messages

  unfoldable pub with_choice :
      ℕ → Members Real → Option (Json Real) → Json Real → Json Real → Result (Prepared Real Picture)
  unfolding with_messages validate_messages get_member
  with_choice context request parent tools choice =
      validate_messages library.json library.compiles
        (or_null (get_member (codes "messages") request)) tools
      >>= with_messages context request parent tools choice

  -- The client's effort is checked, and not used.
  unfoldable pub prepare_chat : ℕ → Json Real → Option (Json Real) → Result (Prepared Real Picture)
  unfolding with_choice either get_member
  prepare_chat context (Json.object request) parent =
      let tools =
        either library.json.is_zero (get_member (codes "tools") request) (Json.array Jsons.nil) in
      let requested =
        either library.json.is_zero (get_member (codes "thinking") request)
          (Json.text (codes "xhigh")) in
      let choice =
        either library.json.is_zero (get_member (codes "tool_choice") request)
          (Json.text (codes "auto")) in
      require (is_effort requested) (value_error "thinking must be off, low, medium, or xhigh" [])
      >> with_choice context request parent tools choice
  prepare_chat context other parent = raise (value_error "request must be an object" [])
