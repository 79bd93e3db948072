-- ===== src/Chat/Request.antt =====
-- What `prepare_chat` of engine/forward/chat.py reads of a request, and what it calls. The template,
-- the tokenizer, the image decoder and the embedder are parameters.
use qwarz.Base.{
  ℕ, suc, Bool, false, ◌||◌, Option, none, some, List, [], ◌∷◌, ◌++◌, ltb, if◌then◌else◌,
}
use qwarz.Base.Int.{ℤ}
use qwarz.Base.Outcome.{Result, ok, raise, value_error}
use qwarz.Base.Texts.{codes}
use qwarz.Cycle.Suffix.{same}
use qwarz.Parsing.Json.{Json, Members, get_member, contains}
use qwarz.Parsing.Parts.{Part, Content, text_part, image_part, plain, mixed}
use qwarz.Parsing.Messages.{
  Message, JsonText, system_message, user_message, assistant_message, tool_message,
}
use qwarz.Engine.{Thinking}

-- an int or a float
pub data Number (Real : Type 0) : Type 0 where
  whole : ℤ → Number Real
  floating : Real → Number Real

-- How a float compares: `r < n`, `r > n`, `r == n`.
pub record Floats (Real : Type 0) : Type 0 where
  pub below : Real → ℕ → Bool
  pub above : Real → ℕ → Bool
  pub equals : Real → ℕ → Bool

pub record Image : Type 0 where
  pub sha256 : List ℕ
  pub media_type : List ℕ

abbrev pub ImageTokens : Type 0
ImageTokens = List (List ℕ × List ℕ)

-- what `render` gives: the ids, the place of the assistant's frame, and the segments that it kept
pub record Rendered (Real : Type 0) : Type 0 where
  pub tokens : List ℕ
  pub assistant_start : ℕ
  pub segments : List (Json Real)

-- What `prepare_chat` calls. The embedder gives the ids of an image, and a record if it has one.
pub record Library (Real Raw Picture : Type 0) : Type 0 where
  pub json : JsonText Real
  pub floats : Floats Real
  pub compiles : List ℕ → Bool
  pub decode_image_data : List ℕ → List ℕ → Option (Json Real) → Result Raw
  pub embedder : Option (List ℕ → List ℕ → Raw → Result (List ℕ × Option Picture))
  pub render :
      List Message
      → Json Real
      → Thinking
      → Json Real
      → List (Json Real)
      → ImageTokens
      → Result (Rendered Real)
  pub encode : List ℕ → List ℕ
  pub actual_vocab_size : Option ℤ

-- the checked settings of a request
pub record Settings (Real : Type 0) : Type 0 where
  pub maximum : ℕ
  pub temperature : Option (Number Real)
  pub top_p : Option (Number Real)
  pub seed : ℕ
  pub override : Option ℕ

-- Where `temperature` is none it was left out; where `top_p` is none it stands for 0.95.
pub record Prepared (Real Picture : Type 0) : Type 0 where
  pub tokens : List ℕ
  pub assistant_start : ℕ
  pub messages : List Message
  pub segments : List (Json Real)
  pub header : List ℕ
  pub max_new : ℕ
  pub stop : ℕ
  pub thinking : Thinking
  pub tools : Json Real
  pub tool_choice : Json Real
  pub reasoning_cap : ℕ
  pub close_ids : List ℕ
  pub temperature : Option (Number Real)
  pub top_p : Option (Number Real)
  pub vocab : Option ℕ
  pub cuts : List ℕ
  pub seed : ℕ
  pub images : List Picture

abbrev pub max_images : ℕ
max_images = 16

-- `image_parts`
unfoldable pub images_of_parts : List Part → List Image
images_of_parts [] = []
images_of_parts (text_part t ∷ parts) = images_of_parts parts
images_of_parts (image_part sha256 media_type ∷ parts) =
    record { sha256 = sha256; media_type = media_type } ∷ images_of_parts parts

unfoldable pub images_of_content : Content → List Image
unfolding images_of_parts
images_of_content (plain t) = []
images_of_content (mixed parts) = images_of_parts parts

abbrev pub content_in : Message → Content
content_in (system_message content) = content
content_in (user_message content) = content
content_in (assistant_message content reasoning calls) = content
content_in (tool_message content id) = content

unfoldable pub image_parts : List Message → List Image
unfolding images_of_content
image_parts [] = []
image_parts (message ∷ messages) = images_of_content (content_in message) ++ image_parts messages

-- the hashes in the order of their first use
unfoldable pub unique_hashes : List (List ℕ) → List Image → List (List ℕ)
unfolding contains
unique_hashes unique [] = unique
unique_hashes unique (part ∷ parts) =
    unique_hashes (if contains part.sha256 unique then unique else unique ++ part.sha256 ∷ []) parts

abbrev pub hashes : ImageTokens → List (List ℕ)
hashes [] = []
hashes ((sha256, ids) ∷ tokens) = sha256 ∷ hashes tokens

-- `supplied if isinstance(supplied, dict) else {}`
abbrev pub supplied_images : {Real : Type 0} → Option (Json Real) → Members Real
supplied_images (some (Json.object supplied)) = supplied
supplied_images _ = Members.end

-- `_vocab`
unfoldable pub vocab_of : Option ℤ → Option ℕ
vocab_of (some (ℤ.pos (suc n))) = some (suc n)
vocab_of _ = none

module _ {Real : Type 0} where
  abbrev pub is_choice : List ℕ → Json Real → Bool
  is_choice word (Json.text t) = same t word
  is_choice word _ = false

  abbrev pub is_effort : Json Real → Bool
  is_effort requested =
      is_choice (codes "off") requested
      || is_choice (codes "low") requested
      || is_choice (codes "medium") requested
      || is_choice (codes "xhigh") requested

  -- `request.get("max_new", request.get("max_tokens", 32768))`
  unfoldable pub asked_maximum : Members Real → Json Real
  unfolding get_member
  asked_maximum request = elim (get_member (codes "max_new") request) [
    | some value ↦ value
    | none ↦ elim (get_member (codes "max_tokens") request) [
      | some value ↦ value
      | none ↦ Json.integer (ℤ.pos 32_768)
    ]
  ]

  unfoldable pub checked_maximum : Json Real → Result ℕ
  checked_maximum (Json.integer (ℤ.pos n)) =
      if ltb n 1 || ltb 32_768 n then raise (value_error "max_tokens must be 1..32768" []) else ok n
  checked_maximum other = raise (value_error "max_tokens must be 1..32768" [])

  unfoldable pub checked_seed : Option (Json Real) → Result ℕ
  checked_seed none = ok 42
  checked_seed (some (Json.integer (ℤ.pos n))) = ok n
  checked_seed (some other) = raise (value_error "seed must be nonnegative integer" [])

  unfoldable pub checked_override : Option (Json Real) → Result (Option ℕ)
  checked_override none = ok none
  checked_override (some Json.null) = ok none
  checked_override (some (Json.integer (ℤ.pos n))) =
      if ltb 32_768 n
      then raise (value_error "reasoning_budget_tokens must be 0..32768" [])
      else ok (some n)
  checked_override (some other) = raise (value_error "reasoning_budget_tokens must be 0..32768" [])
