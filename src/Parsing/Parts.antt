-- ===== src/Parsing/Parts.antt =====
-- `normalize_parts` of src/qwasar_runtime/parsing.py: the content of a message.
pub mod Mixed
use qwarz.Base.{
  ℕ, Bool, ◌&&◌, ◌||◌, true, false, Option, some, List, [], ◌∷◌, ◌++◌, length, leb, ◌==◌,
  if◌then◌else◌,
}
use qwarz.Base.Outcome.{Result, ok, raise, value_error, ◌>>=◌}
use qwarz.Base.Texts.{codes}
use qwarz.Cycle.Suffix.{same}
use qwarz.Parsing.Json.{Json, Members, get_member, contains, all_of}

pub data Role : Type 0 where
  system_role user_role assistant_role tool_role : Role

pub data Part : Type 0 where
  text_part : List ℕ → Part
  image_part : (sha256 media_type : List ℕ) → Part

-- a string, or a list of parts with an image in it
pub data Content : Type 0 where
  plain : List ℕ → Content
  mixed : List Part → Content

abbrev pub is_user : Role → Bool
is_user Role.user_role = true
is_user _ = false

abbrev pub image_media_types : List (List ℕ)
image_media_types =
    codes "image/png" ∷ codes "image/jpeg" ∷ codes "image/webp" ∷ codes "image/gif" ∷ []

-- `SHA256_HEX.fullmatch`
unfoldable pub is_sha256 : List ℕ → Bool
unfolding all_of
is_sha256 t = length t == 64 && all_of (λ c. (leb 48 c && leb c 57) || (leb 97 c && leb c 102)) t

-- a text is put behind the last one, if that is the last part
unfoldable pub add_text : List ℕ → List Part → List Part
add_text t [] = text_part t ∷ []
add_text t (text_part u ∷ []) = text_part (u ++ t) ∷ []
add_text t (image_part sha256 media_type ∷ []) = image_part sha256 media_type ∷ text_part t ∷ []
add_text t (part ∷ next ∷ parts) = part ∷ add_text t (next ∷ parts)

unfoldable pub any_image : List Part → Bool
any_image [] = false
any_image (text_part t ∷ parts) = any_image parts
any_image (image_part sha256 media_type ∷ parts) = true

-- `"".join(part["text"] for part in output)`
unfoldable pub join_texts : List Part → List ℕ
join_texts [] = []
join_texts (text_part t ∷ parts) = t ++ join_texts parts
join_texts (image_part sha256 media_type ∷ parts) = join_texts parts

abbrev pub content_of_parts : List Part → Content
content_of_parts output = if any_image output then mixed output else plain (join_texts output)

module _ {Real : Type 0} where
  unfoldable pub image_of : Option (Json Real) → Option (Json Real) → Result (List ℕ × List ℕ)
  unfolding is_sha256 contains
  image_of (some (Json.text sha256)) (some (Json.text media_type)) =
      if is_sha256 sha256
      then (if contains media_type image_media_types
          then ok (sha256, media_type)
          else raise (value_error "unsupported image media type" []))
      else raise (value_error "image part requires a lowercase sha256 hex" [])
  image_of (some (Json.text sha256)) media_type =
      if is_sha256 sha256
      then raise (value_error "unsupported image media type" [])
      else raise (value_error "image part requires a lowercase sha256 hex" [])
  image_of sha256 media_type = raise (value_error "image part requires a lowercase sha256 hex" [])

  unfoldable pub add_text_part : Option (Json Real) → List Part → Result (List Part)
  unfolding add_text
  add_text_part (some (Json.text t)) output = ok (add_text t output)
  add_text_part other output = raise (value_error "text part requires text" [])

  -- one part whose `type` is a text
  unfoldable pub add_kind : Role → List ℕ → Members Real → List Part → Result (List Part)
  unfolding get_member add_text_part image_of
  add_kind role kind part output =
      if same kind (codes "text")
      then add_text_part (get_member (codes "text") part) output
      else (if same kind (codes "image")
          then (if is_user role
              then (image_of (get_member (codes "sha256") part)
                    (get_member (codes "media_type") part)
                  >>= λ image. ok (output ++ image_part image.0 image.1 ∷ []))
              else raise (value_error "images are only supported in user messages" []))
          else raise (value_error "only text and image message parts are supported" []))

  unfoldable pub add_typed :
      Role → Option (Json Real) → Members Real → List Part → Result (List Part)
  unfolding add_kind
  add_typed role (some (Json.text kind)) part output = add_kind role kind part output
  add_typed role other part output =
      raise (value_error "only text and image message parts are supported" [])

  unfoldable pub add_part : Role → Json Real → List Part → Result (List Part)
  unfolding get_member add_typed
  add_part role (Json.object part) output =
      add_typed role (get_member (codes "type") part) part output
  add_part role other output = raise (value_error "message parts must be objects" [])

  unfoldable pub add_parts : Role → List (Json Real) → List Part → Result (List Part)
  unfolding add_part
  add_parts role [] output = ok output
  add_parts role (part ∷ parts) output =
      add_part role part output >>= λ output'. add_parts role parts output'

  unfoldable pub normalize_parts : Role → List (Json Real) → Result Content
  unfolding add_parts any_image join_texts
  normalize_parts role parts = add_parts role parts [] >>= λ output. ok (content_of_parts output)
