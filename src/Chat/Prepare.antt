-- ===== src/Chat/Prepare.antt =====
-- `prepare_chat` of engine/forward/chat.py: a request checked and rendered.
pub mod Whole
pub mod Fits
pub mod Hashes
use qwarz.Base.{
  ℕ, suc, ◌-◌, Bool, true, false, ◌&&◌, ◌||◌, not, Option, none, some, List, [], ◌∷◌, ◌++◌, length,
  min, ltb, leb, ◌==◌, if◌then◌else◌,
}
use qwarz.Base.Int.{ℤ}
use qwarz.Base.Outcome.{Result, ok, raise, value_error, ◌>>=◌, ◌>>◌}
use qwarz.Base.Texts.{codes}
use qwarz.Parsing.Json.{Json, Jsons, Members, items, get_member, contains, all_of}
use qwarz.Parsing.Schema.{require}
use qwarz.Parsing.Messages.{Message, JsonText, validate_messages}
use qwarz.Engine.{Thinking, reasoning_token_cap, truthy, either, or_null}
use qwarz.Chat.Cuts.{prefix_cuts}
use qwarz.Chat.Request.{
  Number, whole, floating, Floats, Image, ImageTokens, Rendered, Library, Settings, Prepared,
  max_images, image_parts, unique_hashes, hashes, supplied_images, vocab_of, is_choice, is_effort,
  asked_maximum, checked_maximum, checked_seed, checked_override,
}

module _ {Real Raw Picture : Type 0} (library : Library Real Raw Picture) where
  -- `value < low or value > high or (exclusive_low and value == low)`, with `low` 0
  unfoldable pub out_of_range : Bool → ℕ → Number Real → Bool
  out_of_range exclusive high (whole (ℤ.negsuc n)) = true
  out_of_range exclusive high (whole (ℤ.pos n)) = ltb high n || (exclusive && n == 0)
  out_of_range exclusive high (floating r) =
      library.floats.below r 0
      || library.floats.above r high
      || (exclusive && library.floats.equals r 0)

  abbrev pub ranged : Bool → ℕ → Number Real → Result (Option (Number Real))
  ranged exclusive high value =
      if out_of_range exclusive high value
      then raise (value_error "invalid sampling range" [])
      else ok (some value)

  -- `_sampling`
  unfoldable pub sampling : Bool → ℕ → Option (Json Real) → Result (Option (Number Real))
  unfolding out_of_range
  sampling exclusive high none = ok none
  sampling exclusive high (some (Json.integer n)) = ranged exclusive high (whole n)
  sampling exclusive high (some (Json.real r)) = ranged exclusive high (floating r)
  sampling exclusive high (some other) = raise (value_error "value must be numeric" [])

  -- the settings behind the budget, the first error first
  unfoldable pub settings_from :
      ℕ
      → Result (Option (Number Real))
      → Result (Option (Number Real))
      → Result ℕ
      → Result (Option ℕ)
      → Result (Settings Real)
  settings_from maximum checked_temperature checked_top_p seed_read override_read = do
    temperature ← checked_temperature
    top_p ← checked_top_p
    seed ← seed_read
    override ← override_read
    ok (record {
      maximum = maximum;
      temperature = temperature;
      top_p = top_p;
      seed = seed;
      override = override;
    })

  unfoldable pub other_settings : Members Real → ℕ → Result (Settings Real)
  unfolding settings_from sampling checked_seed checked_override get_member
  other_settings request maximum =
      settings_from maximum (sampling false 2 (get_member (codes "temperature") request))
        (sampling true 1 (get_member (codes "top_p") request))
        (checked_seed (get_member (codes "seed") request))
        (checked_override (get_member (codes "reasoning_budget_tokens") request))

  unfoldable pub settings_of : Members Real → Result (Settings Real)
  unfolding asked_maximum checked_maximum other_settings
  settings_of request = checked_maximum (asked_maximum request) >>= other_settings request

  abbrev pub add_record : Option Picture → List Picture → List Picture
  add_record none records = records
  add_record (some picture) records = records ++ picture ∷ []

  unfoldable pub embed_with :
      Option (List ℕ → List ℕ → Raw → Result (List ℕ × Option Picture))
      → Image
      → Raw
      → Result (List ℕ × Option Picture)
  embed_with none part raw = raise (value_error "image has no embedding" [])
  embed_with (some embedder) part raw = embedder part.sha256 part.media_type raw

  -- one image, from its entry
  unfoldable pub embed_image : Image → Option (Json Real) → Result (List ℕ × Option Picture)
  unfolding embed_with get_member
  embed_image part (some (Json.object entry)) = do
    raw ← library.decode_image_data part.sha256 part.media_type (get_member (codes "data") entry)
    embed_with library.embedder part raw
  embed_image part other = raise (value_error "image has no inline data" [])

  -- the loop over the parts, which skips a hash that has its ids
  unfoldable pub embed_parts :
      Members Real → List Image → ImageTokens → List Picture → Result (ImageTokens × List Picture)
  unfolding embed_image contains get_member
  embed_parts supplied [] tokens records = ok (tokens, records)
  embed_parts supplied (part ∷ parts) tokens records =
      let seen = embed_parts supplied parts tokens records in
      let fresh = (do
        row ← embed_image part (get_member part.sha256 supplied)
        embed_parts supplied parts (tokens ++ (part.sha256, row.0) ∷ [])
            (add_record row.1 records)) in
      if contains part.sha256 (hashes tokens) then seen else fresh

  unfoldable pub resolve_parts :
      List Image → Option (Json Real) → Result (ImageTokens × List Picture)
  unfolding unique_hashes embed_parts
  resolve_parts [] supplied = ok ([], [])
  resolve_parts (part ∷ parts) supplied =
      if ltb max_images (length (unique_hashes [] (part ∷ parts)))
      then raise (value_error "too many images per request" (max_images ∷ []))
      else embed_parts (supplied_images supplied) (part ∷ parts) [] []

  -- `_resolve_images`
  unfoldable pub resolve_images :
      List Message → Option (Json Real) → Result (ImageTokens × List Picture)
  unfolding image_parts resolve_parts
  resolve_images messages supplied = resolve_parts (image_parts messages) supplied

  abbrev pub is_one : Option (Json Real) → Bool
  is_one (some (Json.integer (ℤ.pos n))) = n == 1
  is_one (some (Json.boolean b)) = b
  is_one (some (Json.real r)) = library.floats.equals r 1
  is_one _ = false

  abbrev pub is_token : Json Real → Bool
  is_token (Json.integer (ℤ.pos n)) = true
  is_token _ = false

  abbrev pub is_token_list : Option (Json Real) → Bool
  is_token_list (some (Json.array (Jsons.cons token tokens))) =
      is_token token && all_of is_token (items tokens)
  is_token_list _ = false

  abbrev pub is_object : Option (Json Real) → Bool
  is_object (some (Json.object members)) = true
  is_object _ = false

  unfoldable pub is_segment : Json Real → Bool
  unfolding all_of get_member
  is_segment (Json.object segment) =
      is_token_list (get_member (codes "tokens") segment)
      && is_object (get_member (codes "message") segment)
  is_segment _ = false

  abbrev pub all_segments : Option (Json Real) → List (Json Real)
  all_segments (some (Json.array raw)) = if all_of is_segment (items raw) then items raw else []
  all_segments _ = []

  -- `_segments`
  unfoldable pub segments_of : Option (Json Real) → List (Json Real)
  unfolding is_segment all_of get_member
  segments_of (some (Json.object parent)) =
      if is_one (get_member (codes "version") parent)
      then all_segments (get_member (codes "segments") parent)
      else []
  segments_of _ = []
