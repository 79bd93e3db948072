-- ===== src/Chat/Prepare/Fits.antt =====
-- What `prepare_chat` of engine/forward/chat.py returns.
use qwarz.Base.{
  ℕ, ◌+◌, ◌-◌, ◌/◌, ◌≤◌, ◌≡◌, ap, subst, true, false, ◌||◌, Option, List, [], ◌∷◌, length, min, ltb,
  leb, arith,
}
use qwarz.Base.Int.{ℤ}
use qwarz.Base.Outcome.{Result, ok, raise, value_error}
use qwarz.Base.Texts.{codes}
use qwarz.Parsing.Json.{Json, Jsons, Members, get_member}
use qwarz.Parsing.Schema.{require}
use qwarz.Parsing.Messages.{Message, any_user, validate_messages}
use qwarz.Parsing.Messages.Protocol.{Protocol, validate_messages-Protocol}
use qwarz.Parsing.Tools.Declared.{bound, ok-injective, passed}
use qwarz.Engine.{Thinking, content_reserve, either, or_null}
use qwarz.Engine.Budget.{cap_reserve}
use qwarz.Chat.Request.{
  Rendered, Library, Settings, Prepared, Number, checked_maximum, asked_maximum, is_effort,
  checked_seed, checked_override,
}
use qwarz.Chat.Prepare.{
  settings_of, settings_from, other_settings, sampling, resolve_images, segments_of,
}
use qwarz.Chat.Prepare.Whole.{
  header_value, visible_tools, prepared_with, fit, with_rendered, with_images, with_settings,
  with_messages, with_choice, prepare_chat,
}

-- A prepared turn fits: prompt and budget into the context, the budget into its bounds, reasoning and
-- its reserve into the budget, and the messages keep to the protocol of tool calls.
pub record Fits {Real Picture : Type 0} (context : ℕ) (p : Prepared Real Picture) : Type 0 where
  pub context_holds : length p.tokens + p.max_new ≤ context
  pub budget_left : 1 ≤ p.max_new
  pub budget_bounded : p.max_new ≤ 32_768
  pub reserve_left : p.reasoning_cap + min content_reserve (p.max_new / 2) ≤ p.max_new
  pub protocol : Protocol [] [] p.messages
  pub from_user : any_user p.messages ≡ true

checked_maximum-bounds :
    {Real : Type 0} (value : Json Real) (n : ℕ)
    → checked_maximum value ≡ ok n
    → (1 ≤ n) × (n ≤ 32_768)
unfolding checked_maximum
checked_maximum-bounds (Json.integer (ℤ.pos m)) n h =
    let (good, found) = passed (ltb m 1 || ltb 32_768 m) _ (ok m) n h in
    let e = ok-injective m n found in ground (arith, e, good)
checked_maximum-bounds other n h = absurd (cc)

module _ {Real Raw Picture : Type 0} (library : Library Real Raw Picture) where
  settings_from-maximum :
      (maximum : ℕ) (t p : Result (Option (Number Real))) (seed : Result ℕ)
      (override : Result (Option ℕ)) (settings : Settings Real)
      → settings_from library maximum t p seed override ≡ ok settings
      → maximum ≡ settings.maximum
  unfolding settings_from
  settings_from-maximum maximum (ok t) (ok p) (ok seed) (ok override) settings h =
      ap (λ (s : Settings Real). s.maximum) (ok-injective _ settings h)
  settings_from-maximum maximum (raise e) p seed override settings h = absurd (cc)
  settings_from-maximum maximum (ok t) (raise e) seed override settings h = absurd (cc)
  settings_from-maximum maximum (ok t) (ok p) (raise e) override settings h = absurd (cc)
  settings_from-maximum maximum (ok t) (ok p) (ok seed) (raise e) settings h = absurd (cc)

  settings_of-maximum :
      (request : Members Real) (settings : Settings Real)
      → settings_of library request ≡ ok settings
      → (1 ≤ settings.maximum) × (settings.maximum ≤ 32_768)
  unfolding settings_of other_settings
  settings_of-maximum request settings h =
      let (n, checked, rest) =
        bound (checked_maximum (asked_maximum request)) (other_settings library request) settings
          h in
      let same =
        settings_from-maximum n
          (sampling library false 2 (get_member (codes "temperature") request))
          (sampling library true 1 (get_member (codes "top_p") request))
          (checked_seed (get_member (codes "seed") request))
          (checked_override (get_member (codes "reasoning_budget_tokens") request)) settings rest in
      subst (λ m. (1 ≤ m) × (m ≤ 32_768)) same
        (checked_maximum-bounds (asked_maximum request) n checked)

  fit-Fits :
      (context : ℕ) (tools choice : Json Real) (messages : List Message) (settings : Settings Real)
      (images : List Picture) (rendered : Rendered Real) (ends : List ℕ) (p : Prepared Real Picture)
      → 1 ≤ settings.maximum
      → settings.maximum ≤ 32_768
      → Protocol [] [] messages
      → any_user messages ≡ true
      → fit library context tools choice messages settings images rendered ends ≡ ok p
      → Fits context p
  unfolding fit
  fit-Fits context tools choice messages settings images rendered (stop ∷ []) p low high protocol
        from_user h =
      let (room, written) = passed (leb context (length rendered.tokens)) _ _ p h in
      let (header, _, made) =
        bound (library.json.canonical (header_value library tools choice))
          (λ header. ok (
            prepared_with library context tools choice messages settings images rendered stop
              header))
          p written in
      subst (Fits context) (ok-injective _ p made) (record {
        context_holds = ground arith;
        budget_left = ground arith;
        budget_bounded = ground arith;
        reserve_left =
            cap_reserve Thinking.xhigh (min settings.maximum (context - length rendered.tokens))
              settings.override;
        protocol = protocol;
        from_user = from_user;
      })
  fit-Fits context tools choice messages settings images rendered [] p low high protocol from_user
        h =
      absurd (cc)
  fit-Fits context tools choice messages settings images rendered (a ∷ b ∷ ends) p low high protocol
        from_user h =
      absurd (cc)

  with_settings-Fits :
      (context : ℕ) (request : Members Real) (parent : Option (Json Real))
      (tools choice : Json Real) (messages : List Message) (settings : Settings Real)
      (p : Prepared Real Picture)
      → 1 ≤ settings.maximum
      → settings.maximum ≤ 32_768
      → Protocol [] [] messages
      → any_user messages ≡ true
      → with_settings library context request parent tools choice messages settings ≡ ok p
      → Fits context p
  unfolding with_settings with_images with_rendered
  with_settings-Fits context request parent tools choice messages settings p low high protocol
        from_user h =
      let (images, _, embedded) =
        bound (resolve_images library messages (get_member (codes "images") request))
          (with_images library context parent tools choice messages settings) p h in
      let (rendered, _, shown) =
        bound
          (library.render messages (visible_tools library tools choice) Thinking.xhigh choice
            (segments_of library parent) images.0)
          (with_rendered library context tools choice messages settings images.1) p embedded in
      fit-Fits context tools choice messages settings images.1 rendered
        (library.encode (codes "<|im_end|>")) p low high protocol from_user shown

  with_choice-Fits :
      (context : ℕ) (request : Members Real) (parent : Option (Json Real))
      (tools choice : Json Real) (p : Prepared Real Picture)
      → with_choice library context request parent tools choice ≡ ok p
      → Fits context p
  unfolding with_choice with_messages
  with_choice-Fits context request parent tools choice p h =
      let given = or_null (get_member (codes "messages") request) in
      let (messages, accepted, rest) =
        bound (validate_messages library.json library.compiles given tools)
          (with_messages library context request parent tools choice) p h in
      let (settings, read, made) =
        bound (settings_of library request)
          (with_settings library context request parent tools choice messages) p rest in
      let bounds = settings_of-maximum request settings read in
      let kept =
        validate_messages-Protocol library.json library.compiles given tools messages accepted in
      with_settings-Fits context request parent tools choice messages settings p bounds.0 bounds.1
        kept.0 kept.1 made

  -- Whatever the template, the tokenizer and the embedder give, a turn that is prepared fits: the
  -- prompt and the budget into the context, the budget into 1 to 32768, the reasoning cap and the
  -- reserve for the content into the budget, and its messages keep to the protocol of tool calls and
  -- have a user's message.
  pub prepare_chat-Fits :
      (context : ℕ) (request : Json Real) (parent : Option (Json Real)) (p : Prepared Real Picture)
      → prepare_chat library context request parent ≡ ok p
      → Fits context p
  unfolding prepare_chat
  prepare_chat-Fits context (Json.object request) parent p h =
      let zero = library.json.is_zero in
      let tools = either zero (get_member (codes "tools") request) (Json.array Jsons.nil) in
      let requested =
        either zero (get_member (codes "thinking") request) (Json.text (codes "xhigh")) in
      let choice =
        either zero (get_member (codes "tool_choice") request) (Json.text (codes "auto")) in
      let (_, _, made) =
        bound
          (require (is_effort requested)
            (value_error "thinking must be off, low, medium, or xhigh" []))
          (λ _. with_choice library context request parent tools choice) p h in
      with_choice-Fits context request parent tools choice p made
  prepare_chat-Fits context other parent p h = absurd (cc)
