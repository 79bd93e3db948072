-- ===== src/Parsing/Parts/Mixed.antt =====
-- The parts that `normalize_parts` of src/qwasar_runtime/parsing.py returns.
use qwarz.Base.{
  ℕ, ◌≡◌, refl, subst, ◌∙◌, inl, inr, true, false, Option, none, some, List, [], ◌∷◌, ◌++◌, arith,
  Bool-cases,
}
use qwarz.Base.Outcome.{ok}
use qwarz.Base.Texts.{codes}
use qwarz.Cycle.Suffix.{same}
use qwarz.Parsing.Json.{Json, Members, get_member}
use qwarz.Parsing.Tools.Declared.{bound, ok-injective}
use qwarz.Parsing.Parts.{
  Role, Part, text_part, image_part, mixed, is_user, add_text, any_image, image_of, add_text_part,
  add_kind, add_typed, add_part, add_parts, content_of_parts, normalize_parts,
}

-- no text stands directly behind a text
abbrev pub Alternates : List Part → Type 0
Alternates [] = Unit {0}
Alternates (text_part t ∷ text_part u ∷ parts) = ⊥
Alternates (text_part t ∷ []) = Unit {0}
Alternates (text_part t ∷ image_part sha256 media_type ∷ parts) =
    Alternates (image_part sha256 media_type ∷ parts)
Alternates (image_part sha256 media_type ∷ parts) = Alternates parts

-- texts and images in turn, and images for a user only
pub record Normal (role : Role) (output : List Part) : Type 0 where
  pub alternates : Alternates output
  pub no_image : is_user role ≡ false → any_image output ≡ false

add_text-Alternates :
    (t : List ℕ) (output : List Part) → Alternates output → Alternates (add_text t output)
unfolding add_text
add_text-Alternates t [] h = tt
add_text-Alternates t (text_part u ∷ []) h = tt
add_text-Alternates t (image_part s k ∷ []) h = tt
add_text-Alternates t (text_part u ∷ text_part v ∷ parts) h = absurd h
add_text-Alternates t (text_part u ∷ image_part s k ∷ []) h = tt
add_text-Alternates t (text_part u ∷ image_part s k ∷ next ∷ parts) h =
    add_text-Alternates t (next ∷ parts) h
add_text-Alternates t (image_part s k ∷ next ∷ parts) h = add_text-Alternates t (next ∷ parts) h

any_image-add_text :
    (t : List ℕ) (output : List Part) → any_image (add_text t output) ≡ any_image output
unfolding add_text any_image
any_image-add_text t [] = refl
any_image-add_text t (text_part u ∷ []) = refl
any_image-add_text t (image_part s k ∷ []) = refl
any_image-add_text t (text_part u ∷ next ∷ parts) = any_image-add_text t (next ∷ parts)
any_image-add_text t (image_part s k ∷ next ∷ parts) = refl

add_image-Alternates :
    (s k : List ℕ) (output : List Part)
    → Alternates output
    → Alternates (output ++ image_part s k ∷ [])
add_image-Alternates s k [] h = tt
add_image-Alternates s k (text_part u ∷ []) h = tt
add_image-Alternates s k (text_part u ∷ text_part v ∷ parts) h = absurd h
add_image-Alternates s k (text_part u ∷ image_part x y ∷ parts) h = add_image-Alternates s k parts h
add_image-Alternates s k (image_part x y ∷ parts) h = add_image-Alternates s k parts h

add_text-Normal :
    (role : Role) (t : List ℕ) (output : List Part)
    → Normal role output
    → Normal role (add_text t output)
add_text-Normal role t output n = record {
  alternates = add_text-Alternates t output n.alternates;
  no_image = λ h. any_image-add_text t output ∙ n.no_image h;
}

mixed_of :
    (role : Role) (read output : List Part)
    → Normal role read
    → ok (content_of_parts read) ≡ ok (mixed output)
    → Alternates output × (any_image output ≡ true) × (is_user role ≡ true)
mixed_of role read output n h = elim (Bool-cases (any_image read)) [
  | inr no_image ↦ absurd (ground (arith, no_image, h))
  | inl image ↦
      let same_parts : read ≡ output = ground (arith, image, h) in
      subst (λ l. Alternates l × (any_image l ≡ true) × (is_user role ≡ true)) same_parts
        (
          n.alternates,
          image,
          elim (Bool-cases (is_user role)) [
            | inl user ↦ user
            | inr no_user ↦ absurd (let none_there = n.no_image no_user in cc)
          ],
        )
]

module _ {Real : Type 0} where
  add_text_part-Normal :
      (role : Role) (o : Option (Json Real)) (output output' : List Part)
      → add_text_part o output ≡ ok output'
      → Normal role output
      → Normal role output'
  unfolding add_text_part
  add_text_part-Normal role (some (Json.text t)) output output' h n =
      subst (Normal role) (ok-injective (add_text t output) output' h)
        (add_text-Normal role t output n)
  add_text_part-Normal role none output output' h n = absurd (cc)
  add_text_part-Normal role (some Json.null) output output' h n = absurd (cc)
  add_text_part-Normal role (some (Json.boolean b)) output output' h n = absurd (cc)
  add_text_part-Normal role (some (Json.integer b)) output output' h n = absurd (cc)
  add_text_part-Normal role (some (Json.real b)) output output' h n = absurd (cc)
  add_text_part-Normal role (some (Json.array b)) output output' h n = absurd (cc)
  add_text_part-Normal role (some (Json.object b)) output output' h n = absurd (cc)

  add_kind-Normal :
      (role : Role) (kind : List ℕ) (part : Members Real) (output output' : List Part)
      → add_kind role kind part output ≡ ok output'
      → Normal role output
      → Normal role output'
  unfolding add_kind
  add_kind-Normal role kind part output output' h n = elim (Bool-cases (same kind (codes "text"))) [
    | inl text ↦
        add_text_part-Normal role (get_member (codes "text") part) output output'
          (ground (arith, text, h)) n
    | inr no_text ↦ elim (Bool-cases (same kind (codes "image"))) [
      | inr no_kind ↦ absurd (ground (arith, no_text, no_kind, h))
      | inl image ↦ elim (Bool-cases (is_user role)) [
        | inr no_user ↦ absurd (ground (arith, no_text, image, no_user, h))
        | inl user ↦
            let (pair, _, added) =
              bound
                (image_of (get_member (codes "sha256") part) (get_member (codes "media_type") part))
                (λ (pair : List ℕ × List ℕ). ok (output ++ image_part pair.0 pair.1 ∷ [])) output'
                (ground (arith, no_text, image, user, h)) in
            subst (Normal role)
              (ok-injective (output ++ image_part pair.0 pair.1 ∷ []) output' added)
              (record {
                alternates = add_image-Alternates pair.0 pair.1 output n.alternates;
                no_image = λ no_user. absurd (cc);
              })
      ]
    ]
  ]

  add_typed-Normal :
      (role : Role) (o : Option (Json Real)) (part : Members Real) (output output' : List Part)
      → add_typed role o part output ≡ ok output'
      → Normal role output
      → Normal role output'
  unfolding add_typed
  add_typed-Normal role (some (Json.text kind)) part output output' h n =
      add_kind-Normal role kind part output output' h n
  add_typed-Normal role none part output output' h n = absurd (cc)
  add_typed-Normal role (some Json.null) part output output' h n = absurd (cc)
  add_typed-Normal role (some (Json.boolean b)) part output output' h n = absurd (cc)
  add_typed-Normal role (some (Json.integer b)) part output output' h n = absurd (cc)
  add_typed-Normal role (some (Json.real b)) part output output' h n = absurd (cc)
  add_typed-Normal role (some (Json.array b)) part output output' h n = absurd (cc)
  add_typed-Normal role (some (Json.object b)) part output output' h n = absurd (cc)

  add_part-Normal :
      (role : Role) (part : Json Real) (output output' : List Part)
      → add_part role part output ≡ ok output'
      → Normal role output
      → Normal role output'
  unfolding add_part
  add_part-Normal role (Json.object part) output output' h n =
      add_typed-Normal role (get_member (codes "type") part) part output output' h n
  add_part-Normal role Json.null output output' h n = absurd (cc)
  add_part-Normal role (Json.boolean b) output output' h n = absurd (cc)
  add_part-Normal role (Json.integer b) output output' h n = absurd (cc)
  add_part-Normal role (Json.real b) output output' h n = absurd (cc)
  add_part-Normal role (Json.text b) output output' h n = absurd (cc)
  add_part-Normal role (Json.array b) output output' h n = absurd (cc)

  add_parts-Normal :
      (role : Role) (parts : List (Json Real)) (output output' : List Part)
      → add_parts role parts output ≡ ok output'
      → Normal role output
      → Normal role output'
  unfolding add_parts
  add_parts-Normal role [] output output' h n =
      subst (Normal role) (ok-injective output output' h) n
  add_parts-Normal role (part ∷ parts) output output' h n =
      let (next, added, rest) =
        bound (add_part role part output) (add_parts role parts) output' h in
      add_parts-Normal role parts next output' rest (add_part-Normal role part output next added n)

  -- A content that stays a list of parts has an image in it and is a user's, and no text in it stands
  -- directly behind another one.
  pub normalize_parts-Alternates :
      (role : Role) (parts : List (Json Real)) (output : List Part)
      → normalize_parts role parts ≡ ok (mixed output)
      → Alternates output × (any_image output ≡ true) × (is_user role ≡ true)
  unfolding normalize_parts
  normalize_parts-Alternates role parts output h =
      let (read, added, end) =
        bound (add_parts role parts []) (λ read. ok (content_of_parts read)) (mixed output) h in
      mixed_of role read output
        (add_parts-Normal role parts [] read added
          (record { alternates = tt; no_image = λ h1. unfold any_image in refl }))
        end
