-- ===== src/Images/Recent.antt =====
-- What the cache of src/qwasar_runtime/vision.py keeps.
use qwarz.Base.{
  ℕ, ◌≤◌, ◌<◌, ◌≡◌, refl, ap, ◌∙◌, inl, inr, none, some, [], ◌∷◌, ◌++◌, length, ltb, ◌==◌, arith,
  Bool-cases, ==_refl, ltb→le, le→ltb,
}
use qwarz.Images.{
  ImageEmbedding, Items, EmbeddingCache, find, remove_key, assign, move_to_end, evict, get,
  put_image,
}

module _ {A : Type 0} where
  find-remove_key : (key : ℕ) (items : Items A) → find key (remove_key key items) ≡ none
  unfolding find remove_key
  find-remove_key key [] = refl
  find-remove_key key ((k, item) ∷ items) = elim (Bool-cases (k == key)) [
    | inl hit ↦ rw hit (find-remove_key key items)
    | inr miss ↦ rw (miss, find, miss) (find-remove_key key items)
  ]

  find-assign :
      (key : ℕ) (new : ImageEmbedding A) (items : Items A)
      → find key (assign key new items) ≡ some new
  unfolding find assign
  find-assign key new [] = rw (==_refl key) refl
  find-assign key new ((k, item) ∷ items) = elim (Bool-cases (k == key)) [
    | inl hit ↦ rw (hit, find, hit) refl
    | inr miss ↦ rw (miss, find, miss) (find-assign key new items)
  ]

  find-append_last :
      (key : ℕ) (items : Items A) (item : ImageEmbedding A)
      → find key items ≡ none
      → find key (items ++ (key, item) ∷ []) ≡ some item
  unfolding find
  find-append_last key [] item h = rw (==_refl key) refl
  find-append_last key ((k, other) ∷ items) item h = elim (Bool-cases (k == key)) [
    | inl hit ↦ absurd (ground arith)
    | inr miss ↦ rw miss (find-append_last key items item (ground arith))
  ]

  -- the entry at the end is the last to go
  find-evict_last :
      (entries key : ℕ) (items : Items A) (item : ImageEmbedding A)
      → 0 < entries
      → find key items ≡ none
      → find key (evict entries (items ++ (key, item) ∷ [])) ≡ some item
  unfolding evict find
  find-evict_last entries key [] item h absent =
      rw (le→ltb entries 1 (omega arith), find, ==_refl key) refl
  find-evict_last entries key ((k, other) ∷ items) item h absent =
      elim (Bool-cases (ltb entries (length ((k, other) ∷ items ++ (key, item) ∷ [])))) [
        | inl over ↦ rw over (find-evict_last entries key items item h (ground arith))
        | inr fits ↦ rw fits (find-append_last key ((k, other) ∷ items) item absent)
      ]

  length-evict : (entries : ℕ) (items : Items A) → length (evict entries items) ≤ entries
  unfolding evict
  length-evict entries [] = omega arith
  length-evict entries (item ∷ items) = elim (Bool-cases (ltb entries (length (item ∷ items)))) [
    | inl over ↦ rw over (length-evict entries items)
    | inr fits ↦ rw fits (ltb→le _ _ fits)
  ]

  move_to_end_found :
      (key : ℕ) (items : Items A) (item : ImageEmbedding A)
      → find key items ≡ some item
      → move_to_end key items ≡ remove_key key items ++ (key, item) ∷ []
  unfolding move_to_end
  move_to_end_found key items item h = rw (move_to_end, h) refl

  get_found :
      (key : ℕ) (cache : EmbeddingCache A) (item : ImageEmbedding A)
      → find key cache.items ≡ some item
      → (get key cache).0 ≡ some item
  unfolding get
  get_found key cache item h = rw (get, h) refl

  put_image_items :
      (item : ImageEmbedding A) (cache : EmbeddingCache A)
      → (put_image item cache).items
        ≡ evict cache.entries (
            remove_key item.sha256 (assign item.sha256 item cache.items)
            ++ (item.sha256, item) ∷ [])
  unfolding put_image
  put_image_items item cache = ap (evict cache.entries) (
      move_to_end_found item.sha256 (assign item.sha256 item cache.items) item
        (find-assign item.sha256 item cache.items))

  -- In a cache of one entry or more, an image that was just put is found, and no more entries are
  -- kept than the cache may hold.
  pub put_image-get :
      (item : ImageEmbedding A) (cache : EmbeddingCache A)
      → 0 < cache.entries
      → ((get item.sha256 (put_image item cache)).0 ≡ some item)
        × (length (put_image item cache).items ≤ cache.entries)
  put_image-get item cache some_entry =
      let stored = assign item.sha256 item cache.items in
      (
        get_found item.sha256 (put_image item cache) item (
            ap (find item.sha256) (put_image_items item cache)
            ∙ find-evict_last cache.entries item.sha256 (remove_key item.sha256 stored) item
                some_entry (find-remove_key item.sha256 stored)),
        omega (
          arith,
          ap length (put_image_items item cache),
          length-evict cache.entries (remove_key item.sha256 stored ++ (item.sha256, item) ∷ []),
        ),
      )
