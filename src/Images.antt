-- ===== src/Images.antt =====
-- The embedding cache of src/qwasar_runtime/vision.py. A digest is a number; what an embedding holds
-- besides its digest is a parameter. The ordered dictionary is a list, the oldest entry first.
pub mod Recent
use qwarz.Base.{ℕ, ◌+◌, Option, none, some, List, [], ◌∷◌, ◌++◌, length, ltb, ◌==◌, if◌then◌else◌}

pub record ImageEmbedding (A : Type 0) : Type 0 where
  pub sha256 : ℕ
  pub content : A

abbrev pub Items : Type 0 → Type 0
Items A = List (ℕ × ImageEmbedding A)

pub record EmbeddingCache (A : Type 0) : Type 0 where
  pub entries : ℕ
  pub items : Items A
  pub hits : ℕ
  pub misses : ℕ

module _ {A : Type 0} where
  unfoldable pub find : ℕ → Items A → Option (ImageEmbedding A)
  find key [] = none
  find key ((k, item) ∷ items) = if k == key then some item else find key items

  unfoldable pub remove_key : ℕ → Items A → Items A
  remove_key key [] = []
  remove_key key ((k, item) ∷ items) =
      let rest = remove_key key items in if k == key then rest else (k, item) ∷ rest

  -- `self._items[key] = item`: a key that is there keeps its place
  unfoldable pub assign : ℕ → ImageEmbedding A → Items A → Items A
  assign key new [] = (key, new) ∷ []
  assign key new ((k, item) ∷ items) =
      let rest = assign key new items in if k == key then (k, new) ∷ items else (k, item) ∷ rest

  -- a missing key, which no caller has, raises in the source
  unfoldable pub move_to_end : ℕ → Items A → Items A
  unfolding find remove_key
  move_to_end key items = elim (find key items) [
    | none ↦ items
    | some item ↦ remove_key key items ++ (key, item) ∷ []
  ]

  -- `while len(self._items) > self.entries: self._items.popitem(last=False)`
  unfoldable pub evict : ℕ → Items A → Items A
  evict entries [] = []
  evict entries (item ∷ items) =
      let rest = evict entries items in
      if ltb entries (length (item ∷ items)) then rest else item ∷ items

  unfoldable pub get : ℕ → EmbeddingCache A → Option (ImageEmbedding A) × EmbeddingCache A
  unfolding move_to_end
  get sha256 cache = elim (find sha256 cache.items) [
    | none ↦ (none, record cache { misses = cache.misses + 1 })
    | some item ↦
        (some item, record cache { items = move_to_end sha256 cache.items; hits = cache.hits + 1 })
  ]

  unfoldable pub put_image : ImageEmbedding A → EmbeddingCache A → EmbeddingCache A
  unfolding assign move_to_end evict
  put_image item cache = record cache {
    items = evict cache.entries (move_to_end item.sha256 (assign item.sha256 item cache.items));
  }
