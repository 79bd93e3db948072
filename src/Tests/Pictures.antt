-- ===== src/Tests/Pictures.antt =====
-- The embedding cache with two entries.
use qwarz.Base.{ℕ, ◌≤◌, ◌≡◌, refl, some, [], ◌∷◌, length, arith}
use qwarz.Images.{ImageEmbedding, EmbeddingCache, get, put_image}
use qwarz.Images.Recent.{put_image-get}

abbrev picture : ℕ → ImageEmbedding ℕ
picture n = record { sha256 = n; content = n }

abbrev full : EmbeddingCache ℕ
full = record { entries = 2; items = (1, picture 1) ∷ (2, picture 2) ∷ []; hits = 0; misses = 0 }

put_image-get_example :
    ((get 3 (put_image (picture 3) full)).0 ≡ some (picture 3))
    × (length (put_image (picture 3) full).items ≤ 2)
put_image-get_example = put_image-get (picture 3) full (omega arith)

oldest_gone : (put_image (picture 3) full).items ≡ (2, picture 2) ∷ (3, picture 3) ∷ []
unfolding put_image
oldest_gone = refl
