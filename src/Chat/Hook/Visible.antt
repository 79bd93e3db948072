-- ===== src/Chat/Hook/Visible.antt =====
-- The ids that the callback of engine/forward/chat.py streams as text.
use qwarz.Base.{ℕ, ◌≡◌, List, [], ◌∷◌, ◌++◌, init_list, last_or, ◌==◌, if◌then◌else◌}
use qwarz.Chat.Hook.{TurnState}

-- The ids of a window but a stop at its end, and those of all windows.
unfoldable pub window_text : ℕ → List ℕ → List ℕ
window_text stop [] = []
window_text stop (n ∷ new) = if last_or 0 (n ∷ new) == stop then init_list (n ∷ new) else n ∷ new

unfoldable pub windows_text : ℕ → List (List ℕ) → List ℕ
unfolding window_text
windows_text stop [] = []
windows_text stop (new ∷ windows) = window_text stop new ++ windows_text stop windows

-- `t` has streamed these ids more than `s`
record Streams {Schema : Type 0} (ids : List ℕ) (s t : TurnState Schema) : Type 0 where
  visible : t.visible ≡ s.visible ++ ids
  text : t.text.ids ≡ s.text.ids ++ ids

module _ {Schema : Type 0} where
  abbrev Same : TurnState Schema → TurnState Schema → Type 0
  Same s t = (t.visible ≡ s.visible) × (t.text ≡ s.text)
