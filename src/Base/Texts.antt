-- ===== src/Base/Texts.antt =====
-- Python's `str` as the list of its code points, with the methods that the code calls.
use Prim.Native.Nat.{ℕ, ◌+◌, ◌-◌}
use Prim.Native.Char.{code}
use Prim.Native.String.{String}
use mathlib.Core.Bool.{Bool, true, false, ◌&&◌, ◌||◌}
use mathlib.Core.Option.{Option, none, some}
use mathlib.Core.List.{List, [], ◌∷◌}
use qwarz.Base.Tests.{leb, ◌==◌, if◌then◌else◌}
use qwarz.Base.Lists.{length, drop}

-- a literal
abbrev pub codes : String → List ℕ
codes String.[] = []
codes (String.◌∷◌ c s) = code c ∷ codes s

unfoldable pub begins : List ℕ → List ℕ → Bool
begins [] text = true
begins (p ∷ prefix) [] = false
begins (p ∷ prefix) (c ∷ text) = p == c && begins prefix text

-- `str.endswith`
unfoldable pub ends_with : List ℕ → List ℕ → Bool
unfolding begins
ends_with suffix text =
    leb (length suffix) (length text) && begins suffix (drop (length text - length suffix) text)

abbrev pub shift : ℕ → Option ℕ → Option ℕ
shift n none = none
shift n (some p) = some (n + p)

-- `str.find`, with none for -1
unfoldable pub find_text : List ℕ → List ℕ → Option ℕ
unfolding begins
find_text needle [] = if begins needle [] then some 0 else none
find_text needle (c ∷ text) =
    let rest = shift 1 (find_text needle text) in if begins needle (c ∷ text) then some 0 else rest

-- what `str.isspace`, `str.strip` and the regular expressions' `\s` take for a space
unfoldable pub is_space : ℕ → Bool
is_space c =
    (leb 9 c && leb c 13)
    || (leb 28 c && leb c 32)
    || c == 133
    || c == 160
    || c == 5760
    || (leb 8192 c && leb c 8202)
    || c == 8232
    || c == 8233
    || c == 8239
    || c == 8287
    || c == 12288

unfoldable pub all_spaces : List ℕ → Bool
unfolding is_space
all_spaces [] = true
all_spaces (c ∷ text) = is_space c && all_spaces text

unfoldable pub strip_left : List ℕ → List ℕ
unfolding is_space
strip_left [] = []
strip_left (c ∷ text) = let rest = strip_left text in if is_space c then rest else c ∷ text

abbrev pub keep_code : Bool → ℕ → List ℕ → List ℕ
keep_code true c [] = []
keep_code false c [] = c ∷ []
keep_code space c (d ∷ text) = c ∷ d ∷ text

unfoldable pub strip_right : List ℕ → List ℕ
unfolding is_space
strip_right [] = []
strip_right (c ∷ text) = keep_code (is_space c) c (strip_right text)

-- `str.strip`
unfoldable pub strip : List ℕ → List ℕ
unfolding strip_left strip_right
strip text = strip_right (strip_left text)
