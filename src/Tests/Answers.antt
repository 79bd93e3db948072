-- ===== src/Tests/Answers.antt =====
-- A tool call whose parameter holds a closing tag.
use qwarz.Base.{ℕ, ◌≡◌, refl, some, List, [], ◌∷◌}
use qwarz.Base.Outcome.{ok}
use qwarz.Base.Texts.{codes}
use qwarz.Parsing.Calls.{parse_parameters, calls_from, parse_tool_calls}

abbrev body : List ℕ
body = codes "<parameter=a>x</parameter>y</parameter>"

-- the tag inside the value stays in it
tag_in_value : parse_parameters body ≡ some ((codes "a", codes "x</parameter>y") ∷ [])
unfolding parse_parameters
tag_in_value = refl

abbrev xml : List ℕ
xml = codes " <tool_call><function=f></function></tool_call> "

abbrev two_calls : List ℕ
two_calls =
    codes
      "tool_call><function=f></function></tool_call><tool_call><function=g></function></tool_call>"

both_calls : calls_from 200 (60 ∷ two_calls) ≡ ok ((codes "f", []) ∷ (codes "g", []) ∷ [])
unfolding calls_from
both_calls = refl

one_call : parse_tool_calls xml ≡ ok ((codes "f", []) ∷ [])
unfolding parse_tool_calls
one_call = refl
