-- ===== src/Parsing/Calls.antt =====
-- The parser of native tool calls of src/qwasar_runtime/parsing.py. A position in a text is what stands
-- behind it; `memo` only saves work. Every round takes a tag off the text, whose length is the fuel.
pub mod Fuel
pub mod Rests
use qwarz.Base.{
  ℕ, zero, suc, ◌+◌, Bool, ◌&&◌, not, true, false, Option, none, some, List, [], ◌∷◌, ◌++◌, length,
  take, drop, ◌==◌, if◌then◌else◌,
}
use qwarz.Base.Outcome.{Result, ok, raise, value_error, ◌>>=◌}
use qwarz.Base.Texts.{codes, begins, find_text, all_spaces, strip, strip_left}
use qwarz.Parsing.Tools.{is_name, is_name_code}

abbrev pub Parameters : Type 0
Parameters = List (List ℕ × List ℕ)

abbrev pub close_parameter : List ℕ
close_parameter = codes "</parameter>"

abbrev pub close_function : List ℕ
close_function = codes "</function>"

abbrev pub close_call : List ℕ
close_call = codes "</tool_call>"

abbrev pub open_call : List ℕ
open_call = codes "<tool_call>"

-- `_close_positions`, as the text in front of each closing tag and the text behind it
unfoldable pub closes : ℕ → List ℕ → List ℕ → List ℕ → List (List ℕ × List ℕ)
unfolding find_text
closes zero needle seen text = []
closes (suc fuel) needle seen text =
    let next = λ (p : ℕ).
      closes fuel needle (seen ++ take (p + length needle) text) (drop (p + length needle) text) in
    elim (find_text needle text) [
      | none ↦ []
      | some p ↦ (seen ++ take p text, drop (p + length needle) text) ∷ next p
    ]

-- `_parameter_text`: one line break less at each end
unfoldable pub without_last_break : List ℕ → List ℕ
without_last_break [] = []
without_last_break (c ∷ []) = if c == 10 then [] else c ∷ []
without_last_break (c ∷ d ∷ text) = c ∷ without_last_break (d ∷ text)

unfoldable pub parameter_text : List ℕ → List ℕ
unfolding without_last_break
parameter_text [] = []
parameter_text (c ∷ text) = without_last_break (if c == 10 then text else c ∷ text)

-- the longest run of name characters
unfoldable pub name_run : List ℕ → List ℕ × List ℕ
unfolding is_name_code
name_run [] = ([], [])
name_run (c ∷ text) =
    let rest = name_run text in if is_name_code c then (c ∷ rest.0, rest.1) else ([], c ∷ text)

abbrev pub after_name : List ℕ × List ℕ → Option (List ℕ × List ℕ)
after_name (name, []) = none
after_name (name, c ∷ text) = if c == 62 && is_name name then some (name, text) else none

-- `FUNCTION_OPEN.match` and `PARAMETER_OPEN.match`: the name and what is behind the tag
unfoldable pub open_tag : List ℕ → List ℕ → Option (List ℕ × List ℕ)
unfolding strip_left begins name_run is_name
open_tag tag text =
    if begins tag (strip_left text)
    then after_name (name_run (drop (length tag) (strip_left text)))
    else none

unfoldable pub close_here :
    List ℕ → List ℕ → Option Parameters → Option Parameters → Option Parameters
unfolding parameter_text
close_here name value later none = later
close_here name value later (some list) = some ((name, parameter_text value) ∷ list)

-- the earliest closing tag behind which there is a list of parameters
unfoldable pub first_close :
    (List ℕ → Option Parameters) → List ℕ → List (List ℕ × List ℕ) → Option Parameters
unfolding close_here
first_close parse name [] = none
first_close parse name ((value, tail) ∷ more) =
    close_here name value (first_close parse name more) (parse tail)

unfoldable pub parse_opened :
    (List ℕ → Option Parameters) → Option (List ℕ × List ℕ) → Option Parameters
unfolding first_close closes
parse_opened parse none = none
parse_opened parse (some (name, rest)) =
    first_close parse name (closes (length rest) close_parameter [] rest)

-- `parse_from`
unfoldable pub parse_from : ℕ → List ℕ → Option Parameters
unfolding all_spaces open_tag parse_opened
parse_from zero body = none
parse_from (suc fuel) body =
    let parse = parse_from fuel in
    if all_spaces body then some [] else parse_opened parse (open_tag (codes "<parameter=") body)

-- `_parse_parameters`
unfoldable pub parse_parameters : List ℕ → Option Parameters
unfolding parse_from
parse_parameters body = parse_from (length body + 1) body

abbrev pub Function : Type 0
Function = List ℕ × Parameters

unfoldable pub function_close : List ℕ → List (List ℕ × List ℕ) → Option Function
unfolding all_spaces parse_parameters
function_close name [] = none
function_close name ((body, tail) ∷ more) =
    let later = function_close name more in
    if all_spaces tail
    then (elim (parse_parameters body) [ none ↦ later | some list ↦ some (name, list) ])
    else later

unfoldable pub function_opened : Option (List ℕ × List ℕ) → Option Function
unfolding function_close closes
function_opened none = none
function_opened (some (name, rest)) =
    function_close name (closes (length rest) close_function [] rest)

-- `_parse_function`
unfoldable pub parse_function : List ℕ → Option Function
unfolding open_tag function_opened
parse_function interior = function_opened (open_tag (codes "<function=") interior)

abbrev pub malformed : {A : Type 0} → Result A
malformed = raise (value_error "malformed native tool call" [])

abbrev pub or_malformed : Option (Function × List ℕ) → Result (Function × List ℕ)
or_malformed none = malformed
or_malformed (some call) = ok call

abbrev pub keep_first :
    Option (Function × List ℕ) → Bool → Function × List ℕ → Option (Function × List ℕ)
keep_first none true call = some call
keep_first none false call = none
keep_first (some first) starts call = some first

-- one round of the loop of `_next_tool_call`, for a function and whether the rest parses; the rounds
-- left take the fallback found so far
unfoldable pub call_step :
    Option Function
    → Bool
    → List ℕ
    → Option (Function × List ℕ)
    → (Option (Function × List ℕ) → Result (Function × List ℕ))
    → Result (Function × List ℕ)
unfolding begins
call_step none parses rest fallback later = later fallback
call_step (some function) true rest fallback later = ok (function, rest)
call_step (some function) false rest fallback later =
    later (keep_first fallback (begins open_call rest) (function, rest))

-- that loop, where `parses` tells of the rest
unfoldable pub call_close :
    (List ℕ → Bool)
    → Option (Function × List ℕ)
    → List (List ℕ × List ℕ)
    → Result (Function × List ℕ)
unfolding parse_function strip call_step
call_close parses fallback [] = or_malformed fallback
call_close parses fallback ((interior, tail) ∷ more) =
    call_step (parse_function interior) (parses (strip tail)) (strip tail) fallback
      (λ kept. call_close parses kept more)

-- `_next_tool_call`; an empty rest parses too
unfoldable pub next_tool_call : (List ℕ → Bool) → List ℕ → Result (Function × List ℕ)
unfolding begins call_close closes
next_tool_call parses xml =
    if begins open_call xml
    then call_close parses none (closes (length xml) close_call [] (drop (length open_call) xml))
    else malformed

abbrev pub is_ok : {A : Type 0} → Result A → Bool
is_ok (ok a) = true
is_ok (raise err) = false

-- the loop of `_parse_tool_calls`, in whose place `_tool_calls_parse` stands for the rest of a text
unfoldable pub calls_from : ℕ → List ℕ → Result (List Function)
unfolding next_tool_call strip
calls_from zero [] = ok []
calls_from zero (c ∷ xml) = malformed
calls_from (suc fuel) [] = ok []
calls_from (suc fuel) (c ∷ xml) =
    let again = calls_from fuel in
    next_tool_call (λ rest. is_ok (again (strip rest))) (c ∷ xml) >>= λ step.
    (again step.1 >>= λ functions. ok (step.0 ∷ functions))

-- `_parse_tool_calls`
unfoldable pub parse_tool_calls : List ℕ → Result (List Function)
unfolding calls_from strip
parse_tool_calls xml = calls_from (length xml + 1) (strip xml)
