-- ===== src/Parsing/Calls/Rests.antt =====
-- The fuel of `_parse_tool_calls` (src/qwasar_runtime/parsing.py) is enough.
use qwarz.Base.{
  ℕ, suc, ◌≤◌, ◌<◌, inl, inr, Bool, true, false, Option, none, some, List, [], ◌∷◌, length, drop,
  arith, Bool-cases, length-drop,
}
use qwarz.Base.Outcome.{Result, ok, raise, ◌>>=◌}
use qwarz.Base.Texts.{begins, strip, strip_left, strip_right, is_space, keep_code}
use qwarz.Parsing.Calls.{
  Function, open_call, close_call, closes, parse_function, keep_first, call_step, call_close,
  next_tool_call,
}
use qwarz.Parsing.Calls.Fuel.{Shorter, Shorter-mono, closes-Shorter, length-strip_left}

length-keep_code :
    (b : Bool) (c : ℕ) (text : List ℕ) → length (keep_code b c text) ≤ suc (length text)
length-keep_code true c [] = omega arith
length-keep_code false c [] = omega arith
length-keep_code b c (d ∷ text) = omega arith

length-strip_right : (text : List ℕ) → length (strip_right text) ≤ length text
unfolding strip_right
length-strip_right [] = omega arith
length-strip_right (c ∷ text) =
    omega (arith, length-keep_code (is_space c) c (strip_right text), length-strip_right text)

pub length-strip : (text : List ℕ) → length (strip text) ≤ length text
unfolding strip
length-strip text = omega (arith, length-strip_right (strip_left text), length-strip_left text)

-- a rest that is kept for the next call is short
abbrev ShortRest : ℕ → Option (Function × List ℕ) → Type 0
ShortRest bound none = Unit {0}
ShortRest bound (some call) = length call.1 < bound

abbrev pub ShortResult : ℕ → Result (Function × List ℕ) → Type 0
ShortResult bound (ok call) = length call.1 < bound
ShortResult bound (raise err) = Unit {0}

keep_first-ShortRest :
    (bound : ℕ) (fallback : Option (Function × List ℕ)) (starts : Bool) (call : Function × List ℕ)
    → ShortRest bound fallback
    → length call.1 < bound
    → ShortRest bound (keep_first fallback starts call)
keep_first-ShortRest bound none true call h k = k
keep_first-ShortRest bound none false call h k = tt
keep_first-ShortRest bound (some first) starts call h k = h

call_step-ShortResult :
    (bound : ℕ) (o : Option Function) (b : Bool) (rest : List ℕ)
    (fallback : Option (Function × List ℕ))
    (later : Option (Function × List ℕ) → Result (Function × List ℕ))
    → ((kept : Option (Function × List ℕ)) → ShortRest bound kept → ShortResult bound (later kept))
    → ShortRest bound fallback
    → length rest < bound
    → ShortResult bound (call_step o b rest fallback later)
unfolding call_step
call_step-ShortResult bound none b rest fallback later f h k = f fallback h
call_step-ShortResult bound (some g) true rest fallback later f h k = k
call_step-ShortResult bound (some g) false rest fallback later f h k =
    f _ (keep_first-ShortRest bound fallback (begins open_call rest) (g, rest) h k)

call_close-ShortResult :
    (parses : List ℕ → Bool) (bound : ℕ) (list : List (List ℕ × List ℕ))
    (fallback : Option (Function × List ℕ))
    → Shorter bound list
    → ShortRest bound fallback
    → ShortResult bound (call_close parses fallback list)
unfolding call_close
call_close-ShortResult parses bound [] none s h = tt
call_close-ShortResult parses bound [] (some call) s h = h
call_close-ShortResult parses bound ((interior, tail) ∷ more) fallback s h =
    call_step-ShortResult bound (parse_function interior) (parses (strip tail)) (strip tail)
      fallback (λ kept. call_close parses kept more)
      (λ kept k. call_close-ShortResult parses bound more kept s.1 k) h
      (omega (arith, length-strip tail, s.0))

next_tool_call-Shorter :
    (xml : List ℕ)
    → Shorter (length xml) (closes (length xml) close_call [] (drop (length open_call) xml))
next_tool_call-Shorter xml =
    let rest = drop (length open_call) xml in
    Shorter-mono (length rest) (length xml) (closes (length xml) close_call [] rest)
      (omega (arith, length-drop (length open_call) xml))
      (closes-Shorter (length xml) close_call [] rest (omega arith))

pub next_tool_call-ShortResult :
    (parses : List ℕ → Bool) (xml : List ℕ) → ShortResult (length xml) (next_tool_call parses xml)
unfolding next_tool_call
next_tool_call-ShortResult parses xml = elim (Bool-cases (begins open_call xml)) [
  | inl good ↦
      rw (ShortResult, good)
        (call_close-ShortResult parses (length xml) _ none (next_tool_call-Shorter xml) tt)
  | inr bad ↦ rw (ShortResult, bad) tt
]

-- the same goes on behind a call with a short rest
abbrev go_on : (List ℕ → Result (List Function)) → Function × List ℕ → Result (List Function)
go_on again step = again step.1 >>= λ functions. ok (step.0 ∷ functions)
