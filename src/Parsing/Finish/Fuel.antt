-- ===== src/Parsing/Finish/Fuel.antt =====
-- The fuel of the loop of `finish` (src/qwasar_runtime/parsing.py) is enough.
use qwarz.Base.{ℕ, zero, suc, ◌+◌, ◌≤◌, ◌<◌, ◌≡◌, refl, sym, ap, ◌∙◌, List, [], ◌∷◌, length, arith}
use qwarz.Base.Outcome.{Result, ok, raise, ◌>>=◌}
use qwarz.Base.Texts.{strip}
use qwarz.Parsing.Tools.{Functions}
use qwarz.Parsing.Messages.{Call}
use qwarz.Parsing.Calls.{Function, next_tool_call, parse_tool_calls, is_ok}
use qwarz.Parsing.Calls.Rests.{ShortResult, next_tool_call-ShortResult, length-strip}
use qwarz.Parsing.Finish.{ToolChoice, Finisher, finish_call, finish_calls}

module _ {Real : Type 0} (finisher : Finisher Real) (choice : ToolChoice)
    (functions : Functions Real) where
  -- a round, with what is done with the rest
  abbrev round : ℕ → (List ℕ → Result (List Call)) → Function × List ℕ → Result (List Call)
  round index later step = finish_call finisher choice functions index step.0 >>= λ call.
      (later step.1 >>= λ calls. ok (call ∷ calls))

  round-agree :
      (index : ℕ) (later later' : List ℕ → Result (List Call)) (bound : ℕ)
      (r : Result (Function × List ℕ))
      → ((text : List ℕ) → length text < bound → later text ≡ later' text)
      → ShortResult bound r
      → r >>= round index later ≡ r >>= round index later'
  round-agree index later later' bound (ok step) same h =
      ap
        (λ (q : Result (List Call)). finish_call finisher choice functions index step.0 >>= λ call.
          (q >>= λ calls. ok (call ∷ calls)))
        (same step.1 h)
  round-agree index later later' bound (raise err) same h = refl

  finish_calls-suc :
      (fuel index : ℕ) (xml : List ℕ)
      → length xml ≤ fuel
      → finish_calls finisher fuel choice functions index xml
        ≡ finish_calls finisher (suc fuel) choice functions index xml
  unfolding finish_calls
  finish_calls-suc zero index [] h = refl
  finish_calls-suc (suc fuel) index [] h = refl
  finish_calls-suc zero index (c ∷ xml) h = absurd (omega arith)
  finish_calls-suc (suc fuel) index (c ∷ xml) h =
      round-agree index (finish_calls finisher fuel choice functions (suc index))
        (finish_calls finisher (suc fuel) choice functions (suc index)) (length (c ∷ xml))
        (next_tool_call (λ rest. is_ok (parse_tool_calls rest)) (c ∷ xml))
        (λ text short. finish_calls-suc fuel (suc index) text (omega (arith, short, h)))
        (next_tool_call-ShortResult (λ rest. is_ok (parse_tool_calls rest)) (c ∷ xml))

  -- With any more fuel than the length of the text the loop over the calls gives the same.
  pub finish_calls-fuel :
      (xml : List ℕ) (more : ℕ)
      → finish_calls finisher (length xml + more) choice functions 0 (strip xml)
        ≡ finish_calls finisher (length xml) choice functions 0 (strip xml)
  finish_calls-fuel xml zero =
      let e : length xml + 0 ≡ length xml = omega arith in
      ap (λ n. finish_calls finisher n choice functions 0 (strip xml)) e
  finish_calls-fuel xml (suc more) =
      let e : length xml + suc more ≡ suc (length xml + more) = omega arith in
      ap (λ n. finish_calls finisher n choice functions 0 (strip xml)) e
      ∙ sym (finish_calls-suc (length xml + more) 0 (strip xml) (omega (arith, length-strip xml)))
      ∙ finish_calls-fuel xml more
