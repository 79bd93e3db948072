-- ===== src/Engine/Budget.antt =====
-- What the reasoning budget of src/qwasar_runtime/engine.py leaves of a turn.
use qwarz.Base.{ℕ, ◌+◌, ◌≤◌, ◌/◌, min, Option, none, some, arith}
use qwarz.Engine.{Thinking, reasoning_token_cap, content_reserve}

-- Reasoning never takes the tokens of the reserve: the cap and the reserve, the smaller one of 1024
-- and half of the budget, fit into the budget of the turn.
pub cap_reserve :
    (thinking : Thinking) (max_tokens : ℕ) (override : Option ℕ)
    → reasoning_token_cap thinking max_tokens override + min content_reserve (max_tokens / 2)
      ≤ max_tokens
unfolding reasoning_token_cap
cap_reserve thinking max_tokens none = ground arith
cap_reserve thinking max_tokens (some n) = ground arith
