-- ===== src/Tests/Turns.antt =====
-- A turn of three prompt ids on the computing engine, and its properties there.
use qwarz.Base.{false, ap, ◌∙◌, ◌==◌, ℕ, ◌≡◌, refl, none, some, List, [], ◌∷◌, arith}
use qwarz.Base.Outcome.{ok}
use qwarz.Base.Ends.{Ends}
use qwarz.Mtp.Greedy.{greedy}
use qwarz.Cycle.Draft.{DraftCycle}
use qwarz.Cycle.Turn.{Turn, World}
use qwarz.Cycle.Resident.{Resident, Never}
use qwarz.Cycle.Prefill.{prefill_held}
use qwarz.Cycle.Prefill.Held.{HeldLast, prefill_held-Ends}
use qwarz.Cycle.Window.{Progress, window}
use qwarz.Cycle.Window.Step.{Stepped, window-Ends}
use qwarz.Cycle.Loop.{continue_drafted}
use qwarz.Cycle.Loop.Answer.{Answered, Cancelled, continue_drafted-Ends, continue_drafted-greedy}
use qwarz.Tests.Machine.{cpu_engine, cpu_laws, cpu_target, next_token}

-- six tokens in windows of three drafts, with the stop id 6 and a cut at 1
abbrev cpu_turn : Turn cpu_engine (Unit {0})
cpu_turn = record {
  max_new = 6;
  steps = 3;
  limit = 6;
  stop_ids = 6 ∷ [];
  cuts = 1 ∷ [];
  choose = none;
  on_accepted = none;
  on_span = none;
  cancel = none;
  embed_ids = none;
  inv_freq = none;
  ngram = false;
  ngram_n = 5;
}

-- a cancel event that is set at the third poll
abbrev cancelled_at_third : Turn cpu_engine (Unit {0})
cancelled_at_third = record cpu_turn { cancel = some (λ n. n == 2) }

abbrev three_ids : List ℕ
three_ids = 0 ∷ 1 ∷ 2 ∷ []

abbrev fresh : DraftCycle cpu_engine
fresh = record {
  draft = none;
  carry = none;
  primed = 0;
  accepted = 0;
  rejected = 0;
  windows = 0;
  proposals = none;
  tokens = [];
  cache_len = 0;
  overshot = false;
}

abbrev cold : World cpu_engine (Unit {0})
cold = record { target = ([], []); cycle = fresh; rng = tt; host = tt; polls = 0 }

cold-Resident : Resident cpu_turn cpu_laws [] cold
cold-Resident = record { consumed = refl; position = refl }

continue_drafted-greedy_example :
    ((continue_drafted cpu_turn three_ids 0 cold).0 ≡ ok (greedy next_token (6 ∷ []) 6 three_ids))
    × Answered cpu_turn cpu_laws next_token three_ids
        (greedy next_token (6 ∷ []) 6 three_ids)
        (continue_drafted cpu_turn three_ids 0 cold).1
continue_drafted-greedy_example =
    continue_drafted-greedy cpu_turn cpu_laws next_token three_ids 0 cold refl refl refl
      (omega arith) (omega arith) cpu_target (omega arith) (omega arith) cold-Resident
      (λ h. absurd (omega arith))

-- those tokens are 3, 4, 5 and the stop id
four_tokens : greedy next_token (6 ∷ []) 6 three_ids ≡ 3 ∷ 4 ∷ 5 ∷ 6 ∷ []
unfolding greedy
four_tokens = refl

four_tokens_of_code : (continue_drafted cpu_turn three_ids 0 cold).0 ≡ ok (3 ∷ 4 ∷ 5 ∷ 6 ∷ [])
four_tokens_of_code = continue_drafted-greedy_example.0 ∙ ap ok four_tokens

continue_drafted-Ends_example :
    Ends
      (Answered cancelled_at_third cpu_laws next_token three_ids)
      (Cancelled cancelled_at_third cpu_laws next_token three_ids)
      (continue_drafted cancelled_at_third three_ids 0)
      cold
continue_drafted-Ends_example =
    continue_drafted-Ends cancelled_at_third cpu_laws next_token three_ids 0 cold refl refl
      (omega arith) (omega arith) cpu_target (omega arith) (omega arith)
      (record { consumed = refl; position = refl }) (λ h. absurd (omega arith))

prefill_held-Ends_example :
    Ends (HeldLast cpu_turn cpu_laws three_ids) Never (prefill_held cpu_turn three_ids 0) cold
prefill_held-Ends_example =
    prefill_held-Ends cpu_turn cpu_laws three_ids 0 cold (omega arith) (omega arith) cold-Resident
      (λ h. absurd (omega arith))

-- behind that prefill
abbrev primed : World cpu_engine (Unit {0})
primed = record cold {
  target = (0 ∷ 1 ∷ [], 2 ∷ []);
  cycle = record fresh { draft = some 2; carry = some 2 };
}

abbrev first_window : Progress
first_window = record { cache_len = 2; held = 2; produced = []; suffix = none }

window-Ends_example :
    Ends
      (Stepped cpu_turn cpu_laws next_token three_ids first_window)
      Never
      (window cpu_turn first_window)
      primed
window-Ends_example =
    window-Ends cpu_turn cpu_laws next_token three_ids (0 ∷ 1 ∷ []) first_window primed refl refl
      (omega arith) (omega arith) cpu_target (omega arith)
      (record {
        tokens = refl;
        cache_len = refl;
        resident = record { consumed = refl; position = refl };
        carry = (2, refl);
      })
      (λ j is_set v has. absurd (cc))
