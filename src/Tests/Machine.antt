-- ===== src/Tests/Machine.antt =====
-- An engine that computes, after `_CpuRunner` and `_CpuDraft` of engine/forward/worker.py: the runner
-- keeps the ids that it has taken in and one answer behind each id of its last forward, and has no
-- GDN rewind; the draft counts on and goes wrong behind 4.
use qwarz.Base.{
  ℕ, suc, ◌+◌, ◌≡◌, refl, ap, ◌∙◌, Option, none, some, List, [], ◌∷◌, ◌++◌, length, min, ◌==◌,
  if◌then◌else◌, arith,
}
use qwarz.Base.Outcome.{Result, ok, raise, runtime_error}
use qwarz.Device.{Engine, Laws, IsGreedyTarget}
use qwarz.Mtp.Greedy.{scores}

-- the token after a context is its length
abbrev pub next_token : List ℕ → ℕ
next_token context = length context

-- the answer behind each id of a forward
unfoldable pub answers : List ℕ → List ℕ → List ℕ
answers context [] = []
answers context (token ∷ ids) =
    next_token (context ++ token ∷ []) ∷ answers (context ++ token ∷ []) ids

unfoldable pub forward_ids :
    List ℕ
    → ℕ
    → Option (Unit {0})
    → Option (Unit {0})
    → List ℕ × List ℕ
    → Result (Unit {0}) × (List ℕ × List ℕ)
unfolding answers
forward_ids ids cache_len embedded inv_freq (resident, rows) =
    if cache_len == length resident then (ok tt, (resident ++ ids, answers resident ids)) else (
      raise (runtime_error "forward away from the resident cursor" (cache_len ∷ [])),
      (resident, rows),
    )

abbrev pub draft_step : ℕ → ℕ → ℕ → (ℕ × ℕ) × ℕ
draft_step token row position = ((if token == 4 then 0 else suc token, row), position + 1)

abbrev pub cpu_engine : Engine
cpu_engine = record {
  Row = ℕ;
  Logits = ℕ;
  Proposal = ℕ;
  Sampling = Unit {0};
  Rng = Unit {0};
  Embedded = Unit {0};
  Freq = Unit {0};
  Target = List ℕ × List ℕ;
  Snapshot = List ℕ × List ℕ;
  Draft = ℕ;
  forward = forward_ids;
  hidden = λ t. t.1;
  score_window = some (λ t. t.1);
  score_logits = none;
  logits = λ t. t.1;
  argmax = λ l. l;
  capture = λ t. t;
  restore = λ s t. s;
  rewind_recurrent = none;
  new_draft = λ t. 0;
  position = λ d. d;
  prefill = λ ids rows d. d + length ids;
  step = draft_step;
  roll = none;
  truncate = λ p d. (ok tt, min p d);
  certain = λ token. token;
}

pub length-answers : (context ids : List ℕ) → length (answers context ids) ≡ length ids
unfolding answers
length-answers context [] = refl
length-answers context (token ∷ ids) = ap suc (length-answers (context ++ token ∷ []) ids)

answers-scores :
    (context : List ℕ) (held : ℕ) (drafted : List ℕ)
    → answers context (held ∷ drafted) ≡ scores next_token (context ++ held ∷ []) drafted
unfolding answers scores
answers-scores context held [] = refl
answers-scores context held (d ∷ drafted) =
    ap (◌∷◌ (next_token (context ++ held ∷ []))) (answers-scores (context ++ held ∷ []) d drafted)

pub forward_ids_resident :
    (ids : List ℕ) (n : ℕ) (embedded inv_freq : Option (Unit {0})) (t : List ℕ × List ℕ)
    → n ≡ length t.0
    → forward_ids ids n embedded inv_freq t ≡ (ok tt, (t.0 ++ ids, answers t.0 ids))
unfolding forward_ids
forward_ids_resident ids n embedded inv_freq (resident, rows) h = ground arith

abbrev pub cpu_laws : Laws cpu_engine none none
cpu_laws = record {
  consumed = λ t. t.0;
  forward_ok = λ ids n t h. ap (λ r. r.0) (forward_ids_resident ids n none none t h);
  consumed_forward = λ ids n t h. ap (λ r. r.1.0) (forward_ids_resident ids n none none t h);
  hidden_forward = λ ids n t h.
      ap (λ r. length r.1.1) (forward_ids_resident ids n none none t h) ∙ length-answers t.0 ids;
  consumed_restore = λ s t. refl;
  consumed_rewind = λ rewind keep ids n t has h fits. absurd (cc);
  position_new = λ t. refl;
  position_prefill = λ ids rows d. refl;
  position_step = λ token row d. refl;
  position_roll = λ roll token row steps sampling d has. absurd (cc);
  truncate_ok = λ p d h. (refl, omega arith);
}

pub cpu_target : IsGreedyTarget cpu_engine none none cpu_laws next_token
cpu_target held drafted n t h =
    ap (λ r. r.1.1) (forward_ids_resident (held ∷ drafted) n none none t h)
    ∙ answers-scores t.0 held drafted
