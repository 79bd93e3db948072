-- ===== src/Device.antt =====
-- The GPU side of a resident turn as the Python code calls it: the runner (`ModelRunner`,
-- `MemoryRunner`, `_CpuRunner`), the draft model (`MTPDraft`, `_CpuDraft`) and the sampler.
-- Kernels and weights are parameters here. `Laws` is what the turn relies on.
use qwarz.Base.{ℕ, ◌+◌, ◌≤◌, ◌≡◌, Option, none, some, List, [], ◌∷◌, ◌++◌, length, take, map}
use qwarz.Base.Outcome.{Result, ok}
use qwarz.Mtp.Greedy.{scores}

pub record Engine : Type 1 where
  pub Row : Type 0
  pub Logits : Type 0
  pub Proposal : Type 0
  pub Sampling : Type 0
  pub Rng : Type 0
  pub Embedded : Type 0
  pub Freq : Type 0
  pub Target : Type 0
  pub Snapshot : Type 0
  pub Draft : Type 0
  -- the runner
  pub forward : List ℕ → ℕ → Option Embedded → Option Freq → Target → Result (Unit {0}) × Target
  pub hidden : Target → List Row
  pub score_window : Option (Target → List ℕ)
  pub score_logits : Option (Target → List Logits)
  pub logits : Target → List Logits
  pub argmax : Logits → ℕ
  pub capture : Target → Snapshot
  pub restore : Snapshot → Target → Target
  pub rewind_recurrent : Option (ℕ → Target → Target)
  -- the draft model
  pub new_draft : Target → Draft
  pub position : Draft → ℕ
  pub prefill : List ℕ → List (Option Row) → Draft → Draft
  pub step : ℕ → Row → Draft → (ℕ × Row) × Draft
  pub roll : Option (ℕ → Row → ℕ → Option Sampling → Draft → (List ℕ × List Proposal) × Draft)
  pub truncate : ℕ → Draft → Result (Unit {0}) × Draft
  -- `{token: 1.0}`
  pub certain : ℕ → Proposal

-- the attributes that `chooser` hangs on the function it returns
pub record Chooser (e : Engine) : Type 0 where
  pub choose : e.Logits → ℕ → e.Rng → ℕ × e.Rng
  pub window : Option (List e.Logits → e.Rng → List ℕ × e.Rng)
  pub verify : Option (List e.Logits → List ℕ → List e.Proposal → e.Rng → List ℕ × e.Rng)
  pub draft : Option e.Sampling

-- the rows that `_forward` passes on
abbrev pub rows_for {ℓ} : {E : Type ℓ} → Option (List ℕ → Option E) → List ℕ → Option E
rows_for none ids = none
rows_for (some embed_ids) ids = embed_ids ids

-- the target's own choice behind each position of the last window, with no sampler
abbrev pub greedy_row : (e : Engine) → e.Target → List ℕ
greedy_row e t = elim e.score_window [ none ↦ map e.argmax (e.logits t) | some score ↦ score t ]

-- What the documentation of the runner says of its state, for one turn's embedding hooks: a
-- forward at the resident cursor appends its ids and exports one row for each; a capture can be
-- restored; the GDN rewind keeps a prefix of the last forward; the draft's cursor counts its rows.
pub record Laws (e : Engine) (embed_ids : Option (List ℕ → Option e.Embedded))
    (freq : Option e.Freq) : Type 0 where
  pub consumed : e.Target → List ℕ
  pub forward_ok :
      (ids : List ℕ) (n : ℕ) (t : e.Target)
      → n ≡ length (consumed t)
      → (e.forward ids n (rows_for embed_ids ids) freq t).0 ≡ ok tt
  pub consumed_forward :
      (ids : List ℕ) (n : ℕ) (t : e.Target)
      → n ≡ length (consumed t)
      → consumed (e.forward ids n (rows_for embed_ids ids) freq t).1 ≡ consumed t ++ ids
  pub hidden_forward :
      (ids : List ℕ) (n : ℕ) (t : e.Target)
      → n ≡ length (consumed t)
      → length (e.hidden (e.forward ids n (rows_for embed_ids ids) freq t).1) ≡ length ids
  pub consumed_restore : (s t : e.Target) → consumed (e.restore (e.capture s) t) ≡ consumed s
  pub consumed_rewind :
      (rewind : ℕ → e.Target → e.Target) (keep : ℕ) (ids : List ℕ) (n : ℕ) (t : e.Target)
      → e.rewind_recurrent ≡ some rewind
      → n ≡ length (consumed t)
      → keep ≤ length ids
      → consumed (rewind keep (e.forward ids n (rows_for embed_ids ids) freq t).1)
        ≡ consumed t ++ take keep ids
  pub position_new : (t : e.Target) → e.position (e.new_draft t) ≡ 0
  pub position_prefill :
      (ids : List ℕ) (rows : List (Option e.Row)) (d : e.Draft)
      → e.position (e.prefill ids rows d) ≡ e.position d + length ids
  pub position_step :
      (token : ℕ) (row : e.Row) (d : e.Draft) → e.position (e.step token row d).1 ≡ e.position d + 1
  pub position_roll :
      (roll : ℕ → e.Row → ℕ → Option e.Sampling → e.Draft → (List ℕ × List e.Proposal) × e.Draft)
      (token : ℕ) (row : e.Row) (steps : ℕ) (sampling : Option e.Sampling) (d : e.Draft)
      → e.roll ≡ some roll
      → (e.position (roll token row steps sampling d).1 ≡ e.position d + steps)
        × (length (roll token row steps sampling d).0.0 ≡ steps)
  pub truncate_ok :
      (p : ℕ) (d : e.Draft)
      → p ≤ e.position d
      → ((e.truncate p d).0 ≡ ok tt) × (e.position (e.truncate p d).1 ≡ p)

-- The target is a function of the tokens that it has consumed.
abbrev pub IsGreedyTarget :
    (e : Engine) (embed_ids : Option (List ℕ → Option e.Embedded)) (freq : Option e.Freq)
    → Laws e embed_ids freq
    → (List ℕ → ℕ)
    → Type 0
IsGreedyTarget e embed_ids freq laws next =
    (held : ℕ) (drafted : List ℕ) (n : ℕ) (t : e.Target)
    → n ≡ length (laws.consumed t)
    → greedy_row e (e.forward (held ∷ drafted) n (rows_for embed_ids (held ∷ drafted)) freq t).1
      ≡ scores next (laws.consumed t ++ held ∷ []) drafted
