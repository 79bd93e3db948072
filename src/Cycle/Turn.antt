-- ===== src/Cycle/Turn.antt =====
-- What a turn of engine/forward/cycle.py is given, what it changes, and the helpers of its loop:
-- cancellation, one target forward, and the target's samples for a window.
use qwarz.Base.{ℕ, ◌+◌, Bool, false, Option, none, some, List, [], ◌∷◌, length, ◌==◌, if◌then◌else◌}
use qwarz.Base.Outcome.{ok, raise, runtime_error}
use qwarz.Base.Action.{Exec}
use qwarz.Device.{Engine, Chooser, rows_for, greedy_row}
use qwarz.Cycle.Draft.{DraftCycle}

-- the dictionary that `on_accepted` returns
pub record Directive : Type 0 where
  pub drop_last : Bool
  pub inject : List ℕ
  pub halt : Bool

-- The arguments of `continue_drafted`. `Host` is what the two callbacks read and write. A missing
-- `stop_ids` or `cuts` is the empty list; `cancel` is asked by the number of polls so far.
pub record Turn (e : Engine) (Host : Type 0) : Type 0 where
  pub max_new : ℕ
  pub steps : ℕ
  pub limit : ℕ
  pub stop_ids : List ℕ
  pub cuts : List ℕ
  pub choose : Option (Chooser e)
  pub on_accepted : Option (List ℕ → Host → Option Directive × Host)
  pub on_span : Option (ℕ → Option e.Row → e.Target → Host → Host)
  pub cancel : Option (ℕ → Bool)
  pub embed_ids : Option (List ℕ → Option e.Embedded)
  pub inv_freq : Option e.Freq
  pub ngram : Bool
  pub ngram_n : ℕ

pub record World (e : Engine) (Host : Type 0) : Type 0 where
  pub target : e.Target
  pub cycle : DraftCycle e
  pub rng : e.Rng
  pub host : Host
  pub polls : ℕ

-- `[int(choose(row, index)) for index, row in enumerate(rows)]`
unfoldable pub choose_rows : {e : Engine} → Chooser e → List e.Logits → ℕ → e.Rng → List ℕ × e.Rng
choose_rows chooser [] index rng = ([], rng)
choose_rows chooser (row ∷ rows) index rng =
    let (token, rng') = chooser.choose row index rng in
    let (tokens, rng'') = choose_rows chooser rows (index + 1) rng' in (token ∷ tokens, rng'')

module _ {e : Engine} {Host : Type 0} where
  -- a method of `DraftCycle`, called on the turn's cycle
  unfoldable pub on_cycle {ℓ} :
      {A : Type ℓ} → (e.Target → Exec (DraftCycle e) A) → Exec (World e Host) A
  on_cycle m w = ((m w.target w.cycle).0, record w { cycle = (m w.target w.cycle).1 })

  unfoldable pub stop_requested : Option (ℕ → Bool) → Exec (World e Host) Bool
  stop_requested none w = (ok false, w)
  stop_requested (some is_set) w = (ok (is_set w.polls), record w { polls = w.polls + 1 })

  -- `_forward`
  unfoldable pub forward : Turn e Host → List ℕ → ℕ → Exec (World e Host) (Unit {0})
  forward turn ids cache_len w =
      let r = e.forward ids cache_len (rows_for turn.embed_ids ids) turn.inv_freq w.target in
      (r.0, record w { target = r.1 })

  unfoldable pub greedy_samples : ℕ → Exec (World e Host) (List ℕ)
  greedy_samples width w =
      let samples = greedy_row e w.target in
      if length samples == width then (ok samples, w) else (
        raise (
            runtime_error "wrong number of target samples for the window"
              (length samples ∷ width ∷ [])),
        w,
      )

  -- a sampler over the logit rows, after the check of their number
  unfoldable pub sample_rows :
      List e.Logits → ℕ → (List e.Logits → e.Rng → List ℕ × e.Rng) → Exec (World e Host) (List ℕ)
  sample_rows rows width sampler w =
      if length rows == width
      then (ok (sampler rows w.rng).0, record w { rng = (sampler rows w.rng).1 })
      else (
        raise (
            runtime_error "wrong number of target logit rows for the window"
              (length rows ∷ width ∷ [])),
        w,
      )

  -- `_samples` with a chooser: scripted rows first, then the device window, then row by row
  unfoldable pub chosen_samples : Chooser e → ℕ → Exec (World e Host) (List ℕ)
  unfolding choose_rows sample_rows
  chosen_samples chooser width w = elim e.score_logits [
    | some score ↦ sample_rows (score w.target) width (λ rows. choose_rows chooser rows 0) w
    | none ↦ elim chooser.window [
      | some window ↦ sample_rows (e.logits w.target) width window w
      | none ↦ sample_rows (e.logits w.target) width (λ rows. choose_rows chooser rows 0) w
    ]
  ]

  -- `_verify_sampled` where the window has proposals and the chooser can verify, else `_samples`
  unfoldable pub samples : Option (Chooser e) → List ℕ → Exec (World e Host) (List ℕ)
  unfolding greedy_samples chosen_samples sample_rows
  samples none drafted w = greedy_samples (length drafted + 1) w
  samples (some chooser) drafted w = elim chooser.verify [
    | none ↦ chosen_samples chooser (length drafted + 1) w
    | some verify ↦ elim w.cycle.proposals [
      | none ↦ chosen_samples chooser (length drafted + 1) w
      | some proposals ↦
          sample_rows (e.logits w.target) (length drafted + 1)
            (λ rows. verify rows drafted proposals) w
    ]
  ]

  -- `cycle.draft.position != cache_len`
  unfoldable pub check_cursor : ℕ → Exec (World e Host) (Unit {0})
  check_cursor cache_len w = elim w.cycle.draft [
    | none ↦ (ok tt, w)
    | some d ↦ if e.position d == cache_len then (ok tt, w) else (
      raise (
          runtime_error "draft cache diverged from the target cursor"
            (e.position d ∷ cache_len ∷ [])),
      w,
    )
  ]
