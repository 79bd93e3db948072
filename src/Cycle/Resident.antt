-- ===== src/Cycle/Resident.antt =====
-- What holds of the two caches between the steps of a turn: the target has consumed exactly a known
-- prefix of the tokens, and the draft's cursor stands at its end.
use qwarz.Base.{ℕ, ◌<◌, ◌≡◌, refl, ap, ◌∙◌, List, ◌++◌, length, arith, length-append}
use qwarz.Base.Outcome.{Error, ok}
use qwarz.Base.Ends.{Ends, EndsAt-of_eq}
use qwarz.Device.{Engine, Laws}
use qwarz.Cycle.Draft.{absorb_prefill}
use qwarz.Cycle.Draft.Aligned.{draft_position, HasCarry, absorb_prefill_lem}
use qwarz.Cycle.Turn.{Turn, World, on_cycle, forward, check_cursor}

abbrev pub Never : {S : Type 0} → Error → S → Type 0
Never err s = ⊥

pub record Resident {e : Engine} {Host : Type 0} (turn : Turn e Host)
    (laws : Laws e turn.embed_ids turn.inv_freq) (ids : List ℕ) (w : World e Host) : Type 0 where
  pub consumed : laws.consumed w.target ≡ ids
  pub position : draft_position w.cycle ≡ length ids

-- a forward has appended `ids` to the target and left the draft alone
pub record Forwarded {e : Engine} {Host : Type 0} (turn : Turn e Host)
    (laws : Laws e turn.embed_ids turn.inv_freq) (w : World e Host) (ids : List ℕ)
    (w' : World e Host) : Type 0 where
  pub appended : laws.consumed w'.target ≡ laws.consumed w.target ++ ids
  pub rows : length (e.hidden w'.target) ≡ length ids
  pub cycle : w'.cycle ≡ w.cycle

pub check_cursor_aligned :
    {e : Engine} {Host : Type 0} (n : ℕ) (w : World e Host)
    → draft_position w.cycle ≡ n
    → check_cursor n w ≡ (ok tt, w)
unfolding check_cursor
check_cursor_aligned n w h = ground arith

module _ {e : Engine} {Host : Type 0} (turn : Turn e Host)
    (laws : Laws e turn.embed_ids turn.inv_freq) {E : Error → World e Host → Type 0} where
  pub forward-Ends :
      (ids : List ℕ) (n : ℕ) (w : World e Host)
      → n ≡ length (laws.consumed w.target)
      → Ends (λ _. Forwarded turn laws w ids) E (forward turn ids n) w
  unfolding forward
  forward-Ends ids n w h = EndsAt-of_eq _ _ tt (laws.forward_ok ids n w.target h) (record {
    appended = laws.consumed_forward ids n w.target h;
    rows = laws.hidden_forward ids n w.target h;
    cycle = refl;
  })

  -- the target and the draft take in the same ids
  pub absorb-Ends :
      (before ids : List ℕ) (w w' : World e Host)
      → 0 < length ids
      → Resident turn laws before w
      → Forwarded turn laws w ids w'
      → Ends
          (λ _ v. Resident turn laws (before ++ ids) v × HasCarry v.cycle)
          E
          (λ v. on_cycle (λ t. absorb_prefill e t ids (e.hidden v.target)) v)
          w'
  unfolding on_cycle
  absorb-Ends before ids w w' some_ids r f =
      let facts =
        absorb_prefill_lem laws w'.target ids (e.hidden w'.target) w'.cycle
          (omega (arith, f.rows)) in
      EndsAt-of_eq _ _ tt facts.0 (
        record {
          consumed = f.appended ∙ ap (λ l. l ++ ids) r.consumed;
          position =
              omega
                (arith, facts.1, ap draft_position f.cycle, r.position, length-append before ids);
        },
        facts.2,
      )
