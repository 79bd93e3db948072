-- ===== src/Cycle/Window/Verify.antt =====
-- The first half of a window: the drafts, the target's forward and its samples.
use qwarz.Base.{
  ℕ, ◌+◌, ◌≡◌, refl, ap, ◌∙◌, inl, inr, Option, none, some, List, length, arith, Option-cases,
}
use qwarz.Base.Outcome.{Error, ok}
use qwarz.Base.Ends.{EndsAt, Ends, EndsAt-of_eq}
use qwarz.Device.{Engine, Chooser, Laws, rows_for, greedy_row}
use qwarz.Cycle.Draft.Aligned.{draft_position, HasCarry, propose_lem}
use qwarz.Cycle.Suffix.Sound.{length-propose}
use qwarz.Cycle.Turn.{Turn, World, on_cycle, forward, samples}
use qwarz.Cycle.Window.{Progress, draft_sampling, copied_tokens, draft_tokens}
use qwarz.Cycle.Window.Kept.{DraftsAt}

pub length-copied_tokens :
    {e : Engine} {Host : Type 0} (turn : Turn e Host) (p : Progress) (copied : List ℕ)
    → copied_tokens turn p ≡ some copied
    → length copied ≡ turn.steps
unfolding copied_tokens
length-copied_tokens turn p copied h = elim (Option-cases p.suffix) [
  | inl off ↦ absurd (ground arith)
  | inr (suffix, on) ↦ ground (arith, length-propose suffix p.held turn.steps copied)
]

samples-none :
    {e : Engine} {Host : Type 0} (drafted : List ℕ) (w : World e Host)
    → length (greedy_row e w.target) ≡ length drafted + 1
    → samples none drafted w ≡ (ok (greedy_row e w.target), w)
unfolding samples
samples-none drafted w h = ground arith

module _ {e : Engine} {Host : Type 0} (turn : Turn e Host)
    (laws : Laws e turn.embed_ids turn.inv_freq) {E : Error → World e Host → Type 0} where
  pub draft_tokens-Ends :
      (copied : Option (List ℕ)) (held n : ℕ) (w : World e Host)
      → ((tokens : List ℕ) → copied ≡ some tokens → length tokens ≡ turn.steps)
      → HasCarry w.cycle
      → draft_position w.cycle ≡ n
      → Ends
          (λ drafted v.
            (length drafted ≡ turn.steps)
            × (v.target ≡ w.target)
            × HasCarry v.cycle
            × DraftsAt copied v.cycle n turn.steps)
          E
          (draft_tokens turn copied held)
          w
  unfolding draft_tokens on_cycle
  draft_tokens-Ends none held n w size carry at =
      let (drafted, done, long, primed, position, same) =
        propose_lem laws w.target held turn.steps (draft_sampling turn) w.cycle carry in
      EndsAt-of_eq _ _ drafted done
        (long, refl, (carry.0, same ∙ carry.1), (primed ∙ at, omega (arith, position, at)))
  draft_tokens-Ends (some copied) held n w size carry at =
      EndsAt.returned copied _ (size copied refl, refl, carry, at)

  pub forward_target-Ends :
      (ids : List ℕ) (n : ℕ) (w : World e Host)
      → n ≡ length (laws.consumed w.target)
      → Ends
          (λ _ v.
            (v.target ≡ (e.forward ids n (rows_for turn.embed_ids ids) turn.inv_freq w.target).1)
            × (v.cycle ≡ w.cycle)
            × (length (e.hidden v.target) ≡ length ids))
          E
          (forward turn ids n)
          w
  unfolding forward
  forward_target-Ends ids n w h =
      EndsAt-of_eq _ _ tt (laws.forward_ok ids n w.target h)
        (refl, refl, laws.hidden_forward ids n w.target h)

  -- with no chooser the samples are the target's own answers
  pub samples-Ends :
      (choose : Option (Chooser e)) (drafted answers : List ℕ) (w : World e Host)
      → choose ≡ none
      → greedy_row e w.target ≡ answers
      → length answers ≡ length drafted + 1
      → Ends (λ s v. (s ≡ answers) × (v ≡ w)) E (samples choose drafted) w
  samples-Ends none drafted answers w h row size =
      rw (samples-none drafted w (ap length row ∙ size))
        (EndsAt.returned (greedy_row e w.target) w (row, refl))
  samples-Ends (some chooser) drafted answers w h row size = absurd (cc)
