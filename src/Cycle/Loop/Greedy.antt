-- ===== src/Cycle/Loop/Greedy.antt =====
-- The loop of `continue_drafted` (engine/forward/cycle.py) with greedy samples.
use qwarz.Base.{
  ℕ, zero, suc, ◌+◌, ◌-◌, ◌≤◌, ◌<◌, ◌≡◌, refl, ap, sym, ◌∙◌, Bool, true, false, none, some, List,
  [], ◌++◌, length, arith, lt→ltb, le→ltb,
}
use native.Mathlib.Decide.{dec_lt}
use qwarz.Base.Outcome.{Error, cancelled_turn}
use qwarz.Base.Action.{Exec}
use qwarz.Base.Ends.{EndsAt, Ends, EndsAt-resume}
use qwarz.Device.{Engine, Laws, IsGreedyTarget}
use qwarz.Mtp.Greedy.{
  greedy, cut_at_stop, cut_at_stop-nil, cut_at_stop-append, greedy-add_going, greedy-add_stopped,
  greedy_going, length-greedy,
}
use qwarz.Cycle.Turn.{Turn, World}
use qwarz.Cycle.Window.{Progress}
use qwarz.Cycle.Window.Step.{InStep, Stepped, window-Ends}
use qwarz.Cycle.Loop.{after_window, loop}

-- `n` tokens produced, none of them a stop id
pub record Running (next : List ℕ → ℕ) (stops prompt : List ℕ) (max_new n : ℕ) (p : Progress)
    : Type 0 where
  pub produced : p.produced ≡ greedy next [] n prompt
  pub going : (cut_at_stop stops (greedy next [] n prompt)).1 ≡ false
  pub fits : n ≤ max_new

module _ (next : List ℕ → ℕ) (stops prompt : List ℕ) where
  -- a run of `n` tokens and `k` more is a run of `n + k`
  greedy_split :
      (n k : ℕ)
      → greedy next [] (n + k) prompt
        ≡ greedy next [] n prompt ++ greedy next [] k (prompt ++ greedy next [] n prompt)
  greedy_split n k = greedy-add_going next [] n k (n + k) prompt refl (cut_at_stop-nil _)

  stops_split :
      (n k : ℕ)
      → (cut_at_stop stops (greedy next [] n prompt)).1 ≡ false
      → (cut_at_stop stops (greedy next [] (n + k) prompt)).1
        ≡ (cut_at_stop stops (greedy next [] k (prompt ++ greedy next [] n prompt))).1
  stops_split n k going =
      ap (λ l. (cut_at_stop stops l).1) (greedy_split n k)
      ∙ cut_at_stop-append stops (greedy next [] n prompt) _ going

  -- what is produced so far and a stopped run behind it make a stopped run
  pub greedy_extend :
      (max_new n k : ℕ) (p : Progress)
      → Running next stops prompt max_new n p
      → p.produced ++ greedy next stops k (prompt ++ p.produced) ≡ greedy next stops (n + k) prompt
  greedy_extend max_new n k p h =
      ap (λ l. l ++ greedy next stops k (prompt ++ l)) h.produced
      ∙ sym (greedy-add_going next stops n k (n + k) prompt refl h.going)

  -- the flag of the next `k` tokens is the flag of the whole run
  pub stops_extend :
      (max_new n k : ℕ) (p : Progress)
      → Running next stops prompt max_new n p
      → (cut_at_stop stops (greedy next [] (n + k) prompt)).1
        ≡ (cut_at_stop stops (greedy next [] k (prompt ++ p.produced))).1
  stops_extend max_new n k p h =
      stops_split n k h.going
      ∙ ap (λ l. (cut_at_stop stops (greedy next [] k (prompt ++ l))).1) (sym h.produced)

module _ {e : Engine} {Host : Type 0} (turn : Turn e Host)
    (laws : Laws e turn.embed_ids turn.inv_freq) (next : List ℕ → ℕ) (prompt : List ℕ) where
  -- the tokens of the turn are greedy decoding's, and both caches hold all of them but the last
  pub record Decoded (q : Progress) (w : World e Host) : Type 0 where
    pub produced : q.produced ≡ greedy next turn.stop_ids turn.max_new prompt
    pub prefix : List ℕ
    pub in_step : InStep turn laws prompt prefix q w

  -- a budget that is used up
  Decoded-full :
      (n : ℕ) (prefix : List ℕ) (p : Progress) (w : World e Host)
      → turn.max_new ≤ n
      → Running next turn.stop_ids prompt turn.max_new n p
      → InStep turn laws prompt prefix p w
      → Decoded p w
  Decoded-full n prefix p w full h step =
      let same : n ≡ turn.max_new = omega (arith, h.fits) in
      record {
        produced =
            h.produced
            ∙ sym (greedy_going next turn.stop_ids n prompt h.going)
            ∙ ap (λ m. greedy next turn.stop_ids m prompt) same;
        prefix = prefix;
        in_step = step;
      }

  -- a window that met a stop id
  Decoded-stopped :
      (n : ℕ) (p : Progress) (r : Progress × Bool) (w : World e Host)
      → Running next turn.stop_ids prompt turn.max_new n p
      → (h1 : Stepped turn laws next prompt p r w) → n + h1.k ≤ turn.max_new
      → r.1 ≡ true
      → Decoded r.0 w
  Decoded-stopped n p r w h h1 fits stopped = record {
    produced =
        h1.produced
        ∙ greedy_extend next turn.stop_ids prompt turn.max_new n h1.k p h
        ∙ sym (
            greedy-add_stopped next turn.stop_ids (n + h1.k) (turn.max_new - (n + h1.k))
              turn.max_new prompt (omega arith)
              (stops_extend next turn.stop_ids prompt turn.max_new n h1.k p h
                ∙ sym h1.leaves
                ∙ stopped));
    prefix = h1.prefix;
    in_step = h1.in_step;
  }

  -- a window that met none
  Running-on :
      (n : ℕ) (p : Progress) (r : Progress × Bool) (w : World e Host)
      → Running next turn.stop_ids prompt turn.max_new n p
      → (h1 : Stepped turn laws next prompt p r w) → n + h1.k ≤ turn.max_new
      → r.1 ≡ false
      → Running next turn.stop_ids prompt turn.max_new (n + h1.k) r.0
  Running-on n p r w h h1 fits unstopped =
      let going =
        stops_extend next turn.stop_ids prompt turn.max_new n h1.k p h
        ∙ sym h1.leaves
        ∙ unstopped in
      record {
        produced =
            h1.produced
            ∙ greedy_extend next turn.stop_ids prompt turn.max_new n h1.k p h
            ∙ greedy_going next turn.stop_ids (n + h1.k) prompt going;
        going = going;
        fits = fits;
      }

  after_window-Ends :
      {E : Error → World e Host → Type 0} (again : Progress → Exec (World e Host) Progress) (n : ℕ)
      (p : Progress) (r : Progress × Bool) (w : World e Host)
      → Running next turn.stop_ids prompt turn.max_new n p
      → (h1 : Stepped turn laws next prompt p r w) → n + h1.k ≤ turn.max_new
      → (Running next turn.stop_ids prompt turn.max_new (n + h1.k) r.0
          → Ends Decoded E (again r.0) w)
      → Ends Decoded E (after_window turn again r) w
  after_window-Ends again n p (q, true) w h h1 fits rest =
      EndsAt.returned q w (Decoded-stopped n p (q, true) w h h1 fits refl)
  after_window-Ends again n p (q, false) w h h1 fits rest =
      rest (Running-on n p (q, false) w h h1 fits refl)

  module _ {E : Error → World e Host → Type 0} where
    pub loop-Ends :
        (fuel n : ℕ) (prefix : List ℕ) (p : Progress) (w : World e Host)
        → turn.choose ≡ none
        → turn.on_accepted ≡ none
        → 0 < turn.steps
        → turn.steps ≤ turn.limit
        → IsGreedyTarget e turn.embed_ids turn.inv_freq laws next
        → turn.max_new ≤ n + fuel
        → Running next turn.stop_ids prompt turn.max_new n p
        → InStep turn laws prompt prefix p w
        → ((j : ℕ) (is_set : ℕ → Bool) (v : World e Host)
            → turn.cancel ≡ some is_set
            → E (cancelled_turn (greedy next turn.stop_ids j prompt)) v)
        → Ends Decoded E (loop turn fuel p) w
    unfolding loop
    loop-Ends zero n prefix p w no_chooser no_hook some_step few target enough h step cancel_ok =
        let size : length p.produced ≡ n = ap length h.produced ∙ length-greedy next n prompt in
        rw (le→ltb (length p.produced) turn.max_new (omega arith))
          (EndsAt.returned p w (Decoded-full n prefix p w (omega arith) h step))
    loop-Ends (suc fuel) n prefix p w no_chooser no_hook some_step few target enough h step
          cancel_ok =
        let size : length p.produced ≡ n = ap length h.produced ∙ length-greedy next n prompt in
        elim (dec_lt (length p.produced) turn.max_new) [
          | no over ↦
              rw (le→ltb (length p.produced) turn.max_new (omega arith))
                (EndsAt.returned p w (Decoded-full n prefix p w (omega arith) h step))
          | yes more ↦ rw (lt→ltb (length p.produced) turn.max_new more) (
              EndsAt-resume
                (window-Ends turn laws next prompt prefix p w no_chooser no_hook some_step few
                  target more step
                  λ j is_set v has.
                    rw (greedy_extend next turn.stop_ids prompt turn.max_new n j p h)
                      (cancel_ok (n + j) is_set v has))
                λ r w1 h1.
                  let fits : n + h1.k ≤ turn.max_new = omega (arith, h1.fits, size, more) in
                  after_window-Ends (loop turn fuel) n p r w1 h h1 fits λ h2.
                    loop-Ends fuel (n + h1.k) h1.prefix r.0 w1 no_chooser no_hook some_step few
                      target (omega (arith, h1.some_step)) h2 h1.in_step cancel_ok)
        ]
