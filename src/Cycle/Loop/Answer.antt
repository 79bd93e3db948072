-- ===== src/Cycle/Loop/Answer.antt =====
-- `continue_drafted` from its first span to the tokens that it returns.
use qwarz.Base.{
  ℕ, ◌+◌, ◌≤◌, ◌<◌, ◌≡◌, refl, ap, sym, subst, ◌∙◌, inl, inr, Bool, none, some, List, [], ◌∷◌, ◌++◌,
  length, take, arith, Bool-cases, append-nil, le→ltb, take_of_length-le, length-take_of_le,
}
use qwarz.Base.Outcome.{Error, ok, cancelled_turn}
use qwarz.Base.Ends.{EndsAt, Ends, EndsAt-resume, ok_of_EndsAt}
use qwarz.Device.{Engine, Laws, IsGreedyTarget}
use qwarz.Mtp.Greedy.{greedy, cut_at_stop, length-greedy-le}
use qwarz.Cycle.Draft.Aligned.{draft_position, HasCarry}
use qwarz.Cycle.Turn.{Turn, World}
use qwarz.Cycle.Resident.{Resident}
use qwarz.Cycle.Prefill.Held.{prefill_held-Ends}
use qwarz.Cycle.Window.{Progress}
use qwarz.Cycle.Window.Publish.{stop_requested-Ends}
use qwarz.Cycle.Loop.{finish, start_suffix, continue_drafted}
use qwarz.Cycle.Loop.Greedy.{Decoded, loop-Ends}

module _ {e : Engine} {Host : Type 0} (turn : Turn e Host)
    (laws : Laws e turn.embed_ids turn.inv_freq) (next : List ℕ → ℕ) (prompt : List ℕ) where
  -- what a turn that is not cancelled returns and leaves behind
  pub record Answered (tokens : List ℕ) (w : World e Host) : Type 0 where
    pub tokens_greedy : tokens ≡ greedy next turn.stop_ids turn.max_new prompt
    pub cycle_tokens : w.cycle.tokens ≡ tokens
    pub prefix : List ℕ
    pub held : ℕ
    pub whole : prefix ++ held ∷ [] ≡ prompt ++ tokens
    pub cache_len : w.cycle.cache_len ≡ length prefix
    pub resident : Resident turn laws prefix w
    pub carry : HasCarry w.cycle

  -- the only error: a cancellation that was given, with a run of greedy decoding
  abbrev pub Cancelled : Error → World e Host → Type 0
  Cancelled err w =
      (j : ℕ) × (is_set : ℕ → Bool) × (turn.cancel ≡ some is_set)
      × (err ≡ cancelled_turn (greedy next turn.stop_ids j prompt))

  finish-Ends :
      (p : Progress) (w : World e Host)
      → Decoded turn laws next prompt p w
      → Ends Answered Cancelled (finish turn p) w
  unfolding finish
  finish-Ends p w d =
      let short : length p.produced ≤ turn.max_new =
        omega
          (arith, ap length d.produced, length-greedy-le next turn.stop_ids turn.max_new prompt) in
      EndsAt-resume (stop_requested-Ends turn.cancel w) λ cancelled w1 h1.
        elim (Bool-cases cancelled) [
          | inl seen ↦
              let (is_set, has) = h1.2 seen in
              rw seen (EndsAt.raised _ w1 (turn.max_new, is_set, has, ap cancelled_turn d.produced))
          | inr unseen ↦
              rw
                (
                  unseen,
                  le→ltb turn.max_new (length p.produced) short,
                  take_of_length-le turn.max_new p.produced short,
                )
                (EndsAt.returned p.produced _ (record {
                  tokens_greedy = d.produced;
                  cycle_tokens = refl;
                  prefix = d.prefix;
                  held = p.held;
                  whole = d.in_step.tokens;
                  cache_len = d.in_step.cache_len;
                  resident = record {
                    consumed = ap laws.consumed h1.0 ∙ d.in_step.resident.consumed;
                    position = ap draft_position h1.1 ∙ d.in_step.resident.position;
                  };
                  carry = subst HasCarry (sym h1.1) d.in_step.carry;
                }))
        ]

  -- A turn of `continue_drafted` with greedy samples, no hook on accepted tokens, 1 to `limit` drafts
  -- a window, a prompt of two ids or more, the ids before `start` resident and a carried row if only
  -- the last id is left either returns greedy decoding's tokens, or raises the cancellation that was
  -- given, with a run of greedy decoding; nothing else is raised and the fuel of the loop is enough.
  pub continue_drafted-Ends :
      (start : ℕ) (w : World e Host)
      → turn.choose ≡ none
      → turn.on_accepted ≡ none
      → 0 < turn.steps
      → turn.steps ≤ turn.limit
      → IsGreedyTarget e turn.embed_ids turn.inv_freq laws next
      → 2 ≤ length prompt
      → start < length prompt
      → Resident turn laws (take start prompt) w
      → (start + 1 ≡ length prompt → HasCarry w.cycle)
      → Ends Answered Cancelled (continue_drafted turn prompt start) w
  unfolding continue_drafted greedy cut_at_stop
  continue_drafted-Ends start w no_chooser no_hook some_step few target long inside r carry =
      EndsAt-resume (prefill_held-Ends turn laws prompt start w long inside r carry) λ got w1 h1.
        EndsAt-resume
          (loop-Ends turn laws next prompt turn.max_new 0 (take got.0 prompt)
            (record {
              cache_len = got.0;
              held = got.1;
              produced = [];
              suffix = start_suffix turn (take got.0 prompt);
            })
            w1 no_chooser no_hook some_step few target (omega arith)
            (record { produced = refl; going = refl; fits = omega arith })
            (record {
              tokens = h1.0 ∙ sym (append-nil prompt);
              cache_len = sym (length-take_of_le got.0 prompt (omega (arith, h1.1)));
              resident = h1.2.0;
              carry = h1.2.1;
            })
            λ j is_set v has. (j, is_set, has, refl))
          λ p w2 h2. finish-Ends p w2 h2

  -- Without a cancel event, a turn with greedy samples, no hook on accepted tokens, 1 to `limit`
  -- drafts a window, a prompt of two ids or more, the ids before `start` resident and a carried row
  -- if only the last id is left returns exactly the tokens of greedy decoding up to the budget or
  -- the first stop id, and leaves both caches holding every token but the last.
  pub continue_drafted-greedy :
      (start : ℕ) (w : World e Host)
      → turn.cancel ≡ none
      → turn.choose ≡ none
      → turn.on_accepted ≡ none
      → 0 < turn.steps
      → turn.steps ≤ turn.limit
      → IsGreedyTarget e turn.embed_ids turn.inv_freq laws next
      → 2 ≤ length prompt
      → start < length prompt
      → Resident turn laws (take start prompt) w
      → (start + 1 ≡ length prompt → HasCarry w.cycle)
      → ((continue_drafted turn prompt start w).0
          ≡ ok (greedy next turn.stop_ids turn.max_new prompt))
        × Answered
            (greedy next turn.stop_ids turn.max_new prompt)
            (continue_drafted turn prompt start w).1
  continue_drafted-greedy start w no_cancel no_chooser no_hook some_step few target long inside r
        carry =
      let (tokens, returns, a) =
        ok_of_EndsAt _ _
          (continue_drafted-Ends start w no_chooser no_hook some_step few target long inside r
            carry)
          (λ err h. let absent : none ≡ some h.1 = sym no_cancel ∙ h.2 in absurd (cc)) in
      (
        returns ∙ ap ok a.tokens_greedy,
        subst (λ l. Answered l (continue_drafted turn prompt start w).1) a.tokens_greedy a,
      )
