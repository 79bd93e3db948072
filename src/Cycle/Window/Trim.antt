-- ===== src/Cycle/Window/Trim.antt =====
-- What is left of a greedy window after the budget and the stop ids.
use qwarz.Base.{
  ℕ, suc, ◌+◌, ◌-◌, ◌≤◌, ◌<◌, ◌≡◌, refl, ap, sym, ◌∙◌, List, [], length, take, init_list, arith,
  init_list-take, take-take, lt→ltb, le→ltb,
}
use native.Mathlib.Decide.{dec_lt}
use qwarz.Mtp.{matching}
use qwarz.Mtp.Accept.{take-greedy-draft}
use qwarz.Mtp.Greedy.{
  greedy, scores, cut_at_stop, cut_at_stop-greedy, take-greedy, length-greedy, greedy_pos,
  greedy_going, greedy-eq-take, length-greedy-le,
}
use qwarz.Cycle.Window.{Emitted, fit_budget, fit_stop, trim}

-- The kept tokens are `k` steps of greedy decoding, at most the budget and the window; all but the
-- last are drafts.
pub record IsGreedyCut (next : List ℕ → ℕ) (context drafted stops : List ℕ) (room k : ℕ)
    (emitted : Emitted) : Type 0 where
  pub some_room : 0 < k
  pub fits : k ≤ room
  pub window : k ≤ suc (matching drafted (scores next context drafted))
  pub tokens : emitted.tokens ≡ greedy next stops k context
  pub stopped : emitted.stopped ≡ (cut_at_stop stops (greedy next [] k context)).1
  pub matched : emitted.matched + 1 ≡ length emitted.tokens
  pub drafts : emitted.matched ≤ matching drafted (scores next context drafted)

module _ (next : List ℕ → ℕ) (context drafted stops : List ℕ) where
  fit_stop-greedy :
      (k : ℕ)
      → 0 < k
      → fit_stop stops (greedy next [] k context) (k - 1) ≡ record {
        tokens = greedy next stops k context;
        matched = length (greedy next stops k context) - 1;
        stopped = (cut_at_stop stops (greedy next [] k context)).1;
      }
  unfolding fit_stop
  fit_stop-greedy k h = ground (
    arith,
    cut_at_stop-greedy next stops k context,
    greedy_going next stops k context,
    length-greedy next k context,
  )

  fit_budget-greedy :
      (room m : ℕ)
      → 0 < room
      → (k : ℕ) × (0 < k)
        × (k ≤ room)
        × (k ≤ suc m)
        × (fit_budget room (greedy next [] (suc m) context) m ≡ (greedy next [] k context, k - 1))
  unfolding fit_budget
  fit_budget-greedy room m h = elim (dec_lt room (suc m)) [
    | yes long ↦ (
      room,
      h,
      omega arith,
      omega arith,
      rw
          (
            length-greedy next (suc m) context,
            lt→ltb room (suc m) long,
            take-greedy next room (suc m) context (omega arith),
            length-greedy next room context,
          )
          refl,
    )
    | no short ↦ (
      suc m,
      omega arith,
      omega arith,
      omega arith,
      rw (length-greedy next (suc m) context, le→ltb room (suc m) (omega arith))
          (ap (λ (n : ℕ). (greedy next [] (suc m) context, n)) (omega arith)),
    )
  ]

  -- With room for a token, the tokens emitted by a greedy window, cut to the budget and then at the
  -- first stop id, are some steps of greedy decoding that fit the room and stop at the first stop
  -- id; the match count is one less than the tokens and counts matching drafts only.
  pub trim-IsGreedyCut :
      (room m : ℕ)
      → 0 < room
      → m ≡ matching drafted (scores next context drafted)
      → (k : ℕ) × IsGreedyCut next context drafted stops room k
          (trim room stops (greedy next [] (suc m) context) m)
  unfolding trim
  trim-IsGreedyCut room m h e =
      let (k, some_room, fits, short, budget) = fit_budget-greedy room m h in
      (
        k,
        rw (budget, fit_stop-greedy k some_room)
            (record {
              some_room = some_room;
              fits = fits;
              window = omega arith;
              tokens = refl;
              stopped = refl;
              matched = omega (arith, greedy_pos next stops k context some_room);
              drafts = omega (arith, length-greedy-le next stops k context);
            }),
      )

  -- all kept tokens but the last are the draft's own
  pub init_list-IsGreedyCut :
      (room k : ℕ) (emitted : Emitted)
      → IsGreedyCut next context drafted stops room k emitted
      → init_list emitted.tokens ≡ take emitted.matched drafted
  init_list-IsGreedyCut room k emitted cut =
      let m = matching drafted (scores next context drafted) in
      let j = emitted.matched in
      let size : length (greedy next stops k context) ≡ suc j =
        omega (arith, cut.matched, ap length cut.tokens) in
      let whole : emitted.tokens ≡ take (suc j) (greedy next [] (suc m) context) =
        cut.tokens
        ∙ greedy-eq-take next stops k context
        ∙ ap (λ l. take (length (greedy next stops k context)) l)
            (sym (take-greedy next k (suc m) context cut.window))
        ∙ take-take (length (greedy next stops k context)) k (greedy next [] (suc m) context)
            (length-greedy-le next stops k context)
        ∙ ap (λ n. take n (greedy next [] (suc m) context)) size in
      rw whole (
        init_list-take j (greedy next [] (suc m) context)
          (omega (arith, length-greedy next (suc m) context, cut.drafts))
        ∙ take-greedy-draft next context drafted j cut.drafts)
