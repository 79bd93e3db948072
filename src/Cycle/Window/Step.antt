-- ===== src/Cycle/Window/Step.antt =====
-- One whole window of a greedy turn.
use qwarz.Base.{
  ℕ, suc, ◌-◌, ◌≤◌, ◌<◌, ◌≡◌, refl, ap, sym, subst, ◌∙◌, inl, inr, Bool, false, Option, none, some,
  List, [], ◌∷◌, ◌++◌, length, init_list, last_or, arith, append-nil, append_assoc, Bool-cases,
  init_list-append-last, ◌==◌,
}
use qwarz.Base.Outcome.{Error, ok, cancelled_turn}
use qwarz.Base.Ends.{EndsAt, Ends, EndsAt-resume, EndsAt-mono}
use qwarz.Device.{Engine, Laws, IsGreedyTarget, greedy_row, rows_for}
use qwarz.Mtp.{matching, emitted_tokens}
use qwarz.Mtp.Accept.{emitted_tokens-take, take-scores, matching-le}
use qwarz.Mtp.Greedy.{greedy, scores, cut_at_stop, length-scores}
use qwarz.Cycle.Draft.Aligned.{draft_position, HasCarry}
use qwarz.Cycle.Turn.{Turn, World}
use qwarz.Cycle.Resident.{Resident}
use qwarz.Cycle.Window.{
  Progress, Emitted, copied_tokens, trim, settle_window, verify_window, window,
}
use qwarz.Cycle.Window.Trim.{IsGreedyCut, trim-IsGreedyCut, init_list-IsGreedyCut}
use qwarz.Cycle.Window.Kept.{Verified, DraftsAt}
use qwarz.Cycle.Window.Publish.{stop_requested-Ends, keep_window-Ends}
use qwarz.Cycle.Window.Verify.{
  length-copied_tokens, draft_tokens-Ends, forward_target-Ends, samples-Ends,
}

module _ {e : Engine} {Host : Type 0} (turn : Turn e Host)
    (laws : Laws e turn.embed_ids turn.inv_freq) where
  -- Between two windows: both caches hold all tokens of the turn but the held one.
  pub record InStep (prompt prefix : List ℕ) (p : Progress) (w : World e Host) : Type 0 where
    pub tokens : prefix ++ p.held ∷ [] ≡ prompt ++ p.produced
    pub cache_len : p.cache_len ≡ length prefix
    pub resident : Resident turn laws prefix w
    pub carry : HasCarry w.cycle

  -- What a window adds: `k` steps of greedy decoding, up to a stop id.
  pub record Stepped (next : List ℕ → ℕ) (prompt : List ℕ) (p : Progress) (r : Progress × Bool)
      (w : World e Host) : Type 0 where
    pub k : ℕ
    pub some_step : 0 < k
    pub fits : k ≤ turn.max_new - length p.produced
    pub produced : r.0.produced ≡ p.produced ++ greedy next turn.stop_ids k (prompt ++ p.produced)
    pub leaves : r.1 ≡ (cut_at_stop turn.stop_ids (greedy next [] k (prompt ++ p.produced))).1
    pub prefix : List ℕ
    pub in_step : InStep prompt prefix r.0 w

  module _ (next : List ℕ → ℕ) (prompt : List ℕ) {E : Error → World e Host → Type 0} where
    settle_window-Ends :
        (t : e.Target) (prefix drafted : List ℕ) (copied : Option (List ℕ)) (emitted : Emitted)
        (k : ℕ) (rows : List e.Row) (p : Progress) (w : World e Host)
        → turn.on_accepted ≡ none
        → Verified turn laws t prefix p.held drafted copied w
        → p.cache_len ≡ length prefix
        → prefix ++ p.held ∷ [] ≡ prompt ++ p.produced
        → length rows ≡ suc (length drafted)
        → 0 < length drafted
        → IsGreedyCut next
            (prompt ++ p.produced)
            drafted
            turn.stop_ids
            (turn.max_new - length p.produced)
            k
            emitted
        → ((j : ℕ) (is_set : ℕ → Bool) (v : World e Host)
            → turn.cancel ≡ some is_set
            → E
                (cancelled_turn (p.produced ++ greedy next turn.stop_ids j (prompt ++ p.produced)))
                v)
        → Ends
            (Stepped next prompt p)
            E
            (settle_window turn (e.capture t) rows copied drafted emitted p)
            w
    unfolding settle_window
    settle_window-Ends t prefix drafted copied emitted k rows p w no_hook v at whole wide some_draft
          cut cancel_ok =
        let context = prompt ++ p.produced in
        let test : length emitted.tokens == 0 ≡ false = ground (arith, cut.matched) in
        rw test (
          EndsAt-mono _ _
            (keep_window-Ends turn laws t prefix drafted copied emitted rows p w no_hook v at wide
              some_draft cut.matched
              (omega (arith, cut.drafts, matching-le drafted (scores next context drafted)))
              (init_list-IsGreedyCut next context drafted turn.stop_ids
                (turn.max_new - length p.produced) k emitted cut)
              (λ is_set u has. rw cut.tokens (cancel_ok k is_set u has)))
            λ r done. record {
              k = k;
              some_step = cut.some_room;
              fits = cut.fits;
              produced = done.produced ∙ ap (λ l. p.produced ++ l) cut.tokens;
              leaves = done.leaves ∙ cut.stopped;
              prefix = prefix ++ p.held ∷ init_list emitted.tokens;
              in_step = record {
                tokens =
                    ap (λ h. (prefix ++ p.held ∷ init_list emitted.tokens) ++ h ∷ []) done.held
                    ∙ append_assoc prefix (p.held ∷ init_list emitted.tokens)
                        (last_or p.held emitted.tokens ∷ [])
                    ∙ ap (λ l. prefix ++ p.held ∷ l)
                        (init_list-append-last p.held emitted.tokens (omega (arith, cut.matched)))
                    ∙ sym (append_assoc prefix (p.held ∷ []) emitted.tokens)
                    ∙ ap (λ l. l ++ emitted.tokens) whole
                    ∙ append_assoc prompt p.produced emitted.tokens
                    ∙ ap (λ l. prompt ++ l) (sym done.produced);
                cache_len = done.cache_len;
                resident = done.resident;
                carry = done.carry;
              };
            })

    verify-Ends :
        (prefix : List ℕ) (p : Progress) (drafted : List ℕ) (w0 w : World e Host)
        → turn.choose ≡ none
        → turn.on_accepted ≡ none
        → 0 < turn.steps
        → turn.steps ≤ turn.limit
        → IsGreedyTarget e turn.embed_ids turn.inv_freq laws next
        → length p.produced < turn.max_new
        → InStep prompt prefix p w0
        → laws.consumed w.target ≡ prefix
        → length drafted ≡ turn.steps
        → HasCarry w.cycle
        → DraftsAt (copied_tokens turn p) w.cycle (length prefix) turn.steps
        → ((j : ℕ) (is_set : ℕ → Bool) (v : World e Host)
            → turn.cancel ≡ some is_set
            → E
                (cancelled_turn (p.produced ++ greedy next turn.stop_ids j (prompt ++ p.produced)))
                v)
        → Ends (Stepped next prompt p) E (verify_window turn p drafted) w
    unfolding verify_window
    verify-Ends prefix p drafted w0 w no_chooser no_hook some_step few target more h at size carry
          drafts cancel_ok =
        let context = prompt ++ p.produced in
        let m = matching drafted (scores next context drafted) in
        let here : p.cache_len ≡ length (laws.consumed w.target) =
          h.cache_len ∙ ap length (sym at) in
        let emitted_eq : emitted_tokens turn.limit drafted (scores next context drafted)
            ≡ ok (greedy next [] (suc m) context, m) =
          emitted_tokens-take turn.limit drafted (scores next context drafted) (omega arith)
            (omega arith) (length-scores next context drafted)
          ∙ ap (λ (l : List ℕ). ok (l, m)) (take-scores next context drafted) in
        let (k, cut) =
          trim-IsGreedyCut next context drafted turn.stop_ids (turn.max_new - length p.produced) m
            (omega arith) refl in
        EndsAt-resume (forward_target-Ends turn laws (p.held ∷ drafted) p.cache_len w here)
          λ _ w3 h3.
            EndsAt-resume
              (samples-Ends turn laws turn.choose drafted (scores next context drafted) w3
                no_chooser
                (ap (greedy_row e) h3.0
                  ∙ target p.held drafted p.cache_len w.target here
                  ∙ ap (λ l. scores next l drafted) (ap (λ l. l ++ p.held ∷ []) at ∙ h.tokens))
                (length-scores next context drafted))
              λ sampled w4 h4.
                rw (h4.0, emitted_eq, h4.1)
                  (settle_window-Ends w.target prefix drafted (copied_tokens turn p)
                    (trim (turn.max_new - length p.produced) turn.stop_ids
                      (greedy next [] (suc m) context) m)
                    k (e.hidden w3.target) p w3 no_hook
                    (record {
                      before = at;
                      target =
                          subst
                            (λ n.
                              w3.target
                              ≡ (e.forward (p.held ∷ drafted) n
                                  (rows_for turn.embed_ids (p.held ∷ drafted)) turn.inv_freq
                                  w.target).1)
                            h.cache_len h3.0;
                      carry = subst HasCarry (sym h3.1) carry;
                      drafts =
                          subst
                            (λ c.
                              DraftsAt (copied_tokens turn p) c (length prefix) (length drafted))
                            (sym h3.1)
                            (subst (λ n. DraftsAt (copied_tokens turn p) w.cycle (length prefix) n)
                              (sym size) drafts);
                    })
                    h.cache_len h.tokens h3.2 (omega arith) cut cancel_ok)

    -- With greedy samples, no hook on accepted tokens, 1 to `limit` drafts, room for a token and both
    -- caches one token behind, a window raises nothing but the cancellation that was given, with a
    -- run of greedy decoding; else it adds one or more steps of greedy decoding up to a stop id,
    -- whatever was drafted, and leaves both caches one token behind again.
    pub window-Ends :
        (prefix : List ℕ) (p : Progress) (w : World e Host)
        → turn.choose ≡ none
        → turn.on_accepted ≡ none
        → 0 < turn.steps
        → turn.steps ≤ turn.limit
        → IsGreedyTarget e turn.embed_ids turn.inv_freq laws next
        → length p.produced < turn.max_new
        → InStep prompt prefix p w
        → ((j : ℕ) (is_set : ℕ → Bool) (v : World e Host)
            → turn.cancel ≡ some is_set
            → E
                (cancelled_turn (p.produced ++ greedy next turn.stop_ids j (prompt ++ p.produced)))
                v)
        → Ends (Stepped next prompt p) E (window turn p) w
    unfolding window greedy
    window-Ends prefix p w no_chooser no_hook some_step few target more h cancel_ok =
        let context = prompt ++ p.produced in
        let copied = copied_tokens turn p in
        EndsAt-resume (stop_requested-Ends turn.cancel w) λ cancelled w1 h1.
          elim (Bool-cases cancelled) [
            | inl seen ↦
                let (is_set, has) = h1.2 seen in
                rw seen (
                  EndsAt.raised _ w1 (
                    subst (λ l. E (cancelled_turn l) w1) (append-nil p.produced)
                      (cancel_ok 0 is_set w1 has)))
            | inr unseen ↦ rw unseen (
                EndsAt-resume
                  (draft_tokens-Ends turn laws copied p.held (length prefix) w1
                    (length-copied_tokens turn p) (subst HasCarry (sym h1.1) h.carry)
                    (ap draft_position h1.1 ∙ h.resident.position))
                  λ drafted w2 h2.
                    verify-Ends prefix p drafted w w2 no_chooser no_hook some_step few target more h
                      (ap laws.consumed (h2.1 ∙ h1.0) ∙ h.resident.consumed) h2.0 h2.2 h2.3
                      cancel_ok)
          ]
