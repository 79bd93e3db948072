-- ===== src/Cycle/Window/Publish.antt =====
-- A window that is kept: the caches, the locals of the loop and what is raised on cancellation.
use qwarz.Base.{
  ℕ, suc, ◌+◌, ◌≤◌, ◌<◌, ◌≡◌, refl, ap, sym, subst, ◌∙◌, inl, inr, Bool, true, false, Option, none,
  some, List, ◌∷◌, ◌++◌, length, take, init_list, last_or, arith, length-append, length-init_list,
  Bool-cases,
}
use qwarz.Base.Outcome.{Error, cancelled_turn}
use qwarz.Base.Ends.{EndsAt, Ends, EndsAt-resume}
use qwarz.Device.{Engine, Laws}
use qwarz.Cycle.Draft.Aligned.{draft_position, HasCarry}
use qwarz.Cycle.Turn.{Turn, World, Directive, stop_requested}
use qwarz.Cycle.Resident.{Resident, check_cursor_aligned}
use qwarz.Cycle.Window.{
  Progress, Emitted, accepted_directive, count_window, follow_directive, leaves, keep_window,
}
use qwarz.Cycle.Window.Kept.{Verified, rewrite_prefix-Ends, repair_window-Ends}

module _ {e : Engine} {Host : Type 0} {E : Error → World e Host → Type 0} where
  -- only a cancellation that was given can be seen
  pub stop_requested-Ends :
      (cancel : Option (ℕ → Bool)) (w : World e Host)
      → Ends
          (λ b v.
            (v.target ≡ w.target)
            × (v.cycle ≡ w.cycle)
            × (b ≡ true → (is_set : ℕ → Bool) × (cancel ≡ some is_set)))
          E
          (stop_requested cancel)
          w
  unfolding stop_requested
  stop_requested-Ends none w = EndsAt.returned false w (refl, refl, λ h. absurd (cc))
  stop_requested-Ends (some is_set) w =
      EndsAt.returned (is_set w.polls) _ (refl, refl, λ h. (is_set, refl))

  accepted_directive-none :
      (on_accepted : Option (List ℕ → Host → Option Directive × Host)) (produced : List ℕ)
      (w : World e Host)
      → on_accepted ≡ none
      → Ends (λ d v. (d ≡ none) × (v ≡ w)) E (accepted_directive on_accepted produced) w
  unfolding accepted_directive
  accepted_directive-none none produced w h = EndsAt.returned none w (refl, refl)
  accepted_directive-none (some on_accepted) produced w h = absurd (cc)

module _ {e : Engine} {Host : Type 0} (turn : Turn e Host)
    (laws : Laws e turn.embed_ids turn.inv_freq) where
  -- after a window that emitted `tokens`
  pub record Published (prefix tokens : List ℕ) (stopped : Bool) (p : Progress)
      (r : Progress × Bool) (w : World e Host) : Type 0 where
    pub produced : r.0.produced ≡ p.produced ++ tokens
    pub held : r.0.held ≡ last_or p.held tokens
    pub cache_len : r.0.cache_len ≡ length (prefix ++ p.held ∷ init_list tokens)
    pub resident : Resident turn laws (prefix ++ p.held ∷ init_list tokens) w
    pub carry : HasCarry w.cycle
    pub leaves : r.1 ≡ stopped

  module _ {E : Error → World e Host → Type 0} where
    pub keep_window-Ends :
        (t : e.Target) (prefix drafted : List ℕ) (copied : Option (List ℕ)) (emitted : Emitted)
        (rows : List e.Row) (p : Progress) (w : World e Host)
        → turn.on_accepted ≡ none
        → Verified turn laws t prefix p.held drafted copied w
        → p.cache_len ≡ length prefix
        → length rows ≡ suc (length drafted)
        → 0 < length drafted
        → emitted.matched + 1 ≡ length emitted.tokens
        → emitted.matched ≤ length drafted
        → init_list emitted.tokens ≡ take emitted.matched drafted
        → ((is_set : ℕ → Bool) (v : World e Host)
            → turn.cancel ≡ some is_set
            → E (cancelled_turn (p.produced ++ emitted.tokens)) v)
        → Ends
            (Published prefix emitted.tokens emitted.stopped p)
            E
            (keep_window turn (e.capture t) rows copied drafted emitted p)
            w
    unfolding keep_window count_window follow_directive leaves
    keep_window-Ends t prefix drafted copied emitted rows p w no_hook v at wide some_draft m inside
          drafts cancel_ok =
        let body = p.held ∷ init_list emitted.tokens in
        let produced = p.produced ++ emitted.tokens in
        let inits : length (init_list emitted.tokens) ≡ emitted.matched =
          omega (arith, length-init_list emitted.tokens) in
        let size : length body ≡ suc emitted.matched = omega (arith, inits) in
        let ends : p.cache_len + length body ≡ length (prefix ++ body) =
          omega (arith, length-append prefix body) in
        let same : take (length body) (p.held ∷ drafted) ≡ body =
          ap (◌∷◌ p.held) (ap (λ n. take n drafted) inits ∙ sym drafts) in
        EndsAt-resume
          (rewrite_prefix-Ends turn laws t prefix p.held drafted e.rewind_recurrent body copied
            p.cache_len w refl at v (omega arith) same)
          λ _ w1 h1.
            EndsAt-resume
              (repair_window-Ends turn laws t prefix p.held drafted copied rows emitted.matched w w1
                v h1.1 wide inside some_draft)
              λ _ w2 h2.
                rw (check_cursor_aligned (p.cache_len + length body) w2 (omega (arith, h2.1))) (
                  EndsAt-resume (accepted_directive-none turn.on_accepted produced w2 no_hook)
                    λ directive w3 h3.
                      EndsAt-resume
                        (stop_requested-Ends turn.cancel (record w3 {
                          cycle = record w3.cycle { windows = w3.cycle.windows + 1 };
                        }))
                        λ cancelled w4 h4.
                          let cursor : draft_position w4.cycle
                              ≡ length prefix + 1 + emitted.matched =
                            ap draft_position h4.1
                            ∙ ap (λ (u : World e Host). draft_position u.cycle) h3.1
                            ∙ h2.1 in
                          elim (Bool-cases cancelled) [
                            | inl seen ↦
                                let (is_set, has) = h4.2 seen in
                                rw seen (EndsAt.raised _ w4 (cancel_ok is_set w4 has))
                            | inr unseen ↦
                                rw (unseen, h3.0)
                                  (EndsAt.returned _ w4 (record {
                                    produced = refl;
                                    held = refl;
                                    cache_len = ends;
                                    resident = record {
                                      consumed =
                                          ap laws.consumed
                                            (h4.0 ∙ ap (λ (u : World e Host). u.target) h3.1 ∙ h2.0)
                                          ∙ h1.0;
                                      position =
                                          omega (arith, cursor, size, length-append prefix body);
                                    };
                                    carry = subst HasCarry (sym h4.1) (
                                        subst (λ (u : World e Host). HasCarry u.cycle) (sym h3.1)
                                          h2.2);
                                    leaves = refl;
                                  }))
                          ])
