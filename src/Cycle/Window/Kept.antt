-- ===== src/Cycle/Window/Kept.antt =====
-- The second half of a window: what it keeps stands in both caches.
use qwarz.Base.{
  ℕ, suc, ◌+◌, ◌≤◌, ◌<◌, ◌≡◌, refl, ap, sym, subst, ◌∙◌, Option, none, some, List, ◌∷◌, ◌++◌,
  length, take, arith,
}
use qwarz.Base.Outcome.{Error}
use qwarz.Base.Ends.{EndsAt, Ends, EndsAt-of_eq}
use qwarz.Device.{Engine, Laws, rows_for}
use qwarz.Cycle.Draft.{DraftCycle}
use qwarz.Cycle.Draft.Aligned.{draft_position, HasCarry, repair_lem, repair_copied_lem}
use qwarz.Cycle.Turn.{Turn, World, on_cycle}
use qwarz.Cycle.Window.{rewrite_prefix, repair_window}

-- a rolled window has moved the draft's cursor over its drafts; a copied one has not
abbrev pub DraftsAt : {e : Engine} → Option (List ℕ) → DraftCycle e → ℕ → ℕ → Type 0
DraftsAt none c n steps = (c.primed ≡ n) × (draft_position c ≡ n + steps)
DraftsAt (some _) c n steps = draft_position c ≡ n

module _ {e : Engine} {Host : Type 0} (turn : Turn e Host)
    (laws : Laws e turn.embed_ids turn.inv_freq) where
  -- The state after the target's forward over the held token and the drafts: `t` is the target
  -- before it, and the draft's cursor is where the draft left it.
  pub record Verified (t : e.Target) (prefix : List ℕ) (held : ℕ) (drafted : List ℕ)
      (copied : Option (List ℕ)) (w : World e Host) : Type 0 where
    pub before : laws.consumed t ≡ prefix
    pub target :
        w.target
        ≡ (e.forward
            (held ∷ drafted)
            (length prefix)
            (rows_for turn.embed_ids (held ∷ drafted))
            turn.inv_freq
            t).1
    pub carry : HasCarry w.cycle
    pub drafts : DraftsAt copied w.cycle (length prefix) (length drafted)

  module _ {E : Error → World e Host → Type 0} (t : e.Target) (prefix : List ℕ) (held : ℕ)
      (drafted : List ℕ) where
    -- the target is back at the held token and the kept drafts; the draft model is untouched
    pub rewrite_prefix-Ends :
        (rewind : Option (ℕ → e.Target → e.Target)) (body : List ℕ) (copied : Option (List ℕ))
        (n : ℕ) (w : World e Host)
        → e.rewind_recurrent ≡ rewind
        → n ≡ length prefix
        → Verified t prefix held drafted copied w
        → length body ≤ suc (length drafted)
        → take (length body) (held ∷ drafted) ≡ body
        → Ends
            (λ _ v. (laws.consumed v.target ≡ prefix ++ body) × (v.cycle ≡ w.cycle))
            E
            (rewrite_prefix turn rewind (e.capture t) body n)
            w
    unfolding rewrite_prefix
    rewrite_prefix-Ends (some rewind) body copied n w has at v short same = EndsAt.returned tt _ (
      ap (λ s. laws.consumed (rewind (length body) s)) v.target
          ∙ laws.consumed_rewind rewind (length body) (held ∷ drafted) (length prefix) t has
              (ap length (sym v.before)) short
          ∙ ap (λ l. laws.consumed t ++ l) same
          ∙ ap (λ l. l ++ body) v.before,
      refl,
    )
    rewrite_prefix-Ends none body copied n w has at v short same =
        let back = laws.consumed_restore t w.target in
        EndsAt-of_eq _ _ tt
          (laws.forward_ok body n (e.restore (e.capture t) w.target)
            (at ∙ ap length (sym (back ∙ v.before))))
          (
            laws.consumed_forward body n (e.restore (e.capture t) w.target)
                  (at ∙ ap length (sym (back ∙ v.before)))
                ∙ ap (λ l. l ++ body) (back ∙ v.before),
            refl,
          )

    -- the draft model is cut back, or brought up, to the same place
    pub repair_window-Ends :
        (copied : Option (List ℕ)) (rows : List e.Row) (matched : ℕ) (w v : World e Host)
        → Verified t prefix held drafted copied w
        → v.cycle ≡ w.cycle
        → length rows ≡ suc (length drafted)
        → matched ≤ length drafted
        → 0 < length drafted
        → Ends
            (λ _ u.
              (u.target ≡ v.target)
              × (draft_position u.cycle ≡ length prefix + 1 + matched)
              × HasCarry u.cycle)
            E
            (repair_window turn copied rows held drafted matched)
            v
    unfolding repair_window on_cycle
    repair_window-Ends none rows matched w v h same wide inside some_draft =
        let facts = repair_lem laws v.target rows drafted matched v.cycle (omega arith) inside (
          omega (
            arith,
            h.drafts.0,
            h.drafts.1,
            ap draft_position same,
            ap (λ (c : DraftCycle e). c.primed) same,
          )) in
        EndsAt-of_eq _ _ tt facts.0 (
          refl,
          omega (arith, facts.1, h.drafts.0, ap (λ (c : DraftCycle e). c.primed) same),
          facts.2,
        )
    repair_window-Ends (some copy) rows matched w v h same wide inside some_draft =
        let facts =
          repair_copied_lem laws v.target rows held drafted matched v.cycle (omega arith) inside
            (subst HasCarry (sym same) h.carry) in
        EndsAt-of_eq _ _ tt facts.0
          (refl, omega (arith, facts.1, h.drafts, ap draft_position same), facts.2)
