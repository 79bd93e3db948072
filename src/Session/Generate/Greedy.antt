-- ===== src/Session/Generate/Greedy.antt =====
-- What `Session.generate` (engine/forward/session.py) arranges before it calls the cycle.
use qwarz.Base.{
  ℕ, ◌-◌, ◌<◌, ◌≡◌, refl, ap, sym, ◌∙◌, take_of_length-le, inl, inr, true, Option, none, some, List,
  [], ◌∷◌, length, ltb, ◌==◌, if◌then◌else◌, arith, Bool-cases, ltb→le, ==_refl,
}
use qwarz.Device.{Engine, Laws}
use qwarz.Cycle.Suffix.{same}
use qwarz.Cycle.Draft.{DraftCycle}
use qwarz.Cycle.Draft.Aligned.{draft_position}
use qwarz.Session.{Session, Hardware, shared_prefix, rewind}
use qwarz.Session.Generate.{keep_at, usable_cycle, zero_without_cycle, arrange}
use qwarz.Session.Generate.Valid.{HardwareLaws, MarksFit, CycleAt, Valid, Valid-Standing, Rewound}
use qwarz.Session.Generate.Rewinds.{zero_session-cursor, zero_session-Rewound, rewind-Rewound}

same_refl : (xs : List ℕ) → same xs xs ≡ true
same_refl [] = refl
same_refl (x ∷ xs) = rw (==_refl x) (same_refl xs)

module _ {e : Engine} where
  keep_at-some :
      (draft : Option e.Draft) (cursor : ℕ) (c c' : DraftCycle e)
      → keep_at draft cursor c ≡ some c'
      → c ≡ c'
  unfolding keep_at
  keep_at-some none cursor c c' h = cc
  keep_at-some (some draft) cursor c c' h = elim (Bool-cases (e.position draft == cursor)) [
    | inl at ↦ let kept : some c ≡ some c' = rw (at, if◌then◌else◌) at h in cc
    | inr away ↦ absurd (ground arith)
  ]

  usable_cycle-some :
      (cursor : ℕ) (cycle : Option (DraftCycle e)) (c' : DraftCycle e)
      → usable_cycle cursor cycle ≡ some c'
      → cycle ≡ some c'
  unfolding usable_cycle
  usable_cycle-some cursor none c' h = absurd (cc)
  usable_cycle-some cursor (some c) c' h = ap some (keep_at-some c.draft cursor c c' h)

module _ {e : Engine} {embed_ids : Option (List ℕ → Option e.Embedded)} {freq : Option e.Freq}
    (laws : Laws e embed_ids freq) where
  draft_position-CycleAt :
      (cursor : ℕ) (c : DraftCycle e) → CycleAt laws cursor c → draft_position c ≡ cursor
  draft_position-CycleAt cursor c at = ground (arith, at.has_draft, at.position)

  module _ (hw : Hardware e) (hw_laws : HardwareLaws laws hw) {Host : Type 0} (most : ℕ)
      (ids : List ℕ) (some_id : 0 < length ids) where
    -- what is arranged: as after a rewind, and with no cycle the tape is empty
    pub record Arranged (s : Session e Host) : Type 0 where
      pub rewound : Rewound laws ids s
      pub cold : s.cycle ≡ none → s.cursor ≡ 0

    zero_without_cycle-Arranged :
        (cycle : Option (DraftCycle e)) (s : Session e Host)
        → Rewound laws ids s
        → ((c : DraftCycle e) → cycle ≡ some c → CycleAt laws s.cursor c)
        → Arranged (zero_without_cycle hw most cycle s)
    unfolding zero_without_cycle
    zero_without_cycle-Arranged none s r h = elim (Bool-cases (ltb 0 s.cursor)) [
      | inl more ↦ rw more (record {
        rewound =
            zero_session-Rewound laws hw hw_laws ids some_id (record s { cycle = none }) r.spare;
        cold = λ none_left.
            zero_session-cursor laws hw hw_laws ids some_id (record s { cycle = none });
      })
      | inr empty ↦ rw empty (record {
        rewound = record {
          cursor = r.cursor;
          consumed = r.consumed;
          tape = r.tape;
          inside = r.inside;
          cycle = h;
          spare = r.spare;
        };
        cold = λ none_left. omega (arith, ltb→le 0 s.cursor empty);
      })
    ]
    zero_without_cycle-Arranged (some c) s r h = record {
      rewound = record {
        cursor = r.cursor;
        consumed = r.consumed;
        tape = r.tape;
        inside = r.inside;
        cycle = h;
        spare = r.spare;
      };
      cold = λ none_left. absurd (cc);
    }

    pub arrange-Arranged :
        (s : Session e Host)
        → Valid laws s
        → MarksFit laws s.tape s.marks
        → ¬ s.tape ≡ ids
        → Arranged (arrange hw most ids s)
    unfolding arrange
    arrange-Arranged s v fit other =
        let s1 = rewind hw (shared_prefix s.tape ids) (length ids - 1) s in
        let r =
          rewind-Rewound laws hw hw_laws ids some_id s (Valid-Standing laws s v) fit other (λ h.
            other (
              sym (take_of_length-le s.committed s.tape (omega (arith, v.committed, v.cursor)))
              ∙ h)) in
        zero_without_cycle-Arranged (usable_cycle s1.cursor s1.cycle) s1 r
          λ c h. r.cycle c (usable_cycle-some s1.cursor s1.cycle c h)
