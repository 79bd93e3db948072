-- ===== src/Cycle/Prefill/Held.antt =====
-- A prefill raises nothing and leaves every prompt id but the last in both caches.
use qwarz.Base.{
  ℕ, zero, suc, ◌+◌, ◌-◌, ◌≤◌, ◌<◌, ◌≡◌, refl, ap, sym, subst, true, Option, none, some, List, [],
  ◌∷◌, ◌++◌, length, take, drop, arith, length-drop, length-take_of_le, take-add, get_elem?, leb,
  ◌==◌, ◌&&◌,
}
use native.Mathlib.Decide.{dec_lt}
use qwarz.Base.Outcome.{Error, ok}
use qwarz.Base.Action.{pure, lift, ◌>>=◌, ◌>>◌}
use qwarz.Base.Ends.{EndsAt, Ends, EndsAt-resume}
use qwarz.Device.{Engine, Laws}
use qwarz.Mtp.{item}
use qwarz.Schedule.{Span, chunk_size, page_size}
use qwarz.Schedule.Cover.{suffix_bounds-Covers}
use qwarz.Cycle.Draft.Aligned.{draft_position, HasCarry}
use qwarz.Cycle.Turn.{Turn, World, check_cursor}
use qwarz.Cycle.Resident.{Resident, forward-Ends, absorb-Ends, check_cursor_aligned}
use qwarz.Cycle.Prefill.{
  note_span, prefill_span, prefill_spans, prefill_from, prefill_held, split_spans,
}
use qwarz.Cycle.Prefill.Chain.{Chain, Chain-le, Chain-Covers, split_spans-Chain, span_stop-Chain}

-- the caches hold the first `n` prompt ids, and the draft has its row for the next one
abbrev pub Filled :
    {e : Engine} {Host : Type 0} (turn : Turn e Host) (laws : Laws e turn.embed_ids turn.inv_freq)
    → List ℕ
    → ℕ
    → World e Host
    → Type 0
Filled turn laws prompt n w = Resident turn laws (take n prompt) w × HasCarry w.cycle

item_of_get : (xs : List ℕ) (n x : ℕ) → get_elem? xs n ≡ some x → item xs n ≡ ok x
unfolding item
item_of_get xs n x h = rw (h, item)

elem_last :
    (xs : List ℕ) (n : ℕ)
    → n + 1 ≡ length xs
    → (x : ℕ) × (get_elem? xs n ≡ some x) × (take n xs ++ x ∷ [] ≡ xs)
elem_last [] n h = absurd (omega arith)
elem_last (x ∷ []) zero h = (x, refl, refl)
elem_last (x ∷ y ∷ r) zero h = absurd (omega arith)
elem_last (x ∷ []) (suc n) h = absurd (omega arith)
elem_last (x ∷ y ∷ r) (suc n) h =
    let (z, found, whole) = elem_last (y ∷ r) n (omega arith) in (z, found, ap (◌∷◌ x) whole)

-- What `prefill_held` hands to the loop: the last id is held, and all before it are resident.
abbrev pub HeldLast :
    {e : Engine} {Host : Type 0} (turn : Turn e Host) (laws : Laws e turn.embed_ids turn.inv_freq)
    → List ℕ
    → ℕ × ℕ
    → World e Host
    → Type 0
HeldLast turn laws prompt r w =
    (take r.0 prompt ++ r.1 ∷ [] ≡ prompt)
    × (r.0 + 1 ≡ length prompt)
    × Filled turn laws prompt r.0 w

module _ {e : Engine} {Host : Type 0} (turn : Turn e Host)
    (laws : Laws e turn.embed_ids turn.inv_freq) {E : Error → World e Host → Type 0} where
  note_span-Ends :
      (on_span : Option (ℕ → Option e.Row → e.Target → Host → Host)) (prompt : List ℕ) (n end : ℕ)
      (w : World e Host)
      → Filled turn laws prompt n w
      → Ends (λ _. Filled turn laws prompt n) E (note_span on_span end) w
  unfolding note_span
  note_span-Ends none prompt n end w h = EndsAt.returned tt w h
  note_span-Ends (some on_span) prompt n end w h =
      EndsAt.returned tt _ (record { consumed = h.0.consumed; position = h.0.position }, h.1)

  prefill_span-Ends :
      (prompt : List ℕ) (begin end : ℕ) (w : World e Host)
      → begin < end
      → end ≤ length prompt
      → Resident turn laws (take begin prompt) w
      → Ends (λ _. Filled turn laws prompt end) E (prefill_span turn prompt (begin, end)) w
  unfolding prefill_span
  prefill_span-Ends prompt begin end w more inside r =
      let ids = take (end - begin) (drop begin prompt) in
      let long : length ids ≡ end - begin =
        length-take_of_le (end - begin) (drop begin prompt)
          (omega (arith, length-drop begin prompt)) in
      let whole : take begin prompt ++ ids ≡ take end prompt =
        take-add begin end prompt (omega arith) in
      EndsAt-resume
        (forward-Ends turn laws ids begin w
          (omega (arith, ap length r.consumed, length-take_of_le begin prompt (omega arith))))
        λ _ w1 f.
          EndsAt-resume (absorb-Ends turn laws (take begin prompt) ids w w1 (omega arith) r f)
            λ _ w2 filled.
              note_span-Ends turn.on_span prompt end end w2
                (subst (λ l. Resident turn laws l w2) whole filled.0, filled.1)

  prefill_spans-Ends :
      (prompt : List ℕ) (start stop : ℕ) (spans : List Span) (w : World e Host)
      → Chain start stop spans
      → stop ≤ length prompt
      → Filled turn laws prompt start w
      → Ends (λ _. Filled turn laws prompt stop) E (prefill_spans turn prompt spans) w
  unfolding prefill_spans
  prefill_spans-Ends prompt start stop [] w chain inside h =
      EndsAt.returned tt w (subst (λ n. Filled turn laws prompt n w) chain h)
  prefill_spans-Ends prompt start stop ((begin, end) ∷ spans) w chain inside h =
      EndsAt-resume
        (prefill_span-Ends prompt begin end w chain.1
          (omega (arith, Chain-le end stop spans chain.2))
          (subst (λ n. Resident turn laws (take n prompt) w) (sym chain.0) h.0))
        λ _ w1 h1. prefill_spans-Ends prompt end stop spans w1 chain.2 inside h1

  take_held-Ends :
      (prompt : List ℕ) (n : ℕ) (w : World e Host)
      → n + 1 ≡ length prompt
      → Filled turn laws prompt n w
      → Ends
          (HeldLast turn laws prompt)
          E
          (do check_cursor n; held ← lift (item prompt n); pure (n, held))
          w
  take_held-Ends prompt n w last h =
      let (held, found, whole) = elem_last prompt n last in
      let at_end : draft_position w.cycle ≡ n =
        omega (arith, h.0.position, length-take_of_le n prompt (omega arith)) in
      rw (check_cursor_aligned n w at_end, item_of_get prompt n held found)
        (EndsAt.returned (n, held) w (whole, last, h))

  prefill_from-Ends :
      (prompt : List ℕ) (start : ℕ) (spans : List Span) (w : World e Host)
      → 2 ≤ length prompt
      → Chain start (length prompt - 1) spans
      → Resident turn laws (take start prompt) w
      → (start + 1 ≡ length prompt → HasCarry w.cycle)
      → Ends (HeldLast turn laws prompt) E (prefill_from turn prompt start spans) w
  unfolding prefill_from
  prefill_from-Ends prompt start [] w long chain r carry =
      let test : (leb 2 (length prompt) && start == length prompt - 1) ≡ true = ground arith in
      rw test (take_held-Ends prompt start w (omega arith) (r, carry (omega arith)))
  prefill_from-Ends prompt start ((begin, end) ∷ spans) w long chain r carry =
      EndsAt-resume
        (EndsAt-resume
          (prefill_span-Ends prompt begin end w chain.1
            (omega (arith, Chain-le end (length prompt - 1) spans chain.2))
            (subst (λ n. Resident turn laws (take n prompt) w) (sym chain.0) r))
          λ _ w1 h1.
            prefill_spans-Ends prompt end (length prompt - 1) spans w1 chain.2 (omega arith) h1)
        λ _ w2 h2.
          rw (span_stop-Chain end (length prompt - 1) spans chain.2)
            (take_held-Ends prompt (length prompt - 1) w2 (omega arith) h2)

  -- With a prompt of two ids or more, the ids before `start` resident and a carried row if only the
  -- last id is left, a prefill raises nothing: it leaves all ids but the last in both caches, has a
  -- carried row, and hands the last id to the loop.
  pub prefill_held-Ends :
      (prompt : List ℕ) (start : ℕ) (w : World e Host)
      → 2 ≤ length prompt
      → start < length prompt
      → Resident turn laws (take start prompt) w
      → (start + 1 ≡ length prompt → HasCarry w.cycle)
      → Ends (HeldLast turn laws prompt) E (prefill_held turn prompt start) w
  unfolding prefill_held
  prefill_held-Ends prompt start w long inside r carry =
      let (spans, found, covers, none_left) =
        suffix_bounds-Covers chunk_size page_size start (length prompt) (omega arith)
          (omega arith) in
      let chain : Chain start (length prompt - 1) spans = elim (dec_lt start (length prompt - 1)) [
        | yes more ↦ Chain-Covers chunk_size page_size (length prompt - 1) start spans (covers more)
        | no done ↦ rw (none_left (omega arith)) (omega arith)
      ] in
      rw found (
        prefill_from-Ends prompt start (split_spans spans turn.cuts) w long
          (split_spans-Chain start (length prompt - 1) spans turn.cuts chain) r carry)
