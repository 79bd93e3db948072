-- ===== src/Cycle/Draft/Aligned.antt =====
-- The draft's cursor: what each method does to it, and that it raises nothing where the loop calls it.
use qwarz.Base.{
  ℕ, zero, suc, ◌+◌, ◌-◌, ◌≤◌, ◌<◌, ◌≡◌, refl, Option, none, some, List, [], ◌∷◌, length, take, map,
  get_elem?, arith, length-map, get_elem?_of_lt, length-take_of_le, init_list, last_or, leb,
  if◌then◌else◌,
}
use qwarz.Base.Outcome.{ok}
use qwarz.Device.{Engine, Laws}
use qwarz.Mtp.{item}
use qwarz.Vision.{mm_token_base, text_table_ids}
use qwarz.Cycle.Draft.{
  DraftCycle, shift_rows, active, propose_from, absorb_prefill, step_loop, roll_or_step, propose,
  settle, repair, repair_copied, cut_draft, keep_matched, enter_copied, put_draft,
}

module _ {e : Engine} where
  -- `cycle.draft.position`, and 0 for a draft that is not made yet
  abbrev pub draft_position : DraftCycle e → ℕ
  draft_position c = elim c.draft [ none ↦ 0 | some d ↦ e.position d ]

  -- the cycle holds the row that the next window starts from
  abbrev pub HasCarry : DraftCycle e → Type 0
  HasCarry c = (row : e.Row) × (c.carry ≡ some row)

module _ {e : Engine} {embed_ids : Option (List ℕ → Option e.Embedded)} {freq : Option e.Freq}
    (laws : Laws e embed_ids freq) (t : e.Target) where
  position-active : (c : DraftCycle e) → e.position (active e t c) ≡ draft_position c
  unfolding active
  position-active c = ground (arith, laws.position_new t)

  pub absorb_prefill_lem :
      (ids : List ℕ) (hidden : List e.Row) (c : DraftCycle e)
      → 0 < length hidden
      → ((absorb_prefill e t ids hidden c).0 ≡ ok tt)
        × (draft_position (absorb_prefill e t ids hidden c).1 ≡ draft_position c + length ids)
        × HasCarry (absorb_prefill e t ids hidden c).1
  unfolding absorb_prefill shift_rows text_table_ids
  absorb_prefill_lem ids [] c h = absurd (omega arith)
  absorb_prefill_lem ids (row ∷ rows) c h = (
    refl,
    omega (
      arith,
      laws.position_prefill (text_table_ids ids) (c.carry ∷ map some (init_list (row ∷ rows)))
          (active e t c),
      position-active c,
      length-map (λ token. if leb mm_token_base token then 0 else token) ids,
    ),
    (last_or row rows, refl),
  )

  pub step_loop_lem :
      (steps token : ℕ) (state : e.Row) (d : e.Draft)
      → (length (step_loop e steps token state d).0 ≡ steps)
        × (e.position (step_loop e steps token state d).1 ≡ e.position d + steps)
  unfolding step_loop
  step_loop_lem zero token state d = (refl, omega arith)
  step_loop_lem (suc steps) token state d =
      let r = e.step token state d in
      let ih = step_loop_lem steps r.0.0 r.0.1 r.1 in
      (omega (arith, ih.0), omega (arith, ih.1, laws.position_step token state d))

  roll_or_step_lem :
      (by : Option
        (ℕ → e.Row → ℕ → Option e.Sampling → e.Draft → (List ℕ × List e.Proposal) × e.Draft))
      (d : e.Draft) (token : ℕ) (row : e.Row) (steps : ℕ) (sampling : Option e.Sampling)
      (c : DraftCycle e)
      → e.roll ≡ by
      → (drafted : List ℕ) × ((roll_or_step e by d token row steps sampling c).0 ≡ ok drafted)
        × (length drafted ≡ steps)
        × ((roll_or_step e by d token row steps sampling c).1.primed ≡ e.position d)
        × (draft_position (roll_or_step e by d token row steps sampling c).1 ≡ e.position d + steps)
        × ((roll_or_step e by d token row steps sampling c).1.carry ≡ c.carry)
  unfolding roll_or_step
  roll_or_step_lem none d token row steps sampling c h =
      let facts = step_loop_lem steps token row d in
      ((step_loop e steps token row d).0, refl, facts.0, refl, facts.1, refl)
  roll_or_step_lem (some roll) d token row steps sampling c h =
      let facts = laws.position_roll roll token row steps sampling d h in
      ((roll token row steps sampling d).0.0, refl, facts.1, refl, facts.0, refl)

  propose_from_lem :
      (carry : Option e.Row) (d : e.Draft) (token steps : ℕ) (sampling : Option e.Sampling)
      (c : DraftCycle e)
      → (row : e.Row) × (carry ≡ some row)
      → (drafted : List ℕ) × ((propose_from e carry d token steps sampling c).0 ≡ ok drafted)
        × (length drafted ≡ steps)
        × ((propose_from e carry d token steps sampling c).1.primed ≡ e.position d)
        × (draft_position (propose_from e carry d token steps sampling c).1 ≡ e.position d + steps)
        × ((propose_from e carry d token steps sampling c).1.carry ≡ c.carry)
  unfolding propose_from
  propose_from_lem none d token steps sampling c (row, h) = absurd (cc)
  propose_from_lem (some row) d token steps sampling c h =
      roll_or_step_lem e.roll d token row steps sampling c refl

  -- With a carried row, `propose` raises nothing and proposes `steps` tokens; it notes where the
  -- draft's cursor stood, moves it by `steps` and keeps the carried row.
  pub propose_lem :
      (token steps : ℕ) (sampling : Option e.Sampling) (c : DraftCycle e)
      → HasCarry c
      → (drafted : List ℕ) × ((propose e t token steps sampling c).0 ≡ ok drafted)
        × (length drafted ≡ steps)
        × ((propose e t token steps sampling c).1.primed ≡ draft_position c)
        × (draft_position (propose e t token steps sampling c).1 ≡ draft_position c + steps)
        × ((propose e t token steps sampling c).1.carry ≡ c.carry)
  unfolding propose
  propose_lem token steps sampling c has = rw (← position-active c) (
      propose_from_lem c.carry (active e t c) token steps sampling
        (record c { draft = some (active e t c) }) has)

  settle_eq :
      (rows : List e.Row) (drafted : List ℕ) (matched : ℕ) (c : DraftCycle e) (row : e.Row)
      → get_elem? rows matched ≡ some row
      → settle e rows drafted matched c ≡ (
        ok tt,
        record c {
          carry = some row;
          accepted = c.accepted + matched;
          rejected = c.rejected + (length drafted - matched);
        },
      )
  unfolding settle item
  settle_eq rows drafted matched c row h = rw (h, settle, item)

  settle_lem :
      (rows : List e.Row) (drafted : List ℕ) (matched : ℕ) (c : DraftCycle e)
      → matched < length rows
      → ((settle e rows drafted matched c).0 ≡ ok tt)
        × (draft_position (settle e rows drafted matched c).1 ≡ draft_position c)
        × HasCarry (settle e rows drafted matched c).1
  settle_lem rows drafted matched c h =
      let (row, found) = get_elem?_of_lt rows matched h in
      rw (settle_eq rows drafted matched c row found, draft_position, HasCarry)
        (refl, refl, (row, refl))

  keep_matched_lem :
      (d : e.Draft) (rows : List e.Row) (drafted : List ℕ) (matched : ℕ) (c : DraftCycle e)
      → matched < length rows
      → matched ≤ length drafted
      → c.draft ≡ some d
      → ((keep_matched e d rows drafted matched c).0 ≡ ok tt)
        × (draft_position (keep_matched e d rows drafted matched c).1 ≡ e.position d + matched)
        × HasCarry (keep_matched e d rows drafted matched c).1
  unfolding keep_matched put_draft
  keep_matched_lem d rows drafted zero c inside short has =
      let facts = settle_lem rows drafted 0 c inside in
      (facts.0, ground (arith, facts.1, has), facts.2)
  keep_matched_lem d rows drafted (suc k) c inside short has =
      let c' = record c {
        draft = some (e.prefill (take (suc k) drafted) (map some (take (suc k) rows)) d);
      } in
      let facts = settle_lem rows drafted (suc k) c' inside in
      (
        facts.0,
        omega (
          arith,
          facts.1,
          laws.position_prefill (take (suc k) drafted) (map some (take (suc k) rows)) d,
          length-take_of_le (suc k) drafted short,
        ),
        facts.2,
      )

  -- With a row behind each of the `matched` drafts and one more, at most `matched` of the drafts
  -- there are, and a cursor past the held token, `repair` raises nothing, leaves the draft's cursor
  -- behind the held token and the matched drafts, and has a row to go on from.
  pub repair_lem :
      (rows : List e.Row) (drafted : List ℕ) (matched : ℕ) (c : DraftCycle e)
      → matched < length rows
      → matched ≤ length drafted
      → c.primed + 1 ≤ draft_position c
      → ((repair e t rows drafted matched c).0 ≡ ok tt)
        × (draft_position (repair e t rows drafted matched c).1 ≡ c.primed + 1 + matched)
        × HasCarry (repair e t rows drafted matched c).1
  unfolding repair cut_draft active
  repair_lem rows drafted matched c inside short ahead =
      let d = active e t c in
      let cut = laws.truncate_ok (c.primed + 1) d (omega (arith, position-active c)) in
      let d' = (e.truncate (c.primed + 1) d).1 in
      let facts =
        keep_matched_lem d' rows drafted matched (record c { draft = some d' }) inside short refl in
      rw (cut.0, draft_position) (facts.0, omega (arith, facts.1, cut.1), facts.2)

  enter_copied_lem :
      (carry : Option e.Row) (d : e.Draft) (rows : List e.Row) (held : ℕ) (drafted : List ℕ)
      (matched : ℕ) (c : DraftCycle e)
      → matched < length rows
      → matched ≤ length drafted
      → (row : e.Row) × (carry ≡ some row)
      → ((enter_copied e carry d rows held drafted matched c).0 ≡ ok tt)
        × (draft_position (enter_copied e carry d rows held drafted matched c).1
            ≡ e.position d + 1 + matched)
        × HasCarry (enter_copied e carry d rows held drafted matched c).1
  unfolding enter_copied put_draft
  enter_copied_lem none d rows held drafted matched c inside short (row, h) = absurd (cc)
  enter_copied_lem (some row) d rows held drafted matched c inside short h =
      let paired = some row ∷ map some (take matched rows) in
      let d' = e.prefill (held ∷ take matched drafted) paired d in
      let facts = settle_lem rows drafted matched (record c { draft = some d' }) inside in
      (
        facts.0,
        omega (
          arith,
          facts.1,
          laws.position_prefill (held ∷ take matched drafted) paired d,
          length-take_of_le matched drafted short,
        ),
        facts.2,
      )

  pub repair_copied_lem :
      (rows : List e.Row) (held : ℕ) (drafted : List ℕ) (matched : ℕ) (c : DraftCycle e)
      → matched < length rows
      → matched ≤ length drafted
      → HasCarry c
      → ((repair_copied e t rows held drafted matched c).0 ≡ ok tt)
        × (draft_position (repair_copied e t rows held drafted matched c).1
            ≡ draft_position c + 1 + matched)
        × HasCarry (repair_copied e t rows held drafted matched c).1
  unfolding repair_copied
  repair_copied_lem rows held drafted matched c inside short has = rw (← position-active c) (
      enter_copied_lem c.carry (active e t c) rows held drafted matched
        (record c { draft = some (active e t c) }) inside short has)
