-- ===== src/Cycle/Draft.antt =====
-- `DraftCycle` of engine/forward/cycle.py: the draft model's side of a window. Timings are left out.
pub mod Aligned
use qwarz.Base.{
  ℕ, zero, suc, ◌+◌, ◌-◌, Bool, true, false, Option, none, some, List, [], ◌∷◌, ◌++◌, map, length,
  take, get_elem?, init_list, last_or, ◌==◌, if◌then◌else◌,
}
use qwarz.Base.Outcome.{Result, ok, raise, Error, value_error, runtime_error}
use qwarz.Base.Action.{Exec, pure, throw, lift, ◌>>=◌, ◌>>◌}
use qwarz.Device.{Engine}
use qwarz.Mtp.{item, acceptance}
use qwarz.Vision.{text_table_ids}

pub record DraftCycle (e : Engine) : Type 0 where
  pub draft : Option e.Draft
  pub carry : Option e.Row
  pub primed : ℕ
  pub accepted : ℕ
  pub rejected : ℕ
  pub windows : ℕ
  pub proposals : Option (List e.Proposal)
  pub tokens : List ℕ
  pub cache_len : ℕ
  pub overshot : Bool

-- Rows paired with the tokens of a cut, and the row carried into the next cut. The tensor branch
-- does the same along the second axis.
unfoldable pub shift_rows {ℓ} :
    {Row : Type ℓ} → Option Row → List Row → Result (List (Option Row) × Row)
shift_rows carry [] = raise (value_error "each prefill cut exports a post-norm state" [])
shift_rows carry (row ∷ rows) = ok (carry ∷ map some (init_list (row ∷ rows)), last_or row rows)

module _ (e : Engine) where
  unfoldable pub new_cycle : Option e.Draft → DraftCycle e
  new_cycle draft = record {
    draft = draft;
    carry = none;
    primed = 0;
    accepted = 0;
    rejected = 0;
    windows = 0;
    proposals = none;
    tokens = [];
    cache_len = 0;
    overshot = false;
  }

  -- the draft in use: the one at hand, or one made now; `t` is the runner's state
  unfoldable pub active : e.Target → DraftCycle e → e.Draft
  active t c = elim c.draft [ none ↦ e.new_draft t | some d ↦ d ]

  -- `_model`
  unfoldable pub model : e.Target → Exec (DraftCycle e) e.Draft
  model t c = (ok (active t c), record c { draft = some (active t c) })

  unfoldable pub put_draft : e.Draft → Exec (DraftCycle e) (Unit {0})
  put_draft d c = (ok tt, record c { draft = some d })

  unfoldable pub put_carry : Option e.Row → Exec (DraftCycle e) (Unit {0})
  put_carry row c = (ok tt, record c { carry = row })

  unfoldable pub absorb_prefill : e.Target → List ℕ → List e.Row → Exec (DraftCycle e) (Unit {0})
  unfolding model put_draft put_carry
  absorb_prefill t token_ids hidden = do
    d ← model t
    (paired, carry) ← (λ c. lift (shift_rows c.carry hidden) c)
    put_carry (some carry)
    put_draft (e.prefill (text_table_ids token_ids) paired d)

  -- the loop over `draft.step`
  unfoldable pub step_loop : ℕ → ℕ → e.Row → e.Draft → List ℕ × e.Draft
  step_loop zero token state d = ([], d)
  step_loop (suc steps) token state d =
      let ((drafted, state'), d') = e.step token state d in
      let (rest, d'') = step_loop steps drafted state' d' in (drafted ∷ rest, d'')

  -- `draft.roll` where the draft has it, else the loop over `draft.step`
  unfoldable pub roll_or_step :
      Option (ℕ → e.Row → ℕ → Option e.Sampling → e.Draft → (List ℕ × List e.Proposal) × e.Draft)
      → e.Draft
      → ℕ
      → e.Row
      → ℕ
      → Option e.Sampling
      → Exec (DraftCycle e) (List ℕ)
  roll_or_step none d token row steps sampling c =
      let (drafted, d') = step_loop steps token row d in
      (ok drafted, record c { draft = some d'; primed = e.position d; proposals = none })
  roll_or_step (some roll) d token row steps sampling c =
      let ((drafted, proposals), d') = roll token row steps sampling d in
      (
        ok drafted,
        record c {
          draft = some d';
          primed = e.position d;
          proposals = elim sampling [ none ↦ none | some _ ↦ some proposals ];
        },
      )

  unfoldable pub propose_from :
      Option e.Row → e.Draft → ℕ → ℕ → Option e.Sampling → Exec (DraftCycle e) (List ℕ)
  propose_from none d token steps sampling = throw (runtime_error "draft has no target state" [])
  propose_from (some row) d token steps sampling = roll_or_step e.roll d token row steps sampling

  unfoldable pub propose : e.Target → ℕ → ℕ → Option e.Sampling → Exec (DraftCycle e) (List ℕ)
  unfolding model
  propose t token_id steps sampling = do
    d ← model t
    λ c. propose_from c.carry d token_id steps sampling c

  -- `self.carry = rows[matched]` and the two counters
  unfoldable pub settle : List e.Row → List ℕ → ℕ → Exec (DraftCycle e) (Unit {0})
  settle rows drafted matched = do
    row ← lift (item rows matched)
    λ c. (
      ok tt,
      record c {
        carry = some row;
        accepted = c.accepted + matched;
        rejected = c.rejected + (length drafted - matched);
      },
    )

  unfoldable pub cut_draft : e.Draft → Exec (DraftCycle e) (Unit {0})
  cut_draft d c =
      ((e.truncate (c.primed + 1) d).0, record c { draft = some (e.truncate (c.primed + 1) d).1 })

  unfoldable pub keep_matched : e.Draft → List e.Row → List ℕ → ℕ → Exec (DraftCycle e) (Unit {0})
  keep_matched d verify_hidden drafted zero = settle verify_hidden drafted 0
  keep_matched d verify_hidden drafted (suc k) = do
    put_draft (e.prefill (take (suc k) drafted) (map some (take (suc k) verify_hidden)) d)
    settle verify_hidden drafted (suc k)

  unfoldable pub repair : e.Target → List e.Row → List ℕ → ℕ → Exec (DraftCycle e) (Unit {0})
  unfolding model
  repair t verify_hidden drafted matched = do
    d ← model t
    cut_draft d
    d' ← model t
    keep_matched d' verify_hidden drafted matched

  unfoldable pub enter_copied :
      Option e.Row → e.Draft → List e.Row → ℕ → List ℕ → ℕ → Exec (DraftCycle e) (Unit {0})
  enter_copied none d verify_hidden held drafted matched =
      throw (runtime_error "'NoneType' object has no attribute 'to'" [])
  enter_copied (some row) d verify_hidden held drafted matched = do
    put_draft (
        e.prefill (held ∷ take matched drafted) (some row ∷ map some (take matched verify_hidden))
          d)
    settle verify_hidden drafted matched

  -- after a window that the draft model did not roll: the held id enters too
  unfoldable pub repair_copied :
      e.Target → List e.Row → ℕ → List ℕ → ℕ → Exec (DraftCycle e) (Unit {0})
  unfolding model
  repair_copied t verify_hidden held drafted matched = do
    d ← model t
    λ c. enter_copied c.carry d verify_hidden held drafted matched c

  unfoldable pub rate : DraftCycle e → Option (ℕ × ℕ)
  unfolding acceptance
  rate c = acceptance c.accepted c.rejected
