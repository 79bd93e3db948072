-- ===== src/Cycle/Window.antt =====
-- The body of the loop of `continue_drafted` in engine/forward/cycle.py, and `_apply_inject`.
pub mod Trim
pub mod Kept
pub mod Publish
pub mod Verify
pub mod Step
use qwarz.Base.{
  ℕ, zero, suc, ◌+◌, ◌-◌, Bool, ◌&&◌, true, false, not, Option, none, some, List, [], ◌∷◌, ◌++◌,
  map, length, take, init_list, last_or, ltb, leb, ◌==◌, if◌then◌else◌,
}
use qwarz.Base.Outcome.{Result, ok, raise, Error, value_error, runtime_error, cancelled_turn}
use qwarz.Base.Action.{Exec, pure, throw, lift, ◌>>=◌, ◌>>◌}
use qwarz.Device.{Engine, Chooser}
use qwarz.Mtp.{emitted_tokens}
use qwarz.Mtp.Greedy.{cut_at_stop}
use qwarz.Cycle.Suffix
use qwarz.Cycle.Suffix.{SuffixIndex}
use qwarz.Cycle.Draft
use qwarz.Cycle.Draft.{DraftCycle, absorb_prefill, repair, repair_copied}
use qwarz.Cycle.Turn.{
  Turn, World, Directive, on_cycle, stop_requested, forward, samples, check_cursor,
}

-- the local variables of the loop
pub record Progress : Type 0 where
  pub cache_len : ℕ
  pub held : ℕ
  pub produced : List ℕ
  pub suffix : Option SuffixIndex

pub record Emitted : Type 0 where
  pub tokens : List ℕ
  pub matched : ℕ
  pub stopped : Bool

-- `emitted[:room]`: the hold becomes the last token that fits
unfoldable pub fit_budget : ℕ → List ℕ → ℕ → List ℕ × ℕ
fit_budget room emitted matched =
    if ltb room (length emitted)
    then (take room emitted, length (take room emitted) - 1)
    else (emitted, matched)

-- the scan for a stop id, which ends the window
unfoldable pub fit_stop : List ℕ → List ℕ → ℕ → Emitted
unfolding cut_at_stop
fit_stop stop_ids emitted matched =
    let (tokens, stopped) = cut_at_stop stop_ids emitted in
    if stopped
    then record { tokens = tokens; matched = length tokens - 1; stopped = true }
    else record { tokens = emitted; matched = matched; stopped = false }

unfoldable pub trim : ℕ → List ℕ → List ℕ → ℕ → Emitted
unfolding fit_budget fit_stop
trim room stop_ids emitted matched =
    let (fitting, matched') = fit_budget room emitted matched in fit_stop stop_ids fitting matched'

unfoldable pub accepted_directive :
    {e : Engine} {Host : Type 0}
    → Option (List ℕ → Host → Option Directive × Host)
    → List ℕ
    → Exec (World e Host) (Option Directive)
accepted_directive none produced w = (ok none, w)
accepted_directive (some on_accepted) produced w =
    (ok (on_accepted produced w.host).0, record w { host = (on_accepted produced w.host).1 })

unfoldable pub count_window : {e : Engine} {Host : Type 0} → Exec (World e Host) (Unit {0})
count_window w = (ok tt, record w { cycle = record w.cycle { windows = w.cycle.windows + 1 } })

module _ {e : Engine} {Host : Type 0} (turn : Turn e Host) where
  abbrev pub draft_sampling : Option e.Sampling
  draft_sampling = elim turn.choose [ none ↦ none | some chooser ↦ chooser.draft ]

  unfoldable pub copied_tokens : Progress → Option (List ℕ)
  copied_tokens p = elim p.suffix [
    | none ↦ none
    | some suffix ↦ Suffix.propose suffix p.held turn.steps
  ]

  -- the six drafts: copied from the history, or rolled by the draft model
  unfoldable pub draft_tokens : Option (List ℕ) → ℕ → Exec (World e Host) (List ℕ)
  draft_tokens (some copied) held w = (
    ok copied,
    record w {
      cycle = record w.cycle {
        proposals = elim draft_sampling [ none ↦ none | some _ ↦ some (map e.certain copied) ];
      };
    },
  )
  draft_tokens none held w = on_cycle (λ t. Draft.propose e t held turn.steps draft_sampling) w

  -- `rewind(len(body))`, or the snapshot restored and the body forwarded again
  unfoldable pub rewrite_prefix :
      Option (ℕ → e.Target → e.Target) → e.Snapshot → List ℕ → ℕ → Exec (World e Host) (Unit {0})
  unfolding forward
  rewrite_prefix (some rewind) before body cache_len w =
      (ok tt, record w { target = rewind (length body) w.target })
  rewrite_prefix none before body cache_len w =
      forward turn body cache_len (record w { target = e.restore before w.target })

  -- `if not emitted`: the window is undone and the loop ends
  unfoldable pub drop_window : e.Snapshot → Exec (World e Host) (Unit {0})
  drop_window before w = elim e.rewind_recurrent [
    | some rewind ↦ (ok tt, record w { target = rewind 0 w.target })
    | none ↦ (ok tt, record w { target = e.restore before w.target })
  ]

  unfoldable pub repair_window :
      Option (List ℕ) → List e.Row → ℕ → List ℕ → ℕ → Exec (World e Host) (Unit {0})
  repair_window none verify_hidden held drafted matched =
      on_cycle (λ t. repair e t verify_hidden drafted matched)
  repair_window (some copied) verify_hidden held drafted matched =
      on_cycle (λ t. repair_copied e t verify_hidden held drafted matched)

  abbrev pub extend_suffix : Option SuffixIndex → List ℕ → Option SuffixIndex
  extend_suffix none body = none
  extend_suffix (some suffix) body = some (Suffix.extend suffix body)

  -- the injected ids but the last go into both caches
  unfoldable pub inject_body : List ℕ → Progress → Exec (World e Host) Progress
  unfolding on_cycle forward check_cursor
  inject_body [] p = pure p
  inject_body (b ∷ body) p = do
    forward turn (b ∷ body) p.cache_len
    (λ w. on_cycle (λ t. absorb_prefill e t (b ∷ body) (e.hidden w.target)) w)
    check_cursor (p.cache_len + length (b ∷ body))
    pure (record p {
      cache_len = p.cache_len + length (b ∷ body);
      suffix = extend_suffix p.suffix (b ∷ body);
    })

  -- `_apply_inject`
  unfoldable pub apply_inject : Directive → Progress → Exec (World e Host) Progress
  unfolding inject_body
  apply_inject directive p =
      let inject = directive.inject in
      if directive.drop_last
      then (if length p.produced == 0
          then throw (runtime_error "cannot drop a token that was not produced" [])
          else do
            q ← inject_body (init_list inject) p
            pure (record q {
              held = last_or p.held inject;
              produced = init_list p.produced ++ inject;
            }))
      else (if length inject == 0 then pure p else do
        q ← inject_body (p.held ∷ init_list inject) p
        pure (record q { held = last_or p.held inject; produced = p.produced ++ inject }))

  unfoldable pub follow_directive : Option Directive → Progress → Exec (World e Host) Progress
  unfolding apply_inject
  follow_directive none p = pure p
  follow_directive (some directive) p = apply_inject directive p

  -- whether the loop ends here
  unfoldable pub leaves : Option Directive → Bool → Bool
  leaves none stopped = stopped
  leaves (some directive) stopped =
      if directive.halt then true else stopped && length directive.inject == 0

  -- the second half of the body: the accepted prefix is kept and published
  unfoldable pub keep_window :
      e.Snapshot
      → List e.Row
      → Option (List ℕ)
      → List ℕ
      → Emitted
      → Progress
      → Exec (World e Host) (Progress × Bool)
  unfolding rewrite_prefix repair_window check_cursor accepted_directive count_window stop_requested
      follow_directive leaves
  keep_window before verify_hidden copied drafted emitted p = do
    let body = p.held ∷ init_list emitted.tokens
    rewrite_prefix e.rewind_recurrent before body p.cache_len
    repair_window copied verify_hidden p.held drafted emitted.matched
    check_cursor (p.cache_len + length body)
    let q = record p {
      cache_len = p.cache_len + length body;
      held = last_or p.held emitted.tokens;
      produced = p.produced ++ emitted.tokens;
      suffix = extend_suffix p.suffix body;
    }
    directive ← accepted_directive turn.on_accepted (p.produced ++ emitted.tokens)
    count_window
    cancelled ← stop_requested turn.cancel
    if cancelled
        then throw (cancelled_turn (p.produced ++ emitted.tokens))
        else do r ← follow_directive directive q; pure (r, leaves directive emitted.stopped)

  unfoldable pub settle_window :
      e.Snapshot
      → List e.Row
      → Option (List ℕ)
      → List ℕ
      → Emitted
      → Progress
      → Exec (World e Host) (Progress × Bool)
  unfolding drop_window count_window keep_window
  settle_window before verify_hidden copied drafted emitted p =
      if length emitted.tokens == 0
      then (do drop_window before; count_window; pure (p, true))
      else keep_window before verify_hidden copied drafted emitted p

  -- the part of the body behind the drafts: one target forward, the samples, and what is kept
  unfoldable pub verify_window : Progress → List ℕ → Exec (World e Host) (Progress × Bool)
  unfolding copied_tokens forward samples emitted_tokens trim settle_window
  verify_window p drafted = do
    before ← (λ w. (ok (e.capture w.target), w))
    forward turn (p.held ∷ drafted) p.cache_len
    sampled ← samples turn.choose drafted
    verify_hidden ← (λ w. (ok (e.hidden w.target), w))
    (emitted, matched) ← lift (emitted_tokens turn.limit drafted sampled)
    settle_window before verify_hidden (copied_tokens p) drafted
        (trim (turn.max_new - length p.produced) turn.stop_ids emitted matched) p

  -- One window. The flag says that the loop ends.
  unfoldable pub window : Progress → Exec (World e Host) (Progress × Bool)
  unfolding draft_tokens copied_tokens verify_window
  window p = do
    cancelled ← stop_requested turn.cancel
    if cancelled
        then throw (cancelled_turn p.produced)
        else do drafted ← draft_tokens (copied_tokens p) p.held; verify_window p drafted
