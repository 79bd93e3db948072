-- ===== src/Mtp/Verify.antt =====
-- `verify_window` of engine/forward/mtp.py: a draft written speculatively, and the kept tokens written
-- again over it. The runner's calls are parameters.
use qwarz.Base.{
  ℕ, zero, suc, ◌+◌, ◌-◌, ◌≤◌, ◌<◌, ◌≡◌, refl, ap, Bool-cases, false, inl, inr, Option, List, [],
  ◌∷◌, ◌++◌, length, take, take_of_length-le, get_elem?, get_elem?_of_lt, last_or, ltb, ◌==◌,
  if◌then◌else◌, length-take_of_le, length-append, arith,
}
use qwarz.Base.Outcome.{Result, ok, raise, value_error, ◌>>=◌}
use qwarz.Mtp.{matching, accepted_prefix, acceptance, item, emitted_tokens}
use qwarz.Mtp.Accept.{matching-le}

-- `capture`, `forward` and `restore` of the session's runner
pub record Runner (R Saved : Type 0) : Type 0 where
  pub capture : R → Saved
  pub forward : List ℕ → ℕ → R → R
  pub restore : Saved → R → R

pub record Target (R : Type 0) : Type 0 where
  pub runner : R
  pub cursor : ℕ
  pub tape : List ℕ

pub record Verdict : Type 0 where
  pub accepted : ℕ
  pub rejected : ℕ
  pub ratio : Option (ℕ × ℕ)
  pub kept : List ℕ

-- what stands behind the accepted tokens
unfoldable pub next_token : List ℕ → List ℕ → ℕ → ℕ → Result ℕ
unfolding item
next_token draft verified bonus kept_count =
    if ltb kept_count (length draft) then item verified kept_count else ok bonus

unfoldable pub commit_window :
    {R Saved : Type 0} → Runner R Saved → List ℕ → ℕ → List ℕ → Target R → Verdict × Target R
unfolding acceptance
commit_window calls draft kept_count kept s =
    let before = calls.capture s.runner in
    let tried = calls.forward draft s.cursor s.runner in
    let runner = calls.forward kept s.cursor (calls.restore before tried) in
    let rejected = length draft - kept_count in
    (
      record {
        accepted = kept_count;
        rejected = rejected;
        ratio = acceptance kept_count rejected;
        kept = kept;
      },
      record {
        runner = runner;
        cursor = s.cursor + length kept;
        tape = take s.cursor s.tape ++ kept;
      },
    )

unfoldable pub verify_window :
    {R Saved : Type 0}
    → ℕ
    → Runner R Saved
    → List ℕ
    → List ℕ
    → ℕ
    → Target R
    → Result (Verdict × Target R)
unfolding accepted_prefix next_token commit_window
verify_window limit calls draft verified bonus s =
    if ltb (length verified) (length draft)
    then raise (value_error "the target verified fewer tokens than the draft proposed" [])
    else (do
      kept_count ← accepted_prefix limit draft verified
      token ← next_token draft verified bonus kept_count
      ok (commit_window calls draft kept_count (take kept_count draft ++ token ∷ []) s))

matching-take :
    (draft verified tail : List ℕ)
    → length draft ≤ length verified
    → matching draft (take (length draft) verified ++ tail) ≡ matching draft verified
unfolding matching
matching-take [] [] tail h = refl
matching-take [] (v ∷ verified) tail h = refl
matching-take (d ∷ draft) [] tail h = absurd (omega arith)
matching-take (d ∷ draft) (v ∷ verified) tail h =
    ap (λ n. if d == v then suc n else 0) (matching-take draft verified tail (omega arith))

last_or-append : (d : ℕ) (xs : List ℕ) (x : ℕ) → last_or d (xs ++ x ∷ []) ≡ x
last_or-append d [] x = refl
last_or-append d (y ∷ xs) x = last_or-append y xs x

get_elem?-take-append :
    (xs tail : List ℕ) (n i : ℕ)
    → i < n
    → n ≤ length xs
    → get_elem? (take n xs ++ tail) i ≡ get_elem? xs i
get_elem?-take-append xs tail zero i h fits = absurd (omega arith)
get_elem?-take-append [] tail (suc n) i h fits = absurd (omega arith)
get_elem?-take-append (x ∷ xs) tail (suc n) zero h fits = refl
get_elem?-take-append (x ∷ xs) tail (suc n) (suc i) h fits =
    get_elem?-take-append xs tail n i (omega arith) (omega arith)

-- the token behind the accepted ones, and what `emitted_tokens` makes of the same window
next_token-emitted :
    (limit : ℕ) (draft verified : List ℕ) (bonus : ℕ)
    → 0 < length draft
    → length draft ≤ limit
    → length draft ≤ length verified
    → (token : ℕ) × (next_token draft verified bonus (matching draft verified) ≡ ok token)
      × (emitted_tokens limit draft (take (length draft) verified ++ bonus ∷ [])
          ≡ ok (take (matching draft verified) draft ++ token ∷ [], matching draft verified))
unfolding next_token emitted_tokens item
next_token-emitted limit draft verified bonus some_draft fits enough =
    let m = matching draft verified in
    let samples = take (length draft) verified ++ bonus ∷ [] in
    let same = matching-take draft verified (bonus ∷ []) enough in
    let last = last_or-append 0 (take (length draft) verified) bonus in
    let size : length samples ≡ length draft + 1 = omega (
      arith,
      length-append (take (length draft) verified) (bonus ∷ []),
      length-take_of_le (length draft) verified enough,
    ) in
    elim (Bool-cases (ltb m (length draft))) [
      | inl part ↦
          let (token, found) = get_elem?_of_lt verified m (ground arith) in
          let seen =
            get_elem?-take-append verified (bonus ∷ []) (length draft) m (ground arith) enough in
          (token, ground (arith, found), ground (arith, same, seen, found, size))
      | inr whole ↦ (
        bonus,
        rw whole refl,
        ground (arith, same, last, size, matching-le draft verified, take_of_length-le m draft),
      )
    ]

-- With 1 to `limit` draft tokens, at least as many verified ones, and a runner whose `restore` undoes
-- a `forward`, `verify_window` raises nothing. It keeps what `emitted_tokens` emits for the same
-- samples, leaves the runner as if only the kept tokens had been written at the cursor, and puts the
-- cursor and the tape behind them.
pub verify_window-emitted :
    {R Saved : Type 0} (limit : ℕ) (calls : Runner R Saved) (draft verified : List ℕ) (bonus : ℕ)
    (s : Target R)
    → ((r : R) → calls.restore (calls.capture r) (calls.forward draft s.cursor r) ≡ r)
    → 0 < length draft
    → length draft ≤ limit
    → length draft ≤ length verified
    → (kept : List ℕ) × (m : ℕ) × (emitted_tokens limit draft
          (take (length draft) verified ++ bonus ∷ [])
        ≡ ok (kept, m))
      × (verify_window limit calls draft verified bonus s
          ≡ ok (
            record {
              accepted = m;
              rejected = length draft - m;
              ratio = acceptance m (length draft - m);
              kept = kept;
            },
            record {
              runner = calls.forward kept s.cursor s.runner;
              cursor = s.cursor + length kept;
              tape = take s.cursor s.tape ++ kept;
            },
          ))
unfolding verify_window
verify_window-emitted limit calls draft verified bonus s undone some_draft fits enough =
    let m = matching draft verified in
    let (token, next, emitted) =
      next_token-emitted limit draft verified bonus some_draft fits enough in
    let kept = take m draft ++ token ∷ [] in
    let prefix : accepted_prefix limit draft verified ≡ ok m = ground arith in
    let short : ltb (length verified) (length draft) ≡ false = ground arith in
    (
      kept,
      m,
      emitted,
      rw (short, prefix, next)
          (ap
            (λ r. ok (
              record {
                accepted = m;
                rejected = length draft - m;
                ratio = acceptance m (length draft - m);
                kept = kept;
              },
              record {
                runner = calls.forward kept s.cursor r;
                cursor = s.cursor + length kept;
                tape = take s.cursor s.tape ++ kept;
              },
            ))
            (undone s.runner)),
    )
