-- ===== src/Tests/Services.antt =====
-- Runs of the service and of `verify_window`.
use qwarz.Base.{
  ℕ, ◌≡◌, refl, ◌+◌, ◌-◌, Option, none, some, List, [], ◌∷◌, ◌++◌, length, take, arith,
}
use qwarz.Base.Outcome.{ok}
use qwarz.Base.Texts.{codes}
use qwarz.Parsing.Json.{Json, Members, get_member}
use qwarz.Worker.State.{Line}
use qwarz.Mtp.{acceptance, emitted_tokens}
use qwarz.Mtp.Verify.{Runner, Target, verify_window}
use qwarz.Mtp.Verify.{verify_window-emitted}
use qwarz.Service.{Job, Serve, Main, start, read_line, read_id, run_operation, accept, get_job}
use qwarz.Service.Tidy.{IsTidy, Step, Reached, Waited}
use qwarz.Service.Tidy.Cancel.{Reached-IsTidy}

-- a runner that remembers what was written where
abbrev log_runner : Runner (List (List ℕ × ℕ)) (List (List ℕ × ℕ))
log_runner = record {
  capture = λ r. r;
  forward = λ ids at r. (ids, at) ∷ r;
  restore = λ before r. before;
}

abbrev two_written : Target (List (List ℕ × ℕ))
two_written = record { runner = []; cursor = 2; tape = 7 ∷ 8 ∷ [] }

verify_window-emitted_example :
    (kept : List ℕ) × (m : ℕ) × (emitted_tokens 6
        (1 ∷ 2 ∷ 3 ∷ [])
        (take 3 (1 ∷ 5 ∷ 3 ∷ []) ++ 9 ∷ [])
      ≡ ok (kept, m))
    × (verify_window 6 log_runner (1 ∷ 2 ∷ 3 ∷ []) (1 ∷ 5 ∷ 3 ∷ []) 9 two_written
        ≡ ok (
          record {
            accepted = m;
            rejected = length {A = ℕ} (1 ∷ 2 ∷ 3 ∷ []) - m;
            ratio = acceptance m (length {A = ℕ} (1 ∷ 2 ∷ 3 ∷ []) - m);
            kept = kept;
          },
          record {
            runner = log_runner.forward kept 2 [];
            cursor = 2 + length kept;
            tape = take 2 (7 ∷ 8 ∷ []) ++ kept;
          },
        ))
verify_window-emitted_example =
    verify_window-emitted 6 log_runner (1 ∷ 2 ∷ 3 ∷ []) (1 ∷ 5 ∷ 3 ∷ []) 9 two_written (λ r. refl)
      (omega arith) (omega arith) (omega arith)

abbrev a_command : Option (Line ℕ)
a_command = some (
    Line.command (
      Json.object (
        Members.member (codes "id") (Json.text (codes "r1"))
          (Members.member (codes "op") (Json.text (codes "generate")) Members.end))))

abbrev a_job : Job ℕ
a_job = record { id = codes "r1"; request = none; parent = none; cancellation = 0 }

-- the command is read, and the loop takes the job
abbrev accepted : Serve ℕ ℕ
accepted = read_line a_command start

abbrev taken : Serve ℕ ℕ
taken = get_job (some a_job) [] accepted

accepted_lem : accepted.jobs ≡ some a_job ∷ []
unfolding read_line read_id run_operation accept get_member
accepted_lem = refl

accepted-waiting : accepted.main ≡ Main.waiting
unfolding read_line read_id run_operation accept get_member
accepted-waiting = refl

abbrev taken-Reached : Reached taken
taken-Reached =
    Reached.next (Reached.next Reached.started (Step.reads a_command refl))
      (Step.gets (some a_job) [] accepted-waiting accepted_lem)

taken-Waited : Waited taken-Reached
taken-Waited = ((tt, λ id h. refl), tt)

Reached-IsTidy_example : IsTidy taken
Reached-IsTidy_example = Reached-IsTidy taken-Reached taken-Waited
