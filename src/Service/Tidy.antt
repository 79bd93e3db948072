-- ===== src/Service/Tidy.antt =====
-- What holds of the service of src/qwasar_runtime/worker.py between two steps of its threads.
pub mod Read
pub mod Kept
pub mod Cancel
use qwarz.Base.{
  ℕ, ◌≤◌, ◌≡◌, refl, Bool, true, false, Option, none, some, List, [], ◌∷◌, ◌++◌, length,
  if◌then◌else◌, arith,
}
use qwarz.Base.Texts.{codes}
use qwarz.Cycle.Suffix.{same}
use qwarz.Parsing.Json.{Json, get_member}
use qwarz.Worker.State.{Line, is_id}
use qwarz.Worker.{operation_of}
use qwarz.Service.{
  Job, Refusal, Reader, Main, Serve, Active, put_nowait, accept_with, accept, cancel_job,
  fire_found, run_operation, read_id, read_line, tell_refusal, fail_refusal, leave, put_end,
  get_job, yield_event, tell, end_job, start, find_active, set_active, pop_active, is_full,
}

-- the id that a line asks a generation for
unfoldable pub asked_with : {Real : Type 0} → Option (Json Real) → List ℕ → Option (List ℕ)
asked_with (some (Json.text id)) operation =
    if same operation (codes "generate") then some id else none
asked_with _ operation = none

unfoldable pub asked : {Real : Type 0} → Option (Line Real) → Option (List ℕ)
unfolding asked_with get_member
asked (some (Line.command (Json.object payload))) =
    asked_with (get_member (codes "id") payload) (operation_of (get_member (codes "op") payload))
asked _ = none

-- the id of a generation that is told to its end, and not yet behind the loop's `finally`
abbrev pub finishing : {Real E : Type 0} → Main Real E → Option (List ℕ)
finishing (Main.done job) = some job.id
finishing (Main.telling_last e job) = some job.id
finishing _ = none

abbrev pub entry : {Real : Type 0} → Job Real → List ℕ × ℕ
entry job = (job.id, job.cancellation)

-- the job of the loop while it is registered, and that of the queue
abbrev pub own : {Real E : Type 0} → Main Real E → Active
own (Main.running job) = entry job ∷ []
own (Main.telling e job) = entry job ∷ []
own _ = []

abbrev pub queued : {Real : Type 0} → List (Option (Job Real)) → Active
queued [] = []
queued (none ∷ jobs) = queued jobs
queued (some job ∷ jobs) = entry job ∷ queued jobs

abbrev pub has_end : {Real : Type 0} → List (Option (Job Real)) → Bool
has_end [] = false
has_end (none ∷ jobs) = true
has_end (some job ∷ jobs) = has_end jobs

abbrev pub clash : Option (List ℕ) → Active → Bool
clash id [] = false
clash id ((key, e) ∷ active) = if is_id id key then true else clash id active

abbrev pub is_closed : Reader → Bool
is_closed (Reader.closed full) = true
is_closed _ = false

-- the reader was ended by `queue.Full`
abbrev pub is_crashed : Reader → Bool
is_crashed (Reader.leaving full) = full
is_crashed (Reader.closing full) = full
is_crashed (Reader.closed full) = full
is_crashed _ = false

-- One generation at a time is registered: the one that runs or the one that waits, each with its
-- own event. The queue is within its bound, has the end only from a reader that is closed, and the
-- reader never met a full queue.
pub record IsTidy {Real E : Type 0} (s : Serve Real E) : Type 0 where
  pub registered : s.active ≡ own s.main ++ queued s.jobs
  pub alone : length (own s.main ++ queued s.jobs) ≤ 1
  pub room : length s.jobs ≤ 1
  pub ended : has_end s.jobs ≡ true → is_closed s.reader ≡ true
  pub distinct : clash (finishing s.main) (queued s.jobs) ≡ false
  pub calm : is_crashed s.reader ≡ false

-- One step of either thread. An `emit` may raise, which ends the reader or the loop's generation; a
-- generation may also raise or end without a terminal event.
pub data Step {Real E : Type 0} (s : Serve Real E) : Serve Real E → Type 0 where
  reads : (line : Option (Line Real)) → s.reader ≡ Reader.reading → Step s (read_line line s)
  refuses :
      (id : List ℕ) (r : Refusal) → s.reader ≡ Reader.refusing id r → Step s (tell_refusal id r s)
  refusal_fails :
      (id : List ℕ) (r : Refusal) → s.reader ≡ Reader.refusing id r → Step s (fail_refusal s)
  leaves : (full : Bool) → s.reader ≡ Reader.leaving full → Step s (leave full s)
  puts_end : (full : Bool) → s.reader ≡ Reader.closing full → s.jobs ≡ [] → Step s (put_end full s)
  gets :
      (job : Option (Job Real)) (rest : List (Option (Job Real)))
      → s.main ≡ Main.waiting
      → s.jobs ≡ job ∷ rest
      → Step s (get_job job rest s)
  yields :
      (last : Bool) (e : E) (job : Job Real)
      → s.main ≡ Main.running job
      → Step s (yield_event last e job s)
  tells :
      (e : E) (job : Job Real) → s.main ≡ Main.telling e job → Step s (tell e (Main.running job) s)
  tells_last :
      (e : E) (job : Job Real)
      → s.main ≡ Main.telling_last e job
      → Step s (tell e (Main.done job) s)
  telling_fails :
      (e : E) (job : Job Real) → s.main ≡ Main.telling e job → Step s (end_job true job s)
  last_fails :
      (e : E) (job : Job Real) → s.main ≡ Main.telling_last e job → Step s (end_job true job s)
  ends : (raised : Bool) (job : Job Real) → s.main ≡ Main.done job → Step s (end_job raised job s)
  stops :
      (raised : Bool) (job : Job Real) → s.main ≡ Main.running job → Step s (end_job raised job s)

-- The client does not ask for a generation under the id of the one before while the loop is between
-- its terminal event and the `finally` behind it. Nothing in the source makes a client wait so.
abbrev pub Waits : {Real E : Type 0} {s s' : Serve Real E} → Step s s' → Type 0
Waits {s} (Step.reads line at_line) =
    (id : List ℕ) → asked line ≡ some id → is_id (finishing s.main) id ≡ false
Waits _ = Unit {0}

-- the states that a service reaches
pub data Reached {Real E : Type 0} : Serve Real E → Type 0 where
  started : Reached start
  next : {s s' : Serve Real E} → Reached s → Step s s' → Reached s'

-- the client waited at every step on the way
abbrev pub Waited : {Real E : Type 0} {s : Serve Real E} → Reached s → Type 0
Waited Reached.started = Unit {0}
Waited (Reached.next before step) = Waited before × Waits step
