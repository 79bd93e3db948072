-- ===== src/Service.antt =====
-- `serve` of src/qwasar_runtime/worker.py: the thread that reads commands, and the loop that runs one
-- generation after another. Each function is what one thread does between two points at which the
-- other may run: the body of a `with state_lock`, a queue's `get` or `put`, or an `emit`.
pub mod Tidy
use qwarz.Base.{
  ℕ, String, suc, ◌+◌, Bool, true, false, ◌||◌, not, Option, none, some, List, [], ◌∷◌, ◌++◌, map,
  length, ltb, if◌then◌else◌,
}
use qwarz.Base.Texts.{codes}
use qwarz.Cycle.Suffix.{same}
use qwarz.Parsing.Json.{Json, Members, get_member}
use qwarz.Worker.State.{Line}
use qwarz.Worker.{operation_of}

-- the `RequestError` of a refused command; what `parse_json` says is not told
pub data Refusal : Type 0 where
  invalid_request : String → Refusal
  unreadable : Refusal
  runtime_busy : Refusal

-- A job has the number of its `threading.Event`.
pub record Job (Real : Type 0) : Type 0 where
  pub id : List ℕ
  pub request : Option (Json Real)
  pub parent : Option (Json Real)
  pub cancellation : ℕ

-- what the worker writes: `E` are the events of `engine.generate`
pub data Message (E : Type 0) : Type 0 where
  ready : Message E
  terminal_error : List ℕ → Refusal → Message E
  event : E → Message E

-- Where the reading thread stands: at `readline`, at the `emit` of an error, at the `finally`, at
-- `jobs.put(None)`, or behind it. `queue.Full` is no error that the loop catches, and ends it.
pub data Reader : Type 0 where
  reading : Reader
  refusing : List ℕ → Refusal → Reader
  leaving : Bool → Reader
  closing : Bool → Reader
  closed : Bool → Reader

-- Where the main loop stands: at `jobs.get()`, in `engine.generate` before or behind its terminal
-- event, at the `emit` of an event, or returned.
pub data Main (Real E : Type 0) : Type 0 where
  waiting : Main Real E
  running : Job Real → Main Real E
  done : Job Real → Main Real E
  telling : E → Job Real → Main Real E
  telling_last : E → Job Real → Main Real E
  returned : Main Real E

-- `active` maps an id to its event, `fired` are the events that are set.
pub record Serve (Real E : Type 0) : Type 0 where
  pub jobs : List (Option (Job Real))
  pub active : List (List ℕ × ℕ)
  pub fired : List ℕ
  pub next_event : ℕ
  pub reader : Reader
  pub main : Main Real E
  pub output : List (Message E)

abbrev pub Active : Type 0
Active = List (List ℕ × ℕ)

-- `active.get(id)`
unfoldable pub find_active : List ℕ → Active → Option ℕ
find_active id [] = none
find_active id ((key, e) ∷ active) =
    let rest = find_active id active in if same key id then some e else rest

-- `active[id] = e`
unfoldable pub set_active : List ℕ → ℕ → Active → Active
set_active id e [] = (id, e) ∷ []
set_active id e ((key, old) ∷ active) =
    if same key id then (id, e) ∷ active else (key, old) ∷ set_active id e active

-- `active.pop(id, None)`
unfoldable pub pop_active : List ℕ → Active → Active
pop_active id [] = []
pop_active id ((key, e) ∷ active) = if same id key then active else (key, e) ∷ pop_active id active

-- `for cancellation in active.values(): cancellation.set()`
abbrev pub events_of : Active → List ℕ
events_of [] = []
events_of ((key, e) ∷ active) = e ∷ events_of active

-- `Queue(maxsize=1)`
abbrev pub is_full : {Real : Type 0} → List (Option (Job Real)) → Bool
is_full [] = false
is_full (job ∷ jobs) = true

module _ {Real E : Type 0} where
  abbrev pub refuse : List ℕ → Refusal → Serve Real E → Serve Real E
  refuse id refusal s = record s { reader = refusing id refusal }

  -- `jobs.put_nowait(job)` on a queue with room, or the `queue.Full` that ends the loop
  unfoldable pub put_nowait : Job Real → Bool → Serve Real E → Serve Real E
  put_nowait job true s = record s { reader = leaving true }
  put_nowait job false s = record s { jobs = s.jobs ++ some job ∷ [] }

  unfoldable pub accept_with : Active → List ℕ → Members Real → Serve Real E → Serve Real E
  unfolding put_nowait set_active get_member
  accept_with (a ∷ active) id payload s = refuse id runtime_busy s
  accept_with [] id payload s =
      let job : Job Real = record {
        id = id;
        request = get_member (codes "request") payload;
        parent = get_member (codes "parent") payload;
        cancellation = s.next_event;
      } in
      put_nowait job (is_full s.jobs)
        (record s { active = set_active id s.next_event []; next_event = suc s.next_event })

  -- `if active: raise ...`, and the new job
  unfoldable pub accept : List ℕ → Members Real → Serve Real E → Serve Real E
  unfolding accept_with
  accept id payload s = accept_with s.active id payload s

  unfoldable pub fire_found : Option ℕ → Serve Real E → Serve Real E
  fire_found none s = s
  fire_found (some e) s = record s { fired = e ∷ s.fired }

  unfoldable pub cancel_job : List ℕ → Serve Real E → Serve Real E
  unfolding fire_found find_active
  cancel_job id s = fire_found (find_active id s.active) s

  unfoldable pub run_operation : List ℕ → Members Real → List ℕ → Serve Real E → Serve Real E
  unfolding accept cancel_job
  run_operation id payload operation s =
      if same operation (codes "shutdown")
      then record s { fired = events_of s.active ++ s.fired; reader = leaving false }
      else (if same operation (codes "cancel")
          then cancel_job id s
          else (if not (same operation (codes "generate"))
                || ltb (length id) 1
                || ltb 256 (length id)
              then refuse id
                  (invalid_request "generate needs a nonempty id of at most 256 characters") s
              else accept id payload s))

  unfoldable pub read_id : Members Real → Option (Json Real) → Serve Real E → Serve Real E
  unfolding run_operation get_member
  read_id payload none s =
      run_operation [] payload (operation_of (get_member (codes "op") payload)) s
  read_id payload (some (Json.text id)) s =
      run_operation id payload (operation_of (get_member (codes "op") payload)) s
  read_id payload (some other) s = refuse [] (invalid_request "request id must be a string") s

  -- one round of `read_input`; `none` is the end of the input
  unfoldable pub read_line : Option (Line Real) → Serve Real E → Serve Real E
  unfolding read_id get_member
  read_line none s = record s { reader = leaving false }
  read_line (some Line.too_long) s =
      refuse [] (invalid_request "worker protocol line exceeds 32 MiB") s
  read_line (some Line.not_json) s = refuse [] unreadable s
  read_line (some (Line.command (Json.object payload))) s =
      read_id payload (get_member (codes "id") payload) s
  read_line (some (Line.command other)) s =
      refuse [] (invalid_request "protocol command must be an object") s

  -- `emit(terminal_error(...))`
  unfoldable pub tell_refusal : List ℕ → Refusal → Serve Real E → Serve Real E
  tell_refusal id refusal s = record s {
    reader = reading;
    output = s.output ++ terminal_error id refusal ∷ [];
  }

  -- an exception of that `emit`, which goes through to the `finally`
  unfoldable pub fail_refusal : Serve Real E → Serve Real E
  fail_refusal s = record s { reader = leaving false }

  -- the `finally` of `read_input`
  unfoldable pub leave : Bool → Serve Real E → Serve Real E
  leave full s = record s { fired = events_of s.active ++ s.fired; reader = closing full }

  -- `jobs.put(None)`, on a queue with room
  unfoldable pub put_end : Bool → Serve Real E → Serve Real E
  put_end full s = record s { jobs = s.jobs ++ none ∷ []; reader = closed full }

  -- `jobs.get()`
  unfoldable pub get_job :
      Option (Job Real) → List (Option (Job Real)) → Serve Real E → Serve Real E
  get_job none rest s = record s { jobs = rest; main = returned }
  get_job (some job) rest s = record s { jobs = rest; main = running job }

  -- an event that `engine.generate` yields, and whether its type is "terminal"
  unfoldable pub yield_event : Bool → E → Job Real → Serve Real E → Serve Real E
  unfolding pop_active
  yield_event true e job s = record s {
    active = pop_active job.id s.active;
    main = telling_last e job;
  }
  yield_event false e job s = record s { main = telling e job }

  unfoldable pub tell : E → Main Real E → Serve Real E → Serve Real E
  tell e next s = record s { main = next; output = s.output ++ event e ∷ [] }

  -- the `finally` behind a generation, and an exception that goes on
  unfoldable pub end_job : Bool → Job Real → Serve Real E → Serve Real E
  unfolding pop_active
  end_job raised job s = record s {
    active = pop_active job.id s.active;
    main = if raised then returned else waiting;
  }

  abbrev pub start : Serve Real E
  start = record {
    jobs = [];
    active = [];
    fired = [];
    next_event = 0;
    reader = reading;
    main = waiting;
    output = ready ∷ [];
  }
