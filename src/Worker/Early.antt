-- ===== src/Worker/Early.antt =====
-- A cancel that comes before its generate (engine/forward/worker.py, `note_cancel` and `_begin`).
use qwarz.Base.{ℕ, ◌≤◌, ◌≡◌, some, List, length}
use qwarz.Base.Texts.{codes}
use qwarz.Parsing.Json.{Json, Jsons, Members, get_member}
use qwarz.Worker.State.{Worker}
use qwarz.Worker.{budget_of}
use qwarz.Worker.Idle.{Idle}

-- the fields of a command to cancel an id
pub record CancelOf {Real : Type 0} (id : List ℕ) (payload : Members Real) : Type 0 where
  pub has_id : get_member (codes "id") payload ≡ some (Json.text id)
  pub has_op : get_member (codes "op") payload ≡ some (Json.text (codes "cancel"))

-- the fields of a command to generate from raw ids, with a valid id and budget
pub record GenerateOf {Real : Type 0} (id : List ℕ) (ids : Jsons Real) (max_new : ℕ)
    (request payload : Members Real) : Type 0 where
  pub has_id : get_member (codes "id") payload ≡ some (Json.text id)
  pub has_op : get_member (codes "op") payload ≡ some (Json.text (codes "generate"))
  pub has_request : get_member (codes "request") payload ≡ some (Json.object request)
  pub has_ids : get_member (codes "ids") request ≡ some (Json.array ids)
  pub has_budget : budget_of (get_member (codes "max_new") request) ≡ some max_new
  pub some_code : 1 ≤ length id
  pub short : length id ≤ 256
