-- ===== src/Tests/Service.antt =====
-- The worker on the computing session, and a full promotion report.
use qwarz.Base.{ℕ, ◌≡◌, refl, true, false, none, some, List, [], ◌∷◌, length}
use qwarz.Base.Int.{ℤ}
use qwarz.Base.Texts.{codes}
use qwarz.Parsing.Json.{Json, Jsons, Members, items, get_member}
use qwarz.Session.{Session}
use qwarz.Session.Generate.{generate}
use qwarz.Parsing.Feed.{Channel}
use qwarz.Engine.{Thinking}
use qwarz.Chat.Finish.{TurnStatus}
use qwarz.Base.Outcome.{ok}
use qwarz.Worker.State.{Calls, Worker, Line, Event, ChatTurn, Prompt}
use qwarz.Worker.{push}
use qwarz.Worker.Idle.{Idle, Served, push-Idle, push-Served}
use qwarz.Gate.{cells, gate_names, promotion_allowed}
use qwarz.Gate.Whole.{Opened, promotion_allowed-Opened}
use qwarz.Tests.Machine.{cpu_engine}
use qwarz.Tests.Sessions.{cpu_hardware, short_turn, cold}
use qwarz.Tests.Requests.{Value, Fields, string, field, one}

abbrev CpuSession : Type 0
CpuSession = Session cpu_engine (Unit {0})

-- the ids of a request, which are natural numbers here
abbrev token_ids : List Value → List ℕ
token_ids [] = []
token_ids (Json.integer (ℤ.pos n) ∷ rest) = n ∷ token_ids rest
token_ids (other ∷ rest) = 0 ∷ token_ids rest

-- a prepared chat of two ids, and the turn that answers it
abbrev prompt : Prompt (Unit {0})
prompt = record {
  tokens = 0 ∷ 1 ∷ [];
  assistant_start = 1;
  messages = [];
  segments = [];
  header = codes "h";
  max_new = 4;
  stop = 9;
  thinking = Thinking.off;
  tools = Json.null;
  tool_choice = Json.null;
  reasoning_cap = 0;
  close_ids = [];
  temperature = none;
  top_p = none;
  vocab = none;
  cuts = [];
  seed = 0;
  images = [];
}

abbrev chat_turn : ChatTurn
chat_turn = record {
  ended = record {
    status = TurnStatus.incomplete;
    incomplete_reason = none;
    message = record { content = codes "hi"; reasoning_content = []; tool_calls = [] };
  };
  tokens = 2 ∷ [];
  cached_tokens = 0;
}

abbrev calls : Calls (Unit {0}) CpuSession
calls = record {
  generate = λ ids n poll s.
      generate cpu_hardware 2 (record short_turn { max_new = n; cancel = some poll })
        (token_ids (items ids)) s;
  tape = λ s. s.tape;
  promotion_allowed = λ report. false;
  emits = false;
  has_tokenizer = true;
  prepare = λ asked parent s. ok prompt;
  run_turn = λ prompt id poll s. (((Channel.content_channel, codes "hi") ∷ [], ok chat_turn), s);
}

abbrev idle_worker : Worker CpuSession
idle_worker = record { session = cold; active = none; cancel = none; pending_cancel = none }

idle_worker-Idle : Idle idle_worker
idle_worker-Idle = record { no_active = refl; no_cancel = refl }

abbrev ids : Jsons (Unit {0})
ids = Jsons.cons (Json.integer (ℤ.pos 0)) (Jsons.cons (Json.integer (ℤ.pos 1)) Jsons.nil)

abbrev request : Fields
request = field "ids" (Json.array ids) Members.end

abbrev generate_r1 : Fields
generate_r1 =
    field "op" (string "generate")
      (field "id" (string "r1") (field "request" (Json.object request) Members.end))

abbrev cancel_r1 : Fields
cancel_r1 = field "op" (string "cancel") (field "id" (string "r1") Members.end)

push-Idle_example :
    Idle (push calls (λ n. false) [] (Line.command (Json.object cancel_r1)) idle_worker).1
push-Idle_example =
    push-Idle calls (λ n. false) [] (Line.command (Json.object cancel_r1)) idle_worker
      idle_worker-Idle

abbrev chat_r1 : Fields
chat_r1 =
    field "op" (string "generate") (
      field "id" (string "r1")
        (field "request" (one "messages" (Json.array Jsons.nil)) Members.end))

push-Served_example :
    Served
      (codes "r1")
      (push calls (λ n. false) [] (Line.command (Json.object chat_r1)) idle_worker)
push-Served_example =
    push-Served calls (λ n. false) [] chat_r1 (codes "r1") idle_worker idle_worker-Idle
      (unfold get_member in refl) (unfold get_member in refl)

-- a chat begins, tells its text, and ends
chat_told :
    (push calls (λ n. false) [] (Line.command (Json.object chat_r1)) idle_worker).0
    ≡ ok (
        Event.started (codes "r1") 2
        ∷ Event.delta (codes "r1") Channel.content_channel (codes "hi")
        ∷ Event.turned
            (codes "r1")
            TurnStatus.incomplete
            (record {
              prompt_tokens = 2;
              completion_tokens = 1;
              total_tokens = 3;
              cached_tokens = 0;
            })
            chat_turn.ended.message
            (2 ∷ [])
            none
        ∷ [])
unfolding push get_member
chat_told = refl

-- every cell passed
abbrev all_passed : List (List ℕ) → Fields
all_passed [] = Members.end
all_passed (cell ∷ rest) = Members.member cell (one "passed" (Json.boolean true)) (all_passed rest)

abbrev all_true : List (List ℕ) → Fields
all_true [] = Members.end
all_true (name ∷ rest) = Members.member name (Json.boolean true) (all_true rest)

abbrev report : Fields
report =
    field "cells" (Json.object (all_passed cells))
      (field "gates" (Json.object (all_true gate_names)) Members.end)

promotion_allowed-Opened_example : Opened report
promotion_allowed-Opened_example =
    promotion_allowed-Opened report (unfold promotion_allowed in refl)

thirty_seven_cells : length cells ≡ 37
unfolding cells
thirty_seven_cells = refl
