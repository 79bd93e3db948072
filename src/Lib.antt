-- ===== src/Lib.antt =====
-- Verification of the resident turn of qwarz, speculative decoding with an MTP draft model, where
-- one target forward verifies a window of drafted tokens.
--
-- Parts and files (paths from the repository's root):
-- - Base: numbers, lists, the errors of the Python code (Outcome), actions that change a state and
--   may raise (Action), and what holds when an action ends (Ends).
-- - Schedule: engine/forward/schedule.py. `suffix_bounds` with its loop `bounds_from`; the fuel of
--   the loop is the number of tokens left, since every round moves on.
-- - Mtp: engine/forward/mtp.py. `accepted_prefix`, `acceptance` (kept as two terms) and
--   `emitted_tokens`. Mtp/Greedy has the specification: decoding with one target call per token.
--   Verify: `verify_window`, over a runner whose answers to one forward are a parameter.
-- - Vision: engine/forward/vision.py. Image ids on the tape and the rows of a forward.
-- - Device: the runner, the draft model and the sampler as the Python code calls them. Kernels,
--   weights and the tensor library are parameters; `Laws` and `IsGreedyTarget` say what the turn
--   relies on: a forward at the resident cursor appends its ids, a capture can be restored, a GDN
--   rewind keeps a prefix of the last forward, the draft's cursor counts its rows, and the target's
--   answer depends on the ids that it holds only.
-- - Cycle: engine/forward/cycle.py. Suffix (`SuffixIndex`), Draft (`DraftCycle`), Turn (arguments
--   and helpers: `_forward`, `_samples`, `_stop_requested`), Prefill (`split_spans`, `prefill_held`),
--   Window (the body of the loop and `_apply_inject`), Loop (`continue_drafted`). A turn is an action
--   on `World`: the target, the cycle, the sampler's draws, the host's callbacks and the polls of the
--   cancel event. A callback is a function of the host's own state, so it may keep any state.
--   The loop runs on the token budget as fuel, and every window produces a token.
-- - Session: engine/forward/session.py. `Session` beside the runner's state, its prefix marks
--   (Marks), the ways back (`_zero`, `_restore_mark`, `_rewind_to_commit_or_zero`), and its
--   operations: Turns (commit, cancel, prefill), Generate, Forwards (turn). A session calls the cycle
--   with its own marks beside what the callbacks keep; an error or a cancellation restores the last
--   commit. Generate/Valid says what holds of it between two operations.
-- - Chat: engine/forward/chat.py. `_stream_piece` and `IncrementalText`, with the tokenizer
--   as a parameter whose byte-level decode is described by `ByteLevel`; `prefix_cuts` (Cuts);
--   `prepare_chat` with `_resolve_images` and `_segments` (Request, Prepare), where rendering and the
--   vision tower are parameters; the callback `on_accepted` of `run_turn` (Hook), and what `run_turn`
--   does behind `session.generate` up to its metrics (Finish). The parser's `finish` is that of Parsing.
-- - Parsing: src/qwasar_runtime/parsing.py. Feed (`StreamParser.feed`, with its loop unrolled by
--   channel, since it goes round again behind the end of thinking only), Json (the values), Schema
--   (`validate_schema`: the depth left is the recursion's fuel and running out is the source's own
--   error), Tools (`validate_tools`), Parts (`normalize_parts`), Messages (`validate_messages`), Calls
--   (`_parse_tool_calls`, whose fuel is the length of the text, since every round takes a tag off it).
--   What `re` and `json` do is a parameter; `str` methods are in Base/Texts. Coerce reads the
--   arguments of a call (`parse_tool_parameter`, `property_schemas`, `coerce_value`: the recursion is
--   on the schema), and Finish is `StreamParser.finish`: its loop runs on the length of the text as
--   fuel, since every call takes a tag off it, and `validate_value` is a parameter whose schema errors
--   are kept for a report and do not end the loop, as in the source.
-- - Gate: engine/forward/gate.py. The report that would open the cutover.
-- - Worker: engine/forward/worker.py. `push` with its commands, `_begin`, `_end`, `note_cancel`,
--   `request_stop` (State) and `_chat` (Chat). What it calls is the record `Calls`, so that it is read
--   without the engine; the tests give it `Session.generate`. Its `prepare_chat` and `run_turn` are
--   two of those calls; Chat models what they do.
-- - Service: src/qwasar_runtime/worker.py. `serve`: the reader thread and the main loop as the steps
--   of one relation, with the queue, the active job and the cancelled ids that both share. The steps
--   are free; `Waits` is what a client must keep to, and the source does not make it.
-- - Engine: src/qwasar_runtime/engine.py. The reasoning budget and the reasons of an incomplete turn.
-- - Images: src/qwasar_runtime/vision.py. The bounded cache of image embeddings.
-- - Tests: a small engine that computes, after the CPU runner of engine/forward/worker.py, and the
--   properties there.
--
-- Not modelled: host timings and metrics, the environment's settings other than the draft limit,
-- tensors (a row is a value of the engine), the sampler's arithmetic, `validate_value` and its
-- formats, the diagnostics that `finish` keeps for a report, the rendering of chats, the image
-- records and the reader thread of the resident worker (its cancels are arguments of `push`),
-- `prepare` and `generate` of the ExLlama runtime, the benchmarks, and the GPU, server and setup code:
-- they are calls of libraries or of devices, or measure what runs.
pub mod Base
pub mod Schedule
pub mod Service
pub mod Mtp
pub mod Vision
pub mod Device
pub mod Cycle
pub mod Session
pub mod Chat
pub mod Images
pub mod Gate
pub mod Parsing
pub mod Engine
pub mod Worker
pub mod Tests
