-- ===== src/Lib.antt =====
-- Rong: the parts of the JavaScript runtime that are state machines of their own, modelled from the
-- Rust source and proved.
--
-- The program embeds a JavaScript engine (arkjs, quickjs, javascriptcore) behind core/. The modules
-- under modules/ add what scripts expect of a host, and rong_rt/ does the network. An event emitter
-- (modules/rong_event) carries `EventEmitter`, `EventTarget` and `AbortSignal`, whose abort also
-- reaches native code over a watch channel (modules/rong_abort). Server-sent events
-- (rong_rt/src/sse.rs) are read by a worker task that connects, parses, hands events over a channel
-- and reconnects. Timers (modules/rong_timer) sleep on the host executor and queue ticks for a task
-- of the context, which runs the callbacks. `URLSearchParams` (modules/rong_url) writes its pairs
-- back to the URL that it belongs to. Cron expressions (modules/rong_cron) are brought into a normal
-- form and handed to a scheduler. Streams (modules/rong_stream) move the ends of channels between
-- slots, readers, writers and tasks; bodies and files are read and written through them. Blobs
-- (modules/rong_buffer) and headers (modules/rong_http) are the values that requests carry.
-- Downloads (rong_rt/src/download.rs) are written beside their destination and can be resumed.
--
-- Files:
-- - Abort: modules/rong_abort/src, the signal, its receivers, the controller and the static methods;
--   Abort.Receivers and Abort.Any have the proofs.
-- - Base: names shared by all; Base.Compare, Base.Lists and Base.Assoc have Boolean tests over the
--   native numbers, lists, and the association list that stands for a `HashMap`.
-- - Blob: modules/rong_buffer/src/blob.rs and file.rs; Blob.Slice is about the indices of `slice`,
--   Blob.Parts about the parts, their line endings, the type, and files that are refused.
-- - Cron: modules/rong_cron/src/lib.rs, `normalize_expression` and `scheduler_expressions`;
--   Cron.Fields is about the fields of what is scheduled. Cron.Jobs has the registry of a context
--   with the scheduled closures and the task that calls back, as steps in any order.
-- - Download: rong_rt/src/download.rs, `download_resource` from the answer on; Download.Range has the
--   header Content-Range, Download.Follow the redirects and the whole. Download.Body, Download.Keeps
--   and Download.Success have the proofs.
-- - Text: the `str` operations that the source uses; Text.Utf8 and Text.Number have
--   `from_utf8_lossy` and `parse::<u64>`, Text.Encode has `encode_utf8`. Text is a list
--   of code points or of bytes.
-- - Event: modules/rong_event/src/event_emitter.rs, the listener table and each operation on it.
--   Event.Emit has `do_emit`, where a callback is any function of the emitter and of the rest of
--   the state that may throw; Event.View and the modules below Event.Emit have the proofs.
-- - Headers: modules/rong_http/src/header.rs over an interface for the map of the http crate;
--   Headers.Calls compares it with a list of values for each name.
-- - Stream: modules/rong_stream/src. Stream.Readable has the slots and readers of readable.rs,
--   Stream.Readable.Calls a stream with its readers under calls in any order, where a call that
--   waits in `recv` begins and ends; Owner, Locked, Cancelled and Released beside it have the proofs.
--   Stream.Channel is the sending half of a channel and Stream.Slots has lists read by index.
--   Stream.Tee, Stream.Controller and Stream.Source are `tee`, the controller, and the task that
--   reads a native reader, with the registry of these tasks; Stream.Tee.Stalled is about a branch
--   that is not read. Stream.Writable is writable.rs, with the task of a native writer in
--   Stream.Writable.Task. Stream.Pump has the loops of `pipeTo` and Stream.Pipe the method;
--   Stream.Pipe.Fast is about a channel as its destination, Stream.Pipe.Slow about a sink object.
--   Stream.Copy puts reader, pipe and writer together.
-- - Sse: rong_rt/src/sse.rs. Sse.Destination has `to_url` and `parse_destination`; Sse.Parse has
--   `parse_available_events` and `flush_pending_event`; Sse.Worker has `run_sse_worker`, with
--   `build_sse_request` in Sse.Worker.Build. Below them stand the proofs.
-- - Timer: modules/rong_timer/src/lib.rs and sleep.rs, the registry and each operation on it, with
--   Timer.Step for the executor's tasks, their wrappers and the receiver in any order; Timer.Frame,
--   Timer.Counted and Timer.Firing are about how often a callback is called, Timer.Paced,
--   Timer.Sending and Timer.Queue about the ticks that wait.
-- - Url: modules/rong_url/src/url_search_params.rs and the part of url.rs that shares a query with
--   it. Url.Set, Url.Sort and Url.Sync have the proofs.
--
-- How it is modelled: a function that changes its arguments returns them; an error is a value of a
-- result type. A `JSFunc` or `JSSymbol` is its identity, a number. What the network does is a
-- script, one `Attempt` for each round of the worker's loop; `listening` tells whether the consumer
-- still holds the channel's receiver. The crates `http` and `url` are parameters, and so is the
-- range of a shared buffer. What a channel gives to a stream, and what the functions of a sink
-- object throw, are inputs; a `Sender` says how many sends succeed before its receiver is dropped,
-- the branches of `tee` also how many find room, and a receiver is a value that is moved from owner
-- to owner. Casts to `u32` and `u64` and saturating steps are written out. `parse_lines` runs on
-- fuel: each round takes a newline out of the buffer, so that the buffer's length is enough, and
-- `parse_available_events` gives just that. `set_loop` runs on fuel: each round comes one pair
-- nearer to the end, so that one round more than there are pairs is enough. The worker's loop runs
-- over its script. A timer's id is the counter modulo `2 ^ 32`; what is said of ids holds while at
-- most `2 ^ 32` timers are made.
--
-- Not modelled: the engine bindings and the conversion of values, locks that one thread takes, the
-- timeouts, the waiting for room in a channel but for the two of `tee`, the conversion of a
-- delay to whole milliseconds, stream compression, the iterators of headers, and the modules that
-- only call a library.
pub mod Abort
pub mod Base
pub mod Blob
pub mod Cron
pub mod Download
pub mod Event
pub mod Headers
pub mod Stream
pub mod Text
pub mod Sse
pub mod Timer
pub mod Url
