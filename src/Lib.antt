-- ===== src/Lib.antt =====
-- The hellohq-wasm-runtime crate (src/*.rs): a WebAssembly plugin runtime behind a C ABI. A plugin's
-- outbound HTTP takes one of two paths. A `wasi:http@0.3` request is framed out to the app, which
-- applies its own policy; a `wasi:http@0.2` request is sent from Rust, behind the fetch gate and the
-- header policy.
--
-- Files:
-- * Prelude, Prelude/*: shared names, Boolean tests, lists, `Result`.
-- * Str, Str/*: the operations of Rust's `str` that the crate uses, over lists of Unicode scalar
--   values, with their laws. The standard library is modelled where the crate calls it.
-- * Frames, Frames/*: src/wasi_http_frames.rs, the kind-tagged OUT frames. `encode`, `decode` and
--   `parse_request_frames` keep the source's names; the loop's two mutable variables are the record
--   `Progress`.
-- * FetchGate, FetchGate/*: src/fetch_gate.rs. Address holds `is_blocked_*` with the `std::net` methods
--   they call, IpText the `IpAddr` parser of `std::net`, Gate `origin_allowed` and `check_request`.
--   Ranges, Masks and Mapped compare the address checks with CIDR ranges; Origin and Permit say what
--   the gate lets through.
-- * RequestPolicy, RequestPolicy/*: src/request_policy.rs, the header lists, name classes and the two
--   sanitizers.
-- * Http, Http/*: src/wasi_http.rs. Table is `Table<T>`, an association list that the rest sees
--   only through its laws; Entries is `FieldsData`, Data the other backing records and the host;
--   Fields, Message and Options are the host's methods, which return the new host with their
--   result. Multimap is the abstract view of `fields`. Head, Hex and Trailers are the transport
--   framing, Lines and RoundTrip its theorems; View is what the getters of a request show. Streams
--   and futures of Wasmtime are opaque.
-- * P3Session, P3Session/*: src/lib.rs, `HwrP3Session`. `System` is the session's fields with the
--   event channel and the worker; the worker's guest is any tree of host calls. Drive is a caller's
--   loop, Abi the same through the `hwr_p3_*` functions, Drop the steps of both sides in any order,
--   Ends what is polled after the end.
-- * P3Stream, P3Stream/*: src/lib.rs, `HwrP3Stream`, in the same way; Trace compares what the
--   caller reads with the driver's own events, in any interleaving, Abi does so through the
--   `hwr_p3s_*` functions, and Drop is the join after a drop.
-- * Pointer (src/lib.rs): the byte pointers of the C interface.
-- * Limits, Limits/*: src/limits.rs, the fuel budget and the classification of traps. An error is
--   its messages as Wasmtime prints them.
-- * StorageEvents, StorageEvents/*: src/storage_events.rs, the gated storage with its quotas and
--   the capped event sink.
-- * Base64, Base64/*: src/plugin_host_bytes.rs, the codec of byte fields.
-- * Http/Handler, Http/Handler/*: src/wasi_http.rs, `handle` and `handle_via_transport`. Handler is
--   the host with its transport and the monad of the steps; Send is the request's half, Response
--   the answer's, Serve puts them together, Streams are the three ends that Wasmtime polls. Quiet,
--   Reached, Reported, Emitted, Exchange and Rejects say what is sent, Answer, ReadBack and Respond
--   what comes back, Budget how long the trailers are waited for. Str/Decimal prints and parses its
--   decimals.
-- * WasiGuests, WasiGuests/*: src/wasi_guests.rs, `GatedHttpHooks` (Hooks) over any header map
--   (Headers); Retained and Safe are their theorems.
-- * Capstone, Capstone/*: src/capstone.rs, the harness over StorageEvents; Calls are a plugin's
--   calls on it, Confined what a plugin without the grant can do.
-- * PluginHost, PluginHost/*: the typed hosts that forward as JSON. Workspace is
--   src/plugin_host.rs, Storage src/plugin_host_storage_events.rs, Full src/plugin_host_full.rs;
--   Replies, Granted, Stored and Decoded are their theorems. The blocking round trip is one call of
--   the app.
-- * Inference, Inference/*: src/inference.rs, `complete` and its token stream; Framing is about the
--   head.
-- * JitMemory, JitMemory/*: src/jit_memory.rs, module `macos`: the pending and the owned mappings,
--   the publish hook and `load`. `created` and `unmapped` are a record of the calls of `mmap` and
--   `munmap`.
-- * Tests, Tests/*: runs on concrete inputs.
--
-- Numbers are natural numbers. An octet or a segment of an address is a number with its bound as a
-- hypothesis where a theorem needs it. The caller that drives a session counts its polls, with the
-- guest's requests and one as enough; a decimal is printed in one round more than its number, and the
-- wait for a request's trailers has the code's own budget of 64 yields; every other loop recurs on its
-- input. Tasks that run while the host waits are a function on the host, called at each wait.
--
-- What other libraries do is an argument: the streams and futures that Wasmtime pipes and mints, the
-- loaders and the code-memory hook's calls, `hyper::HeaderMap` with its laws, the sender of a
-- `wasi:http@0.2` request, `serde_json` on bytes and the app that answers it, and the printing of
-- floats.
--
-- Not modelled: the set-up of Wasmtime's engines, stores and linkers, the async executor, the WASI
-- bindings, the system calls and the write window of the JIT code memory, the store state of a
-- `wasi:http@0.2` guest, threads and their joins, the typed sessions of `p3_run_session_sync`,
-- whose guests go on after a cancelled call, and the C entry points that start sessions, compile
-- components or test the library.
pub mod Base64
pub mod Capstone
pub mod FetchGate
pub mod Frames
pub mod Http
pub mod Inference
pub mod JitMemory
pub mod Limits
pub mod P3Session
pub mod P3Stream
pub mod PluginHost
pub mod Pointer
pub mod Prelude
pub mod RequestPolicy
pub mod StorageEvents
pub mod Str
mod Tests
pub mod WasiGuests
