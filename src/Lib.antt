-- ===== src/Lib.antt =====
-- The verification library of mcp_velociraptor, an MCP server for Velociraptor with host tools for
-- collecting flows, transferring files and recording observations.
--
-- Parts, and the files that model them:
--   velo_flow/coordinator.py and the record of velo_flow/spec.py are Flow. The host tool waits for
--   a flow, reads the pages of its result and the list of its files through a session, and writes
--   what it reads to a run directory. `FlowHostCoordinator` and `OutputSink` are the one record
--   `Run` (Flow/Model); each method is a function of the same name: append_call, append_rows_page
--   and write_contract (Flow/Sink), _bounded, _call and _checked (Flow/Calls), _load_contract
--   (Flow/Contract), _wait_finished (Flow/Wait), _collect_pages, _extend_sample and _list_files
--   (Flow/Pages), run (Flow/Coordinator) and build_summary (Flow/Summary).
--   parse_spec of velo_flow/spec.py is Flow/Request: a check for each field, in the order of the code,
--   and the request that is read when none raises.
--   velo_transfer/wire.py is Wire: parse and the layout of a frame (Wire/Frame), validate, decode
--   and encode (Wire/Validate), the headers of a request (Wire/Headers), and the values of JSON (Json).
--   velociraptor_observation_journal.py is Journal: the class RequestJournal, one function for
--   each method (Journal/Model).
--   velociraptor_observation_workers.py is Workers: the class _WorkerGroup and the parts of
--   _owned_to_thread (Workers/Model), and the steps of handlers, threads and the controller in any
--   order that the program allows (Workers/Threads).
--   velociraptor_observation_attempts.py is Attempts: the class ArchiveAttemptLedger with its attempts
--   and its catalog (Attempts), begin (Attempts/Begin), and accept, finish and close with the steps of
--   a history (Attempts/Calls). A lease is the place of its attempt.
--   velo_transfer/http_budget.py and the loop of velo_transfer/http_wire.py that reads the body of a
--   request are Http (Http/Streams). Http/Streams takes the parts of a stream, how the stream ends,
--   and the messages of a connection as lists.
--   _phase_data of velo_transfer/host_journal.py, which checks the data of each save of the host's
--   journal, is Host (Host/Phases); an attempt to save is the part of `save` that this check decides.
--   velo_transfer/protocol.py is Protocol: the errors (Protocol/Faults), the validators of bindings
--   and destinations (Protocol/Fields) and of receipts, with their makers (Protocol/Receipts), the
--   object of GuestTerminal (Protocol/Terminal), its methods (Protocol/Machine), and its snapshot,
--   status and restore (Protocol/Snapshot), one function for each function or method, of the same name.
--   Protocol/Course lists the states that calls lead to, and the proofs go by these. A validator
--   returns the error that it raises, or none; `crash` is the TypeError of an argument given twice.
--   The other validators use the checks of Protocol/Faults too.
--   check_relative and _check_collisions of velo_transfer/manifest.py are Paths: a path is the list of
--   its code points, and Paths/Apart compares the names of files pair by pair.
--   _validate_json of velo_transfer/storage.py is Sizes. Sizes/Written has the text of a value in JSON,
--   byte by byte and apart from the code, and Sizes/Measure the length of that text as a function of
--   the value.
--   velo_transfer/result.py is Result: its parts (Result), the fields of a document
--   (Result/Document), and what an outcome asks, with validate_result, encode_result, decode_result,
--   result_exit_code and result_summary (Result/Outcome). It calls Paths, Sizes and Protocol/Fields.
--   velo_transfer/request.py is Request: the parts and the loop over the sources (Request),
--   _validate_document and load_request (Request/Document), _read_spec (Request/Spec), and
--   make_guest_request with request_digest of velo_transfer/guest_service.py (Request/Guest). A check
--   of several conditions with one code is one test where the code does not tell which of them failed.
-- Flow, Journal, Workers, Attempts, Sizes and Protocol are written in the methods of Proc: a method
-- takes the object and ends with a value or an exception, and with the object in either case, so what
-- was written before a raise is still there. Proc/Triple, Proc/Keeps and Proc/Handle have the rules for them.
--
-- Parameters, for code that is not in the repository or that reaches outside of the process:
--   World (Flow/Model) has the readings of the clock, which writes to files succeed, the ends of the
--   awaited calls of the session, the schema validator, and json.dumps with the encoding of its
--   text, which writes the contract, the calls, the rows and the markers of oversized records (the
--   code allows NaN in a marker, but no argument of a call is a real). The uses of the clock, the
--   files and the session are counted, so that two of them may answer differently.
--   Python (Flow/Request) has json.loads with its hooks, which integers have a float, the value of a
--   literal of a real, and what pathlib says of a path.
--   Wire takes SHA-256, json.loads, json.dumps and the list of error codes, which the module reads
--   from a schema file when it is imported.
--   Depends (Journal/Model) has the limits and the encoder of the archive codec, SHA-256, the
--   answers of the publisher, and whether its close succeeds.
--   canonical_json and digest_json of velo_transfer/manifest.py are json.dumps and SHA-256:
--   Protocol takes both, and Host the first one. The identifiers that uuid4 would give are arguments
--   of the calls that make them.
--   Disk (Request/Spec) has the answers of the system while a file is read.
--   Unicode (Paths) has the normal form NFC and str.casefold. Outside (Result) and Library (Request)
--   have uuid.UUID, json.dumps, the text of a number, str.lower, and the order of the reals
--   with the limits of a timeout. Parse (Result/Outcome) is what json.loads finds in bytes: the pairs of
--   each dict, as its hook gets them, and the value, if the text is well formed.
--   Approved (Attempts) has the budgets of the configuration, the encoder of the catalog, SHA-256, the
--   names of files and the form of a key; each step is given the answers of the directories, of the
--   publishers and of the journal of its request.
--   Each step in Workers is given whether the measuring hook, the start, the wake-up call and the join
--   of a thread succeed, and whether the deadline of the barrier has come.
--
-- Bounds and loops: numbers are unbounded, as Python's integers are. The loops over status calls,
-- result pages and pages of tools run at most max_status_calls, max_pages and 16 times and are
-- recursion on what is left of these, so no loop needs fuel; the loop of build_summary is recursion
-- on the length of the sample. A round of the barrier's loop is one step of a history.
--
-- Times are whole numbers of one small unit. `crash` stands for an exception that run does not
-- catch. A field that the code takes for a list is refused where it is none (Python would take the
-- length of a dict or a text too), and there a number that is not
-- an integer equals none. `==` of documents is same_json (Json/Same), which takes two literals of
-- reals as equal where they are the same text.
--
-- Not modelled: the closing of streams, the session bindings and the responses of
-- velo_transfer/http_wire.py, stdout_summary and the digests and names of the files of a run, the
-- reading of the clock that is handed to the session as its own time limit, load_spec and
-- create_output_dir, the types of a journal's arguments, its lock (each call is one step), parent
-- and diagnostics, which only read; the paths of a HostRequest;
-- the capture of source files in velo_transfer/manifest.py and the quotas of TaskStore in
-- velo_transfer/storage.py; the opening of a ledger before its first record, the publisher of a
-- request and _session_prefix, which read and bind files; and the other parts of the repository, which call files,
-- processes, gRPC and the operating system.
pub mod Prelude
pub mod Proc
pub mod Json
pub mod Text
pub mod Bytes
pub mod Flow
pub mod Wire
pub mod Journal
pub mod Workers
pub mod Http
pub mod Attempts
pub mod Host
pub mod Paths
pub mod Protocol
pub mod Request
pub mod Result
pub mod Sizes
