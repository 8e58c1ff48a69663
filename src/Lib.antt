-- ===== src/Lib.antt =====
-- The harness asks a language model a question, shows the answer on a terminal and keeps the
-- exchange as a session file that later runs list and show. This library models its core:
--
--   crates/harness-session-log   the session files         Session
--   crates/openai-codex-model    the client of the model   Model, and Sse for its decoder
--   crates/openai-codex-auth     the connection            Auth
--   crates/harness-cli           the command line          Cli
--
-- One ask runs through all of them: Cli.Command parses the arguments (parse_command), Cli.Run starts
-- a session (run_ask; start_file of Session.Writer), asks the model, whose response Sse decodes,
-- appends the answer or a failure to the session's file (append_assistant, append_failure), and
-- prints the answer as Cli.Render makes it safe. Session.Inspect opens the files again, for one
-- session (show) or for the list (list_file), and Session.Projection reads their bytes.
--
-- Auth.Login connects an account: it waits for the callback (Auth.Callback), exchanges the code
-- (Auth.Exchange) and stores the record that Auth.Credential validates. Auth.Flow lends a stored
-- credential to one operation, such as a model call, and renews it under the lock between processes
-- (Auth.RefreshLock) with one request (Auth.Refresh) when it is due or was refused.
--
-- Files and what they model:
--
--   Session/Format       format.rs: records, their constructors, serialize_line
--   Session/Projection   projection.rs: project, parse_records, project_terminal, valid_id
--   Session/Errors       lib.rs: errors, their messages, list entries
--   Session/Files        file.rs: metadata of files and directories, and the checks of them
--   Session/Writer       file.rs: initial_records, start_file, the appends
--   Session/Rollback     file.rs: rollback
--   Session/Sources      file.rs: random_id, the sources in production, SessionLog::start,
--                        rollback_created_file
--   Session/List         file.rs: collect_candidate_ids, summarize_candidates, the read budget
--   Session/Inspect      file.rs: inspect_file with its two policies, show, list
--   Session/Lines, RoundTrip, Crash, List/*, Inspect/*   their proofs
--   Sse/State, Dispatch, Lines, Loop   sse.rs: limits and state, dispatch, process_line and
--                        process_chunk, decode
--   Sse/Splits, Bounds, Frames, Decode   their proofs
--   Model                openai-codex-model/src/lib.rs: errors and checks
--   Model/Call           model_call_with, the request it sends, ask and test_connection; Refused and
--                        Answered are proofs
--   Cli/Command, Render, Run   main.rs: parsing, render_model_text, run_ask and complete
--   Cli/Help, Application   main.rs: the help texts, run_application, the diagnostics
--   Cli/Show, Actions    main.rs: the session commands; login, logout, status and model test
--   Auth/Credential      credential.rs: claims (Claims), the record (Record); Usable, Stored and
--                        Display are proofs
--   Auth/Errors          lib.rs of openai-codex-auth: errors, messages and mappings
--   Auth/Run, Flow       lib.rs: with_renewable_authorized_credential_from and its helpers,
--                        with_authorized_credential_from, logout_with; Flow/* are proofs, and
--                        Flow/Protocol is the order of calls that they are about
--   Auth/Callback        callback.rs: validate_request; Query its query, Wait the server's loop
--   Auth/Login           lib.rs: login_with; oauth.rs: the pairs of authorization_url
--   Auth/RefreshLock     refresh_lock.rs: the directories, the lock file, acquire
--   Auth/Refresh         refresh.rs: request_refresh, read_bounded, permanent_error_code
--   Auth/Exchange        oauth.rs: exchange_code; keychain.rs: its classification of answers
--   Json                 serde_json's Value, a record that the decoder takes as a parameter
--   Text, Prelude        str, String and char of the standard library; shared lists and results
--
-- State and effects. A session file is the list of its bytes, in SessionWriter while it is written.
-- What the file system, the clock and the random source answer to one call stands in a record that
-- the call takes (Attempt, AppendProbe, InspectProbe, ...), in the order of the calls. Between a start
-- and its append the bytes of the session's file change only by its writer, which holds the lock.
-- run_ask takes what the model client returns as given.
-- AppendProbe.written is how many bytes of a line a write got out. The decoder's variables are the
-- record Decoder; the n-th reading of the clock and the n-th read of the response are functions of n.
-- The texts handed to standard output and error are lists, and the n-th write returns what the
-- environment decides.
--
-- Auth.Flow runs over a state of any type, which each call of the store, the clock, the lock, the
-- refresh client and the operation may change as it likes, as other processes do; the calls made are
-- kept beside it. A guard is dropped where its block ends, so with_lock releases on every path.
-- Login, lock and requests take their environment's answers as probes, and the n-th turn of a loop
-- reads the n-th answer. i64 is the type ℤ of Auth/Credential/Claims.
--
-- Errors are values of Result. An arm that the source marks unreachable and that would panic is a
-- value of its own (panicked of Listing, none of summary_of_error and model_failure_code).
--
-- Numbers are natural numbers; an addition that the source checks is checked_add or sum_exceeds,
-- which fail at 2 ^ 64. Conversions between u64 and usize succeed, as on the 64-bit platforms that
-- the program supports.
--
-- Bounds and fuel. The loop of decode takes fuel: response_bytes + 1 rounds, since a round that reads
-- nothing ends it and the others may read response_bytes bytes in all. The loop of start_file takes
-- its eight rounds from a list. The loop of read_bounded takes response_body_limit + 1 rounds, since
-- each but the last adds a byte; that of acquire 1301, since each but the first comes a poll interval
-- later and the timeout is 1300 of them; that of wait one more than the rounds after which the clock
-- has passed the deadline. All other loops are over lists.
--
-- serde_json is a parameter. Codec is its reading and writing of records; IsJsonCodec says what the
-- log relies on: what was written reads back, is not empty and holds no line feed. For credential
-- records ReadsBack says that what was written reads back.
--
-- Not modelled: reqwest, PKCE's random secrets and its hash, the production
-- wrappers of openai-codex-auth and harness-cli, which pass the system's services on, the file that a
-- failed start leaves behind when it cannot be removed, the memory store of the tests, the build
-- scripts and the workflows.
pub mod Prelude
pub mod Text
pub mod Json
pub mod Sse
pub mod Session
pub mod Model
pub mod Auth
pub mod Cli
