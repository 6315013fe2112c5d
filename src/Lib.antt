-- ===== src/Lib.antt =====
-- Tename is a runtime under an agent framework. A session is an append-only log of events in Postgres;
-- the harness replays the log to a model, emits what the model answers as further events, runs the
-- tools that the model calls in a sandbox or through a proxy, and compacts the context when it grows.
--
-- The parts, and the files that model them:
-- * the session service (src/tename/sessions/): Sessions/. Models has the data of models.py and
--   exceptions.py; Store the tables of schema.py, as lists of rows in the order of insertion, and the
--   statements of store.py; Service the operations of service.py (`create_session`, `get_agent`,
--   `mark_complete`, `wake`, `emit_event`, `get_events`), each from tables to an error or to tables and
--   a value. Calls is a sequence of calls on the tables. Sequence, Emission, Traces, Idempotency,
--   Creation, Reads and Reached hold proofs. The SQL in store.py becomes list functions; the unique indices are
--   conditions of `insert_session` and `insert_event_and_bump_sequence`. A transaction that fails leaves
--   the tables as they were. `create_session` lets other transactions run between its lookup and its
--   insert, and before it looks again: these are functions on tables. The parameter `Postgres` is what
--   the `->>` operator makes of a JSON value, which is the text itself for a text;
-- * JSON (Json.antt, Json/Dumps.antt): values as trees, an object as its fields in order, and
--   `json.dumps` as code points with the length of its UTF-8 form. A number that is not an integer is
--   its text. Digits are made on fuel n + 1, which is enough as each division by 10 makes n smaller;
-- * context compaction (src/tename/harness/compaction.py): Harness/Compaction.antt; Plans and Views
--   hold proofs. Events are the rows of the session service;
-- * profiles (src/tename/harness/profiles.py): Harness/Profiles.antt, the fields that compaction and the
--   loop read, where `int(budget * 0.8)` is `budget * 4 / 5`, the same for budgets below 2 ^ 50; and
--   Harness/Inheritance.antt, how `extends` is resolved, over the merge in Merging, with how that fails in
--   Refusals; Reading, how the file is found, with the file
--   system and yaml.safe_load as the parameter `Library`; Validation, the constraints, the validators
--   and `load`, with what pydantic makes of a mapping as the parameter `parse`; Sections, what the model
--   router reads, its bounds, and `to_router_profile`, with the comparison of floats as the parameter
--   `Floats`; Quirks, the quirks. `load` runs
--   `_resolve` on fuel 17, which is enough as the code stops at depth 16;
-- * framework adapters (src/tename/harness/adapters/): Harness/Adapters/. Base has the registry of
--   base.py; Context has `build_context` of vanilla.py, whose closures' variables are a record
--   `Buffers`; Events has `chunk_to_event` and `get_tools` of vanilla.py; DeepAgents the methods of
--   deep_agents.py, which have the same text but for the dictionary of tools, which is
--   DeepAgentsTools; Contents, Turns and Dictionaries hold proofs. What the interpreter makes of texts
--   (`UUID(text)`, `str(value)`) is the parameter `Python`;
-- * the harness loop (src/tename/harness/service.py): Harness/. Turn has `_run_turn`, from the chunks of
--   the model router, with the ids and times of their events, to calls of `emit_event`; World has what
--   a `HarnessRuntime` is made with and what a run changes: the tables, the statuses of the sandboxes,
--   the set of sandboxes to destroy, and a record of completions, provisions and destructions; Setup,
--   Tools and Loop have the rest, down to `run_session`. A step is a function from a world to a world
--   and a value or an exception (Prelude/Actions), so that an exception keeps what was done before it.
--   What the router streams and whether the stream raises, what the backend and the clock answer and
--   what `uuid5` and pydantic give are fields of the parameter `Runtime`, asked for anew at each call.
--   The loop recurses on the turns that are left, which are `max_turns` at first. Effects/ and Emitted
--   hold proofs;
-- * model router (src/tename/router/): Router/. Types has the messages and chunks of types.py; Anthropic
--   the stream of providers/anthropic.py as a fold over the events of the Anthropic client, which are
--   an argument with the way they end; Anthropic/Retry `_open_stream_with_retry`, where a sleep is the
--   exponent of its backoff and the recursion is on the attempts that are left; Anthropic/Requests how
--   a request is written; Service has service.py and pricing.py, with rates in cents and costs in
--   hundred-millionths of a dollar, where the code rounds floats. Anthropic/Streams holds proofs;
-- * SDK (src/tename/sdk/): Sdk/Sessions has `send` and `_stream_events` of sessions.py. What each read
--   sees and when the harness task is done are an argument (`Rounds`). Streams and Sends hold proofs.
--   Queue has `SessionHandle.send`, whose coroutine and generator step in any order; Queues holds
--   proofs. Agents has `create_agent`, `fetch_agent` and `delete_agent` of agents.py, with the foreign key of
--   sessions as a condition of the deletion, and Listing `list_agents`, with the order in which the
--   database reads the rows as an argument. Config has _config.py; Client the constructors and `close` of
--   client.py, on the background loop of runtime.py, os.environ and the number of engines, where creating
--   and disposing an engine are arguments; Clients holds proofs;
-- * sandbox lifecycle (src/tename/sandbox/): Sandbox/. StateMachine has the table of state_machine.py
--   and its edges as the relation `⟶`, which
--   are not those of the drawing in docs/architecture/sandbox.md; Service has the facade of
--   service.py, which keeps a status for each id; Lifecycle holds proofs. What a backend answers, or
--   that it raised, is an argument of each call, and `execute` takes what other tasks do to the
--   statuses meanwhile;
-- * sandbox tools (src/tename/sandbox/tools/): Sandbox/Tools.antt has put_file and `_split_abs` of
--   _exec.py, with `run_exec` and `decode_stream`; Texts the operations of `str` that the tools use; Files the tools of file_ops.py, bash.py
--   and python.py. A container (`exec_run`, `put_archive` with the one file of the archive, UTF-8, the
--   texts of errors and numbers, `strip`) is the parameter `Container`, on a state of its own. Edits and Outcomes hold proofs;
-- * Docker backend (src/tename/sandbox/backends/docker.py): Sandbox/Docker.antt, with the client of the
--   Docker library as the parameter `Client` and what becomes of a tool's thread when its time is up as
--   an argument. Invariant and Timeouts hold proofs, the second on the backend under the facade. The
--   registry of the tools is Sandbox/Tools/Builtin, their schemas Sandbox/Schemas; Contracts holds
--   proofs on the two;
-- * command line (src/tename/cli/): Cli/. VaultCommands has the commands of vault_commands.py on a
--   terminal, over the operations of the vault; Entry `cmd_migrate` and `main`, with what argparse
--   makes of the arguments and how Alembic ends as arguments. Credentials holds proofs;
-- * vault (src/tename/vault/): Vault/. Files reads, checks and writes the file, whose content is absent,
--   unreadable, no JSON, or a JSON value; Service has the operations of service.py on the file and on
--   the passphrase that the object holds; Rounds, Stores, Rotation and Revocation hold proofs. The
--   cipher, the key derivation, base64, `isspace` and the order of texts are the parameter `Library`,
--   with the laws that decryption undoes encryption and that decoding undoes encoding. How a write ends
--   is an argument of each operation that writes;
-- * tool proxy (src/tename/proxy/): Proxy/. Registry has the registered tools and proofs on them;
--   Service `execute`, with the vault's `retrieve` and the tool functions as arguments and fields, and
--   the texts that `repr`, `json.dumps` and the exceptions give as the parameter `Texts`; Outcomes
--   holds proofs. WebSearch has the decorator of decorators.py and tools/web_search.py, where a search is
--   its request, if it sends one, and what it returns; the reply to a request and what `int`, `strip` and
--   `json.dumps` make of values are the parameter `Interpreter`. Requests holds proofs. The proxy uses the
--   errors of the vault and the `ToolResult` of the sandbox.
--
-- Identifiers (UUIDs) and times are numbers: the code only compares and stores them. Logging is left
-- out. Not modelled: the cancellation of a task,
-- which the SDK asks for when a caller stops reading, and calls of the session service that overlap, but
-- for those within `create_session`; the methods of the clients that only pass a call on; the migrations, which are SQL
-- for Alembic, but for the unique index on request ids and the foreign key of sessions; and the
-- benchmarks and examples, which call the SDK.
pub mod Prelude
pub mod Json
pub mod Sessions
pub mod Sandbox
pub mod Router
pub mod Sdk
pub mod Harness
pub mod Vault
pub mod Proxy
pub mod Cli
pub mod Tests
