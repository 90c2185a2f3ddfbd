-- ===== src/Lib.antt =====
-- vibe-forge: the Go server that builds small React applications with a chain of language-model
-- stages, keeps every project, run and version in SQLite, and shows the result in a browser sandbox.
--
-- The program's parts. The HTTP handlers (internal/api) and the agent loop (internal/agent) call the
-- store (internal/store), each call one SQLite transaction. The agent loop and the manual edit of a
-- file send the generated App.tsx through the compile gate (internal/compile) before a version may
-- become the project's stable one. contracts/contract.json fixes the limits, stages and error codes.
--
-- What models which part:
--   Base, Nesting      shared notation, tests on numbers, lists and texts, searching, and the
--                      grammar of balanced tokens. A text is a list of bytes, or of code points
--                      where the code counts runes (prompts and titles).
--   Contract           contracts/contract.go with the values of contracts/contract.json.
--   Compile            internal/compile/compile.go. Lexical: isNameChar, jsxPosition,
--                      isStringStartPos, isTypeName. Strip: stripStringsAndComments. Braces:
--                      braceBalance. Jsx: jsxSanity. Forbidden: ForbiddenInCode. Validate: Validate.
--                      Strip.Pieces is a grammar of sources, Forbidden.Cases a text in any case.
--   Store.Model        internal/store/store.go and the tables of internal/db/migrations.
--   Store.Table, Tx    SELECT, INSERT and UPDATE on the rows of a table; transactions that commit
--                      or roll back (inTx of internal/store/project.go).
--   Store.Rows         the statements that write one row, with the keys and the unique index that
--                      they can run into, and the compare-and-swap of the stable version.
--   Store.Pointer, Stages   internal/store/workflow_state.go: the latest workflow of a project and
--                      the rows of its stages.
--   Store.Ledger       internal/store/idempotency.go.
--   Store.Runs, Events internal/store/run.go, and RecordCompileResult of draft.go.
--   Store.Versions, Hash    internal/store/version.go.
--   Store.Drafts       internal/store/draft.go.
--   Store.Files        internal/store/files.go.
--   Store.Projects     CreateProject and deriveTitle of internal/store/project.go.
--   Store.Provenance, Recovery, Reconcile, Snapshot   the rest of internal/store/workflow_state.go:
--                      previewWorkflowRunTx, recoverWorkflowTx, reconcileConsistencyTx and
--                      loadWorkflowSnapshotTx, with GetProject and ListProjects of project.go.
--   Store.Reads        ListVersions and GetVersionFiles of version.go, ListStageArtifacts and
--                      GetVersionFilesSnapshot of draft.go.
--   Agent.Scaffold     internal/agent/scaffold.go: ValidateFilePath and BuildFilesMap.
--   Agent.Client       the conversation with the model and what the loop takes from outside.
--   Agent.Runner, Turns, Rounds, Loop   internal/agent/agent.go: emit and stream; textTurn and
--                      engineerTurn; engineerQA; run, failInfra, classifyError and Run.
--   Agent.Quiet, Spares   what the loop's notes and its calls of the store keep.
--   Api.Limiter        internal/api/auth.go: the limit on failed sign-ins (verifyLogin).
--   Api.Sessions       internal/api/auth.go: createSession, validateSession, sessionRevoked and
--                      revokeSession.
--   Api.Access         internal/api/auth.go: login, authSession, logout and requireAuthentication.
--   Api.Config, Source internal/api/auth.go: newAuthenticatorFromEnv and requestSource.
--   Api.Stream         runEvents of internal/api/agent_handlers.go.
--   Api.Handlers       internal/api/handlers.go, with retryRun and compileResult of agent_handlers.go.
--   Api.Errors, Health writeContractError, writeStoreErr and health of internal/api/api.go.
--   Api.Routes         Router of internal/api/api.go: the routes behind the guard.
--   LogRedact          internal/logredact/logredact.go.
--   Migrations         internal/db/db.go: Migrate.
--   Api.Startup        the start of the server: cmd/server/main.go with New, InitLoop and
--                      ReconcileInterruptedRuns of internal/api/api.go.
--   Store.Operation    the operations as the steps of a history.
--   Store.Frame, Follow, Sound   what the operations leave alone, and the invariant of the stable
--                      version over every history.
--
-- How the state is modelled. The database is a record of tables (Store.Model.Db), each a list of rows
-- in the order of insertion; an operation is a function from tables to an error or a result with new
-- tables. SQLite runs one write transaction at a time, so an interleaving of requests is a sequence
-- of operations. The clock, the identifiers of newID and SHA-256 are given from outside (Env), and
-- nothing is assumed of them: an identifier that is taken makes the INSERT fail. A time is its whole
-- seconds, which is what the stored RFC 3339 text keeps.
--
-- Loops. The scanners of the gate walk over the text once, a byte a step, and are structural
-- recursions, so they end on every text. The loops of the agent are recursions on what is left of
-- their bounds, eight tool rounds and two repairs; no other definition runs on fuel but the walk over
-- the bases of a version, for which the number of versions, and one, is enough.
--
-- The agent loop. The model client answers by a function of the number of the call and of the
-- conversation, so every client is covered. A call of the store may be refused, which stands for a
-- context that the watchdog or the shutdown has cancelled and for an error of the database; other
-- requests may write between two calls. The watchdog's clock itself is not kept.
--
-- The event stream. A look at the tables is one turn of its loop; a client that goes away is a list of
-- looks that ends. The locks of the authenticator make each of its operations one step.
--
-- What is not modelled: the texts of the prompts and the set-up of the model client, the decoder of
-- requests, the attributes of cookies, sockets, signals and the pragmas of SQLite. JSON is left as the
-- value that is written. http.ServeMux is modelled as far as the routes use it.
pub mod Base
pub mod Nesting
pub mod Contract
pub mod Compile
pub mod Store
pub mod Api
pub mod Agent
pub mod LogRedact
pub mod Migrations
