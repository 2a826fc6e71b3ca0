-- ===== src/Lib.antt =====
-- The database, migration and stream-import code of the bunny.net command line, modelled function
-- by function, with the theorems on what it promises. Strings are lists of UTF-16 code units,
-- numbers are natural; what a platform or a service provides is a parameter.
--
-- Common holds what the parts share: lists, code units, strings with the methods that the code
-- calls, decimal numbers, a map as a list of entries (Common/Dict), and functions that may throw
-- over a state (Common/Exec). toLowerCase is that of ASCII.
--
-- SqlSplit models packages/database-shell/src/parser.ts: Trigger is stripQuoted and inBlockBody
-- with the two regular expressions written out, Scan is syntaxError and the loop of splitStatements
-- as a recursion on the text, one Mode for each of the places where the loop can be. Pieces
-- describes scripts by how they are written; Reading, Comments, RoundTrip, Scripts and Statements
-- hold the proofs.
--
-- Rest models packages/database-rest/src: Query is parser.ts (with the names that an object literal
-- inherits), Sql is sql.ts, Handler and Routes are handler.ts (parseRoute is route_of,
-- resolveSingleColumn is resolve_single_column, the returned function is rest_handler), Auth is
-- auth.ts. The executor, the host's onError, JavaScript's numbers, JSON bodies, decodeURIComponent
-- and Buffer.from are parameters (Platform, Host). The two reads of handleGet are run one behind
-- the other, in the order in which they are sent. The statements that Handler runs are those that
-- Sql builds from what Query parses; Auth wraps any handler.
--
-- Migrations models packages/cli/src/commands/db/migrations: History is the state of each file
-- (engine.ts and drift.ts), Apply is the run of apply.ts from its first read of the rows, over a
-- Client of queries and batches. It splits files with SqlSplit. Gate, Checksum, Rows, Resume and
-- Finish hold the proofs; Resume and Finish state what they rely on in the client as the records
-- IsTracked and IsWilling.
--
-- StreamImport models packages/stream-import/src: Videos is source-index.ts, the dates of time.ts
-- and isStalled of status.ts; Entries is the part of migration.ts that calls no service, over the
-- types of contracts.ts; Recover is recoverLostFetches; Reconcile is reconcileWithBunny, with the
-- service's deletion as a parameter; Work and Queue are queueVideo, with a journal that is the
-- entry as it was last flushed (a save that fails is not modelled, and what is sent as metadata is
-- sanitised by code that is not modelled); Summary is getSummary, behind the discovery; Orphans is
-- adoptOrphans with the saved run it reads, and what loadSourceIndex keeps of a listing. Best,
-- Index, Prepared, Guids, Claims, Outcome, Kept, Tagged, Settled, Counted, Foretold, Adopted,
-- Recorded and Remembered hold the proofs. Date.parse gives milliseconds since 1970.
--
-- Env models packages/cli/src/core/env.ts: Dotenv is parseDotenvEntries, with the inner loop over
-- the lines of a quoted value as a Mode of the loop over lines, and Collect is splitPair,
-- parseDotenv and collectEnv. An object literal is a map that drops what is assigned to __proto__.
--
-- Http models packages/stream-import/src/http.ts (Request is the loop of request, Urls is buildUrl
-- with trimTrailingSlashes of sanitize.ts) and rate-limit.ts (RateLimit). fetch, the caller's
-- signal, timers and the reading of a body act on a state that is a parameter. The requests kept
-- for a replay are those at the start of a response; none is added during its waits. Replies,
-- Budget, Ending, Outcome, Replays and Slashes hold the proofs.
--
-- Cli models packages/cli/src/core: Distance and Suggest are suggest.ts, with scores counted in
-- halves; Pool is concurrency.ts as a state machine, whose events are the turns of the event loop
-- between two awaits. Edits and Rows prove what the distance is; Order, Steps, Whole and Measure
-- what the pool does.
--
-- Database models the values of packages/database-client/src/protocol.ts: Values is encodeValue and
-- decodeValue, over integers with a sign and doubles of which only the integral ones are told
-- apart; Stored is what a value is once it was stored. The chunks of bytesToBase64 are taken for as
-- many rounds as there are bytes, which is proved enough.
--
-- Every loop is a recursion on a list but four: Common/Decimal.print, whose fuel, the number plus
-- one, is always enough; the loop of Http/Request, whose six rounds are proved enough; the replays
-- of Http/RateLimit, which count down the retries that are left; and the chunks of Database/Values.
--
-- Not modelled: files, processes, terminal output and the HTTP connection itself; the commands of
-- the command line that only call a service and print; the adapters of the import's sources;
-- generated clients; the studio; from migration.ts the waiting for single videos and the run that
-- hands them out concurrently; the text of messages where only their kind matters.
pub mod Common
pub mod SqlSplit
pub mod Rest
pub mod Migrations
pub mod StreamImport
pub mod Env
pub mod Http
pub mod Cli
pub mod Database
