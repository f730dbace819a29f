-- ===== src/Lib.antt =====
-- s-size is a catalogue of clothes with affiliate links. One thread serves HTTP, one thread owns the
-- database. This library models how a request is read, routed and answered, the snapshot of the
-- catalogue that it reads, the buffers of events and conversions that it fills, and how the database
-- thread writes those and makes the snapshots. Paths below are from the root of the repository.
--
-- The parts and their files:
--
-- - src/models.hpp, src/models.cpp: Models. Structs are records with the fields of the source, enums
--   are data types. A score is the integer that stands for the double in units of 2^-1074, since it is
--   only compared; the number of a price or an identifier is an integer of Prelude/Int.
-- - src/links.cpp: Links (`url_encode`, `make_click_token`, `render_link`, `outbound_url`), with
--   Links/Encode, Links/Token and Links/Template.
-- - src/handlers.cpp, the helpers (`url_decode`, `parse_query`, `cookie_value`, `split_target`,
--   `visit_source`): Query, with Query/Decode, Query/Params, Query/Cookies and Query/Split. `parse_int`
--   and the standard library's decimals: Decimal, with Decimal/Parse and Decimal/RoundTrip.
-- - src/catalog.cpp: Catalog (`build` is the constructor, `find`, `partner`, `query`), with
--   Catalog/Sorted, Catalog/Lookups, Catalog/Slices and Catalog/Tags. `std::stable_sort` is insertion,
--   which has the same result; a hash map is an association list with `emplace`.
-- - src/events.cpp: Events (the two queues, `hash_ip` and `classify_ua`), with Events/Buffers, where threads are
--   any sequence of pushes and drains, each one step as it holds the lock, and Events/UserAgents.
-- - src/config.cpp: Config (`load_config` on the table that toml++ makes of the file, casts written
--   out, an exception being `err`), with Config/Loading.
-- - src/handlers.cpp, the handlers: Handlers holds the context, which is `HandlerContext` with the
--   objects that it refers to, the responses, `log_event` and `item_to_json`. A handler takes the
--   context and returns it changed with the response, or with none where it throws. Handlers/Cookies
--   is the identity of a visitor, Handlers/Feed `handle_feed` and its cache, Handlers/Pages
--   `handle_item` and `handle_redirect`, Handlers/Files `handle_file`, Handlers/Postback
--   `handle_postback`, Handlers/Beacon `handle_beacon`, Handlers/Dispatch `dispatch`. Modules below
--   these are named for what they prove. Handlers/Life is a running server: requests, new snapshots
--   and drains as a step relation, and the contexts that it reaches.
-- - src/db.cpp: Db, the tables of the metrics: a SQL statement is a function of the rows of its table
--   with the constraints of migrations/001_init.sql, and a transaction is written as a whole or not at
--   all; with Db/Batches, Db/Conversions and Db/Rollup. Db/Items is how the rows that the SELECT
--   statements return become items (`load_published_items`) and partners, with Db/Items/Children and
--   Db/Items/Complete; the order of the rows is sqlite's, an argument.
--   Db/Admin is the writes of the catalogue, with Db/Admin/Naming, and Db/Admin/Publishing for what the
--   next snapshot shows after them. Db/Pruning is the unique index under deletion.
--   Sqlite is the layer below: `Stmt` with the scope of a statement, Sqlite/Connection `DbConn`
--   with that of a connection, and Sqlite/Queries the methods on the metrics and the partners as
--   the calls that they make, in a monad of state and exceptions. A text of SQL is a name. The
--   functions of sqlite3.h are the record `Sqlite`; Sqlite/Effects reads a state of sqlite as the
--   tables of Db and says what a step does to them, and Sqlite/Laws states what the code relies on of
--   each function in the states in which it calls it, where no other connection writes to the file:
--   of a step, only of the first since its statement was prepared or reset. Sqlite/Scopes has the rules for these calls, Sqlite/Tidy which leave no
--   statement behind, Sqlite/Writing and Sqlite/Batch are about `insert_events`, Sqlite/Postbacks
--   about `record_conversion`, Sqlite/Upkeep about `maintenance`, Sqlite/Reading about
--   `list_partners` and Sqlite/Sessions about the scope of a connection and the version of the
--   schema. Tests/Engine is a small sqlite that keeps the laws.
-- - src/migrations.cpp: Migrations (`discover`, `apply_migrations`; what sqlite makes of the statements of
--   a migration is an argument, also where a script is refused with a part of its work done), with
--   Migrations/Ordered, Migrations/Loop and Migrations/Applying.
-- - src/db_worker.cpp: Worker (the flushes of one round with the exceptions that cut them short, the
--   maintenance, the snapshot of a refresh), with Worker/Flushing, Worker/Settling, Worker/Maintenance and
--   Worker/Snapshots. System is the thread itself, `run`: the context of the handlers, the tables and the
--   two timers together, one function for each step of a round, and the requests that are handled
--   between these steps as arguments of the round. System/Requests is what requests leave alone,
--   System/Turns and System/Timers the snapshot and the timers, System/Flushes and System/Delivery what
--   reaches the tables, System/Journey the way from a click to an order, System/Publication the
--   way of a change of status to the visitors, System/Safety the invariant of the whole, and
--   System/Shutdown the end.
-- - src/http_server.cpp: Server (`client_address` and `handle_connection` on the requests that can be
--   read, `accept_loop` on what its waits end with), with Server/Connections and Server/Accepting.
-- - src/templating.cpp: Templating (the constructor, `render`, and the library that the handlers then
--   see), with Templating/Rendering.
-- - src/main.cpp: Main (`main` from the parsed command line to the exit status, with the parts made in
--   the order of the source), with Main/Starting.
-- - src/admin_cli.cpp: Admin (`cmd_seed`), with Admin/Rows, Admin/Rounds and
--   Admin/Seeding; Admin/Stats (`cmd_stats`),
--   with Admin/Stats/Counting and Admin/Stats/Ranking; Admin/Commands (`cmd_migrate` and `main`). The
--   quotients by which the items are ranked are compared as fractions, where sqlite compares doubles.
-- - Http and Json are what the code uses of Boost.Beast and of nlohmann's values; Bytes is
--   `std::string`, as a list of bytes. Prelude holds shared tests, lists, integers and maps; Tests
--   holds runs at concrete inputs.
--
-- Parameters, as the code is not in the repository: the record `Sqlite`, the record `Library`
-- (inja's rendering, the JSON parser, libsodium's keyed hash, `std::stod`), `FileSystem` (resolving
-- a path, the time and the size of a file, its contents) and `Draws` (random bytes and the clock).
-- Which statements sqlite refuses for reasons of its own (a full disk, a busy file) is an argument
-- of Db and Worker. The clocks, the rows that a SELECT returns, the keys of new rows and the draws
-- of the random generator are arguments of System, Main and Admin.
--
-- Fuel: `parse_from`, `cookie_from` and `render_from` run on as much fuel as the text has bytes, as
-- each round uses one byte at least; `fetch_each` on more fuel than there are rows, as each round but
-- the last takes one; `digits` on the number itself, which each round divides by ten.
-- The theorems on these functions are about the whole run, so they show that the fuel is enough.
--
-- Not modelled: of src/db.cpp, moving a `Stmt` (which nothing does) and the single calls of the
-- methods on items, tags and images, which are modelled on their tables; the sockets and the
-- scheduling of the coroutines of src/http_server.cpp, which are Boost.Asio's; signals, and the
-- text that is printed or logged. A request is one step, as the server has one thread. The times
-- of the steady clock are unbounded integers; the theorem on the timers says when they are within 64
-- bits. The key that sqlite gives to a new tag is taken to be one that no row has, and no script of a
-- migration is taken to end its transaction by itself.
mod Prelude
pub mod Bytes
pub mod Models
pub mod Links
pub mod Decimal
pub mod Query
pub mod Catalog
pub mod Events
pub mod Json
pub mod Config
pub mod Http
pub mod Handlers
pub mod Templating
pub mod Db
pub mod Sqlite
pub mod Worker
pub mod Migrations
pub mod Server
pub mod System
pub mod Main
pub mod Admin
pub mod Tests
