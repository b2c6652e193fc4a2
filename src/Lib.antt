-- ===== src/Lib.antt =====
-- A model of the identity service: an HTTP server that maps Telegram ids to School 21 nicknames for
-- bots, which authenticate with an API key and with the School 21 credentials of an administrator.
--
-- The parts, and the files that model them:
--
--   * pkg/store/store.go: Store.antt has the rows, the errors, and the interface of a store as a
--     record of operations over an unknown state. Store/Scopes.antt has the scopes of a key, with
--     `allowedScopes` of pkg/api/server.go and `canonicaliseScopes` of cmd/admin/main.go.
--   * pkg/store/memstore/memstore.go: MemStore.antt, with one child for each repository, implements
--     the interface. MemStore/Keys/Laws, MemStore/Keys/Order and MemStore/Users/Laws say what the
--     operations do to the rows, and MemStore/Invariant what holds of the whole store.
--   * pkg/api/s21_token_cache.go: TokenCache/Defs.antt has the map, the recency list and the elements
--     that both point to. TokenCache/Recency.antt is the specification, a list of entries with the
--     most recent first; Refines and Writes relate the two, and Trust looks at sequences of calls.
--   * pkg/api/server.go: Api/Server.antt has the server and its errors, Api/Routes.antt the patterns,
--     Api/Auth.antt the three steps of authentication, Api/Users.antt and Api/Keys.antt the handlers,
--     and Api/Serve.antt `ServeHTTP`. Api/Models.antt is pkg/api/models.go and Api/Redact.antt is
--     pkg/api/redact.go. A method that writes a response and returns is an action that ends early
--     with that response; a run-time panic is an early end of its own, without a response.
--   * pkg/store/ydbstore/ydbstore.go: YdbStore.antt, with one child for each repository, implements the
--     interface over a YDB service. YdbStore/Columns.antt has the rows of terraform/ydb_schema.tf and
--     the casts to and from Uint64, YdbStore/Service.antt the service with one operation for each
--     statement and what YDB documents of it, YdbStore/Session.antt the transactions and result sets.
--     YdbStore/Keys/Insert and YdbStore/Keys/Revoke compare the writes with those in memory, and
--     YdbStore/Keys/Reach has the sequences of them.
--   * pkg/s21/s21.go: S21.antt has the profile and the errors, S21/Client.antt the calls of the client
--     over the two queries of its library, S21/Mock.antt the mock of pkg/s21/mock.go.
--   * cmd/admin: Admin.antt has the commands of the operator's tool, over any store.
--   * terraform/function/handler.go: Function.antt turns an event of the API gateway into a request and
--     the response back; Function/Boot.antt chooses the store and starts the server.
--   * Base and Text are what the parts share: tests, maps, actions that may fail, and Go's strings.
--   * Examples applies the theorems to one small server and to tables in memory.
--
-- How they interact: `ServeHTTP` picks a handler by path and method. A handler first calls
-- `authorize`, which looks the API key up in the store and then the token in the two caches and at
-- S21; it then reads the body and calls the store. Every call of the store and of the token cache
-- threads its state. One request runs as one step: the token cache and the store in memory hold a
-- mutex for each call, and requests that interleave between calls are not modelled. The cloud
-- function starts a server over one of the two stores and hands it each event; the operator's tool
-- works on the store in YDB directly, without the server.
--
-- Parameters: `Platform` has sha256 in base64, base64, the decoders of encoding/json and the case
-- tables of Go's unicode package; `World` has what the clock, S21 and the random source answer during
-- one request; `Http` has the parser of a request and the encoding of a body; `Api` has the two
-- queries of the S21 library; `Env` has the flags, the environment and the outputs of yc for one run
-- of the tool. Nothing is assumed of these. `Ydb` has the statements of the database, and `IsYdb`
-- what is assumed of them: a statement that succeeds reads and writes the tables as its text says,
-- and a Timestamp keeps a time from 1970 on up to the microsecond, for as long as the distance fits
-- an int64 of nanoseconds; any statement may fail. Examples/Ydb.antt is a service that meets this.
-- A key of a map, a hash included, is compared by equality, so that nothing here depends on the time
-- that a comparison takes.
--
-- Numbers: a time is a count of nanoseconds from Go's zero time, an int64 is a signed integer of the
-- model, which `parse_int` bounds as `strconv.ParseInt` does; no other code adds to one, and a column
-- of type Uint64 holds it modulo 2 ^ 64. The loop of `evict_locked` runs on fuel, the length of the
-- recency list, of which each round removes one.
--
-- Not modelled: the attempts of a transaction or of a query in YDB but one, so that nothing is shown
-- of a transaction that the driver makes again after a commit of unknown outcome; the isolation of
-- transactions that run at the same time, and opening and closing the driver; the texts and the
-- layout that the operator's tool prints; logging and the encoding of responses as JSON; the
-- infrastructure under terraform but for the schema of the tables.
pub mod Base
pub mod Text
pub mod Store
pub mod MemStore
pub mod YdbStore
pub mod TokenCache
pub mod S21
pub mod Api
pub mod Admin
pub mod Function
pub mod Examples
