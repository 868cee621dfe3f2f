-- ===== src/Lib.antt =====
-- Stellarview is a block explorer for the Stellar network. Two of its programs are modelled here,
-- and the decoder of contracts that both use.
--
-- The indexer (tui-indexer) follows the network: the live pipeline and the backfill pipeline fetch
-- ledgers and transactions from an RPC node in batches, and write each ledger with its
-- transactions, operations, token events and contract events to a PostgreSQL store, which keeps
-- the sequence of the last ingested ledger as its cursor. The terminal client (tui) reads what the
-- indexer serves: its model holds a live feed of transactions, lookups with a history, explorers
-- over a lookup, and a workspace for contracts, and is driven by keys, commands, answers of a
-- backend and a stream of updates. Its local store keeps profiles, bookmarks, labels, notes, views,
-- watch presets and visited entities in SQLite tables. Its lookups are answered by the indexer, by
-- Horizon and an RPC node, or by a hybrid of both.
--
-- Files and the code they model:
--   Prelude            names and helpers that the modules share; Go's integers of 32 bits are
--                      natural numbers with their wrap-around written out (Prelude/Words), int and
--                      int64 are integers without a bound (Prelude/Int)
--   Store/Rows, Db     tui-indexer/internal/store/models.go and postgres.go: a table is the list of
--                      its rows in the order of insertion; insertLedger, insertTransactionBatch and
--                      the other inserts with their conflict clauses, the cursor, and
--                      FindMissingLedgerSequences
--   Pipeline/Source    tui-indexer/internal/source/rpc.go: the types of requests and answers
--   Pipeline/Exec      an action that can fail and changes the state, whether it fails or not
--   Pipeline/Services  what the pipelines call and this repository does not hold, or holds as I/O:
--                      the RPC node, the decoders of XDR, the publisher, the failure of a statement
--                      and the cancellation of the context, each a function of a world
--   Pipeline/Ledger    ProcessOneLedger of tui-indexer/internal/pipeline/live.go
--   Pipeline/Live      processLedgerBatch, ingestNewLedgers and detectAndFillGaps
--   Pipeline/Batches   contiguousLedgerBatches
--   Pipeline/Backfill  runWorker and processLedgerBatch of backfill.go
--   Pipeline/Lake      runWorker of s3backfill.go, and LedgerEntryFromCloseMeta of
--                      tui-indexer/internal/source/datalake.go, with the data lake as an argument
--   Pipeline/Partition Run of backfill.go and s3backfill.go, up to the start of the workers
--   Client             tui/internal/backendclient/types.go
--   Config             tui/internal/config/config.go and horizon.go
--   App/State          the state of the client: the types of tui/internal/app/model.go,
--                      navigation.go, monitoring.go, live_feed.go and contract_workspace.go
--   App/Filter, Feed   the filter, the merge, the view and the replay of live_feed.go
--   App/Stream         stream updates, pause and filters of the live feed
--   App/Refresh        RefreshLiveFeed, with the answer of the backend as an argument
--   App/Monitoring     monitoring.go
--   App/History        SetScreen, Back, Forward and the two histories of model.go
--   App/Lookup         the lookups; App/Explorer: the explorers over one; App/Workspace:
--                      contract_workspace.go; App/Sources: the policies on data sources
--   App/Command        HandleCommand
--   App/Search         the groups of search results and the queries of search.go
--   App/Infer          tui/internal/searchinfer/infer.go and inferSearchResults of model.go
--   App/Ranking        RankSearchResults of model.go
--   App/Palette        the command palette of model.go; a session of it is a sequence of its calls
--   App/Session        a session: the calls of the model's other methods, one after the other
--   App/WellFormed     the invariant of a session and the calls that keep it
--   Cache/Rows         tui/internal/cache/types.go and the row types of its other files
--   Cache/Table        SELECT, DELETE and INSERT with a conflict clause on a list of rows
--   Cache/Store        store.go: the tables, and the frame of a method: its refusals and its statement
--   Cache/Profiles     profiles.go and state.go; Bookmarks, Labels, Notes, Views, Watches, Entities,
--                      Lists, Feed and Policy: the file of tui/internal/cache that each is named for
--   Cache/Session      sequences of calls of the store
--   Backends/Hybrid    tui/cmd/tui/hybrid_backend.go: its methods over a few shared shapes
--   Backends/Network   tui/internal/networkbackend/backend.go, with its merges
--   Backends/Open      openLookupBackend and sourceMetadataFor of tui/cmd/tui/main.go
--   Sordecode/Int      sordecode/int.go, up to the formatting; Sordecode/Wasm: wasm.go
--   Examples           concrete runs
--
-- A method that changes the model is a function from the model to the new one, with the method's
-- result beside it where it has one. A loop of the pipelines runs on fuel and gives `unfinished`
-- when there is none left. For the loop over batches fuel above the number of ledgers from its
-- cursor to its end is enough, when every batch makes progress; the loop over the pages of
-- transactions has fuel of its own. The loop over the sections of a wasm module has fuel for
-- every byte. The sequence numbers of ledgers stay below the last number of 32 bits where a theorem
-- says so.
--
-- A backend is what its sources answer at the time of a call: an argument of each method. Messages
-- are kept as a format and its arguments. Times are numbers or the texts of the API. Texts are
-- compared by their characters; ToLower and EqualFold fold the letters of ASCII.
--
-- Not modelled: the outer loops of the pipelines with their timers and goroutines, the queries of
-- the read API and its server, the decoders of XDR, the publisher, the migrations of the local
-- store, the clients of remote services and the rendering (I/O, or work of libraries). What
-- strkey.Decode takes as an address is a parameter of the command palette.
pub mod Prelude
pub mod Store
pub mod Pipeline
pub mod Client
pub mod Config
pub mod App
pub mod Cache
pub mod Backends
pub mod Sordecode
pub mod Examples
