-- ===== src/Lib.antt =====
-- margin-offer-system keeps offers of margin loans: a service that stores them, a backfiller and a
-- real-time ETL that write them, and clients that list them and subscribe to their changes.
--
-- Files, and the code that they model:
--   * Base: the library names that the other files use, and what the native numbers need besides:
--     Boolean tests (Base/Tests), lists (Base/Lists), integers and int32 (Base/Int), the printing of
--     a number (Base/Decimal), panics (Base/Run) and Go maps (Base/GoMap).
--   * Types: types/margin_offer.go (Types/Offer), types/errors.go (Types/Error), `ListRequest` of
--     types/requests.go and `OverwriteFilter` of types/interfaces.go (Types/Filter), types/pool.go
--     (Types/Pool, with the reads of bytes in Types/Pool/Bytes, `ToMarginOffer` in Types/Pool/Offer,
--     and proofs in Layout and Bounds), float64 (Types/Float) and time.Time (Types/Time).
--   * Store/Memory: store/memory_store.go, the state and the single-offer operations; its child
--     Index holds the helpers of one index, Invariant the consistency of a store, Spec the contract,
--     Refine the proofs that the operations implement it, Handed that they hand the caller's offer
--     back, and Roundtrip what `GetByID` sees of them.
--   * Store/Criteria: what the criteria of filters ask for, apart from the code that checks them.
--   * Store/Upsert and Store/Overwrite: store/memory_store_upsert.go; Selected, Refine and Meant hold
--     the proofs of the overwrite.
--   * Store/Bulk: store/memory_store_bulk.go.
--   * Store/Filters: store/memory_store_filters.go, and `List` of store/memory_store.go;
--     Listing and Shown hold the proofs.
--   * Store/Queries: store/memory_store_queries.go.
--   * Store/Histories: operations one after another.
--   * Store/Start: the store as `NewMemoryStore` makes it, and in its child Calls histories on it.
--   * Store/Announced: the change events of a history. Its children Leaves and Quiet are about
--     what queues none, Calls about each call, Queue about the queue, Followed about the events as
--     changes of a table, and Mirror about a subscriber.
--   * Store/Notification and Store/Subscriptions: store/notification_service.go, the queue of change
--     events and the subscriptions that they are delivered to; Delivery, Account and Processor hold
--     what delivery does to the channels, Cleanup what the end of subscriptions leaves, Histories all
--     that happens to them in any order, Asked what is delivered, and Race what an `Unsubscribe` in between does.
--   * Grpc/Messages: the messages of proto/margin_offer.proto. Grpc/Converters:
--     store/grpc_converters.go. Grpc/Server: store/grpc_server.go, with the handlers of batches in
--     its child Bulk and `ListMarginOffers` in Listing; Refine and Pages hold the proofs.
--   * Grpc/Stream: `SubscribeMarginOffers` of store/grpc_server.go with the messages of
--     store/notification_service.go; Steps, Ordered, Asked and Closed hold the proofs.
--   * Grpc/Client: store/grpc_client.go, in its children Methods and Listings; Laws and Contract
--     compose it with the server and the memory store.
--   * Etl/Events: types/events.go. Etl/Handlers, Etl/Liquidity and Etl/Retries:
--     realtime-etl/event_processors.go, what an event does and the loop with its retries; Counted and
--     Drained hold proofs. Etl/Loops: the loops over all kinds of event. Etl/Lifecycle and
--     Etl/Health: realtime-etl/processor.go, its life and its health check.
--   * Backfill/Requests, Backfill/Fetch, Backfill/Blocks, Backfill/Sync and Backfill/Service:
--     backfillers/backfiller.go, with the schedule and the cleanup of backfillers/workers.go in the
--     last. Backfill/Jobs: backfillers/workers.go; its child Sources holds the jobs that nothing
--     calls, Refused and Chain what a job of the chain comes to. Backfill/Latest: `BackfillLatest`,
--     `GetStatus` and `GetProgress`. Backfill/Config: backfillers/job_config.go, and the requests of
--     cmd/backfillers/main.go, whose set-up is in Backfill/Command. Backfill/Positions: what
--     `SyncPoolsWithPositions` logs of a pool's positions. Backfill/Workers: the queue of jobs and the workers, with proofs in
--     Accounts, Silent and Liveness.
--   * Chain: pkg/chain/solana.go; Sync, Jobs and Events put it under the backfiller and the ETL,
--     and Hollow is about events without an offer.
--   * Metrics: pkg/metrics/metrics.go. Logger: pkg/logger/logger.go.
--   * Tests: runs on concrete stores, offers, messages, events, accounts, subscriptions and histories.
--
-- How the code is read:
--   * An operation of the store holds the lock from its first look at the state to its end, so it
--     is one function from the state to a reply: the new state, the caller's offers as the
--     operation left them, and the error. What comes before the lock reads the argument alone.
--   * A write to a nil map and a slice out of range are panics, which end the process: `Run`.
--   * A Go map is an association list in the order that the next `range` takes. Theorems hold for
--     every list, so for every order. The store is consistent if its maps are allocated, no ID
--     stands twice, each offer stands under its ID, and each index lists exactly the offers of the
--     table, each once, under the key that it has. The store that `NewMemoryStore` makes is not,
--     since its indexes are nil: Store/Start says what it does. The results about a consistent store
--     are about the operations where the indexes are allocated, as the code means them to be.
--   * The contract of the operations is a partial function from IDs to offers.
--   * A pointer to a value is an option. The store keeps and returns copies, so the model has no
--     aliases of what is stored; the caller's pointer, which an operation stamps, is in the reply.
--     A change event has the caller's own pointer, which is a number here, with what its object holds
--     when it is looked at: the event processor is given what the objects hold at each of its rounds.
--   * A subscription is shared between the map and the loops that send to it, so it stays on a heap
--     under its ID. A loop that sends has two halves: it reads the map under the lock, and it sends
--     without it. Each half is a function.
--   * The clock is a sequence of readings, which are counted where they are made; a fresh UUID is an
--     argument.
--   * A float64 is NaN, an infinity or an integer number of steps of 2^-1074. Its comparison is
--     exact. The rounding of a quotient is written out, with fuel for 1400 binary digits, which is
--     more than a word of 64 bits has in such steps. The addition of `GetTotalLiquidity` is an
--     argument. Integers of 64 bits wrap where the code subtracts them.
--   * A handler that looks at the store twice is given the store at each look, since other calls can
--     come between. The client's methods take the call that they make as an argument: it has a state
--     of its own, which the server's handlers fill with the memory store.
--   * The processor and the backfiller know the store by its interface, a record of operations that
--     the memory store fills, and the chain by the answers of its calls.
--   * The loop over events and its sleeping retries are a step relation: the steps come in any order,
--     and a sleeper waits while the channel holds 1000 events. A retry raises a count that stops it
--     at 3, so the steps are bounded without fuel.
--   * The workers of the backfiller are a step relation, too, with the calls of its users: a worker's
--     whole job is one step, at the job's end, and so is a sync of pools. The stream of a subscription is a function of what happens to its channel, in the
--     order in which it happens: events, heartbeats, the close and the rounds of its handler.
--   * The chain client of the program answers without a node, so it is modelled as it stands, and fills
--     the interfaces that the backfiller and the processor have of a chain. The waiting between its
--     mock events is left out.
--   * Loops that the code ends by a test have fuel: `FetchFromChain` one round more than the blocks
--     that it asks for, the slices of a job one for each offer, and a client that goes through the
--     pages one request for each offer above its offset.
--   * A status of gRPC is its code and its text. The addition of the client's `GetTotalLiquidity`,
--     timestamppb and the context's error after a batch or a block are arguments. What is used of
--     timestamppb is that a time arrives as it was sent.
--   * Of Go's library, `strings.ToLower`, `sort.Slice` and, for the store, the printing of a number
--     are arguments. What is used of `sort.Slice` is that it rearranges its slice. Public keys of
--     solana-go are an argument, too, and so are the sum of the metrics' values, the parsing of JSON
--     and of a log level, and the contents of files and of the environment.
--
-- Not modelled: what the logger and logrus write, and the logging calls in the other parts; the
-- counters of processed events; the listener, dialling and closing of gRPC; the tickers of the
-- notification service and of the backfiller, whose rounds are functions; the steps that jobs of
-- several workers take at once; the parsing of flags, the signals and the start of the servers in the
-- commands; request and response types that no code reads or fills; the examples, which only call the
-- client; the marginfi script, which is TypeScript over a third-party SDK.
pub mod Base
pub mod Types
pub mod Store
pub mod Grpc
pub mod Etl
pub mod Backfill
pub mod Chain
pub mod Metrics
pub mod Logger
mod Tests
