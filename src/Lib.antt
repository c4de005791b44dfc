-- ===== src/Lib.antt =====
-- The punnet-sdk: accounts with weighted authorities, coins, effects that are scheduled by their
-- dependencies and executed, the stores under them, the modules bank, auth and staking, and the
-- runtime that takes a transaction through all of these.
--
-- The parts and how they interact. A transaction (types/transaction.go) is checked by itself, then
-- against the authority of its account (types/account.go, types/authorization.go) with the account's
-- nonce. Its messages go by the router (runtime/router.go) to the handlers of the modules, which read
-- accounts, balances and validators by capabilities (capability) over the stores (store) and return
-- effects (effects). The executor carries the effects out, and the account is stored with its nonce
-- raised (runtime/application.go). The typed stores stand on an object store; its implementation
-- caches objects over a backing store of bytes, which may be a part of another one under a prefix. A
-- module is put together by a builder and registered behind its dependencies (module).
--
-- Files and the code they model:
--   Base                    numbers of 64 bits with wrap-around, byte strings, maps, Go's errors
--   Types/Coin, Types/Coins types/coin.go: Coin; Coins with NewCoins, IsValid, Add, Sub, IsAllGTE, Sort
--   Types/AccountName       types/account.go: AccountName.IsValid
--   Types/Authority         types/account.go: Authority and Account
--   Types/Signature         types/authorization.go: Signature
--   Types/Authorization     types/authorization.go: Authorization, VerifyAuthorization, calculateWeight
--   Types/Coordinator       types/multisign.go: MultiSignCoordinator
--   Types/Transaction       types/transaction.go: Fee, Ratio, Transaction; types/message.go: Message
--   Effects/Effect          effects/effect.go and effects/*_effect.go: one data type of effects
--   Effects/Graph           effects/graph.go: NewGraph, buildDependencies, addDependency
--   Effects/Schedule        effects/graph.go: HasCycles; effects/scheduler.go: Schedule, ValidateBatches
--   Effects/Optimize        effects/scheduler.go: OptimizeBatches
--   Effects/Execute         effects/executor.go: Execute, executeTransfer and its like, ExecuteParallel
--   Store/Objects           store/store.go: ObjectStore, as what the interface promises
--   Store/Cache             store/cache.go: Cache, the most recently used entry first
--   Store/Levels            store/cache.go: MultiLevelCache
--   Store/Cached            store/cached_store.go: CachedObjectStore
--   Store/Memory            store/memory_store.go: MemoryStore and its iterators
--   Store/Prefix            store/prefix.go: PrefixStore and its iterators
--   Store/Balance           store/balance_store.go: BalanceStore
--   Store/Accounts          store/account_store.go: AccountStore
--   Store/Validators        store/validator_store.go: ValidatorStore, DelegationStore, DelegationKey
--   Capability/Balances     capability/balance.go: balanceCapability
--   Capability/Accounts     capability/account.go: accountCapability
--   Capability/Validators   capability/validator.go: validatorCapability
--   Capability/Manager      capability/capability.go: RegisterModule, createPrefixedStore
--   Bank/Messages           modules/bank/messages.go: MsgSend, MsgMultiSend
--   Bank/Handlers           modules/bank/module.go: handleSend, handleMultiSend, handleQueryBalance
--   Auth/Messages           modules/auth/messages.go
--   Auth/Handlers           modules/auth/module.go: the message handlers and the queries
--   Auth/Validation         modules/auth/validation.go: TransactionValidator
--   Staking/Messages        modules/staking/messages.go
--   Staking/Handlers        modules/staking/module.go: the message handlers, splitOnce
--   Staking/Queries         modules/staking/module.go: the queries
--   Module/Base             module/module.go: baseModule, ValidateModule
--   Module/Builder          module/builder.go: ModuleBuilder
--   Module/Registry         module/registry.go: Register, topologicalSort, Build
--   Runtime/Context         runtime/context.go: BlockHeader, Context
--   Runtime/Router          runtime/router.go: RegisterModule, RouteMsg, RouteQuery
--   Runtime/Updates         runtime/lifecycle.go: deduplicateValidatorUpdates
--   Runtime/Application     runtime/application.go: executeTx, CheckTx
--   Examples                runs of the theorems at concrete inputs
-- A child module of these holds the lemmas that its name says.
--
-- How code is rendered. Receivers and arguments of pointer type are not nil, but for the delegated
-- authorizations in a map, whose nil values are modelled. A `(T, error)` is an `Outcome`, and an error
-- stands for the sentinel that it wraps; the texts are left out. A panic is an error that ends every
-- caller. Strings and byte slices are lists of numbers. A uint64 is a native number, and its `+` wraps
-- modulo 2 ^ 64 where the code does not guard it; hypotheses such as `IsWord` say that a number is one
-- of 64 bits. A map is an association list: where the code ranges over a map, the order is the list's,
-- so that a statement about every list is one about every order. A multi-send ranges over the needs of
-- its receivers once for every coin, each time in an order that a parameter of the handler gives.
-- Slices and maps that the code is given are not nil. Code that writes returns the store that it
-- leaves beside its error. A store is well formed when every balance stands under the key of its
-- account and denomination and is a uint64 (`IsStore` of Store/Balance); a cached store is when its
-- caches are within their capacity with distinct keys, the second level is empty, as no call fills it,
-- and every clean entry is what the backing store holds (`IsStore` of Store/Cached/View). An account
-- that is read is the store's own object: where a caller changes it, the store that the call leaves
-- has the change (`mutate`). The executor's state store is the memory store. Locks and the context's
-- cancellation are not modelled, so one operation runs at a time; of a batch that runs in parallel,
-- each effect runs as a whole.
--
-- Parameters. `Curves` stands for Go's ed25519 and for the code behind the algorithm secp256r1, which
-- validation refuses. The account getter of a verification is a function; it returns accounts that are
-- Go values (`IsHonest`) and gives the same answer for the length of one verification. Times are
-- numbers. `Serializer` is the interface of store/store.go, for any object type, and `IsCodec` says
-- that it reads back what it writes. `PublicKey` and `Signer` are the interfaces of crypto/keys.go and
-- crypto/signer.go. `Message` is the interface of types/message.go for any type of messages. The bytes
-- that a transaction's signatures sign, the sign document and its round trip are functions of the
-- transaction, the chain and the nonce. The queries of staking take Go's hexadecimal decoding. The
-- types of a module's handlers are a parameter of Module; in Runtime a handler is any function of its
-- context and message, which may change the context alone.
--
-- Fuel. `has_cycle_util` has as much as the graph has nodes and `rounds` one more, since every step of
-- either marks or schedules a node that was not. `decimal` has 20 digits, as many as the largest
-- uint64. `take_ready` has one more than there are modules, of which every round takes one. `drain`
-- and `walk`, callers' loops over iterators, are given as many rounds as the map behind the iterator
-- has items.
--
-- Not modelled: the IAVL store and the memory pools, which wrap third-party code; the iterators and
-- the Flush of the typed stores, and cachedIterator; the grants of the capability manager; the begin
-- and end blockers, Commit, Query and genesis; the sign document, which is JSON; key stores and
-- curves; generated code. `String` methods and statistics are left out.
pub mod Base
pub mod Types
pub mod Effects
pub mod Store
pub mod Capability
pub mod Bank
pub mod Module
pub mod Runtime
pub mod Auth
pub mod Staking
pub mod Examples
