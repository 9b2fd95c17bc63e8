-- ===== src/Lib.antt =====
-- dae-wing: the backend of dae, a GraphQL server over a SQLite database. A user stores configs, dns
-- sections, routings, nodes, subscriptions and groups, selects one of the first three each, and
-- runs the selection: the server assembles a dae configuration and hands it to dae.
--
-- The parts and their files:
--
-- - Base.antt: shared types, tests and lemmas; texts are lists of the codes of their characters.
-- - Store.antt: the tables of db/*.go (Store/Models), the statements of gorm as actions on a
--   database (Store/Exec), and what is assumed of the engine (Store/Engine). `BeginTx` with the
--   deferred `Commit` or `Rollback` is `transaction`. Two concrete engines are in Store/Memory.
-- - Cursor.antt: common/utils.go, common/validator.go and graphql/internal/import.go.
-- - Dae.antt: dae/utils.go, over the interface of dae's parser.
-- - Nodes.antt: the functions `deduplicateNodes`, `normNodeName` and `uniquefyNodesName` of
--   graphql/service/config/mutation_utils.go. A `*db.Group` is the position of the group.
-- - Services.antt: the mutations of graphql/service/{config,dns,routing,group,node,subscription}.
--   `Create` of the configs is `create_config`, and so on. The cache of schedulers of the
--   subscriptions is a state beside the database (Services/Schedulers); the goroutines that use it
--   are the step relation of Services/Schedulers/Races. The pages of nodes of
--   graphql/service/node/connection_resolver.go are in Services/Nodes/Connection.
-- - Running.antt: `Run` of graphql/service/config/mutation_utils.go, and `Running` and `Modified`
--   of graphql/service/general/dae_resolver.go, which compare the database with what `Run` wrote.
-- - Reload.antt: the loop of `Run` of dae/run.go, which takes the configurations over a channel and
--   answers the callers. `run` meets it as `reload` of `Outside`, the answer to one request;
--   Running/Live puts the two together.
-- - Control.antt: `newControlPlane` of dae/run.go, which answers the loop, and the functions
--   `preprocessWanInterfaceAuto` and `WaitForNetwork` of dae/utils.go, which it calls.
-- - Mutations.antt: the mutations of graphql/mutation.go as one type, with the transactions around
--   them; its children say what all mutations keep.
--   Mutations/Bound follows the nodes and the subscriptions of the groups through any sequence of
--   the mutations of groups.
-- - Queries.antt: the queries of graphql/query.go from `Configs` on.
-- - Gateway.antt: the schema and the directive of graphql/root_schema.go, the resolvers `Query` and
--   `Mutation`, and the handler of /graphql in cmd/run.go: one call of the API from its header to
--   its answer. Gateway/Open has the calls that need no role, Gateway/Guarded those that do.
-- - Resolvers.antt: `String` of graphql/service/dns/resolver.go and routing/resolver.go; the fields
--   of a group of graphql/service/group/resolver.go (Resolvers/Groups); the interfaces of the host
--   of graphql/service/general/interface_resolver.go, and `GetIfAddrs` of common/utils.go
--   (Resolvers/Interfaces); the parsed sections with the unions of graphql/internal/resolver.go
--   (Resolvers/Rules).
-- - Descs.antt: `ExportFlatDesc` of dae/flat_desc.go, over the tree of types that reflection shows.
-- - Generators.antt: the generators under graphql/service/config/global/generator and the schema of
--   graphql/service/config/global/schema.go.
-- - Latency.antt: graphql/service/node/latency_cache.go and latency_mutation_utils.go; the goroutines
--   of the probes are the step relation of Latency/Pool.
-- - Accounts.antt: the account mutations of graphql/mutation.go, the login of graphql/query.go and
--   cmd/resetpass.go; the middleware `auth` of cmd/run.go is in Accounts/Auth.
-- - Server.antt: `restoreRunningState` and `shouldReload` of cmd/run.go.
-- - Tests.antt: runs on concrete data.
--
-- How they interact: the services change the tables and raise the versions of the rows; `Run` reads
-- the selected rows, collects the nodes of the groups that the routing names, has them deduplicated
-- and named by Nodes, sends the configuration to dae, and writes the versions into the one row of
-- the systems; `Modified` compares the two. The mutations of a group raise its version; the removal
-- of nodes, and the update and the removal of subscriptions, raise those of the running groups. All
-- of it is behind `handle` of Gateway: the middleware puts the user of a token into the context, the
-- directive asks the context for the role, and the resolver runs a query or a mutation.
--
-- What stands for code that is not in the repository: the record `Engine` (gorm and SQLite, with
-- the laws of SELECT, INSERT, UPDATE and DELETE on success; each statement may fail at any time),
-- `Dae` (dae's parser, its section types, and the generated input type of the global section),
-- `Dialer`, `Net`, `Regexp` and `MapOrder` (dae's dialer, the network and the decoders of
-- subscriptions, Go's regular expressions, and Go's order of iteration over a map), and the
-- predicate `valid` on cron expressions (gocron). For the accounts: `Crypto` (SHAKE-256 and Go's
-- classes of letters and numbers), `Jwt` (golang-jwt) and `Json` (sjson and gjson). For the
-- latencies: `Prober` (dae's dialers and control plane). For the gateway: `Executor`
-- (graph-gophers/graphql-go, which asks the directive before it calls the resolver; whether it
-- answers a panic of the directive is its `on_panic`). For the
-- interfaces: `Netlink` (the links, addresses and routes of the kernel), and `Plane` (dae's control
-- plane, and the fields of its global section), and `Shape` (the fields of dae's routing and dns
-- section that the API shows). For the generators: `Cases` (go-strcase).
--
-- Fuel: the search for a free name runs on one round more than there are names; Nodes/Search shows
-- that this is enough. The digits of a number run on a fuel above the number.
-- `WaitForNetwork` ends in the first round that is answered, so a fuel above that round is enough
-- (Control/Waiting); without such a round it does not end.
--
-- Integers: `uint` is a natural number; the sum of the versions and the conversions to `int32` and
-- `uint` wrap around.
--
-- Not modelled: a commit that fails; two requests at once, but for the probes of latencies and the
-- schedulers (`runLock` is the argument `locked` of `run`); gorm's creation of nodes that do not
-- exist in `Append`; the text of error messages; the resolvers that only project a record, and
-- dae's runtime statistics; the texts of the schemas; loggers, eBPF objects and the DNS cache of
-- the control plane; `InitDirectDialers` and the parsing of the fallback resolver, which panics on a
-- bad address, at the head of `newControlPlane`; and the process around it.
pub mod Base
pub mod Store
pub mod Nodes
pub mod Cursor
pub mod Dae
pub mod Descs
pub mod Services
pub mod Accounts
pub mod Running
pub mod Reload
pub mod Control
pub mod Mutations
pub mod Queries
pub mod Resolvers
pub mod Latency
pub mod Server
pub mod Gateway
pub mod Generators
pub mod Tests
