-- ===== src/Gateway.antt =====
-- graphql/root_schema.go, and what the server does with one call of the API: the middleware `auth`
-- of cmd/run.go, the directive @hasRole, and the resolver of the field (graphql/query.go and
-- graphql/mutation.go). A call is a field of `Query` or `Mutation` with its arguments.
pub mod Open
pub mod Guarded
pub mod Entered
use dae_wing.Base.{
  ℕ, ◌-◌, ◌+◌, ◌≡◌, Bool, true, false, ◌&&◌, Option, none, some, List, [], ◌∷◌, ◌++◌, Text, codes,
  ltb, leb, ◌==◌, if◌then◌else◌, Result, ok, err, Error,
}
use dae_wing.Accounts.{Crypto, Jwt, RoleClaim, number_users, get_token}
use dae_wing.Accounts.Auth.{Passed, auth}
use dae_wing.Accounts.Profile.{Json, user_from_context, json_storage}
use dae_wing.Accounts.Requests
use dae_wing.Accounts.Requests.{Request, serve}
use dae_wing.Dae.{Dae}
use dae_wing.Descs.{Fields, FlatDesc, Desc, export_flat_desc}
use dae_wing.Latency
use dae_wing.Latency.{Latency, Prober, test_latencies, query_latencies}
use dae_wing.Mutations.{Environment, Mutation, Answer, mutate}
use dae_wing.Queries.{
  parsed_routing, parsed_dns, query_configs, query_dnss, query_routings, query_subscriptions,
  query_group, query_groups,
}
use dae_wing.Services.Groups.{trim_space}
use dae_wing.Services.Nodes.Connection.{ℤ, Connection, new_connection}
use dae_wing.Services.Schedulers.{World}
use dae_wing.Store.Engine.{Engine}
use dae_wing.Store.Models.{Config, Dns, Routing, Subscription, Group, User, Db}
use dae_wing.Store.Exec.{Exec}

-- `strings.EqualFold` where one side is made of letters that no other rune folds to than their two
-- cases, which holds of "ADMIN"
abbrev pub lower : ℕ → ℕ
lower c = if leb b'A' c && leb c b'Z' then c + 32 else c

unfoldable pub equal_fold : Text → Text → Bool
equal_fold [] [] = true
equal_fold (a ∷ s) (b ∷ t) = lower a == lower b && equal_fold s t
equal_fold _ _ = false

-- what a directive ends with: nil, an error, or a panic
pub data Verdict : Type 0 where
  allowed panicked : Verdict
  refused : Error → Verdict

-- Validate of hasRoleDirective: the role of the context, and the role of the directive. The type
-- assertion on the role panics where that is no text.
unfoldable pub validate : RoleClaim → Text → Verdict
validate RoleClaim.absent wanted = Verdict.refused Error.access_denied
validate (RoleClaim.text role) wanted =
    if equal_fold role wanted then Verdict.allowed else Verdict.refused Error.role_required
validate RoleClaim.another wanted = Verdict.panicked

-- SchemaString: the root schema and what the chain of schemas gives, up to the first error
unfoldable pub chained : Text → List (Result Text) → Result Text
chained schema [] = ok (trim_space schema)
chained schema (err e ∷ chains) = err e
chained schema (ok s ∷ chains) = chained (schema ++ s) chains

-- the queries
pub data Query : Type 0 where
  health_check number_users_query user_query general_query config_flat_desc_query : Query
  token_query : Text → Text → Query
  json_storage_query : Option (List Text) → Query
  configs_query dnss_query routings_query : Option Text → Option Bool → Query
  parsed_routing_query parsed_dns_query : Text → Query
  subscriptions_query groups_query : Option Text → Query
  group_query : Text → Query
  nodes_query : Option Text → Option Text → Option ℤ → Option Text → Query
  node_latencies_query : Option (List Text) → Query

-- The library that runs a field: with the directive of the field, if there is one, it asks
-- `Validate` first, and does not call the resolver where that gives an error or panics. Whether it
-- answers a panic with an error or passes it on, to `net/http`, is `on_panic`.
abbrev pub resolved : {W A : Type 0} → (W → Result A × W) → W → Option (Result A) × W
resolved m w = (some (m w).0, (m w).1)

abbrev pub recovered : {A : Type 0} → Option Error → Option (Result A)
recovered none = none
recovered (some e) = some (err e)

pub record Executor : Type 1 where
  pub run : {W A : Type 0} → Option Verdict → (W → Result A × W) → W → Option (Result A) × W
  pub on_panic : Option Error
  pub run-open : {W A : Type 0} (m : W → Result A × W) (w : W) → run none m w ≡ resolved m w
  pub run-passed :
      {W A : Type 0} (m : W → Result A × W) (w : W) → run (some Verdict.allowed) m w ≡ resolved m w
  pub run-denied :
      {W A : Type 0} (e : Error) (m : W → Result A × W) (w : W)
      → run (some (Verdict.refused e)) m w ≡ (some (err e), w)
  pub run-panicked :
      {W A : Type 0} (m : W → Result A × W) (w : W)
      → run (some Verdict.panicked) m w ≡ (recovered on_panic, w)

-- what the context of the request carries
abbrev pub Context : Type 0
Context = Option (RoleClaim × User)

abbrev pub role_of : Context → RoleClaim
role_of none = RoleClaim.absent
role_of (some (role, u)) = role

abbrev pub user_of : Context → Option User
user_of none = none
user_of (some (role, u)) = some u

module _ ⦃D : Dae⦄ where
  pub data Call : Type 0 where
    query : Query → Call
    account : Request → Call
    mutation : Mutation → Call
    test_latencies_call : Option (List Text) → Call

  -- where the schema has `@hasRole(role: ADMIN)`
  unfoldable pub is_restricted : Call → Bool
  is_restricted (Call.query Query.health_check) = false
  is_restricted (Call.query (Query.token_query username password)) = false
  is_restricted (Call.query Query.number_users_query) = false
  is_restricted (Call.query q) = true
  is_restricted (Call.account (Request.create_user_request random now username password)) = false
  is_restricted (Call.account q) = true
  is_restricted (Call.mutation q) = true
  is_restricted (Call.test_latencies_call ids) = true

  -- the directive of the field
  abbrev pub directive : Context → Call → Option Verdict
  directive context call =
      if is_restricted call then some (validate (role_of context) (codes "ADMIN")) else none

  pub data Reply : Type 0 where
    number : ℕ → Reply
    text : Text → Reply
    texts : List Text → Reply
    user : User → Reply
    configs : List (D.Global × Config) → Reply
    dnss : List (D.Dns × Dns) → Reply
    routings : List (D.Routing × Routing) → Reply
    routing : D.Routing → Reply
    dns : D.Dns → Reply
    subscriptions : List Subscription → Reply
    group : Group → Reply
    groups : List Group → Reply
    nodes : Connection → Reply
    latencies : List Latency → Reply
    descs : List FlatDesc → Reply
    of_account : Requests.Reply → Reply
    of_mutation : Answer → Reply

  -- the answer of the server, or the connection that `net/http` closes on a panic
  pub data Outcome : Type 0 where
    replied : Result Reply → Outcome
    aborted : Outcome

abbrev pub outcome_of : ⦃D : Dae⦄ → Option (Result Reply) → Outcome
outcome_of none = Outcome.aborted
outcome_of (some r) = Outcome.replied r

abbrev pub mapped : {A B : Type 0} → (A → B) → Result A → Result B
mapped f (ok a) = ok (f a)
mapped f (err e) = err e

-- What a call meets besides the state: what mutations meet, dae's probes, the hash of the
-- passwords, the library of tokens, that of documents, the schemas, and the fields of dae's
-- configuration with their descriptions.
pub record Api ⦃D : Dae⦄ : Type 1 where
  pub environment : Environment
  pub prober : Prober
  pub crypto : Crypto
  pub jwt : Jwt
  pub json : Json
  pub root_schema : Text
  pub schema_chains : List (Result Text)
  pub executor : Executor
  pub config_fields : Fields
  pub section_summary_desc : Desc
  pub section_description : Text → Desc

module _ ⦃D : Dae⦄ ⦃E : Engine⦄ where
  -- the database, the schedulers, and the cache of latencies
  abbrev pub Server : Type 0
  Server = World × Latency.Cache

  abbrev pub Handler : Type 0
  Handler = Server → Result Reply × Server

  abbrev pub on_database : {A : Type 0} → (A → Reply) → Exec A → Handler
  on_database f m ((s, c), l) = let r = m s in (mapped f r.0, ((r.1, c), l))

  abbrev pub on_latencies : (Db E → Latency.Cache → Result (List Latency) × Latency.Cache) → Handler
  on_latencies m ((s, c), l) = let r = m s l in (mapped Reply.latencies r.0, ((s, c), r.1))

  abbrev pub on_world : (World → Result Answer × World) → Handler
  on_world m (w, l) = let r = m w in (mapped Reply.of_mutation r.0, (r.1, l))

  abbrev pub constantly : Result Reply → Handler
  constantly r w = (r, w)

  module _ (X : Api) (now : ℕ) where
    -- the methods of queryResolver
    unfoldable pub answer_query : Context → Query → Handler
    answer_query context Query.health_check = constantly (ok (Reply.number 1))
    answer_query context (Query.token_query username password) =
        on_database Reply.text (get_token X.crypto X.jwt now username password)
    answer_query context Query.number_users_query = on_database Reply.number number_users
    answer_query context (Query.json_storage_query paths) =
        constantly (mapped Reply.texts (json_storage X.json (user_of context) paths))
    answer_query context Query.user_query =
        constantly (mapped Reply.user (user_from_context (user_of context)))
    answer_query context (Query.configs_query id selected) =
        on_database Reply.configs (query_configs id selected)
    answer_query context (Query.dnss_query id selected) =
        on_database Reply.dnss (query_dnss id selected)
    answer_query context (Query.routings_query id selected) =
        on_database Reply.routings (query_routings id selected)
    answer_query context (Query.parsed_routing_query raw) =
        constantly (mapped Reply.routing (parsed_routing raw))
    answer_query context (Query.parsed_dns_query raw) =
        constantly (mapped Reply.dns (parsed_dns raw))
    answer_query context (Query.subscriptions_query id) =
        on_database Reply.subscriptions (query_subscriptions id)
    answer_query context (Query.groups_query id) = on_database Reply.groups (query_groups id)
    answer_query context (Query.group_query name) = on_database Reply.group (query_group name)
    answer_query context (Query.nodes_query id sub first after) =
        on_database Reply.nodes (new_connection id sub first after)
    answer_query context (Query.node_latencies_query ids) =
        on_latencies (query_latencies X.prober now ids)
    answer_query context Query.config_flat_desc_query = constantly (
        ok (
          Reply.descs
            (export_flat_desc X.section_description X.config_fields X.section_summary_desc)))
    answer_query context Query.general_query =
        constantly (mapped Reply.text (chained X.root_schema X.schema_chains))

    -- the resolver of a field
    unfoldable pub answer_call : Context → Call → Handler
    answer_call context (Call.query q) = answer_query context q
    answer_call context (Call.account q) =
        on_database Reply.of_account (serve X.crypto X.jwt X.json (user_of context) q)
    answer_call context (Call.mutation q) = on_world (mutate X.environment q)
    answer_call context (Call.test_latencies_call ids) =
        on_latencies (test_latencies X.prober now ids)

    -- the end of the middleware, with the executor behind it
    abbrev pub respond : Call → Server → Passed → Outcome × Server
    respond call w Passed.nil_dereference = (Outcome.aborted, w)
    respond call w (Passed.next context) =
        let r = X.executor.run (directive context call) (answer_call context call) w in
        (outcome_of r.0, r.1)

    -- one call of the API, with the header `Authorization` of its request
    unfoldable pub handle : Text → Call → Server → Outcome × Server
    handle header call w = respond call w (auth X.jwt now header w.0.0)
