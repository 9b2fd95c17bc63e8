-- ===== src/Services/Subscriptions.antt =====
-- graphql/service/subscription/mutation_utils.go: the downloads and the database.
-- The cache of schedulers is in Services/Schedulers.antt.
use dae_wing.Base.{
  ℕ, ◌+◌, Bool, true, false, not, ◌&&◌, ◌||◌, none, some, List, [], ◌∷◌, map, Text, codes, elem,
  any, ◌==◌, if◌then◌else◌, int32, Result, ok, err, Error,
}
use dae_wing.Cursor.{decode_cursor}
use dae_wing.Cursor.Validator.{ImportArgument, validate_tag, validate_argument_tag}
use dae_wing.Services.Nodes.{
  Dialer, ImportResult, import_nodes, sql_eq, first_system, bump_groups_of_nodes,
}
use dae_wing.Store.Engine.{Engine}
use dae_wing.Store.Models.{Subscription, Node, Group, GroupNode, GroupSubscription}
use dae_wing.Store.Exec.{
  Exec, pure, fail, lift, ◌>>=◌, ◌>>◌, subscriptions, nodes, groups, group_nodes,
  group_subscriptions, find, first, create, update, delete, update_by_id, transaction,
}

-- The network, and the decoders of subscription.ResolveSubscriptionAs… in dae. A response is a
-- status and a body that may fail to be read.
pub record Net : Type 0 where
  pub get_direct : Text → Result (ℕ × Result Text)
  pub get_routed : Text → Result (ℕ × Result Text)
  pub sip008 : Text → Result (List Text)
  pub base64_links : Text → List Text

module _ (net : Net) where
  abbrev resolve : Text → List Text
  resolve body = elim (net.sip008 body) [ ok links ↦ links | err _ ↦ net.base64_links body ]

  abbrev some_links : List Text → Result (List Text)
  some_links [] = err Error.no_candidate
  some_links (l ∷ links) = ok (l ∷ links)

  abbrev read_response : ℕ × Result Text → Result (List Text)
  read_response (status, body) =
      if status == 200
      then elim body [ err e ↦ err e | ok text ↦ some_links (resolve text) ]
      else err (Error.fetch status)

  -- _fetchLinks
  unfoldable pub fetch_links_via : (Text → Result (ℕ × Result Text)) → Text → Result (List Text)
  fetch_links_via get link = elim (get link) [ err e ↦ err e | ok resp ↦ read_response resp ]

  abbrev is_not_running : Error → Bool
  is_not_running Error.not_running = true
  is_not_running _ = false

  -- fetchLinks: directly, then through dae
  unfoldable pub fetch_links : Text → Result (List Text)
  fetch_links link = elim (fetch_links_via net.get_direct link) [
    | ok links ↦ ok links
    | err e ↦ elim (fetch_links_via net.get_routed link) [
      | ok links ↦ ok links
      | err e2 ↦ if is_not_running e2 then err e else err (Error.both e e2)
    ]
  ]

abbrev pub arguments : List Text → List ImportArgument
arguments = map (λ link. record { link = link; tag = none })

abbrev pub succeeded : ImportResult → Bool
succeeded r = elim r.error [ none ↦ true | some _ ↦ false ]

module _ ⦃E : Engine⦄ where
  abbrev some_candidate : List ImportResult → Exec (Unit {0})
  some_candidate rs = if any succeeded rs then pure tt else fail Error.no_candidate

  -- Import; the defaults of the two cron columns are those of db/subscription.go
  unfoldable pub import_subscription :
      Net → Dialer → ℕ → Bool → ImportArgument → Exec (Subscription × List ImportResult)
  import_subscription net d now abort arg = do
    lift (validate_argument_tag arg)
    links ← lift (fetch_links net arg.link)
    m ←
        create subscriptions (λ r. r.id)
          (λ id. record {
            id = id;
            updated_at = now;
            link = arg.link;
            cron_exp = codes "10 */6 * * *";
            cron_enable = true;
            status = [];
            info = [];
            tag = arg.tag;
          })
    result ← import_nodes d abort (some m.id) (arguments links)
    some_candidate result
    pure (m, result)

  -- the groups of the running system that are bound to one of the subscriptions
  abbrev binds_one : ℕ → List ℕ → List GroupSubscription → Group → Bool
  binds_one sys_id ids joins g =
      sql_eq g.system_id (some sys_id)
      && any (λ j. j.group_id == g.id && elem j.subscription_id ids) joins

  -- AutoUpdateVersionByIds
  unfoldable pub bump_groups_of_subscriptions : List ℕ → Exec (Unit {0})
  bump_groups_of_subscriptions ids = do
    sys ← first_system
    if sys.running
        then (do
          joins ← find group_subscriptions (λ r. true)
          update groups (binds_one sys.id ids joins) (λ g. record g { version = g.version + 1 })
          pure tt)
        else pure tt

  -- the nodes of the subscription that no group holds by themselves
  abbrev pub independent : ℕ → List GroupNode → Node → Bool
  independent id joins r =
      sql_eq r.subscription_id (some id) && not (any (λ j. j.node_id == r.id) joins)

  -- the transaction of UpdateById
  unfoldable pub refresh_nodes : Dialer → ℕ → ℕ → Subscription → List Text → Exec Subscription
  refresh_nodes d now id m links = do
    joins ← find group_nodes (λ r. true)
    delete nodes (independent id joins)
    result ← import_nodes d false (some id) (arguments links)
    some_candidate result
    update subscriptions (λ r. r.id == m.id) (λ r. record r { updated_at = now })
    bump_groups_of_subscriptions (id ∷ [])
    pure (record m { updated_at = now })

  -- UpdateById
  unfoldable pub update_subscription_by_id : Net → Dialer → ℕ → ℕ → Exec Subscription
  update_subscription_by_id net d now id = do
    m ← first subscriptions (λ r. id == 0 || r.id == id)
    links ← lift (fetch_links net m.link)
    transaction (refresh_nodes d now id m links)

  -- Update
  unfoldable pub update_subscription : Net → Dialer → ℕ → Text → Exec Subscription
  update_subscription net d now cursor = do
    id ← lift (decode_cursor cursor)
    update_subscription_by_id net d now id

  abbrev in_subscriptions : List ℕ → Node → Bool
  in_subscriptions ids r = elim r.subscription_id [ none ↦ false | some sub ↦ elem sub ids ]

  abbrev node_ids : List Node → List ℕ
  node_ids = map (λ r. r.id)

  -- the transaction of Remove, without the schedulers
  unfoldable pub remove_rows : List ℕ → Exec ℕ
  remove_rows ids = do
    ns ← find nodes (in_subscriptions ids)
    bump_groups_of_nodes (node_ids ns)
    bump_groups_of_subscriptions ids
    delete nodes (in_subscriptions ids)
    delete group_subscriptions (λ r. elem r.subscription_id ids)
    n ← delete subscriptions (λ r. elem r.id ids)
    pure (int32 n)

  -- Tag
  unfoldable pub tag_subscription : Text → Text → Exec ℕ
  tag_subscription cursor tag = do
    lift (validate_tag tag)
    id ← lift (decode_cursor cursor)
    n ← update subscriptions (λ r. r.id == id) (λ r. record r { tag = some tag })
    pure (int32 n)

  -- UpdateLink
  unfoldable pub update_link : ℕ → Text → Text → Exec Subscription
  update_link now cursor link = do
    id ← lift (decode_cursor cursor)
    transaction (do
      m ← first subscriptions (λ r. id == 0 || r.id == id)
      update_by_id subscriptions (λ r. r.id) m.id (λ r. record r { link = link; updated_at = now })
      bump_groups_of_subscriptions (id ∷ [])
      pure (record m { link = link; updated_at = now }))
