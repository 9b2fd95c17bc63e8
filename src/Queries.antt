-- ===== src/Queries.antt =====
-- The queries of graphql/query.go from `Configs` on. A resolver of a row is the row with the section
-- that dae parsed from it.
pub mod Chosen
use dae_wing.Base.{
  ℕ, Bool, true, not, ◌&&◌, if◌then◌else◌, Option, none, some, List, [], ◌∷◌, ◌++◌, Text, codes,
  text_eq, ◌==◌, Result, ok, err, Error,
}
use dae_wing.Cursor.{decode_cursor}
use dae_wing.Dae.{Dae, parse_config}
use dae_wing.Services.Nodes.{is_not_found}
use dae_wing.Store.Engine.{Engine}
use dae_wing.Store.Models.{Config, Dns, Routing, Subscription, Group, Db}
use dae_wing.Store.Exec.{
  Exec, pure, lift, ◌>>=◌, TableOf, configs, dnss, routings, subscriptions, groups, find, first,
}

-- the conditions `id = ?` and `selected = ?`, where they are asked for
abbrev pub id_is : Option ℕ → ℕ → Bool
id_is none k = true
id_is (some id) k = k == id

abbrev pub selected_is : Option Bool → Bool → Bool
selected_is none b = true
selected_is (some Bool.true) b = b
selected_is (some Bool.false) b = not b

abbrev pub optional_id : Option Text → Result (Option ℕ)
optional_id none = ok none
optional_id (some cursor) = elim (decode_cursor cursor) [ err e ↦ err e | ok id ↦ ok (some id) ]

-- the loop over the rows, which returns at the first one that does not parse
unfoldable pub resolve_all : {R S : Type 0} → (R → Result S) → List R → Result (List (S × R))
resolve_all section [] = ok []
resolve_all section (r ∷ rs) =
    let rest = resolve_all section rs in
    elim (section r) [
      | err e ↦ err e
      | ok c ↦ elim rest [ err e ↦ err e | ok cs ↦ ok ((c, r) ∷ cs) ]
    ]

module _ ⦃D : Dae⦄ where
  abbrev pub global_of : Config → Result D.Global
  global_of r = elim (parse_config (some r.global) none none) [ err e ↦ err e | ok c ↦ ok c.global ]

  abbrev pub dns_of : Dns → Result D.Dns
  dns_of r = elim (parse_config none (some r.dns) none) [ err e ↦ err e | ok c ↦ ok c.dns ]

  abbrev pub routing_of : Routing → Result D.Routing
  routing_of r = elim (parse_config none none (some r.routing)) [
    | err e ↦ err e
    | ok c ↦ ok c.routing
  ]

  -- ParsedRouting and ParsedDns
  unfoldable pub parsed_routing : Text → Result D.Routing
  parsed_routing raw = elim (D.parse (codes "global{} routing {" ++ (raw ++ codes "}"))) [
    | err e ↦ err e
    | ok sections ↦ elim (D.new sections) [ err e ↦ err e | ok c ↦ ok c.routing ]
  ]

  unfoldable pub parsed_dns : Text → Result D.Dns
  parsed_dns raw = elim (D.parse (codes "global{} dns {" ++ (raw ++ codes "} routing{}"))) [
    | err e ↦ err e
    | ok sections ↦ elim (D.new sections) [ err e ↦ err e | ok c ↦ ok c.dns ]
  ]

  module _ ⦃E : Engine⦄ where
    -- Configs, Dnss and Routings
    unfoldable pub query_configs : Option Text → Option Bool → Exec (List (D.Global × Config))
    query_configs cursor selected = do
      id ← lift (optional_id cursor)
      rows ← find configs (λ r. id_is id r.id && selected_is selected r.selected)
      lift (resolve_all global_of rows)

    unfoldable pub query_dnss : Option Text → Option Bool → Exec (List (D.Dns × Dns))
    query_dnss cursor selected = do
      id ← lift (optional_id cursor)
      rows ← find dnss (λ r. id_is id r.id && selected_is selected r.selected)
      lift (resolve_all dns_of rows)

    unfoldable pub query_routings : Option Text → Option Bool → Exec (List (D.Routing × Routing))
    query_routings cursor selected = do
      id ← lift (optional_id cursor)
      rows ← find routings (λ r. id_is id r.id && selected_is selected r.selected)
      lift (resolve_all routing_of rows)

module _ ⦃E : Engine⦄ where
  abbrev or_nothing : {R : Type 0} → Result (List R) → Result (List R)
  or_nothing (ok l) = ok l
  or_nothing (err e) = if is_not_found e then ok [] else err e

  -- Subscriptions
  unfoldable pub query_subscriptions : Option Text → Exec (List Subscription)
  query_subscriptions cursor = do
    id ← lift (optional_id cursor)
    (λ s. (or_nothing (find subscriptions (λ r. id_is id r.id) s).0, s))

  -- Group, Groups
  unfoldable pub query_group : Text → Exec Group
  query_group name = first groups (λ r. text_eq r.name name)

  unfoldable pub query_groups : Option Text → Exec (List Group)
  query_groups cursor = do
    id ← lift (optional_id cursor)
    (λ s. (or_nothing (find groups (λ r. id_is id r.id) s).0, s))
