-- ===== src/Mutations/Services.antt =====
-- The services of nodes and subscriptions write neither configs nor dns sections
-- nor routings.
use dae_wing.Base.{
  ◌⊎◌, ℕ, ◌≡◌, inl, inr, Bool, true, Option, List, [], ◌∷◌, Text, Bool-cases, not, ◌&&◌,
  Result-cases, arith,
}
use dae_wing.Cursor.Validator.{ImportArgument}
use dae_wing.Services.Nodes.{
  Dialer, import_node, import_nodes, update_node, first_system, is_not_found, is_duplicated,
  blank_system, bump_groups_of_nodes, remove_nodes, tag_node,
}
use dae_wing.Store.Engine.{Engine}
use dae_wing.Store.Models.{Config, Dns, Routing, Subscription, Db}
use dae_wing.Store.Exec.{first, systems}
use dae_wing.Store.Frames.{Keeps}
use dae_wing.Mutations.Elsewhere.{Holds, systems-IsElsewhere, elsewhere}
use dae_wing.Store.Kept.{first-Keeps, add-Keeps}
use dae_wing.Services.Subscriptions.{
  Net, import_subscription, bump_groups_of_subscriptions, refresh_nodes, update_subscription_by_id,
  update_subscription, remove_rows, tag_subscription, update_link,
}
use dae_wing.Services.Schedulers.{write_cron}

module _ ⦃E : Engine⦄ (Q : E.Table Config → E.Table Dns → E.Table Routing → Type 0) where
  pub import_node-Keeps :
      (d : Dialer) (sub : Option ℕ) (arg : ImportArgument) → Keeps (Holds Q) (import_node d sub arg)
  unfolding import_node
  import_node-Keeps d sub arg = search elsewhere depth 14

  -- the import stops behind the first argument, or goes on from there
  import_nodes-state :
      (d : Dialer) (abort : Bool) (sub : Option ℕ) (arg : ImportArgument)
      (args : List ImportArgument) (s : Db E)
      → ((import_nodes d abort sub (arg ∷ args) s).1 ≡ (import_node d sub arg s).1)
        ⊎ ((import_nodes d abort sub (arg ∷ args) s).1
            ≡ (import_nodes d abort sub args (import_node d sub arg s).1).1)
  unfolding import_nodes
  import_nodes-state d abort sub arg args s =
      let q = import_node d sub arg s in
      elim (Result-cases q.0) [
        | inl (m, e) ↦ inr (ground (arith, e))
        | inr (x, e) ↦ elim (Bool-cases (abort && not (is_duplicated x))) [
          | inl stops ↦ inl (ground (arith, e, stops))
          | inr goes ↦ inr (ground (arith, e, goes))
        ]
      ]

  pub import_nodes-Keeps :
      (d : Dialer) (abort : Bool) (sub : Option ℕ) (args : List ImportArgument)
      → Keeps (Holds Q) (import_nodes d abort sub args)
  unfolding import_nodes
  import_nodes-Keeps d abort sub [] s h = h
  import_nodes-Keeps d abort sub (arg ∷ args) s h =
      let one = import_node-Keeps d sub arg s h in
      let rest = import_nodes-Keeps d abort sub args (import_node d sub arg s).1 one in
      elim (import_nodes-state d abort sub arg args s) [
        | inl same ↦ rw same one
        | inr same ↦ rw same rest
      ]

  pub update_node-Keeps :
      (d : Dialer) (cursor link : Text) → Keeps (Holds Q) (update_node d cursor link)
  unfolding update_node
  update_node-Keeps d cursor link = search elsewhere depth 14

  pub first_system-Keeps : Keeps (Holds Q) first_system
  unfolding first_system
  first_system-Keeps s h =
      let q = first systems (λ r. true) s in
      let read : Holds Q q.1 = first-Keeps (Holds Q) systems (λ r. true) s h in
      let made =
        add-Keeps (Holds Q) systems (λ r. r.id) blank_system (systems-IsElsewhere Q) q.1 read in
      elim (Result-cases q.0) [
        | inl (sys, e) ↦ rw e read
        | inr (x, e) ↦ elim (Bool-cases (is_not_found x)) [
          | inl missing ↦ rw (e, missing) made
          | inr broken ↦ rw (e, broken) read
        ]
      ]

  pub bump_groups_of_nodes-Keeps : (ids : List ℕ) → Keeps (Holds Q) (bump_groups_of_nodes ids)
  unfolding bump_groups_of_nodes
  bump_groups_of_nodes-Keeps ids = search (elsewhere, first_system-Keeps) depth 14

  pub remove_nodes-Keeps : (cursors : List Text) → Keeps (Holds Q) (remove_nodes cursors)
  unfolding remove_nodes
  remove_nodes-Keeps cursors = search (elsewhere, bump_groups_of_nodes-Keeps) depth 14

  pub tag_node-Keeps : (cursor tag : Text) → Keeps (Holds Q) (tag_node cursor tag)
  unfolding tag_node
  tag_node-Keeps cursor tag = search elsewhere depth 14

  pub bump_groups_of_subscriptions-Keeps :
      (ids : List ℕ) → Keeps (Holds Q) (bump_groups_of_subscriptions ids)
  unfolding bump_groups_of_subscriptions
  bump_groups_of_subscriptions-Keeps ids = search (elsewhere, first_system-Keeps) depth 14

  pub import_subscription-Keeps :
      (net : Net) (d : Dialer) (now : ℕ) (abort : Bool) (arg : ImportArgument)
      → Keeps (Holds Q) (import_subscription net d now abort arg)
  unfolding import_subscription
  import_subscription-Keeps net d now abort arg = search (elsewhere, import_nodes-Keeps) depth 14

  pub refresh_nodes-Keeps :
      (d : Dialer) (now id : ℕ) (m : Subscription) (links : List Text)
      → Keeps (Holds Q) (refresh_nodes d now id m links)
  unfolding refresh_nodes
  refresh_nodes-Keeps d now id m links =
      search (elsewhere, import_nodes-Keeps, bump_groups_of_subscriptions-Keeps) depth 14

  pub update_subscription-Keeps :
      (net : Net) (d : Dialer) (now : ℕ) (cursor : Text)
      → Keeps (Holds Q) (update_subscription net d now cursor)
  unfolding update_subscription update_subscription_by_id
  update_subscription-Keeps net d now cursor = search (elsewhere, refresh_nodes-Keeps) depth 14

  pub remove_rows-Keeps : (ids : List ℕ) → Keeps (Holds Q) (remove_rows ids)
  unfolding remove_rows
  remove_rows-Keeps ids =
      search (elsewhere, bump_groups_of_nodes-Keeps, bump_groups_of_subscriptions-Keeps) depth 14

  pub tag_subscription-Keeps : (cursor tag : Text) → Keeps (Holds Q) (tag_subscription cursor tag)
  unfolding tag_subscription
  tag_subscription-Keeps cursor tag = search elsewhere depth 14

  pub update_link-Keeps :
      (now : ℕ) (cursor link : Text) → Keeps (Holds Q) (update_link now cursor link)
  unfolding update_link
  update_link-Keeps now cursor link =
      search (elsewhere, bump_groups_of_subscriptions-Keeps) depth 14

  pub write_cron-Keeps :
      (id : ℕ) (exp : Text) (enable : Bool) → Keeps (Holds Q) (write_cron id exp enable)
  unfolding write_cron
  write_cron-Keeps id exp enable = search elsewhere depth 14
