-- ===== src/Services/Groups/Kept.antt =====
-- What the group service keeps of a property that does not read the tables it writes.
use dae_wing.Base.{ℕ, Bool, true, false, Option, List, [], ◌∷◌, Text, Result, ok, err}
use dae_wing.Dae.{Param}
use dae_wing.Store.Engine.{Engine}
use dae_wing.Store.Models.{Group, Db}
use dae_wing.Store.Exec.{update_by_id, groups, group_nodes, group_subscriptions, policy_params}
use dae_wing.Store.Frames.{Keeps}
use dae_wing.Store.Kept.{IsElsewhere, write_by_id-Keeps, kept}
use dae_wing.Nodes.Names.{Regexp}
use dae_wing.Services.Groups.{
  create_params, create_group, auto_update_version_by_id, after_rename, rename_group, remove_group,
  bind_subscriptions, add_subscriptions, del_subscriptions, append_nodes, add_nodes, del_nodes,
  replace_params, set_policy,
}

module _ ⦃E : Engine⦄ (P : Db E → Type 0) (on_groups : IsElsewhere P groups)
    (on_params : IsElsewhere P policy_params) (on_nodes : IsElsewhere P group_nodes) where
  create_params-Keeps : (id : ℕ) (ps : List Param) → Keeps P (create_params id ps)
  unfolding create_params
  create_params-Keeps id [] = search kept
  create_params-Keeps id (p ∷ ps) = search (kept, create_params-Keeps id ps) depth 14

  pub create_group-Keeps :
      (name policy : Text) (ps : List Param) → Keeps P (create_group name policy ps)
  unfolding create_group
  create_group-Keeps name policy ps = search (kept, create_params-Keeps) depth 14

  bump-Keeps : (id : ℕ) → Keeps P (auto_update_version_by_id id)
  unfolding auto_update_version_by_id
  bump-Keeps id = search kept depth 14

  pub set_policy-Keeps :
      (cursor policy : Text) (ps : List Param) → Keeps P (set_policy cursor policy ps)
  unfolding set_policy replace_params
  set_policy-Keeps cursor policy ps = search (kept, create_params-Keeps, bump-Keeps) depth 14

  after_rename-Keeps :
      (changed : Bool) (id : ℕ) (q : Result ℕ) → Keeps P (after_rename changed id q)
  unfolding after_rename
  after_rename-Keeps changed id (err e) = search kept
  after_rename-Keeps true id (ok n) = search (kept, bump-Keeps)
  after_rename-Keeps false id (ok n) = search kept

  written-Keeps :
      (changed : Bool) (id : ℕ) (f : Group → Group)
      → Keeps P
          (λ s. let q = update_by_id groups (λ r. r.id) id f s in after_rename changed id q.0 q.1)
  written-Keeps changed id f s h =
      let q = update_by_id groups (λ r. r.id) id f s in
      after_rename-Keeps changed id q.0 q.1
        (write_by_id-Keeps P groups (λ r. r.id) id f on_groups s h)

  pub rename_group-Keeps :
      (changed : Group → Text → Bool) (cursor name : Text)
      → Keeps P (rename_group changed cursor name)
  unfolding rename_group
  rename_group-Keeps changed cursor name = search (kept, written-Keeps) depth 14

  append_nodes-Keeps : (id : ℕ) (ns : List ℕ) → Keeps P (append_nodes id ns)
  unfolding append_nodes
  append_nodes-Keeps id [] = search kept
  append_nodes-Keeps id (n ∷ ns) = search (kept, append_nodes-Keeps id ns) depth 14

  pub add_nodes-Keeps : (cursor : Text) (cursors : List Text) → Keeps P (add_nodes cursor cursors)
  unfolding add_nodes
  add_nodes-Keeps cursor cursors = search (kept, append_nodes-Keeps, bump-Keeps) depth 14

  pub del_nodes-Keeps : (cursor : Text) (cursors : List Text) → Keeps P (del_nodes cursor cursors)
  unfolding del_nodes
  del_nodes-Keeps cursor cursors = search (kept, bump-Keeps) depth 14

  module _ (on_bindings : IsElsewhere P group_subscriptions) where
    pub remove_group-Keeps : (cursor : Text) → Keeps P (remove_group cursor)
    unfolding remove_group
    remove_group-Keeps cursor = search (kept, bump-Keeps) depth 24

    bind_subscriptions-Keeps :
        (id : ℕ) (filter : Option Text) (subs : List ℕ)
        → Keeps P (bind_subscriptions id filter subs)
    unfolding bind_subscriptions
    bind_subscriptions-Keeps id filter [] = search kept
    bind_subscriptions-Keeps id filter (sub ∷ subs) =
        search (kept, bind_subscriptions-Keeps id filter subs) depth 14

    pub add_subscriptions-Keeps :
        (re : Regexp) (cursor : Text) (cursors : List Text) (filter : Option Text)
        → Keeps P (add_subscriptions re cursor cursors filter)
    unfolding add_subscriptions
    add_subscriptions-Keeps re cursor cursors filter =
        search (kept, bind_subscriptions-Keeps, bump-Keeps) depth 14

    pub del_subscriptions-Keeps :
        (cursor : Text) (cursors : List Text) → Keeps P (del_subscriptions cursor cursors)
    unfolding del_subscriptions
    del_subscriptions-Keeps cursor cursors = search (kept, bump-Keeps) depth 14
