-- ===== src/Mutations/Selections.antt =====
-- The services of configs, dns sections and routings keep their tables orderly.
use dae_wing.Base.{ℕ, ◌≡◌, refl, true, false, Option, Text}
use dae_wing.Cursor.{decode_cursor}
use dae_wing.Dae.{Dae}
use dae_wing.Mutations.Tables.{IsOrderly}
use dae_wing.Mutations.Elsewhere.{Holds}
use dae_wing.Store.Kept.{block-Keeps, lift-Keeps, rollback-Keeps, choice-Keeps, first-Keeps}
use dae_wing.Mutations.Sound.{IsSound, changed-Keeps, created-Keeps, removed-Keeps, select-Keeps}
use dae_wing.Services.Configs.{
  create_config, update_config, remove_config, select_config, rename_config,
}
use dae_wing.Services.Dnss.{create_dns, update_dns, remove_dns, select_dns, rename_dns}
use dae_wing.Services.Routings.{
  create_routing, update_routing, remove_routing, select_routing, rename_routing,
}
use dae_wing.Store.Engine.{Engine}
use dae_wing.Store.Models.{Config, Dns, Routing, Db}
use dae_wing.Store.Exec.{create, update_by_id, delete_by_id, configs, dnss, routings}
use dae_wing.Store.Frames.{Keeps, lift-bind-Keeps}

module _ ⦃E : Engine⦄ where
  ruleset blocks = (block-Keeps, lift-Keeps, rollback-Keeps, choice-Keeps, first-Keeps)

  config-IsOrderly :
      (s : Db E)
      → Holds IsSound s
      → IsOrderly (λ (x : Config). x.id) (λ x. x.selected) (E.rows s.configs)
  config-IsOrderly s h = h.configs_are

  config-IsSound :
      (s : Db E) (t : E.Table Config)
      → Holds IsSound s
      → IsOrderly (λ (x : Config). x.id) (λ x. x.selected) (E.rows t)
      → IsSound t s.dnss s.routings
  config-IsSound s t h o = record {
    configs_are = o;
    dnss_are = h.dnss_are;
    routings_are = h.routings_are;
  }

  config-changed :
      (id : ℕ) (f : Config → Config)
      → ((r : Config) → (f r).id ≡ r.id)
      → ((r : Config) → (f r).selected ≡ r.selected)
      → Keeps (Holds IsSound) (update_by_id configs (λ r. r.id) id f)
  config-changed =
      changed-Keeps configs (λ r. r.id) (λ r. r.selected) config-IsOrderly config-IsSound

  config-created :
      (mk : ℕ → Config)
      → ((id : ℕ) → (mk id).id ≡ id)
      → ((id : ℕ) → (mk id).selected ≡ false)
      → Keeps (Holds IsSound) (create configs (λ r. r.id) mk)
  config-created =
      created-Keeps configs (λ r. r.id) (λ r. r.selected) config-IsOrderly config-IsSound

  config-removed : (id : ℕ) → Keeps (Holds IsSound) (delete_by_id configs (λ r. r.id) id)
  config-removed =
      removed-Keeps configs (λ r. r.id) (λ r. r.selected) config-IsOrderly config-IsSound

  dns-IsOrderly :
      (s : Db E) → Holds IsSound s → IsOrderly (λ (x : Dns). x.id) (λ x. x.selected) (E.rows s.dnss)
  dns-IsOrderly s h = h.dnss_are

  dns-IsSound :
      (s : Db E) (t : E.Table Dns)
      → Holds IsSound s
      → IsOrderly (λ (x : Dns). x.id) (λ x. x.selected) (E.rows t)
      → IsSound s.configs t s.routings
  dns-IsSound s t h o = record {
    configs_are = h.configs_are;
    dnss_are = o;
    routings_are = h.routings_are;
  }

  dns-changed :
      (id : ℕ) (f : Dns → Dns)
      → ((r : Dns) → (f r).id ≡ r.id)
      → ((r : Dns) → (f r).selected ≡ r.selected)
      → Keeps (Holds IsSound) (update_by_id dnss (λ r. r.id) id f)
  dns-changed = changed-Keeps dnss (λ r. r.id) (λ r. r.selected) dns-IsOrderly dns-IsSound

  dns-created :
      (mk : ℕ → Dns)
      → ((id : ℕ) → (mk id).id ≡ id)
      → ((id : ℕ) → (mk id).selected ≡ false)
      → Keeps (Holds IsSound) (create dnss (λ r. r.id) mk)
  dns-created = created-Keeps dnss (λ r. r.id) (λ r. r.selected) dns-IsOrderly dns-IsSound

  dns-removed : (id : ℕ) → Keeps (Holds IsSound) (delete_by_id dnss (λ r. r.id) id)
  dns-removed = removed-Keeps dnss (λ r. r.id) (λ r. r.selected) dns-IsOrderly dns-IsSound

  routing-IsOrderly :
      (s : Db E)
      → Holds IsSound s
      → IsOrderly (λ (x : Routing). x.id) (λ x. x.selected) (E.rows s.routings)
  routing-IsOrderly s h = h.routings_are

  routing-IsSound :
      (s : Db E) (t : E.Table Routing)
      → Holds IsSound s
      → IsOrderly (λ (x : Routing). x.id) (λ x. x.selected) (E.rows t)
      → IsSound s.configs s.dnss t
  routing-IsSound s t h o = record {
    configs_are = h.configs_are;
    dnss_are = h.dnss_are;
    routings_are = o;
  }

  routing-changed :
      (id : ℕ) (f : Routing → Routing)
      → ((r : Routing) → (f r).id ≡ r.id)
      → ((r : Routing) → (f r).selected ≡ r.selected)
      → Keeps (Holds IsSound) (update_by_id routings (λ r. r.id) id f)
  routing-changed =
      changed-Keeps routings (λ r. r.id) (λ r. r.selected) routing-IsOrderly routing-IsSound

  routing-created :
      (mk : ℕ → Routing)
      → ((id : ℕ) → (mk id).id ≡ id)
      → ((id : ℕ) → (mk id).selected ≡ false)
      → Keeps (Holds IsSound) (create routings (λ r. r.id) mk)
  routing-created =
      created-Keeps routings (λ r. r.id) (λ r. r.selected) routing-IsOrderly routing-IsSound

  routing-removed : (id : ℕ) → Keeps (Holds IsSound) (delete_by_id routings (λ r. r.id) id)
  routing-removed =
      removed-Keeps routings (λ r. r.id) (λ r. r.selected) routing-IsOrderly routing-IsSound

  module _ ⦃D : Dae⦄ where
    pub create_config-Keeps :
        (name : Text) (g : Option D.Input) → Keeps (Holds IsSound) (create_config name g)
    unfolding create_config
    create_config-Keeps name g = search (blocks, config-created) depth 14

    pub update_config-Keeps :
        (cursor : Text) (i : D.Input) → Keeps (Holds IsSound) (update_config cursor i)
    unfolding update_config
    update_config-Keeps cursor i = search (blocks, config-changed) depth 14

    pub remove_config-Keeps : (cursor : Text) → Keeps (Holds IsSound) (remove_config cursor)
    unfolding remove_config
    remove_config-Keeps cursor = search (blocks, config-removed) depth 14

    pub rename_config-Keeps :
        (cursor name : Text) → Keeps (Holds IsSound) (rename_config cursor name)
    unfolding rename_config
    rename_config-Keeps cursor name = search (blocks, config-changed) depth 14

    pub select_config-Keeps : (cursor : Text) → Keeps (Holds IsSound) (select_config cursor)
    unfolding select_config
    select_config-Keeps cursor = lift-bind-Keeps (Holds IsSound) (decode_cursor cursor) _ (λ id.
        select-Keeps configs (λ r. r.id) (λ r. r.selected) config-IsOrderly config-IsSound
          (λ s t. refl) (λ r. record r { selected = false }) (λ r. record r { selected = true })
          (λ r. refl) (λ r. refl) (λ r. refl) (λ r. refl) id)

    pub create_dns-Keeps : (name text : Text) → Keeps (Holds IsSound) (create_dns name text)
    unfolding create_dns
    create_dns-Keeps name text = search (blocks, dns-created) depth 14

    pub update_dns-Keeps : (cursor text : Text) → Keeps (Holds IsSound) (update_dns cursor text)
    unfolding update_dns
    update_dns-Keeps cursor text = search (blocks, dns-changed) depth 14

    pub remove_dns-Keeps : (cursor : Text) → Keeps (Holds IsSound) (remove_dns cursor)
    unfolding remove_dns
    remove_dns-Keeps cursor = search (blocks, dns-removed) depth 14

    pub rename_dns-Keeps : (cursor name : Text) → Keeps (Holds IsSound) (rename_dns cursor name)
    unfolding rename_dns
    rename_dns-Keeps cursor name = search (blocks, dns-changed) depth 14

    pub select_dns-Keeps : (cursor : Text) → Keeps (Holds IsSound) (select_dns cursor)
    unfolding select_dns
    select_dns-Keeps cursor = lift-bind-Keeps (Holds IsSound) (decode_cursor cursor) _ (λ id.
        select-Keeps dnss (λ r. r.id) (λ r. r.selected) dns-IsOrderly dns-IsSound (λ s t. refl)
          (λ r. record r { selected = false }) (λ r. record r { selected = true }) (λ r. refl)
          (λ r. refl) (λ r. refl) (λ r. refl) id)

    pub create_routing-Keeps : (name text : Text) → Keeps (Holds IsSound) (create_routing name text)
    unfolding create_routing
    create_routing-Keeps name text = search (blocks, routing-created) depth 14

    pub update_routing-Keeps :
        (cursor text : Text) → Keeps (Holds IsSound) (update_routing cursor text)
    unfolding update_routing
    update_routing-Keeps cursor text = search (blocks, routing-changed) depth 14

    pub remove_routing-Keeps : (cursor : Text) → Keeps (Holds IsSound) (remove_routing cursor)
    unfolding remove_routing
    remove_routing-Keeps cursor = search (blocks, routing-removed) depth 14

    pub rename_routing-Keeps :
        (cursor name : Text) → Keeps (Holds IsSound) (rename_routing cursor name)
    unfolding rename_routing
    rename_routing-Keeps cursor name = search (blocks, routing-changed) depth 14

    pub select_routing-Keeps : (cursor : Text) → Keeps (Holds IsSound) (select_routing cursor)
    unfolding select_routing
    select_routing-Keeps cursor = lift-bind-Keeps (Holds IsSound) (decode_cursor cursor) _ (λ id.
        select-Keeps routings (λ r. r.id) (λ r. r.selected) routing-IsOrderly routing-IsSound
          (λ s t. refl) (λ r. record r { selected = false }) (λ r. record r { selected = true })
          (λ r. refl) (λ r. refl) (λ r. refl) (λ r. refl) id)
