-- ===== src/Services/Routings.antt =====
-- graphql/service/routing/mutation_utils.go: `Create`, `Update`, `Remove`, `Select`, `Rename`.
use dae_wing.Base.{
  ℕ, ◌+◌, ◌++◌, true, false, none, some, Text, codes, ◌==◌, if◌then◌else◌, int32, Error,
}
use dae_wing.Cursor.{decode_cursor}
use dae_wing.Dae.{Dae, parse_config}
use dae_wing.Store.Engine.{Engine}
use dae_wing.Store.Models.{Routing}
use dae_wing.Store.Exec.{
  Exec, pure, fail, lift, ◌>>=◌, ◌>>◌, routings, first, create, update, update_by_id, delete_by_id,
  transaction,
}

abbrev pub routing_section : Text → Text
routing_section text = codes "routing {\n" ++ (text ++ codes "\n}")

module _ ⦃E : Engine⦄ ⦃D : Dae⦄ where
  -- Create
  unfoldable pub create_routing : Text → Text → Exec (D.Routing × Routing)
  create_routing name text = do
    let routing_text = routing_section text
    c ← lift (parse_config none none (some routing_text))
    m ←
        create routings (λ r. r.id)
          (λ id. record {
            id = id;
            name = name;
            routing = routing_text;
            selected = false;
            version = 0;
          })
    pure (c.routing, m)

  -- Update
  unfoldable pub update_routing : Text → Text → Exec (D.Routing × Routing)
  update_routing cursor text = do
    id ← lift (decode_cursor cursor)
    transaction (do
      m ← first routings (λ r. r.id == id)
      let routing_text = routing_section text
      c ← lift (parse_config none none (some routing_text))
      update_by_id routings (λ r. r.id) id
          (λ r. record r { routing = routing_text; version = r.version + 1 })
      pure (c.routing, record m { routing = routing_text }))

  -- Remove
  unfoldable pub remove_routing : Text → Exec ℕ
  remove_routing cursor = do
    id ← lift (decode_cursor cursor)
    n ← transaction (delete_by_id routings (λ r. r.id) id)
    pure (int32 n)

  -- Select
  unfoldable pub select_routing : Text → Exec ℕ
  select_routing cursor = do
    id ← lift (decode_cursor cursor)
    transaction (do
      update routings (λ r. r.selected) (λ r. record r { selected = false })
      n ← update_by_id routings (λ r. r.id) id (λ r. record r { selected = true })
      if n == 0 then fail Error.no_such_config else pure 1)

  -- Rename
  unfoldable pub rename_routing : Text → Text → Exec ℕ
  rename_routing cursor name = do
    id ← lift (decode_cursor cursor)
    n ← update_by_id routings (λ r. r.id) id (λ r. record r { name = name })
    pure (int32 n)
