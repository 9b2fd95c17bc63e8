-- ===== src/Services/Configs.antt =====
-- graphql/service/config/mutation_utils.go: `Create`, `Update`, `Remove`, `Select`, `Rename`.
use dae_wing.Base.{ℕ, ◌+◌, true, false, Option, none, some, Text, ◌==◌, if◌then◌else◌, int32, Error}
use dae_wing.Cursor.{decode_cursor}
use dae_wing.Dae.{Dae, parse_config}
use dae_wing.Store.Engine.{Engine}
use dae_wing.Store.Models.{Config}
use dae_wing.Store.Exec.{
  Exec, pure, fail, lift, ◌>>=◌, ◌>>◌, configs, first, create, update, update_by_id, delete_by_id,
  transaction,
}

module _ ⦃E : Engine⦄ ⦃D : Dae⦄ where
  abbrev input_or_empty : Option D.Input → D.Input
  input_or_empty none = D.empty_input
  input_or_empty (some i) = i

  -- Create
  unfoldable pub create_config : Text → Option D.Input → Exec (D.Global × Config)
  create_config name glob = do
    global ← lift (D.marshal_input (input_or_empty glob))
    c ← lift (parse_config (some global) none none)
    m ←
        create configs (λ r. r.id)
          (λ id. record { id = id; name = name; global = global; selected = false; version = 0 })
    pure (c.global, m)

  -- Update: the model that is returned is the one before the update
  unfoldable pub update_config : Text → D.Input → Exec (D.Global × Config)
  update_config cursor input = do
    id ← lift (decode_cursor cursor)
    transaction (do
      m ← first configs (λ r. r.id == id)
      c ← lift (parse_config (some m.global) none none)
      let global = D.assign input c.global
      text ← lift (D.marshal_global global)
      update_by_id configs (λ r. r.id) id (λ r. record r { global = text; version = r.version + 1 })
      pure (global, m))

  -- Remove
  unfoldable pub remove_config : Text → Exec ℕ
  remove_config cursor = do
    id ← lift (decode_cursor cursor)
    n ← transaction (delete_by_id configs (λ r. r.id) id)
    pure (int32 n)

  -- Select
  unfoldable pub select_config : Text → Exec ℕ
  select_config cursor = do
    id ← lift (decode_cursor cursor)
    transaction (do
      update configs (λ r. r.selected) (λ r. record r { selected = false })
      n ← update_by_id configs (λ r. r.id) id (λ r. record r { selected = true })
      if n == 0 then fail Error.no_such_config else pure 1)

  -- Rename
  unfoldable pub rename_config : Text → Text → Exec ℕ
  rename_config cursor name = do
    id ← lift (decode_cursor cursor)
    n ← update_by_id configs (λ r. r.id) id (λ r. record r { name = name })
    pure (int32 n)
