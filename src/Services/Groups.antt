-- ===== src/Services/Groups.antt =====
-- graphql/service/group/mutation_utils.go.
pub mod Laws
pub mod Kept
pub mod Removed
pub mod Renamed
use dae_wing.Base.{
  ℕ, ◌+◌, Bool, true, false, ◌&&◌, ◌||◌, Option, none, some, List, [], ◌∷◌, Text, length, elem, leb,
  ◌==◌, if◌then◌else◌, int32, Result, ok, err, Error,
}
use mathlib.Core.List.{reverse}
use dae_wing.Cursor.{decode_cursor, decode_cursor_batch}
use dae_wing.Cursor.Validator.{validate_id}
use dae_wing.Dae.{Param}
use dae_wing.Nodes.Names.{Regexp}
use dae_wing.Store.Engine.{Engine}
use dae_wing.Store.Models.{Group, GroupSubscription}
use dae_wing.Store.Exec.{
  Exec, pure, lift, ◌>>=◌, ◌>>◌, groups, group_nodes, group_subscriptions, policy_params, first,
  create, update, delete, update_by_id, delete_by_id, transaction,
}

-- `unicode.IsSpace`
abbrev pub is_space : ℕ → Bool
is_space c =
    leb 9 c && leb c 13
    || elem c (32 ∷ 0x85 ∷ 0xa0 ∷ 0x1680 ∷ 0x2028 ∷ 0x2029 ∷ 0x202f ∷ 0x205f ∷ 0x3000 ∷ [])
    || leb 0x2000 c && leb c 0x200a

unfoldable pub trim_left : Text → Text
trim_left [] = []
trim_left (c ∷ s) = if is_space c then trim_left s else c ∷ s

-- `strings.TrimSpace`
unfoldable pub trim_space : Text → Text
trim_space s = reverse (trim_left (reverse (trim_left s)))

-- normalizeNameFilterRegex
unfoldable pub normalize_name_filter_regex : Regexp → Option Text → Result (Option Text)
normalize_name_filter_regex re none = ok none
normalize_name_filter_regex re (some filter) = elim (trim_space filter) [
  | [] ↦ ok none
  | c ∷ s ↦ elim (re.compile (c ∷ s)) [ ok _ ↦ ok (some (c ∷ s)) | err _ ↦ err Error.bad_regex ]
]

abbrev pub binds : ℕ → ℕ → GroupSubscription → Bool
binds id subscription_id r = r.group_id == id && r.subscription_id == subscription_id

module _ ⦃E : Engine⦄ where
  -- The rows of a has-many association are inserted with their owner.
  unfoldable pub create_params : ℕ → List Param → Exec (Unit {0})
  create_params group_id [] = pure tt
  create_params group_id (p ∷ params) = do
    create policy_params (λ r. r.id)
        (λ id. record { id = id; key = p.key; value = p.val; group_id = group_id })
    create_params group_id params

  -- Create; gorm runs one `Create` in a transaction of its own
  unfoldable pub create_group : Text → Text → List Param → Exec Group
  create_group name policy params = do
    lift (validate_id name)
    transaction (do
      m ←
          create groups (λ r. r.id)
            (λ id. record { id = id; name = name; policy = policy; version = 0; system_id = none })
      create_params m.id params
      pure m)

  -- autoUpdateVersionById
  unfoldable pub auto_update_version_by_id : ℕ → Exec ℕ
  auto_update_version_by_id id =
      update_by_id groups (λ r. r.id) id (λ r. record r { version = r.version + 1 })

  -- What follows the `UPDATE` in `Rename`. If that statement failed, the source returns
  -- `0, err` where `err` is still nil.
  unfoldable pub after_rename : Bool → ℕ → Result ℕ → Exec ℕ
  after_rename changed id (err e) = pure 0
  after_rename true id (ok n) = do auto_update_version_by_id id; pure (int32 n)
  after_rename false id (ok n) = pure (int32 n)

  -- Rename; `changed` is what gorm's `Statement.Changed` says of the old row and the new name
  unfoldable pub rename_group : (Group → Text → Bool) → Text → Text → Exec ℕ
  rename_group changed cursor name = do
    lift (validate_id name)
    id ← lift (decode_cursor cursor)
    transaction (do
      g ← first groups (λ r. id == 0 || r.id == id)
      (λ s.
          let q = update_by_id groups (λ r. r.id) g.id (λ r. record r { name = name }) s in
          after_rename (changed g name) g.id q.0 q.1))

  -- the transaction of Remove; gorm deletes the rows of the associations first
  abbrev pub removal : ℕ → Exec ℕ
  removal id = do
    delete policy_params (λ r. r.group_id == id)
    delete group_nodes (λ r. r.group_id == id)
    delete group_subscriptions (λ r. r.group_id == id)
    n ← delete_by_id groups (λ r. r.id) id
    delete group_nodes (λ r. r.group_id == id)
    delete group_subscriptions (λ r. r.group_id == id)
    delete policy_params (λ r. r.group_id == id)
    auto_update_version_by_id id
    pure (int32 n)

  -- Remove
  unfoldable pub remove_group : Text → Exec ℕ
  remove_group cursor = do id ← lift (decode_cursor cursor); transaction (removal id)

  -- the INSERT of an upsert, where the UPDATE met no row
  abbrev pub insert_missing : {R : Type 0} → ℕ → Exec R → Exec (Unit {0})
  insert_missing n insert = if n == 0 then (insert >>= λ _. pure tt) else pure tt

  -- INSERT … ON CONFLICT (group_id, subscription_id) DO UPDATE SET name_filter_regex, row by row
  unfoldable pub bind_subscriptions : ℕ → Option Text → List ℕ → Exec (Unit {0})
  bind_subscriptions id filter [] = pure tt
  bind_subscriptions id filter (sub ∷ subs) = do
    n ← update group_subscriptions (binds id sub) (λ r. record r { name_filter_regex = filter })
    insert_missing n (
        create group_subscriptions (λ r. 0)
          (λ _. record { group_id = id; subscription_id = sub; name_filter_regex = filter }))
    bind_subscriptions id filter subs

  -- AddSubscriptions
  unfoldable pub add_subscriptions : Regexp → Text → List Text → Option Text → Exec ℕ
  add_subscriptions re cursor cursors name_filter = do
    id ← lift (decode_cursor cursor)
    subscription_ids ← lift (decode_cursor_batch cursors)
    filter ← lift (normalize_name_filter_regex re name_filter)
    transaction (do
      bind_subscriptions id filter subscription_ids
      auto_update_version_by_id id
      pure (int32 (length subscription_ids)))

  -- DelSubscriptions
  unfoldable pub del_subscriptions : Text → List Text → Exec ℕ
  del_subscriptions cursor cursors = do
    id ← lift (decode_cursor cursor)
    subscription_ids ← lift (decode_cursor_batch cursors)
    transaction (do
      delete group_subscriptions (λ r. r.group_id == id && elem r.subscription_id subscription_ids)
      auto_update_version_by_id id
      pure (int32 (length subscription_ids)))

  -- `Association("Node").Append`: a pair that is there already is left alone
  unfoldable pub append_nodes : ℕ → List ℕ → Exec (Unit {0})
  append_nodes id [] = pure tt
  append_nodes id (node ∷ rest) = do
    n ← update group_nodes (λ r. r.group_id == id && r.node_id == node) (λ r. r)
    insert_missing n (create group_nodes (λ r. 0) (λ _. record { group_id = id; node_id = node }))
    append_nodes id rest

  -- AddNodes
  unfoldable pub add_nodes : Text → List Text → Exec ℕ
  add_nodes cursor cursors = do
    id ← lift (decode_cursor cursor)
    node_ids ← lift (decode_cursor_batch cursors)
    transaction
        (do append_nodes id node_ids; auto_update_version_by_id id; pure (int32 (length cursors)))

  -- DelNodes
  unfoldable pub del_nodes : Text → List Text → Exec ℕ
  del_nodes cursor cursors = do
    id ← lift (decode_cursor cursor)
    node_ids ← lift (decode_cursor_batch cursors)
    transaction (do
      delete group_nodes (λ r. r.group_id == id && elem r.node_id node_ids)
      auto_update_version_by_id id
      pure (int32 (length cursors)))

  -- What follows the `UPDATE` in `SetPolicy`. `Replace` on a has-many association sets the foreign
  -- key of the old rows to NULL, which Go reads as 0, and inserts the new ones.
  unfoldable pub replace_params : ℕ → List Param → ℕ → Exec ℕ
  replace_params id params n = if n == 0 then pure 0 else do
    update policy_params (λ r. r.group_id == id) (λ r. record r { group_id = 0 })
    create_params id params
    auto_update_version_by_id id
    pure (int32 n)

  -- SetPolicy
  unfoldable pub set_policy : Text → Text → List Param → Exec ℕ
  set_policy cursor policy params = do
    id ← lift (decode_cursor cursor)
    transaction (do
      n ← update_by_id groups (λ r. r.id) id (λ r. record r { policy = policy })
      replace_params id params n)
