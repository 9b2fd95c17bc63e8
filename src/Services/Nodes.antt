-- ===== src/Services/Nodes.antt =====
-- graphql/service/node/mutation_utils.go and db/node_utils.go.
pub mod Imports
pub mod Connection
pub mod Pages
use dae_wing.Base.{
  ℕ, zero, suc, ◌+◌, ◌<◌, Bool, true, false, not, ◌&&◌, ◌||◌, Option, none, some, List, [], ◌∷◌,
  ◌++◌, Text, codes, text_eq, length, elem, any, ltb, ◌==◌, if◌then◌else◌, int32, Result, ok, err,
  Error,
}
use dae_wing.Cursor.{decode_cursor, decode_cursor_batch, cut_prefix}
use dae_wing.Cursor.Validator.{ImportArgument, validate_tag, validate_argument_tag}
use dae_wing.Store.Engine.{Engine}
use dae_wing.Store.Models.{Node, Group, GroupNode, System, Db}
use dae_wing.Store.Exec.{
  Exec, pure, fail, lift, ◌>>=◌, ◌>>◌, nodes, groups, group_nodes, systems, find, first, create,
  update, delete, update_by_id, transaction,
}

-- dialer.Property, as far as dae-wing reads it
pub record Property : Type 0 where
  pub name : Text
  pub address : Text
  pub protocol : Text

-- dialer.NewFromLink of dae, from the link and the tag
pub record Dialer : Type 0 where
  pub new_from_link : Text → Text → Result Property

-- `strings.Contains`
unfoldable pub contains : Text → Text → Bool
contains [] sub = elim sub [ [] ↦ true | _ ∷ _ ↦ false ]
contains (c ∷ s) sub = elim (cut_prefix sub (c ∷ s)) [ some _ ↦ true | none ↦ contains s sub ]

-- `subscription_id = ?` in SQL: a comparison with NULL is not true
abbrev pub sql_eq : Option ℕ → Option ℕ → Bool
sql_eq (some a) (some b) = a == b
sql_eq _ _ = false

abbrev check_tag : Option Text → Result Text
check_tag none = ok []
check_tag (some tag) = elim (validate_tag tag) [ ok _ ↦ ok tag | err e ↦ err e ]

-- `gorm.ErrRecordNotFound` and `DuplicatedError`, told apart from all other errors
abbrev pub is_not_found : Error → Bool
is_not_found Error.not_found = true
is_not_found _ = false

abbrev pub is_duplicated : Error → Bool
is_duplicated Error.duplicated = true
is_duplicated _ = false

module _ (d : Dialer) where
  -- NewNodeModel
  unfoldable pub new_node_model : Text → Option Text → Option ℕ → Result Node
  new_node_model link tag sub =
      if contains link (codes "://")
      then elim (check_tag tag) [
        | err e ↦ err e
        | ok dialer_tag ↦ elim (d.new_from_link link dialer_tag) [
          | err e ↦ err e
          | ok p ↦ ok (record {
            id = 0;
            link = link;
            name = p.name;
            address = p.address;
            protocol = p.protocol;
            tag = tag;
            subscription_id = sub;
          })
        ]
      ]
      else err Error.bad_link

-- ImportResult; the resolver is the node
pub record ImportResult : Type 0 where
  pub link : Text
  pub error : Option Error
  pub node : Option Node

module _ ⦃E : Engine⦄ where
  -- importNode
  unfoldable pub import_node : Dialer → Option ℕ → ImportArgument → Exec Node
  import_node d sub arg = do
    lift (validate_argument_tag arg)
    m ← lift (new_node_model d arg.link arg.tag sub)
    same ← find nodes (λ r. text_eq r.link arg.link && sql_eq r.subscription_id sub)
    if ltb 0 (length same)
        then fail Error.duplicated
        else create nodes (λ r. r.id) (λ id. record m { id = id })

  abbrev imported : ImportArgument → Node → ImportResult
  imported arg m = record { link = arg.link; error = none; node = some m }

  abbrev refused : ImportArgument → Error → ImportResult
  refused arg e = record { link = arg.link; error = some e; node = none }

  -- Import
  unfoldable pub import_nodes :
      Dialer → Bool → Option ℕ → List ImportArgument → Exec (List ImportResult)
  import_nodes d abort sub [] s = (ok [], s)
  import_nodes d abort sub (arg ∷ args) s =
      let q = import_node d sub arg s in
      let rest = import_nodes d abort sub args q.1 in
      elim q.0 [
        | ok m ↦ elim rest.0 [
          | ok rs ↦ (ok (imported arg m ∷ rs), rest.1)
          | err e ↦ (err e, rest.1)
        ]
        | err e ↦ if abort && not (is_duplicated e) then (err e, q.1) else elim rest.0 [
          | ok rs ↦ (ok (refused arg e ∷ rs), rest.1)
          | err e' ↦ (err e', rest.1)
        ]
      ]

  abbrev pub non_zero : Text → Text → Text
  non_zero [] old = old
  non_zero (c ∷ s) old = c ∷ s

  -- Update; `Updates` with a struct writes its non-zero fields
  unfoldable pub update_node : Dialer → Text → Text → Exec Node
  update_node d cursor link = do
    id ← lift (decode_cursor cursor)
    new ← lift (new_node_model d link none none)
    n ←
        update_by_id nodes (λ r. r.id) id
          (λ r. record r {
            link = non_zero new.link r.link;
            name = non_zero new.name r.name;
            address = non_zero new.address r.address;
            protocol = non_zero new.protocol r.protocol;
          })
    if n == 0 then fail Error.no_such_node else pure new

  abbrev pub blank_system : ℕ → System
  blank_system id = record {
    id = id;
    running = false;
    running_config_id = none;
    running_config_version = 0;
    running_dns_id = none;
    running_dns_version = 0;
    running_routing_id = none;
    running_routing_version = 0;
    running_group_version_sum = 0;
    running_group_ids = [];
  }

  -- `FirstOrCreate` on the systems
  unfoldable pub first_system : Exec System
  first_system s =
      let q = first systems (λ r. true) s in
      elim q.0 [
        | ok sys ↦ (ok sys, q.1)
        | err e ↦
            if is_not_found e then create systems (λ r. r.id) blank_system q.1 else (err e, q.1)
      ]

  -- the groups of the running system that hold one of the nodes
  abbrev pub holds_node : ℕ → List ℕ → List GroupNode → Group → Bool
  holds_node sys_id ids joins g =
      sql_eq g.system_id (some sys_id) && any (λ j. j.group_id == g.id && elem j.node_id ids) joins

  -- AutoUpdateVersionByIds; the join is read by the same statement
  unfoldable pub bump_groups_of_nodes : List ℕ → Exec (Unit {0})
  bump_groups_of_nodes ids = do
    sys ← first_system
    if sys.running
        then (do
          joins ← find group_nodes (λ r. true)
          update groups (holds_node sys.id ids joins) (λ g. record g { version = g.version + 1 })
          pure tt)
        else pure tt

  -- Remove
  unfoldable pub remove_nodes : List Text → Exec ℕ
  remove_nodes cursors = do
    ids ← lift (decode_cursor_batch cursors)
    transaction (do bump_groups_of_nodes ids; n ← delete nodes (λ r. elem r.id ids); pure (int32 n))

  -- Tag
  unfoldable pub tag_node : Text → Text → Exec ℕ
  tag_node cursor tag = do
    lift (validate_tag tag)
    id ← lift (decode_cursor cursor)
    n ← update nodes (λ r. r.id == id) (λ r. record r { tag = some tag })
    pure (int32 n)
