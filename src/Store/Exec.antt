-- ===== src/Store/Exec.antt =====
-- Statements as actions: a statement that fails changes nothing, and an action that fails keeps
-- what it did before, until `transaction` rolls it back.
use dae_wing.Base.{ℕ, Bool, List, [], ◌∷◌, Result, ok, err, Error, ◌==◌, if◌then◌else◌}
use dae_wing.Store.Engine.{Engine}
use dae_wing.Store.Models.{
  Db, Config, Dns, Routing, Node, Subscription, Group, GroupNode, GroupSubscription,
  GroupPolicyParam, System, User,
}

module _ ⦃E : Engine⦄ where
  abbrev pub Exec {ℓ} : Type ℓ → Type ℓ
  Exec A = Db E → Result A × Db E

  abbrev pub pure {ℓ} : {A : Type ℓ} → A → Exec A
  pure a s = (ok a, s)

  abbrev pub fail {ℓ} : {A : Type ℓ} → Error → Exec A
  fail e s = (err e, s)

  abbrev pub lift {ℓ} : {A : Type ℓ} → Result A → Exec A
  lift r s = (r, s)

  abbrev continue {ℓ κ} : {A : Type ℓ} {B : Type κ} → Result A → (A → Exec B) → Exec B
  continue (ok a) f s = f a s
  continue (err e) f s = (err e, s)

  infixl 5 ◌>>=◌ ◌>>◌
  abbrev pub ◌>>=◌ {ℓ κ} : {A : Type ℓ} {B : Type κ} → Exec A → (A → Exec B) → Exec B
  ◌>>=◌ m f s = continue (m s).0 f (m s).1

  abbrev pub ◌>>◌ {ℓ κ} : {A : Type ℓ} {B : Type κ} → Exec A → Exec B → Exec B
  m >> n = m >>= λ _. n

  -- where a table stands in the database
  pub record TableOf (R : Type 0) : Type 0 where
    pub get : Db E → E.Table R
    pub put : Db E → E.Table R → Db E

  abbrev pub configs : TableOf Config
  configs = record { get = λ s. s.configs; put = λ s t. record s { configs = t } }

  abbrev pub dnss : TableOf Dns
  dnss = record { get = λ s. s.dnss; put = λ s t. record s { dnss = t } }

  abbrev pub routings : TableOf Routing
  routings = record { get = λ s. s.routings; put = λ s t. record s { routings = t } }

  abbrev pub nodes : TableOf Node
  nodes = record { get = λ s. s.nodes; put = λ s t. record s { nodes = t } }

  abbrev pub subscriptions : TableOf Subscription
  subscriptions = record { get = λ s. s.subscriptions; put = λ s t. record s { subscriptions = t } }

  abbrev pub groups : TableOf Group
  groups = record { get = λ s. s.groups; put = λ s t. record s { groups = t } }

  abbrev pub group_nodes : TableOf GroupNode
  group_nodes = record { get = λ s. s.group_nodes; put = λ s t. record s { group_nodes = t } }

  abbrev pub group_subscriptions : TableOf GroupSubscription
  group_subscriptions = record {
    get = λ s. s.group_subscriptions;
    put = λ s t. record s { group_subscriptions = t };
  }

  abbrev pub policy_params : TableOf GroupPolicyParam
  policy_params = record { get = λ s. s.policy_params; put = λ s t. record s { policy_params = t } }

  abbrev pub systems : TableOf System
  systems = record { get = λ s. s.systems; put = λ s t. record s { systems = t } }

  abbrev pub users : TableOf User
  users = record { get = λ s. s.users; put = λ s t. record s { users = t } }

  module _ {R : Type 0} (T : TableOf R) where
    -- `Find`
    abbrev pub find : (R → Bool) → Exec (List R)
    find p s = (E.find (T.get s) p, s)

    abbrev head_of : List R → Result R
    head_of [] = err Error.not_found
    head_of (r ∷ _) = ok r

    -- `First`: the row with the least primary key, or `gorm.ErrRecordNotFound`
    abbrev pub first : (R → Bool) → Exec R
    first p = find p >>= λ l. lift (head_of l)

    abbrev wrote : {A : Type 0} → Db E → Result (E.Table R × A) → Result A × Db E
    wrote s (ok (t, a)) = (ok a, T.put s t)
    wrote s (err e) = (err e, s)

    -- `Create`, `Updates` and `Delete`
    abbrev pub create : (R → ℕ) → (ℕ → R) → Exec R
    create key mk s = wrote s (E.insert key (T.get s) mk)

    abbrev pub update : (R → Bool) → (R → R) → Exec ℕ
    update p f s = wrote s (E.update (T.get s) p f)

    abbrev pub delete : (R → Bool) → Exec ℕ
    delete p s = wrote s (E.delete (T.get s) p)

    -- `Model(&X{ID: id})` and `Delete(&X{ID: id})`: a zero identifier gives no condition, and gorm
    -- refuses an UPDATE or a DELETE that has none
    abbrev pub update_by_id : (R → ℕ) → ℕ → (R → R) → Exec ℕ
    update_by_id key id f =
        if id == 0 then fail Error.missing_where else update (λ r. key r == id) f

    abbrev pub delete_by_id : (R → ℕ) → ℕ → Exec ℕ
    delete_by_id key id = if id == 0 then fail Error.missing_where else delete (λ r. key r == id)

  abbrev settle {ℓ} : {A : Type ℓ} → Db E → Result A × Db E → Result A × Db E
  settle s (ok a, s') = (ok a, s')
  settle s (err e, s') = (err e, s)

  -- `BeginTx`, the deferred `Commit` where the error is nil, and the deferred `Rollback` else
  abbrev pub transaction {ℓ} : {A : Type ℓ} → Exec A → Exec A
  transaction m s = settle s (m s)
