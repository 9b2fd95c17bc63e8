-- ===== src/Store/Models.antt =====
-- db/*.go: the tables. A `*T` field is an `Option`; the fields that only carry an association in
-- memory (`Group.Node`, `Node.Subscription` and the like) are rows of other tables.
use dae_wing.Base.{ℕ, Bool, Option, Text}
use dae_wing.Store.Engine.{Engine}

pub record Config : Type 0 where
  pub id : ℕ
  pub name : Text
  pub global : Text
  pub selected : Bool
  pub version : ℕ

pub record Dns : Type 0 where
  pub id : ℕ
  pub name : Text
  pub dns : Text
  pub selected : Bool
  pub version : ℕ

pub record Routing : Type 0 where
  pub id : ℕ
  pub name : Text
  pub routing : Text
  pub selected : Bool
  pub version : ℕ

pub record Node : Type 0 where
  pub id : ℕ
  pub link : Text
  pub name : Text
  pub address : Text
  pub protocol : Text
  pub tag : Option Text
  pub subscription_id : Option ℕ

pub record Subscription : Type 0 where
  pub id : ℕ
  pub updated_at : ℕ
  pub link : Text
  pub cron_exp : Text
  pub cron_enable : Bool
  pub status : Text
  pub info : Text
  pub tag : Option Text

pub record Group : Type 0 where
  pub id : ℕ
  pub name : Text
  pub policy : Text
  pub version : ℕ
  pub system_id : Option ℕ

-- many2many:group_nodes
pub record GroupNode : Type 0 where
  pub group_id : ℕ
  pub node_id : ℕ

pub record GroupSubscription : Type 0 where
  pub group_id : ℕ
  pub subscription_id : ℕ
  pub name_filter_regex : Option Text

pub record GroupPolicyParam : Type 0 where
  pub id : ℕ
  pub key : Text
  pub value : Text
  pub group_id : ℕ

pub record System : Type 0 where
  pub id : ℕ
  pub running : Bool
  pub running_config_id : Option ℕ
  pub running_config_version : ℕ
  pub running_dns_id : Option ℕ
  pub running_dns_version : ℕ
  pub running_routing_id : Option ℕ
  pub running_routing_version : ℕ
  pub running_group_version_sum : ℕ
  pub running_group_ids : Text

pub record User : Type 0 where
  pub id : ℕ
  pub username : Text
  pub password_hash : Text
  pub jwt_secret : Text
  pub json_storage : Text
  pub avatar : Option Text
  pub name : Option Text

pub record Db (E : Engine) : Type 0 where
  pub configs : E.Table Config
  pub dnss : E.Table Dns
  pub routings : E.Table Routing
  pub nodes : E.Table Node
  pub subscriptions : E.Table Subscription
  pub groups : E.Table Group
  pub group_nodes : E.Table GroupNode
  pub group_subscriptions : E.Table GroupSubscription
  pub policy_params : E.Table GroupPolicyParam
  pub systems : E.Table System
  pub users : E.Table User
