-- ===== src/Tests/Data.antt =====
-- The concrete data of the tests.
use mathlib.Core.List.Perm
use dae_wing.Base.{ℕ, Bool, true, false, none, some, List, [], ◌∷◌, Text, codes, refl, ok}
use dae_wing.Dae.{Dae}
use dae_wing.Nodes.Names.{MapOrder, NodeRef}
use dae_wing.Running.Run.{Outside}
use dae_wing.Services.Nodes.{Dialer}
use dae_wing.Store.Models.{Node, Config, Dns, Routing, Subscription, Group, Db}
use dae_wing.Store.Memory.{memory, read_only}

-- a dae that takes each text for what it is
abbrev pub plain_dae : Dae
plain_dae = record {
  Global = Text;
  Dns = Text;
  Routing = Text;
  Sections = Text;
  parse = λ t. ok t;
  new = λ t. ok (record { global = t; dns = t; routing = t; group = []; node = [] });
  fallback_name = λ r. codes "proxy";
  rule_outbounds = λ r. codes "direct" ∷ [];
  deduplicate = λ l. l;
  deduplicate-member = λ s l. refl;
  Input = Text;
  empty_input = [];
  marshal_input = λ i. ok i;
  assign = λ i g. i;
  marshal_global = λ g. ok g;
}

abbrev pub slice_order : MapOrder
slice_order = record { order = λ l. l; order-perm = λ l. Perm.refl l }

abbrev pub outside : Outside ⦃D = plain_dae⦄
outside = record {
  maps = slice_order;
  regexp = record { compile = λ t. ok (λ s. true) };
  empty_config = record { global = []; dns = []; routing = []; group = []; node = [] };
  reload = λ c. none;
}

abbrev pub dialer : Dialer
dialer = record {
  new_from_link =
      λ link tag. ok (record { name = codes "hk"; address = codes "a"; protocol = codes "ss" });
}

abbrev pub node_1 : Node
node_1 = record {
  id = 1;
  link = codes "ss://1";
  name = codes "hk";
  address = codes "a";
  protocol = codes "ss";
  tag = none;
  subscription_id = none;
}

abbrev pub node_2 : Node
node_2 = record node_1 { id = 2; link = codes "ss://2"; subscription_id = some 3 }

abbrev pub node_3 : Node
node_3 = record node_1 { id = 3; link = codes "ss://3"; tag = some (codes "hk") }

abbrev pub ref_of : Node → NodeRef
ref_of n = record { db_node = n; groups = 0 ∷ []; unique_name = [] }

abbrev pub refs : List NodeRef
refs = ref_of node_1 ∷ ref_of node_2 ∷ ref_of node_3 ∷ []

abbrev config_of : ℕ → Bool → Config
config_of id selected = record { id = id; name = []; global = []; selected = selected; version = 0 }

abbrev dns_of : ℕ → Bool → Dns
dns_of id selected = record { id = id; name = []; dns = []; selected = selected; version = 0 }

abbrev routing_of : ℕ → Bool → Routing
routing_of id selected = record {
  id = id;
  name = [];
  routing = [];
  selected = selected;
  version = 0;
}

abbrev pub subscription_of : ℕ → Bool → Subscription
subscription_of id enable = record {
  id = id;
  updated_at = 0;
  link = codes "http://s";
  cron_exp = codes "@daily";
  cron_enable = enable;
  status = [];
  info = [];
  tag = none;
}

abbrev pub proxy : Group
proxy = record { id = 1; name = codes "proxy"; policy = codes "min"; version = 4; system_id = none }

abbrev pub database : Db memory
database = record {
  configs = config_of 1 true ∷ config_of 2 false ∷ [];
  dnss = dns_of 1 true ∷ dns_of 2 false ∷ [];
  routings = routing_of 1 true ∷ routing_of 2 false ∷ [];
  nodes = node_1 ∷ node_2 ∷ node_3 ∷ [];
  subscriptions = subscription_of 3 false ∷ subscription_of 4 true ∷ [];
  groups = proxy ∷ [];
  group_nodes = record { group_id = 1; node_id = 1 } ∷ record { group_id = 1; node_id = 2 } ∷ [];
  group_subscriptions = [];
  policy_params = [];
  systems = [];
  users = [];
}

-- the same tables behind an engine that refuses every write
abbrev pub guarded : Db read_only
guarded = record {
  configs = database.configs;
  dnss = database.dnss;
  routings = database.routings;
  nodes = database.nodes;
  subscriptions = database.subscriptions;
  groups = database.groups;
  group_nodes = database.group_nodes;
  group_subscriptions = database.group_subscriptions;
  policy_params = database.policy_params;
  systems = database.systems;
  users = database.users;
}
