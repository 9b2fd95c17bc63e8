-- ===== src/Tests/Controls.antt =====
-- The way to a control plane, with a network that is slow to answer, and the interfaces.
use dae_wing.Base.{
  ℕ, zero, suc, inr, ◌<◌, ◌≡◌, refl, true, false, none, some, List, [], ◌∷◌, Text, codes, text_eq,
  member, Result, ok, arith,
}
use dae_wing.Control.{
  Response, wait_for_network, expand_auto, Plane, preprocess_wan_interface_auto, new_control_plane,
}
use dae_wing.Control.Interfaces.{is_wanted}
use dae_wing.Control.Waiting.{IsDown, wait_for_network-online}
use dae_wing.Base.Decimal.{decimal}
use dae_wing.Cursor.{trim_prefix, cut_prefix}
use dae_wing.Dae.{Dae, Conf, join, parse_config, rule_targets, necessary_outbounds}
use dae_wing.Nodes.Names.{
  matched_nodes, deduplicate_nodes, merge, merge_all, sort_tagged_first, insert_stable,
  uniquefy_nodes_name, name_nodes, name_node, name_at, put, pick_name, write_names, norm_node_name,
  norm_rune,
}
use dae_wing.Running.Agree.{Started}
use dae_wing.Running.Groups.{
  not_found_names, bound_nodes, group_section, group_sections, positions, node_line,
}
use dae_wing.Running.Run.{
  Outside, run, run_selected, start_selected, fill_config, collect_nodes, load_groups,
  solitary_nodes,
}
use dae_wing.Reload.{begin, step, steps}
use dae_wing.Running.Live.{exchange, told, beside_loop, build_by, run-new_control_plane}
use dae_wing.Running.Save.{save_running, replace_running_groups}
use dae_wing.Services.Nodes.{first_system}
use dae_wing.Store.Memory.{memory}
use dae_wing.Store.Models.{Db}
use dae_wing.Resolvers.Interfaces.{Link, Addr, Netlink, usable, link_addrs, get_if_addrs}
use dae_wing.Tests.Data.{slice_order, database}

-- a time-out, a server error, and an answer
abbrev slow : ℕ → Response
slow zero = Response.timed_out
slow (suc zero) = Response.status 503
slow (suc (suc i)) = Response.status 204

silent : (j : ℕ) → j < 2 → IsDown (slow j)
silent zero h = tt
silent (suc zero) h = inr (omega arith)
silent (suc (suc j)) h = absurd (omega arith)

wait_for_network-online_example :
    wait_for_network 3 slow 2 0 ≡ some (record { asked = 0 ∷ 1 ∷ 0 ∷ []; slept = 5000000000 })
wait_for_network-online_example =
    wait_for_network-online 2 3 slow 2 204 (omega arith) silent refl (omega arith) (omega arith)

-- a dae whose global section is its list of interfaces
abbrev wide_dae : Dae
wide_dae = record {
  Global = List Text;
  Dns = Text;
  Routing = Text;
  Sections = Text;
  parse = λ t. ok t;
  new =
      λ t. ok (record { global = codes "auto" ∷ []; dns = t; routing = t; group = []; node = [] });
  fallback_name = λ r. codes "proxy";
  rule_outbounds = λ r. codes "direct" ∷ [];
  deduplicate = λ l. l;
  deduplicate-member = λ s l. refl;
  Input = Text;
  empty_input = [];
  marshal_input = λ i. ok i;
  assign = λ i g. g;
  marshal_global = λ g. ok [];
}

abbrev plane : Plane ⦃D = wide_dae⦄
plane = record {
  wan_interface = λ g. g;
  with_wan_interface = λ l g. l;
  wan-with = λ l g. refl;
  disable_waiting_network = λ g. true;
  default_ifnames = ok (codes "eth0" ∷ []);
  has_subscriptions = λ c. false;
  new = λ nodes groups routing global dns. ok tt;
}

abbrev conf : Conf ⦃D = wide_dae⦄
conf = record { global = codes "auto" ∷ []; dns = []; routing = []; group = []; node = [] }

builds : new_control_plane ⦃D = wide_dae⦄ plane conf ≡ ok tt
unfolding new_control_plane preprocess_wan_interface_auto expand_auto text_eq
builds = refl

abbrev outside : Outside ⦃D = wide_dae⦄
outside = record {
  maps = slice_order;
  regexp = record { compile = λ t. ok (λ s. true) };
  empty_config = conf;
  reload = λ c. none;
}

abbrev live : Outside ⦃D = wide_dae⦄
live =
    beside_loop ⦃E = memory⦄ ⦃D = wide_dae⦄ outside
      (build_by ⦃E = memory⦄ ⦃D = wide_dae⦄ outside plane) (begin conf) 7

abbrev live_run : Result ℕ × Db memory
live_run = run ⦃E = memory⦄ ⦃D = wide_dae⦄ live false false database

live_ok : live_run ≡ (ok 1, live_run.1)
unfolding run run_selected start_selected fill_config collect_nodes load_groups solitary_nodes
    save_running replace_running_groups first_system not_found_names bound_nodes group_section
    group_sections positions node_line matched_nodes deduplicate_nodes merge merge_all
    sort_tagged_first insert_stable uniquefy_nodes_name name_nodes name_node name_at put pick_name
    write_names norm_node_name norm_rune parse_config join rule_targets necessary_outbounds
    trim_prefix cut_prefix text_eq decimal told exchange steps step new_control_plane
    preprocess_wan_interface_auto expand_auto
live_ok = refl

run-new_control_plane_example :
    (st : Started ⦃E = memory⦄ ⦃D = wide_dae⦄ live database live_run.1) × (g : List Text)
    × (plane.new st.conf.node st.conf.group st.conf.routing g st.conf.dns ≡ ok tt)
    × (member (codes "eth0") g ≡ is_wanted (codes "eth0" ∷ []) st.conf.global (codes "eth0"))
run-new_control_plane_example =
    run-new_control_plane ⦃E = memory⦄ ⦃D = wide_dae⦄ outside plane (begin conf) 7 database
      live_run.1 1 (codes "eth0" ∷ []) (codes "eth0") refl live_ok

-- one link that is up and one that is down
abbrev lo : Link
lo = record { name = codes "lo"; index = 1; flags = 9 }

abbrev eth : Link
eth = record { name = codes "eth0"; index = 2; flags = 8 }

abbrev local : Addr
local = record {
  universe = false;
  net_text = codes "127.0.0.1/8";
  ip_text = codes "127.0.0.1";
  passed_over = false;
}

abbrev netlink : Netlink
netlink = record {
  link_list = ok (lo ∷ eth ∷ []);
  addr_list = λ l f. ok (local ∷ []);
  route_list = λ l f. ok [];
  deduplicate = λ l. l;
  deduplicate-member = λ s l. refl;
}

gives : get_if_addrs netlink ≡ ok (codes "127.0.0.1" ∷ codes "127.0.0.1" ∷ [])
unfolding get_if_addrs link_addrs usable
gives = refl
