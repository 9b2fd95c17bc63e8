-- ===== src/Tests/Runs.antt =====
-- A run of the database of the tests, and the question whether it is modified.
use dae_wing.Base.{
  arith, member, Text, ◌≡◌, refl, true, false, ◌||◌, List, [], ◌∷◌, ◌++◌, map, codes, any, All,
  length, ◌==◌, text_eq, Result, ok, err, Error, Option, none, ℕ,
}
use dae_wing.Base.Decimal.{decimal}
use dae_wing.Cursor.{trim_prefix, cut_prefix}
use dae_wing.Dae.{DaeGroup, Policy, Conf, join, parse_config, rule_targets, necessary_outbounds}
use dae_wing.Nodes.Names.{
  NodeRef, matched_nodes, deduplicate_nodes, merge, merge_all, sort_tagged_first, insert_stable,
  uniquefy_nodes_name, name_nodes, name_node, name_at, put, pick_name, write_names, norm_node_name,
  norm_rune,
}
use dae_wing.Resolvers.Rules.{
  Shape, Dynamic, Function, reference_groups, shown_routing, rules, fallback, outbound_of,
}
use dae_wing.Resolvers.Rules.Defined.{fill_config-shown}
use dae_wing.Running.Agree.{Started, used_groups}
use dae_wing.Running.Outbounds.{defines, fill_config-defines}
use dae_wing.Running.Sections.{Served, unique_names, fill_config-Served}
use dae_wing.Running.Groups.{
  is_preset, not_found_names, bound_nodes, group_section, group_sections, positions, node_line, hex,
  hex_digits, text_lt, insert_text, sort_texts, group_ids_text, version_sum,
}
use dae_wing.Running.Modified.{modified, compare_selected}
use dae_wing.Running.Run.{
  Outside, run, run_selected, start_selected, fill_config, collect_nodes, load_groups,
  solitary_nodes,
}
use dae_wing.Reload.{Loop, Outcome, begin, step, steps}
use dae_wing.Running.Live.{exchange, told, beside_loop, run-serves}
use dae_wing.Running.Save.{save_running, replace_running_groups}
use dae_wing.Running.Unmodified.{modified-run}
use dae_wing.Services.Nodes.{first_system}
use dae_wing.Store.Memory.{memory}
use dae_wing.Store.Models.{Db, Group}
use dae_wing.Tests.Data.{plain_dae, outside, database}

abbrev started : Result ℕ × Db memory
started = run ⦃E = memory⦄ ⦃D = plain_dae⦄ outside false false database

started_ok : started ≡ (ok 1, started.1)
unfolding run run_selected start_selected fill_config collect_nodes load_groups solitary_nodes
    save_running replace_running_groups first_system not_found_names bound_nodes group_section
    group_sections positions node_line matched_nodes deduplicate_nodes merge merge_all
    sort_tagged_first insert_stable uniquefy_nodes_name name_nodes name_node name_at put pick_name
    write_names norm_node_name norm_rune parse_config join rule_targets necessary_outbounds
    trim_prefix cut_prefix text_eq decimal
started_ok = refl

-- The started configuration uses a group, so nothing is modified.
asked_ok : modified ⦃E = memory⦄ started.1 ≡ (ok false, started.1)
unfolding modified compare_selected run run_selected start_selected fill_config collect_nodes
    load_groups solitary_nodes save_running replace_running_groups first_system not_found_names
    bound_nodes group_section group_sections positions node_line matched_nodes deduplicate_nodes
    merge merge_all sort_tagged_first insert_stable uniquefy_nodes_name name_nodes name_node name_at
    put pick_name write_names norm_node_name norm_rune parse_config join rule_targets
    necessary_outbounds trim_prefix cut_prefix text_eq decimal hex hex_digits text_lt insert_text
    sort_texts group_ids_text version_sum
asked_ok = refl

modified-run_example :
    (st : Started ⦃E = memory⦄ ⦃D = plain_dae⦄ outside database started.1) × (false
      ≡ (length (used_groups ⦃E = memory⦄ ⦃D = plain_dae⦄ outside st.parsed database) == 0))
modified-run_example =
    modified-run ⦃E = memory⦄ ⦃D = plain_dae⦄ outside database started.1 started.1 1 false (tt, tt)
      started_ok asked_ok

abbrev parsed : Conf ⦃D = plain_dae⦄
parsed = outside.empty_config

abbrev filled : Result (Conf ⦃D = plain_dae⦄ × List Group) × Db memory
filled = fill_config ⦃E = memory⦄ ⦃D = plain_dae⦄ outside parsed database

abbrev value_of : Result (Conf ⦃D = plain_dae⦄ × List Group) → Conf ⦃D = plain_dae⦄ × List Group
value_of (ok v) = v
value_of (err e) = (parsed, [])

-- The configuration of the tests has one group with two nodes.
filled_ok : filled ≡ (ok (value_of filled.0), database)
unfolding fill_config collect_nodes load_groups solitary_nodes not_found_names bound_nodes
    group_section group_sections positions node_line matched_nodes deduplicate_nodes merge merge_all
    sort_tagged_first insert_stable uniquefy_nodes_name name_nodes name_node name_at put pick_name
    write_names norm_node_name norm_rune join rule_targets necessary_outbounds trim_prefix
    cut_prefix text_eq decimal
filled_ok = refl

sections_of_filled :
    (value_of filled.0).0.group
    ≡ record {
      name = codes "proxy";
      filter_names =
          record { key = []; val = codes "hk" } ∷ record { key = []; val = codes "3.hk" } ∷ [];
      policy = Policy.plain (codes "min");
    }
      ∷ []
unfolding fill_config collect_nodes load_groups solitary_nodes not_found_names bound_nodes
    group_section group_sections positions node_line matched_nodes deduplicate_nodes merge merge_all
    sort_tagged_first insert_stable uniquefy_nodes_name name_nodes name_node name_at put pick_name
    write_names norm_node_name norm_rune join rule_targets necessary_outbounds trim_prefix
    cut_prefix text_eq decimal
sections_of_filled = refl

fill_config-defines_example :
    (is_preset (codes "proxy") || any (defines (codes "proxy")) (value_of filled.0).0.group) ≡ true
unfolding necessary_outbounds rule_targets trim_prefix cut_prefix text_eq
fill_config-defines_example =
    fill_config-defines ⦃E = memory⦄ ⦃D = plain_dae⦄ outside parsed (value_of filled.0).0
      (value_of filled.0).1 database database (codes "proxy") filled_ok refl

fill_config-Served_example :
    (named : List NodeRef) × ((value_of filled.0).0.node ≡ parsed.node ++ map node_line named)
    × (secs : List DaeGroup) × ((value_of filled.0).0.group ≡ parsed.group ++ secs)
    × All (Served (unique_names named)) secs
fill_config-Served_example =
    fill_config-Served ⦃E = memory⦄ ⦃D = plain_dae⦄ outside parsed (value_of filled.0).0
      (value_of filled.0).1 database database filled_ok

-- a loop that serves an empty configuration, beside a dae that builds every control plane
abbrev serving : Loop (Conf ⦃D = plain_dae⦄)
serving = begin (outside.empty_config)

abbrev built : Conf ⦃D = plain_dae⦄ → Option Error
built c = none

abbrev live : Outside ⦃D = plain_dae⦄
live = beside_loop ⦃E = memory⦄ ⦃D = plain_dae⦄ outside built serving 7

abbrev live_run : Result ℕ × Db memory
live_run = run ⦃E = memory⦄ ⦃D = plain_dae⦄ live false false database

live_ok : live_run ≡ (ok 1, live_run.1)
unfolding run run_selected start_selected fill_config collect_nodes load_groups solitary_nodes
    save_running replace_running_groups first_system not_found_names bound_nodes group_section
    group_sections positions node_line matched_nodes deduplicate_nodes merge merge_all
    sort_tagged_first insert_stable uniquefy_nodes_name name_nodes name_node name_at put pick_name
    write_names norm_node_name norm_rune parse_config join rule_targets necessary_outbounds
    trim_prefix cut_prefix text_eq decimal told exchange steps step
live_ok = refl

run-serves_example :
    (st : Started ⦃E = memory⦄ ⦃D = plain_dae⦄ live database live_run.1) × (l' : Loop
      (Conf ⦃D = plain_dae⦄))
    × (exchange built serving 7 st.conf ≡ Outcome.serving l')
    × (l'.conf ≡ st.conf)
    × (l'.reloading ≡ false)
    × (l'.answers ≡ [] ++ (7, none) ∷ [])
    × (built st.conf ≡ none)
run-serves_example =
    run-serves ⦃E = memory⦄ ⦃D = plain_dae⦄ outside built serving 7 database live_run.1 1 live_ok

same_text : (s : Text) → Dynamic.text (codes "proxy") ≡ Dynamic.text s → codes "proxy" ≡ s
same_text s e = ground (arith, e)

no_function : (f : Function) → ¬ (Dynamic.text (codes "proxy") ≡ Dynamic.function f)
no_function f e = ground (arith, e)

-- what the API reads of the sections of the tests
abbrev shape : Shape ⦃D = plain_dae⦄
shape = record {
  rules_in = λ r.
      record {
        and_functions = [];
        outbound = record { name = codes "direct"; negated = false; params = [] };
      }
      ∷ [];
  fallback_in = λ r. Dynamic.text (codes "proxy");
  upstreams_in = λ d. d ∷ [];
  request_rules = λ d. [];
  request_fallback = λ d. Dynamic.text (codes "asis");
  response_rules = λ d. [];
  response_fallback = λ d. Dynamic.text (codes "accept");
  tag_and_rest = λ t. ([], t);
  rule_outbounds-rules_in = λ r. refl;
  fallback_name-text = λ r s e. same_text s e;
  fallback_name-function = λ r f e. absurd (no_function f e);
}

fill_config-shown_example :
    (member (codes "proxy") (reference_groups ⦃D = plain_dae⦄ parsed.routing) ≡ true)
    × ((is_preset (codes "proxy") || any (defines (codes "proxy")) (value_of filled.0).0.group)
        ≡ true)
unfolding shown_routing rules fallback outbound_of text_eq
fill_config-shown_example =
    fill_config-shown ⦃D = plain_dae⦄ shape ⦃E = memory⦄ outside parsed (value_of filled.0).0
      (value_of filled.0).1 database database
      (record { id = 1; name = []; routing = []; selected = true; version = 0 }) (codes "proxy")
      filled_ok refl
