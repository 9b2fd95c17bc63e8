-- ===== src/Tests/Imports.antt =====
-- Imports of nodes into the table of the tests.
use dae_wing.Base.{◌≡◌, refl, true, none, some, [], ◌∷◌, ◌++◌, codes, text_eq, ok, Error}
use dae_wing.Cursor.{cut_prefix}
use dae_wing.Cursor.Validator.{ImportArgument, validate_argument_tag}
use dae_wing.Services.Nodes.{contains, new_node_model, import_node, import_nodes}
use dae_wing.Services.Nodes.Imports.{IsJudged, import_node-IsJudged, import_nodes-ok}
use dae_wing.Store.Memory.{memory}
use dae_wing.Store.Models.{Node}
use dae_wing.Tests.Data.{database, dialer, node_1, node_2}

abbrev again : ImportArgument
again = record { link = codes "ss://2"; tag = none }

abbrev fresh : ImportArgument
fresh = record { link = codes "ss://5"; tag = none }

abbrev broken : ImportArgument
broken = record { link = codes "ss"; tag = none }

abbrev model_again : Node
model_again = record node_1 { id = 0; link = codes "ss://2"; subscription_id = some 3 }

import_node-IsJudged_example :
    IsJudged ⦃E = memory⦄ dialer
      (some 3)
      again
      database
      (import_node ⦃E = memory⦄ dialer (some 3) again database)
import_node-IsJudged_example = import_node-IsJudged ⦃E = memory⦄ dialer (some 3) again database

-- A link that the table has without a subscription is imported again.
lone_again :
    (import_node ⦃E = memory⦄ dialer none again
      (record database { nodes = record node_2 { subscription_id = none } ∷ [] })).0
    ≡ ok (record model_again { id = 3; subscription_id = none })
unfolding import_node validate_argument_tag new_node_model contains cut_prefix text_eq
lone_again = refl

-- A duplicate is reported, and the node that is new is added.
import_both : import_nodes ⦃E = memory⦄ dialer true (some 3) (again ∷ fresh ∷ []) database ≡ (
  ok (
      record { link = again.link; error = some Error.duplicated; node = none }
      ∷ record {
        link = fresh.link;
        error = none;
        node = some (record model_again { id = 4; link = fresh.link });
      }
      ∷ []),
  record database {
    nodes = database.nodes ++ record model_again { id = 4; link = fresh.link } ∷ [];
  },
)
unfolding import_nodes import_node validate_argument_tag new_node_model contains cut_prefix text_eq
import_both = refl

import_nodes-ok_example :
    (database.nodes ++ record model_again { id = 4; link = fresh.link } ∷ []
      ≡ database.nodes ++ record model_again { id = 4; link = fresh.link } ∷ [])
    × (codes "ss://2" ∷ codes "ss://5" ∷ [] ≡ codes "ss://2" ∷ codes "ss://5" ∷ [])
import_nodes-ok_example =
    import_nodes-ok ⦃E = memory⦄ dialer true (some 3) (again ∷ fresh ∷ []) _ database _ import_both
