-- ===== src/Tests/Pages.antt =====
-- Pages of the nodes of the tests that have no subscription.
use dae_wing.Base.{
  ℕ, ◌≡◌, refl, true, not, Option, none, some, List, [], ◌∷◌, length, filter_by, ◌==◌, ok, arith,
}
use dae_wing.Cursor.{encode_cursor}
use dae_wing.Services.Nodes.Connection.{
  ℤ, Connection, PageInfo, take, decode_optional, base_query, behind, new_connection, page_info,
  total_count,
}
use dae_wing.Services.Nodes.Pages.{page_info-has_next}
use dae_wing.Store.Memory.{memory}
use dae_wing.Store.Models.{Node}
use dae_wing.Tests.Data.{database, node_1, node_3}

abbrev first_page : Connection
first_page = record { base = base_query none none; models = node_1 ∷ [] }

connected :
    new_connection ⦃E = memory⦄ none none (some (ℤ.pos 1)) none database ≡ (ok first_page, database)
unfolding new_connection decode_optional take
connected = refl

abbrev first_info : PageInfo
first_info = record {
  start_cursor = some (encode_cursor 1);
  end_cursor = some (encode_cursor 1);
  has_next_page = true;
}

informed : page_info ⦃E = memory⦄ first_page database ≡ (ok first_info, database)
unfolding page_info
informed = refl

counted : total_count ⦃E = memory⦄ first_page database ≡ (ok 2, database)
unfolding total_count
counted = refl

page_info-has_next_example :
    (after : Option ℕ) × (decode_optional none ≡ ok after)
    × (rest : List Node) × (filter_by (behind after) (node_1 ∷ node_3 ∷ []) ≡ node_1 ∷ rest)
    × (true ≡ not (length rest == 0))
page_info-has_next_example =
    page_info-has_next ⦃E = memory⦄ none none (some (ℤ.pos 1)) none database database database
      first_page first_info (omega arith) connected informed
