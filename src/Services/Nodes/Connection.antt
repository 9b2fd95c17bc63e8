-- ===== src/Services/Nodes/Connection.antt =====
-- graphql/service/node/connection_resolver.go: pages of nodes.
use dae_wing.Base.{
  ℕ, zero, suc, Bool, true, false, ◌&&◌, Option, none, some, List, [], ◌∷◌, Text, length, ltb, ◌==◌,
  int32, Result, ok, err, Error,
}
use dae_wing.Cursor.{decode_cursor, encode_cursor}
use dae_wing.Services.Nodes.{sql_eq}
use dae_wing.Store.Engine.{Engine}
use dae_wing.Store.Models.{Node}
use dae_wing.Store.Exec.{Exec, pure, lift, ◌>>=◌, nodes, find}

-- an int32
pub data ℤ : Type 0 where
  pos : ℕ → ℤ
  negsuc : ℕ → ℤ

unfoldable pub take {ℓ} : {A : Type ℓ} → ℕ → List A → List A
take n [] = []
take zero (x ∷ xs) = []
take (suc n) (x ∷ xs) = x ∷ take n xs

-- `Limit`: gorm writes no LIMIT for a negative number
abbrev pub limited : Option ℤ → List Node → List Node
limited none l = l
limited (some (ℤ.pos n)) l = take n l
limited (some (ℤ.negsuc n)) l = l

-- a cursor that may be left out
unfoldable pub decode_optional : Option Text → Result (Option ℕ)
decode_optional none = ok none
decode_optional (some cursor) = elim (decode_cursor cursor) [ err e ↦ err e | ok id ↦ ok (some id) ]

-- `baseQuery`
abbrev pub base_query : Option ℕ → Option ℕ → Node → Bool
base_query id sub n = (elim id [ none ↦ true | some i ↦ n.id == i ]) && elim sub [
  | some s ↦ sql_eq n.subscription_id (some s)
  | none ↦ elim n.subscription_id [ none ↦ true | some _ ↦ false ]
]

abbrev pub behind : Option ℕ → Node → Bool
behind none n = true
behind (some after) n = ltb after n.id

pub record Connection : Type 0 where
  pub base : Node → Bool
  pub models : List Node

pub record PageInfo : Type 0 where
  pub start_cursor : Option Text
  pub end_cursor : Option Text
  pub has_next_page : Bool

abbrev pub last_of : Node → List Node → Node
last_of n [] = n
last_of n (m ∷ l) = last_of m l

module _ ⦃E : Engine⦄ where
  -- NewConnectionResolver
  unfoldable pub new_connection :
      Option Text → Option Text → Option ℤ → Option Text → Exec Connection
  new_connection id_cursor sub_cursor first after_cursor = do
    id ← lift (decode_optional id_cursor)
    sub ← lift (decode_optional sub_cursor)
    after ← lift (decode_optional after_cursor)
    models ← find nodes (λ n. base_query id sub n && behind after n)
    pure (record { base = base_query id sub; models = limited first models })

  -- TotalCount
  unfoldable pub total_count : Connection → Exec ℕ
  total_count r = do l ← find nodes r.base; pure (int32 (length l))

  -- the page of a first node and its followers; the query for the last row orders by `id DESC`
  abbrev pub page_from : Connection → Node → List Node → List Node → Result PageInfo
  page_from r n l [] = err Error.not_found
  page_from r n l (m ∷ all) = ok (record {
    start_cursor = some (encode_cursor n.id);
    end_cursor = some (encode_cursor (last_of n l).id);
    has_next_page = ltb (last_of n l).id (last_of m all).id;
  })

  abbrev pub page_of : Connection → List Node → Exec PageInfo
  page_of r [] = pure (record { start_cursor = none; end_cursor = none; has_next_page = false })
  page_of r (n ∷ l) = find nodes r.base >>= λ all. lift (page_from r n l all)

  -- PageInfo
  unfoldable pub page_info : Connection → Exec PageInfo
  page_info r = page_of r r.models
