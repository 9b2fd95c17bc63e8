-- ===== src/Services/Groups/Laws.antt =====
-- What the mutations of groups do to the subscriptions of a group, and to its version.
use dae_wing.Base.{
  ℕ, ◌+◌, ◌≡◌, refl, ap, ◌∙◌, inl, inr, Bool, true, false, not, ◌&&◌, Option, none, some, List, [],
  ◌∷◌, ◌++◌, map, Text, length, elem, filter_by, count_by, ◌==◌, ==-true, if◌then◌else◌, int32,
  Bool-cases, ok, arith,
}
use dae_wing.Cursor.{decode_cursor, decode_cursor_batch}
use dae_wing.Nodes.Names.{Regexp}
use dae_wing.Services.Groups.{
  binds, insert_missing, bind_subscriptions, auto_update_version_by_id, add_subscriptions,
  del_subscriptions, normalize_name_filter_regex,
}
use dae_wing.Store.Engine.{Engine}
use dae_wing.Store.Laws.{
  bind-ok, lift-bind-ok, pure-ok, create-ok, delete-ok, update-ok, update_by_id-ok, transaction-ok,
}
use dae_wing.Store.Models.{Group, GroupSubscription, Db}
use dae_wing.Store.Exec.{Exec, pure, ◌>>=◌, groups, group_subscriptions, create, delete, update}

-- the table as a map: the filter of a group and a subscription, where they are bound
abbrev pub binding : ℕ → ℕ → List GroupSubscription → Option (Option Text)
binding g k [] = none
binding g k (r ∷ rs) =
    if r.group_id == g && r.subscription_id == k then some r.name_filter_regex else binding g k rs

abbrev set_filter : Option Text → GroupSubscription → GroupSubscription
set_filter filter r = record r { name_filter_regex = filter }

abbrev bound_row : ℕ → ℕ → Option Text → GroupSubscription
bound_row g k filter = record { group_id = g; subscription_id = k; name_filter_regex = filter }

-- an UPDATE of one pair
binding-map :
    (id sub g k : ℕ) (filter : Option Text) (rs : List GroupSubscription)
    → binding g k (map (λ r. if binds id sub r then set_filter filter r else r) rs) ≡ (
        if (id == g && sub == k) && not (count_by (binds id sub) rs == 0)
        then some filter
        else binding g k rs)
binding-map id sub g k filter [] = ground arith
binding-map id sub g k filter (r ∷ rs) = ground (
  arith,
  binding-map id sub g k filter rs,
  ==-true r.group_id id,
  ==-true r.group_id g,
  ==-true r.subscription_id sub,
  ==-true r.subscription_id k,
  ==-true id g,
  ==-true sub k,
)

binding-append :
    (g k : ℕ) (rs ss : List GroupSubscription)
    → binding g k (rs ++ ss) ≡ elim (binding g k rs) [ some f ↦ some f | none ↦ binding g k ss ]
binding-append g k [] ss = refl
binding-append g k (r ∷ rs) ss = ground (arith, binding-append g k rs ss)

binding-absent :
    (g k : ℕ) (rs : List GroupSubscription)
    → (count_by (binds g k) rs == 0) ≡ true
    → binding g k rs ≡ none
binding-absent g k [] h = refl
binding-absent g k (r ∷ rs) h = ground (arith, binding-absent g k rs)

-- the upsert of one pair
binding-upsert :
    (id sub g k n : ℕ) (filter : Option Text) (rs rs1 rs2 : List GroupSubscription)
    → n ≡ count_by (binds id sub) rs
    → rs1 ≡ map (λ r. if binds id sub r then set_filter filter r else r) rs
    → rs2 ≡ (if n == 0 then rs1 ++ bound_row id sub filter ∷ [] else rs1)
    → binding g k rs2 ≡ (if id == g && sub == k then some filter else binding g k rs)
binding-upsert id sub g k n filter rs rs1 rs2 count updated inserted =
    let m = binding-map id sub g k filter rs in
    let a = binding-append g k rs1 (bound_row id sub filter ∷ []) in
    let absent = binding-absent id sub rs in
    ground (arith, count, updated, inserted, m, a, absent, ==-true id g, ==-true sub k)

-- the groups with a new version of one of them
abbrev pub raised : ℕ → List Group → List Group
raised id = map (λ g. if g.id == id then record g { version = g.version + 1 } else g)

module _ ⦃E : Engine⦄ where
  insert_missing-ok :
      (n id sub : ℕ) (filter : Option Text) (s s' : Db E) (u : Unit {0})
      → insert_missing n
          (create group_subscriptions
            (λ r. 0)
            (λ _. record { group_id = id; subscription_id = sub; name_filter_regex = filter }))
          s
        ≡ (ok u, s')
      → (E.rows s'.group_subscriptions ≡ (
          if n == 0
          then E.rows s.group_subscriptions ++ bound_row id sub filter ∷ []
          else E.rows s.group_subscriptions))
        × (s'.groups ≡ s.groups)
  insert_missing-ok n id sub filter s s' u h = elim (Bool-cases (n == 0)) [
    | inr known ↦ (ground arith, ground arith)
    | inl fresh ↦
        let mk : ℕ → GroupSubscription = λ _. bound_row id sub filter in
        let (r, s1, h1, k1) =
          bind-ok (create group_subscriptions (λ r. 0) mk) (λ _. pure tt) s s' u (ground arith) in
        let (t, put, rows, key, made) = create-ok group_subscriptions (λ r. 0) mk s s1 r h1 in
        let (nothing, same) = pure-ok tt u s1 s' k1 in
        (ground (arith, put, rows, made, same), ground (arith, put, same))
  ]

  -- The upserts bind each of the subscriptions with the filter, and leave the other bindings.
  bind_subscriptions-ok :
      (id : ℕ) (filter : Option Text) (subs : List ℕ) (s s' : Db E) (u : Unit {0}) (g k : ℕ)
      → bind_subscriptions id filter subs s ≡ (ok u, s')
      → (binding g k (E.rows s'.group_subscriptions) ≡ (
          if id == g && elem k subs
          then some filter
          else binding g k (E.rows s.group_subscriptions)))
        × (s'.groups ≡ s.groups)
  unfolding bind_subscriptions
  bind_subscriptions-ok id filter [] s s' u g k h = (ground arith, ground arith)
  bind_subscriptions-ok id filter (sub ∷ subs) s s' u g k h =
      let (n, s1, h1, k1) =
        bind-ok (update group_subscriptions (binds id sub) (set_filter filter)) _ s s' u h in
      let (v, s2, h2, k2) =
        bind-ok
          (insert_missing n (
            create group_subscriptions (λ r. 0)
              (λ _. record { group_id = id; subscription_id = sub; name_filter_regex = filter })))
          _ s1 s' u k1 in
      let (t, put, updated, count) =
        update-ok group_subscriptions (binds id sub) (set_filter filter) s s1 n h1 in
      let (inserted, same2) = insert_missing-ok n id sub filter s1 s2 v h2 in
      let (others, same) = bind_subscriptions-ok id filter subs s2 s' u g k k2 in
      let rows1 = ap (λ (x : Db E). E.rows x.group_subscriptions) put ∙ updated in
      let one =
        binding-upsert id sub g k n filter (E.rows s.group_subscriptions)
          (E.rows s1.group_subscriptions) (E.rows s2.group_subscriptions) count rows1 inserted in
      let here : s1.groups ≡ s.groups = ap (λ (x : Db E). x.groups) put in
      (ground (arith, others, one), same ∙ same2 ∙ here)

  pub auto_update_version_by_id-ok :
      (id n : ℕ) (s s' : Db E)
      → auto_update_version_by_id id s ≡ (ok n, s')
      → (E.rows s'.groups ≡ raised id (E.rows s.groups))
        × (s'.group_subscriptions ≡ s.group_subscriptions)
  unfolding auto_update_version_by_id
  auto_update_version_by_id-ok id n s s' h =
      let (t, put, rows, count) =
        update_by_id-ok groups (λ r. r.id) id (λ r. record r { version = r.version + 1 }) s s' n
          h in
      (ap (λ (x : Db E). E.rows x.groups) put ∙ rows, ap (λ (x : Db E). x.group_subscriptions) put)

  -- what a statement on the bindings does, followed by the new version
  raise_after-ok :
      {A : Type 0} (m : Exec A) (id : ℕ) (answer : ℕ) (s s' : Db E) (n : ℕ)
      → (m >>= λ _. (auto_update_version_by_id id >>= λ _. pure answer)) s ≡ (ok n, s')
      → (s1 : Db E) × (a : A) × (m s ≡ (ok a, s1))
        × (E.rows s'.groups ≡ raised id (E.rows s1.groups))
        × (s'.group_subscriptions ≡ s1.group_subscriptions)
        × (n ≡ answer)
  raise_after-ok m id answer s s' n h =
      let (a, s1, h1, k1) =
        bind-ok m (λ _. (auto_update_version_by_id id >>= λ _. pure answer)) s s' n h in
      let (v, s2, h2, k2) = bind-ok (auto_update_version_by_id id) (λ _. pure answer) s1 s' n k1 in
      let (count, same) = pure-ok answer n s2 s' k2 in
      let (rows, kept) = auto_update_version_by_id-ok id v s1 s2 h2 in
      (
        s1,
        a,
        h1,
        ap (λ (x : Db E). E.rows x.groups) same ∙ rows,
        ap (λ (x : Db E). x.group_subscriptions) same ∙ kept,
        count,
      )

  -- If `AddSubscriptions` succeeds, each of the subscriptions is bound to the group with the
  -- normalized filter, whether it was bound before or not; no other binding has changed; and the
  -- version of the group is one more, that of the other groups the same.
  pub add_subscriptions-ok :
      (re : Regexp) (cursor : Text) (cursors : List Text) (name_filter : Option Text) (s s' : Db E)
      (n : ℕ)
      → add_subscriptions re cursor cursors name_filter s ≡ (ok n, s')
      → (id : ℕ) × (ids : List ℕ) × (filter : Option Text) × (decode_cursor cursor ≡ ok id)
        × (decode_cursor_batch cursors ≡ ok ids)
        × (normalize_name_filter_regex re name_filter ≡ ok filter)
        × ((g k : ℕ)
            → binding g k (E.rows s'.group_subscriptions) ≡ (
                if id == g && elem k ids
                then some filter
                else binding g k (E.rows s.group_subscriptions)))
        × (E.rows s'.groups ≡ raised id (E.rows s.groups))
        × (n ≡ int32 (length ids))
  unfolding add_subscriptions
  add_subscriptions-ok re cursor cursors name_filter s s' n h =
      let (id, e0, k0) = lift-bind-ok (decode_cursor cursor) _ s s' n h in
      let (ids, e1, k1) = lift-bind-ok (decode_cursor_batch cursors) _ s s' n k0 in
      let (filter, e2, k2) =
        lift-bind-ok (normalize_name_filter_regex re name_filter) _ s s' n k1 in
      let m = bind_subscriptions id filter ids in
      let body =
        transaction-ok
          (m >>= λ _. (auto_update_version_by_id id >>= λ _. pure (int32 (length ids)))) s s' n
          k2 in
      let (s1, u, bound, rows, kept, count) =
        raise_after-ok m id (int32 (length ids)) s s' n body in
      (
        id,
        ids,
        filter,
        e0,
        e1,
        e2,
        (λ g k.
            ap (λ (x : E.Table GroupSubscription). binding g k (E.rows x)) kept
            ∙ (bind_subscriptions-ok id filter ids s s1 u g k bound).0),
        rows
            ∙ ap (λ (x : E.Table Group). raised id (E.rows x))
                (bind_subscriptions-ok id filter ids s s1 u 0 0 bound).1,
        count,
      )

  abbrev unbinds : ℕ → List ℕ → GroupSubscription → Bool
  unbinds id ids r = r.group_id == id && elem r.subscription_id ids

  binding-delete :
      (id g k : ℕ) (ids : List ℕ) (rs : List GroupSubscription)
      → binding g k (filter_by (λ r. if unbinds id ids r then false else true) rs)
        ≡ (if id == g && elem k ids then none else binding g k rs)
  binding-delete id g k ids [] = ground arith
  binding-delete id g k ids (r ∷ rs) = ground (
    arith,
    binding-delete id g k ids rs,
    ==-true r.group_id id,
    ==-true r.group_id g,
    ==-true r.subscription_id k,
    ==-true id g,
  )

  -- If `DelSubscriptions` succeeds, none of the subscriptions is bound to the group, no other
  -- binding has changed, and the version of the group is one more.
  pub del_subscriptions-ok :
      (cursor : Text) (cursors : List Text) (s s' : Db E) (n : ℕ)
      → del_subscriptions cursor cursors s ≡ (ok n, s')
      → (id : ℕ) × (ids : List ℕ) × (decode_cursor cursor ≡ ok id)
        × (decode_cursor_batch cursors ≡ ok ids)
        × ((g k : ℕ)
            → binding g k (E.rows s'.group_subscriptions) ≡ (
                if id == g && elem k ids then none else binding g k (E.rows s.group_subscriptions)))
        × (E.rows s'.groups ≡ raised id (E.rows s.groups))
        × (n ≡ int32 (length ids))
  unfolding del_subscriptions
  del_subscriptions-ok cursor cursors s s' n h =
      let (id, e0, k0) = lift-bind-ok (decode_cursor cursor) _ s s' n h in
      let (ids, e1, k1) = lift-bind-ok (decode_cursor_batch cursors) _ s s' n k0 in
      let m = delete group_subscriptions (unbinds id ids) in
      let body =
        transaction-ok
          (m >>= λ _. (auto_update_version_by_id id >>= λ _. pure (int32 (length ids)))) s s' n
          k1 in
      let (s1, gone, deleted, rows, kept, count) =
        raise_after-ok m id (int32 (length ids)) s s' n body in
      let (t, put, left, number) =
        delete-ok group_subscriptions (unbinds id ids) s s1 gone deleted in
      (
        id,
        ids,
        e0,
        e1,
        (λ g k.
            ap (λ (x : E.Table GroupSubscription). binding g k (E.rows x)) kept
            ∙ ap (λ (x : Db E). binding g k (E.rows x.group_subscriptions)) put
            ∙ ap (binding g k) left
            ∙ binding-delete id g k ids (E.rows s.group_subscriptions)),
        rows ∙ ap (λ (x : Db E). raised id (E.rows x.groups)) put,
        count,
      )
