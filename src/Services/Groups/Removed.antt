-- ===== src/Services/Groups/Removed.antt =====
-- What the removal of a group leaves of the bindings.
use dae_wing.Base.{
  ℕ, ◌≡◌, refl, ap, sym, ◌∙◌, Bool, true, false, Option, none, List, [], ◌∷◌, Text, filter_by, ◌==◌,
  ==-true, if◌then◌else◌, ok, arith,
}
use mathlib.Core.Path.{subst}
use dae_wing.Cursor.{decode_cursor}
use dae_wing.Services.Groups.{removal, remove_group, auto_update_version_by_id}
use dae_wing.Services.Groups.Laws.{binding}
use dae_wing.Store.Engine.{Engine}
use dae_wing.Store.Models.{GroupSubscription, Db}
use dae_wing.Store.Exec.{
  Exec, pure, ◌>>=◌, groups, group_nodes, group_subscriptions, policy_params, delete, delete_by_id,
  TableOf,
}
use dae_wing.Store.Frames.{Keeps}
use dae_wing.Store.Kept.{IsElsewhere, drop-Keeps, drop_by_id-Keeps, write_by_id-Keeps}
use dae_wing.Store.Laws.{bind-ok, lift-bind-ok, pure-ok, delete-ok, transaction-ok}

binding-drop :
    (id g k : ℕ) (rs : List GroupSubscription)
    → binding g k (filter_by (λ r. if r.group_id == id then false else true) rs)
      ≡ (if id == g then none else binding g k rs)
binding-drop id g k [] = ground arith
binding-drop id g k (r ∷ rs) =
    ground
      (arith, binding-drop id g k rs, ==-true r.group_id id, ==-true r.group_id g, ==-true id g)

hidden-again :
    (b : Bool) (v : Option (Option Text))
    → (if b then none else (if b then none else v)) ≡ (if b then none else v)
hidden-again true v = refl
hidden-again false v = refl

module _ ⦃E : Engine⦄ where
  -- a property of the bindings alone
  abbrev pub IsLeft : E.Table GroupSubscription → Db E → Type 0
  IsLeft t s = s.group_subscriptions ≡ t

  pub groups-IsLeft : (t : E.Table GroupSubscription) → IsElsewhere (IsLeft t) groups
  unfolding IsElsewhere
  groups-IsLeft t s u h = h

  pub params-IsLeft : (t : E.Table GroupSubscription) → IsElsewhere (IsLeft t) policy_params
  unfolding IsElsewhere
  params-IsLeft t s u h = h

  pub nodes-IsLeft : (t : E.Table GroupSubscription) → IsElsewhere (IsLeft t) group_nodes
  unfolding IsElsewhere
  nodes-IsLeft t s u h = h

  -- what a block hands on whose first action keeps a property
  kept-ok :
      (P : Db E → Type 0) {A B : Type 0} (m : Exec A) (f : A → Exec B) (s s' : Db E) (b : B)
      → Keeps P m
      → P s
      → (m >>= f) s ≡ (ok b, s')
      → (a : A) × (s1 : Db E) × P s1 × (f a s1 ≡ (ok b, s'))
  kept-ok P m f s s' b keeps h e =
      let (a, s1, h1, k1) = bind-ok m f s s' b e in (a, s1, subst (λ x. P x.1) h1 (keeps s h), k1)

  last-ok :
      (P : Db E → Type 0) {A B : Type 0} (m : Exec A) (x : B) (s s' : Db E) (b : B)
      → Keeps P m
      → P s
      → (m >>= λ _. pure x) s ≡ (ok b, s')
      → P s'
  last-ok P m x s s' b keeps h e =
      let (a, s1, h1, k1) = kept-ok P m (λ _. pure x) s s' b keeps h e in
      subst P (sym (pure-ok x b s1 s' k1).1) h1

  drop-ok :
      (id n g k : ℕ) (s s1 : Db E)
      → delete group_subscriptions (λ r. r.group_id == id) s ≡ (ok n, s1)
      → binding g k (E.rows s1.group_subscriptions)
        ≡ (if id == g then none else binding g k (E.rows s.group_subscriptions))
  drop-ok id n g k s s1 h =
      let (t, put, left, _) = delete-ok group_subscriptions (λ r. r.group_id == id) s s1 n h in
      ap (λ (x : Db E). binding g k (E.rows x.group_subscriptions)) put
      ∙ ap (binding g k) left
      ∙ binding-drop id g k (E.rows s.group_subscriptions)

  module _ (id g k : ℕ) where
    -- what is seen of one binding
    abbrev IsShown : Option (Option Text) → Db E → Type 0
    IsShown v s = binding g k (E.rows s.group_subscriptions) ≡ v

    abbrev hidden : Option (Option Text) → Option (Option Text)
    hidden v = if id == g then none else v

    dropped-ok :
        (v : Option (Option Text)) {B : Type 0} (f : ℕ → Exec B) (s s' : Db E) (b : B)
        → IsShown v s
        → (delete group_subscriptions (λ r. r.group_id == id) >>= f) s ≡ (ok b, s')
        → (a : ℕ) × (s1 : Db E) × IsShown (hidden v) s1 × (f a s1 ≡ (ok b, s'))
    dropped-ok v f s s' b h e =
        let (n, s1, h1, k1) =
          bind-ok (delete group_subscriptions (λ r. r.group_id == id)) f s s' b e in
        (n, s1, drop-ok id n g k s s1 h1 ∙ ap hidden h, k1)

    -- a DELETE of the rows of the group in another table
    gone-ok :
        {R : Type 0} (T : TableOf R) (p : R → Bool) (v : Option (Option Text)) {B : Type 0}
        (f : ℕ → Exec B) (s s' : Db E) (b : B)
        → IsElsewhere (IsShown v) T
        → IsShown v s
        → (delete T p >>= f) s ≡ (ok b, s')
        → (a : ℕ) × (s1 : Db E) × IsShown v s1 × (f a s1 ≡ (ok b, s'))
    gone-ok T p v f s s' b other =
        kept-ok (IsShown v) (delete T p) f s s' b (drop-Keeps (IsShown v) T p other)

    removal-ok :
        (v : Option (Option Text)) (s s' : Db E) (n : ℕ)
        → IsShown v s
        → removal id s ≡ (ok n, s')
        → IsShown (hidden (hidden v)) s'
    unfolding auto_update_version_by_id IsElsewhere
    removal-ok v s s' n h0 e0 =
        let w = hidden v in
        let (_, s1, h1, e1) = gone-ok policy_params _ v _ s s' n (λ _ _ h. h) h0 e0 in
        let (_, s2, h2, e2) = gone-ok group_nodes _ v _ s1 s' n (λ _ _ h. h) h1 e1 in
        let (_, s3, h3, e3) = dropped-ok v _ s2 s' n h2 e2 in
        let (_, s4, h4, e4) =
          kept-ok (IsShown w) (delete_by_id groups (λ r. r.id) id) _ s3 s' n
            (drop_by_id-Keeps (IsShown w) groups (λ r. r.id) id (λ _ _ h. h)) h3 e3 in
        let (_, s5, h5, e5) = gone-ok group_nodes _ w _ s4 s' n (λ _ _ h. h) h4 e4 in
        let (_, s6, h6, e6) = dropped-ok w _ s5 s' n h5 e5 in
        let (_, s7, h7, e7) = gone-ok policy_params _ (hidden w) _ s6 s' n (λ _ _ h. h) h6 e6 in
        last-ok (IsShown (hidden w)) (auto_update_version_by_id id) _ s7 s' n
          (write_by_id-Keeps (IsShown (hidden w)) groups (λ r. r.id) id _ (λ _ _ h. h)) h7 e7

  -- If `Remove` succeeds, no subscription is bound to the group any more, and the other bindings are
  -- as they were.
  pub remove_group-ok :
      (cursor : Text) (s s' : Db E) (n g k : ℕ)
      → remove_group cursor s ≡ (ok n, s')
      → (id : ℕ) × (decode_cursor cursor ≡ ok id)
        × (binding g k (E.rows s'.group_subscriptions)
            ≡ (if id == g then none else binding g k (E.rows s.group_subscriptions)))
  unfolding remove_group
  remove_group-ok cursor s s' n g k h =
      let (id, e0, k0) = lift-bind-ok (decode_cursor cursor) _ s s' n h in
      let v = binding g k (E.rows s.group_subscriptions) in
      let k1 = transaction-ok (removal id) s s' n k0 in
      (id, e0, removal-ok id g k v s s' n refl k1 ∙ hidden-again (id == g) v)
