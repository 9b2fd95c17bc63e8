-- ===== src/Mutations/Bound.antt =====
-- The bindings of subscriptions to groups as a map, and what the mutations of groups do to it.
use dae_wing.Base.{
  ℕ, ◌≡◌, refl, ap, sym, ◌∙◌, inl, inr, ◌&&◌, Option, none, some, List, [], ◌∷◌, map, Text, elem,
  ◌==◌, if◌then◌else◌, Result, ok, err, Result-cases,
}
use dae_wing.Cursor.{decode_cursor, decode_cursor_batch}
use dae_wing.Dae.{Dae}
use dae_wing.Mutations.{Environment, GroupCall, Answer, converted, perform_group}
use dae_wing.Mutations.Atomic.{perform_group-IsAtomic}
use dae_wing.Nodes.Names.{Regexp}
use dae_wing.Services.Groups.{
  create_group, set_policy, rename_group, remove_group, add_subscriptions, del_subscriptions,
  add_nodes, del_nodes, normalize_name_filter_regex,
}
use dae_wing.Services.Groups.Kept.{
  create_group-Keeps, set_policy-Keeps, rename_group-Keeps, add_nodes-Keeps, del_nodes-Keeps,
}
use dae_wing.Services.Groups.Laws.{binding, add_subscriptions-ok, del_subscriptions-ok}
use dae_wing.Services.Groups.Removed.{
  IsLeft, groups-IsLeft, params-IsLeft, nodes-IsLeft, remove_group-ok,
}
use dae_wing.Store.Engine.{Engine}
use dae_wing.Store.Models.{Db}
use dae_wing.Store.Exec.{Exec, pure, ◌>>=◌}
use dae_wing.Store.Frames.{Keeps}
use dae_wing.Store.Laws.{bind-ok, pure-ok}

-- the filter of each bound pair of a group and a subscription
abbrev pub Bindings : Type 0
Bindings = ℕ → ℕ → Option (Option Text)

-- what a call asks for
pub data Change : Type 0 where
  bind : ℕ → List ℕ → Option Text → Change
  unbind : ℕ → List ℕ → Change
  drop : ℕ → Change
  nothing : Change

abbrev pub change : Change → Bindings → Bindings
change (Change.bind id subs filter) b g k = if id == g && elem k subs then some filter else b g k
change (Change.unbind id subs) b g k = if id == g && elem k subs then none else b g k
change (Change.drop id) b g k = if id == g then none else b g k
change Change.nothing b g k = b g k

unfoldable pub replay : List Change → Bindings → Bindings
replay [] b = b
replay (c ∷ cs) b = replay cs (change c b)

abbrev binding_change : Result ℕ → Result (List ℕ) → Result (Option Text) → Change
binding_change (ok id) (ok subs) (ok filter) = Change.bind id subs filter
binding_change _ _ _ = Change.nothing

abbrev unbinding_change : Result ℕ → Result (List ℕ) → Change
unbinding_change (ok id) (ok subs) = Change.unbind id subs
unbinding_change _ _ = Change.nothing

abbrev dropping_change : Result ℕ → Change
dropping_change (ok id) = Change.drop id
dropping_change (err e) = Change.nothing

-- the change that a mutation stands for, by its arguments alone
abbrev pub change_of : ⦃D : Dae⦄ → Regexp → GroupCall → Change
change_of re (GroupCall.add_subscriptions_call id subs filter) =
    binding_change (decode_cursor id) (decode_cursor_batch subs)
      (normalize_name_filter_regex re filter)
change_of re (GroupCall.del_subscriptions_call id subs) =
    unbinding_change (decode_cursor id) (decode_cursor_batch subs)
change_of re (GroupCall.remove_group_call id) = dropping_change (decode_cursor id)
change_of re _ = Change.nothing

change-same :
    (c : Change) (b b' : Bindings)
    → ((g k : ℕ) → b g k ≡ b' g k)
    → (g k : ℕ) → change c b g k ≡ change c b' g k
change-same (Change.bind id subs filter) b b' h g k =
    ap (λ v. if id == g && elem k subs then some filter else v) (h g k)
change-same (Change.unbind id subs) b b' h g k =
    ap (λ v. if id == g && elem k subs then none else v) (h g k)
change-same (Change.drop id) b b' h g k = ap (λ v. if id == g then none else v) (h g k)
change-same Change.nothing b b' h g k = h g k

replay-same :
    (cs : List Change) (b b' : Bindings)
    → ((g k : ℕ) → b g k ≡ b' g k)
    → (g k : ℕ) → replay cs b g k ≡ replay cs b' g k
unfolding replay
replay-same [] b b' h g k = h g k
replay-same (c ∷ cs) b b' h g k =
    replay-same cs (change c b) (change c b') (change-same c b b' h) g k

module _ ⦃E : Engine⦄ where
  abbrev pub view : Db E → Bindings
  view s g k = binding g k (E.rows s.group_subscriptions)

  answer-ok :
      {D : Dae} {A : Type 0} (f : A → Answer ⦃D = D⦄) (m : Exec A) (s s' : Db E)
      (a : Answer ⦃D = D⦄)
      → (m >>= λ x. pure (f x)) s ≡ (ok a, s')
      → (x : A) × (m s ≡ (ok x, s'))
  answer-ok f m s s' a h =
      let (x, s1, h1, k1) = bind-ok m (λ x. pure (f x)) s s' a h in
      let (_, same) = pure-ok (f x) a s1 s' k1 in (x, h1 ∙ ap (λ t. (ok x, t)) (sym same))

module _ ⦃E : Engine⦄ ⦃D : Dae⦄ (o : Environment) where
  abbrev pub joined : GroupCall → Result Answer → List GroupCall → List GroupCall
  joined q (ok a) qs = q ∷ qs
  joined q (err e) qs = qs

  -- the mutations of groups one after the other, and those of them that succeed
  unfoldable pub perform_groups : List GroupCall → Db E → Db E
  perform_groups [] s = s
  perform_groups (q ∷ qs) s = perform_groups qs (perform_group o q s).1

  unfoldable pub successes : List GroupCall → Db E → List GroupCall
  successes [] s = []
  successes (q ∷ qs) s = joined q (perform_group o q s).0 (successes qs (perform_group o q s).1)

  left :
      {A : Type 0} (f : A → Answer) (m : Exec A) (s s' : Db E) (a : Answer) (g k : ℕ)
      → Keeps (IsLeft s.group_subscriptions) m
      → (m >>= λ x. pure (f x)) s ≡ (ok a, s')
      → view s' g k ≡ view s g k
  left f m s s' a g k keeps h =
      let (x, ran) = answer-ok f m s s' a h in
      ap (λ t. binding g k (E.rows t)) (ap (λ r. r.1.group_subscriptions) (sym ran) ∙ keeps s refl)

  perform_group-change :
      (q : GroupCall) (s s' : Db E) (a : Answer) (g k : ℕ)
      → perform_group o q s ≡ (ok a, s')
      → view s' g k ≡ change (change_of o.outside.regexp q) (view s) g k
  unfolding perform_group
  perform_group-change (GroupCall.create_group_call name policy params) s s' a g k h =
      let t = s.group_subscriptions in
      left Answer.group (create_group name policy (converted params)) s s' a g k
        (create_group-Keeps (IsLeft t) (groups-IsLeft t) (params-IsLeft t) (nodes-IsLeft t) name
          policy (converted params))
        h
  perform_group-change (GroupCall.set_policy_call id policy params) s s' a g k h =
      let t = s.group_subscriptions in
      left Answer.count (set_policy id policy (converted params)) s s' a g k
        (set_policy-Keeps (IsLeft t) (groups-IsLeft t) (params-IsLeft t) (nodes-IsLeft t) id policy
          (converted params))
        h
  perform_group-change (GroupCall.remove_group_call cursor) s s' a g k h =
      let (n, ran) = answer-ok Answer.count (remove_group cursor) s s' a h in
      let (id, decoded, dropped) = remove_group-ok cursor s s' n g k ran in
      dropped ∙ ap (λ r. change (dropping_change r) (view s) g k) (sym decoded)
  perform_group-change (GroupCall.rename_group_call id name) s s' a g k h =
      let t = s.group_subscriptions in
      left Answer.count (rename_group o.changed id name) s s' a g k
        (rename_group-Keeps (IsLeft t) (groups-IsLeft t) (params-IsLeft t) (nodes-IsLeft t)
          o.changed id name)
        h
  perform_group-change (GroupCall.add_subscriptions_call cursor subs filter) s s' a g k h =
      let re = o.outside.regexp in
      let (n, ran) = answer-ok Answer.count (add_subscriptions re cursor subs filter) s s' a h in
      let (id, ids, f, e0, e1, e2, bound, _, _) =
        add_subscriptions-ok re cursor subs filter s s' n ran in
      bound g k
      ∙ ap (λ r. change (binding_change r (ok ids) (ok f)) (view s) g k) (sym e0)
      ∙ ap (λ r. change (binding_change (decode_cursor cursor) r (ok f)) (view s) g k) (sym e1)
      ∙ ap
          (λ r.
            change (binding_change (decode_cursor cursor) (decode_cursor_batch subs) r) (view s) g
              k)
          (sym e2)
  perform_group-change (GroupCall.del_subscriptions_call cursor subs) s s' a g k h =
      let (n, ran) = answer-ok Answer.count (del_subscriptions cursor subs) s s' a h in
      let (id, ids, e0, e1, unbound, _, _) = del_subscriptions-ok cursor subs s s' n ran in
      unbound g k
      ∙ ap (λ r. change (unbinding_change r (ok ids)) (view s) g k) (sym e0)
      ∙ ap (λ r. change (unbinding_change (decode_cursor cursor) r) (view s) g k) (sym e1)
  perform_group-change (GroupCall.add_nodes_call id ns) s s' a g k h =
      let t = s.group_subscriptions in
      left Answer.count (add_nodes id ns) s s' a g k
        (add_nodes-Keeps (IsLeft t) (groups-IsLeft t) (params-IsLeft t) (nodes-IsLeft t) id ns) h
  perform_group-change (GroupCall.del_nodes_call id ns) s s' a g k h =
      let t = s.group_subscriptions in
      left Answer.count (del_nodes id ns) s s' a g k
        (del_nodes-Keeps (IsLeft t) (groups-IsLeft t) (params-IsLeft t) (nodes-IsLeft t) id ns) h

  -- After any mutations of groups, the failing ones included, the bindings of subscriptions are
  -- what a map holds on which just the mutations that succeeded were replayed, by their arguments.
  pub perform_groups-replay :
      (qs : List GroupCall) (s : Db E) (g k : ℕ)
      → view (perform_groups qs s) g k
        ≡ replay (map (change_of o.outside.regexp) (successes qs s)) (view s) g k
  unfolding perform_groups successes replay
  perform_groups-replay [] s g k = refl
  perform_groups-replay (q ∷ qs) s g k =
      let s1 = (perform_group o q s).1 in
      let rest = perform_groups-replay qs s1 g k in
      let re = o.outside.regexp in
      let later = map (change_of o.outside.regexp) (successes qs s1) in
      elim (Result-cases (perform_group o q s).0) [
        | inl (a, e) ↦
            let one = λ (i j : ℕ). perform_group-change q s s1 a i j (ap (λ r. (r, s1)) e) in
            rest
            ∙ replay-same later (view s1) (change (change_of o.outside.regexp q) (view s)) one g k
            ∙ ap (λ r. replay (map (change_of re) (joined q r (successes qs s1))) (view s) g k)
                (sym e)
        | inr (x, e) ↦
            let same = perform_group-IsAtomic o q s s1 x (ap (λ r. (r, s1)) e) in
            rest
            ∙ replay-same later (view s1) (view s)
                (λ i j. ap (λ t. binding i j (E.rows t.group_subscriptions)) same) g k
            ∙ ap (λ r. replay (map (change_of re) (joined q r (successes qs s1))) (view s) g k)
                (sym e)
      ]
