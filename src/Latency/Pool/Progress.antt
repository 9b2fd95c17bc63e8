-- ===== src/Latency/Pool/Progress.antt =====
-- The probes of `testLatencyResultsForNodes` all end: no run gets stuck, and none goes on for ever.
use dae_wing.Base.{
  ℕ, zero, suc, ◌+◌, ◌*◌, ◌≡◌, ◌⊎◌, inl, inr, refl, ap, ◌∙◌, sym, List, [], ◌∷◌, ◌++◌, map, length,
  arith,
}
use mathlib.Core.Path.{subst}
use dae_wing.Latency.Pool.{
  Slot, in_flight, started, ended, Step, Run, Run-planned, started-planned, ended-planned,
}

module _ {A B : Type 0} where
  -- the steps that are left
  unfoldable remaining : List (Slot A B) → ℕ
  remaining [] = 0
  remaining (Slot.waiting a ∷ ss) = suc (suc (remaining ss))
  remaining (Slot.probing a ∷ ss) = suc (remaining ss)
  remaining (Slot.finished b ∷ ss) = remaining ss

  remaining-append : (ss ts : List (Slot A B)) → remaining (ss ++ ts) ≡ remaining ss + remaining ts
  unfolding remaining
  remaining-append [] ts = omega arith
  remaining-append (Slot.waiting a ∷ ss) ts = omega (arith, remaining-append ss ts)
  remaining-append (Slot.probing a ∷ ss) ts = omega (arith, remaining-append ss ts)
  remaining-append (Slot.finished b ∷ ss) ts = remaining-append ss ts

  -- a place of the list, for a slot of the kind `f`
  IsAt : (A → Slot A B) → List (Slot A B) → Type 0
  IsAt f ss =
      (before : List (Slot A B)) × (a : A) × (after : List (Slot A B)) × (ss
        ≡ before ++ f a ∷ after)

  later : (f : A → Slot A B) (s : Slot A B) (ss : List (Slot A B)) → IsAt f ss → IsAt f (s ∷ ss)
  unfolding IsAt
  later f s ss (before, a, after, e) = (s ∷ before, a, after, ap (λ l. s ∷ l) e)

  find_probing : (ss : List (Slot A B)) → IsAt Slot.probing ss ⊎ (in_flight ss ≡ 0)
  unfolding in_flight IsAt
  find_probing [] = inr refl
  find_probing (Slot.probing a ∷ ss) = inl ([], a, ss, refl)
  find_probing (Slot.waiting a ∷ ss) = elim (find_probing ss) [
    | inl at ↦ inl (later Slot.probing (Slot.waiting a) ss at)
    | inr e ↦ inr e
  ]
  find_probing (Slot.finished b ∷ ss) = elim (find_probing ss) [
    | inl at ↦ inl (later Slot.probing (Slot.finished b) ss at)
    | inr e ↦ inr e
  ]

  -- without a probe under way, a goroutine waits or all have left
  find_waiting :
      (ss : List (Slot A B))
      → in_flight ss ≡ 0
      → IsAt Slot.waiting ss ⊎ ((bs : List B) × (ss ≡ ended bs))
  unfolding in_flight IsAt ended
  find_waiting [] h = inr ([], refl)
  find_waiting (Slot.waiting a ∷ ss) h = inl ([], a, ss, refl)
  find_waiting (Slot.probing a ∷ ss) h = absurd (omega (arith, h))
  find_waiting (Slot.finished b ∷ ss) h = elim (find_waiting ss h) [
    | inl at ↦ inl (later Slot.waiting (Slot.finished b) ss at)
    | inr (bs, e) ↦ inr (b ∷ bs, ap (λ l. Slot.finished b ∷ l) e)
  ]

remaining-started :
    (A B : Type 0) (xs : List A) → remaining (started {A = A} {B = B} xs) ≡ 2 * length xs
unfolding remaining started
remaining-started A B [] = refl
remaining-started A B (x ∷ xs) = omega (arith, remaining-started A B xs)

remaining-ended : (A B : Type 0) (bs : List B) → remaining (ended {A = A} {B = B} bs) ≡ 0
unfolding remaining ended
remaining-ended A B [] = refl
remaining-ended A B (b ∷ bs) = remaining-ended A B bs

module _ {A B : Type 0} (probe : A → B) where
  -- each step is one less to go
  Step-remaining : (ss ts : List (Slot A B)) → Step probe ss ts → remaining ss ≡ suc (remaining ts)
  unfolding remaining
  Step-remaining _ _ (Step.enter before after a room) = omega (
    arith,
    remaining-append before (Slot.waiting a ∷ after),
    remaining-append before (Slot.probing a ∷ after),
  )
  Step-remaining _ _ (Step.leave before after a) = omega (
    arith,
    remaining-append before (Slot.probing a ∷ after),
    remaining-append before (Slot.finished (probe a) ∷ after),
  )

  Run-remaining :
      (n : ℕ) (ss us : List (Slot A B)) → Run probe n ss us → remaining ss ≡ n + remaining us
  Run-remaining _ _ _ (Run.stop ss) = omega arith
  Run-remaining _ _ _ (Run.next n ss ts us s r) =
      omega (arith, Step-remaining ss ts s, Run-remaining n ts us r)

  -- no deadlock: a step can be taken, or all have left
  progress :
      (ss : List (Slot A B))
      → ((ts : List (Slot A B)) × Step probe ss ts) ⊎ ((bs : List B) × (ss ≡ ended bs))
  unfolding IsAt
  progress ss = elim (find_probing ss) [
    | inl (before, a, after, e) ↦ inl (
      before ++ Slot.finished (probe a) ∷ after,
      subst (λ x. Step probe x (before ++ Slot.finished (probe a) ∷ after)) (sym e)
          (Step.leave before after a),
    )
    | inr idle ↦ elim (find_waiting ss idle) [
      | inr (bs, e) ↦ inr (bs, e)
      | inl (before, a, after, e) ↦ inl (
        before ++ Slot.probing a ∷ after,
        subst (λ x. Step probe x (before ++ Slot.probing a ∷ after)) (sym e)
            (Step.enter before after a (omega (arith, idle, ap in_flight e))),
      )
    ]
  ]

  finish :
      (n : ℕ) (ss : List (Slot A B)) → remaining ss ≡ n → (bs : List B) × Run probe n ss (ended bs)
  finish zero ss h = elim (progress ss) [
    | inl (ts, s) ↦ absurd (omega (arith, h, Step-remaining ss ts s))
    | inr (bs, e) ↦ (bs, subst (λ x. Run probe 0 ss x) e (Run.stop ss))
  ]
  finish (suc n) ss h = elim (progress ss) [
    | inl (ts, s) ↦
        let (bs, r) = finish n ts (omega (arith, h, Step-remaining ss ts s)) in
        (bs, Run.next n ss ts (ended bs) s r)
    | inr (bs, e) ↦ absurd (omega (arith, h, ap remaining e, remaining-ended A B bs))
  ]

  -- However the goroutines have run so far, they can go on until all have left, with the results
  -- of the probes, and every way to do so takes two steps for each node in all.
  pub started-finish :
      (n : ℕ) (xs : List A) (ss : List (Slot A B))
      → Run probe n (started xs) ss
      → ((m : ℕ) × Run probe m ss (ended (map probe xs)))
        × ((m : ℕ) (bs : List B) → Run probe m ss (ended bs) → n + m ≡ 2 * length xs)
  started-finish n xs ss r =
      let (bs, rest) = finish (remaining ss) ss refl in
      let same : bs ≡ map probe xs =
        sym (ended-planned probe bs)
        ∙ Run-planned probe (remaining ss) ss (ended bs) rest
        ∙ Run-planned probe n (started xs) ss r
        ∙ started-planned probe xs in
      (
        (remaining ss, subst (λ l. Run probe (remaining ss) ss (ended l)) same rest),
        λ m cs more. omega (
          arith,
          Run-remaining n (started xs) ss r,
          Run-remaining m ss (ended cs) more,
          remaining-ended A B cs,
          remaining-started A B xs,
        ),
      )
