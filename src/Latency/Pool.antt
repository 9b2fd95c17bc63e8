-- ===== src/Latency/Pool.antt =====
-- `testLatencyResultsForNodes` of graphql/service/node/latency_mutation_utils.go: a goroutine for
-- each node, a channel of capacity 8 that they fill before a probe and empty behind it, and a
-- slice of results. A step is what one goroutine does next, in any order: it enters the channel, or
-- it writes its result and leaves the channel. `Wait` returns when all have left.
pub mod Progress
use dae_wing.Base.{
  ℕ, zero, suc, ◌+◌, ◌<◌, ◌≤◌, ◌≡◌, refl, ap, ◌∙◌, sym, Bool, true, false, List, [], ◌∷◌, ◌++◌, map,
  arith,
}

-- latencyProbeConcurrency
abbrev pub concurrency : ℕ
concurrency = 8

-- where the goroutine of an index stands
pub data Slot (A B : Type 0) : Type 0 where
  waiting probing : A → Slot A B
  finished : B → Slot A B

module _ {A B : Type 0} where
  -- the fill of the channel
  unfoldable pub in_flight : List (Slot A B) → ℕ
  in_flight [] = 0
  in_flight (Slot.waiting a ∷ ss) = in_flight ss
  in_flight (Slot.probing a ∷ ss) = suc (in_flight ss)
  in_flight (Slot.finished b ∷ ss) = in_flight ss

  unfoldable pub started : List A → List (Slot A B)
  started xs = map Slot.waiting xs

  unfoldable pub ended : List B → List (Slot A B)
  ended bs = map Slot.finished bs

  module _ (probe : A → B) where
    pub data Step : List (Slot A B) → List (Slot A B) → Type 0 where
      enter :
          (before after : List (Slot A B)) (a : A)
          → in_flight (before ++ Slot.waiting a ∷ after) < concurrency
          → Step (before ++ Slot.waiting a ∷ after) (before ++ Slot.probing a ∷ after)
      leave :
          (before after : List (Slot A B)) (a : A)
          → Step (before ++ Slot.probing a ∷ after) (before ++ Slot.finished (probe a) ∷ after)

    -- a run, with the number of its steps
    pub data Run : ℕ → List (Slot A B) → List (Slot A B) → Type 0 where
      stop : (ss : List (Slot A B)) → Run 0 ss ss
      next : (n : ℕ) (ss ts us : List (Slot A B)) → Step ss ts → Run n ts us → Run (suc n) ss us

    -- the result that a goroutine has or will have
    abbrev planned : Slot A B → B
    planned (Slot.waiting a) = probe a
    planned (Slot.probing a) = probe a
    planned (Slot.finished b) = b

    in_flight-append :
        (ss ts : List (Slot A B)) → in_flight (ss ++ ts) ≡ in_flight ss + in_flight ts
    unfolding in_flight
    in_flight-append [] ts = omega arith
    in_flight-append (Slot.waiting a ∷ ss) ts = in_flight-append ss ts
    in_flight-append (Slot.probing a ∷ ss) ts = omega (arith, in_flight-append ss ts)
    in_flight-append (Slot.finished b ∷ ss) ts = in_flight-append ss ts

    planned-append :
        (ss : List (Slot A B)) (x y : Slot A B) (ts : List (Slot A B))
        → planned x ≡ planned y
        → map planned (ss ++ x ∷ ts) ≡ map planned (ss ++ y ∷ ts)
    planned-append [] x y ts h = ap (λ b. b ∷ map planned ts) h
    planned-append (s ∷ ss) x y ts h = ap (λ l. planned s ∷ l) (planned-append ss x y ts h)

    Step-planned : (ss ts : List (Slot A B)) → Step ss ts → map planned ts ≡ map planned ss
    Step-planned _ _ (Step.enter before after a room) =
        planned-append before (Slot.probing a) (Slot.waiting a) after refl
    Step-planned _ _ (Step.leave before after a) =
        planned-append before (Slot.finished (probe a)) (Slot.probing a) after refl

    Step-in_flight :
        (ss ts : List (Slot A B))
        → Step ss ts
        → in_flight ss ≤ concurrency
        → in_flight ts ≤ concurrency
    unfolding in_flight
    Step-in_flight _ _ (Step.enter before after a room) h = omega (
      arith,
      in_flight-append before (Slot.waiting a ∷ after),
      in_flight-append before (Slot.probing a ∷ after),
      room,
    )
    Step-in_flight _ _ (Step.leave before after a) h = omega (
      arith,
      in_flight-append before (Slot.probing a ∷ after),
      in_flight-append before (Slot.finished (probe a) ∷ after),
      h,
    )

    Run-planned : (n : ℕ) (ss us : List (Slot A B)) → Run n ss us → map planned us ≡ map planned ss
    Run-planned _ _ _ (Run.stop ss) = refl
    Run-planned _ _ _ (Run.next n ss ts us s r) = Run-planned n ts us r ∙ Step-planned ss ts s

    Run-in_flight :
        (n : ℕ) (ss us : List (Slot A B))
        → Run n ss us
        → in_flight ss ≤ concurrency
        → in_flight us ≤ concurrency
    Run-in_flight _ _ _ (Run.stop ss) h = h
    Run-in_flight _ _ _ (Run.next n ss ts us s r) h =
        Run-in_flight n ts us r (Step-in_flight ss ts s h)

    started-in_flight : (xs : List A) → in_flight (started xs) ≡ 0
    unfolding in_flight started
    started-in_flight [] = refl
    started-in_flight (a ∷ xs) = started-in_flight xs

    started-planned : (xs : List A) → map planned (started xs) ≡ map probe xs
    unfolding started
    started-planned [] = refl
    started-planned (a ∷ xs) = ap (λ l. probe a ∷ l) (started-planned xs)

    ended-planned : (bs : List B) → map planned (ended bs) ≡ bs
    unfolding ended
    ended-planned [] = refl
    ended-planned (b ∷ bs) = ap (λ l. b ∷ l) (ended-planned bs)

    -- At no time of any run are more than eight probes under way.
    pub started-bound :
        (n : ℕ) (xs : List A) (ss : List (Slot A B)) → Run n (started xs) ss → in_flight ss ≤ 8
    started-bound n xs ss r =
        Run-in_flight n (started xs) ss r (omega (arith, started-in_flight xs))

    -- Whatever the order of the steps, a run at whose end all goroutines have left gives, at each
    -- index, the result of the probe of the node at that index.
    pub started-ended :
        (n : ℕ) (xs : List A) (bs : List B) → Run n (started xs) (ended bs) → bs ≡ map probe xs
    started-ended n xs bs r =
        sym (ended-planned bs) ∙ Run-planned n (started xs) (ended bs) r ∙ started-planned xs
