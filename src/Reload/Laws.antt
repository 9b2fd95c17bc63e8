-- ===== src/Reload/Laws.antt =====
-- What the callers of a reload are told, and which configuration serves.
use mathlib.Core.List.{append_assoc, append-nil}
use mathlib.Core.Path.{subst}
use dae_wing.Base.{
  ℕ, ◌≡◌, ◌≢◌, ◌⊎◌, inl, inr, refl, ap, sym, ◌∙◌, Bool, true, false, not, ◌||◌, Option, none, some,
  List, [], ◌∷◌, ◌++◌, map, Error, All, arith,
}
use dae_wing.Reload.{Event, Loop, Outcome, step, steps}

-- A request as its caller sees it: a configuration, the caller, the error of building it, the error
-- of building the last one again, and whether there is a listener to serve on.
pub record Request {ℓ} (C : Type ℓ) : Type ℓ where
  pub wanted : C
  pub caller : ℕ
  pub failure : Option Error
  pub rollback : Option Error
  pub listening : Bool

-- The messages of a request that is waited for: the reload, and the nil of the control plane that
-- was closed.
abbrev pub messages {ℓ} : {C : Type ℓ} → List (Request C) → List (Event C)
messages [] = []
messages (r ∷ rs) =
    Event.reload r.wanted r.caller r.failure r.rollback ∷ Event.closed r.listening ∷ messages rs

-- neither the new configuration nor the last one can be built
abbrev pub lost : Option Error → Option Error → Bool
lost none rollback = false
lost (some e) none = false
lost (some e) (some e2) = true

abbrev pub IsCompleted {ℓ} : {C : Type ℓ} → Request C → Type 0
IsCompleted r = (lost r.failure r.rollback ≡ false) × (r.listening ≡ true)

-- How the loop ends that is in the state `l'` before the requests `later`: without any, it serves;
-- the first of them makes the process crash or the loop end without an answer.
abbrev pub IsEnding {ℓ} : {C : Type ℓ} → List (Request C) → Loop C → Outcome C → Type ℓ
IsEnding [] l' o = o ≡ Outcome.serving l'
IsEnding (r ∷ rest) l' o =
    ((lost r.failure r.rollback ≡ true) × (o ≡ Outcome.crashed))
    ⊎ ((lost r.failure r.rollback ≡ false)
        × (r.listening ≡ false)
        × (l2 : Loop _) × (o ≡ Outcome.left l2)
        × (l2.answers ≡ l'.answers))

-- the last configuration that could be built
abbrev pub serving_conf {ℓ} : {C : Type ℓ} → List (Request C) → C → C
serving_conf [] c = c
serving_conf (r ∷ rs) c = elim r.failure [
  | none ↦ serving_conf rs r.wanted
  | some e ↦ serving_conf rs c
]

abbrev built_or {ℓ} : {C : Type ℓ} → C → Option Error → C → C
built_or wanted none c = wanted
built_or wanted (some e) c = c

-- the loop after one request
abbrev served {ℓ} : {C : Type ℓ} → C → ℕ → Option Error → Loop C → Loop C
served wanted caller failure l = record {
  conf = built_or wanted failure l.conf;
  reloading = false;
  err_reload = failure;
  callback = some caller;
  answers = l.answers ++ (caller, failure) ∷ [];
}

steps-request {ℓ} :
    {C : Type ℓ} (wanted : C) (caller : ℕ) (failure rollback : Option Error) (listening : Bool)
    (es : List (Event C)) (l : Loop C) (o : Outcome C)
    → steps (Event.reload wanted caller failure rollback ∷ Event.closed listening ∷ es) l ≡ o
    → ((lost failure rollback ≡ false)
        × (listening ≡ true)
        × (steps es (served wanted caller failure l) ≡ o))
      ⊎ (((lost failure rollback ≡ true) × (o ≡ Outcome.crashed))
          ⊎ ((lost failure rollback ≡ false)
              × (listening ≡ false)
              × (l2 : Loop C) × (o ≡ Outcome.left l2)
              × (l2.answers ≡ l.answers)))
unfolding steps step
steps-request wanted caller none rollback true es l o h = inl (refl, refl, h)
steps-request wanted caller none rollback false es l o h = inr (inr (refl, refl, _, sym h, refl))
steps-request wanted caller (some e) none true es l o h = inl (refl, refl, h)
steps-request wanted caller (some e) none false es l o h = inr (inr (refl, refl, _, sym h, refl))
steps-request wanted caller (some e) (some e2) listening es l o h = inr (inl (refl, sym h))

serving_conf-cons {ℓ} :
    {C : Type ℓ} (r : Request C) (rs : List (Request C)) (c : C) (failure : Option Error)
    → r.failure ≡ failure
    → serving_conf rs (built_or r.wanted failure c) ≡ serving_conf (r ∷ rs) c
serving_conf-cons r rs c none e = ground (arith, e)
serving_conf-cons r rs c (some x) e = ground (arith, e)

-- Requests that come to an idle loop one by one: up to the first that is not completed, each is
-- answered, its own caller in order, with the error of building its configuration, and the loop
-- goes on with the last one that could be built. It serves at the end if all are completed. A
-- request is not completed if its configuration and the last one cannot be built, which ends the
-- process, or if there is no listener, which ends the loop without an answer to that caller.
pub steps-messages {ℓ} :
    {C : Type ℓ} (rs : List (Request C)) (l : Loop C)
    → l.reloading ≡ false
    → (before later : List (Request C)) × (l' : Loop C) × (rs ≡ before ++ later)
      × All IsCompleted before
      × (l'.reloading ≡ false)
      × (l'.answers ≡ l.answers ++ map (λ r. (r.caller, r.failure)) before)
      × (l'.conf ≡ serving_conf before l.conf)
      × IsEnding later l' (steps (messages rs) l)
unfolding steps
steps-messages [] l h = ([], [], l, refl, tt, h, sym (append-nil l.answers), refl, refl)
steps-messages (r ∷ rs) l h =
    let l1 = served r.wanted r.caller r.failure l in
    elim (steps-request r.wanted r.caller r.failure r.rollback r.listening (messages rs) l _ refl) [
      | inr ends ↦ ([], r ∷ rs, l, refl, tt, h, sym (append-nil l.answers), refl, ends)
      | inl (built, listening, went) ↦
          let (before, later, l', split, completed, idle, answers, conf, ending) =
            steps-messages rs l1 refl in
          (
            r ∷ before,
            later,
            l',
            ap (λ x. r ∷ x) split,
            ((built, listening), completed),
            idle,
            answers
                ∙ append_assoc l.answers ((r.caller, r.failure) ∷ [])
                    (map (λ r. (r.caller, r.failure)) before),
            conf ∙ serving_conf-cons r before l.conf r.failure refl,
            subst (IsEnding later l') went ending,
          )
    ]

abbrev answered {ℓ} : {C : Type ℓ} → ℕ → Loop C → Loop C
answered caller l = record l {
  reloading = false;
  answers = l.answers ++ (caller, l.err_reload) ∷ [];
}

caller-cases : (m : Option ℕ) → (m ≡ none) ⊎ ((caller : ℕ) × (m ≡ some caller))
caller-cases none = inl refl
caller-cases (some caller) = inr (caller, refl)

-- the last configuration of a reload that could be built
abbrev pub last_built {ℓ} : {C : Type ℓ} → List (Event C) → C → C
last_built [] c = c
last_built (Event.closed listening ∷ es) c = last_built es c
last_built (Event.reload c' caller none second ∷ es) c = last_built es c'
last_built (Event.reload c' caller (some e) second ∷ es) c = last_built es c

-- Whatever the messages are, the loop that still serves has the configuration that was built last.
pub steps-last_built {ℓ} :
    {C : Type ℓ} (es : List (Event C)) (l l' : Loop C)
    → steps es l ≡ Outcome.serving l'
    → l'.conf ≡ last_built es l.conf
unfolding steps step
steps-last_built [] l l' h = ground arith
steps-last_built (Event.closed false ∷ es) l l' h = absurd (ground arith)
steps-last_built (Event.closed true ∷ es) l l' h = elim (caller-cases l.callback) [
  | inl nobody ↦ absurd (ground arith)
  | inr (caller, known) ↦ ground (arith, steps-last_built es (answered caller l) l')
]
steps-last_built (Event.reload c caller none second ∷ es) l l' h = steps-last_built es _ l' h
steps-last_built (Event.reload c caller (some e) none ∷ es) l l' h = steps-last_built es _ l' h
steps-last_built (Event.reload c caller (some e) (some e2) ∷ es) l l' h = absurd (cc)

-- a reload is under way only with a caller to answer
abbrev pub answerable {ℓ} : {C : Type ℓ} → Loop C → Bool
answerable l = not l.reloading || elim l.callback [ none ↦ false | some _ ↦ true ]

-- The loop never sends on a nil channel, whatever the messages are.
pub steps-unblocked {ℓ} :
    {C : Type ℓ} (es : List (Event C)) (l : Loop C)
    → answerable l ≡ true
    → steps es l ≢ Outcome.blocked
unfolding steps step
steps-unblocked [] l h = λ e. cc
steps-unblocked (Event.closed false ∷ es) l h = ground arith
steps-unblocked (Event.closed true ∷ es) l h = elim (caller-cases l.callback) [
  | inl nobody ↦ ground arith
  | inr (caller, known) ↦ ground (arith, steps-unblocked es (answered caller l) refl)
]
steps-unblocked (Event.reload c caller none second ∷ es) l h = steps-unblocked es _ refl
steps-unblocked (Event.reload c caller (some e) none ∷ es) l h = steps-unblocked es _ refl
steps-unblocked (Event.reload c caller (some e) (some e2) ∷ es) l h = λ e. cc
