-- ===== src/Reload.antt =====
-- The loop of `Run` of dae/run.go over the channel of reload messages. A caller is the number of
-- its callback channel. What the two calls of `newControlPlane` answer, and whether there is a
-- listener, comes with the message: dae's control plane is not part of the repository.
pub mod Laws
use dae_wing.Base.{
  ℕ, Bool, true, false, Option, none, some, List, [], ◌∷◌, ◌++◌, if◌then◌else◌, Error,
}

-- A message. `reload` has the configuration, the caller, and the errors of building its control
-- plane and, after a failure, that of the last configuration; `closed` is nil.
pub data Event {ℓ} (C : Type ℓ) : Type ℓ where
  closed : Bool → Event C
  reload : C → ℕ → Option Error → Option Error → Event C

-- the variables of the loop, and the answers that were sent to callers
pub record Loop {ℓ} (C : Type ℓ) : Type ℓ where
  pub conf : C
  pub reloading : Bool
  pub err_reload : Option Error
  pub callback : Option ℕ
  pub answers : List (ℕ × Option Error)

-- `blocked` is a send on the nil channel, `crashed` is `Fatalln`, `left` is the end of the loop.
pub data Outcome {ℓ} (C : Type ℓ) : Type ℓ where
  serving : Loop C → Outcome C
  left : Loop C → Outcome C
  crashed : Outcome C
  blocked : Outcome C

-- the loop when it starts
abbrev pub begin {ℓ} : {C : Type ℓ} → C → Loop C
begin c = record { conf = c; reloading = false; err_reload = none; callback = none; answers = [] }

-- the answer to the caller of a reload, when the new control plane serves
abbrev pub finish {ℓ} : {C : Type ℓ} → Loop C → Outcome C
finish l = elim l.callback [
  | none ↦ Outcome.blocked
  | some caller ↦
      Outcome.serving
        (record l { reloading = false; answers = l.answers ++ (caller, l.err_reload) ∷ [] })
]

-- one round of the loop
unfoldable pub step {ℓ} : {C : Type ℓ} → Event C → Loop C → Outcome C
step (Event.closed listening) l =
    if l.reloading then if listening then finish l else Outcome.left l else Outcome.left l
step (Event.reload c caller none second) l =
    Outcome.serving
      (record l { conf = c; reloading = true; err_reload = none; callback = some caller })
step (Event.reload c caller (some e) none) l =
    Outcome.serving (record l { reloading = true; err_reload = some e; callback = some caller })
step (Event.reload c caller (some e) (some e2)) l = Outcome.crashed

unfoldable pub steps {ℓ} : {C : Type ℓ} → List (Event C) → Loop C → Outcome C
steps [] l = Outcome.serving l
steps (e ∷ es) l = elim (step e l) [
  | Outcome.serving l' ↦ steps es l'
  | Outcome.left l' ↦ Outcome.left l'
  | Outcome.crashed ↦ Outcome.crashed
  | Outcome.blocked ↦ Outcome.blocked
]

-- The loop of a dry run: a message is its caller, or nil.
unfoldable pub dry_steps : List (Option ℕ) → List (ℕ × Option Error)
dry_steps [] = []
dry_steps (none ∷ es) = []
dry_steps (some caller ∷ es) = (caller, none) ∷ dry_steps es
