-- ===== src/Tests/Reloads.antt =====
-- Reloads of a loop whose configurations are numbers.
use dae_wing.Base.{ℕ, ◌≡◌, ◌≢◌, refl, false, true, none, some, List, [], ◌∷◌, ◌++◌, map, All, Error}
use dae_wing.Reload.{Event, Loop, Outcome, begin, step, steps, dry_steps}
use dae_wing.Reload.Laws.{
  Request, messages, IsCompleted, IsEnding, serving_conf, steps-messages, steps-unblocked,
}

-- the first can be built, the second not, and the third neither, nor the last one again
abbrev three : List (Request ℕ)
three =
    record { wanted = 5; caller = 1; failure = none; rollback = none; listening = true }
    ∷ record {
      wanted = 6;
      caller = 2;
      failure = some Error.reload_failed;
      rollback = none;
      listening = true;
    }
    ∷ record {
      wanted = 7;
      caller = 3;
      failure = some Error.reload_failed;
      rollback = some Error.reload_failed;
      listening = true;
    }
    ∷ []

steps-messages_example :
    (before later : List (Request ℕ)) × (l' : Loop ℕ) × (three ≡ before ++ later)
    × All IsCompleted before
    × (l'.reloading ≡ false)
    × (l'.answers ≡ map (λ r. (r.caller, r.failure)) before)
    × (l'.conf ≡ serving_conf before 0)
    × IsEnding later l' (steps (messages three) (begin 0))
steps-messages_example = steps-messages three (begin 0) refl

three_crash : steps (messages three) (begin 0) ≡ Outcome.crashed
unfolding steps step
three_crash = refl

-- Two callers at once: the first is never answered.
abbrev crossing : List (Event ℕ)
crossing = Event.reload 5 1 none none ∷ Event.reload 6 2 none none ∷ Event.closed true ∷ []

abbrev crossed : Loop ℕ
crossed = record {
  conf = 6;
  reloading = false;
  err_reload = none;
  callback = some 2;
  answers = (2, none) ∷ [];
}

steps-crossing : steps crossing (begin 0) ≡ Outcome.serving crossed
unfolding steps step
steps-crossing = refl

steps-unblocked_example : steps crossing (begin 0) ≢ Outcome.blocked
steps-unblocked_example = steps-unblocked crossing (begin 0) refl

dry_steps_two : dry_steps (some 1 ∷ some 2 ∷ none ∷ some 3 ∷ []) ≡ (1, none) ∷ (2, none) ∷ []
unfolding dry_steps
dry_steps_two = refl
