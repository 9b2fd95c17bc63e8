-- ===== src/Tests/Races.antt =====
-- Two goroutines that both find no scheduler under the read lock.
use dae_wing.Base.{◌≤◌, ◌≡◌, Bool, true, List, [], ◌∷◌, Text, count_by, ◌==◌, Result}
use dae_wing.Services.Schedulers.Races.{
  Shared, Place, cached, store, add_locked, advance, Step, idle, Reach,
}
use dae_wing.Services.Schedulers.Races.Tidy.{Reach-started}
use dae_wing.Store.Models.{Subscription}
use dae_wing.Tests.Data.{subscription_of}

abbrev any_cron : Text → Bool
any_cron exp = true

abbrev sub : Subscription
sub = subscription_of 4 true

abbrev one : Shared
one = record { started = (4, 0) ∷ []; cache = (4, 0) ∷ []; fresh = 1 }

abbrev none_yet : Shared
none_yet = record { started = []; cache = []; fresh = 0 }

abbrev World : Type 0
World = List Place × Shared

abbrev places : Place → Place → Shared → World
places p q s = (p ∷ q ∷ [], s)

both_pass : Reach any_cron (places (Place.locking sub) (Place.locking sub) none_yet)
unfolding advance cached
both_pass =
    let asked = Result.ok sub in
    let w0 = idle any_cron in
    let w1 : World = (Place.adding 4 ∷ [], none_yet) in
    let w2 = places (Place.adding 4) (Place.adding 4) none_yet in
    let w3 = places (Place.checking sub) (Place.adding 4) none_yet in
    let w4 = places (Place.checking sub) (Place.checking sub) none_yet in
    let w5 = places (Place.locking sub) (Place.checking sub) none_yet in
    let w6 = places (Place.locking sub) (Place.locking sub) none_yet in
    let r1 = Reach.later w0 w1 Reach.start (Step.spawn [] (Place.adding 4) none_yet) in
    let r2 = Reach.later w1 w2 r1 (Step.spawn (Place.adding 4 ∷ []) (Place.adding 4) none_yet) in
    let r3 =
      Reach.later w2 w3 r2 (Step.move [] (Place.adding 4 ∷ []) (Place.adding 4) asked none_yet) in
    let r4 =
      Reach.later w3 w4 r3
        (Step.move (Place.checking sub ∷ []) [] (Place.adding 4) asked none_yet) in
    let r5 =
      Reach.later w4 w5 r4
        (Step.move [] (Place.checking sub ∷ []) (Place.checking sub) asked none_yet) in
    Reach.later w5 w6 r5 (Step.move (Place.locking sub ∷ []) [] (Place.checking sub) asked none_yet)

both_return : Reach any_cron (places Place.returned Place.returned one)
unfolding advance add_locked cached store
both_return =
    let asked = Result.ok sub in
    let w6 = places (Place.locking sub) (Place.locking sub) none_yet in
    let w7 = places Place.returned (Place.locking sub) one in
    let r7 =
      Reach.later w6 w7 both_pass
        (Step.move [] (Place.locking sub ∷ []) (Place.locking sub) asked none_yet) in
    Reach.later w7 (places Place.returned Place.returned one) r7
      (Step.move (Place.returned ∷ []) [] (Place.locking sub) asked one)

Reach-started_example : (one.started ≡ one.cache) × (count_by (λ r. r.0 == 4) one.started ≤ 1)
Reach-started_example =
    Reach-started any_cron (places Place.returned Place.returned one) 4 both_return
