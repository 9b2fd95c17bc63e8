-- ===== src/Control/Waiting.antt =====
-- The waiting for the network ends with the first answer, whatever was answered before.
use dae_wing.Base.{
  ℕ, zero, suc, ◌+◌, ◌*◌, ◌≤◌, ◌<◌, ◌⊎◌, inl, inr, ◌%◌, ◌≡◌, refl, ap, ◌∙◌, true, false, some, List,
  [], ◌∷◌, arith,
}
use dae_wing.Control.{Response, is_online, pause, and_ask, wait_for_network}

-- the links of the rounds from `i` on, one after the other and from the start again
abbrev pub rotation : ℕ → ℕ → ℕ → List ℕ
rotation links i zero = i % links ∷ []
rotation links i (suc k) = i % links ∷ rotation links (suc i) k

-- the pauses of `k` rounds
abbrev pauses : (ℕ → Response) → ℕ → ℕ → ℕ
pauses net i zero = 0
pauses net i (suc k) = pause (net i) + pauses net (suc i) k

wait-from :
    (k fuel : ℕ) (net : ℕ → Response) (links i : ℕ)
    → k < fuel
    → ((j : ℕ) → j < k → is_online (net (i + j)) ≡ false)
    → is_online (net (i + k)) ≡ true
    → wait_for_network fuel net links i
      ≡ some (record { asked = rotation links i k; slept = pauses net i k })
unfolding wait_for_network
wait-from k zero net links i small before now = absurd (omega arith)
wait-from zero (suc fuel) net links i small before now =
    let here : is_online (net i) ≡ true = ap (λ j. is_online (net j)) (omega arith) ∙ now in
    rw here refl
wait-from (suc k) (suc fuel) net links i small before now =
    let here : is_online (net i) ≡ false =
      ap (λ j. is_online (net j)) (omega arith) ∙ before 0 (omega arith) in
    let rest =
      wait-from k fuel net links (suc i) (omega arith)
        (λ j h. ap (λ n. is_online (net n)) (omega arith) ∙ before (suc j) (omega arith))
        (ap (λ n. is_online (net n)) (omega arith) ∙ now) in
    rw here (ap (and_ask (i % links) (pause (net i))) rest)

-- an answer that keeps the loop going: a status that is not from 200 to 499, or no status
abbrev pub IsDown : Response → Type 0
IsDown (Response.status code) = (code < 200) ⊎ (500 ≤ code)
IsDown Response.timed_out = Unit
IsDown Response.refused = Unit

-- how many of the `k` answers from round `i` on are no time-out
abbrev pub sleeps : (ℕ → Response) → ℕ → ℕ → ℕ
sleeps net i zero = 0
sleeps net i (suc k) = elim (net i) [
  | Response.timed_out ↦ sleeps net (suc i) k
  | Response.refused ↦ suc (sleeps net (suc i) k)
  | Response.status code ↦ suc (sleeps net (suc i) k)
]

is_online-IsDown : (r : Response) → IsDown r → is_online r ≡ false
is_online-IsDown (Response.status code) (inl low) = ground arith
is_online-IsDown (Response.status code) (inr high) = ground arith
is_online-IsDown Response.timed_out h = refl
is_online-IsDown Response.refused h = refl

pause-sleeps :
    (r : Response) (n : ℕ)
    → pause r + 5000000000 * n
      ≡ 5000000000 * elim r [
        | Response.timed_out ↦ n
        | Response.refused ↦ suc n
        | Response.status code ↦ suc n
      ]
pause-sleeps (Response.status code) n = omega arith
pause-sleeps Response.timed_out n = omega arith
pause-sleeps Response.refused n = omega arith

pauses-sleeps : (net : ℕ → Response) (i k : ℕ) → pauses net i k ≡ 5000000000 * sleeps net i k
pauses-sleeps net i zero = refl
pauses-sleeps net i (suc k) =
    ap (λ n. pause (net i) + n) (pauses-sleeps net (suc i) k)
    ∙ pause-sleeps (net i) (sleeps net (suc i) k)

-- Where the network answers in round `k` with a status from 200 to 499, and in no round before, the
-- loop ends in that round, if the fuel is above `k`: it has asked the links in rotation, once in
-- each round, and has slept five seconds (in nanoseconds) after each of the answers before, but for
-- the time-outs.
pub wait_for_network-online :
    (k fuel : ℕ) (net : ℕ → Response) (links code : ℕ)
    → k < fuel
    → ((j : ℕ) → j < k → IsDown (net j))
    → net k ≡ Response.status code
    → 200 ≤ code
    → code < 500
    → wait_for_network fuel net links 0
      ≡ some (record { asked = rotation links 0 k; slept = 5000000000 * sleeps net 0 k })
wait_for_network-online k fuel net links code small before now above below =
    let online : is_online (Response.status code) ≡ true = ground arith in
    wait-from k fuel net links 0 small
      (λ j h. ap (λ n. is_online (net n)) (omega arith) ∙ is_online-IsDown (net j) (before j h))
      (ap (λ n. is_online (net n)) (omega arith) ∙ ap is_online now ∙ online)
    ∙ ap (λ n. some (record { asked = rotation links 0 k; slept = n })) (pauses-sleeps net 0 k)
