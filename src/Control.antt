-- ===== src/Control.antt =====
-- From a configuration to dae's control plane: `newControlPlane` of dae/run.go, and
-- `preprocessWanInterfaceAuto` and `WaitForNetwork` of dae/utils.go. Go's deep copy of the
-- configuration is a value here; logging, eBPF, the DNS cache, `InitDirectDialers` and the parsing
-- of the fallback resolver, which panics on a bad address, are left out.
pub mod Waiting
pub mod Interfaces
use dae_wing.Base.{
  ℕ, zero, suc, ◌+◌, ◌*◌, ◌%◌, ◌≡◌, Bool, true, false, not, ◌&&◌, Option, none, some, List, [], ◌∷◌,
  ◌++◌, Text, codes, text_eq, length, ltb, leb, if◌then◌else◌, Result, ok, err, Error, ◌>>=◌,
}
use dae_wing.Dae.{Dae, DaeGroup, Conf}

-- what the network answers to one request: a status, a time-out, or another error
pub data Response : Type 0 where
  status : ℕ → Response
  timed_out refused : Response

-- 200 and above, below 500
abbrev pub is_online : Response → Bool
is_online (Response.status code) = leb 200 code && ltb code 500
is_online Response.timed_out = false
is_online Response.refused = false

-- the sleep before the next round, in nanoseconds; none after a time-out
abbrev pub pause : Response → ℕ
pause (Response.status code) = 5 * 1000000000
pause Response.timed_out = 0
pause Response.refused = 5 * 1000000000

-- the links that were asked, by their indices, and the time that was slept
pub record Waited : Type 0 where
  pub asked : List ℕ
  pub slept : ℕ

abbrev pub ask : ℕ → ℕ → Waited → Waited
ask link time w = record { asked = link ∷ w.asked; slept = time + w.slept }

abbrev pub and_ask : ℕ → ℕ → Option Waited → Option Waited
and_ask link time none = none
and_ask link time (some w) = some (ask link time w)

-- The loop of WaitForNetwork over `i`, with `links` links; `net` is what the request of each round
-- is answered, and `none` means that the fuel ran out.
unfoldable pub wait_for_network : ℕ → (ℕ → Response) → ℕ → ℕ → Option Waited
wait_for_network zero net links i = none
wait_for_network (suc fuel) net links i =
    let rest = wait_for_network fuel net links (suc i) in
    if is_online (net i)
    then some (record { asked = i % links ∷ []; slept = 0 })
    else and_ask (i % links) (pause (net i)) rest

-- the loop of preprocessWanInterfaceAuto; `defaults` is what GetDefaultIfnames of dae answers
unfoldable pub expand_auto : Result (List Text) → List Text → Result (List Text)
expand_auto defaults [] = ok []
expand_auto defaults (name ∷ names) =
    let rest = expand_auto defaults names in
    if text_eq name (codes "auto")
    then (defaults >>= λ found. rest >>= λ more. ok (found ++ more))
    else (rest >>= λ more. ok (name ∷ more))

module _ ⦃D : Dae⦄ where
  -- the fields of the global section that are read here, and the control plane of dae
  pub record Plane : Type 0 where
    pub wan_interface : D.Global → List Text
    pub with_wan_interface : List Text → D.Global → D.Global
    pub wan-with : (l : List Text) (g : D.Global) → wan_interface (with_wan_interface l g) ≡ l
    pub disable_waiting_network : D.Global → Bool
    pub default_ifnames : Result (List Text)
    pub has_subscriptions : Conf → Bool
    -- control.NewControlPlane: the nodes of no subscription, the groups, and the sections
    pub new : List Text → List DaeGroup → D.Routing → D.Global → D.Dns → Result (Unit {0})

  module _ (P : Plane) where
    -- preprocessWanInterfaceAuto
    unfoldable pub preprocess_wan_interface_auto : D.Global → Result D.Global
    preprocess_wan_interface_auto g = expand_auto P.default_ifnames (P.wan_interface g) >>= λ names.
        ok (P.with_wan_interface (D.deduplicate names) g)

    -- whether newControlPlane waits for the network, where no other call has waited before
    unfoldable pub must_wait : Conf → Bool
    must_wait c =
        not (P.disable_waiting_network c.global) && ltb 0 (length (P.wan_interface c.global))

    -- newControlPlane behind the waiting
    unfoldable pub new_control_plane : Conf → Result (Unit {0})
    new_control_plane c =
        if P.has_subscriptions c
        then err (Error.control 0)
        else (preprocess_wan_interface_auto c.global >>= λ g.
            P.new c.node c.group c.routing g c.dns)
