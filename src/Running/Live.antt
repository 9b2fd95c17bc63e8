-- ===== src/Running/Live.antt =====
-- `Run` together with the loop of dae/run.go that answers it: the messages that `Run` sends, and
-- the answer that it waits for.
use dae_wing.Base.{
  ℕ, ◌≡◌, refl, inl, inr, false, true, Option, none, some, List, [], ◌∷◌, ◌++◌, Text, member, ok,
  err, Error, Result-cases, arith,
}
use dae_wing.Dae.{Dae, Conf}
use dae_wing.Control.{Plane, new_control_plane}
use dae_wing.Control.Interfaces.{is_wanted, new_control_plane-ok}
use dae_wing.Reload.{Event, Loop, Outcome, step, steps}
use dae_wing.Running.Agree.{Started, run-Started}
use dae_wing.Running.Run.{Outside, run}
use dae_wing.Store.Engine.{Engine}
use dae_wing.Store.Models.{Db}

-- what the caller reads from its channel: the answer that was sent last
abbrev newest : List (ℕ × Option Error) → Option Error
newest [] = some Error.reload_failed
newest ((caller, e) ∷ []) = e
newest (a ∷ b ∷ answers) = newest (b ∷ answers)

newest-append :
    (l : List (ℕ × Option Error)) (caller : ℕ) (e : Option Error)
    → newest (l ++ (caller, e) ∷ []) ≡ e
newest-append [] caller e = refl
newest-append (a ∷ []) caller e = refl
newest-append (a ∷ b ∷ l) caller e = newest-append (b ∷ l) caller e

module _ {ℓ} {C : Type ℓ} (build : C → Option Error) where
  -- One reload: the message of `Run`, and the nil that follows when the old control plane is closed,
  -- where there is a listener. `build` is the error of building the control plane of a
  -- configuration, of the new one and, after a failure, of the last one.
  unfoldable pub exchange : Loop C → ℕ → C → Outcome C
  exchange l caller c =
      steps (Event.reload c caller (build c) (build l.conf) ∷ Event.closed true ∷ []) l

  -- What `Run` gets from its channel. Where the process has ended, `Run` does not return, which is
  -- an error here.
  abbrev pub told_by : Outcome C → Option Error
  told_by (Outcome.serving l) = newest l.answers
  told_by (Outcome.left l) = some Error.reload_failed
  told_by Outcome.crashed = some Error.reload_failed
  told_by Outcome.blocked = some Error.reload_failed

  unfoldable pub told : Loop C → ℕ → C → Option Error
  told l caller c = told_by (exchange l caller c)

  -- the loop behind a reload
  abbrev pub reloaded : Loop C → ℕ → C → Loop C
  reloaded l caller c = record {
    conf = c;
    reloading = false;
    err_reload = none;
    callback = some caller;
    answers = l.answers ++ (caller, none) ∷ [];
  }

  told-none :
      (l : Loop C) (caller : ℕ) (c : C) (first second : Option Error)
      → build c ≡ first
      → build l.conf ≡ second
      → told l caller c ≡ none
      → (build c ≡ none) × (exchange l caller c ≡ Outcome.serving (reloaded l caller c))
  unfolding told exchange steps step
  told-none l caller c none second built last h = (built, rw built refl)
  told-none l caller c (some e) none built last h =
      absurd (ground (arith, built, last, newest-append l.answers caller (some e)))
  told-none l caller c (some e) (some x) built last h = absurd (ground (arith, built, last))

module _ ⦃E : Engine⦄ ⦃D : Dae⦄ (o : Outside) (build : Conf → Option Error) where
  -- `Run` where the loop is in the state `l`, with a fresh channel as its caller
  abbrev pub beside_loop : Loop Conf → ℕ → Outside
  beside_loop l caller = record o { reload = told build l caller }

  -- If `Run` succeeds beside a loop, it has assembled a configuration from the selected rows whose
  -- control plane could be built; the loop has answered its caller, and only it, with nil, and goes
  -- on to serve just that configuration, out of any reload.
  pub run-serves :
      (l : Loop Conf) (caller : ℕ) (s s' : Db E) (n : ℕ)
      → run (beside_loop l caller) false false s ≡ (ok n, s')
      → (st : Started (beside_loop l caller) s s') × (l' : Loop Conf) × (exchange build l caller
            st.conf
          ≡ Outcome.serving l')
        × (l'.conf ≡ st.conf)
        × (l'.reloading ≡ false)
        × (l'.answers ≡ l.answers ++ (caller, none) ∷ [])
        × (build st.conf ≡ none)
  run-serves l caller s s' n h =
      let st = run-Started (beside_loop l caller) s s' n h in
      let (built, serves) =
        told-none build l caller st.conf (build st.conf) (build l.conf) refl refl st.reloaded in
      (st, reloaded build l caller st.conf, serves, refl, refl, refl, built)

module _ ⦃E : Engine⦄ ⦃D : Dae⦄ (o : Outside) (P : Plane) where
  -- the error of building the control plane of a configuration
  abbrev pub build_by : Conf → Option Error
  build_by c = elim (new_control_plane P c) [ ok u ↦ none | err e ↦ some e ]

  -- If `Run` succeeds beside a loop that builds its control planes by `newControlPlane`, and dae can
  -- tell the default interfaces, then dae's control plane was built for the groups, the nodes, the
  -- routing and the dns section of the configuration that `Run` assembled from the selected rows,
  -- with the interfaces of its global section, where default interfaces stand for `auto`.
  pub run-new_control_plane :
      (l : Loop Conf) (caller : ℕ) (s s' : Db E) (n : ℕ) (defaults : List Text) (x : Text)
      → P.default_ifnames ≡ ok defaults
      → run (beside_loop o build_by l caller) false false s ≡ (ok n, s')
      → (st : Started (beside_loop o build_by l caller) s s') × (g : D.Global) × (P.new st.conf.node
            st.conf.group st.conf.routing g st.conf.dns
          ≡ ok tt)
        × (member x (P.wan_interface g) ≡ is_wanted defaults (P.wan_interface st.conf.global) x)
  run-new_control_plane l caller s s' n defaults x known h =
      let (st, l', _, _, _, _, built) = run-serves o build_by l caller s s' n h in
      let (g, new, _, wanted) =
        new_control_plane-ok P st.conf defaults x known (build_by-none st.conf built) in
      (st, g, new, wanted)
    where
      build_by-none : (c : Conf) → build_by c ≡ none → new_control_plane P c ≡ ok tt
      build_by-none c e = elim (Result-cases (new_control_plane P c)) [
        | inl (tt, k) ↦ k
        | inr (x, k) ↦ absurd (ground (arith, k))
      ]
