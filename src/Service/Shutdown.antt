-- ===== src/Service/Shutdown.antt =====
-- What the ways in which `start_ha_service` of src/gruezi/start.rs returns tell of its tasks.
use gruezi.Base.{
  ℕ, ◌≡◌, ◌⊎◌, refl, sym, ap, ◌∙◌, subst, Bool, true, false, Option, some, List, inl, inr,
}
use gruezi.Base.Result.{ok, err}
use gruezi.Base.Word.{Bytes}
use gruezi.Net.{SocketAddr}
use gruezi.Ha.Error.{Error}
use gruezi.Ha.Loop.{Effect}
use gruezi.Ha.Loop.Run.{running, stopped, failed}
use gruezi.Ha.Loop.Transitions.{replay}
use gruezi.Ha.Runtime.{HaRuntimeConfig}
use gruezi.Ha.State.{init, active, state_eq}
use gruezi.Ha.Status.{HaLoopState}
use gruezi.Service.{
  Failure, loop_failed, Joined, ha_runtime, returned_an_error, HaTask, unbound, refused, bound,
  panicked, joined_outcome, joined_ha, returned, Service, wait_for_shutdown, Reachable,
}
use gruezi.Service.Sound.{HaSound, MainSound}
use gruezi.Service.Sound.Steps.{Reachable-Sound}

joined-stopped :
    (told : Bool) (task : HaTask)
    → HaSound told task
    → joined_ha task ≡ some (some (ok tt))
    → (s : HaLoopState) × (effects : List Effect) × (task ≡ bound (stopped s) effects)
      × (s.state ≡ init)
      × (replay false effects ≡ false)
unfolding joined_ha joined_outcome
joined-stopped told unbound h j = absurd (cc)
joined-stopped told (refused e) h j = absurd (cc)
joined-stopped told (bound (running s) effects) h j = absurd (cc)
joined-stopped told (bound (stopped s) effects) h j =
    (s, effects, refl, h.1 tt, h.0 ∙ ap (λ x. state_eq x active) (h.1 tt))
joined-stopped told (bound (failed s e) effects) h j = absurd (cc)
joined-stopped told panicked h j = absurd (cc)

abbrev joined_err : Failure → Option Joined
joined_err e = some (some (err e))

err-injective : (e f : Failure) → joined_err e ≡ joined_err f → e ≡ f
err-injective e f j = cc

joined-failed :
    (told : Bool) (task : HaTask) (e : Failure)
    → HaSound told task
    → joined_ha task ≡ some (some (err e))
    → (task ≡ refused e)
      ⊎ ((s : HaLoopState) × (effects : List Effect) × (error : Error) × (e ≡ loop_failed error)
          × (task ≡ bound (failed s error) effects)
          × (s.state ≡ init)
          × (replay false effects ≡ false))
unfolding joined_ha joined_outcome
joined-failed told unbound e h j = absurd (cc)
joined-failed told (refused f) e h j = inl (ap refused (err-injective f e j))
joined-failed told (bound (running s) effects) e h j = absurd (cc)
joined-failed told (bound (stopped s) effects) e h j = absurd (cc)
joined-failed told (bound (failed s x) effects) e h j = inr (
  s,
  effects,
  x,
  sym (err-injective (loop_failed x) e j),
  refl,
  h.1 tt,
  h.0 ∙ ap (λ x. state_eq x active) (h.1 tt),
)
joined-failed told panicked e h j = absurd (cc)

module _ (hash : Bytes → ℕ) (r : HaRuntimeConfig) (peer_addr : SocketAddr) where
  -- If the service, in any interleaving of its tasks, has returned successfully, then it sent
  -- the shutdown, the API task ended well, and the HA loop was stopped: its state is `init`,
  -- and replaying the address actions of its effects leaves the node without the addresses.
  pub returned_ok :
      (v : Service)
      → Reachable hash r peer_addr v
      → v.main ≡ returned (ok tt)
      → (s : HaLoopState) × (effects : List Effect) × (v.ha_task ≡ bound (stopped s) effects)
        × (s.state ≡ init)
        × (replay false effects ≡ false)
        × (v.api_task ≡ some (some (ok tt)))
        × (v.shutdown_sent ≡ true)
  returned_ok v reached m =
      let sound = Reachable-Sound hash r peer_addr v reached in
      let ends : MainSound v.shutdown_sent v.ha_task v.api_task (returned (ok tt)) =
        subst (MainSound _ _ _) m sound.2 in
      let (s, effects, task, state, addresses) =
        joined-stopped (wait_for_shutdown v) v.ha_task sound.0 ends.1 in
      (s, effects, task, state, addresses, ends.2, ends.0)

  -- If the service, in any interleaving of its tasks, has returned with an error of the HA
  -- task, then either that task could not set up its socket, with this error, or its loop
  -- failed with this error, its state is `init`, and replaying the address actions of its
  -- effects leaves the node without the addresses.
  pub returned_ha_error :
      (v : Service) (e : Failure)
      → Reachable hash r peer_addr v
      → v.main ≡ returned (err (returned_an_error ha_runtime e))
      → (v.ha_task ≡ refused e)
        ⊎ ((s : HaLoopState) × (effects : List Effect) × (error : Error) × (e ≡ loop_failed error)
            × (v.ha_task ≡ bound (failed s error) effects)
            × (s.state ≡ init)
            × (replay false effects ≡ false))
  returned_ha_error v e reached m =
      let sound = Reachable-Sound hash r peer_addr v reached in
      joined-failed (wait_for_shutdown v) v.ha_task e sound.0 (subst (MainSound _ _ _) m sound.2)
