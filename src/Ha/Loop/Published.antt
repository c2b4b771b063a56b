-- ===== src/Ha/Loop/Published.antt =====
-- What the status that `refresh_local_state` of src/gruezi/ha.rs publishes tells of both nodes.
use gruezi.Base.{ℕ, ◌≡◌, subst, Bool, true, false, Option, none, some, arith, is_some}
use mathlib.Core.Option
use gruezi.Ha.Decision.{has_live_active_peer, live_peer}
use gruezi.Ha.Loop.{refresh_local_state}
use gruezi.Ha.Loop.Transitions.{refresh-seen, refresh-no_preempt}
use gruezi.Ha.Receive.{PeerObservation}
use gruezi.Ha.Runtime.{HaRuntimeConfig}
use gruezi.Ha.State.{standby, active}
use gruezi.Ha.Status.{HaLoopState, status_snapshot}

shown_active :
    (r : HaRuntimeConfig) (seen : Option PeerObservation) (now : ℕ)
    → is_some (live_peer r now seen) ≡ true
    → Option.map (λ o. o.state) seen ≡ some active
    → has_live_active_peer r seen now ≡ true
unfolding has_live_active_peer
shown_active r none now alive e = absurd (cc alive)
shown_active r (some o) now alive e = ground arith

snapshot-shown :
    (r : HaRuntimeConfig) (s : HaLoopState) (now : ℕ)
    → (status_snapshot r s now).peer_alive ≡ true
    → (status_snapshot r s now).peer_state ≡ some active
    → has_live_active_peer r s.peer_observation now ≡ true
unfolding status_snapshot
snapshot-shown r s now alive e = shown_active r s.peer_observation now alive e

-- If a node may not preempt, the status that a refresh publishes never shows both nodes active:
-- where it shows the peer alive and active, it shows the node in standby.
pub refresh-status_snapshot :
    (r : HaRuntimeConfig) (has_tx : Bool) (s : HaLoopState) (now : ℕ)
    → r.preempt ≡ false
    → (status_snapshot r (refresh_local_state r has_tx s now).0 now).peer_alive ≡ true
    → (status_snapshot r (refresh_local_state r has_tx s now).0 now).peer_state ≡ some active
    → (status_snapshot r (refresh_local_state r has_tx s now).0 now).state ≡ standby
unfolding status_snapshot
refresh-status_snapshot r has_tx s now p alive e = refresh-no_preempt r has_tx s now p (
    subst (λ o. has_live_active_peer r o now ≡ true) (refresh-seen r has_tx s now)
      (snapshot-shown r (refresh_local_state r has_tx s now).0 now alive e))
