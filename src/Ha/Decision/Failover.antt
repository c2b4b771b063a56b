-- ===== src/Ha/Decision/Failover.antt =====
-- `desired_state` against a description of the failover rules, and what they give.
use gruezi.Base.{ℕ, ◌≤◌, ◌<◌, ◌≡◌, ◌≢◌, ◌⊎◌, ◌↔◌, Bool, true, false, Option, none, some, arith}
use gruezi.Ha.Decision.{desired_state}
use gruezi.Ha.Decision.Rank.{Outranks, outranks_iff}
use gruezi.Ha.Receive.{PeerObservation}
use gruezi.Ha.Runtime.{HaRuntimeConfig, follower_deadline}
use gruezi.Ha.State.{HaState, init, active}

-- The node outranks the peer that it saw.
abbrev pub Wins : HaRuntimeConfig → PeerObservation → Type 0
Wins r o = Outranks r.priority r.node_id o.priority o.node_id

-- The rules for a peer that is alive.
abbrev pub LiveRule : HaRuntimeConfig → HaState → PeerObservation → Bool → Type 0
LiveRule r current o conflict =
    ((o.state ≢ active) × ((current ≡ active) ⊎ Wins r o))
    ⊎ ((o.state ≡ active)
        × (r.preempt ≡ true)
        × Wins r o
        × (o.became_active ≡ false)
        × (conflict ≡ false))

-- When a node should be active: no peer was ever seen, and it is active or its startup deadline has
-- passed; the deadline of the peer has passed; or the peer is alive and the rules say so.
abbrev pub ShouldBeActive :
    HaRuntimeConfig → HaState → Option PeerObservation → ℕ → ℕ → Bool → Type 0
ShouldBeActive r current none startup_at now conflict =
    (current ≡ active) ⊎ (follower_deadline r startup_at ≤ now)
ShouldBeActive r current (some o) startup_at now conflict =
    (follower_deadline r o.observed_at ≤ now)
    ⊎ ((now < follower_deadline r o.observed_at) × LiveRule r current o conflict)

-- The decision is active exactly when the failover rules say so. Where no peer was ever seen:
-- the node is active already, or its startup deadline has passed. Where one was: the peer's
-- deadline has passed; or the peer is alive and not active, and the node is active or outranks
-- it; or the peer is alive and active, and the node may preempt, outranks it, and neither the
-- last packet nor a remembered conflict speaks against it.
pub desired_state-active_iff :
    (r : HaRuntimeConfig) (current : HaState) (seen : Option PeerObservation) (startup_at now : ℕ)
    (conflict : Bool)
    → ((desired_state r current seen startup_at now conflict).state ≡ active)
      ↔ ShouldBeActive r current seen startup_at now conflict
unfolding desired_state
desired_state-active_iff r current none startup_at now conflict = ground arith
desired_state-active_iff r current (some o) startup_at now conflict =
    ground (arith, outranks_iff r.priority r.node_id o.priority o.node_id)

-- A running node is never sent back to `init`.
pub desired_state-ne-init :
    (r : HaRuntimeConfig) (current : HaState) (seen : Option PeerObservation) (startup_at now : ℕ)
    (conflict : Bool)
    → (desired_state r current seen startup_at now conflict).state ≢ init
unfolding desired_state
desired_state-ne-init r current none startup_at now conflict = λ e. ground arith
desired_state-ne-init r current (some o) startup_at now conflict = λ e. ground arith
