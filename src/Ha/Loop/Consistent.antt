-- ===== src/Ha/Loop/Consistent.antt =====
-- What is consistent in the state of the loop of src/gruezi/ha.rs, also after a refresh.
use gruezi.Base.{ℕ, ◌≤◌, ◌≡◌, ◌≢◌, refl, Option, none, some, is_some, arith, Bool-cases, inl, inr}
use gruezi.Base.Word.{u64_max}
use gruezi.Ha.Error.{Error}
use gruezi.Ha.Decision.{HaDecision}
use gruezi.Ha.Loop.{decided}
use gruezi.Ha.Loop.Handlers.{count_invalid}
use gruezi.Ha.Receive.{PeerObservation}
use gruezi.Ha.Runtime.{HaRuntimeConfig}
use gruezi.Ha.State.{state_eq}
use gruezi.Ha.Status.{HaCounters, HaLoopState}

-- Each failure that is counted by its kind is counted as an invalid packet as well.
pub record IsCounted (c : HaCounters) : Type 0 where
  pub auth_le : c.auth_failures ≤ c.invalid_packets
  pub duplicate_le : c.duplicate_node_id_packets ≤ c.invalid_packets
  pub invalid_le : c.invalid_packets ≤ u64_max

-- A peer that is remembered is another node.
abbrev IsOther : HaRuntimeConfig → Option PeerObservation → Type 0
IsOther r none = Unit {0}
IsOther r (some o) = o.node_id ≢ r.node_id

-- The sequence number is the number of packets sent, the counters agree with each other, a peer
-- that is remembered is another node, and a transition has a reason exactly if it has a time.
pub record IsConsistent (r : HaRuntimeConfig) (s : HaLoopState) : Type 0 where
  pub sent : s.sequence ≡ s.counters.packets_sent
  pub counted : IsCounted s.counters
  pub other_node : IsOther r s.peer_observation
  pub transition : is_some s.last_transition_reason ≡ is_some s.last_transition_at

pub count_invalid-IsCounted :
    (e : Error) (c : HaCounters) → IsCounted c → IsCounted (count_invalid e c)
unfolding count_invalid
count_invalid-IsCounted e c i =
    let a = i.auth_le in
    let d = i.duplicate_le in
    let v = i.invalid_le in
    record { auth_le = ground arith; duplicate_le = ground arith; invalid_le = omega arith }

pub decided-IsConsistent :
    (r : HaRuntimeConfig) (s : HaLoopState) (d : HaDecision) (now : ℕ)
    → IsConsistent r s
    → IsConsistent r (decided r s d now)
unfolding decided
decided-IsConsistent r s d now i = elim (Bool-cases (state_eq s.state d.state)) [
  | inl e ↦ rw e (record {
    sent = i.sent;
    counted = i.counted;
    other_node = i.other_node;
    transition = i.transition;
  })
  | inr e ↦
      rw e (record {
        sent = i.sent;
        counted = i.counted;
        other_node = i.other_node;
        transition = refl;
      })
]
