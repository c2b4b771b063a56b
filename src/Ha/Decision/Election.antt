-- ===== src/Ha/Decision/Election.antt =====
-- Two nodes that see one another: who is active.
use gruezi.Base.{ℕ, ◌<◌, ◌≡◌, ◌≢◌, ◌⊎◌, Bool, not, some, arith}
use gruezi.Text.{IsText}
use gruezi.Ha.Decision.{HaDecision, desired_state, outranks}
use gruezi.Ha.Decision.Rank.{outranks_flip}
use gruezi.Ha.Receive.{PeerObservation}
use gruezi.Ha.Runtime.{HaRuntimeConfig, follower_deadline}
use gruezi.Ha.State.{HaState, standby, active}

-- Node `r` last saw node `q`, and its deadline has not passed.
pub record Sees (r q : HaRuntimeConfig) (o : PeerObservation) (now : ℕ) : Type 0 where
  pub node_id : o.node_id ≡ q.node_id
  pub priority : o.priority ≡ q.priority
  pub live : now < follower_deadline r o.observed_at

module _ (a b : HaRuntimeConfig) (oa ob : PeerObservation) (sa sb : HaState)
    (startup_a startup_b now_a now_b : ℕ) (conflict_a conflict_b : Bool) (text_a : IsText a.node_id)
    (text_b : IsText b.node_id) (differ : a.node_id ≢ b.node_id) (seen_a : Sees a b oa now_a)
    (seen_b : Sees b a ob now_b) where
  abbrev decision_a : HaDecision
  decision_a = desired_state a sa (some oa) startup_a now_a conflict_a

  abbrev decision_b : HaDecision
  decision_b = desired_state b sb (some ob) startup_b now_b conflict_b

  rank :
      outranks b.priority b.node_id a.priority a.node_id
      ≡ not (outranks a.priority a.node_id b.priority b.node_id)
  rank = outranks_flip a.priority a.node_id b.priority b.node_id text_a text_b differ

  -- Two nodes with different ids, each a Rust string, last saw one another, as the peers that
  -- they are, within their deadlines. If neither is active and neither saw the other active,
  -- then their decisions make exactly one of them active and the other one standby, whatever
  -- their timers, startup times and conflict flags are.
  pub election_unique :
      sa ≢ active
      → sb ≢ active
      → oa.state ≢ active
      → ob.state ≢ active
      → ((decision_a.state ≡ active) × (decision_b.state ≡ standby))
        ⊎ ((decision_a.state ≡ standby) × (decision_b.state ≡ active))
  unfolding desired_state
  election_unique na nb pa pb = ground (arith, rank)

  -- Two nodes with different ids, each a Rust string, last saw one another, as the peers that
  -- they are, within their deadlines, and each saw the other active. Then their decisions do
  -- not make both of them active, with preemption or without.
  pub dual_active_resolves :
      oa.state ≡ active
      → ob.state ≡ active
      → ¬ ((decision_a.state ≡ active) × (decision_b.state ≡ active))
  unfolding desired_state
  dual_active_resolves pa pb both = ground (arith, rank)
