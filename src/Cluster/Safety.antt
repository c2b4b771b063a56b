-- ===== src/Cluster/Safety.antt =====
-- Every reachable state of the cluster.
use gruezi.Base.{ℕ, ◌<◌, ◌≡◌, ◌≢◌, ◌⊎◌, inl, inr, subst, Bool, some, All, All-append}
use gruezi.Base.Word.{Bytes}
use gruezi.Net.{SocketAddr}
use gruezi.Text.{IsText}
use gruezi.Cluster.{sent, Cluster, Step, step_a, step_b, Reachable, start, step}
use gruezi.Cluster.Knowledge.{IsOf, IsAdvert, round-Good}
use gruezi.Cluster.Emits.{Emits-sent}
use gruezi.Cluster.Rounds.{All-map}
use gruezi.Ha.Decision.Election.{Sees, election_unique, dual_active_resolves}
use gruezi.Ha.Loop.{decision_of, initial_state}
use gruezi.Ha.Receive.{PeerObservation}
use gruezi.Ha.Runtime.{HaRuntimeConfig, follower_deadline}
use gruezi.Ha.State.{standby, active}

-- Both configurations are Rust strings where it matters.
pub record AreTexts (a b : HaRuntimeConfig) : Type 0 where
  pub node_a : IsText a.node_id
  pub node_b : IsText b.node_id
  pub group_a : IsText a.group_id
  pub group_b : IsText b.group_id

module _ (hash : Bytes → ℕ) (a b : HaRuntimeConfig) where
  -- The network holds advertisements of the two nodes, and each node has seen the other or none.
  pub record IsKnown (c : Cluster) : Type 0 where
    pub network : All (λ bs. IsAdvert hash a bs ⊎ IsAdvert hash b bs) c.network
    pub seen_by_a : IsOf b c.state_a.peer_observation
    pub seen_by_b : IsOf a c.state_b.peer_observation

swap : {P Q : Type 0} → P ⊎ Q → Q ⊎ P
swap (inl p) = inr p
swap (inr q) = inl q

module _ (hash : Bytes → ℕ) (a b : HaRuntimeConfig) (tx_a tx_b : Bool) (addr_a addr_b : SocketAddr)
    (texts : AreTexts a b) where
  Step-IsKnown :
      (c d : Cluster)
      → IsKnown hash a b c
      → Step hash a b tx_a tx_b addr_a addr_b c d
      → IsKnown hash a b d
  Step-IsKnown _ _ k (step_a c i s es delivers e) =
      let good =
        round-Good hash a b tx_a texts.node_a texts.node_b texts.group_a texts.group_b addr_b
          c.state_a s i es c.network k.network delivers k.seen_by_a e in
      record {
        network =
            All-append _ (sent es) c.network (All-map (λ x. inl) (sent es) (Emits-sent _ es good.1))
              k.network;
        seen_by_a = good.0;
        seen_by_b = k.seen_by_b;
      }
  Step-IsKnown _ _ k (step_b c i s es delivers e) =
      let good =
        round-Good hash b a tx_b texts.node_b texts.node_a texts.group_b texts.group_a addr_a
          c.state_b s i es c.network (All-map (λ x. swap) c.network k.network) delivers k.seen_by_b
          e in
      record {
        network =
            All-append _ (sent es) c.network (All-map (λ x. inr) (sent es) (Emits-sent _ es good.1))
              k.network;
        seen_by_a = k.seen_by_a;
        seen_by_b = good.0;
      }

  -- In every state that the cluster reaches, where the ids and groups of its two nodes are Rust
  -- strings, every datagram in the network is an advertisement that one of the two encoded, and
  -- what each node remembers of a peer is the node id and the priority of the other node, never
  -- its own.
  pub Reachable-IsKnown :
      (c : Cluster) → Reachable hash a b tx_a tx_b addr_a addr_b c → IsKnown hash a b c
  unfolding initial_state
  Reachable-IsKnown _ (start startup_a tokio_a startup_b tokio_b) = record {
    network = tt;
    seen_by_a = tt;
    seen_by_b = tt;
  }
  Reachable-IsKnown _ (step c d reached s) = Step-IsKnown c d (Reachable-IsKnown c reached) s

  module _ (differ : a.node_id ≢ b.node_id) (c : Cluster)
      (reached : Reachable hash a b tx_a tx_b addr_a addr_b c) (oa ob : PeerObservation)
      (seen_a : c.state_a.peer_observation ≡ some oa)
      (seen_b : c.state_b.peer_observation ≡ some ob) (now_a now_b : ℕ)
      (live_a : now_a < follower_deadline a oa.observed_at)
      (live_b : now_b < follower_deadline b ob.observed_at) where
    sees_b : Sees a b oa now_a
    sees_b =
        let known = subst (IsOf b) seen_a (Reachable-IsKnown c reached).seen_by_a in
        record { node_id = known.0; priority = known.1; live = live_a }

    sees_a : Sees b a ob now_b
    sees_a =
        let known = subst (IsOf a) seen_b (Reachable-IsKnown c reached).seen_by_b in
        record { node_id = known.0; priority = known.1; live = live_b }

    -- In every state that the cluster reaches from the start of its two nodes, which have
    -- different ids, with ids and groups that are Rust strings, over a network that loses,
    -- delays, repeats and reorders datagrams: if each node has seen the other within its
    -- deadline, neither is active, and neither saw the other active, then their decisions make
    -- exactly one of them active and the other one standby.
    pub reachable_election :
        c.state_a.state ≢ active
        → c.state_b.state ≢ active
        → oa.state ≢ active
        → ob.state ≢ active
        → (((decision_of a c.state_a now_a).state ≡ active)
            × ((decision_of b c.state_b now_b).state ≡ standby))
          ⊎ (((decision_of a c.state_a now_a).state ≡ standby)
              × ((decision_of b c.state_b now_b).state ≡ active))
    unfolding decision_of
    reachable_election na nb pa pb =
        rw (seen_a, seen_b)
          (election_unique a b oa ob c.state_a.state c.state_b.state c.state_a.startup_at
            c.state_b.startup_at now_a now_b c.state_a.active_peer_conflict
            c.state_b.active_peer_conflict texts.node_a texts.node_b differ sees_b sees_a na nb pa
            pb)

    -- In every state that the cluster reaches from the start of its two nodes, which have
    -- different ids, with ids and groups that are Rust strings, over a network that loses,
    -- delays, repeats and reorders datagrams: if each node has seen the other within its
    -- deadline, and each saw the other active, then their decisions do not make both of them
    -- active.
    pub reachable_dual_active :
        oa.state ≡ active
        → ob.state ≡ active
        → ¬ (
            ((decision_of a c.state_a now_a).state ≡ active)
            × ((decision_of b c.state_b now_b).state ≡ active))
    unfolding decision_of
    reachable_dual_active pa pb =
        rw (seen_a, seen_b)
          (dual_active_resolves a b oa ob c.state_a.state c.state_b.state c.state_a.startup_at
            c.state_b.startup_at now_a now_b c.state_a.active_peer_conflict
            c.state_b.active_peer_conflict texts.node_a texts.node_b differ sees_b sees_a pa pb)
