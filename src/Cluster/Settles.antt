-- ===== src/Cluster/Settles.antt =====
-- Two nodes of src/gruezi/ha.rs that heard one another, and all rounds that they run after that.
use gruezi.Base.{ℕ, ◌≡◌, ◌≢◌, ◌⊎◌, inl, inr, sym, ap, ◌∙◌, subst, Bool, List, ◌++◌, All, All-append}
use gruezi.Base.Word.{Bytes}
use gruezi.Net.{SocketAddr}
use gruezi.Cluster.{sent, Cluster}
use gruezi.Cluster.Emits.{Emits-sent}
use gruezi.Cluster.Exchange.{Exchange, exchange}
use gruezi.Cluster.Exchange.Sends.{Exchanged-Emits}
use gruezi.Cluster.Healing.{ArePeers, AreHeard, IsFollower, IsWaiting, elected, Elected, rests}
use gruezi.Cluster.Knowledge.{IsOf, IsAdvert}
use gruezi.Cluster.Safety.{AreTexts}
use gruezi.Cluster.Stable.{IsQuiet, IsStable, Timely, Timely-IsStable}
use gruezi.Ha.Loop.Run.{running, rounds}
use gruezi.Ha.Loop.Rests.{IsPassive}
use gruezi.Ha.Runtime.{HaRuntimeConfig}
use gruezi.Ha.State.{HaState, standby, active}
use gruezi.Ha.Status.{HaLoopState}

running_state : (s t : HaLoopState) → running s ≡ running t → s ≡ t
running_state s t e = cc e

standby_ne_active : (s : HaState) → s ≡ standby → s ≢ active
standby_ne_active s e f = cc (e, f)

module _ (hash : Bytes → ℕ) (a b : HaRuntimeConfig) where
  ArePeers-AreTexts : ArePeers hash a b → AreTexts a b
  ArePeers-AreTexts peers = record {
    node_a = peers.a_to_b.node_text;
    node_b = peers.b_to_a.node_text;
    group_a = peers.a_to_b.group_text;
    group_b = peers.b_to_a.group_text;
  }

  -- What `a` may have said, and `b` while it was not active.
  abbrev IsHarmless : Bytes → Type 0
  IsHarmless bs = IsAdvert hash a bs ⊎ IsQuiet hash a b bs

  module _ (tx_a tx_b : Bool) (addr_a addr_b : SocketAddr) (sa sb : HaLoopState)
      (x y : Exchange) where
    sent-IsHarmless_a :
        (e : Elected hash a b tx_a tx_b addr_a addr_b sa sb x y)
        → All IsHarmless (sent (rounds hash a tx_a addr_b (running sa) (exchange x)).1)
    sent-IsHarmless_a e = Emits-sent _ _ (
        Exchanged-Emits hash a tx_a addr_b IsHarmless sa x e.seen_by_a e.ran_a
          (λ bs ad. inl (_, ad)) (λ bs ad. inl (_, ad)) (λ bs ad. inl (_, ad)))

    sent-IsHarmless_b :
        (e : Elected hash a b tx_a tx_b addr_a addr_b sa sb x y)
        → All IsHarmless (sent (rounds hash b tx_b addr_a (running sb) (exchange y)).1)
    sent-IsHarmless_b e = Emits-sent _ _ (
        Exchanged-Emits hash b tx_b addr_a IsHarmless sb y e.seen_by_b e.ran_b
          (λ bs ad. inr (_, rests e.ran_b.one e.first, ad))
          (λ bs ad. inr (_, rests e.ran_b.two e.second, ad))
          (λ bs ad. inr (_, rests e.ran_b.three e.third, ad)))

    -- The cluster after the exchange, in which all that was sent is in the network.
    abbrev pub met : List Bytes → HaLoopState → HaLoopState → Cluster
    met network sa' sb' = record {
      state_a = sa';
      state_b = sb';
      network =
          sent (rounds hash a tx_a addr_b (running sa) (exchange x)).1
          ++ (sent (rounds hash b tx_b addr_a (running sb) (exchange y)).1 ++ network);
    }

    Elected-IsStable :
        (network : List Bytes) (e : Elected hash a b tx_a tx_b addr_a addr_b sa sb x y)
        → All IsHarmless network
        → IsStable hash a b (met network e.ran_a.three e.ran_b.three)
    Elected-IsStable network e harmless = record {
      active_a = e.leads;
      passive_a =
          subst IsPassive (sym e.ran_a.seen_three) (standby_ne_active e.seen_by_a.state e.told_a);
      rests_b = rests e.ran_b.three e.third;
      seen_by_b = subst (IsOf a) (sym e.ran_b.seen_three) e.told_b;
      network =
          All-append IsHarmless (sent (rounds hash a tx_a addr_b (running sa) (exchange x)).1) _
            (sent-IsHarmless_a e)
            (All-append IsHarmless (sent (rounds hash b tx_b addr_a (running sb) (exchange y)).1)
              network (sent-IsHarmless_b e) harmless);
    }

    -- Two nodes can send and accept one another's advertisements, and the first outranks the
    -- second. Each of the two, in its first round, sends an advertisement, in its second round
    -- hears the one that the other sent so, and in its third round, which begins before the
    -- deadline that follows from what it heard, sends again; every send succeeds, and both
    -- loops go on. Either the second node saw no peer, is not active, and begins its first two
    -- rounds before the deadline that follows from its startup; or at the start of these two
    -- rounds the first node, which it saw last, is within its deadline, and at the beginning
    -- the second node is not active, or it saw the first one active. Before, the network holds
    -- only advertisements of the first node, and those of the second in states that are not
    -- active; all that the two send in these rounds joins them. Then over any rounds of both
    -- after that, after which they go on, in any order, over this network, which loses, delays,
    -- repeats and reorders datagrams, where at the start of each round of the second node the
    -- peer that it saw last is within its deadline, the first one stays active and did not see
    -- the second one active, and the second one does not become active, saw the first one, and
    -- sends nothing that says that it is active.
    pub exchange-IsStable :
        (network : List Bytes) (sa' sb' : HaLoopState) (d : Cluster)
        → ArePeers hash a b
        → IsWaiting hash a b tx_a tx_b addr_a addr_b sa sb x y
          ⊎ IsFollower hash a b tx_a tx_b addr_a addr_b sa sb x y
        → AreHeard hash a b tx_a tx_b addr_a addr_b sa sb x y
        → All IsHarmless network
        → (rounds hash a tx_a addr_b (running sa) (exchange x)).0 ≡ running sa'
        → (rounds hash b tx_b addr_a (running sb) (exchange y)).0 ≡ running sb'
        → Timely hash a b tx_a tx_b addr_a addr_b (met network sa' sb') d
        → IsStable hash a b d
    exchange-IsStable network sa' sb' d peers follower heard harmless ran_a ran_b timely =
        let e = elected hash a b tx_a tx_b addr_a addr_b sa sb x y peers follower heard in
        let same_a : e.ran_a.three ≡ sa' = running_state _ _ (sym e.ran_a.ends ∙ ran_a) in
        let same_b : e.ran_b.three ≡ sb' = running_state _ _ (sym e.ran_b.ends ∙ ran_b) in
        Timely-IsStable hash a b tx_a tx_b addr_a addr_b (ArePeers-AreTexts peers) _ d timely (
          subst (IsStable hash a b)
            (ap (λ s. met network s e.ran_b.three) same_a ∙ ap (met network sa') same_b)
            (Elected-IsStable network e harmless))
