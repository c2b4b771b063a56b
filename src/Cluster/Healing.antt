-- ===== src/Cluster/Healing.antt =====
-- Two nodes that each send an advertisement and then hear that of the other.
use gruezi.Base.{
  ℕ, ◌<◌, ◌≡◌, ◌≢◌, ◌⊎◌, inl, inr, sym, ap, ◌∙◌, subst, Bool, true, false, not, none, some, List,
  [], ◌∷◌, length, leb,
}
use gruezi.Base.Word.{Bytes}
use gruezi.Net.{SocketAddr}
use gruezi.Cluster.{sent}
use gruezi.Ha.Decision.{local_wins, outranks}
use gruezi.Ha.Decision.Election.{Sees}
use gruezi.Ha.Decision.Rank.{outranks_flip}
use gruezi.Ha.Loop.Keeps.{IsSendable}
use gruezi.Ha.Loop.Run.{Round, running, round, rounds}
use gruezi.Ha.Loop.Transitions.{replay}
use gruezi.Ha.Loop.Vip.{rounds-replay, final_state}
use gruezi.Ha.Receive.{PeerObservation}
use gruezi.Ha.Receive.Accept.{IsPeer, encoded_delivered}
use gruezi.Ha.Runtime.{HaRuntimeConfig, follower_deadline}
use gruezi.Ha.State.{standby, active, state_eq}
use gruezi.Ha.Status.{HaLoopState}
use gruezi.Cluster.Refreshed.{refreshed, refreshed-hold, refreshed-standby, refreshed-active}
use gruezi.Cluster.Exchange.{tick, payload, Exchange, exchange, exchanged, Exchanged}
use gruezi.Cluster.Exchange.Sends.{sent-AdvertIn}
use gruezi.Cluster.Knowledge.{IsOf}

standby-ne-active : standby ≢ active
standby-ne-active e = cc e

pub rests : (s : HaLoopState) → s.state ≡ standby → s.state ≢ active
rests s e f = standby-ne-active (sym e ∙ f)

replayed :
    (hash : Bytes → ℕ) (r : HaRuntimeConfig) (has_tx : Bool) (peer_addr : SocketAddr)
    (s s' : HaLoopState) (is : List Round)
    → (rounds hash r has_tx peer_addr (running s) is).0 ≡ running s'
    → replay (state_eq s.state active) (rounds hash r has_tx peer_addr (running s) is).1
      ≡ state_eq s'.state active
replayed hash r has_tx peer_addr s s' is e =
    rounds-replay hash r has_tx peer_addr (running s) is
    ∙ ap (λ o. state_eq (final_state o).state active) e

module _ (hash : Bytes → ℕ) (a b : HaRuntimeConfig) where
  -- Two nodes that can send and accept one another, of which the first outranks the second.
  pub record ArePeers : Type 0 where
    pub sendable_a : IsSendable a
    pub sendable_b : IsSendable b
    pub a_to_b : IsPeer hash a b
    pub b_to_a : IsPeer hash b a
    pub ranks : outranks a.priority a.node_id b.priority b.node_id ≡ true

  module _ (tx_a tx_b : Bool) (addr_a addr_b : SocketAddr) (sa sb : HaLoopState)
      (x y : Exchange) where
    -- Each hears what the other sends, and decides before the deadline that follows from it.
    pub record AreHeard : Type 0 where
      pub fits_a : leb x.hears.size (length x.hears.buffer) ≡ true
      pub fits_b : leb y.hears.size (length y.hears.buffer) ≡ true
      pub by_a : sent (round hash b tx_b addr_a sb (tick y.sends)).1 ≡ payload x.hears ∷ []
      pub by_b : sent (round hash a tx_a addr_b sa (tick x.sends)).1 ≡ payload y.hears ∷ []
      pub live_a : x.sends_again.refreshed_at < follower_deadline a x.hears.now
      pub live_b : y.sends_again.refreshed_at < follower_deadline b y.hears.now

    wins :
        (o : PeerObservation)
        → ArePeers
        → o.node_id ≡ b.node_id
        → o.priority ≡ b.priority
        → local_wins a o ≡ true
    wins o peers n p = rw (n, p) peers.ranks

    loses :
        (o : PeerObservation)
        → ArePeers
        → o.node_id ≡ a.node_id
        → o.priority ≡ a.priority
        → local_wins b o ≡ false
    loses o peers n p =
        rw (n, p)
          (outranks_flip a.priority a.node_id b.priority b.node_id peers.a_to_b.node_text
              peers.b_to_a.node_text peers.a_to_b.other_node
            ∙ ap not peers.ranks)

    -- What the exchange does: `b` is in standby from its first round on and knows `a`, which hears
    -- so and leads.
    pub record Elected : Type 0 where
      pub seen_by_a : PeerObservation
      pub seen_by_b : PeerObservation
      pub ran_a : Exchanged hash a tx_a addr_b sa x seen_by_a
      pub ran_b : Exchanged hash b tx_b addr_a sb y seen_by_b
      pub told_a : seen_by_a.state ≡ standby
      pub told_b : IsOf a (some seen_by_b)
      pub leads : ran_a.three.state ≡ active
      pub first : ran_b.one.state ≡ standby
      pub second : ran_b.two.state ≡ standby
      pub third : ran_b.three.state ≡ standby

    -- `b` sees `a`, at the start of its first two rounds, and is not active or saw it active.
    pub record IsFollower : Type 0 where
      pub peer : PeerObservation
      pub seen : sb.peer_observation ≡ some peer
      pub sees : Sees b a peer y.sends.refreshed_at
      pub sees_still : y.hears.refreshed_at < follower_deadline b peer.observed_at
      pub yields : (sb.state ≢ active) ⊎ (peer.state ≡ active)

    -- `b` saw no peer, is not active, and begins its first two rounds before the startup deadline.
    pub record IsWaiting : Type 0 where
      pub unseen : sb.peer_observation ≡ none
      pub not_active : sb.state ≢ active
      pub early : y.sends.refreshed_at < follower_deadline b sb.startup_at
      pub early_still : y.hears.refreshed_at < follower_deadline b sb.startup_at

    stands_by_first :
        ArePeers → IsWaiting ⊎ IsFollower → refreshed b tx_b sb y.sends.refreshed_at ≡ standby
    stands_by_first peers (inl w) =
        refreshed-hold b tx_b sb y.sends.refreshed_at w.unseen w.not_active w.early
    stands_by_first peers (inr f) =
        refreshed-standby b tx_b sb y.sends.refreshed_at f.peer f.seen
          (loses f.peer peers f.sees.node_id f.sees.priority) f.sees.live f.yields

    stands_by_still :
        (s : HaLoopState)
        → ArePeers
        → IsWaiting ⊎ IsFollower
        → s.state ≡ standby
        → s.peer_observation ≡ sb.peer_observation
        → s.startup_at ≡ sb.startup_at
        → refreshed b tx_b s y.hears.refreshed_at ≡ standby
    stands_by_still s peers (inl w) standing seen startup =
        refreshed-hold b tx_b s y.hears.refreshed_at (seen ∙ w.unseen) (rests s standing)
          (rw startup w.early_still)
    stands_by_still s peers (inr f) standing seen startup =
        refreshed-standby b tx_b s y.hears.refreshed_at f.peer (seen ∙ f.seen)
          (loses f.peer peers f.sees.node_id f.sees.priority) f.sees_still (inl (rests s standing))

    pub elected : ArePeers → IsWaiting ⊎ IsFollower → AreHeard → Elected
    elected peers f heard =
        let b_first = stands_by_first peers f in
        let (na, ad_a) =
          sent-AdvertIn hash a tx_a addr_b sa x.sends (payload y.hears) peers.sendable_a
            heard.by_b in
        let (nb, ad_b) =
          sent-AdvertIn hash b tx_b addr_a sb y.sends (payload x.hears) peers.sendable_b
            heard.by_a in
        let (o_a, took_a, id_a, state_a, prio_a, at_a) =
          encoded_delivered hash b a _ nb (payload x.hears) x.hears.from x.hears.now
            sa.peer_observation peers.b_to_a ad_b in
        let (o_b, took_b, id_b, state_b, prio_b, at_b) =
          encoded_delivered hash a b _ na (payload y.hears) y.hears.from y.hears.now
            sb.peer_observation peers.a_to_b ad_a in
        let ran_a = exchanged hash a tx_a addr_b sa x o_a peers.sendable_a heard.fits_a took_a in
        let ran_b = exchanged hash b tx_b addr_a sb y o_b peers.sendable_b heard.fits_b took_b in
        let told_a : o_a.state ≡ standby = state_a ∙ b_first in
        let standing = ran_b.state_one ∙ b_first in
        let b_second =
          ran_b.state_two
          ∙ stands_by_still ran_b.one peers f standing ran_b.seen_one ran_b.startup_one in
        record {
          seen_by_a = o_a;
          seen_by_b = o_b;
          ran_a = ran_a;
          ran_b = ran_b;
          told_a = told_a;
          told_b = (id_b, prio_b);
          leads =
              ran_a.state_three
              ∙ refreshed-active a tx_a ran_a.two x.sends_again.refreshed_at o_a ran_a.seen_two
                  (wins o_a peers id_a prio_a)
                  (subst (λ t. x.sends_again.refreshed_at < follower_deadline a t) (sym at_a)
                    heard.live_a)
                  (λ e. standby-ne-active (sym told_a ∙ e));
          first = standing;
          second = b_second;
          third =
              ran_b.state_three
              ∙ refreshed-standby b tx_b ran_b.two y.sends_again.refreshed_at o_b ran_b.seen_two
                  (loses o_b peers id_b prio_b)
                  (subst (λ t. y.sends_again.refreshed_at < follower_deadline b t) (sym at_b)
                    heard.live_b)
                  (inl (rests ran_b.two b_second));
        }

    -- Two nodes can send and accept one another's advertisements, and the first outranks the
    -- second. Each of the two, in its first round, sends an advertisement, in its second round
    -- hears the one that the other sent so, and in its third round, which begins before the
    -- deadline that follows from what it heard, sends again; every send succeeds. Either the
    -- second node saw no peer, is not active, and begins its first two rounds before the
    -- deadline that follows from its startup; or at the start of these two rounds the first
    -- node, which it saw last, is within its deadline, and at the beginning the second node is
    -- not active, or it saw the first one active. Then both loops go on, the first in the
    -- active state and the second in standby, whatever the state of the first was and with
    -- preemption or without; and replaying the address actions of each leaves the first with
    -- the addresses and the second without.
    pub exchange-elects :
        ArePeers
        → IsWaiting ⊎ IsFollower
        → AreHeard
        → let (oa, ea) = rounds hash a tx_a addr_b (running sa) (exchange x) in
          let (ob, eb) = rounds hash b tx_b addr_a (running sb) (exchange y) in
          (sa' : HaLoopState) × (sb' : HaLoopState) × (oa ≡ running sa')
          × (ob ≡ running sb')
          × (sa'.state ≡ active)
          × (sb'.state ≡ standby)
          × (replay (state_eq sa.state active) ea ≡ true)
          × (replay (state_eq sb.state active) eb ≡ false)
    exchange-elects peers follower heard =
        let e = elected peers follower heard in
        (
          e.ran_a.three,
          e.ran_b.three,
          e.ran_a.ends,
          e.ran_b.ends,
          e.leads,
          e.third,
          replayed hash a tx_a addr_b sa _ (exchange x) e.ran_a.ends
              ∙ ap (λ s. state_eq s active) e.leads,
          replayed hash b tx_b addr_a sb _ (exchange y) e.ran_b.ends
              ∙ ap (λ s. state_eq s active) e.third,
        )
