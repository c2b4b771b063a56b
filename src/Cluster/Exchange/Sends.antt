-- ===== src/Cluster/Exchange/Sends.antt =====
-- What a node of src/gruezi/ha.rs sends in the rounds of an exchange.
use gruezi.Base.{All-append, ℕ, ◌≡◌, sym, ap, subst, Bool, List, [], ◌∷◌, All}
use gruezi.Base.Word.{Bytes}
use gruezi.Net.{SocketAddr}
use gruezi.Cluster.{sent}
use gruezi.Cluster.Emits.{AdvertIn, Emits, Emits-sent}
use gruezi.Cluster.Rounds.{Gives, round-Kept}
use gruezi.Ha.Loop.Keeps.{IsSendable}
use gruezi.Ha.Loop.Run.{Round, running, round, rounds}
use gruezi.Ha.Receive.{PeerObservation}
use gruezi.Ha.Runtime.{HaRuntimeConfig}
use gruezi.Ha.Status.{HaLoopState}
use gruezi.Cluster.Refreshed.{refreshed}
use gruezi.Cluster.Exchange.{Tick, tick, arrive, Exchange, exchange, tick-GoesTo, Exchanged}

module _ (hash : Bytes → ℕ) (r : HaRuntimeConfig) (has_tx : Bool) (peer_addr : SocketAddr) where
  -- What a round of an exchange sends are advertisements in the state after the refresh.
  round-Emits :
      (P : Bytes → Type 0) (s s' : HaLoopState) (i : Round)
      → Gives hash r (λ k. Unit {0}) i.event
      → (round hash r has_tx peer_addr s i).0 ≡ running s'
      → ((bs : Bytes) → AdvertIn hash r (refreshed r has_tx s i.refreshed_at) bs → P bs)
      → All (Emits P) (round hash r has_tx peer_addr s i).1
  round-Emits P s s' i gives ran f =
      let es = (round hash r has_tx peer_addr s i).1 in
      (round-Kept hash r has_tx (λ k. Unit {0}) P peer_addr s s' i es tt gives f
        (ap (λ k. (k, es)) ran)).1

  rounds-Emits :
      (P : Bytes → Type 0) (s s' : HaLoopState) (i : Round) (is : List Round)
      → (round hash r has_tx peer_addr s i).0 ≡ running s'
      → All (Emits P) (round hash r has_tx peer_addr s i).1
      → All (Emits P) (rounds hash r has_tx peer_addr (running s') is).1
      → All (Emits P) (rounds hash r has_tx peer_addr (running s) (i ∷ is)).1
  unfolding rounds
  rounds-Emits P s s' i is ran first rest =
      All-append (Emits P) (round hash r has_tx peer_addr s i).1 _ first
        (subst (λ o. All (Emits P) (rounds hash r has_tx peer_addr o is).1) (sym ran) rest)

  pub Exchanged-Emits :
      (P : Bytes → Type 0) (s : HaLoopState) (x : Exchange) (o : PeerObservation)
      (e : Exchanged hash r has_tx peer_addr s x o)
      → ((bs : Bytes) → AdvertIn hash r e.one.state bs → P bs)
      → ((bs : Bytes) → AdvertIn hash r e.two.state bs → P bs)
      → ((bs : Bytes) → AdvertIn hash r e.three.state bs → P bs)
      → All (Emits P) (rounds hash r has_tx peer_addr (running s) (exchange x)).1
  Exchanged-Emits P s x o e f g h =
      rounds-Emits P s e.one (tick x.sends) _ e.ran_one
        (round-Emits P s e.one (tick x.sends) tt e.ran_one
          (λ bs ad. f bs (subst (λ k. AdvertIn hash r k bs) (sym e.state_one) ad)))
        (rounds-Emits P e.one e.two (arrive x.hears) _ e.ran_two
          (round-Emits P e.one e.two (arrive x.hears) (λ seen o' took. tt) e.ran_two
            (λ bs ad. g bs (subst (λ k. AdvertIn hash r k bs) (sym e.state_two) ad)))
          (rounds-Emits P e.two e.three (tick x.sends_again) [] e.ran_three
            (round-Emits P e.two e.three (tick x.sends_again) tt e.ran_three
              (λ bs ad. h bs (subst (λ k. AdvertIn hash r k bs) (sym e.state_three) ad)))
            (unfold rounds in tt)))

  -- The only datagram of a round is an advertisement in the state after the refresh.
  pub sent-AdvertIn :
      (s : HaLoopState) (i : Tick) (bs : Bytes)
      → IsSendable r
      → sent (round hash r has_tx peer_addr s (tick i)).1 ≡ bs ∷ []
      → AdvertIn hash r (refreshed r has_tx s i.refreshed_at) bs
  sent-AdvertIn s i bs sendable only =
      let (s', ran, state, seen, startup) = tick-GoesTo hash r has_tx peer_addr s i sendable in
      let P = AdvertIn hash r (refreshed r has_tx s i.refreshed_at) in
      (subst (All P) only (Emits-sent P _ (round-Emits P s s' (tick i) tt ran (λ b ad. ad)))).0
