-- ===== src/Client/Queries/Community.antt =====
-- A lookup over a network of servers that know each other alone.
pub mod Tests
use dht_kad_rs.Base.{
  ℕ, ◌*◌, ◌≤◌, ◌<◌, ◌≡◌, ◌≢◌, ◌⊎◌, ◌∙◌, refl, sym, ap, subst, List, Mem, Nodup, length, Option,
  some, done, ok, Result,
}
use dht_kad_rs.Keyutil.{IsKey, key_to_bytes}
use dht_kad_rs.Kvstore.{Bytes, KvStore}
use dht_kad_rs.Kvstore.Laws.{IsMap}
use dht_kad_rs.Messages.{Protobuf, Message}
use dht_kad_rs.Messages.Util.{RpcError, create_find_value_request}
use dht_kad_rs.Messages.Validity.{CanSend}
use dht_kad_rs.RoutingTable.{k_nearest_peers}
use dht_kad_rs.RoutingTable.Members.{members}
use dht_kad_rs.RoutingTable.Invariant.{IsWellFormed}
use dht_kad_rs.RoutingTable.Nearest.{nearest_peers-Answers}
use dht_kad_rs.RoutingTable.Peers.{Peer}
use dht_kad_rs.Rpc.{Method, serve}
use dht_kad_rs.Rpc.State.{DhtServer}
use dht_kad_rs.Transport.{Network, remote, find_value}
use dht_kad_rs.Transport.Delivered.{Delivers, remote_delivered}
use dht_kad_rs.Client.{DhtClient, answered}
use dht_kad_rs.Client.Queries.{Search, begin, Step, Reach}
use dht_kad_rs.Client.Queries.Within.{Names, IsResult}
use dht_kad_rs.Client.Queries.Ending.{Answers, starting, steps, lookup_terminates}
use dht_kad_rs.Client.Queries.Member.{IsMember, Replies, Member-find_value}

module _ {K : KvStore} {P : Protobuf} (net : Network P)
    (server : net.World → net.SocketAddr → Option (DhtServer K)) (d : Delivers net server)
    {view : K.Store → Bytes → Option Bytes} (map_law : IsMap K view) where
  -- Every one of `all_peers` can send and has an address that reads, at which a server stands that is a
  -- member of the community: it is in good order, it knows peers among `all_peers` alone, and its value
  -- for the key, if it has one, is `Held`.
  pub record IsCommunity (all_peers : List Peer) (Held : Bytes → Type 0) (key : ℕ) (w : net.World)
      : Type 0 where
    pub can_send : (p : Peer) → Mem p all_peers → CanSend p
    pub addressed :
        (p : Peer) → Mem p all_peers → (a : net.SocketAddr) × (net.parse p.address ≡ some a)
    pub member :
        (p : Peer) (a : net.SocketAddr)
        → Mem p all_peers
        → net.parse p.address ≡ some a
        → (s : DhtServer K) × (server w a ≡ some s)
          × IsMember view all_peers Held (key_to_bytes key) s

  module _ (dec : (a b : net.SocketAddr) → Dec (a ≡ b)) (all_peers : List Peer)
      (Held : Bytes → Type 0) (key : ℕ) (myself : Peer) where
    -- A call that every member answers leaves the community as it is.
    pub remote_one :
        (c : Method) (m : Message P)
        → ((s : DhtServer K)
            → IsMember view all_peers Held (key_to_bytes key) s
            → Replies P map_law all_peers Held key myself c m s)
        → (p : Peer) (a : net.SocketAddr) (w : net.World) → Mem p all_peers
        → net.parse p.address ≡ some a
        → IsCommunity all_peers Held key w
        → (w' : net.World) × (r : Message P) × (remote net c a m w ≡ (w', ok r))
          × IsCommunity all_peers Held key w'
          × Names all_peers Held (ok r)
    remote_one c m replies p a w there read h =
        let (s, at, is_member) = h.member p a there read in
        let (s', r, e, still, names) = replies s is_member in
        let (w', sent, now, same) = remote_delivered d w a c m s s' r at e in
        (
          w',
          r,
          sent,
          record {
            can_send = h.can_send;
            addressed = h.addressed;
            member = λ q b mq read'. elim (dec b a) [
              | yes z ↦ (s', ap (server w') z ∙ now, still)
              | no apart ↦
                  let (t, was, ok_t) = h.member q b mq read' in (t, same b apart ∙ was, ok_t)
            ];
          },
          names,
        )

    asks_one :
        (p : Peer) (a : net.SocketAddr) (w : net.World)
        → IsKey key
        → Mem myself all_peers
        → Mem p all_peers
        → net.parse p.address ≡ some a
        → IsCommunity all_peers Held key w
        → IsCommunity all_peers Held key
            (find_value net a (create_find_value_request P key myself) w).0
          × Names all_peers Held (find_value net a (create_find_value_request P key myself) w).1
    unfolding find_value
    asks_one p a w is_key here there read h =
        let m = create_find_value_request P key myself in
        let (w', r, sent, still, names) =
          remote_one Method.find_value m
            (λ s is_member.
              Member-find_value P map_law all_peers Held key myself s is_key here h.can_send
                is_member)
            p a w there read h in
        rw sent (still, names)

    -- A lookup in a community.
    pub IsCommunity-Answers :
        (alpha : ℕ) (w : net.World)
        → IsKey key
        → Mem myself all_peers
        → IsCommunity all_peers Held key w
        → Answers net alpha key myself all_peers Held (IsCommunity all_peers Held key)
    IsCommunity-Answers alpha w is_key here h = record {
      addressed = h.addressed;
      answers = λ p a w' there read h'. asks_one p a w' is_key here there read h';
    }

  -- A client of a community, with `alpha` above zero and a well-formed table that holds peers of the
  -- community alone, has the nearest peers `candidates` for a key, and looks the key up. In every run of
  -- the lookup, whatever the order in which its tasks end, there are at most two steps for each peer of
  -- the community, and the run can go on until it has come to a result: a value that is `Held`, or
  -- `NOT_FOUND`.
  pub lookup_of_community :
      (c : DhtClient K) (key : ℕ) (all_peers candidates : List Peer) (Held : Bytes → Type 0)
      (w : net.World) {σ : Search net c.alpha key c.myself}
      → ((a b : net.SocketAddr) → Dec (a ≡ b))
      → IsCommunity all_peers Held key w
      → IsKey key
      → 0 < c.alpha
      → IsWellFormed c.routing_table
      → ((p : Peer) → Mem p (members c.routing_table) → Mem p all_peers)
      → Mem c.myself all_peers
      → k_nearest_peers c.routing_table key ≡ done candidates
      → (r : Reach net c.alpha key c.myself
          (begin net c.alpha key c.myself (starting candidates) w)
          σ)
      → (steps net c.alpha key c.myself r ≤ 2 * length all_peers)
        × (((v : Result Bytes RpcError) × (σ.function ≡ done (answered v)) × IsResult Held v)
            ⊎ ((τ : Search net c.alpha key c.myself) × Step net c.alpha key c.myself σ τ))
  unfolding k_nearest_peers
  lookup_of_community c key all_peers candidates Held w dec h is_key pos wf inside here near r =
      let (ps, e, found) = nearest_peers-Answers c.routing_table key c.routing_table.k wf in
      let same : ps ≡ candidates = cc in
      lookup_terminates net c.alpha key c.myself all_peers Held (IsCommunity all_peers Held key)
        candidates w (IsCommunity-Answers dec all_peers Held key c.myself c.alpha w is_key here h)
        pos (subst Nodup same found.distinct)
        (λ p m. inside p (found.from_table p (subst (Mem p) (sym same) m))) h r
