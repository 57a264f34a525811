-- ===== src/Client/Queries/Community/Tests.antt =====
-- A community of three: the client knows one server, which knows another, which has the value.
use mathlib.Core.List.{
  mem-cons, mem-cons_self, mem-cons_of_mem, not-mem-nil, Mem-prop, Nodup-nil, Nodup-cons,
}
use mathlib.Core.Logic.Or
use dht_kad_rs.Base.{
  ℕ, ◌*◌, ◌≤◌, ◌<◌, ◌≡◌, ◌≢◌, ◌⊎◌, ◌∙◌, ap, refl, sym, subst, List, [], ◌∷◌, All, Mem, none, some,
  Option-cases, inl, inr, arith, length, done, Result, ◌==◌, list_eq, nat_eq, same_of_eq,
  Bool-cases,
}
use dht_kad_rs.Base.HashMap
use dht_kad_rs.Base.Text.{codes}
use dht_kad_rs.Base.Sort.{sort_by, insert}
use dht_kad_rs.Keyutil.{key_to_bytes, common_prefix_length, leading_zeros}
use dht_kad_rs.Kvstore
use dht_kad_rs.Kvstore.{Bytes, memory_store}
use dht_kad_rs.Kvstore.Laws.{view, memory_store-IsMap}
use dht_kad_rs.Messages.Tests.{sender, sender-CanSend}
use dht_kad_rs.Messages.Utf8.{is_utf8}
use dht_kad_rs.Messages.Util.{RpcError}
use dht_kad_rs.Messages.Validity.{CanSend, CanSend-prop}
use dht_kad_rs.RoutingTable.{
  k_nearest_peers, nearest_peers, last_index, bucket_at, ideal_index, surrounding, nearer,
}
use dht_kad_rs.RoutingTable.Peers.{Peer}
use dht_kad_rs.RoutingTable.First.{entered_by, entered_by-IsWellFormed}
use dht_kad_rs.Rpc.State.{DhtServer}
use dht_kad_rs.Transport.Tests.{Address, Servers, server, lossless, lossless-Delivers, address_dec}
use dht_kad_rs.Client.{DhtClient, lookup, sort_and_spawn, spawn, pop, answered}
use dht_kad_rs.Client.Tests.{peer_a, peer_b}
use dht_kad_rs.Client.Queries.{Search, begin, ended, spawned, Step, ends, Reach, here, next}
use dht_kad_rs.Client.Queries.Within.{IsResult}
use dht_kad_rs.Client.Queries.Ending.{starting, steps, lookup_terminates}
use dht_kad_rs.Client.Queries.Member.{IsMember}
use dht_kad_rs.Client.Queries.Community.{IsCommunity, IsCommunity-Answers, lookup_of_community}

abbrev pub everyone : List Peer
everyone = sender ∷ peer_a ∷ peer_b ∷ []

abbrev pub value : Bytes
value = 9 ∷ []

abbrev pub IsValue : Bytes → Type 0
IsValue v = v ≡ value

abbrev pub server_a : DhtServer memory_store
server_a = record { kvstore = Kvstore.new; routing_table = entered_by peer_b 2 peer_a }

abbrev pub server_b : DhtServer memory_store
server_b = record {
  kvstore = record { store = (key_to_bytes 3, value) ∷ [] };
  routing_table = entered_by sender 2 peer_b;
}

abbrev pub home : DhtServer memory_store
home = record { kvstore = Kvstore.new; routing_table = entered_by peer_a 2 sender }

abbrev pub world : Servers
world = (codes "a", server_a) ∷ (codes "b", server_b) ∷ (codes "0.0.0.0:1234", home) ∷ []

abbrev In : DhtServer memory_store → Type 0
In = IsMember view everyone IsValue (key_to_bytes 3)

-- A server with one peer in its table, and with the value or none.
one_peer-In :
    (p local : Peer) (kv : Kvstore.MemoryStore)
    → local.id < 2000
    → p.id < 2000
    → Mem p everyone
    → ((v : Bytes) → view kv (key_to_bytes 3) ≡ some v → IsValue v)
    → In (record { kvstore = kv; routing_table = entered_by p 2 local })
one_peer-In p local kv own key inside held = record {
  ready = record {
    well_formed =
        entered_by-IsWellFormed p 2 local (omega arith) (omega (arith, own)) (omega (arith, key));
    room = omega arith;
  };
  knows = λ q m.
      Or.elim Mem-prop (mem-cons.0 m) (λ z. subst (λ x. Mem x everyone) (sym z) inside)
        (λ never. absurd (not-mem-nil never));
  holds = held;
}

pub a_known : Mem peer_a everyone
a_known = mem-cons_of_mem sender mem-cons_self

b_known : Mem peer_b everyone
b_known = mem-cons_of_mem sender (mem-cons_of_mem peer_a mem-cons_self)

no-IsValue : (v : Bytes) → view Kvstore.new (key_to_bytes 3) ≡ some v → IsValue v
unfolding view HashMap.get Kvstore.new
no-IsValue v e = cc

All-In : All (λ (e : Address × DhtServer memory_store). In e.1) world
unfolding view HashMap.get Kvstore.new
All-In = (
  one_peer-In peer_b peer_a Kvstore.new (omega arith) (omega arith) b_known no-IsValue,
  (
    one_peer-In sender peer_b (record { store = (key_to_bytes 3, value) ∷ [] }) (omega arith)
        (omega arith) mem-cons_self
        (λ v e. cc (rw (same_of_eq (key_to_bytes 3) (key_to_bytes 3) refl) at e)),
    (one_peer-In peer_a sender Kvstore.new (omega arith) (omega arith) a_known no-IsValue, tt),
  ),
)

found-In :
    (w : Servers) (a : Address) (s : DhtServer memory_store)
    → All (λ (e : Address × DhtServer memory_store). In e.1) w
    → server w a ≡ some s
    → In s
unfolding HashMap.get
found-In [] a s all e = cc
found-In ((b, t) ∷ w) a s (first, rest) e = elim (Bool-cases (b == a)) [
  | inl hit ↦ let same : t ≡ s = cc (rw hit at e) in subst In same first
  | inr other ↦ found-In w a s rest (rw other at e)
]

-- What holds of the three holds of every one of the community.
of_everyone :
    (T : Peer → Type 0)
    → ((p : Peer) → IsProp (T p))
    → T sender
    → T peer_a
    → T peer_b
    → (p : Peer) → Mem p everyone
    → T p
of_everyone T prop one two three p m =
    Or.elim (prop p) (mem-cons.0 m) (λ z. subst T (sym z) one)
      (λ m1.
        Or.elim (prop p) (mem-cons.0 m1) (λ z. subst T (sym z) two)
          (λ m2.
            Or.elim (prop p) (mem-cons.0 m2) (λ z. subst T (sym z) three)
              (λ m3. absurd (not-mem-nil m3))))

everyone-CanSend : (p : Peer) → Mem p everyone → CanSend p
unfolding is_utf8
everyone-CanSend =
    of_everyone CanSend CanSend-prop sender-CanSend
      (record { key = omega arith; reachable = omega arith; text = refl })
      (record { key = omega arith; reachable = omega arith; text = refl })

read_whole : (t : List ℕ) → 0 < length t → (a : Address) × (lossless.parse t ≡ some a)
read_whole [] h = absurd (omega arith)
read_whole (c ∷ cs) h = (c ∷ cs, refl)

-- A server stands at the address of each.
abbrev Stands : Peer → Type 0
Stands p = (a : Address) → lossless.parse p.address ≡ some a → server world a ≢ none

stands_at :
    (a b : Address) (s : DhtServer memory_store)
    → server world a ≡ some s
    → some a ≡ some b
    → server world b ≢ none
stands_at a b s at e missing =
    let same : a ≡ b = cc in cc (sym at ∙ ap (server world) same ∙ missing)

everyone-Stands : (p : Peer) → Mem p everyone → Stands p
unfolding HashMap.get
everyone-Stands =
    of_everyone Stands (λ p. hlevel) (λ a e. stands_at _ a home refl e)
      (λ a e. stands_at _ a server_a refl e) (λ a e. stands_at _ a server_b refl e)

pub world-IsCommunity :
    IsCommunity lossless server lossless-Delivers memory_store-IsMap everyone IsValue 3 world
world-IsCommunity = record {
  can_send = everyone-CanSend;
  addressed = λ p m. read_whole p.address (everyone-CanSend p m).reachable;
  member = λ p a m read. elim (Option-cases (server world a)) [
    | inl missing ↦ absurd (everyone-Stands p m a read missing)
    | inr (s, at) ↦ (s, at, found-In world a s All-In at)
  ];
}

abbrev client : DhtClient memory_store
client = record {
  alpha = 2;
  myself = sender;
  kvstore = Kvstore.new;
  routing_table = entered_by peer_a 2 sender;
}

abbrev begun : Search lossless 2 3 sender
begun = begin lossless 2 3 sender (starting (peer_a ∷ [])) world

abbrev asked_one : Search lossless 2 3 sender
asked_one = ended lossless 2 3 sender begun 0 peer_a

reaches : Reach lossless 2 3 sender begun asked_one
unfolding begin lookup sort_and_spawn spawn pop spawned sort_by insert
reaches = next here (ends 0 peer_a refl)

lookup_terminates_example :
    (steps lossless 2 3 sender reaches ≤ 2 * length everyone)
    × (((v : Result Bytes RpcError) × (asked_one.function ≡ done (answered v)) × IsResult IsValue v)
        ⊎ ((τ : Search lossless 2 3 sender) × Step lossless 2 3 sender asked_one τ))
lookup_terminates_example =
    lookup_terminates lossless 2 3 sender everyone IsValue
      (IsCommunity lossless server lossless-Delivers memory_store-IsMap everyone IsValue 3)
      (peer_a ∷ []) world
      (IsCommunity-Answers lossless server lossless-Delivers memory_store-IsMap address_dec everyone
        IsValue 3 sender 2 world (omega arith) mem-cons_self world-IsCommunity)
      (omega arith) (Nodup-cons.1 (not-mem-nil, Nodup-nil))
      (λ p m.
        Or.elim Mem-prop (mem-cons.0 m) (λ z. subst (λ x. Mem x everyone) (sym z) a_known)
          (λ never. absurd (not-mem-nil never)))
      world-IsCommunity reaches

near_three : k_nearest_peers client.routing_table 3 ≡ done (peer_a ∷ [])
unfolding k_nearest_peers nearest_peers last_index bucket_at ideal_index surrounding nearer sort_by
    insert common_prefix_length leading_zeros
near_three = refl

lookup_of_community_example :
    (steps lossless 2 3 sender reaches ≤ 2 * length everyone)
    × (((v : Result Bytes RpcError) × (asked_one.function ≡ done (answered v)) × IsResult IsValue v)
        ⊎ ((τ : Search lossless 2 3 sender) × Step lossless 2 3 sender asked_one τ))
lookup_of_community_example =
    lookup_of_community lossless server lossless-Delivers memory_store-IsMap client 3 everyone
      (peer_a ∷ []) IsValue world address_dec world-IsCommunity (omega arith) (omega arith)
      (entered_by-IsWellFormed peer_a 2 sender (omega arith) (omega arith) (omega arith))
      (one_peer-In peer_a sender Kvstore.new (omega arith) (omega arith) a_known no-IsValue).knows
      mem-cons_self near_three reaches
