-- ===== src/Client/Spared.antt =====
-- What the calls of a client leave as it was: servers that are up stay up, and values stay where they are.
use mathlib.Core.List.{mem-cons, mem-cons_self, not-mem-nil}
use mathlib.Core.HLevel.{⊥_prop}
use mathlib.Core.Logic.Or
use dht_kad_rs.Base.{
  ◌⊎◌, ◌≡◌, ◌≢◌, refl, sym, ap, subst, ◌∙◌, List, [], ◌∷◌, map, Mem, Option, some, list_eq, nat_eq,
  ◌==◌, if◌then◌else◌, eq_of_same, Bool-cases, inl, inr, All, All-imp, ok,
}
use dht_kad_rs.Kvstore.{Bytes, KvStore}
use dht_kad_rs.Kvstore.Laws.{IsMap}
use dht_kad_rs.Messages.{Protobuf, Message}
use dht_kad_rs.Messages.Util.{create_find_value_response}
use dht_kad_rs.RoutingTable.Peers.{Peer}
use dht_kad_rs.Rpc.State.{DhtServer}
use dht_kad_rs.Rpc.Sender.{IsReady, SentBy}
use dht_kad_rs.Transport.{Network, join_all, find_value}
use dht_kad_rs.Transport.Delivered.{Delivers}
use dht_kad_rs.Client.Replicated.{IsUp, Holds, Took, find_value_held}

module _ {K : KvStore} {P : Protobuf} (net : Network P)
    (server : net.World → net.SocketAddr → Option (DhtServer K)) (d : Delivers net server)
    {view : K.Store → Bytes → Option Bytes} (map_law : IsMap K view) where
  abbrev Up : net.World → net.SocketAddr → Type 0
  Up = IsUp net server d map_law

  abbrev Has : Bytes → Bytes → net.World → net.SocketAddr → Type 0
  Has = Holds net server d map_law

  -- From `w` to `w'` every server that is up stays up, and keeps its values for the keys in `Q`.
  pub record Spares (Q : Bytes → Type 0) (w w' : net.World) : Type 0 where
    pub stays_up : (b : net.SocketAddr) → Up w b → Up w' b
    pub keeps : (b : net.SocketAddr) (j u : Bytes) → Q j → Has j u w b → Has j u w' b

  pub Spares-refl : {Q : Bytes → Type 0} (w : net.World) → Spares Q w w
  Spares-refl w = record { stays_up = λ b up. up; keeps = λ b j u q h. h }

  pub Spares-trans :
      {Q : Bytes → Type 0} {w w' w'' : net.World} → Spares Q w w' → Spares Q w' w'' → Spares Q w w''
  Spares-trans s t = record {
    stays_up = λ b up. t.stays_up b (s.stays_up b up);
    keeps = λ b j u q h. t.keeps b j u q (s.keeps b j u q h);
  }

  -- A server at `a` that turned into another one in good order, with the values for the keys in `Q`.
  abbrev Turned : (Bytes → Type 0) → net.World → net.World → net.SocketAddr → Type 0
  Turned Q w w' a =
      (s s' : DhtServer K) × (server w a ≡ some s)
      × (server w' a ≡ some s')
      × IsReady s'
      × ((j : Bytes) → Q j → view s'.kvstore j ≡ view s.kvstore j)

  module _ (dec : (a b : net.SocketAddr) → Dec (a ≡ b)) (Q : Bytes → Type 0) where
    some_same : {A : Type 0} {a b : A} → some a ≡ some b → a ≡ b
    some_same e = cc

    Turned-keeps :
        (w w' : net.World) (a : net.SocketAddr) (j u : Bytes)
        → Turned Q w w' a
        → Q j
        → Has j u w a
        → Has j u w' a
    Turned-keeps w w' a j u (s, s', was, now, ready, same) q (t, at, _, has) =
        let one : s ≡ t = some_same (sym was ∙ at) in
        (s', now, ready, same j q ∙ ap (λ (x : DhtServer K). view x.kvstore j) one ∙ has)

    -- Servers at some addresses turn, and no other one changes.
    pub Turned-Spares :
        (w w' : net.World) (addrs : List net.SocketAddr)
        → All (Turned Q w w') addrs
        → ((b : net.SocketAddr) → ¬ Mem b addrs → server w' b ≡ server w b)
        → Spares Q w w'
    Turned-Spares w w' addrs turned same = record {
      stays_up = λ b (s, at, ready). elim (found b addrs turned) [
        | inl (_, s', _, now, ready', _) ↦ (s', now, ready')
        | inr out ↦ (s, same b out ∙ at, ready)
      ];
      keeps = λ b j u q h. elim (found b addrs turned) [
        | inl t ↦ Turned-keeps w w' b j u t q h
        | inr out ↦ let (s, at, ready, has) = h in (s, same b out ∙ at, ready, has)
      ];
    }
      where
        found :
            (b : net.SocketAddr) (as' : List net.SocketAddr)
            → All (Turned Q w w') as'
            → Turned Q w w' b ⊎ ¬ Mem b as'
        found b [] tt = inr not-mem-nil
        found b (a ∷ rest) (t, ts) = elim (dec b a) [
          | yes same_place ↦ inl (subst (Turned Q w w') (sym same_place) t)
          | no apart ↦ elim (found b rest ts) [
            | inl there ↦ inl there
            | inr out ↦ inr (λ m. Or.elim ⊥_prop (mem-cons.0 m) apart out)
          ]
        ]

  -- What a store leaves: the values for every other key.
  pub Took-Spares :
      (dec : (a b : net.SocketAddr) → Dec (a ≡ b)) (key v : Bytes) (w w' : net.World)
      (addrs : List net.SocketAddr)
      → All (Took net server d map_law key v w w') addrs
      → ((b : net.SocketAddr) → ¬ Mem b addrs → server w' b ≡ server w b)
      → Spares (λ j. key ≢ j) w w'
  Took-Spares dec key v w w' addrs took same =
      Turned-Spares dec (λ j. key ≢ j) w w' addrs
        (All-imp addrs
          (λ a _ (s, s', was, now, ready, holds).
            (s, s', was, now, ready, λ j apart. holds j ∙ other s j apart))
          took)
        same
    where
      other :
          (s : DhtServer K) (j : Bytes)
          → key ≢ j
          → (if key == j then some v else view s.kvstore j) ≡ view s.kvstore j
      other s j apart = elim (Bool-cases (key == j)) [
        | inl one ↦ absurd (apart (eq_of_same key j one))
        | inr two ↦ rw two
      ]

  module _ (dec : (a b : net.SocketAddr) → Dec (a ≡ b)) (m : Message P) (p : Peer)
      (from : SentBy m p) where
    -- Servers that hold a value for the key of a request answer it by that value, and no value changes.
    pub join_all_finds :
        (v : Bytes) (addrs : List net.SocketAddr) (w : net.World)
        → All (Has m.key v w) addrs
        → (w' : net.World) × (join_all net (λ a. find_value net a m) addrs w
            ≡ (w', map (λ _. ok (create_find_value_response P m.key v)) addrs))
          × Spares (λ j. Unit {0}) w w'
    unfolding join_all
    join_all_finds v [] w tt = (w, refl, Spares-refl w)
    join_all_finds v (a ∷ addrs) w (here, there) =
        let (w1, e1, (s, s', was, now, ready, kv), same) =
          find_value_held net server d map_law m p from v w a here in
        let turned : Turned (λ j. Unit {0}) w w1 a =
          (s, s', was, now, ready, λ j q. ap (λ (k : K.Store). view k j) kv) in
        let first =
          Turned-Spares dec (λ j. Unit {0}) w w1 (a ∷ []) (turned, tt)
            (λ b out. same b (λ z. out (subst (λ x. Mem x (a ∷ [])) (sym z) mem-cons_self))) in
        let there' = All-imp addrs (λ b _ h. first.keeps b m.key v tt h) there in
        let (w2, e2, rest) = join_all_finds v addrs w1 there' in
        (w2, rw (e1, e2), Spares-trans first rest)
