-- ===== src/Testbed/Arguments.antt =====
-- What the bootstrap arguments have to be.
use dht_kad_rs.Base
use dht_kad_rs.Base.{
  ℕ, suc, ◌+◌, ◌≡◌, refl, sym, ap, subst, ◌∙◌, List, [], ◌∷◌, some, eqb, length, get_elem?, done,
  unwrap, unwrap-returns, bind-returns, arith, Bool-cases, inl, inr, ◌⊎◌, Option, none, Outcome,
  panicked,
}
use dht_kad_rs.Messages.{Protobuf}
use dht_kad_rs.RoutingTable.Peers.{Peer}
use dht_kad_rs.Transport.{Network}
use dht_kad_rs.Testbed.{Text, Parsers, first, resolve, bootstrap_peer, collect, bootstrap_peers}

module _ {P : Protobuf} (net : Network P) (parsers : Parsers net.SocketAddr) where
  -- The texts of an address and of an identifier say the peer `p`.
  pub record Says (a i : Text) (p : Peer) : Type 0 where
    pub found : List net.SocketAddr
    pub socket : net.SocketAddr
    pub resolves : parsers.to_socket_addrs a ≡ some found
    pub chosen : first found ≡ some socket
    pub reads : parsers.parse_u128 i ≡ some p.id
    pub writes : p.address ≡ net.to_string socket

  -- The addresses and the identifiers, pair by pair, say the peers.
  pub data SayAll : List Text → List Text → List Peer → Type 0 where
    none_left : SayAll [] [] []
    one_more :
        {a i : Text} {p : Peer} {texts ids : List Text} {ps : List Peer}
        → Says a i p
        → SayAll texts ids ps
        → SayAll (a ∷ texts) (i ∷ ids) (p ∷ ps)

  -- The rest `ids` of the identifiers starts at the position `n`.
  abbrev StartsAt : List Text → ℕ → List Text → Type 0
  StartsAt id_list n ids = (j : ℕ) → get_elem? id_list (n + j) ≡ get_elem? ids j

  from_start : (id_list : List Text) → StartsAt id_list 0 id_list
  from_start id_list j = let same : 0 + j ≡ j = omega arith in ap (get_elem? id_list) same

  starts_later :
      (id_list ids : List Text) (n : ℕ) (i : Text)
      → StartsAt id_list n (i ∷ ids)
      → StartsAt id_list (n + 1) ids
  starts_later id_list ids n i at j =
      let same : n + 1 + j ≡ n + suc j = omega arith in ap (get_elem? id_list) same ∙ at (suc j)

  first_of :
      (id_list ids : List Text) (n : ℕ) (i : Text)
      → StartsAt id_list n (i ∷ ids)
      → get_elem? id_list n ≡ some i
  first_of id_list ids n i at =
      let same : n ≡ n + 0 = omega arith in ap (get_elem? id_list) same ∙ at 0

  said :
      (id_list : List Text) (n : ℕ) (a i : Text) (p : Peer)
      → get_elem? id_list n ≡ some i
      → Says a i p
      → bootstrap_peer net parsers id_list n a ≡ done p
  unfolding bootstrap_peer resolve
  said id_list n a i p at s = rw (at, s.reads, s.resolves, s.chosen, sym s.writes)

  says :
      (id_list : List Text) (n : ℕ) (a i : Text) (p : Peer)
      → get_elem? id_list n ≡ some i
      → bootstrap_peer net parsers id_list n a ≡ done p
      → Says a i p
  unfolding bootstrap_peer resolve
  says id_list n a i p at e =
      let (i', e1, f1) = bind-returns (unwrap (get_elem? id_list n)) e in
      let (id, e2, f2) = bind-returns (unwrap (parsers.parse_u128 i')) f1 in
      let (s, e3, f3) = bind-returns (resolve net parsers a) f2 in
      let (ss, e4, f4) = bind-returns (unwrap (parsers.to_socket_addrs a)) e3 in
      let same : i' ≡ i = cc (unwrap-returns _ e1) in
      let whole : record { id = id; address = net.to_string s } ≡ p = cc in
      record {
        found = ss;
        socket = s;
        resolves = unwrap-returns _ e4;
        chosen = unwrap-returns _ f4;
        reads =
            ap parsers.parse_u128 (sym same)
            ∙ unwrap-returns _ e2
            ∙ ap (λ (q : Peer). some q.id) whole;
        writes = sym (ap (λ (q : Peer). q.address) whole);
      }

  collect_says :
      (id_list texts ids : List Text) (ps : List Peer) (n : ℕ)
      → StartsAt id_list n ids
      → SayAll texts ids ps
      → collect net parsers id_list n texts ≡ done ps
  unfolding collect
  collect_says id_list [] [] [] n at none_left = refl
  collect_says id_list [] [] (p ∷ ps) n at s = elim s [ ]
  collect_says id_list [] (i ∷ ids) ps n at s = elim s [ ]
  collect_says id_list (a ∷ texts) [] ps n at s = elim s [ ]
  collect_says id_list (a ∷ texts) (i ∷ ids) [] n at s = elim s [ ]
  collect_says id_list (a ∷ texts) (i ∷ ids) (p ∷ ps) n at (one_more s ss) =
      let here = said id_list n a i p (first_of id_list ids n i at) s in
      let later = collect_says id_list texts ids ps (n + 1) (starts_later id_list ids n i at) ss in
      rw (here, later)

  says_collect :
      (id_list texts ids : List Text) (ps : List Peer) (n : ℕ)
      → length texts ≡ length ids
      → StartsAt id_list n ids
      → collect net parsers id_list n texts ≡ done ps
      → SayAll texts ids ps
  unfolding collect
  says_collect id_list [] [] ps n same at e =
      let none : [] ≡ ps = cc in subst (SayAll [] []) none none_left
  says_collect id_list [] (i ∷ ids) ps n same at e = absurd (omega (arith, same))
  says_collect id_list (a ∷ texts) [] ps n same at e = absurd (omega (arith, same))
  says_collect id_list (a ∷ texts) (i ∷ ids) ps n same at e =
      let (p, e1, f1) = bind-returns (bootstrap_peer net parsers id_list n a) e in
      let (ps', e2, f2) = bind-returns (collect net parsers id_list (n + 1) texts) f1 in
      let whole : p ∷ ps' ≡ ps = cc in
      let s = says id_list n a i p (first_of id_list ids n i at) e1 in
      let ss =
        says_collect id_list texts ids ps' (n + 1) (omega (arith, same))
          (starts_later id_list ids n i at) e2 in
      subst (SayAll (a ∷ texts) (i ∷ ids)) whole (one_more s ss)

  even_SayAll :
      (texts ids : List Text) (ps : List Peer) → SayAll texts ids ps → length texts ≡ length ids
  even_SayAll texts ids ps none_left = refl
  even_SayAll texts ids ps (one_more s ss) = ap suc (even_SayAll _ _ _ ss)

  -- A chain that does not run on fuel returns or panics.
  abbrev Ends : {A : Type 0} → Outcome A → Type 0
  Ends {A} o = ((a : A) × (o ≡ done a)) ⊎ (o ≡ panicked)

  bind-Ends :
      {A B : Type 0} (o : Outcome A) (f : A → Outcome B)
      → Ends o
      → ((a : A) → Ends (f a))
      → Ends (Base.◌>>=◌ o f)
  bind-Ends o f (inl (a, e)) ends = rw e (ends a)
  bind-Ends o f (inr e) ends = rw e (inr refl)

  unwrap-Ends : {A : Type 0} (o : Option A) → Ends (unwrap o)
  unwrap-Ends none = inr refl
  unwrap-Ends (some a) = inl (a, refl)

  bootstrap_peer-Ends :
      (id_list : List Text) (n : ℕ) (a : Text) → Ends (bootstrap_peer net parsers id_list n a)
  unfolding bootstrap_peer resolve
  bootstrap_peer-Ends id_list n a = bind-Ends (unwrap (get_elem? id_list n)) _ (unwrap-Ends _) (λ i.
      bind-Ends (unwrap (parsers.parse_u128 i)) _ (unwrap-Ends _) (λ id.
        bind-Ends (resolve net parsers a) _
          (bind-Ends (unwrap (parsers.to_socket_addrs a)) _ (unwrap-Ends _)
            (λ found. unwrap-Ends (first found)))
          (λ s. inl (_, refl))))

  collect-Ends :
      (id_list : List Text) (n : ℕ) (texts : List Text) → Ends (collect net parsers id_list n texts)
  unfolding collect
  collect-Ends id_list n [] = inl ([], refl)
  collect-Ends id_list n (a ∷ texts) =
      bind-Ends (bootstrap_peer net parsers id_list n a) _ (bootstrap_peer-Ends id_list n a) (λ p.
        bind-Ends (collect net parsers id_list (n + 1) texts) _ (collect-Ends id_list (n + 1) texts)
          (λ ps. inl (_, refl)))

  bootstrap_peers-Ends : (texts ids : List Text) → Ends (bootstrap_peers net parsers texts ids)
  unfolding bootstrap_peers
  bootstrap_peers-Ends texts ids = elim (Bool-cases (eqb (length texts) (length ids))) [
    | inl same ↦ rw same (collect-Ends ids 0 texts)
    | inr other ↦ rw other (inr refl)
  ]

  bootstrap_peers_iff :
      (texts ids : List Text) (ps : List Peer)
      → (SayAll texts ids ps → bootstrap_peers net parsers texts ids ≡ done ps)
        × (bootstrap_peers net parsers texts ids ≡ done ps → SayAll texts ids ps)
  unfolding bootstrap_peers
  bootstrap_peers_iff texts ids ps = elim (Bool-cases (eqb (length texts) (length ids))) [
    | inl same ↦
        let even : length texts ≡ length ids = ground (arith, same) in
        (
          λ s. rw same (collect_says ids texts ids ps 0 (from_start ids) s),
          λ e. says_collect ids texts ids ps 0 even (from_start ids) (rw same at e),
        )
    | inr other ↦ (
      λ s. absurd (ground (arith, other, even_SayAll texts ids ps s)),
      λ e. absurd (cc (rw other at e)),
    )
  ]

  -- The bootstrap arguments say peers if there are as many addresses as identifiers, and pair by pair the
  -- address resolves, the first address found being that of the peer, and the identifier reads as that of
  -- the peer. Either they say peers, which are then what `bootstrap_peers` returns, and they say no other
  -- ones; or they say no peers, and it panics.
  pub bootstrap_peers_lem :
      (texts ids : List Text)
      → ((ps : List Peer) × (bootstrap_peers net parsers texts ids ≡ done ps)
          × SayAll texts ids ps
          × ((qs : List Peer) → SayAll texts ids qs → qs ≡ ps))
        ⊎ ((bootstrap_peers net parsers texts ids ≡ panicked)
            × ((qs : List Peer) → ¬ SayAll texts ids qs))
  bootstrap_peers_lem texts ids = elim (bootstrap_peers-Ends texts ids) [
    | inl (ps, e) ↦ inl (
      ps,
      e,
      (bootstrap_peers_iff texts ids ps).1 e,
      λ qs s. let f = (bootstrap_peers_iff texts ids qs).0 s in cc,
    )
    | inr e ↦ inr (e, λ qs s. let f = (bootstrap_peers_iff texts ids qs).0 s in cc)
  ]
