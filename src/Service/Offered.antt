-- ===== src/Service/Offered.antt =====
-- What the table holds after `bootstrap`.
use mathlib.Core.List.{mem-cons, mem-cons_self, mem-cons_of_mem, not-mem-nil, Mem-prop}
use mathlib.Core.Logic.Or
use mathlib.Core.Logic.{∨₁_prop}
use dht_kad_rs.Base.{
  ◌+◌, ◌⊎◌, inl, inr, length, ◌<◌, ◌≡◌, refl, sym, subst, ◌∙◌, List, [], ◌∷◌, Mem, done, arith,
  ◌∨₁◌,
}
use dht_kad_rs.Keyutil.{IsKey}
use dht_kad_rs.Messages.{Protobuf}
use dht_kad_rs.RoutingTable.{RoutingTable}
use dht_kad_rs.RoutingTable.Peers.{Peer}
use dht_kad_rs.RoutingTable.Members.{members}
use dht_kad_rs.RoutingTable.Invariant.{IsWellFormed}
use dht_kad_rs.RoutingTable.Inserted.{
  Reply, Inserted, Kept, members-Inserted, Inserted-there, length-Inserted,
}
use dht_kad_rs.RoutingTable.Update.{update_lem}
use dht_kad_rs.Transport.{Network}
use dht_kad_rs.Service.{update_all, await_first, alive_peers, bootstrap}

abbrev pub AllKeys : List Peer → Type 0
AllKeys [] = Unit {0}
AllKeys (p ∷ ps) = IsKey p.id × AllKeys ps

-- Every identifier is a `u128`.
abbrev pub Keyed : List Peer → Type 0
Keyed ps = (q : Peer) → Mem q ps → IsKey q.id

pub Keyed-AllKeys : (ps : List Peer) → Keyed ps → AllKeys ps
Keyed-AllKeys [] keyed = tt
Keyed-AllKeys (p ∷ ps) keyed =
    (keyed p mem-cons_self, Keyed-AllKeys ps (λ q m. keyed q (mem-cons_of_mem p m)))

-- Each of the peers in turn is offered to the table: it is inserted, as `Inserted` says.
pub data EachOffered : RoutingTable → List Peer → RoutingTable → Type 0 where
  nobody : {rt : RoutingTable} → EachOffered rt [] rt
  offered :
      {rt rt' : RoutingTable} {p : Peer} {ps : List Peer} (r : Reply)
      → Inserted rt p r
      → EachOffered r.0 ps rt'
      → EachOffered rt (p ∷ ps) rt'

-- The table `rt'` comes from `rt` by offers of the peers `ps`, one after the other. If `k` peers are no
-- fewer than those of `rt` and of `ps` together, all of `ps` are in it.
pub record Offers (rt : RoutingTable) (ps : List Peer) (rt' : RoutingTable) : Type 0 where
  pub same_k : rt'.k ≡ rt.k
  pub same_local : rt'.local ≡ rt.local
  pub well_formed : IsWellFormed rt'
  pub each : EachOffered rt ps rt'
  pub entered :
      (rt.k < length (members rt) + length ps) ⊎ ((q : Peer) → Mem q ps → Mem q (members rt'))
  pub keeps : (q : Peer) → Mem q (members rt) → Mem q (members rt')
  pub takes : (q : Peer) → Mem q (members rt') → Mem q ps ∨₁ Mem q (members rt)

-- With the first of the peers.
entered_first :
    {rt rt' : RoutingTable} {p : Peer} {ps : List Peer} {r : Reply}
    → Inserted rt p r
    → Kept rt r
    → Offers r.0 ps rt'
    → (rt.k < length (members rt) + length (p ∷ ps))
      ⊎ ((q : Peer) → Mem q (p ∷ ps) → Mem q (members rt'))
entered_first {rt' = rt'} inserted kept o = elim o.entered [
  | inl crowded ↦ inl (omega (arith, crowded, kept.same_k, length-Inserted inserted))
  | inr later ↦ elim (Inserted-there inserted) [
    | inl full ↦ inl (omega (arith, full))
    | inr here ↦ inr (λ q m.
        Or.elim Mem-prop (mem-cons.0 m)
          (λ z. subst (λ x. Mem x (members rt')) (sym z) (o.keeps _ here)) (later q))
  ]
]

pub update_all_lem :
    (rt : RoutingTable) (ps : List Peer)
    → IsWellFormed rt
    → 0 < rt.k
    → AllKeys ps
    → (rt' : RoutingTable) × (update_all rt ps ≡ done rt') × Offers rt ps rt'
unfolding update_all
update_all_lem rt [] w pos keys = (
  rt,
  refl,
  record {
    same_k = refl;
    same_local = refl;
    well_formed = w;
    each = nobody;
    entered = inr (λ q m. absurd (not-mem-nil m));
    keeps = λ q m. m;
    takes = λ q m. Or.inr m;
  },
)
update_all_lem rt (p ∷ ps) w pos (key, keys) =
    let (r, e, kept, inserted) = update_lem rt p w pos key in
    let (old, new) = members-Inserted inserted in
    let (rt', f, o) = update_all_lem r.0 ps kept.well_formed (omega (arith, kept.same_k)) keys in
    (
      rt',
      rw (e, f),
      record {
        same_k = o.same_k ∙ kept.same_k;
        same_local = o.same_local ∙ kept.same_local;
        well_formed = o.well_formed;
        each = offered r inserted o.each;
        entered = entered_first inserted kept o;
        keeps = λ q m. o.keeps q (old q m);
        takes = λ q m.
            Or.elim ∨₁_prop (o.takes q m) (λ here. Or.inl (mem-cons_of_mem p here))
              (λ there.
                Or.elim ∨₁_prop (mem-cons.0 (new q there))
                  (λ z. Or.inl (subst (λ x. Mem x (p ∷ ps)) (sym z) mem-cons_self))
                  (λ m'. Or.inr m'));
      },
    )

-- From a well-formed table with `k` above zero, once the wait for a first connection is over, and with
-- calls that end with the live peers `ps`, all with a `u128`, `bootstrap` returns a well-formed table with
-- the same `k` and local peer, to which each of `ps` was offered.
pub bootstrap_lem :
    {P : Protobuf} (net : Network P) (polled : List RoutingTable) (rt : RoutingTable)
    (bootstrap_peers ps : List Peer) (w w' : net.World)
    → IsWellFormed rt
    → 0 < rt.k
    → await_first rt.local.id polled bootstrap_peers ≡ done tt
    → alive_peers net rt.local bootstrap_peers w ≡ (w', done ps)
    → AllKeys ps
    → (rt' : RoutingTable) × (bootstrap net rt.local polled rt bootstrap_peers w ≡ (w', done rt'))
      × Offers rt ps rt'
unfolding bootstrap
bootstrap_lem net polled rt bootstrap_peers ps w w' wf pos over live keys =
    let (rt', e, o) = update_all_lem rt ps wf pos keys in (rt', rw (over, live, e), o)
