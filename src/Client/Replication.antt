-- ===== src/Client/Replication.antt =====
-- What `store` reports: success if one of the peers it asked stored the value, and otherwise the error
-- of the last one.
use mathlib.Core.List.{mem-cons_self, mem-cons_of_mem, mem-cons, not-mem-nil}
use mathlib.Core.Logic.Or
use mathlib.Core.HLevel.{⊥_prop}
use dht_kad_rs.Base.{
  true, false, Result-cases, bind-returns, ℕ, suc, ◌+◌, ◌<◌, ◌≡◌, ◌≢◌, refl, ap, ◌∙◌, List, [], ◌∷◌,
  ◌++◌, Mem, eqb, if◌then◌else◌, length, done, Result, ok, err, arith, subst, sym, inl, inr, unwrap,
}
use dht_kad_rs.Kvstore.{Bytes, KvStore}
use dht_kad_rs.Messages.{Protobuf, Message}
use dht_kad_rs.Messages.Util.{IoError, RpcError, validate_store_result, create_store_request}
use dht_kad_rs.RoutingTable.{k_nearest_peers}
use dht_kad_rs.RoutingTable.Peers.{Peer}
use dht_kad_rs.Transport.{Network, Async, addresses, join_all, store_value}
use dht_kad_rs.Client.{DhtClient}
use dht_kad_rs.Client.Store.{no_error, tally, store_at, store}

abbrev Reply : Protobuf → Type 0
Reply P = Result (Message P) IoError

-- `r` reports that the value was stored.
abbrev Accepts : {P : Protobuf} → Result (Message P) IoError → Type 0
Accepts r = validate_store_result r ≡ ok tt

-- What the replies of the peers amount to.
pub data Stored {P : Protobuf} (rs : List (Result (Message P) IoError))
    : Result (Unit {0}) RpcError → Type 0 where
  accepted :
      {r : Result (Message P) IoError}
      → Mem r rs
      → validate_store_result r ≡ ok tt
      → Stored rs (ok tt)
  nobody_asked : rs ≡ [] → Stored rs (err no_error)
  all_failed :
      (first : List (Result (Message P) IoError)) (last : Result (Message P) IoError) {e : RpcError}
      → ((r : Result (Message P) IoError) → Mem r rs → validate_store_result r ≢ ok tt)
      → rs ≡ first ++ last ∷ []
      → validate_store_result last ≡ err e
      → Stored rs (err e)

-- What `tally` returns, from `n` failures with the error `e` on.
data Tallied {P : Protobuf} (n : ℕ) (e : RpcError) (rs : List (Reply P))
    : ℕ × RpcError → Type 0 where
  one :
      {r : Reply P} {t : ℕ × RpcError}
      → Mem r rs
      → Accepts r
      → t.0 < n + length rs
      → Tallied n e rs t
  none_at_all : rs ≡ [] → Tallied n e rs (n, e)
  all :
      (first : List (Reply P)) (last : Reply P) {e' : RpcError} {m : ℕ}
      → ((r : Reply P) → Mem r rs → ¬ Accepts r)
      → rs ≡ first ++ last ∷ []
      → validate_store_result last ≡ err e'
      → m ≡ n + length rs
      → Tallied n e rs (m, e')

tally_bound :
    {P : Protobuf} {rs : List (Reply P)} {n : ℕ} {e : RpcError} {t : ℕ × RpcError}
    → Tallied n e rs t
    → t.0 < suc (n + length rs)
tally_bound (one m a b) = omega (arith, b)
tally_bound (none_at_all z) = omega arith
tally_bound (all first last h s v c) = omega (arith, c)

module _ {P : Protobuf} (r : Reply P) (rs : List (Reply P)) (n : ℕ) (e e' : RpcError)
    (fails : validate_store_result r ≡ err e') where
  fails_all :
      ((q : Reply P) → Mem q rs → ¬ Accepts q) → (q : Reply P) → Mem q (r ∷ rs) → ¬ Accepts q
  fails_all h q m a = Or.elim ⊥_prop (mem-cons.0 m) (λ z. cc) (λ later. h q later a)

  tally-step_err : {t : ℕ × RpcError} → Tallied (n + 1) e' rs t → Tallied n e (r ∷ rs) t
  tally-step_err (one m a b) = one (mem-cons_of_mem r m) a (omega (arith, b))
  tally-step_err (none_at_all z) =
      all [] r (fails_all (λ q m. absurd (not-mem-nil (subst (Mem q) z m)))) (ap (λ l. r ∷ l) z)
        fails (omega (arith, ap length z))
  tally-step_err (all first last h s v c) =
      all (r ∷ first) last (fails_all h) (ap (λ l. r ∷ l) s) v (omega (arith, c))

tally_lem :
    {P : Protobuf} (rs : List (Reply P)) (n : ℕ) (e : RpcError) → Tallied n e rs (tally rs n e)
unfolding tally
tally_lem [] n e = none_at_all refl
tally_lem (r ∷ rs) n e = elim (Result-cases (validate_store_result r)) [
  | inl (a, f) ↦ rw (tally, f) (one mem-cons_self f (omega (arith, tally_bound (tally_lem rs n e))))
  | inr (e', f) ↦ rw (tally, f) (tally-step_err r rs n e e' f (tally_lem rs (n + 1) e'))
]

-- The end of `store`, from the tally on.
finish_lem :
    {P : Protobuf} (rs : List (Reply P)) (num_reqs : ℕ) (t : ℕ × RpcError)
    → num_reqs ≡ length rs
    → Tallied 0 no_error rs t
    → Stored rs (if eqb t.0 num_reqs then err t.1 else ok tt)
finish_lem rs num_reqs t same (one m a b) =
    let some_ok : eqb t.0 num_reqs ≡ false = ground arith in rw some_ok (accepted m a)
finish_lem rs num_reqs t same (none_at_all z) =
    let none_ok : eqb 0 num_reqs ≡ true = ground (arith, ap length z) in rw none_ok (nobody_asked z)
finish_lem rs num_reqs (m, e') same (all first last h s v c) =
    let none_ok : eqb m num_reqs ≡ true = ground arith in rw none_ok (all_failed first last h s v)

module _ {P : Protobuf} (net : Network P) where
  pub length-addresses :
      (ps : List Peer) {addrs : List net.SocketAddr}
      → addresses net ps ≡ done addrs
      → length addrs ≡ length ps
  unfolding addresses
  length-addresses [] e = cc
  length-addresses (p ∷ ps) e =
      let (a, _, e1) = bind-returns (unwrap (net.parse p.address)) e in
      let (rest, read, e2) = bind-returns (addresses net ps) e1 in cc (length-addresses ps read)

  length-join_all :
      (call : net.SocketAddr → Async net (Message P)) (addrs : List net.SocketAddr) (w : net.World)
      → length (join_all net call addrs w).1 ≡ length addrs
  unfolding join_all
  length-join_all call [] w = refl
  length-join_all call (a ∷ addrs) w = ap suc (length-join_all call addrs (call a w).0)

  -- The world after a store at `addrs`, and the replies.
  abbrev pub stored :
      Message P → List net.SocketAddr → net.World → net.World × List (Result (Message P) IoError)
  stored request addrs w = join_all net (λ a. store_value net a request) addrs w

  -- If the table returns peers for the key and their addresses read, `store` returns. It reports
  -- success if one of the peers answers that it stored the value; with no peer in the table it reports
  -- an error with the code `OK`; otherwise it reports the error of the last peer that was asked.
  pub store_lem :
      {K : KvStore} (c : DhtClient K) (key : ℕ) (value : Bytes) (w : net.World) (peers : List Peer)
      (addrs : List net.SocketAddr)
      → k_nearest_peers c.routing_table key ≡ done peers
      → addresses net peers ≡ done addrs
      → let sent = stored (create_store_request P c.myself key value) addrs w in
        (r : Result (Unit {0}) RpcError) × (store net c key value w ≡ (sent.0, done r))
        × Stored sent.1 r
  unfolding store store_at
  store_lem c key value w peers addrs found read =
      let request = create_store_request P c.myself key value in
      let rs = (stored request addrs w).1 in
      (
        _,
        rw (found, read),
        finish_lem rs (length peers) (tally rs 0 no_error)
            (sym (length-addresses peers read) ∙ sym (length-join_all _ addrs w))
            (tally_lem rs 0 no_error),
      )
