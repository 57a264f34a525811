-- ===== src/Rpc/Interleaved/Origin.antt =====
-- Where the values of the store come from, and that none is lost.
use mathlib.Core.List.{mem-cons_self, mem-cons_of_mem}
use dht_kad_rs.Base.{
  ◌≡◌, ap, ◌∙◌, sym, subst, true, some, inl, inr, Bool-cases, Option, List, [], ◌∷◌, Mem, All,
  All-imp, All-append, All-get_elem?, All-set, ◌==◌, list_eq, nat_eq, eq_of_same,
}
use dht_kad_rs.Kvstore.{Bytes, KvStore}
use dht_kad_rs.Kvstore.Laws.{IsMap}
use dht_kad_rs.Messages.{Protobuf, Message}
use dht_kad_rs.Messages.Util.{validate_request}
use dht_kad_rs.Rpc.{Method}
use dht_kad_rs.Rpc.State.{DhtServer}
use dht_kad_rs.Rpc.Interleaved.{
  Task, begins, puts, gets, finds, ends, advance, System, Step, arrives, goes_on, Reach, here, next,
  idle,
}
use dht_kad_rs.Rpc.Interleaved.Writes.{Wrote, nothing, one, advance-Wrote, Honest, advance-Honest}

module _ (K : KvStore) (P : Protobuf) {view : K.Store → Bytes → Option Bytes}
    (map : IsMap K view) where
  -- The value `v` of the key `j` was there at the start, or a valid `store` brought it.
  pub data From (start : K.Store) (received : List (Method × Message P)) (j v : Bytes)
      : Type 0 where
    at_start : view start j ≡ some v → From start received j v
    stored :
        (m : Message P)
        → Mem (Method.store, m) received
        → validate_request m ≡ true
        → m.key ≡ j
        → m.value ≡ v
        → From start received j v

  From-later :
      {start : K.Store} {received : List (Method × Message P)} {j v : Bytes}
      (r : Method × Message P)
      → From start received j v
      → From start (r ∷ received) j v
  From-later r (at_start e) = at_start e
  From-later r (stored m here' valid key value) = stored m (mem-cons_of_mem r here') valid key value

  Honest-later :
      (received : List (Method × Message P)) (r : Method × Message P) (t : Task P)
      → Honest K P received t
      → Honest K P (r ∷ received) t
  Honest-later received r (begins c m) h = mem-cons_of_mem r h
  Honest-later received r (puts m) (h, valid) = (mem-cons_of_mem r h, valid)
  Honest-later received r (gets m) h = tt
  Honest-later received r (finds m) h = tt
  Honest-later received r (ends o) h = tt

  abbrev Traced : K.Store → System K P → Type 0
  Traced start σ =
      All (Honest K P σ.received) σ.tasks
      × ((j v : Bytes) → view σ.server.kvstore j ≡ some v → From start σ.received j v)

  Wrote-From :
      (start : K.Store) (received : List (Method × Message P)) (t : Task P) (s : DhtServer K)
      (kv : K.Store)
      → Honest K P received t
      → ((j v : Bytes) → view s.kvstore j ≡ some v → From start received j v)
      → Wrote t s kv
      → (j v : Bytes) → view kv j ≡ some v
      → From start received j v
  Wrote-From start received t s kv h old (nothing same) j v e =
      old j v (ap (λ (x : K.Store). view x j) (sym same) ∙ e)
  Wrote-From start received t s kv h old (one m is same) j v e =
      let (sent, valid) = subst (Honest K P received) is h in
      let new =
        sym (ap (λ (x : K.Store). view x j) same ∙ map.view-put s.kvstore m.key m.value j) ∙ e in
      elim (Bool-cases (m.key == j)) [
        | inl hit ↦
            let brought : some m.value ≡ some v = rw hit at new in
            stored m sent valid (eq_of_same m.key j hit) (cc)
        | inr miss ↦ let kept : view s.kvstore j ≡ some v = rw miss at new in old j v kept
      ]

  Step-Traced :
      {start : K.Store} {σ τ : System K P} → Step K P σ τ → Traced start σ → Traced start τ
  Step-Traced {start} {σ} (arrives c m) (honest, old) = (
    All-append (Honest K P ((c, m) ∷ σ.received)) σ.tasks (begins c m ∷ [])
        (All-imp σ.tasks (λ t _ h. Honest-later σ.received (c, m) t h) honest) (mem-cons_self, tt),
    λ j v e. From-later (c, m) (old j v e),
  )
  Step-Traced {start} {σ} (goes_on i t at) (honest, old) =
      let own = All-get_elem? (Honest K P σ.received) σ.tasks i honest at in
      (
        All-set (Honest K P σ.received) σ.tasks i (advance K P t σ.server).1 honest
            (advance-Honest K P σ.received t σ.server own),
        Wrote-From start σ.received t σ.server (advance K P t σ.server).0.kvstore own old
            (advance-Wrote K P t σ.server),
      )

  Reach-Traced : {s : DhtServer K} {τ : System K P} → Reach K P (idle K P s) τ → Traced s.kvstore τ
  Reach-Traced here = (tt, λ j v e. at_start e)
  Reach-Traced (next r st) = Step-Traced st (Reach-Traced r)

  -- In every state that requests and tasks lead to, in any order, each value of the store was there at
  -- the start, or a valid `store` that was received has that key and that value.
  pub Reach-From :
      {s : DhtServer K} {τ : System K P}
      → Reach K P (idle K P s) τ
      → (j v : Bytes) → view τ.server.kvstore j ≡ some v
      → From s.kvstore τ.received j v
  Reach-From r = (Reach-Traced r).1

  Wrote_keeps :
      (t : Task P) (s : DhtServer K) (kv : K.Store) (j v : Bytes)
      → Wrote t s kv
      → view s.kvstore j ≡ some v
      → (v' : Bytes) × (view kv j ≡ some v')
  Wrote_keeps t s kv j v (nothing same) e = (v, ap (λ (x : K.Store). view x j) same ∙ e)
  Wrote_keeps t s kv j v (one m is same) e =
      let put = ap (λ (x : K.Store). view x j) same ∙ map.view-put s.kvstore m.key m.value j in
      elim (Bool-cases (m.key == j)) [
        | inl hit ↦ (m.value, rw hit at put)
        | inr miss ↦ let kept : view kv j ≡ view s.kvstore j = rw miss at put in (v, kept ∙ e)
      ]

  Step-keeps :
      {σ τ : System K P} (j v : Bytes)
      → Step K P σ τ
      → view σ.server.kvstore j ≡ some v
      → (v' : Bytes) × (view τ.server.kvstore j ≡ some v')
  Step-keeps j v (arrives c m) e = (v, e)
  Step-keeps {σ} j v (goes_on i t at) e =
      Wrote_keeps t σ.server (advance K P t σ.server).0.kvstore j v (advance-Wrote K P t σ.server) e

  -- A key that has a value has one in every state that follows, whatever arrives and in whatever order
  -- the tasks go on.
  pub Reach-keeps :
      {σ τ : System K P} (j v : Bytes)
      → Reach K P σ τ
      → view σ.server.kvstore j ≡ some v
      → (v' : Bytes) × (view τ.server.kvstore j ≡ some v')
  Reach-keeps j v here e = (v, e)
  Reach-keeps j v (next r st) e = let (v1, e1) = Reach-keeps j v r e in Step-keeps j v1 st e1
