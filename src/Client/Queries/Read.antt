-- ===== src/Client/Queries/Read.antt =====
-- Where the function stands depends on what it has read alone.
use dht_kad_rs.Base.{
  ℕ, ◌≡◌, refl, sym, ◌∙◌, List, [], ◌∷◌, ◌++◌, length, eqb, Bool-cases, inl, inr, Outcome, done,
  panicked, exhausted, ◌>>=◌, Result,
}
use dht_kad_rs.Messages.{Protobuf, Message}
use dht_kad_rs.Messages.Util.{IoError}
use dht_kad_rs.RoutingTable.Peers.{Peer}
use dht_kad_rs.Transport.{Network}
use dht_kad_rs.Client.{
  Lookup, Next, again, return, Progress, waiting, answered, handle, lookup, sort_and_spawn,
}
use dht_kad_rs.Client.Queries.{
  Search, begin, ended, reading, resume, ends, reads, Reach, here, next,
}

module _ {P : Protobuf} (alpha key : ℕ) where
  through :
      (r : Result (Message P) IoError) (s' : Lookup) (before later : Lookup → Outcome Progress)
      → ((s1 : Lookup) → before s1 ≡ done (waiting s') → later s1 ≡ resume alpha key s' r)
      → (o : Outcome Next)
      → (o >>= λ n. elim n [ again s1 ↦ before s1 | return v ↦ done (answered v) ])
        ≡ done (waiting s')
      → (o >>= λ n. elim n [ again s1 ↦ later s1 | return v ↦ done (answered v) ])
        ≡ resume alpha key s' r
  through r s' before later more (done (again s1)) e = more s1 e
  through r s' before later more (done (return v)) e = cc
  through r s' before later more panicked e = cc
  through r s' before later more exhausted e = cc

  -- One more reply for a lookup that waits.
  pub lookup_more :
      (rs : List (Result (Message P) IoError)) (r : Result (Message P) IoError) (s s' : Lookup)
      → lookup alpha key rs s ≡ done (waiting s')
      → lookup alpha key (rs ++ r ∷ []) s ≡ resume alpha key s' r
  unfolding lookup resume
  lookup_more [] r s s' e = elim (Bool-cases (eqb (length s.candidates) 0)) [
    | inl none_left ↦ cc (rw none_left at e)
    | inr some_left ↦
        let same : sort_and_spawn alpha key s ≡ s' = cc (rw some_left at e) in
        rw (some_left, sym same)
  ]
  lookup_more (q ∷ rs) r s s' e = elim (Bool-cases (eqb (length s.candidates) 0)) [
    | inl none_left ↦ cc (rw none_left at e)
    | inr some_left ↦ rw some_left (
        through r s' (lookup alpha key rs) (λ s1. lookup alpha key (rs ++ r ∷ []) s1)
          (λ s1 e1. lookup_more rs r s1 s' e1) (handle (sort_and_spawn alpha key s) q)
          (rw some_left at e))
  ]

module _ {P : Protobuf} (net : Network P) (alpha key : ℕ) (myself : Peer) where
  -- Whatever the order in which the tasks of a lookup end, the function stands where `lookup` stands on
  -- the replies that it has read, in the order in which it read them.
  pub Reach-lookup :
      (s : Lookup) (w : net.World) {σ : Search net alpha key myself}
      → Reach net alpha key myself (begin net alpha key myself s w) σ
      → σ.function ≡ lookup alpha key σ.read s
  unfolding begin ended reading lookup
  Reach-lookup s w here = refl
  Reach-lookup s w (next r (ends i p at)) = Reach-lookup s w r
  Reach-lookup s w (next {τ} r (reads s' q rest e c)) =
      sym (lookup_more alpha key τ.read q s s' (sym (Reach-lookup s w r) ∙ e))
