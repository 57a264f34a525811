-- ===== src/Client/Queries/Found.antt =====
-- A lookup that waits returns the value of the next reply that has one.
use mathlib.Core.List.{append_assoc}
use dht_kad_rs.Base.{
  ℕ, ◌<◌, ◌⊎◌, ◌≡◌, refl, ap, sym, ◌∙◌, List, [], ◌∷◌, ◌++◌, length, eqb, ltb, true, false,
  Bool-cases, inl, inr, arith, done, bind-returns, Result, ok, err,
}
use dht_kad_rs.Messages.{Protobuf, Message}
use dht_kad_rs.Messages.Util.{IoError, RpcError}
use dht_kad_rs.Kvstore.{Bytes}
use dht_kad_rs.Client.{
  Lookup, Next, again, return, Progress, waiting, answered, handle, handle_reply, lookup,
  sort_and_spawn, not_found,
}
use dht_kad_rs.Client.Queries.{resume}
use dht_kad_rs.Client.Queries.Read.{lookup_more}
use dht_kad_rs.Client.Queries.Counted.{round_counts}

Next-cases :
    (n : Next) → ((s : Lookup) × (n ≡ again s)) ⊎ ((v : Result Bytes RpcError) × (n ≡ return v))
Next-cases (again s) = inl (s, refl)
Next-cases (return v) = inr (v, refl)

module _ {P : Protobuf} (alpha key : ℕ) where
  -- What a round does once it has a candidate.
  goes_on :
      (q : Result (Message P) IoError) (rs : List (Result (Message P) IoError)) (s : Lookup)
      {o : Progress}
      → eqb (length s.candidates) 0 ≡ false
      → lookup alpha key (q ∷ rs) s ≡ done o
      → (n : Next) × (handle (sort_and_spawn alpha key s) q ≡ done n)
        × (elim n [ again s1 ↦ lookup alpha key rs s1 | return v ↦ done (answered v) ] ≡ done o)
  unfolding lookup
  goes_on q rs s some_left e =
      bind-returns (handle (sort_and_spawn alpha key s) q) (rw some_left at e)

  waiting_busy :
      (rs : List (Result (Message P) IoError)) (s s' : Lookup)
      → 0 < alpha
      → lookup alpha key rs s ≡ done (waiting s')
      → 0 < s'.in_progress
  unfolding lookup
  waiting_busy [] s s' pos e = (round_counts P alpha key s s' pos e).1
  waiting_busy (q ∷ rs) s s' pos e = elim (Bool-cases (eqb (length s.candidates) 0)) [
    | inl none_left ↦ cc (rw none_left at e)
    | inr some_left ↦
        let (n, _, f) = goes_on q rs s some_left e in
        elim (Next-cases n) [
          | inl (s1, z) ↦ waiting_busy rs s1 s' pos (rw z at f)
          | inr (v, z) ↦ cc (rw z at f)
        ]
  ]

  gives_up :
      (rs : List (Result (Message P) IoError)) (s : Lookup)
      → eqb (length s.candidates) 0 ≡ true
      → lookup alpha key rs s ≡ done (answered (err not_found))
  unfolding lookup
  gives_up [] s none_left = rw none_left
  gives_up (r ∷ rs) s none_left = rw none_left

  -- More replies do not change a result.
  answered_stays :
      (rs rest : List (Result (Message P) IoError)) (s : Lookup) (v : Result Bytes RpcError)
      → lookup alpha key rs s ≡ done (answered v)
      → lookup alpha key (rs ++ rest) s ≡ done (answered v)
  unfolding lookup
  answered_stays [] rest s v e = elim (Bool-cases (eqb (length s.candidates) 0)) [
    | inl none_left ↦ gives_up rest s none_left ∙ rw none_left at e
    | inr some_left ↦ cc (rw some_left at e)
  ]
  answered_stays (q ∷ rs) rest s v e = elim (Bool-cases (eqb (length s.candidates) 0)) [
    | inl none_left ↦ rw none_left (rw none_left at e)
    | inr some_left ↦
        let (n, h, f) = goes_on q rs s some_left e in
        elim (Next-cases n) [
          | inl (s1, z) ↦ rw (some_left, h, z) (answered_stays rs rest s1 v (rw z at f))
          | inr (w, z) ↦ rw (some_left, h, z) (rw z at f)
        ]
  ]

  pub value_ends :
      (s : Lookup) (m : Message P)
      → 0 < s.in_progress
      → 0 < length m.value
      → resume alpha key s (ok m) ≡ done (answered (ok m.value))
  unfolding resume handle handle_reply
  value_ends s m busy full =
      let counted : eqb s.in_progress 0 ≡ false = ground arith in
      let filled : ltb 0 (length m.value) ≡ true = ground arith in rw (counted, filled)

  -- A lookup that waits after some replies, with `alpha` above zero, returns the value of the next reply
  -- if that has one, whatever replies follow.
  pub lookup_finds :
      (rs rest : List (Result (Message P) IoError)) (m : Message P) (s s' : Lookup)
      → 0 < alpha
      → lookup alpha key rs s ≡ done (waiting s')
      → 0 < length m.value
      → lookup alpha key (rs ++ ok m ∷ rest) s ≡ done (answered (ok m.value))
  lookup_finds rs rest m s s' pos waits full =
      let ends =
        lookup_more alpha key rs (ok m) s s' waits
        ∙ value_ends s' m (waiting_busy rs s s' pos waits) full in
      ap (λ qs. lookup alpha key qs s) (sym (append_assoc rs (ok m ∷ []) rest))
      ∙ answered_stays (rs ++ ok m ∷ []) rest s (ok m.value) ends
