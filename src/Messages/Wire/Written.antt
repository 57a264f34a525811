-- ===== src/Messages/Wire/Written.antt =====
-- What the writers put on an output.
use dht_kad_rs.Base.{
  ℕ, ◌≡◌, refl, ap, sym, ◌∙◌, Bool, true, false, List, [], ◌∷◌, Option, none, some, eqb, length,
  arith, if◌then◌else◌,
}
use dht_kad_rs.Kvstore.{Bytes}
use dht_kad_rs.Messages.Types.{Protobuf, ProtoPeer, Message}
use dht_kad_rs.Messages.Coded.{Coded, ◌>>=◌, try_after, succeed}
use dht_kad_rs.Messages.Wire.Pieces.{
  Pieces, nil, ◌⋈◌, ⋈_assoc, ⋈_nil, Writes, IsFaithful, bytes_piece, enum_piece, peer_pieces,
  peers_pieces, myself_pieces, message_pieces,
}
use dht_kad_rs.Messages.Wire.{
  Writer, write_bytes_field, write_peer, write_peers, write_myself, write_enum_field, write_message,
}

module _ {P : Protobuf} (C : Coded P) (crate_law : IsFaithful C) where
  abbrev Puts : Writer C → Pieces → Type 0
  Puts = Writes C crate_law.written

  nothing : Puts (succeed tt) nil
  nothing o = (o, refl, sym (⋈_nil (crate_law.written o)))

  chained :
      (f g : Writer C) (ps qs : Pieces) → Puts f ps → Puts g qs → Puts (f >>= λ _. g) (ps ⋈ qs)
  chained f g ps qs one two o =
      let (o1, e1, w1) = one o in
      let (o2, e2, w2) = two o1 in
      (
        o2,
        ap (try_after (λ _. g)) e1 ∙ e2,
        w2 ∙ ap (λ x. x ⋈ qs) w1 ∙ ⋈_assoc (crate_law.written o) ps qs,
      )

  either :
      (test : Bool) (f : Writer C) (ps : Pieces)
      → Puts f ps
      → Puts (if test then succeed tt else f) (if test then nil else ps)
  either true f ps puts = nothing
  either false f ps puts = puts

  write_bytes_field_lem : (n : ℕ) (b : Bytes) → Puts (write_bytes_field C n b) (bytes_piece C n b)
  unfolding write_bytes_field
  write_bytes_field_lem n [] = nothing
  write_bytes_field_lem n (c ∷ cs) =
      let some_left : eqb (length (c ∷ cs)) 0 ≡ false = ground arith in
      rw some_left (crate_law.writes_bytes n (c ∷ cs))

  write_enum_field_lem :
      (n : ℕ) (is_default : Bool) (v : ℕ)
      → Puts (write_enum_field C n is_default v) (enum_piece C n is_default v)
  unfolding write_enum_field
  write_enum_field_lem n is_default v =
      either is_default (C.write_enum n v) _ (crate_law.writes_enum n v)

  write_peer_lem : (p : ProtoPeer) → Puts (write_peer C p) (peer_pieces C p)
  unfolding write_peer
  write_peer_lem p =
      chained _ _ _ _ (write_bytes_field_lem 1 p.id) (write_bytes_field_lem 2 p.addrs)

  write_peers_lem : (ps : List ProtoPeer) → Puts (write_peers C ps) (peers_pieces C ps)
  unfolding write_peers
  write_peers_lem [] = nothing
  write_peers_lem (p ∷ ps) =
      chained _ _ _ _ (crate_law.writes_message 4 (write_peer C p) _ (write_peer_lem p))
        (write_peers_lem ps)

  write_myself_lem : (p : Option ProtoPeer) → Puts (write_myself C p) (myself_pieces C p)
  unfolding write_myself
  write_myself_lem none = nothing
  write_myself_lem (some p) = crate_law.writes_message 5 (write_peer C p) _ (write_peer_lem p)

  pub write_message_lem : (m : Message P) → Puts (write_message C m) (message_pieces C m)
  unfolding write_message
  write_message_lem m = chained _ _ _ _ (write_enum_field_lem 1 _ _) (
      chained _ _ _ _ (write_bytes_field_lem 2 m.key) (
        chained _ _ _ _ (write_bytes_field_lem 3 m.value) (
          chained _ _ _ _ (write_peers_lem m.closer_peers)
            (chained _ _ _ _ (write_myself_lem m.myself) (write_enum_field_lem 6 _ _)))))
