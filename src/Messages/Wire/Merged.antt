-- ===== src/Messages/Wire/Merged.antt =====
-- `merge_from` reads back what the writers put on an output.
use mathlib.Core.List.{append-nil, append_assoc}
use dht_kad_rs.Base.{
  ℕ, ◌≤◌, ◌<◌, ◌≡◌, refl, ap, sym, subst, ◌∙◌, List, [], ◌∷◌, ◌++◌, Option, none, some, done, ok,
  arith,
}
use dht_kad_rs.Kvstore.{Bytes}
use dht_kad_rs.Messages.Types.{Protobuf, ProtoPeer, Message, MessageType, ErrorCode, new_message}
use dht_kad_rs.Messages.Coded.{Coded, try_after, succeed}
use dht_kad_rs.Messages.Wire.Pieces.{
  nil, message, ◌⋈◌, count, count-⋈, Reads, IsFaithful, bytes_piece, enum_piece, peer_pieces,
  peers_pieces, myself_pieces, message_pieces,
}
use dht_kad_rs.Messages.Wire.{
  Reader, new_peer, merge_peer_field, merge_peer, merge_message_field, merge_message, write_message,
}
use dht_kad_rs.Messages.Wire.Written.{write_message_lem}
use dht_kad_rs.Messages.Wire.Turns.{
  Takes, Takes-nothing, Takes-both, Takes-bytes, Takes-enum, Takes-message, Takes-all,
}

module _ {P : Protobuf} (C : Coded P) (crate_law : IsFaithful C) where
  few_bytes : (n : ℕ) (b : Bytes) → count (bytes_piece C n b) ≤ 1
  few_bytes n [] = omega arith
  few_bytes n (c ∷ cs) = omega arith

  merge_peer_lem :
      (fuel : ℕ) (p : ProtoPeer) (j : C.In)
      → 2 < fuel
      → crate_law.Left (peer_pieces C p) j
      → Reads C (merge_peer C fuel new_peer) p (crate_law.Left nil) j
  unfolding merge_peer merge_peer_field new_peer
  merge_peer_lem fuel p j enough here =
      let field = merge_peer_field C in
      Takes-all C crate_law field fuel (peer_pieces C p) new_peer p j
        (Takes-both C crate_law field (bytes_piece C 1 p.id) (bytes_piece C 2 p.addrs) new_peer
          (record new_peer { id = p.id }) p
          (Takes-bytes C crate_law field 1 p.id [] new_peer (λ b. record new_peer { id = b }) refl
            (λ wire i. refl))
          (Takes-bytes C crate_law field 2 p.addrs [] (record new_peer { id = p.id })
            (λ b. record p { addrs = b }) refl (λ wire i. refl)))
        (omega (
          arith,
          enough,
          few_bytes 1 p.id,
          few_bytes 2 p.addrs,
          count-⋈ (bytes_piece C 1 p.id) (bytes_piece C 2 p.addrs),
        ))
        here

  module _ (fuel : ℕ) (enough : 2 < fuel) where
    abbrev field : ℕ → C.WireType → Message P → Reader C (Message P)
    field = merge_message_field C fuel

    Takes-peers :
        (ps : List ProtoPeer) (x : Message P)
        → Takes C crate_law field
            (peers_pieces C ps)
            x
            (record x { closer_peers = x.closer_peers ++ ps })
    unfolding merge_message_field
    Takes-peers [] x =
        Takes-nothing C crate_law field x _
          (ap (λ qs. record x { closer_peers = qs }) (sym (append-nil x.closer_peers)))
    Takes-peers (p ∷ ps) x =
        let y : Message P = record x { closer_peers = x.closer_peers ++ p ∷ [] } in
        let z : Message P = record x { closer_peers = (x.closer_peers ++ p ∷ []) ++ ps } in
        let whole = append_assoc x.closer_peers (p ∷ []) ps in
        subst (Takes C crate_law field (peers_pieces C (p ∷ ps)) x)
          (ap (λ qs. record x { closer_peers = qs }) whole)
          (Takes-both C crate_law field (message 4 (peer_pieces C p) nil) (peers_pieces C ps) x y z
            (Takes-message C crate_law field 4 (peer_pieces C p) x y (λ wire rest i at.
              let (i', e, left) =
                crate_law.reads_repeated (merge_peer C fuel) new_peer p wire x.closer_peers
                  (peer_pieces C p) rest i (λ j here. merge_peer_lem fuel p j enough here) at in
              (i', ap (try_after (λ qs. succeed (record x { closer_peers = qs }))) e, left)))
            (Takes-peers ps y))

    Takes-myself :
        (p : Option ProtoPeer) (x : Message P)
        → x.myself ≡ none
        → Takes C crate_law field (myself_pieces C p) x (record x { myself = p })
    unfolding merge_message_field
    Takes-myself none x unset =
        Takes-nothing C crate_law field x _ (ap (λ q. record x { myself = q }) unset)
    Takes-myself (some p) x unset =
        Takes-message C crate_law field 5 (peer_pieces C p) x (record x { myself = some p })
          (λ wire rest i at.
            let (i', e, left) =
              crate_law.reads_singular (merge_peer C fuel) new_peer p wire (peer_pieces C p) rest i
                (λ j here. merge_peer_lem fuel p j enough here) at in
            (i', rw (unset, e), left))

    Takes-type :
        (f : P.types.Field) (x : Message P)
        → x.field_type ≡ P.types.unset
        → Takes C crate_law field
            (enum_piece C 1 (C.type_eq f (P.types.new MessageType.store)) (C.type_raw f))
            x
            (record x { field_type = f })
    unfolding merge_message_field
    Takes-type f x unset =
        Takes-enum C crate_law field 1 _ (C.type_raw f) x (record x { field_type = f })
          (λ default.
            ap (λ t. record x { field_type = t })
              (unset ∙ crate_law.type_unset ∙ sym (crate_law.type_same _ _ default)))
          (λ wire rest i varint at.
            let (i', e, left) = crate_law.reads_type f rest i at in (i', rw (varint, e), left))

    Takes-code :
        (f : P.codes.Field) (x : Message P)
        → x.code ≡ P.codes.unset
        → Takes C crate_law field
            (enum_piece C 6 (C.code_eq f (P.codes.new ErrorCode.ok)) (C.code_raw f))
            x
            (record x { code = f })
    unfolding merge_message_field
    Takes-code f x unset =
        Takes-enum C crate_law field 6 _ (C.code_raw f) x (record x { code = f })
          (λ default.
            ap (λ t. record x { code = t })
              (unset ∙ crate_law.code_unset ∙ sym (crate_law.code_same _ _ default)))
          (λ wire rest i varint at.
            let (i', e, left) = crate_law.reads_code f rest i at in (i', rw (varint, e), left))

    merge_message_lem :
        (m : Message P) (i : C.In)
        → count (message_pieces C m) < fuel
        → crate_law.Left (message_pieces C m) i
        → Reads C (merge_message C fuel (new_message P)) m (crate_law.Left nil) i
    unfolding merge_message merge_message_field new_message
    merge_message_lem m i room here =
        let m0 = new_message P in
        let m1 : Message P = record m0 { field_type = m.field_type } in
        let m2 : Message P = record m1 { key = m.key } in
        let m3 : Message P = record m2 { value = m.value } in
        let m4 : Message P = record m3 { closer_peers = m.closer_peers } in
        let m5 : Message P = record m4 { myself = m.myself } in
        Takes-all C crate_law field fuel (message_pieces C m) m0 m i
          (Takes-both C crate_law field _ _ m0 m1 m (Takes-type m.field_type m0 refl) (
            Takes-both C crate_law field (bytes_piece C 2 m.key) _ m1 m2 m
              (Takes-bytes C crate_law field 2 m.key [] m1 (λ b. record m1 { key = b }) refl
                (λ wire j. refl))
              (Takes-both C crate_law field (bytes_piece C 3 m.value) _ m2 m3 m
                (Takes-bytes C crate_law field 3 m.value [] m2 (λ b. record m2 { value = b }) refl
                  (λ wire j. refl))
                (Takes-both C crate_law field (peers_pieces C m.closer_peers) _ m3 m4 m
                  (Takes-peers m.closer_peers m3)
                  (Takes-both C crate_law field (myself_pieces C m.myself) _ m4 m5 m
                    (Takes-myself m.myself m4 refl) (Takes-code m.code m5 refl))))))
          room here

  -- On a protobuf crate that does what it documents, writing a message succeeds and puts the pieces of
  -- the message on the output. From an input that holds these pieces and no more, `merge_from` on a new
  -- message returns the message that was written, if its loops may take more turns than there are
  -- pieces, and more than two.
  pub merge_message-write_message :
      (m : Message P) (o : C.Out) (fuel : ℕ) (i : C.In)
      → 2 < fuel
      → count (message_pieces C m) < fuel
      → crate_law.Left (message_pieces C m) i
      → ((o' : C.Out) × (write_message C m o ≡ (o', done (ok tt)))
          × (crate_law.written o' ≡ crate_law.written o ⋈ message_pieces C m))
        × Reads C (merge_message C fuel (new_message P)) m (crate_law.Left nil) i
  merge_message-write_message m o fuel i enough room here =
      (write_message_lem C crate_law m o, merge_message_lem fuel enough m i room here)
