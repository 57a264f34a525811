-- ===== src/Messages/Wire/Sized.antt =====
-- `compute_size` of `Message` and `Peer` of src/messages/routing.rs. A `u32` keeps 32 bits of a sum.
use dht_kad_rs.Base.{
  ℕ, ◌+◌, ◌%◌, ◌^◌, ◌<◌, ◌≡◌, ap, ◌∙◌, Bool, true, false, List, [], ◌∷◌, Option, none, some, eqb,
  length, done, ok, if◌then◌else◌, arith,
}
use dht_kad_rs.Kvstore.{Bytes}
use dht_kad_rs.Messages.Types.{Protobuf, ProtoPeer, Message, MessageType, ErrorCode}
use dht_kad_rs.Messages.Coded.{Coded}
use dht_kad_rs.Messages.Wire.{write_message}
use dht_kad_rs.Messages.Wire.Written.{write_message_lem}
use dht_kad_rs.Messages.Wire.Pieces.{
  Pieces, nil, enum, bytes, message, ◌⋈◌, IsFaithful, bytes_piece, enum_piece, peer_pieces,
  peers_pieces, myself_pieces, message_pieces,
}

-- `tag_size`, `enum_or_unknown_size`, `bytes_size` and `compute_raw_varint32_size` of `protobuf::rt`.
pub record Sizes : Type 0 where
  pub tag_size : ℕ → ℕ
  pub enum_or_unknown_size : ℕ → ℕ → ℕ
  pub bytes_size : ℕ → Bytes → ℕ
  pub compute_raw_varint32_size : ℕ → ℕ

-- The documented meaning of these functions: `size` is the number of bytes that pieces take. A tag takes
-- one byte where the number of the field is below 16.
pub record IsSize (z : Sizes) (size : Pieces → ℕ) : Type 0 where
  pub size-nil : size nil ≡ 0
  pub size-enum :
      (n v : ℕ) (ps : Pieces) → size (enum n v ps) ≡ z.enum_or_unknown_size n v + size ps
  pub size-bytes :
      (n : ℕ) (b : Bytes) (ps : Pieces) → size (bytes n b ps) ≡ z.bytes_size n b + size ps
  pub size-message :
      (n : ℕ) (inner ps : Pieces)
      → size (message n inner ps)
        ≡ z.tag_size n + z.compute_raw_varint32_size (size inner) + size inner + size ps
  pub small_tag : (n : ℕ) → n < 16 → z.tag_size n ≡ 1

abbrev pub add32 : ℕ → ℕ → ℕ
add32 a b = (a + b) % 2 ^ 32

module _ (z : Sizes) where
  -- The statements on `my_size`, each from its value before to its value after.
  unfoldable pub add_bytes : ℕ → Bytes → ℕ → ℕ
  add_bytes n b my_size = if eqb (length b) 0 then my_size else add32 my_size (z.bytes_size n b)

  unfoldable pub add_enum : ℕ → Bool → ℕ → ℕ → ℕ
  add_enum n is_default raw my_size =
      if is_default then my_size else add32 my_size (z.enum_or_unknown_size n raw)

  -- `Peer::compute_size`.
  unfoldable pub compute_peer_size : ProtoPeer → ℕ
  compute_peer_size p = add_bytes 2 p.addrs (add_bytes 1 p.id 0)

  unfoldable pub add_peer : ProtoPeer → ℕ → ℕ
  add_peer p my_size =
      let len = compute_peer_size p in
      add32 my_size (add32 (add32 1 (z.compute_raw_varint32_size len)) len)

  unfoldable pub add_peers : List ProtoPeer → ℕ → ℕ
  add_peers [] my_size = my_size
  add_peers (p ∷ ps) my_size = add_peers ps (add_peer p my_size)

  unfoldable pub add_myself : Option ProtoPeer → ℕ → ℕ
  add_myself none my_size = my_size
  add_myself (some p) my_size = add_peer p my_size

  -- `Message::compute_size`.
  unfoldable pub compute_size : {P : Protobuf} → Coded P → Message P → ℕ
  compute_size {P} C m =
      add_enum 6 (C.code_eq m.code (P.codes.new ErrorCode.ok)) (C.code_raw m.code) (
        add_myself m.myself (
          add_peers m.closer_peers (
            add_bytes 3 m.value (
              add_bytes 2 m.key (
                add_enum 1 (C.type_eq m.field_type (P.types.new MessageType.store))
                  (C.type_raw m.field_type) 0)))))

module _ {P : Protobuf} (C : Coded P) (z : Sizes) (size : Pieces → ℕ) (law : IsSize z size) where
  -- A statement that adds the size of the pieces, as long as 32 bits hold the sum.
  abbrev Adds : (ℕ → ℕ) → Pieces → Type 0
  Adds f ps = (s : ℕ) → s + size ps < 2 ^ 32 → f s ≡ s + size ps

  size-⋈ : (ps qs : Pieces) → size (ps ⋈ qs) ≡ size ps + size qs
  size-⋈ nil qs = omega (arith, law.size-nil)
  size-⋈ (enum n v ps) qs =
      omega (arith, size-⋈ ps qs, law.size-enum n v ps, law.size-enum n v (ps ⋈ qs))
  size-⋈ (bytes n b ps) qs =
      omega (arith, size-⋈ ps qs, law.size-bytes n b ps, law.size-bytes n b (ps ⋈ qs))
  size-⋈ (message n inner ps) qs =
      omega (arith, size-⋈ ps qs, law.size-message n inner ps, law.size-message n inner (ps ⋈ qs))

  Adds-nothing : Adds (λ s. s) nil
  Adds-nothing s h = omega (arith, law.size-nil)

  Adds-both : (f g : ℕ → ℕ) (ps qs : Pieces) → Adds f ps → Adds g qs → Adds (λ s. g (f s)) (ps ⋈ qs)
  Adds-both f g ps qs one two s h =
      let all = size-⋈ ps qs in
      let first = one s (omega (arith, h, all)) in
      ap g first ∙ two (s + size ps) (omega (arith, h, all)) ∙ omega (arith, all)

  add_bytes_lem : (n : ℕ) (b : Bytes) → Adds (add_bytes z n b) (bytes_piece C n b)
  unfolding add_bytes
  add_bytes_lem n [] s h = Adds-nothing s h
  add_bytes_lem n (c ∷ cs) s h =
      let some_left : eqb (length (c ∷ cs)) 0 ≡ false = ground arith in
      let whole = law.size-bytes n (c ∷ cs) nil in
      rw some_left (omega (arith, h, whole, law.size-nil))

  add_enum_lem :
      (n : ℕ) (is_default : Bool) (v : ℕ)
      → Adds (add_enum z n is_default v) (enum_piece C n is_default v)
  unfolding add_enum
  add_enum_lem n true v s h = Adds-nothing s h
  add_enum_lem n false v s h = omega (arith, h, law.size-enum n v nil, law.size-nil)

  compute_peer_size_lem :
      (p : ProtoPeer)
      → size (peer_pieces C p) < 2 ^ 32
      → compute_peer_size z p ≡ size (peer_pieces C p)
  unfolding compute_peer_size
  compute_peer_size_lem p h =
      Adds-both (add_bytes z 1 p.id) (add_bytes z 2 p.addrs) (bytes_piece C 1 p.id)
        (bytes_piece C 2 p.addrs) (add_bytes_lem 1 p.id) (add_bytes_lem 2 p.addrs) 0
        (omega (arith, h))
      ∙ omega arith

  add_peer_lem :
      (n : ℕ) (p : ProtoPeer) → n < 16 → Adds (add_peer z p) (message n (peer_pieces C p) nil)
  unfolding add_peer
  add_peer_lem n p low s h =
      let inner = peer_pieces C p in
      let whole = law.size-message n inner nil in
      let tag = law.small_tag n low in
      let len = compute_peer_size_lem p (omega (arith, h, whole)) in
      rw len (omega (arith, h, whole, tag, law.size-nil))

  add_peers_lem : (ps : List ProtoPeer) → Adds (add_peers z ps) (peers_pieces C ps)
  unfolding add_peers
  add_peers_lem [] s h = Adds-nothing s h
  add_peers_lem (p ∷ ps) s h =
      Adds-both (add_peer z p) (add_peers z ps) (message 4 (peer_pieces C p) nil)
        (peers_pieces C ps) (add_peer_lem 4 p (omega arith)) (add_peers_lem ps) s h

  add_myself_lem : (p : Option ProtoPeer) → Adds (add_myself z p) (myself_pieces C p)
  unfolding add_myself
  add_myself_lem none s h = Adds-nothing s h
  add_myself_lem (some p) s h = add_peer_lem 5 p (omega arith) s h

  compute_size_pieces :
      (m : Message P)
      → size (message_pieces C m) < 2 ^ 32
      → compute_size z C m ≡ size (message_pieces C m)
  unfolding compute_size
  compute_size_pieces m h =
      Adds-both _ _ _ _ (add_enum_lem 1 _ _)
        (Adds-both _ _ _ _ (add_bytes_lem 2 m.key) (
          Adds-both _ _ _ _ (add_bytes_lem 3 m.value) (
            Adds-both _ _ _ _ (add_peers_lem m.closer_peers)
              (Adds-both _ _ _ _ (add_myself_lem m.myself) (add_enum_lem 6 _ _)))))
        0 (omega (arith, h))
      ∙ omega arith

  -- What `write_message` puts on an output in memory, behind what was written before, has the size that
  -- `compute_size` says, if that many bytes can be counted with 32 bits.
  pub compute_size-write_message :
      (crate_law : IsFaithful C) (m : Message P) (o : C.Out)
      → size (message_pieces C m) < 2 ^ 32
      → (o' : C.Out) × (ps : Pieces) × (write_message C m o ≡ (o', done (ok tt)))
        × (crate_law.written o' ≡ crate_law.written o ⋈ ps)
        × (compute_size z C m ≡ size ps)
  compute_size-write_message crate_law m o short =
      let (o', e, w) = write_message_lem C crate_law m o in
      (o', message_pieces C m, e, w, compute_size_pieces m short)
