-- ===== src/Messages/Wire/Pieces.antt =====
-- What stands on a stream of the protobuf crate, and what is asked of its functions.
use dht_kad_rs.Base.{
  ℕ, ◌+◌, ◌≡◌, refl, ap, Bool, true, false, List, [], ◌∷◌, ◌++◌, Option, none, some, done, ok,
  arith, suc, if◌then◌else◌,
}
use dht_kad_rs.Kvstore.{Bytes}
use dht_kad_rs.Messages.Types.{Protobuf, ProtoPeer, Message, MessageType, ErrorCode}
use dht_kad_rs.Messages.Coded.{Coding, Coded}

-- Fields with their numbers, in order. The piece of a message holds its pieces.
pub data Pieces : Type 0 where
  nil : Pieces
  enum : ℕ → ℕ → Pieces → Pieces
  bytes : ℕ → Bytes → Pieces → Pieces
  message : ℕ → Pieces → Pieces → Pieces

infixr 5 ◌⋈◌
abbrev pub ◌⋈◌ : Pieces → Pieces → Pieces
nil ⋈ qs = qs
enum n v ps ⋈ qs = enum n v (ps ⋈ qs)
bytes n b ps ⋈ qs = bytes n b (ps ⋈ qs)
message n inner ps ⋈ qs = message n inner (ps ⋈ qs)

pub ⋈_assoc : (ps qs rs : Pieces) → (ps ⋈ qs) ⋈ rs ≡ ps ⋈ (qs ⋈ rs)
⋈_assoc nil qs rs = refl
⋈_assoc (enum n v ps) qs rs = ap (enum n v) (⋈_assoc ps qs rs)
⋈_assoc (bytes n b ps) qs rs = ap (bytes n b) (⋈_assoc ps qs rs)
⋈_assoc (message n inner ps) qs rs = ap (message n inner) (⋈_assoc ps qs rs)

pub ⋈_nil : (ps : Pieces) → ps ⋈ nil ≡ ps
⋈_nil nil = refl
⋈_nil (enum n v ps) = ap (enum n v) (⋈_nil ps)
⋈_nil (bytes n b ps) = ap (bytes n b) (⋈_nil ps)
⋈_nil (message n inner ps) = ap (message n inner) (⋈_nil ps)

-- The number of fields, those of inner messages left out.
abbrev pub count : Pieces → ℕ
count nil = 0
count (enum n v ps) = suc (count ps)
count (bytes n b ps) = suc (count ps)
count (message n inner ps) = suc (count ps)

pub count-⋈ : (ps qs : Pieces) → count (ps ⋈ qs) ≡ count ps + count qs
count-⋈ nil qs = omega arith
count-⋈ (enum n v ps) qs = omega (arith, count-⋈ ps qs)
count-⋈ (bytes n b ps) qs = omega (arith, count-⋈ ps qs)
count-⋈ (message n inner ps) qs = omega (arith, count-⋈ ps qs)

module _ {P : Protobuf} (C : Coded P) where
  -- A writer that succeeds and puts the pieces behind what was written.
  abbrev pub Writes : (C.Out → Pieces) → Coding C.Error C.Out (Unit {0}) → Pieces → Type 0
  Writes written f ps =
      (o : C.Out) → (o' : C.Out) × (f o ≡ (o', done (ok tt))) × (written o' ≡ written o ⋈ ps)

  -- A reader that succeeds with `a` on an input that is in one state and leaves it in another.
  abbrev pub Reads : {A : Type 0} → Coding C.Error C.In A → A → (C.In → Type 0) → C.In → Type 0
  Reads f a After i = (i' : C.In) × (f i ≡ (i', done (ok a))) × After i'

  -- The documented behaviour of the crate on an output in memory, and on an input that holds pieces:
  -- it stands at the start of a field, or behind the tag of one with its value still to be read.
  pub record IsFaithful : Type 1 where
    pub type_same : (f g : P.types.Field) → C.type_eq f g ≡ true → f ≡ g
    pub code_same : (f g : P.codes.Field) → C.code_eq f g ≡ true → f ≡ g
    pub type_unset : P.types.unset ≡ P.types.new MessageType.store
    pub code_unset : P.codes.unset ≡ P.codes.new ErrorCode.ok
    pub written : C.Out → Pieces
    pub writes_enum : (n v : ℕ) → Writes written (C.write_enum n v) (enum n v nil)
    pub writes_bytes : (n : ℕ) (b : Bytes) → Writes written (C.write_bytes n b) (bytes n b nil)
    pub writes_message :
        (n : ℕ) (f : Coding C.Error C.Out (Unit {0})) (ps : Pieces)
        → Writes written f ps
        → Writes written (C.write_message_field n f) (message n ps nil)
    pub Left : Pieces → C.In → Type 0
    pub AtEnum : ℕ → Pieces → C.In → Type 0
    pub AtBytes : C.WireType → Bytes → Pieces → C.In → Type 0
    pub AtMessage : C.WireType → Pieces → Pieces → C.In → Type 0
    pub ends : (i : C.In) → Left nil i → Reads C.eof true (Left nil) i
    pub tag_enum :
        (n v : ℕ) (ps : Pieces) (i : C.In)
        → Left (enum n v ps) i
        → Reads C.eof false
            (λ i'.
              (wire : C.WireType) × (C.is_varint wire ≡ true)
              × Reads C.read_tag_unpack (n, wire) (AtEnum v ps) i')
            i
    pub tag_bytes :
        (n : ℕ) (b : Bytes) (ps : Pieces) (i : C.In)
        → Left (bytes n b ps) i
        → Reads C.eof false
            (λ i'. (wire : C.WireType) × Reads C.read_tag_unpack (n, wire) (AtBytes wire b ps) i')
            i
    pub tag_message :
        (n : ℕ) (inner ps : Pieces) (i : C.In)
        → Left (message n inner ps) i
        → Reads C.eof false
            (λ i'.
              (wire : C.WireType) × Reads C.read_tag_unpack (n, wire) (AtMessage wire inner ps) i')
            i
    pub reads_type :
        (f : P.types.Field) (ps : Pieces) (i : C.In)
        → AtEnum (C.type_raw f) ps i
        → Reads C.read_type f (Left ps) i
    pub reads_code :
        (f : P.codes.Field) (ps : Pieces) (i : C.In)
        → AtEnum (C.code_raw f) ps i
        → Reads C.read_code f (Left ps) i
    pub reads_bytes :
        (wire : C.WireType) (b old : Bytes) (ps : Pieces) (i : C.In)
        → AtBytes wire b ps i
        → Reads (C.read_bytes_into wire old) b (Left ps) i
    pub reads_repeated :
        {A : Type 0} (merge : A → Coding C.Error C.In A) (fresh a : A) (wire : C.WireType)
        (old : List A) (inner ps : Pieces) (i : C.In)
        → ((j : C.In) → Left inner j → Reads (merge fresh) a (Left nil) j)
        → AtMessage wire inner ps i
        → Reads (C.read_repeated_into merge fresh wire old) (old ++ a ∷ []) (Left ps) i
    pub reads_singular :
        {A : Type 0} (merge : A → Coding C.Error C.In A) (fresh a : A) (wire : C.WireType)
        (inner ps : Pieces) (i : C.In)
        → ((j : C.In) → Left inner j → Reads (merge fresh) a (Left nil) j)
        → AtMessage wire inner ps i
        → Reads (C.read_singular_into merge fresh wire none) (some a) (Left ps) i

  -- The pieces of a message: what proto3 says is on the wire, fields with their default left out.
  abbrev pub bytes_piece : ℕ → Bytes → Pieces
  bytes_piece n [] = nil
  bytes_piece n (c ∷ cs) = bytes n (c ∷ cs) nil

  abbrev pub enum_piece : ℕ → Bool → ℕ → Pieces
  enum_piece n is_default v = if is_default then nil else enum n v nil

  abbrev pub peer_pieces : ProtoPeer → Pieces
  peer_pieces p = bytes_piece 1 p.id ⋈ bytes_piece 2 p.addrs

  abbrev pub peers_pieces : List ProtoPeer → Pieces
  peers_pieces [] = nil
  peers_pieces (p ∷ ps) = message 4 (peer_pieces p) nil ⋈ peers_pieces ps

  abbrev pub myself_pieces : Option ProtoPeer → Pieces
  myself_pieces none = nil
  myself_pieces (some p) = message 5 (peer_pieces p) nil

  abbrev pub type_pieces : Message P → Pieces
  type_pieces m =
      enum_piece 1 (C.type_eq m.field_type (P.types.new MessageType.store))
        (C.type_raw m.field_type)

  abbrev pub code_pieces : Message P → Pieces
  code_pieces m = enum_piece 6 (C.code_eq m.code (P.codes.new ErrorCode.ok)) (C.code_raw m.code)

  abbrev pub message_pieces : Message P → Pieces
  message_pieces m =
      type_pieces m
      ⋈ bytes_piece 2 m.key
      ⋈ bytes_piece 3 m.value
      ⋈ peers_pieces m.closer_peers
      ⋈ myself_pieces m.myself
      ⋈ code_pieces m
