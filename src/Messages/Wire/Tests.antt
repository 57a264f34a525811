-- ===== src/Messages/Wire/Tests.antt =====
-- A protobuf crate whose streams are lists of fields, and a message that goes through it.
use dht_kad_rs.Base.{
  ℕ, ◌≡◌, refl, Bool, true, false, [], ◌∷◌, ◌++◌, Option, none, some, Outcome, done, panicked,
  exhausted, Result, ok, err, ◌+◌, length, eqb, arith,
}
use dht_kad_rs.Kvstore.{Bytes}
use dht_kad_rs.Messages.Types.{Message, MessageType, ErrorCode, new_message}
use dht_kad_rs.Messages.Enums.{
  type_value, type_from_i32, code_value, code_from_i32, type_from_i32_iff, code_from_i32_iff,
}
use dht_kad_rs.Messages.Coded.{Coding, Coded}
use dht_kad_rs.Messages.Tests.{plain_protobuf}
use dht_kad_rs.Messages.Wire.{write_message, merge_message}
use dht_kad_rs.Messages.Wire.Pieces.{
  Pieces, message_pieces, nil, enum, bytes, message, ◌⋈◌, Reads, IsFaithful,
}
use dht_kad_rs.Messages.Wire.Sized.{Sizes, IsSize, compute_size, compute_size-write_message}
use dht_kad_rs.Messages.Wire.Merged.{merge_message-write_message}

-- Before a field, or behind its tag.
data Cursor : Type 0 where
  at : Pieces → Cursor
  in_enum : ℕ → Pieces → Cursor
  in_bytes : Bytes → Pieces → Cursor
  in_message : Pieces → Pieces → Cursor

abbrev no_field : Bytes
no_field = []

abbrev at_end : Cursor → Cursor × Outcome (Result Bool Bytes)
at_end (at nil) = (at nil, done (ok true))
at_end i = (i, done (ok false))

abbrev tag : Cursor → Cursor × Outcome (Result (ℕ × Bool) Bytes)
tag (at (enum n v ps)) = (in_enum v ps, done (ok (n, true)))
tag (at (bytes n b ps)) = (in_bytes b ps, done (ok (n, false)))
tag (at (message n inner ps)) = (in_message inner ps, done (ok (n, false)))
tag i = (i, done (err no_field))

abbrev enum_at : {A : Type 0} → (ℕ → Option A) → A → Cursor → Cursor × Outcome (Result A Bytes)
enum_at read default (in_enum v ps) = elim (read v) [
  | none ↦ (at ps, done (ok default))
  | some a ↦ (at ps, done (ok a))
]
enum_at read default i = (i, done (err no_field))

enum_at_lem :
    {A : Type 0} (read : ℕ → Option A) (default a : A) (v : ℕ) (ps : Pieces)
    → read v ≡ some a
    → enum_at read default (in_enum v ps) ≡ (at ps, done (ok a))
enum_at_lem read default a v ps e = rw (enum_at, e)

abbrev bytes_at : Cursor → Cursor × Outcome (Result Bytes Bytes)
bytes_at (in_bytes b ps) = (at ps, done (ok b))
bytes_at i = (i, done (err no_field))

abbrev put_back :
    {A B : Type 0}
    → (A → B)
    → Pieces
    → Cursor × Outcome (Result A Bytes)
    → Cursor × Outcome (Result B Bytes)
put_back f ps (j, done (ok a)) = (at ps, done (ok (f a)))
put_back f ps (j, done (err e)) = (j, done (err e))
put_back f ps (j, panicked) = (j, panicked)
put_back f ps (j, exhausted) = (j, exhausted)

abbrev message_at :
    {A B : Type 0} → (A → B) → Coding Bytes Cursor A → Cursor → Cursor × Outcome (Result B Bytes)
message_at f merge (in_message inner ps) = put_back f ps (merge (at inner))
message_at f merge i = (i, done (err no_field))

abbrev wrapped :
    ℕ
    → Pieces
    → Pieces × Outcome (Result (Unit {0}) Bytes)
    → Pieces × Outcome (Result (Unit {0}) Bytes)
wrapped n o (inner, r) = (o ⋈ message n inner nil, r)

abbrev listed : Coded plain_protobuf
listed = record {
  type_raw = type_value;
  code_raw = code_value;
  type_eq = λ f g. eqb (type_value f) (type_value g);
  code_eq = λ f g. eqb (code_value f) (code_value g);
  WireType = Bool;
  is_varint = λ wire. wire;
  Error = Bytes;
  unexpected_wire_type = λ wire. no_field;
  Out = Pieces;
  write_enum = λ n v o. (o ⋈ enum n v nil, done (ok tt));
  write_bytes = λ n b o. (o ⋈ bytes n b nil, done (ok tt));
  write_message_field = λ n f o. wrapped n o (f nil);
  In = Cursor;
  eof = at_end;
  read_tag_unpack = tag;
  read_type = enum_at type_from_i32 MessageType.store;
  read_code = enum_at code_from_i32 ErrorCode.ok;
  read_bytes_into = λ wire old. bytes_at;
  read_repeated_into = λ merge fresh wire old. message_at (λ a. old ++ a ∷ []) (merge fresh);
  read_singular_into = λ merge fresh wire old. message_at (λ a. some a) (merge fresh);
  read_unknown = λ n wire i. (i, done (err no_field));
}

read_type_value : (f : MessageType) → type_from_i32 (type_value f) ≡ some f
read_type_value f = (type_from_i32_iff (type_value f) f).1 refl

read_code_value : (f : ErrorCode) → code_from_i32 (code_value f) ≡ some f
read_code_value f = (code_from_i32_iff (code_value f) f).1 refl

type_equal : (f g : MessageType) → eqb (type_value f) (type_value g) ≡ true → f ≡ g
type_equal f g e =
    let same : type_value f ≡ type_value g = ground (arith, e) in
    cc (read_type_value f, read_type_value g, same)

code_equal : (f g : ErrorCode) → eqb (code_value f) (code_value g) ≡ true → f ≡ g
code_equal f g e =
    let same : code_value f ≡ code_value g = ground (arith, e) in
    cc (read_code_value f, read_code_value g, same)

listed_faithful : IsFaithful listed
listed_faithful = record {
  type_same = type_equal;
  code_same = code_equal;
  type_unset = refl;
  code_unset = refl;
  written = λ o. o;
  writes_enum = λ n v o. (o ⋈ enum n v nil, refl, refl);
  writes_bytes = λ n b o. (o ⋈ bytes n b nil, refl, refl);
  writes_message =
      λ n f ps puts o. let (inner, e, w) = puts nil in (o ⋈ message n ps nil, rw (e, w), refl);
  Left = λ ps i. i ≡ at ps;
  AtEnum = λ v ps i. i ≡ in_enum v ps;
  AtBytes = λ wire b ps i. i ≡ in_bytes b ps;
  AtMessage = λ wire inner ps i. i ≡ in_message inner ps;
  ends = λ i here. (i, rw here, here);
  tag_enum = λ n v ps i here. (i, rw here, (true, refl, (in_enum v ps, rw here, refl)));
  tag_bytes = λ n b ps i here. (i, rw here, (false, (in_bytes b ps, rw here, refl)));
  tag_message = λ n inner ps i here. (i, rw here, (false, (in_message inner ps, rw here, refl)));
  reads_type = λ f ps i here. (
    at ps,
    rw here (enum_at_lem type_from_i32 MessageType.store f (type_value f) ps (read_type_value f)),
    refl,
  );
  reads_code = λ f ps i here. (
    at ps,
    rw here (enum_at_lem code_from_i32 ErrorCode.ok f (code_value f) ps (read_code_value f)),
    refl,
  );
  reads_bytes = λ wire b old ps i here. (at ps, rw here, refl);
  reads_repeated = λ merge fresh a wire old inner ps i merges here.
      let (j, e, _) = merges (at inner) refl in (at ps, rw (here, e), refl);
  reads_singular = λ merge fresh a wire inner ps i merges here.
      let (j, e, _) = merges (at inner) refl in (at ps, rw (here, e), refl);
}

abbrev reply : Message plain_protobuf
reply = record (new_message plain_protobuf) {
  field_type = MessageType.find_node;
  value = 9 ∷ [];
  closer_peers = record { id = 1 ∷ []; addrs = 2 ∷ [] } ∷ [];
  code = ErrorCode.not_found;
}

abbrev reply_pieces : Pieces
reply_pieces =
    enum 1 2 (bytes 3 (9 ∷ []) (message 4 (bytes 1 (1 ∷ []) (bytes 2 (2 ∷ []) nil)) (enum 6 2 nil)))

reply_pieces_lem : message_pieces listed reply ≡ reply_pieces
unfolding new_message type_value code_value
reply_pieces_lem = refl

merge_message-write_message_example :
    ((o : Pieces) × (write_message listed reply nil ≡ (o, done (ok tt)))
      × (listed_faithful.written o ≡ listed_faithful.written nil ⋈ message_pieces listed reply))
    × Reads listed
        (merge_message listed 5 (new_message plain_protobuf))
        reply
        (listed_faithful.Left nil)
        (at (message_pieces listed reply))
unfolding listed_faithful
merge_message-write_message_example =
    merge_message-write_message listed listed_faithful reply nil 5
      (at (message_pieces listed reply)) (omega arith) (rw reply_pieces_lem (omega arith)) refl

abbrev listed_sizes : Sizes
listed_sizes = record {
  tag_size = λ n. 1;
  enum_or_unknown_size = λ n v. 2;
  bytes_size = λ n b. 2 + length b;
  compute_raw_varint32_size = λ len. 1;
}

abbrev size : Pieces → ℕ
size nil = 0
size (enum n v ps) = 2 + size ps
size (bytes n b ps) = 2 + length b + size ps
size (message n inner ps) = 1 + 1 + size inner + size ps

size-IsSize : IsSize listed_sizes size
size-IsSize = record {
  size-nil = refl;
  size-enum = λ n v ps. refl;
  size-bytes = λ n b ps. refl;
  size-message = λ n inner ps. refl;
  small_tag = λ n low. refl;
}

compute_size-write_message_example :
    (o : Pieces) × (ps : Pieces) × (write_message listed reply nil ≡ (o, done (ok tt)))
    × (listed_faithful.written o ≡ listed_faithful.written nil ⋈ ps)
    × (compute_size listed_sizes listed reply ≡ size ps)
compute_size-write_message_example =
    compute_size-write_message listed listed_sizes size size-IsSize listed_faithful reply nil
      (rw reply_pieces_lem (omega arith))
