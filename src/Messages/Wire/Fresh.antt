-- ===== src/Messages/Wire/Fresh.antt =====
-- `clear` and `is_initialized`.
use dht_kad_rs.Base.{◌≡◌, refl, sym, List, [], ◌∷◌, true}
use dht_kad_rs.Messages.Types.{Protobuf, ProtoPeer, Message, new_message}
use dht_kad_rs.Messages.Coded.{Coded}
use dht_kad_rs.Messages.Wire.{clear, all_initialized, peer_is_initialized, is_initialized}
use dht_kad_rs.Messages.Wire.Pieces.{IsFaithful}

-- A cleared message is a new one.
clear-new_message :
    {P : Protobuf} (C : Coded P) → IsFaithful C → (m : Message P) → clear m ≡ new_message P
unfolding clear new_message
clear-new_message C law m = rw (sym law.type_unset, sym law.code_unset)

all_initialized_lem : (ps : List ProtoPeer) → all_initialized ps ≡ true
unfolding all_initialized peer_is_initialized
all_initialized_lem [] = refl
all_initialized_lem (p ∷ ps) = all_initialized_lem ps

-- No field is required.
is_initialized_lem : {P : Protobuf} (m : Message P) → is_initialized m ≡ true
unfolding is_initialized
is_initialized_lem m = rw (all_initialized_lem m.closer_peers) (all_initialized_lem _)
