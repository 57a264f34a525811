-- ===== src/Client/Queries/Tests.antt =====
-- A lookup with two candidates, whose tasks end in the other order.
use dht_kad_rs.Base.{Result, ok, err, ◌+◌, ◌<◌, ◌≡◌, refl, [], ◌∷◌, length, arith, done}
use dht_kad_rs.Base.Sort.{sort_by, insert}
use dht_kad_rs.Base.Text.{codes}
use dht_kad_rs.Messages.Tests.{plain_protobuf, sender}
use dht_kad_rs.RoutingTable.Peers.{Peer}
use dht_kad_rs.Transport.Tests.{lossless}
use dht_kad_rs.Messages.{Message, new_message}
use dht_kad_rs.Messages.Util.{IoError}
use dht_kad_rs.Client.Queries.Found.{lookup_finds}
use dht_kad_rs.Client.{
  Lookup, waiting, answered, handle, handle_reply, lookup, sort_and_spawn, spawn, pop,
}
use dht_kad_rs.Client.Tests.{peer_a, peer_b, world}
use dht_kad_rs.Client.Queries.{Search, begin, ended, spawned, Step, ends, Reach, here, next}
use dht_kad_rs.Client.Queries.Counted.{Reach-in_progress}
use dht_kad_rs.Client.Queries.Stuck.{Reach-goes_on, lookup_hangs}

abbrev start : Lookup
start = record { candidates = peer_a ∷ peer_b ∷ []; queried = []; in_progress = 0 }

abbrev begun : Search lossless 2 3 sender
begun = begin lossless 2 3 sender start world

-- The task of the peer that is farther ends first.
reaches : Reach lossless 2 3 sender begun (ended lossless 2 3 sender begun 1 peer_b)
unfolding begin lookup sort_and_spawn spawn pop spawned sort_by insert
reaches = next here (ends 1 peer_b refl)

abbrev later : Search lossless 2 3 sender
later = ended lossless 2 3 sender begun 1 peer_b

abbrev waits : Lookup
waits = record { candidates = []; queried = peer_a ∷ peer_b ∷ []; in_progress = 2 }

begun_waits : begun.function ≡ done (waiting waits)
unfolding begin lookup sort_and_spawn spawn pop sort_by insert
begun_waits = refl

Reach-in_progress_example :
    (waits.in_progress ≡ length begun.in_flight + length begun.channel + begun.lost)
    × (0 < waits.in_progress)
Reach-in_progress_example =
    Reach-in_progress lossless 2 3 sender start world waits (omega arith) refl here begun_waits

Reach-goes_on_example : (τ : Search lossless 2 3 sender) × Step lossless 2 3 sender begun τ
unfolding begin
Reach-goes_on_example =
    Reach-goes_on lossless 2 3 sender start world waits (omega arith) refl here begun_waits refl

abbrev unreadable : Peer
unreadable = record { id = 3; address = [] }

abbrev lone : Lookup
lone = record { candidates = unreadable ∷ []; queried = []; in_progress = 0 }

lookup_hangs_example :
    (σ : Search lossless 2 3 sender) × Reach lossless 2 3 sender
      (begin lossless 2 3 sender lone world)
      σ
    × ((s' : Lookup) × (σ.function ≡ done (waiting s')))
    × ((τ : Search lossless 2 3 sender) → ¬ Step lossless 2 3 sender σ τ)
lookup_hangs_example = lookup_hangs lossless 2 3 sender unreadable world (omega arith) refl

-- A failure, and then a reply with a value.
abbrev value_reply : Message plain_protobuf
value_reply = record (new_message plain_protobuf) { value = 9 ∷ [] }

abbrev failure : Result (Message plain_protobuf) IoError
failure = err (record { text = [] })

abbrev three : Lookup
three = record {
  candidates = peer_a ∷ peer_b ∷ record { id = 9; address = codes "c" } ∷ [];
  queried = [];
  in_progress = 0;
}

lookup_finds_example :
    lookup 2 3 (failure ∷ ok value_reply ∷ failure ∷ []) three ≡ done (answered (ok (9 ∷ [])))
unfolding lookup sort_and_spawn spawn pop sort_by insert handle handle_reply
lookup_finds_example =
    lookup_finds 2 3 (failure ∷ []) (failure ∷ []) value_reply three _ (omega arith) refl
      (omega arith)
