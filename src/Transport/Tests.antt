-- ===== src/Transport/Tests.antt =====
-- A network without loss, with servers that keep their values in memory.
use dht_kad_rs.Base.{
  ◌≡◌, ◌≢◌, refl, ◌∙◌, sym, Bool-cases, inl, inr, ℕ, List, [], ◌∷◌, Option, none, some, Outcome,
  done, Result, ok, err, ◌==◌, list_eq, nat_eq, same_of_eq, eq_of_same, if◌then◌else◌,
}
use dht_kad_rs.Base.HashMap
use dht_kad_rs.Base.HashMap.{get-insert}
use dht_kad_rs.Base.Text.{codes}
use dht_kad_rs.Kvstore.{memory_store}
use dht_kad_rs.Messages.{Message}
use dht_kad_rs.Messages.Util.{IoError}
use dht_kad_rs.Messages.Tests.{plain_protobuf}
use dht_kad_rs.Rpc.{Method, serve}
use dht_kad_rs.Rpc.State.{DhtServer}
use dht_kad_rs.Transport.{Network}
use dht_kad_rs.Transport.Delivered.{DeliversTo, Delivers}

abbrev pub Address : Type 0
Address = List ℕ

pub address_dec : (a b : Address) → Dec (a ≡ b)
address_dec a b = elim (Bool-cases (a == b)) [
  | inl same ↦ yes (eq_of_same a b same)
  | inr other ↦ no (λ e. cc (same_of_eq a b e))
]

-- No address is empty.
abbrev read_address : List ℕ → Option Address
read_address [] = none
read_address (c ∷ cs) = some (c ∷ cs)

abbrev refused : IoError
refused = record { text = codes "connection refused" }

abbrev timed_out : IoError
timed_out = record { text = codes "deadline exceeded" }

-- Servers of any kind at their addresses.
module _ {S : Type 0} where
  abbrev pub at : List (Address × S) → Address → Option S
  at w a = HashMap.get w a

  abbrev connect_to :
      List (Address × S) → Address → Option S → List (Address × S) × Result Address IoError
  connect_to w a none = (w, err refused)
  connect_to w a (some s) = (w, ok a)

  -- A handler that does not return is a call without an answer.
  abbrev answer_of :
      List (Address × S)
      → Address
      → S × Outcome (Message plain_protobuf)
      → List (Address × S) × Result (Message plain_protobuf) IoError
  answer_of w a (s, done r) = (HashMap.insert w a s, ok r)
  answer_of w a (s, _) = (HashMap.insert w a s, err timed_out)

  module _
      (handle : Method → Message plain_protobuf → S → S × Outcome (Message plain_protobuf)) where
    abbrev call_on :
        List (Address × S)
        → Address
        → Method
        → Message plain_protobuf
        → Option S
        → List (Address × S) × Result (Message plain_protobuf) IoError
    call_on w a c m none = (w, err refused)
    call_on w a c m (some s) = answer_of w a (handle c m s)

    abbrev pub lossless_to : Network plain_protobuf
    lossless_to = record {
      SocketAddr = Address;
      Connection = Address;
      Stub = Address;
      World = List (Address × S);
      parse = read_address;
      to_string = λ a. a;
      connect = λ a w. connect_to w a (at w a);
      spawn = λ a w. (w, ok a);
      call = λ a c m w. call_on w a c m (at w a);
    }

    pub lossless_to-DeliversTo : DeliversTo lossless_to handle at
    lossless_to-DeliversTo = record {
      end_of = λ a. a;
      target = λ a. a;
      connects = λ w a s here. (w, a, rw here, refl, λ b. refl);
      spawns = λ w a. (w, a, refl, refl, λ b. refl);
      answers = λ w a c m s s' r here runs. (
        HashMap.insert w a s',
        rw (here, runs),
        get-insert w a a s' ∙ rw (same_of_eq a a refl),
        λ b apart. get-insert w a b s' ∙ elsewhere w a b s' apart,
      );
    }
      where
        elsewhere :
            (w : List (Address × S)) (a b : Address) (s : S)
            → b ≢ a
            → (if a == b then some s else at w b) ≡ at w b
        elsewhere w a b s apart = elim (Bool-cases (a == b)) [
          | inl same ↦ absurd (apart (sym (eq_of_same a b same)))
          | inr other ↦ rw other
        ]

-- The servers of this library, with a store in memory.
abbrev pub Servers : Type 0
Servers = List (Address × DhtServer memory_store)

abbrev pub server : Servers → Address → Option (DhtServer memory_store)
server w a = at w a

abbrev pub lossless : Network plain_protobuf
lossless = lossless_to (serve memory_store plain_protobuf)

pub lossless-Delivers : Delivers lossless server
lossless-Delivers = lossless_to-DeliversTo (serve memory_store plain_protobuf)
