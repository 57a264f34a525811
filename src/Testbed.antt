-- ===== src/Testbed.antt =====
-- testbed/src/main.rs: what `main` makes of the command line, and `run_testbed`. The command line
-- as clap reads it, the standard library's parsers and the random bytes are parameters.
pub mod Arguments
pub mod Passed
pub mod Connected
pub mod Networked
mod Tests
use dht_kad_rs.Base
use dht_kad_rs.Base.{
  ℕ, zero, suc, ◌+◌, List, [], ◌∷◌, Option, none, some, Bool, eqb, length, get_elem?, if◌then◌else◌,
  Outcome, done, panicked, unwrap, Result, ok, err, ◌==◌, list_eq, nat_eq,
}
use dht_kad_rs.Base.Effects.{Effect, ◌>>=◌, lift, pure}
use dht_kad_rs.Kvstore.{Bytes}
use dht_kad_rs.Messages.{Protobuf}
use dht_kad_rs.Messages.Util.{IoError, RpcError}
use dht_kad_rs.RoutingTable.Peers.{Peer}
use dht_kad_rs.Transport.{Network}
use dht_kad_rs.Service.Node.{DhtConfig}

abbrev pub Text : Type 0
Text = List ℕ

-- What clap found for each argument.
pub record Flags : Type 0 where
  pub address : Option Text
  pub bootstrap_address : Option (List Text)
  pub bootstrap_id : Option (List Text)
  pub node_id : Option Text
  pub test_iterations : Option Text

-- `to_socket_addrs`, which may ask a name server, and `parse` at `u128` and at `usize`.
pub record Parsers (SocketAddr : Type 0) : Type 0 where
  pub to_socket_addrs : Text → Option (List SocketAddr)
  pub parse_u128 : Text → Option ℕ
  pub parse_usize : Text → Option ℕ

-- `Iterator::next`.
abbrev pub first {ℓ} : {A : Type ℓ} → List A → Option A
first [] = none
first (x ∷ xs) = some x

-- The values of an argument, none if it is not there.
abbrev pub values : Option (List Text) → List Text
values none = []
values (some vs) = vs

module _ {P : Protobuf} (net : Network P) (parsers : Parsers net.SocketAddr) where
  unfoldable pub resolve : Text → Outcome net.SocketAddr
  resolve t = Base.◌>>=◌ (unwrap (parsers.to_socket_addrs t)) (λ found. unwrap (first found))

  -- The peer of the address `a` at the position `index`.
  unfoldable pub bootstrap_peer : List Text → ℕ → Text → Outcome Peer
  bootstrap_peer id_list index a = Base.◌>>=◌ (unwrap (get_elem? id_list index)) (λ i.
      Base.◌>>=◌ (unwrap (parsers.parse_u128 i))
        (λ id. Base.◌>>=◌ (resolve a) (λ s. done (record { id = id; address = net.to_string s }))))

  -- The loop over the addresses, from the position `index` on.
  unfoldable pub collect : List Text → ℕ → List Text → Outcome (List Peer)
  collect id_list index [] = done []
  collect id_list index (a ∷ addrs) =
      Base.◌>>=◌ (bootstrap_peer id_list index a)
        (λ p. Base.◌>>=◌ (collect id_list (index + 1) addrs) (λ ps. done (p ∷ ps)))

  unfoldable pub bootstrap_peers : List Text → List Text → Outcome (List Peer)
  bootstrap_peers addrs id_list =
      if eqb (length addrs) (length id_list) then collect id_list 0 addrs else panicked

  -- A number that an argument gives, or a default.
  abbrev pub number : (Text → Option ℕ) → Option Text → ℕ → Outcome ℕ
  number parse none default = done default
  number parse (some t) default = unwrap (parse t)

  -- `main` up to the service: its configuration, and the number of iterations. `created` is what
  -- `create_id` would return.
  unfoldable pub configure : Flags → ℕ → Outcome (DhtConfig net × ℕ)
  configure flags created = Base.◌>>=◌ (unwrap flags.address) (λ text.
      Base.◌>>=◌ (resolve text) (λ address.
        Base.◌>>=◌ (bootstrap_peers (values flags.bootstrap_address) (values flags.bootstrap_id))
          (λ peers. Base.◌>>=◌ (number parsers.parse_u128 flags.node_id created) (λ id.
            Base.◌>>=◌ (number parsers.parse_usize flags.test_iterations 150) (λ iterations.
              let c : DhtConfig net = record {
                k = 20;
                alpha = 10;
                bootstrap_peers = peers;
                id = id;
                address = address;
              } in
              done (c, iterations))))))

-- A service as `run_testbed` sees it, in a world that it changes.
pub record Dht : Type 1 where
  pub World : Type 0
  pub init : Effect World (Result (Unit {0}) IoError)
  pub put : Bytes → Bytes → Effect World (Result (Unit {0}) RpcError)
  pub get : Bytes → Effect World (Result Bytes RpcError)

abbrev pub unwrap_ok {ℓ κ} : {A : Type ℓ} {E : Type κ} → Result A E → Outcome A
unwrap_ok (ok a) = done a
unwrap_ok (err e) = panicked

module _ (dht : Dht) where
  -- The first loop over the test data.
  unfoldable pub puts : List (Bytes × Bytes) → Effect dht.World (Unit {0})
  puts [] = pure tt
  puts ((k, v) ∷ rest) = do r ← dht.put k v; _ ← lift (unwrap_ok r); puts rest

  -- The second one, with its assertion.
  unfoldable pub gets : List (Bytes × Bytes) → Effect dht.World (Unit {0})
  gets [] = pure tt
  gets ((k, v) ∷ rest) = do
    r ← dht.get k
    found ← lift (unwrap_ok r)
    _ ← lift (if found == v then done tt else panicked)
    gets rest

  -- `test_data` is what the random generator made.
  unfoldable pub run_testbed : List (Bytes × Bytes) → Effect dht.World (Unit {0})
  run_testbed test_data = do
    r ← dht.init
    _ ← lift (unwrap_ok r)
    _ ← puts test_data
    gets test_data
