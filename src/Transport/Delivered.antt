-- ===== src/Transport/Delivered.antt =====
-- What is asked of the network where servers stand at its other end.
use dht_kad_rs.Base.{Outcome, ◌≡◌, ◌≢◌, ap, ◌∙◌, sym, Option, some, done, ok}
use dht_kad_rs.Kvstore.{KvStore}
use dht_kad_rs.Messages.{Protobuf, Message}
use dht_kad_rs.Rpc.{Method, serve}
use dht_kad_rs.Rpc.State.{DhtServer}
use dht_kad_rs.Transport.{Network, remote}

-- `server w a` is the server that stands at `a` in the world `w`, and `handle` how it handles a call. A connection to a server is made, a
-- stub starts on it, and neither touches a server; a call whose handler returns changes the state of
-- that server as the handler does, touches no other, and brings the handler's answer.
pub record DeliversTo {S : Type 0} {P : Protobuf} (net : Network P)
    (handle : Method → Message P → S → S × Outcome (Message P))
    (server : net.World → net.SocketAddr → Option S) : Type 0 where
  pub end_of : net.Connection → net.SocketAddr
  pub target : net.Stub → net.SocketAddr
  pub connects :
      (w : net.World) (a : net.SocketAddr) (s : S)
      → server w a ≡ some s
      → (w' : net.World) × (conn : net.Connection) × (net.connect a w ≡ (w', ok conn))
        × (end_of conn ≡ a)
        × ((b : net.SocketAddr) → server w' b ≡ server w b)
  pub spawns :
      (w : net.World) (conn : net.Connection)
      → (w' : net.World) × (stub : net.Stub) × (net.spawn conn w ≡ (w', ok stub))
        × (target stub ≡ end_of conn)
        × ((b : net.SocketAddr) → server w' b ≡ server w b)
  pub answers :
      (w : net.World) (stub : net.Stub) (c : Method) (m : Message P) (s s' : S) (r : Message P)
      → server w (target stub) ≡ some s
      → handle c m s ≡ (s', done r)
      → (w' : net.World) × (net.call stub c m w ≡ (w', ok r))
        × (server w' (target stub) ≡ some s')
        × ((b : net.SocketAddr) → b ≢ target stub → server w' b ≡ server w b)

-- The servers are those of this library.
abbrev pub Delivers :
    {K : KvStore} {P : Protobuf} (net : Network P)
    → (net.World → net.SocketAddr → Option (DhtServer K))
    → Type 0
Delivers {K} {P} net server = DeliversTo net (serve K P) server

-- A remote call of a method on the server at an address, from start to end.
pub remote_delivered :
    {S : Type 0} {P : Protobuf} {net : Network P}
    {handle : Method → Message P → S → S × Outcome (Message P)}
    {server : net.World → net.SocketAddr → Option S}
    → DeliversTo net handle server
    → (w : net.World) (a : net.SocketAddr) (c : Method) (m : Message P) (s s' : S) (r : Message P)
    → server w a ≡ some s
    → handle c m s ≡ (s', done r)
    → (w' : net.World) × (remote net c a m w ≡ (w', ok r))
      × (server w' a ≡ some s')
      × ((b : net.SocketAddr) → b ≢ a → server w' b ≡ server w b)
unfolding remote
remote_delivered {server = server} d w a c m s s' r here runs =
    let (w1, conn, e1, at, same1) = d.connects w a s here in
    let (w2, stub, e2, at', same2) = d.spawns w1 conn in
    let there = at' ∙ at in
    let (w3, e3, now, same3) =
      d.answers w2 stub c m s s' r (ap (server w2) there ∙ same2 a ∙ same1 a ∙ here) runs in
    (
      w3,
      rw (e1, e2, e3),
      ap (server w3) (sym there) ∙ now,
      λ b apart. same3 b (λ z. apart (z ∙ there)) ∙ same2 b ∙ same1 b,
    )
