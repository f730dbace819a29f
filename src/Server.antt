-- ===== src/Server.antt =====
-- src/http_server.hpp and src/http_server.cpp: one connection, whose reads and writes are Boost.Asio's
-- and arguments here.
pub mod Connections
pub mod Accepting
use s_size_store.Prelude.{
  ℕ, Bool, true, false, ◌&&◌, List, [], ◌∷◌, Option, none, some, if◌then◌else◌, ◌==◌, nat_eq,
}
use s_size_store.Bytes.{Bytes, codes, cut, is_empty}
use s_size_store.Http.{HttpRequest, HttpResponse}
use s_size_store.Handlers.{Library, Draws, Context}
use s_size_store.Handlers.Files.{FileSystem}
use s_size_store.Handlers.Dispatch.{dispatch}

unfoldable pub skip_spaces : Bytes → Bytes
skip_spaces [] = []
skip_spaces (c ∷ s) = let rest = skip_spaces s in if c == b' ' then rest else c ∷ s

-- The address of a visitor: the first one that the proxy names, or else the peer's.
unfoldable pub client_address : HttpRequest → Bytes → Bytes
unfolding skip_spaces
client_address req peer =
    if is_empty req.forwarded_for then peer else skip_spaces (cut b',' req.forwarded_for).0

-- One turn of the loop: a request that is read, what the system gives while it is handled, and
-- whether its response can be written and the connection is kept.
pub record Turn : Type 0 where
  pub request : HttpRequest
  pub draws : Draws
  pub written : Bool
  pub keep_alive : Bool

-- `handle_connection` on the requests that can be read from the socket: the context that it leaves
-- and the responses that it writes.
unfoldable pub handle_connection :
    Library → FileSystem → Bytes → List Turn → Context → Context × List HttpResponse
unfolding client_address
handle_connection lib fs peer [] ctx = (ctx, [])
handle_connection lib fs peer (t ∷ turns) ctx =
    let (ctx', res) = dispatch lib fs t.draws t.request (client_address t.request peer) ctx in
    let (last, more) = handle_connection lib fs peer turns ctx' in
    let kept = if t.keep_alive then (last, res ∷ more) else (ctx', res ∷ []) in
    if t.written then kept else (ctx', [])

-- `peer_ip`: none is a socket that cannot tell.
unfoldable pub peer_ip : Option Bytes → Bytes
peer_ip none = codes "0.0.0.0"
peer_ip (some ip) = ip

-- What `async_accept` ends with: a socket and the requests that come over it, the error of a cancelled
-- operation, or another one.
pub data Accepted : Type 0 where
  connection : Option Bytes → List Turn → Accepted
  aborted failed : Accepted

-- One wait for a connection, and whether the server has been stopped when it ends.
pub record Attempt : Type 0 where
  pub stopped : Bool
  pub result : Accepted

abbrev pub Connection : Type 0
Connection = Bytes × List Turn

-- `accept_loop`: the connections for which it spawns `handle_connection`.
unfoldable pub accept_loop : List Attempt → List Connection
unfolding peer_ip
accept_loop [] = []
accept_loop (a ∷ attempts) =
    let rest = accept_loop attempts in
    let answered : List Connection = elim a.result [
      | connection ip turns ↦ (peer_ip ip, turns) ∷ rest
      | aborted ↦ []
      | failed ↦ rest
    ] in
    if a.stopped then [] else answered

-- The thread of `HttpServer::start`: an exception while it opens its port is logged, and it ends.
unfoldable pub listen : Bool → List Attempt → List Connection
unfolding accept_loop
listen opened attempts = if opened then accept_loop attempts else []
