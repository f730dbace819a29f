-- ===== src/Server/Connections.antt =====
-- Which requests of a connection are handled, and which responses it gets.
use s_size_store.Prelude.{
  ◌≡◌, refl, ap, ◌&&◌, List, [], ◌∷◌, filter, if◌then◌else◌, Bool-cases, inl, inr,
}
use s_size_store.Bytes.{Bytes}
use s_size_store.Http.{HttpResponse}
use s_size_store.Handlers.{Library, Context}
use s_size_store.Handlers.Files.{FileSystem}
use s_size_store.Handlers.Dispatch.{dispatch}
use s_size_store.Server.{Turn, client_address, handle_connection}

-- The requests up to the first whose response cannot be written or after which the connection is not
-- kept, with that one.
abbrev pub taken_up : List Turn → List Turn
taken_up [] = []
taken_up (t ∷ turns) =
    let rest = taken_up turns in if t.written && t.keep_alive then t ∷ rest else t ∷ []

module _ (lib : Library) (fs : FileSystem) (peer : Bytes) where
  -- The context after all of some requests, one after another, each under the address of its client.
  abbrev pub context_after : List Turn → Context → Context
  context_after [] ctx = ctx
  context_after (t ∷ turns) ctx =
      context_after turns (dispatch lib fs t.draws t.request (client_address t.request peer) ctx).0

  -- Their responses.
  abbrev pub answers : List Turn → Context → List HttpResponse
  answers [] ctx = []
  answers (t ∷ turns) ctx =
      let out = dispatch lib fs t.draws t.request (client_address t.request peer) ctx in
      out.1 ∷ answers turns out.0

  -- A connection handles its requests in order, each under the address of its client, up to the first
  -- whose response cannot be written or after which it is not kept, with that one, and no other. It
  -- writes the responses of these, but for one that cannot be written.
  pub handle_connection_lem :
      (turns : List Turn) (ctx : Context)
      → handle_connection lib fs peer turns ctx ≡ (
        context_after (taken_up turns) ctx,
        answers (filter (λ t. t.written) (taken_up turns)) ctx,
      )
  unfolding handle_connection
  handle_connection_lem [] ctx = refl
  handle_connection_lem (t ∷ turns) ctx =
      let out = dispatch lib fs t.draws t.request (client_address t.request peer) ctx in
      elim (Bool-cases t.written) [
        | inr failed ↦ rw (failed, handle_connection) refl
        | inl written ↦ elim (Bool-cases t.keep_alive) [
          | inr last ↦ rw (written, last, handle_connection) refl
          | inl kept ↦
              rw (written, kept, handle_connection)
                (ap (λ (o : Context × List HttpResponse). (o.0, out.1 ∷ o.1))
                  (handle_connection_lem turns out.0))
        ]
      ]
