-- ===== src/Server/Accepting.antt =====
-- Which connections are taken.
use s_size_store.Prelude.{
  ◌≡◌, ◌∙◌, ap, true, false, Bool, not, ◌&&◌, List, [], ◌∷◌, ◌++◌, arith, All,
}
use s_size_store.Server.{
  Attempt, Accepted, Connection, connection, aborted, failed, accept_loop, peer_ip,
}

-- The attempt neither finds the server stopped nor its own operation cancelled.
abbrev pub is_cancelled : Accepted → Bool
is_cancelled aborted = true
is_cancelled (connection ip turns) = false
is_cancelled failed = false

abbrev pub goes_on : Attempt → Bool
goes_on a = not a.stopped && not (is_cancelled a.result)

abbrev pub socket_of : Accepted → List Connection
socket_of (connection ip turns) = (peer_ip ip, turns) ∷ []
socket_of aborted = []
socket_of failed = []

pub sockets : List Attempt → List Connection
sockets [] = []
sockets (a ∷ attempts) = socket_of a.result ++ sockets attempts

accept_loop-step :
    (a : Attempt) (attempts : List Attempt)
    → goes_on a ≡ true
    → accept_loop (a ∷ attempts) ≡ socket_of a.result ++ accept_loop attempts
unfolding accept_loop
accept_loop-step a attempts h = ground arith

-- Every connection that comes before the stop is handled, in order, whatever errors come in between;
-- from the first wait that ends in a stopped server, or is cancelled, none is.
pub accept_loop_lem :
    (before after : List Attempt) (last : Attempt)
    → All (λ a. goes_on a ≡ true) before
    → goes_on last ≡ false
    → accept_loop (before ++ last ∷ after) ≡ sockets before
unfolding sockets accept_loop
accept_loop_lem [] after last h over = ground arith
accept_loop_lem (a ∷ before) after last (first, h) over =
    accept_loop-step a (before ++ last ∷ after) first
    ∙ ap (λ (cs : List Connection). socket_of a.result ++ cs)
        (accept_loop_lem before after last h over)
