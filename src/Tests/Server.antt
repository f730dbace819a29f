-- ===== src/Tests/Server.antt =====
-- The theorem on connections, at a concrete input.
use s_size_store.Prelude.{filter, none, false, ◌≡◌, refl, true, false, List, [], ◌∷◌}
use s_size_store.Bytes.{codes, cut}
use s_size_store.Handlers.{Context}
use s_size_store.Handlers.Life.{started}
use s_size_store.Server.{
  Attempt, connection, failed, Turn, client_address, skip_spaces, handle_connection,
}
use s_size_store.Server.Connections.{handle_connection_lem, answers, context_after, taken_up}
use s_size_store.Tests.Sample.{
  sample_library, sample_files, sample_draws, sample_request, sample_config, sample_ptr,
}

abbrev turns : List Turn
turns =
    record { request = sample_request; draws = sample_draws; written = true; keep_alive = true }
    ∷ record {
      request = record sample_request { target = codes "/s/r/7?p=3" };
      draws = sample_draws;
      written = true;
      keep_alive = false;
    }
    ∷ []

abbrev start : Context
start = started sample_config sample_ptr

handle_connection_lem_example :
    handle_connection sample_library sample_files (codes "10.0.0.1") turns start ≡ (
      context_after sample_library sample_files (codes "10.0.0.1") (taken_up turns) start,
      answers sample_library sample_files
          (codes "10.0.0.1")
          (filter (λ t. t.written) (taken_up turns))
          start,
    )
handle_connection_lem_example =
    handle_connection_lem sample_library sample_files (codes "10.0.0.1") turns start

-- The proxy's header goes before the peer.
address_test :
    client_address
      (record sample_request { forwarded_for = codes " 1.2.3.4, 10.0.0.9" })
      (codes "127.0.0.1")
    ≡ codes "1.2.3.4"
unfolding client_address skip_spaces cut
address_test = refl

abbrev waits : List Attempt
waits =
    record { stopped = false; result = failed }
    ∷ record { stopped = false; result = connection none turns }
    ∷ []
