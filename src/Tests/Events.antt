-- ===== src/Tests/Events.antt =====
-- The theorems on the buffers and on the clients, at concrete inputs.
use s_size_store.Prelude.{◌≡◌, refl, List, [], ◌∷◌}
use s_size_store.Models.{blank_event, impression, card_click}
use s_size_store.Events.{push_event, drain_events}
use s_size_store.Events.Buffers.{
  perform, event_queue-IsAccounted, IsAccounted, perform_all, fresh_run, Op, push, drain,
}
use s_size_store.Models.{Event}

abbrev ops : List (Op Event)
ops =
    push (blank_event impression)
    ∷ push (blank_event card_click)
    ∷ drain
    ∷ push (blank_event impression)
    ∷ []

event_queue-IsAccounted_example : IsAccounted 1 (perform_all ops (fresh_run 1))
event_queue-IsAccounted_example = event_queue-IsAccounted 1 ops

-- The second event finds a buffer of one event full.
refused_test : (perform_all ops (fresh_run 1)).refused ≡ 1
unfolding perform_all perform push_event drain_events
refused_test = refl
