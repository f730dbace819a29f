-- ===== src/Events/Buffers.antt =====
-- The buffers under any order of pushes and drains.
use s_size_store.Prelude.{
  ℕ, ◌+◌, ◌≤◌, ◌≡◌, refl, Bool, true, false, List, [], ◌∷◌, ◌++◌, arith, length, length-append,
  append_assoc, append-nil,
}
use s_size_store.Models.{Event}
use s_size_store.Events.{EventQueue, event_queue, push_event, drain_events}

-- What a thread does to a buffer of elements of one type.
pub data Op (A : Type 0) : Type 0 where
  push : A → Op A
  drain : Op A

-- A buffer with its history: what the drains have returned, which elements `push` answered true to,
-- and how often it answered false.
pub record Run : Type 0 where
  pub queue : EventQueue
  pub drained : List Event
  pub accepted : List Event
  pub refused : ℕ

abbrev pushed : Event → EventQueue × Bool → Run → Run
pushed ev (q, true) r = record r { queue = q; accepted = r.accepted ++ ev ∷ [] }
pushed ev (q, false) r = record r { queue = q; refused = r.refused + 1 }

unfoldable pub perform : Op Event → Run → Run
perform (push ev) r = pushed ev (push_event ev r.queue) r
perform drain r =
    let (q, batch) = drain_events r.queue in record r { queue = q; drained = r.drained ++ batch }

unfoldable pub perform_all : List (Op Event) → Run → Run
perform_all [] r = r
perform_all (op ∷ ops) r = perform_all ops (perform op r)

abbrev pub fresh_run : ℕ → Run
fresh_run cap = record { queue = event_queue cap; drained = []; accepted = []; refused = 0 }

pub record IsAccounted (cap : ℕ) (r : Run) : Type 0 where
  pub in_order : r.drained ++ r.queue.pending ≡ r.accepted
  pub counted : r.queue.dropped ≡ r.refused
  pub bounded : length r.queue.pending ≤ cap
  pub same_cap : r.queue.max_pending ≡ cap

perform-IsAccounted :
    {cap : ℕ} (op : Op Event) (r : Run) → IsAccounted cap r → IsAccounted cap (perform op r)
unfolding perform push_event drain_events
perform-IsAccounted (push ev) r h = ground (
  arith,
  append_assoc r.drained r.queue.pending (ev ∷ []),
  length-append r.queue.pending (ev ∷ []),
)
perform-IsAccounted drain r h = ground (arith, append-nil (r.drained ++ r.queue.pending))

perform_all-IsAccounted :
    {cap : ℕ} (ops : List (Op Event)) (r : Run)
    → IsAccounted cap r
    → IsAccounted cap (perform_all ops r)
unfolding perform_all
perform_all-IsAccounted [] r h = h
perform_all-IsAccounted (op ∷ ops) r h =
    perform_all-IsAccounted ops (perform op r) (perform-IsAccounted op r h)

-- Whatever the order of pushes and drains: the drained events and then the pending ones are exactly
-- the events that `push` answered true to, each once and in their order; the counter counts the
-- others; and the buffer never holds more than its capacity.
pub event_queue-IsAccounted :
    (cap : ℕ) (ops : List (Op Event)) → IsAccounted cap (perform_all ops (fresh_run cap))
event_queue-IsAccounted cap ops =
    perform_all-IsAccounted ops (fresh_run cap)
      (record { in_order = refl; counted = refl; bounded = omega arith; same_cap = refl })
