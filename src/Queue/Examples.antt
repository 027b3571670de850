-- ===== src/Queue/Examples.antt =====
-- Runs of the queue bounds on concrete inputs.
use ue4sslua_event_bridge.Base.{ℕ, [], arith}
use ue4sslua_event_bridge.Queue.Capacity.{with_limit, IsWithin, enqueue_depth, enqueue-IsWithin}
use ue4sslua_event_bridge.Queue.Buffers.{Buffer}

enqueue-IsWithin_example :
    IsWithin (enqueue_depth (with_limit 2) 0).0 (enqueue_depth (with_limit 2) 0).1
enqueue-IsWithin_example =
    enqueue-IsWithin (with_limit 2) 0 (record { bounded = λ h. omega arith; marked = omega arith })

abbrev big_batch : Buffer ℕ
big_batch = record { items = []; room = 8 }
