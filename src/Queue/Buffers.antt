-- ===== src/Queue/Buffers.antt =====
-- bridge/include/QueueBuffers.hpp: the readiness flag, the backlog count of the statistics, and the
-- exchange of a queue with a spare buffer. Flags and counts are atomics with one writer each, and
-- are plain values here. A std::vector is its elements and its capacity.
use ue4sslua_event_bridge.Base.{
  length, is_nil, ℕ, ◌+◌, ◌≤◌, max, ◌≡◌, refl, Bool, true, false, ◌&&◌, List, [], ◌∷◌, ◌++◌, arith,
  ltb, leb, if◌then◌else◌,
}

pub record QueueReadiness : Type 0 where
  pub pending : Bool

unfoldable pub publish : QueueReadiness → QueueReadiness
publish q = record { pending = true }

unfoldable pub drained : QueueReadiness → QueueReadiness
drained q = record { pending = false }

pub record ConsumerBacklogCount : Type 0 where
  pub remaining_count : ℕ

unfoldable pub remaining : ConsumerBacklogCount → ℕ → ConsumerBacklogCount
remaining c count = record { remaining_count = count }

unfoldable pub total : ConsumerBacklogCount → ℕ → ℕ
total c producer = producer + c.remaining_count

pub record Buffer {ℓ} (A : Type ℓ) : Type ℓ where
  pub items : List A
  pub room : ℕ

abbrev max_retained_elements : ℕ
max_retained_elements = 4096

module _ {ℓ} {A : Type ℓ} where
  abbrev pub no_buffer : Buffer A
  no_buffer = record { items = []; room = 0 }

  -- The standard leaves the growth of a vector open; the least growth is taken.
  unfoldable pub push_back : Buffer A → A → Buffer A
  push_back b a = record { items = b.items ++ (a ∷ []); room = max b.room (length b.items + 1) }

  unfoldable pub clear : Buffer A → Buffer A
  clear b = record b { items = [] }

  -- The batch, the queue and the spare buffer afterwards.
  unfoldable pub drain_queue : Buffer A → Buffer A → Buffer A × Buffer A × Buffer A
  drain_queue queue spare = (queue, spare, no_buffer)

  -- The spare buffer and the batch afterwards.
  unfoldable pub retain_empty_buffer : Buffer A → Buffer A → Buffer A × Buffer A
  retain_empty_buffer spare batch =
      if is_nil batch.items && (leb batch.room max_retained_elements && ltb spare.room batch.room)
      then (batch, spare)
      else (spare, batch)

  -- Draining with an empty spare buffer hands over the whole queue in its order and leaves it empty.
  pub drain_queue_lem :
      (queue spare : Buffer A)
      → spare.items ≡ []
      → let (batch, queue', spare') = drain_queue queue spare in
        (batch.items ≡ queue.items) × (queue'.items ≡ []) × (spare'.items ≡ [])
  unfolding drain_queue
  drain_queue_lem queue spare e = (refl, e, refl)

  -- A recycled buffer never brings elements into the spare one, never shrinks it, and never makes it
  -- larger than 4096 elements unless it was so before.
  pub retain_empty_buffer_lem :
      (spare batch : Buffer A)
      → spare.items ≡ []
      → let kept = (retain_empty_buffer spare batch).0 in
        (kept.items ≡ []) × (spare.room ≤ kept.room) × (kept.room ≤ max spare.room 4096)
  unfolding retain_empty_buffer
  retain_empty_buffer_lem spare batch e = ground arith
