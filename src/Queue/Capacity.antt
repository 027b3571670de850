-- ===== src/Queue/Capacity.antt =====
-- QueueCapacity of bridge/include/QueueCapacity.hpp: the bound of a queue, its statistics and the
-- one warning of an overflow episode. `rejected` is a uint64_t.
use ue4sslua_event_bridge.Base.{
  ℕ, ◌+◌, ◌%◌, ◌^◌, ◌≤◌, ◌≡◌, ◌≢◌, ◌↔◌, Bool, true, false, not, ◌&&◌, arith, ltb, leb, ◌==◌,
  if◌then◌else◌,
}

pub record QueueCapacity : Type 0 where
  pub limit : ℕ
  pub high_water : ℕ
  pub rejected : ℕ
  pub warning_pending : Bool
  pub overflow_reported : Bool

abbrev pub with_limit : ℕ → QueueCapacity
with_limit limit = record {
  limit = limit;
  high_water = 0;
  rejected = 0;
  warning_pending = false;
  overflow_reported = false;
}

unfoldable pub admit : QueueCapacity → ℕ → QueueCapacity × Bool
admit c depth =
    if not (c.limit == 0) && leb c.limit depth
    then (
      record c {
        rejected = (c.rejected + 1) % 2 ^ 64;
        warning_pending = (if c.overflow_reported then c.warning_pending else true);
        overflow_reported = true;
      },
      false,
    )
    else (record c { overflow_reported = false; warning_pending = false }, true)

unfoldable pub accepted : QueueCapacity → ℕ → QueueCapacity
accepted c depth = if ltb c.high_water depth then record c { high_water = depth } else c

-- A depth is refused exactly when there is a limit and the depth has reached it; a refusal counts
-- one rejection, and the limit and the high-water mark stay as they are either way.
pub admit_exact :
    (c : QueueCapacity) (depth : ℕ)
    → ((admit c depth).1 ≡ false ↔ (c.limit ≢ 0) × (c.limit ≤ depth))
      × ((admit c depth).0.rejected
          ≡ (if (admit c depth).1 then c.rejected else (c.rejected + 1) % 2 ^ 64))
      × ((admit c depth).0.limit ≡ c.limit)
      × ((admit c depth).0.high_water ≡ c.high_water)
unfolding admit
admit_exact c depth = ground arith

-- The whole of one episode: from a state in which nothing was reported, the first refusal raises the
-- warning, and after it was taken no further refusal raises it again until a depth is admitted.
pub one_warning :
    (c : QueueCapacity) (d e : ℕ)
    → c.overflow_reported ≡ false
    → (admit c d).1 ≡ false
    → let first = (admit c d).0 in
      let taken : QueueCapacity = record first { warning_pending = false } in
      (first.warning_pending ≡ true)
      × ((admit taken e).0.warning_pending ≡ false)
      × ((admit taken e).0.overflow_reported ≡ not (admit taken e).1)
unfolding admit
one_warning c d e fresh full = ground arith

-- A depth is within the limit, if there is one, and below the high-water mark.
pub record IsWithin (c : QueueCapacity) (depth : ℕ) : Type 0 where
  pub bounded : c.limit ≢ 0 → depth ≤ c.limit
  pub marked : depth ≤ c.high_water

-- `if (admit(size)) { push_back; accepted(size); }`
abbrev pub enqueue_depth : QueueCapacity → ℕ → QueueCapacity × ℕ
enqueue_depth c depth =
    let (c', admitted) = admit c depth in
    if admitted then (accepted c' (depth + 1), depth + 1) else (c', depth)

-- A depth within the limit and the high-water mark stays so when a push goes through `admit` and
-- `accepted`.
pub enqueue-IsWithin :
    (c : QueueCapacity) (depth : ℕ)
    → IsWithin c depth
    → IsWithin (enqueue_depth c depth).0 (enqueue_depth c depth).1
unfolding admit accepted
enqueue-IsWithin c depth h = ground (arith, h.bounded)
