-- ===== src/Dispatch/Schedule.antt =====
-- bridge/include/QueueDispatchSchedule.hpp: the rate of queue checks, and when a check is due.
-- Times are nanoseconds of the steady clock.
use mathlib.Core.List.{append-nil}
use ue4sslua_event_bridge.Base.{
  drop, Bytes, is_nil, to_string, no_error, FromChars, from_chars-to_string, to_string-cons,
  from_chars, ℕ, zero, suc, ◌+◌, ◌-◌, ◌*◌, ◌/◌, ◌^◌, ◌≤◌, ◌<◌, ◌≡◌, refl, subst, inl, inr, Bool,
  true, false, ◌&&◌, List, [], ◌∷◌, arith, ltb, leb, if◌then◌else◌, Bool-cases,
}

abbrev pub default_queue_checks_per_second : ℕ
default_queue_checks_per_second = 20

abbrev uint32_max : ℕ
uint32_max = 2 ^ 32 - 1

abbrev accepted_rate : FromChars → Bool
accepted_rate r =
    elim r.ec [ no_error ↦ true | _ ↦ false ]
    && (is_nil r.rest && (leb 1 r.value && leb r.value 1000))

unfoldable pub parse_queue_check_rate : Bytes → ℕ
parse_queue_check_rate [] = default_queue_checks_per_second
parse_queue_check_rate (c ∷ s) =
    let result = from_chars uint32_max 0 (c ∷ s) in
    if accepted_rate result then result.value else default_queue_checks_per_second

unfoldable pub validated_rate : ℕ → ℕ
validated_rate rate = if leb 1 rate && leb rate 1000 then rate else default_queue_checks_per_second

pub record QueueDispatchSchedule : Type 0 where
  pub interval : ℕ
  pub next : ℕ
  pub started : Bool

unfoldable pub new_schedule : ℕ → QueueDispatchSchedule
unfolding validated_rate
new_schedule rate = record {
  interval = (1000000000 + validated_rate rate - 1) / validated_rate rate;
  next = 0;
  started = false;
}

unfoldable pub due : QueueDispatchSchedule → ℕ → QueueDispatchSchedule × Bool
due q now =
    if q.started && ltb now q.next
    then (q, false)
    else (record q { started = true; next = now + q.interval }, true)

-- Whatever the text of the environment variable, the rate is between 1 and 1000.
pub parse_queue_check_rate_bounds :
    (s : Bytes) → (1 ≤ parse_queue_check_rate s) × (parse_queue_check_rate s ≤ 1000)
unfolding parse_queue_check_rate
parse_queue_check_rate_bounds [] = omega arith
parse_queue_check_rate_bounds (c ∷ s) = ground arith

parse_read :
    (n c : ℕ) (s : Bytes)
    → to_string n ≡ c ∷ s
    → 1 ≤ n
    → n ≤ 1000
    → parse_queue_check_rate (c ∷ s) ≡ n
unfolding parse_queue_check_rate
parse_read n c s e lo hi = rw (← e) (
    ground (
      arith,
      from_chars-to_string uint32_max 0 n [] (omega arith) (omega arith) tt,
      append-nil (to_string n),
    ))

-- A rate in range that is written as a decimal number is read as itself.
pub parse_queue_check_rate-to_string :
    (n : ℕ) → 1 ≤ n → n ≤ 1000 → parse_queue_check_rate (to_string n) ≡ n
parse_queue_check_rate-to_string n lo hi =
    let (c, more, e) = to_string-cons n in rw e (parse_read n c more e lo hi)

-- The calls of `due` at the given readings, and the readings at which it said yes.
unfoldable pub due_times : QueueDispatchSchedule → List ℕ → List ℕ
due_times q [] = []
due_times q (now ∷ rest) =
    let (q', yes') = due q now in
    let later = due_times q' rest in if yes' then now ∷ later else later

-- Each time is at least `gap` after the one before it.
abbrev pub Spaced : ℕ → List ℕ → Type 0
Spaced gap [] = Unit
Spaced gap (t ∷ []) = Unit
Spaced gap (t ∷ u ∷ rest) = (t + gap ≤ u) × Spaced gap (u ∷ rest)

abbrev StartsFrom : ℕ → List ℕ → Type 0
StartsFrom n [] = Unit
StartsFrom n (t ∷ rest) = n ≤ t

Spaced-cons :
    (gap t : ℕ) (ts : List ℕ) → StartsFrom (t + gap) ts → Spaced gap ts → Spaced gap (t ∷ ts)
Spaced-cons gap t [] a b = tt
Spaced-cons gap t (u ∷ ts) a b = (a, b)

due_early :
    (q : QueueDispatchSchedule) (now : ℕ)
    → q.started ≡ true
    → ltb now q.next ≡ true
    → due q now ≡ (q, false)
unfolding due
due_early q now on early = rw (on, early) refl

abbrev fired : QueueDispatchSchedule → ℕ → QueueDispatchSchedule
fired q now = record q { started = true; next = now + q.interval }

due_late :
    (q : QueueDispatchSchedule) (now : ℕ)
    → (q.started && ltb now q.next) ≡ false
    → due q now ≡ (fired q now, true)
unfolding due
due_late q now late = rw late refl

due_times-after :
    (ts : List ℕ) (q : QueueDispatchSchedule)
    → q.started ≡ true
    → StartsFrom q.next (due_times q ts) × Spaced q.interval (due_times q ts)
unfolding due_times
due_times-after [] q on = (tt, tt)
due_times-after (t ∷ ts) q on = elim (Bool-cases (ltb t q.next)) [
  | inl early ↦ rw (due_early q t on early) (due_times-after ts q on)
  | inr late ↦
      let (from, spaced) = due_times-after ts (fired q t) refl in
      rw (due_late q t (ground (arith, on, late)))
        (ground (arith, late), Spaced-cons q.interval t (due_times (fired q t) ts) from spaced)
]

first_due :
    (q : QueueDispatchSchedule) (ts : List ℕ)
    → q.started ≡ false
    → Spaced q.interval (due_times q ts)
unfolding due_times
first_due q [] off = tt
first_due q (t ∷ ts) off =
    let (from, spaced) = due_times-after ts (fired q t) refl in
    rw (due_late q t (rw off refl))
      (Spaced-cons q.interval t (due_times (fired q t) ts) from spaced)

ceil_div : (n r : ℕ) → 1 ≤ r → n ≤ (n + r - 1) / r * r
ceil_div n r h = grind arith

validated_rate_pos : (rate : ℕ) → 1 ≤ validated_rate rate
unfolding validated_rate
validated_rate_pos rate = ground arith

fewer : (n gap r limit : ℕ) → n * gap < limit → limit ≤ gap * r → n < r
fewer n gap r limit h k = grind arith

interval_rate : (rate : ℕ) → 1000000000 ≤ (new_schedule rate).interval * validated_rate rate
unfolding new_schedule
interval_rate rate = ceil_div 1000000000 (validated_rate rate) (validated_rate_pos rate)

-- A suffix of a list: what follows the first `n`.
Spaced-drop : (gap n : ℕ) (ts : List ℕ) → Spaced gap ts → Spaced gap (drop n ts)
Spaced-drop gap zero ts h = h
Spaced-drop gap (suc n) [] h = tt
Spaced-drop gap (suc n) (t ∷ []) h = Spaced-drop gap n [] tt
Spaced-drop gap (suc n) (t ∷ u ∷ ts) h = Spaced-drop gap n (u ∷ ts) h.1

-- How many of the times lie before a limit.
abbrev pub count_before : ℕ → List ℕ → ℕ
count_before limit [] = 0
count_before limit (t ∷ ts) = (if ltb t limit then 1 else 0) + count_before limit ts

-- Times that lie at least `gap` apart do not return below a limit.
none_before :
    (gap limit t : ℕ) (ts : List ℕ) → Spaced gap (t ∷ ts) → limit ≤ t → count_before limit ts ≡ 0
none_before gap limit t [] s le = refl
none_before gap limit t (u ∷ ts) s le = ground (arith, s.0, none_before gap limit u ts s.1)

count_room :
    (gap limit t : ℕ) (ts : List ℕ)
    → Spaced gap (t ∷ ts)
    → t < limit
    → t + count_before limit ts * gap < limit
count_room gap limit t [] s lt = omega (arith, lt)
count_room gap limit t (u ∷ ts) s lt = elim (Bool-cases (ltb u limit)) [
  | inl early ↦ ground (arith, early, s.0, count_room gap limit u ts s.1 (ground (arith, early)))
  | inr late ↦ ground (arith, late, none_before gap limit u ts s.1 (ground (arith, late)), lt)
]

-- Whatever readings the host gives: in the second that begins with any check, the n-th of the run,
-- there are at most `rate` checks, that one included (20 when the rate is out of range). So there is no
-- burst after a pause.
pub due_times_rate :
    (rate n t : ℕ) (readings later : List ℕ)
    → drop n (due_times (new_schedule rate) readings) ≡ t ∷ later
    → count_before (t + 1000000000) (t ∷ later) ≤ validated_rate rate
due_times_rate rate n t readings later e =
    let gap = (new_schedule rate).interval in
    let spaced : Spaced gap (t ∷ later) = subst (Spaced gap) e (
      Spaced-drop gap n _ (first_due (new_schedule rate) readings (unfold new_schedule in refl))) in
    let room = count_room gap (t + 1000000000) t later spaced (omega arith) in
    let few =
      fewer (count_before (t + 1000000000) later) gap (validated_rate rate) 1000000000
        (omega (arith, room)) (interval_rate rate) in
    ground (arith, few)
