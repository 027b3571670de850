-- ===== src/Backend/Faults/Count.antt =====
-- The faults that take_delivery_fault of bridge/src/EnhancedInputBackend.cpp has still to hand out.
use ue4sslua_event_bridge.Base.{
  Map, lookup-insert, lookup, insert, ℕ, ◌+◌, ◌≤◌, ◌<◌, ◌≡◌, refl, sym, ap, ◌∙◌, subst, inl, inr,
  Bool, true, false, not, Option, none, some, [], ◌∷◌, arith, ◌==◌, if◌then◌else◌, nat_eq, ==_refl,
  Bool-cases, is_some, some-injective, if_all,
}
use ue4sslua_event_bridge.Backend.State.{
  TargetDeliveryState, TargetDeliveryFault, Target, EnhancedInputBackend, has,
}
use ue4sslua_event_bridge.Backend.Faults.{
  due_state, due_at, due_in, due_fault, notify, scan_step, scan, take_delivery_fault,
}

count_in : EnhancedInputBackend → Map ℕ Target → ℕ
count_in b [] = 0
count_in b ((id, t) ∷ rest) = (if is_some (due_fault b t) then 1 else 0) + count_in b rest

-- How many targets have a fault that is not notified.
unfoldable pub due_count : EnhancedInputBackend → ℕ
unfolding count_in due_fault due_in due_at due_state
due_count b = count_in b b.targets

-- What of `b` was not due is not due in `b'`.
NoneMore : EnhancedInputBackend → EnhancedInputBackend → Type 0
NoneMore b b' = (t : Target) → is_some (due_fault b' t) ≡ true → is_some (due_fault b t) ≡ true

count_in-le :
    (b b' : EnhancedInputBackend) (ts : Map ℕ Target)
    → NoneMore b b'
    → count_in b' ts ≤ count_in b ts
unfolding count_in NoneMore
count_in-le b b' [] h = omega arith
count_in-le b b' ((id, t) ∷ rest) h = ground (arith, h t, count_in-le b b' rest h)

-- Marking a delivery as notified makes no target due, and the targets of that delivery not due.
marked : EnhancedInputBackend → ℕ → TargetDeliveryState → EnhancedInputBackend
marked b d state = record b {
  delivery_store = insert d (record state { notified = true }) b.delivery_store;
  dispatch = record b.dispatch { faults_pending = true };
}

marked-due_in :
    (b : EnhancedInputBackend) (d : ℕ) (state : TargetDeliveryState) (o : Option ℕ)
    → is_some (due_in (marked b d state) o) ≡ true
    → is_some (due_in b o) ≡ true
unfolding marked due_in due_at due_state
marked-due_in b d state none h = h
marked-due_in b d state (some d') h =
    let v : TargetDeliveryState = record state { notified = true } in
    let due_when : Option TargetDeliveryState → Bool = λ o. is_some (due_at d' (due_state o)) in
    let now = lookup-insert d d' v b.delivery_store in
    elim (Bool-cases (d == d')) [
      | inl same ↦
          let e = now ∙ ap (λ c. if c then some v else lookup d' b.delivery_store) same in
          absurd (ground (arith, sym (ap due_when e) ∙ h))
      | inr other ↦
          let e = now ∙ ap (λ c. if c then some v else lookup d' b.delivery_store) other in
          sym (ap due_when e) ∙ h
    ]

under :
    {A B : Type 0} (c : Bool) (x : Option A) (y : Option B)
    → (is_some x ≡ true → is_some y ≡ true)
    → is_some (if c then none else x) ≡ true
    → is_some (if c then none else y) ≡ true
under true x y f h = h
under false x y f h = f h

marked-NoneMore :
    (b : EnhancedInputBackend) (d : ℕ) (state : TargetDeliveryState) → NoneMore b (marked b d state)
unfolding NoneMore due_fault marked
marked-NoneMore b d state t h =
    under (has t.session b.inactive_sessions) (due_in (marked b d state) t.delivery) _
      (marked-due_in b d state t.delivery) h

due_at-number :
    (d d' : ℕ) (o : Option TargetDeliveryState) (state : TargetDeliveryState)
    → due_at d' o ≡ some (d, state)
    → d' ≡ d
unfolding due_at
due_at-number d d' none state h = absurd (ground (arith, h))
due_at-number d d' (some s) state h = ap (λ p. p.0) (some-injective h)

marked_not_due_in :
    (b : EnhancedInputBackend) (d : ℕ) (state : TargetDeliveryState) (o : Option ℕ)
    → due_in b o ≡ some (d, state)
    → is_some (due_in (marked b d state) o) ≡ false
unfolding marked due_in due_state
marked_not_due_in b d state none h = absurd (ground (arith, h))
marked_not_due_in b d state (some d') h =
    let v : TargetDeliveryState = record state { notified = true } in
    let same : (d == d') ≡ true =
      subst (λ x. (x == d') ≡ true) (due_at-number d d' _ state h) (==_refl d') in
    ap (λ o. is_some (due_at d' (due_state o)))
      (lookup-insert d d' v b.delivery_store
        ∙ ap (λ c. if c then some v else lookup d' b.delivery_store) same)
    ∙ unfold due_at in refl

marked_not_due :
    (b : EnhancedInputBackend) (t : Target) (d : ℕ) (state : TargetDeliveryState)
    → due_fault b t ≡ some (d, state)
    → is_some (due_fault (marked b d state) t) ≡ false
unfolding due_fault marked
marked_not_due b t d state h =
    guard (has t.session b.inactive_sessions) (due_in b t.delivery)
      (due_in (marked b d state) t.delivery) (λ e. marked_not_due_in b d state t.delivery e) h
  where
    guard :
        (c : Bool) (x y : Option (ℕ × TargetDeliveryState))
        → (x ≡ some (d, state) → is_some y ≡ false)
        → (if c then none else x) ≡ some (d, state)
        → is_some (if c then none else y) ≡ false
    guard true x y f h = refl
    guard false x y f h = f h

scan-NoneMore : (b : EnhancedInputBackend) (ts : Map ℕ Target) → NoneMore b (scan b ts).0
unfolding scan scan_step notify marked NoneMore
scan-NoneMore b [] = λ t h. h
scan-NoneMore b ((id, t) ∷ rest) =
    step-NoneMore (due_fault b t) (scan b rest) (scan-NoneMore b rest)
  where
    step-NoneMore :
        (o : Option (ℕ × TargetDeliveryState))
        (later : EnhancedInputBackend × Option TargetDeliveryFault)
        → NoneMore b later.0
        → NoneMore b (scan_step b id t later o).0
    step-NoneMore none later h = h
    step-NoneMore (some (d, state)) later h = marked-NoneMore b d state

step-count :
    (b : EnhancedInputBackend) (id : ℕ) (t : Target) (rest : Map ℕ Target)
    (fault : TargetDeliveryFault) (o : Option (ℕ × TargetDeliveryState))
    (later : EnhancedInputBackend × Option TargetDeliveryFault)
    → due_fault b t ≡ o
    → NoneMore b later.0
    → (later.1 ≡ some fault → count_in later.0 rest < count_in b rest)
    → (scan_step b id t later o).1 ≡ some fault
    → count_in (scan_step b id t later o).0 ((id, t) ∷ rest) < count_in b ((id, t) ∷ rest)
unfolding scan_step count_in NoneMore notify marked
step-count b id t rest fault none later e more count h = ground (arith, e, more t, count h)
step-count b id t rest fault (some (d, state)) later e more count h = ground (
  arith,
  e,
  marked_not_due b t d state e,
  count_in-le b (marked b d state) rest (marked-NoneMore b d state),
)

-- A fault that the scan hands out is not due any more, and no other becomes due.
scan-count :
    (b : EnhancedInputBackend) (ts : Map ℕ Target) (fault : TargetDeliveryFault)
    → (scan b ts).1 ≡ some fault
    → count_in (scan b ts).0 ts < count_in b ts
unfolding scan
scan-count b [] fault h = absurd (ground (arith, h))
scan-count b ((id, t) ∷ rest) fault h =
    step-count b id t rest fault (due_fault b t) (scan b rest) refl (scan-NoneMore b rest)
      (scan-count b rest fault) h

scan-targets : (b : EnhancedInputBackend) (ts : Map ℕ Target) → (scan b ts).0.targets ≡ b.targets
unfolding scan scan_step notify
scan-targets b [] = refl
scan-targets b ((id, t) ∷ rest) = step-targets (due_fault b t) (scan b rest) (scan-targets b rest)
  where
    step-targets :
        (o : Option (ℕ × TargetDeliveryState))
        (later : EnhancedInputBackend × Option TargetDeliveryFault)
        → later.0.targets ≡ b.targets
        → (scan_step b id t later o).0.targets ≡ b.targets
    step-targets none later h = h
    step-targets (some (d, state)) later h = refl

cleared-NoneMore :
    (b : EnhancedInputBackend)
    → NoneMore b (record b { dispatch = record b.dispatch { faults_pending = false } })
unfolding NoneMore due_fault due_in
cleared-NoneMore b t h =
    under (has t.session b.inactive_sessions)
      (due_in (record b { dispatch = record b.dispatch { faults_pending = false } }) t.delivery)
      (due_in b t.delivery) (same t.delivery) h
  where
    same :
        (o : Option ℕ)
        → is_some (due_in (record b { dispatch = record b.dispatch { faults_pending = false } }) o)
          ≡ true
        → is_some (due_in b o) ≡ true
    same none e = e
    same (some d) e = e

-- Every fault that take_delivery_fault hands out leaves one fewer to hand out.
pub take_delivery_fault-count :
    (b : EnhancedInputBackend) (fault : TargetDeliveryFault)
    → (take_delivery_fault b).1 ≡ some fault
    → due_count (take_delivery_fault b).0 < due_count b
unfolding take_delivery_fault due_count
take_delivery_fault-count b fault =
    let cleared : EnhancedInputBackend = record b {
      dispatch = record b.dispatch { faults_pending = false };
    } in
    let P : EnhancedInputBackend × Option TargetDeliveryFault → Type 0 =
      λ r. r.1 ≡ some fault → count_in r.0 r.0.targets < count_in b b.targets in
    if_all P (not b.dispatch.faults_pending) (b, none) _ (λ _ h. absurd (ground (arith, h)))
      (λ _.
        if_all P b.initialized (scan cleared cleared.targets) (cleared, none)
          (λ _ h.
            subst (λ ts. count_in (scan cleared b.targets).0 ts < count_in b b.targets)
              (sym (scan-targets cleared b.targets))
              (omega (
                arith,
                scan-count cleared b.targets fault h,
                count_in-le b cleared b.targets (cleared-NoneMore b),
              )))
          (λ _ h. absurd (ground (arith, h))))
