-- ===== src/Backend/Inspect/Bounded.antt =====
-- Which bindings a snapshot of bridge/src/EnhancedInputBackend.cpp reports on.
use ue4sslua_event_bridge.Base.{
  length, take, Bytes, lookup, ℕ, zero, suc, ◌+◌, min, ◌≡◌, refl, sym, ap, ◌∙◌, subst, Bool, true,
  false, not, ◌||◌, Option, none, some, List, [], ◌∷◌, ◌++◌, arith, ltb, ◌==◌, if◌then◌else◌,
  nat_eq, if_false,
}
use ue4sslua_event_bridge.Backend.Engine.{Engine}
use ue4sslua_event_bridge.Backend.State.{
  EnhancedInputSubscription, Target, LiveBinding, EnhancedInputBackend, has, available,
}
use ue4sslua_event_bridge.Backend.Inspect.{
  TargetMemory, fields, binding_line, Lines, concerned_by, put_line, binding_lines, target_entries,
  snapshot_head, snapshot_end, snapshot, inspect_found, inspect_target,
}

with_reported :
    LiveBinding
    → List (LiveBinding × EnhancedInputSubscription)
    → Option EnhancedInputSubscription
    → List (LiveBinding × EnhancedInputSubscription)
with_reported live rest none = rest
with_reported live rest (some sub) = (live, sub) ∷ rest

-- The live bindings to report on, with their subscriptions.
pub reported :
    (LiveBinding → Option EnhancedInputSubscription)
    → List LiveBinding
    → List (LiveBinding × EnhancedInputSubscription)
unfolding with_reported
reported of_target [] = []
reported of_target (live ∷ rest) = with_reported live (reported of_target rest) (of_target live)

-- One line after the other.
pub joined :
    (LiveBinding → EnhancedInputSubscription → Bytes)
    → List (LiveBinding × EnhancedInputSubscription)
    → Bytes
joined line [] = []
joined line ((live, sub) ∷ rest) = line live sub ++ joined line rest

-- The lines of `all` that begin behind `count` others, when `room` more may be written.
Reports :
    (LiveBinding → EnhancedInputSubscription → Bytes)
    → List (LiveBinding × EnhancedInputSubscription)
    → ℕ
    → ℕ
    → Lines
    → Type 0
Reports line all count room r =
    (r.lines ≡ joined line (take room all))
    × (r.count ≡ count + min room (length all))
    × (r.truncated ≡ ltb room (length all))

-- The answer for one more binding, by whether the snapshot is full.
next_line :
    (LiveBinding → EnhancedInputSubscription → Bytes)
    → LiveBinding
    → EnhancedInputSubscription
    → ℕ
    → Lines
    → Bool
    → Lines
next_line line live sub count more full =
    if full
    then record { lines = []; count = count; truncated = true }
    else record more { lines = line live sub ++ more.lines }

put_line-Reports :
    (line : LiveBinding → EnhancedInputSubscription → Bytes) (live : LiveBinding)
    (sub : EnhancedInputSubscription) (count room : ℕ) (later : ℕ → Lines)
    (rest : List (LiveBinding × EnhancedInputSubscription))
    → count + room ≡ 256
    → ((c n : ℕ) → c + n ≡ 256 → Reports line rest c n (later c))
    → Reports line ((live, sub) ∷ rest) count room (put_line line live count later (some sub))
unfolding put_line Reports joined next_line
put_line-Reports line live sub count zero later rest h go =
    let full : (count == 256) ≡ true = ground (arith, h) in
    subst
      (λ c.
        Reports line ((live, sub) ∷ rest) count zero
          (next_line line live sub count (later (count + 1)) c))
      (sym full) (refl, omega arith, ground arith)
put_line-Reports line live sub count (suc room) later rest h go =
    let more_room : (count == 256) ≡ false = ground (arith, h) in
    let (lines, counted, cut) = go (count + 1) room (omega (arith, h)) in
    subst
      (λ c.
        Reports line ((live, sub) ∷ rest) count (suc room)
          (next_line line live sub count (later (count + 1)) c))
      (sym more_room)
      (ap (λ t. line live sub ++ t) lines, ground (arith, counted), ground (arith, cut))

line_or_none :
    (line : LiveBinding → EnhancedInputSubscription → Bytes) (live : LiveBinding)
    (o : Option EnhancedInputSubscription) (count room : ℕ) (later : ℕ → Lines)
    (rest : List (LiveBinding × EnhancedInputSubscription))
    → count + room ≡ 256
    → ((c n : ℕ) → c + n ≡ 256 → Reports line rest c n (later c))
    → Reports line (with_reported live rest o) count room (put_line line live count later o)
unfolding with_reported
line_or_none line live none count room later rest h go = unfold put_line in go count room h
line_or_none line live (some sub) count room later rest h go =
    put_line-Reports line live sub count room later rest h go

binding_lines-Reports :
    (line : LiveBinding → EnhancedInputSubscription → Bytes)
    (of_target : LiveBinding → Option EnhancedInputSubscription) (lives : List LiveBinding)
    (count room : ℕ)
    → count + room ≡ 256
    → Reports line (reported of_target lives) count room (binding_lines line of_target count lives)
unfolding binding_lines reported
binding_lines-Reports line of_target [] count zero h =
    unfold Reports joined in (refl, omega arith, ground arith)
binding_lines-Reports line of_target [] count (suc room) h =
    unfold Reports joined in (refl, omega arith, ground arith)
binding_lines-Reports line of_target (live ∷ rest) count room h =
    line_or_none line live (of_target live) count room (λ n. binding_lines line of_target n rest)
      (reported of_target rest) h (binding_lines-Reports line of_target rest)

-- The text of a snapshot that reports on `all`: its first line, one line for each of the first 256
-- bindings in their order, and a last line with their number and whether there are more.
pub snapshot_text :
    TargetMemory → ℕ → Target → List (LiveBinding × EnhancedInputSubscription) → Bytes
snapshot_text memory target found all =
    fields (snapshot_head memory target found)
    ++ (joined (λ live sub. binding_line memory (target_entries memory found) sub live)
          (take 256 all)
        ++ fields (snapshot_end (min 256 (length all)) (ltb 256 (length all))))

snapshot-snapshot_text :
    (memory : TargetMemory) (b : EnhancedInputBackend) (session target : ℕ) (found : Target)
    → snapshot memory b session target found
      ≡ snapshot_text memory target found
          (reported (concerned_by b session target) b.bindings.items)
unfolding snapshot snapshot_text Reports
snapshot-snapshot_text memory b session target found =
    let line : LiveBinding → EnhancedInputSubscription → Bytes =
      λ live sub. binding_line memory (target_entries memory found) sub live in
    let of_target = concerned_by b session target in
    let all = reported of_target b.bindings.items in
    let body = binding_lines line of_target 0 b.bindings.items in
    let (lines, count, truncated) =
      binding_lines-Reports line of_target b.bindings.items 0 256 refl in
    let counted : body.count ≡ min 256 (length all) = ground (arith, count) in
    ap
      (λ t.
        fields (snapshot_head memory target found)
        ++ (t ++ fields (snapshot_end body.count body.truncated)))
      lines
    ∙ ap
        (λ n.
          fields (snapshot_head memory target found)
          ++ (joined line (take 256 all) ++ fields (snapshot_end n body.truncated)))
        counted
    ∙ ap
        (λ c.
          fields (snapshot_head memory target found)
          ++ (joined line (take 256 all) ++ fields (snapshot_end (min 256 (length all)) c)))
        truncated

-- On the game thread and with a backend that is initialized, inspect_target of a target that the
-- session has, while the session is not stopped, gives no error and one line for each of the first 256
-- live bindings whose subscription is of that session and target, in their order; the last line says
-- how many they are, and truncated exactly when there are more.
pub inspect_target-snapshot_text :
    (e : Engine) (memory : TargetMemory) (b : EnhancedInputBackend) (session target : ℕ)
    (found : Target)
    → e.in_game_thread ≡ true
    → available b ≡ true
    → lookup target b.targets ≡ some found
    → found.session ≡ session
    → has session b.inactive_sessions ≡ false
    → inspect_target e memory b session target ≡ (
      snapshot_text memory target found (reported (concerned_by b session target) b.bindings.items),
      [],
    )
unfolding inspect_target
inspect_target-snapshot_text e memory b session target found here ready held mine running =
    let other : (not (found.session == session) || has session b.inactive_sessions) ≡ false =
      ground (arith, mine, running) in
    if_false (not e.in_game_thread) _ _ (ap not here)
    ∙ if_false (not (available b)) _ _ (ap not ready)
    ∙ ap (inspect_found memory b session target) held
    ∙ (unfold inspect_found in if_false _ _ _ other)
    ∙ ap (λ t. (t, [])) (snapshot-snapshot_text memory b session target found)
