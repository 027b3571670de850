-- ===== src/Bridge/LoopStart/Numbered.antt =====
-- The numbers of the sessions in the table of bridge/src/BridgeMod.cpp.
use ue4sslua_event_bridge.Base.{
  length, Bytes, lookup-insert, lookup, insert, ℕ, ◌≡◌, refl, inl, inr, Bool, Option, none, some,
  arith, leb, nat_eq, Option-cases, if_all,
}
use ue4sslua_event_bridge.Bridge.LoopStart.{
  LuaSession, Sessions, active_session, session_for_id, is_positive, add_callback, register_in,
  register_loop_start, cancel_in, cancel_loop_start,
}

-- A session stands in the table under its own number.
abbrev pub IsNumbered : Sessions → ℕ → Type 0
IsNumbered sessions id = (s : LuaSession) → lookup id sessions ≡ some s → s.id ≡ id

-- The session that a function finds, if any, has the number that it was asked for.
pub found_number :
    (sessions : Sessions) (id : ℕ) (s : LuaSession)
    → IsNumbered sessions id
    → session_for_id sessions id ≡ some s
    → s.id ≡ id
unfolding session_for_id active_session
found_number sessions id s numbered e = elim (Option-cases (lookup id sessions)) [
  | inl gone ↦ absurd (ground (arith, e, gone))
  | inr (t, there) ↦ ground (arith, e, there, numbered t there)
]

insert-IsNumbered :
    (sessions : Sessions) (id : ℕ) (s : LuaSession)
    → s.id ≡ id
    → IsNumbered (insert id s sessions) id
insert-IsNumbered sessions id s same t there =
    ground (arith, same, there, lookup-insert id id s sessions)

-- Registering and cancelling a loop-start callback keep the number of the session.
register_in-IsNumbered :
    (sessions : Sessions) (id token : ℕ) (o : Option LuaSession)
    → IsNumbered sessions id
    → ((s : LuaSession) → o ≡ some s → s.id ≡ id)
    → IsNumbered (register_in sessions id token o).0 id
unfolding register_in add_callback
register_in-IsNumbered sessions id token none numbered own = numbered
register_in-IsNumbered sessions id token (some s) numbered own =
    let P : Sessions × Bool × Bytes → Type 0 = λ r. IsNumbered r.0 id in
    if_all P (is_positive token) _ _
      (λ _.
        if_all P s.loop_start_delivered _ _ (λ _. numbered)
          (λ _.
            if_all P (leb 4096 (length s.loop_start_callbacks)) _ _ (λ _. numbered)
              (λ _. insert-IsNumbered sessions id _ (own s refl))))
      (λ _. numbered)

cancel_in-IsNumbered :
    (sessions : Sessions) (id token : ℕ) (o : Option LuaSession)
    → IsNumbered sessions id
    → ((s : LuaSession) → o ≡ some s → s.id ≡ id)
    → IsNumbered (cancel_in sessions id token o).0 id
unfolding cancel_in
cancel_in-IsNumbered sessions id token none numbered own = numbered
cancel_in-IsNumbered sessions id token (some s) numbered own =
    if_all (λ (r : Sessions × Bool). IsNumbered r.0 id) (is_positive token) _ _
      (λ _. insert-IsNumbered sessions id _ (own s refl)) (λ _. numbered)

pub loop_start-IsNumbered :
    (sessions : Sessions) (id token : ℕ)
    → IsNumbered sessions id
    → IsNumbered (register_loop_start sessions id token).0 id
      × IsNumbered (cancel_loop_start sessions id token).0 id
unfolding register_loop_start cancel_loop_start
loop_start-IsNumbered sessions id token numbered =
    let own = λ (s : LuaSession). found_number sessions id s numbered in
    (
      register_in-IsNumbered sessions id token (session_for_id sessions id) numbered own,
      cancel_in-IsNumbered sessions id token (session_for_id sessions id) numbered own,
    )
