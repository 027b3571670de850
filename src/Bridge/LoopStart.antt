-- ===== src/Bridge/LoopStart.antt =====
-- The sessions of bridge/src/BridgeMod.cpp and their loop-start callbacks: session_for_id,
-- register_loop_start, cancel_loop_start and the locked part of flush_loop_start_callbacks. The calls
-- into Lua afterwards are the list of what is delivered. A set is a list without repetitions.
pub mod Numbered
use ue4sslua_event_bridge.Base.{
  length, keep_if, All, Bytes, text, Map, lookup, insert, ℕ, ◌^◌, ◌≤◌, ◌≡◌, refl, ap, ◌∙◌, Bool,
  true, false, not, ◌&&◌, ◌||◌, Option, none, some, List, [], ◌∷◌, ◌++◌, map, arith, ltb, leb, ◌==◌,
  if◌then◌else◌, nat_eq, if_all, if_false,
}

pub record LuaSession : Type 0 where
  pub id : ℕ
  -- the Lua object, and the registry reference of its dispatcher closure
  pub lua : ℕ
  pub dispatcher_ref : ℕ
  pub active : Bool
  pub loop_start_delivered : Bool
  pub loop_start_callbacks : List ℕ

abbrev pub Sessions : Type 0
Sessions = Map ℕ LuaSession

abbrev pub member : ℕ → List ℕ → Bool
member token [] = false
member token (t ∷ ts) = t == token || member token ts

unfoldable pub active_session : Option LuaSession → Option LuaSession
active_session none = none
active_session (some s) = if s.active then some s else none

unfoldable pub session_for_id : Sessions → ℕ → Option LuaSession
unfolding active_session
session_for_id sessions id = active_session (lookup id sessions)

-- A Lua token: a signed 64-bit pattern that is positive.
abbrev pub is_positive : ℕ → Bool
is_positive token = not (token == 0) && ltb token (2 ^ 63)

pub add_callback : Sessions → LuaSession → ℕ → ℕ → Sessions × Bool × Bytes
add_callback sessions s id token =
    if s.loop_start_delivered
    then (sessions, false, text "loop-start notification has already been delivered")
    else if leb 4096 (length s.loop_start_callbacks)
    then (sessions, false, text "loop-start callback capacity exceeded")
    else (
      insert id
          (record s {
            loop_start_callbacks =
                if member token s.loop_start_callbacks
                then s.loop_start_callbacks
                else token ∷ s.loop_start_callbacks;
          })
          sessions,
      true,
      [],
    )

pub register_in : Sessions → ℕ → ℕ → Option LuaSession → Sessions × Bool × Bytes
register_in sessions id token none = (sessions, false, text "invalid or stopping Lua session")
register_in sessions id token (some s) =
    if is_positive token
    then add_callback sessions s id token
    else (sessions, false, text "invalid or stopping Lua session")

-- The sessions, whether it was registered, and the error.
unfoldable pub register_loop_start : Sessions → ℕ → ℕ → Sessions × Bool × Bytes
unfolding add_callback register_in
register_loop_start sessions id token = register_in sessions id token (session_for_id sessions id)

pub cancel_in : Sessions → ℕ → ℕ → Option LuaSession → Sessions × Bool
cancel_in sessions id token none = (sessions, false)
cancel_in sessions id token (some s) =
    if is_positive token
    then (
      insert id
          (record s {
            loop_start_callbacks = keep_if (λ t. not (t == token)) s.loop_start_callbacks;
          })
          sessions,
      member token s.loop_start_callbacks,
    )
    else (sessions, false)

unfoldable pub cancel_loop_start : Sessions → ℕ → ℕ → Sessions × Bool
unfolding cancel_in
cancel_loop_start sessions id token = cancel_in sessions id token (session_for_id sessions id)

abbrev due : LuaSession → Bool
due s = s.active && not s.loop_start_delivered

-- The sessions after the flush, and the pending calls as pairs of a session and a token.
unfoldable pub flush_loop_start_callbacks : Sessions → Sessions × List (ℕ × ℕ)
flush_loop_start_callbacks [] = ([], [])
flush_loop_start_callbacks ((id, s) ∷ rest) =
    let (later, pending) = flush_loop_start_callbacks rest in
    (
      (id, if due s then record s { loop_start_delivered = true; loop_start_callbacks = [] } else s)
          ∷ later,
      if due s then map (λ token. (id, token)) s.loop_start_callbacks ++ pending else pending,
    )

-- At most 4096 callbacks in every session.
abbrev pub IsBounded : Sessions → Type 0
IsBounded sessions = All (λ e. length e.1.loop_start_callbacks ≤ 4096) sessions

insert-IsBounded :
    (id : ℕ) (s : LuaSession) (sessions : Sessions)
    → length s.loop_start_callbacks ≤ 4096
    → IsBounded sessions
    → IsBounded (insert id s sessions)
unfolding insert
insert-IsBounded id s [] fits all = (fits, tt)
insert-IsBounded id s ((j, t) ∷ m) fits (first, all) =
    if_all IsBounded (j == id) _ _ (λ h. (fits, all))
      (λ h. (first, insert-IsBounded id s m fits all))

Bounded : Sessions × Bool × Bytes → Type 0
Bounded r = IsBounded r.0

add_callback-IsBounded :
    (sessions : Sessions) (s : LuaSession) (id token : ℕ)
    → IsBounded sessions
    → Bounded (add_callback sessions s id token)
unfolding add_callback Bounded
add_callback-IsBounded sessions s id token all =
    if_all Bounded s.loop_start_delivered _ _ (λ h. all)
      (λ open_still.
        if_all Bounded (leb 4096 (length s.loop_start_callbacks)) _ _ (λ h. all)
          (λ room.
            insert-IsBounded id _ sessions
              (if_all (λ ts. length ts ≤ 4096) (member token s.loop_start_callbacks)
                s.loop_start_callbacks (token ∷ s.loop_start_callbacks) (λ h. ground (arith, room))
                (λ h. ground (arith, room)))
              all))

register_in-IsBounded :
    (sessions : Sessions) (id token : ℕ) (o : Option LuaSession)
    → IsBounded sessions
    → Bounded (register_in sessions id token o)
unfolding register_in Bounded
register_in-IsBounded sessions id token none all = all
register_in-IsBounded sessions id token (some s) all =
    if_all Bounded (is_positive token) _ _ (λ h. add_callback-IsBounded sessions s id token all)
      (λ h. all)

-- Registering keeps every session at no more than 4096 callbacks.
pub register_loop_start-IsBounded :
    (sessions : Sessions) (id token : ℕ)
    → IsBounded sessions
    → IsBounded (register_loop_start sessions id token).0
unfolding register_loop_start Bounded
register_loop_start-IsBounded sessions id token all =
    register_in-IsBounded sessions id token (session_for_id sessions id) all

never_due : (a : Bool) → (a && false) ≡ false
never_due true = refl
never_due false = refl

not_due_after :
    (s : LuaSession)
    → due (if due s then record s { loop_start_delivered = true; loop_start_callbacks = [] } else s)
      ≡ false
not_due_after s = if_all (λ x. due x ≡ false) (due s) _ _ (λ h. never_due s.active) (λ h. h)

-- A flush leaves nothing to deliver: a second one delivers no callback again.
pub flush_twice :
    (sessions : Sessions)
    → (flush_loop_start_callbacks (flush_loop_start_callbacks sessions).0).1 ≡ []
unfolding flush_loop_start_callbacks
flush_twice [] = refl
flush_twice ((id, s) ∷ rest) = if_false _ _ _ (not_due_after s) ∙ flush_twice rest

-- Without an active session the two calls change nothing.
pub register_loop_start_refused :
    (sessions : Sessions) (id token : ℕ)
    → session_for_id sessions id ≡ none
    → (register_loop_start sessions id token).0 ≡ sessions
unfolding register_loop_start register_in
register_loop_start_refused sessions id token gone =
    ap (λ o. (register_in sessions id token o).0) gone

pub cancel_loop_start_refused :
    (sessions : Sessions) (id token : ℕ)
    → session_for_id sessions id ≡ none
    → (cancel_loop_start sessions id token).0 ≡ sessions
unfolding cancel_loop_start cancel_in
cancel_loop_start_refused sessions id token gone = ap (λ o. (cancel_in sessions id token o).0) gone
