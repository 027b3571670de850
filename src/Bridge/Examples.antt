-- ===== src/Bridge/Examples.antt =====
-- Runs of the Lua functions' decoding and of the loop-start callbacks on concrete inputs.
use ue4sslua_event_bridge.Base.{
  length, text, from_chars, lookup, ◌+◌, ◌*◌, ◌≤◌, ◌<◌, ◌≡◌, refl, true, false, some, [], ◌∷◌,
  arith, ◌==◌, if◌then◌else◌, nat_eq,
}
use ue4sslua_event_bridge.Bridge.Decode.{
  Args, get_integer, get_words, word_at, byte_at, decode_bytes, decode_packed_text, parse_token,
  IsText, decode_packed_text_sound,
}
use ue4sslua_event_bridge.Bridge.LoopStart.{
  Sessions, session_for_id, register_loop_start, IsBounded, register_loop_start-IsBounded,
}
use ue4sslua_event_bridge.Registry.State.{identity_eq, new_state, new_registry}
use ue4sslua_event_bridge.Probe.{new_probe, record_probe}
use ue4sslua_event_bridge.Bridge.Lifetime.{
  Memory, read_object_identity, LifetimeState, lifetime_service_ready, lifetime_valid, IsSame,
  lifetime_valid_sound,
}
use ue4sslua_event_bridge.Registry.{valid}

-- A path of two bytes, "/A", in one word.
abbrev two_bytes : Args
two_bytes = record {
  integers = λ n. if n == 0 then 2 else if n == 1 then 47 + 256 * 65 else 0;
  taken = 0;
}

decode_packed_text_sound_example :
    let value = (decode_packed_text two_bytes 1 8 false (text "object path")).value in
    (length value ≡ 2) × (2 ≤ 8) × (false ≡ false → 0 < 2) × IsText value
unfolding decode_packed_text get_integer get_words decode_bytes byte_at word_at
decode_packed_text_sound_example =
    decode_packed_text_sound two_bytes 1 8 false (text "object path") refl

abbrev one_session : Sessions
one_session =
    (
      1,
      record {
        id = 1;
        lua = 0x2000;
        dispatcher_ref = 3;
        active = true;
        loop_start_delivered = false;
        loop_start_callbacks = 5 ∷ [];
      },
    )
    ∷ []

register_example : IsBounded (register_loop_start one_session 1 6).0
register_example = register_loop_start-IsBounded one_session 1 6 (omega arith, tt)

-- Session 1 observes the object at 0x1000 under token 1, while the service runs.
abbrev seen_once : LifetimeState
seen_once = record {
  sessions = one_session;
  lifetimes = record (new_registry 16 4) {
    next_token = 2;
    sessions =
        (
          1,
          record new_state {
            observations =
                (
                  1,
                  record {
                    identity = record { address = 0x1000; index = 7; serial = 3 };
                    references = 1;
                  },
                )
                ∷ [];
          },
        )
        ∷ [];
  };
  probe = record_probe new_probe 3 3;
  listeners_registered = true;
  lifetime_abi_ready = true;
}

abbrev one_object : Memory
one_object = record {
  in_game_thread = true;
  read_index = λ a. some 7;
  read_item = λ i. some (record { object = 0x1000; serial = 3 });
}

lifetime_valid_sound_example : IsSame one_object seen_once 1 0x1000 (49 ∷ [])
unfolding lifetime_valid session_for_id parse_token from_chars read_object_identity valid lookup
    lifetime_service_ready new_registry
lifetime_valid_sound_example = lifetime_valid_sound one_object seen_once 1 0x1000 (49 ∷ []) refl
