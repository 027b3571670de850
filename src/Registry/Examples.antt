-- ===== src/Registry/Examples.antt =====
-- Runs of LifecycleRegistry on concrete inputs.
use ue4sslua_event_bridge.Base.{
  lookup, insert, erase, try_emplace, ◌≡◌, refl, ◌⊎◌, true, false, Option, none, some, arith, ◌==◌,
  if◌then◌else◌, nat_eq,
}
use ue4sslua_event_bridge.Registry.Watches.{push_watch, erase_watch}
use ue4sslua_event_bridge.Registry.State.{
  ObjectLifetimeIdentity, identity_eq, CaptureResult, LifecycleRegistry, new_registry,
}
use ue4sslua_event_bridge.Registry.Views.{observed_identity, session_overflow, references}
use ue4sslua_event_bridge.Registry.{
  count_observations, publish_count, unwatch, put_state, start_session, report_losses, observing,
  observe, capture_in, capture, valid, end_observation, release_in, release, invalidate,
}
use ue4sslua_event_bridge.Registry.Invariant.{IsWell}
use ue4sslua_event_bridge.Registry.Capture.{granted, Captures, capture-Captures}
use ue4sslua_event_bridge.Registry.Release.{references-release}
use ue4sslua_event_bridge.Registry.Invalidate.{unless_hit, observed_identity-invalidate}
use ue4sslua_event_bridge.Registry.Losses.{session_reports, loss_queued, invalidate_reports}
use ue4sslua_event_bridge.Registry.History.{
  Reach, Reach-IsWell, spent_forever, starts, reports, captures, releases, here, next,
}

abbrev first_object : ObjectLifetimeIdentity
first_object = record { address = 0x1000; index = 7; serial = 3 }

abbrev second_object : ObjectLifetimeIdentity
second_object = record { address = 0x2000; index = 8; serial = 5 }

abbrev taken : LifecycleRegistry → Option (LifecycleRegistry × CaptureResult) → LifecycleRegistry
taken r none = r
taken r (some (r', c)) = r'

abbrev opened : LifecycleRegistry
opened = (report_losses (start_session (new_registry 16 4) 1) 1).0

abbrev one_seen : LifecycleRegistry
one_seen = taken opened (capture opened 1 first_object)

abbrev two_seen : LifecycleRegistry
two_seen = taken one_seen (capture one_seen 1 second_object)

path_to_two : Reach (new_registry 16 4) two_seen
unfolding new_registry start_session report_losses put_state try_emplace insert lookup capture
    capture_in observe observing publish_count count_observations push_watch
path_to_two =
    next
      (next (next (next here (starts 1)) (reports 1))
        (captures 1 first_object one_seen (granted 1) (omega arith) refl))
      (captures 1 second_object two_seen (granted 2) (omega arith) refl)

two_seen-IsWell : IsWell two_seen
two_seen-IsWell = Reach-IsWell 16 4 path_to_two

Reach-IsWell_example : IsWell two_seen
Reach-IsWell_example = Reach-IsWell 16 4 path_to_two

-- Token 1 ends, since the object at its address was deleted; token 2 goes on.
observed_identity-invalidate_example :
    observed_identity (invalidate two_seen 0x1000 99) 1 1
    ≡ unless_hit 0x1000 99 (observed_identity two_seen 1 1)
observed_identity-invalidate_example =
    observed_identity-invalidate two_seen 0x1000 99 1 1 two_seen-IsWell

invalidate_reports_example :
    (session_overflow (invalidate two_seen 0x1000 99) 1 ≡ true)
    ⊎ (loss_queued (invalidate two_seen 0x1000 99) 1 1 ≡ true)
unfolding new_registry start_session report_losses put_state try_emplace insert lookup capture
    capture_in observe observing publish_count count_observations push_watch session_reports
    observed_identity
invalidate_reports_example =
    invalidate_reports two_seen 0x1000 99 1 1 first_object two_seen-IsWell refl refl refl

capture-Captures_example : Captures two_seen 1 first_object (capture two_seen 1 first_object)
unfolding new_registry start_session report_losses put_state try_emplace insert lookup capture
    capture_in observe observing publish_count count_observations push_watch
capture-Captures_example = capture-Captures two_seen 1 first_object two_seen-IsWell (omega arith)

references-release_example :
    ((release two_seen 1 1).1 ≡ true)
    × (references (release two_seen 1 1).0 1 1 ≡ 0)
    × (observed_identity (release two_seen 1 1).0 1 1
        ≡ (if 0 == 0 then none else some first_object))
unfolding new_registry start_session report_losses put_state try_emplace insert lookup capture
    capture_in observe observing publish_count count_observations push_watch references
    observed_identity
references-release_example = references-release two_seen 1 1 0 first_object refl refl (omega arith)

abbrev captured_again : LifecycleRegistry
captured_again = taken (release two_seen 1 1).0 (capture (release two_seen 1 1).0 1 first_object)

spent_forever_example : valid captured_again 1 1 first_object ≡ false
unfolding new_registry start_session report_losses put_state try_emplace insert erase lookup capture
    capture_in observe observing publish_count count_observations push_watch release release_in
    end_observation unwatch erase_watch observed_identity
spent_forever_example =
    spent_forever 1 1 first_object (Reach-IsWell 16 4 (next path_to_two (releases 1 1)))
      (omega arith) refl
      (next here (captures 1 first_object captured_again (granted 3) (omega arith) refl))
