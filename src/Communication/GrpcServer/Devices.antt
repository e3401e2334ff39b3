-- ===== src/Communication/GrpcServer/Devices.antt =====
-- What `RegisterDevice` of grpc_server.py leaves.
use neuro_pipeline.Prelude.{
  ℕ, ◌≡◌, refl, ◌∙◌, ap, sym, String, Bool, true, false, ◌||◌, Option, none, some, ltb, length,
  ◌&&◌, str_eq, eq_iff, if◌then◌else◌,
}
use neuro_pipeline.Prelude.Dict.{get, contains}
use neuro_pipeline.Communication.DeviceSession.{
  DeviceSession, DeviceSessionManager, Hello, register,
}
use neuro_pipeline.Communication.DeviceSession.Sessions.{register_lem, greeted, get-update}
use neuro_pipeline.ModelManagement.AbTest.{
  AbGroup, AbTestManager, get_group, assign_group, variant_of,
}
use neuro_pipeline.ModelManagement.AbTest.Groups.{assign_group-known, get_variant-assign_group}
use neuro_pipeline.Communication.GrpcServer.{Servicer}
use neuro_pipeline.Communication.GrpcServer.Calls.{
  DeviceRegistrationResponse, register_device, register_with, answer_register, registered, assign,
  group_value, set_group,
}

-- Whether a device may have a session.
unfoldable pub admits : String → DeviceSessionManager → Bool
admits k m = contains k m.sessions || ltb (length m.sessions) m.max_devices

pub session_of : String → Option DeviceSessionManager → Option DeviceSession
session_of k none = none
session_of k (some m) = get k m.sessions

pub group_of : String → Option AbTestManager → Option AbGroup
group_of k none = none
group_of k (some ab) = get_group k ab

pub refused : String → DeviceRegistrationResponse
refused device_id = record {
  success = false;
  message = "Max devices reached";
  assigned_id = device_id;
}

greeted_there :
    (t now : ℕ) (h : Hello) (m : DeviceSessionManager)
    → (register t now h m).1 ≡ true
    → (if (register t now h m).1 && str_eq h.device_id h.device_id
        then some (greeted t now h m (get h.device_id m.sessions))
        else get h.device_id m.sessions)
      ≡ some (greeted t now h m (get h.device_id m.sessions))
greeted_there t now h m ok = rw (ok, (eq_iff h.device_id h.device_id).1 refl) refl

module _ (t now draw : ℕ) (h : Hello) (s : Servicer) {m : DeviceSessionManager} where
  -- The answer of `register` decides.
  register_device-answer :
      (b : Bool)
      → s.session_manager ≡ some m
      → admits h.device_id m ≡ b
      → register_device t now draw h s
        ≡ answer_register draw h.device_id s ((register t now h m).0, b)
  unfolding register_device register_with admits
  register_device-answer b found e =
      let answer : (register t now h m).1 ≡ b = (register_lem t now h m).0 ∙ e in
      ap (λ o. register_with t now draw h o s) found
      ∙ ap (λ ok. answer_register draw h.device_id s ((register t now h m).0, ok)) answer

  -- A device that is new where `max_devices` are there is refused, and nothing changes: no session is
  -- made, and no group is drawn.
  pub register_device-refused :
      s.session_manager ≡ some m
      → admits h.device_id m ≡ false
      → register_device t now draw h s ≡ (s, refused h.device_id)
  unfolding answer_register refused admits
  register_device-refused found full =
      let (answer, others, same) = register_lem t now h m in
      register_device-answer false found full
      ∙ ap (λ o. (record s { session_manager = o }, refused h.device_id))
          (ap some (same (answer ∙ full)) ∙ sym found)

  -- Where there is an A/B test, a device that has a session or finds room gets one, with the group that
  -- the test knows it by from then on, and with the variant of that group.
  pub register_device-session_of :
      {ab : AbTestManager}
      → s.session_manager ≡ some m
      → s.ab_test_manager ≡ some ab
      → admits h.device_id m ≡ true
      → let r = register_device t now draw h s in
        let g = (assign_group draw h.device_id ab).1 in
        (r.1 ≡ registered h.device_id)
        × (group_of h.device_id r.0.ab_test_manager ≡ some g)
        × (session_of h.device_id r.0.session_manager
            ≡ some (
                set_group
                  (group_value g)
                  (variant_of g ab)
                  (greeted t now h m (get h.device_id m.sessions))))
  unfolding answer_register assign registered group_of get_group session_of admits
  register_device-session_of {ab} found tested room =
      let (answer, others, same) = register_lem t now h m in
      let a = assign_group draw h.device_id ab in
      let there = others h.device_id ∙ greeted_there t now h m (answer ∙ room) in
      rw
        (
          register_device-answer true found room,
          tested,
          get_variant-assign_group draw h.device_id ab,
        )
        (refl, assign_group-known draw h.device_id ab, get-update h.device_id _ _ there)
