-- ===== src/Communication/DeviceSession/Tests.antt =====
-- Runs of device_session.py.
use neuro_pipeline.Prelude.{ℕ, ◌≡◌, refl, String, List, [], ◌∷◌, none, some, arith}
use neuro_pipeline.Prelude.Dict.{Dict, get, contains, put, remove}
use neuro_pipeline.Communication.DeviceSession.{
  DeviceSession, DeviceSessionManager, Hello, connected, stale, init, register, re_register,
  new_session, heartbeat, increment_frames, unregister, update, cleanup_expired, sweep, get_session,
  list_sessions, device_count,
}
use neuro_pipeline.Communication.DeviceSession.Sweep.{survivors, expired_ids, cleanup_expired_lem}
use neuro_pipeline.Communication.DeviceSession.Sessions.{
  IsValid, Call, registers, sweeps, run, apply,
}

abbrev hello : String → Hello
hello k = record { device_id = k; device_name = ""; firmware_version = ""; capabilities = none }

abbrev session : String → ℕ → DeviceSession
session k seen = record {
  device_id = k;
  device_name = "";
  firmware_version = "";
  capabilities = [];
  connected_at = 0;
  last_heartbeat = seen;
  frames_received = 0;
  status = connected;
  ab_test_group = "";
  model_version = "";
}

-- Two devices are allowed.
abbrev three : Dict DeviceSession
three = ("a", session "a" 100) ∷ ("b", session "b" 70) ∷ ("c", session "c" 85) ∷ []

abbrev manager : DeviceSessionManager
manager = record { sessions = three; heartbeat_interval = 10; expiry_timeout = 30; max_devices = 3 }

program : Unit {0}
unfolding run apply register re_register new_session heartbeat increment_frames unregister update
    cleanup_expired sweep init get contains put remove get_session list_sessions device_count
program = tt

manager_run :
    (run
      (registers 0 1 (hello "a") ∷ registers 2 2 (hello "b") ∷ registers 3 3 (hello "c") ∷ [])
      (init 10 30 2)).sessions
    ≡ ("a", session "a" 1) ∷ ("b", record (session "b" 2) { connected_at = 2 }) ∷ []
unfolding program
manager_run = refl

sweep_run : cleanup_expired 106 manager ≡ (
  record manager {
    sessions = ("a", session "a" 100) ∷ ("c", record (session "c" 85) { status = stale }) ∷ [];
  },
  "b" ∷ [],
)
unfolding program
sweep_run = refl

views :
    (get_session "b" manager ≡ some (session "b" 70))
    × (list_sessions (unregister "b" manager) ≡ session "a" 100 ∷ session "c" 85 ∷ [])
    × (device_count (increment_frames "a" 4 manager) ≡ 3)
unfolding program
views = (refl, refl, refl)

manager-IsValid : IsValid manager
unfolding contains
manager-IsValid = record {
  distinct = (refl, (refl, (refl, tt)));
  keyed = (refl, (refl, (refl, tt)));
  bounded = omega arith;
}

abbrev calls : List Call
calls = registers 101 101 (hello "d") ∷ sweeps 106 ∷ registers 107 107 (hello "d") ∷ []

cleanup_expired_lem_example :
    cleanup_expired 106 manager
    ≡ (record manager { sessions = survivors 10 30 106 three }, expired_ids 10 30 106 three)
unfolding contains
cleanup_expired_lem_example = cleanup_expired_lem 106 manager (refl, (refl, (refl, tt)))
