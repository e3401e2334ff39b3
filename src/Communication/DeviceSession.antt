-- ===== src/Communication/DeviceSession.antt =====
-- mac-central/src/communication/device_session.py. Times are numbers of clock ticks, and a method
-- that reads `time.time()` takes the reading as its argument. Each method holds the lock for its
-- whole effect, so a history is a sequence of calls.
pub mod Sweep
pub mod Sessions
mod Tests
use neuro_pipeline.Prelude.{
  ℕ, ◌+◌, ◌*◌, String, Bool, true, false, List, [], ◌∷◌, ◌++◌, Option, none, some, str_eq, leb, ltb,
  length, if◌then◌else◌,
}
use neuro_pipeline.Prelude.Dict.{Dict, get, contains, put, remove}

pub data Status : Type 0 where
  connected stale disconnected : Status

pub record DeviceSession : Type 0 where
  pub device_id : String
  pub device_name : String
  pub firmware_version : String
  pub capabilities : List String
  pub connected_at : ℕ
  pub last_heartbeat : ℕ
  pub frames_received : ℕ
  pub status : Status
  pub ab_test_group : String
  pub model_version : String

pub record DeviceSessionManager : Type 0 where
  pub sessions : Dict DeviceSession
  pub heartbeat_interval : ℕ
  pub expiry_timeout : ℕ
  pub max_devices : ℕ

-- `__init__`
pub init : ℕ → ℕ → ℕ → DeviceSessionManager
init heartbeat_interval expiry_timeout max_devices = record {
  sessions = [];
  heartbeat_interval = heartbeat_interval;
  expiry_timeout = expiry_timeout;
  max_devices = max_devices;
}

-- The arguments of `register`.
pub record Hello : Type 0 where
  pub device_id : String
  pub device_name : String
  pub firmware_version : String
  pub capabilities : Option (List String)

-- `if x: s.f = x`
abbrev keep_empty : String → String → String
keep_empty new old = if str_eq new "" then old else new

keep_capabilities : Option (List String) → List String → List String
keep_capabilities none old = old
keep_capabilities (some []) old = old
keep_capabilities (some (c ∷ cs)) old = c ∷ cs

-- `capabilities or []`
or_empty : Option (List String) → List String
or_empty none = []
or_empty (some cs) = cs

pub re_register : ℕ → Hello → DeviceSession → DeviceSession
unfolding keep_capabilities
re_register now h s = record s {
  device_name = keep_empty h.device_name s.device_name;
  firmware_version = keep_empty h.firmware_version s.firmware_version;
  capabilities = keep_capabilities h.capabilities s.capabilities;
  last_heartbeat = now;
  status = connected;
}

-- A session with the defaults of the class; the two times are two readings of the clock.
pub new_session : ℕ → ℕ → Hello → DeviceSession
unfolding or_empty
new_session connected_at now h = record {
  device_id = h.device_id;
  device_name = h.device_name;
  firmware_version = h.firmware_version;
  capabilities = or_empty h.capabilities;
  connected_at = connected_at;
  last_heartbeat = now;
  frames_received = 0;
  status = connected;
  ab_test_group = "";
  model_version = "";
}

pub register : ℕ → ℕ → Hello → DeviceSessionManager → DeviceSessionManager × Bool
register connected_at now h m = elim (get h.device_id m.sessions) [
  | some s ↦ (record m { sessions = put h.device_id (re_register now h s) m.sessions }, true)
  | none ↦ if leb m.max_devices (length m.sessions) then (m, false) else (
    record m { sessions = put h.device_id (new_session connected_at now h) m.sessions },
    true,
  )
]

-- `if device_id in self._sessions:` followed by a change of that session.
pub update : String → (DeviceSession → DeviceSession) → DeviceSessionManager → DeviceSessionManager
update device_id change m = elim (get device_id m.sessions) [
  | some s ↦ record m { sessions = put device_id (change s) m.sessions }
  | none ↦ m
]

abbrev pub beat : ℕ → DeviceSession → DeviceSession
beat now s = record s { last_heartbeat = now; status = connected }

unfoldable pub heartbeat : ℕ → String → DeviceSessionManager → DeviceSessionManager
heartbeat now device_id = update device_id (beat now)

unfoldable pub increment_frames : String → ℕ → DeviceSessionManager → DeviceSessionManager
increment_frames device_id count =
    update device_id (λ s. record s { frames_received = s.frames_received + count })

pub unregister : String → DeviceSessionManager → DeviceSessionManager
unregister device_id m =
    if contains device_id m.sessions then record m { sessions = remove device_id m.sessions } else m

-- `now - last_heartbeat > limit`, without the subtraction.
abbrev pub silent_for : ℕ → ℕ → DeviceSession → Bool
silent_for limit now s = ltb (s.last_heartbeat + limit) now

-- The loop of `cleanup_expired` over the copied items, with the sessions and the expired ids.
pub sweep :
    ℕ
    → ℕ
    → ℕ
    → Dict DeviceSession
    → Dict DeviceSession
    → List String
    → Dict DeviceSession × List String
sweep interval timeout now [] sessions expired = (sessions, expired)
sweep interval timeout now ((did, s) ∷ items) sessions expired =
    sweep interval timeout now items
      (if silent_for timeout now s
        then remove did sessions
        else if silent_for (interval * 2) now s
        then put did (record s { status = stale }) sessions
        else sessions)
      (if silent_for timeout now s then expired ++ (did ∷ []) else expired)

pub cleanup_expired : ℕ → DeviceSessionManager → DeviceSessionManager × List String
unfolding sweep
cleanup_expired now m =
    let (sessions, expired) =
      sweep m.heartbeat_interval m.expiry_timeout now m.sessions m.sessions [] in
    (record m { sessions = sessions }, expired)

pub get_session : String → DeviceSessionManager → Option DeviceSession
get_session device_id m = get device_id m.sessions

pub list_sessions : DeviceSessionManager → List DeviceSession
list_sessions m = neuro_pipeline.Prelude.Dict.values m.sessions

pub device_count : DeviceSessionManager → ℕ
device_count m = length m.sessions
