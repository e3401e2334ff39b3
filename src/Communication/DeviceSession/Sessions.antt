-- ===== src/Communication/DeviceSession/Sessions.antt =====
-- The operations of device_session.py between two sweeps: the invariant of the manager, admission,
-- and what a heartbeat guarantees.
use neuro_pipeline.Prelude.{
  ℕ, ◌+◌, ◌*◌, ◌≤◌, ◌≡◌, refl, ◌∙◌, String, false, ◌||◌, ◌&&◌, List, [], ◌∷◌, Option, none, some,
  arith, ltb, leb, str_eq, length, All, if◌then◌else◌, Bool-cases, Option-cases, inl, inr, eq_iff,
}
use neuro_pipeline.Prelude.Dict.{
  IsDict, get, contains, put, get-put, put-IsDict, remove-IsDict, put-All, remove-All, All-get,
  length-put, length-remove, contains_of_get, not-contains_of_get,
}
use neuro_pipeline.Communication.DeviceSession.{
  DeviceSession, DeviceSessionManager, Hello, connected, stale, re_register, new_session, register,
  update, beat, heartbeat, increment_frames, unregister, cleanup_expired,
}
use neuro_pipeline.Communication.DeviceSession.Sweep.{
  survivors-IsDict, survivors-All, length-survivors, get-survivors, cleanup_expired_lem,
}

-- The session is stored under its own id.
abbrev pub IsKeyed : String × DeviceSession → Type 0
IsKeyed e = e.1.device_id ≡ e.0

pub record IsValid (m : DeviceSessionManager) : Type 0 where
  pub distinct : IsDict m.sessions
  pub keyed : All IsKeyed m.sessions
  pub bounded : length m.sessions ≤ m.max_devices

module _ (m : DeviceSessionManager) (v : IsValid m) where
  -- Writing to a present key.
  put-IsValid :
      (k : String) (s s' : DeviceSession)
      → get k m.sessions ≡ some s
      → s'.device_id ≡ k
      → IsValid (record m { sessions = put k s' m.sessions })
  put-IsValid k s s' found same = record {
    distinct = put-IsDict k s' m.sessions v.distinct;
    keyed = put-All IsKeyed k s' m.sessions same v.keyed;
    bounded = let here = contains_of_get k m.sessions found in rw (length-put, here) v.bounded;
  }

  pub update-IsValid :
      (k : String) (change : DeviceSession → DeviceSession)
      → ((s : DeviceSession) → (change s).device_id ≡ s.device_id)
      → IsValid (update k change m)
  unfolding update
  update-IsValid k change keep = elim (Option-cases (get k m.sessions)) [
    | inl e ↦ rw (e, update) v
    | inr (s, e) ↦
        rw (e, update)
          (put-IsValid k s (change s) e (keep s ∙ All-get IsKeyed k m.sessions v.keyed e))
  ]

  pub register-IsValid : (t now : ℕ) (h : Hello) → IsValid (register t now h m).0
  unfolding register
  register-IsValid t now h = elim (Option-cases (get h.device_id m.sessions)) [
    | inr (s, e) ↦
        rw (e, register)
          (put-IsValid h.device_id s (re_register now h s) e
            (unfold re_register in All-get IsKeyed h.device_id m.sessions v.keyed e))
    | inl e ↦
        rw (e, register)
          (elim (Bool-cases (leb m.max_devices (length m.sessions))) [
            | inl full ↦ rw full v
            | inr room ↦ rw room (record {
              distinct = put-IsDict h.device_id (new_session t now h) m.sessions v.distinct;
              keyed =
                  put-All IsKeyed h.device_id (new_session t now h) m.sessions
                    (unfold new_session in refl) v.keyed;
              bounded =
                  rw (length-put, not-contains_of_get h.device_id m.sessions e) (ground arith);
            })
          ])
  ]

  pub unregister-IsValid : (k : String) → IsValid (unregister k m)
  unfolding unregister
  unregister-IsValid k = elim (Bool-cases (contains k m.sessions)) [
    | inl e ↦ rw e (record {
      distinct = remove-IsDict k m.sessions v.distinct;
      keyed = remove-All IsKeyed k m.sessions v.keyed;
      bounded = ground (arith, length-remove k m.sessions, v.bounded);
    })
    | inr e ↦ rw e v
  ]

  pub cleanup_expired-IsValid : (now : ℕ) → IsValid (cleanup_expired now m).0
  cleanup_expired-IsValid now =
      let interval = m.heartbeat_interval in
      let timeout = m.expiry_timeout in
      rw (cleanup_expired_lem now m v.distinct) (record {
        distinct = survivors-IsDict interval timeout now m.sessions v.distinct;
        keyed = survivors-All interval timeout now IsKeyed (λ k s same. same) m.sessions v.keyed;
        bounded = omega (arith, length-survivors interval timeout now m.sessions, v.bounded);
      })

-- The calls of a server, each with the clock readings that it makes.
pub data Call : Type 0 where
  registers : ℕ → ℕ → Hello → Call
  beats : ℕ → String → Call
  counts : String → ℕ → Call
  leaves : String → Call
  sweeps : ℕ → Call

unfoldable pub apply : Call → DeviceSessionManager → DeviceSessionManager
apply (registers t now h) m = (register t now h m).0
apply (beats now k) m = heartbeat now k m
apply (counts k n) m = increment_frames k n m
apply (leaves k) m = unregister k m
apply (sweeps now) m = (cleanup_expired now m).0

unfoldable pub run : List Call → DeviceSessionManager → DeviceSessionManager
run [] m = m
run (c ∷ cs) m = run cs (apply c m)

apply-IsValid : (c : Call) (m : DeviceSessionManager) → IsValid m → IsValid (apply c m)
unfolding apply heartbeat increment_frames
apply-IsValid (registers t now h) m v = register-IsValid m v t now h
apply-IsValid (beats now k) m v = update-IsValid m v k (beat now) (λ s. refl)
apply-IsValid (counts k n) m v = update-IsValid m v k _ (λ s. refl)
apply-IsValid (leaves k) m v = unregister-IsValid m v k
apply-IsValid (sweeps now) m v = cleanup_expired-IsValid m v now

-- After any sequence of calls no device has two sessions, every session is stored under its own
-- device id, and there are at most `max_devices` of them.
pub run-IsValid : (cs : List Call) (m : DeviceSessionManager) → IsValid m → IsValid (run cs m)
unfolding run
run-IsValid [] m v = v
run-IsValid (c ∷ cs) m v = run-IsValid cs (apply c m) (apply-IsValid c m v)

module _ (t now : ℕ) (h : Hello) (m : DeviceSessionManager) where
  -- What an admitted device's session becomes.
  abbrev pub greeted : Option DeviceSession → DeviceSession
  greeted (some s) = re_register now h s
  greeted none = new_session t now h

  -- `register` returns `True` exactly if the device has a session already or there is room for one
  -- more. It then leaves the device with its old session refreshed, or a new one, and every other
  -- device as it was. If it returns `False` nothing changes.
  pub register_lem :
      ((register t now h m).1
        ≡ (contains h.device_id m.sessions || ltb (length m.sessions) m.max_devices))
      × ((k : String)
          → get k (register t now h m).0.sessions ≡ (
              if (register t now h m).1 && str_eq h.device_id k
              then some (greeted (get h.device_id m.sessions))
              else get k m.sessions))
      × ((register t now h m).1 ≡ false → (register t now h m).0 ≡ m)
  unfolding register
  register_lem = elim (Option-cases (get h.device_id m.sessions)) [
    | inr (s, e) ↦
        rw (e, register, contains_of_get h.device_id m.sessions e)
          (refl, λ k. get-put _ k _ _, λ f. cc)
    | inl e ↦
        rw (e, register, not-contains_of_get h.device_id m.sessions e)
          (elim (Bool-cases (leb m.max_devices (length m.sessions))) [
            | inl full ↦ rw full (ground arith, λ k. refl, λ f. refl)
            | inr room ↦ rw room (ground arith, λ k. get-put _ k _ _, λ f. cc)
          ])
  ]

-- A session that is there is changed.
pub get-update :
    (k : String) (change : DeviceSession → DeviceSession) (m : DeviceSessionManager)
    {s : DeviceSession}
    → get k m.sessions ≡ some s
    → get k (update k change m).sessions ≡ some (change s)
unfolding update
get-update k change m {s} found =
    rw (found, update) (rw (get-put k k (change s) m.sessions, (eq_iff k k).1 refl) refl)

module _ (now later : ℕ) (k : String) (m : DeviceSessionManager) {s : DeviceSession} where
  heartbeat_present :
      get k m.sessions ≡ some s
      → heartbeat now k m ≡ record m { sessions = put k (beat now s) m.sessions }
  unfolding heartbeat update
  heartbeat_present found = rw (found, update)

  -- A device that sent a heartbeat at `now` outlives every clean-up up to `expiry_timeout` later: it
  -- keeps its session, and up to twice the heartbeat interval later it is still `connected`, after
  -- that `stale`.
  pub heartbeat_survives :
      IsValid m
      → get k m.sessions ≡ some s
      → later ≤ now + m.expiry_timeout
      → get k (cleanup_expired later (heartbeat now k m)).0.sessions
        ≡ some (record s {
          last_heartbeat = now;
          status = if ltb (now + m.heartbeat_interval * 2) later then stale else connected;
        })
  heartbeat_survives v found soon =
      let d = put k (beat now s) m.sessions in
      let distinct = put-IsDict k (beat now s) m.sessions v.distinct in
      rw
        (
          heartbeat_present found,
          cleanup_expired_lem later (record m { sessions = d }) distinct,
          get-survivors m.heartbeat_interval m.expiry_timeout later k d distinct,
          get-put,
        )
        (ground (arith, eq_iff k k))
