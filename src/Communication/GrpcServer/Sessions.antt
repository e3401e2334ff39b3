-- ===== src/Communication/GrpcServer/Sessions.antt =====
-- The sessions of devices while grpc_server.py serves its streams.
use neuro_pipeline.Prelude.{
  ℕ, suc, refl, String, Bool, List, [], ◌∷◌, Option, none, some, ◌&&◌, not, str_eq, Bool-cases, inl,
  inr,
}
use neuro_pipeline.Core.EventBus.{StoreCall}
use neuro_pipeline.Communication.DeviceSession.{
  DeviceSessionManager, heartbeat, increment_frames, beat,
}
use neuro_pipeline.Communication.DeviceSession.Sessions.{
  IsValid, register-IsValid, update-IsValid, unregister-IsValid,
}
use neuro_pipeline.Communication.GrpcServer.{
  Servicer, Message, Input, message, broken, is_valid, is_allowed, device_after, asked, accept,
  receive, stream_detection_results, sessions_on, count_frame, greet, say_goodbye,
}

-- The session manager, if there is one, is well-formed.
unfoldable pub IsValidOption : Option DeviceSessionManager → Type 0
IsValidOption none = Unit
IsValidOption (some m) = IsValid m

greet-IsValid :
    (m : Message) (device : String) (o : Option DeviceSessionManager)
    → IsValidOption o
    → IsValidOption (greet m device o)
unfolding greet IsValidOption
greet-IsValid m device none h = tt
greet-IsValid m device (some s) h = register-IsValid s h m.connected_at m.registered _

sessions_on-IsValid :
    (device : String) (m : Message) (o : Option DeviceSessionManager)
    → IsValidOption o
    → IsValidOption (sessions_on device m o)
unfolding sessions_on
sessions_on-IsValid device m o h =
    elim (Bool-cases (str_eq device "" && not (str_eq m.result.device_id ""))) [
      | inl e ↦ rw e (greet-IsValid m m.result.device_id o h)
      | inr e ↦ rw e h
    ]

counted-IsValid :
    (now : ℕ) (device : String) (s : DeviceSessionManager)
    → IsValid s
    → IsValid (increment_frames device 1 (heartbeat now device s))
unfolding increment_frames heartbeat
counted-IsValid now device s h =
    update-IsValid _ (update-IsValid s h device (beat now) (λ x. refl)) device _ (λ x. refl)

count_frame-IsValid :
    (m : Message) (device : String) (o : Option DeviceSessionManager)
    → IsValidOption o
    → IsValidOption (count_frame m device o)
unfolding count_frame IsValidOption
count_frame-IsValid m device none h = tt
count_frame-IsValid m device (some s) h = elim (Bool-cases (str_eq device "")) [
  | inl e ↦ rw e h
  | inr e ↦ rw e (counted-IsValid m.beat device s h)
]

say_goodbye-IsValid :
    (device : String) (o : Option DeviceSessionManager)
    → IsValidOption o
    → IsValidOption (say_goodbye device o)
unfolding say_goodbye IsValidOption
say_goodbye-IsValid device none h = tt
say_goodbye-IsValid device (some s) h = elim (Bool-cases (str_eq device "")) [
  | inl e ↦ rw e h
  | inr e ↦ rw e (unregister-IsValid s h device)
]

module _ (unit one : ℕ) (decimal : ℕ → String) (fails : StoreCall → Bool) where
  receive-IsValid :
      (inputs : List Input) (device : String) (frames : ℕ) (s : Servicer)
      → IsValidOption s.session_manager
      → IsValidOption (receive unit one decimal fails inputs device frames s).0.session_manager
  unfolding receive asked accept
  receive-IsValid [] device frames s h = h
  receive-IsValid (broken e ∷ inputs) device frames s h = h
  receive-IsValid (message m ∷ inputs) device frames s h =
      let device' = device_after device m.result in
      let s' = asked unit one decimal fails m device s in
      let h' = sessions_on-IsValid device m s.session_manager h in
      elim (Bool-cases (is_allowed unit one decimal fails m device' s.rate_limiter).1) [
        | inr over ↦ rw over h'
        | inl ok ↦ elim (Bool-cases (is_valid decimal one m.result)) [
          | inl valid ↦
              rw (ok, valid)
                (receive-IsValid inputs device' (suc frames)
                  (accept unit one decimal fails m device' s')
                  (count_frame-IsValid m device' s'.session_manager h'))
          | inr not_valid ↦ rw (ok, not_valid) (receive-IsValid inputs device' frames s' h')
        ]
      ]

  -- A stream keeps the sessions well-formed however it ends: no device has two sessions, each is
  -- stored under its own device id, and there are at most `max_devices` of them.
  pub stream_detection_results-IsValid :
      (inputs : List Input) (s : Servicer)
      → IsValidOption s.session_manager
      → IsValidOption (stream_detection_results unit one decimal fails inputs s).0.session_manager
  unfolding stream_detection_results
  stream_detection_results-IsValid inputs s h =
      let r = receive unit one decimal fails inputs "" 0 s in
      say_goodbye-IsValid r.1 r.0.session_manager (receive-IsValid inputs "" 0 s h)
