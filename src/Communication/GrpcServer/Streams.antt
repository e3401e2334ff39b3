-- ===== src/Communication/GrpcServer/Streams.antt =====
-- What a stream of grpc_server.py does with its messages.
use neuro_pipeline.Prelude.{
  ℕ, suc, ◌+◌, ◌≡◌, refl, ◌∙◌, String, Bool, true, false, List, [], ◌∷◌, Option, none, filter,
  arith, length, ◌&&◌, not, str_eq, ap, if◌then◌else◌, Bool-cases, inl, inr,
}
use neuro_pipeline.Core.EventBus.{StoreCall}
use neuro_pipeline.Communication.RateLimiter.{TokenBucketRateLimiter}
use neuro_pipeline.Pipeline.CentralOrchestrator.{CentralOrchestrator, process_detection}
use neuro_pipeline.Communication.GrpcServer.{
  Servicer, Message, Input, message, broken, Ended, processed, limited, errored, is_valid,
  is_allowed, device_after, asked, accept, receive, stream_detection_results, sessions_on,
  count_frame, greet, say_goodbye,
}

pub frames_of : Ended → ℕ
frames_of (processed n) = n
frames_of (limited n) = n
frames_of (errored e n) = n

-- The servicer without its session manager.
abbrev pub forget : Servicer → Servicer
forget s = record s { session_manager = none }

greet-none : (m : Message) (device : String) → greet m device none ≡ none
unfolding greet
greet-none m device = refl

sessions_on-none : (device : String) (m : Message) → sessions_on device m none ≡ none
unfolding sessions_on greet
sessions_on-none device m =
    elim (Bool-cases (str_eq device "" && not (str_eq m.result.device_id ""))) [
      | inl e ↦ rw e refl
      | inr e ↦ rw e refl
    ]

module _ (unit one : ℕ) (decimal : ℕ → String) (fails : StoreCall → Bool) where
  -- The messages that are looked at: those before the end, a broken one, and one over the limit.
  unfoldable pub reached : List Input → String → Option TokenBucketRateLimiter → List Message
  reached [] device l = []
  reached (broken e ∷ inputs) device l = []
  reached (message m ∷ inputs) device l =
      let device' = device_after device m.result in
      let rest = reached inputs device' (is_allowed unit one decimal fails m device' l).0 in
      if (is_allowed unit one decimal fails m device' l).1 then m ∷ rest else []

  -- The valid ones.
  unfoldable pub passed : List Message → List Message
  passed = filter (λ m. is_valid decimal one m.result)

  pub process_all : List Message → CentralOrchestrator → CentralOrchestrator
  process_all [] o = o
  process_all (m ∷ ms) o =
      process_all ms (process_detection decimal fails m.event_id m.world m.result o)

  pub receive_lem :
      (inputs : List Input) (device : String) (frames : ℕ) (s : Servicer)
      → let r = receive unit one decimal fails inputs device frames s in
        let ms = passed (reached inputs device s.rate_limiter) in
        (r.0.orchestrator ≡ process_all ms s.orchestrator) × (frames_of r.2 ≡ frames + length ms)
  unfolding receive reached passed process_all frames_of asked accept
  receive_lem [] device frames s = (refl, omega arith)
  receive_lem (broken e ∷ inputs) device frames s = (refl, omega arith)
  receive_lem (message m ∷ inputs) device frames s =
      let device' = device_after device m.result in
      let s' = asked unit one decimal fails m device s in
      elim (Bool-cases (is_allowed unit one decimal fails m device' s.rate_limiter).1) [
        | inr over ↦ rw over (refl, omega arith)
        | inl ok ↦ elim (Bool-cases (is_valid decimal one m.result)) [
          | inl valid ↦
              let more =
                receive_lem inputs device' (suc frames)
                  (accept unit one decimal fails m device' s') in
              rw (ok, valid) (more.0, omega (arith, more.1))
          | inr not_valid ↦ rw (ok, not_valid) (receive_lem inputs device' frames s')
        ]
      ]

  asked-forget :
      (m : Message) (device : String) (s : Servicer)
      → asked unit one decimal fails m device (forget s)
        ≡ forget (asked unit one decimal fails m device s)
  unfolding asked
  asked-forget m device s = rw (sessions_on-none device m) refl

  -- The servicer after a message that was not over the limit.
  abbrev after : Bool → Message → String → Servicer → Servicer
  after valid m device s =
      let s' = asked unit one decimal fails m device s in
      if valid then accept unit one decimal fails m (device_after device m.result) s' else s'

  after-forget :
      (valid : Bool) (m : Message) (device : String) (s : Servicer)
      → after valid m device (forget s) ≡ forget (after valid m device s)
  unfolding accept count_frame
  after-forget true m device s =
      ap (accept unit one decimal fails m (device_after device m.result)) (asked-forget m device s)
  after-forget false m device s = asked-forget m device s

  pub receive-forget :
      (inputs : List Input) (device : String) (frames : ℕ) (s : Servicer)
      → let r = receive unit one decimal fails inputs device frames s in
        receive unit one decimal fails inputs device frames (forget s) ≡ (forget r.0, r.1, r.2)
  unfolding receive
  receive-forget [] device frames s = refl
  receive-forget (broken e ∷ inputs) device frames s = refl
  receive-forget (message m ∷ inputs) device frames s =
      let device' = device_after device m.result in
      let valid = is_valid decimal one m.result in
      let count = if valid then suc frames else frames in
      let more =
        ap (receive unit one decimal fails inputs device' count) (after-forget valid m device s)
        ∙ receive-forget inputs device' count (after valid m device s) in
      elim (Bool-cases (is_allowed unit one decimal fails m device' s.rate_limiter).1) [
        | inr over ↦ rw (over, asked-forget m device s) refl
        | inl ok ↦ rw ok more
      ]

  -- A stream passes on to the orchestrator just the valid ones of the messages that it reaches, in
  -- their order, and it counts them. It reaches the messages before the first one that is broken or
  -- over the limit.
  pub stream_detection_results_lem :
      (inputs : List Input) (s : Servicer)
      → let r = stream_detection_results unit one decimal fails inputs s in
        let ms = passed (reached inputs "" s.rate_limiter) in
        (r.0.orchestrator ≡ process_all ms s.orchestrator) × (frames_of r.1 ≡ length ms)
  unfolding stream_detection_results
  stream_detection_results_lem inputs s =
      let (passed_on, counted) = receive_lem inputs "" 0 s in (passed_on, omega (arith, counted))

  -- What the session manager holds and answers makes no difference to a stream: whether a device was
  -- admitted or refused, the same detections are passed on, the limits are charged alike and the
  -- stream ends alike, as if there were no session manager.
  pub stream_detection_results-forget :
      (inputs : List Input) (s : Servicer)
      → let r = stream_detection_results unit one decimal fails inputs s in
        stream_detection_results unit one decimal fails inputs (forget s) ≡ (forget r.0, r.1)
  unfolding stream_detection_results say_goodbye
  stream_detection_results-forget inputs s =
      ap (λ r. (record r.0 { session_manager = say_goodbye r.1 r.0.session_manager }, r.2))
        (receive-forget inputs "" 0 s)
