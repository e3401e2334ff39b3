-- ===== src/Communication/DeviceSession/Sweep.antt =====
-- `cleanup_expired` of device_session.py, against a description of what each session becomes.
use neuro_pipeline.Prelude.{
  ℕ, ◌+◌, ◌*◌, ◌≡◌, refl, sym, ◌∙◌, String, false, List, [], ◌∷◌, ◌++◌, append-nil, append_assoc,
  All, Option, none, some, arith, length, if◌then◌else◌, Bool-cases, inl, inr, eq_iff,
}
use neuro_pipeline.Prelude.Dict.{
  Dict, IsDict, get, contains, put, absent_before, remove-middle, put-middle, put-IsDict,
  remove-IsDict, get_of_not-contains,
}
use neuro_pipeline.Communication.DeviceSession.{
  DeviceSession, DeviceSessionManager, stale, silent_for, sweep, cleanup_expired,
}

module _ (interval timeout now : ℕ) where
  -- What a session that stays becomes.
  abbrev pub aged : DeviceSession → DeviceSession
  aged s = if silent_for (interval * 2) now s then record s { status = stale } else s

  -- The sessions that stay, in their order, each aged.
  abbrev pub survivors : Dict DeviceSession → Dict DeviceSession
  survivors [] = []
  survivors ((k, s) ∷ d) =
      if silent_for timeout now s then survivors d else (k, aged s) ∷ survivors d

  -- The ids of the sessions that do not.
  abbrev pub expired_ids : Dict DeviceSession → List String
  expired_ids [] = []
  expired_ids ((k, s) ∷ d) = if silent_for timeout now s then k ∷ expired_ids d else expired_ids d

  module _ (k : String) (s : DeviceSession) (done items : Dict DeviceSession)
      (h : IsDict (done ++ ((k, s) ∷ items))) where
    absent : contains k done ≡ false
    absent = absent_before k s done items h

    without-IsDict : IsDict (done ++ items)
    without-IsDict =
        rw (remove-middle k s done items absent) at (remove-IsDict k (done ++ ((k, s) ∷ items)) h)

    written-IsDict : (s' : DeviceSession) → IsDict ((done ++ ((k, s') ∷ [])) ++ items)
    written-IsDict s' =
        rw append_assoc (
          rw (put-middle k s s' done items absent) at
            (put-IsDict k s' (done ++ ((k, s) ∷ items)) h))

    written :
        (if silent_for (interval * 2) now s
          then put k (record s { status = stale }) (done ++ ((k, s) ∷ items))
          else done ++ ((k, s) ∷ items))
        ≡ (done ++ ((k, aged s) ∷ [])) ++ items
    written = elim (Bool-cases (silent_for (interval * 2) now s)) [
      | inl e ↦ rw e (put-middle k s _ done items absent ∙ sym (append_assoc done _ items))
      | inr e ↦ rw e (sym (append_assoc done _ items))
    ]

  sweep_lem :
      (items done : Dict DeviceSession) (expired : List String)
      → IsDict (done ++ items)
      → sweep interval timeout now items (done ++ items) expired
        ≡ (done ++ survivors items, expired ++ expired_ids items)
  unfolding sweep
  sweep_lem [] done expired h = rw (append-nil expired)
  sweep_lem ((k, s) ∷ items) done expired h = elim (Bool-cases (silent_for timeout now s)) [
    | inl e ↦
        rw (e, remove-middle k s done items (absent k s done items h))
          (sweep_lem items done (expired ++ (k ∷ [])) (without-IsDict k s done items h)
            ∙ rw (append_assoc expired (k ∷ []) (expired_ids items)))
    | inr e ↦
        rw (e, written k s done items h)
          (sweep_lem items (done ++ ((k, aged s) ∷ [])) expired
              (written-IsDict k s done items h (aged s))
            ∙ rw (append_assoc done ((k, aged s) ∷ []) (survivors items)))
  ]

  -- A key that is not there before the sweep is not there after it.
  survivors-absent :
      (k : String) (d : Dict DeviceSession)
      → contains k d ≡ false
      → contains k (survivors d) ≡ false
  unfolding contains
  survivors-absent k [] h = refl
  survivors-absent k ((j, s) ∷ d) h = ground (arith, survivors-absent k d)

  pub survivors-IsDict : (d : Dict DeviceSession) → IsDict d → IsDict (survivors d)
  survivors-IsDict [] h = tt
  survivors-IsDict ((k, s) ∷ d) h = elim (Bool-cases (silent_for timeout now s)) [
    | inl e ↦ rw e (survivors-IsDict d h.1)
    | inr e ↦ rw e (survivors-absent k d h.0, survivors-IsDict d h.1)
  ]

  pub survivors-All :
      (P : String × DeviceSession → Type 0)
      → ((k : String) (s : DeviceSession) → P (k, s) → P (k, record s { status = stale }))
      → (d : Dict DeviceSession) → All P d
      → All P (survivors d)
  survivors-All P keep [] h = tt
  survivors-All P keep ((k, s) ∷ d) h = elim (Bool-cases (silent_for timeout now s)) [
    | inl e ↦ rw e (survivors-All P keep d h.1)
    | inr e ↦ rw e (
      elim (Bool-cases (silent_for (interval * 2) now s)) [
        | inl f ↦ rw f (keep k s h.0)
        | inr f ↦ rw f h.0
      ],
      survivors-All P keep d h.1,
    )
  ]

  -- Every session either stays or is reported.
  pub length-survivors :
      (d : Dict DeviceSession) → length (survivors d) + length (expired_ids d) ≡ length d
  length-survivors [] = refl
  length-survivors ((k, s) ∷ d) = ground (arith, length-survivors d)

  -- What the sweep leaves under a key.
  abbrev pub outcome : Option DeviceSession → Option DeviceSession
  outcome none = none
  outcome (some s) = if silent_for timeout now s then none else some (aged s)

  pub get-survivors :
      (k : String) (d : Dict DeviceSession) → IsDict d → get k (survivors d) ≡ outcome (get k d)
  unfolding get
  get-survivors k [] h = refl
  get-survivors k ((j, s) ∷ d) h = ground (
    arith,
    get-survivors k d h.1,
    eq_iff j k,
    get_of_not-contains j (survivors d) (survivors-absent j d h.0),
  )

module _ (now : ℕ) (m : DeviceSessionManager) where
  open m use {heartbeat_interval as interval, expiry_timeout as timeout}

  -- The loop over a copy of the items, which deletes from and writes to the dictionary itself,
  -- leaves exactly the sessions that are not silent for more than `expiry_timeout`, in their order,
  -- marks as stale those of them that are silent for more than twice the heartbeat interval, changes
  -- nothing else, and returns the ids of the others in their order.
  pub cleanup_expired_lem :
      IsDict m.sessions
      → cleanup_expired now m ≡ (
        record m { sessions = survivors interval timeout now m.sessions },
        expired_ids interval timeout now m.sessions,
      )
  unfolding cleanup_expired
  cleanup_expired_lem h = rw (sweep_lem interval timeout now m.sessions [] [] h)
