-- ===== src/Pipeline/BehaviorAnalyzer/Crowds.antt =====
-- When behavior_analyzer.py reports a crowd.
use neuro_pipeline.Prelude.{
  ℕ, suc, ◌+◌, ◌≤◌, ◌<◌, ◌≡◌, refl, sym, ap, ◌∙◌, String, false, List, [], ◌∷◌, some, arith, str_eq,
  eq_iff, leb, leb→le, ◌==◌, All, Bool-cases, Option-cases, inl, inr, if◌then◌else◌,
}
use neuro_pipeline.Prelude.Dict.{Dict, get, put, contains, IsDict, get-put, put-IsDict, All-get}
use neuro_pipeline.Pipeline.Detection.{Detection}
use neuro_pipeline.Pipeline.BehaviorAnalyzer.{
  BehaviorAnalyzer, Check, nothing, reports, divides_by_zero, class_count, crowd, or_zero,
  count_classes, crowd_event, first_crowd, check_crowd,
}

-- How many of the detections are of the class.
unfoldable pub occurrences : String → List Detection → ℕ
occurrences c [] = 0
occurrences c (d ∷ ds) = if str_eq d.class_name c then suc (occurrences c ds) else occurrences c ds

-- The count of a class after the count of another, or the same, class went up by one.
one_more :
    (k c : String) (counts : Dict ℕ)
    → or_zero (get c (put k (or_zero (get k counts) + 1) counts))
      ≡ or_zero (get c counts) + (if str_eq k c then 1 else 0)
unfolding or_zero
one_more k c counts = elim (Bool-cases (str_eq k c)) [
  | inl e ↦
      let same : get k counts ≡ get c counts = ap (λ i. get i counts) ((eq_iff k c).0 e) in
      rw (get-put k c (or_zero (get k counts) + 1) counts, e, same) refl
  | inr e ↦ rw (get-put k c (or_zero (get k counts) + 1) counts, e) (omega arith)
]

get-count_classes :
    (c : String) (ds : List Detection) (counts : Dict ℕ)
    → or_zero (get c (count_classes ds counts)) ≡ or_zero (get c counts) + occurrences c ds
unfolding count_classes occurrences
get-count_classes c [] counts = omega arith
get-count_classes c (d ∷ ds) counts =
    let rest =
      get-count_classes c ds (put d.class_name (or_zero (get d.class_name counts) + 1) counts) in
    ground (arith, one_more d.class_name c counts)

count_classes-IsDict :
    (ds : List Detection) (counts : Dict ℕ) → IsDict counts → IsDict (count_classes ds counts)
unfolding count_classes
count_classes-IsDict [] counts h = h
count_classes-IsDict (d ∷ ds) counts h =
    count_classes-IsDict ds _ (put-IsDict d.class_name _ counts h)

-- Each entry is what a look-up of its key finds.
later_entries :
    (k : String) (w : ℕ) (d part : Dict ℕ)
    → contains k part ≡ false
    → All (λ e. get e.0 d ≡ some e.1) part
    → All (λ e. get e.0 ((k, w) ∷ d) ≡ some e.1) part
unfolding contains get
later_entries k w d [] c h = tt
later_entries k w d ((j, v) ∷ part) c h =
    (ground (arith, eq_iff j k, eq_iff k j), later_entries k w d part (ground arith) h.1)

entries : (d : Dict ℕ) → IsDict d → All (λ e. get e.0 d ≡ some e.1) d
unfolding get
entries [] h = tt
entries ((k, w) ∷ d) h = (rw ((eq_iff k k).1 refl) refl, later_entries k w d d h.0 (entries d h.1))

module _ (decimal : ℕ → String) (a : BehaviorAnalyzer) (device_id : String) (timestamp : ℕ) where
  -- The result of a check is right for these detections: a crowd is reported of a class that has as
  -- many objects as it says and not fewer than the threshold, and none is reported only if every class
  -- has fewer.
  unfoldable pub IsCrowdCheck : List Detection → Check → Type 0
  IsCrowdCheck ds nothing = (c : String) → occurrences c ds < a.crowd_threshold
  IsCrowdCheck ds (reports e) =
      (c : String) × (e.metadata ≡ class_count c (occurrences c ds))
      × (a.crowd_threshold ≤ occurrences c ds)
      × (e.behavior_type ≡ crowd)
      × (e.device_id ≡ device_id)
      × (e.timestamp ≡ timestamp)
  IsCrowdCheck ds divides_by_zero = ⊥

  -- The same for the entries that are left, where none is found.
  IsFound : List Detection → Dict ℕ → Check → Type 0
  IsFound ds counts nothing = All (λ e. e.1 < a.crowd_threshold) counts
  IsFound ds counts (reports e) = IsCrowdCheck ds (reports e)
  IsFound ds counts divides_by_zero = ⊥

  crowd_event-IsFound :
      (ds : List Detection) (counts : Dict ℕ) (c : String) (n : ℕ)
      → 0 < a.crowd_threshold
      → a.crowd_threshold ≤ n
      → n ≡ occurrences c ds
      → IsFound ds counts (crowd_event decimal a device_id timestamp c n)
  unfolding crowd_event IsFound IsCrowdCheck
  crowd_event-IsFound ds counts c n some_objects h e =
      let zero_not : (a.crowd_threshold == 0) ≡ false = ground arith in
      rw zero_not (c, ap (class_count c) e, omega (arith, h, e), refl, refl, refl)

  IsFound-cons :
      (ds : List Detection) (counts : Dict ℕ) (c : String) (n : ℕ) (r : Check)
      → n < a.crowd_threshold
      → IsFound ds counts r
      → IsFound ds ((c, n) ∷ counts) r
  unfolding IsFound
  IsFound-cons ds counts c n nothing h k = (h, k)
  IsFound-cons ds counts c n (reports e) h k = k
  IsFound-cons ds counts c n divides_by_zero h k = k

  first_crowd-IsFound :
      (ds : List Detection) (counts : Dict ℕ)
      → 0 < a.crowd_threshold
      → All (λ e. e.1 ≡ occurrences e.0 ds) counts
      → IsFound ds counts (first_crowd decimal a device_id timestamp counts)
  unfolding first_crowd IsFound
  first_crowd-IsFound ds [] some_objects h = tt
  first_crowd-IsFound ds ((c, n) ∷ counts) some_objects h =
      elim (Bool-cases (leb a.crowd_threshold n)) [
        | inl e ↦
            rw e (crowd_event-IsFound ds ((c, n) ∷ counts) c n some_objects (leb→le _ _ e) h.0)
        | inr e ↦ rw e (
            IsFound-cons ds counts c n _ (ground arith)
              (first_crowd-IsFound ds counts some_objects h.1))
      ]

  counted :
      (ds : List Detection) (part : Dict ℕ)
      → All (λ e. get e.0 (count_classes ds []) ≡ some e.1) part
      → All (λ e. e.1 ≡ occurrences e.0 ds) part
  unfolding get or_zero
  counted ds [] h = tt
  counted ds ((c, n) ∷ part) h = (
    sym (ap or_zero h.0)
        ∙ (get-count_classes c ds []
            ∙ (let e : 0 + occurrences c ds ≡ occurrences c ds = omega arith in e)),
    counted ds part h.1,
  )

  below_threshold :
      (ds : List Detection) (c : String)
      → 0 < a.crowd_threshold
      → All (λ e. e.1 < a.crowd_threshold) (count_classes ds [])
      → occurrences c ds < a.crowd_threshold
  unfolding or_zero get
  below_threshold ds c some_objects h =
      let total = get-count_classes c ds [] in
      elim (Option-cases (get c (count_classes ds []))) [
        | inl none_there ↦ omega (arith, total, ap or_zero none_there)
        | inr (n, there) ↦
            let small : n < a.crowd_threshold =
              All-get (λ e. e.1 < a.crowd_threshold) c (count_classes ds []) h there in
            omega (arith, total, ap or_zero there)
      ]

  IsFound-IsCrowdCheck :
      (ds : List Detection) (r : Check)
      → 0 < a.crowd_threshold
      → IsFound ds (count_classes ds []) r
      → IsCrowdCheck ds r
  unfolding IsFound IsCrowdCheck
  IsFound-IsCrowdCheck ds nothing some_objects h = λ c. below_threshold ds c some_objects h
  IsFound-IsCrowdCheck ds (reports e) some_objects h = h
  IsFound-IsCrowdCheck ds divides_by_zero some_objects h = h

  -- With a positive threshold the check for a crowd is exact: it reports the number of objects of a
  -- class of which there are enough, and it reports nothing only if there are too few of every class.
  pub check_crowd-IsCrowdCheck :
      (ds : List Detection)
      → 0 < a.crowd_threshold
      → IsCrowdCheck ds (check_crowd decimal a device_id timestamp ds)
  unfolding check_crowd
  check_crowd-IsCrowdCheck ds some_objects = IsFound-IsCrowdCheck ds _ some_objects (
      first_crowd-IsFound ds (count_classes ds []) some_objects (
        counted ds (count_classes ds [])
          (entries (count_classes ds []) (count_classes-IsDict ds [] tt))))
