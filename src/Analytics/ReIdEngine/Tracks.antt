-- ===== src/Analytics/ReIdEngine/Tracks.antt =====
-- The tracks of reid_engine.py and the features that name them.
use neuro_pipeline.Prelude.{
  ℕ, suc, ◌≤◌, ◌≡◌, refl, sym, ◌∙◌, ap, String, Bool, true, ◌&&◌, not, str_eq, eq_iff, ltb, ◌+◌,
  List, [], ◌∷◌, ◌++◌, append-nil, Option, none, some, All, All-append, All-filter, arith,
  Bool-cases, inl, inr,
}
use mathlib.Core.Path.{subst}
use neuro_pipeline.Prelude.Dict.{Dict, get, put, get-put}
use neuro_pipeline.Prelude.Float.{Float}
use neuro_pipeline.Analytics.ReIdEngine.{
  Feature, Sighting, ReIdTrack, ReIdEngine, Seen, init, is_compared, add_sighting, prune_old,
  store_feature, store_matched, join, time_of, register_feature, sighting,
}
use neuro_pipeline.Analytics.ReIdEngine.Best.{HoldsOption, best_match-Holds}

right_true : (a b : Bool) → (a && b) ≡ true → b ≡ true
right_true a b h = ground arith

none-not-some : {A : Type 0} (x : A) → none ≡ some x → ⊥
none-not-some x e = ground arith

some-injective : {A : Type 0} {x y : A} → some x ≡ some y → x ≡ y
some-injective e = ground arith

module _ {W : Type 0} where
  -- A track of this class under this name.
  pub record HasTrack (tracks : Dict (ReIdTrack W)) (id class_name : String) : Type 0 where
    pub track : ReIdTrack W
    pub found : get id tracks ≡ some track
    pub same_class : track.class_name ≡ class_name

  abbrev pub IsTracked : Dict (ReIdTrack W) → Feature W → Type 0
  IsTracked tracks e = HasTrack tracks e.track_id e.class_name

  -- Writing a track over one of the same class, or over none.
  put-HasTrack :
      (tracks : Dict (ReIdTrack W)) (id k class_name : String) (t : ReIdTrack W)
      → ((old : ReIdTrack W) → get id tracks ≡ some old → t.class_name ≡ old.class_name)
      → HasTrack tracks k class_name
      → HasTrack (put id t tracks) k class_name
  put-HasTrack tracks id k class_name t same h = elim (Bool-cases (str_eq id k)) [
    | inl e ↦ record {
      track = t;
      found = rw (get-put id k t tracks, e) refl;
      same_class =
          same h.track (ap (λ i. get i tracks) ((eq_iff id k).0 e) ∙ h.found) ∙ h.same_class;
    }
    | inr e ↦ record {
      track = h.track;
      found = rw (get-put id k t tracks, e) h.found;
      same_class = h.same_class;
    }
  ]

  written-HasTrack :
      (tracks : Dict (ReIdTrack W)) (id : String) (t : ReIdTrack W)
      → HasTrack (put id t tracks) id t.class_name
  written-HasTrack tracks id t = record {
    track = t;
    found = rw (get-put id id t tracks, (eq_iff id id).1 refl) refl;
    same_class = refl;
  }

  All-IsTracked :
      (tracks tracks' : Dict (ReIdTrack W)) (es : List (Feature W))
      → ((k class_name : String) → HasTrack tracks k class_name → HasTrack tracks' k class_name)
      → All (IsTracked tracks) es
      → All (IsTracked tracks') es
  All-IsTracked tracks tracks' [] keep h = tt
  All-IsTracked tracks tracks' (e ∷ es) keep h =
      (keep e.track_id e.class_name h.0, All-IsTracked tracks tracks' es keep h.1)

  -- A track of the same class, with more sightings after the old ones.
  pub record IsContinued (tracks : Dict (ReIdTrack W)) (id : String) (old : ReIdTrack W)
      : Type 0 where
    pub track : ReIdTrack W
    pub more : List (Sighting W)
    pub found : get id tracks ≡ some track
    pub same_class : track.class_name ≡ old.class_name
    pub sightings : track.sightings ≡ old.sightings ++ more

  longer-IsContinued :
      (tracks : Dict (ReIdTrack W)) (id : String) (old u : ReIdTrack W) (more : List (Sighting W))
      → get id tracks ≡ some old
      → get id tracks ≡ some u
      → IsContinued (put id (record old { sightings = old.sightings ++ more }) tracks) id u
  longer-IsContinued tracks id old u more found h =
      let same = some-injective (sym found ∙ h) in
      let t : ReIdTrack W = record old { sightings = old.sightings ++ more } in
      record {
        track = t;
        more = more;
        found = rw (get-put id id t tracks, (eq_iff id id).1 refl) refl;
        same_class = ap (λ x. x.class_name) same;
        sightings = ap (λ x. x.sightings ++ more) same;
      }

  -- Writing a track that continues the one under its name, or a new one.
  put-IsContinued :
      (tracks : Dict (ReIdTrack W)) (id k : String) (t u : ReIdTrack W)
      → (get id tracks ≡ some u → IsContinued (put id t tracks) id u)
      → get k tracks ≡ some u
      → IsContinued (put id t tracks) k u
  put-IsContinued tracks id k t u here h = elim (Bool-cases (str_eq id k)) [
    | inl e ↦
        let same = (eq_iff id k).0 e in
        subst (λ i. IsContinued (put id t tracks) i u) same (here (ap (λ i. get i tracks) same ∙ h))
    | inr e ↦ record {
      track = u;
      more = [];
      found = rw (get-put id k t tracks, e) h;
      same_class = refl;
      sightings = sym (append-nil u.sightings);
    }
  ]

module _ (track_name : ℕ → String) {W : Type 0} where
  -- The names from this number on are free.
  pub record IsFresh (tracks : Dict (ReIdTrack W)) (next : ℕ) : Type 0 where
    pub free : (n : ℕ) → next ≤ n → get (track_name n) tracks ≡ none

  pub record IsLinked (r : ReIdEngine W) : Type 0 where
    pub tracked : All (IsTracked r.tracks) r.feature_store
    pub fresh : IsFresh r.tracks r.next_track_id

  pub init-IsLinked : (threshold : W) (window : ℕ) → IsLinked (init threshold window)
  unfolding init
  init-IsLinked threshold window = record {
    tracked = tt;
    fresh = record { free = λ n h. unfold get in refl };
  }

  -- A call that did not raise, in a linked engine, with a track of the class that was seen. Each track
  -- from before is still there.
  pub record IsRegistered (q : Seen W) (r : ReIdEngine W) (answer : Option (ReIdEngine W × String))
      : Type 0 where
    pub result : ReIdEngine W × String
    pub returned : answer ≡ some result
    pub linked : IsLinked result.0
    pub tracked : HasTrack result.0.tracks result.1 q.class_name
    pub kept :
        (id : String) (t : ReIdTrack W)
        → get id r.tracks ≡ some t
        → IsContinued result.0.tracks id t

module _ {W : Type 0} ⦃f : Float W⦄ (track_name : ℕ → String) where
  store_feature-IsRegistered :
      (q : Seen W) (ts : ℕ) (id : String) (tracks : Dict (ReIdTrack W)) (next : ℕ)
      (r : ReIdEngine W)
      → All (IsTracked tracks) r.feature_store
      → HasTrack tracks id q.class_name
      → IsFresh track_name tracks next
      → ((k : String) (t : ReIdTrack W) → get k r.tracks ≡ some t → IsContinued tracks k t)
      → IsRegistered track_name q r
          (some (store_feature q ts id tracks (record r { next_track_id = next })))
  unfolding store_feature prune_old
  store_feature-IsRegistered q ts id tracks next r old this fresh kept = record {
    result = store_feature q ts id tracks (record r { next_track_id = next });
    returned = refl;
    linked = record {
      tracked =
          All-filter (IsTracked tracks) _ _
            (All-append (IsTracked tracks) r.feature_store (_ ∷ []) old (this, tt));
      fresh = fresh;
    };
    tracked = this;
    kept = kept;
  }

  compared-class :
      (window ts : ℕ) (q : Seen W) (e : Feature W)
      → is_compared window ts q e ≡ true
      → e.class_name ≡ q.class_name
  unfolding is_compared
  compared-class window ts q e h = (eq_iff e.class_name q.class_name).0 (
      right_true (not (str_eq e.device_id q.device_id) && not (ltb (e.timestamp + window) ts))
        (str_eq e.class_name q.class_name) h)

  IsTrackOf : ReIdEngine W → Seen W → Feature W → Type 0
  IsTrackOf r q e = HasTrack r.tracks e.track_id q.class_name

  matchable :
      (window ts : ℕ) (q : Seen W) (r : ReIdEngine W) (es : List (Feature W))
      → All (IsTracked r.tracks) es
      → All (λ e. is_compared window ts q e ≡ true → IsTrackOf r q e) es
  unfolding IsTrackOf
  matchable window ts q r [] h = tt
  matchable window ts q r (e ∷ es) h = (
    λ c. record {
      track = h.0.track;
      found = h.0.found;
      same_class = h.0.same_class ∙ compared-class window ts q e c;
    },
    matchable window ts q r es h.1,
  )

  -- A write to a name that is taken leaves the free names free.
  put-IsFresh :
      (id : String) (t old : ReIdTrack W) (tracks : Dict (ReIdTrack W)) (next : ℕ)
      → get id tracks ≡ some old
      → IsFresh track_name tracks next
      → IsFresh track_name (put id t tracks) next
  put-IsFresh id t old tracks next found h = record {
    free = λ n l. elim (Bool-cases (str_eq id (track_name n))) [
      | inl e ↦ absurd (
          none-not-some old
            (sym (h.free n l) ∙ sym (ap (λ i. get i tracks) ((eq_iff _ _).0 e)) ∙ found))
      | inr e ↦ rw (get-put id (track_name n) t tracks, e) (h.free n l)
    ];
  }

  new-IsFresh :
      (t : ReIdTrack W) (tracks : Dict (ReIdTrack W)) (next : ℕ)
      → ((i j : ℕ) → track_name i ≡ track_name j → i ≡ j)
      → IsFresh track_name tracks next
      → IsFresh track_name (put (track_name next) t tracks) (suc next)
  new-IsFresh t tracks next injective h = record {
    free = λ n l. elim (Bool-cases (str_eq (track_name next) (track_name n))) [
      | inl e ↦ let same = injective next n ((eq_iff _ _).0 e) in absurd (omega (arith, same))
      | inr e ↦ rw (get-put (track_name next) (track_name n) t tracks, e) (h.free n (omega arith))
    ];
  }

  join-IsRegistered :
      (q : Seen W) (ts : ℕ) (best : Option (Feature W)) (sim : W) (r : ReIdEngine W)
      → ((i j : ℕ) → track_name i ≡ track_name j → i ≡ j)
      → IsLinked track_name r
      → HoldsOption (IsTrackOf r q) best
      → IsRegistered track_name q r (join track_name q ts (best, sim) r)
  unfolding join store_matched add_sighting IsTrackOf HoldsOption
  join-IsRegistered q ts none sim r injective l h =
      let id = track_name r.next_track_id in
      let t : ReIdTrack W = record {
        track_id = id;
        class_name = q.class_name;
        sightings = sighting q ts (f.of_nat 1) ∷ [];
      } in
      let free = l.fresh.free r.next_track_id (omega arith) in
      let keep = λ (k : String) (c : String).
        put-HasTrack r.tracks id k c t
          (λ old found. absurd (none-not-some old (sym free ∙ found))) in
      store_feature-IsRegistered q ts id (put id t r.tracks) (suc r.next_track_id) r
        (All-IsTracked r.tracks (put id t r.tracks) r.feature_store keep l.tracked)
        (written-HasTrack r.tracks id t) (new-IsFresh t r.tracks r.next_track_id injective l.fresh)
        (λ k u.
          put-IsContinued r.tracks id k t u (λ found. absurd (none-not-some u (sym free ∙ found))))
  join-IsRegistered q ts (some e) sim r injective l h =
      let id = e.track_id in
      let t : ReIdTrack W = record h.track {
        sightings = h.track.sightings ++ (sighting q ts sim ∷ []);
      } in
      let keep = λ (k : String) (c : String).
        put-HasTrack r.tracks id k c t
          (λ old found. ap (λ x. x.class_name) (some-injective (sym h.found ∙ found))) in
      rw h.found (
        store_feature-IsRegistered q ts id (put id t r.tracks) r.next_track_id r
          (All-IsTracked r.tracks (put id t r.tracks) r.feature_store keep l.tracked)
          (keep id q.class_name h)
          (put-IsFresh id t h.track r.tracks r.next_track_id h.found l.fresh)
          (λ k u.
            put-IsContinued r.tracks id k t u
              (longer-IsContinued r.tracks id h.track u (sighting q ts sim ∷ []) h.found)))

  -- `register_feature` does not raise, its answer is a track of the class that was seen, and each stored
  -- feature names a track of its own class. No track and no sighting is lost: each track from before is
  -- there under its name, with its class and its sightings in order, and at most more after them. This
  -- holds in an engine whose features are linked to its tracks, as in a new one, and for any format of
  -- the track numbers that gives different numbers different names.
  pub register_feature-IsRegistered :
      (now : ℕ) (q : Seen W) (r : ReIdEngine W)
      → ((i j : ℕ) → track_name i ≡ track_name j → i ≡ j)
      → IsLinked track_name r
      → IsRegistered track_name q r (register_feature track_name now q r)
  unfolding register_feature HoldsOption
  register_feature-IsRegistered now q r injective l =
      let ts = time_of now q.timestamp in
      join-IsRegistered q ts _ _ r injective l (
        best_match-Holds r.threshold r.time_window ts q (IsTrackOf r q) r.feature_store none _
          (matchable r.time_window ts q r r.feature_store l.tracked) tt)
