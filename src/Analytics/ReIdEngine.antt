-- ===== src/Analytics/ReIdEngine.antt =====
-- mac-central/src/analytics/reid_engine.py: `ReIDEngine`. Features are floating point numbers of any
-- kind `W`; times are numbers of ticks. `track_name` is the format of a track's number.
pub mod Tracks
pub mod Best
mod Tests
use neuro_pipeline.Prelude.{
  ℕ, suc, ◌+◌, ◌*◌, String, Bool, true, false, not, ◌&&◌, ◌||◌, List, [], ◌∷◌, ◌++◌, map, Option,
  none, some, str_eq, ◌==◌, leb, ltb, length, take, filter, if◌then◌else◌,
}
use neuro_pipeline.Prelude.Dict.{Dict, get, put, values}
use neuro_pipeline.Prelude.Sort.{sorted}
use neuro_pipeline.Prelude.Float.{Float, sum}

-- An entry of `_feature_store`, with its track.
pub record Feature (W : Type 0) : Type 0 where
  pub device_id : String
  pub class_name : String
  pub feature_vector : List W
  pub timestamp : ℕ
  pub track_id : String

pub record Sighting (W : Type 0) : Type 0 where
  pub device_id : String
  pub timestamp : ℕ
  pub similarity : W

pub record ReIdTrack (W : Type 0) : Type 0 where
  pub track_id : String
  pub class_name : String
  pub sightings : List (Sighting W)

pub record ReIdMatch (W : Type 0) : Type 0 where
  pub source_device_id : String
  pub target_device_id : String
  pub similarity : W
  pub source_timestamp : ℕ
  pub target_timestamp : ℕ
  pub class_name : String

pub record ReIdEngine (W : Type 0) : Type 0 where
  pub threshold : W
  pub time_window : ℕ
  pub feature_store : List (Feature W)
  pub tracks : Dict (ReIdTrack W)
  pub next_track_id : ℕ

-- The arguments of `register_feature`.
pub record Seen (W : Type 0) : Type 0 where
  pub device_id : String
  pub class_name : String
  pub feature_vector : List W
  pub timestamp : ℕ

pub init : {W : Type 0} → W → ℕ → ReIdEngine W
init similarity_threshold time_window_seconds = record {
  threshold = similarity_threshold;
  time_window = time_window_seconds;
  feature_store = [];
  tracks = [];
  next_track_id = 1;
}

-- `timestamp or time.time()`
time_of : ℕ → ℕ → ℕ
time_of now timestamp = if timestamp == 0 then now else timestamp

module _ {W : Type 0} ⦃f : Float W⦄ where
  -- `x * y for x, y in zip(a, b)`
  products : List W → List W → List W
  products [] b = []
  products (x ∷ a) [] = []
  products (x ∷ a) (y ∷ b) = f.mul x y ∷ products a b

  pub norm : List W → W
  unfolding products
  norm a = f.sqrt (sum (products a a))

  pub cosine_similarity : List W → List W → W
  unfolding products norm
  cosine_similarity a b =
      if not (length a == length b) || length a == 0
      then f.of_nat 0
      else if f.is_eq (norm a) (f.of_nat 0) || f.is_eq (norm b) (f.of_nat 0)
      then f.of_nat 0
      else f.div (sum (products a b)) (f.mul (norm a) (norm b))

  -- Whether the loop compares an entry: not the same device, not too old, the same class.
  pub is_compared : ℕ → ℕ → Seen W → Feature W → Bool
  is_compared window ts q e =
      not (str_eq e.device_id q.device_id)
      && not (ltb (e.timestamp + window) ts)
      && str_eq e.class_name q.class_name

  -- The loop over the features, with the best match so far.
  pub best_match :
      W → ℕ → ℕ → Seen W → List (Feature W) → Option (Feature W) → W → Option (Feature W) × W
  unfolding is_compared cosine_similarity
  best_match threshold window ts q [] best sim = (best, sim)
  best_match threshold window ts q (e ∷ es) best sim =
      let s = cosine_similarity q.feature_vector e.feature_vector in
      let better = is_compared window ts q e && (f.le threshold s && f.lt sim s) in
      best_match threshold window ts q es (if better then some e else best)
        (if better then s else sim)

  sighting : Seen W → ℕ → W → Sighting W
  sighting q ts similarity = record {
    device_id = q.device_id;
    timestamp = ts;
    similarity = similarity;
  }

  -- `append` to the sightings of a track, where the key may be missing.
  pub add_sighting :
      String → Sighting W → Option (ReIdTrack W) → Dict (ReIdTrack W) → Option (Dict (ReIdTrack W))
  add_sighting id x none tracks = none
  add_sighting id x (some t) tracks =
      some (put id (record t { sightings = t.sightings ++ (x ∷ []) }) tracks)

  -- `_prune_old`
  pub prune_old : ℕ → ℕ → List (Feature W) → List (Feature W)
  prune_old now window = filter λ e. leb now (e.timestamp + window * 2)

  -- The end of `register_feature`: the entry is stored under its track.
  pub store_feature :
      Seen W → ℕ → String → Dict (ReIdTrack W) → ReIdEngine W → ReIdEngine W × String
  unfolding prune_old
  store_feature q ts id tracks r = (
    record r {
      tracks = tracks;
      feature_store = prune_old ts r.time_window (
          r.feature_store
          ++ (record {
            device_id = q.device_id;
            class_name = q.class_name;
            feature_vector = q.feature_vector;
            timestamp = ts;
            track_id = id;
          }
              ∷ []));
    },
    id,
  )

  pub store_matched :
      Seen W
      → ℕ
      → String
      → ReIdEngine W
      → Option (Dict (ReIdTrack W))
      → Option (ReIdEngine W × String)
  unfolding store_feature
  store_matched q ts id r none = none
  store_matched q ts id r (some tracks) = some (store_feature q ts id tracks r)

  -- What follows the loop: the track of the best match, or a new one.
  pub join :
      (ℕ → String)
      → Seen W
      → ℕ
      → Option (Feature W) × W
      → ReIdEngine W
      → Option (ReIdEngine W × String)
  unfolding store_matched add_sighting sighting store_feature
  join track_name q ts (some e, sim) r =
      store_matched q ts e.track_id r
        (add_sighting e.track_id (sighting q ts sim) (get e.track_id r.tracks) r.tracks)
  join track_name q ts (none, sim) r =
      let id = track_name r.next_track_id in
      some (
        store_feature q ts id
          (put id
            (record {
              track_id = id;
              class_name = q.class_name;
              sightings = sighting q ts (f.of_nat 1) ∷ [];
            })
            r.tracks)
          (record r { next_track_id = suc r.next_track_id }))

  -- The engine and the track, or `none` where `self._tracks[track_id]` raises.
  pub register_feature : (ℕ → String) → ℕ → Seen W → ReIdEngine W → Option (ReIdEngine W × String)
  unfolding best_match join time_of
  register_feature track_name now q r =
      let ts = time_of now q.timestamp in
      join track_name q ts
        (best_match r.threshold r.time_window ts q r.feature_store none (f.of_nat 0)) r

  match_of : ℕ → String → List W → Feature W → ReIdMatch W
  unfolding cosine_similarity
  match_of now exclude_device v e = record {
    source_device_id = exclude_device;
    target_device_id = e.device_id;
    similarity = cosine_similarity v e.feature_vector;
    source_timestamp = now;
    target_timestamp = e.timestamp;
    class_name = e.class_name;
  }

  -- Whether `find_matches` compares an entry.
  pub is_candidate : ℕ → ℕ → String → String → Feature W → Bool
  is_candidate now window class_name exclude_device e =
      not (ltb (e.timestamp + window) now)
      && not (not (str_eq exclude_device "") && str_eq e.device_id exclude_device)
      && not (not (str_eq class_name "") && not (str_eq e.class_name class_name))

  -- `sort(key=lambda m: -m.similarity)`: one element need not follow another that is not more alike.
  not_less : ReIdMatch W → ReIdMatch W → Bool
  not_less m n = not (f.lt m.similarity n.similarity)

  pub find_matches : ℕ → List W → String → String → ℕ → ReIdEngine W → List (ReIdMatch W)
  unfolding match_of is_candidate not_less
  find_matches now v class_name exclude_device top_k r = take top_k (
      sorted not_less (
        filter (λ m. f.le r.threshold m.similarity)
          (map (match_of now exclude_device v)
            (filter (is_candidate now r.time_window class_name exclude_device) r.feature_store))))

pub get_track : {W : Type 0} → String → ReIdEngine W → Option (ReIdTrack W)
get_track track_id r = get track_id r.tracks

pub list_tracks : {W : Type 0} → ℕ → ReIdEngine W → List (ReIdTrack W)
list_tracks min_sightings r = filter (λ t. leb min_sightings (length t.sightings)) (values r.tracks)
