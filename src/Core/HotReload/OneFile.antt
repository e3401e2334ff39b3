-- ===== src/Core/HotReload/OneFile.antt =====
-- A step of hot_reload.py for one file.
use neuro_pipeline.Prelude.{
  ℕ, ◌≡◌, refl, String, Bool, true, false, List, none, some, str_eq, eq_iff, leb, ◌+◌,
  if◌then◌else◌,
}
use neuro_pipeline.Prelude.Dict.{
  IsDict, get, put, remove, get-put, get-remove, put-IsDict, remove-IsDict,
}
use neuro_pipeline.Core.HotReload.{ConfigWatcher, Made, first_seen, check_changed, check_file}
use neuro_pipeline.Core.HotReload.Debounce.{FileState, poll}

-- The part of a watcher that belongs to one file.
pub record Tracks (path : String) (f : FileState) (s : ConfigWatcher) : Type 0 where
  pub known : get path s.watched_files ≡ some f.known_hash
  pub pending : get path s.pending_changes ≡ f.pending

-- The file with the hash that is known, as the watcher has it.
unfoldable pub file_of : String → String → ConfigWatcher → FileState
file_of path old s = record { known_hash = old; pending = get path s.pending_changes }

-- What a step of one file leaves alone: the settings, and another file.
pub record Apart (q : String) (s s' : ConfigWatcher) : Type 0 where
  pub debounce : s'.debounce_seconds ≡ s.debounce_seconds
  pub watched : get q s'.watched_files ≡ get q s.watched_files
  pub waiting : get q s'.pending_changes ≡ get q s.pending_changes
  pub is_dict : IsDict s'.pending_changes

pub choose :
    (P : ConfigWatcher → Type 0) (b c : Bool) (x y z : ConfigWatcher)
    → P x
    → P y
    → P z
    → P (if b then x else if c then y else z)
choose P true c x y z h k l = h
choose P false true x y z h k l = k
choose P false false x y z h k l = l

first_of :
    (b c : Bool) (x y z : ConfigWatcher × List Made)
    → (if b then x else if c then y else z).0 ≡ (if b then x.0 else if c then y.0 else z.0)
first_of true c x y z = refl
first_of false true x y z = refl
first_of false false x y z = refl

module _ (now : ℕ) (path old new : String) where
  pub handled : ConfigWatcher → ConfigWatcher
  handled s = record s {
    watched_files = put path new s.watched_files;
    pending_changes = remove path s.pending_changes;
  }

  pub marked : ConfigWatcher → ConfigWatcher
  marked s = record s {
    pending_changes = put path (first_seen now (get path s.pending_changes)) s.pending_changes;
  }

  pub next : ConfigWatcher → ConfigWatcher
  unfolding handled marked
  next s =
      if str_eq new old
      then s
      else if leb (first_seen now (get path s.pending_changes) + s.debounce_seconds) now
      then handled s
      else marked s

  pub check_file-next : (s : ConfigWatcher) → (check_file now path old new s).0 ≡ next s
  unfolding check_file check_changed next handled marked
  check_file-next s =
      first_of (str_eq new old)
        (leb (first_seen now (get path s.pending_changes) + s.debounce_seconds) now) _ _ _

  pub next-Apart :
      (q : String) (s : ConfigWatcher)
      → str_eq path q ≡ false
      → IsDict s.pending_changes
      → Apart q s (next s)
  unfolding next handled marked
  next-Apart q s other d =
      let first = first_seen now (get path s.pending_changes) in
      choose (λ s'. Apart q s s') (str_eq new old) (leb (first + s.debounce_seconds) now) s
        (handled s) (marked s)
        (record { debounce = refl; watched = refl; waiting = refl; is_dict = d })
        (record {
          debounce = refl;
          watched = rw (get-put path q new s.watched_files, other) refl;
          waiting = rw (get-remove path q s.pending_changes d, other) refl;
          is_dict = remove-IsDict path s.pending_changes d;
        })
        (record {
          debounce = refl;
          watched = refl;
          waiting = rw (get-put path q first s.pending_changes, other) refl;
          is_dict = put-IsDict path first s.pending_changes d;
        })

  -- The three outcomes of a poll, of the file and of the watcher.
  together :
      (b c : Bool) (f g h : FileState × Bool) (x y z : ConfigWatcher)
      → Tracks path f.0 x
      → Tracks path g.0 y
      → Tracks path h.0 z
      → Tracks path (if b then f else if c then g else h).0 (if b then x else if c then y else z)
  together true c f g h x y z p q r = p
  together false true f g h x y z p q r = q
  together false false f g h x y z p q r = r

  pub next-Tracks :
      (s : ConfigWatcher)
      → get path s.watched_files ≡ some old
      → IsDict s.pending_changes
      → Tracks path (poll s.debounce_seconds now new (file_of path old s)).0 (next s)
  unfolding next handled marked poll file_of
  next-Tracks s h d =
      let first = first_seen now (get path s.pending_changes) in
      let self = (eq_iff path path).1 refl in
      together (str_eq new old) (leb (first + s.debounce_seconds) now) (file_of path old s, false)
        (record { known_hash = new; pending = none }, true)
        (record { known_hash = old; pending = some first }, false) s (handled s) (marked s)
        (record { known = h; pending = refl })
        (record {
          known = rw (get-put path path new s.watched_files, self) refl;
          pending = rw (get-remove path path s.pending_changes d, self) refl;
        })
        (record { known = h; pending = rw (get-put path path first s.pending_changes, self) refl })

pub next-IsDict :
    (now : ℕ) (path old new : String) (s : ConfigWatcher)
    → IsDict s.pending_changes
    → IsDict (next now path old new s).pending_changes
unfolding next handled marked
next-IsDict now path old new s d =
    let first = first_seen now (get path s.pending_changes) in
    choose (λ s'. IsDict s'.pending_changes) (str_eq new old) (leb (first + s.debounce_seconds) now)
      s (handled now path old new s) (marked now path old new s) d
      (remove-IsDict path s.pending_changes d) (put-IsDict path first s.pending_changes d)
