-- ===== src/Core/HotReload.antt =====
-- mac-central/src/core/hot_reload.py: `ConfigWatcher`. The hash of a file's contents is a parameter of
-- a call, "" where the file cannot be read; paths are absolute. A callback is code of a client: it is
-- known by a number, what it raises is caught, and it does not change the watcher while it is called.
pub mod OneFile
pub mod Files
pub mod Debounce
mod Tests
use neuro_pipeline.Prelude.{
  ℕ, ◌+◌, String, Bool, true, false, not, ◌&&◌, List, [], ◌∷◌, ◌++◌, Option, none, some, str_eq,
  leb, if◌then◌else◌,
}
use neuro_pipeline.Prelude.Refs.{mem, list_remove}
use neuro_pipeline.Prelude.Dict.{Dict, get, contains, put, remove, keys}

abbrev pub Callback : Type 0
Callback = ℕ

pub record ConfigChange : Type 0 where
  pub path : String
  pub old_hash : String
  pub new_hash : String

pub record ConfigWatcher : Type 0 where
  pub debounce_seconds : ℕ
  pub watched_files : Dict String
  pub callbacks : Dict (List Callback)
  pub async_callbacks : Dict (List Callback)
  pub global_callbacks : List Callback
  pub global_async_callbacks : List Callback
  pub pending_changes : Dict ℕ
  pub running : Bool

pub init : ℕ → ConfigWatcher
init debounce_seconds = record {
  debounce_seconds = debounce_seconds;
  watched_files = [];
  callbacks = [];
  async_callbacks = [];
  global_callbacks = [];
  global_async_callbacks = [];
  pending_changes = [];
  running = false;
}

-- `d.get(path, [])`
pub listed : String → Dict (List Callback) → List Callback
listed path d = elim (get path d) [ none ↦ [] | some cs ↦ cs ]

pub added : Option Callback → List Callback → List Callback
added none cs = cs
added (some c) cs = cs ++ (c ∷ [])

pub removed : Option Callback → List Callback → List Callback
removed none cs = cs
removed (some c) cs = if mem c cs then list_remove c cs else cs

pub watch :
    (String → String) → String → Option Callback → Option Callback → ConfigWatcher → ConfigWatcher
unfolding listed added
watch hash path callback async_callback s =
    let known = contains path s.watched_files in
    let sync = if known then s.callbacks else put path [] s.callbacks in
    let async = if known then s.async_callbacks else put path [] s.async_callbacks in
    record s {
      watched_files = if known then s.watched_files else put path (hash path) s.watched_files;
      callbacks = put path (added callback (listed path sync)) sync;
      async_callbacks = put path (added async_callback (listed path async)) async;
    }

is_empty : List Callback → Bool
is_empty [] = true
is_empty (c ∷ cs) = false

update_listed : String → Option Callback → Dict (List Callback) → Dict (List Callback)
unfolding removed
update_listed path c d = elim (get path d) [ none ↦ d | some cs ↦ put path (removed c cs) d ]

-- The function that `watch` returns. The pending change of the file is kept.
pub unwatch : String → Option Callback → Option Callback → ConfigWatcher → ConfigWatcher
unfolding update_listed is_empty listed
unwatch path callback async_callback s =
    let sync = update_listed path callback s.callbacks in
    let async = update_listed path async_callback s.async_callbacks in
    if is_empty (listed path sync) && is_empty (listed path async)
    then record s {
      watched_files = remove path s.watched_files;
      callbacks = remove path sync;
      async_callbacks = remove path async;
    }
    else record s { callbacks = sync; async_callbacks = async }

pub on_any_change : Option Callback → Option Callback → ConfigWatcher → ConfigWatcher
unfolding added
on_any_change callback async_callback s = record s {
  global_callbacks = added callback s.global_callbacks;
  global_async_callbacks = added async_callback s.global_async_callbacks;
}

-- The function that `on_any_change` returns: each of the callbacks is taken out of both lists.
pub unregister : Option Callback → Option Callback → ConfigWatcher → ConfigWatcher
unfolding removed
unregister callback async_callback s = record s {
  global_callbacks = removed async_callback (removed callback s.global_callbacks);
  global_async_callbacks = removed async_callback (removed callback s.global_async_callbacks);
}

-- `start` and `stop`, without the task.
pub start : ConfigWatcher → ConfigWatcher
start s = record s { running = true }

pub stop : ConfigWatcher → ConfigWatcher
stop s = record s { running = false }

-- A call of a callback.
abbrev pub Made : Type 0
Made = Callback × ConfigChange

pub call_all : List Callback → ConfigChange → List Made
call_all [] change = []
call_all (c ∷ cs) change = (c, change) ∷ call_all cs change

pub handle_change : ConfigChange → ConfigWatcher → List Made
unfolding call_all listed
handle_change change s =
    call_all (listed change.path s.callbacks) change
    ++ (call_all (listed change.path s.async_callbacks) change
        ++ (call_all s.global_callbacks change ++ call_all s.global_async_callbacks change))

-- The time at which a change was first seen: now, if it is new.
pub first_seen : ℕ → Option ℕ → ℕ
first_seen now none = now
first_seen now (some t) = t

-- The body of the loop for a file whose hash is `new_hash` and was `old_hash`.
pub check_changed : ℕ → String → String → String → ConfigWatcher → ConfigWatcher × List Made
unfolding handle_change first_seen
check_changed now path old_hash new_hash s =
    let first = first_seen now (get path s.pending_changes) in
    let change : ConfigChange = record { path = path; old_hash = old_hash; new_hash = new_hash } in
    if leb (first + s.debounce_seconds) now
    then (
      record s {
        watched_files = put path new_hash s.watched_files;
        pending_changes = remove path s.pending_changes;
      },
      handle_change change s,
    )
    else (record s { pending_changes = put path first s.pending_changes }, [])

pub check_file : ℕ → String → String → String → ConfigWatcher → ConfigWatcher × List Made
unfolding check_changed
check_file now path old_hash new_hash s =
    if str_eq new_hash old_hash then (s, []) else check_changed now path old_hash new_hash s

-- The loop of `_check_changes` over the files that were watched when it began.
pub check_files : ℕ → (String → String) → Dict String → ConfigWatcher → ConfigWatcher × List Made
unfolding check_file
check_files now hash [] s = (s, [])
check_files now hash ((path, old_hash) ∷ files) s =
    let step = check_file now path old_hash (hash path) s in
    let rest = check_files now hash files step.0 in (rest.0, step.1 ++ rest.1)

pub check_changes : ℕ → (String → String) → ConfigWatcher → ConfigWatcher × List Made
unfolding check_files
check_changes now hash s = check_files now hash s.watched_files s

-- `force_reload`: the change, if the file is watched, and the calls.
pub force_reload :
    (String → String) → String → ConfigWatcher → ConfigWatcher × Option ConfigChange × List Made
unfolding call_all listed
force_reload hash path s = elim (get path s.watched_files) [
  | none ↦ (s, none, [])
  | some old_hash ↦
      let change : ConfigChange = record {
        path = path;
        old_hash = old_hash;
        new_hash = hash path;
      } in
      (
        record s { watched_files = put path (hash path) s.watched_files },
        some change,
        call_all (listed path s.callbacks) change ++ call_all s.global_callbacks change,
      )
]
