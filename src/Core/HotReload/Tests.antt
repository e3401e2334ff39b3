-- ===== src/Core/HotReload/Tests.antt =====
-- Runs of hot_reload.py.
use neuro_pipeline.Prelude.{◌≡◌, refl, String, true, [], ◌∷◌, some}
use neuro_pipeline.Prelude.Dict.{get, contains}
use neuro_pipeline.Core.HotReload.{ConfigWatcher, check_changes, force_reload, listed, call_all}
use neuro_pipeline.Core.HotReload.Debounce.{poll}
use neuro_pipeline.Core.HotReload.Files.{check_changes-Tracks}
use neuro_pipeline.Core.HotReload.OneFile.{Tracks, file_of}

abbrev watcher : ConfigWatcher
watcher = record {
  debounce_seconds = 3;
  watched_files = ("/a", "1") ∷ ("/b", "2") ∷ [];
  callbacks = ("/a", 1 ∷ []) ∷ ("/b", []) ∷ [];
  async_callbacks = ("/a", 2 ∷ []) ∷ ("/b", []) ∷ [];
  global_callbacks = 3 ∷ [];
  global_async_callbacks = [];
  pending_changes = ("/a", 4) ∷ [];
  running = true;
}

abbrev hash : String → String
hash path = "9"

check_changes-Tracks_example :
    Tracks "/a"
      (poll 3 7 "9" (record { known_hash = "1"; pending = some 4 })).0
      (check_changes 7 hash watcher).0
unfolding file_of get contains
check_changes-Tracks_example =
    check_changes-Tracks 7 hash "/a" "1" watcher (refl, (refl, tt)) (refl, tt) refl

force_reload_test :
    (force_reload hash "/a" watcher).2
    ≡ (1, record { path = "/a"; old_hash = "1"; new_hash = "9" })
      ∷ (3, record { path = "/a"; old_hash = "1"; new_hash = "9" })
      ∷ []
unfolding force_reload call_all listed get
force_reload_test = refl
