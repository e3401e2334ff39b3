-- ===== src/Core/HotReload/Files.antt =====
-- Each file that hot_reload.py watches goes its own way.
use neuro_pipeline.Prelude.{
  ℕ, ◌≡◌, refl, ◌∙◌, String, false, [], ◌∷◌, some, str_eq, eq_iff, Bool-cases, inl, inr, arith,
}
use mathlib.Core.Path.{subst}
use mathlib.Core.Option.{some-injective}
use neuro_pipeline.Prelude.Dict.{Dict, IsDict, get, contains}
use neuro_pipeline.Core.HotReload.{ConfigWatcher, check_file, check_files, check_changes}
use neuro_pipeline.Core.HotReload.Debounce.{poll}
use neuro_pipeline.Core.HotReload.OneFile.{
  Tracks, file_of, Apart, next, check_file-next, next-Apart, next-Tracks, next-IsDict,
}

files-Apart :
    (now : ℕ) (hash : String → String) (q : String) (files : Dict String) (s : ConfigWatcher)
    → contains q files ≡ false
    → IsDict s.pending_changes
    → Apart q s (check_files now hash files s).0
unfolding check_files contains
files-Apart now hash q [] s absent d = record {
  debounce = refl;
  watched = refl;
  waiting = refl;
  is_dict = d;
}
files-Apart now hash q ((path, old) ∷ files) s absent d =
    let other : str_eq path q ≡ false = ground arith in
    let later : contains q files ≡ false = ground arith in
    let s' = (check_file now path old (hash path) s).0 in
    let step : Apart q s s' =
      rw (check_file-next now path old (hash path) s)
        (next-Apart now path old (hash path) q s other d) in
    let rest = files-Apart now hash q files s' later step.is_dict in
    record {
      debounce = rest.debounce ∙ step.debounce;
      watched = rest.watched ∙ step.watched;
      waiting = rest.waiting ∙ step.waiting;
      is_dict = rest.is_dict;
    }

head-Tracks :
    (now : ℕ) (hash : String → String) (path old : String) (files : Dict String) (s : ConfigWatcher)
    → contains path files ≡ false
    → get path s.watched_files ≡ some old
    → IsDict s.pending_changes
    → Tracks path
        (poll s.debounce_seconds now (hash path) (file_of path old s)).0
        (check_files now hash files (check_file now path old (hash path) s).0).0
head-Tracks now hash path old files s absent w d =
    let same = check_file-next now path old (hash path) s in
    let s' = next now path old (hash path) s in
    let t = next-Tracks now path old (hash path) s w d in
    let rest =
      files-Apart now hash path files s' absent (next-IsDict now path old (hash path) s d) in
    rw same (record { known = rest.watched ∙ t.known; pending = rest.waiting ∙ t.pending })

files-Tracks :
    (now : ℕ) (hash : String → String) (path old : String) (files : Dict String) (s : ConfigWatcher)
    → IsDict files
    → get path files ≡ some old
    → get path s.watched_files ≡ some old
    → IsDict s.pending_changes
    → Tracks path
        (poll s.debounce_seconds now (hash path) (file_of path old s)).0
        (check_files now hash files s).0
unfolding check_files get file_of
files-Tracks now hash path old [] s distinct h w d = absurd (ground arith)
files-Tracks now hash path old ((p, o) ∷ files) s distinct h w d =
    elim (Bool-cases (str_eq p path)) [
      | inl e ↦
          let same : p ≡ path = (eq_iff p path).0 e in
          let there = rw e at h in
          let same_hash : o ≡ old = some-injective o old there in
          let absent : contains path files ≡ false = rw same at distinct.0 in
          rw (same, same_hash) (head-Tracks now hash path old files s absent w d)
      | inr e ↦
          let s' = (check_file now p o (hash p) s).0 in
          let step : Apart path s s' =
            rw (check_file-next now p o (hash p) s) (next-Apart now p o (hash p) path s e d) in
          let found : get path files ≡ some old = rw e at h in
          let rest =
            files-Tracks now hash path old files s' distinct.1 found (step.watched ∙ w)
              step.is_dict in
          subst
            (λ b.
              Tracks path (poll b now (hash path) (file_of path old s)).0
                (check_files now hash files s').0)
            step.debounce
            (subst
              (λ w.
                Tracks path
                  (poll s'.debounce_seconds now (hash path)
                    (record { known_hash = old; pending = w })).0
                  (check_files now hash files s').0)
              step.waiting rest)
    ]

-- The files that are watched do not disturb each other: in one round of `_check_changes`, a file that
-- is watched goes on from its last handled hash and its pending time exactly as a file does that is
-- polled alone.
pub check_changes-Tracks :
    (now : ℕ) (hash : String → String) (path old : String) (s : ConfigWatcher)
    → IsDict s.watched_files
    → IsDict s.pending_changes
    → get path s.watched_files ≡ some old
    → Tracks path
        (poll s.debounce_seconds now (hash path) (file_of path old s)).0
        (check_changes now hash s).0
unfolding check_changes
check_changes-Tracks now hash path old s distinct d h =
    files-Tracks now hash path old s.watched_files s distinct h h d
