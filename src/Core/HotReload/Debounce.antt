-- ===== src/Core/HotReload/Debounce.antt =====
-- What one file goes through while hot_reload.py polls it.
use neuro_pipeline.Prelude.{
  ℕ, ◌+◌, ◌≤◌, ◌<◌, ◌≡◌, refl, ap, String, Bool, true, false, List, [], ◌∷◌, Option, none, some,
  str_eq, eq_iff, leb, if◌then◌else◌, filter, take, Bool-cases, inl, inr, arith,
}
use neuro_pipeline.Core.HotReload.{first_seen}

-- The hash that was handled last, and since when another one is seen.
pub record FileState : Type 0 where
  pub known_hash : String
  pub pending : Option ℕ

-- The state after a poll, and whether the change is handled.
unfoldable pub poll : ℕ → ℕ → String → FileState → FileState × Bool
poll debounce now hash f =
    if str_eq hash f.known_hash
    then (f, false)
    else if leb (first_seen now f.pending + debounce) now
    then (record { known_hash = hash; pending = none }, true)
    else (record f { pending = some (first_seen now f.pending) }, false)

-- The times at which a change is handled, for polls at these times that find these hashes.
unfoldable pub handled : ℕ → List (ℕ × String) → FileState → List ℕ
handled debounce [] f = []
handled debounce ((now, hash) ∷ polls) f =
    let step = poll debounce now hash f in
    let rest = handled debounce polls step.0 in if step.1 then now ∷ rest else rest

unfoldable pub finding : String → List ℕ → List (ℕ × String)
finding hash [] = []
finding hash (t ∷ ts) = (t, hash) ∷ finding hash ts

str_eq_refl : (s : String) → str_eq s s ≡ true
str_eq_refl s = (eq_iff s s).1 refl

module _ (debounce : ℕ) (old new : String) (changed : str_eq new old ≡ false) where
  handled_new :
      (ts : List ℕ)
      → handled debounce (finding new ts) (record { known_hash = new; pending = none }) ≡ []
  unfolding handled finding poll
  handled_new [] = refl
  handled_new (t ∷ ts) = rw (str_eq_refl new) (handled_new ts)

  handled_pending :
      (t0 : ℕ) (ts : List ℕ)
      → handled debounce (finding new ts) (record { known_hash = old; pending = some t0 })
        ≡ take 1 (filter (λ t. leb (t0 + debounce) t) ts)
  unfolding handled finding poll first_seen
  handled_pending t0 [] = refl
  handled_pending t0 (t ∷ ts) = elim (Bool-cases (leb (t0 + debounce) t)) [
    | inl due ↦ rw (changed, due) (ap (◌∷◌ t) (handled_new ts))
    | inr early ↦ rw (changed, early) (handled_pending t0 ts)
  ]

  -- A file that changes, and that every poll from `t0` on finds with the new contents, is handled
  -- exactly once: at the first of these polls that comes at least the debounce time after `t0`, and
  -- not at all as long as there is none.
  pub handled-finding :
      (t0 : ℕ) (ts : List ℕ)
      → handled debounce (finding new (t0 ∷ ts)) (record { known_hash = old; pending = none })
        ≡ take 1 (filter (λ t. leb (t0 + debounce) t) (t0 ∷ ts))
  unfolding handled finding poll first_seen
  handled-finding t0 ts = elim (Bool-cases (leb (t0 + debounce) t0)) [
    | inl due ↦ rw (changed, due) (ap (◌∷◌ t0) (handled_new ts))
    | inr early ↦ rw (changed, early) (handled_pending t0 ts)
  ]

  -- A file that changes and changes back within the debounce time stays marked: its next change is
  -- handled at the very poll that finds it, without any waiting, if that comes the debounce time after
  -- the first change.
  pub handled_stale :
      (t0 t1 t2 : ℕ)
      → t0 < t0 + debounce
      → t0 + debounce ≤ t2
      → handled debounce
          ((t0, new) ∷ (t1, old) ∷ (t2, new) ∷ [])
          (record { known_hash = old; pending = none })
        ≡ t2 ∷ []
  unfolding handled poll first_seen
  handled_stale t0 t1 t2 waits late =
      let early : leb (t0 + debounce) t0 ≡ false = ground arith in
      let due : leb (t0 + debounce) t2 ≡ true = ground arith in
      rw (changed, early, str_eq_refl old, changed, due) refl
