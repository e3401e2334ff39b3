-- ===== src/Core/Container/Wiring.antt =====
-- What `get` of container.py gives, and which objects the services share.
use neuro_pipeline.Prelude.{
  ℕ, String, zero, suc, ◌<◌, ◌≡◌, refl, sym, ◌∙◌, ap, Bool, List, [], ◌∷◌, Option, none, some,
  arith, Bool-cases, inl, inr,
}
use neuro_pipeline.Core.Container.{
  Name, parts_of, section_of, is_enabled, Service, ServiceContainer, Outcome, gives, raised,
  Gathered, pass, init, get_parts, build, get_or_build, get,
}
use neuro_pipeline.Core.Container.Parts.{
  IsWired, IsAnswered, given, failed, IsGot, IsCollected, collected, stopped, gather,
}
use neuro_pipeline.Core.Container.Cache.{
  rank, rank-bound, parts_of-rank, Grows-same, Grows-trans, none-not-some,
}
use neuro_pipeline.Core.Container.Built.{
  pass-Grows, pass-IsWired, raised-IsGot, construct-IsGot, none-IsGot,
}

-- `pass` changes nothing of what raises.
from_pass :
    (c : ServiceContainer) (ps : List Name) (r : ServiceContainer × Gathered)
    → IsCollected (pass c) ps r
    → IsCollected c ps r
unfolding pass
from_pass c ps r (collected ids e wires) = collected ids e wires
from_pass c ps r (stopped k n e raises) = stopped k n e raises

module _ (get_part : Name → ServiceContainer → ServiceContainer × Outcome) (name : Name) where
  build-IsGot :
      (c : ServiceContainer)
      → ((p : Name) (c' : ServiceContainer) → rank p < rank name → IsGot p c' (get_part p c'))
      → c.services name ≡ none
      → IsGot name c (build get_part name c)
  unfolding build
  build-IsGot c got free =
      let found = gather get_part (rank name) (parts_of name) (pass c) got (parts_of-rank name) in
      let c' = (get_parts get_part (parts_of name) (pass c)).0 in
      let o = (get_parts get_part (parts_of name) (pass c)).1 in
      elim (Bool-cases (is_enabled (section_of name) c)) [
        | inl e ↦ elim (Bool-cases (c.raises name c.points)) [
          | inl h ↦
              rw (e, h)
                (raised-IsGot name name c.points c (pass c) free h (pass-Grows c (rank name))
                  (pass-IsWired c))
          | inr h ↦
              rw (e, h)
                (construct-IsGot name c c' o free
                  (Grows-trans c (pass c) c' (rank name) (rank name) (omega arith)
                    (pass-Grows c (rank name)) found.grows)
                  (λ w. found.wired (pass-IsWired c w)) (from_pass c _ _ found.parts))
        ]
        | inr e ↦ rw e (none-IsGot name c free)
      ]

  get_or_build-IsGot :
      (c : ServiceContainer) (o : Option (Option Service))
      → ((p : Name) (c' : ServiceContainer) → rank p < rank name → IsGot p c' (get_part p c'))
      → c.services name ≡ o
      → IsGot name c (get_or_build get_part name c o)
  unfolding get_or_build
  get_or_build-IsGot c none got h = build-IsGot c got h
  get_or_build-IsGot c (some v) got h = record {
    grows = Grows-same c (suc (rank name));
    answer = given v refl h;
    wired = λ w. w;
  }

get_enough :
    (n : ℕ) (name : Name) (c : ServiceContainer) → rank name < n → IsGot name c (get n name c)
unfolding get
get_enough zero name c l = absurd (omega (arith, l))
get_enough (suc n) name c l =
    get_or_build-IsGot (get n) name c (c.services name)
      (λ p c' m. get_enough n p c' (omega (arith, l, m))) refl

-- `get` always ends, since the calls of the builders are no more than four deep, in one of two ways: it
-- gives a service or `None`, which is then in the cache, or it raises since a builder raises, and then
-- nothing is in the cache under the name. In both cases what was in the cache stays as it was, and if
-- each service was built with the cached objects that its builder names, so it is afterwards.
pub get-IsGot : (name : Name) (c : ServiceContainer) → IsGot name c (get 4 name c)
get-IsGot name c = get_enough 4 name c (rank-bound name)

-- Any further calls.
unfoldable pub get_all : List Name → ServiceContainer → ServiceContainer
get_all [] c = c
get_all (k ∷ ks) c = get_all ks (get 4 k c).0

gives-injective : {v w : Option Service} → gives v ≡ gives w → v ≡ w
gives-injective e = ground arith

raised-not-gives : (k : Name) (v : Option Service) → raised k ≡ gives v → ⊥
raised-not-gives k v e = ground arith

get_all-kept :
    (ks : List Name) (c : ServiceContainer) (k : Name) (v : Option Service)
    → c.services k ≡ some v
    → (get_all ks c).services k ≡ some v
unfolding get_all
get_all-kept [] c k v h = h
get_all-kept (j ∷ ks) c k v h = get_all-kept ks (get 4 j c).0 k v ((get-IsGot j c).grows.kept k v h)

get-cached :
    (n : ℕ) (name : Name) (c : ServiceContainer) (v : Option Service)
    → c.services name ≡ some v
    → get (suc n) name c ≡ (c, gives v)
unfolding get get_or_build
get-cached n name c v h = ap (get_or_build (get n) name c) h

given_cached :
    (name : Name) (c : ServiceContainer) (r : ServiceContainer × Outcome) (v : Option Service)
    → r.1 ≡ gives v
    → IsAnswered name c r
    → r.0.services name ≡ some v
given_cached name c r v h (given w e cached) = cached ∙ ap some (gives-injective (sym e ∙ h))
given_cached name c r v h (failed k n e raises free) = absurd (raised-not-gives k v (sym e ∙ h))

-- A service is built once: if `get` gave an object, or `None`, then after any further calls it gives
-- the very same object, or `None` again, and builds nothing, whatever builders raise.
pub get-get_all :
    (name : Name) (ks : List Name) (c : ServiceContainer) (v : Option Service)
    → let first = get 4 name c in
      let later = get_all ks first.0 in first.1 ≡ gives v → get 4 name later ≡ (later, gives v)
get-get_all name ks c v h =
    let first = get 4 name c in
    get-cached 3 name (get_all ks first.0) v
      (get_all-kept ks first.0 name v (given_cached name c first v h (get-IsGot name c).answer))

init-IsWired : (enabled : String → Bool) (raises : Name → ℕ → Bool) → IsWired (init enabled raises)
unfolding init
init-IsWired enabled raises = record { wires = λ k s e. absurd (none-not-some (some s) e) }

get_all-IsWired : (ks : List Name) (c : ServiceContainer) → IsWired c → IsWired (get_all ks c)
unfolding get_all
get_all-IsWired [] c w = w
get_all-IsWired (k ∷ ks) c w = get_all-IsWired ks (get 4 k c).0 ((get-IsGot k c).wired w)

-- In a container that starts empty, whatever the configuration enables, whatever builders raise and in
-- whatever order the services are asked for, each service holds the objects that `get` gives under the names of its parts,
-- so that services which name the same part share it.
pub init-get_all-IsWired :
    (ks : List Name) (enabled : String → Bool) (raises : Name → ℕ → Bool)
    → IsWired (get_all ks (init enabled raises))
init-get_all-IsWired ks enabled raises =
    get_all-IsWired ks (init enabled raises) (init-IsWired enabled raises)
