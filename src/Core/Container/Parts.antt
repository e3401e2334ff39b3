-- ===== src/Core/Container/Parts.antt =====
-- The parts of a service in container.py, and how a builder gets them.
use neuro_pipeline.Prelude.{
  ℕ, suc, ◌<◌, ◌≡◌, refl, ◌∙◌, ap, List, [], ◌∷◌, Option, none, some, true, sym, All, arith,
}
use neuro_pipeline.Core.Container.{
  Name, parts_of, Service, ServiceContainer, Outcome, gives, raised, Gathered, gathered, stops,
  ident_of, with_part, get_parts,
}
use neuro_pipeline.Core.Container.Cache.{rank, Grows, Grows-same, Grows-trans}

-- The cached service of this name has this number.
pub record IsPart (c : ServiceContainer) (p : Name) (i : Option ℕ) : Type 0 where
  pub value : Option Service
  pub cached : c.services p ≡ some value
  pub same : ident_of value ≡ i

pub Wires : ServiceContainer → List Name → List (Option ℕ) → Type 0
Wires c [] [] = Unit
Wires c (p ∷ ps) (i ∷ is) = IsPart c p i × Wires c ps is
Wires c [] (i ∷ is) = ⊥
Wires c (p ∷ ps) [] = ⊥

-- Each service was built with the cached services that its builder names.
pub record IsWired (c : ServiceContainer) : Type 0 where
  pub wires : (k : Name) (s : Service) → c.services k ≡ some (some s) → Wires c (parts_of k) s.parts

-- What a call answers: a service, which is now cached, or the exception of a builder, and then
-- nothing is cached under the name.
pub data IsAnswered (name : Name) (c : ServiceContainer) (r : ServiceContainer × Outcome)
    : Type 0 where
  given : (v : Option Service) → r.1 ≡ gives v → r.0.services name ≡ some v → IsAnswered name c r
  failed :
      (k : Name) (n : ℕ)
      → r.1 ≡ raised k
      → c.raises k n ≡ true
      → r.0.services name ≡ none
      → IsAnswered name c r

pub record IsGot (name : Name) (c : ServiceContainer) (r : ServiceContainer × Outcome)
    : Type 0 where
  pub grows : Grows c r.0 (suc (rank name))
  pub answer : IsAnswered name c r
  pub wired : IsWired c → IsWired r.0

-- The parts that the calls gave, or the exception of a builder.
pub data IsCollected (c : ServiceContainer) (ps : List Name) (r : ServiceContainer × Gathered)
    : Type 0 where
  collected : (ids : List (Option ℕ)) → r.1 ≡ gathered ids → Wires r.0 ps ids → IsCollected c ps r
  stopped : (k : Name) (n : ℕ) → r.1 ≡ stops (raised k) → c.raises k n ≡ true → IsCollected c ps r

-- Calls for the parts of a service of rank `b`.
pub record IsGathered (b : ℕ) (c : ServiceContainer) (ps : List Name)
    (r : ServiceContainer × Gathered) : Type 0 where
  pub grows : Grows c r.0 b
  pub parts : IsCollected c ps r
  pub wired : IsWired c → IsWired r.0

pub Wires-Grows :
    (c c' : ServiceContainer) (b : ℕ) (ps : List Name) (is : List (Option ℕ))
    → Grows c c' b
    → Wires c ps is
    → Wires c' ps is
unfolding Wires
Wires-Grows c c' b [] [] g w = tt
Wires-Grows c c' b (p ∷ ps) (i ∷ is) g w = (
  record { value = w.0.value; cached = g.kept p w.0.value w.0.cached; same = w.0.same },
  Wires-Grows c c' b ps is g w.1,
)
Wires-Grows c c' b [] (i ∷ is) g w = w
Wires-Grows c c' b (p ∷ ps) [] g w = w

-- The first part, and the others after it.
module _ (b : ℕ) (p : Name) (ps : List Name) (c : ServiceContainer) (r : ServiceContainer × Outcome)
    (q : ServiceContainer × Gathered) where
  with_part-gathered :
      (v : Option Service) (ids : List (Option ℕ))
      → r.1 ≡ gives v
      → q.1 ≡ gathered ids
      → with_part r q ≡ (q.0, gathered (ident_of v ∷ ids))
  unfolding with_part
  with_part-gathered v ids h k =
      ap (λ o. with_part (r.0, o) q) h ∙ ap (λ o. with_part (r.0, gives v) (q.0, o)) k

  with_part-stops :
      (v : Option Service) (o : Outcome)
      → r.1 ≡ gives v
      → q.1 ≡ stops o
      → with_part r q ≡ (q.0, stops o)
  unfolding with_part
  with_part-stops v o h k =
      ap (λ x. with_part (r.0, x) q) h ∙ ap (λ x. with_part (r.0, gives v) (q.0, x)) k

  with_part-raised : (k : Name) → r.1 ≡ raised k → with_part r q ≡ (r.0, stops (raised k))
  unfolding with_part
  with_part-raised k h = ap (λ o. with_part (r.0, o) q) h

  after_given :
      rank p < b
      → Grows c r.0 (suc (rank p))
      → (IsWired c → IsWired r.0)
      → (v : Option Service) → r.1 ≡ gives v
      → r.0.services p ≡ some v
      → Grows r.0 q.0 b
      → (IsWired r.0 → IsWired q.0)
      → IsCollected r.0 ps q
      → IsGathered b c (p ∷ ps) (with_part r q)
  unfolding Wires
  after_given low one wired v e cached more wired' (collected ids f wires) =
      rw (with_part-gathered v ids e f) (record {
        grows = Grows-trans c r.0 q.0 (suc (rank p)) b (omega (arith, low)) one more;
        parts =
            collected (ident_of v ∷ ids) refl
              (record { value = v; cached = more.kept p v cached; same = refl }, wires);
        wired = λ w. wired' (wired w);
      })
  after_given low one wired v e cached more wired' (stopped k n f raises) =
      rw (with_part-stops v (raised k) e f) (record {
        grows = Grows-trans c r.0 q.0 (suc (rank p)) b (omega (arith, low)) one more;
        parts = stopped k n refl (ap (λ h. h k n) (sym one.raises) ∙ raises);
        wired = λ w. wired' (wired w);
      })

  with_part-IsGathered :
      rank p < b
      → Grows c r.0 (suc (rank p))
      → (IsWired c → IsWired r.0)
      → IsAnswered p c r
      → IsGathered b r.0 ps q
      → IsGathered b c (p ∷ ps) (with_part r q)
  with_part-IsGathered low one wired (given v e cached) rest =
      after_given low one wired v e cached rest.grows rest.wired rest.parts
  with_part-IsGathered low one wired (failed k n e raises free) rest =
      rw (with_part-raised k e) (record {
        grows = Grows-trans c r.0 r.0 (suc (rank p)) b (omega (arith, low)) one (Grows-same r.0 b);
        parts = stopped k n refl raises;
        wired = wired;
      })

module _ (get_part : Name → ServiceContainer → ServiceContainer × Outcome) where
  pub gather :
      (b : ℕ) (ps : List Name) (c : ServiceContainer)
      → ((p : Name) (c' : ServiceContainer) → rank p < b → IsGot p c' (get_part p c'))
      → All (λ p. rank p < b) ps
      → IsGathered b c ps (get_parts get_part ps c)
  unfolding get_parts Wires
  gather b [] c got low = record {
    grows = Grows-same c b;
    parts = collected [] refl tt;
    wired = λ w. w;
  }
  gather b (p ∷ ps) c got low =
      let first = got p c low.0 in
      let c' = (get_part p c).0 in
      with_part-IsGathered b p ps c (get_part p c) (get_parts get_part ps c') low.0 first.grows
        first.wired first.answer (gather b ps c' got low.1)
