-- ===== src/Core/Container/Built.antt =====
-- What a builder of container.py leaves behind, whether it returns or raises.
use neuro_pipeline.Prelude.{
  true, ℕ, suc, ◌≡◌, refl, sym, ◌∙◌, ap, List, Option, none, some, arith, ◌==◌, Bool-cases, inl,
  inr,
}
use neuro_pipeline.Core.Container.{
  Name, code, parts_of, Service, ServiceContainer, gives, raised, Gathered, pass, store_service,
  construct,
}
use neuro_pipeline.Core.Container.Parts.{
  Wires, IsWired, given, failed, IsGot, IsCollected, collected, stopped, Wires-Grows,
}
use neuro_pipeline.Core.Container.Cache.{
  code-injective, rank, Grows, Grows-same, Grows-trans, store_service-same, store_service-other,
  some-injective, none-not-some, store_service-Grows,
}

-- A new entry keeps the wiring, if it is wired itself.
store_service-IsWired :
    (name : Name) (v : Option Service) (c : ServiceContainer)
    → Grows c (store_service name v c) (suc (rank name))
    → ((s : Service) → v ≡ some s → Wires c (parts_of name) s.parts)
    → IsWired c
    → IsWired (store_service name v c)
store_service-IsWired name v c g new w = record {
  wires = λ k s found. elim (Bool-cases (code k == code name)) [
    | inl e ↦
        let same = code-injective k name e in
        let this : some v ≡ some (some s) =
          sym (store_service-same name v c)
          ∙ sym (ap (store_service name v c).services same)
          ∙ found in
        Wires-Grows c (store_service name v c) (suc (rank name)) (parts_of k) s.parts g
          (rw same (new s (some-injective this)))
    | inr e ↦
        Wires-Grows c (store_service name v c) (suc (rank name)) (parts_of k) s.parts g
          (w.wires k s (sym (store_service-other name k v c e) ∙ found))
  ];
}

counted : ServiceContainer → ServiceContainer
unfolding pass
counted c = record (pass c) { made = suc c.made }

counted-Grows : (c : ServiceContainer) (b : ℕ) → Grows c (counted c) b
unfolding counted pass
counted-Grows c b = record { kept = λ k v h. h; above = λ k h. refl; raises = refl }

counted-IsWired : (c : ServiceContainer) → IsWired c → IsWired (counted c)
counted-IsWired c w = record {
  wires = λ k s found.
      Wires-Grows c (counted c) 0 (parts_of k) s.parts (counted-Grows c 0)
        (unfold counted in w.wires k s found);
}

pub pass-Grows : (c : ServiceContainer) (b : ℕ) → Grows c (pass c) b
unfolding pass
pass-Grows c b = record { kept = λ k v h. h; above = λ k h. refl; raises = refl }

pub pass-IsWired : (c : ServiceContainer) → IsWired c → IsWired (pass c)
pass-IsWired c w = record {
  wires = λ k s found.
      Wires-Grows c (pass c) 0 (parts_of k) s.parts (pass-Grows c 0)
        (unfold pass in w.wires k s found);
}

-- A builder that raises, after its calls of `get`.
pub raised-IsGot :
    (name k : Name) (n : ℕ) (c c' : ServiceContainer)
    → c.services name ≡ none
    → c.raises k n ≡ true
    → Grows c c' (rank name)
    → (IsWired c → IsWired c')
    → IsGot name c (c', raised k)
raised-IsGot name k n c c' free raises g wired = record {
  grows =
      Grows-trans c c' c' (rank name) (suc (rank name)) (omega arith) g
        (Grows-same c' (suc (rank name)));
  answer = failed k n refl raises (g.above name (omega arith) ∙ free);
  wired = wired;
}

-- A builder whose constructor returns.
made-IsGot :
    (name : Name) (c c' : ServiceContainer) (ids : List (Option ℕ))
    → c.services name ≡ none
    → Grows c c' (rank name)
    → (IsWired c → IsWired c')
    → Wires c' (parts_of name) ids
    → let s : Service = record { ident = c'.made; parts = ids } in
      IsGot name c (store_service name (some s) (counted c'), gives (some s))
made-IsGot name c c' ids free grown wired wires =
    let s : Service = record { ident = c'.made; parts = ids } in
    let one = counted-Grows c' (rank name) in
    let till = Grows-trans c c' (counted c') (rank name) (rank name) (omega arith) grown one in
    let g = store_service-Grows name (some s) (counted c') (till.above name (omega arith) ∙ free) in
    let still = Wires-Grows c' (counted c') (rank name) (parts_of name) ids one wires in
    record {
      grows =
          Grows-trans c (counted c') (store_service name (some s) (counted c')) (rank name)
            (suc (rank name)) (omega arith) till g;
      answer = given (some s) refl (store_service-same name (some s) (counted c'));
      wired = λ w.
          store_service-IsWired name (some s) (counted c') g
            (λ t e. rw (sym (ap (λ x. x.parts) (some-injective e))) still)
            (counted-IsWired c' (wired w));
    }

pub construct-IsGot :
    (name : Name) (c c' : ServiceContainer) (o : Gathered)
    → c.services name ≡ none
    → Grows c c' (rank name)
    → (IsWired c → IsWired c')
    → IsCollected c (parts_of name) (c', o)
    → IsGot name c (construct name (c', o))
unfolding construct counted
construct-IsGot name c c' o free g wired (stopped k n e raises) =
    rw e (raised-IsGot name k n c c' free raises g wired)
construct-IsGot name c c' o free g wired (collected ids e wires) =
    elim (Bool-cases (c'.raises name c'.points)) [
      | inl h ↦
          let told = ap (λ f. f name c'.points) (sym g.raises) ∙ h in
          rw (e, h)
            (raised-IsGot name name c'.points c (pass c') free told
              (Grows-trans c c' (pass c') (rank name) (rank name) (omega arith) g
                (pass-Grows c' (rank name)))
              (λ w. pass-IsWired c' (wired w)))
      | inr h ↦ rw (e, h) (made-IsGot name c c' ids free g wired wires)
    ]

pub none-IsGot :
    (name : Name) (c : ServiceContainer)
    → c.services name ≡ none
    → IsGot name c (store_service name none c, gives none)
none-IsGot name c free =
    let g = store_service-Grows name none c free in
    record {
      grows = g;
      answer = given none refl (store_service-same name none c);
      wired = store_service-IsWired name none c g (λ t e. absurd (none-not-some t e));
    }
