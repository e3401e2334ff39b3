-- ===== src/Core/Plugin/Lifecycle.antt =====
-- Registration, start and shutdown in plugin.py.
use neuro_pipeline.Prelude.{
  ◌≡◌, refl, ap, ◌∙◌, String, Bool, true, false, not, ◌&&◌, List, [], ◌∷◌, map, some, arith, filter,
  any, eq_iff, if◌then◌else◌, Bool-cases, inl, inr,
}
use mathlib.Core.List.{Perm}
use neuro_pipeline.Prelude.Dict.{Dict, contains, put, get-put, contains-put, remove-put_absent}
use neuro_pipeline.Prelude.Sort.{
  sorted, IsSorted, any-sorted, filter-sorted, sorted-perm, sorted-IsSorted,
}
use neuro_pipeline.Core.Plugin.{
  PipelinePlugin, PluginManager, registered, value_error, InitEnd, already, aborted, done, by_item,
  by_item_reversed, register, unregister, get_plugin, is_critical, config_for, init_loop,
  after_init, initialize_all, shutdown_loop, shutdown_all,
}
use neuro_pipeline.Core.Plugin.Order.{by_item-IsOrder, by_item_reversed-IsOrder}

module _ {D : Type 0} where
  -- The names in a list of items.
  abbrev pub names : List (String × PipelinePlugin D) → List String
  names = map (λ x. x.0)

  abbrev pub is_enabled : String × PipelinePlugin D → Bool
  is_enabled x = x.1.info.enabled

  module _ (empty_config : D) (configs : Dict D) where
    -- An enabled plugin that raises and has a priority below 50.
    abbrev pub fails : String × PipelinePlugin D → Bool
    fails x =
        is_enabled x
        && (not (x.1.initialize (config_for empty_config x.0 configs)) && is_critical x.1)

    loop_through :
        (l : List (String × PipelinePlugin D))
        → any fails l ≡ false
        → init_loop empty_config configs l ≡ (done, names (filter is_enabled l))
    unfolding init_loop
    loop_through [] h = refl
    loop_through ((k, p) ∷ l) h = ground (arith, loop_through l)

    loop_aborts :
        (l : List (String × PipelinePlugin D))
        → any fails l ≡ true
        → (x : String × PipelinePlugin D) × (fails x ≡ true)
          × ((init_loop empty_config configs l).0 ≡ aborted x.0)
    unfolding init_loop
    loop_aborts [] h = cc
    loop_aborts (x ∷ l) h = elim (Bool-cases (fails x)) [
      | inl now ↦ (x, now, ground arith)
      | inr later ↦ let (y, f, e) = loop_aborts l (ground arith) in (y, f, ground arith)
    ]

    module _ (m : PluginManager D) (fresh : m.initialized ≡ false) where
      abbrev run_loop : InitEnd × List String
      run_loop = init_loop empty_config configs (sorted by_item m.plugins)

      started : initialize_all empty_config configs m ≡ after_init m run_loop
      unfolding initialize_all
      started = ap (λ (b : Bool). if b then (m, already, []) else after_init m run_loop) fresh

      any-fails : any fails (sorted by_item m.plugins) ≡ any fails m.plugins
      any-fails = any-sorted by_item fails m.plugins

      after_abort :
          (r : InitEnd × List String) (k : String)
          → r.0 ≡ aborted k
          → ((after_init m r).0 ≡ m) × ((after_init m r).1 ≡ aborted k)
      unfolding after_init
      after_abort (done, called) k e = cc
      after_abort (already, called) k e = cc
      after_abort (aborted j, called) k e = (refl, e)

      -- If no enabled plugin with a priority below 50 raises, `initialize_all` calls exactly the
      -- enabled plugins, each once and by ascending priority, those of equal priority in the order of
      -- registration, and marks the manager as initialized, also if other plugins raise.
      pub initialize_all_done :
          any fails m.plugins ≡ false
          → initialize_all empty_config configs m ≡ (
            record m { initialized = true },
            done,
            names (sorted by_item (filter is_enabled m.plugins)),
          )
      unfolding after_init
      initialize_all_done ok =
          rw (started, loop_through (sorted by_item m.plugins) (any-fails ∙ ok))
            (rw (filter-sorted by_item by_item-IsOrder is_enabled m.plugins))

      -- If some enabled plugin with a priority below 50 raises, then `initialize_all` raises what such
      -- a plugin raised, and the manager is not marked, so that a later call starts again.
      pub initialize_all_aborted :
          any fails m.plugins ≡ true
          → (x : String × PipelinePlugin D) × (fails x ≡ true)
            × ((initialize_all empty_config configs m).0 ≡ m)
            × ((initialize_all empty_config configs m).1 ≡ aborted x.0)
      initialize_all_aborted bad =
          let (x, f, e) = loop_aborts (sorted by_item m.plugins) (any-fails ∙ bad) in
          let (same, end) = after_abort run_loop x.0 e in (x, f, rw started same, rw started end)

  -- What one plugin's shutdown contributes to the trace.
  abbrev pub shut : String × PipelinePlugin D → String × Bool
  shut x = (x.0, x.1.shutdown)

  shutdown_loop_lem : (l : List (String × PipelinePlugin D)) → shutdown_loop l ≡ map shut l
  unfolding shutdown_loop
  shutdown_loop_lem [] = refl
  shutdown_loop_lem (x ∷ l) = rw (shutdown_loop_lem l)

  -- `shutdown_all` calls every plugin exactly once, disabled ones and those behind one that raises
  -- too, by descending priority, and leaves the manager ready for another `initialize_all`.
  pub shutdown_all_lem :
      (m : PluginManager D)
      → (l : List (String × PipelinePlugin D)) × Perm l m.plugins
        × IsSorted by_item_reversed l
        × (shutdown_all m ≡ (record m { initialized = false }, map shut l))
  unfolding shutdown_all
  shutdown_all_lem m = (
    sorted by_item_reversed m.plugins,
    sorted-perm by_item_reversed m.plugins,
    sorted-IsSorted by_item_reversed by_item_reversed-IsOrder m.plugins,
    rw (shutdown_loop_lem (sorted by_item_reversed m.plugins)),
  )

  -- A plugin with a new name is registered; registering its name again raises `ValueError`; it is
  -- found under its name; and unregistering it gives back the manager as it was.
  pub unregister-register :
      (p : PipelinePlugin D) (m : PluginManager D)
      → contains p.info.name m.plugins ≡ false
      → (m' : PluginManager D) × (register p m ≡ registered m')
        × (register p m' ≡ value_error)
        × (get_plugin p.info.name m' ≡ some p)
        × (unregister p.info.name m' ≡ (m, true))
  unfolding register unregister get_plugin
  unregister-register p m new =
      let k = p.info.name in
      let here : contains k (put k p m.plugins) ≡ true =
        ground (arith, contains-put k k p m.plugins, eq_iff k k) in
      (
        record m { plugins = put k p m.plugins },
        rw new,
        rw here,
        rw get-put (ground (arith, eq_iff k k)),
        rw (here, remove-put_absent k p m.plugins new),
      )
