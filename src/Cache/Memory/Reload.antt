-- ===== src/Cache/Memory/Reload.antt =====
-- The module of pkg/cache/memory: `MergedCaches`, `Init` and `OnReload` (module.go, config.go).
use lakta.Prelude.{
  is_positive, ℕ, ◌&&◌, Option, none, some, List, [], ◌∷◌, get, put, erase, nat_keyed, bytes_keyed,
  if◌then◌else◌,
}
use lakta.Cache.{Entry, register, unregister, named}
use lakta.Cache.Memory.{
  Spec, OtterBox, Memory, Otter, stop, set_maximum, rebuild, spec_eqb, only_max_size_changed,
  build_box,
}

-- The registry, and the module behind it. A builder is the name that it builds.
pub record CacheModule : Type 0 where
  pub registry : List (List ℕ × Entry (List ℕ))
  pub mem : Memory

-- `maps.Copy`
unfoldable pub copy : List (List ℕ × Spec) → List (List ℕ × Spec) → List (List ℕ × Spec)
copy merged [] = merged
copy merged ((name, spec) ∷ caches) = copy (put merged name spec) caches

unfoldable pub merged_caches : List (List ℕ × Spec) → List (List ℕ × Spec) → List (List ℕ × Spec)
unfolding copy
merged_caches code_caches caches = copy (copy [] code_caches) caches

abbrev pub register_all :
    List (List ℕ × Spec) → List (List ℕ × Entry (List ℕ)) → List (List ℕ × Entry (List ℕ))
register_all [] entries = entries
register_all ((name, spec) ∷ specs) entries = register_all specs (register name name entries)

unfoldable pub init : (code_caches caches : List (List ℕ × Spec)) → CacheModule
unfolding register merged_caches
init code_caches caches = record {
  registry = register_all (merged_caches code_caches caches) [];
  mem = record {
    code_caches = code_caches;
    specs = merged_caches code_caches caches;
    live = [];
    boxes = [];
    running = [];
    created = 0;
  };
}

unfoldable pub stop_live : List ℕ → Option ℕ → Memory → Memory
unfolding stop
stop_live name none m = m
stop_live name (some p) m =
    let m' = stop (get m.boxes p) m in record m' { live = erase m'.live name }

unfoldable pub drop_unless :
    (wanted : Option Spec) (name : List ℕ) (built : Option ℕ) → CacheModule → CacheModule
unfolding stop_live unregister
drop_unless (some spec) name built c = c
drop_unless none name built c = record c {
  registry = unregister name c.registry;
  mem = stop_live name built c.mem;
}

unfoldable pub drop_gone :
    (old desired : List (List ℕ × Spec)) (live : List (List ℕ × ℕ)) → CacheModule → CacheModule
unfolding drop_unless
drop_gone [] desired live c = c
drop_gone ((name, spec) ∷ old) desired live c =
    drop_gone old desired live (drop_unless (get desired name) name (get live name) c)

unfoldable pub add_unless : Option Spec → List ℕ → CacheModule → CacheModule
unfolding register
add_unless (some spec) name c = c
add_unless none name c = record c { registry = register name name c.registry }

unfoldable pub add_new : (old desired : List (List ℕ × Spec)) → CacheModule → CacheModule
unfolding add_unless
add_new old [] c = c
add_new old ((name, spec) ∷ desired) c = add_new old desired (add_unless (get old name) name c)

module _ (otter : Otter) where
  unfoldable pub change_box : (old spec : Spec) → ℕ → Option OtterBox → Memory → Memory
  unfolding only_max_size_changed set_maximum rebuild
  change_box old spec p none m = m
  change_box old spec p (some b) m =
      if only_max_size_changed old spec && is_positive spec.max_size
      then set_maximum otter spec p b m
      else rebuild otter spec p b m

  unfoldable pub change_spec : (old : Option Spec) (spec : Spec) → Option ℕ → Memory → Memory
  unfolding change_box spec_eqb
  change_spec none spec built m = m
  change_spec (some old) spec none m = m
  change_spec (some old) spec (some p) m =
      if spec_eqb old spec then m else change_box old spec p (get m.boxes p) m

  unfoldable pub change_specs :
      (old desired : List (List ℕ × Spec)) (live : List (List ℕ × ℕ)) → Memory → Memory
  unfolding change_spec
  change_specs old [] live m = m
  change_specs old ((name, spec) ∷ desired) live m =
      change_specs old desired live (change_spec (get old name) spec (get live name) m)

  unfoldable pub apply_caches :
      (old desired : List (List ℕ × Spec)) (live : List (List ℕ × ℕ)) → CacheModule → CacheModule
  unfolding drop_gone add_new change_specs
  apply_caches old desired live c =
      let c' = add_new old desired (drop_gone old desired live c) in
      record c' { mem = change_specs old desired live c'.mem }

  -- `none` is a configuration that does not unmarshal; else its `caches`.
  unfoldable pub on_reload : Option (List (List ℕ × Spec)) → CacheModule → CacheModule
  unfolding apply_caches merged_caches
  on_reload none c = c
  on_reload (some caches) c =
      let desired = merged_caches c.mem.code_caches caches in
      apply_caches c.mem.specs desired c.mem.live
        (record c { mem = record c.mem { specs = desired } })

  -- `Named` of a module's cache, with the builder of the module.
  unfoldable pub named_of : List ℕ → (kt vt : ℕ) → CacheModule → CacheModule
  unfolding named build_box
  named_of name kt vt c =
      let after = named (build_box otter) name kt vt c.registry c.mem in
      record { registry = after.0.0; mem = after.0.1 }

-- `Shutdown` stops what was built; the maps stay as they are.
unfoldable pub shutdown : List (List ℕ × ℕ) → Memory → Memory
unfolding stop
shutdown [] m = m
shutdown ((name, p) ∷ live) m = shutdown live (stop (get m.boxes p) m)
