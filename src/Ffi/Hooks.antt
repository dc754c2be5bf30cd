-- ===== src/Ffi/Hooks.antt =====
-- cjson-rs-ffi/src/alloc_hooks.rs: the two hooks, as a state with a caller's function or nothing in
-- each. What a function of the allocator does to the world `W` is its own affair.
use cjson_rs.Common.{ℕ, Option, none, some, ◌==◌, if◌then◌else◌}
use cjson_rs.Ffi.Memory.{Ptr, null}

module _ (W : Type 0) where
  -- `MallocFn` and `FreeFn`
  abbrev pub MallocFn : Type 0
  MallocFn = ℕ → W → Ptr × W

  abbrev pub FreeFn : Type 0
  FreeFn = Ptr → W → W

  -- `MALLOC_HOOK` and `FREE_HOOK`; also `cJSON_Hooks`
  pub record Hooks : Type 0 where
    pub malloc_fn : Option MallocFn
    pub free_fn : Option FreeFn

module _ {W : Type 0} where
  unfoldable pub set_hooks : Option (MallocFn W) → Option (FreeFn W) → Hooks W → Hooks W
  set_hooks malloc free s = record { malloc_fn = malloc; free_fn = free }

  -- `cJSON_InitHooks`; `none` is the null pointer
  unfoldable pub cjson_init_hooks : Option (Hooks W) → Hooks W → Hooks W
  cjson_init_hooks none s = set_hooks none none s
  cjson_init_hooks (some hooks) s = set_hooks hooks.malloc_fn hooks.free_fn s

  unfoldable pub dispatch_malloc : (libc_malloc : MallocFn W) → Hooks W → MallocFn W
  dispatch_malloc libc_malloc s = elim s.malloc_fn [ none ↦ libc_malloc | some f ↦ f ]

  unfoldable pub dispatch_free : (libc_free : FreeFn W) → Hooks W → FreeFn W
  dispatch_free libc_free s p w =
      if p == null then w else elim s.free_fn as (λ _. W) [ none ↦ libc_free p w | some f ↦ f p w ]
