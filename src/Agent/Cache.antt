-- ===== src/Agent/Cache.antt =====
-- When the cache of imported functions is transparent.
use sentinel_ai_v3_0_the_fin.Prelude.{
  String, ◌≡◌, inl, inr, refl, sym, ap, ◌∙◌, Option, none, some, [], ◌∷◌, ◌==◌, All, arith, eq_iff,
  Bool-cases,
}
use sentinel_ai_v3_0_the_fin.Agent.{
  Func, Cache, cache_key, find_cached, Imports, import_and_run, run_cached, run_task_async,
}

module _ (imports : Imports) where
  -- What is cached under a key is what an import of that key gives.
  abbrev pub IsImported : String × Func → Type 0
  IsImported (key, func) = (m : String) (n : String) → cache_key m n ≡ key → imports m n ≡ some func

  abbrev pub IsCoherent : Cache → Type 0
  IsCoherent cache = All IsImported cache

  -- The name of a function is not split in two ways: names with one key are imported alike.
  abbrev pub KeysAgree : Type 0
  KeysAgree = (m n m' n' : String) → cache_key m n ≡ cache_key m' n' → imports m n ≡ imports m' n'

  found_is_imported :
      (m n : String) (cache : Cache) (func : Func)
      → IsCoherent cache
      → find_cached (cache_key m n) cache ≡ some func
      → imports m n ≡ some func
  unfolding find_cached
  found_is_imported m n [] func h e = cc e
  found_is_imported m n ((k, f) ∷ cache) func h e = elim (Bool-cases (k == cache_key m n)) [
    | inl same ↦ h.0 m n (sym ((eq_iff k (cache_key m n)).0 same)) ∙ ground (arith, e, same)
    | inr other ↦ found_is_imported m n cache func h.1 (ground (arith, e, other))
  ]

  -- The result without a cache.
  abbrev pub direct : String → Option Func → Option String
  direct text none = none
  direct text (some func) = func text

  import_lem :
      (m n text : String) (cache : Cache) (found : Option Func)
      → KeysAgree
      → IsCoherent cache
      → imports m n ≡ found
      → let r = import_and_run (cache_key m n) text found cache in
        (r.1 ≡ direct text found) × IsCoherent r.0
  import_lem m n text cache none k h e = (refl, h)
  import_lem m n text cache (some func) k h e = (refl, (λ m' n' q. k m' n' m n q ∙ e, h))

  run_lem :
      (m n text : String) (cache : Cache) (found : Option Func)
      → KeysAgree
      → IsCoherent cache
      → find_cached (cache_key m n) cache ≡ found
      → let r = run_cached imports m n text found cache in
        (r.1 ≡ direct text (imports m n)) × IsCoherent r.0
  run_lem m n text cache none k h e = import_lem m n text cache (imports m n) k h refl
  run_lem m n text cache (some func) k h e =
      (ap (direct text) (sym (found_is_imported m n cache func h e)), h)

  -- The cache is transparent: with a coherent cache, such as the empty one, a task gives what a fresh
  -- import of its function gives, an exception included, and leaves the cache coherent, provided that
  -- names with one key are imported alike.
  pub run_task_async-IsCoherent :
      (m n text : String) (cache : Cache)
      → KeysAgree
      → IsCoherent cache
      → let r = run_task_async imports m n text cache in
        (r.1 ≡ direct text (imports m n)) × IsCoherent r.0
  unfolding run_task_async
  run_task_async-IsCoherent m n text cache k h =
      run_lem m n text cache (find_cached (cache_key m n) cache) k h refl
