-- ===== src/CacheService.antt =====
-- src/cache/cache.service.ts, where REDIS_URL is not set: the map in memory, with its keys in the order
-- in which they were first set. The clock is read once in each call. With Redis configured the
-- service only calls it, and that is not modelled.
pub mod Laws
pub mod Capacity
use trust_link_backend.Prelude.{
  ℕ, ◌+◌, ◌-◌, ◌*◌, String, Option, none, some, List, [], ◌∷◌, ◌++◌, Bool, true, false,
  if◌then◌else◌, ltb, leb, length, ◌==◌,
}
use trust_link_backend.Backend.{Cache}

pub record Entry (V : Type 0) : Type 0 where
  pub name : String
  pub value : V
  pub expires_at : ℕ

-- `MAX_MEMORY_ENTRIES`
abbrev pub max_memory_entries : ℕ
max_memory_entries = 1000

module _ {V : Type 0} where
  unfoldable pub lookup : String → List (Entry V) → Option (Entry V)
  lookup k [] = none
  lookup k (e ∷ es) = if e.name == k then some e else lookup k es

  -- `Map.set`: an existing key keeps its place.
  unfoldable pub insert : Entry V → List (Entry V) → List (Entry V)
  insert x [] = x ∷ []
  insert x (e ∷ es) = if e.name == x.name then x ∷ es else e ∷ insert x es

  -- `Map.delete`
  unfoldable pub delete : String → List (Entry V) → List (Entry V)
  delete k [] = []
  delete k (e ∷ es) = let rest = delete k es in if e.name == k then rest else e ∷ rest

  -- `sweep`
  pub sweep : ℕ → List (Entry V) → List (Entry V)
  sweep now [] = []
  sweep now (e ∷ es) = let rest = sweep now es in if ltb e.expires_at now then rest else e ∷ rest

  -- `sort((a, b) => a.expiresAt - b.expiresAt)`, which is stable
  place : Entry V → List (Entry V) → List (Entry V)
  place x [] = x ∷ []
  place x (e ∷ es) = if leb x.expires_at e.expires_at then x ∷ e ∷ es else e ∷ place x es

  sort : List (Entry V) → List (Entry V)
  unfolding place
  sort [] = []
  sort (e ∷ es) = place e (sort es)

  -- Delete the first `n` of the sorted entries.
  delete_first : ℕ → List (Entry V) → List (Entry V) → List (Entry V)
  unfolding delete
  delete_first n [] m = m
  delete_first n (e ∷ es) m = if ltb 0 n then delete_first (n - 1) es (delete e.name m) else m

  -- `evictToCapacity`
  unfoldable pub evict_to_capacity : List (Entry V) → List (Entry V)
  unfolding sort delete_first
  evict_to_capacity m =
      if leb (length m) max_memory_entries
      then m
      else delete_first (length m - max_memory_entries) (sort m) m

  unfoldable pub get_found : ℕ → Option (Entry V) → List (Entry V) → Option V × List (Entry V)
  unfolding delete
  get_found now none m = (none, m)
  get_found now (some e) m =
      if ltb e.expires_at now then (none, delete e.name m) else (some e.value, m)

  unfoldable pub get : ℕ → String → List (Entry V) → Option V × List (Entry V)
  unfolding get_found lookup
  get now k m = get_found now (lookup k m) m

  unfoldable pub set : ℕ → String → V → ℕ → List (Entry V) → List (Entry V)
  unfolding insert evict_to_capacity
  set now k v ttl m =
      evict_to_capacity (insert (record { name = k; value = v; expires_at = now + ttl * 1000 }) m)

  unfoldable pub held : String → List (Entry V) → Option V
  unfolding lookup
  held k m = elim (lookup k m) [ none ↦ none | some e ↦ some e.value ]

  -- The service, as the interface that the repositories use.
  abbrev pub memory_cache : Cache V (List (Entry V))
  memory_cache = record { held = held; get = get; set = set; del = delete }
