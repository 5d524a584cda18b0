-- ===== src/CacheService/Laws.antt =====
-- src/cache/cache.service.ts: the in-memory cache does what the repositories rely on.
use trust_link_backend.Prelude.{
  ℕ, ◌+◌, ◌-◌, ◌*◌, ◌≤◌, String, none, some, List, [], ◌∷◌, ◌≡◌, inl, inr, if◌then◌else◌, ltb, leb,
  length, ◌==◌, eq_iff, eq_refl, arith, Bool-cases, Option-cases,
}
use trust_link_backend.Backend.{IsCache}
use trust_link_backend.CacheService.{
  Entry, max_memory_entries, lookup, insert, delete, sort, delete_first, evict_to_capacity,
  get_found, get, set, held, memory_cache,
}

module _ {V : Type 0} where
  lookup-name : (k : String) (m : List (Entry V)) (e : Entry V) → lookup k m ≡ some e → e.name ≡ k
  unfolding lookup
  lookup-name k [] e h = absurd (cc h)
  lookup-name k (x ∷ m) e h = ground (arith, h, lookup-name k m e, eq_iff x.name k)

  pub lookup-delete :
      (k j : String) (m : List (Entry V))
      → lookup j (delete k m) ≡ (if k == j then none else lookup j m)
  unfolding lookup delete
  lookup-delete k j [] = ground arith
  lookup-delete k j (x ∷ m) =
      ground (arith, lookup-delete k j m, eq_iff x.name k, eq_iff x.name j, eq_iff k j)

  pub lookup-insert :
      (x : Entry V) (j : String) (m : List (Entry V))
      → lookup j (insert x m) ≡ (if x.name == j then some x else lookup j m)
  unfolding lookup insert
  lookup-insert x j [] = ground arith
  lookup-insert x j (e ∷ m) =
      ground (arith, lookup-insert x j m, eq_iff e.name x.name, eq_iff e.name j, eq_iff x.name j)

  -- What eviction leaves was there.
  lookup-delete_first :
      (n : ℕ) (es m : List (Entry V)) (j : String) (e : Entry V)
      → lookup j (delete_first n es m) ≡ some e
      → lookup j m ≡ some e
  unfolding delete_first
  lookup-delete_first n [] m j e h = h
  lookup-delete_first n (x ∷ es) m j e h = elim (Bool-cases (ltb 0 n)) [
    | inl p ↦ ground (
      arith,
      lookup-delete_first (n - 1) es (delete x.name m) j e (rw p at h),
      lookup-delete x.name j m,
    )
    | inr p ↦ ground (arith, h)
  ]

  lookup-evict :
      (m : List (Entry V)) (j : String) (e : Entry V)
      → lookup j (evict_to_capacity m) ≡ some e
      → lookup j m ≡ some e
  unfolding evict_to_capacity
  lookup-evict m j e h = elim (Bool-cases (leb (length m) max_memory_entries)) [
    | inl p ↦ ground (arith, h)
    | inr p ↦ ground (arith, h, lookup-delete_first (length m - max_memory_entries) (sort m) m j e)
  ]

  held-lookup :
      (k : String) (m : List (Entry V)) (v : V)
      → held k m ≡ some v
      → (e : Entry V) × (lookup k m ≡ some e) × (e.value ≡ v)
  unfolding held
  held-lookup k m v h = elim (Option-cases (lookup k m)) [
    | inl p ↦ absurd (ground (arith, h))
    | inr (e, p) ↦ (e, p, ground (arith, h))
  ]

  held-delete :
      (k j : String) (m : List (Entry V))
      → held j (delete k m) ≡ (if k == j then none else held j m)
  unfolding held
  held-delete k j m = ground (arith, lookup-delete k j m)

  held-get :
      (now : ℕ) (k j : String) (m : List (Entry V)) (v : V)
      → held j (get now k m).1 ≡ some v
      → held j m ≡ some v
  unfolding get get_found
  held-get now k j m v h = elim (Option-cases (lookup k m)) [
    | inl p ↦ ground (arith, h)
    | inr (e, p) ↦ elim (Bool-cases (ltb e.expires_at now)) [
      | inl q ↦ ground (arith, h, held-delete e.name j m)
      | inr q ↦ ground (arith, h)
    ]
  ]

  get-held :
      (now : ℕ) (k : String) (m : List (Entry V)) (v : V)
      → (get now k m).0 ≡ some v
      → held k m ≡ some v
  unfolding get get_found held
  get-held now k m v h = ground (arith, h)

  get_miss :
      (now : ℕ) (k : String) (m : List (Entry V))
      → (get now k m).0 ≡ none
      → held k (get now k m).1 ≡ none
  unfolding get get_found held
  get_miss now k m h = elim (Option-cases (lookup k m)) [
    | inl p ↦ ground (arith, h)
    | inr (e, p) ↦ elim (Bool-cases (ltb e.expires_at now)) [
      | inl q ↦ ground (arith, h, lookup-delete e.name k m, lookup-name k m e p, eq_iff e.name k)
      | inr q ↦ absurd (ground (arith, h))
    ]
  ]

  held-set :
      (now : ℕ) (k j : String) (v w : V) (ttl : ℕ) (m : List (Entry V))
      → held j (set now k v ttl m) ≡ some w
      → (if k == j then some v else held j m) ≡ some w
  unfolding set held
  held-set now k j v w ttl m h =
      let x : Entry V = record { name = k; value = v; expires_at = now + ttl * 1000 } in
      let (e, p, q) = held-lookup j (evict_to_capacity (insert x m)) w h in
      ground (arith, lookup-evict (insert x m) j e p, lookup-insert x j m, q)

  -- The in-memory service meets what the repositories rely on: a value that is read was stored under
  -- its key and not deleted since; eviction and expiry only ever lose values.
  pub memory_cache-IsCache : IsCache (memory_cache {V = V})
  memory_cache-IsCache = record {
    get-held = get-held;
    get_miss = get_miss;
    held-get = held-get;
    held-set = held-set;
    held-del = λ k j c. held-delete k j c;
  }

  -- A value that is set is read back until its time is up, if the map has room for it.
  pub get-set :
      (now later : ℕ) (k : String) (v : V) (ttl : ℕ) (m : List (Entry V))
      → length (insert (record { name = k; value = v; expires_at = now + ttl * 1000 }) m)
        ≤ max_memory_entries
      → later ≤ now + ttl * 1000
      → (get later k (set now k v ttl m)).0 ≡ some v
  unfolding get get_found set evict_to_capacity
  get-set now later k v ttl m room fresh =
      let x : Entry V = record { name = k; value = v; expires_at = now + ttl * 1000 } in
      ground (arith, lookup-insert x k m, eq_refl k)
