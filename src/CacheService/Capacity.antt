-- ===== src/CacheService/Capacity.antt =====
-- src/cache/cache.service.ts: how many entries the map in memory holds.
use trust_link_backend.Prelude.{
  ℕ, suc, ◌+◌, ◌-◌, ◌*◌, ◌≤◌, String, none, some, List, [], ◌∷◌, true, false, ◌≡◌, refl, sym, ap,
  ◌∙◌, inl, inr, if◌then◌else◌, ltb, leb, length, is_some, ◌==◌, eq_iff, eq_refl, arith, Bool-cases,
}
use trust_link_backend.CacheService.{
  Entry, max_memory_entries, lookup, insert, delete, place, sort, delete_first, evict_to_capacity,
  set,
}
use trust_link_backend.CacheService.Laws.{lookup-delete, lookup-insert}

module _ {V : Type 0} where
  -- The keys of a map are distinct.
  abbrev pub IsMap : List (Entry V) → Type 0
  IsMap [] = Unit
  IsMap (e ∷ es) = (lookup e.name es ≡ none) × IsMap es

  IsMap-insert : (x : Entry V) (m : List (Entry V)) → IsMap m → IsMap (insert x m)
  unfolding insert lookup
  IsMap-insert x [] i = (refl, tt)
  IsMap-insert x (e ∷ m) (n, i) = elim (Bool-cases (e.name == x.name)) [
    | inl h ↦ rw h (ground (arith, n, eq_iff e.name x.name), i)
    | inr h ↦ rw h (
      ground (arith, n, h, lookup-insert x e.name m, eq_iff e.name x.name, eq_iff x.name e.name),
      IsMap-insert x m i,
    )
  ]

  lookup-place :
      (x : Entry V) (k : String) (es : List (Entry V))
      → lookup x.name es ≡ none
      → lookup k (place x es) ≡ (if x.name == k then some x else lookup k es)
  unfolding place lookup
  lookup-place x k [] h = ground arith
  lookup-place x k (e ∷ es) h =
      ground (arith, h, lookup-place x k es, eq_iff e.name x.name, eq_iff e.name k, eq_iff x.name k)

  IsMap-place :
      (x : Entry V) (es : List (Entry V)) → lookup x.name es ≡ none → IsMap es → IsMap (place x es)
  unfolding place lookup
  IsMap-place x [] h i = (refl, tt)
  IsMap-place x (e ∷ es) h (n, i) =
      let apart : (e.name == x.name) ≡ false = ground (arith, h) in
      let later : lookup x.name es ≡ none = ground (arith, h) in
      elim (Bool-cases (leb x.expires_at e.expires_at)) [
        | inl l ↦ rw l (ground (arith, h), (n, i))
        | inr l ↦ rw l (
          ground (
            arith,
            n,
            apart,
            lookup-place x e.name es later,
            eq_iff e.name x.name,
            eq_iff x.name e.name,
          ),
          IsMap-place x es later i,
        )
      ]

  length-place : (x : Entry V) (es : List (Entry V)) → length (place x es) ≡ suc (length es)
  unfolding place
  length-place x [] = refl
  length-place x (e ∷ es) = ground (arith, length-place x es)

  lookup-sort : (k : String) (m : List (Entry V)) → IsMap m → lookup k (sort m) ≡ lookup k m
  unfolding sort lookup
  lookup-sort k [] i = refl
  lookup-sort k (e ∷ m) (n, i) =
      lookup-place e k (sort m) (lookup-sort e.name m i ∙ n) ∙ ground (arith, lookup-sort k m i)

  IsMap-sort : (m : List (Entry V)) → IsMap m → IsMap (sort m)
  unfolding sort
  IsMap-sort [] i = tt
  IsMap-sort (e ∷ m) (n, i) = IsMap-place e (sort m) (lookup-sort e.name m i ∙ n) (IsMap-sort m i)

  length-sort : (m : List (Entry V)) → length (sort m) ≡ length m
  unfolding sort
  length-sort [] = refl
  length-sort (e ∷ m) = ground (arith, length-place e (sort m), length-sort m)

  delete_absent : (k : String) (m : List (Entry V)) → lookup k m ≡ none → delete k m ≡ m
  unfolding delete lookup
  delete_absent k [] h = refl
  delete_absent k (e ∷ m) h = ground (arith, h, delete_absent k m)

  length-delete :
      (k : String) (m : List (Entry V))
      → IsMap m
      → is_some (lookup k m) ≡ true
      → suc (length (delete k m)) ≡ length m
  unfolding delete lookup
  length-delete k [] i h = absurd (cc h)
  length-delete k (e ∷ m) (n, i) h = elim (Bool-cases (e.name == k)) [
    | inl q ↦ rw q (
        ap (λ x. suc (length x))
          (delete_absent k m (ap (λ j. lookup j m) (sym ((eq_iff e.name k).0 q)) ∙ n)))
    | inr q ↦ rw q (ap suc (length-delete k m i (ground (arith, h, q))))
  ]

  IsMap-delete : (k : String) (m : List (Entry V)) → IsMap m → IsMap (delete k m)
  unfolding delete
  IsMap-delete k [] i = tt
  IsMap-delete k (e ∷ m) (n, i) = elim (Bool-cases (e.name == k)) [
    | inl q ↦ rw q (IsMap-delete k m i)
    | inr q ↦ rw q (ground (arith, n, lookup-delete k e.name m), IsMap-delete k m i)
  ]

  -- Each entry of the first list has its key in the second.
  abbrev Covered : List (Entry V) → List (Entry V) → Type 0
  Covered es m = (k : String) → is_some (lookup k es) ≡ true → is_some (lookup k m) ≡ true

  length-delete_first :
      (n : ℕ) (es m : List (Entry V))
      → IsMap es
      → IsMap m
      → Covered es m
      → n ≤ length es
      → length (delete_first n es m) + n ≡ length m
  unfolding delete_first lookup
  length-delete_first n [] m i j c h = omega (arith, h)
  length-delete_first n (e ∷ es) m (x, i) j c h = elim (Bool-cases (ltb 0 n)) [
    | inr q ↦ rw q (ground (arith, q))
    | inl q ↦
        let there : is_some (lookup e.name m) ≡ true = c e.name (ground (arith, eq_refl e.name)) in
        let rest =
          length-delete_first (n - 1) es (delete e.name m) i (IsMap-delete e.name m j)
            (λ k p. ground (arith, p, x, c k, lookup-delete e.name k m, eq_iff e.name k))
            (ground (arith, h, q)) in
        rw q (ground (arith, rest, length-delete e.name m j there, q))
  ]

  IsMap-delete_first : (n : ℕ) (es m : List (Entry V)) → IsMap m → IsMap (delete_first n es m)
  unfolding delete_first
  IsMap-delete_first n [] m i = i
  IsMap-delete_first n (e ∷ es) m i = elim (Bool-cases (ltb 0 n)) [
    | inl q ↦ rw q (IsMap-delete_first (n - 1) es (delete e.name m) (IsMap-delete e.name m i))
    | inr q ↦ rw q i
  ]

  -- Eviction deletes as many entries as the map has too many.
  evict-length : (m : List (Entry V)) → IsMap m → length (evict_to_capacity m) ≤ max_memory_entries
  unfolding evict_to_capacity
  evict-length m i = elim (Bool-cases (leb (length m) max_memory_entries)) [
    | inl q ↦ rw q (ground (arith, q))
    | inr q ↦ rw q (
        ground (
          arith,
          q,
          length-delete_first (length m - max_memory_entries) (sort m) m (IsMap-sort m i) i
              (λ k p. ap is_some (sym (lookup-sort k m i)) ∙ p) (ground (arith, length-sort m)),
        ))
  ]

  IsMap-evict : (m : List (Entry V)) → IsMap m → IsMap (evict_to_capacity m)
  unfolding evict_to_capacity
  IsMap-evict m i = elim (Bool-cases (leb (length m) max_memory_entries)) [
    | inl q ↦ rw q i
    | inr q ↦ rw q (IsMap-delete_first (length m - max_memory_entries) (sort m) m i)
  ]

  -- After a write the map has distinct keys again and at most a thousand entries, however many it
  -- had before.
  pub set-capacity :
      (now : ℕ) (k : String) (v : V) (ttl : ℕ) (m : List (Entry V))
      → IsMap m
      → IsMap (set now k v ttl m) × (length (set now k v ttl m) ≤ max_memory_entries)
  unfolding set
  set-capacity now k v ttl m i =
      let x : Entry V = record { name = k; value = v; expires_at = now + ttl * 1000 } in
      (
        IsMap-evict (insert x m) (IsMap-insert x m i),
        evict-length (insert x m) (IsMap-insert x m i),
      )
