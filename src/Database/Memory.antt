-- ===== src/Database/Memory.antt =====
-- A table in memory: the interface can be met, and the tests run on it. No query is ever rejected but
-- for a missing row or a primary key that is taken.
use trust_link_backend.Prelude.{
  ℕ, String, Option, none, some, List, [], ◌∷◌, Bool, true, false, zero, suc, ◌≡◌, refl, ◌==◌,
  eq_iff, arith, if◌then◌else◌, take, All, inl, inr, Bool-cases,
}
use trust_link_backend.Database.{Table, IsTable, update_if, matched}
use mathlib.Core.Option
use mathlib.Core.Option.{some-injective}
use mathlib.Core.Path.{subst}

pub record Rows (R : Type 0) : Type 0 where
  pub ids : List String
  pub at : String → Option R

unfoldable pub contains : String → List String → Bool
contains k [] = false
contains k (j ∷ js) = if j == k then true else contains k js

module _ {R : Type 0} where
  unfoldable pub row : String → Rows R → Option R
  unfolding contains
  row k t = if contains k t.ids then t.at k else none

  abbrev pub is_hit : (R → String) → (R → Bool) → String → Option R → Bool
  is_hit key p k none = false
  is_hit key p k (some r) = if key r == k then p r else false

  unfoldable pub first : (R → String) → (R → Bool) → (String → Option R) → List String → Option R
  first key p at [] = none
  first key p at (k ∷ ks) = if is_hit key p k (at k) then at k else first key p at ks

  abbrev cons_option : Option R → List R → List R
  cons_option none rs = rs
  cons_option (some r) rs = r ∷ rs

  unfoldable pub select : (R → String) → (R → Bool) → (String → Option R) → List String → List R
  select key p at [] = []
  select key p at (k ∷ ks) =
      let rest = select key p at ks in
      if is_hit key p k (at k) then cons_option (at k) rest else rest

  unfoldable pub limit : Option ℕ → List R → List R
  limit none rs = rs
  limit (some n) rs = take n rs

  unfoldable pub set_at : String → (Option R → Option R) → Rows R → Rows R
  set_at k f t = record t { at = λ j. if k == j then f (t.at k) else t.at j }

  unfoldable pub create : (R → String) → R → Rows R → Option (Rows R)
  unfolding row
  create key r t = elim (row (key r) t) [
    | none ↦ some (record { ids = key r ∷ t.ids; at = λ j. if key r == j then some r else t.at j })
    | some _ ↦ none
  ]

  unfoldable pub update : String → (R → R) → Rows R → Option (R × Rows R)
  unfolding row set_at
  update k f t = elim (row k t) [ none ↦ none | some r ↦ some (f r, set_at k (Option.map f) t) ]

  unfoldable pub update_many : String → (R → Bool) → (R → R) → Rows R → Option (ℕ × Rows R)
  unfolding row set_at
  update_many k p f t = some (matched p (row k t), set_at k (update_if p f) t)

  unfoldable pub update_all : (R → Bool) → (R → R) → Rows R → Option (Rows R)
  update_all p f t = some (record t { at = λ j. update_if p f (t.at j) })

  unfoldable pub delete : String → Rows R → Option (Rows R)
  unfolding row
  delete k t = elim (row k t) [
    | none ↦ none
    | some _ ↦ some (record t { at = λ j. if k == j then none else t.at j })
  ]

abbrev pub empty : {R : Type 0} → Rows R
empty = record { ids = []; at = λ _. none }

abbrev pub table : {R : Type 0} → (R → String) → Table R (Rows R)
table key = record {
  key = key;
  row = row;
  find_unique = λ k t. some (row k t);
  find_first = λ p t. some (first key p t.at t.ids);
  find_many = λ p n t. some (limit n (select key p t.at t.ids));
  create = create key;
  update = update;
  update_many = update_many;
  update_all = update_all;
  delete = delete;
}

contains-head : (k : String) (ks : List String) → contains k (k ∷ ks) ≡ true
unfolding contains
contains-head k ks = ground (arith, eq_iff k k)

contains-tail :
    (j k : String) (ks : List String) → contains j ks ≡ true → contains j (k ∷ ks) ≡ true
unfolding contains
contains-tail j k ks h = ground arith

module _ {R : Type 0} (key : R → String) where
  row-set_at :
      (k j : String) (f : Option R → Option R) (t : Rows R)
      → f none ≡ none
      → row j (set_at k f t) ≡ (if k == j then f (row k t) else row j t)
  unfolding row set_at
  row-set_at k j f t h = ground (arith, eq_iff k j)

  row-create :
      (r : R) (t t' : Rows R) (j : String)
      → create key r t ≡ some t'
      → row j t' ≡ (if key r == j then some r else row j t)
  unfolding create row contains
  row-create r t t' j h = ground (arith, eq_iff (key r) j)

  create_fresh : (r : R) (t t' : Rows R) → create key r t ≡ some t' → row (key r) t ≡ none
  unfolding create
  create_fresh r t t' h = ground arith

  first-found :
      (p : R → Bool) (at : String → Option R) (ks : List String) (r : R)
      → first key p at ks ≡ some r
      → (p r ≡ true) × (contains (key r) ks ≡ true) × (at (key r) ≡ some r)
  unfolding first contains
  first-found p at [] r h = absurd (cc)
  first-found p at (k ∷ ks) r h =
      ground (arith, first-found p at ks r, eq_iff (key r) k, eq_iff k (key r))

  first-none :
      (p : R → Bool) (at : String → Option R) (ks : List String) (k : String) (r : R)
      → first key p at ks ≡ none
      → contains k ks ≡ true
      → at k ≡ some r
      → key r ≡ k
      → p r ≡ false
  unfolding first contains
  first-none p at [] k r h c a e = absurd (cc)
  first-none p at (j ∷ ks) k r h c a e =
      ground (arith, first-none p at ks k r, eq_iff j k, eq_iff (key r) j)

  abbrev Found : (R → Bool) → Rows R → R → Type 0
  Found p t r = (p r ≡ true) × (row (key r) t ≡ some r)

  Found-hit :
      (p : R → Bool) (t : Rows R) (k : String) (r : R)
      → t.at k ≡ some r
      → is_hit key p k (some r) ≡ true
      → contains k t.ids ≡ true
      → Found p t r
  unfolding row
  Found-hit p t k r a h c = ground (arith, eq_iff (key r) k)

  All-cons_option :
      (p : R → Bool) (t : Rows R) (k : String) (o : Option R) (rs : List R)
      → t.at k ≡ o
      → contains k t.ids ≡ true
      → All (Found p t) rs
      → All (Found p t) (if is_hit key p k o then cons_option o rs else rs)
  All-cons_option p t k none rs a c h = h
  All-cons_option p t k (some r) rs a c h = elim (Bool-cases (is_hit key p k (some r))) [
    | inl hit ↦ rw hit (Found-hit p t k r a hit c, h)
    | inr miss ↦ rw miss h
  ]

  All-select :
      (p : R → Bool) (t : Rows R) (ks : List String)
      → ((k : String) → contains k ks ≡ true → contains k t.ids ≡ true)
      → All (Found p t) (select key p t.at ks)
  unfolding select
  All-select p t [] sub = tt
  All-select p t (k ∷ ks) sub =
      All-cons_option p t k (t.at k) (select key p t.at ks) refl (sub k (contains-head k ks))
        (All-select p t ks (λ j h. sub j (contains-tail j k ks h)))

  All-take : (P : R → Type 0) (n : ℕ) (rs : List R) → All P rs → All P (take n rs)
  All-take P zero rs h = tt
  All-take P (suc n) [] h = tt
  All-take P (suc n) (r ∷ rs) h = (h.0, All-take P n rs h.1)

  All-limit : (P : R → Type 0) (n : Option ℕ) (rs : List R) → All P rs → All P (limit n rs)
  unfolding limit
  All-limit P none rs h = h
  All-limit P (some n) rs h = All-take P n rs h

  row-update :
      (k : String) (f : R → R) (t t' : Rows R) (r : R) (j : String)
      → update k f t ≡ some (r, t')
      → row j t' ≡ (if k == j then Option.map f (row k t) else row j t)
  unfolding update row
  row-update k f t t' r j h = ground (arith, eq_iff k j)

  update_found :
      (k : String) (f : R → R) (t t' : Rows R) (r : R)
      → update k f t ≡ some (r, t')
      → (old : R) × (row k t ≡ some old) × (r ≡ f old)
  unfolding update
  update_found k f t t' r h = ground arith

  row-update_many :
      (k : String) (p : R → Bool) (f : R → R) (t t' : Rows R) (n : ℕ) (j : String)
      → update_many k p f t ≡ some (n, t')
      → row j t' ≡ (if k == j then update_if p f (row k t) else row j t)
  unfolding update_many row
  row-update_many k p f t t' n j h = ground (arith, eq_iff k j)

  update_many_count :
      (k : String) (p : R → Bool) (f : R → R) (t t' : Rows R) (n : ℕ)
      → update_many k p f t ≡ some (n, t')
      → n ≡ matched p (row k t)
  unfolding update_many
  update_many_count k p f t t' n h = ground arith

  row-update_all :
      (p : R → Bool) (f : R → R) (t t' : Rows R) (j : String)
      → update_all p f t ≡ some t'
      → row j t' ≡ update_if p f (row j t)
  unfolding update_all row
  row-update_all p f t t' j h = ground arith

  row-delete :
      (k : String) (t t' : Rows R) (j : String)
      → delete k t ≡ some t'
      → row j t' ≡ (if k == j then none else row j t)
  unfolding delete row
  row-delete k t t' j h = ground (arith, eq_iff k j)

  Found-of_first :
      (p : R → Bool) (t : Rows R) (r : R) → (table key).find_first p t ≡ some (some r) → Found p t r
  unfolding row
  Found-of_first p t r h = ground (arith, first-found p t.at t.ids r)

  none_found :
      (p : R → Bool) (t : Rows R) (k : String) (r : R)
      → (table key).find_first p t ≡ some none
      → row k t ≡ some r
      → key r ≡ k
      → p r ≡ false
  unfolding row
  none_found p t k r h a e = ground (arith, first-none p t.at t.ids k r)

  All-find_many :
      (p : R → Bool) (n : Option ℕ) (t : Rows R) (rs : List R)
      → (table key).find_many p n t ≡ some rs
      → All (Found p t) rs
  All-find_many p n t rs h =
      subst (All (Found p t)) (some-injective _ _ h)
        (All-limit (Found p t) n (select key p t.at t.ids) (All-select p t t.ids (λ k c. c)))

  -- A table in memory meets what is promised of a table.
  pub table-IsTable : IsTable (table key)
  table-IsTable = record {
    row-find_unique = λ k t o h. ground arith;
    row-find_first = λ p t r h. Found-of_first p t r h;
    row-find_first_none = λ p t k r h a e. none_found p t k r h a e;
    row-find_many = λ p n t rs h. All-find_many p n t rs h;
    row-create = row-create;
    create_fresh = create_fresh;
    row-update = row-update;
    update_found = update_found;
    row-update_many = row-update_many;
    update_many_count = update_many_count;
    row-update_all = row-update_all;
    row-delete = row-delete;
  }
