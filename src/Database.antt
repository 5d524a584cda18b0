-- ===== src/Database.antt =====
-- A Prisma model over a PostgreSQL table (prisma/schema.prisma). The client and the database are
-- not part of this repository, so a table is an interface: the queries that the repositories issue,
-- with what the Prisma documentation promises of them. Of the table's state nothing is known but
-- `row`, the row that it holds at a primary key.
pub mod Memory
use trust_link_backend.Prelude.{
  ℕ, String, Option, none, some, List, Bool, true, false, ◌≡◌, ◌==◌, if◌then◌else◌, All,
}
use mathlib.Core.Option

pub record Table (Row Rows : Type 0) : Type 0 where
  -- the primary key of a row
  pub key : Row → String
  pub row : String → Rows → Option Row
  -- Any query may be rejected, which is the outer `none`.
  pub find_unique : String → Rows → Option (Option Row)
  pub find_first : (Row → Bool) → Rows → Option (Option Row)
  -- `where` and `orderBy` as a condition, with `take`
  pub find_many : (Row → Bool) → Option ℕ → Rows → Option (List Row)
  pub create : Row → Rows → Option Rows
  -- `update({ where: { id }, data })`, with the row as updated
  pub update : String → (Row → Row) → Rows → Option (Row × Rows)
  -- `updateMany({ where: { id, … }, data })`, with the number of rows that it matched
  pub update_many : String → (Row → Bool) → (Row → Row) → Rows → Option (ℕ × Rows)
  -- `updateMany({ where, data })` on any number of rows
  pub update_all : (Row → Bool) → (Row → Row) → Rows → Option Rows
  -- `delete({ where: { id } })`
  pub delete : String → Rows → Option Rows

-- What `updateMany` does to the row at its id.
abbrev pub update_if : {R : Type 0} → (R → Bool) → (R → R) → Option R → Option R
update_if p f none = none
update_if p f (some r) = some (if p r then f r else r)

-- How many rows it matches.
abbrev pub matched : {R : Type 0} → (R → Bool) → Option R → ℕ
matched p none = 0
matched p (some r) = if p r then 1 else 0

pub record IsTable {Row Rows : Type 0} (T : Table Row Rows) : Type 0 where
  pub row-find_unique :
      (k : String) (t : Rows) (o : Option Row) → T.find_unique k t ≡ some o → T.row k t ≡ o
  pub row-find_first :
      (p : Row → Bool) (t : Rows) (r : Row)
      → T.find_first p t ≡ some (some r)
      → (p r ≡ true) × (T.row (T.key r) t ≡ some r)
  pub row-find_first_none :
      (p : Row → Bool) (t : Rows) (k : String) (r : Row)
      → T.find_first p t ≡ some none
      → T.row k t ≡ some r
      → T.key r ≡ k
      → p r ≡ false
  pub row-find_many :
      (p : Row → Bool) (n : Option ℕ) (t : Rows) (rs : List Row)
      → T.find_many p n t ≡ some rs
      → All (λ r. (p r ≡ true) × (T.row (T.key r) t ≡ some r)) rs
  pub row-create :
      (r : Row) (t t' : Rows) (j : String)
      → T.create r t ≡ some t'
      → T.row j t' ≡ (if T.key r == j then some r else T.row j t)
  pub create_fresh : (r : Row) (t t' : Rows) → T.create r t ≡ some t' → T.row (T.key r) t ≡ none
  pub row-update :
      (k : String) (f : Row → Row) (t t' : Rows) (r : Row) (j : String)
      → T.update k f t ≡ some (r, t')
      → T.row j t' ≡ (if k == j then Option.map f (T.row k t) else T.row j t)
  pub update_found :
      (k : String) (f : Row → Row) (t t' : Rows) (r : Row)
      → T.update k f t ≡ some (r, t')
      → (old : Row) × (T.row k t ≡ some old) × (r ≡ f old)
  pub row-update_many :
      (k : String) (p : Row → Bool) (f : Row → Row) (t t' : Rows) (n : ℕ) (j : String)
      → T.update_many k p f t ≡ some (n, t')
      → T.row j t' ≡ (if k == j then update_if p f (T.row k t) else T.row j t)
  pub update_many_count :
      (k : String) (p : Row → Bool) (f : Row → Row) (t t' : Rows) (n : ℕ)
      → T.update_many k p f t ≡ some (n, t')
      → n ≡ matched p (T.row k t)
  pub row-update_all :
      (p : Row → Bool) (f : Row → Row) (t t' : Rows) (j : String)
      → T.update_all p f t ≡ some t'
      → T.row j t' ≡ update_if p f (T.row j t)
  pub row-delete :
      (k : String) (t t' : Rows) (j : String)
      → T.delete k t ≡ some t'
      → T.row j t' ≡ (if k == j then none else T.row j t)

-- A table with one text under each key: `findUnique` and `upsert`; a query may be rejected, which is
-- the outer `none`.
pub record TextTable (S : Type 0) : Type 0 where
  pub find_unique : String → S → Option (Option String)
  pub upsert : String → String → S → Option S
