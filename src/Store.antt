-- ===== src/Store.antt =====
-- The typed key-value store (pkg/store.go) over SQLite, and the table that the job manager uses.
-- SQLite and encoding/json are not part of the repository: they are the records `Sqlite` and `Json`,
-- whose laws are the documented behaviour of the two statements and of the codec.
pub mod Rows
pub mod Assoc
mod Tests
use dogeboxd.Base.{
  ℕ, String, ◌≡◌, ◌≢◌, refl, Bool, true, Option, none, some, List, Memᴰ, arith, ◌==◌, eq_iff,
  if◌then◌else◌, Option-cases, inl, inr,
}

-- A table `(key TEXT UNIQUE, value JSON)`. `none` is an error of the statement.
pub record Sqlite : Type 1 where
  pub Db : Type 0
  pub query_row : Db → String → Option String
  pub insert_or_replace : Db → String → String → Option Db
  pub delete_key : Db → String → Option Db
  pub query-insert :
      (d : Db) (k v : String) (d' : Db)
      → insert_or_replace d k v ≡ some d'
      → (j : String) → query_row d' j ≡ (if k == j then some v else query_row d j)
  pub query-delete :
      (d : Db) (k : String) (d' : Db)
      → delete_key d k ≡ some d'
      → (j : String) → query_row d' j ≡ (if k == j then none else query_row d j)

-- json.Marshal and json.Unmarshal at one type. Not every value survives: a text that is no UTF-8, for one,
-- is changed. `IsFaithful` says which values are read back as they were.
pub record Json (A : Type 0) : Type 1 where
  pub marshal : A → Option String
  pub unmarshal : String → Option A
  pub IsFaithful : A → Type 0
  pub unmarshal-marshal :
      (a : A) (s : String) → IsFaithful a → marshal a ≡ some s → unmarshal s ≡ some a

-- What a `TypeStore` promises its clients.
pub record KeyValue (A : Type 0) : Type 1 where
  pub Db : Type 0
  pub get : Db → String → Option A
  pub set : Db → String → A → Option Db
  pub del : Db → String → Option Db
  pub get-set :
      (d : Db) (k : String) (a : A) (d' : Db)
      → set d k a ≡ some d'
      → (j : String) → get d' j ≡ (if k == j then some a else get d j)
  pub get-del :
      (d : Db) (k : String) (d' : Db)
      → del d k ≡ some d'
      → (j : String) → get d' j ≡ (if k == j then none else get d j)

module _ {A : Type 0} (sql : Sqlite) (json : Json A) where
  abbrev then_insert : sql.Db → String → Option String → Option sql.Db
  then_insert d key none = none
  then_insert d key (some bytes) = sql.insert_or_replace d key bytes

  -- TypeStore.Set
  pub type_store_set : sql.Db → String → A → Option sql.Db
  type_store_set d key value = then_insert d key (json.marshal value)

  abbrev then_unmarshal : Option String → Option A
  then_unmarshal none = none
  then_unmarshal (some bytes) = json.unmarshal bytes

  -- TypeStore.Get
  pub type_store_get : sql.Db → String → Option A
  type_store_get d key = then_unmarshal (sql.query_row d key)

  -- TypeStore.Del
  pub type_store_del : sql.Db → String → Option sql.Db
  type_store_del d key = sql.delete_key d key

  -- A faithful value that was set is read back under its key, and every other key reads as before.
  pub get-type_store_set :
      (d : sql.Db) (k : String) (a : A) (d' : sql.Db)
      → json.IsFaithful a
      → type_store_set d k a ≡ some d'
      → (j : String) → type_store_get d' j ≡ (if k == j then some a else type_store_get d j)
  unfolding type_store_set type_store_get
  get-type_store_set d k a d' i h j = elim (Option-cases (json.marshal a)) [
    | inl e ↦ ground (arith, e)
    | inr (s, e) ↦
        ground
          (arith, sql.query-insert d k s d' (ground (arith, e)) j, json.unmarshal-marshal a s i e)
  ]

  pub get-type_store_del :
      (d : sql.Db) (k : String) (d' : sql.Db)
      → type_store_del d k ≡ some d'
      → (j : String) → type_store_get d' j ≡ (if k == j then none else type_store_get d j)
  unfolding type_store_del type_store_get
  get-type_store_del d k d' h j = ground (arith, sql.query-delete d k d' h j)

  -- The store fills the contract, at a type all of whose values are faithful.
  abbrev pub type_store : ((a : A) → json.IsFaithful a) → KeyValue A
  type_store faithful = record {
    Db = sql.Db;
    get = type_store_get;
    set = type_store_set;
    del = type_store_del;
    get-set = λ d k a d' h. get-type_store_set d k a d' (faithful a) h;
    get-del = get-type_store_del;
  }

-- A `SELECT value FROM t WHERE … ORDER BY … LIMIT n`.
pub record Query (A : Type 0) : Type 0 where
  pub matches : A → Bool
  pub before : A → A → Bool
  pub limit : Option ℕ

-- A store with the queries that the job manager runs. `update` is `UPDATE t SET … WHERE …` and
-- `remove` is `DELETE FROM t WHERE …`; both return the number of rows that they changed.
pub record Table (A : Type 0) : Type 1 where
  pub kv : KeyValue A
  pub open kv use *
  pub select : kv.Db → Query A → Option (List A)
  pub update : kv.Db → (A → Bool) → (A → A) → Option (kv.Db × ℕ)
  pub remove : kv.Db → (A → Bool) → Option (kv.Db × ℕ)
  pub select_sound :
      (d : kv.Db) (q : Query A) (rows : List A)
      → select d q ≡ some rows
      → (a : A) → Memᴰ a rows
      → (k : String) × (kv.get d k ≡ some a) × (q.matches a ≡ true)
  pub select_complete :
      (d : kv.Db) (q : Query A) (rows : List A)
      → select d q ≡ some rows
      → q.limit ≡ none
      → (k : String) (a : A) → kv.get d k ≡ some a
      → q.matches a ≡ true
      → Memᴰ a rows
  pub get-update :
      (d : kv.Db) (p : A → Bool) (f : A → A) (d' : kv.Db) (n : ℕ)
      → update d p f ≡ some (d', n)
      → (k : String) → kv.get d' k ≡ Rows.change p f (kv.get d k)
  pub get-remove :
      (d : kv.Db) (p : A → Bool) (d' : kv.Db) (n : ℕ)
      → remove d p ≡ some (d', n)
      → (k : String) → kv.get d' k ≡ Rows.drop p (kv.get d k)
