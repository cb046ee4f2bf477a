-- ===== src/Store/Tests.antt =====
-- A typed store of texts over a table of texts, and its contract filled.
use dogeboxd.Base.{String, ◌≡◌, refl, ap, sym, some, [], ◌∷◌}
use dogeboxd.Store.{Sqlite, Json, Table, KeyValue, type_store, type_store_get}
use dogeboxd.Store.Assoc.{assoc_table, Rows, find}

abbrev texts : Table String
texts = assoc_table

-- SQLite as a list of rows.
abbrev rows_sqlite : Sqlite
rows_sqlite = record {
  Db = Rows String;
  query_row = find;
  insert_or_replace = λ d k v. texts.set d k v;
  delete_key = λ d k. texts.del d k;
  query-insert = λ d k v d' h. texts.get-set d k v d' h;
  query-delete = λ d k d' h. texts.get-del d k d' h;
}

-- Texts as their own encoding.
abbrev plain_text : Json String
plain_text = record {
  marshal = λ a. some a;
  unmarshal = λ s. some s;
  IsFaithful = λ a. Unit;
  unmarshal-marshal = λ a s i h. ap (λ x. x) (sym h);
}

abbrev one_row : Rows String
one_row = ("b2", some "old") ∷ []

-- A value that is set is read back, and the others stay.
abbrev stored_texts : KeyValue String
stored_texts = type_store rows_sqlite plain_text (λ a. tt)

set_and_get : type_store_get rows_sqlite plain_text (("a1", some "new") ∷ one_row) "a1" ≡ some "new"
unfolding type_store_get
set_and_get = refl
