-- ===== src/Kv.antt =====
-- A KV Store collection, as the in-memory one of tests/unit/fakes.py: documents under their `_key`,
-- in the order of insertion. A document stands as the record that `from_doc` reads from it.
pub mod Laws
use app_datasource_validator.Prelude.{
  String, ◌==◌, Bool, true, false, ◌||◌, Option, none, some, List, [], ◌∷◌, ◌++◌, keep,
  if◌then◌else◌,
}

abbrev pub Collection : Type 0 → Type 0
Collection D = List (String × D)

module _ {D : Type 0} where
  -- `_docs.get(key)`
  unfoldable pub find : String → Collection D → Option D
  find k [] = none
  find k ((j, d) ∷ c) = if j == k then some d else find k c

  -- `_docs[key] = doc` for a key that is there.
  unfoldable pub replace : String → D → Collection D → Collection D
  replace k d [] = []
  replace k d ((j, x) ∷ c) = if j == k then (j, d) ∷ c else (j, x) ∷ replace k d c

  -- `_docs.pop(key, None)`
  unfoldable pub remove : String → Collection D → Collection D
  remove k [] = []
  remove k ((j, x) ∷ c) = if j == k then c else (j, x) ∷ remove k c

  -- `_docs.values()`
  unfoldable pub docs : Collection D → List D
  docs [] = []
  docs ((j, d) ∷ c) = d ∷ docs c
