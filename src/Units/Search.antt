-- ===== src/Units/Search.antt =====
-- The search for a unit's file (`index_unit_search_root`, `build_unit_path_index` and
-- `find_unit_path` of src/units.cc). The file system is a parameter: `listing root` holds the
-- entries of a directory in the order of `directory_iterator`, none of a path that does not exist.
-- The code keeps the index once it is built, for one entry file and one list of roots.
pub mod First
use tp2cc.Prelude.{
  Bool, Bytes, List, Option, [], codes, false, if◌then◌else◌, is_empty, none, same, some, ◌&&◌,
  ◌++◌, ◌||◌, ◌∷◌,
}
use tp2cc.Text.{lower}

-- What is read of a `directory_entry`.
pub record DirectoryEntry : Type 0 where
  pub is_regular_file : Bool
  pub extension : Bytes
  pub stem : Bytes
  pub path : Bytes

abbrev pub UnitIndex : Type 0
UnitIndex = List (Bytes × Bytes)

unfoldable pub find_path : Bytes → UnitIndex → Option Bytes
find_path key [] = none
find_path key ((k, p) ∷ index) = if same key k then some p else find_path key index

-- `unit_path_index_.try_emplace`
unfoldable pub try_emplace : Bytes → Bytes → UnitIndex → UnitIndex
try_emplace key path [] = (key, path) ∷ []
try_emplace key path ((k, p) ∷ index) =
    let rest = try_emplace key path index in if same key k then (k, p) ∷ index else (k, p) ∷ rest

unfoldable pub is_unit_file : DirectoryEntry → Bool
is_unit_file e =
    e.is_regular_file && (same e.extension (codes ".pas") || same e.extension (codes ".pp"))

unfoldable pub index_entries : List DirectoryEntry → UnitIndex → UnitIndex
index_entries [] index = index
index_entries (e ∷ es) index =
    index_entries es (if is_unit_file e then try_emplace (lower e.stem) e.path index else index)

unfoldable pub has_root : Bytes → List Bytes → Bool
has_root r [] = false
has_root r (x ∷ xs) = same r x || has_root r xs

-- The roots that are indexed, and the index.
pub record Indexed : Type 0 where
  pub indexed_roots : List Bytes
  pub unit_path_index : UnitIndex

module _ (listing : Bytes → List DirectoryEntry) where
  unfoldable pub index_unit_search_root : Bytes → Indexed → Indexed
  index_unit_search_root root s =
      if is_empty root || has_root root s.indexed_roots then s else record {
        indexed_roots = s.indexed_roots ++ (root ∷ []);
        unit_path_index = index_entries (listing root) s.unit_path_index;
      }

  unfoldable pub index_roots : List Bytes → Indexed → Indexed
  index_roots [] s = s
  index_roots (r ∷ rs) s = index_roots rs (index_unit_search_root r s)

  abbrev pub no_index : Indexed
  no_index = record { indexed_roots = []; unit_path_index = [] }

  unfoldable pub build_unit_path_index : Bytes → Bytes → List Bytes → UnitIndex
  build_unit_path_index current_dir entry_dir roots =
      (index_roots roots (
        index_unit_search_root entry_dir
          (index_unit_search_root current_dir no_index))).unit_path_index

  -- `none` stands for the empty path.
  unfoldable pub find_unit_path : Bytes → Bytes → List Bytes → Bytes → Option Bytes
  find_unit_path current_dir entry_dir roots name =
      find_path (lower name) (build_unit_path_index current_dir entry_dir roots)
