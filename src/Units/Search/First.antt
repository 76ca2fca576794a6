-- ===== src/Units/Search/First.antt =====
-- The index gives the first file of a name in the order of the search.
use tp2cc.Prelude.{
  Bool, Bool-cases, Bytes, List, Option, [], ap, arith, false, if_ind, if◌then◌else◌, inl, inr,
  is_empty, none, refl, same, same_iff, some, sym, true, ◌&&◌, ◌++◌, ◌||◌, ◌∙◌, ◌∷◌, ◌≡◌,
}
use tp2cc.Text.{lower}
use tp2cc.Units.Search.{
  DirectoryEntry, Indexed, UnitIndex, build_unit_path_index, find_path, find_unit_path, has_root,
  index_entries, index_roots, index_unit_search_root, is_unit_file, no_index, try_emplace,
}

-- The first of two answers
abbrev pub or_else : Option Bytes → Option Bytes → Option Bytes
or_else none b = b
or_else (some a) b = some a

-- The first unit file in a directory whose name is `key`, in any mixture of cases.
abbrev pub first_file : Bytes → List DirectoryEntry → Option Bytes
first_file key [] = none
first_file key (e ∷ es) =
    if is_unit_file e && same key (lower e.stem) then some e.path else first_file key es

or_else-none : (a : Option Bytes) → or_else a none ≡ a
or_else-none none = refl
or_else-none (some a) = refl

or_else-if :
    (b : Bool) (p : Bytes) (r : Option Bytes)
    → or_else (if b then some p else none) r ≡ (if b then some p else r)
or_else-if true p r = refl
or_else-if false p r = refl

left_false : (a b : Bool) → (a || b) ≡ false → a ≡ false
left_false true b h = cc
left_false false b h = refl

or_else_assoc : (a b c : Option Bytes) → or_else (or_else a b) c ≡ or_else a (or_else b c)
or_else_assoc none b c = refl
or_else_assoc (some a) b c = refl

find_path-try_emplace :
    (k key path : Bytes) (index : UnitIndex)
    → find_path k (try_emplace key path index)
      ≡ or_else (find_path k index) (if same k key then some path else none)
unfolding find_path try_emplace
find_path-try_emplace k key path [] = refl
find_path-try_emplace k key path ((j, p) ∷ index) =
    ground
      (arith, same_iff key j, same_iff k j, same_iff k key, find_path-try_emplace k key path index)

find_path-index_entries :
    (k : Bytes) (es : List DirectoryEntry) (index : UnitIndex)
    → find_path k (index_entries es index) ≡ or_else (find_path k index) (first_file k es)
unfolding index_entries
find_path-index_entries k [] index = sym (or_else-none (find_path k index))
find_path-index_entries k (e ∷ es) index =
    if_ind
      (λ (t : UnitIndex).
        find_path k (index_entries es t) ≡ or_else (find_path k index) (first_file k (e ∷ es)))
      (is_unit_file e)
      (λ h.
        rw
          (
            h,
            find_path-index_entries k es (try_emplace (lower e.stem) e.path index),
            find_path-try_emplace k (lower e.stem) e.path index,
            or_else_assoc (find_path k index) (if same k (lower e.stem) then some e.path else none)
                (first_file k es),
          )
          (ap (or_else (find_path k index)) (or_else-if (same k (lower e.stem)) e.path _)))
      (λ h. rw (h, find_path-index_entries k es index) refl)

module _ (listing : Bytes → List DirectoryEntry) where
  -- The answer of one directory: none in the empty path.
  abbrev pub answer_in : Bytes → Bytes → Option Bytes
  answer_in key root = if is_empty root then none else first_file key (listing root)

  -- The answers of the directories, the first that there is.
  abbrev pub search : Bytes → List Bytes → Option Bytes
  search key [] = none
  search key (r ∷ rs) = or_else (answer_in key r) (search key rs)

  search-append :
      (k r : Bytes) (xs : List Bytes)
      → search k (xs ++ (r ∷ [])) ≡ or_else (search k xs) (answer_in k r)
  search-append k r [] = or_else-none (answer_in k r)
  search-append k r (x ∷ xs) =
      rw (search-append k r xs) (sym (or_else_assoc (answer_in k x) (search k xs) (answer_in k r)))

  -- A directory that was searched before answers nothing new.
  search-covered :
      (k r : Bytes) (xs : List Bytes)
      → has_root r xs ≡ true
      → or_else (search k xs) (answer_in k r) ≡ search k xs
  unfolding has_root
  search-covered k r [] h = cc
  search-covered k r (x ∷ xs) h = elim (Bool-cases (same r x)) [
    | inl e ↦ rw ((same_iff r x).0 e) (absorb (answer_in k x) (search k xs))
    | inr e ↦
        or_else_assoc (answer_in k x) (search k xs) (answer_in k r)
        ∙ ap (or_else (answer_in k x)) (search-covered k r xs (rw e at h))
  ]
    where
      absorb : (a b : Option Bytes) → or_else (or_else a b) a ≡ or_else a b
      absorb none b = or_else-none b
      absorb (some a) b = refl

  abbrev Covers : Indexed → Type 0
  Covers s = (k : Bytes) → find_path k s.unit_path_index ≡ search k s.indexed_roots

  step-Covers :
      (r : Bytes) (s : Indexed)
      → Covers s
      → ((k : Bytes)
          → find_path k (index_unit_search_root listing r s).unit_path_index
            ≡ or_else (find_path k s.unit_path_index) (answer_in k r))
        × Covers (index_unit_search_root listing r s)
  unfolding index_unit_search_root
  step-Covers r s h =
      if_ind
        (λ (t : Indexed).
          ((k : Bytes)
            → find_path k t.unit_path_index
              ≡ or_else (find_path k s.unit_path_index) (answer_in k r))
          × Covers t)
        (is_empty r || has_root r s.indexed_roots) (λ b. (λ k. sym (known k b (h k)), h))
        (λ b.
          let indexed = λ (k : Bytes).
            find_path-index_entries k (listing r) s.unit_path_index ∙ ap (or_else _) (full k b) in
          (
            indexed,
            λ k.
                indexed k
                ∙ ap (λ (a : Option Bytes). or_else a (answer_in k r)) (h k)
                ∙ sym (search-append k r s.indexed_roots),
          ))
    where
      known :
          (k : Bytes)
          → (is_empty r || has_root r s.indexed_roots) ≡ true
          → find_path k s.unit_path_index ≡ search k s.indexed_roots
          → or_else (find_path k s.unit_path_index) (answer_in k r) ≡ find_path k s.unit_path_index
      known k b c = elim (Bool-cases (is_empty r)) [
        | inl e ↦ rw e (or_else-none _)
        | inr e ↦ rw c (search-covered k r s.indexed_roots (rw e at b))
      ]

      full :
          (k : Bytes)
          → (is_empty r || has_root r s.indexed_roots) ≡ false
          → first_file k (listing r) ≡ answer_in k r
      full k b = rw (left_false (is_empty r) (has_root r s.indexed_roots) b) refl

  roots-Covers :
      (rs : List Bytes) (s : Indexed)
      → Covers s
      → (k : Bytes)
      → find_path k (index_roots listing rs s).unit_path_index
        ≡ or_else (find_path k s.unit_path_index) (search k rs)
  unfolding index_roots
  roots-Covers [] s h k = sym (or_else-none _)
  roots-Covers (r ∷ rs) s h k =
      let (e, c) = step-Covers r s h in
      rw (roots-Covers rs (index_unit_search_root listing r s) c k, e k)
        (or_else_assoc (find_path k s.unit_path_index) (answer_in k r) (search k rs))

-- The file of a unit is the first unit file of its name, in any mixture of cases, in the current
-- directory, the entry's directory and the explicit roots, in this order.
pub find_unit_path-search :
    (listing : Bytes → List DirectoryEntry) (current_dir entry_dir : Bytes) (roots : List Bytes)
    (name : Bytes)
    → find_unit_path listing current_dir entry_dir roots name
      ≡ search listing (lower name) (current_dir ∷ entry_dir ∷ roots)
unfolding find_unit_path build_unit_path_index find_path index_roots
find_unit_path-search listing current_dir entry_dir roots name =
    roots-Covers listing (current_dir ∷ entry_dir ∷ roots) (no_index listing) (λ k. refl)
      (lower name)
