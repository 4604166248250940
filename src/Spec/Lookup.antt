-- ===== src/Spec/Lookup.antt =====
-- Looking up names and paths in the abstract file system.
use redis_virtual_file_syste.Common.{
  ◌⊎◌, inl, inr, refl, ℕ, ◌≡◌, List, [], ◌∷◌, Bytes, codes, Option, none, some, Bool, true, false,
  ◌==◌, ◌&&◌, if◌then◌else◌, bytes_eq,
}
use redis_virtual_file_syste.Spec.{Fs}

abbrev pub is_prefix : Bytes → Bytes → Bool
is_prefix [] s = true
is_prefix (c ∷ p) [] = false
is_prefix (c ∷ p) (x ∷ s) = c == x && is_prefix p s

-- The folders' names are compared by prefix and the first match counts.
unfoldable pub first_folder : Fs → Bytes → List ℕ → Option ℕ
first_folder fs name [] = none
first_folder fs name (id ∷ ids) =
    let rest = first_folder fs name ids in
    elim (fs.folder id) [
      | none ↦ rest
      | some info ↦ if is_prefix name info.name then some id else rest
    ]

-- The files' names are compared whole and the last match counts.
unfoldable pub last_file : Fs → Bytes → List ℕ → Option ℕ
last_file fs name [] = none
last_file fs name (id ∷ ids) = elim (last_file fs name ids) [
  | some later ↦ some later
  | none ↦ elim (fs.file id) [
    | none ↦ none
    | some info ↦ if bytes_eq name info.name then some id else none
  ]
]

abbrev pub parent_of : Fs → ℕ → Option ℕ
parent_of fs dir = elim (fs.folder dir) [ none ↦ none | some info ↦ some info.parent ]

-- What a folder's name leads to, `.` and `..` included.
unfoldable pub find_folder : Fs → ℕ → Bytes → Option ℕ
find_folder fs dir name =
    if bytes_eq name (codes ".")
    then some dir
    else if bytes_eq name (codes "..")
    then parent_of fs dir
    else first_folder fs name (fs.folders dir)

unfoldable pub find_file : Fs → ℕ → Bytes → Option ℕ
find_file fs dir name = last_file fs name (fs.files dir)

pub data Object : Type 0 where
  no_object : Object
  file_object : ℕ → Object
  folder_object : ℕ → Object

abbrev pub folder_or_none : Option ℕ → Object
folder_or_none none = no_object
folder_or_none (some id) = folder_object id

abbrev pub file_or : Option ℕ → Object → Object
file_or none o = o
file_or (some id) o = file_object id

-- To split on what was found.
pub Object-cases :
    (o : Object)
    → (o ≡ no_object) ⊎ ((id : ℕ) × (o ≡ file_object id)) ⊎ ((id : ℕ) × (o ≡ folder_object id))
Object-cases no_object = inl refl
Object-cases (file_object id) = inr (inl (id, refl))
Object-cases (folder_object id) = inr (inr (id, refl))

-- A file hides a folder of its name.
unfoldable pub find_object : Fs → ℕ → Bytes → Object
find_object fs dir name = file_or (find_file fs dir name) (folder_or_none (find_folder fs dir name))

-- The names of a path that a slash ends, in order.
abbrev extend_first : ℕ → List Bytes → List Bytes
extend_first c [] = []
extend_first c (name ∷ names) = (c ∷ name) ∷ names

unfoldable pub dir_names : Bytes → List Bytes
dir_names [] = []
dir_names (c ∷ path) =
    let rest = dir_names path in if c == b'/' then [] ∷ rest else extend_first c rest

-- From a folder along names that must all be folders.
unfoldable pub walk : Fs → ℕ → List Bytes → Option ℕ
walk fs dir [] = some dir
walk fs dir (name ∷ names) = elim (find_object fs dir name) [
  | no_object ↦ none
  | file_object id ↦ none
  | folder_object id ↦ walk fs id names
]

-- The folder that a path leads to up to its last slash, from a current folder or from the root.
unfoldable pub resolve_dir : Fs → ℕ → Bytes → Option ℕ
resolve_dir fs cwd [] = some cwd
resolve_dir fs cwd (c ∷ path) =
    if c == b'/' then walk fs 0 (dir_names path) else walk fs cwd (dir_names (c ∷ path))
