-- ===== src/Spec/FreshFile.antt =====
-- New files of a fresh name, and what a search finds before and after.
use redis_virtual_file_syste.Common.{
  ℕ, ◌<◌, ◌≡◌, ◌≢◌, refl, ◌∙◌, List, [], ◌∷◌, Bytes, some, false, ◌==◌, All, arith, inl, inr,
  Bool-cases, bytes_eq, length,
}
use redis_virtual_file_syste.Vfs.Query.{max_filename_size}
use redis_virtual_file_syste.Spec.{Fs, FolderInfo, FileInfo, add_file}
use redis_virtual_file_syste.Spec.Tree.{IsTree, IsPlain, IsFileEntry, file-lt-next}
use redis_virtual_file_syste.Spec.Lookup.{
  first_folder, last_file, find_folder, find_file, find_object,
}
use redis_virtual_file_syste.Spec.Path.{IsNamed, PathOf, root, child}
use redis_virtual_file_syste.Spec.Command.{IsCwd}

-- A name for a new file: it fits the buffers, has no slash, and is no folder's name in the parent.
pub record IsFreshFile (fs : Fs) (parent : ℕ) (name : Bytes) : Type 0 where
  pub fits : length name < max_filename_size
  pub plain : All IsPlain name
  pub apart :
      (id : ℕ) (info : FolderInfo)
      → fs.folder id ≡ some info
      → id ≢ 0
      → info.parent ≡ parent
      → bytes_eq info.name name ≡ false

module _ (fs : Fs) (parent : ℕ) (new : FileInfo) (t : IsTree fs) where
  first_folder-add_file :
      (text : Bytes) (ids : List ℕ)
      → first_folder (add_file fs parent new) text ids ≡ first_folder fs text ids
  unfolding first_folder
  first_folder-add_file text [] = refl
  first_folder-add_file text (id ∷ ids) = ground (arith, first_folder-add_file text ids)

  last_file-add_file :
      (text : Bytes) (ids : List ℕ)
      → All (IsFileEntry fs) ids
      → last_file (add_file fs parent new) text ids ≡ last_file fs text ids
  unfolding last_file
  last_file-add_file text [] all = refl
  last_file-add_file text (id ∷ ids) (entry, all) = ground (
    arith,
    last_file-add_file text ids all,
    file-lt-next fs t id entry.info entry.found,
    entry.found,
  )

  last_file-listed :
      (dir : ℕ) (text : Bytes)
      → ((dir ≡ parent) → bytes_eq text new.name ≡ false)
      → last_file (add_file fs parent new) text ((add_file fs parent new).files dir)
        ≡ last_file fs text (fs.files dir)
  unfolding last_file
  last_file-listed dir text other = elim (Bool-cases (parent == dir)) [
    | inl same ↦ ground (arith, other, last_file-add_file text (fs.files dir) (t.entries dir))
    | inr differ ↦ rw differ (last_file-add_file text (fs.files dir) (t.entries dir))
  ]

  find_object-add_file :
      (dir : ℕ) (text : Bytes)
      → ((dir ≡ parent) → bytes_eq text new.name ≡ false)
      → find_object (add_file fs parent new) dir text ≡ find_object fs dir text
  unfolding find_object find_file find_folder
  find_object-add_file dir text other =
      rw (first_folder-add_file text (fs.folders dir), last_file-listed dir text other) refl

  pub add_file-IsNamed :
      IsFreshFile fs parent new.name → IsNamed fs → IsNamed (add_file fs parent new)
  add_file-IsNamed fresh named = record {
    finds = λ id info e positive.
        find_object-add_file info.parent info.name (fresh.apart id info e positive)
        ∙ named.finds id info e positive;
    plain = named.plain;
  }

  pub PathOf-add_file :
      {id : ℕ} {names : List Bytes} → PathOf fs id names → PathOf (add_file fs parent new) id names
  PathOf-add_file (root e) = root e
  PathOf-add_file {id} (child info found positive up e) =
      child info found positive (PathOf-add_file up) e

  pub IsCwd-add_file :
      (cwd : Bytes) (id : ℕ) → IsCwd fs cwd id → IsCwd (add_file fs parent new) cwd id
  IsCwd-add_file cwd id (names, p, e) = (names, PathOf-add_file p, e)
