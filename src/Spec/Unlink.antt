-- ===== src/Spec/Unlink.antt =====
-- What is found once a file or a folder is off its list.
use redis_virtual_file_syste.Common.{
  ℕ, ◌≡◌, ◌≢◌, refl, sym, ap, ◌∙◌, List, [], ◌∷◌, Bytes, some, none, false, ◌==◌, ==_iff, All,
  arith, inl, inr, Bool-cases, Option-cases, bytes_eq, codes,
}
use redis_virtual_file_syste.Spec.{Fs, FolderInfo, without, unlink_file, unlink_folder}
use redis_virtual_file_syste.Spec.Tree.{IsTree, IsSubfolder}
use redis_virtual_file_syste.Spec.Lookup.{
  first_folder, last_file, find_folder, find_file, find_object, folder_object, Object-cases, walk,
  resolve_dir, dir_names,
}
use redis_virtual_file_syste.Spec.Path.{IsNamed, PathOf, root, child}
use redis_virtual_file_syste.Spec.Command.{IsCwd}

module _ (fs : Fs) (dir id : ℕ) where
  last_file-unlink_file :
      (name : Bytes) (ids : List ℕ)
      → last_file (unlink_file fs dir id) name ids ≡ last_file fs name ids
  unfolding last_file
  last_file-unlink_file name [] = refl
  last_file-unlink_file name (x ∷ ids) = ground (arith, last_file-unlink_file name ids)

  first_folder-unlink_file :
      (name : Bytes) (ids : List ℕ)
      → first_folder (unlink_file fs dir id) name ids ≡ first_folder fs name ids
  unfolding first_folder
  first_folder-unlink_file name [] = refl
  first_folder-unlink_file name (x ∷ ids) = ground (arith, first_folder-unlink_file name ids)

  -- What finds nothing goes on finding nothing.
  last_file-without-none :
      (name : Bytes) (ids : List ℕ)
      → last_file fs name ids ≡ none
      → last_file fs name (without id ids) ≡ none
  unfolding last_file
  last_file-without-none name [] e = refl
  last_file-without-none name (x ∷ ids) e = ground (arith, last_file-without-none name ids)

  -- The id is not found.
  last_file-without : (name : Bytes) (ids : List ℕ) → last_file fs name (without id ids) ≢ some id
  unfolding last_file
  last_file-without name [] e = cc
  last_file-without name (x ∷ ids) e = ground (arith, last_file-without name ids)

  first_folder-without :
      (name : Bytes) (ids : List ℕ) → first_folder fs name (without id ids) ≢ some id
  unfolding first_folder
  first_folder-without name [] e = cc
  first_folder-without name (x ∷ ids) e = ground (arith, first_folder-without name ids)

  find_file-unlink_file :
      (dir' : ℕ) (name : Bytes)
      → find_file fs dir' name ≡ none
      → find_file (unlink_file fs dir id) dir' name ≡ none
  unfolding find_file
  find_file-unlink_file dir' name e = elim (Bool-cases (dir == dir')) [
    | inl same ↦ rw same (
        last_file-unlink_file name (without id (fs.files dir))
        ∙ last_file-without-none name (fs.files dir)
            (ap (λ k. last_file fs name (fs.files k)) ((==_iff dir dir').0 same) ∙ e))
    | inr differ ↦ rw differ (last_file-unlink_file name (fs.files dir') ∙ e)
  ]

  pub find_file-unlinked : (name : Bytes) → find_file (unlink_file fs dir id) dir name ≢ some id
  unfolding find_file
  find_file-unlinked name e = last_file-without name (fs.files dir) (
      sym (last_file-unlink_file name (without id (fs.files dir)))
      ∙ (rw ((==_iff dir dir).1 refl) at e))

  find_folder-unlink_file :
      (dir' : ℕ) (name : Bytes)
      → find_folder (unlink_file fs dir id) dir' name ≡ find_folder fs dir' name
  unfolding find_folder
  find_folder-unlink_file dir' name = rw (first_folder-unlink_file name (fs.folders dir')) refl

  -- A folder that is found goes on being found.
  pub find_object-unlink_file :
      (dir' : ℕ) (name : Bytes) (k : ℕ)
      → find_object fs dir' name ≡ folder_object k
      → find_object (unlink_file fs dir id) dir' name ≡ folder_object k
  unfolding find_object
  find_object-unlink_file dir' name k e = elim (Option-cases (find_file fs dir' name)) [
    | inr (n, file) ↦ cc (rw file at e)
    | inl no_file ↦
        rw (find_file-unlink_file dir' name no_file, find_folder-unlink_file dir' name)
          (rw no_file at e)
  ]

  walk-unlink_file :
      (from to : ℕ) (names : List Bytes)
      → walk fs from names ≡ some to
      → walk (unlink_file fs dir id) from names ≡ some to
  unfolding walk
  walk-unlink_file from to [] e = e
  walk-unlink_file from to (name ∷ names) e = elim (Object-cases (find_object fs from name)) [
    | inl nothing ↦ cc (rw (nothing, walk) at e)
    | inr (inl (n, file)) ↦ cc (rw (file, walk) at e)
    | inr (inr (k, folder)) ↦
        rw (find_object-unlink_file from name k folder, walk)
          (walk-unlink_file k to names (rw (folder, walk) at e))
  ]

  pub resolve_dir-unlink_file :
      (cwd to : ℕ) (path : Bytes)
      → resolve_dir fs cwd path ≡ some to
      → resolve_dir (unlink_file fs dir id) cwd path ≡ some to
  unfolding resolve_dir
  resolve_dir-unlink_file cwd to [] e = e
  resolve_dir-unlink_file cwd to (c ∷ path) e = elim (Bool-cases (c == b'/')) [
    | inl slash ↦ rw slash (walk-unlink_file 0 to (dir_names path) (rw slash at e))
    | inr other ↦ rw other (walk-unlink_file cwd to (dir_names (c ∷ path)) (rw other at e))
  ]

  pub unlink_file-IsNamed : IsNamed fs → IsNamed (unlink_file fs dir id)
  unlink_file-IsNamed named = record {
    finds = λ n info e below.
        find_object-unlink_file info.parent info.name n (named.finds n info e below);
    plain = named.plain;
  }

  PathOf-unlink_file :
      {n : ℕ} {names : List Bytes} → PathOf fs n names → PathOf (unlink_file fs dir id) n names
  PathOf-unlink_file (root e) = root e
  PathOf-unlink_file (child info found positive up e) =
      child info found positive (PathOf-unlink_file up) e

  pub IsCwd-unlink_file :
      (cwd : Bytes) (n : ℕ) → IsCwd fs cwd n → IsCwd (unlink_file fs dir id) cwd n
  IsCwd-unlink_file cwd n (names, p, e) = (names, PathOf-unlink_file p, e)

module _ (fs : Fs) (t : IsTree fs) (id : ℕ) (info : FolderInfo)
    (found : fs.folder id ≡ some info) where
  -- A folder is found only in its parent's list.
  first_folder-parent :
      (dir : ℕ) (name : Bytes) (ids : List ℕ)
      → All (IsSubfolder fs dir) ids
      → first_folder fs name ids ≡ some id
      → info.parent ≡ dir
  unfolding first_folder
  first_folder-parent dir name [] all e = cc
  first_folder-parent dir name (x ∷ ids) (sub, all) e =
      ground (arith, first_folder-parent dir name ids all, sub.found, sub.parent_dir, found)

  first_folder-unlink_folder :
      (parent : ℕ) (name : Bytes) (ids : List ℕ)
      → first_folder (unlink_folder fs parent id) name ids ≡ first_folder fs name ids
  unfolding first_folder
  first_folder-unlink_folder parent name [] = refl
  first_folder-unlink_folder parent name (x ∷ ids) =
      ground (arith, first_folder-unlink_folder parent name ids)

  -- Off its parent's list, a folder is found by no name but `.` and `..`.
  pub find_folder-unlinked :
      (dir : ℕ) (name : Bytes)
      → bytes_eq name (codes ".") ≡ false
      → bytes_eq name (codes "..") ≡ false
      → find_folder (unlink_folder fs info.parent id) dir name ≢ some id
  unfolding find_folder
  find_folder-unlinked dir name no_dot no_dots e = elim (Bool-cases (info.parent == dir)) [
    | inl same ↦ first_folder-without fs dir id name (fs.folders info.parent) (
        sym (first_folder-unlink_folder info.parent name (without id (fs.folders info.parent)))
        ∙ (rw (no_dot, no_dots, same) at e))
    | inr differ ↦
        let e' = rw (no_dot, no_dots, differ) at e in
        let below =
          first_folder-parent dir name (fs.folders dir) (t.subfolders dir)
            (sym (first_folder-unlink_folder info.parent name (fs.folders dir)) ∙ e') in
        ground (arith, below)
  ]
