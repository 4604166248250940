-- ===== src/Spec/Fresh.antt =====
-- New folders of a fresh name, and what a search finds before and after.
use redis_virtual_file_syste.Common.{
  ℕ, ◌≡◌, ◌≢◌, ◌⊎◌, refl, sym, ◌∙◌, List, [], ◌∷◌, Bytes, codes, none, some, true, false, ◌==◌, All,
  arith, inl, inr, Bool-cases, ==_iff, bytes_eq,
}
use redis_virtual_file_syste.Spec.{Fs, FolderInfo, add_folder}
use redis_virtual_file_syste.Spec.Tree.{IsTree, IsPlain, IsSubfolder, existing-lt-next}
use redis_virtual_file_syste.Spec.Lookup.{
  is_prefix, first_folder, last_file, parent_of, find_folder, find_file, find_object, folder_object,
}
use redis_virtual_file_syste.Spec.Path.{IsNamed, PathOf, root, child}
use redis_virtual_file_syste.Spec.Command.{IsCwd}

-- A name for a new folder: it has no slash, is not `.` or `..`, is no file's name in the parent, and
-- starts with no name of a folder in the parent.
pub record IsFresh (fs : Fs) (parent : ℕ) (name : Bytes) : Type 0 where
  pub plain : All IsPlain name
  pub no_dot : bytes_eq name (codes ".") ≡ false
  pub no_dots : bytes_eq name (codes "..") ≡ false
  pub no_file : find_file fs parent name ≡ none
  pub apart :
      (id : ℕ) (info : FolderInfo)
      → fs.folder id ≡ some info
      → id ≢ 0
      → info.parent ≡ parent
      → is_prefix info.name name ≡ false

is_prefix_self : (name : Bytes) → is_prefix name name ≡ true
is_prefix_self [] = refl
is_prefix_self (c ∷ name) = ground (arith, is_prefix_self name)

module _ (fs : Fs) (parent : ℕ) (name : Bytes) (t : IsTree fs) where
  last_file-add_folder :
      (text : Bytes) (ids : List ℕ)
      → last_file (add_folder fs parent name) text ids ≡ last_file fs text ids
  unfolding last_file
  last_file-add_folder text [] = refl
  last_file-add_folder text (id ∷ ids) = rw (last_file-add_folder text ids) refl

  folder-add_folder :
      (id : ℕ) → fs.folder id ≢ none → (add_folder fs parent name).folder id ≡ fs.folder id
  folder-add_folder id exists = ground (arith, existing-lt-next fs t id exists)

  first_folder-add_folder :
      (dir : ℕ) (text : Bytes) (ids : List ℕ)
      → All (IsSubfolder fs dir) ids
      → first_folder (add_folder fs parent name) text ids ≡ first_folder fs text ids
  unfolding first_folder
  first_folder-add_folder dir text [] all = refl
  first_folder-add_folder dir text (id ∷ ids) (sub, all) =
      ground (arith, first_folder-add_folder dir text ids all, existing-lt-next fs t id, sub.found)

  parent_of-add_folder :
      (dir : ℕ)
      → fs.folder dir ≢ none
      → parent_of (add_folder fs parent name) dir ≡ parent_of fs dir
  parent_of-add_folder dir exists = ground (arith, existing-lt-next fs t dir exists)

  module _ (fresh : IsFresh fs parent name) where
    -- The search of a folder's name that is no prefix of the new name, or in another folder.
    first_folder-listed :
        (dir : ℕ) (text : Bytes)
        → ((dir ≡ parent) → is_prefix text name ≡ false)
        → first_folder (add_folder fs parent name) text ((add_folder fs parent name).folders dir)
          ≡ first_folder fs text (fs.folders dir)
    unfolding first_folder
    first_folder-listed dir text other = elim (Bool-cases (parent == dir)) [
      | inl same ↦
          ground
            (arith, other, first_folder-add_folder dir text (fs.folders dir) (t.subfolders dir))
      | inr differ ↦
          rw differ (first_folder-add_folder dir text (fs.folders dir) (t.subfolders dir))
    ]

    pub find_object-add_folder :
        (dir : ℕ) (text : Bytes)
        → fs.folder dir ≢ none
        → ((dir ≡ parent) → is_prefix text name ≡ false)
        → find_object (add_folder fs parent name) dir text ≡ find_object fs dir text
    unfolding find_object find_file find_folder
    find_object-add_folder dir text exists other =
        rw
          (
            last_file-add_folder text (fs.files dir),
            first_folder-listed dir text other,
            parent_of-add_folder dir exists,
          )
          refl

    pub find_object-new :
        find_object (add_folder fs parent name) parent name ≡ folder_object fs.next
    unfolding find_object find_file find_folder first_folder
    find_object-new =
        rw (last_file-add_folder name (fs.files parent), fresh.no_file, fresh.no_dot, fresh.no_dots)
          (ground (arith, is_prefix_self name))

    new-or-old :
        (id : ℕ) (info : FolderInfo)
        → (add_folder fs parent name).folder id ≡ some info
        → (id ≡ fs.next) × (info ≡ record { parent = parent; name = name })
          ⊎ (fs.folder id ≡ some info)
    new-or-old id info e = elim (Bool-cases (fs.next == id)) [
      | inl same ↦ inl (sym ((==_iff fs.next id).0 same), cc (rw same at e))
      | inr differ ↦ inr (rw differ at e)
    ]

    pub add_folder-IsNamed : IsNamed fs → IsNamed (add_folder fs parent name)
    add_folder-IsNamed named = record {
      finds = λ id info e positive. elim (new-or-old id info e) [
        | inl (here, new) ↦ rw (new, here) find_object-new
        | inr old ↦
            find_object-add_folder info.parent info.name (t.parent_exists id info old)
              (fresh.apart id info old positive)
            ∙ named.finds id info old positive
      ];
      plain = λ id info e. elim (new-or-old id info e) [
        | inl (here, new) ↦ rw new fresh.plain
        | inr old ↦ named.plain id info old
      ];
    }

  -- The folders on the way keep their names.
  pub PathOf-add_folder :
      {id : ℕ} {names : List Bytes}
      → PathOf fs id names
      → PathOf (add_folder fs parent name) id names
  PathOf-add_folder (root e) = root e
  PathOf-add_folder {id} (child info found positive up e) =
      child info (folder-add_folder id (λ gone. cc (found, gone)) ∙ found) positive
        (PathOf-add_folder up) e

  pub IsCwd-add_folder :
      (cwd : Bytes) (id : ℕ) → IsCwd fs cwd id → IsCwd (add_folder fs parent name) cwd id
  IsCwd-add_folder cwd id (names, p, e) = (names, PathOf-add_folder p, e)
