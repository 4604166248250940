-- ===== src/Refine/Reparent.antt =====
-- `vfs_setDirParent` of vfs.c and `redis_setFolderParent` of vfs_safe.cc, against the folder under its
-- new parent.
use redis_virtual_file_syste.Common.{
  ℕ, ◌≡◌, ◌≢◌, refl, sym, ap, ◌∙◌, fun_ext, List, [], ◌∷◌, ◌++◌, Bytes, codes, pos, some, none,
  Option, All, bytes_eq, bytes_eq_iff, Bool-cases, inl, inr, if_float, ◌==◌, arith,
}
use mathlib.Core.Path.{subst}
use redis_virtual_file_syste.Libc.Decimal.{decimal, format_lu, format_ld}
use redis_virtual_file_syste.Redis.{Redis, IsRedis, hash, set_field, set_fields, no_fields}
use redis_virtual_file_syste.Keys.{
  Slot, folder_info, folder_folders, folder_files, file_info, id_count, created, key_of,
}
use redis_virtual_file_syste.Vfs.Create.{folder_fields, vfs_set_dir_parent}
use redis_virtual_file_syste.Spec.{Fs, FolderInfo, set_parent}
use redis_virtual_file_syste.Spec.Tree.{IsTree, IsSubfolder}
use redis_virtual_file_syste.Refine.Represents.{Represents, slot_value, folder_value}
use redis_virtual_file_syste.Refine.Slots.{Holds-hset, Holds-eq, put}

abbrev fields_of : FolderInfo → Bytes → Option Bytes
fields_of info = set_fields (folder_fields (pos info.parent) info.name) no_fields

set_parent_field :
    (info : FolderInfo) (parent : ℕ) (field : Bytes)
    → set_field (codes "parent") (decimal parent) (fields_of info) field
      ≡ fields_of (record info { parent = parent }) field
unfolding format_lu
set_parent_field info parent field = elim (Bool-cases (bytes_eq (codes "parent") field)) [
  | inl same ↦
      subst
        (λ k.
          set_field (codes "parent") (decimal parent) (fields_of info) k
          ≡ fields_of (record info { parent = parent }) k)
        ((bytes_eq_iff (codes "parent") field).0 same) (unfold bytes_eq in refl)
  | inr differ ↦ rw differ refl
]

set_parent-slots :
    (fs : Fs) (id parent : ℕ) (info : FolderInfo)
    → fs.folder id ≡ some info
    → (s : Slot)
    → put
        (folder_info id)
        (hash (set_field (codes "parent") (decimal parent) (fields_of info)))
        (slot_value fs)
        s
      ≡ slot_value (set_parent fs id parent) s
set_parent-slots fs id parent info found (folder_info n) =
    ap (λ g. put (folder_info id) (hash g) (slot_value fs) (folder_info n))
      (fun_ext (set_parent_field info parent))
    ∙ rw found (if_float folder_value (id == n) (some (record info { parent = parent })) _)
set_parent-slots fs id parent info found (file_info n) = refl
set_parent-slots fs id parent info found (folder_folders n) = refl
set_parent-slots fs id parent info found (folder_files n) = refl
set_parent-slots fs id parent info found id_count = refl
set_parent-slots fs id parent info found created = refl

-- What holds of a list's elements holds of one in its middle.
All-middle :
    {A : Type 0} (P : A → Type 0) (before : List A) (a : A) (after : List A)
    → All P (before ++ (a ∷ after))
    → P a
All-middle P [] a after all = all.0
All-middle P (b ∷ before) a after all = All-middle P before a after all.1

abbrev parent_or : Option FolderInfo → ℕ
parent_or none = 0
parent_or (some info) = info.parent

moved :
    (fs : Fs) (id parent : ℕ) (info : FolderInfo)
    → fs.folder id ≡ some info
    → (set_parent fs id parent).folder id ≡ some (record info { parent = parent })
moved fs id parent info found = ground (arith, found)

module _ (r : Redis) (laws : IsRedis r) (d : r.Db) (fs : Fs) (h : Represents r laws d fs) where
  set_dir_parent-Represents :
      (id parent : ℕ) (info : FolderInfo)
      → fs.folder id ≡ some info
      → Represents r laws (vfs_set_dir_parent r d (pos id) (pos parent)) (set_parent fs id parent)
  unfolding vfs_set_dir_parent key_of format_lu format_ld
  set_dir_parent-Represents id parent info found =
      Holds-eq r laws _ _ (slot_value (set_parent fs id parent))
        (Holds-hset r laws d (slot_value fs) h (folder_info id) (codes "parent") (decimal parent)
          (fields_of info) (ap folder_value found))
        (set_parent-slots fs id parent info found)

  -- On a dataset that represents a file system, `vfs_setDirParent` of an existing folder that
  -- its parent's list has, to another parent, leaves a dataset that represents the file system
  -- with the folder under the new parent and all lists as they were, which is not well-formed:
  -- the old parent still lists the folder.
  pub vfs_set_dir_parent_stale :
      (id parent : ℕ) (info : FolderInfo) (before after : List ℕ)
      → fs.folder id ≡ some info
      → fs.folders info.parent ≡ before ++ (id ∷ after)
      → parent ≢ info.parent
      → Represents r laws (vfs_set_dir_parent r d (pos id) (pos parent)) (set_parent fs id parent)
        × ¬ IsTree (set_parent fs id parent)
  vfs_set_dir_parent_stale id parent info before after found listed differs = (
    set_dir_parent-Represents id parent info found,
    λ t.
        let sub =
          All-middle (IsSubfolder (set_parent fs id parent) info.parent) before id after
            (rw listed at (t.subfolders info.parent)) in
        differs
          (sym (ap parent_or (sym sub.found ∙ moved fs id parent info found)) ∙ sub.parent_dir),
  )
