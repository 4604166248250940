-- ===== src/Refine/Rename.antt =====
-- `vfs_setFileName` of vfs.c, against the file under its new name.
use redis_virtual_file_syste.Common.{
  ℕ, ◌<◌, ◌≡◌, refl, ap, ◌∙◌, fun_ext, Bytes, codes, pos, some, Option, take, length, All, bytes_eq,
  bytes_eq_iff, Bool-cases, inl, inr, if_float, ◌==◌,
}
use mathlib.Core.Path.{subst}
use redis_virtual_file_syste.Libc.Decimal.{format_lu}
use redis_virtual_file_syste.Redis.{Redis, IsRedis, hash, set_field, set_fields, no_fields}
use redis_virtual_file_syste.Keys.{
  Slot, folder_info, folder_folders, folder_files, file_info, id_count, created, key_of,
}
use redis_virtual_file_syste.Vfs.Query.{max_filename_size}
use redis_virtual_file_syste.Vfs.Create.{file_fields, quoted, vfs_set_file_name}
use redis_virtual_file_syste.Spec.{Fs, FileInfo, rename_file}
use redis_virtual_file_syste.Spec.Tree.{IsPlain}
use redis_virtual_file_syste.Spec.Rename.{rename_file-IsTree}
use redis_virtual_file_syste.Refine.Represents.{slot_value, file_value}
use redis_virtual_file_syste.Refine.Slots.{Holds-hset, Holds-eq, put}
use redis_virtual_file_syste.Refine.Keeps.{Keeps}

abbrev fields_of : FileInfo → Bytes → Option Bytes
fields_of info =
    set_fields (file_fields info.name (pos info.size) info.google_id info.web_url info.api_url)
      no_fields

-- The field `name` is the first, and no other field has its name.
set_name :
    (info : FileInfo) (name field : Bytes)
    → set_field (codes "name") (quoted name) (fields_of info) field
      ≡ fields_of (record info { name = name }) field
set_name info name field = elim (Bool-cases (bytes_eq (codes "name") field)) [
  | inl same ↦
      subst
        (λ k.
          set_field (codes "name") (quoted name) (fields_of info) k
          ≡ fields_of (record info { name = name }) k)
        ((bytes_eq_iff (codes "name") field).0 same) (unfold bytes_eq in refl)
  | inr differ ↦ rw differ refl
]

-- What the keys hold after the write is what the abstract file system says.
rename_file-slots :
    (fs : Fs) (id : ℕ) (name : Bytes) (info : FileInfo)
    → fs.file id ≡ some info
    → (s : Slot)
    → put
        (file_info id)
        (hash (set_field (codes "name") (quoted name) (fields_of info)))
        (slot_value fs)
        s
      ≡ slot_value (rename_file fs id name) s
rename_file-slots fs id name info found (file_info n) =
    ap (λ g. put (file_info id) (hash g) (slot_value fs) (file_info n))
      (fun_ext (set_name info name))
    ∙ rw found (if_float file_value (id == n) (some (record info { name = name })) _)
rename_file-slots fs id name info found (folder_info n) = refl
rename_file-slots fs id name info found (folder_folders n) = refl
rename_file-slots fs id name info found (folder_files n) = refl
rename_file-slots fs id name info found id_count = refl
rename_file-slots fs id name info found created = refl

module _ (r : Redis) (laws : IsRedis r) (d : r.Db) (fs : Fs) (k : Keeps r laws d fs) where
  -- On a dataset that represents a well-formed file system, `vfs_setFileName` of a file that
  -- exists, with a buffer whose first bytes, as many as the length says, fit the buffers and
  -- have no slash, leaves a dataset that represents the file system with the file under that
  -- name, which is well-formed again.
  pub vfs_set_file_name-Keeps :
      (id : ℕ) (info : FileInfo) (buffer : Bytes) (size : ℕ)
      → fs.file id ≡ some info
      → length (take size buffer) < max_filename_size
      → All IsPlain (take size buffer)
      → Keeps r laws
          (vfs_set_file_name r d (pos id) buffer size)
          (rename_file fs id (take size buffer))
  unfolding vfs_set_file_name key_of format_lu
  vfs_set_file_name-Keeps id info buffer size found fits plain =
      let h =
        Holds-hset r laws d (slot_value fs) k.0 (file_info id) (codes "name")
          (quoted (take size buffer)) (fields_of info) (ap file_value found) in
      (
        Holds-eq r laws _ _ (slot_value (rename_file fs id (take size buffer))) h
            (rename_file-slots fs id (take size buffer) info found),
        rename_file-IsTree fs id (take size buffer) info found fits plain k.1,
      )
