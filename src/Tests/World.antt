-- ===== src/Tests/World.antt =====
-- A small file system on the server in memory: the folder `a` in the root, and in it the file `f`.
use redis_virtual_file_syste.Common.{
  ℕ, zero, suc, ◌≡◌, ◌⊎◌, inl, inr, bytes_eq, refl, [], ◌∷◌, codes, some, pos, arith, All,
}
use redis_virtual_file_syste.Redis.Memory.{memory, memory-IsRedis, nothing, Dataset}
use redis_virtual_file_syste.Vfs.Create.{vfs_mkdir, vfs_create_file, vfs_build_database}
use redis_virtual_file_syste.Spec.{Fs, FolderInfo, FileInfo, initial, add_folder, add_file}
use redis_virtual_file_syste.Spec.Tree.{IsPlain}
use redis_virtual_file_syste.Spec.Lookup.{
  find_object, folder_object, find_file, find_folder, first_folder, last_file,
}
use redis_virtual_file_syste.Spec.Path.{IsNamed, PathOf, root, child}
use redis_virtual_file_syste.Spec.Command.{IsCwd}
use redis_virtual_file_syste.Refine.Keeps.{
  Keeps, vfs_build_database-Keeps, vfs_mkdir-Keeps, vfs_create_file-Keeps,
}

abbrev pub empty_db : Dataset
empty_db = vfs_build_database memory nothing

pub empty-Keeps : Keeps memory memory-IsRedis empty_db initial
empty-Keeps = vfs_build_database-Keeps memory memory-IsRedis nothing

abbrev pub folder_db : Dataset
folder_db = (vfs_mkdir memory empty_db (pos 0) (codes "a")).1

abbrev pub folder_fs : Fs
folder_fs = add_folder initial 0 (codes "a")

pub folder-Keeps : Keeps memory memory-IsRedis folder_db folder_fs
folder-Keeps =
    (vfs_mkdir-Keeps memory memory-IsRedis empty_db initial empty-Keeps 0 (codes "a") (omega arith)
      (λ e. cc) (omega arith)).1

abbrev pub file_f : FileInfo
file_f = record {
  name = codes "f";
  size = 7;
  google_id = codes "g";
  web_url = codes "w";
  api_url = codes "u";
}

abbrev pub tree_db : Dataset
tree_db =
    (vfs_create_file memory folder_db (pos 1) file_f.name (pos 7) file_f.google_id file_f.web_url
      file_f.api_url).1

abbrev pub tree_fs : Fs
tree_fs = add_file folder_fs 1 file_f

pub tree-Keeps : Keeps memory memory-IsRedis tree_db tree_fs
tree-Keeps =
    (vfs_create_file-Keeps memory memory-IsRedis folder_db folder_fs folder-Keeps 1 file_f
      (omega arith) (omega arith) ((λ e. cc), tt)).1

abbrev pub info_a : FolderInfo
info_a = record { parent = 0; name = codes "a" }

abbrev pub info_root : FolderInfo
info_root = record { parent = 0; name = codes "root" }

pub folder-cases :
    (id : ℕ) (info : FolderInfo)
    → tree_fs.folder id ≡ some info
    → (id ≡ 0) × (info ≡ info_root) ⊎ (id ≡ 1) × (info ≡ info_a)
folder-cases zero info e = inl (refl, cc)
folder-cases (suc zero) info e = inr (refl, cc)
folder-cases (suc (suc n)) info e = ground arith

a-found : find_object tree_fs 0 (codes "a") ≡ folder_object 1
unfolding find_object find_file find_folder first_folder last_file bytes_eq
a-found = refl

root-IsPlain : All IsPlain (codes "root")
root-IsPlain =
    ((λ e. omega arith), ((λ e. omega arith), ((λ e. omega arith), ((λ e. omega arith), tt))))

a-IsPlain : All IsPlain (codes "a")
a-IsPlain = ((λ e. omega arith), tt)

pub tree-IsNamed : IsNamed tree_fs
tree-IsNamed = record {
  finds = λ id info e positive. elim (folder-cases id info e) [
    | inl (z, same) ↦ absurd (positive z)
    | inr (one, same) ↦ rw (same, one) a-found
  ];
  plain = λ id info e. elim (folder-cases id info e) [
    | inl (z, same) ↦ rw same root-IsPlain
    | inr (one, same) ↦ rw same a-IsPlain
  ];
}

pub root-IsCwd : IsCwd tree_fs (codes "/") 0
root-IsCwd = ([], root refl, refl)

pub a-PathOf : PathOf tree_fs 1 (codes "a" ∷ [])
a-PathOf = child info_a refl (λ e. cc) (root refl) refl

pub a-IsCwd : IsCwd tree_fs (codes "/a/") 1
a-IsCwd = (codes "a" ∷ [], a-PathOf, refl)
