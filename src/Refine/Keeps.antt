-- ===== src/Refine/Keeps.antt =====
-- What the writes of vfs.c keep: the dataset goes on representing a well-formed file system.
use redis_virtual_file_syste.Common.{ℕ, ◌<◌, ◌≡◌, ◌≢◌, none, Bytes, pos, All, length}
use redis_virtual_file_syste.Libc.Decimal.{long_max}
use redis_virtual_file_syste.Redis.{Redis, IsRedis}
use redis_virtual_file_syste.Vfs.Query.{max_filename_size}
use redis_virtual_file_syste.Vfs.Create.{
  vfs_mkdir, vfs_create_file, vfs_build_database, remove_id_from_folder_list,
  remove_id_from_file_list,
}
use redis_virtual_file_syste.Spec.{
  Fs, FileInfo, initial, add_folder, add_file, unlink_folder, unlink_file,
}
use redis_virtual_file_syste.Spec.Tree.{
  IsTree, IsPlain, initial-IsTree, add_folder-IsTree, add_file-IsTree, unlink_folder-IsTree,
  unlink_file-IsTree,
}
use redis_virtual_file_syste.Refine.Represents.{Represents}
use redis_virtual_file_syste.Refine.Writes.{
  vfs_mkdir-add_folder, vfs_create_file-add_file, vfs_build_database-initial,
  remove_id_from_folder_list-unlink_folder, remove_id_from_file_list-unlink_file,
}

-- The dataset represents `fs`, and `fs` is well-formed.
abbrev pub Keeps : (r : Redis) (laws : IsRedis r) → r.Db → Fs → Type 0
Keeps r laws d fs = Represents r laws d fs × IsTree fs

pub vfs_build_database-Keeps :
    (r : Redis) (laws : IsRedis r) (d : r.Db) → Keeps r laws (vfs_build_database r d) initial
vfs_build_database-Keeps r laws d = (vfs_build_database-initial r laws d, initial-IsTree)

module _ (r : Redis) (laws : IsRedis r) (d : r.Db) (fs : Fs) (k : Keeps r laws d fs) where
  pub vfs_mkdir-Keeps :
      (parent : ℕ) (name : Bytes)
      → fs.next < long_max
      → fs.folder parent ≢ none
      → length name < max_filename_size
      → ((vfs_mkdir r d (pos parent) name).0 ≡ pos fs.next)
        × Keeps r laws (vfs_mkdir r d (pos parent) name).1 (add_folder fs parent name)
  vfs_mkdir-Keeps parent name room exists fits =
      let (e, h) = vfs_mkdir-add_folder r laws d fs k.0 k.1 room parent name in
      (e, (h, add_folder-IsTree fs parent name k.1 exists room fits))

  pub vfs_create_file-Keeps :
      (parent : ℕ) (info : FileInfo)
      → fs.next < long_max
      → length info.name < max_filename_size
      → All IsPlain info.name
      → let made =
          vfs_create_file r d
            (pos parent)
            info.name
            (pos info.size)
            info.google_id
            info.web_url
            info.api_url in
        (made.0 ≡ pos fs.next) × Keeps r laws made.1 (add_file fs parent info)
  vfs_create_file-Keeps parent info room fits plain =
      let (e, h) = vfs_create_file-add_file r laws d fs k.0 k.1 room parent info in
      (e, (h, add_file-IsTree fs parent info k.1 room fits plain))

  pub remove_id_from_folder_list-Keeps :
      (dir id : ℕ)
      → Keeps r laws (remove_id_from_folder_list r d (pos dir) (pos id)) (unlink_folder fs dir id)
  remove_id_from_folder_list-Keeps dir id = (
    remove_id_from_folder_list-unlink_folder r laws d fs k.0 dir id,
    unlink_folder-IsTree fs dir id k.1,
  )

  pub remove_id_from_file_list-Keeps :
      (dir id : ℕ)
      → Keeps r laws (remove_id_from_file_list r d (pos dir) (pos id)) (unlink_file fs dir id)
  remove_id_from_file_list-Keeps dir id = (
    remove_id_from_file_list-unlink_file r laws d fs k.0 dir id,
    unlink_file-IsTree fs dir id k.1,
  )
