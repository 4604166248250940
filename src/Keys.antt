-- ===== src/Keys.antt =====
-- The Redis keys that the format strings of vfs.c, vfs_safe.cc make (virtualFileSystem/).
-- An id is a `long`, printed by `%lu`; LREM prints it by `%ld`, which is the same for an id that
-- is not negative.
pub mod Injective
use redis_virtual_file_syste.Common.{ℕ, ◌++◌, Bytes, codes, ℤ, pos}
use redis_virtual_file_syste.Libc.Decimal.{format_lu, format_ld, decimal}

abbrev pub info_suffix : Bytes
info_suffix = codes "_info"

abbrev pub folders_suffix : Bytes
folders_suffix = codes "_folders"

abbrev pub files_suffix : Bytes
files_suffix = codes "_files"

-- `FOLDER_%lu_info`, of the number's print
abbrev pub folder_key : Bytes → Bytes → Bytes
folder_key number suffix = codes "FOLDER_" ++ (number ++ suffix)

abbrev pub file_key : Bytes → Bytes
file_key number = codes "FILE_" ++ (number ++ info_suffix)

abbrev pub current_id_count : Bytes
current_id_count = codes "current_id_count"

abbrev pub is_created : Bytes
is_created = codes "isVirtualFileSystemCreated"

-- What a key is for.
pub data Slot : Type 0 where
  folder_info : ℕ → Slot
  folder_folders : ℕ → Slot
  folder_files : ℕ → Slot
  file_info : ℕ → Slot
  id_count : Slot
  created : Slot

-- The key of each purpose.
unfoldable pub key_of : Slot → Bytes
key_of (folder_info n) = folder_key (decimal n) info_suffix
key_of (folder_folders n) = folder_key (decimal n) folders_suffix
key_of (folder_files n) = folder_key (decimal n) files_suffix
key_of (file_info n) = file_key (decimal n)
key_of id_count = current_id_count
key_of created = is_created
