-- ===== src/Refine/Represents.antt =====
-- When a dataset represents a file system.
use redis_virtual_file_syste.Common.{codes, map, pos, Option, none, some}
use redis_virtual_file_syste.Libc.Decimal.{decimal}
use redis_virtual_file_syste.Redis.{
  Redis, IsRedis, Value, absent, string, hash, set_fields, no_fields, list_value,
}
use redis_virtual_file_syste.Keys.{
  Slot, folder_info, folder_folders, folder_files, file_info, id_count, created,
}
use redis_virtual_file_syste.Vfs.Create.{folder_fields, file_fields}
use redis_virtual_file_syste.Spec.{Fs, FolderInfo, FileInfo}
use redis_virtual_file_syste.Refine.Slots.{Holds}

abbrev pub folder_value : Option FolderInfo → Value
folder_value none = absent
folder_value (some f) = hash (set_fields (folder_fields (pos f.parent) f.name) no_fields)

abbrev pub file_value : Option FileInfo → Value
file_value none = absent
file_value (some f) =
    hash (set_fields (file_fields f.name (pos f.size) f.google_id f.web_url f.api_url) no_fields)

-- What each key of the file system holds.
abbrev pub slot_value : Fs → Slot → Value
slot_value fs (folder_info n) = folder_value (fs.folder n)
slot_value fs (folder_folders n) = list_value (map decimal (fs.folders n))
slot_value fs (folder_files n) = list_value (map decimal (fs.files n))
slot_value fs (file_info n) = file_value (fs.file n)
slot_value fs id_count = string (decimal fs.next)
slot_value fs created = string (codes "yes")

-- Every key of the file system, that of each folder, file and list, of the id counter and of the
-- mark of an initialised database, holds what `fs` says.
abbrev pub Represents : (r : Redis) (laws : IsRedis r) → r.Db → Fs → Type 0
Represents r laws d fs = Holds r laws d (slot_value fs)
