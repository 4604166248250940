-- ===== src/Refine/WriteSlots.antt =====
-- What the keys of a file system hold behind each write of vfs.c.
use redis_virtual_file_syste.Common.{
  ℕ, ◌+◌, ◌≡◌, refl, ap, List, [], ◌∷◌, codes, map, none, some, ◌==◌, ==_iff, arith, bytes_eq_iff,
  Bool-cases, inl, inr, if_float,
}
use redis_virtual_file_syste.Libc.Decimal.{decimal}
use redis_virtual_file_syste.Libc.RoundTrip.{decimal-injective}
use redis_virtual_file_syste.Redis.{absent, string, list, list_value, remove_all}
use redis_virtual_file_syste.Keys.{
  Slot, folder_info, folder_folders, folder_files, file_info, id_count, created,
}
use redis_virtual_file_syste.Spec.{
  Fs, FolderInfo, FileInfo, initial, take_id, enter_folder, put_folder, add_file, without,
  unlink_folder, unlink_file,
}
use redis_virtual_file_syste.Refine.Slots.{put}
use redis_virtual_file_syste.Refine.Represents.{slot_value, folder_value, file_value}

pub remove_all-decimal :
    (id : ℕ) (ids : List ℕ)
    → remove_all (decimal id) (map decimal ids) ≡ map decimal (without id ids)
unfolding remove_all
remove_all-decimal id [] = refl
remove_all-decimal id (x ∷ ids) = elim (Bool-cases (id == x)) [
  | inl same ↦
      rw (same, (bytes_eq_iff (decimal id) (decimal x)).1 (ap decimal ((==_iff id x).0 same)))
        (remove_all-decimal id ids)
  | inr differ ↦ ground (
    arith,
    remove_all-decimal id ids,
    bytes_eq_iff (decimal id) (decimal x),
    decimal-injective id x,
  )
]

-- What the keys hold after the writes is what the abstract operation says.
pub take_id-slots :
    (fs : Fs) (s : Slot)
    → put id_count (string (decimal (fs.next + 1))) (slot_value fs) s ≡ slot_value (take_id fs) s
take_id-slots fs (folder_info n) = refl
take_id-slots fs (folder_folders n) = refl
take_id-slots fs (folder_files n) = refl
take_id-slots fs (file_info n) = refl
take_id-slots fs id_count = refl
take_id-slots fs created = refl

pub enter_folder-slots :
    (fs : Fs) (parent id : ℕ) (s : Slot)
    → put (folder_folders parent) (list (map decimal (id ∷ fs.folders parent))) (slot_value fs) s
      ≡ slot_value (enter_folder fs parent id) s
enter_folder-slots fs parent id (folder_folders n) =
    if_float (λ ids. list_value (map decimal ids)) (parent == n) (id ∷ fs.folders parent) _
enter_folder-slots fs parent id (folder_info n) = refl
enter_folder-slots fs parent id (folder_files n) = refl
enter_folder-slots fs parent id (file_info n) = refl
enter_folder-slots fs parent id id_count = refl
enter_folder-slots fs parent id created = refl

pub put_folder-slots :
    (fs : Fs) (id : ℕ) (info : FolderInfo) (s : Slot)
    → put (folder_info id) (folder_value (some info)) (slot_value fs) s
      ≡ slot_value (put_folder fs id info) s
put_folder-slots fs id info (folder_info n) = if_float folder_value (id == n) _ _
put_folder-slots fs id info (folder_folders n) = refl
put_folder-slots fs id info (folder_files n) = refl
put_folder-slots fs id info (file_info n) = refl
put_folder-slots fs id info id_count = refl
put_folder-slots fs id info created = refl

pub add_file-slots :
    (fs : Fs) (parent : ℕ) (info : FileInfo) (s : Slot)
    → put
        (file_info fs.next)
        (file_value (some info))
        (put
          (folder_files parent)
          (list (map decimal (fs.next ∷ fs.files parent)))
          (put id_count (string (decimal (fs.next + 1))) (slot_value fs)))
        s
      ≡ slot_value (add_file fs parent info) s
add_file-slots fs parent info (file_info n) = if_float file_value (fs.next == n) _ _
add_file-slots fs parent info (folder_files n) =
    if_float (λ ids. list_value (map decimal ids)) (parent == n) (fs.next ∷ fs.files parent) _
add_file-slots fs parent info (folder_info n) = refl
add_file-slots fs parent info (folder_folders n) = refl
add_file-slots fs parent info id_count = refl
add_file-slots fs parent info created = refl

pub unlink_folder-slots :
    (fs : Fs) (dir id : ℕ) (s : Slot)
    → put
        (folder_folders dir)
        (list_value (map decimal (without id (fs.folders dir))))
        (slot_value fs)
        s
      ≡ slot_value (unlink_folder fs dir id) s
unlink_folder-slots fs dir id (folder_folders n) =
    if_float (λ ids. list_value (map decimal ids)) (dir == n) (without id (fs.folders dir)) _
unlink_folder-slots fs dir id (folder_files n) = refl
unlink_folder-slots fs dir id (folder_info n) = refl
unlink_folder-slots fs dir id (file_info n) = refl
unlink_folder-slots fs dir id id_count = refl
unlink_folder-slots fs dir id created = refl

pub unlink_file-slots :
    (fs : Fs) (dir id : ℕ) (s : Slot)
    → put
        (folder_files dir)
        (list_value (map decimal (without id (fs.files dir))))
        (slot_value fs)
        s
      ≡ slot_value (unlink_file fs dir id) s
unlink_file-slots fs dir id (folder_files n) =
    if_float (λ ids. list_value (map decimal ids)) (dir == n) (without id (fs.files dir)) _
unlink_file-slots fs dir id (folder_folders n) = refl
unlink_file-slots fs dir id (folder_info n) = refl
unlink_file-slots fs dir id (file_info n) = refl
unlink_file-slots fs dir id id_count = refl
unlink_file-slots fs dir id created = refl

pub initial-slots :
    (s : Slot)
    → put created
        (string (codes "yes"))
        (put id_count (string (codes "1")) (
          put
            (folder_info 0)
            (folder_value (some (record { parent = 0; name = codes "root" })))
            (λ _. absent)))
        s
      ≡ slot_value initial s
unfolding decimal
initial-slots (folder_info n) = if_float folder_value (0 == n) (some _) none
initial-slots (folder_folders n) = refl
initial-slots (folder_files n) = refl
initial-slots (file_info n) = refl
initial-slots id_count = refl
initial-slots created = refl
