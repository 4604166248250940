-- ===== src/Refine/Writes.antt =====
-- The operations of vfs.c that write, against those of the abstract file system.
use redis_virtual_file_syste.Common.{
  ℕ, ◌+◌, ◌<◌, ◌≡◌, ◌≢◌, ◌∙◌, refl, sym, ap, ◌∷◌, Bytes, codes, map, pos, none, arith,
}
use redis_virtual_file_syste.Libc.Decimal.{long_max, decimal, format_lu, format_ld}
use redis_virtual_file_syste.Libc.RoundTrip.{strtol-decimal}
use redis_virtual_file_syste.Redis.{Redis, IsRedis, absent, string, list}
use redis_virtual_file_syste.Keys.{
  folder_info, folder_folders, folder_files, file_info, id_count, created, key_of,
}
use redis_virtual_file_syste.Vfs.Create.{
  folder_fields, file_fields, get_new_id, write_folder, vfs_mkdir, write_file,
  add_file_to_file_list, vfs_create_file, remove_id_from_file_list, remove_id_from_folder_list,
  vfs_build_database, build_database_if_required, is_virtual_file_system_created,
}
use redis_virtual_file_syste.Spec.{
  Fs, FolderInfo, FileInfo, initial, take_id, enter_folder, put_folder, add_folder, add_file,
  unlink_folder, unlink_file,
}
use redis_virtual_file_syste.Spec.Tree.{IsTree}
use redis_virtual_file_syste.Refine.Slots.{
  Holds, put, Holds-set, Holds-incr, Holds-hmset, Holds-lpush, Holds-lrem, Holds-eq,
}
use redis_virtual_file_syste.Refine.WriteSlots.{
  remove_all-decimal, take_id-slots, enter_folder-slots, put_folder-slots, add_file-slots,
  unlink_folder-slots, unlink_file-slots, initial-slots,
}
use redis_virtual_file_syste.Refine.Represents.{slot_value, folder_value, file_value, Represents}

string-ne-absent : {s : Bytes} → string s ≢ absent
string-ne-absent e = cc

module _ (r : Redis) (laws : IsRedis r) (d : r.Db) (fs : Fs) (h : Represents r laws d fs) where
  -- A new id is the counter.
  pub get_new_id_lem :
      fs.next < long_max → get_new_id r d ≡ (pos fs.next, r.incr d (key_of id_count))
  unfolding get_new_id key_of
  get_new_id_lem room =
      rw (laws.get-string d (key_of id_count) (decimal fs.next) (h id_count), get_new_id)
        (rw (strtol-decimal fs.next (omega arith)))

  -- The counter goes up.
  pub incr-take_id :
      fs.next < long_max → Represents r laws (r.incr d (key_of id_count)) (take_id fs)
  incr-take_id room =
      Holds-eq r laws _ _ (slot_value (take_id fs))
        (Holds-incr r laws d (slot_value fs) h id_count fs.next room refl) (take_id-slots fs)

  pub lpush-enter_folder :
      (parent id : ℕ)
      → Represents r laws
          (r.lpush d (key_of (folder_folders parent)) (decimal id))
          (enter_folder fs parent id)
  lpush-enter_folder parent id =
      Holds-eq r laws _ _ (slot_value (enter_folder fs parent id))
        (Holds-lpush r laws d (slot_value fs) h (folder_folders parent) (decimal id)
          (map decimal (fs.folders parent)) refl)
        (enter_folder-slots fs parent id)

  -- `__mkdir` under an id that no folder has.
  pub write_folder-put_folder :
      (id : ℕ) (info : FolderInfo)
      → fs.folder id ≡ none
      → Represents r laws
          (write_folder r d (pos info.parent) (pos id) info.name)
          (put_folder fs id info)
  unfolding write_folder key_of format_lu
  write_folder-put_folder id info unused =
      Holds-eq r laws _ _ (slot_value (put_folder fs id info))
        (Holds-hmset r laws d (slot_value fs) h (folder_info id)
          (folder_fields (pos info.parent) info.name) (ap folder_value unused))
        (put_folder-slots fs id info)

module _ (r : Redis) (laws : IsRedis r) (d : r.Db) (fs : Fs) (h : Represents r laws d fs) where
  module _ (t : IsTree fs) (room : fs.next < long_max) (parent : ℕ) where
    -- `vfs_mkdir` returns the next id and adds the folder, whatever the parent and the name.
    pub vfs_mkdir-add_folder :
        (name : Bytes)
        → ((vfs_mkdir r d (pos parent) name).0 ≡ pos fs.next)
          × Represents r laws (vfs_mkdir r d (pos parent) name).1 (add_folder fs parent name)
    unfolding vfs_mkdir key_of format_lu
    vfs_mkdir-add_folder name =
        let h₁ = incr-take_id r laws d fs h room in
        let h₂ = lpush-enter_folder r laws _ (take_id fs) h₁ parent fs.next in
        rw (get_new_id_lem r laws d fs h room, vfs_mkdir)
          (
            refl,
            write_folder-put_folder r laws _ (enter_folder (take_id fs) parent fs.next) h₂ fs.next
                (record { parent = parent; name = name }) (t.fresh_folder fs.next (omega arith)),
          )

    -- `vfs_createFile` returns the next id and adds the file.
    pub vfs_create_file-add_file :
        (info : FileInfo)
        → let made =
            vfs_create_file r d
              (pos parent)
              info.name
              (pos info.size)
              info.google_id
              info.web_url
              info.api_url in
          (made.0 ≡ pos fs.next) × Represents r laws made.1 (add_file fs parent info)
    unfolding vfs_create_file add_file_to_file_list write_file key_of format_lu
    vfs_create_file-add_file info =
        let d₁ = r.incr d (key_of id_count) in
        let h₁ = Holds-incr r laws d (slot_value fs) h id_count fs.next room refl in
        let v₁ = put id_count (string (decimal (fs.next + 1))) (slot_value fs) in
        let d₂ = r.lpush d₁ (key_of (folder_files parent)) (decimal fs.next) in
        let h₂ =
          Holds-lpush r laws d₁ v₁ h₁ (folder_files parent) (decimal fs.next)
            (map decimal (fs.files parent)) refl in
        let v₂ = put (folder_files parent) (list (map decimal (fs.next ∷ fs.files parent))) v₁ in
        let h₃ =
          Holds-hmset r laws d₂ v₂ h₂ (file_info fs.next)
            (file_fields info.name (pos info.size) info.google_id info.web_url info.api_url)
            (ap file_value (t.fresh_file fs.next (omega arith))) in
        rw (get_new_id_lem r laws d fs h room, vfs_create_file)
          (
            refl,
            Holds-eq r laws _ _ (slot_value (add_file fs parent info)) h₃
                (add_file-slots fs parent info),
          )

  -- `__removeIdFromFolderList` takes every copy of the id off the list.
  pub remove_id_from_folder_list-unlink_folder :
      (dir id : ℕ)
      → Represents r laws
          (remove_id_from_folder_list r d (pos dir) (pos id))
          (unlink_folder fs dir id)
  unfolding remove_id_from_folder_list key_of format_ld
  remove_id_from_folder_list-unlink_folder dir id =
      let h₁ =
        Holds-lrem r laws d (slot_value fs) h (folder_folders dir) (decimal id)
          (map decimal (fs.folders dir)) refl in
      Holds-eq r laws _ _ (slot_value (unlink_folder fs dir id)) (rw remove_all-decimal at h₁)
        (unlink_folder-slots fs dir id)

  pub remove_id_from_file_list-unlink_file :
      (dir id : ℕ)
      → Represents r laws (remove_id_from_file_list r d (pos dir) (pos id)) (unlink_file fs dir id)
  unfolding remove_id_from_file_list key_of format_ld
  remove_id_from_file_list-unlink_file dir id =
      let h₁ =
        Holds-lrem r laws d (slot_value fs) h (folder_files dir) (decimal id)
          (map decimal (fs.files dir)) refl in
      Holds-eq r laws _ _ (slot_value (unlink_file fs dir id)) (rw remove_all-decimal at h₁)
        (unlink_file-slots fs dir id)

  pub build_database_if_required-same : build_database_if_required r d ≡ d
  unfolding build_database_if_required is_virtual_file_system_created key_of
  build_database_if_required-same =
      rw
        (
          laws.exists-present d (key_of created) (λ e. string-ne-absent (sym (h created) ∙ e)),
          is_virtual_file_system_created,
        )
        refl

module _ (r : Redis) (laws : IsRedis r) where
  -- From any dataset, `vfs_buildDatabase` leaves the file system with only a root.
  pub vfs_build_database-initial : (d : r.Db) → Represents r laws (vfs_build_database r d) initial
  unfolding vfs_build_database write_folder key_of format_lu
  vfs_build_database-initial d =
      let d₀ = r.flushall d in
      let h₀ : Holds r laws d₀ (λ _. absent) = λ s. laws.value-flushall d (key_of s) in
      let h₁ =
        Holds-hmset r laws d₀ (λ _. absent) h₀ (folder_info 0)
          (folder_fields (pos 0) (codes "root")) refl in
      let h₂ = Holds-set r laws _ _ h₁ id_count (codes "1") in
      let h₃ = Holds-set r laws _ _ h₂ created (codes "yes") in
      Holds-eq r laws _ _ (slot_value initial) h₃ initial-slots
