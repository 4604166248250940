-- ===== src/Refine/AbsolutePath.antt =====
-- `getAbsolutePathFromFolderId` of virtualFileSystemWrapper.cc.
use redis_virtual_file_syste.Common.{
  ℕ, zero, suc, ◌≤◌, ◌<◌, ◌≡◌, ◌≢◌, refl, ap, ◌∙◌, List, [], ◌∷◌, ◌++◌, Bytes, pos, none, ◌==◌,
  ==_iff, arith, ok, Option-cases, Bool-cases, inl, inr,
}
use mathlib.Core.List.{append_assoc}
use redis_virtual_file_syste.Libc.Decimal.{long_max}
use redis_virtual_file_syste.Redis.{Redis, IsRedis}
use redis_virtual_file_syste.Wrapper.Paths.{
  get_non_root_folder_name, get_parent_id_by_id, absolute_path_loop,
  get_absolute_path_from_folder_id,
}
use redis_virtual_file_syste.Spec.{Fs}
use redis_virtual_file_syste.Spec.Tree.{IsTree, parent-lt-next}
use redis_virtual_file_syste.Spec.Path.{PathOf, root, child, slashed, slashed-append}
use redis_virtual_file_syste.Refine.Represents.{Represents}
use redis_virtual_file_syste.Refine.Reads.{
  redis_get_folder_name_lem, redis_get_folder_parent_id_lem,
}

slashed-in_front :
    (names : List Bytes) (name output : Bytes)
    → slashed names ++ ((b'/' ∷ (name ++ output)) ++ (b'/' ∷ []))
      ≡ slashed (names ++ (name ∷ [])) ++ (output ++ (b'/' ∷ []))
slashed-in_front names name output = simp (slashed-append, append_assoc)

module _ (r : Redis) (laws : IsRedis r) (d : r.Db) (fs : Fs) (h : Represents r laws d fs)
    (t : IsTree fs) where
  -- The loop puts the names on the way to the root in front of what it has.
  absolute_path_loop-slashed :
      (fuel id : ℕ) (output : Bytes)
      → id < fuel
      → fs.folder id ≢ none
      → (names : List Bytes) × PathOf fs id names
        × (absolute_path_loop r fuel d (pos id) output
            ≡ ok (slashed names ++ (output ++ (b'/' ∷ []))))
  unfolding absolute_path_loop get_non_root_folder_name get_parent_id_by_id
  absolute_path_loop-slashed zero id output enough exists = absurd (omega arith)
  absolute_path_loop-slashed (suc fuel) id output enough exists = elim (Bool-cases (id == 0)) [
    | inl at_root ↦ ([], root ((==_iff id 0).0 at_root), rw at_root refl)
    | inr below ↦ elim (Option-cases (fs.folder id)) [
      | inl missing ↦ absurd (exists missing)
      | inr (info, found) ↦
          let positive : id ≢ 0 = ground arith in
          let smaller : info.parent < fuel = ground (arith, t.parents id info found) in
          let fits : info.parent ≤ long_max =
            omega (arith, parent-lt-next fs t id info found, t.ids_fit) in
          let (names, up, e) =
            absolute_path_loop-slashed fuel info.parent (b'/' ∷ (info.name ++ output)) smaller
              (t.parent_exists id info found) in
          (
            names ++ (info.name ∷ []),
            child info found positive up refl,
            rw
                (
                  below,
                  redis_get_folder_name_lem r laws d fs h id info found,
                  redis_get_folder_parent_id_lem r laws d fs h id info found fits,
                )
                (e ∙ ap ok (slashed-in_front names info.name output)),
          )
    ]
  ]

  -- On a dataset that represents a well-formed file system, and with fuel for more rounds than
  -- the id, `getAbsolutePathFromFolderId` of an existing folder ends and returns the names of
  -- the folders from the root down to it, each behind a slash, and a final slash.
  pub get_absolute_path_from_folder_id-PathOf :
      (fuel id : ℕ)
      → id < fuel
      → fs.folder id ≢ none
      → (names : List Bytes) × PathOf fs id names
        × (get_absolute_path_from_folder_id r fuel d (pos id) ≡ ok (slashed names ++ (b'/' ∷ [])))
  unfolding get_absolute_path_from_folder_id
  get_absolute_path_from_folder_id-PathOf fuel id enough exists = elim (Bool-cases (id == 0)) [
    | inl at_root ↦ ([], root ((==_iff id 0).0 at_root), rw at_root refl)
    | inr below ↦ rw below (absolute_path_loop-slashed fuel id [] enough exists)
  ]
