-- ===== src/Refine/Context.antt =====
-- The path helpers of virtualFileSystemWrapper.cc in a current directory that names a folder.
use redis_virtual_file_syste.Common.{
  ℕ, ◌≤◌, ◌<◌, ◌≡◌, ◌≢◌, refl, sym, ap, ◌∙◌, List, [], ◌∷◌, ◌++◌, Bytes, pos, minus_one, none, ◌==◌,
  arith, ok, Bool-cases, inl, inr, take, length,
}
use redis_virtual_file_syste.Redis.{Redis, IsRedis}
use redis_virtual_file_syste.Wrapper.Paths.{
  with_final_slash, remove_any_path_prefix, get_dir_id_from_path, get_cwd_id,
  get_folder_id_from_path, get_parent_id_of_left_side, format_to_valid_path,
}
use redis_virtual_file_syste.Spec.{Fs}
use redis_virtual_file_syste.Spec.Tree.{IsTree, existing-lt-next}
use redis_virtual_file_syste.Spec.Lookup.{resolve_dir}
use redis_virtual_file_syste.Spec.Path.{PathOf, PathOf-unique, root, child, slashed, IsNamed}
use redis_virtual_file_syste.Spec.Command.{
  IsCwd, slash_ended, strip_prefix, start_of, absolute, resolve_dir-cwd,
}
use redis_virtual_file_syste.Refine.Represents.{Represents}
use redis_virtual_file_syste.Refine.Find.{id_or}
use redis_virtual_file_syste.Refine.Walk.{vfs_get_dir_id_from_path-walk}
use redis_virtual_file_syste.Refine.AbsolutePath.{get_absolute_path_from_folder_id-PathOf}

with_final_slash-slash_ended :
    (c : ℕ) (s : Bytes) → with_final_slash (c ∷ s) ≡ ok (slash_ended (c ∷ s))
unfolding with_final_slash slash_ended
with_final_slash-slash_ended c [] = ground arith
with_final_slash-slash_ended c (e ∷ s) = ground (arith, with_final_slash-slash_ended e s)

take-all : (s : Bytes) → take (length s) s ≡ s
take-all [] = refl
take-all (x ∷ s) = ap (λ k. x ∷ k) (take-all s)

slash_ended-pos : (c : ℕ) (s : Bytes) → 0 < length (slash_ended (c ∷ s))
unfolding slash_ended
slash_ended-pos c [] = ground arith
slash_ended-pos c (e ∷ s) = omega arith

remove_any_path_prefix-strip_prefix :
    (c : ℕ) (s : Bytes) → remove_any_path_prefix (c ∷ s) ≡ ok (strip_prefix (c ∷ s))
unfolding remove_any_path_prefix strip_prefix
remove_any_path_prefix-strip_prefix c s = ground arith

PathOf-exists :
    (fs : Fs) (t : IsTree fs) {id : ℕ} {names : List Bytes}
    → PathOf fs id names
    → fs.folder id ≢ none
PathOf-exists fs t (root e) = rw e (ground (arith, t.root))
PathOf-exists fs t {id} (child info found positive up e) = ground (arith, found)

module _ (r : Redis) (laws : IsRedis r) (d : r.Db) (fs : Fs) (h : Represents r laws d fs)
    (t : IsTree fs) where
  -- `getDirIdFromPath` follows the whole path.
  pub get_dir_id_from_path-resolve_dir :
      (dir : ℕ) (c : ℕ) (s : Bytes)
      → fs.folder dir ≢ none
      → get_dir_id_from_path r d (pos dir) (c ∷ s)
        ≡ ok (id_or (resolve_dir fs dir (slash_ended (c ∷ s))) minus_one)
  unfolding get_dir_id_from_path
  get_dir_id_from_path-resolve_dir dir c s exists =
      let path : Bytes = slash_ended (c ∷ s) in
      rw (with_final_slash-slash_ended c s) (
        vfs_get_dir_id_from_path-walk r laws d fs h t dir path (length path) (omega arith)
          (slash_ended-pos c s) exists
        ∙ ap (λ k. ok (id_or (resolve_dir fs dir k) minus_one)) (take-all path))

  module _ (named : IsNamed fs) (cwd : Bytes) (id : ℕ) (at : IsCwd fs cwd id) where
    pub cwd-exists : fs.folder id ≢ none
    cwd-exists = PathOf-exists fs t at.1

    root_exists : fs.folder 0 ≢ none
    root_exists = ground (arith, t.root)

    -- The current directory has a first byte, a slash.
    cwd-cons : (s : Bytes) × (cwd ≡ b'/' ∷ s)
    cwd-cons = go at.0 at.2
      where
        go :
            (names : List Bytes)
            → cwd ≡ slashed names ++ (b'/' ∷ [])
            → (s : Bytes) × (cwd ≡ b'/' ∷ s)
        go [] e = ([], e)
        go (name ∷ names) e = ((name ++ slashed names) ++ (b'/' ∷ []), e)

    cwd_from :
        (dir : ℕ) → fs.folder dir ≢ none → get_dir_id_from_path r d (pos dir) cwd ≡ ok (pos id)
    cwd_from dir exists =
        let (s, e) = cwd-cons in
        rw e (
          get_dir_id_from_path-resolve_dir dir b'/' s exists
          ∙ ap (λ k. ok (id_or k minus_one))
              (ap (λ k. resolve_dir fs dir (slash_ended k)) (sym e)
                ∙ resolve_dir-cwd fs named dir cwd id at))

    pub get_cwd_id_lem : get_cwd_id r d cwd ≡ ok (pos id)
    unfolding get_cwd_id
    get_cwd_id_lem = cwd_from 0 root_exists

    get_parent_id_of_left_side_lem :
        (c : ℕ) (s : Bytes)
        → get_parent_id_of_left_side r d cwd (c ∷ s) ≡ ok (pos (start_of id (c ∷ s)))
    unfolding get_parent_id_of_left_side get_folder_id_from_path
    get_parent_id_of_left_side_lem c s = rw (get_cwd_id_lem, cwd_from id cwd-exists) (ground arith)

    pub start-exists : (c : ℕ) (s : Bytes) → fs.folder (start_of id (c ∷ s)) ≢ none
    start-exists c s = elim (Bool-cases (c == b'/')) [
      | inl slash ↦ rw slash root_exists
      | inr plain ↦ rw plain cwd-exists
    ]

    pub format_to_valid_path_lem :
        (fuel : ℕ) (c : ℕ) (s : Bytes) (names : List Bytes)
        → fs.next ≤ fuel
        → PathOf fs (start_of id (c ∷ s)) names
        → format_to_valid_path r fuel d cwd (c ∷ s) ≡ ok (absolute names (c ∷ s))
    unfolding format_to_valid_path
    format_to_valid_path_lem fuel c s names enough p =
        let first = start_of id (c ∷ s) in
        let (names', p', e) =
          get_absolute_path_from_folder_id-PathOf r laws d fs h t fuel first
            (omega (arith, existing-lt-next fs t first (start-exists c s), enough))
            (start-exists c s) in
        rw (get_parent_id_of_left_side_lem c s) (
          rw (e, remove_any_path_prefix-strip_prefix c s)
            (ap (λ k. ok (absolute k (c ∷ s))) (PathOf-unique fs p' p)))
