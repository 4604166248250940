-- ===== src/Refine/Commands.antt =====
-- `cd` of virtualFileSystemWrapper.cc, against the abstract file system.
use redis_virtual_file_syste.Common.{
  ℕ, ◌≤◌, ◌≡◌, ◌≢◌, refl, sym, ap, ◌∙◌, List, [], ◌∷◌, ◌++◌, Bytes, pos, minus_one, Option, none,
  some, Bool, true, false, if◌then◌else◌, arith, Outcome, ok, ◌>>=◌, int_eq, length,
}
use mathlib.Core.List.{append-nil}
use redis_virtual_file_syste.Redis.{Redis, IsRedis}
use redis_virtual_file_syste.PathParser.State.{ParserState}
use redis_virtual_file_syste.PathParser.Walk.{vfs_parse_path}
use redis_virtual_file_syste.Wrapper.Paths.{
  get_folder_id_from_path, get_absolute_path_from_folder_id,
}
use redis_virtual_file_syste.Wrapper.Commands.{cd}
use redis_virtual_file_syste.Spec.{Fs}
use redis_virtual_file_syste.Spec.Tree.{IsTree, existing-lt-next}
use redis_virtual_file_syste.Spec.Lookup.{resolve_dir, walk, dir_names}
use redis_virtual_file_syste.Spec.Path.{PathOf, slashed, IsNamed}
use redis_virtual_file_syste.Spec.Command.{
  IsCwd, slash_ended, strip_prefix, start_of, absolute, folder_at, resolve_dir-behind,
}
use redis_virtual_file_syste.Refine.Represents.{Represents}
use redis_virtual_file_syste.Refine.Find.{id_or}
use redis_virtual_file_syste.Refine.Walk.{walk-exists}
use redis_virtual_file_syste.Refine.Parse.{parsed, vfs_parse_path-parsed}
use redis_virtual_file_syste.Refine.AbsolutePath.{get_absolute_path_from_folder_id-PathOf}
use redis_virtual_file_syste.Refine.Context.{
  get_dir_id_from_path-resolve_dir, get_cwd_id_lem, format_to_valid_path_lem, start-exists,
  cwd-exists,
}

-- What `cd` answers and leaves as the current directory, by the folder that the path leads to.
abbrev pub CdResult : Fs → Bytes → Option ℕ → Bool → Bytes → Type 0
CdResult fs cwd none answer cwd' = (answer ≡ false) × (cwd' ≡ cwd)
CdResult fs cwd (some id) answer cwd' = (answer ≡ true) × IsCwd fs cwd' id

slashed-cons :
    (names : List Bytes) (right : Bytes)
    → (s : Bytes) × ((slashed names ++ (b'/' ∷ [])) ++ right ≡ b'/' ∷ s)
slashed-cons [] right = (right, refl)
slashed-cons (name ∷ names) right = (((name ++ slashed names) ++ (b'/' ∷ [])) ++ right, refl)

module _ (r : Redis) (laws : IsRedis r) (d : r.Db) (fs : Fs) (h : Represents r laws d fs)
    (t : IsTree fs) where
  module _ (named : IsNamed fs) (cwd : Bytes) (id : ℕ) (at : IsCwd fs cwd id) (fuel : ℕ)
      (enough : fs.next ≤ fuel) where
    -- A path behind an absolute path leads on from its folder, whatever the current directory.
    formatted_folder :
        (first : ℕ) (names : List Bytes) (right : Bytes)
        → PathOf fs first names
        → get_folder_id_from_path r d cwd ((slashed names ++ (b'/' ∷ [])) ++ right)
          ≡ ok (id_or (walk fs first (dir_names (slash_ended right))) minus_one)
    unfolding get_folder_id_from_path
    formatted_folder first names right p =
        let (s, e) = slashed-cons names right in
        rw (get_cwd_id_lem r laws d fs h t named cwd id at) (
          rw e (
            get_dir_id_from_path-resolve_dir r laws d fs h t id b'/' s
              (cwd-exists r laws d fs h t named cwd id at)
            ∙ ap (λ k. ok (id_or k minus_one))
                (ap (λ k. resolve_dir fs id (slash_ended k)) (sym e)
                  ∙ resolve_dir-behind fs named id p right)))

    -- On a dataset that represents a well-formed file system in which every folder is found by
    -- its own name in its parent and no folder name has a slash, in a current directory that is
    -- the absolute path of a folder, and with fuel for as many rounds as there are ids:
    -- `getAbsolutePathFromFolderId` of an existing folder returns a path, and
    -- `getFolderIdFromPath` of that path returns the folder's id.
    pub get_folder_id_from_path-get_absolute_path :
        (target : ℕ)
        → fs.folder target ≢ none
        → (path : Bytes) × (get_absolute_path_from_folder_id r fuel d (pos target) ≡ ok path)
          × (get_folder_id_from_path r d cwd path ≡ ok (pos target))
    get_folder_id_from_path-get_absolute_path target exists =
        let (names, p, e) =
          get_absolute_path_from_folder_id-PathOf r laws d fs h t fuel target
            (omega (arith, existing-lt-next fs t target exists, enough)) exists in
        (
          slashed names ++ (b'/' ∷ []),
          e,
          ap (λ k. get_folder_id_from_path r d cwd k)
                (sym (append-nil (slashed names ++ (b'/' ∷ []))))
              ∙ formatted_folder target names [] p
              ∙ unfold walk slash_ended dir_names in refl,
        )

    -- The end of `cd`, by the folder that was found.
    abbrev cd_rest : Option ℕ → Outcome (Bool × Bytes)
    cd_rest target = if int_eq (id_or target minus_one) minus_one then ok (false, cwd) else do
      new_cwd ← get_absolute_path_from_folder_id r fuel d (id_or target minus_one)
      ok (true, new_cwd)

    cd_end :
        (target : Option ℕ)
        → ((next : ℕ) → target ≡ some next → fs.folder next ≢ none)
        → (answer : Bool) × (cwd' : Bytes) × (cd_rest target ≡ ok (answer, cwd'))
          × CdResult fs cwd target answer cwd'
    cd_end none exists = (false, cwd, refl, (refl, refl))
    cd_end (some next) exists =
        let (names, p, e) =
          get_absolute_path_from_folder_id-PathOf r laws d fs h t fuel next
            (omega (arith, existing-lt-next fs t next (exists next refl), enough))
            (exists next refl) in
        (true, slashed names ++ (b'/' ∷ []), rw e refl, (refl, (names, p, refl)))

    module _ (c : ℕ) (s : Bytes) (names : List Bytes)
        (p : PathOf fs (start_of id (c ∷ s)) names) where
      -- On a dataset that represents a well-formed file system in which every folder is found
      -- by its own name in its parent and no folder name has a slash, in a current directory
      -- that is the absolute path of a folder, and with fuel for as many rounds as there are
      -- ids, `cd` of a path that is not empty always returns. If every name of the path is a
      -- folder, it answers true and the new current directory is the absolute path of the
      -- folder that the path leads to; else it answers false and keeps the current directory.
      pub cd_lem :
          (answer : Bool) × (cwd' : Bytes) × (cd r fuel d cwd (c ∷ s) ≡ ok (answer, cwd'))
          × CdResult fs cwd (folder_at fs id (c ∷ s)) answer cwd'
      unfolding cd
      cd_lem =
          rw
            (
              format_to_valid_path_lem r laws d fs h t named cwd id at fuel c s names enough p,
              formatted_folder (start_of id (c ∷ s)) names (strip_prefix (c ∷ s)) p,
            )
            (cd_end (folder_at fs id (c ∷ s)) (λ next found.
              walk-exists fs t (start_of id (c ∷ s)) _ next
                (start-exists r laws d fs h t named cwd id at c s) found))

      -- What `vfs_parsePath` makes of the formatted path.
      pub vfs_parse_path-absolute :
          (state : ParserState)
          → vfs_parse_path r d state
              (absolute names (c ∷ s))
              (length (absolute names (c ∷ s)))
              (pos id)
            ≡ ok (parsed fs id (absolute names (c ∷ s)))
      vfs_parse_path-absolute state =
          let (rest, e) = slashed-cons names (strip_prefix (c ∷ s)) in
          rw e (
            vfs_parse_path-parsed r laws d fs h t state id b'/' rest
              (cwd-exists r laws d fs h t named cwd id at))
