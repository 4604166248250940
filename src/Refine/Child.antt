-- ===== src/Refine/Child.antt =====
-- What a folder's absolute path with one more name leads to, for `stat` and for `Getattr` of
-- fuse/redisfs.cc.
use redis_virtual_file_syste.Common.{
  none, ℕ, ◌≤◌, ◌≡◌, ◌≢◌, refl, sym, ap, ◌∙◌, List, [], ◌∷◌, ◌++◌, Bytes, All, some, ◌==◌, arith,
  Option-cases, inl, inr, length, ok, pos,
}
use mathlib.Core.List.{append-nil}
use mathlib.Core.Path.{subst}
use redis_virtual_file_syste.Redis.{Redis, IsRedis}
use redis_virtual_file_syste.Wrapper.Paths.{get_absolute_path_from_folder_id}
use redis_virtual_file_syste.Wrapper.Items.{DirItemInfo}
use redis_virtual_file_syste.Fuse.{getattr, s_ifdir}
use redis_virtual_file_syste.Refine.Represents.{Represents}
use redis_virtual_file_syste.Refine.AbsolutePath.{get_absolute_path_from_folder_id-PathOf}
use redis_virtual_file_syste.PathParser.State.{ParserState}
use redis_virtual_file_syste.Spec.{Fs, FolderInfo}
use redis_virtual_file_syste.Spec.Tree.{IsTree, IsPlain, existing-lt-next}
use redis_virtual_file_syste.Spec.Lookup.{
  resolve_dir, walk, dir_names, find_object, find_file, find_folder,
}
use redis_virtual_file_syste.Spec.Path.{
  PathOf, IsNamed, slashed, body, slashed-body, walk-PathOf, PathOf-IsPlain, dir_names-plain,
}
use redis_virtual_file_syste.Spec.Command.{
  IsCwd, slash_ended, resolve_dir-behind, dir_names-body_append,
}
use redis_virtual_file_syste.Refine.ChildText.{
  dir_names-nil, dir_names-empty, slash_ended-plain, child_path, byte_at-last, fixed_of-child,
  dir_text-child, split-child, name_text-child,
}
use redis_virtual_file_syste.Refine.Parse.{LeadsTo, name_text}
use redis_virtual_file_syste.Refine.Stat.{
  found_at, file_at, attributes_of, HasGivenId, found_at-HasGivenId, getattr-found_at,
}

file_at-LeadsTo :
    (fs : Fs) (cwd : ℕ) (path : Bytes) (dir : ℕ)
    → LeadsTo fs cwd path dir
    → file_at fs cwd path ≡ find_file fs dir (name_text path)
unfolding file_at
file_at-LeadsTo fs cwd path dir to = rw (to.below_root, to.resolved, to.named) refl

module _ (names : List Bytes) (c : ℕ) (s : Bytes) (plain : All IsPlain (c ∷ s)) where
  module _ (fs : Fs) (named : IsNamed fs) (dir : ℕ) (up : PathOf fs dir names) (cwd : ℕ) where
    resolve_dir-child_path : resolve_dir fs cwd (child_path names (c ∷ s)) ≡ some dir
    unfolding resolve_dir
    resolve_dir-child_path =
        rw
          (
            dir_names-body_append names (c ∷ s) (PathOf-IsPlain fs named up),
            dir_names-nil (c ∷ s) plain,
            append-nil,
          )
          (walk-PathOf fs named up)

    walk-child : walk fs dir (dir_names (slash_ended (c ∷ s))) ≡ walk fs dir ((c ∷ s) ∷ [])
    walk-child = ap (walk fs dir) (
        ap dir_names (slash_ended-plain c s plain)
        ∙ dir_names-plain (c ∷ s) [] plain
        ∙ ap (λ k. (c ∷ s) ∷ k) dir_names-empty)

    slash_ended-child_path :
        resolve_dir fs cwd (slash_ended (child_path names (c ∷ s))) ≡ walk fs dir ((c ∷ s) ∷ [])
    slash_ended-child_path =
        ap (λ k. resolve_dir fs cwd (slash_ended (k ++ (c ∷ s)))) (sym (slashed-body names))
        ∙ resolve_dir-behind fs named cwd up (c ∷ s)
        ∙ walk-child

    child_path-LeadsTo : LeadsTo fs cwd (child_path names (c ∷ s)) dir
    child_path-LeadsTo = record {
      below_root = ap (λ k. k == 0) (fixed_of-child names c s plain) ∙ ground arith;
      resolved = ap (resolve_dir fs cwd) (dir_text-child names c s plain) ∙ resolve_dir-child_path;
      named = ap (λ k. k == 0) (split-child names c s plain).1 ∙ ground arith;
    }

    found_at-child_path : found_at fs cwd (child_path names (c ∷ s)) ≡ find_object fs dir (c ∷ s)
    unfolding found_at find_object walk
    found_at-child_path =
        rw
          (
            (byte_at-last names c s plain) (length (body names ++ (c ∷ s))) (omega arith),
            file_at-LeadsTo fs cwd (child_path names (c ∷ s)) dir child_path-LeadsTo,
            (name_text-child names c s plain),
            slash_ended-child_path,
          )
          (elim (Option-cases (find_file fs dir (c ∷ s))) [
            | inr (n, file) ↦ rw file refl
            | inl no_file ↦ elim (Option-cases (find_folder fs dir (c ∷ s))) [
              | inr (n, folder) ↦ rw (no_file, folder, walk) refl
              | inl no_folder ↦ rw (no_file, no_folder, walk) refl
            ]
          ])

pub find_object-HasGivenId :
    (names : List Bytes) (c : ℕ) (s : Bytes)
    → All IsPlain (c ∷ s)
    → (fs : Fs) → IsTree fs
    → IsNamed fs
    → (dir : ℕ) → PathOf fs dir names
    → (cwd : ℕ) → fs.folder cwd ≢ none
    → HasGivenId fs (find_object fs dir (c ∷ s))
find_object-HasGivenId names c s plain fs t named dir up cwd exists =
    subst (HasGivenId fs) (found_at-child_path names c s plain fs named dir up cwd)
      (found_at-HasGivenId fs t cwd b'/' (body names ++ (c ∷ s)) exists)

module _ (r : Redis) (laws : IsRedis r) (d : r.Db) (fs : Fs) (h : Represents r laws d fs)
    (t : IsTree fs) (named : IsNamed fs) (cwd : Bytes) (id : ℕ) (at : IsCwd fs cwd id)
    (state : ParserState) (junk : DirItemInfo) where
  pub getattr-child_path :
      (names : List Bytes) (dir : ℕ)
      → PathOf fs dir names
      → (name : Bytes) → name ≢ []
      → All IsPlain name
      → getattr r d cwd junk state ((slashed names ++ (b'/' ∷ [])) ++ name)
        ≡ ok (pos 0, attributes_of junk (find_object fs dir name))
  getattr-child_path names dir up [] nonempty plain = absurd (nonempty refl)
  getattr-child_path names dir up (c ∷ s) nonempty plain =
      ap (λ k. getattr r d cwd junk state (k ++ (c ∷ s))) (slashed-body names)
      ∙ getattr-found_at r laws d fs h t named cwd id at state b'/' (body names ++ (c ∷ s)) junk
      ∙ ap (λ o. ok (pos 0, attributes_of junk o))
          (found_at-child_path names c s plain fs named dir up id)

  -- On a dataset that represents a well-formed file system in which every folder is found by
  -- its own name in its parent and no folder name has a slash, in a current directory that is
  -- the absolute path of a folder, and with fuel for as many rounds as there are ids: for every
  -- folder but the root whose name is not empty, `getAbsolutePathFromFolderId` of its parent
  -- returns a path, and `Getattr` of that path with the folder's name behind it returns status
  -- 0, the type of a folder and, as the link count, the folder's id.
  pub getattr-get_absolute_path :
      (fuel n : ℕ) (info : FolderInfo)
      → fs.next ≤ fuel
      → fs.folder n ≡ some info
      → n ≢ 0
      → info.name ≢ []
      → (path : Bytes) × (get_absolute_path_from_folder_id r fuel d (pos info.parent) ≡ ok path)
        × (getattr r d cwd junk state (path ++ info.name)
            ≡ ok (pos 0, record { nlink = n; mode = s_ifdir; size = 0 }))
  getattr-get_absolute_path fuel n info enough found below nonempty =
      let exists = t.parent_exists n info found in
      let (names, up, e) =
        get_absolute_path_from_folder_id-PathOf r laws d fs h t fuel info.parent
          (omega (arith, existing-lt-next fs t info.parent exists, enough)) exists in
      (
        slashed names ++ (b'/' ∷ []),
        e,
        getattr-child_path names info.parent up info.name nonempty (named.plain n info found)
            ∙ ap (λ o. ok (pos 0, attributes_of junk o)) (named.finds n info found below),
      )
