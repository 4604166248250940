-- ===== src/Refine/Listed.antt =====
-- `ls` of virtualFileSystemWrapper.cc and `Getattr` of fuse/redisfs.cc together: what the first lists,
-- the second finds.
use redis_virtual_file_syste.Common.{
  ℕ, ◌≤◌, ◌≡◌, ◌≢◌, refl, sym, ap, ◌∙◌, List, [], ◌∷◌, ◌++◌, map, Bytes, All, All-append, some,
  none, true, ==_iff, arith, Option-cases, inl, inr, ok, pos, bytes_eq_refl,
}
use mathlib.Core.Path.{subst}
use mathlib.Core.List.{append-nil, Memᴰ}
use redis_virtual_file_syste.Libc.Decimal.{long_max}
use redis_virtual_file_syste.Redis.{Redis, IsRedis}
use redis_virtual_file_syste.PathParser.State.{ParserState}
use redis_virtual_file_syste.Wrapper.Paths.{get_absolute_path_from_folder_id}
use redis_virtual_file_syste.Wrapper.Items.{DirItemInfo, ls}
use redis_virtual_file_syste.Fuse.{Attributes, getattr}
use redis_virtual_file_syste.Spec.{Fs, FolderInfo, FileInfo}
use redis_virtual_file_syste.Spec.Tree.{IsTree, IsPlain, IsSubfolder, IsFileEntry, existing-lt-next}
use redis_virtual_file_syste.Spec.Lookup.{
  is_prefix, first_folder, last_file, find_folder, find_file, find_object, Object, no_object,
  file_object, folder_object, resolve_dir, walk, dir_names,
}
use redis_virtual_file_syste.Spec.Path.{PathOf, IsNamed, slashed, body, slashed-body}
use redis_virtual_file_syste.Spec.Command.{IsCwd, slash_ended, resolve_dir-behind}
use redis_virtual_file_syste.Refine.Represents.{Represents}
use redis_virtual_file_syste.Refine.AbsolutePath.{get_absolute_path_from_folder_id-PathOf}
use redis_virtual_file_syste.Refine.Listing.{name_of_folder, name_of_file, names_in}
use redis_virtual_file_syste.Refine.Items.{ls-names_in}
use redis_virtual_file_syste.Refine.Stat.{
  attributes_of, no_nlink, HasGivenId, found_at, getattr-found_at,
}
use redis_virtual_file_syste.Refine.Context.{cwd-exists}
use redis_virtual_file_syste.Refine.ChildText.{byte_at-body}
use redis_virtual_file_syste.Refine.Child.{find_object-HasGivenId, getattr-child_path}

is_prefix_refl : (s : Bytes) → is_prefix s s ≡ true
is_prefix_refl [] = refl
is_prefix_refl (c ∷ s) = rw ((==_iff c c).1 refl) (is_prefix_refl s)

module _ (fs : Fs) where
  first_folder-listed :
      (id : ℕ) (info : FolderInfo) (ids : List ℕ)
      → Memᴰ id ids
      → fs.folder id ≡ some info
      → first_folder fs info.name ids ≢ none
  unfolding first_folder
  first_folder-listed id info [] listed found e = elim listed [ ]
  first_folder-listed id info (x ∷ ids) (Memᴰ.head same) found e =
      cc (rw (← same, found, first_folder, is_prefix_refl info.name) at e)
  first_folder-listed id info (x ∷ ids) (Memᴰ.tail below) found e =
      ground (arith, first_folder-listed id info ids below found)

  last_file-listed :
      (id : ℕ) (info : FileInfo) (ids : List ℕ)
      → Memᴰ id ids
      → fs.file id ≡ some info
      → last_file fs info.name ids ≢ none
  unfolding last_file
  last_file-listed id info [] listed found e = elim listed [ ]
  last_file-listed id info (x ∷ ids) (Memᴰ.head same) found e =
      elim (Option-cases (last_file fs info.name ids)) [
        | inl nothing ↦ cc (rw (nothing, ← same, found, bytes_eq_refl info.name) at e)
        | inr (n, later) ↦ cc (rw later at e)
      ]
  last_file-listed id info (x ∷ ids) (Memᴰ.tail below) found e =
      ground (arith, last_file-listed id info ids below found)

  find_folder-listed :
      (dir id : ℕ) (info : FolderInfo)
      → fs.folder dir ≢ none
      → Memᴰ id (fs.folders dir)
      → fs.folder id ≡ some info
      → find_folder fs dir info.name ≢ none
  unfolding find_folder
  find_folder-listed dir id info exists listed found e =
      ground (arith, first_folder-listed id info (fs.folders dir) listed found)

  find_object-folder_listed :
      (dir id : ℕ) (info : FolderInfo)
      → fs.folder dir ≢ none
      → Memᴰ id (fs.folders dir)
      → fs.folder id ≡ some info
      → find_object fs dir info.name ≢ no_object
  unfolding find_object
  find_object-folder_listed dir id info exists listed found e =
      elim (Option-cases (find_file fs dir info.name)) [
        | inr (n, file) ↦ cc (rw file at e)
        | inl no_file ↦ elim (Option-cases (find_folder fs dir info.name)) [
          | inl no_folder ↦ find_folder-listed dir id info exists listed found no_folder
          | inr (n, folder) ↦ cc (rw (no_file, folder) at e)
        ]
      ]

  find_object-file_listed :
      (dir id : ℕ) (info : FileInfo)
      → Memᴰ id (fs.files dir)
      → fs.file id ≡ some info
      → find_object fs dir info.name ≢ no_object
  unfolding find_object find_file
  find_object-file_listed dir id info listed found e =
      elim (Option-cases (last_file fs info.name (fs.files dir))) [
        | inl no_file ↦ last_file-listed id info (fs.files dir) listed found no_file
        | inr (n, file) ↦ cc (rw file at e)
      ]

-- What holds at the members of a list, and what of their images.
All-map_of {ℓ} :
    {A : Type ℓ} (P : A → Type 0) (f : ℕ → A) (ids : List ℕ)
    → ((id : ℕ) → Memᴰ id ids → P (f id))
    → All P (map f ids)
All-map_of P f [] h = tt
All-map_of P f (id ∷ ids) h =
    (h id (Memᴰ.head refl), All-map_of P f ids (λ n below. h n (Memᴰ.tail below)))

All-Memᴰ : (P : ℕ → Type 0) (ids : List ℕ) → All P ids → (id : ℕ) → Memᴰ id ids → P id
All-Memᴰ P [] all id listed = elim listed [ ]
All-Memᴰ P (x ∷ ids) (h, all) id (Memᴰ.head same) = subst P (sym same) h
All-Memᴰ P (x ∷ ids) (h, all) id (Memᴰ.tail below) = All-Memᴰ P ids all id below

attributes_of-found :
    (fs : Fs) (junk : DirItemInfo) (o : Object)
    → fs.next ≤ long_max
    → HasGivenId fs o
    → o ≢ no_object
    → (attributes_of junk o).nlink ≢ no_nlink
attributes_of-found fs junk no_object fit given something e = something refl
attributes_of-found fs junk (file_object n) fit given something e = absurd (omega arith)
attributes_of-found fs junk (folder_object n) fit given something e = absurd (omega arith)

module _ (r : Redis) (d : r.Db) (cwd : Bytes) (state : ParserState) (junk : DirItemInfo) where
  -- `Getattr` of the name behind the path returns status 0 and an id.
  abbrev pub IsFound : Bytes → Bytes → Type 0
  IsFound path name =
      (a : Attributes) × (getattr r d cwd junk state (path ++ name) ≡ ok (pos 0, a))
      × (a.nlink ≢ no_nlink)

module _ (r : Redis) (laws : IsRedis r) (d : r.Db) (fs : Fs) (h : Represents r laws d fs)
    (t : IsTree fs) (named : IsNamed fs) (cwd : Bytes) (id : ℕ) (at : IsCwd fs cwd id)
    (state : ParserState) (junk : DirItemInfo) (dir : ℕ) (exists : fs.folder dir ≢ none) where
  module _ (names : List Bytes) (up : PathOf fs dir names) where
    resolve_dir-body : resolve_dir fs id (slash_ended (b'/' ∷ body names)) ≡ some dir
    unfolding slash_ended dir_names walk
    resolve_dir-body =
        ap (λ k. resolve_dir fs id (slash_ended k))
          (sym (slashed-body names) ∙ sym (append-nil (slashed names ++ (b'/' ∷ []))))
        ∙ resolve_dir-behind fs named id up []

    found_at-body : found_at fs id (b'/' ∷ body names) ≡ folder_object dir
    unfolding found_at
    found_at-body = rw (byte_at-body names, resolve_dir-body) refl

    name-IsFound :
        (name : Bytes)
        → All IsPlain name
        → find_object fs dir name ≢ no_object
        → IsFound r d cwd state junk (slashed names ++ (b'/' ∷ [])) name
    name-IsFound [] plain something = (
      attributes_of junk (folder_object dir),
      ap (getattr r d cwd junk state)
            (append-nil (slashed names ++ (b'/' ∷ [])) ∙ slashed-body names)
          ∙ getattr-found_at r laws d fs h t named cwd id at state b'/' (body names) junk
          ∙ ap (λ o. ok (pos 0, attributes_of junk o)) found_at-body,
      attributes_of-found fs junk (folder_object dir) t.ids_fit (existing-lt-next fs t dir exists)
          (λ e. cc),
    )
    name-IsFound (c ∷ s) plain something = (
      attributes_of junk (find_object fs dir (c ∷ s)),
      getattr-child_path r laws d fs h t named cwd id at state junk names dir up (c ∷ s) (λ e. cc)
          plain,
      attributes_of-found fs junk (find_object fs dir (c ∷ s)) t.ids_fit
          (find_object-HasGivenId names c s plain fs t named dir up id
            (cwd-exists r laws d fs h t named cwd id at))
          something,
    )

    folder-IsFound :
        (n : ℕ)
        → Memᴰ n (fs.folders dir)
        → IsFound r d cwd state junk (slashed names ++ (b'/' ∷ [])) (name_of_folder fs n)
    folder-IsFound n listed =
        let sub = All-Memᴰ (IsSubfolder fs dir) (fs.folders dir) (t.subfolders dir) n listed in
        rw (sub.found, name_of_folder)
          (name-IsFound sub.info.name (named.plain n sub.info sub.found)
            (find_object-folder_listed fs dir n sub.info exists listed sub.found))

    file-IsFound :
        (n : ℕ)
        → Memᴰ n (fs.files dir)
        → IsFound r d cwd state junk (slashed names ++ (b'/' ∷ [])) (name_of_file fs n)
    file-IsFound n listed =
        let entry = All-Memᴰ (IsFileEntry fs) (fs.files dir) (t.entries dir) n listed in
        rw (entry.found, name_of_file)
          (name-IsFound entry.info.name entry.name_plain
            (find_object-file_listed fs dir n entry.info listed entry.found))

  -- On a dataset that represents a well-formed file system in which every folder is found by
  -- its own name in its parent and no folder name has a slash, in a current directory that is
  -- the absolute path of a folder, and with fuel for as many rounds as there are ids: for every
  -- folder that exists, `getAbsolutePathFromFolderId` returns a path, `ls` of that path returns
  -- a list of names, and for each of the names `Getattr` of the path with the name behind it
  -- returns status 0 and a link count that is not 18446744073709551615, as which it reports the
  -- id -1 of what it does not find.
  pub ls-getattr :
      (fuel : ℕ)
      → fs.next ≤ fuel
      → (path : Bytes) × (listed : List Bytes) × (get_absolute_path_from_folder_id r fuel d
            (pos dir)
          ≡ ok path)
        × (ls r d cwd path ≡ ok listed)
        × All (IsFound r d cwd state junk path) listed
  ls-getattr fuel enough =
      let (names, up, e) =
        get_absolute_path_from_folder_id-PathOf r laws d fs h t fuel dir
          (omega (arith, existing-lt-next fs t dir exists, enough)) exists in
      (
        slashed names ++ (b'/' ∷ []),
        names_in fs dir,
        e,
        ap (ls r d cwd) (slashed-body names)
            ∙ ls-names_in r laws d fs h t named cwd id at b'/' (body names) dir
                (resolve_dir-body names up),
        All-append _ (map (name_of_folder fs) (fs.folders dir))
            (map (name_of_file fs) (fs.files dir))
            (
              All-map_of _ (name_of_folder fs) (fs.folders dir) (folder-IsFound names up),
              All-map_of _ (name_of_file fs) (fs.files dir) (file-IsFound names up),
            ),
      )
