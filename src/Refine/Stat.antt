-- ===== src/Refine/Stat.antt =====
-- `getDirItemInfo` and `stat` by path of virtualFileSystemWrapper.cc, and `Getattr` of redisfs.cc.
use redis_virtual_file_syste.Common.{
  ℕ, ◌%◌, ◌≡◌, ◌≢◌, ◌≤◌, ◌<◌, refl, ap, List, [], ◌∷◌, Bytes, ℤ, pos, minus_one, int_eq, Option,
  none, some, true, false, ◌==◌, if◌then◌else◌, arith, ok, Option-cases, Bool-cases, inl, inr,
  length,
}
use redis_virtual_file_syste.Libc.Decimal.{long_max, ulong_mod}
use redis_virtual_file_syste.Redis.{Redis, IsRedis}
use redis_virtual_file_syste.PathParser.State.{ParserState}
use redis_virtual_file_syste.PathParser.Scan.{byte_at}
use redis_virtual_file_syste.Wrapper.Paths.{get_file_id_from_path, get_folder_id_from_path}
use redis_virtual_file_syste.Wrapper.Items.{
  DirItemInfo, dir_item_file, dir_item_folder, named_item, file_id_unless_slash, get_dir_item_info,
  stat,
}
use redis_virtual_file_syste.Fuse.{Attributes, mode_of, nlink_of_long, s_ifdir, s_ifreg, getattr}
use redis_virtual_file_syste.Spec.{Fs}
use redis_virtual_file_syste.Spec.Tree.{IsTree, existing-lt-next}
use redis_virtual_file_syste.Spec.Lookup.{
  resolve_dir, Object, no_object, file_object, folder_object, find_object, find_file, find_folder,
  last_file, file_or, folder_or_none,
}
use redis_virtual_file_syste.Spec.Path.{IsNamed}
use redis_virtual_file_syste.Spec.Command.{IsCwd, slash_ended}
use redis_virtual_file_syste.Refine.Represents.{Represents}
use redis_virtual_file_syste.Refine.Reads.{redis_get_folder_name_lem, redis_get_file_name_lem}
use redis_virtual_file_syste.Refine.Find.{id_or}
use redis_virtual_file_syste.Refine.Walk.{resolve_dir-exists}
use redis_virtual_file_syste.Refine.Parse.{
  fixed_of, split_of, dir_text, name_text, parsed, placed, split_of_fields, vfs_parse_path-parsed,
}
use redis_virtual_file_syste.Refine.Context.{
  get_dir_id_from_path-resolve_dir, get_cwd_id_lem, cwd-exists,
}
use redis_virtual_file_syste.Refine.Listing.{name_of_folder, name_of_file}

-- The file that a path leads to, its slash at the end left out.
unfoldable pub file_at : Fs → ℕ → Bytes → Option ℕ
file_at fs cwd path =
    if fixed_of path == 0 then none else elim (resolve_dir fs cwd (dir_text path)) [
      | none ↦ none
      | some dir ↦
          if (split_of path).name_length == 0 then none else find_file fs dir (name_text path)
    ]

-- What a path leads to: a file, unless a slash ends the path, and else a folder.
unfoldable pub found_at : Fs → ℕ → Bytes → Object
found_at fs cwd [] = no_object
found_at fs cwd (c ∷ s) =
    file_or (if byte_at (c ∷ s) (length s) == b'/' then none else file_at fs cwd (c ∷ s))
      (folder_or_none (resolve_dir fs cwd (slash_ended (c ∷ s))))

-- The item of what was found. `junk` is what the uninitialised variable holds; its parent stays.
abbrev pub item_of : Fs → DirItemInfo → Object → DirItemInfo
item_of fs junk no_object = record junk { id = minus_one; exists = false; name = [] }
item_of fs junk (file_object n) = record junk {
  id = pos n;
  type = dir_item_file;
  exists = true;
  name = name_of_file fs n;
}
item_of fs junk (folder_object n) = record junk {
  id = pos n;
  type = dir_item_folder;
  exists = true;
  name = name_of_folder fs n;
}

-- As which link count the id -1 is reported.
abbrev pub no_nlink : ℕ
no_nlink = 18446744073709551615

-- The attributes of what was found: the link count is the id, or the greatest number that it can be
-- where there is nothing.
abbrev pub attributes_of : DirItemInfo → Object → Attributes
attributes_of junk no_object = record { nlink = no_nlink; mode = mode_of junk.type; size = 0 }
attributes_of junk (file_object n) = record { nlink = n; mode = s_ifreg; size = 0 }
attributes_of junk (folder_object n) = record { nlink = n; mode = s_ifdir; size = 0 }

pub last_file-exists :
    (fs : Fs) (name : Bytes) (ids : List ℕ) (n : ℕ)
    → last_file fs name ids ≡ some n
    → fs.file n ≢ none
unfolding last_file
last_file-exists fs name [] n e = cc
last_file-exists fs name (id ∷ ids) n e = ground (arith, last_file-exists fs name ids n)

file_at-exists :
    (fs : Fs) (cwd : ℕ) (path : Bytes) (n : ℕ) → file_at fs cwd path ≡ some n → fs.file n ≢ none
unfolding file_at find_file
file_at-exists fs cwd path n e = elim (Option-cases (resolve_dir fs cwd (dir_text path))) [
  | inl nowhere ↦ ground (arith, nowhere)
  | inr (dir, there) ↦ ground (arith, there, last_file-exists fs (name_text path) (fs.files dir) n)
]

abbrev file_of : ℤ × ParserState → ℤ
file_of (status, state) =
    if int_eq status minus_one
    then minus_one
    else if state.is_file_path
    then state.id
    else minus_one

-- The name's file, by what was found.
file_of-placed :
    (fs : Fs) (dir : ℕ) (name : Bytes) (state : ParserState)
    → state.is_file_path ≡ false
    → file_of (pos 0, placed fs state dir (find_object fs dir name))
      ≡ id_or (find_file fs dir name) minus_one
unfolding find_object
file_of-placed fs dir name state no_file = elim (Option-cases (find_file fs dir name)) [
  | inr (n, found) ↦ rw found refl
  | inl missing ↦ elim (Option-cases (find_folder fs dir name)) [
    | inl none_too ↦ rw (missing, none_too) (rw no_file refl)
    | inr (n, found) ↦ rw (missing, found) refl
  ]
]

file_of-parsed :
    (fs : Fs) (cwd : ℕ) (path : Bytes)
    → file_of (parsed fs cwd path) ≡ id_or (file_at fs cwd path) minus_one
unfolding parsed file_at
file_of-parsed fs cwd path =
    let (_, _, no_file, _, _) = split_of_fields path in
    elim (Bool-cases (fixed_of path == 0)) [
      | inl root ↦ rw root refl
      | inr below ↦ elim (Option-cases (resolve_dir fs cwd (dir_text path))) [
        | inl nowhere ↦ rw (below, nowhere) refl
        | inr (dir, there) ↦ elim (Bool-cases ((split_of path).name_length == 0)) [
          | inl nameless ↦ rw (below, there, nameless) (rw no_file refl)
          | inr other ↦
              rw (below, there, other)
                (file_of-placed fs dir (name_text path) (split_of path) no_file)
        ]
      ]
    ]

-- The id of what was found is one that was given.
abbrev pub HasGivenId : Fs → Object → Type 0
HasGivenId fs no_object = Unit {0}
HasGivenId fs (file_object n) = n < fs.next
HasGivenId fs (folder_object n) = n < fs.next

file-existing-lt-next : (fs : Fs) → IsTree fs → (n : ℕ) → fs.file n ≢ none → n < fs.next
file-existing-lt-next fs t n exists = ground (arith, t.fresh_file n)

pub found_at-HasGivenId :
    (fs : Fs)
    → IsTree fs
    → (id c : ℕ) (s : Bytes) → fs.folder id ≢ none
    → HasGivenId fs (found_at fs id (c ∷ s))
unfolding found_at
found_at-HasGivenId fs t id c s exists =
    let folder = λ (dir : ℕ) (there : resolve_dir fs id (slash_ended (c ∷ s)) ≡ some dir).
      existing-lt-next fs t dir
        (resolve_dir-exists fs t id (slash_ended (c ∷ s)) dir exists there) in
    elim (Bool-cases (byte_at (c ∷ s) (length s) == b'/')) [
      | inl slash ↦ elim (Option-cases (resolve_dir fs id (slash_ended (c ∷ s)))) [
        | inl nowhere ↦ rw (slash, nowhere) tt
        | inr (dir, there) ↦ rw (slash, there) (folder dir there)
      ]
      | inr other ↦ elim (Option-cases (file_at fs id (c ∷ s))) [
        | inr (n, found) ↦
            rw (other, found) (file-existing-lt-next fs t n (file_at-exists fs id (c ∷ s) n found))
        | inl no_file ↦ elim (Option-cases (resolve_dir fs id (slash_ended (c ∷ s)))) [
          | inl nowhere ↦ rw (other, no_file, nowhere) tt
          | inr (dir, there) ↦ rw (other, no_file, there) (folder dir there)
        ]
      ]
    ]

-- What `Getattr` makes of the item that was found.
attributes-item_of :
    (fs : Fs) (junk : DirItemInfo) (o : Object)
    → fs.next ≤ long_max
    → HasGivenId fs o
    → record {
      nlink = nlink_of_long (item_of fs junk o).id;
      mode = mode_of (item_of fs junk o).type;
      size = 0;
    }
      ≡ attributes_of junk o
unfolding nlink_of_long
attributes-item_of fs junk no_object fit given = refl
attributes-item_of fs junk (file_object n) fit given =
    ap (λ k. record { nlink = k; mode = s_ifreg; size = 0 }) (small n given)
  where
    small : (n : ℕ) → n < fs.next → n % ulong_mod ≡ n
    small n given = omega arith
attributes-item_of fs junk (folder_object n) fit given =
    ap (λ k. record { nlink = k; mode = s_ifdir; size = 0 }) (omega arith)

module _ (r : Redis) (laws : IsRedis r) (d : r.Db) (fs : Fs) (h : Represents r laws d fs)
    (t : IsTree fs) where
  module _ (named : IsNamed fs) (cwd : Bytes) (id : ℕ) (at : IsCwd fs cwd id) (state : ParserState)
      (c : ℕ) (s : Bytes) where
    get_file_id_from_path-file_at :
        get_file_id_from_path r d cwd state (c ∷ s) ≡ ok (id_or (file_at fs id (c ∷ s)) minus_one)
    unfolding get_file_id_from_path
    get_file_id_from_path-file_at = rw (get_cwd_id_lem r laws d fs h t named cwd id at) (
        rw
          (vfs_parse_path-parsed r laws d fs h t state id c s
            (cwd-exists r laws d fs h t named cwd id at))
          (ap ok (file_of-parsed fs id (c ∷ s))))

    pub get_folder_id_from_path-resolve_dir :
        get_folder_id_from_path r d cwd (c ∷ s)
        ≡ ok (id_or (resolve_dir fs id (slash_ended (c ∷ s))) minus_one)
    unfolding get_folder_id_from_path
    get_folder_id_from_path-resolve_dir = rw (get_cwd_id_lem r laws d fs h t named cwd id at) (
        get_dir_id_from_path-resolve_dir r laws d fs h t id c s
          (cwd-exists r laws d fs h t named cwd id at))

    -- The file of the path, unless a slash ends it.
    abbrev file_there : Option ℕ
    file_there = if byte_at (c ∷ s) (length s) == b'/' then none else file_at fs id (c ∷ s)

    file_id_unless_slash-file_at :
        file_id_unless_slash r d cwd state (c ∷ s) ≡ ok (id_or file_there minus_one)
    unfolding file_id_unless_slash
    file_id_unless_slash-file_at = elim (Bool-cases (byte_at (c ∷ s) (length s) == b'/')) [
      | inl slash ↦ rw slash refl
      | inr other ↦ rw other get_file_id_from_path-file_at
    ]

    file_there-exists : (n : ℕ) → file_there ≡ some n → fs.file n ≢ none
    file_there-exists n e = elim (Bool-cases (byte_at (c ∷ s) (length s) == b'/')) [
      | inl slash ↦ cc (rw slash at e)
      | inr other ↦ file_at-exists fs id (c ∷ s) n (rw other at e)
    ]

    -- The name of an item whose id and type are known.
    named_item-file :
        (junk : DirItemInfo) (n : ℕ)
        → fs.file n ≢ none
        → named_item r d (record junk { id = pos n; type = dir_item_file })
          ≡ ok (item_of fs junk (file_object n))
    unfolding named_item
    named_item-file junk n exists = elim (Option-cases (fs.file n)) [
      | inl missing ↦ absurd (exists missing)
      | inr (info, e) ↦ rw (redis_get_file_name_lem r laws d fs h n info e, e, name_of_file) refl
    ]

    named_item-folder :
        (junk : DirItemInfo) (n : ℕ)
        → fs.folder n ≢ none
        → named_item r d (record junk { id = pos n; type = dir_item_folder })
          ≡ ok (item_of fs junk (folder_object n))
    unfolding named_item
    named_item-folder junk n exists = elim (Option-cases (fs.folder n)) [
      | inl missing ↦ absurd (exists missing)
      | inr (info, e) ↦
          rw (redis_get_folder_name_lem r laws d fs h n info e, e, name_of_folder) refl
    ]

    pub stat-found_at :
        (junk : DirItemInfo)
        → stat r d cwd junk state (c ∷ s) ≡ ok (item_of fs junk (found_at fs id (c ∷ s)))
    unfolding stat get_dir_item_info found_at
    stat-found_at junk = rw file_id_unless_slash-file_at (elim (Option-cases file_there) [
      | inr (n, found) ↦ rw found (named_item-file junk n (file_there-exists n found))
      | inl no_file ↦
          rw (no_file, get_folder_id_from_path-resolve_dir)
            (elim (Option-cases (resolve_dir fs id (slash_ended (c ∷ s)))) [
              | inl nowhere ↦ rw nowhere refl
              | inr (dir, there) ↦ rw there (
                  named_item-folder junk dir (
                    resolve_dir-exists fs t id (slash_ended (c ∷ s)) dir
                      (cwd-exists r laws d fs h t named cwd id at) there))
            ])
    ])

    -- On a dataset that represents a well-formed file system in which every folder is found by
    -- its own name in its parent and no folder name has a slash, in a current directory that is
    -- the absolute path of a folder, `Getattr` of a path that is not empty always returns
    -- status 0, also where there is nothing. It sets the type and, as the link count, the id of
    -- the file that the path leads to, if no slash ends the path, or else of the folder; where
    -- there is nothing, the link count is 18446744073709551615, as which the unsigned field
    -- holds the id -1, and the type comes from what the uninitialised variable holds.
    pub getattr-found_at :
        (junk : DirItemInfo)
        → getattr r d cwd junk state (c ∷ s)
          ≡ ok (pos 0, attributes_of junk (found_at fs id (c ∷ s)))
    unfolding getattr
    getattr-found_at junk = rw (stat-found_at junk) (
        ap (λ a. ok (pos 0, a))
          (attributes-item_of fs junk (found_at fs id (c ∷ s)) t.ids_fit
            (found_at-HasGivenId fs t id c s (cwd-exists r laws d fs h t named cwd id at))))
