-- ===== src/Refine/Parse.antt =====
-- `vfs_parsePath` of vfsPathParser.c, against the abstract file system.
use redis_virtual_file_syste.Common.{
  drop-drop, ℕ, zero, suc, ◌-◌, ◌≤◌, ◌≡◌, ◌≢◌, ◌∙◌, refl, sym, ap, [], ◌∷◌, ◌++◌, Bytes, ℤ, pos,
  minus_one, none, some, Bool, true, false, length, take, drop, take-append-drop, length-drop, ◌==◌,
  ==_iff, ◌&&◌, if◌then◌else◌, arith, ok, Bool-cases, Option-cases, inl, inr,
}
use mathlib.Core.Path.{ap₂}
use redis_virtual_file_syste.Redis.{Redis, IsRedis}
use redis_virtual_file_syste.PathParser.State.{
  ParserState, init_parser_state, root_folder_id, root_parent_id,
}
use redis_virtual_file_syste.PathParser.Scan.{byte_at, split_behind_slash}
use redis_virtual_file_syste.PathParser.Walk.{
  vfs_find_object_in_dir, find_last_name, vfs_parse_path, fixed_length, start_dir,
  vfs_get_dir_id_from_path,
}
use redis_virtual_file_syste.Spec.{Fs}
use redis_virtual_file_syste.Spec.Tree.{IsTree}
use redis_virtual_file_syste.Spec.Lookup.{
  Object, no_object, file_object, folder_object, find_object, resolve_dir, parent_of, Object-cases,
}
use redis_virtual_file_syste.Refine.Represents.{Represents}
use redis_virtual_file_syste.Refine.Names.{EndsName}
use redis_virtual_file_syste.Refine.Find.{id_or, vfs_get_dir_parent-parent_of}
use redis_virtual_file_syste.Refine.Walk.{
  find_object-exists, vfs_find_object_in_dir-find_object, vfs_get_dir_id_from_path-walk,
  resolve_dir-exists,
}
use redis_virtual_file_syste.Refine.LastName.{
  split_behind_slash-IsLastNameOf, vfs_seperate_path_and_name-split,
}

-- The state for an object of the folder `dir`: what is new has `dir` for parent, a file too, and a
-- folder its own parent, which is another one for `.` and `..`.
abbrev pub placed : Fs → ParserState → ℕ → Object → ParserState
placed fs state dir no_object = record state { is_existing_object = false; parent_id = pos dir }
placed fs state dir (file_object id) = record state {
  id = pos id;
  is_file_path = true;
  is_dir = false;
  is_existing_object = true;
  parent_id = pos dir;
}
placed fs state dir (folder_object id) = record state {
  id = pos id;
  is_file_path = false;
  is_dir = true;
  is_existing_object = true;
  parent_id = id_or (parent_of fs id) minus_one;
}

abbrev pub root_state : ParserState
root_state = record init_parser_state {
  id = root_folder_id;
  parent_id = root_parent_id;
  is_dir = true;
  is_file_path = false;
}

-- The parts of a path: the length without a slash at the end, the split behind the last slash of
-- that, the text with the names on the way, and the name at the end.
abbrev pub fixed_of : Bytes → ℕ
fixed_of path = fixed_length path (length path)

abbrev pub split_of : Bytes → ParserState
split_of path = split_behind_slash init_parser_state path (fixed_of path)

abbrev pub dir_text : Bytes → Bytes
dir_text path = take (fixed_of path) path

abbrev pub name_text : Bytes → Bytes
name_text path = take (split_of path).name_length (drop (split_of path).name_offset path)

-- The status and the state of a path that is not empty, from an existing folder.
unfoldable pub parsed : Fs → ℕ → Bytes → ℤ × ParserState
parsed fs cwd path =
    if fixed_of path == 0 then (pos 0, root_state) else elim (resolve_dir fs cwd (dir_text path)) [
      | none ↦ (minus_one, split_of path)
      | some dir ↦
          if (split_of path).name_length == 0
          then (pos 0, split_of path)
          else (pos 0, placed fs (split_of path) dir (find_object fs dir (name_text path)))
    ]

-- The path leads to an existing folder, and a name follows: what is said of the object of that name
-- holds of the path.
pub record LeadsTo (fs : Fs) (cwd : ℕ) (path : Bytes) (dir : ℕ) : Type 0 where
  pub below_root : (fixed_of path == 0) ≡ false
  pub resolved : resolve_dir fs cwd (dir_text path) ≡ some dir
  pub named : ((split_of path).name_length == 0) ≡ false

pub parsed-LeadsTo :
    (fs : Fs) (cwd : ℕ) (path : Bytes) (dir : ℕ)
    → LeadsTo fs cwd path dir
    → parsed fs cwd path
      ≡ (pos 0, placed fs (split_of path) dir (find_object fs dir (name_text path)))
unfolding parsed
parsed-LeadsTo fs cwd path dir to = rw (to.below_root, to.resolved, to.named) refl

-- A name on the way is no folder.
pub parsed-nowhere :
    (fs : Fs) (cwd : ℕ) (path : Bytes)
    → (fixed_of path == 0) ≡ false
    → resolve_dir fs cwd (dir_text path) ≡ none
    → parsed fs cwd path ≡ (minus_one, split_of path)
unfolding parsed
parsed-nowhere fs cwd path below nowhere = rw (below, nowhere) refl

-- The split leaves the other fields as they were initialised.
pub split_of_fields :
    (path : Bytes)
    → ((split_of path).is_existing_object ≡ true)
      × ((split_of path).is_dir ≡ false)
      × ((split_of path).is_file_path ≡ false)
      × ((split_of path).id ≡ minus_one)
      × ((split_of path).parent_id ≡ minus_one)
unfolding split_behind_slash init_parser_state
split_of_fields path = ground arith

drop-all : (s : Bytes) → drop (length s) s ≡ []
drop-all [] = refl
drop-all (x ∷ s) = drop-all s

length-take : (n : ℕ) (s : Bytes) → n ≤ length s → length (take n s) ≡ n
length-take zero s h = refl
length-take (suc n) [] h = absurd (omega arith)
length-take (suc n) (x ∷ s) h = ap suc (length-take n s (omega arith))

EndsName-last :
    (c : ℕ) (s : Bytes) → byte_at (c ∷ s) (length s) ≡ b'/' → EndsName (drop (length s) (c ∷ s))
EndsName-last c [] e = e
EndsName-last c (x ∷ s) e = EndsName-last x s e

sub-one : (n : ℕ) → suc n - 1 ≡ n
sub-one n = omega arith

-- What follows the name is the end of the path or its last slash.
EndsName-fixed :
    (c : ℕ) (s : Bytes) → EndsName (drop (fixed_length (c ∷ s) (length (c ∷ s))) (c ∷ s))
EndsName-fixed c s = elim (Bool-cases (byte_at (c ∷ s) (length s) == b'/')) [
  | inl slash ↦ rw (sub-one (length s), slash) (EndsName-last c s ((==_iff _ b'/').0 slash))
  | inr plain ↦ rw (sub-one (length s), plain, drop-all s) tt
]

fixed_length-le : (c : ℕ) (s : Bytes) → fixed_length (c ∷ s) (length (c ∷ s)) ≤ length (c ∷ s)
fixed_length-le c s = ground arith

fixed-eq-zero :
    (c : ℕ) (s : Bytes) → (fixed_length (c ∷ s) (length (c ∷ s)) == 0) ≡ true → (c == b'/') ≡ true
fixed-eq-zero c [] e = ground arith
fixed-eq-zero c (x ∷ s) e = ground arith

and_false : (b : Bool) → (b && false) ≡ false
and_false true = refl
and_false false = refl

module _ (r : Redis) (laws : IsRedis r) (d : r.Db) (fs : Fs) (h : Represents r laws d fs)
    (t : IsTree fs) where
  -- The end of `vfs_parsePath`: the search for the name, and the parent by what it found.
  find_last_name-placed :
      (state : ParserState) (dir : ℕ) (path c rest : Bytes)
      → drop state.name_offset path ≡ c ++ rest
      → state.name_length ≡ length c
      → EndsName rest
      → fs.folder dir ≢ none
      → find_last_name r d state (pos dir) path
        ≡ ok (pos 0, placed fs state dir (find_object fs dir c))
  unfolding find_last_name
  find_last_name-placed state dir path c rest text count ends exists =
      rw
        (ap₂ (λ p n. vfs_find_object_in_dir r d state (pos dir) p n) text count
          ∙ vfs_find_object_in_dir-find_object r laws d fs h t state dir c rest ends exists)
        (elim (Object-cases (find_object fs dir c)) [
          | inl e ↦ rw e refl
          | inr (inl (id, e)) ↦ rw e refl
          | inr (inr (id, e)) ↦
              rw
                (
                  e,
                  vfs_get_dir_parent-parent_of r laws d fs h t id
                      (find_object-exists fs t dir c id exists e),
                )
                refl
        ])

  -- A leading slash starts the walk at the root in both.
  dir_id-resolve_dir :
      (cwd : ℕ) (c : ℕ) (s : Bytes) (n : ℕ)
      → n ≤ length (c ∷ s)
      → (n == 0) ≡ false
      → fs.folder cwd ≢ none
      → vfs_get_dir_id_from_path r d (start_dir (c ∷ s) (pos cwd)) (c ∷ s) n
        ≡ ok (id_or (resolve_dir fs cwd (take n (c ∷ s))) minus_one)
  dir_id-resolve_dir cwd c s zero fits positive exists = cc
  dir_id-resolve_dir cwd c s (suc n) fits positive exists = elim (Bool-cases (c == b'/')) [
    | inl slash ↦ rw slash (
        vfs_get_dir_id_from_path-walk r laws d fs h t 0 (c ∷ s) (suc n) fits (omega arith)
          (ground (arith, t.root))
        ∙ unfold resolve_dir in rw slash refl)
    | inr plain ↦ rw plain (
        vfs_get_dir_id_from_path-walk r laws d fs h t cwd (c ∷ s) (suc n) fits (omega arith) exists)
  ]

  -- The name of the split, and what follows it in the path.
  find_last_name-split :
      (dir : ℕ) (c : ℕ) (s : Bytes)
      → fs.folder dir ≢ none
      → let path : Bytes = c ∷ s in
        let split = split_behind_slash init_parser_state path (fixed_length path (length path)) in
        find_last_name r d split (pos dir) path
        ≡ ok (
          pos 0,
          placed fs split dir
              (find_object fs dir (take split.name_length (drop split.name_offset path))),
        )
  find_last_name-split dir c s exists =
      let path : Bytes = c ∷ s in
      let fixed : ℕ = fixed_length path (length path) in
      let split = split_behind_slash init_parser_state path fixed in
      let parts = split_behind_slash-IsLastNameOf init_parser_state path fixed in
      find_last_name-placed split dir path (take split.name_length (drop split.name_offset path))
        (drop fixed path)
        (sym (take-append-drop split.name_length (drop split.name_offset path))
          ∙ ap (λ k. take split.name_length (drop split.name_offset path) ++ k)
              (drop-drop split.name_offset split.name_length path
                ∙ ap (λ k. drop k path) parts.to_end))
        (sym (
          length-take split.name_length (drop split.name_offset path)
            (omega (arith, length-drop split.name_offset path, parts.to_end, fixed_length-le c s))))
        (EndsName-fixed c s) exists

  -- On a dataset that represents a well-formed file system, `vfs_parsePath` of any path that is
  -- not empty, with the path's whole length, from an existing folder and with any earlier
  -- content of the caller's state, always returns, and its status and state are what `parsed`
  -- computes from the abstract file system: status 0 and the root's state for the root, status
  -- -1 where a folder on the way is missing, and else status 0, the split, and if there is a
  -- last name what it finds and the parent.
  pub vfs_parse_path-parsed :
      (state : ParserState) (cwd : ℕ) (c : ℕ) (s : Bytes)
      → fs.folder cwd ≢ none
      → vfs_parse_path r d state (c ∷ s) (length (c ∷ s)) (pos cwd) ≡ ok (parsed fs cwd (c ∷ s))
  unfolding vfs_parse_path parsed
  vfs_parse_path-parsed state cwd c s exists =
      let path : Bytes = c ∷ s in
      let fixed : ℕ = fixed_length path (length path) in
      elim (Bool-cases (fixed == 0)) [
        | inl root ↦ rw (root, fixed-eq-zero c s root) refl
        | inr other ↦
            rw
              (
                other,
                and_false,
                vfs_seperate_path_and_name-split init_parser_state path fixed
                    (omega (arith, fixed_length-le c s)),
              )
              (rw (dir_id-resolve_dir cwd c s fixed (fixed_length-le c s) other exists)
                (elim (Option-cases (resolve_dir fs cwd (take fixed path))) [
                  | inl nowhere ↦ rw nowhere refl
                  | inr (dir, there) ↦
                      rw
                        (
                          there,
                          find_last_name-split dir c s
                              (resolve_dir-exists fs t cwd (take fixed path) dir exists there),
                        )
                        (ground arith)
                ]))
      ]
