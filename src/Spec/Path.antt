-- ===== src/Spec/Path.antt =====
-- The absolute path of a folder: the names on the way from the root.
use redis_virtual_file_syste.Common.{
  inl, inr, ℕ, ◌≡◌, ◌≢◌, refl, ap, ◌∙◌, List, [], ◌∷◌, ◌++◌, Bytes, some, All, All-append, arith,
}
use mathlib.Core.Path.{subst, sym}
use mathlib.Core.List.{append-nil, append_assoc}
use redis_virtual_file_syste.Spec.{Fs, FolderInfo}
use redis_virtual_file_syste.Spec.Tree.{IsPlain}
use redis_virtual_file_syste.Spec.Lookup.{
  find_object, Object-cases, folder_object, dir_names, walk, resolve_dir,
}

-- The names of the folders from the root down to a folder.
pub data PathOf (fs : Fs) : ℕ → List Bytes → Type 0 where
  root : {id : ℕ} → id ≡ 0 → PathOf fs id []
  child :
      {id : ℕ} {names names' : List Bytes} (info : FolderInfo)
      → fs.folder id ≡ some info
      → id ≢ 0
      → PathOf fs info.parent names
      → names' ≡ names ++ (info.name ∷ [])
      → PathOf fs id names'

-- `/a/b` for the names `a` and `b`, and nothing for no name.
abbrev pub slashed : List Bytes → Bytes
slashed [] = []
slashed (name ∷ names) = (b'/' ∷ name) ++ slashed names

-- A folder is what its own name finds in its parent, and its name has no slash.
pub record IsNamed (fs : Fs) : Type 0 where
  pub finds :
      (id : ℕ) (info : FolderInfo)
      → fs.folder id ≡ some info
      → id ≢ 0
      → find_object fs info.parent info.name ≡ folder_object id
  pub plain : (id : ℕ) (info : FolderInfo) → fs.folder id ≡ some info → All IsPlain info.name

pub slashed-append :
    (xs : List Bytes) (name : Bytes) → slashed (xs ++ (name ∷ [])) ≡ slashed xs ++ (b'/' ∷ name)
slashed-append [] name = append-nil (b'/' ∷ name)
slashed-append (x ∷ xs) name =
    ap (λ k. (b'/' ∷ x) ++ k) (slashed-append xs name)
    ∙ sym-assoc (b'/' ∷ x) (slashed xs) (b'/' ∷ name)
  where
    sym-assoc : (a b c : Bytes) → a ++ (b ++ c) ≡ (a ++ b) ++ c
    sym-assoc a b c = rw append_assoc

-- A walk in two parts.
pub walk-append :
    (fs : Fs) (dir : ℕ) (names more : List Bytes) (next : ℕ)
    → walk fs dir names ≡ some next
    → walk fs dir (names ++ more) ≡ walk fs next more
unfolding walk
walk-append fs dir [] more next e = ground arith
walk-append fs dir (n ∷ names) more next e = elim (Object-cases (find_object fs dir n)) [
  | inl missing ↦ cc (rw (missing, walk) at e)
  | inr (inl (file, found)) ↦ cc (rw (found, walk) at e)
  | inr (inr (dir', found)) ↦
      rw (found, walk) (walk-append fs dir' names more next (rw (found, walk) at e))
]

-- Walking a folder's path from the root ends at the folder.
pub walk-PathOf :
    (fs : Fs)
    → IsNamed fs
    → {id : ℕ} {names : List Bytes} → PathOf fs id names
    → walk fs 0 names ≡ some id
unfolding walk
walk-PathOf fs named (root e) = rw e refl
walk-PathOf fs named {id} (child info found positive up e) = rw e (
    walk-append fs 0 _ (info.name ∷ []) info.parent (walk-PathOf fs named up)
    ∙ rw (named.finds id info found positive, walk) refl)

pub PathOf-IsPlain :
    (fs : Fs)
    → IsNamed fs
    → {id : ℕ} {names : List Bytes} → PathOf fs id names
    → All (All IsPlain) names
PathOf-IsPlain fs named (root e) = tt
PathOf-IsPlain fs named {id} (child info found positive up e) = rw e (
    All-append (All IsPlain) _ (info.name ∷ [])
      (PathOf-IsPlain fs named up, (named.plain id info found, tt)))

-- A slashed list with a final slash has the names that it was made of.
pub dir_names-plain :
    (name rest : Bytes)
    → All IsPlain name
    → dir_names (name ++ (b'/' ∷ rest)) ≡ name ∷ dir_names rest
unfolding dir_names
dir_names-plain [] rest plain = refl
dir_names-plain (c ∷ name) rest (p, plain) =
    rw (dir_names-plain name rest plain) (ground (arith, p))

abbrev pub body : List Bytes → Bytes
body [] = []
body (name ∷ names) = name ++ (b'/' ∷ body names)

pub slashed-body : (names : List Bytes) → slashed names ++ (b'/' ∷ []) ≡ b'/' ∷ body names
slashed-body [] = refl
slashed-body (name ∷ names) = rw (append_assoc) (ap (λ k. b'/' ∷ (name ++ k)) (slashed-body names))

pub dir_names-body : (names : List Bytes) → All (All IsPlain) names → dir_names (body names) ≡ names
unfolding dir_names
dir_names-body [] plain = refl
dir_names-body (name ∷ names) (p, plain) =
    unfold_none name (body names) p ∙ ap (λ k. name ∷ k) (dir_names-body names plain)
  where
    unfold_none :
        (n rest : Bytes) → All IsPlain n → dir_names (n ++ (b'/' ∷ rest)) ≡ n ∷ dir_names rest
    unfold_none n rest p = dir_names-plain n rest p

-- The absolute path of a folder, resolved from anywhere, is the folder.
pub resolve_dir-PathOf :
    (fs : Fs)
    → IsNamed fs
    → (cwd : ℕ) {id : ℕ} {names : List Bytes} → PathOf fs id names
    → resolve_dir fs cwd (slashed names ++ (b'/' ∷ [])) ≡ some id
unfolding resolve_dir
resolve_dir-PathOf fs named cwd {names = ns} p =
    rw (slashed-body ns, dir_names-body ns (PathOf-IsPlain fs named p)) (walk-PathOf fs named p)

-- A folder has one path.
pub PathOf-unique :
    (fs : Fs) {id : ℕ} {names names' : List Bytes}
    → PathOf fs id names
    → PathOf fs id names'
    → names ≡ names'
PathOf-unique fs (root e) (root e') = refl
PathOf-unique fs (root e) (child info found positive up e') = absurd (positive e)
PathOf-unique fs (child info found positive up e) (root e') = absurd (positive e')
PathOf-unique fs (child {names = ns} info found positive up e)
      (child {names = ns'} info' found' positive' up' e') =
    let same : info ≡ info' = cc in
    let rest : ns ≡ ns' =
      PathOf-unique fs up (subst (λ (i : FolderInfo). PathOf fs i.parent ns') (sym same) up') in
    cc
