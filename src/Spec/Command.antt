-- ===== src/Spec/Command.antt =====
-- Paths as the public calls take them: relative to a current directory, which is an absolute path.
use redis_virtual_file_syste.Common.{
  ℕ, ◌≡◌, refl, ap, ◌∙◌, List, [], ◌∷◌, ◌++◌, Bytes, Option, some, All, ◌==◌, ◌&&◌, if◌then◌else◌,
  drop,
}
use mathlib.Core.List.{append_assoc, append-nil}
use redis_virtual_file_syste.PathParser.Scan.{byte_at}
use redis_virtual_file_syste.Spec.{Fs}
use redis_virtual_file_syste.Spec.Tree.{IsPlain}
use redis_virtual_file_syste.Spec.Lookup.{dir_names, walk, resolve_dir}
use redis_virtual_file_syste.Spec.Path.{
  PathOf, slashed, IsNamed, walk-append, walk-PathOf, PathOf-IsPlain, dir_names-plain, slashed-body,
  body, resolve_dir-PathOf,
}

-- The current directory `cwd` is the absolute path of the folder `id`.
abbrev pub IsCwd : Fs → Bytes → ℕ → Type 0
IsCwd fs cwd id = (names : List Bytes) × PathOf fs id names × (cwd ≡ slashed names ++ (b'/' ∷ []))

-- A path with a slash at its end.
unfoldable pub slash_ended : Bytes → Bytes
slash_ended [] = []
slash_ended (c ∷ []) = if c == b'/' then c ∷ [] else c ∷ b'/' ∷ []
slash_ended (c ∷ e ∷ s) = c ∷ slash_ended (e ∷ s)

-- A path without a leading `/` or `./`.
unfoldable pub strip_prefix : Bytes → Bytes
strip_prefix [] = []
strip_prefix (c ∷ s) =
    if c == b'/' then s else if c == b'.' && byte_at s 0 == b'/' then drop 1 s else c ∷ s

-- Where a path starts from: the root, or the current folder.
abbrev pub start_of : ℕ → Bytes → ℕ
start_of id [] = id
start_of id (c ∷ s) = if c == b'/' then 0 else id

-- The folder that a path leads to, if all of its names are folders.
abbrev pub folder_at : Fs → ℕ → Bytes → Option ℕ
folder_at fs id path = walk fs (start_of id path) (dir_names (slash_ended (strip_prefix path)))

-- A path behind the absolute path that the names make.
abbrev pub absolute : List Bytes → Bytes → Bytes
absolute names path = (slashed names ++ (b'/' ∷ [])) ++ strip_prefix path

slash_ended-append :
    (a : Bytes) (c : ℕ) (s : Bytes) → slash_ended (a ++ (c ∷ s)) ≡ a ++ slash_ended (c ∷ s)
unfolding slash_ended
slash_ended-append [] c s = refl
slash_ended-append (x ∷ []) c s = refl
slash_ended-append (x ∷ y ∷ a) c s = ap (λ k. x ∷ k) (slash_ended-append (y ∷ a) c s)

pub dir_names-body_append :
    (names : List Bytes) (rest : Bytes)
    → All (All IsPlain) names
    → dir_names (body names ++ rest) ≡ names ++ dir_names rest
dir_names-body_append [] rest plain = refl
dir_names-body_append (name ∷ names) rest (p, plain) = rw append_assoc (
    dir_names-plain name (body names ++ rest) p
    ∙ ap (λ k. name ∷ k) (dir_names-body_append names rest plain))

-- A path behind a folder's absolute path leads from that folder on.
pub resolve_dir-behind :
    (fs : Fs)
    → IsNamed fs
    → (cwd : ℕ) {id : ℕ} {names : List Bytes} → PathOf fs id names
    → (right : Bytes)
    → resolve_dir fs cwd (slash_ended ((slashed names ++ (b'/' ∷ [])) ++ right))
      ≡ walk fs id (dir_names (slash_ended right))
unfolding resolve_dir walk dir_names slash_ended
resolve_dir-behind fs named cwd {names = ns} p [] =
    rw (append-nil, slash_ended-append (slashed ns) b'/' []) (resolve_dir-PathOf fs named cwd p)
resolve_dir-behind fs named cwd {id} {names = ns} p (c ∷ s) =
    rw (slash_ended-append (slashed ns ++ (b'/' ∷ [])) c s, slashed-body ns)
      (rw (dir_names-body_append ns (slash_ended (c ∷ s)) (PathOf-IsPlain fs named p))
        (walk-append fs 0 ns (dir_names (slash_ended (c ∷ s))) id (walk-PathOf fs named p)))

pub resolve_dir-cwd :
    (fs : Fs)
    → IsNamed fs
    → (dir : ℕ) (cwd : Bytes) (id : ℕ) → IsCwd fs cwd id
    → resolve_dir fs dir (slash_ended cwd) ≡ some id
unfolding slash_ended
resolve_dir-cwd fs named dir cwd id (ns, p, e) =
    rw (e, slash_ended-append (slashed ns) b'/' []) (resolve_dir-PathOf fs named dir p)
