-- ===== src/Refine/Names.antt =====
-- The comparisons of a name inside a path. The name `c` is followed by the rest of the path, which
-- is empty or begins with a slash.
use redis_virtual_file_syste.Common.{
  ℕ, zero, suc, ◌≤◌, ◌≡◌, ◌⊎◌, refl, [], ◌∷◌, ◌++◌, Bytes, codes, ◌&&◌, length, ltb, ◌==◌,
  if◌then◌else◌, arith, bytes_eq, All,
}
use redis_virtual_file_syste.Libc.Compare.{strncmp_eq}
use redis_virtual_file_syste.Spec.Tree.{IsPlain}
use redis_virtual_file_syste.Spec.Lookup.{is_prefix}

abbrev pub EndsName : Bytes → Type 0
EndsName [] = Unit
EndsName (c ∷ s) = c ≡ b'/'

strncmp_eq-longer :
    (c rest f : Bytes) (n : ℕ)
    → EndsName rest
    → All IsPlain f
    → length c ≤ n
    → length f ≤ n
    → (n ≡ length c) ⊎ (n ≡ length f)
    → strncmp_eq (c ++ rest) f n ≡ bytes_eq c f
unfolding strncmp_eq bytes_eq
strncmp_eq-longer [] rest [] zero e p h k m = refl
strncmp_eq-longer [] rest [] (suc n) e p h k m = absurd (omega arith)
strncmp_eq-longer [] rest (y ∷ f) zero e p h k m = absurd (omega arith)
strncmp_eq-longer [] [] (y ∷ f) (suc n) e p h k m = refl
strncmp_eq-longer [] (x ∷ rest) (y ∷ f) (suc n) e p h k m = ground arith
strncmp_eq-longer (x ∷ c) rest f zero e p h k m = absurd (omega arith)
strncmp_eq-longer (x ∷ c) rest [] (suc n) e p h k m = refl
strncmp_eq-longer (x ∷ c) rest (y ∷ f) (suc n) e p h k m =
    rw (strncmp_eq-longer c rest f n e p.1 (omega arith) (omega arith) (omega arith)) refl

-- Up to the longer length, a name equals a file's name without a slash exactly if the names are equal.
pub strncmp_eq-file :
    (c rest f : Bytes)
    → EndsName rest
    → All IsPlain f
    → strncmp_eq (c ++ rest) f (if ltb (length f) (length c) then length c else length f)
      ≡ bytes_eq c f
strncmp_eq-file c rest f e p =
    strncmp_eq-longer c rest f _ e p (ground arith) (ground arith) (ground arith)

-- Up to its own length, a name equals what it is a prefix of.
pub strncmp_eq-prefix : (c rest s : Bytes) → strncmp_eq (c ++ rest) s (length c) ≡ is_prefix c s
unfolding strncmp_eq
strncmp_eq-prefix [] rest s = refl
strncmp_eq-prefix (x ∷ c) rest [] = refl
strncmp_eq-prefix (x ∷ c) rest (y ∷ s) = rw (strncmp_eq-prefix c rest s) refl

pub is_dot :
    (c rest : Bytes)
    → (length c == 1 && strncmp_eq (codes ".") (c ++ rest) 1) ≡ bytes_eq c (codes ".")
unfolding strncmp_eq bytes_eq
is_dot [] rest = refl
is_dot (x ∷ []) rest = ground arith
is_dot (x ∷ y ∷ c) rest = ground arith

pub is_dot_dot :
    (c rest : Bytes)
    → (length c == 2 && strncmp_eq (codes "..") (c ++ rest) 2) ≡ bytes_eq c (codes "..")
unfolding strncmp_eq bytes_eq
is_dot_dot [] rest = refl
is_dot_dot (x ∷ []) rest = ground arith
is_dot_dot (x ∷ y ∷ []) rest = ground arith
is_dot_dot (x ∷ y ∷ z ∷ c) rest = ground arith
