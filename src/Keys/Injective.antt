-- ===== src/Keys/Injective.antt =====
-- Different purposes and ids have different keys.
use redis_virtual_file_syste.Common.{
  ℕ, ◌≡◌, ◌≢◌, refl, ap, false, inl, inr, Bool-cases, [], ◌∷◌, ◌++◌, Bytes, codes, All, arith,
  bytes_eq, bytes_eq_iff,
}
use redis_virtual_file_syste.Libc.Decimal.{decimal}
use redis_virtual_file_syste.Libc.RoundTrip.{IsDigit, decimal-IsDigit, decimal-injective}
use redis_virtual_file_syste.Keys.{
  Slot, folder_info, folder_folders, folder_files, file_info, id_count, created, key_of, folder_key,
  file_key,
}

-- A run of digits in front of an underscore can be told from the text behind it.
digits_before_underscore :
    (a b s t : Bytes)
    → All IsDigit a
    → All IsDigit b
    → a ++ (b'_' ∷ s) ≡ b ++ (b'_' ∷ t)
    → (a ≡ b) × (s ≡ t)
digits_before_underscore [] [] s t h k e = ground arith
digits_before_underscore [] (y ∷ b) s t h k e = absurd (ground arith)
digits_before_underscore (x ∷ a) [] s t h k e = absurd (ground arith)
digits_before_underscore (x ∷ a) (y ∷ b) s t h k e =
    ground (arith, digits_before_underscore a b s t h.1 k.1)

number_and_suffix :
    (m n : ℕ) (s t : Bytes) → decimal m ++ (b'_' ∷ s) ≡ decimal n ++ (b'_' ∷ t) → (m ≡ n) × (s ≡ t)
number_and_suffix m n s t e =
    let (same, rest) =
      digits_before_underscore (decimal m) (decimal n) s t (decimal-IsDigit m) (decimal-IsDigit n)
        e in
    (decimal-injective m n same, rest)

-- The second byte tells the prefixes apart, and the suffixes.
abbrev second : Bytes → ℕ
second (x ∷ y ∷ s) = y
second _ = 0

folder_key-injective :
    (m n : ℕ) (s t : Bytes)
    → folder_key (decimal m) (b'_' ∷ s) ≡ folder_key (decimal n) (b'_' ∷ t)
    → (m ≡ n) × (s ≡ t)
folder_key-injective m n s t e = number_and_suffix m n s t (cc)

file_key-injective : (m n : ℕ) → file_key (decimal m) ≡ file_key (decimal n) → m ≡ n
file_key-injective m n e = (number_and_suffix m n (codes "info") (codes "info") (cc)).0

suffix_differs :
    (m n : ℕ) (s t : Bytes)
    → second s ≢ second t
    → folder_key (decimal m) (b'_' ∷ s) ≢ folder_key (decimal n) (b'_' ∷ t)
suffix_differs m n s t differ e = differ (ap second (folder_key-injective m n s t e).1)

-- Two purposes, of whatever ids, that have the same Redis key are the same purpose: no write
-- for one folder, file, list or counter touches the key of another.
pub key_of-injective : (a b : Slot) → key_of a ≡ key_of b → a ≡ b
unfolding key_of
key_of-injective (folder_info m) (folder_info n) e =
    ap folder_info (folder_key-injective m n _ _ e).0
key_of-injective (folder_info m) (folder_folders n) e =
    absurd (suffix_differs m n _ _ (omega arith) e)
key_of-injective (folder_info m) (folder_files n) e =
    absurd (suffix_differs m n _ _ (omega arith) e)
key_of-injective (folder_folders m) (folder_info n) e =
    absurd (suffix_differs m n _ _ (omega arith) e)
key_of-injective (folder_folders m) (folder_folders n) e =
    ap folder_folders (folder_key-injective m n _ _ e).0
key_of-injective (folder_folders m) (folder_files n) e =
    absurd (suffix_differs m n _ _ (omega arith) e)
key_of-injective (folder_files m) (folder_info n) e =
    absurd (suffix_differs m n _ _ (omega arith) e)
key_of-injective (folder_files m) (folder_folders n) e =
    absurd (suffix_differs m n _ _ (omega arith) e)
key_of-injective (folder_files m) (folder_files n) e =
    ap folder_files (folder_key-injective m n _ _ e).0
key_of-injective (file_info m) (file_info n) e = ap file_info (file_key-injective m n e)
key_of-injective id_count id_count e = refl
key_of-injective created created e = refl
key_of-injective a b e = absurd (omega (arith, ap second e))

-- For the laws of a server, which test keys for equality.
pub key_of_ne : (a b : Slot) → a ≢ b → bytes_eq (key_of a) (key_of b) ≡ false
key_of_ne a b h = elim (Bool-cases (bytes_eq (key_of a) (key_of b))) [
  | inl same ↦ absurd (h (key_of-injective a b ((bytes_eq_iff _ _).0 same)))
  | inr differ ↦ differ
]
