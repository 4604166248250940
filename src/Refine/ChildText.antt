-- ===== src/Refine/ChildText.antt =====
-- The text of an absolute path with one more name behind it: where its last slash is.
use redis_virtual_file_syste.Common.{
  ℕ, zero, suc, ◌+◌, ◌-◌, ◌<◌, ◌≡◌, ◌≢◌, refl, sym, ap, ◌∙◌, List, [], ◌∷◌, ◌++◌, Bytes, All, false,
  ◌==◌, arith, Bool-cases, inl, inr, length, ltb, take, drop, length-append, take-whole,
  drop-append,
}
use redis_virtual_file_syste.PathParser.State.{init_parser_state}
use redis_virtual_file_syste.PathParser.Scan.{byte_at}
use redis_virtual_file_syste.PathParser.Walk.{fixed_length}
use redis_virtual_file_syste.Spec.Tree.{IsPlain}
use redis_virtual_file_syste.Spec.Lookup.{dir_names}
use redis_virtual_file_syste.Spec.Path.{body}
use redis_virtual_file_syste.Spec.Command.{slash_ended}
use redis_virtual_file_syste.Refine.LastName.{IsLastNameOf, split_behind_slash-IsLastNameOf}
use redis_virtual_file_syste.Refine.Parse.{fixed_of, split_of, dir_text, name_text}

pub byte_at-append : (xs ys : Bytes) (i : ℕ) → byte_at (xs ++ ys) (length xs + i) ≡ byte_at ys i
byte_at-append [] ys i = ap (byte_at ys) (omega arith)
byte_at-append (x ∷ xs) ys i =
    ap (byte_at (x ∷ (xs ++ ys))) (suc_out (length xs) i) ∙ byte_at-append xs ys i
  where
    suc_out : (m n : ℕ) → suc m + n ≡ suc (m + n)
    suc_out m n = omega arith

pub byte_at-append_left :
    (xs ys : Bytes) (i : ℕ) → i < length xs → byte_at (xs ++ ys) i ≡ byte_at xs i
byte_at-append_left [] ys i lt = absurd (omega arith)
byte_at-append_left (x ∷ xs) ys zero lt = refl
byte_at-append_left (x ∷ xs) ys (suc i) lt = byte_at-append_left xs ys i (omega arith)

pub byte_at-plain :
    (name : Bytes) (i : ℕ) → All IsPlain name → i < length name → byte_at name i ≢ b'/'
byte_at-plain [] i plain lt = absurd (omega arith)
byte_at-plain (c ∷ name) zero (p, plain) lt = p
byte_at-plain (c ∷ name) (suc i) (p, plain) lt = byte_at-plain name i plain (omega arith)

pub dir_names-nil : (name : Bytes) → All IsPlain name → dir_names name ≡ []
unfolding dir_names
dir_names-nil [] plain = refl
dir_names-nil (c ∷ name) (p, plain) = rw (dir_names-nil name plain) (ground (arith, p))

pub dir_names-empty : dir_names [] ≡ []
unfolding dir_names
dir_names-empty = refl

pub slash_ended-plain :
    (c : ℕ) (s : Bytes) → All IsPlain (c ∷ s) → slash_ended (c ∷ s) ≡ (c ∷ s) ++ (b'/' ∷ [])
unfolding slash_ended
slash_ended-plain c [] (p, plain) = ground (arith, p)
slash_ended-plain c (x ∷ s) (p, plain) = ap (λ k. c ∷ k) (slash_ended-plain x s plain)

-- The last byte of an absolute path.
pub byte_at-body : (names : List Bytes) → byte_at (b'/' ∷ body names) (length (body names)) ≡ b'/'
byte_at-body [] = refl
byte_at-body (name ∷ names) =
    ap (byte_at (b'/' ∷ (name ++ (b'/' ∷ body names))))
      (omega (arith, length-append name (b'/' ∷ body names)))
    ∙ byte_at-append (b'/' ∷ name) (b'/' ∷ body names) (length (body names))
    ∙ byte_at-body names

-- An absolute path with a name behind it.
abbrev pub child_path : List Bytes → Bytes → Bytes
child_path names name = b'/' ∷ (body names ++ name)

module _ (names : List Bytes) (c : ℕ) (s : Bytes) (plain : All IsPlain (c ∷ s)) where
  pub child_length : length (child_path names (c ∷ s)) ≡ length (body names) + 1 + length (c ∷ s)
  child_length = omega (arith, length-append (body names) (c ∷ s))

  pub byte_at-name :
      (i : ℕ)
      → i < length (c ∷ s)
      → byte_at (child_path names (c ∷ s)) (length (body names) + 1 + i) ≢ b'/'
  byte_at-name i lt e = byte_at-plain (c ∷ s) i plain lt (
      sym (byte_at-append (b'/' ∷ body names) (c ∷ s) i)
      ∙ ap (byte_at (child_path names (c ∷ s))) (omega arith)
      ∙ e)

  pub byte_at-last :
      (j : ℕ)
      → j + 1 ≡ length (child_path names (c ∷ s))
      → (byte_at (child_path names (c ∷ s)) j == b'/') ≡ false
  byte_at-last j e =
      let other = byte_at-name (length s) (omega arith) in
      let last : j ≡ length (body names) + 1 + length s = omega (arith, e, child_length) in
      rw last (ground (arith, other))

  pub fixed_of-child : fixed_of (child_path names (c ∷ s)) ≡ length (child_path names (c ∷ s))
  fixed_of-child =
      rw
        (byte_at-last (length (child_path names (c ∷ s)) - 1) (omega arith), fixed_of, fixed_length)
        refl

  pub dir_text-child : dir_text (child_path names (c ∷ s)) ≡ child_path names (c ∷ s)
  dir_text-child =
      rw fixed_of-child
        (take-whole (length (child_path names (c ∷ s))) (child_path names (c ∷ s)) (omega arith))

  pub slash-child : byte_at (child_path names (c ∷ s)) (length (body names)) ≡ b'/'
  slash-child =
      byte_at-append_left (b'/' ∷ body names) (c ∷ s) (length (body names)) (omega arith)
      ∙ byte_at-body names

  -- The last slash is the one in front of the name.
  pub offset-child :
      (n offset size : ℕ)
      → n ≡ length (child_path names (c ∷ s))
      → IsLastNameOf (child_path names (c ∷ s)) n offset size
      → offset ≡ length (body names) + 1
  offset-child n offset size whole last =
      let above : length (body names) < offset =
        elim (Bool-cases (ltb (length (body names)) offset)) [
          | inl less ↦ ground arith
          | inr not_less ↦ absurd (
              last.no_slash (length (body names)) (ground arith)
                (omega (arith, whole, child_length)) slash-child)
        ] in
      elim (Bool-cases (ltb (length (body names) + 1) offset)) [
        | inr not_less ↦ ground (arith, above)
        | inl less ↦ elim last.behind_slash [
          | inl zero_offset ↦ absurd (omega (arith, zero_offset, above))
          | inr slash ↦
              let beyond : length (body names) + 1 < offset = ground arith in
              absurd (
                byte_at-name (offset - length (body names) - 2)
                  (omega (arith, last.to_end, whole, child_length, beyond))
                  (ap (byte_at (child_path names (c ∷ s))) (omega (arith, beyond)) ∙ slash))
        ]
      ]

  pub split-child :
      let split = split_of (child_path names (c ∷ s)) in
      (split.name_offset ≡ length (b'/' ∷ body names)) × (split.name_length ≡ length (c ∷ s))
  split-child =
      let path = child_path names (c ∷ s) in
      let split = split_of path in
      let parts = split_behind_slash-IsLastNameOf init_parser_state path (fixed_of path) in
      let offset =
        offset-child (fixed_of path) split.name_offset split.name_length fixed_of-child parts in
      (omega (arith, offset), omega (arith, parts.to_end, fixed_of-child, offset, child_length))

  pub name_text-child : name_text (child_path names (c ∷ s)) ≡ c ∷ s
  name_text-child =
      let path = child_path names (c ∷ s) in
      let (front, size) = split-child in
      ap (λ k. take (split_of path).name_length (drop k path)) front
      ∙ ap (λ k. take k (drop (length (b'/' ∷ body names)) path)) size
      ∙ ap (take (length (c ∷ s))) (drop-append (b'/' ∷ body names) (c ∷ s))
      ∙ take-whole (length (c ∷ s)) (c ∷ s) (omega arith)
