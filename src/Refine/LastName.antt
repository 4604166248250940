-- ===== src/Refine/LastName.antt =====
-- `vfs_seperatePathAndName` of vfsPathParser.c splits a path behind its last slash.
use redis_virtual_file_syste.Common.{
  ℕ, zero, suc, ◌+◌, ◌-◌, ◌≤◌, ◌<◌, ◌≡◌, ◌≢◌, ◌⊎◌, inl, inr, refl, ap, ◌∙◌, Bytes, ◌==◌, ==_iff,
  arith, Bool-cases, Option, none, some, Option-cases, length, leb, true, ok,
}
use redis_virtual_file_syste.PathParser.State.{ParserState}
use redis_virtual_file_syste.PathParser.Scan.{
  byte_at, last_slash_loop, split_behind_slash, vfs_seperate_path_and_name,
}

-- What the backward loop returns: no slash below `left`, or the last one and its distance.
abbrev IsLastSlash : Bytes → ℕ → ℕ → Option (ℕ × ℕ) → Type 0
IsLastSlash path left i none = (j : ℕ) → j < left → byte_at path j ≢ b'/'
IsLastSlash path left i (some (p, k)) =
    (p < left)
    × (k + p + 1 ≡ left + i)
    × (byte_at path p ≡ b'/')
    × ((j : ℕ) → p < j → j < left → byte_at path j ≢ b'/')

extend :
    (path : Bytes) (left i : ℕ) (o : Option (ℕ × ℕ))
    → byte_at path left ≢ b'/'
    → IsLastSlash path left (i + 1) o
    → IsLastSlash path (suc left) i o
extend path left i none plain h = λ j lt e. elim (Bool-cases (j == left)) [
  | inl same ↦ plain (rw (← (==_iff j left).0 same) e)
  | inr other ↦ h j (ground arith) e
]
extend path left i (some (p, k)) plain (before, sum, slash, others) = (
  omega arith,
  omega arith,
  slash,
  λ j above lt e. elim (Bool-cases (j == left)) [
    | inl same ↦ plain (rw (← (==_iff j left).0 same) e)
    | inr other ↦ others j above (ground arith) e
  ],
)

last_slash_loop_lem :
    (path : Bytes) (left i : ℕ) → IsLastSlash path left i (last_slash_loop path left i)
unfolding last_slash_loop
last_slash_loop_lem path zero i = λ j h. absurd (omega arith)
last_slash_loop_lem path (suc left) i = elim (Bool-cases (byte_at path left == b'/')) [
  | inl slash ↦
      rw slash
        (omega arith, omega arith, (==_iff _ b'/').0 slash, λ j above lt. absurd (omega arith))
  | inr plain ↦ rw plain (
      extend path left i _ (λ e. cc (plain, (==_iff _ b'/').1 e))
        (last_slash_loop_lem path left (i + 1)))
]

-- The name reaches to the end of the length, begins the path or stands behind a slash, and has no
-- slash in it.
pub record IsLastNameOf (path : Bytes) (path_length offset name_length : ℕ) : Type 0 where
  pub to_end : offset + name_length ≡ path_length
  pub behind_slash : (offset ≡ 0) ⊎ (byte_at path (offset - 1) ≡ b'/')
  pub no_slash : (j : ℕ) → offset ≤ j → j < path_length → byte_at path j ≢ b'/'

split_at :
    (state : ParserState) (path : Bytes) (path_length : ℕ) (o : Option (ℕ × ℕ))
    → IsLastSlash path path_length 0 o
    → let s : ParserState = elim o [
      | none ↦ record state { name_length = path_length; name_offset = 0 }
      | some (p, k) ↦ record state { name_length = k; name_offset = p + 1 }
    ] in
      IsLastNameOf path path_length s.name_offset s.name_length
split_at state path path_length none h = record {
  to_end = omega arith;
  behind_slash = inl refl;
  no_slash = λ j _ lt. h j lt;
}
split_at state path path_length (some (p, k)) (before, sum, slash, others) = record {
  to_end = omega arith;
  behind_slash = inr (ap (byte_at path) (add-sub-one p) ∙ slash);
  no_slash = λ j above lt. others j (omega arith) lt;
}
  where
    add-sub-one : (p : ℕ) → p + 1 - 1 ≡ p
    add-sub-one p = omega arith

pub split_behind_slash-IsLastNameOf :
    (state : ParserState) (path : Bytes) (path_length : ℕ)
    → let s = split_behind_slash state path path_length in
      IsLastNameOf path path_length s.name_offset s.name_length
unfolding split_behind_slash
split_behind_slash-IsLastNameOf state path path_length =
    split_at state path path_length _ (last_slash_loop_lem path path_length 0)

-- Nothing else of the state is set.
split_behind_slash-fields :
    (state : ParserState) (path : Bytes) (path_length : ℕ)
    → let s = split_behind_slash state path path_length in
      s ≡ record state { name_offset = s.name_offset; name_length = s.name_length }
unfolding split_behind_slash
split_behind_slash-fields state path path_length =
    elim (Option-cases (last_slash_loop path path_length 0)) [
      | inl front ↦ rw (front, split_behind_slash) refl
      | inr (found, slash) ↦ rw (slash, split_behind_slash) refl
    ]

pub vfs_seperate_path_and_name-split :
    (state : ParserState) (path : Bytes) (path_length : ℕ)
    → path_length ≤ length path + 1
    → vfs_seperate_path_and_name state path path_length
      ≡ ok (split_behind_slash state path path_length)
unfolding vfs_seperate_path_and_name
vfs_seperate_path_and_name-split state path path_length within =
    let reads : leb path_length (length path + 1) ≡ true = ground arith in rw reads refl

-- From any state and for a length that reaches at most over the path and its NUL,
-- `vfs_seperatePathAndName` returns, and sets an offset and a length, and nothing else of the
-- state: those of a name that reaches to the end of the length, begins the path or stands
-- behind a slash, and has no slash in it.
pub vfs_seperate_path_and_name-IsLastNameOf :
    (state : ParserState) (path : Bytes) (path_length : ℕ)
    → path_length ≤ length path + 1
    → (s : ParserState) × (vfs_seperate_path_and_name state path path_length ≡ ok s)
      × IsLastNameOf path path_length s.name_offset s.name_length
      × (s ≡ record state { name_offset = s.name_offset; name_length = s.name_length })
vfs_seperate_path_and_name-IsLastNameOf state path path_length within = (
  split_behind_slash state path path_length,
  vfs_seperate_path_and_name-split state path path_length within,
  split_behind_slash-IsLastNameOf state path path_length,
  split_behind_slash-fields state path path_length,
)
