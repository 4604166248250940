-- ===== src/Refine/NextName.antt =====
-- The scan for the next name of a path, against the list of the path's names.
use redis_virtual_file_syste.Common.{
  ℕ, zero, suc, ◌+◌, ◌-◌, ◌≤◌, ◌<◌, ◌≡◌, ◌⊎◌, inl, inr, refl, ap, [], ◌∷◌, ◌++◌, Bytes, length,
  take, drop, ◌==◌, ==_iff, arith, Bool-cases, false,
}
use redis_virtual_file_syste.PathParser.Scan.{get_length_of_next_name}
use redis_virtual_file_syste.Spec.Lookup.{dir_names}

-- The length reaches no slash: no name is left that a slash ends.
pub record IsLastName (curr : Bytes) (remaining : ℕ) : Type 0 where
  pub scanned : get_length_of_next_name curr remaining ≡ remaining
  pub no_names : dir_names (take remaining curr) ≡ []

-- The next name, with the slash behind it, lies within the length.
pub record IsNextName (curr : Bytes) (remaining : ℕ) (name rest : Bytes) : Type 0 where
  pub text : curr ≡ name ++ (b'/' ∷ rest)
  pub scanned : get_length_of_next_name curr remaining ≡ length name
  pub within : length name < remaining
  pub names :
      dir_names (take remaining curr) ≡ name ∷ dir_names (take (remaining - (length name + 1)) rest)

pub drop-name : (name rest : Bytes) → drop (length name + 1) (name ++ (b'/' ∷ rest)) ≡ rest
drop-name [] rest = refl
drop-name (x ∷ name) rest = ground (arith, drop-name name rest)

next_is_slash :
    (c : ℕ) (curr : Bytes) (remaining : ℕ)
    → c ≡ b'/'
    → IsNextName (c ∷ curr) (suc remaining) [] curr
unfolding get_length_of_next_name dir_names
next_is_slash c curr remaining e = record {
  text = ground arith;
  scanned = ground arith;
  within = omega arith;
  names = rw ((==_iff c b'/').1 e) (ap (λ k. [] ∷ dir_names (take k curr)) (omega arith));
}

next_is_last :
    (c : ℕ) (curr : Bytes) (remaining : ℕ)
    → (c == b'/') ≡ false
    → IsLastName curr remaining
    → IsLastName (c ∷ curr) (suc remaining)
unfolding get_length_of_next_name dir_names
next_is_last c curr remaining e h = record {
  scanned = rw e (ap suc h.scanned);
  no_names = rw (e, h.no_names) refl;
}

next_is_longer :
    (c : ℕ) (curr : Bytes) (remaining : ℕ) (name rest : Bytes)
    → (c == b'/') ≡ false
    → IsNextName curr remaining name rest
    → IsNextName (c ∷ curr) (suc remaining) (c ∷ name) rest
unfolding get_length_of_next_name dir_names
next_is_longer c curr remaining name rest e h = record {
  text = ap (λ s. c ∷ s) h.text;
  scanned = rw e (ap suc h.scanned);
  within = omega (arith, h.within);
  names = rw (e, h.names) (ap (λ k. (c ∷ name) ∷ dir_names (take k rest)) (omega arith));
}

-- One of the two is the case.
pub next_name :
    (curr : Bytes) (remaining : ℕ)
    → remaining ≤ length curr
    → IsLastName curr remaining
      ⊎ ((name : Bytes) × (rest : Bytes) × IsNextName curr remaining name rest)
unfolding get_length_of_next_name dir_names
next_name curr zero h = inl (record { scanned = refl; no_names = refl })
next_name [] (suc remaining) h = absurd (omega arith)
next_name (c ∷ curr) (suc remaining) h = elim (Bool-cases (c == b'/')) [
  | inl slash ↦ inr ([], curr, next_is_slash c curr remaining ((==_iff c b'/').0 slash))
  | inr plain ↦ elim (next_name curr remaining (omega arith)) [
    | inl last ↦ inl (next_is_last c curr remaining plain last)
    | inr (name, rest, next) ↦
        inr (c ∷ name, rest, next_is_longer c curr remaining name rest plain next)
  ]
]
