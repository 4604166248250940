-- ===== src/Terminal/Words.antt =====
-- `split` of tests/terminalTest.cc at spaces, against a definition by the text's bytes.
use redis_virtual_file_syste.Common.{
  ℕ, zero, suc, ◌+◌, ◌-◌, ◌≤◌, ◌<◌, ◌≡◌, ◌⊎◌, refl, sym, ap, ◌∙◌, List, [], ◌∷◌, ◌++◌, Bytes, codes,
  none, some, ◌==◌, ==_iff, take-whole, ltb, if◌then◌else◌, length, take, drop, take-append,
  drop-append, drop-drop, length-append, arith, Bool-cases, inl, inr, ok,
}
use redis_virtual_file_syste.Libc.Find.{find, find_in, starts_with}
use redis_virtual_file_syste.Terminal.Split.{split, split_loop, with_token}

-- The texts between the spaces, also the empty ones.
abbrev extend_first : ℕ → List Bytes → List Bytes
extend_first c [] = []
extend_first c (word ∷ words) = (c ∷ word) ∷ words

unfoldable pub fields : Bytes → List Bytes
fields [] = [] ∷ []
fields (c ∷ s) = let rest = fields s in if c == b' ' then [] ∷ rest else extend_first c rest

abbrev pub nonempty : List Bytes → List Bytes
nonempty [] = []
nonempty (word ∷ words) = with_token word (nonempty words)

-- The words of a text: what stands between its spaces and is not empty.
abbrev pub words : Bytes → List Bytes
words s = nonempty (fields s)

-- A text up to its first space, if there is one: what `find` says, and the first word.
pub record FirstSpace (s : Bytes) (pos : ℕ) : Type 0 where
  pub word : Bytes
  pub rest : Bytes
  pub found : find_in (codes " ") s pos ≡ some (pos + length word)
  pub parts : s ≡ word ++ (b' ' ∷ rest)
  pub first : fields s ≡ word ∷ fields rest

next_space :
    (s : Bytes) (pos : ℕ)
    → (find_in (codes " ") s pos ≡ none) × (fields s ≡ s ∷ []) ⊎ FirstSpace s pos
unfolding find_in starts_with fields
next_space [] pos = inl (refl, refl)
next_space (c ∷ s) pos = elim (Bool-cases (c == b' ')) [
  | inl space ↦ inr (record {
    word = [];
    rest = s;
    found = ground arith;
    parts = ap (λ k. k ∷ s) ((==_iff c b' ').0 space);
    first = rw space refl;
  })
  | inr other ↦ elim (next_space s (pos + 1)) [
    | inl (missing, one) ↦ inl (ground arith, rw (other, one) refl)
    | inr h ↦ inr (record {
      word = c ∷ h.word;
      rest = h.rest;
      found = ground (arith, h.found);
      parts = ap (λ k. c ∷ k) h.parts;
      first = rw (other, h.first) refl;
    })
  ]
]

-- The next delimiter from `prev` on, by what is left of the text there.
find-drop :
    (str : Bytes) (prev : ℕ) (u : Bytes)
    → drop prev str ≡ u
    → prev ≤ length str
    → find str (codes " ") prev ≡ find_in (codes " ") u prev
unfolding find
find-drop str prev u e within = rw e (ground arith)

length-zero : (s : Bytes) → length s ≡ 0 → s ≡ []
length-zero [] e = refl
length-zero (c ∷ s) e = absurd (omega arith)

module _ (str : Bytes) where
  split_loop-words :
      (fuel prev : ℕ) (u : Bytes)
      → drop prev str ≡ u
      → prev + length u ≡ length str
      → length u < fuel
      → split_loop fuel str (codes " ") prev ≡ ok (words u)
  unfolding split_loop
  split_loop-words zero prev u e whole enough = absurd (omega arith)
  split_loop-words (suc fuel) prev u e whole enough = elim (next_space u prev) [
    | inl (missing, one) ↦
        rw (find-drop str prev u e (omega arith), missing, e, one)
          (rw (take-whole (length str - prev) u (omega arith)) (ground arith))
    | inr h ↦
        let l : ℕ = length h.word in
        let size : length u ≡ l + suc (length h.rest) =
          ap length h.parts ∙ length-append h.word (b' ' ∷ h.rest) in
        let token : take ((prev + l) - prev) u ≡ h.word =
          ap (λ k. take k u) (omega arith)
          ∙ (ap (λ k. take l k) h.parts ∙ take-append h.word (b' ' ∷ h.rest)) in
        let left : drop (prev + l + 1) str ≡ h.rest =
          sym (drop-drop (prev + l) 1 str)
          ∙ ap (drop 1) (
              sym (drop-drop prev l str)
              ∙ ap (drop l) (e ∙ h.parts)
              ∙ drop-append h.word (b' ' ∷ h.rest)) in
        let rec = split_loop-words fuel (prev + l + 1) h.rest left (omega arith) (omega arith) in
        rw (find-drop str prev u e (omega arith), h.found, e, h.first)
          (rw token (elim (Bool-cases (ltb (prev + l + 1) (length str))) [
            | inl more ↦ rw (more, rec) (ground arith)
            | inr last ↦
                rw (last, length-zero h.rest (ground arith)) (unfold fields in ground arith)
          ]))
  ]

-- `split` of any text at spaces returns, and returns the texts between the spaces that are not
-- empty, in their order.
pub split-words : (str : Bytes) → split str (codes " ") ≡ ok (words str)
unfolding split
split-words str = split_loop-words str (length str + 1) 0 str refl (omega arith) (omega arith)
