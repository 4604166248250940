-- ===== src/Spec/Order.antt =====
-- File systems up to the order in which a folder lists what is in it.
use redis_virtual_file_syste.Common.{
  ℕ, ◌≡◌, refl, sym, ap, ◌∙◌, List, [], ◌∷◌, ◌++◌, All, ◌==◌, ==_iff, if◌then◌else◌, Bool-cases,
  inl, inr,
}
use mathlib.Core.Path.{subst}
use mathlib.Core.List.{Permᴰ}
use mathlib.Core.List.Permᴰ
use redis_virtual_file_syste.Spec.{Fs, update}
use redis_virtual_file_syste.Spec.Tree.{IsTree, All-IsSubfolder, All-IsFileEntry}

-- The same ids, folders and files, and in every folder the same ids in some order.
pub record SameUpToOrder (fs fs' : Fs) : Type 0 where
  pub next : fs.next ≡ fs'.next
  pub folder : (n : ℕ) → fs.folder n ≡ fs'.folder n
  pub file : (n : ℕ) → fs.file n ≡ fs'.file n
  pub folders : (n : ℕ) → Permᴰ (fs.folders n) (fs'.folders n)
  pub files : (n : ℕ) → Permᴰ (fs.files n) (fs'.files n)

-- Entries that are put in front of a list, in the other order.
pub append-swap {ℓ} : {A : Type ℓ} (xs ys zs : List A) → Permᴰ (xs ++ (ys ++ zs)) (ys ++ (xs ++ zs))
append-swap [] ys zs = Permᴰ.refl (ys ++ zs)
append-swap (x ∷ xs) ys zs =
    Permᴰ.trans (Permᴰ.cons refl (append-swap xs ys zs)) (Permᴰ.symm (Permᴰ.middle x ys (xs ++ zs)))

All-Permᴰ {ℓ} : {A : Type ℓ} (P : A → Type 0) (xs ys : List A) → Permᴰ xs ys → All P xs → All P ys
All-Permᴰ P [] [] Permᴰ.nil all = tt
All-Permᴰ P (x ∷ xs) (y ∷ ys) (Permᴰ.cons e same) (h, all) =
    (subst P e h, All-Permᴰ P xs ys same all)
All-Permᴰ P (x ∷ y ∷ xs) (y' ∷ x' ∷ ys) (Permᴰ.swap e e') (h, (h', all)) =
    (subst P e' h', (subst P e h, all))
All-Permᴰ P xs zs (Permᴰ.trans {l₂ = ys} same same') all =
    All-Permᴰ P ys zs same' (All-Permᴰ P xs ys same all)

-- The entry of a new id in the list of its parent.
abbrev pub entry_in : ℕ → ℕ → ℕ → List ℕ
entry_in parent id n = if parent == n then id ∷ [] else []

pub update-entry_in :
    (lists : ℕ → List ℕ) (parent id n : ℕ)
    → update lists parent (id ∷ lists parent) n ≡ entry_in parent id n ++ lists n
update-entry_in lists parent id n = elim (Bool-cases (parent == n)) [
  | inl same ↦ rw same (ap (λ k. id ∷ lists k) ((==_iff parent n).0 same))
  | inr differ ↦ rw differ refl
]

-- The order does not matter to whether a file system is well-formed.
pub SameUpToOrder-IsTree : (fs fs' : Fs) → SameUpToOrder fs' fs → IsTree fs → IsTree fs'
SameUpToOrder-IsTree fs fs' same t = record {
  ids_fit = rw same.next t.ids_fit;
  root = same.folder 0 ∙ t.root;
  fresh_folder = λ n h. same.folder n ∙ t.fresh_folder n (rw same.next at h);
  fresh_file = λ n h. same.file n ∙ t.fresh_file n (rw same.next at h);
  subfolders = λ dir.
      All-IsSubfolder fs fs' dir (fs'.folders dir) (λ n info e. same.folder n ∙ e)
        (All-Permᴰ _ (fs.folders dir) (fs'.folders dir) (Permᴰ.symm (same.folders dir))
          (t.subfolders dir));
  entries = λ dir.
      All-IsFileEntry fs fs' (fs'.files dir) (λ n info e. same.file n ∙ e)
        (All-Permᴰ _ (fs.files dir) (fs'.files dir) (Permᴰ.symm (same.files dir)) (t.entries dir));
  parents = λ n info e. t.parents n info (sym (same.folder n) ∙ e);
  parent_exists = λ n info e missing.
      t.parent_exists n info (sym (same.folder n) ∙ e) (sym (same.folder info.parent) ∙ missing);
  apart = λ n info e. same.folder n ∙ t.apart n info (sym (same.file n) ∙ e);
}
