-- ===== src/Libc/Compare.antt =====
-- `strncmp(a, b, n) == 0`: the texts agree up to their first `n` bytes, or up to the end of both.
use redis_virtual_file_syste.Common.{
  ℕ, zero, suc, ◌≤◌, ◌≡◌, ◌↔◌, refl, Bool, true, false, ◌&&◌, [], ◌∷◌, Bytes, length, take, ◌==◌,
  arith, ==_iff, bytes_eq,
}

unfoldable pub strncmp_eq : Bytes → Bytes → ℕ → Bool
strncmp_eq a b zero = true
strncmp_eq [] [] (suc n) = true
strncmp_eq [] (y ∷ b) (suc n) = false
strncmp_eq (x ∷ a) [] (suc n) = false
strncmp_eq (x ∷ a) (y ∷ b) (suc n) = x == y && strncmp_eq a b n

pub strncmp_eq_iff : (a b : Bytes) (n : ℕ) → (strncmp_eq a b n ≡ true) ↔ (take n a ≡ take n b)
unfolding strncmp_eq
strncmp_eq_iff a b zero = (λ _. refl, λ _. refl)
strncmp_eq_iff [] [] (suc n) = (λ _. refl, λ _. refl)
strncmp_eq_iff [] (y ∷ b) (suc n) = (λ h. cc, λ h. cc)
strncmp_eq_iff (x ∷ a) [] (suc n) = (λ h. cc, λ h. cc)
strncmp_eq_iff (x ∷ a) (y ∷ b) (suc n) = ground (arith, strncmp_eq_iff a b n, ==_iff x y)

-- A comparison up to the longer length compares whole texts.
pub strncmp_eq-whole :
    (a b : Bytes) (n : ℕ) → length a ≤ n → length b ≤ n → strncmp_eq a b n ≡ bytes_eq a b
unfolding strncmp_eq bytes_eq
strncmp_eq-whole [] [] zero h k = refl
strncmp_eq-whole [] (y ∷ b) zero h k = absurd (omega arith)
strncmp_eq-whole (x ∷ a) b zero h k = absurd (omega arith)
strncmp_eq-whole [] [] (suc n) h k = refl
strncmp_eq-whole [] (y ∷ b) (suc n) h k = refl
strncmp_eq-whole (x ∷ a) [] (suc n) h k = refl
strncmp_eq-whole (x ∷ a) (y ∷ b) (suc n) h k =
    rw (strncmp_eq-whole a b n (omega arith) (omega arith)) refl
