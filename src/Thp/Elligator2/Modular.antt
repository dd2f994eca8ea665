-- ===== src/Thp/Elligator2/Modular.antt =====
-- Arithmetic modulo 2^255 - 19, by which the field of trezor-core/src/thp/elligator2.rs is read.
use maknoon_trezor_core_rs.Prelude.{ℕ, ◌+◌, ◌-◌, ◌*◌, ◌/◌, ◌%◌, ◌^◌, ◌≡◌, sym, ap, ◌∙◌}
use native.Mathlib.Nat.{
  add-mul, mul_assoc, mul_comm, add-mul-mod_self_left, mod-add-div, add-mod, mod-mod,
}

unfoldable pub p : ℕ
p = 2 ^ 255 - 19

-- Equal modulo p.
abbrev pub Cong : ℕ → ℕ → Type 0
Cong a b = a % p ≡ b % p

pub add-multiple-Cong : (a k : ℕ) → Cong (a + p * k) a
add-multiple-Cong a k = add-mul-mod_self_left a p k

-- A number is congruent to another when a multiple of p lies between them.
pub Cong-of_eq : (a b k : ℕ) → a ≡ b + p * k → Cong a b
Cong-of_eq a b k e = ap (λ t. t % p) e ∙ add-multiple-Cong b k

mul-mod_left : (a b : ℕ) → Cong (a * b) ((a % p) * b)
mul-mod_left a b =
    ap (λ t. (t * b) % p) (sym (mod-add-div a p))
    ∙ ap (λ t. t % p)
        (add-mul (a % p) (p * (a / p)) b ∙ ap (λ t. (a % p) * b + t) (mul_assoc p (a / p) b))
    ∙ add-multiple-Cong ((a % p) * b) ((a / p) * b)

pub mul-Cong : (a b c d : ℕ) → Cong a b → Cong c d → Cong (a * c) (b * d)
mul-Cong a b c d e f =
    mul-mod_left a c
    ∙ ap (λ t. (t * c) % p) e
    ∙ sym (mul-mod_left b c)
    ∙ ap (λ t. t % p) (mul_comm b c)
    ∙ mul-mod_left c b
    ∙ ap (λ t. (t * b) % p) f
    ∙ sym (mul-mod_left d b)
    ∙ ap (λ t. t % p) (mul_comm d b)

pub add-Cong : (a b c d : ℕ) → Cong a b → Cong c d → Cong (a + c) (b + d)
add-Cong a b c d e f =
    add-mod a c p ∙ ap (λ t. (t + c % p) % p) e ∙ ap (λ t. (b % p + t) % p) f ∙ sym (add-mod b d p)

pub mod-Cong : (a : ℕ) → Cong (a % p) a
mod-Cong a = mod-mod a p
