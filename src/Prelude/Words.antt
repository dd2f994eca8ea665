-- ===== src/Prelude/Words.antt =====
-- Bytes, and the big-endian bytes of a machine word.
use Prim.Native.Nat.{ℕ, ◌+◌, ◌*◌, ◌/◌, ◌%◌, ◌^◌, ◌<◌, ◌≤◌}
use Prim.Native.Char.{code}
use Prim.Native.String.{String}
use mathlib.Core.Path.{◌≡◌, refl, ap, ◌∙◌}
use mathlib.Core.Bool.{Bool, true, false, ◌&&◌}
use maknoon_trezor_core_rs.Prelude.Tests.{◌==◌}
use mathlib.Core.List.{List, [], ◌∷◌, ◌++◌}
use native.Mathlib.Omega.{arith}
use maknoon_trezor_core_rs.Prelude.Lists.{
  take, drop, replicate, length, All, length-append, length-take, length-drop, length-replicate,
  take_all,
}
use Prim.Native.Nat.{◌-◌}

abbrev pub IsByte : ℕ → Type 0
IsByte b = b < 256

abbrev pub Bytes : Type 0
Bytes = List ℕ

-- `u16::to_be_bytes` and its siblings.
abbrev pub be16 : ℕ → Bytes
be16 v = (v / 256 % 256) ∷ (v % 256) ∷ []

abbrev pub be32 : ℕ → Bytes
be32 v = (v / 2 ^ 24 % 256) ∷ (v / 2 ^ 16 % 256) ∷ (v / 256 % 256) ∷ (v % 256) ∷ []

abbrev pub be64 : ℕ → Bytes
be64 v = be32 (v / 2 ^ 32) ++ be32 v

-- `u16::from_be_bytes` and `u32::from_be_bytes`.
abbrev pub from_be16 : ℕ → ℕ → ℕ
from_be16 a b = a * 256 + b

abbrev pub from_be32 : ℕ → ℕ → ℕ → ℕ → ℕ
from_be32 a b c d = a * 2 ^ 24 + b * 2 ^ 16 + c * 256 + d

pub from_be16-be16 : (v : ℕ) → v < 2 ^ 16 → from_be16 (v / 256 % 256) (v % 256) ≡ v
from_be16-be16 v h = omega arith

pub from_be32-be32 :
    (v : ℕ)
    → v < 2 ^ 32
    → from_be32 (v / 2 ^ 24 % 256) (v / 2 ^ 16 % 256) (v / 256 % 256) (v % 256) ≡ v
from_be32-be32 v h = omega arith

-- `Vec::resize(n, 0)`: cut or padded with zeros.
abbrev pub resize : ℕ → Bytes → Bytes
resize n xs = take n xs ++ replicate (n - length xs) 0

-- `xs[a..b]`
abbrev pub slice : {A : Type 0} → ℕ → ℕ → List A → List A
slice a b xs = take (b - a) (drop a xs)

-- A word's bytes are bytes.
pub be16-IsByte : (v : ℕ) → All IsByte (be16 v)
be16-IsByte v = omega arith

pub be32-IsByte : (v : ℕ) → All IsByte (be32 v)
be32-IsByte v = omega arith

pub length-resize : (n : ℕ) (xs : Bytes) → length (resize n xs) ≡ n
length-resize n xs = omega (
  arith,
  length-append (take n xs) (replicate (n - length xs) 0),
  length-take n xs,
  length-replicate {0} {A = ℕ} (n - length xs) 0,
)

pub resize_pads :
    (n : ℕ) (xs : Bytes) → length xs ≤ n → resize n xs ≡ xs ++ replicate (n - length xs) 0
resize_pads n xs h = ap (λ t. t ++ replicate (n - length xs) 0) (take_all n xs h)

pub slice_from : {A : Type 0} (a n : ℕ) (xs : List A) → slice a (a + n) xs ≡ take n (drop a xs)
slice_from a n xs = let e : a + n - a ≡ n = omega arith in ap (λ t. take t (drop a xs)) e

pub length-slice_from :
    {A : Type 0} (a n : ℕ) (xs : List A) → a + n ≤ length xs → length (slice a (a + n) xs) ≡ n
length-slice_from a n xs h =
    ap length (slice_from a n xs) ∙ omega (arith, length-take n (drop a xs), length-drop a xs)

pub slice_zero : {A : Type 0} (n : ℕ) (xs : List A) → slice 0 n xs ≡ take n xs
slice_zero n xs = let e : n - 0 ≡ n = omega arith in ap (λ t. take t xs) e

-- `==` on byte slices.
abbrev pub bytes_eq : Bytes → Bytes → Bool
bytes_eq [] [] = true
bytes_eq [] (y ∷ ys) = false
bytes_eq (x ∷ xs) [] = false
bytes_eq (x ∷ xs) (y ∷ ys) = x == y && bytes_eq xs ys

pub bytes_eq_refl : (xs : Bytes) → bytes_eq xs xs ≡ true
bytes_eq_refl [] = refl
bytes_eq_refl (x ∷ xs) = ground (arith, bytes_eq_refl xs)

pub bytes_eq→eq : (xs ys : Bytes) → bytes_eq xs ys ≡ true → xs ≡ ys
bytes_eq→eq [] [] e = refl
bytes_eq→eq [] (y ∷ ys) e = cc
bytes_eq→eq (x ∷ xs) [] e = cc
bytes_eq→eq (x ∷ xs) (y ∷ ys) e = ground (arith, bytes_eq→eq xs ys)

-- The code points of a text, its bytes where it is ASCII.
abbrev pub codes : String → List ℕ
codes String.[] = []
codes (String.◌∷◌ c s) = code c ∷ codes s

-- The pieces, one behind the other.
abbrev pub concat : List Bytes → Bytes
concat [] = []
concat (x ∷ xs) = x ++ concat xs
