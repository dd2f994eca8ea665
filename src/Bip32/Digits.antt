-- ===== src/Bip32/Digits.antt =====
-- Decimal numbers: a printer, and what `parse_u32` reads from it.
use maknoon_trezor_core_rs.Prelude.{
  ℕ, zero, suc, ◌+◌, ◌*◌, ◌/◌, ◌%◌, ◌^◌, ◌-◌, ◌<◌, ◌≤◌, ◌≡◌, refl, ap, ◌∙◌, Bool, Bool-cases, inl,
  inr, true, false, ◌&&◌, none, some, [], ◌∷◌, ◌++◌, length, length-append, All, All-append, ltb,
  leb, lt→ltb, le→leb, ne→==, if◌then◌else◌, arith,
}
use native.Mathlib.Nat.{pow-suc}
use maknoon_trezor_core_rs.Bip32.{Text, parse_digits, parse_u32}

-- A number in decimal, with at most one more digit than the fuel.
unfoldable pub decimal : ℕ → ℕ → Text
decimal zero n = (0x30 + n % 10) ∷ []
decimal (suc fuel) n =
    let front = decimal fuel (n / 10) in
    if ltb n 10 then (0x30 + n) ∷ [] else front ++ ((0x30 + n % 10) ∷ [])

abbrev pub IsDigit : ℕ → Type 0
IsDigit c = (0x30 ≤ c) × (c ≤ 0x39)

pub decimal-IsDigit : (fuel n : ℕ) → All IsDigit (decimal fuel n) × (1 ≤ length (decimal fuel n))
unfolding decimal
decimal-IsDigit zero n = (((omega arith, omega arith), tt), omega arith)
decimal-IsDigit (suc fuel) n = elim (Bool-cases (ltb n 10)) [
  | inl e ↦ let lt : n < 10 = ground arith in rw e (((omega arith, omega arith), tt), omega arith)
  | inr e ↦ rw e (
    All-append IsDigit (decimal fuel (n / 10)) ((0x30 + n % 10) ∷ [])
        (decimal-IsDigit fuel (n / 10)).0 ((omega arith, omega arith), tt),
    omega (arith, length-append (decimal fuel (n / 10)) ((0x30 + n % 10) ∷ [])),
  )
]

-- One more digit at the end.
parse_digits-snoc :
    (acc a d : ℕ) (xs : Text)
    → parse_digits acc xs ≡ some a
    → d < 10
    → a * 10 + d < 2 ^ 32
    → parse_digits acc (xs ++ ((0x30 + d) ∷ [])) ≡ some (a * 10 + d)
unfolding parse_digits
parse_digits-snoc acc a d [] e h k =
    let same : acc ≡ a = cc in
    let low : 0x30 + d - 0x30 ≡ d = omega arith in
    rw
      (
        same,
        low,
        le→leb 0x30 (0x30 + d) (omega arith),
        le→leb (0x30 + d) 0x39 (omega arith),
        lt→ltb (a * 10 + d) (2 ^ 32) k,
      )
      refl
parse_digits-snoc acc a d (c ∷ cs) e h k =
    go ((leb 0x30 c && leb c 0x39) && ltb (acc * 10 + (c - 0x30)) (2 ^ 32))
      (λ f. parse_digits-snoc (acc * 10 + (c - 0x30)) a d cs f h k) e
  where
    go :
        (b : Bool)
        → (parse_digits (acc * 10 + (c - 0x30)) cs ≡ some a
            → parse_digits (acc * 10 + (c - 0x30)) (cs ++ ((0x30 + d) ∷ [])) ≡ some (a * 10 + d))
        → (if b then parse_digits (acc * 10 + (c - 0x30)) cs else none) ≡ some a
        → (if b then parse_digits (acc * 10 + (c - 0x30)) (cs ++ ((0x30 + d) ∷ [])) else none)
          ≡ some (a * 10 + d)
    go true next f = next f
    go false next f = cc

parse_digits-digit : (n : ℕ) → n < 10 → parse_digits 0 ((0x30 + n) ∷ []) ≡ some n
unfolding parse_digits
parse_digits-digit n h =
    let same : 0 * 10 + n ≡ n = omega arith in
    parse_digits-snoc 0 0 n [] refl h (omega arith) ∙ ap some same

parse_digits-decimal :
    (fuel n : ℕ) → n < 10 ^ suc fuel → n < 2 ^ 32 → parse_digits 0 (decimal fuel n) ≡ some n
unfolding decimal parse_digits
parse_digits-decimal zero n h k =
    let same : n % 10 ≡ n = omega (arith, pow-suc 10 0) in
    ap (λ m. parse_digits 0 ((0x30 + m) ∷ [])) same
    ∙ parse_digits-digit n (omega (arith, pow-suc 10 0))
parse_digits-decimal (suc fuel) n h k = elim (Bool-cases (ltb n 10)) [
  | inl e ↦ rw e (parse_digits-digit n (ground arith))
  | inr e ↦
      let whole : n / 10 * 10 + n % 10 ≡ n = omega arith in
      rw e (
        parse_digits-snoc 0 (n / 10) (n % 10) (decimal fuel (n / 10))
          (parse_digits-decimal fuel (n / 10) (omega (arith, pow-suc 10 (suc fuel))) (omega arith))
          (omega arith) (omega arith)
        ∙ ap some whole)
]

pub parse_u32-decimal :
    (fuel n : ℕ) → n < 10 ^ suc fuel → n < 2 ^ 32 → parse_u32 (decimal fuel n) ≡ some n
unfolding parse_u32
parse_u32-decimal fuel n h k =
    no_plus (decimal fuel n) (decimal-IsDigit fuel n).0 (decimal-IsDigit fuel n).1
    ∙ parse_digits-decimal fuel n h k
  where
    no_plus : (w : Text) → All IsDigit w → 1 ≤ length w → parse_u32 w ≡ parse_digits 0 w
    no_plus [] d l = absurd (omega arith)
    no_plus (c ∷ []) d l = refl
    no_plus (c ∷ x ∷ cs) d l = rw (ne→== c 0x2b (λ e. absurd (omega (arith, d.0.0)))) refl
