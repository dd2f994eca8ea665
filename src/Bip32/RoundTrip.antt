-- ===== src/Bip32/RoundTrip.antt =====
-- Paths that are printed are read back.
use mathlib.Core.List.{reverse_aux, reverse-append, reverse-reverse}
use maknoon_trezor_core_rs.Prelude.{
  ℕ, ◌+◌, ◌%◌, ◌^◌, ◌<◌, ◌≤◌, ◌≡◌, ◌≢◌, refl, ap, ◌∙◌, Bool, Bool-cases, inl, inr, true, false, not,
  ◌||◌, some, List, [], ◌∷◌, ◌++◌, map, length, length-append, All, All-append, reverse, ltb, leb,
  lt→leb, ne→==, if◌then◌else◌, arith, all_below, all_below-at, bit_or, bit_or_top', append-nil,
}
use maknoon_trezor_core_rs.Error.{ok}
use maknoon_trezor_core_rs.Bip32.{
  Text, is_whitespace, trim_start, trim, slash, strip_root, split, push, strip_mark,
  is_hardened_mark, parse_u32, hardened_bit, index_of, parse_component, parse_components, is_root,
  parse_path,
}
use maknoon_trezor_core_rs.Bip32.Digits.{decimal, IsDigit, decimal-IsDigit, parse_u32-decimal}

-- A path in the notation of the module's documentation, with an apostrophe on hardened levels.
unfoldable pub print_component : ℕ → Text
print_component n = decimal 9 (n % 2 ^ 31) ++ (if leb (2 ^ 31) n then 0x27 ∷ [] else [])

abbrev pub join : List Text → Text
join [] = []
join (w ∷ []) = w
join (w ∷ v ∷ ws) = w ++ (slash ∷ join (v ∷ ws))

abbrev pub print_path : List ℕ → Text
print_path ns = 0x6d ∷ slash ∷ join (map print_component ns)

-- The characters of a component.
abbrev IsPlain : ℕ → Type 0
IsPlain c = (0x27 ≤ c) × (c ≤ 0x39) × (c ≢ slash)

-- A character that `trim` leaves.
abbrev IsSolid : ℕ → Type 0
IsSolid c = is_whitespace c ≡ false

solid_test : ℕ → Bool
solid_test c = ltb c 0x21 || not (is_whitespace c)

printable-IsSolid : (c : ℕ) → 0x21 ≤ c → c < 128 → IsSolid c
unfolding solid_test all_below is_whitespace
printable-IsSolid c h k = pick (is_whitespace c) (all_below-at 128 solid_test c refl k)
  where
    pick : (b : Bool) → (ltb c 0x21 || not b) ≡ true → b ≡ false
    pick true e = ground arith
    pick false e = refl

All-map : (P Q : ℕ → Type 0) → ((c : ℕ) → P c → Q c) → (xs : Text) → All P xs → All Q xs
All-map P Q f [] h = tt
All-map P Q f (x ∷ xs) h = (f x h.0, All-map P Q f xs h.1)

All-reverse_aux : (P : ℕ → Type 0) (xs r : Text) → All P xs → All P r → All P (reverse_aux xs r)
All-reverse_aux P [] r h k = k
All-reverse_aux P (x ∷ xs) r h k = All-reverse_aux P xs (x ∷ r) h.1 (h.0, k)

trim_start-solid : (xs : Text) → All IsSolid xs → trim_start xs ≡ xs
unfolding trim_start
trim_start-solid [] h = refl
trim_start-solid (c ∷ cs) h = rw h.0 refl

trim-solid : (xs : Text) → All IsSolid xs → trim xs ≡ xs
unfolding trim
trim-solid xs h =
    ap (λ t. reverse (trim_start (reverse t))) (trim_start-solid xs h)
    ∙ ap reverse (trim_start-solid (reverse xs) (All-reverse_aux IsSolid xs [] h tt))
    ∙ reverse-reverse xs

-- The mark behind the digits.
strip_mark-digits : (r : Text) → All IsDigit r → strip_mark r ≡ (reverse r, false)
strip_mark-digits [] h = refl
strip_mark-digits (c ∷ cs) h =
    let unmarked : is_hardened_mark c ≡ false = ground arith in rw unmarked refl

strip_mark-print :
    (w : Text) (b : Bool)
    → All IsDigit w
    → strip_mark (reverse (w ++ (if b then 0x27 ∷ [] else []))) ≡ (w, b)
strip_mark-print w true h =
    ap strip_mark (reverse-append w (0x27 ∷ [])) ∙ ap (λ t. (t, true)) (reverse-reverse w)
strip_mark-print w false h =
    ap (λ t. strip_mark (reverse t)) (append-nil w)
    ∙ strip_mark-digits (reverse w) (All-reverse_aux IsDigit w [] h tt)
    ∙ ap (λ t. (t, false)) (reverse-reverse w)

-- A component of any text with these parts.
parse_component-cons :
    (input w digits : Text) (hardened : Bool) (idx : ℕ)
    → 1 ≤ length w
    → strip_mark (reverse w) ≡ (digits, hardened)
    → parse_u32 digits ≡ some idx
    → idx < 2 ^ 31
    → parse_component input w ≡ ok (if hardened then bit_or idx hardened_bit else idx)
unfolding parse_component
parse_component-cons input [] digits hardened idx l e p h = absurd (omega arith)
parse_component-cons input (c ∷ cs) digits hardened idx l e p h =
    ap (λ t. index_of input (c ∷ cs) t.1 (parse_u32 t.0)) e
    ∙ ap (index_of input (c ∷ cs) hardened) p
    ∙ rw (lt→leb hardened_bit idx h) refl

parse_component-print :
    (input : Text) (n : ℕ) → n < 2 ^ 32 → parse_component input (print_component n) ≡ ok n
unfolding print_component
parse_component-print input n h =
    let w : Text = decimal 9 (n % 2 ^ 31) in
    let d = decimal-IsDigit 9 (n % 2 ^ 31) in
    let mark : Text = if leb (2 ^ 31) n then 0x27 ∷ [] else [] in
    parse_component-cons input (w ++ mark) w (leb (2 ^ 31) n) (n % 2 ^ 31)
      (omega (arith, length-append w mark, d.1)) (strip_mark-print w (leb (2 ^ 31) n) d.0)
      (parse_u32-decimal 9 (n % 2 ^ 31) (omega arith) (omega arith)) (omega arith)
    ∙ elim (Bool-cases (leb (2 ^ 31) n)) [
      | inl e ↦
          let high : 2 ^ 31 ≤ n = ground arith in
          let sum : 2 ^ 31 + n % 2 ^ 31 ≡ n = omega arith in
          rw e (ap ok (bit_or_top' 31 (n % 2 ^ 31) (omega arith) ∙ sum))
      | inr e ↦
          let low : n < 2 ^ 31 = ground arith in
          let same : n % 2 ^ 31 ≡ n = omega arith in rw e (ap ok same)
    ]

print_component-IsPlain :
    (n : ℕ) → All IsPlain (print_component n) × (1 ≤ length (print_component n))
unfolding print_component
print_component-IsPlain n =
    let w : Text = decimal 9 (n % 2 ^ 31) in
    let mark : Text = if leb (2 ^ 31) n then 0x27 ∷ [] else [] in
    let d = decimal-IsDigit 9 (n % 2 ^ 31) in
    (
      All-append IsPlain w mark (All-map IsDigit IsPlain plain w d.0) (mark-plain (leb (2 ^ 31) n)),
      omega (arith, length-append w mark, d.1),
    )
  where
    plain : (c : ℕ) → IsDigit c → IsPlain c
    plain c h = (omega (arith, h.0), omega (arith, h.1), λ e. absurd (omega (arith, h.0)))

    mark-plain : (b : Bool) → All IsPlain (if b then 0x27 ∷ [] else [])
    mark-plain true = ((omega arith, omega arith, λ e. absurd (omega arith)), tt)
    mark-plain false = tt

-- A component in front of the rest of a path, and the last one.
split-append : (w rest : Text) → All IsPlain w → split (w ++ (slash ∷ rest)) ≡ w ∷ split rest
unfolding split
split-append [] rest h = refl
split-append (c ∷ cs) rest h = rw (ne→== c slash h.0.2) (ap (push c) (split-append cs rest h.1))

split-last : (w : Text) → All IsPlain w → split w ≡ w ∷ []
unfolding split
split-last [] h = refl
split-last (c ∷ cs) h = rw (ne→== c slash h.0.2) (ap (push c) (split-last cs h.1))

split-join :
    (n : ℕ) (ns : List ℕ)
    → split (join (map print_component (n ∷ ns))) ≡ map print_component (n ∷ ns)
split-join n [] = split-last (print_component n) (print_component-IsPlain n).0
split-join n (m ∷ ns) =
    split-append (print_component n) (join (map print_component (m ∷ ns)))
      (print_component-IsPlain n).0
    ∙ ap (λ t. print_component n ∷ t) (split-join m ns)

plain-IsSolid : (c : ℕ) → IsPlain c → IsSolid c
plain-IsSolid c h = printable-IsSolid c (omega (arith, h.0)) (omega (arith, h.1))

parse_components-print :
    (input : Text) (ns : List ℕ)
    → All (λ n. n < 2 ^ 32) ns
    → parse_components input (map print_component ns) ≡ ok ns
unfolding parse_components
parse_components-print input [] h = refl
parse_components-print input (n ∷ ns) h =
    rw
      (
        trim-solid (print_component n) (
            All-map IsPlain IsSolid plain-IsSolid (print_component n)
              (print_component-IsPlain n).0),
        parse_component-print input n h.0,
        parse_components-print input ns h.1,
      )
      refl

join-IsSolid : (ns : List ℕ) → All IsSolid (join (map print_component ns))
unfolding is_whitespace
join-IsSolid [] = tt
join-IsSolid (n ∷ []) =
    All-map IsPlain IsSolid plain-IsSolid (print_component n) (print_component-IsPlain n).0
join-IsSolid (n ∷ m ∷ ns) =
    All-append IsSolid (print_component n) (slash ∷ join (map print_component (m ∷ ns)))
      (All-map IsPlain IsSolid plain-IsSolid (print_component n) (print_component-IsPlain n).0)
      (refl, join-IsSolid (m ∷ ns))

-- A path with components is not taken for the root.
join-is_root : (n : ℕ) (ns : List ℕ) → is_root (join (map print_component (n ∷ ns))) ≡ false
join-is_root n [] =
    plain-is_root (print_component n) (print_component-IsPlain n).0 (print_component-IsPlain n).1
  where
    plain-is_root : (w : Text) → All IsPlain w → 1 ≤ length w → is_root w ≡ false
    plain-is_root [] h l = absurd (omega arith)
    plain-is_root (c ∷ []) h l =
        rw
          (
            ne→== c 0x6d (λ e. absurd (omega (arith, h.0.1))),
            ne→== c 0x4d (λ e. absurd (omega (arith, h.0.1))),
          )
          refl
    plain-is_root (c ∷ d ∷ cs) h l = refl
join-is_root n (m ∷ ns) =
    long-is_root (print_component n) (join (map print_component (m ∷ ns)))
      (print_component-IsPlain n).1
  where
    long-is_root : (w rest : Text) → 1 ≤ length w → is_root (w ++ (slash ∷ rest)) ≡ false
    long-is_root [] rest l = absurd (omega arith)
    long-is_root (c ∷ []) rest l = refl
    long-is_root (c ∷ d ∷ cs) rest l = refl

-- Every list of 32-bit indices, printed as `m/` and its components in decimal with an apostrophe
-- on the hardened ones, is parsed back to that list.
pub parse_path-print_path :
    (ns : List ℕ) → All (λ n. n < 2 ^ 32) ns → parse_path (print_path ns) ≡ ok ns
unfolding parse_path strip_root
parse_path-print_path ns h =
    let input : Text = print_path ns in
    let trimmed : trim input ≡ input = trim-solid input (m_solid, (slash_solid, join-IsSolid ns)) in
    rw trimmed (go ns h)
  where
    m_solid : IsSolid 0x6d
    m_solid = printable-IsSolid 0x6d (omega arith) (omega arith)

    slash_solid : IsSolid slash
    slash_solid = printable-IsSolid slash (omega arith) (omega arith)

    go :
        (ks : List ℕ)
        → All (λ n. n < 2 ^ 32) ks
        → (if is_root (join (map print_component ks))
            then ok []
            else parse_components (print_path ns) (split (join (map print_component ks))))
          ≡ ok ks
    go [] k = refl
    go (n ∷ ks) k =
        rw (join-is_root n ks, split-join n ks) (parse_components-print (print_path ns) (n ∷ ks) k)
