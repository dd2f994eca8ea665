-- ===== src/Bip32.antt =====
-- trezor-core/src/bip32.rs: derivation paths. A text is the list of its characters' code points.
pub mod Digits
pub mod Components
mod Runs
pub mod RoundTrip
use maknoon_trezor_core_rs.Prelude.{
  ℕ, ◌+◌, ◌-◌, ◌*◌, ◌^◌, Bool, true, false, ◌&&◌, ◌||◌, Option, none, some, List, [], ◌∷◌, ◌++◌,
  reverse, bit_or, ltb, leb, ◌==◌, if◌then◌else◌,
}
use maknoon_trezor_core_rs.Error.{Part, lit, text, TrezorError, thp, Result, ok, err, ◌>>=◌}

abbrev pub Text : Type 0
Text = List ℕ

-- `char::is_whitespace`: the code points with the Unicode property White_Space.
unfoldable pub is_whitespace : ℕ → Bool
is_whitespace c =
    (leb 9 c && leb c 13)
    || (c == 0x20)
    || (c == 0x85)
    || (c == 0xa0)
    || (c == 0x1680)
    || (leb 0x2000 c && leb c 0x200a)
    || (c == 0x2028)
    || (c == 0x2029)
    || (c == 0x202f)
    || (c == 0x205f)
    || (c == 0x3000)

unfoldable pub trim_start : Text → Text
unfolding is_whitespace
trim_start [] = []
trim_start (c ∷ cs) = let rest = trim_start cs in if is_whitespace c then rest else c ∷ cs

unfoldable pub trim : Text → Text
unfolding trim_start
trim cs = reverse (trim_start (reverse (trim_start cs)))

abbrev pub slash : ℕ
slash = 0x2f

-- `strip_prefix("m/")`, or else `strip_prefix("M/")`, or else the text.
unfoldable pub strip_root : Text → Text
strip_root [] = []
strip_root (a ∷ []) = a ∷ []
strip_root (a ∷ b ∷ rest) =
    if ((a == 0x6d) || (a == 0x4d)) && (b == slash) then rest else a ∷ b ∷ rest

abbrev pub push : ℕ → List Text → List Text
push c [] = (c ∷ []) ∷ []
push c (w ∷ ws) = (c ∷ w) ∷ ws

-- `split('/')`
unfoldable pub split : Text → List Text
split [] = [] ∷ []
split (c ∷ cs) = let rest = split cs in if c == slash then [] ∷ rest else push c rest

abbrev pub is_hardened_mark : ℕ → Bool
is_hardened_mark c = (c == 0x27) || (c == 0x68) || (c == 0x48)

-- The digits of a component, and whether a mark stands behind them; on the reversed text.
abbrev pub strip_mark : Text → Text × Bool
strip_mark [] = ([], false)
strip_mark (c ∷ cs) = if is_hardened_mark c then (reverse cs, true) else (reverse (c ∷ cs), false)

-- The digits of `u32::from_str`.
unfoldable pub parse_digits : ℕ → Text → Option ℕ
parse_digits acc [] = some acc
parse_digits acc (c ∷ cs) =
    let next = acc * 10 + (c - 0x30) in
    let rest = parse_digits next cs in
    if (leb 0x30 c && leb c 0x39) && ltb next (2 ^ 32) then rest else none

-- `u32::from_str`, which takes a plus sign.
unfoldable pub parse_u32 : Text → Option ℕ
unfolding parse_digits
parse_u32 [] = none
parse_u32 (c ∷ []) = parse_digits 0 (c ∷ [])
parse_u32 (c ∷ d ∷ cs) = if c == 0x2b then parse_digits 0 (d ∷ cs) else parse_digits 0 (c ∷ d ∷ cs)

abbrev pub hardened_bit : ℕ
hardened_bit = 0x80000000

abbrev pub invalid : {A : Type 0} → Text → List Part → Result A
invalid input detail = err (thp (lit "invalid derivation path '" ∷ text input ∷ lit "': " ∷ detail))

abbrev pub index_of : Text → Text → Bool → Option ℕ → Result ℕ
index_of input comp hardened none = invalid input (lit "bad component '" ∷ text comp ∷ lit "'" ∷ [])
index_of input comp hardened (some idx) =
    if leb hardened_bit idx
    then invalid input (lit "index '" ∷ text comp ∷ lit "' out of range" ∷ [])
    else ok (if hardened then bit_or idx hardened_bit else idx)

-- One component, without the white space around it.
unfoldable pub parse_component : Text → Text → Result ℕ
unfolding parse_u32
parse_component input [] = invalid input (lit "empty component" ∷ [])
parse_component input (c ∷ cs) =
    let (digits, hardened) = strip_mark (reverse (c ∷ cs)) in
    index_of input (c ∷ cs) hardened (parse_u32 digits)

unfoldable pub parse_components : Text → List Text → Result (List ℕ)
unfolding trim parse_component
parse_components input [] = ok []
parse_components input (raw ∷ raws) = do
  n ← parse_component input (trim raw)
  ns ← parse_components input raws
  ok (n ∷ ns)

-- Whether the path names the root alone.
abbrev pub is_root : Text → Bool
is_root [] = true
is_root (c ∷ []) = (c == 0x6d) || (c == 0x4d)
is_root (c ∷ d ∷ cs) = false

unfoldable pub parse_path : Text → Result (List ℕ)
unfolding strip_root split parse_components
parse_path input =
    let body = strip_root (trim input) in
    let parsed = parse_components input (split body) in if is_root body then ok [] else parsed
