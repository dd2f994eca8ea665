-- ===== src/Bip32/Runs.antt =====
-- The tests of trezor-core/src/bip32.rs, and the theorems at concrete inputs.
use maknoon_trezor_core_rs.Prelude.{ℕ, ◌≡◌, ◌⊎◌, refl, List, [], ◌∷◌, codes, arith}
use maknoon_trezor_core_rs.Error.{ok}
use maknoon_trezor_core_rs.Bip32.{trim, strip_root, split, parse_path}
use maknoon_trezor_core_rs.Bip32.RoundTrip.{print_path, parse_path-print_path}
use maknoon_trezor_core_rs.Bip32.Components.{IsRoot, StandFor, parse_path-StandFor}

parses_hardened_and_unhardened :
    parse_path (codes " m/44'/60h/0H/+0/1") ≡ ok (0x8000002c ∷ 0x8000003c ∷ 0x80000000 ∷ 0 ∷ 1 ∷ [])
unfolding parse_path
parses_hardened_and_unhardened = refl

empty_path_is_empty : parse_path (codes "m/") ≡ ok []
unfolding parse_path
empty_path_is_empty = refl

parse_path-print_path_example :
    parse_path (print_path (0x8000002c ∷ 0x800000c3 ∷ 7 ∷ []))
    ≡ ok (0x8000002c ∷ 0x800000c3 ∷ 7 ∷ [])
parse_path-print_path_example =
    parse_path-print_path (0x8000002c ∷ 0x800000c3 ∷ 7 ∷ [])
      (omega arith, (omega arith, (omega arith, tt)))

abbrev two : List ℕ
two = 0x8000002c ∷ 1 ∷ []

parse_path-StandFor_example :
    (IsRoot (strip_root (trim (codes "m/44'/1"))) × (two ≡ []))
    ⊎ StandFor (split (strip_root (trim (codes "m/44'/1")))) two
unfolding parse_path
parse_path-StandFor_example = parse_path-StandFor (codes "m/44'/1") two refl
