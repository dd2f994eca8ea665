-- ===== src/Thp/Cpace/Runs.antt =====
-- CPace at concrete inputs.
use maknoon_trezor_core_rs.Prelude.{ℕ, ◌≡◌, refl, [], ◌∷◌, Bytes, take, arith}
use maknoon_trezor_core_rs.Thp.Cpace.{format_code}
use maknoon_trezor_core_rs.Thp.Cpace.Agreement.{pregenerator_input-inj}

abbrev sha512 : Bytes → Bytes
sha512 m = take 64 m

-- The text of the code 42.
small_code : format_code 42 ≡ 0x30 ∷ 0x30 ∷ 0x30 ∷ 0x30 ∷ 0x34 ∷ 0x32 ∷ []
unfolding format_code
small_code = refl

-- A code of six digits, and a handshake hash.
abbrev code : ℕ
code = 42

abbrev hash : Bytes
hash = 8 ∷ []

pregenerator_input-inj_example : (code ≡ code) × (hash ≡ hash)
pregenerator_input-inj_example =
    pregenerator_input-inj code code hash hash (omega arith) (omega arith) refl
