-- ===== src/Chains/Solana.antt =====
-- trezor-core/src/chains/solana.rs: the messages on a seeded session. The codecs are generated
-- code, a parameter; `show_display` is false and the other options are absent in every request.
pub mod Signatures
use maknoon_trezor_core_rs.Prelude.{ℕ, not, List, [], ◌∷◌, Bytes, length, bit_or, ◌==◌}
use maknoon_trezor_core_rs.Error.{TrezorError, thp, lit, num, Result, ok, thp_error, guard}
use maknoon_trezor_core_rs.Proto.{Decoded, or_thp}
use maknoon_trezor_core_rs.Outcome.{Op, ◌>>=◌, ◌>>◌, lift}
use maknoon_trezor_core_rs.Bip32.{Text}
use maknoon_trezor_core_rs.Thp.Aead.{Aes256Gcm}
use maknoon_trezor_core_rs.Thp.Connection.{Connection}
use maknoon_trezor_core_rs.Thp.Connection.App.{Messages, transceive_on}
use maknoon_trezor_core_rs.Chains.Reply.{expect_type, hardened_bit}

pub record SolanaCodec : Type 0 where
  pub get_address : List ℕ → Bytes
  pub address : Bytes → Decoded Text
  pub sign_tx : List ℕ → Bytes → Bytes
  pub tx_signature : Bytes → Decoded Bytes
  pub sign_message : List ℕ → Bytes → Bytes
  pub message_signature : Bytes → Decoded Bytes

-- m/44'/501'/<account>'/0'
unfoldable pub account_path : ℕ → List ℕ
account_path account = 0x8000002c ∷ 0x800001f5 ∷ bit_or hardened_bit account ∷ 0x80000000 ∷ []

module _ (aes : Aes256Gcm) (msgs : Messages) (codec : SolanaCodec) where
  unfoldable pub get_address : ℕ → List ℕ → Op Connection Text
  get_address session_id path = do
    (rt, rp) ← transceive_on aes msgs session_id 902 (codec.get_address path)
    lift (expect_type "SolanaAddress" 903 rt)
    addr ← lift (or_thp "SolanaAddress decode: " (codec.address rp))
    lift (guard (not (length addr == 0)) (thp_error "SolanaAddress carried an empty address"))
    lift (ok addr)

  unfoldable pub sign_tx : ℕ → List ℕ → Bytes → Op Connection Bytes
  sign_tx session_id path serialized_tx = do
    (rt, rp) ← transceive_on aes msgs session_id 904 (codec.sign_tx path serialized_tx)
    lift (expect_type "SolanaTxSignature" 905 rt)
    sig ← lift (or_thp "SolanaTxSignature decode: " (codec.tx_signature rp))
    lift (
        guard (length sig == 64)
          (thp (lit "Solana signature was " ∷ num (length sig) ∷ lit " bytes, expected 64" ∷ [])))
    lift (ok sig)

  unfoldable pub sign_message : ℕ → List ℕ → Bytes → Op Connection Bytes
  sign_message session_id path message = do
    (rt, rp) ← transceive_on aes msgs session_id 906 (codec.sign_message path message)
    lift (expect_type "SolanaMessageSignature" 907 rt)
    sig ← lift (or_thp "SolanaMessageSignature decode: " (codec.message_signature rp))
    lift (
        guard (length sig == 64) (
          thp (
            lit "Solana message signature was "
            ∷ num (length sig)
            ∷ lit " bytes, expected 64"
            ∷ [])))
    lift (ok sig)
