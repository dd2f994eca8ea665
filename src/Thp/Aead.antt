-- ===== src/Thp/Aead.antt =====
-- trezor-core/src/thp/aead.rs over the `aes-gcm` crate, which is a parameter.
use maknoon_trezor_core_rs.Prelude.{◌+◌, ◌≡◌, Option, none, some, Bytes, length}
use maknoon_trezor_core_rs.Error.{Result, ok, err, thp_error}

-- `Aes256Gcm::encrypt` and `decrypt` of the crate: key, nonce, associated data, text. What is
-- relied on is that decryption inverts encryption, and that the tag takes 16 bytes.
pub record Aes256Gcm : Type 0 where
  pub encrypt : Bytes → Bytes → Bytes → Bytes → Bytes
  pub decrypt : Bytes → Bytes → Bytes → Bytes → Option Bytes
  pub decrypt-encrypt :
      (key nonce aad m : Bytes) → decrypt key nonce aad (encrypt key nonce aad m) ≡ some m
  pub length-encrypt : (key nonce aad m : Bytes) → length (encrypt key nonce aad m) ≡ length m + 16

module _ (aes : Aes256Gcm) where
  unfoldable pub seal : Bytes → Bytes → Bytes → Bytes → Bytes
  seal key iv aad plaintext = aes.encrypt key iv aad plaintext

  abbrev authenticated : Option Bytes → Result Bytes
  authenticated (some plaintext) = ok plaintext
  authenticated none = err (thp_error "AES-GCM authentication failed")

  unfoldable pub open_sealed : Bytes → Bytes → Bytes → Bytes → Result Bytes
  open_sealed key iv aad ciphertext = authenticated (aes.decrypt key iv aad ciphertext)

  pub open_sealed-seal :
      (key iv aad plaintext : Bytes)
      → open_sealed key iv aad (seal key iv aad plaintext) ≡ ok plaintext
  unfolding open_sealed seal
  open_sealed-seal key iv aad plaintext = rw aes.decrypt-encrypt
