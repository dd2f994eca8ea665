-- ===== src/Chains/Bitcoin.antt =====
-- trezor-core/src/chains/bitcoin.rs, `sign_psbt` in its children: the account's and the master's public key,
-- and the signing of messages. The codecs are generated code, a parameter; `show_display` is false
-- and the xpub prefix is the standard one in every request.
pub mod Accounts
pub mod Psbt
pub mod Build
pub mod Requests
pub mod SignTx
pub mod Acks
pub mod Merging
pub mod Signing
mod Runs
use Prim.Native.String.{String}
use maknoon_trezor_core_rs.Prelude.{
  ℕ, not, Option, List, [], ◌∷◌, Bytes, length, be32, bit_and, bit_or, ◌==◌, if◌then◌else◌,
}
use maknoon_trezor_core_rs.Error.{ok, thp_error, guard}
use maknoon_trezor_core_rs.Proto.{Decoded, or_thp}
use maknoon_trezor_core_rs.Outcome.{Op, ◌>>=◌, ◌>>◌, lift}
use maknoon_trezor_core_rs.Bip32.{Text}
use maknoon_trezor_core_rs.Thp.Aead.{Aes256Gcm}
use maknoon_trezor_core_rs.Thp.Connection.{Connection}
use maknoon_trezor_core_rs.Thp.Connection.App.{Messages, transceive_on}
use maknoon_trezor_core_rs.Chains.Reply.{expect_type, required, hardened_bit}

pub data InputScriptType : Type 0 where
  spendaddress : InputScriptType
  spendmultisig : InputScriptType
  external : InputScriptType
  spendwitness : InputScriptType
  spendp2shwitness : InputScriptType
  spendtaproot : InputScriptType

-- m/84'/<coin>'/<account>'
unfoldable pub account_path : ℕ → ℕ → List ℕ
account_path account coin_type =
    0x80000054 ∷ bit_or hardened_bit coin_type ∷ bit_or hardened_bit account ∷ []

unfoldable pub coin_name : ℕ → String
coin_name coin_type = if coin_type == 1 then "Testnet" else "Bitcoin"

abbrev script_type_of : ℕ → InputScriptType
script_type_of purpose =
    if purpose == 44 then spendaddress else if purpose == 49 then spendp2shwitness else spendwitness

-- The purpose is the first component without its hardened bit.
unfoldable pub script_type_for_path : List ℕ → InputScriptType
script_type_for_path [] = spendwitness
script_type_for_path (p ∷ path) = script_type_of (bit_and p 0x7fffffff)

-- The fields of `PublicKey` that are read.
pub record PublicKey : Type 0 where
  pub xpub : Text
  pub root_fingerprint : Option ℕ

pub record BitcoinMessageSignature : Type 0 where
  pub address : Text
  pub signature : Bytes

pub record BitcoinCodec : Type 0 where
  pub get_public_key : List ℕ → String → InputScriptType → Bytes
  pub public_key : Bytes → Decoded PublicKey
  pub sign_message : List ℕ → Bytes → String → InputScriptType → Bytes
  pub message_signature : Bytes → Decoded BitcoinMessageSignature

module _ (aes : Aes256Gcm) (msgs : Messages) (codec : BitcoinCodec) where
  unfoldable pub sign_message : ℕ → List ℕ → Bytes → ℕ → Op Connection BitcoinMessageSignature
  sign_message session_id address_n message coin_type = do
    (rt, rp) ← transceive_on aes msgs session_id 38 (
        codec.sign_message address_n message (coin_name coin_type) (script_type_for_path address_n))
    lift (expect_type "MessageSignature" 40 rt)
    lift (or_thp "MessageSignature decode: " (codec.message_signature rp))

  unfoldable pub get_account_xpub : ℕ → List ℕ → ℕ → Op Connection Text
  get_account_xpub session_id address_n coin_type = do
    (rt, rp) ←
        transceive_on aes msgs session_id 11
          (codec.get_public_key address_n (coin_name coin_type) (script_type_for_path address_n))
    lift (expect_type "PublicKey" 12 rt)
    pk ← lift (or_thp "PublicKey decode: " (codec.public_key rp))
    lift (guard (not (length pk.xpub == 0)) (thp_error "PublicKey carried an empty xpub"))
    lift (ok pk.xpub)

  -- The fingerprint is a u32, sent to the host as four bytes.
  unfoldable pub get_master_fingerprint : ℕ → Op Connection Bytes
  get_master_fingerprint session_id = do
    (rt, rp) ←
        transceive_on aes msgs session_id 11
          (codec.get_public_key (account_path 0 0) "Bitcoin" spendwitness)
    lift (expect_type "PublicKey" 12 rt)
    pk ← lift (or_thp "PublicKey decode: " (codec.public_key rp))
    fp ← lift (required "PublicKey missing root_fingerprint" pk.root_fingerprint)
    lift (ok (be32 fp))
