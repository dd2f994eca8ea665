-- ===== src/Client/Paths.antt =====
-- The client's operations on an account: the path is resolved, then the operation runs on the
-- pinned connection.
use maknoon_trezor_core_rs.Prelude.{ℕ, ◌≡◌, ◌⊎◌, inl, inr, refl, Option, List, Bytes}
use maknoon_trezor_core_rs.Error.{TrezorError, Result, ok, err}
use maknoon_trezor_core_rs.Proto.{Decoded}
use maknoon_trezor_core_rs.Outcome.{Outcome, Op, done, after, lift, Yields, Yields-weaken}
use maknoon_trezor_core_rs.Bip32.{Text}
use maknoon_trezor_core_rs.Thp.Noise.{Crypto}
use maknoon_trezor_core_rs.Thp.Connection.{Connection}
use maknoon_trezor_core_rs.Thp.Connection.App.{Messages}
use maknoon_trezor_core_rs.Thp.Connection.Exchange.{Returns}
use maknoon_trezor_core_rs.Client.{Client, PassphraseSpec, key_of, Entropy, resolve_path, pinned_op}
use maknoon_trezor_core_rs.Client.Wallet.{Settles, pinned_op-Settles}

-- A state with the wallet of an earlier one.
abbrev pub SameWallet : {A : Type 0} → Connection → A → Connection → Type 0
SameWallet s a t = t.seeded_with ≡ s.seeded_with

pub Returns-SameWallet :
    {A : Type 0} (P : A → Type 0) (s : Connection) (o : Outcome Connection A)
    → Yields (Returns P s) o
    → Yields (SameWallet s) o
Returns-SameWallet P s o h = Yields-weaken (Returns P s) (SameWallet s) o h (λ a t r. r.1)

-- What an operation with a path does: a path that does not parse is answered before the device is
-- asked anything, with the client as it was; otherwise the operation settles.
abbrev pub PathOrSettles :
    {A : Type 0} → Option Text → List ℕ → PassphraseSpec → Client → Outcome Client A → Type 0
PathOrSettles path fallback passphrase self o =
    ((e : TrezorError) × (resolve_path path fallback ≡ err e) × (o ≡ done (err e) self))
    ⊎ ((address_n : List ℕ) × (resolve_path path fallback ≡ ok address_n)
        × Settles (key_of passphrase) o)

module _ (c : Crypto) {Props : Type 0} (decode : Bytes → Decoded Props) (msgs : Messages)
    (host_static_priv credential : Bytes) (entropy : Entropy) where
  pub path_op-Settles :
      {A : Type 0} (path : Option Text) (fallback : List ℕ) (passphrase : PassphraseSpec)
      (self : Client) (op : List ℕ → Op Connection A)
      → ((address_n : List ℕ) (s : Connection) → Yields (SameWallet s) (op address_n s))
      → PathOrSettles path fallback passphrase self (
          after (lift (resolve_path path fallback) self) (λ address_n.
            pinned_op c decode msgs host_static_priv credential passphrase entropy (op address_n)))
  path_op-Settles path fallback passphrase self op h = split (resolve_path path fallback) refl
    where
      split :
          (r : Result (List ℕ))
          → resolve_path path fallback ≡ r
          → PathOrSettles path fallback passphrase self (
              after (lift r self) (λ address_n.
                pinned_op c decode msgs host_static_priv credential passphrase entropy
                  (op address_n)))
      split (ok address_n) e = inr (
        address_n,
        e,
        pinned_op-Settles c decode msgs host_static_priv credential entropy passphrase _ self
            (h address_n),
      )
      split (err x) e = inl (x, e, refl)
