-- ===== src/Chains/Tron/Structured.antt =====
-- What the Tron messages return, and what is checked before the device is asked.
use maknoon_trezor_core_rs.Prelude.{
  ℕ, ◌≡◌, ◌≢◌, ◌↔◌, refl, sym, ap, ◌∙◌, not, true, List, [], ◌∷◌, ◌++◌, append_assoc, Bytes, length,
  length-append, length-take, length-drop, get_or-append, take-append_length, drop-append_length,
  take, drop, get_or, slice, take-append-take, take-append-get_or, take_all, ==_iff, ne→==, arith,
  ◌==◌,
}
use maknoon_trezor_core_rs.Error.{Result, guard-eq-ok, ok, err}
use maknoon_trezor_core_rs.Proto.{decoded, or_thp}
use maknoon_trezor_core_rs.Outcome.{done, lift, Yields, Yields-lift}
use maknoon_trezor_core_rs.Thp.Aead.{Aes256Gcm}
use maknoon_trezor_core_rs.Thp.Connection.{Connection}
use maknoon_trezor_core_rs.Thp.Connection.App.{Messages}
use maknoon_trezor_core_rs.Chains.Reply.{expect_type, Secp256k1Signature}
use maknoon_trezor_core_rs.Thp.Connection.Exchange.{
  Returns, exchange-Returns, next_exchange-Returns, guarded-Returns,
}
use maknoon_trezor_core_rs.Chains.Tron.{
  TronCodec, TronRawTransaction, TronRawContract, contract_message, unsupported_contract,
  resolve_tx, split_signature,
}
use maknoon_trezor_core_rs.Chains.Tron.Messages.{get_address, sign_tx}

-- What a split signature is to the device's bytes.
abbrev pub Rejoins : Bytes → Secp256k1Signature → Type 0
Rejoins sig p = (p.r ++ (p.s ++ (p.v ∷ [])) ≡ sig) × (length p.r ≡ 32) × (length p.s ≡ 32)

split_signature-Rejoins :
    (sig : Bytes) (p : Secp256k1Signature) → split_signature sig ≡ ok p → Rejoins sig p
unfolding split_signature
split_signature-Rejoins sig p h =
    let (e, e') = guard-eq-ok (length sig == 65) _ _ h in
    let len : length sig ≡ 65 = (==_iff (length sig) 65).0 e in rw (sym (ok_inj e')) (rejoined len)
  where
    ok_inj : {a b : Secp256k1Signature} → ◌≡◌ {A = Result Secp256k1Signature} (ok a) (ok b) → a ≡ b
    ok_inj h = cc

    rejoined :
        length sig ≡ 65
        → Rejoins sig (record { v = get_or sig 64 0; r = slice 0 32 sig; s = slice 32 64 sig })
    rejoined len = (
      sym (append_assoc (take 32 sig) (take 32 (drop 32 sig)) (get_or sig 64 0 ∷ []))
          ∙ ap (λ t. t ++ (get_or sig 64 0 ∷ [])) (take-append-take 32 32 64 sig refl)
          ∙ take-append-get_or 64 sig 0 (omega arith)
          ∙ take_all 65 sig (omega arith),
      omega (arith, length-take 32 sig),
      omega (arith, length-take 32 (drop 32 sig), length-drop 32 sig),
    )

split_signature-halves :
    (sig : Bytes) (t : Connection)
    → Yields (Returns (λ p. (length p.r ≡ 32) × (length p.s ≡ 32)) t) (lift (split_signature sig) t)
unfolding Yields
split_signature-halves sig t = halves (split_signature sig) refl
  where
    halves :
        (r : Result Secp256k1Signature)
        → split_signature sig ≡ r
        → Yields (Returns (λ p. (length p.r ≡ 32) × (length p.s ≡ 32)) t) (lift r t)
    halves (ok p) e =
        let (joined, first, second) = split_signature-Rejoins sig p e in ((first, second), refl)
    halves (err x) e = tt

split_signature-append :
    (r s : Bytes) (v : ℕ)
    → length r ≡ 32
    → length s ≡ 32
    → split_signature (r ++ (s ++ (v ∷ []))) ≡ ok (record { v = v; r = r; s = s })
unfolding split_signature
split_signature-append r s v hr hs =
    let back = s ++ (v ∷ []) in
    let len : (length (r ++ back) == 65) ≡ true =
      (==_iff (length (r ++ back)) 65).1
        (omega (arith, length-append r back, length-append s (v ∷ []))) in
    let parity : get_or (r ++ back) 64 0 ≡ v =
      get_or-append r back 64 32 0 (omega arith) ∙ get_or-append s (v ∷ []) 32 0 0 (omega arith) in
    rw len (
      rw parity (
        rw (take-append_length 32 r back hr)
          (rw (drop-append_length 32 r back hr) (rw (take-append_length 32 s (v ∷ []) hs) refl))))

-- A device's signature is split into a recovery byte and two halves exactly when the halves have 32
-- bytes each and, joined again with the recovery byte behind them, are the bytes of the device.
pub split_signature_iff :
    (sig : Bytes) (p : Secp256k1Signature) → (split_signature sig ≡ ok p) ↔ Rejoins sig p
split_signature_iff sig p = (
  split_signature-Rejoins sig p,
  λ (joined, first, second).
      ap split_signature (sym joined) ∙ split_signature-append p.r p.s p.v first second,
)

module _ (aes : Aes256Gcm) (msgs : Messages) (codec : TronCodec) (session_id : ℕ)
    (path : List ℕ) where
  -- What the two Tron operations return, from any state and for whatever arrives: an address is never
  -- empty, and the two halves of a signature have 32 bytes each. Each operation ends, and leaves the
  -- record of the wallet as it was.
  pub tron-Returns :
      (raw : Bytes) (s : Connection)
      → Yields (Returns (λ addr. length addr ≢ 0) s) (get_address aes msgs codec session_id path s)
        × Yields
            (Returns (λ p. (length p.r ≡ 32) × (length p.s ≡ 32)) s)
            (sign_tx aes msgs codec session_id path raw s)
  unfolding get_address sign_tx
  tron-Returns raw s = (
    exchange-Returns aes msgs _ _
        (λ m t. Yields-lift _ (expect_type "TronAddress" 2201 m.0) _ t (λ u e.
          Yields-lift _ (or_thp "TronAddress decode: " (codec.address m.1)) _ t
            (λ addr e'. guarded-Returns _ (not (length addr == 0)) _ addr t (λ h. ground arith))))
        session_id 2200 (codec.get_address path) s,
    Yields-lift _ (resolve_tx codec path raw) _ s (λ r d.
        exchange-Returns aes msgs _ _
          (λ m t. Yields-lift _ (expect_type "TronContractRequest" 2204 m.0) _ t (λ u e.
            next_exchange-Returns aes msgs _ _
              (λ m' t'. Yields-lift _ (expect_type "TronSignature" 2203 m'.0) _ t' (λ u' e'.
                Yields-lift _ (or_thp "TronSignature decode: " (codec.signature m'.1)) _ t'
                  (λ sig e''. split_signature-halves sig t')))
              r.1.0 r.1.1 t))
          session_id 2202 (codec.sign_tx r.0) s),
  )

  -- A transaction whose first contract is neither a transfer nor a call of a smart contract is
  -- refused before the device is asked anything: the connection is as it was.
  pub sign_tx-unsupported :
      (raw_tx_proto : Bytes) (s : Connection) (raw : TronRawTransaction)
      (contract : TronRawContract) (more : List TronRawContract)
      → codec.raw_transaction raw_tx_proto ≡ decoded raw
      → raw.contract ≡ contract ∷ more
      → contract.contract_type ≢ 1
      → contract.contract_type ≢ 31
      → sign_tx aes msgs codec session_id path raw_tx_proto s
        ≡ done (err (unsupported_contract codec contract.contract_type)) s
  unfolding sign_tx resolve_tx contract_message
  sign_tx-unsupported raw_tx_proto s raw contract more d c not_transfer not_trigger = rw d (
      rw c (
        rw (ne→== contract.contract_type 1 not_transfer)
          (rw (ne→== contract.contract_type 31 not_trigger) refl)))
