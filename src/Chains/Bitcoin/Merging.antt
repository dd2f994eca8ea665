-- ===== src/Chains/Bitcoin/Merging.antt =====
-- What the merging of signatures in trezor-core/src/chains/bitcoin.rs changes of a PSBT.
use maknoon_trezor_core_rs.Prelude.{
  ℕ, zero, suc, ◌≡◌, ◌⊎◌, inl, inr, refl, sym, ap, ◌∙◌, Bool, true, false, Option, none, some, List,
  [], ◌∷◌, Bytes, if◌then◌else◌,
}
use mathlib.Core.Path.{subst}
use maknoon_trezor_core_rs.Error.{Reason, lit, num, ok, >>=-eq-ok}
use maknoon_trezor_core_rs.Proto.{or_thp}
use maknoon_trezor_core_rs.Chains.Bitcoin.Psbt.{PsbtInput, Psbt, BitcoinCrate}
use maknoon_trezor_core_rs.Chains.Bitcoin.Build.{or_reason}
use maknoon_trezor_core_rs.Chains.Bitcoin.Requests.{
  SignTxCodec, insert, Signatures, first_key, merged_input, merge_into, merge_at, merge,
}

-- A key of an association list.
abbrev pub HasKey : {B : Type 0} → List (Bytes × B) → Bytes → Type 0
HasKey [] k = ⊥
HasKey ((j, w) ∷ rest) k = (j ≡ k) ⊎ HasKey rest k

insert-HasKey :
    {B : Type 0} (lt : Bytes → Bytes → Bool) (k : Bytes) (v : B) (entries : List (Bytes × B))
    (q : Bytes)
    → HasKey (insert lt k v entries) q
    → HasKey entries q ⊎ (k ≡ q)
unfolding insert
insert-HasKey lt k v [] q (inl e) = inr e
insert-HasKey lt k v [] q (inr h) = absurd h
insert-HasKey {B} lt k v ((j, w) ∷ rest) q h =
    split (lt k j) (lt j k) (insert-HasKey lt k v rest q) h
  where
    split :
        (a b : Bool)
        → (HasKey (insert lt k v rest) q → HasKey rest q ⊎ (k ≡ q))
        → HasKey
            (if a
              then (k, v) ∷ (j, w) ∷ rest
              else if b
              then (j, w) ∷ insert lt k v rest
              else (j, v) ∷ rest)
            q
        → ((j ≡ q) ⊎ HasKey rest q) ⊎ (k ≡ q)
    split true b f (inl e) = inr e
    split true b f (inr g) = inl g
    split false true f (inl e) = inl (inl e)
    split false true f (inr g) = elim (f g) [ inl m ↦ inl (inr m) | inr e ↦ inr e ]
    split false false f g = inl g

-- An input that differs from another in its partial signatures only, where no key is added but the
-- first one of its derivations.
pub record IsSigned (pin pin' : PsbtInput) : Type 0 where
  pub non_witness_utxo : pin'.non_witness_utxo ≡ pin.non_witness_utxo
  pub witness_utxo : pin'.witness_utxo ≡ pin.witness_utxo
  pub bip32_derivation : pin'.bip32_derivation ≡ pin.bip32_derivation
  pub other : pin'.other ≡ pin.other
  pub keys :
      (k : Bytes)
      → HasKey pin'.partial_sigs k
      → HasKey pin.partial_sigs k ⊎ (first_key pin.bip32_derivation ≡ some k)

IsSigned-refl : (pin : PsbtInput) → IsSigned pin pin
IsSigned-refl pin = record {
  non_witness_utxo = refl;
  witness_utxo = refl;
  bip32_derivation = refl;
  other = refl;
  keys = λ k h. inl h;
}

IsSigned-trans : (p q r : PsbtInput) → IsSigned p q → IsSigned q r → IsSigned p r
IsSigned-trans p q r s t = record {
  non_witness_utxo = t.non_witness_utxo ∙ s.non_witness_utxo;
  witness_utxo = t.witness_utxo ∙ s.witness_utxo;
  bip32_derivation = t.bip32_derivation ∙ s.bip32_derivation;
  other = t.other ∙ s.other;
  keys = λ k h. elim (t.keys k h) [
    | inl m ↦ s.keys k m
    | inr e ↦ inr (sym (ap first_key s.bip32_derivation) ∙ e)
  ];
}

abbrev pub AreSigned : List PsbtInput → List PsbtInput → Type 0
AreSigned [] [] = Unit {0}
AreSigned [] (q ∷ qs) = ⊥
AreSigned (p ∷ ps) [] = ⊥
AreSigned (p ∷ ps) (q ∷ qs) = IsSigned p q × AreSigned ps qs

AreSigned-refl : (ps : List PsbtInput) → AreSigned ps ps
AreSigned-refl [] = tt
AreSigned-refl (p ∷ ps) = (IsSigned-refl p, AreSigned-refl ps)

AreSigned-trans : (ps qs rs : List PsbtInput) → AreSigned ps qs → AreSigned qs rs → AreSigned ps rs
AreSigned-trans [] [] rs s t = t
AreSigned-trans [] (q ∷ qs) rs s t = absurd s
AreSigned-trans (p ∷ ps) [] rs s t = absurd s
AreSigned-trans (p ∷ ps) (q ∷ qs) [] s t = absurd t
AreSigned-trans (p ∷ ps) (q ∷ qs) (r ∷ rs) s t =
    (IsSigned-trans p q r s.0 t.0, AreSigned-trans ps qs rs s.1 t.1)

-- The PSBT of the same transaction, with more partial signatures at most.
pub record Signs (psbt signed : Psbt) : Type 0 where
  pub unsigned_tx : signed.unsigned_tx ≡ psbt.unsigned_tx
  pub outputs : signed.outputs ≡ psbt.outputs
  pub other : signed.other ≡ psbt.other
  pub inputs : AreSigned psbt.inputs signed.inputs

pub or_reason-eq-ok :
    {A : Type 0} (o : Option A) (reason : Reason) {a : A} → or_reason o reason ≡ ok a → o ≡ some a
or_reason-eq-ok none reason h = cc
or_reason-eq-ok (some x) reason h = cc

module _ (crate : BitcoinCrate) (codec : SignTxCodec) where
  merged_input-IsSigned :
      (pin : PsbtInput) (pubkey sig : Bytes)
      → first_key pin.bip32_derivation ≡ some pubkey
      → IsSigned pin (merged_input crate codec pin pubkey sig)
  merged_input-IsSigned pin pubkey sig e = record {
    non_witness_utxo = refl;
    witness_utxo = refl;
    bip32_derivation = refl;
    other = refl;
    keys = λ k h. elim (insert-HasKey crate.pubkey_lt pubkey _ pin.partial_sigs k h) [
      | inl m ↦ inl m
      | inr same ↦ inr (e ∙ ap some same)
    ];
  }

  merge_into-IsSigned :
      (idx : ℕ) (pin pin' : PsbtInput) (der : Bytes)
      → merge_into crate codec idx pin der ≡ ok pin'
      → IsSigned pin pin'
  merge_into-IsSigned idx pin pin' der h =
      let (pubkey, first, more) =
        >>=-eq-ok
          (or_reason (first_key pin.bip32_derivation)
            (lit "input " ∷ num idx ∷ lit " missing bip32_derivation" ∷ []))
          _ h in
      let (sig, e, same) =
        >>=-eq-ok (or_thp "device signature parse: " (crate.signature_from_der der)) _ more in
      let merged : merged_input crate codec pin pubkey sig ≡ pin' = cc in
      subst (λ t. IsSigned pin t) merged
        (merged_input-IsSigned pin pubkey sig
          (or_reason-eq-ok (first_key pin.bip32_derivation) _ first))

  merge_at-AreSigned :
      (idx i : ℕ) (der : Bytes) (ps qs : List PsbtInput)
      → merge_at crate codec idx i der ps ≡ ok qs
      → AreSigned ps qs
  unfolding merge_at
  merge_at-AreSigned idx i der [] qs h = cc
  merge_at-AreSigned idx zero der (p ∷ ps) qs h =
      let (p', e, same) = >>=-eq-ok (merge_into crate codec idx p der) _ h in
      let merged : p' ∷ ps ≡ qs = cc in
      subst (λ t. AreSigned (p ∷ ps) t) merged
        (merge_into-IsSigned idx p p' der e, AreSigned-refl ps)
  merge_at-AreSigned idx (suc i) der (p ∷ ps) qs h =
      let (ps', e, same) = >>=-eq-ok (merge_at crate codec idx i der ps) _ h in
      let merged : p ∷ ps' ≡ qs = cc in
      subst (λ t. AreSigned (p ∷ ps) t) merged
        (IsSigned-refl p, merge_at-AreSigned idx i der ps ps' e)

  pub merge-Signs :
      (sigs : Signatures) (psbt signed : Psbt)
      → merge crate codec sigs psbt ≡ ok signed
      → Signs psbt signed
  unfolding merge
  merge-Signs [] psbt signed h =
      let same : psbt ≡ signed = cc in
      subst (λ t. Signs psbt t) same
        (record {
          unsigned_tx = refl;
          outputs = refl;
          other = refl;
          inputs = AreSigned-refl psbt.inputs;
        })
  merge-Signs ((idx, der) ∷ sigs) psbt signed h =
      let (ps, e, more) = >>=-eq-ok (merge_at crate codec idx idx der psbt.inputs) _ h in
      let rest = merge-Signs sigs (record psbt { inputs = ps }) signed more in
      record {
        unsigned_tx = rest.unsigned_tx;
        outputs = rest.outputs;
        other = rest.other;
        inputs =
            AreSigned-trans psbt.inputs ps signed.inputs
              (merge_at-AreSigned idx idx der psbt.inputs ps e) rest.inputs;
      }
