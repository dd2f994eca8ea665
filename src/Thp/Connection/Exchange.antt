-- ===== src/Thp/Connection/Exchange.antt =====
-- What a call that exchanges messages leaves of the connection: the lemmas that pairing and the
-- chains share.
use maknoon_trezor_core_rs.Prelude.{ℕ, ◌≡◌, refl, ◌∙◌, Bool, true, false, Bytes}
use maknoon_trezor_core_rs.Error.{TrezorError, Result, err, ok, guard}
use maknoon_trezor_core_rs.Outcome.{Outcome, Op, lift, after, Yields, Yields-after, Yields-weaken}
use maknoon_trezor_core_rs.Thp.Aead.{Aes256Gcm}
use maknoon_trezor_core_rs.Thp.Connection.{Connection}
use maknoon_trezor_core_rs.Thp.Connection.App.{Messages, transceive, transceive_on}
use maknoon_trezor_core_rs.Thp.Connection.Replies.{transceive-Replied, transceive_on-Replied}

-- A value of a kind, in a state with the wallet of an earlier one.
abbrev pub Returns : {A : Type 0} → (A → Type 0) → Connection → A → Connection → Type 0
Returns P s a t = P a × (t.seeded_with ≡ s.seeded_with)

-- An exchange whose reply is looked at, on a session that is named or on the active one.
module _ (aes : Aes256Gcm) (msgs : Messages) {A : Type 0} (P : A → Type 0)
    (look : ℕ × Bytes → Op Connection A)
    (looked : (m : ℕ × Bytes) (t : Connection) → Yields (Returns P t) (look m t)) where
  pub exchange-Returns :
      (session_id message_type : ℕ) (body : Bytes) (s : Connection)
      → Yields (Returns P s) (after (transceive_on aes msgs session_id message_type body s) look)
  exchange-Returns session_id message_type body s =
      Yields-after _ (Returns P s) (transceive_on aes msgs session_id message_type body s) look
        (transceive_on-Replied aes msgs s session_id message_type body)
        (λ m t r.
          Yields-weaken (Returns P t) (Returns P s) (look m t) (looked m t)
            (λ a w h. (h.0, h.1 ∙ r.2.seeded)))

  pub next_exchange-Returns :
      (message_type : ℕ) (body : Bytes) (s : Connection)
      → Yields (Returns P s) (after (transceive aes msgs message_type body s) look)
  next_exchange-Returns message_type body s =
      Yields-after _ (Returns P s) (transceive aes msgs message_type body s) look
        (transceive-Replied aes msgs s message_type body)
        (λ m t r.
          Yields-weaken (Returns P t) (Returns P s) (look m t) (looked m t)
            (λ a w h. (h.0, h.1 ∙ r.2.seeded)))

-- A value that is returned when it passes a test.
pub guarded-Returns :
    {A : Type 0} (P : A → Type 0) (test : Bool) (e : TrezorError) (a : A) (t : Connection)
    → (test ≡ true → P a)
    → Yields (Returns P t) (after (lift (guard test e) t) (λ u. lift (ok a)))
unfolding Yields
guarded-Returns P true e a t h = (h refl, refl)
guarded-Returns P false e a t h = tt

-- A result that is returned as it is.
pub result-Returns :
    {A : Type 0} (P : A → Type 0) (r : Result A) (t : Connection)
    → ((a : A) → r ≡ ok a → P a)
    → Yields (Returns P t) (lift r t)
unfolding Yields
result-Returns P (ok a) t h = (h a refl, refl)
result-Returns P (err e) t h = tt

-- One call behind another.
pub after-Returns :
    {A B : Type 0} (P : A → Type 0) (Q : B → Type 0) (s : Connection) (o : Outcome Connection A)
    (next : A → Op Connection B)
    → Yields (Returns P s) o
    → ((a : A) (t : Connection) → P a → Yields (Returns Q t) (next a t))
    → Yields (Returns Q s) (after o next)
after-Returns P Q s o next h k = Yields-after (Returns P s) (Returns Q s) o next h (λ a t r.
    Yields-weaken (Returns Q t) (Returns Q s) (next a t) (k a t r.0) (λ b w q. (q.0, q.1 ∙ r.1)))
