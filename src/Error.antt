-- ===== src/Error.antt =====
-- trezor-core/src/error.rs and the error of trezor-core/src/transport.rs: the error values, and the
-- result type that every fallible function of the crate returns.
use Prim.Native.String.{String}
use maknoon_trezor_core_rs.Prelude.{ℕ, List, [], ◌∷◌, Bool, true, false, ◌≡◌, refl}

-- A text as the parts that `format!` joins: literal text, a number in decimal, text of the input.
pub data Part : Type 0 where
  lit : String → Part
  num : ℕ → Part
  text : List ℕ → Part

abbrev pub Reason : Type 0
Reason = List Part

pub data TransportError : Type 0 where
  disconnected : Reason → TransportError
  timeout : Reason → TransportError
  io : Reason → TransportError

pub data TrezorError : Type 0 where
  transport : Reason → TrezorError
  thp : Reason → TrezorError
  device_rejected : ℕ → Reason → TrezorError
  pairing : Reason → TrezorError
  invalid_input : Reason → TrezorError
  protocol : Reason → TrezorError
  transport_busy : TrezorError
  user_canceled : TrezorError
  not_implemented : Reason → TrezorError

-- `TrezorTransportError`'s `Display`, which `#[error]` gives.
abbrev pub to_text : TransportError → Reason
to_text (disconnected r) = lit "transport disconnected: " ∷ r
to_text (timeout r) = lit "transport timed out: " ∷ r
to_text (io r) = lit "transport I/O error: " ∷ r

-- `impl From<TrezorTransportError> for TrezorError`
abbrev pub from_transport_error : TransportError → TrezorError
from_transport_error e = transport (to_text e)

-- `TrezorError::thp` on a literal text.
abbrev pub thp_error : String → TrezorError
thp_error s = thp (lit s ∷ [])

pub data Result {ℓ} (A : Type ℓ) : Type ℓ where
  ok : A → Result A
  err : TrezorError → Result A

-- `ok_or_else` of a failed test.
abbrev pub guard : Bool → TrezorError → Result (Unit {0})
guard false e = err e
guard true e = ok tt

infixl 5 ◌>>=◌ ◌>>◌
-- The `?` operator.
abbrev pub ◌>>=◌ {ℓ κ} : {A : Type ℓ} {B : Type κ} (r : Result A) (next : A → Result B) → Result B
err e >>= next = err e
ok a >>= next = next a

abbrev pub ◌>>◌ {ℓ κ} : {A : Type ℓ} {B : Type κ} (r : Result A) (next : Result B) → Result B
r >> next = r >>= λ _. next

-- What a successful chain says of its parts.
pub >>=-eq-ok {ℓ κ} :
    {A : Type ℓ} {B : Type κ} {b : B} (r : Result A) (next : A → Result B)
    → (r >>= next) ≡ ok b
    → (a : A) × (r ≡ ok a) × (next a ≡ ok b)
>>=-eq-ok (err e) next h = cc
>>=-eq-ok (ok a) next h = (a, refl, h)

pub guard-eq-ok {ℓ} :
    {B : Type ℓ} {b : B} (test : Bool) (e : TrezorError) (r : Result B)
    → (guard test e >> r) ≡ ok b
    → (test ≡ true) × (r ≡ ok b)
guard-eq-ok false e r h = cc
guard-eq-ok true e r h = (refl, h)
