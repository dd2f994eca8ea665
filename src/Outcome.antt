-- ===== src/Outcome.antt =====
-- What an asynchronous call comes to, and calls in sequence: explicit passing of the state that
-- `&mut self` and the transport stand for.
use maknoon_trezor_core_rs.Prelude.{Bool, true, false, ◌≡◌, refl, if◌then◌else◌}
use maknoon_trezor_core_rs.Error.{Result, ok, err}

-- A call returns, or it waits for a read that never completes. A loop of the model that has used
-- its fuel up is a third outcome, so that it is never taken for one of the others.
pub data Outcome {ℓ} (S A : Type ℓ) : Type ℓ where
  done : Result A → S → Outcome S A
  waiting : S → Outcome S A
  out_of_fuel : S → Outcome S A

abbrev pub Op {ℓ} : (S A : Type ℓ) → Type ℓ
Op S A = S → Outcome S A

abbrev pub after {ℓ} : {S A B : Type ℓ} (o : Outcome S A) (next : A → Op S B) → Outcome S B
after (done (err e) s) next = done (err e) s
after (done (ok a) s) next = next a s
after (waiting s) next = waiting s
after (out_of_fuel s) next = out_of_fuel s

infixl 5 ◌>>=◌ ◌>>◌
abbrev pub ◌>>=◌ {ℓ} : {S A B : Type ℓ} (m : Op S A) (next : A → Op S B) → Op S B
(m >>= next) s = after (m s) next

abbrev pub ◌>>◌ {ℓ} : {S A B : Type ℓ} (m : Op S A) (next : Op S B) → Op S B
m >> next = m >>= λ _. next

abbrev pub lift {ℓ} : {S A : Type ℓ} (r : Result A) → Op S A
lift r s = done r s

abbrev pub get {ℓ} : {S : Type ℓ} → Op S S
get s = done (ok s) s

abbrev pub modify : {S : Type 0} (f : S → S) → Op S (Unit {0})
modify f s = done (ok tt) (f s)

-- What a call's outcome satisfies: it is no loop that ran out of fuel, and when the call returns a
-- value, the value and the state meet P.
unfoldable pub Yields : {S A : Type 0} (P : A → S → Type 0) (o : Outcome S A) → Type 0
Yields P (done (ok a) s) = P a s
Yields P (done (err e) s) = Unit
Yields P (waiting s) = Unit
Yields P (out_of_fuel s) = ⊥

pub Yields-after :
    {S A B : Type 0} (P : A → S → Type 0) (Q : B → S → Type 0) (o : Outcome S A) (next : A → Op S B)
    → Yields P o
    → ((a : A) (s : S) → P a s → Yields Q (next a s))
    → Yields Q (after o next)
unfolding Yields
Yields-after P Q (done (ok a) s) next h k = k a s h
Yields-after P Q (done (err e) s) next h k = tt
Yields-after P Q (waiting s) next h k = tt
Yields-after P Q (out_of_fuel s) next h k = absurd h

pub Yields-weaken :
    {S A : Type 0} (P Q : A → S → Type 0) (o : Outcome S A)
    → Yields P o
    → ((a : A) (s : S) → P a s → Q a s)
    → Yields Q o
unfolding Yields
Yields-weaken P Q (done (ok a) s) h k = k a s h
Yields-weaken P Q (done (err e) s) h k = tt
Yields-weaken P Q (waiting s) h k = tt
Yields-weaken P Q (out_of_fuel s) h k = absurd h

pub Yields-lift :
    {S A B : Type 0} (Q : B → S → Type 0) (r : Result A) (next : A → Op S B) (s : S)
    → ((a : A) → r ≡ ok a → Yields Q (next a s))
    → Yields Q (after (lift r s) next)
unfolding Yields
Yields-lift Q (ok a) next s h = h a refl
Yields-lift Q (err e) next s h = tt

pub Yields-if :
    {S A : Type 0} (P : A → S → Type 0) (test : Bool) (m n : Op S A) (s : S)
    → (test ≡ true → Yields P (m s))
    → (test ≡ false → Yields P (n s))
    → Yields P ((if test then m else n) s)
Yields-if P true m n s h k = h refl
Yields-if P false m n s h k = k refl

-- What a call that returned a value is.
pub Yields-run :
    {S A : Type 0} (P : A → S → Type 0) (o : Outcome S A)
    → Yields P o
    → Yields (λ a t. P a t × (o ≡ done (ok a) t)) o
unfolding Yields
Yields-run P (done (ok a) t) h = (h, refl)
Yields-run P (done (err e) t) h = tt
Yields-run P (waiting t) h = tt
Yields-run P (out_of_fuel t) h = h
