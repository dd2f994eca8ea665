-- ===== src/Proto.antt =====
-- trezor-core/src/proto.rs includes code that `prost` generates at build time: message encoders and
-- decoders are parameters. This is what a decoder answers; the text of its error is its own.
use Prim.Native.String.{String}
use maknoon_trezor_core_rs.Prelude.{◌∷◌, ◌≡◌}
use maknoon_trezor_core_rs.Error.{Reason, Result, ok, err, thp, lit}

pub data Decoded (A : Type 0) : Type 0 where
  decoded : A → Decoded A
  undecodable : Reason → Decoded A

-- `.map_err(|e| TrezorError::thp(format!("{what}{e}")))`
abbrev pub or_thp : {A : Type 0} → String → Decoded A → Result A
or_thp what (decoded a) = ok a
or_thp what (undecodable e) = err (thp (lit what ∷ e))

pub or_thp-eq-ok :
    {A : Type 0} (what : String) (d : Decoded A) {a : A} → or_thp what d ≡ ok a → d ≡ decoded a
or_thp-eq-ok what (decoded x) h = cc
or_thp-eq-ok what (undecodable e) h = cc
