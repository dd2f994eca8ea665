-- ===== src/Chains/Runs.antt =====
-- The theorems on the Solana and Tron messages at concrete inputs: a connection whose transport
-- fails at the first read.
use maknoon_trezor_core_rs.Prelude.{◌≡◌, ◌↔◌, false, none, some, [], ◌∷◌, replicate, ◌++◌}
use maknoon_trezor_core_rs.Error.{io, lit, ok}
use maknoon_trezor_core_rs.Thp.Connection.{Connection, failed, new}
use maknoon_trezor_core_rs.Chains.Reply.{Secp256k1Signature}
use maknoon_trezor_core_rs.Chains.Tron.{split_signature}
use maknoon_trezor_core_rs.Chains.Tron.Structured.{Rejoins, split_signature_iff}

abbrev conn : Connection
conn =
    record (new
      (record { incoming = failed (io (lit "gone" ∷ [])) ∷ []; write_results = []; sent = [] })
      244) { cid = 3; seeded_with = some (none, false) }

abbrev signature : Secp256k1Signature
signature = record { v = 27; r = replicate 32 5; s = replicate 32 6 }

split_signature_iff_example :
    (split_signature (replicate 32 5 ++ (replicate 32 6 ++ (27 ∷ []))) ≡ ok signature)
    ↔ Rejoins (replicate 32 5 ++ (replicate 32 6 ++ (27 ∷ []))) signature
split_signature_iff_example =
    split_signature_iff (replicate 32 5 ++ (replicate 32 6 ++ (27 ∷ []))) signature
