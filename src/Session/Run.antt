-- ===== src/Session/Run.antt =====
-- A service of services/operator-backend/src/session/index.ts over its lifetime: the calls that change
-- its two maps, one after the other.
use canton_dex_reference_imp.Prelude.{ℕ, Option, List, [], ◌∷◌}
use canton_dex_reference_imp.Prelude.Text.{Str}
use canton_dex_reference_imp.Types.{Party}
use canton_dex_reference_imp.Session.{SessionEngine, SessionConfig, Session}
use canton_dex_reference_imp.Session.Challenge.{
  Readings, SignedMessage, SessionAccount, challenge, verify,
}
use canton_dex_reference_imp.Session.Bootstrap.{
  MintReadings, create_bootstrap, mint_from_ledger_proof,
}

pub data SessionCall : Type 0 where
  challenges : Readings → Str → Party → SessionCall
  verifies : Readings → Party → Str → SignedMessage → Option SessionAccount → SessionCall
  creates : ℕ → ℕ → Str → Str → SessionCall
  mints : MintReadings → Str → Party → Str → SessionCall

abbrev pub step : SessionEngine → SessionConfig → Session → SessionCall → Session
step engine cfg s (challenges r nonce party) = (challenge engine cfg r nonce party s).1
step engine cfg s (verifies r party nonce signed account) =
    (verify engine cfg r party nonce signed account s).1
step engine cfg s (creates swept_at issued_at nonce jti) =
    (create_bootstrap engine cfg swept_at issued_at nonce jti s).1
step engine cfg s (mints r token party auth_binding) =
    (mint_from_ledger_proof engine cfg r token party auth_binding s).1

abbrev pub run : SessionEngine → SessionConfig → Session → List SessionCall → Session
run engine cfg s [] = s
run engine cfg s (c ∷ cs) = run engine cfg (step engine cfg s c) cs
