-- ===== src/Tests/RequestState.antt =====
-- The theorem on signed request state, applied to a token that a test signer mints.
use turbomcp.Prelude.{
  ◌+◌, ◌≡◌, refl, ◌&&◌, String, Option, none, some, leb, if◌then◌else◌, ◌==◌, string_key,
  option_key, ok,
}
use turbomcp.RequestState.Signer.{token_of, payload_value, sign, rejected, verify, state_ttl}
use turbomcp.RequestState.Signer.Redeem.{verify-sign}
use turbomcp.Tests.Json.{null}
use turbomcp.Tests.Crypto.{crypto}

minted : sign crypto 0 1 "tools/call" none null ≡ ok (token_of crypto 600 32)
unfolding sign payload_value
minted = refl

verify-sign_example : verify crypto 30 1 "tools/call" (some "mallory") (token_of crypto 600 32) ≡ (
    if ◌==◌ {K = String} "tools/call" "tools/call"
      && ◌==◌ {K = Option String} none (some "mallory")
      && leb 30 (0 + state_ttl)
    then ok null
    else rejected crypto)
verify-sign_example =
    verify-sign crypto 0 30 1 "tools/call" "tools/call" none (some "mallory") null
      (token_of crypto 600 32) minted
