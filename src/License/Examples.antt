-- ===== src/License/Examples.antt =====
-- A license that expired a day ago.
use Prim.Native.Nat.{ℕ, ◌*◌}
use mathlib.Core.Path.{◌≡◌, refl}
use mathlib.Core.Logic.{◌⊎◌}
use mathlib.Core.Bool.{true, false}
use mathlib.Core.Option.{some}
use mathlib.Core.List.{List, [], ◌∷◌}
use ch_ui.Prelude.Int.{pos}
use ch_ui.Prelude.Text.{codes, lower, trim}
use ch_ui.Prelude.Clock.{minute}
use ch_ui.License.Tokens.{is_valid_tunnel_token, generate_tunnel_token}
use ch_ui.License.Validate.{LicenseFile, Libraries, community_license, validate_license}
use ch_ui.License.ValidateLaws.{Grants, validate_license-Grants}

abbrev file : LicenseFile
file = record {
  license_id = codes "L1";
  edition = codes " Pro";
  customer = codes "Acme";
  features = [];
  max_connections = pos 1;
  issued_at = codes "2025-01-01T00:00:00Z";
  expires_at = codes "2026-01-01T00:00:00Z";
  signature = codes "sig";
}

abbrev lib : Libraries
lib = record {
  unmarshal = λ _. some file;
  json_text = λ t. t;
  json_list = λ _. codes "[]";
  json_int = λ _. codes "1";
  decode = λ t. some t;
  verify = λ _ _. true;
  parse_time = λ _. some 0;
  expired_at = 1440 * minute;
  graced_at = 1440 * minute;
}

in_grace : (validate_license lib (codes "{}")).in_grace ≡ true
unfolding validate_license lower trim
in_grace = refl

validate_license-Grants_example :
    (validate_license lib (codes "{}") ≡ community_license)
    ⊎ Grants lib (codes "{}") (validate_license lib (codes "{}"))
validate_license-Grants_example = validate_license-Grants lib (codes "{}")

token_too_short : is_valid_tunnel_token (codes "cht_0a1b") ≡ false
unfolding is_valid_tunnel_token
token_too_short = refl

abbrev random : List ℕ
random = 0 ∷ 255 ∷ 16 ∷ 1 ∷ 2 ∷ 3 ∷ 4 ∷ 5 ∷ 6 ∷ 7 ∷ 8 ∷ 9 ∷ 10 ∷ 11 ∷ 12 ∷ 171 ∷ []

token_of_random : generate_tunnel_token random ≡ codes "cht_00ff100102030405060708090a0b0cab"
unfolding generate_tunnel_token
token_of_random = refl
