-- ===== src/License/Validate.antt =====
-- The validation of a signed license: internal/license/license.go. Reading JSON, base64, signatures and
-- dates are libraries, and parameters here. Times are nanoseconds since 1970.
use Prim.Native.Nat.{ℕ, ◌+◌, ◌*◌}
use mathlib.Core.Bool.{Bool, true, false}
use mathlib.Core.Option.{Option, none, some}
use mathlib.Core.List.{List, [], ◌∷◌, ◌++◌}
use ch_ui.Prelude.Tests.{ltb, if◌then◌else◌}
use ch_ui.Prelude.Int.{ℤ}
use ch_ui.Prelude.Text.{Text, codes, is_blank, lower, trim}
use ch_ui.Prelude.Clock.{minute}

pub record LicenseFile : Type 0 where
  pub license_id : Text
  pub edition : Text
  pub customer : Text
  pub features : List Text
  pub max_connections : ℤ
  pub issued_at : Text
  pub expires_at : Text
  pub signature : Text

pub record LicenseInfo : Type 0 where
  pub edition : Text
  pub valid : Bool
  pub customer : Text
  pub expires_at : Text
  pub license_id : Text
  pub in_grace : Bool
  pub grace_until : Option ℕ

-- `verify` takes the payload and the signature, for the public key that is built in. `expired_at` and
-- `graced_at` are the two readings of the clock.
pub record Libraries : Type 0 where
  pub unmarshal : Text → Option LicenseFile
  pub json_text : Text → Text
  pub json_list : List Text → Text
  pub json_int : ℤ → Text
  pub decode : Text → Option Text
  pub verify : Text → Text → Bool
  pub parse_time : Text → Option ℕ
  pub expired_at : ℕ
  pub graced_at : ℕ

abbrev pub grace : ℕ
grace = 14 * (1440 * minute)

abbrev pub community_license : LicenseInfo
community_license = record {
  edition = codes "community";
  valid = false;
  customer = [];
  expires_at = [];
  license_id = [];
  in_grace = false;
  grace_until = none;
}

abbrev entry : Libraries → Text → Text → Text
entry lib key value = lib.json_text key ++ b':' ∷ value

-- The fields in the order of their keys.
unfoldable pub signable_payload : Libraries → LicenseFile → Text
signable_payload lib lf =
    codes "{"
    ++ entry lib (codes "customer") (lib.json_text lf.customer)
    ++ codes ","
    ++ entry lib (codes "edition") (lib.json_text lf.edition)
    ++ codes ","
    ++ entry lib (codes "expires_at") (lib.json_text lf.expires_at)
    ++ codes ","
    ++ entry lib (codes "features") (lib.json_list lf.features)
    ++ codes ","
    ++ entry lib (codes "issued_at") (lib.json_text lf.issued_at)
    ++ codes ","
    ++ entry lib (codes "license_id") (lib.json_text lf.license_id)
    ++ codes ","
    ++ entry lib (codes "max_connections") (lib.json_int lf.max_connections)
    ++ codes "}"

abbrev pub info_of : LicenseFile → Bool → Bool → Option ℕ → LicenseInfo
info_of lf valid in_grace grace_until = record {
  edition = lower (trim lf.edition);
  valid = valid;
  customer = lf.customer;
  expires_at = lf.expires_at;
  license_id = lf.license_id;
  in_grace = in_grace;
  grace_until = grace_until;
}

unfoldable pub dated : Libraries → LicenseFile → Option ℕ → LicenseInfo
dated lib lf none = community_license
dated lib lf (some expires) =
    if ltb expires lib.expired_at
    then info_of lf false (ltb lib.graced_at (expires + grace)) (some (expires + grace))
    else info_of lf true false none

unfoldable pub signed : Libraries → LicenseFile → Option Text → LicenseInfo
unfolding dated signable_payload
signed lib lf none = community_license
signed lib lf (some sig) =
    if lib.verify (signable_payload lib lf) sig
    then dated lib lf (lib.parse_time lf.expires_at)
    else community_license

unfoldable pub parsed_license : Libraries → Option LicenseFile → LicenseInfo
unfolding signed
parsed_license lib none = community_license
parsed_license lib (some lf) = signed lib lf (lib.decode lf.signature)

-- `validateLicenseWithKey`, and `ValidateLicense` where the built-in key can be read.
unfoldable pub validate_license : Libraries → Text → LicenseInfo
unfolding parsed_license
validate_license lib license_json =
    if is_blank license_json
    then community_license
    else parsed_license lib (lib.unmarshal license_json)
