-- ===== src/License/ValidateLaws.antt =====
-- When a license counts (internal/license/license.go).
use Prim.Native.Nat.{ℕ, ◌+◌, ◌≤◌, ◌<◌}
use mathlib.Core.Path.{◌≡◌, refl}
use mathlib.Core.Logic.{◌⊎◌, inl, inr}
use mathlib.Core.Bool.{true, false}
use mathlib.Core.Option.{Option, none, some}
use native.Mathlib.Omega.{arith}
use ch_ui.Prelude.Tests.{ltb, Bool-cases}
use ch_ui.Prelude.Text.{Text, is_blank}
use ch_ui.License.Validate.{
  LicenseFile, LicenseInfo, Libraries, grace, community_license, signable_payload, dated, signed,
  parsed_license, validate_license,
}

-- The text is a license whose signature fits its fields, with a date at which it expires.
pub record IsSigned (lib : Libraries) (json : Text) : Type 0 where
  pub file : LicenseFile
  pub sig : Text
  pub expires : ℕ
  pub read : lib.unmarshal json ≡ some file
  pub decoded : lib.decode file.signature ≡ some sig
  pub verified : lib.verify (signable_payload lib file) sig ≡ true
  pub dated_at : lib.parse_time file.expires_at ≡ some expires

-- What an answer other than that of a community installation says.
pub record Grants (lib : Libraries) (json : Text) (info : LicenseInfo) : Type 0 where
  pub license : IsSigned lib json
  pub customer : info.customer ≡ license.file.customer
  pub active : info.valid ≡ true → lib.expired_at ≤ license.expires
  pub graced :
      info.in_grace ≡ true
      → (license.expires < lib.expired_at)
        × (lib.graced_at < license.expires + grace)
        × (info.valid ≡ false)

dated-Grants :
    (lib : Libraries) (json : Text) (file : LicenseFile) (sig : Text) (o : Option ℕ)
    → lib.unmarshal json ≡ some file
    → lib.decode file.signature ≡ some sig
    → lib.verify (signable_payload lib file) sig ≡ true
    → lib.parse_time file.expires_at ≡ o
    → (dated lib file o ≡ community_license) ⊎ Grants lib json (dated lib file o)
unfolding dated
dated-Grants lib json file sig none r d v p = inl refl
dated-Grants lib json file sig (some expires) r d v p =
    inr (by_date (Bool-cases (ltb expires lib.expired_at)))
  where
    license : IsSigned lib json
    license = record {
      file = file;
      sig = sig;
      expires = expires;
      read = r;
      decoded = d;
      verified = v;
      dated_at = p;
    }

    by_date :
        ((ltb expires lib.expired_at ≡ true) ⊎ (ltb expires lib.expired_at ≡ false))
        → Grants lib json (dated lib file (some expires))
    by_date (inl e) = rw e (record {
      license = license;
      customer = refl;
      active = λ h. cc;
      graced = λ h. (ground arith, ground arith, refl);
    })
    by_date (inr e) = rw e (record {
      license = license;
      customer = refl;
      active = λ h. ground arith;
      graced = λ h. cc;
    })

signed-Grants :
    (lib : Libraries) (json : Text) (file : LicenseFile) (o : Option Text)
    → lib.unmarshal json ≡ some file
    → lib.decode file.signature ≡ o
    → (signed lib file o ≡ community_license) ⊎ Grants lib json (signed lib file o)
unfolding signed
signed-Grants lib json file none r d = inl refl
signed-Grants lib json file (some sig) r d =
    elim (Bool-cases (lib.verify (signable_payload lib file) sig)) [
      | inl v ↦ rw v (dated-Grants lib json file sig (lib.parse_time file.expires_at) r d v refl)
      | inr v ↦ rw v (inl refl)
    ]

parsed-Grants :
    (lib : Libraries) (json : Text) (o : Option LicenseFile)
    → lib.unmarshal json ≡ o
    → (parsed_license lib o ≡ community_license) ⊎ Grants lib json (parsed_license lib o)
unfolding parsed_license
parsed-Grants lib json none r = inl refl
parsed-Grants lib json (some file) r =
    signed-Grants lib json file (lib.decode file.signature) r refl

-- The answer for a license text is that of a community installation, or the text is a license whose
-- signature fits its fields: then the customer is the license's, a valid answer means that it has not
-- expired, and a grace period means that it has expired, by less than fourteen days, and is not valid.
pub validate_license-Grants :
    (lib : Libraries) (json : Text)
    → (validate_license lib json ≡ community_license) ⊎ Grants lib json (validate_license lib json)
unfolding validate_license
validate_license-Grants lib json = elim (Bool-cases (is_blank json)) [
  | inl e ↦ rw e (inl refl)
  | inr e ↦ rw e (parsed-Grants lib json (lib.unmarshal json) refl)
]
