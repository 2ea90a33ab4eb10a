-- ===== src/License/Tokens.antt =====
-- Tokens: internal/license/tokens.go. The random bytes and the two UUIDs are arguments.
use Prim.Native.Nat.{ℕ, zero, suc, ◌+◌, ◌-◌, ◌*◌, ◌/◌, ◌%◌, ◌<◌}
use mathlib.Core.Path.{◌≡◌, refl}
use mathlib.Core.Bool.{Bool, true, false, ◌&&◌, ◌||◌}
use mathlib.Core.List.{List, [], ◌∷◌, ◌++◌}
use native.Mathlib.Omega.{arith}
use ch_ui.Prelude.Tests.{ltb, leb, ◌==◌, if◌then◌else◌}
use ch_ui.Prelude.Lists.{All, length, keep}
use ch_ui.Prelude.Text.{Text, codes}

unfoldable pub nibble : ℕ → ℕ
nibble d = if ltb d 10 then b'0' + d else b'a' + (d - 10)

-- `hex.EncodeToString`
unfoldable pub hex_text : List ℕ → Text
unfolding nibble
hex_text [] = []
hex_text (b ∷ bs) = nibble (b / 16) ∷ nibble (b % 16) ∷ hex_text bs

unfoldable pub generate_tunnel_token : List ℕ → Text
unfolding hex_text
generate_tunnel_token random = codes "cht_" ++ hex_text random

unfoldable pub generate_session_token : Text → Text → Text
unfolding keep
generate_session_token u1 u2 = u1 ++ keep (λ c. if c == b'-' then false else true) u2

-- `[a-f0-9]`
unfoldable pub is_hex : ℕ → Bool
is_hex c = (leb b'a' c && leb c b'f') || (leb b'0' c && leb c b'9')

-- `[a-f0-9]{n}$`
unfoldable pub hex_run : ℕ → Text → Bool
unfolding is_hex
hex_run zero [] = true
hex_run zero (c ∷ s) = false
hex_run (suc n) [] = false
hex_run (suc n) (c ∷ s) = is_hex c && hex_run n s

-- The rest of the pattern behind its letters.
unfoldable pub behind_prefix : Text → Text → Bool
unfolding hex_run
behind_prefix [] s = hex_run 32 s
behind_prefix (d ∷ p) [] = false
behind_prefix (d ∷ p) (c ∷ s) = c == d && behind_prefix p s

unfoldable pub is_valid_tunnel_token : Text → Bool
unfolding behind_prefix
is_valid_tunnel_token token = behind_prefix (codes "cht_") token

nibble-is_hex : (d : ℕ) → d < 16 → is_hex (nibble d) ≡ true
unfolding is_hex nibble
nibble-is_hex d h = ground arith

hex_run-hex_text :
    (random : List ℕ)
    → All (λ b. b < 256) random
    → hex_run (2 * length random) (hex_text random) ≡ true
unfolding hex_run hex_text
hex_run-hex_text [] h = refl
hex_run-hex_text (b ∷ bs) (hb, h) =
    let e : 2 * suc (length bs) ≡ suc (suc (2 * length bs)) = omega arith in
    rw e (
      both _ _ _ (nibble-is_hex (b / 16) (omega arith)) (nibble-is_hex (b % 16) (omega arith))
        (hex_run-hex_text bs h))
  where
    both : (x y z : Bool) → x ≡ true → y ≡ true → z ≡ true → (x && (y && z)) ≡ true
    both x y z hx hy hz = ground arith

-- Every token that is made of 16 random bytes is valid.
pub generate_tunnel_token-is_valid_tunnel_token :
    (random : List ℕ)
    → length random ≡ 16
    → All (λ b. b < 256) random
    → is_valid_tunnel_token (generate_tunnel_token random) ≡ true
unfolding is_valid_tunnel_token generate_tunnel_token
generate_tunnel_token-is_valid_tunnel_token random n h = rw n at (hex_run-hex_text random h)
