-- ===== src/Governance/Normalize.antt =====
-- The normal form of a query: `normalizeQuery` of internal/governance/harvester_querylog.go, its three
-- regular expressions written out as scanners over ASCII text. A scanner that has found a match passes
-- over the rest of it by a count of bytes to skip.
use Prim.Native.Nat.{ℕ, zero, suc, ◌+◌, ◌-◌}
use mathlib.Core.Bool.{Bool, true, false, not, ◌&&◌}
use mathlib.Core.Option.{Option, none, some}
use mathlib.Core.List.{[], ◌∷◌, ◌++◌}
use ch_ui.Prelude.Tests.{leb, ◌==◌, if◌then◌else◌}
use ch_ui.Prelude.Lists.{length}
use ch_ui.Prelude.Text.{Text, codes, cut, is_space, trim}
use ch_ui.Governance.Policy.{start_ok, end_ok, drop}

-- The bytes up to and with the quote that closes a literal.
unfoldable pub literal_length : Text × Option Text → Option ℕ
literal_length (before, none) = none
literal_length (before, some after) = some (length before + 1)

-- `stringLiteralRe`
unfoldable pub strip_literals : ℕ → Text → Text
unfolding cut literal_length
strip_literals skip [] = []
strip_literals (suc skip) (c ∷ s) = strip_literals skip s
strip_literals zero (c ∷ s) =
    let kept = c ∷ strip_literals zero s in
    elim (literal_length (cut b'\'' s)) [
      | none ↦ kept
      | some n ↦ let rest = strip_literals n s in if c == b'\'' then codes "'?'" ++ rest else kept
    ]

abbrev is_digit : ℕ → Bool
is_digit c = leb b'0' c && leb c b'9'

unfoldable pub digit_run : Text → ℕ
digit_run [] = 0
digit_run (c ∷ s) = let n = digit_run s in if is_digit c then n + 1 else 0

-- The length of the match of `\d+\.?\d*\b` at the start of a text that begins with `n` digits, with
-- the rest behind these: the point and the digits behind it are given back where no boundary follows.
unfoldable pub number_length : ℕ → Text → ℕ
unfolding digit_run end_ok drop
number_length zero s = 0
number_length (suc n) [] = suc n
number_length (suc n) (c ∷ s) =
    let m = digit_run s in
    if not (c == b'.')
    then if end_ok (c ∷ s) then suc n else 0
    else if m == 0
    then if end_ok s then suc n else suc n + 1
    else if end_ok (drop m s)
    then suc n + 1 + m
    else suc n + 1

-- `numberLiteralRe`, with the byte before the text.
unfoldable pub strip_numbers : Option ℕ → ℕ → Text → Text
unfolding number_length start_ok digit_run drop
strip_numbers prev skip [] = []
strip_numbers prev (suc skip) (c ∷ s) = strip_numbers (some c) skip s
strip_numbers prev zero (c ∷ s) =
    let kept = c ∷ strip_numbers (some c) zero s in
    let n = digit_run (c ∷ s) in
    let found = number_length n (drop n (c ∷ s)) in
    let rest = strip_numbers (some c) (found - 1) s in
    if start_ok prev && not (found == 0) then b'?' ∷ rest else kept

-- `multiSpaceRe` is Perl's class of spaces, without the vertical tab.
abbrev is_perl_space : ℕ → Bool
is_perl_space c = is_space c && not (c == 11)

-- The flag says that the byte before was a space.
unfoldable pub merge_spaces : Bool → Text → Text
unfolding is_space
merge_spaces inside [] = []
merge_spaces inside (c ∷ s) =
    let run = merge_spaces true s in
    let plain = c ∷ merge_spaces false s in
    if is_perl_space c then if inside then run else 32 ∷ run else plain

-- `strings.ToUpper`
unfoldable pub upper : Text → Text
upper [] = []
upper (c ∷ s) = (if leb b'a' c && leb c b'z' then c - 32 else c) ∷ upper s

unfoldable pub normalize_query : Text → Text
unfolding strip_literals strip_numbers merge_spaces trim upper
normalize_query query =
    upper (trim (merge_spaces false (strip_numbers none 0 (strip_literals 0 query))))
