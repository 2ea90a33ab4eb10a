-- ===== src/QueryProc/Patterns.antt =====
-- The regular expressions of internal/queryproc/variables.go as scanners over ASCII text, and
-- `ReplaceAllString`, which reads `$` in its replacement.
use Prim.Native.Nat.{ℕ, zero, suc, ◌+◌}
use mathlib.Core.Bool.{Bool, true, false, ◌&&◌, ◌||◌}
use mathlib.Core.Option.{Option, none, some}
use mathlib.Core.List.{[], ◌∷◌, ◌++◌}
use ch_ui.Prelude.Tests.{leb, ◌==◌, if◌then◌else◌}
use ch_ui.Prelude.Lists.{length}
use ch_ui.Prelude.Options.{◌>>=◌}
use ch_ui.Prelude.Text.{Text, codes, same, is_blank, lower_byte}

abbrev pub is_some {ℓ} : {A : Type ℓ} → Option A → Bool
is_some none = false
is_some (some a) = true

-- A word at the start of a text, whatever its case, and what follows; the word is in lower case.
unfoldable pub word_at : Text → Text → Option Text
unfolding lower_byte
word_at [] s = some s
word_at (d ∷ w) [] = none
word_at (d ∷ w) (c ∷ s) = if lower_byte c == d then word_at w s else none

abbrev opened : Text → Option Text
opened [] = none
opened (c ∷ s) = if c == b'(' then some s else none

abbrev prepend : ℕ → Option Text → Option Text
prepend c none = none
prepend c (some s) = some (c ∷ s)

-- The text before the first closing parenthesis.
unfoldable pub until_close : Text → Option Text
until_close [] = none
until_close (c ∷ s) = let rest = until_close s in if c == b')' then some [] else prepend c rest

abbrev not_blank : Text → Option Text
not_blank [] = none
not_blank (c ∷ s) = some (c ∷ s)

-- `word\(([^)]+)\)` at the start of a text: its group.
unfoldable pub call_at : Text → Text → Option Text
unfolding word_at until_close ◌>>=◌
call_at w s = do rest ← word_at w s; inner ← opened rest; group ← until_close inner; not_blank group

unfoldable pub has_word : Text → Text → Bool
unfolding word_at
has_word w [] = false
has_word w (c ∷ s) = is_some (word_at w (c ∷ s)) || has_word w s

unfoldable pub has_call : Text → Text → Bool
unfolding call_at
has_call w [] = false
has_call w (c ∷ s) = is_some (call_at w (c ∷ s)) || has_call w s

abbrev first_of : Option Text → Option Text → Option Text
first_of none o = o
first_of (some a) o = some a

-- The group of the first match.
unfoldable pub find_call : Text → Text → Option Text
unfolding call_at
find_call w [] = none
find_call w (c ∷ s) = first_of (call_at w (c ∷ s)) (find_call w s)

abbrev is_name_byte : ℕ → Bool
is_name_byte c =
    (leb b'a' c && leb c b'z')
    || (leb b'A' c && leb c b'Z')
    || (leb b'0' c && leb c b'9')
    || c == b'_'

unfoldable pub name_of : Text → Text
name_of [] = []
name_of (c ∷ s) = let rest = name_of s in if is_name_byte c then c ∷ rest else []

abbrev byte_at : ℕ → Text → ℕ
byte_at n [] = 0
byte_at zero (c ∷ s) = c
byte_at (suc n) (c ∷ s) = byte_at n s

-- What stands behind a `$`: the name and how many bytes it takes. A brace is closed.
unfoldable pub reference : Text → Option (Text × ℕ)
unfolding name_of
reference [] = none
reference (c ∷ s) =
    if c == b'{'
    then (if is_blank (name_of s)
        then none
        else if byte_at (length (name_of s)) s == b'}'
        then some (name_of s, length (name_of s) + 2)
        else none)
    else if is_name_byte c
    then some (name_of (c ∷ s), length (name_of (c ∷ s)))
    else none

-- The match and its group; a name that is no group is empty.
abbrev group_value : Text → Text → Text → Text
group_value whole group name =
    if same name (codes "0") then whole else if same name (codes "1") then group else []

-- The replacement, with its references put in; the counter skips bytes.
unfoldable pub expand : Text → Text → ℕ → Text → Text
unfolding reference
expand whole group n [] = []
expand whole group (suc n) (c ∷ s) = expand whole group n s
expand whole group zero (c ∷ s) =
    let plain = c ∷ expand whole group 0 s in
    let dollar = c ∷ expand whole group 1 s in
    let named = λ (name : Text) (n : ℕ). group_value whole group name ++ expand whole group n s in
    if c == b'$'
    then (if byte_at 0 s == b'$'
        then dollar
        else elim (reference s) [ none ↦ plain | some (name, n) ↦ named name n ])
    else plain
