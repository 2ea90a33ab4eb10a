-- ===== src/Schema/Scan.antt =====
-- How ClickHouse reads a statement as far as it matters where the statement ends: text in quotes of
-- the three kinds, in which a backslash escapes, and outside of quotes the terminator and the starts
-- of comments. The reader gives up at a byte outside of quotes that may start something else: a comment
-- (`#`), a heredoc (`$`), the other terminator (`\G`), or a quote or a minus of three bytes (226).
use Prim.Native.Nat.{ℕ}
use mathlib.Core.Path.{◌≡◌}
use mathlib.Core.Bool.{Bool, ◌&&◌, ◌||◌}
use mathlib.Core.Option.{Option, none, some}
use mathlib.Core.List.{[], ◌∷◌}
use ch_ui.Prelude.Tests.{◌==◌, if◌then◌else◌}
use ch_ui.Prelude.Text.{Text}
use ch_ui.Schema.Names.{backtick, quote, double_quote, backslash}

-- Outside of quotes, with the byte before; in quotes of the given kind; there behind a backslash.
pub data Mode : Type 0 where
  plain : ℕ → Mode
  quoted : ℕ → Mode
  escaped : ℕ → Mode

unfoldable pub is_quote : ℕ → Bool
is_quote c = c == quote || c == double_quote || c == backtick

unfoldable pub is_special : ℕ → Bool
is_special c = c == b'#' || c == b'$' || c == backslash || c == 226

-- The bytes that do not stand for themselves outside of quotes.
unfoldable pub is_mark : ℕ → Bool
unfolding is_quote is_special
is_mark c = is_quote c || is_special c

-- A terminator, or the second byte of the start of a comment.
unfoldable pub ends_statement : ℕ → ℕ → Bool
ends_statement before c =
    c == b';' || (c == b'-' && before == b'-') || (c == b'*' && before == b'/')

-- `none` where the statement ends, a comment starts or the reader gives up.
unfoldable pub move : Mode → ℕ → Option Mode
unfolding is_quote is_special ends_statement
move (plain before) c =
    if ends_statement before c || is_special c
    then none
    else if is_quote c
    then some (quoted c)
    else some (plain c)
move (quoted q) c =
    if c == q then some (plain 0) else if c == backslash then some (escaped q) else some (quoted q)
move (escaped q) c = some (quoted q)

abbrev pub onward : Option Mode → (Mode → Option Mode) → Option Mode
onward none k = none
onward (some m) k = k m

unfoldable pub read : Mode → Text → Option Mode
unfolding move
read m [] = some m
read m (c ∷ s) = onward (move m c) (λ m'. read m' s)

-- A text that is one statement: it does not end before its end, no comment or heredoc starts in it, and
-- its quotes are closed.
pub record IsOneStatement (s : Text) : Type 0 where
  pub last : ℕ
  pub reads : read (plain 0) s ≡ some (plain last)
