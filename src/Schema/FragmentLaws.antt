-- ===== src/Schema/FragmentLaws.antt =====
-- The guard isUnsafeSQLFragment (internal/server/handlers/query.go) and where a fragment ends.
use Prim.Native.Nat.{ℕ}
use mathlib.Core.Path.{◌≡◌, refl, ap, ◌∙◌}
use mathlib.Core.Logic.{◌≢◌}
use mathlib.Core.Bool.{Bool, false, ◌||◌}
use mathlib.Core.Option.{some}
use mathlib.Core.List.{[], ◌∷◌, ◌++◌}
use native.Mathlib.Omega.{arith}
use ch_ui.Prelude.Tests.{if◌then◌else◌}
use ch_ui.Prelude.Lists.{All}
use ch_ui.Prelude.Trimming.{Spaces, trim_split}
use ch_ui.Prelude.Text.{
  Text, codes, is_blank, is_space, trim, lower_byte, lower, has_prefix, contains,
}
use ch_ui.Schema.Names.{is_unsafe_sql_fragment, has_unsafe_part}
use ch_ui.Schema.Scan.{plain, is_quote, is_special, is_mark, ends_statement, onward, read}
use ch_ui.Schema.ScanLaws.{IsPiece, read-append}

-- The bytes of a text behind the given one neither end a statement nor start a comment.
abbrev Unbroken : ℕ → Text → Type 0
Unbroken before [] = Unit
Unbroken before (c ∷ s) = (ends_statement before c ≡ false) × Unbroken c s

-- A byte that is no first byte of a comment.
abbrev pub IsCalm : ℕ → Type 0
IsCalm b = (b ≢ b'-') × (b ≢ b'/')

Spaces-Unbroken : (b : ℕ) (s : Text) → Spaces s → Unbroken b s
unfolding ends_statement is_space
Spaces-Unbroken b [] h = tt
Spaces-Unbroken b (c ∷ s) (hc, h) = (ground arith, Spaces-Unbroken c s h)

Unbroken-append : (b : ℕ) (s t : Text) → Unbroken b s → Spaces t → Unbroken b (s ++ t)
Unbroken-append b [] t h k = Spaces-Unbroken b t k
Unbroken-append b (c ∷ s) t (hc, h) k = (hc, Unbroken-append c s t h k)

-- Behind white space a text is as safe as behind a calm byte.
behind_Spaces :
    (b : ℕ) (a t : Text)
    → IsCalm b
    → Spaces a
    → ((c : ℕ) → IsCalm c → Unbroken c t)
    → Unbroken b (a ++ t)
unfolding ends_statement is_space
behind_Spaces b [] t calm h k = k b calm
behind_Spaces b (c ∷ a) t calm (hc, h) k =
    (ground arith, behind_Spaces c a t (ground arith, ground arith) h k)

Unbroken-lower : (b : ℕ) (s : Text) → Unbroken (lower_byte b) (lower s) → Unbroken b s
unfolding lower ends_statement
Unbroken-lower b [] h = tt
Unbroken-lower b (c ∷ s) (hc, h) = (ground arith, Unbroken-lower c s h)

without_unsafe_part :
    (b : ℕ) (v : Text)
    → contains v (codes ";") ≡ false
    → contains (b ∷ v) (codes "--") ≡ false
    → contains (b ∷ v) (codes "/*") ≡ false
    → Unbroken b v
unfolding contains has_prefix ends_statement
without_unsafe_part b [] h1 h2 h3 = tt
without_unsafe_part b (c ∷ v) h1 h2 h3 =
    (ground arith, without_unsafe_part c v (ground arith) (ground arith) (ground arith))

or_false :
    (a b c d e : Bool) → (a || b || c || d || e) ≡ false → (a ≡ false) × (b ≡ false) × (c ≡ false)
or_false a b c d e h = ground arith

contains_behind :
    (b c d : ℕ) (v : Text)
    → b ≢ c
    → contains v (c ∷ d ∷ []) ≡ false
    → contains (b ∷ v) (c ∷ d ∷ []) ≡ false
unfolding contains has_prefix
contains_behind b c d [] n h = ground arith
contains_behind b c d (e ∷ v) n h = ground arith

-- A text without the parts that the guard looks for.
no_unsafe_part : (b : ℕ) (v : Text) → IsCalm b → has_unsafe_part v ≡ false → Unbroken b v
no_unsafe_part b v (dash, slash) h =
    let (semicolon, dashes, comment) = or_false _ _ _ _ _ h in
    without_unsafe_part b v semicolon (contains_behind b b'-' b'-' v dash dashes)
      (contains_behind b b'/' b'*' v slash comment)

lower-Unbroken :
    (b : ℕ) (f : Text) → IsCalm b → is_unsafe_sql_fragment f ≡ false → Unbroken b (lower f)
unfolding is_unsafe_sql_fragment
lower-Unbroken b f calm h =
    let v = trim (lower f) in
    let (front, back, split, hf, hb) = trim_split (lower f) in
    rw split (
      behind_Spaces b front (v ++ back) calm hf
        (λ c k. Unbroken-append c v back (inner c v k h) hb))
  where
    inner :
        (c : ℕ) (v : Text)
        → IsCalm c
        → (if is_blank v then false else has_unsafe_part v) ≡ false
        → Unbroken c v
    inner c [] k e = tt
    inner c (d ∷ v) k e = no_unsafe_part c (d ∷ v) k e

-- No byte is a quote or special.
abbrev pub NoMarks : Text → Type 0
NoMarks = All (λ c. is_mark c ≡ false)

unmarked : (c : ℕ) → is_mark c ≡ false → (is_quote c ≡ false) × (is_special c ≡ false)
unfolding is_mark
unmarked c h = ground arith

read-Unbroken :
    (b : ℕ) (f : Text) → Unbroken b f → NoMarks f → (q : ℕ) × (read (plain b) f ≡ some (plain q))
unfolding read
read-Unbroken b [] h k = (b, refl)
read-Unbroken b (c ∷ f) (hc, h) (kc, k) =
    let (q, e) = read-Unbroken c f h k in
    let (no_quote, not_special) = unmarked c kc in (q, rw (hc, not_special, no_quote) e)

lower_byte-IsCalm : (b : ℕ) → IsCalm b → IsCalm (lower_byte b)
unfolding lower_byte
lower_byte-IsCalm b (dash, slash) = (ground arith, ground arith)

-- A fragment without marks that passes the guard, behind a calm byte.
pub read-fragment :
    (b : ℕ) (f : Text)
    → IsCalm b
    → is_unsafe_sql_fragment f ≡ false
    → NoMarks f
    → (q : ℕ) × (read (plain b) f ≡ some (plain q))
unfolding lower_byte
read-fragment b f calm h k =
    read-Unbroken b f
      (Unbroken-lower b f (lower-Unbroken (lower_byte b) f (lower_byte-IsCalm b calm) h)) k

-- A fragment behind a keyword that ends in a space.
pub fragment-IsPiece :
    (k f : Text)
    → ((b : ℕ) → read (plain b) k ≡ some (plain b' '))
    → is_unsafe_sql_fragment f ≡ false
    → NoMarks f
    → IsPiece (k ++ f)
fragment-IsPiece k f hk h quotes =
    let (q, e) = read-fragment b' ' f (omega arith, omega arith) h quotes in
    record {
      last = λ b. q;
      reads = λ b. read-append (plain b) k f ∙ ap (λ o. onward o (λ m. read m f)) (hk b) ∙ e;
    }
