-- ===== src/Base/Texts.antt =====
-- More of Go's `strings` on ASCII texts: lower case, trimming, suffixes, and the loop that turns every run
-- of dashes into one.
use Prim.Native.Nat.{ℕ, zero, suc}
use mathlib.Core.Bool.{Bool, true, false, not, ◌&&◌, ◌||◌}
use mathlib.Core.List.{List, [], ◌∷◌}
use mathlib.Core.Option.{Option, none, some}
use kubemox.Base.Tests.{leb, ◌==◌, if◌then◌else◌}
use kubemox.Base.Lists.{length}
use kubemox.Base.Bytes.{Text, contains, fold_byte, has_prefix}

-- `strings.ToLower`
unfoldable pub to_lower : Text → Text
unfolding fold_byte
to_lower [] = []
to_lower (c ∷ s) = fold_byte c ∷ to_lower s

-- `unicode.IsSpace` on ASCII.
unfoldable pub is_space : ℕ → Bool
is_space c = (c == 32) || (leb 9 c && leb c 13)

-- The cutsets "-.", "-" and the white space of `strings.TrimSpace`.
unfoldable pub is_dash_or_dot : ℕ → Bool
is_dash_or_dot c = (c == b'-') || (c == b'.')

unfoldable pub is_dash : ℕ → Bool
is_dash c = c == b'-'

unfoldable pub is_nil : Text → Bool
is_nil [] = true
is_nil (_ ∷ _) = false

-- `strings.TrimLeft` and `strings.TrimRight`
unfoldable pub trim_left : (ℕ → Bool) → Text → Text
trim_left cut [] = []
trim_left cut (c ∷ s) = let rest = trim_left cut s in if cut c then rest else c ∷ s

unfoldable pub trim_right : (ℕ → Bool) → Text → Text
unfolding is_nil
trim_right cut [] = []
trim_right cut (c ∷ s) =
    let rest = trim_right cut s in if is_nil rest && cut c then [] else c ∷ rest

-- `strings.Trim`
unfoldable pub trim : (ℕ → Bool) → Text → Text
trim cut s = trim_right cut (trim_left cut s)

-- `s[:n]`
unfoldable pub take_bytes : ℕ → Text → Text
take_bytes zero _ = []
take_bytes (suc n) [] = []
take_bytes (suc n) (c ∷ s) = c ∷ take_bytes n s

-- `strings.TrimSuffix`, or nothing where the text has no such suffix.
unfoldable pub strip_suffix : Text → Text → Option Text
unfolding is_nil has_prefix
strip_suffix suffix [] = if is_nil suffix then some [] else none
strip_suffix suffix (c ∷ s) =
    let rest = strip_suffix suffix s in
    if has_prefix (c ∷ s) suffix && (length (c ∷ s) == length suffix)
    then some []
    else elim rest [ none ↦ none | some t ↦ some (c ∷ t) ]

-- The text behind the last of the bytes `sep`: `s[strings.LastIndex(s, sep)+1:]`.
unfoldable pub after_last : ℕ → Text → Option Text
after_last sep [] = none
after_last sep (c ∷ s) = elim (after_last sep s) [
  | some t ↦ some t
  | none ↦ if c == sep then some s else none
]

-- `strings.ReplaceAll` of one byte by another.
unfoldable pub replace_byte : ℕ → ℕ → Text → Text
replace_byte old new [] = []
replace_byte old new (c ∷ s) = (if c == old then new else c) ∷ replace_byte old new s

abbrev pub two_dashes : Text
two_dashes = b'-' ∷ (b'-' ∷ [])

-- `strings.ReplaceAll(s, "--", "-")`
unfoldable pub halve_dashes : Text → Text
halve_dashes [] = []
halve_dashes (c ∷ []) = c ∷ []
halve_dashes (c ∷ (d ∷ s)) =
    let both = halve_dashes s in
    let one = halve_dashes (d ∷ s) in if (c == b'-') && (d == b'-') then b'-' ∷ both else c ∷ one

-- `for strings.Contains(s, "--") { s = strings.ReplaceAll(s, "--", "-") }`, on fuel.
unfoldable pub collapse_loop : ℕ → Text → Text
unfolding contains halve_dashes
collapse_loop zero s = s
collapse_loop (suc fuel) s =
    let rest = collapse_loop fuel (halve_dashes s) in if contains s two_dashes then rest else s

-- The loop; each round that is not the last makes the text shorter.
unfoldable pub collapse_dashes : Text → Text
unfolding collapse_loop
collapse_dashes s = collapse_loop (length s) s

-- `strings.SplitN(s, sep, 2)` at a byte: the two parts, or nothing where the byte is not met.
unfoldable pub cut_at : ℕ → Text → Option (Text × Text)
cut_at sep [] = none
cut_at sep (c ∷ s) = elim (cut_at sep s) [
  | none ↦ if c == sep then some ([], s) else none
  | some parts ↦ if c == sep then some ([], s) else some (c ∷ parts.0, parts.1)
]

-- `strings.Split(s, "")`
unfoldable pub explode : Text → List Text
explode [] = []
explode (c ∷ s) = (c ∷ []) ∷ explode s

-- Every byte of the text passes the test.
abbrev pub all_bytes : (ℕ → Bool) → Text → Bool
all_bytes p [] = true
all_bytes p (c ∷ s) = p c && all_bytes p s

-- The byte is not met in the text.
abbrev pub lacks : ℕ → Text → Bool
lacks sep s = all_bytes (λ c. not (c == sep)) s
