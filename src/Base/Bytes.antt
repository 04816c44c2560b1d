-- ===== src/Base/Bytes.antt =====
-- Go strings: sequences of bytes, with equality, order and the operations of `strings` that the
-- program calls.
use Prim.Native.Nat.{ℕ, zero, suc, ◌+◌, ◌-◌, ◌*◌, ◌/◌, ◌%◌}
use Prim.Native.Char.{code}
use Prim.Native.String.{String}
use mathlib.Core.Path.{◌≡◌, refl}
use mathlib.Core.Logic.{◌↔◌}
use mathlib.Core.Bool.{Bool, true, false, ◌&&◌, ◌||◌}
use mathlib.Core.Option
use mathlib.Core.Option.{Option, none, some}
use mathlib.Core.List.{List, [], ◌∷◌, ◌++◌}
use native.Mathlib.Omega.{arith}
use kubemox.Base.Tests.{ltb, leb, ◌==◌, if◌then◌else◌}

abbrev pub Text : Type 0
Text = List ℕ

-- The bytes of an ASCII literal.
abbrev pub bytes : String → Text
bytes String.[] = []
bytes (String.◌∷◌ c s) = code c ∷ bytes s

unfoldable pub text_eq : Text → Text → Bool
text_eq [] [] = true
text_eq [] (_ ∷ _) = false
text_eq (_ ∷ _) [] = false
text_eq (a ∷ s) (b ∷ t) = (a == b) && text_eq s t

pub text_eq_iff : (s t : Text) → (text_eq s t ≡ true) ↔ (s ≡ t)
unfolding text_eq
text_eq_iff [] [] = ((λ _. refl), λ _. refl)
text_eq_iff [] (b ∷ t) = ground arith
text_eq_iff (a ∷ s) [] = ground arith
text_eq_iff (a ∷ s) (b ∷ t) = ground (arith, text_eq_iff s t)

pub text_eq_refl : (s : Text) → text_eq s s ≡ true
text_eq_refl s = (text_eq_iff s s).1 refl

pub text_eq→≡ : (s t : Text) → text_eq s t ≡ true → s ≡ t
text_eq→≡ s t h = (text_eq_iff s t).0 h

-- Go's `<` on strings: lexicographic by bytes.
unfoldable pub text_lt : Text → Text → Bool
text_lt [] [] = false
text_lt [] (_ ∷ _) = true
text_lt (_ ∷ _) [] = false
text_lt (a ∷ s) (b ∷ t) = ltb a b || ((a == b) && text_lt s t)

pub text_lt_irrefl : (s : Text) → text_lt s s ≡ false
unfolding text_lt
text_lt_irrefl [] = refl
text_lt_irrefl (a ∷ s) = ground (arith, text_lt_irrefl s)

pub text_lt_trans : (s t u : Text) → text_lt s t ≡ true → text_lt t u ≡ true → text_lt s u ≡ true
unfolding text_lt
text_lt_trans [] [] u p q = ground arith
text_lt_trans [] (b ∷ t) [] p q = ground arith
text_lt_trans [] (b ∷ t) (c ∷ u) p q = refl
text_lt_trans (a ∷ s) [] u p q = ground arith
text_lt_trans (a ∷ s) (b ∷ t) [] p q = ground arith
text_lt_trans (a ∷ s) (b ∷ t) (c ∷ u) p q = ground (arith, text_lt_trans s t u)

-- Two different texts are in order one way or the other.
pub text_lt_total : (s t : Text) → text_lt s t ≡ false → text_lt t s ≡ false → s ≡ t
unfolding text_lt
text_lt_total [] [] p q = refl
text_lt_total [] (b ∷ t) p q = ground arith
text_lt_total (a ∷ s) [] p q = ground arith
text_lt_total (a ∷ s) (b ∷ t) p q = ground (arith, text_lt_total s t)

-- Folding of an ASCII byte to lower case.
unfoldable pub fold_byte : ℕ → ℕ
fold_byte c = if leb b'A' c && leb c b'Z' then c + 32 else c

-- `strings.EqualFold` on ASCII texts, its byte loop.
unfoldable pub equal_fold : Text → Text → Bool
unfolding fold_byte
equal_fold [] [] = true
equal_fold [] (_ ∷ _) = false
equal_fold (_ ∷ _) [] = false
equal_fold (a ∷ s) (b ∷ t) = (fold_byte a == fold_byte b) && equal_fold s t

pub equal_fold_refl : (s : Text) → equal_fold s s ≡ true
unfolding equal_fold
equal_fold_refl [] = refl
equal_fold_refl (a ∷ s) = ground (arith, equal_fold_refl s)

pub equal_fold_symm : (s t : Text) → equal_fold s t ≡ true → equal_fold t s ≡ true
unfolding equal_fold
equal_fold_symm [] [] h = refl
equal_fold_symm [] (b ∷ t) h = ground arith
equal_fold_symm (a ∷ s) [] h = ground arith
equal_fold_symm (a ∷ s) (b ∷ t) h = ground (arith, equal_fold_symm s t)

pub equal_fold_trans :
    (s t u : Text) → equal_fold s t ≡ true → equal_fold t u ≡ true → equal_fold s u ≡ true
unfolding equal_fold
equal_fold_trans [] [] u p q = q
equal_fold_trans [] (b ∷ t) u p q = ground arith
equal_fold_trans (a ∷ s) [] u p q = ground arith
equal_fold_trans (a ∷ s) (b ∷ t) [] p q = ground arith
equal_fold_trans (a ∷ s) (b ∷ t) (c ∷ u) p q = ground (arith, equal_fold_trans s t u)

-- `strings.HasPrefix`
unfoldable pub has_prefix : Text → Text → Bool
has_prefix _ [] = true
has_prefix [] (_ ∷ _) = false
has_prefix (a ∷ s) (b ∷ p) = (a == b) && has_prefix s p

-- A text without as many bytes as another has.
drop_length : Text → Text → Text
drop_length s [] = s
drop_length [] (_ ∷ _) = []
drop_length (_ ∷ s) (_ ∷ p) = drop_length s p

-- `strings.Contains`
unfoldable pub contains : Text → Text → Bool
unfolding has_prefix
contains [] p = has_prefix [] p
contains (a ∷ s) p = has_prefix (a ∷ s) p || contains s p

-- The decimal digits of a number in front of a text; the fuel is the number itself, and more.
itoa_onto : ℕ → ℕ → Text → Text
itoa_onto zero n acc = acc
itoa_onto (suc fuel) n acc =
    let digits = (b'0' + n % 10) ∷ acc in
    let rest = itoa_onto fuel (n / 10) digits in if ltb n 10 then digits else rest

-- `strconv.Itoa`
unfoldable pub itoa : ℕ → Text
unfolding itoa_onto
itoa n = itoa_onto (suc n) n []

-- The text in front of the first of a list of texts.
unfoldable pub push_byte : ℕ → List Text → List Text
push_byte c [] = (c ∷ []) ∷ []
push_byte c (t ∷ ts) = (c ∷ t) ∷ ts

-- `strings.Split` at a separator of one byte: never an empty list.
unfoldable pub split : ℕ → Text → List Text
unfolding push_byte
split sep [] = [] ∷ []
split sep (c ∷ s) = let rest = split sep s in if c == sep then [] ∷ rest else push_byte c rest

-- `strings.Join`
unfoldable pub join : Text → List Text → Text
join sep [] = []
join sep (t ∷ []) = t
join sep (t ∷ (u ∷ ts)) = t ++ (sep ++ join sep (u ∷ ts))

-- `strings.HasSuffix` and `strings.TrimSuffix` for a suffix of one byte: the text without it.
unfoldable pub cut_suffix : ℕ → Text → Option Text
cut_suffix c [] = none
cut_suffix c (b ∷ []) = if b == c then some [] else none
cut_suffix c (b ∷ (d ∷ s)) = Option.map (λ t. b ∷ t) (cut_suffix c (d ∷ s))

-- `strings.TrimPrefix`
unfoldable pub trim_prefix : Text → Text → Text
unfolding drop_length
trim_prefix s p = if has_prefix s p then drop_length s p else s

drop_length-append : (p s : Text) → drop_length (p ++ s) p ≡ s
unfolding drop_length
drop_length-append [] s = refl
drop_length-append (c ∷ p) s = drop_length-append p s

pub has_prefix-append : (p s : Text) → has_prefix (p ++ s) p ≡ true
unfolding has_prefix
has_prefix-append [] s = refl
has_prefix-append (c ∷ p) s = ground (arith, has_prefix-append p s)

-- Trimming a prefix undoes putting it in front.
pub trim_prefix-append : (p s : Text) → trim_prefix (p ++ s) p ≡ s
unfolding trim_prefix
trim_prefix-append p s = ground (arith, has_prefix-append p s, drop_length-append p s)

-- `strconv.Atoi` on unsigned digits; a sign or a number beyond int64 is not met here.
atoi_from : ℕ → Text → Option ℕ
atoi_from acc [] = some acc
atoi_from acc (c ∷ s) =
    let rest = atoi_from (acc * 10 + (c - b'0')) s in
    if leb b'0' c && leb c b'9' then rest else none

unfoldable pub atoi : Text → Option ℕ
unfolding atoi_from
atoi [] = none
atoi (c ∷ s) = atoi_from 0 (c ∷ s)
