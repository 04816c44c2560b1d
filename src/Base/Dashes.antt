-- ===== src/Base/Dashes.antt =====
-- The loop over double dashes beside a text whose runs of dashes are squeezed to one.
use Prim.Native.Nat.{ℕ, zero, suc, ◌≤◌, ◌<◌}
use mathlib.Core.Path.{◌≡◌, refl, sym, ◌∙◌}
use mathlib.Core.Logic.{inl, inr}
use mathlib.Core.Bool.{true, false, ◌&&◌}
use mathlib.Core.List.{[], ◌∷◌}
use native.Mathlib.Omega.{arith}
use kubemox.Base.Tests.{Bool-cases, ◌==◌, if◌then◌else◌}
use kubemox.Base.Lists.{length}
use kubemox.Base.Bytes.{Text, contains, has_prefix}
use kubemox.Base.Texts.{collapse_dashes, collapse_loop, halve_dashes, two_dashes}

-- Every run of dashes, as one dash.
unfoldable pub squeeze : Text → Text
squeeze [] = []
squeeze (c ∷ []) = c ∷ []
squeeze (c ∷ (d ∷ s)) =
    let rest = squeeze (d ∷ s) in if (c == b'-') && (d == b'-') then rest else c ∷ rest

squeeze-halve_behind : (c : ℕ) (s : Text) → squeeze (c ∷ halve_dashes s) ≡ squeeze (c ∷ s)
unfolding squeeze halve_dashes
squeeze-halve_behind c [] = refl
squeeze-halve_behind c (d ∷ []) = refl
squeeze-halve_behind c (d ∷ (e ∷ s)) =
    ground (arith, squeeze-halve_behind b'-' s, squeeze-halve_behind d (e ∷ s))

squeeze-halve_dashes : (s : Text) → squeeze (halve_dashes s) ≡ squeeze s
unfolding squeeze halve_dashes
squeeze-halve_dashes [] = refl
squeeze-halve_dashes (c ∷ []) = refl
squeeze-halve_dashes (c ∷ (d ∷ s)) =
    ground (arith, squeeze-halve_behind b'-' s, squeeze-halve_behind c (d ∷ s))

length-halve_dashes : (s : Text) → length (halve_dashes s) ≤ length s
unfolding halve_dashes
length-halve_dashes [] = ground arith
length-halve_dashes (c ∷ []) = ground arith
length-halve_dashes (c ∷ (d ∷ s)) =
    ground (arith, length-halve_dashes s, length-halve_dashes (d ∷ s))

-- A round that is not the last makes the text shorter.
halve_dashes_shrinks :
    (s : Text) → contains s two_dashes ≡ true → length (halve_dashes s) < length s
unfolding halve_dashes contains has_prefix
halve_dashes_shrinks [] h = ground arith
halve_dashes_shrinks (c ∷ []) h = ground arith
halve_dashes_shrinks (c ∷ (d ∷ s)) h =
    ground (arith, length-halve_dashes s, halve_dashes_shrinks (d ∷ s))

squeeze-fixed : (s : Text) → contains s two_dashes ≡ false → squeeze s ≡ s
unfolding squeeze contains has_prefix
squeeze-fixed [] h = refl
squeeze-fixed (c ∷ []) h = refl
squeeze-fixed (c ∷ (d ∷ s)) h = ground (arith, squeeze-fixed (d ∷ s))

pub contains-squeeze : (s : Text) → contains (squeeze s) two_dashes ≡ false
unfolding squeeze contains has_prefix
contains-squeeze [] = refl
contains-squeeze (c ∷ []) = ground arith
contains-squeeze (c ∷ (d ∷ [])) = ground arith
contains-squeeze (c ∷ (d ∷ (e ∷ s))) =
    ground (arith, contains-squeeze (d ∷ (e ∷ s)), contains-squeeze (e ∷ s))

-- With as much fuel as the text is long the loop comes to its own end.
pub collapse_loop-squeeze :
    (fuel : ℕ) (s : Text) → length s ≤ fuel → collapse_loop fuel s ≡ squeeze s
unfolding collapse_loop squeeze
collapse_loop-squeeze zero [] h = refl
collapse_loop-squeeze zero (c ∷ s) h = ground arith
collapse_loop-squeeze (suc fuel) s h = elim (Bool-cases (contains s two_dashes)) [
  | inl e ↦
      let shorter = halve_dashes_shrinks s e in
      rw e (collapse_loop-squeeze fuel (halve_dashes s) (omega arith) ∙ squeeze-halve_dashes s)
  | inr e ↦ rw e (sym (squeeze-fixed s e))
]

-- The loop that turns runs of dashes into one ends by its own condition: with at least as much fuel as the
-- text is long, the result does not depend on the fuel, has no two dashes in a row, and is the text with
-- every run of dashes as one.
pub collapse_loop-ends :
    (fuel : ℕ) (s : Text)
    → length s ≤ fuel
    → (collapse_loop fuel s ≡ collapse_dashes s)
      × (contains (collapse_dashes s) two_dashes ≡ false)
      × (collapse_dashes s ≡ squeeze s)
unfolding collapse_dashes
collapse_loop-ends fuel s h =
    let enough = collapse_loop-squeeze (length s) s (omega arith) in
    (collapse_loop-squeeze fuel s h ∙ sym enough, rw enough (contains-squeeze s), enough)
