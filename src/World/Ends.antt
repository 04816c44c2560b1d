-- ===== src/World/Ends.antt =====
-- What holds of the world where an action ended with no error.
use kubemox.Base.{
  Bool, Option, arith, false, if◌then◌else◌, inl, inr, none, refl, some, subst, true, ◌≡◌, ◌⊎◌,
}
use kubemox.World.Call.{Call}
use kubemox.World.Error.{Error}
use kubemox.World.Monad.{
  Action, Outcome, World, crash, err, fail, handle, logged, ok, on_option, panic, perform, ◌>>=◌,
}

abbrev pub EndsAt : {A : Type 0} → (World → Type 0) → Outcome A → Type 0
EndsAt Q (ok _ w) = Q w
EndsAt Q (err _ _) = Unit
EndsAt Q (panic _) = Unit

pub record Ends {A : Type 0} (Q : World → Type 0) (m : Action A) : Type 0 where
  pub run : (w : World) → EndsAt Q (m w)

module _ {Q : World → Type 0} where
  pub Ends-ok : {A : Type 0} (m : Action A) (a : A) (w w' : World) → Ends Q m → m w ≡ ok a w' → Q w'
  Ends-ok m a w w' h e = subst (EndsAt Q) e (h.run w)

  pub Ends-intro : (m : Action (Unit {0})) → ((w w' : World) → m w ≡ ok tt w' → Q w') → Ends Q m
  Ends-intro m k = record { run = λ w. go w (m w) refl }
    where
      go : (w : World) (o : Outcome (Unit {0})) → m w ≡ o → EndsAt Q o
      go w (ok tt w') e = k w w' e
      go w (err _ _) e = tt
      go w (panic _) e = tt

  pub Ends-fail : {A : Type 0} (e : Error) → Ends {A = A} Q (fail e)
  unfolding fail
  Ends-fail e = record { run = λ w. tt }

  pub Ends-crash : {A : Type 0} → Ends {A = A} Q crash
  unfolding crash
  Ends-crash = record { run = λ w. tt }

  pub Ends-if :
      {A : Type 0} (b : Bool) (m n : Action A) → Ends Q m → Ends Q n → Ends Q (if b then m else n)
  Ends-if true m n km kn = km
  Ends-if false m n km kn = kn

  pub Ends-on_option :
      {A B : Type 0} (o : Option A) (m : Action B) (f : A → Action B)
      → Ends Q m
      → ((a : A) → Ends Q (f a))
      → Ends Q (on_option o m f)
  unfolding on_option
  Ends-on_option none m f h k = h
  Ends-on_option (some a) m f h k = k a

  pub Ends->>= :
      {A B : Type 0} (m : Action A) (f : A → Action B) → ((a : A) → Ends Q (f a)) → Ends Q (m >>= f)
  unfolding ◌>>=◌
  Ends->>= {A} {B} m f k = record { run = λ w. go (m w) }
    where
      go :
          (o : Outcome A)
          → EndsAt Q (
              let r : Outcome B = elim o [
                | ok a w' ↦ f a w'
                | err e w' ↦ err e w'
                | panic w' ↦ panic w'
              ] in
              r)
      go (ok a w) = (k a).run w
      go (err e w) = tt
      go (panic w) = tt

  pub Ends-handle :
      {A B : Type 0} (m : Action A) (h : Error → Action B) (f : A → Action B)
      → ((e : Error) → Ends Q (h e))
      → ((a : A) → Ends Q (f a))
      → Ends Q (handle m h f)
  unfolding handle
  Ends-handle {A} {B} m h f kh k = record { run = λ w. go (m w) }
    where
      go :
          (o : Outcome A)
          → EndsAt Q (
              let r : Outcome B = elim o [
                | ok a w' ↦ f a w'
                | err e w' ↦ h e w'
                | panic w' ↦ panic w'
              ] in
              r)
      go (ok a w) = (k a).run w
      go (err e w) = (kh e).run w
      go (panic w) = tt

pub ruleset ends_rules = (Ends-fail, Ends-crash, Ends-if, Ends-on_option, Ends->>=, Ends-handle)

-- A sequence that ends well went well at its first part.
pub bind-ok :
    {A B : Type 0} (m : Action A) (f : A → Action B) (w : World) {b : B} {w2 : World}
    → (m >>= f) w ≡ ok b w2
    → (a : A) × (w1 : World) × (m w ≡ ok a w1) × (f a w1 ≡ ok b w2)
unfolding ◌>>=◌
bind-ok {A} {B} m f w {b} {w2} h = go (m w) refl
  where
    go : (o : Outcome A) → m w ≡ o → (a : A) × (w1 : World) × (m w ≡ ok a w1) × (f a w1 ≡ ok b w2)
    go (ok a w1) e = (a, w1, e, ground arith)
    go (err x w1) e = ground arith
    go (panic w1) e = ground arith

-- How a call ends.
pub perform_cases :
    (c : Call) (w : World)
    → (perform c w ≡ ok tt (logged c true w))
      ⊎ ((e : Error) × (perform c w ≡ err e (logged c false w)))
unfolding perform
perform_cases c w = go (w.env.failure w.trace c) refl
  where
    go :
        (o : Option Error)
        → w.env.failure w.trace c ≡ o
        → (perform c w ≡ ok tt (logged c true w))
          ⊎ ((e : Error) × (perform c w ≡ err e (logged c false w)))
    go none q = inl (ground (arith, q))
    go (some e) q = inr (e, ground (arith, q))

module _ {A B : Type 0} (m : Action A) (h : Error → Action B) (f : A → Action B)
    (w w1 : World) where
  pub handle-ok : (a : A) → m w ≡ ok a w1 → handle m h f w ≡ f a w1
  unfolding handle
  handle-ok a e = ground arith

  pub handle-err : (e : Error) → m w ≡ err e w1 → handle m h f w ≡ h e w1
  unfolding handle
  handle-err e k = ground arith
