-- ===== src/World/Keeps.antt =====
-- Invariants of actions, one rule for each way to build an action.
use kubemox.Base.{Bool, Option, false, if◌then◌else◌, none, some, true}
use kubemox.World.Error.{Error}
use kubemox.World.Monad.{
  Action, Outcome, World, after, crash, err, fail, gets, handle, modify, ok, on_option, panic,
  return, return_error, ◌>>=◌,
}

-- `P` holds of the world in which an action ended, or `C` if it ended by a panic.
abbrev pub Holds : {A : Type 0} → (World → Type 0) → (World → Type 0) → Outcome A → Type 0
Holds P C (ok _ w) = P w
Holds P C (err _ w) = P w
Holds P C (panic w) = C w

pub Holds-after : {A : Type 0} (P : World → Type 0) (o : Outcome A) → Holds P P o → P (after o)
Holds-after P (ok _ w) h = h
Holds-after P (err _ w) h = h
Holds-after P (panic w) h = h

-- `m` keeps `P`; where it panics, `C` holds.
pub record Keeps {A : Type 0} (P C : World → Type 0) (m : Action A) : Type 0 where
  pub run : (w : World) → P w → Holds P C (m w)

module _ {P C : World → Type 0} where
  pub Keeps-return : {A : Type 0} (a : A) → Keeps P C (return a)
  unfolding return
  Keeps-return a = record { run = λ w h. h }

  pub Keeps-fail : {A : Type 0} (e : Error) → Keeps {A = A} P C (fail e)
  unfolding fail
  Keeps-fail e = record { run = λ w h. h }

  pub Keeps-crash : {A : Type 0} → ((w : World) → P w → C w) → Keeps {A = A} P C crash
  unfolding crash
  Keeps-crash k = record { run = λ w h. k w h }

  pub Keeps-return_error : (e : Option Error) → Keeps P C (return_error e)
  unfolding return_error
  Keeps-return_error none = record { run = λ w h. h }
  Keeps-return_error (some e) = record { run = λ w h. h }

  pub Keeps-gets : {A : Type 0} (f : World → A) → Keeps P C (gets f)
  unfolding gets
  Keeps-gets f = record { run = λ w h. h }

  pub Keeps-modify : (f : World → World) → ((w : World) → P w → P (f w)) → Keeps P C (modify f)
  unfolding modify
  Keeps-modify f k = record { run = λ w h. k w h }

  pub Keeps-if :
      {A : Type 0} (b : Bool) (m n : Action A)
      → Keeps P C m
      → Keeps P C n
      → Keeps P C (if b then m else n)
  Keeps-if true m n km kn = km
  Keeps-if false m n km kn = kn

  pub Keeps-on_option :
      {A B : Type 0} (o : Option A) (m : Action B) (f : A → Action B)
      → Keeps P C m
      → ((a : A) → Keeps P C (f a))
      → Keeps P C (on_option o m f)
  unfolding on_option
  Keeps-on_option none m f km kf = km
  Keeps-on_option (some a) m f km kf = kf a

  pub Keeps-bind :
      {A B : Type 0} (m : Action A) (f : A → Action B)
      → Keeps P C m
      → ((a : A) → Keeps P C (f a))
      → Keeps P C (m >>= f)
  unfolding ◌>>=◌
  Keeps-bind {A} {B} m f km kf = record { run = λ w h. go (m w) (km.run w h) }
    where
      go :
          (o : Outcome A)
          → Holds P C o
          → Holds P C (
              let r : Outcome B = elim o [
                | ok a w' ↦ f a w'
                | err e w' ↦ err e w'
                | panic w' ↦ panic w'
              ] in
              r)
      go (ok a w) h = (kf a).run w h
      go (err e w) h = h
      go (panic w) h = h

  pub Keeps-handle :
      {A B : Type 0} (m : Action A) (k : Error → Action B) (f : A → Action B)
      → Keeps P C m
      → ((e : Error) → Keeps P C (k e))
      → ((a : A) → Keeps P C (f a))
      → Keeps P C (handle m k f)
  unfolding handle
  Keeps-handle {A} {B} m k f km kk kf = record { run = λ w h. go (m w) (km.run w h) }
    where
      go :
          (o : Outcome A)
          → Holds P C o
          → Holds P C (
              let r : Outcome B = elim o [
                | ok a w' ↦ f a w'
                | err e w' ↦ k e w'
                | panic w' ↦ panic w'
              ] in
              r)
      go (ok a w) h = (kf a).run w h
      go (err e w) h = (kk e).run w h
      go (panic w) h = h

pub ruleset keeps_rules = (
  Keeps-return, Keeps-fail, Keeps-return_error, Keeps-gets, Keeps-if, Keeps-on_option, Keeps-bind,
  Keeps-handle,
)
