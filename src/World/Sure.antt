-- ===== src/World/Sure.antt =====
-- Actions that do not panic, and fail only with errors of a kind, in the worlds of an invariant.
use kubemox.Base.{Bool, Option, arith, false, if◌then◌else◌, none, refl, some, true, ◌≡◌, ◌≢◌}
use kubemox.World.Call.{Call}
use kubemox.World.Error.{Error}
use kubemox.World.Monad.{
  Action, Outcome, World, err, fail, gets, handle, logged, modify, note, ok, on_option, panic,
  perform, return, ◌>>=◌,
}

-- How an action may end: well or with an error of the kind, where the invariant holds still.
abbrev pub EndsSurely : {A : Type 0} → (World → Type 0) → (Error → Bool) → Outcome A → Type 0
EndsSurely P kind (ok _ w) = P w
EndsSurely P kind (err e w) = P w × (kind e ≡ true)
EndsSurely P kind (panic _) = ⊥

pub record Sure {A : Type 0} (P : World → Type 0) (kind : Error → Bool) (m : Action A)
    : Type 0 where
  pub run : (w : World) → P w → EndsSurely P kind (m w)

false-true : false ≢ true
false-true e = ground arith

none-some : (x : Error) → some x ≢ none
none-some x e = ground arith

module _ {P : World → Type 0} {kind : Error → Bool} where
  pub Sure-return : {A : Type 0} (a : A) → Sure P kind (return a)
  unfolding return
  Sure-return a = record { run = λ w h. h }

  pub Sure-fail : {A : Type 0} (e : Error) → kind e ≡ true → Sure {A = A} P kind (fail e)
  unfolding fail
  Sure-fail e k = record { run = λ w h. (h, k) }

  pub Sure-gets : {A : Type 0} (f : World → A) → Sure P kind (gets f)
  unfolding gets
  Sure-gets f = record { run = λ w h. h }

  pub Sure-modify : (f : World → World) → ((w : World) → P w → P (f w)) → Sure P kind (modify f)
  unfolding modify
  Sure-modify f k = record { run = λ w h. k w h }

  pub Sure-note : (c : Call) → ((w : World) → P w → P (logged c true w)) → Sure P kind (note c)
  unfolding note
  Sure-note c k = record { run = λ w h. k w h }

  -- A call that does not fail in the worlds of the invariant.
  pub Sure-perform :
      (c : Call)
      → ((w : World) → P w → (w.env.failure w.trace c ≡ none) × P (logged c true w))
      → Sure P kind (perform c)
  unfolding perform
  Sure-perform c k = record { run = λ w h. go w (w.env.failure w.trace c) ((k w h).0) ((k w h).1) }
    where
      go :
          (w : World) (o : Option Error)
          → o ≡ none
          → P (logged c true w)
          → EndsSurely P kind (
              let r : Outcome (Unit {0}) = elim o [
                | none ↦ ok tt (logged c true w)
                | some e ↦ err e (logged c false w)
              ] in
              r)
      go w none e h = h
      go w (some x) e h = absurd (none-some x e)

  -- A call that fails only with errors of the kind.
  pub Sure-attempt :
      (c : Call)
      → ((w : World)
          → P w
          → ((e : Error) → w.env.failure w.trace c ≡ some e → kind e ≡ true)
            × ((b : Bool) → P (logged c b w)))
      → Sure P kind (perform c)
  unfolding perform
  Sure-attempt c k = record { run = λ w h. go w (w.env.failure w.trace c) (k w h).0 (k w h).1 }
    where
      go :
          (w : World) (o : Option Error)
          → ((e : Error) → o ≡ some e → kind e ≡ true)
          → ((b : Bool) → P (logged c b w))
          → EndsSurely P kind (
              let r : Outcome (Unit {0}) = elim o [
                | none ↦ ok tt (logged c true w)
                | some e ↦ err e (logged c false w)
              ] in
              r)
      go w none e h = h true
      go w (some x) e h = (h false, e x refl)

  -- The test is known.
  pub Sure-then :
      {A : Type 0} (b : Bool) (m n : Action A)
      → b ≡ true
      → Sure P kind m
      → Sure P kind (if b then m else n)
  Sure-then b m n h k = rw h k

  pub Sure-if :
      {A : Type 0} (b : Bool) (m n : Action A)
      → Sure P kind m
      → Sure P kind n
      → Sure P kind (if b then m else n)
  Sure-if true m n km kn = km
  Sure-if false m n km kn = kn

  pub Sure-on_option :
      {A B : Type 0} (o : Option A) (m : Action B) (f : A → Action B)
      → Sure P kind m
      → ((a : A) → Sure P kind (f a))
      → Sure P kind (on_option o m f)
  unfolding on_option
  Sure-on_option none m f km kf = km
  Sure-on_option (some a) m f km kf = kf a

  pub Sure-bind :
      {A B : Type 0} (m : Action A) (f : A → Action B)
      → Sure P kind m
      → ((a : A) → Sure P kind (f a))
      → Sure P kind (m >>= f)
  unfolding ◌>>=◌
  Sure-bind {A} {B} m f km kf = record { run = λ w h. go (m w) (km.run w h) }
    where
      go :
          (o : Outcome A)
          → EndsSurely P kind o
          → EndsSurely P kind (
              let r : Outcome B = elim o [
                | ok a w' ↦ f a w'
                | err e w' ↦ err e w'
                | panic w' ↦ panic w'
              ] in
              r)
      go (ok a w) h = (kf a).run w h
      go (err e w) h = h
      go (panic w) h = absurd h

-- The handler is run on errors of the first part's kind only.
pub Sure-rescue :
    {A B : Type 0} {P : World → Type 0} {kind kind' : Error → Bool} (m : Action A)
    (k : Error → Action B) (f : A → Action B)
    → Sure P kind m
    → ((e : Error) → kind e ≡ true → Sure P kind' (k e))
    → ((a : A) → Sure P kind' (f a))
    → Sure P kind' (handle m k f)
unfolding handle
Sure-rescue {A} {B} {P} {kind} {kind'} m k f km kk kf = record {
  run = λ w h. go (m w) (km.run w h);
}
  where
    go :
        (o : Outcome A)
        → EndsSurely P kind o
        → EndsSurely P kind' (
            let r : Outcome B = elim o [
              | ok a w' ↦ f a w'
              | err e w' ↦ k e w'
              | panic w' ↦ panic w'
            ] in
            r)
    go (ok a w) h = (kf a).run w h
    go (err e w) h = (kk e h.1).run w h.0
    go (panic w) h = absurd h

pub Sure-handle :
    {A B : Type 0} {P : World → Type 0} {kind : Error → Bool} (m : Action A) (k : Error → Action B)
    (f : A → Action B)
    → Sure P kind m
    → ((e : Error) → kind e ≡ true → Sure P kind (k e))
    → ((a : A) → Sure P kind (f a))
    → Sure P kind (handle m k f)
Sure-handle m k f km kk kf = Sure-rescue m k f km kk kf

-- No error at all.
abbrev pub no_error : Error → Bool
no_error _ = false

pub Sure-ok :
    {A : Type 0} {P : World → Type 0} (m : Action A) (w : World)
    → Sure P no_error m
    → P w
    → (a : A) × (w' : World) × (m w ≡ ok a w') × P w'
Sure-ok {A} {P} m w k h = go (m w) refl (k.run w h)
  where
    go :
        (o : Outcome A)
        → m w ≡ o
        → EndsSurely P no_error o
        → (a : A) × (w' : World) × (m w ≡ ok a w') × P w'
    go (ok a w') e p = (a, w', e, p)
    go (err x w') e p = absurd (false-true p.1)
    go (panic w') e p = absurd p

pub ruleset sure_rules =
    (Sure-return, Sure-fail, Sure-gets, Sure-if, Sure-on_option, Sure-bind, Sure-handle)
