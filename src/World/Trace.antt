-- ===== src/World/Trace.antt =====
-- Statements about the calls that an action makes.
use kubemox.Base.{Bool, List, Option, [], false, none, not, refl, some, true, ℕ, ◌&&◌, ◌∷◌, ◌≡◌}
use kubemox.World.Call.{Call, Event}
use kubemox.World.Error.{Error}
use kubemox.World.Keeps.{Holds, Keeps, Keeps-crash, Keeps-modify, keeps_rules}
use kubemox.World.Monad.{
  Action, Outcome, World, crash, err, logged, modify, note, ok, perform, wait_for,
}

-- A wait for a task.
abbrev pub is_wait : Call → Bool
is_wait (Call.wait_task _ _) = true
is_wait _ = false

-- No call with the property has been made.
abbrev pub avoids : (Call → Bool) → List Event → Bool
avoids q [] = true
avoids q (e ∷ t) = not (q e.call) && avoids q t

abbrev pub Avoided : (Call → Bool) → World → Type 0
Avoided q w = avoids q w.trace ≡ true

-- The action makes no call with the property.
abbrev pub Avoids : {A : Type 0} → (Call → Bool) → Action A → Type 0
Avoids q m = Keeps (Avoided q) (Avoided q) m

pub Avoids-perform : (q : Call → Bool) (c : Call) → q c ≡ false → Avoids q (perform c)
unfolding perform
Avoids-perform q c h = record { run = λ w t. go (w.env.failure w.trace c) w t }
  where
    go :
        (o : Option Error) (w : World)
        → Avoided q w
        → Holds (Avoided q) (Avoided q) (
            let r : Outcome (Unit {0}) = elim o [
              | none ↦ ok tt (logged c true w)
              | some e ↦ err e (logged c false w)
            ] in
            r)
    go none w t = rw h t
    go (some e) w t = rw h t

pub Avoids-note : (q : Call → Bool) (c : Call) → q c ≡ false → Avoids q (note c)
unfolding note
Avoids-note q c h = record { run = λ w t. rw h t }

pub Avoids-wait_for :
    (q : Call → Bool) (a b : ℕ) → q (Call.wait_task a b) ≡ false → Avoids q (wait_for a b)
unfolding wait_for
Avoids-wait_for q a b h = record { run = λ w t. rw h t }

pub Avoids-crash : {A : Type 0} (q : Call → Bool) → Avoids {A = A} q crash
Avoids-crash q = Keeps-crash (λ w h. h)

pub Avoids-modify :
    (q : Call → Bool) (f : World → World)
    → ((w : World) → (f w).trace ≡ w.trace)
    → Avoids q (modify f)
Avoids-modify q f k = Keeps-modify f (λ w h. rw (k w) h)

pub ruleset avoids_rules =
    (keeps_rules, Avoids-perform, Avoids-note, Avoids-wait_for, Avoids-crash, refl)
