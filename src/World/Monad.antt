-- ===== src/World/Monad.antt =====
-- Go functions as actions on the world. A value returned with a nil error is `ok`, an error is
-- `err`, and a nil dereference, a write to a nil map or an index out of range is `panic`.
use kubemox.Base.{
  Bool, List, Option, Text, false, if◌then◌else◌, none, not, some, true, ℕ, ◌&&◌, ◌∷◌,
}
use kubemox.World.Call.{Call, Event}
use kubemox.World.Env.{Env, Guest, Lxc, TaskEnd}
use kubemox.World.Error.{Error, task_error}

-- `NodeCache` of pkg/proxmox/connection.go. A nil pointer or a nil map is `none`; the maps of
-- objects hold pointers, as numbers.
pub record NodeCache : Type 0 where
  pub node : Option Text
  pub vms : Option (Text → Option ℕ)
  pub vm_objs : Option (ℕ → Option ℕ)
  pub containers : Option (Text → Option ℕ)
  pub container_objs : Option (ℕ → Option ℕ)

-- `CachedClient`: the client is a handle into `caches`.
pub record CachedClient : Type 0 where
  pub client : ℕ
  pub resource_version : Text
  pub created_at : ℕ
  pub uses_session : Bool

pub record World : Type 0 where
  pub env : Env
  -- the calls made, the last one first
  pub trace : List Event
  -- `nodesCache` of each client, and the global `clientCache`
  pub caches : ℕ → Text → Option NodeCache
  pub next_client : ℕ
  pub client_cache : Text → Option CachedClient
  -- the `proxmox.VirtualMachine` objects behind pointers
  pub guests : ℕ → Guest
  pub next_guest : ℕ
  -- the `proxmox.Container` objects behind pointers
  pub lxcs : ℕ → Lxc
  pub next_lxc : ℕ
  -- `cronJobs` of the snapshot policies: the schedule of each key
  pub cron_jobs : Text → Option Text

pub data Outcome (A : Type 0) : Type 0 where
  ok : A → World → Outcome A
  err : Error → World → Outcome A
  panic : World → Outcome A

abbrev pub Action : Type 0 → Type 0
Action A = World → Outcome A

abbrev pub after : {A : Type 0} → Outcome A → World
after (ok _ w) = w
after (err _ w) = w
after (panic w) = w

infixl 5 ◌>>=◌ ◌>>◌
-- `if err != nil { return err }`
unfoldable pub ◌>>=◌ : {A B : Type 0} → Action A → (A → Action B) → Action B
◌>>=◌ m f w = elim (m w) [ ok a w' ↦ f a w' | err e w' ↦ err e w' | panic w' ↦ panic w' ]

abbrev pub ◌>>◌ : {A B : Type 0} → Action A → Action B → Action B
m >> k = m >>= λ _. k

unfoldable pub return : {A : Type 0} → A → Action A
return a w = ok a w

unfoldable pub fail : {A : Type 0} → Error → Action A
fail e w = err e w

unfoldable pub crash : {A : Type 0} → Action A
crash w = panic w

-- A call whose error is looked at: the error handler, then what follows a nil error.
unfoldable pub handle : {A B : Type 0} → Action A → (Error → Action B) → (A → Action B) → Action B
handle m h f w = elim (m w) [ ok a w' ↦ f a w' | err e w' ↦ h e w' | panic w' ↦ panic w' ]

-- `return err` where `err` may be nil.
unfoldable pub return_error : Option Error → Action (Unit {0})
return_error none w = ok tt w
return_error (some e) w = err e w

unfoldable pub gets : {A : Type 0} → (World → A) → Action A
gets f w = ok (f w) w

unfoldable pub modify : (World → World) → Action (Unit {0})
modify f w = ok tt (f w)

-- A pointer that is followed: nil, or the value behind it.
unfoldable pub on_option : {A B : Type 0} → Option A → Action B → (A → Action B) → Action B
on_option none m f = m
on_option (some a) m f = f a

abbrev pub logged : Call → Bool → World → World
logged c done w = record w { trace = record { call = c; succeeded = done } ∷ w.trace }

-- A call that may fail.
unfoldable pub perform : Call → Action (Unit {0})
perform c w = elim (w.env.failure w.trace c) [
  | none ↦ ok tt (logged c true w)
  | some e ↦ err e (logged c false w)
]

-- A call that returns nothing.
unfoldable pub note : Call → Action (Unit {0})
note c w = ok tt (logged c true w)

-- `task.WaitForCompleteStatus(ctx, times, steps)`
unfoldable pub wait_for : ℕ → ℕ → Action TaskEnd
wait_for times steps w =
    let end = w.env.task_end w.trace in
    ok end (logged (Call.wait_task times steps) (end.status && end.completed) w)

-- The lines that follow a wait: a failed task, a task that does not complete in time, the rest.
abbrev pub finish_task : TaskEnd → Action (Unit {0}) → Action (Unit {0})
finish_task end rest =
    if not end.status
    then fail (task_error end.exit_status)
    else if not end.completed
    then return_error end.error
    else rest
