-- ===== src/Client/Forgets.antt =====
-- The cache behind a deletion: `DeleteVM` of pkg/proxmox/virtualmachine.go.
use kubemox.Base.{
  Bool, List, Option, Text, [], arith, false, inl, inr, none, not, refl, some, text_eq_refl, true,
  ℕ, ◌&&◌, ◌∷◌, ◌≡◌, ◌⊎◌,
}
use kubemox.Client.Cache.{cached_vmid, forget_vm}
use kubemox.Client.Power.{delete_vm, stopped_in_time}
use kubemox.World.Call.{Call, Event}
use kubemox.World.Ends.{Ends, Ends-ok, EndsAt, ends_rules}
use kubemox.World.Env.{TaskEnd}
use kubemox.World.Error.{Error}
use kubemox.World.Monad.{
  Action, Outcome, World, err, fail, finish_task, gets, logged, modify, ok, on_option, panic,
  return, return_error, wait_for, ◌>>=◌,
}
use kubemox.World.Trace.{is_wait}

abbrev is_nil_error : Option Error → Bool
is_nil_error none = true
is_nil_error (some _) = false

-- The last call is a wait for a task, which answered that the task has not completed, with a nil error.
abbrev pub given_up : (List Event → TaskEnd) → List Event → Bool
given_up ends [] = false
given_up ends (e ∷ history) =
    is_wait e.call && (not (ends history).completed && is_nil_error (ends history).error)

abbrev Gone : ℕ → Text → Text → World → Type 0
Gone pc vm_name node_name w =
    (cached_vmid pc node_name vm_name w ≡ none) ⊎ (given_up w.env.task_end w.trace ≡ true)

forget_vm-ok :
    (pc : ℕ) (node_name vm_name : Text) (vmid : ℕ) (w : World)
    → EndsAt
        (λ v. cached_vmid pc node_name vm_name v ≡ none)
        (forget_vm pc node_name vm_name vmid w)
unfolding forget_vm cached_vmid gets modify on_option return ◌>>=◌
forget_vm-ok pc node_name vm_name vmid w =
    ground (arith, text_eq_refl node_name, text_eq_refl vm_name)

forget_vm-Ends :
    (pc : ℕ) (node_name vm_name : Text) (vmid : ℕ)
    → Ends (Gone pc vm_name node_name) (forget_vm pc node_name vm_name vmid)
forget_vm-Ends pc node_name vm_name vmid = record {
  run =
      λ w. left (forget_vm pc node_name vm_name vmid w) (forget_vm-ok pc node_name vm_name vmid w);
}
  where
    left :
        (o : Outcome (Unit {0}))
        → EndsAt (λ v. cached_vmid pc node_name vm_name v ≡ none) o
        → EndsAt (Gone pc vm_name node_name) o
    left (ok _ v) h = inl h
    left (err _ _) h = tt
    left (panic _) h = tt

-- A wait, and what follows it.
finish_at :
    (pc times steps : ℕ) (vm_name node_name : Text) (rest : Action (Unit {0}))
    (status completed b : Bool) (error : Option Error) (exit_status : Text) (w : World)
    → (w.env.task_end w.trace).completed ≡ completed
    → (w.env.task_end w.trace).error ≡ error
    → Ends (Gone pc vm_name node_name) rest
    → EndsAt (Gone pc vm_name node_name) (
        finish_task
          (record {
            status = status;
            completed = completed;
            error = error;
            exit_status = exit_status;
          })
          rest
          (logged (Call.wait_task times steps) b w))
unfolding return_error fail
finish_at pc times steps vm_name node_name rest false c b e s w h k r = tt
finish_at pc times steps vm_name node_name rest true false b none s w h k r = inr (rw (h, k) refl)
finish_at pc times steps vm_name node_name rest true false b (some e) s w h k r = tt
finish_at pc times steps vm_name node_name rest true true b e s w h k r =
    r.run (logged (Call.wait_task times steps) b w)

finish_wait :
    (pc times steps : ℕ) (vm_name node_name : Text) (rest : Action (Unit {0}))
    → Ends (Gone pc vm_name node_name) rest
    → Ends (Gone pc vm_name node_name) (wait_for times steps >>= λ end. finish_task end rest)
unfolding wait_for return_error fail ◌>>=◌
finish_wait pc times steps vm_name node_name rest k = record {
  run = λ w.
      let end = w.env.task_end w.trace in
      finish_at pc times steps vm_name node_name rest end.status end.completed
        (end.status && end.completed) end.error end.exit_status w refl refl k;
}

stopped-Gone :
    (pc vm : ℕ) (vm_name node_name : Text) (rest : Action (Unit {0}))
    → Ends (Gone pc vm_name node_name) rest
    → Ends (Gone pc vm_name node_name) (stopped_in_time vm rest)
unfolding stopped_in_time
stopped-Gone pc vm vm_name node_name rest k = search (ends_rules, finish_wait) depth 14

deletes :
    (pc : ℕ) (vm_name node_name : Text)
    → Ends (Gone pc vm_name node_name) (delete_vm pc vm_name node_name)
unfolding delete_vm
deletes pc vm_name node_name =
    search (ends_rules, finish_wait, stopped-Gone, forget_vm-Ends) depth 14

-- Where `DeleteVM` ends with no error, the VMID of the name is no longer cached, unless the last call was a
-- wait for a task that answered with a nil error that the task has not completed.
pub delete_vm-forgets :
    (pc : ℕ) (vm_name node_name : Text) (w w' : World)
    → delete_vm pc vm_name node_name w ≡ ok tt w'
    → (cached_vmid pc node_name vm_name w' ≡ none) ⊎ (given_up w'.env.task_end w'.trace ≡ true)
delete_vm-forgets pc vm_name node_name w w' h =
    Ends-ok (delete_vm pc vm_name node_name) tt w w' (deletes pc vm_name node_name) h
