-- ===== src/Client/ContainerSettled.antt =====
-- A world in which the operations on containers go well, with running and stopped containers, and what
-- keeps it: the caches of
-- pkg/proxmox/container_cache_methods.go, the calls and the waits for tasks.
use kubemox.Base.{
  Bool, List, Option, Option-cases, Text, arith, false, if◌then◌else◌, inl, inr, none, refl, some,
  subst, sym, text_eq_refl, true, ℕ, ◌==◌, ◌∙◌, ◌≡◌,
}
use kubemox.Client.Cache.{
  delete_cached_container, delete_cached_container_object, entry_of, get_node, set_cached_container,
  set_cached_container_id, set_entry,
}
use kubemox.Client.Container.{finish_container_task, is_lxc_not_running}
use kubemox.World.Call.{Call, Event}
use kubemox.World.Env.{Lxc}
use kubemox.World.Error.{Error, is_not_found}
use kubemox.World.Monad.{
  Action, NodeCache, Outcome, World, err, gets, logged, modify, note, ok, on_option, panic, perform,
  return, wait_for, ◌>>=◌,
}
use kubemox.World.Sure.{EndsSurely, Sure, Sure-attempt, Sure-modify, Sure-note, Sure-perform}

-- A read of a container's present state, which Proxmox answers for a running container only.
abbrev pub reads_state : Call → Bool
reads_state (Call.get_container _ _) = true
reads_state (Call.ping_container _) = true
reads_state _ = false

-- The client knows the node, tasks end well, and no call fails but the reads of the state of a container,
-- which may fail because it is not running.
pub record Settled (pc : ℕ) (node_name : Text) (w : World) : Type 0 where
  pub no_failure :
      (history : List Event) (c : Call) → reads_state c ≡ false → w.env.failure history c ≡ none
  pub stopped :
      (history : List Event) (c : Call) (e : Error)
      → w.env.failure history c ≡ some e
      → is_lxc_not_running e ≡ true
  pub completed : (history : List Event) → (w.env.task_end history).completed ≡ true
  pub succeeded : (history : List Event) → (w.env.task_end history).status ≡ true
  pub entry : NodeCache
  pub node : Text
  pub cached : entry_of pc node_name w ≡ some entry
  pub known : entry.node ≡ some node

module _ (pc : ℕ) (node_name : Text) where
  abbrev pub SettledHere : World → Type 0
  SettledHere = Settled pc node_name

  pub logged_settles :
      (c : Call) (b : Bool) (w : World) → SettledHere w → SettledHere (logged c b w)
  logged_settles c b w s = record {
    no_failure = s.no_failure;
    stopped = s.stopped;
    completed = s.completed;
    succeeded = s.succeeded;
    entry = s.entry;
    node = s.node;
    cached = s.cached;
    known = s.known;
  }

  pub perform-Sure :
      {kind : Error → Bool} (c : Call) → reads_state c ≡ false → Sure SettledHere kind (perform c)
  perform-Sure c h = Sure-perform c (λ w s. (s.no_failure w.trace c h, logged_settles c true w s))

  pub read-Sure : (c : Call) → Sure SettledHere is_lxc_not_running (perform c)
  read-Sure c = Sure-attempt c (λ w s. (s.stopped w.trace c, λ b. logged_settles c b w s))

  pub note-Sure : {kind : Error → Bool} (c : Call) → Sure SettledHere kind (note c)
  note-Sure c = Sure-note c (λ w s. logged_settles c true w s)

  -- A change of the objects behind pointers, and of the entry of the node where the node stays.
  pub object-Sure :
      {kind : Error → Bool} (p : ℕ) (f : World → Lxc) (g : World → ℕ)
      → Sure SettledHere kind
          (modify (λ w. record w { lxcs = λ q. if q == p then f w else w.lxcs q; next_lxc = g w }))
  object-Sure p f g =
      Sure-modify (λ w. record w { lxcs = λ q. if q == p then f w else w.lxcs q; next_lxc = g w })
        λ w s. record {
          no_failure = s.no_failure;
          stopped = s.stopped;
          completed = s.completed;
          succeeded = s.succeeded;
          entry = s.entry;
          node = s.node;
          cached = s.cached;
          known = s.known;
        }

  pub pinged-Sure :
      {kind : Error → Bool} (p : ℕ) (f : World → Lxc)
      → Sure SettledHere kind
          (modify (λ w. record w { lxcs = λ q. if q == p then f w else w.lxcs q }))
  pinged-Sure p f =
      Sure-modify (λ w. record w { lxcs = λ q. if q == p then f w else w.lxcs q })
        λ w s. record {
          no_failure = s.no_failure;
          stopped = s.stopped;
          completed = s.completed;
          succeeded = s.succeeded;
          entry = s.entry;
          node = s.node;
          cached = s.cached;
          known = s.known;
        }

  -- An entry with the same node.
  entry_settles :
      (e : NodeCache) (w : World) (s : SettledHere w)
      → e.node ≡ s.entry.node
      → SettledHere (set_entry pc node_name e w)
  entry_settles e w s h = record {
    no_failure = s.no_failure;
    stopped = s.stopped;
    completed = s.completed;
    succeeded = s.succeeded;
    entry = e;
    node = s.node;
    cached = ground (arith, text_eq_refl node_name);
    known = h ∙ s.known;
  }

  -- A change of the entry of the node, which is there.
  entry-Sure :
      {A : Type 0} (m : Action A) (f : NodeCache → Action A)
      → ((w : World) (s : SettledHere w) → EndsSurely SettledHere is_not_found (f s.entry w))
      → Sure SettledHere is_not_found
          (gets (entry_of pc node_name) >>= λ cached. on_option cached m f)
  unfolding gets on_option ◌>>=◌
  entry-Sure m f k = record { run = λ w s. simp (s.cached) (k w s) }

  pub set_id-Sure :
      (name : Text) (id : ℕ)
      → Sure SettledHere is_not_found (set_cached_container_id pc node_name name id)
  unfolding set_cached_container_id on_option modify
  set_id-Sure name id = entry-Sure _ _ λ w s. elim (Option-cases s.entry.containers) [
    | inl e ↦ simp e (entry_settles _ w s refl)
    | inr p ↦ simp p.1 (entry_settles _ w s refl)
  ]

  pub store-Sure :
      (id p : ℕ) → Sure SettledHere is_not_found (set_cached_container pc node_name id p)
  unfolding set_cached_container on_option modify
  store-Sure id p = entry-Sure _ _ λ w s. elim (Option-cases s.entry.container_objs) [
    | inl e ↦ simp e (entry_settles _ w s refl)
    | inr q ↦ simp q.1 (entry_settles _ w s refl)
  ]

  pub forget-Sure :
      (name : Text) → Sure SettledHere is_not_found (delete_cached_container pc node_name name)
  unfolding delete_cached_container modify
  forget-Sure name = entry-Sure _ _ λ w s. entry_settles _ w s refl

  pub forget_object-Sure :
      (id : ℕ) → Sure SettledHere is_not_found (delete_cached_container_object pc node_name id)
  unfolding delete_cached_container_object modify
  forget_object-Sure id = entry-Sure _ _ λ w s. entry_settles _ w s refl

  -- The node is known, so a look at it finds it.
  node_read : (w : World) (s : SettledHere w) → get_node pc node_name w ≡ ok (some s.node) w
  unfolding get_node gets on_option ◌>>=◌ return
  node_read w s = ground (arith, s.cached, s.known)

  pub node-Sure :
      {A : Type 0} (f : Option Text → Action A)
      → ((n : Text) → Sure SettledHere is_not_found (f (some n)))
      → Sure SettledHere is_not_found (get_node pc node_name >>= f)
  unfolding ◌>>=◌
  node-Sure {A} f k = record {
    run = λ w s.
        subst
          (λ o. EndsSurely SettledHere is_not_found (
            let r : Outcome A = elim o [
              | ok a w' ↦ f a w'
              | err e w' ↦ err e w'
              | panic w' ↦ panic w'
            ] in
            r))
          (sym (node_read w s)) ((k s.node).run w s);
  }

  -- The wait for a task, which ends well.
  pub task-Sure :
      (times steps : ℕ) (what : Text) (rest : Action (Unit {0}))
      → Sure SettledHere is_not_found rest
      → Sure SettledHere is_not_found
          (wait_for times steps >>= λ end. finish_container_task what end rest)
  unfolding wait_for ◌>>=◌
  task-Sure times steps what rest k = record {
    run = λ w s.
        simp (s.completed w.trace, s.succeeded w.trace)
          (k.run (logged (Call.wait_task times steps) true w)
            (logged_settles (Call.wait_task times steps) true w s));
  }
