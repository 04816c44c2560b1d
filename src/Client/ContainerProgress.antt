-- ===== src/Client/ContainerProgress.antt =====
-- How `DeleteContainer` of pkg/proxmox/containers.go ends where all calls go well.
use kubemox.Base.{Bool, Text, if◌then◌else◌, refl, some, true, ℕ, ◌≡◌}
use kubemox.Client.Cache.{get_cached_container, get_cached_container_id}
use kubemox.Client.Container.{
  container_missing, delete_container, delete_if_named, destroy_container, drop_container,
  fetch_container, get_container, get_container_id, is_lxc_not_running, lost_container,
  lxc_from_config_when_stopped, new_lxc, ping_container, refresh_container, stop_and_destroy,
  store_container,
}
use kubemox.Client.ContainerSettled.{
  Settled, forget-Sure, forget_object-Sure, node-Sure, object-Sure, perform-Sure, pinged-Sure,
  read-Sure, set_id-Sure, store-Sure, task-Sure,
}
use kubemox.Client.Lookup.{containers}
use kubemox.World.Env.{Lxc}
use kubemox.World.Error.{Error, is_not_found, not_found}
use kubemox.World.Monad.{fail, handle, on_option, ◌>>=◌}
use kubemox.World.Sure.{Sure, Sure-fail, Sure-handle, Sure-rescue, Sure-then, sure_rules}

module _ (pc : ℕ) (node_name : Text) where
  cached_id-Sure :
      (name : Text)
      → Sure (Settled pc node_name) is_not_found (get_cached_container_id pc node_name name)
  unfolding get_cached_container_id
  cached_id-Sure name = search sure_rules

  cached_object-Sure :
      (id : ℕ) → Sure (Settled pc node_name) is_not_found (get_cached_container pc node_name id)
  unfolding get_cached_container
  cached_object-Sure id = search sure_rules

  listing-Sure : (n : Text) → Sure (Settled pc node_name) is_not_found (containers (some n))
  unfolding containers on_option
  listing-Sure n = search (sure_rules, perform-Sure) depth 9

  get_id-Sure :
      (name : Text) → Sure (Settled pc node_name) is_not_found (get_container_id pc name node_name)
  unfolding get_container_id
  get_id-Sure name =
      node-Sure pc node_name _
        λ n. search (sure_rules, cached_id-Sure, listing-Sure, set_id-Sure) depth 14

  new_lxc-Sure : {kind : Error → Bool} (c : Lxc) → Sure (Settled pc node_name) kind (new_lxc c)
  new_lxc-Sure c = search (sure_rules, object-Sure) depth 9

  fetch-Sure :
      (n : Text) (id : ℕ)
      → Sure (Settled pc node_name) is_lxc_not_running (fetch_container (some n) id)
  unfolding fetch_container on_option
  fetch-Sure n id = search (sure_rules, read-Sure, new_lxc-Sure) depth 12

  config-Sure :
      (id : ℕ)
      → Sure (Settled pc node_name) is_not_found (lxc_from_config_when_stopped node_name id)
  unfolding lxc_from_config_when_stopped
  config-Sure id = search (sure_rules, perform-Sure) depth 9

  missing-Sure :
      {A : Type 0} (name : Text)
      → Sure {A = A} (Settled pc node_name) is_not_found (fail (container_missing name))
  unfolding is_not_found
  missing-Sure name = Sure-fail (container_missing name) refl

  gone-Sure :
      {A : Type 0} (t : Text)
      → Sure {A = A} (Settled pc node_name) is_not_found (fail (not_found t))
  unfolding is_not_found
  gone-Sure t = Sure-fail (not_found t) refl

  lost-Sure :
      (name : Text) (id : ℕ) (e : Error)
      → is_not_found e ≡ true
      → Sure (Settled pc node_name) is_not_found (lost_container pc name node_name id e)
  lost-Sure name id e h = search (sure_rules, forget-Sure, forget_object-Sure, missing-Sure) depth 9

  -- A stopped container is read from its configuration.
  fetched-Sure :
      (n name : Text) (id : ℕ)
      → Sure (Settled pc node_name) is_not_found (
          handle
            (fetch_container (some n) id)
            (λ e.
              if is_lxc_not_running e
              then handle
                  (lxc_from_config_when_stopped node_name id >>= new_lxc)
                  (lost_container pc name node_name id)
                  (store_container pc node_name id)
              else lost_container pc name node_name id e)
            (store_container pc node_name id))
  fetched-Sure n name id =
      Sure-rescue {kind = is_lxc_not_running} _ _ _ (fetch-Sure n id)
        (λ e k.
          Sure-then (is_lxc_not_running e) _ _ k
            (search (sure_rules, config-Sure, new_lxc-Sure, store-Sure, lost-Sure) depth 14))
        (λ p. search (sure_rules, store-Sure) depth 9)

  refresh-Sure :
      (name : Text) → Sure (Settled pc node_name) is_not_found (refresh_container pc name node_name)
  unfolding refresh_container
  refresh-Sure name =
      node-Sure pc node_name _
        λ n. search (sure_rules, get_id-Sure, fetched-Sure, missing-Sure) depth 12

  get_container-Sure :
      (name : Text) → Sure (Settled pc node_name) is_not_found (get_container pc name node_name)
  unfolding get_container
  get_container-Sure name =
      search (sure_rules, cached_object-Sure, get_id-Sure, refresh-Sure) depth 9

  ping-Sure : (p : ℕ) → Sure (Settled pc node_name) is_lxc_not_running (ping_container p)
  unfolding ping_container
  ping-Sure p = search (sure_rules, read-Sure, pinged-Sure) depth 9

  destroy-Sure :
      (name : Text) (p : ℕ)
      → Sure (Settled pc node_name) is_not_found (destroy_container pc name node_name p)
  unfolding destroy_container
  destroy-Sure name p =
      search (sure_rules, perform-Sure, task-Sure, forget-Sure, forget_object-Sure) depth 12

  stop-Sure :
      (name : Text) (p : ℕ) (current : Lxc)
      → Sure (Settled pc node_name) is_not_found (delete_if_named pc name node_name p current)
  unfolding delete_if_named stop_and_destroy
  stop-Sure name p current =
      search
        (
          sure_rules, perform-Sure, task-Sure, destroy-Sure, forget-Sure, forget_object-Sure,
          missing-Sure,
        )
        depth 14

  drop-Sure :
      (name : Text) (p : ℕ)
      → Sure (Settled pc node_name) is_not_found (drop_container pc name node_name p)
  drop-Sure name p = search (sure_rules, forget-Sure, forget_object-Sure, missing-Sure) depth 9

  pub delete-Sure :
      (name : Text) → Sure (Settled pc node_name) is_not_found (delete_container pc name node_name)
  unfolding delete_container
  delete-Sure name =
      Sure-handle _ _ _ (get_container-Sure name)
        (λ e k. search (sure_rules, forget-Sure, gone-Sure) depth 9)
        λ p.
          Sure-rescue {kind = is_lxc_not_running} _ _ _ (ping-Sure p)
            (λ e k.
              Sure-then (is_lxc_not_running e) _ _ k
                (search (sure_rules, config-Sure, drop-Sure, stop-Sure) depth 14))
            (λ _. search (sure_rules, stop-Sure) depth 9)
