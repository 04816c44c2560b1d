-- ===== src/Client/ContainerCache.antt =====
-- The cache of container ids beside a map: pkg/proxmox/container_cache_methods.go.
use kubemox.Base.{
  Bool-cases, List, Option, Option-cases, Text, [], ap, arith, if◌then◌else◌, inl, inr, none, refl,
  some, sym, text_eq, text_eq_refl, text_eq→≡, ℕ, ◌∙◌, ◌∷◌, ◌≡◌,
}
use kubemox.Client.Cache.{
  containers_of, delete_cached_container, delete_text, entry_of, no_entries, read_map,
  set_cached_container_id, set_entry, set_text,
}
use kubemox.World.Monad.{Action, NodeCache, World, gets, modify, ok, on_option, return, ◌>>=◌, ◌>>◌}

-- The changes of the cache of one node.
pub data CacheChange : Type 0 where
  put : Text → ℕ → CacheChange
  drop : Text → CacheChange

-- What they mean for a map, and what the program does.
unfoldable pub change_map : CacheChange → (Text → Option ℕ) → Text → Option ℕ
change_map (put name id) f = set_text f name (some id)
change_map (drop name) f = set_text f name none

unfoldable pub change_cache : ℕ → Text → CacheChange → Action (Unit {0})
change_cache pc node_name (put name id) = set_cached_container_id pc node_name name id
change_cache pc node_name (drop name) = delete_cached_container pc node_name name

abbrev pub change_maps : List CacheChange → (Text → Option ℕ) → Text → Option ℕ
change_maps [] f = f
change_maps (c ∷ cs) f = change_maps cs (change_map c f)

abbrev pub change_caches : ℕ → Text → List CacheChange → Action (Unit {0})
change_caches pc node_name [] = return tt
change_caches pc node_name (c ∷ cs) = change_cache pc node_name c >> change_caches pc node_name cs

-- The map that a cache stands for.
abbrev pub view : ℕ → Text → World → Text → Option ℕ
view pc node_name w name = read_map (containers_of (entry_of pc node_name w)) name

-- An action changes the map as told, keeps the caches of the other nodes, and makes no call.
abbrev pub Refines : ℕ → Text → World → (Text → Option ℕ) → Action (Unit {0}) → Type 0
Refines pc node_name w f m =
    (w' : World) × (m w ≡ ok tt w')
    × ((name : Text) → view pc node_name w' name ≡ f name)
    × ((away : Text)
        → entry_of pc away w'
          ≡ (if text_eq node_name away then entry_of pc node_name w' else entry_of pc away w))
    × (w'.trace ≡ w.trace)

module _ (pc : ℕ) (node_name : Text) where
  -- An action that writes an entry.
  write-Refines :
      (w : World) (e : NodeCache) (f : Text → Option ℕ) (m : Action (Unit {0}))
      → m w ≡ ok tt (set_entry pc node_name e w)
      → ((name : Text) → read_map e.containers name ≡ f name)
      → Refines pc node_name w f m
  write-Refines w e f m k h = (
    set_entry pc node_name e w,
    k,
    λ name. ground (arith, text_eq_refl node_name, h name),
    λ away. ground (arith, text_eq_refl node_name),
    refl,
  )

  unchanged :
      (w : World) (away : Text)
      → entry_of pc away w
        ≡ (if text_eq node_name away then entry_of pc node_name w else entry_of pc away w)
  unchanged w away = elim (Bool-cases (text_eq node_name away)) [
    | inl e ↦ rw e (ap (λ n. entry_of pc n w) (sym (text_eq→≡ node_name away e)))
    | inr e ↦ rw e refl
  ]

  else_before :
      (w w1 w2 : World) (away : Text)
      → entry_of pc away w1
        ≡ (if text_eq node_name away then entry_of pc node_name w1 else entry_of pc away w)
      → (if text_eq node_name away then entry_of pc node_name w2 else entry_of pc away w1)
        ≡ (if text_eq node_name away then entry_of pc node_name w2 else entry_of pc away w)
  else_before w w1 w2 away h = elim (Bool-cases (text_eq node_name away)) [
    | inl e ↦ rw e refl
    | inr e ↦ ground (arith, e, h)
  ]

  put-Refines :
      (name : Text) (id : ℕ) (w : World)
      → Refines pc node_name w
          (change_map (put name id) (view pc node_name w))
          (set_cached_container_id pc node_name name id)
  unfolding change_map set_cached_container_id gets on_option modify ◌>>=◌
  put-Refines name id w = elim (Option-cases (entry_of pc node_name w)) [
    | inl e ↦
        write-Refines w
          (record {
            node = none;
            vms = some no_entries;
            vm_objs = some no_entries;
            containers = some (set_text no_entries name (some id));
            container_objs = none;
          })
          (change_map (put name id) (view pc node_name w))
          (set_cached_container_id pc node_name name id) (ground (arith, e))
          (λ k. ground (arith, e))
    | inr (entry, e) ↦ elim (Option-cases entry.containers) [
      | inl c ↦
          write-Refines w (record entry { containers = some (set_text no_entries name (some id)) })
            (change_map (put name id) (view pc node_name w))
            (set_cached_container_id pc node_name name id) (ground (arith, e, c))
            (λ k. ground (arith, e, c))
      | inr (m, c) ↦
          write-Refines w (record entry { containers = some (set_text m name (some id)) })
            (change_map (put name id) (view pc node_name w))
            (set_cached_container_id pc node_name name id) (ground (arith, e, c))
            (λ k. ground (arith, e, c))
    ]
  ]

  drop-Refines :
      (name : Text) (w : World)
      → Refines pc node_name w
          (change_map (drop name) (view pc node_name w))
          (delete_cached_container pc node_name name)
  unfolding change_map delete_cached_container gets on_option modify return ◌>>=◌
  drop-Refines name w = elim (Option-cases (entry_of pc node_name w)) [
    | inl e ↦ (w, ground (arith, e), λ k. ground (arith, e), unchanged w, refl)
    | inr (entry, e) ↦
        write-Refines w (record entry { containers = delete_text entry.containers name })
          (change_map (drop name) (view pc node_name w)) (delete_cached_container pc node_name name)
          (ground (arith, e))
          (λ k. elim (Option-cases entry.containers) [
            | inl c ↦ ground (arith, e, c)
            | inr (m, c) ↦ ground (arith, e, c)
          ])
  ]

  change-Refines :
      (c : CacheChange) (w : World)
      → Refines pc node_name w (change_map c (view pc node_name w)) (change_cache pc node_name c)
  unfolding change_cache
  change-Refines (put name id) w = put-Refines name id w
  change-Refines (drop name) w = drop-Refines name w

same_changes :
    (cs : List CacheChange) (f g : Text → Option ℕ)
    → ((name : Text) → f name ≡ g name)
    → (name : Text) → change_maps cs f name ≡ change_maps cs g name
same_changes cs f g h name = ap (λ k. change_maps cs k name) (λ i n. h n i)

-- The cache of container ids is a map from names to ids, for every sequence of additions and removals and
-- in every world: none of them fails or panics, what is read from the cache behind them is what a map has
-- that went through the same changes, the caches of the other nodes are as before, and no call is made.
pub container_cache-Refines :
    (pc : ℕ) (node_name : Text) (cs : List CacheChange) (w : World)
    → Refines pc node_name w (change_maps cs (view pc node_name w)) (change_caches pc node_name cs)
unfolding return ◌>>=◌
container_cache-Refines pc node_name [] w = (w, refl, λ name. refl, unchanged pc node_name w, refl)
container_cache-Refines pc node_name (c ∷ cs) w =
    let (w1, e, v, o, t) = change-Refines pc node_name c w in
    let (w2, e2, v2, o2, t2) = container_cache-Refines pc node_name cs w1 in
    (
      w2,
      ground (arith, e, e2),
      λ name.
          v2 name
          ∙ same_changes cs (view pc node_name w1) (change_map c (view pc node_name w)) v name,
      λ away. o2 away ∙ else_before pc node_name w w1 w2 away (o away),
      t2 ∙ t,
    )
