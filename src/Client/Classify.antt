-- ===== src/Client/Classify.antt =====
-- What `classifyItems` of pkg/proxmox/generics.go sorts into its three lists.
use kubemox.Base.{
  All, Bool, In, List, Option-cases, Text, [], arith, false, if◌then◌else◌, inl, inr, map, none,
  refl, some, text_eq_iff, ◌↔◌, ◌∷◌, ◌≡◌, ◌≢◌, ◌⊎◌,
}
use kubemox.Client.Disk.{
  classify_items, items_to_add, items_to_delete, items_to_update, last_with_key, string_in_slice,
}

-- No item of the list has the key.
abbrev pub NoKey : {I : Type 0} → (I → Text) → Text → List I → Type 0
NoKey get_key key items = All (λ i. get_key i ≢ key) items

module _ {I : Type 0} (equal : I → I → Bool) (get_key : I → Text) where
  last_with_key-none :
      (key : Text) (items : List I)
      → (last_with_key get_key key items ≡ none) ↔ NoKey get_key key items
  unfolding last_with_key
  last_with_key-none key [] = ((λ _. tt), λ _. refl)
  last_with_key-none key (i ∷ items) =
      ground (arith, last_with_key-none key items, text_eq_iff (get_key i) key)

  string_in_slice-map :
      (key : Text) (items : List I)
      → (string_in_slice key (map get_key items) ≡ false) ↔ NoKey get_key key items
  unfolding string_in_slice
  string_in_slice-map key [] = ((λ _. tt), λ _. refl)
  string_in_slice-map key (i ∷ items) =
      ground (arith, string_in_slice-map key items, text_eq_iff (get_key i) key)

  add_step :
      (x d : I) (actual rest : List I)
      → In x (elim (last_with_key get_key (get_key d) actual) [ none ↦ d ∷ rest | some _ ↦ rest ])
        ↔ (((x ≡ d) × NoKey get_key (get_key d) actual) ⊎ In x rest)
  add_step x d actual rest = ground (arith, last_with_key-none (get_key d) actual)

  moved :
      (x d : I) (actual : List I)
      → x ≡ d
      → NoKey get_key (get_key d) actual ↔ NoKey get_key (get_key x) actual
  moved x d actual e = rw e ((λ h. h), λ h. h)

  In-items_to_add :
      (x : I) (desired actual : List I)
      → In x (items_to_add equal get_key desired actual)
        ↔ (In x desired × NoKey get_key (get_key x) actual)
  unfolding items_to_add
  In-items_to_add x [] actual = ((λ m. absurd m), λ m. absurd m.0)
  In-items_to_add x (d ∷ desired) actual = ground (
    arith,
    In-items_to_add x desired actual,
    add_step x d actual (items_to_add equal get_key desired actual),
    moved x d actual,
  )

  delete_step :
      (x a : I) (desired rest : List I)
      → In x (if string_in_slice (get_key a) (map get_key desired) then rest else a ∷ rest)
        ↔ (((x ≡ a) × NoKey get_key (get_key a) desired) ⊎ In x rest)
  delete_step x a desired rest = ground (arith, string_in_slice-map (get_key a) desired)

  In-items_to_delete :
      (x : I) (desired actual : List I)
      → In x (items_to_delete equal get_key (map get_key desired) actual)
        ↔ (In x actual × NoKey get_key (get_key x) desired)
  unfolding items_to_delete
  In-items_to_delete x desired [] = ((λ m. absurd m), λ m. absurd m.0)
  In-items_to_delete x desired (a ∷ actual) = ground (
    arith,
    In-items_to_delete x desired actual,
    delete_step x a desired (items_to_delete equal get_key (map get_key desired) actual),
    moved x a desired,
  )

  -- The actual item with the item's key, the last one, differs from the item.
  abbrev pub Differs : I → List I → Type 0
  Differs x actual =
      (found : I) × (last_with_key get_key (get_key x) actual ≡ some found)
      × (equal x found ≡ false)

  update_step :
      (x d : I) (actual rest : List I)
      → In x (elim (last_with_key get_key (get_key d) actual) [
        | none ↦ rest
        | some found ↦ if equal d found then rest else d ∷ rest
      ])
        ↔ (((x ≡ d) × Differs d actual) ⊎ In x rest)
  update_step x d actual rest = elim (Option-cases (last_with_key get_key (get_key d) actual)) [
    | inl e ↦ ground arith
    | inr p ↦ ground (arith, p)
  ]

  moved-Differs : (x d : I) (actual : List I) → x ≡ d → Differs d actual ↔ Differs x actual
  moved-Differs x d actual e = rw e ((λ h. h), λ h. h)

  In-items_to_update :
      (x : I) (desired actual : List I)
      → In x (items_to_update equal get_key desired actual) ↔ (In x desired × Differs x actual)
  unfolding items_to_update
  In-items_to_update x [] actual = ((λ m. absurd m), λ m. absurd m.0)
  In-items_to_update x (d ∷ desired) actual = ground (
    arith,
    In-items_to_update x desired actual,
    update_step x d actual (items_to_update equal get_key desired actual),
    moved-Differs x d actual,
  )

  -- An item is to be added if and only if it is desired and no actual item has its key; it is to be
  -- updated if and only if it is desired and differs from the last actual item with its key; it is to
  -- be deleted if and only if it is actual and no desired item has its key.
  pub classify_items_lem :
      (x : I) (desired actual : List I)
      → (In x (classify_items equal get_key desired actual).0
          ↔ (In x desired × NoKey get_key (get_key x) actual))
        × (In x (classify_items equal get_key desired actual).1 ↔ (In x desired × Differs x actual))
        × (In x (classify_items equal get_key desired actual).2
            ↔ (In x actual × NoKey get_key (get_key x) desired))
  unfolding classify_items
  classify_items_lem x desired actual = (
    In-items_to_add x desired actual,
    In-items_to_update x desired actual,
    In-items_to_delete x desired actual,
  )
