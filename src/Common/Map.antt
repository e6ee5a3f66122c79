-- ===== src/Common/Map.antt =====
-- Go's maps, as lists of entries in the order in which `range` meets them. `insert` and `delete`
-- leave one entry to a key at most.
use piccolod.Common.{
  ◌≡◌, ◌≢◌, refl, sym, ◌∙◌, ◌⊎◌, inl, inr, Bool, true, false, Option, none, some, List, [], ◌∷◌,
  arith, Eq, ◌==◌, Eq-cases, if◌then◌else◌,
}

abbrev pub Map {ℓ κ} : Type ℓ → Type κ → Type (ℓ ⊔ κ)
Map K V = List (K × V)

module _ {ℓ κ} {K : Type ℓ} {V : Type κ} ⦃e : Eq K⦄ where
  -- v, ok := m[k]
  unfoldable pub lookup : K → Map K V → Option V
  lookup k [] = none
  lookup k ((j, v) ∷ m) = if k == j then some v else lookup k m

  -- _, ok := m[k]
  unfoldable pub contains : K → Map K V → Bool
  contains k [] = false
  contains k ((j, v) ∷ m) = if k == j then true else contains k m

  -- delete(m, k)
  unfoldable pub delete : K → Map K V → Map K V
  delete k [] = []
  delete k ((j, v) ∷ m) = let rest = delete k m in if k == j then rest else (j, v) ∷ rest

  -- m[k] = v
  unfoldable pub insert : K → V → Map K V → Map K V
  unfolding delete
  insert k v m = (k, v) ∷ delete k m

  pub lookup-delete :
      (k j : K) (m : Map K V) → lookup j (delete k m) ≡ (if j == k then none else lookup j m)
  unfolding lookup delete
  lookup-delete k j [] = ground arith
  lookup-delete k j ((i, v) ∷ m) =
      ground (arith, lookup-delete k j m, e.beq_iff k i, e.beq_iff j i, e.beq_iff j k)

  pub lookup-insert :
      (k j : K) (v : V) (m : Map K V)
      → lookup j (insert k v m) ≡ (if j == k then some v else lookup j m)
  unfolding lookup insert
  lookup-insert k j v m = ground (arith, lookup-delete k j m)

  pub contains-delete :
      (k j : K) (m : Map K V) → contains j (delete k m) ≡ (if j == k then false else contains j m)
  unfolding contains delete
  contains-delete k j [] = ground arith
  contains-delete k j ((i, v) ∷ m) =
      ground (arith, contains-delete k j m, e.beq_iff k i, e.beq_iff j i, e.beq_iff j k)

  pub contains-insert :
      (k j : K) (v : V) (m : Map K V)
      → contains j (insert k v m) ≡ (if j == k then true else contains j m)
  unfolding contains insert
  contains-insert k j v m = ground (arith, contains-delete k j m)

  pub contains-lookup :
      (k : K) (m : Map K V) → contains k m ≡ elim (lookup k m) [ none ↦ false | some _ ↦ true ]
  unfolding lookup contains
  contains-lookup k [] = refl
  contains-lookup k ((j, v) ∷ m) = ground (arith, contains-lookup k m)

module _ {K V : Type 0} ⦃e : Eq K⦄ where
  -- The map has an entry of `k` with the value `v`.
  abbrev pub Holds : K → V → Map K V → Type 0
  Holds k v [] = ⊥
  Holds k v ((j, w) ∷ m) = ((k ≡ j) × (v ≡ w)) ⊎ Holds k v m

  pub lookup-Holds : (k : K) (v : V) (m : Map K V) → lookup k m ≡ some v → Holds k v m
  unfolding lookup
  lookup-Holds k v [] h = ground arith
  lookup-Holds k v ((j, w) ∷ m) h = elim (Eq-cases k j) [
    | inl (p, q) ↦ inl (p, ground arith)
    | inr (p, q) ↦ inr (lookup-Holds k v m (ground arith))
  ]

  Holds-delete_skip :
      (k j i : K) (v w : V) (m : Map K V)
      → k ≢ i
      → Holds j v ((i, w) ∷ delete k m)
      → (Holds j v (delete k m) → Holds j v m × (j ≢ k))
      → Holds j v ((i, w) ∷ m) × (j ≢ k)
  Holds-delete_skip k j i v w m p (inl (a, b)) ih = (inl (a, b), λ c. p (sym c ∙ a))
  Holds-delete_skip k j i v w m p (inr h) ih = (inr (ih h).0, (ih h).1)

  pub Holds-delete :
      (k j : K) (v : V) (m : Map K V) → Holds j v (delete k m) → Holds j v m × (j ≢ k)
  unfolding delete
  Holds-delete k j v [] h = absurd h
  Holds-delete k j v ((i, w) ∷ m) h = elim (Eq-cases k i) [
    | inl (p, q) ↦
        let (old, ne) = Holds-delete k j v m (rw (q, if◌then◌else◌) at h) in (inr old, ne)
    | inr (p, q) ↦
        Holds-delete_skip k j i v w m p (rw (q, if◌then◌else◌) at h) (Holds-delete k j v m)
  ]

  pub Holds-insert :
      (k j : K) (v w : V) (m : Map K V)
      → Holds j w (insert k v m)
      → ((j ≡ k) × (w ≡ v)) ⊎ (Holds j w m × (j ≢ k))
  unfolding insert
  Holds-insert k j v w m (inl h) = inl h
  Holds-insert k j v w m (inr h) = inr (Holds-delete k j w m h)
