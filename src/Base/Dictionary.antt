-- ===== src/Base/Dictionary.antt =====
-- A JavaScript object used as a dictionary, in the order of insertion. Addresses and signatures are
-- numbers, so keys are compared by `==`.
use Prim.Native.Nat.{ℕ}
use mathlib.Core.Path.{◌≡◌, refl, subst}
use mathlib.Core.Bool.{false}
use mathlib.Core.Logic.{inl, inr}
use mathlib.Core.Option.{Option, none, some}
use mathlib.Core.List.{List, [], ◌∷◌}
use native.Mathlib.Omega.{arith}
use collateralized_agents.Base.Tests.{◌==◌, if◌then◌else◌, Bool-cases}

abbrev pub Dict {ℓ} : Type ℓ → Type ℓ
Dict V = List (ℕ × V)

module _ {ℓ} {V : Type ℓ} where
  -- `d[k]`
  unfoldable pub lookup : ℕ → Dict V → Option V
  lookup k [] = none
  lookup k ((j, v) ∷ d) = if j == k then some v else lookup k d

  -- `d[k] = v`: in place when the key is there, else at the end.
  unfoldable pub insert : ℕ → V → Dict V → Dict V
  insert k v [] = (k, v) ∷ []
  insert k v ((j, w) ∷ d) = if j == k then (k, v) ∷ d else (j, w) ∷ insert k v d

  -- A change of the value at `k`, if there is one.
  unfoldable pub update : ℕ → (V → V) → Dict V → Dict V
  update k f [] = []
  update k f ((j, v) ∷ d) = if j == k then (j, f v) ∷ d else (j, v) ∷ update k f d

  -- `delete d[k]`
  unfoldable pub erase : ℕ → Dict V → Dict V
  erase k [] = []
  erase k ((j, v) ∷ d) = if j == k then erase k d else (j, v) ∷ erase k d

  pub lookup-insert :
      (k j : ℕ) (v : V) (d : Dict V)
      → lookup j (insert k v d) ≡ (if k == j then some v else lookup j d)
  unfolding lookup insert
  lookup-insert k j v [] = ground arith
  lookup-insert k j v ((i, w) ∷ d) = ground (arith, lookup-insert k j v d)

  pub lookup-erase :
      (k j : ℕ) (d : Dict V) → lookup j (erase k d) ≡ (if k == j then none else lookup j d)
  unfolding lookup erase
  lookup-erase k j [] = ground arith
  lookup-erase k j ((i, w) ∷ d) = ground (arith, lookup-erase k j d)

  pub lookup-insert_self : (k : ℕ) (v : V) (d : Dict V) → lookup k (insert k v d) ≡ some v
  lookup-insert_self k v d = ground (arith, lookup-insert k k v d)

  pub lookup-erase_self : (k : ℕ) (d : Dict V) → lookup k (erase k d) ≡ none
  lookup-erase_self k d = ground (arith, lookup-erase k k d)

  pub lookup-update_self :
      (k : ℕ) (f : V → V) (d : Dict V) (v : V)
      → lookup k d ≡ some v
      → lookup k (update k f d) ≡ some (f v)
  unfolding lookup update
  lookup-update_self k f [] v h = cc
  lookup-update_self k f ((i, w) ∷ d) v h = ground (arith, lookup-update_self k f d v)

  pub lookup-update_ne :
      (k j : ℕ) (f : V → V) (d : Dict V) → (j == k) ≡ false → lookup j (update k f d) ≡ lookup j d
  unfolding lookup update
  lookup-update_ne k j f [] h = refl
  lookup-update_ne k j f ((i, w) ∷ d) h = ground (arith, lookup-update_ne k j f d)

  pub lookup-update-none :
      (k j : ℕ) (f : V → V) (d : Dict V) → lookup j d ≡ none → lookup j (update k f d) ≡ none
  unfolding lookup update
  lookup-update-none k j f [] h = refl
  lookup-update-none k j f ((i, w) ∷ d) h = ground (arith, lookup-update-none k j f d)

-- Every value that a lookup finds satisfies `P`.
abbrev pub Every {ℓ κ} : {V : Type ℓ} → (V → Type κ) → Dict V → Type (ℓ ⊔ κ)
Every {V = V} P d = (k : ℕ) (v : V) → lookup k d ≡ some v → P v

module _ {ℓ κ} {V : Type ℓ} (P : V → Type κ) where
  the_same : {v w : V} → some v ≡ some w → v ≡ w
  the_same h = grind arith

  pub Every-insert : (k : ℕ) (v : V) (d : Dict V) → Every P d → P v → Every P (insert k v d)
  Every-insert k v d h p j w e = elim (Bool-cases (k == j)) [
    | inl t ↦ subst P (the_same (grind (arith, lookup-insert k j v d))) p
    | inr t ↦ h j w (grind (arith, lookup-insert k j v d))
  ]

  pub Every-erase : (k : ℕ) (d : Dict V) → Every P d → Every P (erase k d)
  Every-erase k d h j w e = h j w (ground (arith, lookup-erase k j d))

  pub Every-update :
      (k : ℕ) (f : V → V) (d : Dict V) (v : V)
      → Every P d
      → lookup k d ≡ some v
      → P (f v)
      → Every P (update k f d)
  Every-update k f d v h l p j w e = elim (Bool-cases (j == k)) [
    | inl t ↦ subst P (the_same (grind (arith, lookup-update_self k f d v))) p
    | inr t ↦ h j w (grind (arith, lookup-update_ne k j f d))
  ]
