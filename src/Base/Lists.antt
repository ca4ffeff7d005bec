-- ===== src/Base/Lists.antt =====
-- Lists measured by native numbers, under the library's names.
use Prim.Native.Nat.{ℕ, zero, suc, ◌+◌, ◌-◌, ◌≤◌}
use mathlib.Core.Path.{◌≡◌}
use mathlib.Core.Bool.{Bool, false, ◌||◌}
use mathlib.Core.Option.{Option, none, some}
use mathlib.Core.List.{List, [], ◌∷◌, ◌++◌}
use native.Mathlib.Omega.{arith}
use collateralized_agents.Base.Tests.{◌==◌, if◌then◌else◌, if_ind}

module _ {ℓ} {A : Type ℓ} where
  abbrev pub length : List A → ℕ
  length [] = 0
  length (x ∷ xs) = suc (length xs)

  abbrev pub drop : ℕ → List A → List A
  drop zero xs = xs
  drop (suc n) [] = []
  drop (suc n) (x ∷ xs) = drop n xs

  -- `xs.slice(-n)`: the last n elements, or all of them; `slice(-0)` is the whole list.
  abbrev pub last : ℕ → List A → List A
  last zero xs = xs
  last (suc n) xs = drop (length xs - suc n) xs

  -- `xs.filter(p)` with a Boolean test.
  abbrev pub keep_if : (A → Bool) → List A → List A
  keep_if p [] = []
  keep_if p (x ∷ xs) = if p x then x ∷ keep_if p xs else keep_if p xs

  -- `xs.find(p)`
  abbrev pub find : (A → Bool) → List A → Option A
  find p [] = none
  find p (x ∷ xs) = if p x then some x else find p xs

  -- Every element satisfies `P`.
  abbrev pub All {κ} : (A → Type κ) → List A → Type κ
  All P [] = Unit
  All P (x ∷ xs) = P x × All P xs

  pub length-append : (xs ys : List A) → length (xs ++ ys) ≡ length xs + length ys
  length-append [] ys = omega arith
  length-append (x ∷ xs) ys = omega (arith, length-append xs ys)

  pub length-drop : (n : ℕ) (xs : List A) → length (drop n xs) ≡ length xs - n
  length-drop zero xs = omega arith
  length-drop (suc n) [] = omega arith
  length-drop (suc n) (x ∷ xs) = omega (arith, length-drop n xs)

  pub length-keep_if-le : (p : A → Bool) (xs : List A) → length (keep_if p xs) ≤ length xs
  length-keep_if-le p [] = omega arith
  length-keep_if-le p (x ∷ xs) = ground (arith, length-keep_if-le p xs)

module _ {ℓ κ} {A : Type ℓ} (P : A → Type κ) where
  pub All-append : (xs ys : List A) → All P xs → All P ys → All P (xs ++ ys)
  All-append [] ys hx hy = hy
  All-append (x ∷ xs) ys hx hy = (hx.0, All-append xs ys hx.1 hy)

  pub All-map {μ} : (Q : A → Type μ) → ((x : A) → P x → Q x) → (xs : List A) → All P xs → All Q xs
  All-map Q f [] h = tt
  All-map Q f (x ∷ xs) h = (f x h.0, All-map Q f xs h.1)

  pub All-keep_if : (p : A → Bool) (xs : List A) → All P xs → All P (keep_if p xs)
  All-keep_if p [] h = tt
  All-keep_if p (x ∷ xs) h =
      if_ind (All P) (p x) (x ∷ keep_if p xs) (keep_if p xs) (λ e. (h.0, All-keep_if p xs h.1))
        (λ e. All-keep_if p xs h.1)

-- `xs.includes(k)` on numbers, and `has` of a set of them.
abbrev pub includes : List ℕ → ℕ → Bool
includes [] k = false
includes (x ∷ xs) k = (x == k) || includes xs k

-- Two lists of the same length whose elements are related in order.
abbrev pub Each : {A B : Type 0} → (A → B → Type 0) → List A → List B → Type 0
Each R [] [] = Unit
Each R [] (y ∷ ys) = ⊥
Each R (x ∷ xs) [] = ⊥
Each R (x ∷ xs) (y ∷ ys) = R x y × Each R xs ys

pub Each-compose :
    {A B C : Type 0} (R : A → B → Type 0) (S : B → C → Type 0) (T : A → C → Type 0)
    → ((x : A) (y : B) (z : C) → R x y → S y z → T x z)
    → (xs : List A) (ys : List B) (zs : List C) → Each R xs ys
    → Each S ys zs
    → Each T xs zs
Each-compose R S T f [] [] [] h k = tt
Each-compose R S T f [] [] (z ∷ zs) h k = absurd k
Each-compose R S T f [] (y ∷ ys) zs h k = absurd h
Each-compose R S T f (x ∷ xs) [] zs h k = absurd h
Each-compose R S T f (x ∷ xs) (y ∷ ys) [] h k = absurd k
Each-compose R S T f (x ∷ xs) (y ∷ ys) (z ∷ zs) h k =
    (f x y z h.0 k.0, Each-compose R S T f xs ys zs h.1 k.1)

pub Each-All :
    {A B : Type 0} (P : A → Type 0) (R : A → B → Type 0) (xs : List A) (ys : List B)
    → All P xs
    → Each (λ x y. P x → R x y) xs ys
    → Each R xs ys
Each-All P R [] [] h k = tt
Each-All P R [] (y ∷ ys) h k = absurd k
Each-All P R (x ∷ xs) [] h k = absurd k
Each-All P R (x ∷ xs) (y ∷ ys) h k = (k.0 h.0, Each-All P R xs ys h.1 k.1)
