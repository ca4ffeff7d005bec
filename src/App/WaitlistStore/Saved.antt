-- ===== src/App/WaitlistStore/Saved.antt =====
-- What `saveEntry` of app/lib/waitlistStore.ts keeps and stores.
use collateralized_agents.Base.{
  ℕ, Bool, true, false, ◌&&◌, ◌≡◌, refl, Option, none, some, List, [], ◌∷◌, lookup, lookup-insert,
  lookup-insert_self, if_ind, inl, inr, ◌⊎◌, arith,
}
use collateralized_agents.App.WaitlistStore.{
  Store, Put, stored, unheard, not_stored, is_there, add_first, add_later, put_first, put_later,
  Reply, put_beside, after_first, save_entry,
}

-- Whether a list has a pair.
abbrev pub Has : ℕ → ℕ → List (ℕ × ℕ) → Type 0
Has id body [] = ⊥
Has id body (x ∷ xs) = ((x.0 ≡ id) × (x.1 ≡ body)) ⊎ Has id body xs

-- A body that is stored for an email.
abbrev pub IsStored : ℕ → ℕ → Store → Type 0
IsStored id body s = (lookup id s.firsts ≡ some body) ⊎ Has id body s.later

-- The first entry of each email stays what it is, and every later entry stays.
abbrev pub Keeps : Store → Store → Type 0
Keeps s t =
    ((id body : ℕ) → lookup id s.firsts ≡ some body → lookup id t.firsts ≡ some body)
    × ((id body : ℕ) → Has id body s.later → Has id body t.later)

Keeps-refl : (s : Store) → Keeps s s
Keeps-refl s = (λ id body h. h, λ id body h. h)

Keeps-trans : (s t u : Store) → Keeps s t → Keeps t u → Keeps s u
Keeps-trans s t u f g =
    (λ id body h. g.0 id body (f.0 id body h), λ id body h. g.1 id body (f.1 id body h))

add_later-Keeps : (id body : ℕ) (s : Store) → Keeps s (add_later id body s)
add_later-Keeps id body s = (λ j b h. h, λ j b h. inr h)

add_first-Keeps : (id body : ℕ) (s : Store) → is_there id s ≡ false → Keeps s (add_first id body s)
add_first-Keeps id body s e =
    (λ j b h. ground (arith, e, h, lookup-insert id j body s.firsts), λ j b h. h)

there-Keeps : (id : ℕ) (s t : Store) → Keeps s t → is_there id s ≡ true → is_there id t ≡ true
there-Keeps id s t k = by (lookup id s.firsts) refl
  where
    by :
        (o : Option ℕ)
        → lookup id s.firsts ≡ o
        → elim o [ some body ↦ true | none ↦ false ] ≡ true
        → is_there id t ≡ true
    by none e h = cc
    by (some body) e h = ground (arith, k.0 id body e)

abbrev pub answered : Put → Bool
answered stored = true
answered _ = false

-- A call of the storage fails.
abbrev pub Fails : Reply → Type 0
Fails r = (answered r.first ≡ false) ⊎ (r.head ≡ false) ⊎ (answered r.second ≡ false)

-- A call that keeps the entries, and stores this one or throws, for a reason.
abbrev pub Saves : Type 0 → ℕ → ℕ → Store → Bool × Store → Type 0
Saves Why id body s x =
    Keeps s x.1 × (((x.0 ≡ false) × Why) ⊎ ((x.0 ≡ true) × IsStored id body x.1))

-- Why the first `put` throws.
abbrev Taken : Reply → ℕ → Store → Type 0
Taken r id s = (is_there id s ≡ true) ⊎ Fails r

put_first-Saves :
    (r : Reply) (t : Bool) (p : Put) (id body : ℕ) (s : Store)
    → is_there id s ≡ t
    → r.first ≡ p
    → Saves (Taken r id s) id body s (put_first t p id body s)
unfolding put_first
put_first-Saves r true p id body s e f = (Keeps-refl s, inl (refl, inl e))
put_first-Saves r false stored id body s e f =
    (add_first-Keeps id body s e, inr (refl, inl (lookup-insert_self id body s.firsts)))
put_first-Saves r false unheard id body s e f =
    (add_first-Keeps id body s e, inl (refl, inr (inl (rw f refl))))
put_first-Saves r false not_stored id body s e f = (Keeps-refl s, inl (refl, inr (inl (rw f refl))))

put_later-Saves :
    (r : Reply) (p : Put) (id body : ℕ) (s : Store)
    → r.second ≡ p
    → Saves (Fails r) id body s (put_later p id body s)
unfolding put_later
put_later-Saves r stored id body s f =
    (add_later-Keeps id body s, inr (refl, inr (inl (refl, refl))))
put_later-Saves r unheard id body s f =
    (add_later-Keeps id body s, inl (refl, inr (inr (rw f refl))))
put_later-Saves r not_stored id body s f = (Keeps-refl s, inl (refl, inr (inr (rw f refl))))

Saves-after :
    (Why : Type 0) (id body : ℕ) (s t : Store) (x : Bool × Store)
    → Keeps s t
    → Saves Why id body t x
    → Saves Why id body s x
Saves-after Why id body s t x k h = (Keeps-trans s t x.1 k h.0, h.1)

put_beside-Saves :
    (r : Reply) (id body : ℕ) (s : Store)
    → Keeps s (r.before_second s)
    → Taken r id s
    → Saves (Fails r) id body s (put_beside r id body s)
unfolding put_beside
put_beside-Saves r id body s k w =
    if_ind (Saves (Fails r) id body s) (r.head && is_there id s) _ (false, s)
      (λ e.
        Saves-after (Fails r) id body s _ _ k
          (put_later-Saves r r.second id body (r.before_second s) refl))
      (λ e. (Keeps-refl s, inl (refl, why w e)))
  where
    why : Taken r id s → (r.head && is_there id s) ≡ false → Fails r
    why (inl t) e = inr (inl (ground (arith, t, e)))
    why (inr f) e = f

after_first-Saves :
    (r : Reply) (id body : ℕ) (s : Store) (x : Bool × Store)
    → ((t : Store) → Keeps t (r.before_head t))
    → ((t : Store) → Keeps t (r.before_second t))
    → Saves (Taken r id s) id body s x
    → Saves (Fails r) id body s (after_first r id body x)
unfolding after_first
after_first-Saves r id body s (true, t) f g (k, inl h) = cc
after_first-Saves r id body s (true, t) f g (k, inr h) = (k, inr h)
after_first-Saves r id body s (false, t) f g (k, inl (h, inl w)) =
    let kept = Keeps-trans s t (r.before_head t) k (f t) in
    Saves-after (Fails r) id body s (r.before_head t) _ kept (
      put_beside-Saves r id body (r.before_head t) (g (r.before_head t))
        (inl (there-Keeps id s (r.before_head t) kept w)))
after_first-Saves r id body s (false, t) f g (k, inl (h, inr w)) =
    Saves-after (Fails r) id body s (r.before_head t) _ (Keeps-trans s t (r.before_head t) k (f t))
      (put_beside-Saves r id body (r.before_head t) (g (r.before_head t)) (inr w))
after_first-Saves r id body s (false, t) f g (k, inr h) = cc

-- When the other requests between its calls keep what is stored, so does `saveEntry`, whichever of its calls
-- fail: the first entry of each email stays what it is and no later entry is lost. It stores its own entry, as
-- the first of its email or beside it, or it throws because a call of the storage failed.
pub save_entry-Saves :
    (r : Reply) (id body : ℕ) (s : Store)
    → ((t : Store) → Keeps t (r.before_head t))
    → ((t : Store) → Keeps t (r.before_second t))
    → Saves (Fails r) id body s (save_entry r id body s)
unfolding save_entry
save_entry-Saves r id body s f g =
    after_first-Saves r id body s _ f g
      (put_first-Saves r (is_there id s) r.first id body s refl refl)
