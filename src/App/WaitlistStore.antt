-- ===== src/App/WaitlistStore.antt =====
-- `saveEntry` of app/lib/waitlistStore.ts. An email's id is a number, and so is the encrypted
-- text of an entry; the path of a later entry has its own random id, so no other entry is stored there.
pub mod Saved
pub mod Loading
pub mod Complete
use collateralized_agents.Base.{
  ℕ, zero, suc, ◌+◌, Bool, true, false, ◌&&◌, Option, none, some, List, ◌∷◌, Dict, lookup, insert,
  if◌then◌else◌,
}

-- The files of the by-email folder: the first of each email, and the later ones.
pub record Store : Type 0 where
  pub firsts : Dict ℕ
  pub later : List (ℕ × ℕ)

-- What becomes of a `put` to a path that is free: its file is stored, or is stored though the answer is lost,
-- or is not stored and the call throws.
pub data Put : Type 0 where
  stored unheard not_stored : Put

abbrev pub is_there : ℕ → Store → Bool
is_there id s = elim (lookup id s.firsts) [ some body ↦ true | none ↦ false ]

abbrev pub add_first : ℕ → ℕ → Store → Store
add_first id body s = record s { firsts = insert id body s.firsts }

abbrev pub add_later : ℕ → ℕ → Store → Store
add_later id body s = record s { later = (id, body) ∷ s.later }

-- `put` with `allowOverwrite: false`: whether it returned, and the store.
unfoldable pub put_first : Bool → Put → ℕ → ℕ → Store → Bool × Store
put_first true p id body s = (false, s)
put_first false stored id body s = (true, add_first id body s)
put_first false unheard id body s = (false, add_first id body s)
put_first false not_stored id body s = (false, s)

unfoldable pub put_later : Put → ℕ → ℕ → Store → Bool × Store
put_later stored id body s = (true, add_later id body s)
put_later unheard id body s = (false, add_later id body s)
put_later not_stored id body s = (false, s)

-- What the storage answers to one call of `saveEntry`, and what the other requests do between its calls:
-- before `head`, and before the second `put`.
pub record Reply : Type 0 where
  pub first : Put
  pub head : Bool
  pub second : Put
  pub before_head : Store → Store
  pub before_second : Store → Store

-- The `catch`: `head` throws for a path that is free, and may throw for any.
unfoldable pub put_beside : Reply → ℕ → ℕ → Store → Bool × Store
put_beside r id body s =
    if r.head && is_there id s then put_later r.second id body (r.before_second s) else (false, s)

unfoldable pub after_first : Reply → ℕ → ℕ → Bool × Store → Bool × Store
after_first r id body (true, s) = (true, s)
after_first r id body (false, s) = put_beside r id body (r.before_head s)

-- `saveEntry`: whether it returned, and the store.
unfoldable pub save_entry : Reply → ℕ → ℕ → Store → Bool × Store
save_entry r id body s = after_first r id body (put_first (is_there id s) r.first id body s)
