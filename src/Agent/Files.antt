-- ===== src/Agent/Files.antt =====
-- The state file of agent/src/state.ts and of sdk/src/runner.ts: what a crash leaves on disk, and what
-- a start makes of it. `parsed` is the library's `JSON.parse`: `none` where it throws.
pub mod Crash
use collateralized_agents.Base.{ℕ, zero, suc, Bool, true, false, Option, none, some, List, [], ◌∷◌}

-- The files beside one another: the state, its backup, the temporary file, and those moved aside.
pub record Folder (A : Type 0) : Type 0 where
  pub file : Option A
  pub backup : Option A
  pub temporary : Option A
  pub aside : List A

-- The calls of `writeAtomic`, each of which a crash may be the last to reach. The temporary file is
-- opened, so emptied, and then holds the data; the file, if there is one, is copied over the backup,
-- which a crash may leave half written; then the temporary file is renamed.
pub data WriteStep : Type 0 where
  opens writes starts_copy copies renames : WriteStep

abbrev pub write_steps : List WriteStep
write_steps = opens ∷ writes ∷ starts_copy ∷ copies ∷ renames ∷ []

module _ {A : Type 0} where
  abbrev pub over : A → Option A → Option A → Option A
  over d none old = old
  over d (some c) old = some d

  abbrev pub copied : Option A → Option A → Option A
  copied none old = old
  copied (some d) old = some d

  -- `partly` is what a file holds while it is written.
  unfoldable pub write_step : A → A → WriteStep → Folder A → Folder A
  write_step partly written opens f = record f { temporary = some partly }
  write_step partly written writes f = record f { temporary = some written }
  write_step partly written starts_copy f = record f { backup = over partly f.file f.backup }
  write_step partly written copies f = record f { backup = copied f.file f.backup }
  write_step partly written renames f = record f { file = f.temporary; temporary = none }

  -- The first `n` of the calls.
  unfoldable pub write_until : A → A → ℕ → List WriteStep → Folder A → Folder A
  write_until partly written zero cs f = f
  write_until partly written (suc n) [] f = f
  write_until partly written (suc n) (c ∷ cs) f =
      write_until partly written n cs (write_step partly written c f)

  unfoldable pub write_atomic : A → A → Folder A → Folder A
  write_atomic partly written f = write_until partly written 5 write_steps f

-- What was loaded, and whether from the backup.
pub record Loaded (S : Type 0) : Type 0 where
  pub state : S
  pub from_backup : Bool

module _ {A S : Type 0} (parsed : A → Option S) (empty : S) where
  unfoldable pub load_backup : Option A → Loaded S
  load_backup none = record { state = empty; from_backup = false }
  load_backup (some d) = elim (parsed d) [
    | none ↦ record { state = empty; from_backup = false }
    | some s ↦ record { state = s; from_backup = true }
  ]

  abbrev pub moved_aside : A → Folder A → Folder A
  moved_aside d f = record f { file = none; aside = d ∷ f.aside }

  unfoldable pub load_parsed : A → Option S → Folder A → Loaded S × Folder A
  load_parsed d none f = (load_backup f.backup, moved_aside d f)
  load_parsed d (some s) f = (record { state = s; from_backup = false }, f)

  -- `loadStateFrom`
  unfoldable pub load_state_from : Option A → Folder A → Loaded S × Folder A
  load_state_from none f = (record { state = empty; from_backup = false }, f)
  load_state_from (some d) f = load_parsed d (parsed d) f
