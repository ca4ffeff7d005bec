-- ===== src/Agent/Files/Crash.antt =====
-- Starts of agent/src/state.ts after a crash during a save, and on a damaged file.
use collateralized_agents.Base.{
  ℕ, zero, suc, ◌≡◌, refl, sym, ap, ◌∙◌, subst, Bool, ltb, if◌then◌else◌, true, false, Option, none,
  some, ◌∷◌, arith,
}
use collateralized_agents.Agent.Files.{
  Folder, write_steps, write_step, write_until, write_atomic, over, copied, Loaded, load_backup,
  load_parsed, load_state_from,
}

module _ {A S : Type 0} (parsed : A → Option S) (empty : S) where
  abbrev pub restart : Folder A → Loaded S
  restart f = (load_state_from parsed empty f.file f).0

  abbrev pub loaded : Bool → S → Loaded S
  loaded from_backup s = record { state = s; from_backup = from_backup }

  finds :
      (d : A) (s : S) (f : Folder A)
      → f.file ≡ some d
      → parsed d ≡ some s
      → restart f ≡ loaded false s
  unfolding load_state_from load_parsed
  finds d s f p q =
      subst (λ o. (load_state_from parsed empty o f).0 ≡ loaded false s) (sym p)
        (ap (λ x. (load_parsed parsed empty d x f).0) q)

  takes_backup :
      (junk d : A) (s : S) (f : Folder A)
      → f.file ≡ some junk
      → parsed junk ≡ none
      → f.backup ≡ some d
      → parsed d ≡ some s
      → (restart f ≡ loaded true s)
        × ((load_state_from parsed empty f.file f).1.aside ≡ junk ∷ f.aside)
  unfolding load_state_from load_parsed load_backup
  takes_backup junk d s f p n b q =
      subst
        (λ o.
          ((load_state_from parsed empty o f).0 ≡ loaded true s)
          × ((load_state_from parsed empty o f).1.aside ≡ junk ∷ f.aside))
        (sym p)
        (subst
          (λ x.
            ((load_parsed parsed empty junk x f).0 ≡ loaded true s)
            × ((load_parsed parsed empty junk x f).1.aside ≡ junk ∷ f.aside))
          (sym n)
          (
            subst (λ o. load_backup parsed empty o ≡ loaded true s) (sym b) (rw (load_backup, q)),
            refl,
          ))

  module _ (partly written old : A) (before after : S) (f : Folder A) (p : f.file ≡ some old)
      (q : parsed old ≡ some before) (r : parsed written ≡ some after) where
    late : (n : ℕ) → ltb (suc (suc (suc (suc (suc (suc n)))))) 5 ≡ false
    late n = ground arith

    -- A start after a crash in a save finds the state before the save while fewer than its five calls
    -- were made, and then the state that was saved, and never takes the backup. The file parsed
    -- before and what was saved parses; what half-written files hold does not matter.
    pub crash_lem :
        (n : ℕ)
        → restart (write_until partly written n write_steps f)
          ≡ (if ltb n 5 then loaded false before else loaded false after)
    unfolding write_until write_step
    crash_lem zero = finds old before f p q
    crash_lem (suc zero) = finds old before _ p q
    crash_lem (suc (suc zero)) = finds old before _ p q
    crash_lem (suc (suc (suc zero))) = finds old before _ p q
    crash_lem (suc (suc (suc (suc zero)))) = finds old before _ p q
    crash_lem (suc (suc (suc (suc (suc zero))))) = finds written after _ refl r
    crash_lem (suc (suc (suc (suc (suc (suc n)))))) =
        finds written after _ refl r
        ∙ sym (ap (λ b. if b then loaded false before else loaded false after) (late n))

    -- A file that is damaged after a save is moved aside, and the start takes the state from before
    -- that save out of the backup, and says so.
    pub damaged_lem :
        (junk : A) (g : Folder A)
        → parsed junk ≡ none
        → g ≡ record (write_atomic partly written f) { file = some junk }
        → (restart g ≡ loaded true before)
          × ((load_state_from parsed empty g.file g).1.aside ≡ junk ∷ f.aside)
    unfolding write_atomic write_until write_step
    damaged_lem junk g h e =
        subst
          (λ g.
            (restart g ≡ loaded true before)
            × ((load_state_from parsed empty g.file g).1.aside ≡ junk ∷ f.aside))
          (sym e)
          (takes_backup junk old before
            (record (write_atomic partly written f) { file = some junk }) refl h
            (subst (λ o. copied o (over partly o f.backup) ≡ some old) (sym p) refl) q)
