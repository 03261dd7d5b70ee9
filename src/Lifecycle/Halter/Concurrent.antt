-- ===== src/Lifecycle/Halter/Concurrent.antt =====
-- The steps of any number of calls of `Halt`, `Resume` and `RestoreFromDB` in any order: the mutex of
-- the halter makes each write of the flag one step, and the database each of its calls.
use fandos.Prelude.{
  ℕ, ◌+◌, ◌-◌, String, ◌≡◌, refl, sym, Bool, true, false, not, ◌&&◌, Option, none, some, ◌⊎◌, inl,
  inr, List, [], ◌∷◌, arith, if◌then◌else◌, if-both, ltb,
}
use fandos.Lifecycle.Halter.{
  LockControl, System, Texts, mark_halted, persist_halt, release_lock, clear_halted, store_flag,
}
use fandos.Lifecycle.Halter.Laws.{Reliable, after_engage-halted}

-- The system, with the calls that are between their two steps: halts, resumptions behind the release
-- of the lock, and restorations by what they have read.
pub record Shared (Db : Type 0) : Type 0 where
  pub system : System Db
  pub halting : ℕ
  pub clearing : ℕ
  pub found_engaged : ℕ
  pub found_released : ℕ

pub data Step : Type 0 where
  start_halt finish_halt : String → Step
  start_resume finish_resume start_restore : Step
  finish_restore : Bool → Step

module _ {Db : Type 0} (locks : LockControl Db) (texts : Texts) where
  -- An error of the release ends the call.
  abbrev pub after_start : Shared Db → System Db × Option String → Shared Db
  after_start c (s, none) = record c { system = s; clearing = c.clearing + 1 }
  after_start c (s, some e) = record c { system = s }

  -- An error of the reading ends the call.
  abbrev pub after_found : Shared Db → Bool × Option String → Shared Db
  after_found c (true, none) = record c { found_engaged = c.found_engaged + 1 }
  after_found c (false, none) = record c { found_released = c.found_released + 1 }
  after_found c (engaged, some e) = c

  -- A second step needs a call that is between its steps; else nothing happens.
  unfoldable pub step : Step → Shared Db → Shared Db
  step (start_halt reason) c = record c {
    system = mark_halted locks texts reason c.system;
    halting = c.halting + 1;
  }
  step (finish_halt reason) c =
      if ltb 0 c.halting
      then record c {
        system = (persist_halt locks texts reason c.system).0;
        halting = c.halting - 1;
      }
      else c
  step start_resume c = after_start c (release_lock locks texts c.system)
  step finish_resume c =
      if ltb 0 c.clearing
      then record c { system = clear_halted locks texts c.system; clearing = c.clearing - 1 }
      else c
  step start_restore c = after_found c (locks.is_engaged c.system.db)
  step (finish_restore true) c =
      if ltb 0 c.found_engaged
      then record c {
        system = store_flag locks texts true c.system;
        found_engaged = c.found_engaged - 1;
      }
      else c
  step (finish_restore false) c =
      if ltb 0 c.found_released
      then record c {
        system = store_flag locks texts false c.system;
        found_released = c.found_released - 1;
      }
      else c

  unfoldable pub steps : List Step → Shared Db → Shared Db
  unfolding step
  steps [] c = c
  steps (x ∷ xs) c = steps xs (step x c)

  -- A step that starts no halt while a resumption or a restoration may still clear the flag, and no
  -- resumption or restoration while a halt has yet to engage the lock.
  unfoldable pub is_apart : Step → Shared Db → Bool
  is_apart (start_halt reason) c = not (ltb 0 c.clearing) && not (ltb 0 c.found_released)
  is_apart start_resume c = not (ltb 0 c.halting)
  is_apart start_restore c = not (ltb 0 c.halting)
  is_apart _ c = true

  unfoldable pub are_apart : List Step → Shared Db → Bool
  unfolding is_apart
  are_apart [] c = true
  are_apart (x ∷ xs) c = let rest = are_apart xs (step x c) in is_apart x c && rest

  module _ (engaged : Db → Bool) where
    -- The flag in memory is at least as strict as the lock in the database, and what the calls between
    -- their steps are about to do keeps it so.
    pub record IsSafe (c : Shared Db) : Type 0 where
      pub strict : (c.system.halter.halted ≡ true) ⊎ (engaged c.system.db ≡ false)
      pub halts : (c.halting ≡ 0) ⊎ (c.system.halter.halted ≡ true)
      pub clears : (c.clearing ≡ 0) ⊎ (engaged c.system.db ≡ false)
      pub stores : (c.found_released ≡ 0) ⊎ (engaged c.system.db ≡ false)
      pub apart : (c.halting ≡ 0) ⊎ ((c.clearing ≡ 0) × (c.found_released ≡ 0))

    module _ (reliable : Reliable locks engaged) where
      start_halt-IsSafe :
          (reason : String) (c : Shared Db)
          → is_apart (start_halt reason) c ≡ true
          → IsSafe c
          → IsSafe (step (start_halt reason) c)
      unfolding is_apart step
      start_halt-IsSafe reason c h s = record {
        strict = inl refl;
        halts = inr refl;
        clears = s.clears;
        stores = s.stores;
        apart = inr (ground arith);
      }

      finish_halt-IsSafe :
          (reason : String) (c : Shared Db) → IsSafe c → IsSafe (step (finish_halt reason) c)
      unfolding step
      finish_halt-IsSafe reason c s =
          if-both IsSafe (ltb 0 c.halting)
            (λ e.
              let still : (persist_halt locks texts reason c.system).0.halter.halted ≡ true =
                after_engage-halted locks texts c.system (locks.engage reason c.system.db)
                  (ground (arith, s.halts)) in
              record {
                strict = inl still;
                halts = inr still;
                clears = inl (ground (arith, s.apart));
                stores = inl (ground (arith, s.apart));
                apart = inr (ground (arith, s.apart));
              })
            (λ e. s)

      weaken :
          {P : Type 0} (x y : Db)
          → (engaged x ≡ false → engaged y ≡ false)
          → P ⊎ (engaged x ≡ false)
          → P ⊎ (engaged y ≡ false)
      weaken x y keep (inl p) = inl p
      weaken x y keep (inr h) = inr (keep h)

      released-IsSafe :
          (c : Shared Db) (a : Db × Option String)
          → (a.1 ≡ none → engaged a.0 ≡ false)
          → (engaged c.system.db ≡ false → engaged a.0 ≡ false)
          → c.halting ≡ 0
          → IsSafe c
          → IsSafe (after_start c (record c.system { db = a.0 }, a.1))
      released-IsSafe c (db, none) ok keep idle s = record {
        strict = inr (ok refl);
        halts = inl idle;
        clears = inr (ok refl);
        stores = inr (ok refl);
        apart = inl idle;
      }
      released-IsSafe c (db, some e) ok keep idle s = record {
        strict = weaken c.system.db db keep s.strict;
        halts = s.halts;
        clears = weaken c.system.db db keep s.clears;
        stores = weaken c.system.db db keep s.stores;
        apart = s.apart;
      }

      start_resume-IsSafe :
          (c : Shared Db) → is_apart start_resume c ≡ true → IsSafe c → IsSafe (step start_resume c)
      unfolding is_apart step
      start_resume-IsSafe c h s =
          let db = c.system.db in
          released-IsSafe c (locks.release db) (reliable.releases db) (reliable.keeps db)
            (ground arith) s

      finish_resume-IsSafe : (c : Shared Db) → IsSafe c → IsSafe (step finish_resume c)
      unfolding step
      finish_resume-IsSafe c s =
          if-both IsSafe (ltb 0 c.clearing)
            (λ e. record {
              strict = inr (ground (arith, s.clears));
              halts = inl (ground (arith, s.apart));
              clears = inr (ground (arith, s.clears));
              stores = s.stores;
              apart = inl (ground (arith, s.apart));
            })
            (λ e. s)

      found-IsSafe :
          (c : Shared Db) (a : Bool × Option String)
          → (a.1 ≡ none → a.0 ≡ engaged c.system.db)
          → c.halting ≡ 0
          → IsSafe c
          → IsSafe (after_found c a)
      found-IsSafe c (true, none) truth idle s = record {
        strict = s.strict;
        halts = s.halts;
        clears = s.clears;
        stores = s.stores;
        apart = s.apart;
      }
      found-IsSafe c (false, none) truth idle s = record {
        strict = s.strict;
        halts = s.halts;
        clears = s.clears;
        stores = inr (sym (truth refl));
        apart = inl idle;
      }
      found-IsSafe c (b, some e) truth idle s = s

      start_restore-IsSafe :
          (c : Shared Db)
          → is_apart start_restore c ≡ true
          → IsSafe c
          → IsSafe (step start_restore c)
      unfolding is_apart step
      start_restore-IsSafe c h s =
          found-IsSafe c (locks.is_engaged c.system.db) (reliable.reads c.system.db) (ground arith)
            s

      finish_restore-IsSafe :
          (b : Bool) (c : Shared Db) → IsSafe c → IsSafe (step (finish_restore b) c)
      unfolding step
      finish_restore-IsSafe true c s =
          if-both IsSafe (ltb 0 c.found_engaged)
            (λ e. record {
              strict = inl refl;
              halts = inr refl;
              clears = s.clears;
              stores = s.stores;
              apart = s.apart;
            })
            (λ e. s)
      finish_restore-IsSafe false c s =
          if-both IsSafe (ltb 0 c.found_released)
            (λ e. record {
              strict = inr (ground (arith, s.stores));
              halts = inl (ground (arith, s.apart));
              clears = s.clears;
              stores = inr (ground (arith, s.stores));
              apart = inl (ground (arith, s.apart));
            })
            (λ e. s)

      step-IsSafe : (x : Step) (c : Shared Db) → is_apart x c ≡ true → IsSafe c → IsSafe (step x c)
      step-IsSafe (start_halt reason) c h s = start_halt-IsSafe reason c h s
      step-IsSafe (finish_halt reason) c h s = finish_halt-IsSafe reason c s
      step-IsSafe start_resume c h s = start_resume-IsSafe c h s
      step-IsSafe finish_resume c h s = finish_resume-IsSafe c s
      step-IsSafe start_restore c h s = start_restore-IsSafe c h s
      step-IsSafe (finish_restore b) c h s = finish_restore-IsSafe b c s

      -- From a safe state, over the steps of any number of halts, resumptions and restorations in any
      -- order, with a database that may fail at any call, the flag in memory stays at least as strict as
      -- the lock: where the process does not count as halted, the lock of the database is not engaged.
      -- This holds where no halt starts while a resumption has yet to clear the flag or a restoration that
      -- has read a released lock has yet to store it, and no resumption or restoration starts while a halt
      -- has yet to engage the lock.
      pub steps-IsSafe :
          (xs : List Step) (c : Shared Db) → are_apart xs c ≡ true → IsSafe c → IsSafe (steps xs c)
      unfolding steps are_apart
      steps-IsSafe [] c h s = s
      steps-IsSafe (x ∷ xs) c h s =
          steps-IsSafe xs (step x c) (ground arith) (step-IsSafe x c (ground arith) s)
