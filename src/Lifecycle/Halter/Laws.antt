-- ===== src/Lifecycle/Halter/Laws.antt =====
-- SAFE_HALT over failures of the database and restarts.
use fandos.Prelude.{String, ◌≡◌, refl, Bool, true, false, Option, none, some, arith}
use fandos.Lifecycle.Halter.{
  LockControl, System, Texts, new_halter, after_engage, after_read, mark_halted, restart, halt,
  restore_from_db,
}

-- What the code relies on of the lock: a call without an error has had its effect, and a read without
-- an error tells the truth. A call with an error may have had its effect or not.
pub record Reliable {Db : Type 0} (locks : LockControl Db) (engaged : Db → Bool) : Type 0 where
  pub engages :
      (reason : String) (db : Db)
      → (locks.engage reason db).1 ≡ none
      → engaged (locks.engage reason db).0 ≡ true
  pub releases : (db : Db) → (locks.release db).1 ≡ none → engaged (locks.release db).0 ≡ false
  pub keeps : (db : Db) → engaged db ≡ false → engaged (locks.release db).0 ≡ false
  pub reads : (db : Db) → (locks.is_engaged db).1 ≡ none → (locks.is_engaged db).0 ≡ engaged db

module _ {Db : Type 0} (locks : LockControl Db) (texts : Texts) where
  pub after_engage-halted :
      (s : System Db) (a : Db × Option String)
      → s.halter.halted ≡ true
      → (after_engage locks texts s a).0.halter.halted ≡ true
  after_engage-halted s (db, none) h = h
  after_engage-halted s (db, some e) h = h

  -- Halting stops trading in memory whatever the database answers.
  pub halt-halted :
      (reason : String) (s : System Db) → (halt locks texts reason s).0.halter.halted ≡ true
  unfolding halt
  halt-halted reason s =
      after_engage-halted (mark_halted locks texts reason s) (locks.engage reason s.db) refl

  module _ (engaged : Db → Bool) (reliable : Reliable locks engaged) where
    engaged_after :
        (s : System Db) (a : Db × Option String)
        → (a.1 ≡ none → engaged a.0 ≡ true)
        → (after_engage locks texts s a).1 ≡ none
        → engaged (after_engage locks texts s a).0.db ≡ true
    engaged_after s (db, none) ok h = ok refl
    engaged_after s (db, some e) ok h = cc

    restarted :
        (s : System Db) (a : Bool × Option String)
        → (a.1 ≡ none → a.0 ≡ engaged s.db)
        → engaged s.db ≡ true
        → (after_read locks texts s a).1 ≡ none
        → (after_read locks texts s a).0.halter.halted ≡ true
    restarted s (b, none) truth h e = ground arith
    restarted s (b, some x) truth h e = cc

    -- A halt that was persisted survives a restart: a new halter that restores its state from the
    -- database, without an error on either side, is halted.
    pub halt_survives_restart :
        (reason : String) (s : System Db) (notifier side_log : Bool)
        → (halt locks texts reason s).1 ≡ none
        → (restart locks texts notifier side_log (halt locks texts reason s).0).1 ≡ none
        → (restart locks texts notifier side_log (halt locks texts reason s).0).0.halter.halted
          ≡ true
    unfolding halt restore_from_db
    halt_survives_restart reason s notifier side_log e f =
        let after =
          (after_engage locks texts (mark_halted locks texts reason s)
            (locks.engage reason s.db)).0 in
        restarted (record after { halter = new_halter notifier side_log })
          (locks.is_engaged after.db) (reliable.reads after.db)
          (engaged_after (mark_halted locks texts reason s) (locks.engage reason s.db)
            (reliable.engages reason s.db) e)
          f
