-- ===== src/Lifecycle/Halter.antt =====
-- Preconditions and SAFE_HALT of fandos1/internal/lifecycle/lifecycle.go. The lock in the database,
-- `LockControl`, is a parameter over the type `Db` of its states; what goes to the side-channel file
-- and to the operator is a list, newest first. The mutex of the halter covers its flag only, not the
-- calls of the database, so that each operation is two atomic steps: `Halt` sets the flag and then
-- engages the lock, `Resume` releases the lock and then clears the flag, and `RestoreFromDB` reads the
-- lock and then stores what it has read. The operations are the steps one after the other; Concurrent
-- has the steps of several calls in any order.
pub mod Laws
pub mod Concurrent
use fandos.Prelude.{
  String, ◌≡◌, Bool, true, false, Option, none, some, List, [], ◌∷◌, if◌then◌else◌,
}

pub record LockControl (Db : Type 0) : Type 0 where
  pub engage : String → Db → Db × Option String
  pub release : Db → Db × Option String
  -- The lock, or the error of reading it.
  pub is_engaged : Db → Bool × Option String

pub data Output : Type 0 where
  side_line : String → Output
  notify : String → String → Output

pub record Halter : Type 0 where
  pub has_notifier : Bool
  pub has_side_log : Bool
  pub halted : Bool
  pub reason : String

-- The halter, the database, and what has been written.
pub record System (Db : Type 0) : Type 0 where
  pub halter : Halter
  pub db : Db
  pub outputs : List Output

pub record Precondition : Type 0 where
  pub name : String
  pub outcome : Option String

-- The errors of all checks, each with the name of its check.
unfoldable pub check_preconditions : List Precondition → List (String × String)
check_preconditions [] = []
check_preconditions (c ∷ cs) =
    let errs = check_preconditions cs in
    elim c.outcome [ none ↦ errs | some e ↦ (c.name, e) ∷ errs ]

abbrev pub new_halter : Bool → Bool → Halter
new_halter has_notifier has_side_log = record {
  has_notifier = has_notifier;
  has_side_log = has_side_log;
  halted = false;
  reason = "";
}

unfoldable pub is_halted : Halter → Bool × String
is_halted h = (h.halted, h.reason)

-- The text of an output that has the reason or the error in it.
pub record Texts : Type 0 where
  pub engaged : String → String
  pub persist_failed : String → String
  pub safe_halt : String → String

module _ {Db : Type 0} (locks : LockControl Db) (texts : Texts) where
  abbrev pub write_if : Bool → Output → List Output → List Output
  write_if b o os = if b then o ∷ os else os

  -- What follows the call of the database.
  abbrev pub after_engage : System Db → Db × Option String → System Db × Option String
  after_engage s (db, none) = (record s { db = db }, none)
  after_engage s (db, some e) = (
    record s {
      db = db;
      outputs = write_if s.halter.has_side_log (side_line (texts.persist_failed e)) s.outputs;
    },
    some e,
  )

  -- The first step of `Halt`, with what follows it in front of the call of the database: stopped in
  -- memory, and the operator told.
  abbrev pub mark_halted : String → System Db → System Db
  mark_halted reason s =
      let h = record s.halter { halted = true; reason = reason } in
      let logged = write_if h.has_side_log (side_line (texts.engaged reason)) s.outputs in
      record {
        halter = h;
        db = s.db;
        outputs = write_if h.has_notifier (notify "CRITICAL" (texts.safe_halt reason)) logged;
      }

  -- The second step of `Halt`.
  abbrev pub persist_halt : String → System Db → System Db × Option String
  persist_halt reason s = after_engage s (locks.engage reason s.db)

  unfoldable pub halt : String → System Db → System Db × Option String
  halt reason s = persist_halt reason (mark_halted reason s)

  -- The first step of `Resume`.
  abbrev pub release_lock : System Db → System Db × Option String
  release_lock s = let (db, e) = locks.release s.db in (record s { db = db }, e)

  -- The second step of `Resume`.
  abbrev pub clear_halted : System Db → System Db
  clear_halted s = record s {
    halter = record s.halter { halted = false; reason = "" };
    outputs = write_if s.halter.has_side_log (side_line "SAFE_HALT released") s.outputs;
  }

  abbrev pub after_release : System Db × Option String → System Db × Option String
  after_release (s, some e) = (s, some e)
  after_release (s, none) = (clear_halted s, none)

  unfoldable pub resume : System Db → System Db × Option String
  resume s = after_release (release_lock s)

  -- The second step of `RestoreFromDB`.
  abbrev pub store_flag : Bool → System Db → System Db
  store_flag engaged s = record s { halter = record s.halter { halted = engaged } }

  abbrev pub after_read : System Db → Bool × Option String → System Db × Option String
  after_read s (engaged, some e) = (s, some e)
  after_read s (engaged, none) = (store_flag engaged s, none)

  unfoldable pub restore_from_db : System Db → System Db × Option String
  restore_from_db s = after_read s (locks.is_engaged s.db)

  -- A new process, which starts with a new halter.
  abbrev pub restart : Bool → Bool → System Db → System Db × Option String
  restart notifier side_log s = restore_from_db (record s { halter = new_halter notifier side_log })
