-- ===== src/KeyRotation/Tests.antt =====
-- A kill switch over a lock that fails, and a rotation.
use fandos.Prelude.{◌≡◌, Bool, true, false, none, some, List, [], ◌∷◌, ◌&&◌}
use fandos.Lifecycle.Halter.{LockControl, Texts, new_halter, halt}
use fandos.KeyRotation.{
  KeyEnv, Keys, kill_switch, kill_switch_action, planned_rotation, to_revoke, record_event,
  revoked_count,
}
use fandos.KeyRotation.Laws.{
  Operation, kill, rotate, operations, IsLogged, has_no_errors, is_none, kill_switch-halted,
  operations-IsLogged,
}

abbrev failing_lock : LockControl Bool
failing_lock = record {
  engage = λ reason db. (db, some "database is down");
  release = λ db. (db, some "database is down");
  is_engaged = λ db. (db, none);
}

abbrev texts : Texts
texts = record {
  engaged = λ reason. reason;
  persist_failed = λ reason. reason;
  safe_halt = λ reason. reason;
}

abbrev answers : KeyEnv
answers = record {
  revoke_all_answer = λ t. (2, none);
  revoke_answer = λ t. none;
  record_answer = λ t. none;
}

abbrev keys : Keys Bool
keys = record {
  system = record { halter = new_halter false false; db = false; outputs = [] };
  asked = [];
}

kill_switch-halted_example :
    let (k', errs) = kill_switch failing_lock texts answers "owner" "leak" keys in
    let t = to_revoke failing_lock texts answers "leak" keys.asked in
    let u =
      record_event kill_switch_action none "owner" (revoked_count (answers.revoke_all_answer t).0)
      ∷ t in
    (k'.system.halter.halted ≡ true)
    × (k'.asked ≡ u)
    × (has_no_errors errs
        ≡ is_none (halt failing_lock texts "leak" keys.system).1
          && is_none (answers.revoke_all_answer t).1
          && is_none (answers.record_answer u))
kill_switch-halted_example = kill_switch-halted failing_lock texts answers "owner" "leak" keys

abbrev two_operations : List Operation
two_operations = rotate "owner" "gate" "TRADE" planned_rotation 7 ∷ kill "owner" "leak" ∷ []

operations-IsLogged_example :
    IsLogged failing_lock texts answers (operations failing_lock texts answers two_operations keys)
operations-IsLogged_example = operations-IsLogged failing_lock texts answers two_operations keys tt
