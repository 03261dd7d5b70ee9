-- ===== src/KeyRotation.antt =====
-- fandos1/internal/keyrotation/keyrotation.go, over the halter of Lifecycle. What is asked of the
-- halter, the revoker and the log is a list, newest first, and the revoker and the log answer by it.
pub mod Laws
mod Tests
use fandos.Prelude.{
  ℕ, String, ◌≡◌, Bool, true, false, Option, none, some, List, [], ◌∷◌, ◌++◌, if◌then◌else◌,
}
use fandos.Lifecycle.Halter.{LockControl, System, Texts, halt}

pub data Action : Type 0 where
  planned_rotation emergency_rotation kill_switch_action : Action

pub data Details : Type 0 where
  revoked_count : ℕ → Details
  credential : String → String → Details

pub data KeyCall : Type 0 where
  halting : String → KeyCall
  revoke_all : KeyCall
  revoke : String → String → KeyCall
  -- Action, credential id, initiator, details.
  record_event : Action → Option ℕ → String → Details → KeyCall

pub data KeyError : Type 0 where
  engage_failed : String → KeyError
  revoke_all_failed : ℕ → String → KeyError
  use_kill_switch : KeyError
  revoke_failed : String → KeyError
  record_failed : String → KeyError

pub record KeyEnv : Type 0 where
  -- How many were revoked, and the error.
  pub revoke_all_answer : List KeyCall → ℕ × Option String
  pub revoke_answer : List KeyCall → Option String
  pub record_answer : List KeyCall → Option String

pub record Keys (Db : Type 0) : Type 0 where
  pub system : System Db
  pub asked : List KeyCall

abbrev pub is_kill_switch : Action → Bool
is_kill_switch kill_switch_action = true
is_kill_switch _ = false

-- `if err != nil { errs = append(errs, ...) }`.
abbrev pub report : (String → KeyError) → Option String → List KeyError
report f none = []
report f (some e) = f e ∷ []

module _ {Db : Type 0} (locks : LockControl Db) (texts : Texts) (env : KeyEnv) where
  -- What the kill switch asks for, newest first.
  abbrev pub to_revoke : String → List KeyCall → List KeyCall
  to_revoke reason t = revoke_all ∷ halting reason ∷ t

  abbrev pub to_record : String → String → List KeyCall → List KeyCall
  to_record initiator reason t =
      let t' = to_revoke reason t in
      record_event kill_switch_action none initiator (revoked_count (env.revoke_all_answer t').0)
      ∷ t'

  unfoldable pub kill_switch : String → String → Keys Db → Keys Db × List KeyError
  kill_switch initiator reason k =
      let (s, e) = halt locks texts reason k.system in
      let (revoked, f) = env.revoke_all_answer (to_revoke reason k.asked) in
      let t = to_record initiator reason k.asked in
      (
        record { system = s; asked = t },
        report engage_failed e
            ++ report (revoke_all_failed revoked) f
            ++ report record_failed (env.record_answer t),
      )

  -- The event that `RotateKey` records, behind the revocation.
  unfoldable pub rotate_key :
      String → String → String → Action → ℕ → Keys Db → Keys Db × Option KeyError
  rotate_key initiator exchange kind action credential_id k =
      let t = revoke exchange kind ∷ k.asked in
      let t' = record_event action (some credential_id) initiator (credential exchange kind) ∷ t in
      if is_kill_switch action then (k, some use_kill_switch) else elim (env.revoke_answer t) [
        | some e ↦ (record k { asked = t }, some (revoke_failed e))
        | none ↦ (
          record k { asked = t' },
          elim (env.record_answer t') [ none ↦ none | some e ↦ some (record_failed e) ],
        )
      ]
