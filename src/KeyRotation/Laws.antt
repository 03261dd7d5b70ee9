-- ===== src/KeyRotation/Laws.antt =====
-- The kill switch does all its steps, and the log keeps to the constraint of its table.
use fandos.Prelude.{
  ℕ, String, ◌≡◌, refl, Bool, true, false, ◌&&◌, Option, none, some, List, [], ◌∷◌, ◌++◌, All,
  Option-cases, inl, inr,
}
use fandos.Lifecycle.Halter.{LockControl, Texts, halt}
use fandos.Lifecycle.Halter.Laws.{halt-halted}
use fandos.KeyRotation.{
  Action, kill_switch_action, planned_rotation, emergency_rotation, KeyCall, revoke, record_event,
  revoked_count, KeyError, KeyEnv, Keys, report, to_revoke, kill_switch, rotate_key,
}

abbrev pub is_none {ℓ} : {A : Type ℓ} → Option A → Bool
is_none none = true
is_none (some a) = false

abbrev pub has_no_errors : List KeyError → Bool
has_no_errors [] = true
has_no_errors (e ∷ es) = false

-- The CHECK of `key_rotation_log`: the action is a kill switch, or there is a credential id.
abbrev pub is_allowed : KeyCall → Bool
is_allowed (record_event planned_rotation none initiator details) = false
is_allowed (record_event emergency_rotation none initiator details) = false
is_allowed _ = true

-- A kill switch names no credential.
abbrev pub is_unnamed : KeyCall → Bool
is_unnamed (record_event kill_switch_action id initiator details) = is_none id
is_unnamed _ = true

pub data Operation : Type 0 where
  kill : String → String → Operation
  rotate : String → String → String → Action → ℕ → Operation

reports :
    (f g h : String → KeyError) (a b c : Option String)
    → has_no_errors (report f a ++ report g b ++ report h c) ≡ is_none a && is_none b && is_none c
reports f g h none none none = refl
reports f g h none none (some c) = refl
reports f g h none (some b) c = refl
reports f g h (some a) b c = refl

module _ {Db : Type 0} (locks : LockControl Db) (texts : Texts) (env : KeyEnv) where
  -- Whatever the database, the revoker and the log answer, the kill switch leaves trading halted in
  -- memory; it asks for the halt, the revocation of all credentials and the log entry, once each and
  -- in this order; and it reports no error exactly when all three had none.
  pub kill_switch-halted :
      (initiator reason : String) (k : Keys Db)
      → let (k', errs) = kill_switch locks texts env initiator reason k in
        let t = to_revoke locks texts env reason k.asked in
        let u =
          record_event kill_switch_action none initiator (revoked_count (env.revoke_all_answer t).0)
          ∷ t in
        (k'.system.halter.halted ≡ true)
        × (k'.asked ≡ u)
        × (has_no_errors errs
            ≡ is_none (halt locks texts reason k.system).1
              && is_none (env.revoke_all_answer t).1
              && is_none (env.record_answer u))
  unfolding kill_switch
  kill_switch-halted initiator reason k =
      (halt-halted locks texts reason k.system, refl, reports _ _ _ _ _ _)

  unfoldable pub operate : Operation → Keys Db → Keys Db
  operate (kill initiator reason) k = (kill_switch locks texts env initiator reason k).0
  operate (rotate initiator exchange kind action id) k =
      (rotate_key locks texts env initiator exchange kind action id k).0

  unfoldable pub operations : List Operation → Keys Db → Keys Db
  operations [] k = k
  operations (o ∷ os) k = operations os (operate o k)

  abbrev pub IsLogged : Keys Db → Type 0
  IsLogged k = All (λ c. (is_allowed c ≡ true) × (is_unnamed c ≡ true)) k.asked

  operate-IsLogged : (o : Operation) (k : Keys Db) → IsLogged k → IsLogged (operate o k)
  unfolding operate kill_switch rotate_key
  operate-IsLogged (kill initiator reason) k h = ((refl, refl), ((refl, refl), ((refl, refl), h)))
  operate-IsLogged (rotate initiator exchange kind kill_switch_action id) k h = h
  operate-IsLogged (rotate initiator exchange kind planned_rotation id) k h =
      elim (Option-cases (env.revoke_answer (revoke exchange kind ∷ k.asked))) [
        | inl e ↦ rw e ((refl, refl), ((refl, refl), h))
        | inr (x, e) ↦ rw e ((refl, refl), h)
      ]
  operate-IsLogged (rotate initiator exchange kind emergency_rotation id) k h =
      elim (Option-cases (env.revoke_answer (revoke exchange kind ∷ k.asked))) [
        | inl e ↦ rw e ((refl, refl), ((refl, refl), h))
        | inr (x, e) ↦ rw e ((refl, refl), h)
      ]

  -- After any kill switches and rotations, whatever is answered, every event asked of the log keeps
  -- to the constraint of its table, a credential id where the action is no kill switch, and names no
  -- credential where it is one.
  pub operations-IsLogged :
      (os : List Operation) (k : Keys Db) → IsLogged k → IsLogged (operations os k)
  unfolding operations
  operations-IsLogged [] k h = h
  operations-IsLogged (o ∷ os) k h = operations-IsLogged os (operate o k) (operate-IsLogged o k h)
