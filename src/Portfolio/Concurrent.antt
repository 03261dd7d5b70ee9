-- ===== src/Portfolio/Concurrent.antt =====
-- Goroutines that share one position. The mutex makes each critical section one step; the callback
-- of the persister runs between two of them, so the sections of other calls come in between.
use fandos.Prelude.{
  ℕ, String, ◌≡◌, refl, sym, ap, ◌∙◌, ◌⊎◌, inl, inr, true, false, List, [], ◌∷◌, ◌++◌, arith,
  drop_last, drop_last-append,
}
use mathlib.Core.Path.{subst, subst₂}
use fandos.Decimal.{Shopspring}
use fandos.Portfolio.{
  State, discovered, opening, Error, Transition, Position, is_open_like, begin_transition, rollback,
  commit, new_position, set_quantities, add_realised_pnl, add_funding_pnl,
}
use fandos.Portfolio.Table.{
  IsPath, IsPath-append, IsPath-before_last, Visits, flat-path-Visits, open_like_not_flat,
}
use fandos.Portfolio.Laws.{record_of, begin-cases}

-- The position, and the transitions whose persister has been called and has not answered.
pub record Shared (D : Type 0) : Type 0 where
  pub position : Position D
  pub in_flight : List Transition

module _ (S : Shopspring) where
  open S use {Decimal}

  pub data Step : Shared Decimal → Shared Decimal → Type 0 where
    begin :
        (s : Shared Decimal) (to : State) (now : ℕ) (reason actor : String) (p : Position Decimal)
        (t : Transition)
        → begin_transition to now reason actor s.position ≡ (p, inr t)
        → Step s (record { position = p; in_flight = t ∷ s.in_flight })
    refuse :
        (s : Shared Decimal) (to : State) (now : ℕ) (reason actor : String) (p : Position Decimal)
        (e : Error)
        → begin_transition to now reason actor s.position ≡ (p, inl e)
        → Step s (record s { position = p })
    persisted :
        (s : Shared Decimal) (earlier later : List Transition) (t : Transition)
        → s.in_flight ≡ earlier ++ t ∷ later
        → Step s (record { position = commit s.position; in_flight = earlier ++ later })
    persist_error :
        (s : Shared Decimal) (earlier later : List Transition) (t : Transition)
        → s.in_flight ≡ earlier ++ t ∷ later
        → Step s
            (record { position = rollback t.from t.at s.position; in_flight = earlier ++ later })
    quantities :
        (s : Shared Decimal) (long short : Decimal) (now : ℕ)
        → Step s (record s { position = (set_quantities long short now s.position).0 })
    realised :
        (s : Shared Decimal) (amount : Decimal) (now : ℕ)
        → Step s (record s { position = (add_realised_pnl S amount now s.position).0 })
    funding :
        (s : Shared Decimal) (amount : Decimal) (now : ℕ)
        → Step s (record s { position = (add_funding_pnl S amount now s.position).0 })

  pub data Reach (s : Shared Decimal) : Shared Decimal → Type 0 where
    here : Reach s s
    next : {t u : Shared Decimal} → Reach s t → Step t u → Reach s u

  -- At most one persister runs; while it does, its record is the last one of the history. The
  -- history is a path of allowed transitions from the first state to the present one.
  abbrev pub IsQuiet : Shared Decimal → Type 0
  IsQuiet s = (s.position.persisting ≡ false) × (s.in_flight ≡ [])

  abbrev pub IsBusy : Shared Decimal → Type 0
  IsBusy s =
      (t : Transition) × (h : List Transition) × (s.position.persisting ≡ true)
      × (s.in_flight ≡ t ∷ [])
      × (s.position.history ≡ h ++ t ∷ [])

  pub record Inv (base : State) (s : Shared Decimal) : Type 0 where
    pub exclusive : IsQuiet s ⊎ IsBusy s
    pub path : IsPath base s.position.history s.position.state

  only_one :
      (earlier later : List Transition) (t u : Transition)
      → u ∷ [] ≡ earlier ++ t ∷ later
      → (earlier ≡ []) × (later ≡ []) × (t ≡ u)
  only_one [] later t u h = (refl, cc, cc)
  only_one (x ∷ []) later t u h = cc
  only_one (x ∷ y ∷ earlier) later t u h = cc

  none_left : (earlier later : List Transition) (t : Transition) → [] ≡ earlier ++ t ∷ later → ⊥
  none_left [] later t h = cc
  none_left (x ∷ earlier) later t h = cc

  -- What leaves the state, the history and the flag alone keeps the invariant.
  keep-Inv :
      (base : State) (s : Shared Decimal) (p : Position Decimal)
      → p.state ≡ s.position.state
      → p.history ≡ s.position.history
      → p.persisting ≡ s.position.persisting
      → Inv base s
      → Inv base (record s { position = p })
  keep-Inv base s p es eh ep inv = record {
    exclusive = elim (inv.exclusive) [
      | inl (idle, empty) ↦ inl (cc, empty)
      | inr (t, h, busy, one, last) ↦ inr (t, h, cc, one, cc)
    ];
    path = rw (es, eh) (inv.path);
  }

  -- The invariant after a first critical section that went through.
  abbrev Begun : State → List Transition → Position Decimal × (Error ⊎ Transition) → Type 0
  Begun base flight (p, inl e) = Unit
  Begun base flight (p, inr t) = Inv base (record { position = p; in_flight = t ∷ flight })

  begin-Inv :
      (base : State) (s : Shared Decimal) (to : State) (now : ℕ) (reason actor : String)
      → Inv base s
      → Begun base s.in_flight (begin_transition to now reason actor s.position)
  begin-Inv base s to now reason actor inv = elim (begin-cases to now reason actor s.position) [
    | inl (e, refused) ↦ rw refused tt
    | inr (e, idle, allowed, begun) ↦ rw begun (record {
      exclusive = inr (
        record_of s.position to now reason actor,
        s.position.history,
        refl,
        elim (inv.exclusive) [ inl (_, empty) ↦ cc | inr (t, h, busy, one, last) ↦ cc ],
        refl,
      );
      path = IsPath-append base s.position.history _ inv.path refl allowed;
    })
  ]

  rollback-Inv :
      (base : State) (s : Shared Decimal) (earlier later : List Transition) (t : Transition)
      → s.in_flight ≡ earlier ++ t ∷ later
      → Inv base s
      → Inv base
          (record { position = rollback t.from t.at s.position; in_flight = earlier ++ later })
  unfolding rollback
  rollback-Inv base s earlier later t h inv = elim (inv.exclusive) [
    | inl (idle, empty) ↦ absurd (none_left earlier later t (sym empty ∙ h))
    | inr (u, front, busy, one, last) ↦
        let (e, l, same) = only_one earlier later t u (sym one ∙ h) in
        record {
          exclusive = inl (refl, rw (e, l));
          path =
              subst₂ (IsPath base) (sym (ap drop_last last ∙ drop_last-append front u))
                (ap (λ (r : Transition). r.from) (sym same))
                (IsPath-before_last base front s.position.state u
                  (subst (λ k. IsPath base k s.position.state) last inv.path));
        }
  ]

  commit-Inv :
      (base : State) (s : Shared Decimal) (earlier later : List Transition) (t : Transition)
      → s.in_flight ≡ earlier ++ t ∷ later
      → Inv base s
      → Inv base (record { position = commit s.position; in_flight = earlier ++ later })
  unfolding commit
  commit-Inv base s earlier later t h inv = elim (inv.exclusive) [
    | inl (idle, empty) ↦ absurd (none_left earlier later t (sym empty ∙ h))
    | inr (u, front, busy, one, last) ↦
        let (e, l, same) = only_one earlier later t u (sym one ∙ h) in
        record { exclusive = inl (refl, rw (e, l)); path = inv.path }
  ]

  refused_unchanged :
      (to : State) (now : ℕ) (reason actor : String) (p q : Position Decimal) (e : Error)
      → begin_transition to now reason actor p ≡ (q, inl e)
      → q ≡ p
  refused_unchanged to now reason actor p q e h = elim (begin-cases to now reason actor p) [
    | inl (x, refused) ↦ cc
    | inr (_, _, _, begun) ↦ cc
  ]

  -- Every critical section keeps the invariant.
  pub Step-Inv : (base : State) {s u : Shared Decimal} → Step s u → Inv base s → Inv base u
  unfolding set_quantities add_realised_pnl add_funding_pnl
  Step-Inv base (begin s to now reason actor p t h) inv =
      subst (Begun base s.in_flight) h (begin-Inv base s to now reason actor inv)
  Step-Inv base (refuse s to now reason actor p e h) inv =
      rw (refused_unchanged to now reason actor s.position p e h) inv
  Step-Inv base (persisted s earlier later t h) inv = commit-Inv base s earlier later t h inv
  Step-Inv base (persist_error s earlier later t h) inv = rollback-Inv base s earlier later t h inv
  Step-Inv base (quantities s long short now) inv =
      keep-Inv base s _ (ground arith) (ground arith) (ground arith) inv
  Step-Inv base (realised s amount now) inv =
      keep-Inv base s _ (ground arith) (ground arith) (ground arith) inv
  Step-Inv base (funding s amount now) inv =
      keep-Inv base s _ (ground arith) (ground arith) (ground arith) inv

  Reach-Inv : (base : State) {s u : Shared Decimal} → Inv base s → Reach s u → Inv base u
  Reach-Inv base h here = h
  Reach-Inv base h (next r st) = Step-Inv base st (Reach-Inv base h r)

  -- The position `p` before any call.
  abbrev pub rest : Position Decimal → Shared Decimal
  rest p = record { position = p; in_flight = [] }

  -- However the calls of any number of goroutines interleave from a position at rest with an empty
  -- history, at most one persister is running, the last record of the history is its transition,
  -- and the history is a path of allowed transitions from the first state to the present state:
  -- so a rollback removes its own record and returns to the state that record began in.
  pub interleaving-Inv :
      (p : Position Decimal) {u : Shared Decimal}
      → p.persisting ≡ false
      → p.history ≡ []
      → Reach (rest p) u
      → Inv p.state u
  interleaving-Inv p idle empty r =
      Reach-Inv p.state (record { exclusive = inl (idle, refl); path = rw empty refl }) r

  -- A new position that has come to hold exposure, by any interleaving of calls, has OPENING in its
  -- history.
  pub exposure_needs_opening :
      (id asset long_ex short_ex : String) (now : ℕ) {u : Shared Decimal}
      → Reach (rest (new_position S id asset long_ex short_ex now)) u
      → is_open_like u.position.state ≡ true
      → Visits opening u.position.history
  unfolding new_position
  exposure_needs_opening id asset long_ex short_ex now {u} r exposed =
      flat-path-Visits discovered u.position.history u.position.state refl
        (open_like_not_flat u.position.state exposed)
        (interleaving-Inv (new_position S id asset long_ex short_ex now) refl refl r).path
