-- ===== src/Portfolio/Table.antt =====
-- The table of allowed transitions of a position, and the histories that follow it.
use fandos.Prelude.{◌≡◌, refl, sym, ◌⊎◌, inl, inr, Bool, true, false, List, [], ◌∷◌, ◌++◌, arith}
use fandos.Portfolio.{
  State, discovered, qualified, awaiting_approval, preparing, opening, failed, Transition,
  is_terminal, is_open_like, can_transition,
}

-- `h` leads from `s` to `u`: each record starts where the one before it ended, by an allowed
-- transition.
abbrev pub IsPath : State → List Transition → State → Type 0
IsPath s [] u = s ≡ u
IsPath s (t ∷ h) u = (t.from ≡ s) × (can_transition s t.to ≡ true) × IsPath t.to h u

pub IsPath-append :
    (s : State) (h : List Transition) {u : State} (t : Transition)
    → IsPath s h u
    → t.from ≡ u
    → can_transition u t.to ≡ true
    → IsPath s (h ++ t ∷ []) t.to
IsPath-append s [] t p e c = (cc, cc, refl)
IsPath-append s (r ∷ h) t p e c = (p.0, p.1, IsPath-append r.to h t p.2 e c)

-- Without its last record a path ends where that record began.
pub IsPath-before_last :
    (s : State) (h : List Transition) (u : State) (t : Transition)
    → IsPath s (h ++ t ∷ []) u
    → IsPath s h t.from
IsPath-before_last s [] u t p = sym p.0
IsPath-before_last s (r ∷ h) u t p = (p.0, p.1, IsPath-before_last r.to h u t p.2)

terminal_stuck : (s u : State) → is_terminal s ≡ true → can_transition s u ≡ true → ⊥
unfolding is_terminal can_transition
terminal_stuck s u h c = ground arith

-- A path out of a terminal state is empty.
pub terminal-path :
    (s : State) (h : List Transition) (u : State) → is_terminal s ≡ true → IsPath s h u → h ≡ []
terminal-path s [] u e p = refl
terminal-path s (t ∷ h) u e p = absurd (terminal_stuck s t.to e p.1)

-- The states that come before any order is sent.
abbrev pub is_flat : State → Bool
is_flat discovered = true
is_flat qualified = true
is_flat awaiting_approval = true
is_flat preparing = true
is_flat failed = true
is_flat _ = false

flat_step :
    (s u : State)
    → is_flat s ≡ true
    → can_transition s u ≡ true
    → (u ≡ opening) ⊎ (is_flat u ≡ true)
unfolding can_transition
flat_step s u h c = ground arith

abbrev pub Visits : State → List Transition → Type 0
Visits u [] = ⊥
Visits u (t ∷ h) = (t.to ≡ u) ⊎ Visits u h

-- A path from a state without exposure to one with exposure goes through OPENING.
pub flat-path-Visits :
    (s : State) (h : List Transition) (u : State)
    → is_flat s ≡ true
    → is_flat u ≡ false
    → IsPath s h u
    → Visits opening h
flat-path-Visits s [] u f g p = cc
flat-path-Visits s (t ∷ h) u f g p = elim (flat_step s t.to f p.1) [
  | inl e ↦ inl e
  | inr e ↦ inr (flat-path-Visits t.to h u e g p.2)
]

-- Every state with exposure, and so OPENING too, is no state before the first order.
pub open_like_not_flat : (s : State) → is_open_like s ≡ true → is_flat s ≡ false
unfolding is_open_like
open_like_not_flat s h = ground arith
