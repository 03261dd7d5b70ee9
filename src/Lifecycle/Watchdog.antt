-- ===== src/Lifecycle/Watchdog.antt =====
-- DBWatchdog of fandos1/internal/lifecycle/lifecycle.go. Its loop is a recursion on the answers of
-- the pings, which end when the context does; the halter acts as in Halter.antt.
pub mod Laws
use fandos.Prelude.{
  ℕ, zero, suc, ◌+◌, String, ◌≡◌, Bool, true, false, Option, none, some, List, [], ◌∷◌,
  if◌then◌else◌, leb, ℤ, pos, leb_ℤ,
}
use fandos.Lifecycle.Halter.{LockControl, System, Texts, halt}

-- `Threshold` with its default.
unfoldable pub threshold_of : ℤ → ℤ
threshold_of n = if leb_ℤ n (pos 0) then pos 3 else n

module _ {Db : Type 0} (locks : LockControl Db) (texts : Texts) (unavailable : ℕ → String → String)
    (threshold : ℤ) where
  -- One round of the loop, for the failures in a row and the answer of the ping.
  unfoldable pub tick : Option String → ℕ × System Db → ℕ × System Db
  unfolding threshold_of
  tick none (failures, s) = (0, s)
  tick (some e) (failures, s) =
      let n = failures + 1 in
      if leb_ℤ (threshold_of threshold) (pos n)
      then if s.halter.halted then (n, s) else (n, (halt locks texts (unavailable n e) s).0)
      else (n, s)

  unfoldable pub watch : List (Option String) → ℕ × System Db → ℕ × System Db
  unfolding tick
  watch [] w = w
  watch (a ∷ xs) w = watch xs (tick a w)

  -- `Run`, from its start.
  unfoldable pub run_watchdog : List (Option String) → System Db → System Db
  run_watchdog answers s = (watch answers (0, s)).1
