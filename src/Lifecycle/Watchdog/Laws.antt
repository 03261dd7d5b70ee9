-- ===== src/Lifecycle/Watchdog/Laws.antt =====
-- Failing pings halt trading.
use fandos.Prelude.{
  ℕ, ◌+◌, ◌≤◌, String, ◌≡◌, refl, ap, ◌∙◌, true, Option, none, some, List, [], ◌∷◌, ◌++◌, arith, ℤ,
  pos, ◌≤ℤ◌, length, map,
}
use fandos.Lifecycle.Halter.{LockControl, System, Texts}
use fandos.Lifecycle.Halter.Laws.{halt-halted}
use fandos.Lifecycle.Watchdog.{threshold_of, tick, watch, run_watchdog}

module _ {Db : Type 0} (locks : LockControl Db) (texts : Texts) (unavailable : ℕ → String → String)
    (threshold : ℤ) where
  tick_count :
      (e : String) (n : ℕ) (s : System Db)
      → (tick locks texts unavailable threshold (some e) (n, s)).0 ≡ n + 1
  unfolding tick
  tick_count e n s = ground arith

  -- A halted system stays halted.
  tick-halted :
      (a : Option String) (n : ℕ) (s : System Db)
      → s.halter.halted ≡ true
      → (tick locks texts unavailable threshold a (n, s)).1.halter.halted ≡ true
  unfolding tick
  tick-halted none n s h = h
  tick-halted (some e) n s h = ground arith

  tick-halts :
      (e : String) (n : ℕ) (s : System Db)
      → threshold_of threshold ≤ℤ pos (n + 1)
      → (tick locks texts unavailable threshold (some e) (n, s)).1.halter.halted ≡ true
  unfolding tick
  tick-halts e n s h = ground (arith, halt-halted locks texts (unavailable (n + 1) e) s)

  watch-halted :
      (xs : List (Option String)) (w : ℕ × System Db)
      → w.1.halter.halted ≡ true
      → (watch locks texts unavailable threshold xs w).1.halter.halted ≡ true
  unfolding watch
  watch-halted [] w h = h
  watch-halted (a ∷ xs) (n, s) h = watch-halted xs _ (tick-halted a n s h)

  watch-failures :
      (es : List String) (w : ℕ × System Db)
      → threshold_of threshold ≤ℤ pos (w.0 + length es)
      → 1 ≤ length es
      → (watch locks texts unavailable threshold (map some es) w).1.halter.halted ≡ true
  unfolding watch
  watch-failures [] w h k = absurd (omega arith)
  watch-failures (e ∷ []) (n, s) h k = tick-halts e n s (omega arith)
  watch-failures (e ∷ f ∷ es) (n, s) h k =
      watch-failures (f ∷ es) (tick locks texts unavailable threshold (some e) (n, s))
        (omega (arith, tick_count e n s)) (omega arith)

  watch-append :
      (xs ys : List (Option String)) (w : ℕ × System Db)
      → watch locks texts unavailable threshold (xs ++ ys) w
        ≡ watch locks texts unavailable threshold ys (watch locks texts unavailable threshold xs w)
  unfolding watch
  watch-append [] ys w = refl
  watch-append (a ∷ xs) ys w = watch-append xs ys (tick locks texts unavailable threshold a w)

  -- However the pings before and after were answered, and whatever the database answers to the call
  -- that persists the halt, a run of failed pings as long as the threshold leaves the system halted.
  pub run_watchdog-halted :
      (before after : List (Option String)) (es : List String) (s : System Db)
      → threshold_of threshold ≤ℤ pos (length es)
      → 1 ≤ length es
      → (run_watchdog locks texts unavailable threshold
          (before ++ (map some es ++ after))
          s).halter.halted
        ≡ true
  unfolding run_watchdog
  run_watchdog-halted before after es s h k =
      let w = watch locks texts unavailable threshold before (0, s) in
      ap (λ (v : ℕ × System Db). v.1.halter.halted)
        (watch-append before (map some es ++ after) (0, s) ∙ watch-append (map some es) after w)
      ∙ watch-halted after (watch locks texts unavailable threshold (map some es) w)
          (watch-failures es w (omega arith) k)
