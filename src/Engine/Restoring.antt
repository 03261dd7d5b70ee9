-- ===== src/Engine/Restoring.antt =====
-- `Restore` of fandos1/internal/engine/engine.go. What the repositories load is an argument.
use fandos.Prelude.{
  String, Bool, true, false, Option, none, some, List, [], ◌∷◌, if◌then◌else◌, not, ◌&&◌, insert,
}
use fandos.Decimal.{Shopspring}
use fandos.Portfolio.{is_terminal, Position, set_quantities}
use fandos.Engine.World.{OpenPosition, Outside, Deps, Engine, resolve_symbols}

module _ (S : Shopspring) (deps : Deps S.Decimal) where
  open S use {Decimal, zero}

  -- The quantities of both legs of a position; `none` where there are none or the load fails.
  abbrev pub LoadLegs : Type 0
  LoadLegs = String → Option (Decimal × Decimal)

  -- The position with its symbols, where the registry has them.
  unfoldable pub with_symbols : Outside Decimal → Position Decimal → OpenPosition Decimal
  with_symbols o p =
      let op : OpenPosition Decimal = record {
        position = p;
        long_sym = "";
        short_sym = "";
        long_ex = p.long_exchange;
        short_ex = p.short_exchange;
        asset = p.asset;
        tick_size = zero;
      } in
      elim (resolve_symbols S deps o op) [ none ↦ op | some op' ↦ op' ]

  -- The split of the legs, where it is stored.
  unfoldable pub with_legs :
      Outside Decimal → Option (Decimal × Decimal) → Position Decimal → Position Decimal
  unfolding is_terminal
  with_legs o none p = p
  with_legs o (some (l, s)) p =
      if deps.has_legs && not (is_terminal p.state)
      then (set_quantities l s (deps.clock o) p).0
      else p

  unfoldable pub restore_one : LoadLegs → Position Decimal → Engine Decimal → Engine Decimal
  unfolding with_symbols with_legs
  restore_one legs p e =
      let op = with_symbols e.outside p in
      record e {
        open_positions =
            insert p.id (record op { position = with_legs e.outside (legs p.id) p })
              e.open_positions;
      }

  unfoldable pub restore_all : LoadLegs → List (Position Decimal) → Engine Decimal → Engine Decimal
  unfolding restore_one
  restore_all legs [] e = e
  restore_all legs (p ∷ rest) e = restore_all legs rest (restore_one legs p e)

  -- `Restore`, and whether it has no error; `none` is a load that fails.
  unfoldable pub restore :
      LoadLegs → Option (List (Position Decimal)) → Engine Decimal → Engine Decimal × Bool
  unfolding restore_all
  restore legs none e = (e, false)
  restore legs (some active) e = (restore_all legs active e, true)
