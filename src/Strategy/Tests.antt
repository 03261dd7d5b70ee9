-- ===== src/Strategy/Tests.antt =====
-- Payments every eight hours for a day.
use fandos.Prelude.{◌≡◌, pos, ℤ}
use fandos.Decimal.Example.{integers}
use fandos.Execution.Orders.{short}
use fandos.Strategy.{CalendarInput, confidence_medium, build_funding_calendar}
use fandos.Strategy.Calendar.{planned_calendar, build_funding_calendar-planned}

abbrev day : CalendarInput ℤ
day = record {
  exchange = "okx";
  symbol = "BTCUSDT";
  side = short;
  predicted_rate = pos 3;
  funding_interval = 8;
  next_funding_time = 104;
  horizon = 24;
  confidence = confidence_medium;
  notional = pos 50;
}

build_funding_calendar-planned_example :
    build_funding_calendar integers day 100 ≡ planned_calendar integers day 100
build_funding_calendar-planned_example = build_funding_calendar-planned integers day 100
