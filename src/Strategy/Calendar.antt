-- ===== src/Strategy/Calendar.antt =====
-- The calendar of fandos1/internal/strategy/funding_calendar.go, event by event.
use native.Mathlib.Nat.{add-div_right, div-zero, div-eq_of_lt, div-le_self}
use fandos.Prelude.{
  ℕ, zero, suc, ◌+◌, ◌-◌, ◌*◌, ◌/◌, ◌≤◌, ◌<◌, ◌≡◌, refl, ap, ◌∙◌, not, ◌||◌, List, [], ◌∷◌, inl,
  inr, arith, Bool-cases, if◌then◌else◌, ltb, ◌==◌,
}
use fandos.Decimal.{Shopspring}
use fandos.Strategy.{
  ConfidenceLevel, confidence_none, confidence_low, confidence_medium, confidence_high, rank,
  degrade_confidence, FundingEvent, CalendarInput, funding_cash_flow, funding_event, events_from,
  build_funding_calendar,
}

abbrev pub of_rank : ℕ → ConfidenceLevel
of_rank zero = confidence_none
of_rank (suc zero) = confidence_low
of_rank (suc (suc zero)) = confidence_medium
of_rank _ = confidence_high

-- The confidence falls by one level with every step, and not below none.
degrade_confidence-rank :
    (c : ConfidenceLevel) (n : ℕ) → degrade_confidence c n ≡ of_rank (rank c - n)
unfolding degrade_confidence
degrade_confidence-rank confidence_none zero = refl
degrade_confidence-rank confidence_low zero = refl
degrade_confidence-rank confidence_medium zero = refl
degrade_confidence-rank confidence_high zero = refl
degrade_confidence-rank confidence_none (suc n) =
    let gone : 0 - suc n ≡ 0 = omega arith in rw gone refl
degrade_confidence-rank confidence_low (suc n) =
    let one_less : 1 - suc n ≡ 0 - n = omega arith in
    rw one_less (degrade_confidence-rank confidence_none n)
degrade_confidence-rank confidence_medium (suc n) =
    let one_less : 2 - suc n ≡ 1 - n = omega arith in
    rw one_less (degrade_confidence-rank confidence_low n)
degrade_confidence-rank confidence_high (suc n) =
    let one_less : 3 - suc n ≡ 2 - n = omega arith in
    rw one_less (degrade_confidence-rank confidence_medium n)

module _ (S : Shopspring) where
  open S use {Decimal}

  -- The event of a step, by its number.
  abbrev pub planned_event : CalendarInput Decimal → ℕ → FundingEvent Decimal
  planned_event input i = record {
    exchange = input.exchange;
    symbol = input.symbol;
    leg_side = input.side;
    scheduled_at = input.next_funding_time + i * input.funding_interval;
    funding_rate = input.predicted_rate;
    estimated_notional = input.notional;
    estimated_cash_flow = funding_cash_flow S input.side input.predicted_rate input.notional;
    confidence = of_rank (rank input.confidence - i);
  }

  -- So many events from a step on.
  abbrev pub planned_events : CalendarInput Decimal → ℕ → ℕ → List (FundingEvent Decimal)
  planned_events input i zero = []
  planned_events input i (suc n) = planned_event input i ∷ planned_events input (i + 1) n

  -- How many events there are from a time to the end of the horizon.
  abbrev pub events_until : ℕ → ℕ → ℕ → ℕ
  events_until interval t last = (last + interval - t) / interval

  none_left : (interval t last : ℕ) → last < t → events_until interval t last ≡ 0
  none_left interval t last h = elim (Bool-cases (ltb 0 interval)) [
    | inl e ↦ div-eq_of_lt {n = last + interval - t} {m = interval} (ground arith)
    | inr e ↦ let gone : interval ≡ 0 = ground arith in rw gone (div-zero (last + 0 - t))
  ]

  one_more :
      (interval t last : ℕ)
      → 0 < interval
      → t ≤ last
      → events_until interval t last ≡ suc (events_until interval (t + interval) last)
  one_more interval t last some_time h =
      let rest = last + interval - (t + interval) in
      let split : last + interval - t ≡ rest + interval = omega arith in
      rw split (add-div_right rest {k = interval} some_time ∙ omega arith)

  -- There are no more events than the horizon has units, and one.
  enough_fuel :
      (interval t now horizon : ℕ)
      → 0 < interval
      → now < t
      → events_until interval t (now + horizon) ≤ horizon + 1
  enough_fuel interval t now horizon some_time later =
      let last = now + horizon in
      elim (Bool-cases (ltb last t)) [
        | inl e ↦ omega (arith, none_left interval t last (ground arith))
        | inr e ↦ omega (
          arith,
          one_more interval t last some_time (ground arith),
          div-le_self (last + interval - (t + interval)) interval,
          later,
        )
      ]

  -- The event of a step is the planned one.
  event_planned :
      (input : CalendarInput Decimal) (i : ℕ)
      → funding_event S input (input.next_funding_time + i * input.funding_interval) i
        ≡ planned_event input i
  unfolding funding_event
  event_planned input i = rw (degrade_confidence-rank input.confidence i) refl

  events_from-planned :
      (input : CalendarInput Decimal) (last fuel t i : ℕ)
      → 0 < input.funding_interval
      → t ≡ input.next_funding_time + i * input.funding_interval
      → events_until input.funding_interval t last ≤ fuel
      → events_from S input last fuel t i
        ≡ planned_events input i (events_until input.funding_interval t last)
  unfolding events_from
  events_from-planned input last zero t i some_time at enough =
      let gone : events_until input.funding_interval t last ≡ 0 = omega arith in rw gone refl
  events_from-planned input last (suc fuel) t i some_time at enough =
      let step = input.funding_interval in
      elim (Bool-cases (ltb last t)) [
        | inl e ↦ rw (e, none_left step t last (ground arith)) refl
        | inr e ↦
            let one = one_more step t last some_time (ground arith) in
            let next : t + step ≡ input.next_funding_time + (i + 1) * step = grind (arith, at) in
            let first : funding_event S input t i ≡ planned_event input i =
              ap (λ x. funding_event S input x i) at ∙ event_planned input i in
            let further =
              events_from-planned input last fuel (t + step) (i + 1) some_time next
                (omega (arith, one)) in
            rw (e, one) (cc (first, further))
      ]

  -- The calendar of the planned events up to the end of the horizon.
  abbrev pub planned_calendar : CalendarInput Decimal → ℕ → List (FundingEvent Decimal)
  planned_calendar input now =
      if input.horizon == 0 || input.funding_interval == 0 || not (ltb now input.next_funding_time)
      then []
      else planned_events input 0
          (events_until input.funding_interval input.next_funding_time (now + input.horizon))

  -- The loop of the calendar ends and has every event: the calendar is the list of the planned events,
  -- one for each whole interval from the next payment to the end of the horizon, the i-th of them i
  -- intervals behind the next payment, with the same rate, notional and cash flow, and with the
  -- confidence lower by i levels and not below none. It is empty where the horizon or the interval is not
  -- positive or the next payment is not in the future.
  pub build_funding_calendar-planned :
      (input : CalendarInput Decimal) (now : ℕ)
      → build_funding_calendar S input now ≡ planned_calendar input now
  unfolding build_funding_calendar
  build_funding_calendar-planned input now =
      elim (Bool-cases (input.horizon == 0 || input.funding_interval == 0)) [
        | inl e ↦ rw e refl
        | inr e ↦ elim (Bool-cases (ltb now input.next_funding_time)) [
          | inl f ↦
              rw (e, f)
                (events_from-planned input (now + input.horizon) (input.horizon + 1)
                  input.next_funding_time 0 (ground arith) (omega arith)
                  (enough_fuel input.funding_interval input.next_funding_time now input.horizon
                    (ground arith) (ground arith)))
          | inr f ↦ rw (e, f) refl
        ]
      ]
