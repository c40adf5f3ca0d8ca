-- ===== src/Market/Hours.antt =====
-- runtime/market-hours-policy.ts, and market-session.ts with its defaults.
pub mod Clock
use trading_intelligence.Common.{
  ℕ, ◌+◌, ◌*◌, ◌/◌, ◌%◌, String, Bool, true, false, ◌&&◌, ◌||◌, List, [], ◌∷◌, Option, none, some,
  Result, ok, err, any, ◌==◌, if◌then◌else◌, leb, ltb, eqb, get_or_else,
}
use trading_intelligence.Common.Int.{ℤ}
use trading_intelligence.Domain.Market.{MarketSession, asia, europe, us, crypto_always_open}
use Prim.Native.Char.{code}
use Prim.Native.String

-- `MarketHoursPolicy.isMarketOpen`, of an instant in milliseconds.
abbrev pub MarketHoursPolicy : Type 0
MarketHoursPolicy = ℤ → Bool

unfoldable pub always_open_market_hours_policy : MarketHoursPolicy
always_open_market_hours_policy at = true

pub data MarketHoursError : Type 0 where
  not_a_time : String → String → MarketHoursError
  start_not_before_end : String → String → MarketHoursError
  invalid_timezone : String → MarketHoursError

abbrev pub codes : String → List ℕ
codes String.[] = []
codes (String.◌∷◌ c s) = code c ∷ codes s

-- `\d`
abbrev pub is_digit : ℕ → Bool
is_digit c = leb 48 c && leb c 57

-- `[01]\d|2[0-3]` and `[0-5]\d`
abbrev pub is_hour : ℕ → ℕ → Bool
is_hour a b = ((eqb a 48 || eqb a 49) && is_digit b) || (eqb a 50 && (leb 48 b && leb b 51))

abbrev pub is_minute : ℕ → ℕ → Bool
is_minute a b = (leb 48 a && leb a 53) && is_digit b

-- What `HHMM_PATTERN` makes of a text's code points: the minutes of the day.
unfoldable pub match_hhmm : List ℕ → Option ℕ
match_hhmm (a ∷ b ∷ colon ∷ c ∷ d ∷ []) =
    if is_hour a b && (eqb colon 58 && is_minute c d)
    then some (((a % 48) * 10 + b % 48) * 60 + ((c % 48) * 10 + d % 48))
    else none
match_hhmm _ = none

abbrev pub minutes_or_error : String → String → Option ℕ → Result MarketHoursError ℕ
minutes_or_error hhmm label none = err (not_a_time label hhmm)
minutes_or_error hhmm label (some minutes) = ok minutes

unfoldable pub parse_minutes_of_day : String → String → Result MarketHoursError ℕ
unfolding match_hhmm
parse_minutes_of_day hhmm label = minutes_or_error hhmm label (match_hhmm (codes hhmm))

pub record WeekdaySessionMarketHoursPolicyOptions : Type 0 where
  pub timezone : String
  pub weekdays : Option (List ℕ)
  pub session_start : String
  pub session_end : String

-- What `formatToParts` gives of an instant: the short name of the weekday, and numbers; `none` where a
-- part is missing.
pub record LocalTime : Type 0 where
  pub weekday : Option String
  pub hour : Option ℕ
  pub minute : Option ℕ

-- The policy that the constructor sets up.
pub record WeekdaySession : Type 0 where
  pub weekdays : List ℕ
  pub start_minutes : ℕ
  pub end_minutes : ℕ
  pub formatter : ℤ → LocalTime

unfoldable pub weekday_index : String → Option ℕ
weekday_index label =
    if label == "Sun"
    then some 0
    else if label == "Mon"
    then some 1
    else if label == "Tue"
    then some 2
    else if label == "Wed"
    then some 3
    else if label == "Thu"
    then some 4
    else if label == "Fri"
    then some 5
    else if label == "Sat"
    then some 6
    else none

abbrev pub default_weekdays : List ℕ
default_weekdays = 1 ∷ 2 ∷ 3 ∷ 4 ∷ 5 ∷ []

-- `new Intl.DateTimeFormat("en-US", { timeZone, ... })`: `none` for a name that is no zone.
abbrev pub DateTimeFormat : Type 0
DateTimeFormat = String → Option (ℤ → LocalTime)

unfoldable pub with_formatter :
    WeekdaySessionMarketHoursPolicyOptions
    → ℕ
    → ℕ
    → Option (ℤ → LocalTime)
    → Result MarketHoursError WeekdaySession
with_formatter options start end' none = err (invalid_timezone options.timezone)
with_formatter options start end' (some formatter) = ok (record {
  weekdays = get_or_else options.weekdays default_weekdays;
  start_minutes = start;
  end_minutes = end';
  formatter = formatter;
})

unfoldable pub with_minutes :
    DateTimeFormat
    → WeekdaySessionMarketHoursPolicyOptions
    → Result MarketHoursError ℕ
    → Result MarketHoursError ℕ
    → Result MarketHoursError WeekdaySession
unfolding with_formatter
with_minutes format options (err e) end' = err e
with_minutes format options (ok start) (err e) = err e
with_minutes format options (ok start) (ok end') =
    if leb end' start
    then err (start_not_before_end options.session_start options.session_end)
    else with_formatter options start end' (format options.timezone)

unfoldable pub weekday_session :
    DateTimeFormat → WeekdaySessionMarketHoursPolicyOptions → Result MarketHoursError WeekdaySession
unfolding parse_minutes_of_day with_minutes
weekday_session format options =
    with_minutes format options (parse_minutes_of_day options.session_start "sessionStart")
      (parse_minutes_of_day options.session_end "sessionEnd")

-- A comparison with a part that is missing (NaN) is false.
unfoldable pub in_session : WeekdaySession → Option ℕ → Option ℕ → Bool
in_session session (some hour) (some minute) =
    leb session.start_minutes (hour * 60 + minute) && ltb (hour * 60 + minute) session.end_minutes
in_session session _ _ = false

unfoldable pub on_weekday : WeekdaySession → Option String → Bool
unfolding weekday_index
on_weekday session none = false
on_weekday session (some label) = if label == "" then false else elim (weekday_index label) [
  | none ↦ false
  | some day ↦ any (λ d. eqb d day) session.weekdays
]

unfoldable pub is_market_open : WeekdaySession → MarketHoursPolicy
unfolding on_weekday in_session
is_market_open session at =
    let parts = session.formatter at in
    on_weekday session parts.weekday && in_session session parts.hour parts.minute

unfoldable pub crypto_symbols : List String
crypto_symbols =
    "BTC" ∷ "ETH" ∷ "LTC" ∷ "XRP" ∷ "BCH" ∷ "ADA" ∷ "SOL" ∷ "DOGE" ∷ "DOT" ∷ "AVAX" ∷ []

-- `instrument.toUpperCase()` is a parameter; the instant is one since the epoch.
unfoldable pub resolve_market_session : (String → String) → String → ℕ → MarketSession
unfolding crypto_symbols
resolve_market_session to_upper_case instrument now =
    let hour = (now / 3600000) % 24 in
    if any (λ s. s == to_upper_case instrument) crypto_symbols
    then crypto_always_open
    else if ltb hour 8
    then asia
    else if leb 8 hour && ltb hour 14
    then europe
    else us

abbrev pub default_equity_session : WeekdaySessionMarketHoursPolicyOptions
default_equity_session = record {
  timezone = "America/New_York";
  weekdays = none;
  session_start = "09:30";
  session_end = "16:00";
}
