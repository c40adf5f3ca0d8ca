-- ===== src/Market/Hours/Clock.antt =====
-- The "HH:MM" texts of market-hours-policy.ts: which are read, and as what.
use Prim.Native.String
use trading_intelligence.Common.{
  ℕ, zero, suc, ◌/◌, ◌%◌, ◌<◌, ◌≡◌, refl, ap, String, Bool, true, false, List, [], ◌∷◌, Option,
  none, some, Result, ok, arith, if◌then◌else◌, leb, ltb, eqb, get_or_else, ◌∙◌,
}
use trading_intelligence.Common.Decimal.{decimal}
use trading_intelligence.Common.Int.{ℤ}
use trading_intelligence.Market.Hours.{
  DateTimeFormat, WeekdaySessionMarketHoursPolicyOptions, LocalTime, WeekdaySession,
  default_weekdays, weekday_session, with_minutes, with_formatter, MarketHoursError,
  minutes_or_error, codes, match_hhmm, parse_minutes_of_day,
}

-- A number below 100 with two digits.
abbrev pub two_digits : ℕ → String
two_digits n = if ltb n 10 then String.◌++◌ "0" (decimal n) else decimal n

-- The text of a minute of the day, such as "09:30" of 570.
unfoldable pub clock_text : ℕ → String
unfolding decimal
clock_text n = String.◌++◌ (two_digits (n / 60)) (String.◌++◌ ":" (two_digits (n % 60)))

reads_back : ℕ → Bool
reads_back n = elim (match_hhmm (codes (clock_text n))) [ none ↦ false | some k ↦ eqb k n ]

-- How many of the first minutes are not read back.
unread : ℕ → ℕ
unread zero = 0
unread (suc n) = if reads_back n then unread n else suc (unread n)

unread_table : unread 1440 ≡ 0
unfolding unread reads_back match_hhmm clock_text
unread_table = refl

read_of_unread : (n minute : ℕ) → minute < n → unread n ≡ 0 → reads_back minute ≡ true
unfolding unread
read_of_unread zero minute lt none_left = absurd (omega arith)
read_of_unread (suc n) minute lt none_left = ground (arith, read_of_unread n minute)

read_back :
    (n : ℕ)
    → n < 1440
    → elim (match_hhmm (codes (clock_text n))) [ none ↦ false | some k ↦ eqb k n ] ≡ true
unfolding reads_back
read_back n lt = read_of_unread 1440 n lt unread_table

is_some : (o : Option ℕ) (n : ℕ) → elim o [ none ↦ false | some k ↦ eqb k n ] ≡ true → o ≡ some n
is_some none n h = cc
is_some (some k) n h = ground arith

-- Every minute of a day is read back from its "HH:MM" text.
pub parse_minutes_of_day-clock_text :
    (n : ℕ) (label : String) → n < 1440 → parse_minutes_of_day (clock_text n) label ≡ ok n
unfolding parse_minutes_of_day
parse_minutes_of_day-clock_text n label lt =
    ap (minutes_or_error (clock_text n) label)
      (is_some (match_hhmm (codes (clock_text n))) n (read_back n lt))

match_hhmm-lt : (cs : List ℕ) (n : ℕ) → match_hhmm cs ≡ some n → n < 1440
unfolding match_hhmm
match_hhmm-lt [] n e = cc
match_hhmm-lt (a ∷ []) n e = cc
match_hhmm-lt (a ∷ b ∷ []) n e = cc
match_hhmm-lt (a ∷ b ∷ colon ∷ []) n e = cc
match_hhmm-lt (a ∷ b ∷ colon ∷ c ∷ []) n e = cc
match_hhmm-lt (a ∷ b ∷ colon ∷ c ∷ d ∷ []) n e = ground arith
match_hhmm-lt (a ∷ b ∷ colon ∷ c ∷ d ∷ f ∷ cs) n e = cc

-- What is read is a minute of a day.
pub parse_minutes_of_day-lt :
    (hhmm label : String) (n : ℕ) → parse_minutes_of_day hhmm label ≡ ok n → n < 1440
unfolding parse_minutes_of_day
parse_minutes_of_day-lt hhmm label n e = go (match_hhmm (codes hhmm)) (match_hhmm-lt (codes hhmm)) e
  where
    go :
        (o : Option ℕ)
        → ((k : ℕ) → o ≡ some k → k < 1440)
        → minutes_or_error hhmm label o ≡ ok n
        → n < 1440
    go none below h = cc
    go (some k) below h = ground (arith, below k refl)

-- A policy made from the texts of two minutes of the day is open at an instant exactly if the local
-- weekday is one of its own and the local time is from the first minute to before the second.
module _ (format : DateTimeFormat) (options : WeekdaySessionMarketHoursPolicyOptions)
    (start end' : ℕ) (formatter : ℤ → LocalTime) where
  abbrev pub set_up : WeekdaySession
  set_up = record {
    weekdays = get_or_else options.weekdays default_weekdays;
    start_minutes = start;
    end_minutes = end';
    formatter = formatter;
  }

  pub weekday_session_lem :
      options.session_start ≡ clock_text start
      → options.session_end ≡ clock_text end'
      → start < end'
      → end' < 1440
      → format options.timezone ≡ some formatter
      → weekday_session format options ≡ ok set_up
  unfolding weekday_session with_minutes with_formatter
  weekday_session_lem from to ordered below zone =
      go (parse_minutes_of_day options.session_start "sessionStart")
        (parse_minutes_of_day options.session_end "sessionEnd")
        (ap (λ t. parse_minutes_of_day t "sessionStart") from
          ∙ parse_minutes_of_day-clock_text start "sessionStart" (omega arith))
        (ap (λ t. parse_minutes_of_day t "sessionEnd") to
          ∙ parse_minutes_of_day-clock_text end' "sessionEnd" below)
    where
      go :
          (s e : Result MarketHoursError ℕ)
          → s ≡ ok start
          → e ≡ ok end'
          → with_minutes format options s e ≡ ok set_up
      go s e es ee = rw (es, ee, later, zone) refl
        where
          later : leb end' start ≡ false
          later = ground arith
