-- ===== src/Market/Validation/Wellformed.antt =====
-- market-data/candle-validation.ts: what the checks of the single candles let through.
use trading_intelligence.Common.{
  ◌≡◌, ◌↔◌, refl, String, Bool, true, false, ◌||◌, List, [], ◌∷◌, Option, none, some, arith, any,
  All, ◌==◌,
}
use trading_intelligence.Common.Int.{ℤ}
use trading_intelligence.Common.Numbers.{Numbers}
use trading_intelligence.Market.Candles.{HistoricalCandle, duplicate, unparseable_timestamp}
use trading_intelligence.Market.Validation.{
  first_of, fault_if, is_unparseable, price_fault, range_fault, volume_fault, candle_fault,
  candles_fault,
}

both_false : (a b : Bool) → (a || b) ≡ false → (a ≡ false) × (b ≡ false)
both_false a b h = ground arith

pub both_none : {A : Type 0} (a b : Option A) → first_of a b ≡ none → (a ≡ none) × (b ≡ none)
both_none none b h = (refl, h)
both_none (some a) b h = cc

-- No check of a chain fails.
all_none :
    {A : Type 0} (b c : Bool) (f g : A) (p q r : Option A)
    → first_of (fault_if b f) (first_of (fault_if c g) (first_of p (first_of q r))) ≡ none
    → (b ≡ false) × (c ≡ false) × (p ≡ none) × (q ≡ none) × (r ≡ none)
all_none true c f g p q r h = cc
all_none false true f g p q r h = cc
all_none false false f g (some a) q r h = cc
all_none false false f g none (some a) r h = cc
all_none false false f g none none r h = (refl, refl, refl, refl, h)

-- No two candles have the same timestamp.
abbrev pub IsDistinct : {Num : Type 0} → List (HistoricalCandle Num) → Type 0
IsDistinct [] = Unit
IsDistinct (c ∷ cs) = All (λ d. (c.timestamp == d.timestamp) ≡ false) cs × IsDistinct cs

module _ {Num : Type 0} ⦃num : Numbers Num⦄ (date_parse : String → Option ℤ) where
  abbrev pub IsVolume : Option Num → Type 0
  IsVolume none = Unit
  IsVolume (some volume) = (num.is_finite volume ≡ true) × (num.lt volume (num.lit 0) ≡ false)

  abbrev pub IsFinite : HistoricalCandle Num → Type 0
  IsFinite c =
      (num.is_finite c.open_price ≡ true)
      × (num.is_finite c.high ≡ true)
      × (num.is_finite c.low ≡ true)
      × (num.is_finite c.close ≡ true)

  abbrev pub IsPositive : HistoricalCandle Num → Type 0
  IsPositive c =
      (num.le c.open_price (num.lit 0) ≡ false)
      × (num.le c.high (num.lit 0) ≡ false)
      × (num.le c.low (num.lit 0) ≡ false)
      × (num.le c.close (num.lit 0) ≡ false)

  -- Both ends of the bar are between its low and its high.
  abbrev pub IsBar : HistoricalCandle Num → Type 0
  IsBar c =
      (num.lt c.high c.low ≡ false)
      × (num.lt c.high c.open_price ≡ false)
      × (num.lt c.open_price c.low ≡ false)
      × (num.lt c.high c.close ≡ false)
      × (num.lt c.close c.low ≡ false)

  abbrev pub IsWellFormed : HistoricalCandle Num → Type 0
  IsWellFormed c =
      (is_unparseable date_parse c.timestamp ≡ false)
      × IsFinite c
      × IsPositive c
      × IsBar c
      × IsVolume c.volume

  price_fault-none : (c : HistoricalCandle Num) → (price_fault c ≡ none) ↔ IsFinite c
  price_fault-none c = ground arith

  range_fault-none : (c : HistoricalCandle Num) → (range_fault c ≡ none) ↔ (IsPositive c × IsBar c)
  range_fault-none c = ground arith

  volume_fault-none : (t : String) (v : Option Num) → (volume_fault t v ≡ none) ↔ IsVolume v
  volume_fault-none t none = ground arith
  volume_fault-none t (some v) = ground arith

  candle_fault_sound :
      (seen : List String) (c : HistoricalCandle Num)
      → candle_fault date_parse seen c ≡ none
      → (any (λ t. t == c.timestamp) seen ≡ false) × IsWellFormed c
  unfolding candle_fault
  candle_fault_sound seen c h =
      let (new, parsed, price, range, volume) =
        all_none (any (λ t. t == c.timestamp) seen) (is_unparseable date_parse c.timestamp)
          (duplicate c.timestamp) (unparseable_timestamp c.timestamp) (price_fault c)
          (range_fault c) (volume_fault c.timestamp c.volume) h in
      let (positive, bar) = (range_fault-none c).0 range in
      (
        new,
        (
          parsed,
          (price_fault-none c).0 price,
          positive,
          bar,
          (volume_fault-none c.timestamp c.volume).0 volume,
        ),
      )

  candle_fault_complete :
      (seen : List String) (c : HistoricalCandle Num)
      → any (λ t. t == c.timestamp) seen ≡ false
      → IsWellFormed c
      → candle_fault date_parse seen c ≡ none
  unfolding candle_fault
  candle_fault_complete seen c new (parsed, finite, positive, bar, volume) =
      rw (new, parsed, (price_fault-none c).1 finite, (range_fault-none c).1 (positive, bar))
        ((volume_fault-none c.timestamp c.volume).1 volume)

  abbrev pub IsNew : List String → HistoricalCandle Num → Type 0
  IsNew seen c = any (λ t. t == c.timestamp) seen ≡ false

  IsNew-later :
      (t : String) (seen : List String) (cs : List (HistoricalCandle Num))
      → All (IsNew (t ∷ seen)) cs
      → All (λ d. (t == d.timestamp) ≡ false) cs × All (IsNew seen) cs
  IsNew-later t seen [] h = (tt, tt)
  IsNew-later t seen (d ∷ cs) (new, h) =
      let (differ, rest) = IsNew-later t seen cs h in
      let (here, before) = both_false (t == d.timestamp) (any (λ s. s == d.timestamp) seen) new in
      ((here, differ), (before, rest))

  pub seen_later :
      (t : String) (seen : List String) (cs : List (HistoricalCandle Num))
      → All (λ d. (t == d.timestamp) ≡ false) cs
      → All (IsNew seen) cs
      → All (IsNew (t ∷ seen)) cs
  seen_later t seen [] h k = tt
  seen_later t seen (d ∷ cs) (differ, h) (new, k) = (rw differ new, seen_later t seen cs h k)

  pub candles_fault_sound :
      (seen : List String) (cs : List (HistoricalCandle Num))
      → candles_fault date_parse seen cs ≡ none
      → All (IsNew seen) cs × IsDistinct cs × All IsWellFormed cs
  unfolding candles_fault
  candles_fault_sound seen [] h = (tt, tt, tt)
  candles_fault_sound seen (c ∷ cs) h =
      let (first, rest) =
        both_none (candle_fault date_parse seen c)
          (candles_fault date_parse (c.timestamp ∷ seen) cs) h in
      let (new, formed) = candle_fault_sound seen c first in
      let (later, distinct, all_formed) = candles_fault_sound (c.timestamp ∷ seen) cs rest in
      let (differ, new_later_ones) = IsNew-later c.timestamp seen cs later in
      ((new, new_later_ones), (differ, distinct), (formed, all_formed))

  pub candles_fault_complete :
      (seen : List String) (cs : List (HistoricalCandle Num))
      → All (IsNew seen) cs
      → IsDistinct cs
      → All IsWellFormed cs
      → candles_fault date_parse seen cs ≡ none
  unfolding candles_fault
  candles_fault_complete seen [] new distinct formed = refl
  candles_fault_complete seen (c ∷ cs) (new, later) (differ, distinct) (formed, all_formed) =
      rw (candle_fault_complete seen c new formed) (
        candles_fault_complete (c.timestamp ∷ seen) cs (seen_later c.timestamp seen cs differ later)
          distinct all_formed)
