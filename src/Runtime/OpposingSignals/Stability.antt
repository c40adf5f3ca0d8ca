-- ===== src/Runtime/OpposingSignals/Stability.antt =====
-- What the gate counts, and when it lets an exit pass.
use trading_intelligence.Common.{
  ℕ, suc, String, Bool, true, false, ◌&&◌, ◌≡◌, ◌↔◌, refl, ap, ◌∙◌, arith, List, [], ◌∷◌, Option,
  some, none, ◌==◌, eq_iff, if◌then◌else◌, leb, Bool-cases, inl, inr,
}
use trading_intelligence.Common.Dict.{Dict, get, set, delete, get-set, get-delete}
use trading_intelligence.Runtime.OpposingSignals.{
  OpposingSignalGateInput, OpposingSignalStabilityTracker, allowed, gate, count_of, evaluate, reset,
  sync_position, min_hold_reached, new_tracker, forget_gone, remember, is_other,
}

-- What happens to the tracker: an evaluation, a reset, or a position that a cycle finds on an
-- instrument.
pub data Event : Type 0 where
  evaluates : OpposingSignalGateInput → Event
  resets : String → Event
  finds : String → Option String → Event

unfoldable pub step : Event → OpposingSignalStabilityTracker → OpposingSignalStabilityTracker
unfolding evaluate reset sync_position
step (evaluates input) t = (evaluate input t).1
step (resets id) t = reset id t
step (finds instrument current) t = sync_position instrument current t

-- The tracker after a history of events, the latest first.
unfoldable pub after : List Event → OpposingSignalStabilityTracker
unfolding step
after [] = new_tracker
after (e ∷ past) = step e (after past)

-- The position that was last found on an instrument.
unfoldable pub last_found : String → List Event → Option String
last_found i [] = none
last_found i (evaluates input ∷ past) = last_found i past
last_found i (resets id ∷ past) = last_found i past
last_found i (finds instrument current ∷ past) =
    let earlier = last_found i past in if instrument == i then current else earlier

-- Whether a position is the one that was found before and is not found any more.
unfoldable pub is_gone : Option String → Option String → String → Bool
is_gone none current id = false
is_gone (some previous) current id = is_other previous current && (previous == id)

-- How many of the evaluations of a position, from the latest back, had an opposing signal, up to the
-- first that had none, a reset, or a cycle that found the position gone or replaced.
unfoldable pub streak : String → List Event → ℕ
unfolding last_found is_gone
streak id [] = 0
streak id (evaluates input ∷ past) =
    let earlier = streak id past in
    if input.position_id == id
    then (if input.is_opposing_signal_triggered then suc earlier else 0)
    else earlier
streak id (resets k ∷ past) = let earlier = streak id past in if k == id then 0 else earlier
streak id (finds instrument current ∷ past) =
    let earlier = streak id past in
    if is_gone (last_found instrument past) current id then 0 else earlier

count_in : String → Dict ℕ → ℕ
unfolding get
count_in id m = elim (get id m) [ none ↦ 0 | some n ↦ n ]

count_in-set :
    (k id : String) (n : ℕ) (m : Dict ℕ)
    → count_in id (set k n m) ≡ (if k == id then n else count_in id m)
unfolding count_in
count_in-set k id n m = ground (arith, get-set k id n m)

count_in-delete :
    (k id : String) (m : Dict ℕ) → count_in id (delete k m) ≡ (if k == id then 0 else count_in id m)
unfolding count_in
count_in-delete k id m = ground (arith, get-delete k id m)

remember-count :
    (i id : String) (current : Option String) (t : OpposingSignalStabilityTracker)
    → count_of id (remember i current t) ≡ count_of id t
unfolding remember count_of
remember-count i id none t = refl
remember-count i id (some k) t = refl

forget_gone-count :
    (id : String) (previous current : Option String) (t : OpposingSignalStabilityTracker)
    → count_of id (forget_gone previous current t)
      ≡ (if is_gone previous current id then 0 else count_of id t)
unfolding forget_gone count_of is_gone count_in
forget_gone-count id none current t = refl
forget_gone-count id (some previous) current t = elim (Bool-cases (is_other previous current)) [
  | inl other ↦ rw other (count_in-delete previous id t.consecutive_counts)
  | inr same ↦ rw same refl
]

forget_gone-active :
    (i : String) (previous current : Option String) (t : OpposingSignalStabilityTracker)
    → get i (forget_gone previous current t).active_position_by_instrument
      ≡ get i t.active_position_by_instrument
unfolding forget_gone
forget_gone-active i none current t = refl
forget_gone-active i (some previous) current t = elim (Bool-cases (is_other previous current)) [
  | inl other ↦ rw other refl
  | inr same ↦ rw same refl
]

remember-active :
    (i j : String) (current : Option String) (t : OpposingSignalStabilityTracker)
    → get j (remember i current t).active_position_by_instrument
      ≡ (if i == j then current else get j t.active_position_by_instrument)
unfolding remember
remember-active i j none t = get-delete i j t.active_position_by_instrument
remember-active i j (some k) t = get-set i j k t.active_position_by_instrument

after-last_found :
    (i : String) (past : List Event)
    → get i (after past).active_position_by_instrument ≡ last_found i past
unfolding after step evaluate reset sync_position last_found get
after-last_found i [] = refl
after-last_found i (evaluates input ∷ past) = elim (Bool-cases input.is_opposing_signal_triggered) [
  | inl on ↦ rw on (after-last_found i past)
  | inr off ↦ rw off (after-last_found i past)
]
after-last_found i (resets id ∷ past) = after-last_found i past
after-last_found i (finds instrument current ∷ past) =
    remember-active instrument i current _
    ∙ rw
        (
          forget_gone-active i (get instrument (after past).active_position_by_instrument) current
              (after past),
          after-last_found i past,
        )
        refl

evaluate-count :
    (id : String) (input : OpposingSignalGateInput) (t : OpposingSignalStabilityTracker)
    → count_of id (evaluate input t).1 ≡ (
        if input.position_id == id
        then (if input.is_opposing_signal_triggered then suc (count_of id t) else 0)
        else count_of id t)
unfolding evaluate count_of count_in
evaluate-count id input t = elim (Bool-cases input.is_opposing_signal_triggered) [
  | inr off ↦ rw off (count_in-delete input.position_id id t.consecutive_counts)
  | inl on ↦ rw on (
      count_in-set input.position_id id _ t.consecutive_counts
      ∙ elim (Bool-cases (input.position_id == id)) [
        | inl own ↦
            rw own (ap (λ k. suc (count_of k t)) (ground (arith, eq_iff input.position_id id)))
        | inr other ↦ rw other refl
      ])
]

-- In every history, the tracker's count for a position is its streak of opposing signals: confirmations
-- of another position, of the same instrument or not, never count for it.
pub after-streak : (id : String) (past : List Event) → count_of id (after past) ≡ streak id past
unfolding after step reset sync_position streak count_in
after-streak id [] = refl
after-streak id (evaluates input ∷ past) =
    evaluate-count id input (after past) ∙ rw (after-streak id past) refl
after-streak id (resets k ∷ past) =
    count_in-delete k id (after past).consecutive_counts ∙ rw (after-streak id past) refl
after-streak id (finds instrument current ∷ past) =
    remember-count instrument id current _
    ∙ forget_gone-count id (get instrument (after past).active_position_by_instrument) current
        (after past)
    ∙ rw (after-last_found instrument past, after-streak id past) refl

-- An exit on an opposing signal passes exactly if the signal is there, the position has been held for
-- the minimum time, and with this signal its streak has the required length.
pub evaluate_allowed_iff :
    (input : OpposingSignalGateInput) (past : List Event) (n : ℕ)
    → ((evaluate input (after past)).0 ≡ some (allowed n)) ↔ (
        (input.is_opposing_signal_triggered ≡ true)
        × (min_hold_reached input ≡ true)
        × (suc (streak input.position_id past) ≡ n)
        × (leb input.config.required_consecutive_signals n ≡ true))
unfolding evaluate gate
evaluate_allowed_iff input past n =
    rw (after-streak input.position_id past)
      (λ h. ground arith, λ (on, held, same, enough). ground arith)
