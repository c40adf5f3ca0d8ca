-- ===== src/Lifecycle/Store/Updates.antt =====
-- When `update` of trade-lifecycle-store.ts is sure to succeed.
use trading_intelligence.Common.{
  String, true, false, ◌&&◌, ◌≡◌, refl, none, some, arith, eq_iff, find_of_none, is_set, ok,
  Bool-cases, inl, inr,
}
use trading_intelligence.Common.Dict.{get, has, set, values, All-values}
use trading_intelligence.Lifecycle.Record.{TradeLifecycleRecord}
use trading_intelligence.Lifecycle.Store.{
  Store, update, same_slot, same_position, same_text, holds_slot, holds_position, other_than,
  position_clash, slot_clash, active_clash,
}
use trading_intelligence.Lifecycle.Store.Invariant.{IsUnique}

module _ {Num : Type 0} (m : Store Num) (r r' : TradeLifecycleRecord Num) (at : get r.id m ≡ some r)
    (same : r'.id ≡ r.id) where
  other_slot :
      IsUnique m
      → r'.strategy_id ≡ r.strategy_id
      → r'.symbol ≡ r.symbol
      → holds_slot r ≡ true
      → (k : String) (s : TradeLifecycleRecord Num) → get k m ≡ some s
      → (other_than (some r'.id) s && (same_slot s r' && holds_slot s)) ≡ false
  unfolding other_than same_text same_slot
  other_slot u strategy symbol held k s e = ground (
    arith,
    u.keyed k s e,
    u.slots k r.id s r e at,
    eq_iff s.id r'.id,
    eq_iff s.strategy_id r'.strategy_id,
    eq_iff s.strategy_id r.strategy_id,
    eq_iff s.symbol r'.symbol,
    eq_iff s.symbol r.symbol,
  )

  -- A record that keeps the slot it has finds it free.
  pub slot_clash_kept :
      IsUnique m
      → r'.strategy_id ≡ r.strategy_id
      → r'.symbol ≡ r.symbol
      → holds_slot r ≡ true
      → slot_clash m r' (some r'.id) ≡ none
  unfolding slot_clash
  slot_clash_kept u strategy symbol held =
      find_of_none (λ s. other_than (some r'.id) s && (same_slot s r' && holds_slot s)) (values m)
        (All-values (λ s. (other_than (some r'.id) s && (same_slot s r' && holds_slot s)) ≡ false) m
          u.distinct (other_slot u strategy symbol held))

  abbrev Alone : Type 0
  Alone =
      (k : String) (s : TradeLifecycleRecord Num)
      → get k m ≡ some s
      → same_text s.broker_position_id r'.broker_position_id ≡ true
      → s.id ≡ r.id

  other_position :
      Alone
      → (k : String) (s : TradeLifecycleRecord Num) → get k m ≡ some s
      → (other_than (some r'.id) s && (same_position s r' && holds_position s)) ≡ false
  unfolding other_than same_text same_position
  other_position alone k s e = ground (arith, alone k s e, eq_iff s.id r'.id)

  -- A position that no other record has is free.
  pub position_clash_new : IsUnique m → Alone → position_clash m r' (some r'.id) ≡ none
  unfolding position_clash
  position_clash_new u alone =
      find_of_none (λ s. other_than (some r'.id) s && (same_position s r' && holds_position s))
        (values m)
        (All-values
          (λ s. (other_than (some r'.id) s && (same_position s r' && holds_position s)) ≡ false) m
          u.distinct (other_position alone))

  active_clash_free :
      (holds_slot r' ≡ true → slot_clash m r' (some r'.id) ≡ none)
      → ((holds_position r' && is_set r'.broker_position_id) ≡ true
          → position_clash m r' (some r'.id) ≡ none)
      → active_clash m r' (some r'.id) ≡ none
  unfolding active_clash
  active_clash_free slot position = elim (Bool-cases (holds_slot r')) [
    | inl held ↦ rw (held, slot held) (ground (arith, position))
    | inr not_held ↦ rw not_held (ground (arith, position))
  ]

  -- The update goes through where it finds no clash.
  pub update_free :
      (holds_slot r' ≡ true → slot_clash m r' (some r'.id) ≡ none)
      → ((holds_position r' && is_set r'.broker_position_id) ≡ true
          → position_clash m r' (some r'.id) ≡ none)
      → update r' m ≡ ok (set r.id r' m)
  unfolding update has
  update_free slot position = rw (active_clash_free slot position) (rw same (rw at refl))
