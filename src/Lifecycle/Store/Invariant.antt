-- ===== src/Lifecycle/Store/Invariant.antt =====
-- What every sequence of creates and updates keeps true of the store.
use trading_intelligence.Common.{
  String, Bool, true, false, ◌&&◌, Option, none, some, ◌≡◌, refl, subst, arith, ◌==◌, eq_iff, find,
  find-none, is_set, ok,
}
use trading_intelligence.Common.Dict.{get, has, set, values, get-set, All-get, IsDict, IsDict-set}
use trading_intelligence.Lifecycle.Record.{TradeLifecycleRecord}
use trading_intelligence.Lifecycle.Store.{
  Store, create, update, same_slot, same_position, same_text, holds_slot, holds_position,
  other_than, position_clash, slot_clash, active_clash,
}

same_text_sym : (a b : Option String) → same_text a b ≡ true → same_text b a ≡ true
unfolding same_text
same_text_sym none none h = refl
same_text_sym (some a) (some b) h = ground (arith, eq_iff a b, eq_iff b a)
same_text_sym none (some b) h = h
same_text_sym (some a) none h = h

module _ {Num : Type 0} where
  -- Every record stands under its own id.
  abbrev pub IsKeyed : Store Num → Type 0
  IsKeyed m = (k : String) (r : TradeLifecycleRecord Num) → get k m ≡ some r → r.id ≡ k

  -- Of the records that hold something of the same kind, there is one.
  abbrev pub Exclusive :
      (TradeLifecycleRecord Num → Bool)
      → (TradeLifecycleRecord Num → TradeLifecycleRecord Num → Bool)
      → Store Num
      → Type 0
  Exclusive holds same m =
      (j k : String) (r s : TradeLifecycleRecord Num)
      → get j m ≡ some r
      → get k m ≡ some s
      → holds r ≡ true
      → holds s ≡ true
      → same r s ≡ true
      → j ≡ k

  pub IsKeyed-set :
      (r : TradeLifecycleRecord Num) (m : Store Num) → IsKeyed m → IsKeyed (set r.id r m)
  IsKeyed-set r m keyed k s e = ground (arith, get-set r.id k r m, eq_iff r.id k, keyed k s)

  module _ (holds tested : TradeLifecycleRecord Num → Bool)
      (same : TradeLifecycleRecord Num → TradeLifecycleRecord Num → Bool)
      (same_sym : (r s : TradeLifecycleRecord Num) → same r s ≡ true → same s r ≡ true)
      (tests : (r : TradeLifecycleRecord Num) → holds r ≡ true → tested r ≡ true) where
    no_clash :
        (r s : TradeLifecycleRecord Num) (k : String) (m : Store Num) (exclude : Option String)
        → find (λ t. other_than exclude t && (same t r && tested t)) (values m) ≡ none
        → get k m ≡ some s
        → other_than exclude s ≡ true
        → holds s ≡ true
        → same s r ≡ false
    no_clash r s k m exclude free at_k other held =
        let clear =
          All-get (λ t. (other_than exclude t && (same t r && tested t)) ≡ false) k m s
            (find-none (λ t. other_than exclude t && (same t r && tested t)) (values m) free)
            at_k in
        ground (arith, tests s held)

    pub Exclusive-set :
        (r : TradeLifecycleRecord Num) (m : Store Num) (exclude : Option String)
        → ((k : String) (s : TradeLifecycleRecord Num)
            → get k m ≡ some s
            → (r.id == k) ≡ false
            → other_than exclude s ≡ true)
        → (holds r ≡ true
            → find (λ t. other_than exclude t && (same t r && tested t)) (values m) ≡ none)
        → Exclusive holds same m
        → Exclusive holds same (set r.id r m)
    Exclusive-set r m exclude others free old j k a b at_j at_k held_a held_b alike = ground (
      arith,
      get-set r.id j r m,
      get-set r.id k r m,
      eq_iff r.id j,
      eq_iff r.id k,
      others j a,
      others k b,
      free,
      old j k a b,
      same_sym a b,
      no_clash r a j m exclude,
      no_clash r b k m exclude,
    )

  abbrev pub holds_known_position : TradeLifecycleRecord Num → Bool
  holds_known_position r = holds_position r && is_set r.broker_position_id

  -- Keys are ids, each used once; an active trade has its slot (strategy and instrument) to itself, and a live one
  -- its broker position.
  pub record IsUnique (m : Store Num) : Type 0 where
    pub distinct : IsDict m
    pub keyed : IsKeyed m
    pub slots : Exclusive holds_slot same_slot m
    pub positions : Exclusive holds_known_position same_position m

  same_slot_sym : (r s : TradeLifecycleRecord Num) → same_slot r s ≡ true → same_slot s r ≡ true
  unfolding same_slot
  same_slot_sym r s h = ground (
    arith,
    eq_iff r.strategy_id s.strategy_id,
    eq_iff s.strategy_id r.strategy_id,
    eq_iff r.symbol s.symbol,
    eq_iff s.symbol r.symbol,
  )

  same_position_sym :
      (r s : TradeLifecycleRecord Num) → same_position r s ≡ true → same_position s r ≡ true
  unfolding same_position
  same_position_sym r s h = ground (
    arith,
    eq_iff r.broker_provider s.broker_provider,
    eq_iff s.broker_provider r.broker_provider,
    same_text_sym r.broker_position_id s.broker_position_id,
  )

  -- A check that throws nothing has found neither kind of clash.
  active_clash-none-slot :
      (m : Store Num) (r : TradeLifecycleRecord Num) (exclude : Option String)
      → active_clash m r exclude ≡ none
      → holds_slot r ≡ true
      → slot_clash m r exclude ≡ none
  unfolding active_clash
  active_clash-none-slot m r exclude h held = ground arith

  active_clash-none-position :
      (m : Store Num) (r : TradeLifecycleRecord Num) (exclude : Option String)
      → active_clash m r exclude ≡ none
      → holds_known_position r ≡ true
      → position_clash m r exclude ≡ none
  unfolding active_clash
  active_clash-none-position m r exclude h held = ground arith

  set-IsUnique :
      (m : Store Num) (r : TradeLifecycleRecord Num) (exclude : Option String)
      → ((k : String) (s : TradeLifecycleRecord Num)
          → get k m ≡ some s
          → (r.id == k) ≡ false
          → other_than exclude s ≡ true)
      → active_clash m r exclude ≡ none
      → IsUnique m
      → IsUnique (set r.id r m)
  unfolding slot_clash position_clash
  set-IsUnique m r exclude others free u = record {
    distinct = IsDict-set r.id r m u.distinct;
    keyed = IsKeyed-set r m u.keyed;
    slots =
        Exclusive-set holds_slot holds_slot same_slot same_slot_sym (λ s h. h) r m exclude others
          (active_clash-none-slot m r exclude free) u.slots;
    positions =
        Exclusive-set holds_known_position holds_position same_position same_position_sym
          (λ s h. ground arith) r m exclude others (active_clash-none-position m r exclude free)
          u.positions;
  }

  others_none :
      (k : String) (s r : TradeLifecycleRecord Num) (m : Store Num)
      → get k m ≡ some s
      → (r.id == k) ≡ false
      → other_than none s ≡ true
  unfolding other_than
  others_none k s r m e h = refl

  others_self :
      (k : String) (s r : TradeLifecycleRecord Num) (m : Store Num)
      → IsKeyed m
      → get k m ≡ some s
      → (r.id == k) ≡ false
      → other_than (some r.id) s ≡ true
  unfolding other_than
  others_self k s r m keyed e h = ground (arith, keyed k s e, eq_iff s.id r.id, eq_iff r.id k)

  -- A create that succeeds writes the record under a new id, and found no clash.
  pub create_inv :
      (r : TradeLifecycleRecord Num) (m m' : Store Num)
      → create r m ≡ ok m'
      → (has r.id m ≡ false) × (active_clash m r none ≡ none) × (set r.id r m ≡ m')
  unfolding create
  create_inv r m m' e = (ground arith, ground arith, ground arith)

  pub update_inv :
      (r : TradeLifecycleRecord Num) (m m' : Store Num)
      → update r m ≡ ok m'
      → (has r.id m ≡ true) × (active_clash m r (some r.id) ≡ none) × (set r.id r m ≡ m')
  unfolding update
  update_inv r m m' e = (ground arith, ground arith, ground arith)

  pub create-IsUnique :
      (r : TradeLifecycleRecord Num) (m m' : Store Num)
      → create r m ≡ ok m'
      → IsUnique m
      → IsUnique m'
  create-IsUnique r m m' e u =
      let (fresh, free, same) = create_inv r m m' e in
      subst IsUnique same (set-IsUnique m r none (λ k s. others_none k s r m) free u)

  pub update-IsUnique :
      (r : TradeLifecycleRecord Num) (m m' : Store Num)
      → update r m ≡ ok m'
      → IsUnique m
      → IsUnique m'
  update-IsUnique r m m' e u =
      let (known, free, same) = update_inv r m m' e in
      subst IsUnique same (set-IsUnique m r (some r.id) (λ k s. others_self k s r m u.keyed) free u)
