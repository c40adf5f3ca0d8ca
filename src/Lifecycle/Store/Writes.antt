-- ===== src/Lifecycle/Store/Writes.antt =====
-- Sequences of writes to the store.
use trading_intelligence.Common.{List, [], ◌∷◌, ◌≡◌, refl, arith, Result, ok, err}
use trading_intelligence.Common.Dict.{get}
use trading_intelligence.Lifecycle.Errors.{LifecycleError}
use trading_intelligence.Lifecycle.Record.{TradeLifecycleRecord}
use trading_intelligence.Lifecycle.Store.{Store, create, update}
use trading_intelligence.Lifecycle.Store.Invariant.{IsUnique, create-IsUnique, update-IsUnique}

pub data Write (Num : Type 0) : Type 0 where
  creates updates : TradeLifecycleRecord Num → Write Num

module _ {Num : Type 0} where
  -- A write to the store: what the callers ask for, and what is left when it throws.
  abbrev pub kept : Store Num → Result (LifecycleError Num) (Store Num) → Store Num
  kept m (ok m') = m'
  kept m (err e) = m

  create-kept-IsUnique :
      (r : TradeLifecycleRecord Num) (m : Store Num) → IsUnique m → IsUnique (kept m (create r m))
  create-kept-IsUnique r m u = go (create r m) refl
    where
      go : (x : Result (LifecycleError Num) (Store Num)) → create r m ≡ x → IsUnique (kept m x)
      go (ok m') e = create-IsUnique r m m' e u
      go (err f) e = u

  update-kept-IsUnique :
      (r : TradeLifecycleRecord Num) (m : Store Num) → IsUnique m → IsUnique (kept m (update r m))
  update-kept-IsUnique r m u = go (update r m) refl
    where
      go : (x : Result (LifecycleError Num) (Store Num)) → update r m ≡ x → IsUnique (kept m x)
      go (ok m') e = update-IsUnique r m m' e u
      go (err f) e = u

  unfoldable pub write : Store Num → Write Num → Store Num
  write m (creates r) = kept m (create r m)
  write m (updates r) = kept m (update r m)

  unfoldable pub write_all : Store Num → List (Write Num) → Store Num
  unfolding write
  write_all m [] = m
  write_all m (x ∷ xs) = write_all (write m x) xs

  write_all_keeps : (m : Store Num) (xs : List (Write Num)) → IsUnique m → IsUnique (write_all m xs)
  unfolding write_all
  write_all_keeps m [] u = u
  write_all_keeps m (creates r ∷ xs) u =
      write_all_keeps (kept m (create r m)) xs (create-kept-IsUnique r m u)
  write_all_keeps m (updates r ∷ xs) u =
      write_all_keeps (kept m (update r m)) xs (update-kept-IsUnique r m u)

  -- Whatever records are created and updated, in any order and with whichever of the writes refused:
  -- in the store every record stands under its id and once, at most one active record exists for a strategy
  -- and instrument, and at most one live record for a broker's position.
  pub write_all-IsUnique : (xs : List (Write Num)) → IsUnique (write_all [] xs)
  unfolding write_all get
  write_all-IsUnique xs = write_all_keeps [] xs (record {
    distinct = tt;
    keyed = λ k r e. absurd (ground arith);
    slots = λ j k r s e. absurd (ground arith);
    positions = λ j k r s e. absurd (ground arith);
  })
