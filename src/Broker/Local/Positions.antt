-- ===== src/Broker/Local/Positions.antt =====
-- The list of open positions: numbers that rise along it, and one position per strategy and
-- instrument.
use trading_intelligence.Common.{
  ℕ, ◌+◌, ◌<◌, ◌≤◌, String, false, ◌&&◌, ◌≡◌, refl, sym, List, [], ◌∷◌, ◌++◌, none, arith, ◌∙◌,
  subst, ◌==◌, eq_iff, inl, inr, Bool-cases,
}
use trading_intelligence.Common.Decimal.{numbered, numbered-injective}
use trading_intelligence.Domain.Orders.{PaperPosition}
use trading_intelligence.Broker.Local.{find_position, remove_position, has_duplicate}

module _ {Num : Type 0} where
  -- The numbers behind the position ids rise along the list, above `lo` and up to `hi`.
  abbrev pub Numbered : ℕ → ℕ → List (PaperPosition Num) → Type 0
  Numbered lo hi [] = Unit {0}
  Numbered lo hi (p ∷ ps) =
      (k : ℕ) × (lo < k) × (k ≤ hi) × (p.position_id ≡ numbered "position-" k) × Numbered k hi ps

  abbrev pub OnePerSlot : List (PaperPosition Num) → Type 0
  OnePerSlot [] = Unit {0}
  OnePerSlot (p ∷ ps) = (has_duplicate p.strategy_id p.instrument ps ≡ false) × OnePerSlot ps

  pub Numbered-mono :
      (lo lo' hi hi' : ℕ) (ps : List (PaperPosition Num))
      → lo' ≤ lo
      → hi ≤ hi'
      → Numbered lo hi ps
      → Numbered lo' hi' ps
  Numbered-mono lo lo' hi hi' [] h h' n = tt
  Numbered-mono lo lo' hi hi' (p ∷ ps) h h' (k, above, below, named, rest) =
      (k, omega arith, omega arith, named, Numbered-mono k k hi hi' ps (omega arith) h' rest)

  pub Numbered-append :
      (lo hi : ℕ) (ps : List (PaperPosition Num)) (p : PaperPosition Num)
      → lo ≤ hi
      → p.position_id ≡ numbered "position-" (hi + 1)
      → Numbered lo hi ps
      → Numbered lo (hi + 1) (ps ++ p ∷ [])
  Numbered-append lo hi [] p h named n = (hi + 1, omega arith, omega arith, named, tt)
  Numbered-append lo hi (q ∷ ps) p h named (k, above, below, e, rest) =
      (k, above, omega arith, e, Numbered-append k hi ps p below named rest)

  pub Numbered-remove :
      (id : String) (lo hi : ℕ) (ps : List (PaperPosition Num))
      → Numbered lo hi ps
      → Numbered lo hi (remove_position id ps)
  unfolding remove_position
  Numbered-remove id lo hi [] n = tt
  Numbered-remove id lo hi (p ∷ ps) (k, above, below, e, rest) =
      elim (Bool-cases (p.position_id == id)) [
        | inl hit ↦ rw hit (Numbered-mono k lo hi hi ps (omega arith) (omega arith) rest)
        | inr miss ↦ rw miss (k, above, below, e, Numbered-remove id k hi ps rest)
      ]

  -- An id numbered below the list is not in it.
  Numbered-absent :
      (k lo hi : ℕ) (ps : List (PaperPosition Num))
      → k ≤ lo
      → Numbered lo hi ps
      → find_position (numbered "position-" k) ps ≡ none
  unfolding find_position
  Numbered-absent k lo hi [] h n = refl
  Numbered-absent k lo hi (p ∷ ps) h (j, above, below, e, rest) = ground (
    arith,
    eq_iff p.position_id (numbered "position-" k),
    numbered-injective "position-" j k,
    Numbered-absent k j hi ps (omega arith) rest,
  )

  -- A removed id is gone: the ids of the list are distinct.
  pub find-remove :
      (id : String) (lo hi : ℕ) (ps : List (PaperPosition Num))
      → Numbered lo hi ps
      → find_position id (remove_position id ps) ≡ none
  unfolding remove_position find_position
  find-remove id lo hi [] n = refl
  find-remove id lo hi (p ∷ ps) (k, above, below, e, rest) =
      elim (Bool-cases (p.position_id == id)) [
        | inl hit ↦
            let same : numbered "position-" k ≡ id = sym e ∙ (eq_iff p.position_id id).0 hit in
            rw hit (
              subst (λ i. find_position i ps ≡ none) same
                (Numbered-absent k k hi ps (omega arith) rest))
        | inr miss ↦ ground (arith, find-remove id k hi ps rest)
      ]

  has_duplicate-remove :
      (sid ins id : String) (ps : List (PaperPosition Num))
      → has_duplicate sid ins ps ≡ false
      → has_duplicate sid ins (remove_position id ps) ≡ false
  unfolding has_duplicate remove_position
  has_duplicate-remove sid ins id [] h = refl
  has_duplicate-remove sid ins id (p ∷ ps) h = ground (arith, has_duplicate-remove sid ins id ps)

  pub OnePerSlot-remove :
      (id : String) (ps : List (PaperPosition Num))
      → OnePerSlot ps
      → OnePerSlot (remove_position id ps)
  unfolding remove_position
  OnePerSlot-remove id [] s = tt
  OnePerSlot-remove id (p ∷ ps) s =
      ground (arith, OnePerSlot-remove id ps, has_duplicate-remove p.strategy_id p.instrument id ps)

  has_duplicate-append :
      (sid ins : String) (ps : List (PaperPosition Num)) (p : PaperPosition Num)
      → has_duplicate sid ins ps ≡ false
      → ((p.strategy_id == sid) && (p.instrument == ins)) ≡ false
      → has_duplicate sid ins (ps ++ p ∷ []) ≡ false
  unfolding has_duplicate
  has_duplicate-append sid ins [] p h k = ground arith
  has_duplicate-append sid ins (q ∷ ps) p h k = ground (arith, has_duplicate-append sid ins ps p)

  pub OnePerSlot-append :
      (ps : List (PaperPosition Num)) (p : PaperPosition Num)
      → has_duplicate p.strategy_id p.instrument ps ≡ false
      → OnePerSlot ps
      → OnePerSlot (ps ++ p ∷ [])
  unfolding has_duplicate
  OnePerSlot-append [] p h s = (refl, tt)
  OnePerSlot-append (q ∷ ps) p h (fresh, s) = (
    has_duplicate-append q.strategy_id q.instrument ps p fresh (
        ground (
          arith,
          eq_iff q.strategy_id p.strategy_id,
          eq_iff q.instrument p.instrument,
          eq_iff p.strategy_id q.strategy_id,
          eq_iff p.instrument q.instrument,
        )),
    OnePerSlot-append ps p (ground arith) s,
  )
