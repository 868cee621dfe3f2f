-- ===== src/Examples/Ranges.antt =====
-- The theorems on ledger ranges at concrete ranges.
use stellarview_tui.Prelude.{
  ◌+◌, ◌-◌, ◌≤◌, ◌≡◌, ◌↔◌, List, [], ◌∷◌, length, count_from, min, All, arith,
}
use stellarview_tui.Prelude.Int.{pos, ◌≤ℤ◌}
use stellarview_tui.Pipeline.Partition.{Chunk, plan, started, panicked}
use stellarview_tui.Pipeline.Partition.Cover.{all_ledgers, plan_cover, plan_panics}
use stellarview_tui.Pipeline.Batches.{contiguous_ledger_batches}
use stellarview_tui.Pipeline.Batches.Expand.{
  expand, IsWithin, contiguous_ledger_batches-expand, contiguous_ledger_batches-IsWithin,
}

plan_cover_example :
    (cs : List Chunk) × (plan 10 19 (pos 3) ≡ started cs)
    × (length cs ≡ min 3 (19 + 1 - 10))
    × (all_ledgers cs ≡ count_from 10 (19 + 1 - 10))
plan_cover_example = plan_cover 10 19 3 (omega arith) (omega arith) (omega arith) (omega arith)

plan_panics_example : (plan 10 19 (pos 0) ≡ panicked) ↔ ((10 ≤ 19) × (pos 0 ≤ℤ pos 0))
plan_panics_example = plan_panics 10 19 (pos 0) (omega arith) (omega arith)

contiguous_ledger_batches-expand_example :
    expand (contiguous_ledger_batches (4 ∷ 5 ∷ 9 ∷ []) (pos 2)) ≡ 4 ∷ 5 ∷ 9 ∷ []
contiguous_ledger_batches-expand_example =
    contiguous_ledger_batches-expand (4 ∷ 5 ∷ 9 ∷ []) (pos 2)
      (omega arith, (omega arith, (omega arith, tt)))

contiguous_ledger_batches-IsWithin_example :
    All (IsWithin 2) (contiguous_ledger_batches (4 ∷ 5 ∷ 6 ∷ []) (pos 2))
contiguous_ledger_batches-IsWithin_example =
    contiguous_ledger_batches-IsWithin (4 ∷ 5 ∷ 6 ∷ []) (pos 2)
