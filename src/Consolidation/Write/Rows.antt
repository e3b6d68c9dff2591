-- ===== src/Consolidation/Write/Rows.antt =====
-- How `_partition_rows` of src/memory_system/domain/services/consolidation_write_service.py divides
-- the rows of a batch.
use memory_system.Shared.{
  either, contains, ◌≡◌, ◌⊎◌, inl, inr, refl, String, Bool, true, false, not, ◌&&◌, List, [], ◌∷◌,
  All, if◌then◌else◌, str_eq, eq_iff, arith, length, ◌+◌,
}
use memory_system.Consolidation.Double.{Double}
use memory_system.Consolidation.Write.{
  ConsolidationWriteRow, ConsolidationInvalidWriteCandidate, Partition, is_writable, with_valid,
  with_invalid, partition_loop, partition_rows,
}

module _ {W : Type 0} (double : Double W) where
  -- The first list, with the rows of the second kept and the ids of the third dropped, in order.
  pub data IsDivided
      : List (ConsolidationWriteRow W)
        → List (ConsolidationWriteRow W)
        → List ConsolidationInvalidWriteCandidate
        → Type 0 where
    done : IsDivided [] [] []
    kept :
        {r : ConsolidationWriteRow W} {rs vs : List (ConsolidationWriteRow W)}
        {is : List ConsolidationInvalidWriteCandidate}
        → IsDivided rs vs is
        → IsDivided (r ∷ rs) (r ∷ vs) is
    dropped :
        {r : ConsolidationWriteRow W} {rs vs : List (ConsolidationWriteRow W)}
        {is : List ConsolidationInvalidWriteCandidate}
        → IsDivided rs vs is
        → IsDivided (r ∷ rs) vs (record { memory_id = r.memory_id } ∷ is)

  abbrev pub HasId : String → List (ConsolidationWriteRow W) → Type 0
  HasId id [] = ⊥
  HasId id (r ∷ rs) = (r.memory_id ≡ id) ⊎ HasId id rs

  -- No id occurs twice, and none is among `seen`.
  abbrev pub IsDistinct : List String → List (ConsolidationWriteRow W) → Type 0
  IsDistinct seen [] = Unit
  IsDistinct seen (r ∷ rs) =
      (contains seen r.memory_id ≡ false) × IsDistinct (r.memory_id ∷ seen) rs

  -- A row that may be written is written, under its id, unless the id was seen.
  abbrev pub IsCovered :
      List String → List (ConsolidationWriteRow W) → ConsolidationWriteRow W → Type 0
  IsCovered seen vs r =
      (is_writable double r ≡ false) ⊎ ((contains seen r.memory_id ≡ true) ⊎ HasId r.memory_id vs)

  abbrev pub IsPartition : List String → List (ConsolidationWriteRow W) → Partition W → Type 0
  IsPartition seen rows p =
      IsDivided rows p.valid_rows p.invalid_candidates
      × All (λ r. is_writable double r ≡ true) p.valid_rows
      × IsDistinct seen p.valid_rows
      × All (IsCovered seen p.valid_rows) rows

  -- What `&&` and `not` say of a row.
  admitted : (w c : Bool) → (w && not c) ≡ true → (w ≡ true) × (c ≡ false)
  admitted true false e = (refl, refl)
  admitted true true e = absurd (ground (arith, e))
  admitted false c e = absurd (ground (arith, e))

  refused : (w c : Bool) → (w && not c) ≡ false → (w ≡ false) ⊎ (c ≡ true)
  refused true true e = inr refl
  refused true false e = absurd (ground (arith, e))
  refused false c e = inl refl

  -- What was covered with the row's id among the seen ones is covered once the row is kept.
  IsCovered-kept :
      (r : ConsolidationWriteRow W) (seen : List String) (vs : List (ConsolidationWriteRow W))
      (x : ConsolidationWriteRow W)
      → IsCovered (r.memory_id ∷ seen) vs x
      → IsCovered seen (r ∷ vs) x
  IsCovered-kept r seen vs x (inl e) = inl e
  IsCovered-kept r seen vs x (inr (inr h)) = inr (inr (inr h))
  IsCovered-kept r seen vs x (inr (inl c)) =
      at (either (str_eq r.memory_id x.memory_id) (contains seen x.memory_id) c)
    where
      at :
          (str_eq r.memory_id x.memory_id ≡ true) ⊎ (contains seen x.memory_id ≡ true)
          → IsCovered seen (r ∷ vs) x
      at (inl e) = inr (inr (inl ((eq_iff r.memory_id x.memory_id).0 e)))
      at (inr e) = inr (inl e)

  IsCovered-All :
      (r : ConsolidationWriteRow W) (seen : List String) (vs rs : List (ConsolidationWriteRow W))
      → All (IsCovered (r.memory_id ∷ seen) vs) rs
      → All (IsCovered seen (r ∷ vs)) rs
  IsCovered-All r seen vs [] a = tt
  IsCovered-All r seen vs (x ∷ rs) (c, a) =
      (IsCovered-kept r seen vs x c, IsCovered-All r seen vs rs a)

  partition_step :
      (r : ConsolidationWriteRow W) (seen : List String) (rs : List (ConsolidationWriteRow W))
      (keeps drops : Partition W) (b : Bool)
      → (is_writable double r && not (contains seen r.memory_id)) ≡ b
      → IsPartition (r.memory_id ∷ seen) rs keeps
      → IsPartition seen rs drops
      → IsPartition seen
          (r ∷ rs)
          (if b then with_valid double r keeps else with_invalid double r drops)
  partition_step r seen rs keeps drops true e (d, w, n, c) x =
      let (is_w, fresh) = admitted (is_writable double r) (contains seen r.memory_id) e in
      (
        kept d,
        (is_w, w),
        (fresh, n),
        (inr (inr (inl refl)), IsCovered-All r seen keeps.valid_rows rs c),
      )
  partition_step r seen rs keeps drops false e x (d, w, n, c) =
      (dropped d, w, n, (why (refused (is_writable double r) (contains seen r.memory_id) e), c))
    where
      why :
          (is_writable double r ≡ false) ⊎ (contains seen r.memory_id ≡ true)
          → IsCovered seen drops.valid_rows r
      why (inl k) = inl k
      why (inr k) = inr (inl k)

  partition_loop-IsPartition :
      (rows : List (ConsolidationWriteRow W)) (seen : List String)
      → IsPartition seen rows (partition_loop double rows seen)
  unfolding partition_loop
  partition_loop-IsPartition [] seen = (done, tt, tt, tt)
  partition_loop-IsPartition (r ∷ rs) seen =
      partition_step r seen rs _ _ _ refl (partition_loop-IsPartition rs (r.memory_id ∷ seen))
        (partition_loop-IsPartition rs seen)

  -- The rows of a batch are divided, in order, into the valid rows and the ids of the rest. Every
  -- valid row has a non-empty id, a positive version and a finite importance between 0 and 1; no id
  -- occurs twice among them; and every row that passes those tests has its id among them.
  pub partition_rows-IsPartition :
      (rows : List (ConsolidationWriteRow W)) → IsPartition [] rows (partition_rows double rows)
  unfolding partition_rows
  partition_rows-IsPartition rows = partition_loop-IsPartition rows []

  pub IsDivided-length :
      {rs vs : List (ConsolidationWriteRow W)} {is : List ConsolidationInvalidWriteCandidate}
      → IsDivided rs vs is
      → length rs ≡ length vs + length is
  IsDivided-length done = omega arith
  IsDivided-length (kept d) = omega (arith, IsDivided-length d)
  IsDivided-length (dropped d) = omega (arith, IsDivided-length d)
