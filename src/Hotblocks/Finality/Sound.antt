-- ===== src/Hotblocks/Finality/Sound.antt =====
-- `resolve_finality` against the chain that a report speaks of.
use data_lib.Common.{
  ℕ, ◌≤◌, ◌<◌, ◌≡◌, ◌≢◌, ◌⊎◌, inl, inr, refl, sym, subst, ◌∙◌, String, Option, none, some, arith,
  ltb, eq_iff, if◌then◌else◌, Result, ok, err, Bool-cases, Option-cases,
}
use data_lib.Storage.Data.{Chunk, BlockRef}
use data_lib.Storage.Failure.{
  Failure, ForkReason, finality_contradicts_chunk, finality_contradicts_stored_block,
}
use data_lib.Storage.Chunks.{Entries}
use data_lib.Storage.Blocks.{Reader, find_block_hash_in_chunk, find_stored_block_hash}
use data_lib.Hotblocks.Finality.{
  confirm, Decision, applied, head_after, precheck, in_batch, resolve_in_chunk, resolve_in_history,
  resolve_at_height, resolve_finality,
}

-- The block is above the finalized head that it replaces.
abbrev pub Advances : Option BlockRef → BlockRef → Type 0
Advances none b = Unit
Advances (some current) b = current.number < b.number

-- The owner of the block's number carries the block's hash: the replacement, where its range covers
-- the number, or else stored history.
abbrev pub Carries : Reader → Entries → Option Chunk → BlockRef → Type 0
Carries rb es replacement b =
    ((chunk : Chunk) × (in_batch replacement b.number ≡ some chunk)
      × (find_block_hash_in_chunk rb chunk b.number ≡ ok (some b.hash)))
    ⊎ ((in_batch replacement b.number ≡ none)
        × (find_stored_block_hash rb es b.number ≡ ok (some b.hash)))

pub record IsApplied (rb : Reader) (es : Entries) (current : Option BlockRef)
    (replacement : Option Chunk) (floor : ℕ) (report b : BlockRef) : Type 0 where
  pub head : BlockRef
  pub is_head : head_after es replacement ≡ ok head
  pub within : b.number ≤ head.number
  pub above_floor : floor ≤ b.number
  pub advances : Advances current b
  pub origin :
      ((head.number < report.number) × (b ≡ head)) ⊎ ((b ≡ report) × Carries rb es replacement b)

precheck-passed :
    (current : Option BlockRef) (floor : ℕ) (b : BlockRef)
    → precheck current floor b ≡ none
    → (floor ≤ b.number) × Advances current b
unfolding precheck
precheck-passed none floor b h = ground arith
precheck-passed (some c) floor b h = ground arith

precheck-not_applied :
    (current : Option BlockRef) (floor : ℕ) (b c : BlockRef)
    → precheck current floor b ≢ some (applied c)
unfolding precheck
precheck-not_applied none floor b c h = ground arith
precheck-not_applied (some d) floor b c h = ground arith

confirm-applied :
    (report b : BlockRef) (reason : ForkReason) (hash : String)
    → confirm report reason hash ≡ applied b
    → (b ≡ report) × (hash ≡ report.hash)
confirm-applied report b reason hash h = ground (arith, eq_iff hash report.hash)

module _ (rb : Reader) (es : Entries) (report b : BlockRef) where
  applied_in_chunk :
      (chunk : Chunk) (found : Result Failure (Option String))
      → find_block_hash_in_chunk rb chunk report.number ≡ found
      → resolve_in_chunk rb es chunk report ≡ ok (applied b)
      → (b ≡ report) × (find_block_hash_in_chunk rb chunk report.number ≡ ok (some report.hash))
  unfolding resolve_in_chunk
  applied_in_chunk chunk (err e) f h = ground arith
  applied_in_chunk chunk (ok none) f h = ground arith
  applied_in_chunk chunk (ok (some hash)) f h =
      let (q, k) = confirm-applied report b finality_contradicts_chunk hash (ground arith) in
      (q, f ∙ rw k)

  applied_in_history :
      (found : Result Failure (Option String))
      → find_stored_block_hash rb es report.number ≡ found
      → resolve_in_history rb es report ≡ ok (applied b)
      → (b ≡ report) × (find_stored_block_hash rb es report.number ≡ ok (some report.hash))
  unfolding resolve_in_history
  applied_in_history (err e) f h = ground arith
  applied_in_history (ok none) f h = ground arith
  applied_in_history (ok (some hash)) f h =
      let (q, k) = confirm-applied report b finality_contradicts_stored_block hash (ground arith) in
      (q, f ∙ rw k)

  resolve_at_height-Carries :
      (replacement : Option Chunk)
      → resolve_at_height rb es replacement report ≡ ok (applied b)
      → (b ≡ report) × Carries rb es replacement report
  unfolding resolve_at_height
  resolve_at_height-Carries replacement h =
      elim (Option-cases (in_batch replacement report.number)) [
        | inl outside ↦
            let (q, k) = applied_in_history _ refl (ground arith) in (q, inr (outside, k))
        | inr (chunk, inside) ↦
            let (q, k) = applied_in_chunk chunk _ refl (ground arith) in (q, inl (chunk, inside, k))
      ]

-- An applied report names a block at or above the floor, above the present finalized head and at or
-- below the head that the transaction leaves. It is that head itself, where the report is above it,
-- and otherwise the reported block, which the owner of its number carries with the reported hash.
pub resolve_finality-IsApplied :
    (rb : Reader) (es : Entries) (current : Option BlockRef) (replacement : Option Chunk)
    (floor : ℕ) (report b : BlockRef)
    → resolve_finality rb es current replacement floor report ≡ ok (applied b)
    → IsApplied rb es current replacement floor report b
unfolding resolve_finality
resolve_finality-IsApplied rb es current replacement floor report b h =
    at (head_after es replacement) refl
  where
    passes :
        (head e : BlockRef)
        → head_after es replacement ≡ ok head
        → (if ltb head.number report.number then head else report) ≡ e
        → (p : Option Decision) → precheck current floor e ≡ p
        → IsApplied rb es current replacement floor report b
    passes head e is eff (some d) p = absurd (precheck-not_applied current floor e b (ground arith))
    passes head e is eff none p = elim (Bool-cases (ltb head.number report.number)) [
      | inl above ↦
          let q : b ≡ head = ground arith in
          let ok' = precheck-passed current floor e p in
          let eh : e ≡ b = ground arith in
          record {
            head = head;
            is_head = is;
            within = ground arith;
            above_floor = ground arith;
            advances = subst (Advances current) eh ok'.1;
            origin = inl (ground arith, q);
          }
      | inr inside ↦
          let (q, k) = resolve_at_height-Carries rb es report b replacement (ground arith) in
          let ok' = precheck-passed current floor e p in
          let eh : e ≡ b = ground arith in
          record {
            head = head;
            is_head = is;
            within = ground arith;
            above_floor = ground arith;
            advances = subst (Advances current) eh ok'.1;
            origin = inr (q, subst (Carries rb es replacement) (sym q) k);
          }
    ]

    at :
        (r : Result Failure BlockRef)
        → head_after es replacement ≡ r
        → IsApplied rb es current replacement floor report b
    at (err x) e = absurd (ground arith)
    at (ok head) e =
        passes head (if ltb head.number report.number then head else report) e refl _ refl
