-- ===== src/Hotblocks/Writer/Admission.antt =====
-- The tests of `new_chunk` of write_controller.rs, taken apart.
use data_lib.Common.{
  leb→le, ℕ, ◌≤◌, ◌≡◌, inl, inr, refl, sym, subst, false, Option, none, some, [], ◌∷◌, ◌++◌, arith,
  leb, if◌then◌else◌, Result, ok, err, >>=-eq-ok, Bool-cases,
}
use data_lib.Storage.Data.{last_block, Chunk, BlockRef, first_block}
use data_lib.Storage.Failure.{Failure}
use data_lib.Storage.Chunks.{Entries, list_chunks}
use data_lib.Storage.Blocks.{Reader, next_item}
use data_lib.Hotblocks.Writer.Commit.{
  settle, replaces_first, window_start, starts_inside, guard_finalized, finalized_after, admit,
}
use data_lib.Hotblocks.Finality.{
  integrity_fault, ignored, resolve_finality, Decision, applied, head_after, get_chunk_head,
}
use data_lib.Hotblocks.Writer.Invariant.{first_stored_lem, FinalizedUpTo}
use data_lib.Storage.Chunks.Tiling.{first_chunk, IsTiled}
use data_lib.Hotblocks.Finality.Sound.{resolve_finality-IsApplied, IsApplied}
use data_lib.Hotblocks.Writer.{option_map_head}
use data_lib.Storage.Tx.Fork.{starting_below}

-- The tests of `admit` that passed.
pub record Admitted (rb : Reader) (es : Entries) (current : Option BlockRef) (chunk : Chunk)
    (floor : ℕ) (report fin : Option BlockRef) : Type 0 where
  pub start : ℕ
  pub owner : Option Chunk
  pub starts : window_start es floor ≡ ok start
  pub above_start : start ≤ first_block chunk
  pub owned : next_item (list_chunks (first_block chunk) (some (first_block chunk)) es) ≡ ok owner
  pub not_inside : starts_inside chunk owner ≡ false
  pub guarded : guard_finalized rb es current chunk ≡ ok tt
  pub settled : finalized_after rb es current chunk floor report ≡ ok fin

pub admit-Admitted :
    (rb : Reader) (es : Entries) (current : Option BlockRef) (chunk : Chunk) (floor : ℕ)
    (report fin : Option BlockRef)
    → admit rb es current chunk floor report ≡ ok fin
    → Admitted rb es current chunk floor report fin
unfolding admit
admit-Admitted rb es current chunk floor report fin h = at (window_start es floor) refl _ refl
  where
    at :
        (w : Result Failure ℕ)
        → window_start es floor ≡ w
        → (o : Result Failure (Option Chunk))
        → next_item (list_chunks (first_block chunk) (some (first_block chunk)) es) ≡ o
        → Admitted rb es current chunk floor report fin
    at (err x) w o q = absurd (ground arith)
    at (ok start) w (err x) q = absurd (ground arith)
    at (ok start) w (ok owner) q = record {
      start = start;
      owner = owner;
      starts = w;
      above_start = ground arith;
      owned = q;
      not_inside = ground arith;
      guarded = ground arith;
      settled = ground arith;
    }

-- A finalized head that stays is reached by the chunk, or lies below it.
pub kept_below :
    (rb : Reader) (es : Entries) (current : Option BlockRef) (chunk : Chunk)
    → first_block chunk ≤ last_block chunk
    → guard_finalized rb es current chunk ≡ ok tt
    → FinalizedUpTo current (some (get_chunk_head chunk))
unfolding guard_finalized get_chunk_head
kept_below rb es none chunk v g = tt
kept_below rb es (some current) chunk v g = ground arith

applied_below :
    (rb : Reader) (es : Entries) (current : Option BlockRef) (chunk : Chunk) (floor : ℕ)
    (report b : BlockRef)
    → IsApplied rb es current (some chunk) floor report b
    → b.number ≤ (get_chunk_head chunk).number
unfolding head_after
applied_below rb es current chunk floor report b a =
    let e : get_chunk_head chunk ≡ a.head = ground (arith, a.is_head) in
    subst (λ (h : BlockRef). b.number ≤ h.number) (sym e) a.within

pub finalized_after-FinalizedUpTo :
    (rb : Reader) (es : Entries) (current : Option BlockRef) (chunk : Chunk) (floor : ℕ)
    (report fin : Option BlockRef)
    → FinalizedUpTo current (some (get_chunk_head chunk))
    → finalized_after rb es current chunk floor report ≡ ok fin
    → FinalizedUpTo fin (some (get_chunk_head chunk))
unfolding finalized_after
finalized_after-FinalizedUpTo rb es current chunk floor none fin k h =
    subst (λ x. FinalizedUpTo x (some (get_chunk_head chunk))) (ground arith) k
finalized_after-FinalizedUpTo rb es current chunk floor (some report) fin k h =
    let (d, resolved, settled) =
      >>=-eq-ok (resolve_finality rb es current (some chunk) floor report) (settle current) h in
    at d resolved settled
  where
    at :
        (d : Decision)
        → resolve_finality rb es current (some chunk) floor report ≡ ok d
        → settle current d ≡ ok fin
        → FinalizedUpTo fin (some (get_chunk_head chunk))
    at (applied b) r s =
        let e : some b ≡ fin = unfold settle in ground arith in
        subst (λ x. FinalizedUpTo x (some (get_chunk_head chunk))) e
          (applied_below rb es current chunk floor report b
            (resolve_finality-IsApplied rb es current (some chunk) floor report b r))
    at (ignored reason) r s =
        let e : current ≡ fin = unfold settle in ground arith in
        subst (λ x. FinalizedUpTo x (some (get_chunk_head chunk))) e k
    at (integrity_fault reason) r s = absurd (unfold settle in ground arith)

pub starting_below-none :
    (b : ℕ) (e : ℕ × Chunk) (es : Entries)
    → IsTiled (e ∷ es)
    → b ≤ first_block e.1
    → starting_below b (e ∷ es) ≡ []
starting_below-none b e [] t h = ground arith
starting_below-none b e (e' ∷ es) t h =
    ground (arith, starting_below-none b e' es t.2 (omega arith))

pub window_start-first :
    (e : ℕ × Chunk) (es : Entries) (floor start : ℕ)
    → IsTiled (e ∷ es)
    → window_start (e ∷ es) floor ≡ ok start
    → first_block e.1 ≡ start
unfolding window_start
window_start-first e es floor start t h = ground (arith, first_stored_lem (e ∷ es) t)

-- The first chunk owns every block of its range.
owner-first :
    (k : ℕ) (c : Chunk) (es : Entries) (n : ℕ) (owner : Option Chunk)
    → IsTiled ((k, c) ∷ es)
    → first_block c ≤ n
    → n ≤ last_block c
    → next_item (list_chunks n (some n) ((k, c) ∷ es)) ≡ ok owner
    → owner ≡ some c
unfolding next_item list_chunks
owner-first k c es n owner t low high h = ground arith

starts_inside-first :
    (chunk c : Chunk)
    → starts_inside chunk (some c) ≡ false
    → first_block chunk ≤ last_block c
    → first_block chunk ≤ first_block c
unfolding starts_inside
starts_inside-first chunk c h le = ground arith

-- The window's first chunk after the fork.
pub first_chunk-fork :
    (rb : Reader) (es : Entries) (current : Option BlockRef) (chunk : Chunk) (floor : ℕ)
    (report fin : Option BlockRef)
    → IsTiled es
    → Admitted rb es current chunk floor report fin
    → option_map_head
        (first_chunk (starting_below (first_block chunk) es ++ (last_block chunk, chunk) ∷ []))
      ≡ (if replaces_first chunk (option_map_head (first_chunk es))
          then some (get_chunk_head chunk)
          else option_map_head (first_chunk es))
unfolding replaces_first
first_chunk-fork rb [] current chunk floor report fin t a = refl
first_chunk-fork rb ((k, c) ∷ es) current chunk floor report fin t a =
    elim (Bool-cases (leb (first_block chunk) (last_block c))) [
      | inl reaches ↦
          let start = window_start-first (k, c) es floor a.start t a.starts in
          let le : first_block chunk ≤ last_block c = leb→le _ _ reaches in
          let low : first_block c ≤ first_block chunk = omega (arith, a.above_start) in
          let owner = owner-first k c es (first_block chunk) a.owner t low le a.owned in
          let same =
            starts_inside-first chunk c
              (subst (λ o. starts_inside chunk o ≡ false) owner a.not_inside) le in
          let gone = starting_below-none (first_block chunk) (k, c) es t same in
          rw gone (unfold get_chunk_head in ground arith)
      | inr beyond ↦ unfold get_chunk_head in ground arith
    ]
