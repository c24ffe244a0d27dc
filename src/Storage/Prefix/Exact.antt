-- ===== src/Storage/Prefix/Exact.antt =====
-- The streamed comparison of `validate_finalized_prefix` against the two lists that it compares.
use data_lib.Common.{
  ℕ, ◌≡◌, ◌↔◌, refl, sym, ◌∙◌, String, false, Option, none, some, List, [], ◌∷◌, ◌++◌, ◌&&◌, map,
  arith, ltb, ◌==◌, str_eq, eq_iff, if◌then◌else◌, Result, ok, err, ◌>>=◌, >>=-eq-ok, Bool-cases,
  inl, inr,
}
use data_lib.Storage.Data.{Chunk, first_block}
use data_lib.Storage.Failure.{Failure}
use data_lib.Storage.Chunks.{Entries, list_chunks}
use data_lib.Storage.Blocks.{BlockRow, Reader, block_rows}
use data_lib.Storage.Prefix.{
  Cursor, Divergence, not_stored, differs, read_block_hashes, collect, seek_stored, compare_stored,
  visit_all, verdict, validate_finalized_prefix,
}

-- The blocks that a list of chunks carries within a range.
unfoldable pub history : Reader → ℕ → ℕ → List Chunk → Result Failure (List BlockRow)
history read_blocks from to [] = ok []
history read_blocks from to (c ∷ cs) = do
  rows ← read_block_hashes read_blocks from to c
  rest ← history read_blocks from to cs
  ok (rows ++ rest)

-- What identifies a block: its number and its hash.
abbrev pub blocks : List BlockRow → List (ℕ × String)
blocks = map (λ r. (r.number, r.hash))

abbrev pub rows_upto : ℕ → List BlockRow → List BlockRow
rows_upto to [] = []
rows_upto to (r ∷ rs) = if ltb to r.number then rows_upto to rs else r ∷ rows_upto to rs

module _ (rb : Reader) (from to : ℕ) where
  -- What the cursor has still to show.
  pending : List BlockRow → List Chunk → Result Failure (List BlockRow)
  pending stored left = do rest ← history rb from to left; ok (stored ++ rest)

  pending-nil : (left : List Chunk) → pending [] left ≡ history rb from to left
  unfolding pending
  pending-nil left = ground arith

  pending-read :
      (c : Chunk) (rows : List BlockRow) (left : List Chunk)
      → read_block_hashes rb from to c ≡ ok rows
      → pending [] (c ∷ left) ≡ pending rows left
  unfolding pending history
  pending-read c rows left read = ground arith

  pending-seek :
      (stored st : List BlockRow) (left l : List Chunk)
      → seek_stored rb from to stored left ≡ ok (st, l)
      → pending stored left ≡ pending st l
  unfolding pending seek_stored history
  pending-seek (r ∷ rs) st left l h = ground arith
  pending-seek [] st [] l h = ground arith
  pending-seek [] st (c ∷ left) l h =
      let (rows, read, next) =
        >>=-eq-ok (read_block_hashes rb from to c) (λ rows. seek_stored rb from to rows left) h in
      pending-read c rows left read ∙ pending-seek rows st left l next

  seek-end :
      (stored : List BlockRow) (left l : List Chunk)
      → seek_stored rb from to stored left ≡ ok ([], l)
      → l ≡ []
  unfolding seek_stored
  seek-end (r ∷ rs) left l h = cc
  seek-end [] [] l h = ground arith
  seek-end [] (c ∷ left) l h =
      let (rows, read, next) =
        >>=-eq-ok (read_block_hashes rb from to c) (λ rows. seek_stored rb from to rows left) h in
      seek-end rows left l next

  seek_total :
      (stored h : List BlockRow) (left : List Chunk)
      → pending stored left ≡ ok h
      → (p : List BlockRow × List Chunk) × (seek_stored rb from to stored left ≡ ok p)
  unfolding pending seek_stored history
  seek_total (r ∷ rs) h left e = ((r ∷ rs, left), refl)
  seek_total [] h [] e = (([], []), refl)
  seek_total [] h (c ∷ left) e =
      let (hist, found, same) =
        >>=-eq-ok (history rb from to (c ∷ left)) (λ rest. ok ([] ++ rest)) e in
      let (rows, read, rest) =
        >>=-eq-ok (read_block_hashes rb from to c)
          (λ rows. history rb from to left >>= λ rest. ok (rows ++ rest)) found in
      let (p, r) = seek_total rows h left (sym (pending-read c rows left read) ∙ e) in
      (p, rw read r)

  pending-cons :
      (r : BlockRow) (rs h : List BlockRow) (left : List Chunk)
      → pending rs left ≡ ok h
      → pending (r ∷ rs) left ≡ ok (r ∷ h)
  unfolding pending
  pending-cons r rs h left e = ground arith

  pending-uncons :
      (r : BlockRow) (rs h : List BlockRow) (left : List Chunk)
      → pending (r ∷ rs) left ≡ ok h
      → (t : List BlockRow) × (h ≡ r ∷ t) × (pending rs left ≡ ok t)
  unfolding pending
  pending-uncons r rs h left e =
      let (rest, found, same) =
        >>=-eq-ok (history rb from to left) (λ rest. ok (r ∷ rs ++ rest)) e in
      (rs ++ rest, cc, rw found)

  -- The loop and the check after it, from a cursor with no divergence.
  run : List BlockRow → List BlockRow → List Chunk → Result Failure (Option Divergence)
  unfolding visit_all verdict
  run rows stored left = do
    cur ← visit_all rb from to rows (record { stored = stored; left = left; divergence = none })
    verdict rb from to cur

  diverged :
      (rows : List BlockRow) (cur : Cursor) (d : Divergence)
      → cur.divergence ≡ some d
      → (visit_all rb from to rows cur >>= verdict rb from to) ≡ ok (some d)
  unfolding visit_all verdict
  diverged [] cur d h = ground arith
  diverged (r ∷ rows) cur d h = ground (arith, diverged rows cur d h)

  -- What a run that found no divergence has compared.
  abbrev Compared : List BlockRow → List BlockRow → List Chunk → Type 0
  Compared rows stored left =
      (h : List BlockRow) × (pending stored left ≡ ok h) × (blocks (rows_upto to rows) ≡ blocks h)

  pending-end : (l : List Chunk) → l ≡ [] → pending [] l ≡ ok []
  unfolding pending history
  pending-end [] e = refl
  pending-end (c ∷ l) e = cc

  at_end :
      (stored : List BlockRow) (left : List Chunk) (p : Result Failure (List BlockRow × List Chunk))
      → seek_stored rb from to stored left ≡ p
      → run [] stored left ≡ ok none
      → Compared [] stored left
  unfolding run
  at_end stored left (err x) s e = ground arith
  at_end stored left (ok (r ∷ rs, l)) s e = ground arith
  at_end stored left (ok ([], l)) s e =
      ([], pending-seek stored [] left l s ∙ pending-end l (seek-end stored left l s), refl)

  at_row :
      (row : BlockRow) (rows stored : List BlockRow) (left : List Chunk)
      (p : Result Failure (List BlockRow × List Chunk))
      → ltb to row.number ≡ false
      → seek_stored rb from to stored left ≡ p
      → ((st : List BlockRow) (l : List Chunk) → run rows st l ≡ ok none → Compared rows st l)
      → run (row ∷ rows) stored left ≡ ok none
      → Compared (row ∷ rows) stored left
  unfolding run
  at_row row rows stored left (err x) b s ih e = ground arith
  at_row row rows stored left (ok ([], l)) b s ih e = cc (stuck, e)
    where
      stuck : run (row ∷ rows) stored left ≡ ok (some (not_stored row.number row.hash))
      stuck =
          ground (arith, diverged rows (compare_stored row [] l) (not_stored row.number row.hash))
  at_row row rows stored left (ok (r ∷ rs, l)) b s ih e =
      elim (Bool-cases ((r.number == row.number) && str_eq r.hash row.hash)) [
        | inl same ↦
            let (h, p, q) = ih rs l (ground arith) in
            (
              r ∷ h,
              pending-seek stored (r ∷ rs) left l s ∙ pending-cons r rs h l p,
              ground (arith, eq_iff r.hash row.hash),
            )
        | inr differ ↦ absurd (cc (ended differ, e))
      ]
    where
      ended :
          ((r.number == row.number) && str_eq r.hash row.hash) ≡ false
          → run (row ∷ rows) stored left ≡ ok (some (differs r.number r.hash row.number row.hash))
      ended d = ground (
        arith,
        diverged rows (compare_stored row (r ∷ rs) l) (differs r.number r.hash row.number row.hash),
      )

  run_sound :
      (rows stored : List BlockRow) (left : List Chunk)
      → run rows stored left ≡ ok none
      → Compared rows stored left
  unfolding run
  run_sound [] stored left e = at_end stored left _ refl e
  run_sound (r ∷ rows) stored left e = elim (Bool-cases (ltb to r.number)) [
    | inl above ↦ let (h, p, q) = run_sound rows stored left (ground arith) in (h, p, ground arith)
    | inr b ↦ at_row r rows stored left _ b refl (run_sound rows) e
  ]

  complete_at_end :
      (stored : List BlockRow) (left : List Chunk) (p : List BlockRow × List Chunk)
      → seek_stored rb from to stored left ≡ ok p
      → pending stored left ≡ ok []
      → run [] stored left ≡ ok none
  unfolding run
  complete_at_end stored left ([], l) s e = ground arith
  complete_at_end stored left (r ∷ rs, l) s e =
      let (t, clash, more) =
        pending-uncons r rs [] l (sym (pending-seek stored (r ∷ rs) left l s) ∙ e) in
      absurd (cc clash)

  complete_at_row :
      (row x : BlockRow) (rows stored h : List BlockRow) (left : List Chunk)
      (p : List BlockRow × List Chunk)
      → ltb to row.number ≡ false
      → seek_stored rb from to stored left ≡ ok p
      → pending stored left ≡ ok (x ∷ h)
      → x.number ≡ row.number
      → x.hash ≡ row.hash
      → ((st : List BlockRow) (l : List Chunk) → pending st l ≡ ok h → run rows st l ≡ ok none)
      → run (row ∷ rows) stored left ≡ ok none
  unfolding run
  complete_at_row row x rows stored h left ([], l) b s e n k ih =
      let ended : pending [] l ≡ ok [] = pending-end l (seek-end stored left l s) in
      absurd (cc (pending-seek stored [] left l s, ended, e))
  complete_at_row row x rows stored h left (r ∷ rs, l) b s e n k ih =
      let (t, same, more) =
        pending-uncons r rs (x ∷ h) l (sym (pending-seek stored (r ∷ rs) left l s) ∙ e) in
      let rest : run rows rs l ≡ ok none = ih rs l (cc (more, same)) in
      ground (arith, eq_iff r.hash row.hash)

  run_complete :
      (rows stored h : List BlockRow) (left : List Chunk)
      → pending stored left ≡ ok h
      → blocks (rows_upto to rows) ≡ blocks h
      → run rows stored left ≡ ok none
  unfolding run
  run_complete [] stored [] left e q =
      let (p, s) = seek_total stored [] left e in complete_at_end stored left p s e
  run_complete [] stored (x ∷ h) left e q = cc
  run_complete (row ∷ rows) stored h left e q = elim (Bool-cases (ltb to row.number)) [
    | inl above ↦
        let rest : run rows stored left ≡ ok none =
          run_complete rows stored h left e (ground arith) in
        ground arith
    | inr b ↦ at h e (ground arith) b (λ t. run_complete rows)
  ]
    where
      at :
          (g : List BlockRow)
          → pending stored left ≡ ok g
          → (row.number, row.hash) ∷ blocks (rows_upto to rows) ≡ blocks g
          → ltb to row.number ≡ false
          → (List BlockRow
              → (st k : List BlockRow) (l : List Chunk) → pending st l ≡ ok k
              → blocks (rows_upto to rows) ≡ blocks k
              → run rows st l ≡ ok none)
          → run (row ∷ rows) stored left ≡ ok none
      at [] p w b ih = cc
      at (x ∷ g) p w b ih =
          let (c, s) = seek_total stored (x ∷ g) left p in
          complete_at_row row x rows stored g left c b s p (cc) (cc)
            (λ st l more. ih g st g l more (cc))

-- Where the stored chunks of the range and the replacement's blocks can be read, the streamed check
-- accepts exactly when the replacement's blocks up to the height, numbers and hashes in order, are
-- the blocks that the stored chunks carry from the replacement's first block up to that height.
pub validate_finalized_prefix_exact :
    (rb : Reader) (es : Entries) (chunk : Chunk) (to : ℕ) (left : List Chunk) (rows : List BlockRow)
    → collect (list_chunks (first_block chunk) (some to) es) ≡ ok left
    → block_rows rb chunk ≡ ok rows
    → (validate_finalized_prefix rb es chunk to ≡ ok none) ↔ (
        (h : List BlockRow) × (history rb (first_block chunk) to left ≡ ok h)
        × (blocks (rows_upto to rows) ≡ blocks h))
unfolding validate_finalized_prefix run
validate_finalized_prefix_exact rb es chunk to left rows found read =
    let from = first_block chunk in
    let unfolds : validate_finalized_prefix rb es chunk to ≡ run rb from to rows [] left =
      ground arith in
    (
      λ e.
          let (h, p, q) = run_sound rb from to rows [] left (sym unfolds ∙ e) in
          (h, sym (pending-nil rb from to left) ∙ p, q),
      λ (h, p, q).
          unfolds ∙ run_complete rb from to rows [] h left (pending-nil rb from to left ∙ p) q,
    )
