-- ===== src/Storage/Tx/Fork.antt =====
-- `insert_fork` of crates/storage/src/db/write/tx.rs on a tiled window.
use data_lib.Common.{
  ℕ, ◌≤◌, ◌<◌, ◌≡◌, ◌↔◌, refl, sym, ap, ◌∙◌, true, none, [], ◌∷◌, ◌++◌, map, reverse, arith, ltb,
  leb, eq_iff, if◌then◌else◌, ok, >>=-eq-ok, subst, All, reverse-cons, reverse-reverse, Bool-cases,
  inl, inr,
}
use data_lib.Storage.Kv.{Below, Below-mono, remove_last, upsert_above}
use data_lib.Storage.Data.{Chunk, first_block, last_block, last_block_hash, parent_block_hash}
use data_lib.Storage.Chunks.{Entries, list_chunks_reversed}
use data_lib.Storage.Chunks.Tiling.{
  IsEntry, IsTiled, list_chunks_reversed_whole, LeadsTo, Continues, LeadsTo-snoc, LeadsTo-last,
  item, IsTiled-snoc, IsTiled-init, LeadsTo-Below, IsTiled-IsEntry,
}
use data_lib.Storage.Tx.{
  Env, Dataset, chunk_entries, delete_chunk, write_chunk, drop_replaced, insert_fork,
}

-- The chunks that start below a block.
abbrev pub starting_below : ℕ → Entries → Entries
starting_below b [] = []
starting_below b (e ∷ es) =
    if ltb (first_block e.1) b then e ∷ starting_below b es else starting_below b es

pub starting_below-snoc :
    (b : ℕ) (es : Entries) (e : ℕ × Chunk)
    → starting_below b (es ++ e ∷ [])
      ≡ (if ltb (first_block e.1) b then starting_below b es ++ e ∷ [] else starting_below b es)
starting_below-snoc b [] e = ground arith
starting_below-snoc b (a ∷ es) e = ground (arith, starting_below-snoc b es e)

pub starting_below_whole :
    (b : ℕ) (es : Entries) → All (λ e. first_block e.1 < b) es → starting_below b es ≡ es
starting_below_whole b [] h = refl
starting_below_whole b (e ∷ es) h = ground (arith, starting_below_whole b es h.1)

key-Below : (es : Entries) (d : ℕ) → All (λ e. (e.0 < d) × (last_block e.1 < d)) es → Below d es
key-Below [] d h = tt
key-Below (e ∷ es) d h = (h.0.0, key-Below es d h.1)

first_below :
    (es : Entries) (d : ℕ)
    → All IsEntry es
    → All (λ e. (e.0 < d) × (last_block e.1 < d)) es
    → All (λ e. first_block e.1 < d) es
first_below [] d v h = tt
first_below (e ∷ es) d v h = (omega arith, first_below es d v.1 h.1)

module _ (env : Env) where
  entries-delete_chunk :
      (es : Entries) (e : ℕ × Chunk) (s : Dataset env)
      → chunk_entries env s ≡ es ++ e ∷ []
      → IsTiled (es ++ e ∷ [])
      → chunk_entries env (delete_chunk env e.1 s) ≡ es
  unfolding delete_chunk
  entries-delete_chunk es (k, c) s h t =
      let p = IsTiled-init es (k, c) t in
      let below = key-Below es (first_block c) (LeadsTo-Below es c p.0 p.1) in
      rw (env.chunk_cf.entries-delete, h, ← p.2.0)
        (remove_last k c es (Below-mono es (first_block c) k (omega arith) below))

  -- What the loop leaves, for a window given with its last chunk first.
  pub record Dropped (chunk : Chunk) (es : Entries) (s s' : Dataset env) : Type 0 where
    pub remaining : chunk_entries env s' ≡ starting_below (first_block chunk) es
    pub still_tiled : IsTiled (chunk_entries env s')
    pub leads : LeadsTo (chunk_entries env s') chunk
    pub same_label : s'.label ≡ s.label

  replace_last :
      (chunk : Chunk) (es : Entries) (e : ℕ × Chunk) (s s' : Dataset env)
      → leb (first_block chunk) (first_block e.1) ≡ true
      → Dropped chunk es (delete_chunk env e.1 s) s'
      → Dropped chunk (es ++ e ∷ []) s s'
  unfolding delete_chunk
  replace_last chunk es e s s' b d = record {
    remaining = d.remaining ∙ ground (arith, starting_below-snoc (first_block chunk) es e);
    still_tiled = d.still_tiled;
    leads = d.leads;
    same_label = d.same_label;
  }

  keep_last :
      (chunk : Chunk) (es : Entries) (e : ℕ × Chunk) (s : Dataset env)
      → chunk_entries env s ≡ es ++ e ∷ []
      → IsTiled (es ++ e ∷ [])
      → Continues e.1 chunk
      → Dropped chunk (es ++ e ∷ []) s s
  keep_last chunk es e s h t c = record {
    remaining = h ∙ sym (starting_below_whole (first_block chunk) (es ++ e ∷ []) firsts);
    still_tiled = rw h t;
    leads = rw h (LeadsTo-snoc es e chunk c);
    same_label = refl;
  }
    where
      firsts : All (λ x. first_block x.1 < first_block chunk) (es ++ e ∷ [])
      firsts =
          first_below _ _ (IsTiled-IsEntry _ t)
            (LeadsTo-Below _ chunk t (LeadsTo-snoc es e chunk c))

  drop_replaced-Dropped :
      (chunk : Chunk) (rs : Entries) (s s' : Dataset env)
      → chunk_entries env s ≡ reverse rs
      → IsTiled (reverse rs)
      → drop_replaced env chunk (map item rs) s ≡ ok s'
      → Dropped chunk (reverse rs) s s'
  unfolding drop_replaced
  drop_replaced-Dropped chunk [] s s' h t r =
      let e : s ≡ s' = cc in
      record {
        remaining = rw (← e) h;
        still_tiled = rw (← e) (rw h tt);
        leads = rw (← e) (rw h tt);
        same_label = ap (λ x. x.label) (sym e);
      }
  drop_replaced-Dropped chunk (e ∷ rs) s s' h t r =
      let h' : chunk_entries env s ≡ reverse rs ++ e ∷ [] = h ∙ reverse-cons e rs in
      let t' : IsTiled (reverse rs ++ e ∷ []) = rw reverse-cons at t in
      elim (Bool-cases (leb (first_block chunk) (first_block e.1))) [
        | inl b ↦ rw reverse-cons (
            replace_last chunk (reverse rs) e s s' b (
              drop_replaced-Dropped chunk rs (delete_chunk env e.1 s) s'
                (entries-delete_chunk (reverse rs) e s h' t') (IsTiled-init (reverse rs) e t').0
                (ground arith)))
        | inr b ↦
            let c : Continues e.1 chunk =
              ground (arith, eq_iff (last_block_hash e.1) (parent_block_hash chunk)) in
            let same : s ≡ s' = ground arith in
            rw (reverse-cons, ← same) (keep_last chunk (reverse rs) e s h' t' c)
      ]

  -- The loop ends well wherever the chunks below the new one lead to it.
  drop_replaced_total :
      (chunk : Chunk) (rs : Entries) (s : Dataset env)
      → chunk_entries env s ≡ reverse rs
      → IsTiled (reverse rs)
      → LeadsTo (starting_below (first_block chunk) (reverse rs)) chunk
      → (s' : Dataset env) × (drop_replaced env chunk (map item rs) s ≡ ok s')
  unfolding drop_replaced
  drop_replaced_total chunk [] s h t l = (s, refl)
  drop_replaced_total chunk (e ∷ rs) s h t l =
      let h' : chunk_entries env s ≡ reverse rs ++ e ∷ [] = h ∙ reverse-cons e rs in
      let t' : IsTiled (reverse rs ++ e ∷ []) = rw reverse-cons at t in
      let l' : LeadsTo (starting_below (first_block chunk) (reverse rs ++ e ∷ [])) chunk =
        rw reverse-cons at l in
      elim (Bool-cases (leb (first_block chunk) (first_block e.1))) [
        | inl b ↦
            let same : starting_below (first_block chunk) (reverse rs ++ e ∷ [])
                ≡ starting_below (first_block chunk) (reverse rs) =
              ground (arith, starting_below-snoc (first_block chunk) (reverse rs) e) in
            let (s', r) =
              drop_replaced_total chunk rs (delete_chunk env e.1 s)
                (entries-delete_chunk (reverse rs) e s h' t') (IsTiled-init (reverse rs) e t').0
                (subst (λ x. LeadsTo x chunk) same l') in
            (s', ground arith)
        | inr b ↦
            let same : starting_below (first_block chunk) (reverse rs ++ e ∷ [])
                ≡ starting_below (first_block chunk) (reverse rs) ++ e ∷ [] =
              ground (arith, starting_below-snoc (first_block chunk) (reverse rs) e) in
            let c : Continues e.1 chunk =
              LeadsTo-last (starting_below (first_block chunk) (reverse rs)) e chunk
                (subst (λ x. LeadsTo x chunk) same l') in
            (s, ground (arith, eq_iff (last_block_hash e.1) (parent_block_hash chunk)))
      ]

  chunk_entries-write_chunk :
      (chunk : Chunk) (s : Dataset env)
      → first_block chunk ≤ last_block chunk
      → IsTiled (chunk_entries env s)
      → LeadsTo (chunk_entries env s) chunk
      → chunk_entries env (write_chunk env chunk s)
        ≡ chunk_entries env s ++ (last_block chunk, chunk) ∷ []
  unfolding write_chunk
  chunk_entries-write_chunk chunk s v t l =
      let es = chunk_entries env s in
      let below = key-Below es (first_block chunk) (LeadsTo-Below es chunk t l) in
      rw env.chunk_cf.entries-put (
        upsert_above (last_block chunk) chunk es
          (Below-mono es (first_block chunk) (last_block chunk) v below))

  insert_fork_drops :
      (chunk : Chunk) (s s' : Dataset env)
      → IsTiled (chunk_entries env s)
      → insert_fork env chunk s ≡ ok s'
      → (d : Dataset env) × Dropped chunk (chunk_entries env s) s d × (write_chunk env chunk d ≡ s')
  unfolding insert_fork
  insert_fork_drops chunk s s' t r =
      let es : Entries = chunk_entries env s in
      let all = list_chunks_reversed_whole es t in
      let (d, dropped, written) =
        >>=-eq-ok (drop_replaced env chunk (list_chunks_reversed 0 none es) s)
          (λ x. ok (write_chunk env chunk x)) r in
      let dropped' : drop_replaced env chunk (map item (reverse es)) s ≡ ok d = rw all at dropped in
      let D : Dropped chunk (reverse (reverse es)) s d =
        drop_replaced-Dropped chunk (reverse es) s d (sym (reverse-reverse es))
          (rw reverse-reverse t) dropped' in
      (d, subst (λ x. Dropped chunk x s d) (reverse-reverse es) D, cc)

  -- A successful `insert_fork` into a tiled window keeps exactly the chunks that start below the new
  -- one, puts the new one behind them, leaves the window tiled and the label as it was.
  pub insert_fork_replaces :
      (chunk : Chunk) (s s' : Dataset env)
      → IsTiled (chunk_entries env s)
      → first_block chunk ≤ last_block chunk
      → insert_fork env chunk s ≡ ok s'
      → (chunk_entries env s'
          ≡ starting_below (first_block chunk) (chunk_entries env s)
            ++ (last_block chunk, chunk) ∷ [])
        × IsTiled (chunk_entries env s')
        × (s'.label ≡ s.label)
  unfolding write_chunk
  insert_fork_replaces chunk s s' t v r =
      let (d, D, w) = insert_fork_drops chunk s s' t r in
      let e = chunk_entries-write_chunk chunk d v D.still_tiled D.leads in
      rw (← w) (
        e ∙ ap (λ x. x ++ (last_block chunk, chunk) ∷ []) D.remaining,
        rw e (IsTiled-snoc _ _ D.still_tiled D.leads (refl, v)),
        D.same_label,
      )

  -- `insert_fork` into a tiled window succeeds exactly when the chunks that start below the new one
  -- lead to it: the last of them ends right below it and carries its parent hash, or there is none.
  pub insert_fork_succeeds :
      (chunk : Chunk) (s : Dataset env)
      → IsTiled (chunk_entries env s)
      → LeadsTo (starting_below (first_block chunk) (chunk_entries env s)) chunk
        ↔ ((s' : Dataset env) × (insert_fork env chunk s ≡ ok s'))
  unfolding insert_fork
  insert_fork_succeeds chunk s t = (succeeds, λ (s', r). leads s' r)
    where
      es : Entries
      es = chunk_entries env s

      succeeds :
          LeadsTo (starting_below (first_block chunk) es) chunk
          → (s' : Dataset env) × (insert_fork env chunk s ≡ ok s')
      succeeds l =
          let (d, r) =
            drop_replaced_total chunk (reverse es) s (sym (reverse-reverse es))
              (rw reverse-reverse t) (rw reverse-reverse l) in
          (write_chunk env chunk d, rw (list_chunks_reversed_whole es t, r))

      leads :
          (s' : Dataset env)
          → insert_fork env chunk s ≡ ok s'
          → LeadsTo (starting_below (first_block chunk) es) chunk
      leads s' r =
          let (d, D, w) = insert_fork_drops chunk s s' t r in
          subst (λ x. LeadsTo x chunk) D.remaining D.leads
