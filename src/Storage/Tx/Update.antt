-- ===== src/Storage/Tx/Update.antt =====
-- `update_dataset` of crates/storage/src/db/db.rs: a transaction that committed.
use data_lib.Common.{◌≡◌, refl, ◌∙◌, arith, Result, ok, err, ◌>>=◌}
use data_lib.Storage.Tx.{chunk_entries, update_dataset, Dataset, Env}
use data_lib.Storage.Data.{bump_version}
use data_lib.Storage.Failure.{Failure}

module _ (env : Env) {R : Type 0} where
  -- The state that the body left has the committed chunks and the committed finalized head.
  pub record IsCommitted (cb : Dataset env → Result Failure (R × Dataset env)) (s : Dataset env)
      (r : R) (db : Dataset env) : Type 0 where
    pub left : Dataset env
    pub body : cb s ≡ ok (r, left)
    pub same_entries : chunk_entries env db ≡ chunk_entries env left
    pub same_finalized : db.label.finalized_head ≡ left.label.finalized_head

  abbrev finish : R × Dataset env → Result Failure (R × Dataset env)
  finish (r, s) = ok (r, record s { label = bump_version s.label })

  pub update_dataset-IsCommitted :
      (cb : Dataset env → Result Failure (R × Dataset env)) (s : Dataset env) (r : R)
      (db : Dataset env)
      → update_dataset env cb s ≡ ok (r, db)
      → IsCommitted cb s r db
  unfolding update_dataset bump_version
  update_dataset-IsCommitted cb s r db h = at (cb s) refl h
    where
      at :
          (x : Result Failure (R × Dataset env))
          → cb s ≡ x
          → (x >>= finish) ≡ ok (r, db)
          → IsCommitted cb s r db
      at (err e) q h = absurd (cc)
      at (ok (r', left)) q h = record {
        left = left;
        body = q ∙ ground arith;
        same_entries = ground arith;
        same_finalized = ground arith;
      }
