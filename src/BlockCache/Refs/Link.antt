-- ===== src/BlockCache/Refs/Link.antt =====
-- What linking a block to an object does to the reference counts.
use s3ql.Prelude.{
  ℕ, ◌+◌, ◌≤◌, ◌≡◌, ◌&&◌, List, [], ◌∷◌, none, some, inl, inr, arith, ◌==◌, if◌then◌else◌,
  Option-cases,
}
use s3ql.Prelude.Sql.{
  select, count, delete, count-append, count-delete, count-delete_self, count-delete-le,
  count_unique, count-none,
}
use s3ql.BlockCache.State.{Block, State, is_block, block_object}
use s3ql.BlockCache.Upload.{link_block}
use s3ql.BlockCache.Expire.{delete_block}
use s3ql.BlockCache.Refs.{refers, refs, owed, IsBalanced, gives_up}

-- The other rows, which a `REPLACE` or a `DELETE` of the block leaves.
abbrev unlinked : ℕ → ℕ → State → List Block
unlinked i b s = delete (is_block i b) s.blocks

module _ (d : List ℕ) (s : State) (i b : ℕ) (h : IsBalanced d s) where
  -- The row of a block counts for the object that it refers to, and for no other.
  row-refs :
      (id : ℕ)
      → count (λ r. is_block i b r && refers id r) s.blocks
        ≡ elim (block_object i b s) [ none ↦ 0 | some o ↦ (if o == id then 1 else 0) ]
  unfolding block_object
  row-refs id = elim (Option-cases (select (is_block i b) s.blocks)) [
    | inl e ↦ rw e (count-none (is_block i b) (refers id) s.blocks e)
    | inr (r, e) ↦ rw e (count_unique (is_block i b) (refers id) s.blocks r (h.unique i b) e)
  ]

  unlinked-refs :
      (id : ℕ)
      → count (refers id) (unlinked i b s) + owed id (gives_up (block_object i b s) []) ≡ refs id s
  unlinked-refs id = ground (arith, row-refs id, count-delete (is_block i b) (refers id) s.blocks)

  unlinked_rows : (j c : ℕ) → count (is_block j c) (unlinked i b s) ≤ 1
  unlinked_rows j c =
      omega (arith, count-delete-le (is_block i b) (is_block j c) s.blocks, h.unique j c)

  pub delete_block-IsBalanced : IsBalanced (gives_up (block_object i b s) d) (delete_block i b s)
  unfolding delete_block
  delete_block-IsBalanced = record {
    balanced = λ id. ground (arith, h.balanced id, unlinked-refs id);
    fresh = h.fresh;
    nonzero = h.nonzero;
    unique = unlinked_rows;
  }

-- The block takes the reference that is owed, and gives up the one that it had.
pub link_block-IsBalanced :
    (obj : ℕ) (d : List ℕ) (s : State) (i b : ℕ)
    → IsBalanced (obj ∷ d) s
    → IsBalanced (gives_up (block_object i b s) d) (link_block obj i b s)
unfolding link_block
link_block-IsBalanced obj d s i b h = record {
  balanced = λ id. ground (
    arith,
    h.balanced id,
    unlinked-refs (obj ∷ d) s i b h id,
    count-append (refers id) (unlinked i b s) (new ∷ []),
  );
  fresh = h.fresh;
  nonzero = h.nonzero;
  unique = λ j c. ground (
    arith,
    unlinked_rows (obj ∷ d) s i b h j c,
    count-append (is_block j c) (unlinked i b s) (new ∷ []),
    count-delete_self (is_block i b) s.blocks,
  );
}
  where
    new : Block
    new = record { inode = i; blockno = b; obj_id = obj }
