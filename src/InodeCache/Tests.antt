-- ===== src/InodeCache/Tests.antt =====
-- The theorems on src/s3ql/inode_cache.py at a table of two rows, one of them cached and changed.
use s3ql.Prelude.{
  ℕ, ◌≡◌, refl, false, true, [], ◌∷◌, none, some, arith, ◌==◌, if◌then◌else◌, replicate,
}
use s3ql.Prelude.Sql.{select}
use s3ql.Prelude.Effect.{returned}
use s3ql.Fs.State.{Inode}
use s3ql.InodeCache.{Cache, getitem, assign, delitem, flush, destroy}
use s3ql.InodeCache.Coherence.{stored_row, view, IsCoherent, getitem_lem, assign_lem, delitem_lem}
use s3ql.InodeCache.Slots.{IsLaidOut, getitem-IsLaidOut, destroy_lem}
use s3ql.InodeCache.Flush.{flush_lem}

abbrev row : ℕ → ℕ → Inode
row id size = record {
  id = id;
  mode = 33188;
  refcount = 1;
  uid = 0;
  gid = 0;
  size = size;
  locked = false;
  rdev = 0;
  atime_ns = 0;
  mtime_ns = 0;
  ctime_ns = 0;
}

-- Inode 1 has been read, and its size assigned.
unfoldable grown : Cache
grown = record {
  table = row 1 0 ∷ row 2 6 ∷ [];
  last_id = 2;
  attrs = λ i. if 1 == i then some (record { row = row 1 9; dirty = true }) else none;
  cached_rows = some 1 ∷ replicate 99 none;
  pos = 1;
}

grown-IsCoherent : IsCoherent grown
unfolding grown select
grown-IsCoherent = record {
  key = λ i c a. ground (arith, a);
  known = λ i n. ground (arith, n);
  clean = λ i c a q. ground (arith, a, q);
}

grown-IsLaidOut : IsLaidOut grown
unfolding grown
grown-IsLaidOut = record { tracked = λ j e. ground (arith, e); bound = omega arith; size = refl }

getitem_lem_example :
    ((getitem 2 grown).0 ≡ returned (row 2 6))
    × (view 1 (getitem 2 grown).1 ≡ some (row 1 9))
    × IsCoherent (getitem 2 grown).1
unfolding grown select
getitem_lem_example = getitem_lem 2 1 grown grown-IsCoherent

assign_lem_example :
    (view 1 (assign 1 (λ r. record r { size = 5 }) grown) ≡ some (row 1 5))
    × IsCoherent (assign 1 (λ r. record r { size = 5 }) grown)
unfolding grown
assign_lem_example =
    assign_lem 1 1 (record { row = row 1 9; dirty = true }) (λ r. record r { size = 5 }) grown
      (λ r. refl) refl grown-IsCoherent

delitem_lem_example : (view 1 (delitem 1 grown).1 ≡ none) × IsCoherent (delitem 1 grown).1
unfolding grown
delitem_lem_example = delitem_lem 1 1 grown grown-IsCoherent

flush_lem_example :
    (stored_row 1 (flush grown) ≡ some (row 1 9))
    × (view 1 (flush grown) ≡ some (row 1 9))
    × IsCoherent (flush grown)
unfolding grown
flush_lem_example = flush_lem 1 grown grown-IsCoherent grown-IsLaidOut.tracked

destroy_lem_example :
    ((destroy grown).attrs 1 ≡ none) × (stored_row 1 (destroy grown) ≡ some (row 1 9))
unfolding grown
destroy_lem_example = destroy_lem 1 grown grown-IsCoherent grown-IsLaidOut

getitem-IsLaidOut_example : IsLaidOut (getitem 2 grown).1
getitem-IsLaidOut_example = getitem-IsLaidOut 2 grown grown-IsLaidOut
