-- ===== src/Fsck/Committed.antt =====
-- `check_cache` of src/s3ql/fsck.py commits a block that was left in the cache.
use mathlib.Core.Option
use s3ql.Prelude.{
  ℕ, ◌+◌, ◌≡◌, refl, ap, ◌∙◌, Bool, true, false, not, ◌||◌, List, Option, none, some, length,
  if◌then◌else◌, arith, inl, inr, Bool-cases, Option-cases,
}
use s3ql.Prelude.Int.{pos}
use s3ql.Prelude.Sql.{select, update, delete, has_key, select-update, select-holds}
use s3ql.Prelude.Effect.{returned, gets, modify, branch, pure, ◌>>=◌}
use s3ql.Fsck.State.{
  Bytes, Object, Block, CacheFile, block_file, Fsck, Env, object_key, block_key, has_row,
  found_error, max_id,
}
use s3ql.Fsck.Rows.{IsKey, absent-select, select-own, select-update_self, select-added}
use s3ql.Fsck.Cache.{
  is_block, has_hash, is_clean, more, less, link_object, linked_id, link_block, commit, same_file,
  unlink, unless_kept, check_file,
}

-- The hash of an object.
abbrev hash_of : Object → Option ℕ
hash_of o = o.hash

abbrev hash_at : ℕ → List Object → Option (Option ℕ)
hash_at k t = Option.map hash_of (select (has_key object_key k) t)

hash_at-update :
    (j k : ℕ) (f : Object → Object) (t : List Object)
    → ((r : Object) → object_key (f r) ≡ object_key r)
    → ((r : Object) → hash_of (f r) ≡ hash_of r)
    → hash_at j (update (has_key object_key k) f t) ≡ hash_at j t
hash_at-update j k f t same hash =
    rw (select-update object_key j k f t same)
      (elim (Option-cases (select (has_key object_key j) t)) [
        | inl e ↦ rw e ground arith
        | inr (r, e) ↦ rw e ground (arith, hash r)
      ])

-- The block is clean when the object that it has is found to have the hash.
is_clean_of :
    (inode blockno h : ℕ) (s : Fsck) (r : Block)
    → select (is_block inode blockno) s.blocks ≡ some r
    → hash_at r.obj_id s.objects ≡ some (some h)
    → is_clean inode blockno h s ≡ true
unfolding is_clean has_hash
is_clean_of inode blockno h s r e f =
    elim (Option-cases (select (has_key object_key r.obj_id) s.objects)) [
      | inl g ↦ absurd (ground (arith, f, g))
      | inr (o, g) ↦
          let hash : o.hash ≡ some h = ground (arith, f, g) in
          rw (e, g, hash, is_clean) ground arith
    ]

has_hash-eq : (h : ℕ) (o : Object) → has_hash h o ≡ true → o.hash ≡ some h
unfolding has_hash
has_hash-eq h o e = elim (Option-cases o.hash) [
  | inl f ↦ absurd (ground (arith, e, f))
  | inr (x, f) ↦ f ∙ ap some (ground (arith, e, f))
]

linked-hash :
    (env : Env) (bytes : Bytes) (o : Option Object) (s : Fsck)
    → IsKey object_key s.objects
    → has_row object_key (s.last_object + 1) s.objects ≡ false
    → select (has_hash (env.sha256 bytes)) s.objects ≡ o
    → hash_at (linked_id o (s.last_object + 1)) (link_object env bytes o s).objects
      ≡ some (some (env.sha256 bytes))
unfolding link_object has_hash
linked-hash env bytes none s u fresh e =
    rw
      (select-added (has_key object_key (s.last_object + 1)) s.objects
        (record {
          id = s.last_object + 1;
          hash = some (env.sha256 bytes);
          refcount = pos 1;
          phys_size = pos (env.obj_size bytes);
          length = length bytes;
        })
        (absent-select object_key (s.last_object + 1) s.objects fresh) (ground arith))
      refl
linked-hash env bytes (some x) s u fresh e =
    let hash : x.hash ≡ some (env.sha256 bytes) =
      has_hash-eq (env.sha256 bytes) x (select-holds (has_hash (env.sha256 bytes)) s.objects x e) in
    hash_at-update x.id x.id more s.objects (λ r. refl) (λ r. refl)
    ∙ rw (select-own object_key (has_hash (env.sha256 bytes)) s.objects x u e, hash) refl

-- The block has the object, and hashes are as they were.
linked-block :
    (inode blockno id : ℕ) (o : Option Block) (s : Fsck)
    → select (is_block inode blockno) s.blocks ≡ o
    → let after = link_block inode blockno id o s in
      (r : Block) × (select (is_block inode blockno) after.blocks ≡ some r)
      × (r.obj_id ≡ id)
      × ((k : ℕ) → hash_at k after.objects ≡ hash_at k s.objects)
unfolding link_block max_id
linked-block inode blockno id none s e =
    let new : Block = record {
      rowid = max_id block_key s.blocks + 1;
      inode = inode;
      blockno = blockno;
      obj_id = id;
    } in
    (new, select-added (is_block inode blockno) s.blocks new e (ground arith), refl, λ k. refl)
linked-block inode blockno id (some old) s e = (
  record old { obj_id = id },
  rw
      (
        select-update_self (is_block inode blockno) (λ r. record r { obj_id = id }) s.blocks
            (λ r. refl),
        e,
      )
      refl,
  refl,
  λ k. hash_at-update k old.obj_id less s.objects (λ r. refl) (λ r. refl),
)

-- What `link_object` and `link_block` leave alone.
link_object-rest :
    (env : Env) (bytes : Bytes) (o : Option Object) (s : Fsck)
    → let after = link_object env bytes o s in
      (after.blocks ≡ s.blocks) × (after.cached ≡ s.cached) × (after.found_errors ≡ s.found_errors)
unfolding link_object
link_object-rest env bytes none s = (refl, refl, refl)
link_object-rest env bytes (some o) s = (refl, refl, refl)

link_block-rest :
    (inode blockno id : ℕ) (o : Option Block) (s : Fsck)
    → let after = link_block inode blockno id o s in
      (after.cached ≡ s.cached) × (after.found_errors ≡ s.found_errors)
unfolding link_block
link_block-rest inode blockno id none s = (refl, refl)
link_block-rest inode blockno id (some r) s = (refl, refl)

commit_lem :
    (env : Env) (inode blockno : ℕ) (bytes : Bytes) (s : Fsck)
    → IsKey object_key s.objects
    → has_row object_key (s.last_object + 1) s.objects ≡ false
    → let after = commit env inode blockno bytes s in
      (is_clean inode blockno (env.sha256 bytes) after ≡ true)
      × (after.cached ≡ s.cached)
      × (after.found_errors ≡ true)
unfolding commit found_error
commit_lem env inode blockno bytes s u fresh =
    let marked : Fsck = found_error s in
    let o : Option Object = select (has_hash (env.sha256 bytes)) s.objects in
    let id : ℕ = linked_id o (s.last_object + 1) in
    let linked : Fsck = link_object env bytes o marked in
    let (same, cached, found) = link_object-rest env bytes o marked in
    let old : Option Block = select (is_block inode blockno) s.blocks in
    let (r, e, i, hashes) =
      linked-block inode blockno id old linked (ap (select (is_block inode blockno)) same) in
    let (cached', found') = link_block-rest inode blockno id old linked in
    (
      is_clean_of inode blockno (env.sha256 bytes) (link_block inode blockno id old linked) r e
          (rw i (hashes id ∙ linked-hash env bytes o marked u fresh refl)),
      cached' ∙ cached,
      found' ∙ found,
    )

unless_kept-is_clean :
    (keep_cache : Bool) (inode blockno h : ℕ) (f : CacheFile) (s : Fsck)
    → let after = unless_kept keep_cache f s in
      (is_clean inode blockno h after ≡ is_clean inode blockno h s)
      × (after.cached ≡ (if keep_cache then s.cached else delete (same_file f) s.cached))
      × (after.found_errors ≡ s.found_errors)
unfolding unless_kept unlink is_clean
unless_kept-is_clean true inode blockno h f s = (refl, refl, refl)
unless_kept-is_clean false inode blockno h f s = (refl, refl, refl)

or_neither : (b : Bool) → b ≡ (b || not true)
or_neither b = ground arith

or_one : (b : Bool) → true ≡ (b || not false)
or_one b = ground arith

-- With a primary key of objects and a new id that is free, a block in the cache directory is committed:
-- afterwards the object that the table has for the block has the hash of the file. An error is reported if
-- and only if it had not before, and the file is removed unless the cache is to be kept.
pub check_file_lem :
    (env : Env) (keep_cache : Bool) (inode blockno : ℕ) (bytes : Bytes) (s : Fsck)
    → IsKey object_key s.objects
    → has_row object_key (s.last_object + 1) s.objects ≡ false
    → let f = block_file inode blockno bytes in
      let (r, after) = check_file env keep_cache f s in
      (r ≡ returned tt)
      × (is_clean inode blockno (env.sha256 bytes) after ≡ true)
      × (after.cached ≡ (if keep_cache then s.cached else delete (same_file f) s.cached))
      × (after.found_errors ≡ (s.found_errors || not (is_clean inode blockno (env.sha256 bytes) s)))
unfolding check_file ◌>>=◌ gets modify branch pure
check_file_lem env keep_cache inode blockno bytes s u fresh =
    let f : CacheFile = block_file inode blockno bytes in
    elim (Bool-cases (is_clean inode blockno (env.sha256 bytes) s)) [
      | inl e ↦
          let (c, d, g) = unless_kept-is_clean keep_cache inode blockno (env.sha256 bytes) f s in
          rw e (refl, c ∙ e, d, g ∙ or_neither s.found_errors)
      | inr e ↦
          let after : Fsck = commit env inode blockno bytes s in
          let (x, y, z) = commit_lem env inode blockno bytes s u fresh in
          let (c, d, g) =
            unless_kept-is_clean keep_cache inode blockno (env.sha256 bytes) f after in
          rw e (
            refl,
            c ∙ x,
            d ∙ ap (λ t. if keep_cache then t else delete (same_file f) t) y,
            g ∙ z ∙ or_one s.found_errors,
          )
    ]
