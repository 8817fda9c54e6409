-- ===== src/Fsck/Quiet.antt =====
-- `Fsck.check` of src/s3ql/fsck.py where each of its queries finds what it looks for.
use s3ql.Prelude.{
  ℕ, suc, length, ◌≡◌, refl, Bool, true, false, ◌&&◌, List, [], some, All, inl, inr, Option-cases,
}
use s3ql.Prelude.Sql.{select, count, has_key}
use s3ql.Prelude.Effect.{returned, pure, gets, modify, ◌>>=◌, ◌>>◌}
use s3ql.BlockCache.State.{member}
use s3ql.Fs.State.{Inode, Symlink, inode_key, is_dir}
use s3ql.Fsck.State.{
  blob, DirEntry, Xattr, Block, Dir, Fsck, M, Env, object_key, name_key, has_row, is_named,
  root_inode, for_each,
}
use s3ql.Fsck.Objects.{
  lost_found, is_null, is_wrong, is_unsized, listed, is_set, check_objects_phys_size,
}
use s3ql.Fsck.Attributes.{
  miscounts, is_orphan, has_no_inode, check_names_refcount, check_ext_attributes_inode,
  check_symlinks_inode,
}
use s3ql.Fsck.Inodes.{is_short, has_no_object, check_inode_blocks_inode}
use s3ql.Fsck.Inodes
use s3ql.Fsck.Loops.{Loop, loopcheck, unreached, inodes_of, anchor_loop, check_loops}
use s3ql.Fsck.Unix.{refers, has_no_dangling, check_foreign_keys}
use s3ql.Fsck.Cache.{check_cache}
use s3ql.Fsck.Temp.{has_temp, check_objects_temp, clear}
use s3ql.Fsck.Cleaned.{has_empty, cleaned_idle}
use s3ql.Fsck.Rows.{delete-not_none}
use s3ql.Fsck.Idle.{
  or_false, refers-count, check_names_refcount_idle, check_objects_hash_idle,
  check_inode_blocks_inode_idle, check_ext_attributes_inode_idle, check_symlinks_inode_idle,
}
use s3ql.Fsck.Untouched.{check_objects_refcount_idle, check_objects_id_idle}
use s3ql.Fsck.Consistent.{
  is_uncounted, is_conventional, is_short_named, check_lof_idle, check_contents_name_idle,
  check_contents_inode_idle, check_contents_parent_inode_idle, check_ext_attributes_name_idle,
  check_inode_blocks_obj_id_idle, check_inodes_size_idle, check_inodes_refcount_idle,
  check_unix_idle,
}
use s3ql.Fsck.Check.{CheckCache, skip, all, keep, cache_step, check_objects, check}

-- The queries of the checks find no error.
pub record IsQuiet (env : Env) (s : Fsck) : Type 0 where
  pub lof : DirEntry
  pub lof_inode : Inode
  pub lof_once : count (is_named s.names (blob lost_found) root_inode) s.contents ≡ 1
  pub lof_there : select (is_named s.names (blob lost_found) root_inode) s.contents ≡ some lof
  pub lof_row : select (has_key inode_key lof.inode) s.inodes ≡ some lof_inode
  pub lof_dir : is_dir lof_inode.mode ≡ true
  pub uncached : s.cached ≡ []
  pub references : has_no_dangling s ≡ true
  pub names_counted : count (miscounts s.contents s.xattrs) s.names ≡ 0
  pub tidy : (d : Dir) → s.prefix ≡ some d → (has_temp d ≡ false) × (has_empty d ≡ false)
  pub hashed : count is_null s.objects ≡ 0
  pub objects_counted : count (is_wrong s.blocks) s.objects ≡ 0
  pub listed_once : is_set (listed (env.list_objects s)) ≡ true
  pub complete :
      (id : ℕ) → member id (listed (env.list_objects s)) ≡ has_row object_key id s.objects
  pub sized : count is_unsized s.objects ≡ 0
  pub inodes_counted : count (is_uncounted s.contents) s.inodes ≡ 0
  pub large_enough : count (is_short env.max_obj_size s.objects s.blocks) s.inodes ≡ 0
  pub reached :
      let loops = loopcheck s.contents s.contents in
      unreached loops root_inode (inodes_of loops) ≡ some []
  pub conventional : All (λ r. is_conventional s r ≡ true) s.inodes
  pub short_named : All (λ e. is_short_named s.names e ≡ true) s.contents

anchor_loop_idle :
    (n : ℕ) (loops : List Loop) (root : ℕ) (left : List ℕ) (s : Fsck)
    → unreached loops root left ≡ some []
    → anchor_loop (suc n) loops root left s ≡ (returned tt, s)
unfolding anchor_loop pure
anchor_loop_idle n loops root left s h = rw (h, anchor_loop) refl

module _ (env : Env) (s : Fsck) (h : IsQuiet env s) where
  cache_step_idle : (cache : CheckCache) → cache_step env cache s ≡ (returned tt, s)
  unfolding cache_step check_cache for_each ◌>>=◌ gets pure
  cache_step_idle skip = refl
  cache_step_idle all = rw h.uncached refl
  cache_step_idle keep = rw h.uncached refl

  check_objects_temp_idle : check_objects_temp s ≡ s
  unfolding check_objects_temp clear
  check_objects_temp_idle = elim (Option-cases s.prefix) [
    | inl e ↦ rw e refl
    | inr (d, e) ↦
        let (t, k) = h.tidy d e in
        rw (e, cleaned_idle d t k, t, or_false s.found_errors false refl) refl
  ]

  check_objects_phys_size_idle : check_objects_phys_size s ≡ (returned tt, s)
  unfolding check_objects_phys_size for_each ◌>>=◌ gets pure
  check_objects_phys_size_idle = rw (delete-not_none is_unsized s.objects h.sized) refl

  check_objects_idle : check_objects env s ≡ (returned tt, s)
  unfolding check_objects ◌>>=◌ modify
  check_objects_idle =
      rw
        (
          check_objects_temp_idle,
          check_objects_hash_idle s h.hashed,
          check_objects_refcount_idle s h.objects_counted,
          check_objects_id_idle env s h.lof_once h.listed_once h.complete,
          check_objects_phys_size_idle,
        )
        refl

  check_loops_idle : check_loops s ≡ (returned tt, s)
  unfolding check_loops ◌>>=◌ gets
  check_loops_idle =
      let loops : List Loop = loopcheck s.contents s.contents in
      anchor_loop_idle (length loops) loops root_inode (inodes_of loops) s h.reached

  check_foreign_keys_idle : check_foreign_keys s ≡ s
  unfolding check_foreign_keys
  check_foreign_keys_idle = rw h.references refl

-- A step that does nothing, and what follows it.
record Idle (s : Fsck) (m : M (Unit {0})) : Type 0 where
  ran : m s ≡ (returned tt, s)

infixr 5 ◌▸◌
◌▸◌ : {m n : M (Unit {0})} {s : Fsck} → Idle s m → Idle s n → Idle s (m >> n)
unfolding ◌>>=◌
a ▸ b = record { ran = rw a.ran b.ran }

idle : {m : M (Unit {0})} {s : Fsck} → m s ≡ (returned tt, s) → Idle s m
idle e = record { ran = e }

modified : (f : Fsck → Fsck) {s : Fsck} → f s ≡ s → Idle s (modify f)
unfolding modify
modified f e = record { ran = rw e refl }

-- What `has_no_dangling` says of each reference.
abbrev HasReferences : Fsck → Type 0
HasReferences s =
    (count (Inodes.has_no_inode s.inodes) s.blocks ≡ 0)
    × (count (has_no_object s.objects) s.blocks ≡ 0)
    × (count (has_no_inode s.inodes) s.symlinks ≡ 0)
    × (refers (λ (r : DirEntry). r.name_id) name_key s.contents s.names ≡ true)
    × (refers (λ (r : DirEntry). r.inode) inode_key s.contents s.inodes ≡ true)
    × (refers (λ (r : DirEntry). r.parent_inode) inode_key s.contents s.inodes ≡ true)
    × (count (is_orphan s.inodes) s.xattrs ≡ 0)
    × (refers (λ (r : Xattr). r.name_id) name_key s.xattrs s.names ≡ true)

and_true : (a b : Bool) → (a && b) ≡ true → (a ≡ true) × (b ≡ true)
and_true true true h = (refl, refl)
and_true true false h = (refl, h)
and_true false true h = (h, refl)
and_true false false h = (h, h)

has_references : (s : Fsck) → has_no_dangling s ≡ true → HasReferences s
unfolding has_no_dangling has_no_object has_no_inode Inodes.has_no_inode is_orphan
has_references s h =
    let block_inode : Bool = refers (λ (r : Block). r.inode) inode_key s.blocks s.inodes in
    let block_object : Bool = refers (λ (r : Block). r.obj_id) object_key s.blocks s.objects in
    let target : Bool = refers (λ (r : Symlink). r.inode) inode_key s.symlinks s.inodes in
    let name : Bool = refers (λ (r : DirEntry). r.name_id) name_key s.contents s.names in
    let inode : Bool = refers (λ (r : DirEntry). r.inode) inode_key s.contents s.inodes in
    let parent : Bool = refers (λ (r : DirEntry). r.parent_inode) inode_key s.contents s.inodes in
    let attr : Bool = refers (λ (r : Xattr). r.inode) inode_key s.xattrs s.inodes in
    let attr_name : Bool = refers (λ (r : Xattr). r.name_id) name_key s.xattrs s.names in
    let (h1, i) =
      and_true (block_inode && block_object && target && name && inode && parent && attr) attr_name
        h in
    let (h2, g) =
      and_true (block_inode && block_object && target && name && inode && parent) attr h1 in
    let (h3, f) = and_true (block_inode && block_object && target && name && inode) parent h2 in
    let (h4, e) = and_true (block_inode && block_object && target && name) inode h3 in
    let (h5, d) = and_true (block_inode && block_object && target) name h4 in
    let (h6, c) = and_true (block_inode && block_object) target h5 in
    let (a, b) = and_true block_inode block_object h6 in
    (
      refers-count (λ r. r.inode) inode_key s.inodes s.blocks a,
      refers-count (λ r. r.obj_id) object_key s.objects s.blocks b,
      refers-count (λ r. r.inode) inode_key s.inodes s.symlinks c,
      d,
      e,
      f,
      refers-count (λ r. r.inode) inode_key s.inodes s.xattrs g,
      i,
    )

-- Then each check does nothing.
pub check_quiet :
    (env : Env) (cache : CheckCache) (s : Fsck)
    → IsQuiet env s
    → check env cache s ≡ (returned tt, s)
unfolding check
check_quiet env cache s h =
    let (blocks_inode, blocks_object, links, name, inode, parent, attr_inode, attr_name) =
      has_references s h.references in
    (idle (check_lof_idle env s h.lof h.lof_inode h.lof_once h.lof_there h.lof_row h.lof_dir)
      ▸ idle (cache_step_idle env s h cache)
      ▸ modified check_names_refcount (check_names_refcount_idle s h.names_counted)
      ▸ idle (check_contents_name_idle s name)
      ▸ idle (check_contents_inode_idle s inode)
      ▸ idle (check_contents_parent_inode_idle s parent)
      ▸ idle (check_objects_idle env s h)
      ▸ idle (check_inode_blocks_obj_id_idle s blocks_object)
      ▸ modified check_inode_blocks_inode (check_inode_blocks_inode_idle s blocks_inode)
      ▸ idle (check_inodes_refcount_idle s h.inodes_counted)
      ▸ idle (check_inodes_size_idle env s h.large_enough)
      ▸ idle (check_ext_attributes_name_idle s attr_name)
      ▸ modified check_ext_attributes_inode (check_ext_attributes_inode_idle s attr_inode)
      ▸ modified check_symlinks_inode (check_symlinks_inode_idle s links)
      ▸ idle (check_loops_idle env s h)
      ▸ idle (check_unix_idle s h.conventional h.short_named)
      ▸ modified check_foreign_keys (check_foreign_keys_idle env s h)).ran
