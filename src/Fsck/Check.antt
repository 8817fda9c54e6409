-- ===== src/Fsck/Check.antt =====
-- `Fsck.check` of src/s3ql/fsck.py: the checks in their order. The indices that it makes and drops are
-- left out.
use s3ql.Prelude.{true, false}
use s3ql.Prelude.Effect.{pure, modify, ◌>>◌}
use s3ql.Fsck.State.{M, Env}
use s3ql.Fsck.Entries.{
  check_lof, check_contents_name, check_contents_inode, check_contents_parent_inode,
}
use s3ql.Fsck.Cache.{check_cache}
use s3ql.Fsck.Attributes.{
  check_names_refcount, check_ext_attributes_name, check_ext_attributes_inode, check_symlinks_inode,
}
use s3ql.Fsck.Temp.{check_objects_temp}
use s3ql.Fsck.Objects.{
  check_objects_hash, check_objects_refcount, check_objects_id, check_objects_phys_size,
}
use s3ql.Fsck.Inodes.{
  check_inode_blocks_obj_id, check_inode_blocks_inode, check_inodes_refcount, check_inodes_size,
}
use s3ql.Fsck.Loops.{check_loops}
use s3ql.Fsck.Unix.{check_unix, check_foreign_keys}

-- The argument `check_cache`
pub data CheckCache : Type 0 where
  skip all keep : CheckCache

unfoldable pub cache_step : Env → CheckCache → M (Unit {0})
unfolding check_cache
cache_step env skip = pure tt
cache_step env all = check_cache env false
cache_step env keep = check_cache env true

unfoldable pub check_objects : Env → M (Unit {0})
unfolding check_objects_temp check_objects_hash check_objects_refcount check_objects_id
    check_objects_phys_size
check_objects env = do
  modify check_objects_temp
  modify check_objects_hash
  check_objects_refcount
  check_objects_id env
  check_objects_phys_size

unfoldable pub check : Env → CheckCache → M (Unit {0})
unfolding check_lof cache_step check_names_refcount check_contents_name check_contents_inode
    check_contents_parent_inode check_objects check_inode_blocks_obj_id check_inode_blocks_inode
    check_inodes_refcount check_inodes_size check_ext_attributes_name check_ext_attributes_inode
    check_symlinks_inode check_loops check_unix check_foreign_keys
check env cache = do
  check_lof env
  cache_step env cache
  modify check_names_refcount
  check_contents_name
  check_contents_inode
  check_contents_parent_inode
  check_objects env
  check_inode_blocks_obj_id
  modify check_inode_blocks_inode
  check_inodes_refcount
  check_inodes_size env
  check_ext_attributes_name
  modify check_ext_attributes_inode
  modify check_symlinks_inode
  check_loops
  check_unix
  modify check_foreign_keys
