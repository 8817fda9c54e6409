-- ===== src/Fs/Size.antt =====
-- `setattr`, `open` and `create` of src/s3ql/fs.py, which may change the size of a file.
use s3ql.Prelude.{ℕ, ◌+◌, ◌/◌, ◌%◌, Bool, ◌||◌, not, Option, none, some, String, ◌==◌}
use s3ql.Prelude.Effect.{pure, raise, gets, branch, modify, catch, ◌>>=◌, ◌>>◌}
use s3ql.BlockCache.Entry.{truncate}
use s3ql.Fs.State.{
  Inode, Error, eperm, einval, eio, no_such_row, corrupted_object, Fs, M, Ctx, Env, inode,
  set_inode, open_inode,
}
use s3ql.Fs.Namespace.{find_entry, ceil_div, create_entry, unless_failsafe}
use s3ql.Fs.Attr.{unless_locked}
use s3ql.Fs.Data.{add_broken, cache_get}

-- The handler of `setattr`.
unfoldable pub truncate_failed : {A : Type 0} → ℕ → ℕ → Error → M A
unfolding add_broken
truncate_failed id b corrupted_object = do modify (add_broken id b); raise eio
truncate_failed id b x = raise x

-- The fields that a `setattr` request sets.
pub record Fields : Type 0 where
  pub mode : Option ℕ
  pub uid : Option ℕ
  pub gid : Option ℕ
  pub atime_ns : Option ℕ
  pub mtime_ns : Option ℕ
  pub size : Option ℕ

abbrev pub set_to : Option ℕ → ℕ → ℕ
set_to none x = x
set_to (some y) x = y

abbrev pub assign_fields : Fields → ℕ → Inode → Inode
assign_fields f now r = record r {
  mode = set_to f.mode r.mode;
  uid = set_to f.uid r.uid;
  gid = set_to f.gid r.gid;
  atime_ns = set_to f.atime_ns r.atime_ns;
  mtime_ns = set_to f.mtime_ns r.mtime_ns;
  ctime_ns = now;
}

module _ (env : Env) (fault : ℕ → ℕ → Fs → Option Error) where
  -- The end of `setattr`, for a new size.
  unfoldable pub resize_file : ℕ → Option ℕ → ℕ → M (Unit {0})
  unfolding set_inode cache_get truncate_failed truncate
  resize_file id none old_size = pure tt
  resize_file id (some size) old_size =
      let last = size / env.max_obj_size in
      let cutoff = size % env.max_obj_size in
      let total = ceil_div old_size env.max_obj_size in
      do
        set_inode id (λ r. record r { size = size })
        branch (cutoff == 0) (env.remove_blocks id last total) do
          env.remove_blocks id (last + 1) total
          catch (cache_get env fault id last (λ el. (tt, truncate el (some cutoff))))
              (truncate_failed id last)

  -- The attributes that the request reports are those of the object, which other requests may have
  -- put out of the cache; here they are those of the row.
  unfoldable pub setattr : ℕ → Fields → M Inode
  unfolding set_inode inode resize_file
  setattr id fields = do
    row ← inode id
    now ← gets env.time_ns
    failed ← gets (λ s. s.failsafe)
    branch (failed || row.locked) (raise eperm)
        do set_inode id (assign_fields fields now); resize_file id fields.size row.size; inode id

  abbrev pub truncated : ℕ → Inode → Fields
  truncated now r = record {
    mode = none;
    uid = none;
    gid = none;
    atime_ns = none;
    mtime_ns = some now;
    size = some 0;
  }

  -- `open`, with the tests of its flags: for writing, and to truncate.
  unfoldable pub open_file : ℕ → Bool → Bool → M (Unit {0})
  unfolding unless_locked inode setattr
  open_file id writes truncates = do
    branch writes (unless_locked env id (pure tt)) (pure tt)
    branch (not truncates) (pure tt) (
        branch (not writes) (raise einval) do
          row ← inode id
          now ← gets env.time_ns
          kind ← gets (λ s. row.mode / 4096 % 16)
          branch (kind == 8) (do setattr id (truncated now row); pure tt)
              (branch (kind == 1 || kind == 6) (pure tt) (raise einval)))

  -- `create`: an entry that is there is opened.
  unfoldable pub create_found : ℕ → String → ℕ → Bool → Bool → Ctx → Option ℕ → M Inode
  unfolding create_entry open_file inode
  create_found id_p name mode writes truncates ctx none = create_entry env id_p name mode ctx 0 0
  create_found id_p name mode writes truncates ctx (some id) = do
    open_file id writes truncates
    inode id

  unfoldable pub no_entry : Error → M (Option ℕ)
  no_entry no_such_row = pure none
  no_entry x = raise x

  unfoldable pub create : ℕ → String → ℕ → Bool → Bool → Ctx → M Inode
  unfolding unless_failsafe find_entry no_entry create_found open_inode
  create id_p name mode writes truncates ctx = unless_failsafe env do
    found ← catch (do row ← find_entry name id_p; pure (some row.inode)) no_entry
    row ← create_found id_p name mode writes truncates ctx found
    modify (open_inode row.id)
    pure row
