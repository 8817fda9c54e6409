-- ===== src/Fs/Removal.antt =====
-- `forget`, `_remove`, `unlink`, `rmdir`, `_rename`, `_replace` and `rename` of src/s3ql/fs.py.
use text.Mathlib.Text.{◌==◌ as ◌=text=◌}
use s3ql.Prelude.{
  ℕ, ◌+◌, ◌-◌, ◌/◌, Bool, true, false, ◌&&◌, ◌||◌, not, List, [], ◌∷◌, Option, none, some, String,
  ◌==◌, if◌then◌else◌,
}
use s3ql.Prelude.Int.{pos, negsuc, ◌-ℤ◌}
use s3ql.Prelude.Sql.{update, delete}
use mathlib.Core.Option
use s3ql.Prelude.Effect.{pure, raise, gets, branch, modify, catch, ◌>>=◌, ◌>>◌}
use s3ql.Fs.State.{
  Inode, Error, enoent, eperm, einval, enotempty, eisdir, enotdir, eacces, enotsup, Fs, M, Env,
  has_name, is_entry, get_row, inode, set_inode, is_open, is_dir, ctrl_name, add_name, del_name,
}
use s3ql.Fs.Namespace.{
  has_children, lookup, touch, decr_attr_names, drop_attr_names, delete_inode, ceil_div,
  unless_failsafe,
}

-- `open_inodes[id] -= nlookup`
unfoldable pub close_inode : ℕ → ℕ → Fs → Fs
close_inode id n s = record s {
  open_inodes = λ j.
      if id == j then some (Option.get_or (s.open_inodes j) (pos 0) -ℤ pos n) else s.open_inodes j;
}

-- `open_inodes[id] == 0`
unfoldable pub is_closed : ℕ → Fs → Bool
is_closed id s = elim (s.open_inodes id) [
  | none ↦ true
  | some n ↦ elim n [ pos k ↦ k == 0 | negsuc k ↦ false ]
]

unfoldable pub drop_open : ℕ → Fs → Fs
drop_open id s = record s {
  open_inodes = λ j. if id == j then none else s.open_inodes j;
  broken_blocks = λ j. if id == j then [] else s.broken_blocks j;
}

unfoldable pub delete_entry : ℕ → ℕ → Fs → Fs
delete_entry name_id parent s = record s { contents = delete (is_entry name_id parent) s.contents }

unfoldable pub move_entry : ℕ → ℕ → ℕ → ℕ → Fs → Fs
move_entry name_id parent new_id new_parent s = record s {
  contents =
      update (is_entry name_id parent)
        (λ r. record r { name_id = new_id; parent_inode = new_parent }) s.contents;
}

unfoldable pub retarget : ℕ → ℕ → ℕ → Fs → Fs
retarget name_id parent id s = record s {
  contents = update (is_entry name_id parent) (λ r. record r { inode = id }) s.contents;
}

module _ (env : Env) where
  -- An inode that no entry refers to and that is not open goes, with its blocks and attributes.
  unfoldable pub purge : ℕ → ℕ → M (Unit {0})
  unfolding drop_attr_names delete_inode
  purge id end_no = do env.remove_blocks id 0 end_no; modify (drop_attr_names id); delete_inode id

  unfoldable pub forget_closed : ℕ → M (Unit {0})
  unfolding drop_open inode purge
  forget_closed id = do
    modify (drop_open id)
    row ← inode id
    branch (row.refcount == 0) (purge id (row.size / env.max_obj_size + 1)) (pure tt)

  unfoldable pub forget : List (ℕ × ℕ) → M (Unit {0})
  unfolding close_inode is_closed forget_closed
  forget [] = pure tt
  forget ((id, nlookup) ∷ rest) = do
    modify (close_inode id nlookup)
    closed ← gets (is_closed id)
    branch closed (forget_closed id) (pure tt)
    forget rest

  -- The part of `_remove` behind its checks.
  unfoldable pub remove_checked : ℕ → String → ℕ → ℕ → M (Unit {0})
  unfolding del_name delete_entry set_inode inode purge
  remove_checked id_p name id now = do
    name_id ← del_name name
    modify (delete_entry name_id id_p)
    set_inode id (λ i. record i { refcount = i.refcount - 1; ctime_ns = now })
    set_inode id_p (touch now)
    row ← inode id
    used ← gets (is_open id)
    branch (row.refcount == 0 && not used) (purge id (ceil_div row.size env.max_obj_size)) (pure tt)

  unfoldable pub remove : ℕ → String → ℕ → Bool → M (Unit {0})
  unfolding has_children inode remove_checked
  remove id_p name id force = do
    now ← gets env.time_ns
    full ← gets (has_children id)
    branch full (raise enotempty) do
      row ← inode id_p
      branch (row.locked && not force) (raise eperm) (remove_checked id_p name id now)

  unfoldable pub unlink : ℕ → String → M (Unit {0})
  unfolding unless_failsafe lookup remove forget
  unlink id_p name = unless_failsafe env do
    row ← lookup id_p name
    branch (is_dir row.mode) (raise eisdir)
        do remove id_p name row.id false; forget ((row.id, 1) ∷ [])

  unfoldable pub rmdir : ℕ → String → M (Unit {0})
  unfolding unless_failsafe lookup inode remove forget
  rmdir id_p name = unless_failsafe env do
    row ← lookup id_p name
    row_p ← inode id_p
    branch row_p.locked (raise eperm) (
        branch (not (is_dir row.mode)) (raise enotdir)
          do remove id_p name row.id false; forget ((row.id, 1) ∷ []))

  -- `_rename`
  unfoldable pub rename_entry : ℕ → String → ℕ → String → M (Unit {0})
  unfolding add_name del_name move_entry set_inode
  rename_entry id_p_old name_old id_p_new name_new = do
    now ← gets env.time_ns
    name_id_new ← add_name name_new
    name_id_old ← del_name name_old
    modify (move_entry name_id_old id_p_old name_id_new id_p_new)
    set_inode id_p_old (touch now)
    set_inode id_p_new (touch now)

  -- The end of `_replace`. The blocks stay: `self.cache.remove(…)` is called and not awaited.
  unfoldable pub drop_replaced : ℕ → M (Unit {0})
  unfolding delete_inode
  drop_replaced id = do
    modify (λ s. record s {
      names = delete (λ r. r.refcount == 0) (decr_attr_names id s);
      xattrs = delete (λ x. x.inode == id) s.xattrs;
      symlinks = delete (λ x. x.inode == id) s.symlinks;
    })
    delete_inode id

  -- `_replace`
  unfoldable pub replace_checked : ℕ → String → ℕ → String → ℕ → ℕ → ℕ → M (Unit {0})
  unfolding get_row retarget del_name delete_entry set_inode inode drop_replaced
  replace_checked id_p_old name_old id_p_new name_new id_old id_new now = do
    target ← get_row (λ s. s.names) (has_name name_new)
    modify (retarget target.id id_p_new id_old)
    name_id_old ← del_name name_old
    modify (delete_entry name_id_old id_p_old)
    set_inode id_new (λ i. record i { refcount = i.refcount - 1; ctime_ns = now })
    set_inode id_p_old (touch now)
    set_inode id_p_new (touch now)
    row ← inode id_new
    used ← gets (is_open id_new)
    branch (row.refcount == 0 && not used) (drop_replaced id_new) (pure tt)

  unfoldable pub replace : ℕ → String → ℕ → String → ℕ → ℕ → M (Unit {0})
  unfolding has_children replace_checked
  replace id_p_old name_old id_p_new name_new id_old id_new = do
    now ← gets env.time_ns
    full ← gets (has_children id_new)
    branch full (raise einval)
        (replace_checked id_p_old name_old id_p_new name_new id_old id_new now)

  -- The target of `rename`, if there is one.
  unfoldable pub absent : Error → M (Option Inode)
  absent enoent = pure none
  absent e = raise e

  unfoldable pub lookup_target : ℕ → String → M (Option Inode)
  unfolding lookup absent
  lookup_target id_p name = catch (do row ← lookup id_p name; pure (some row)) absent

  unfoldable pub rename_to : ℕ → String → ℕ → String → Inode → Option Inode → M (Unit {0})
  unfolding replace rename_entry forget
  rename_to id_p_old name_old id_p_new name_new inode_old (some inode_new) = do
    replace id_p_old name_old id_p_new name_new inode_old.id inode_new.id
    forget ((inode_old.id, 1) ∷ (inode_new.id, 1) ∷ [])
  rename_to id_p_old name_old id_p_new name_new inode_old none = do
    rename_entry id_p_old name_old id_p_new name_new
    forget ((inode_old.id, 1) ∷ [])

  unfoldable pub rename : ℕ → String → ℕ → String → ℕ → M (Unit {0})
  unfolding inode lookup lookup_target rename_to
  rename id_p_old name_old id_p_new name_new flags = branch (not (flags == 0)) (raise enotsup) (
      branch (name_new =text= ctrl_name || name_old =text= ctrl_name) (raise eacces) do
        failed ← gets (λ s. s.failsafe)
        branch failed (raise eperm) do
          old_p ← inode id_p_old
          branch old_p.locked (raise eperm) do
            new_p ← inode id_p_new
            branch new_p.locked (raise eperm) do
              inode_old ← lookup id_p_old name_old
              target ← lookup_target id_p_new name_new
              rename_to id_p_old name_old id_p_new name_new inode_old target)
