-- ===== src/BlockCache/Flush.antt =====
-- `_do_upload` and `upload_if_dirty` of src/s3ql/block_cache.py.
use s3ql.Prelude.{◌-◌, ℕ, Bool, true, false, not, ◌∷◌, Option, none, some, ◌==◌, if◌then◌else◌}
use s3ql.Prelude.Sql.{update, has_key}
use s3ql.Prelude.Effect.{pure, raise, gets, branch, modify, catch, ◌>>=◌, ◌>>◌}
use s3ql.BlockCache.Entry.{read_all}
use s3ql.BlockCache.State.{
  State, Error, Env, M, obj_key, block_key, id_of, member, put_entry, find_slot, block_object,
  pause, acquire, release,
}
use s3ql.BlockCache.Upload.{
  insert_object, link_block, incr_refcount, object_with_hash, remove_from_transit, clean_entry,
  queue_upload, deref_obj,
}

unfoldable pub option_eq : Option ℕ → Option ℕ → Bool
option_eq none none = true
option_eq (some x) (some y) = x == y
option_eq _ _ = false

-- What the checks of `upload_if_dirty` find once the lock is held.
pub data Check : Type 0 where
  gone transit clean todo : Check

unfoldable pub check_entry : ℕ → ℕ → ℕ → State → Check
unfolding option_eq find_slot
check_entry e i b s =
    if not (option_eq (find_slot i b s) (some e))
    then gone
    else if member e s.in_transit
    then transit
    else if not (s.heap e).dirty
    then clean
    else todo

-- The database part of `_do_upload`: what the event loop does when the upload is over.
unfoldable pub upload_done : ℕ → ℕ → Option ℕ → State → State
unfolding clean_entry
upload_done e obj (some obj_size) s = clean_entry e (record s {
  objects = update (has_key id_of obj) (λ o. record o { phys_size = some obj_size }) s.objects;
})
upload_done e obj none s = record s {
  objects = update (has_key id_of obj) (λ o. record o { hash = none }) s.objects;
}

-- The object that `do_write` sends to the backend; a failed upload stores nothing.
unfoldable pub store_object : ℕ → ℕ → Option ℕ → State → State
unfolding put_entry
store_object e obj none s = s
store_object e obj (some _) s =
    let (buf, el) = read_all (s.heap e) in
    let s' = put_entry e el s in
    record s' { stored = λ j. if obj == j then some buf else s.stored j }

-- An upload that raises ends the thread that has taken it.
unfoldable pub end_thread : Option ℕ → State → State
end_thread none s = record s { upload_threads = s.upload_threads - 1 }
end_thread (some _) s = s

module _ (env : Env) where
  -- One item of `_upload_loop`. The result of `perform_write` is the size of the stored object, or
  -- `none` if it raises.
  unfoldable pub do_upload : ℕ → ℕ → Option ℕ → M (Unit {0})
  unfolding store_object upload_done remove_from_transit pause release end_thread
  do_upload e obj result = do
    modify (store_object e obj result)
    pause env
    modify (remove_from_transit e)
    modify (upload_done e obj result)
    el ← gets (λ s. s.heap e)
    release env false (obj_key obj)
    release env false (block_key el.inode el.blockno)
    modify (end_thread result)

  -- `except:` of the first half: before the entry was added to `in_transit`, and after.
  unfoldable pub give_up : {A : Type 0} → ℕ → ℕ → Bool → ℕ → Error → M A
  give_up i b added e x = do
    modify (λ s. if added then remove_from_transit e s else s)
    release env false (block_key i b)
    raise x

  unfoldable pub release_taken : Option ℕ → M (Unit {0})
  unfolding release
  release_taken none = pure tt
  release_taken (some obj) = release env false (obj_key obj)

  -- `except:` of the second half; `locked` is the object whose lock has been taken.
  unfoldable pub undo : {A : Type 0} → ℕ → ℕ → Option ℕ → ℕ → Error → M A
  undo i b locked e x = do
    modify (remove_from_transit e)
    release env true (block_key i b)
    release_taken locked
    raise x

  unfoldable pub early_return : ℕ → ℕ → Check → M (Option Bool)
  unfolding release
  early_return i b gone = do release env false (block_key i b); pure (some false)
  early_return i b transit = do release env false (block_key i b); pure (some true)
  early_return i b clean = do release env false (block_key i b); pure (some false)
  early_return i b todo = pure none

  -- The checks under the lock: `some r` is an early return of r.
  unfoldable pub check_locked : ℕ → ℕ → ℕ → M (Option Bool)
  unfolding check_entry early_return give_up
  check_locked e i b =
      catch (do c ← gets (check_entry e i b); early_return i b c) (give_up i b false e)

  -- The entry joins `in_transit`, and a thread reads it for its hash.
  unfoldable pub hash_entry : ℕ → M ℕ
  unfolding put_entry pause
  hash_entry e = do
    modify (λ s. record s { in_transit = e ∷ s.in_transit })
    pause env
    buf ← gets (λ s. (read_all (s.heap e)).0)
    modify (λ s. put_entry e (read_all (s.heap e)).1 s)
    pure (env.sha256 buf)

  -- No object has this hash: a new one is created, locked and queued.
  unfoldable pub upload_new : ℕ → ℕ → ℕ → ℕ → M Bool
  unfolding insert_object link_block acquire queue_upload undo
  upload_new e i b hash = do
    size ← gets (λ s. (s.heap e).size)
    modify (insert_object hash size)
    obj ← gets (λ s. s.last_object)
    modify (link_block obj i b)
    catch (acquire env (obj_key obj)) (undo i b none e)
    catch (queue_upload env e obj) (undo i b (some obj) e)
    pure true

  -- An object has this hash: the block is linked to it, unless it is already.
  unfoldable pub relink : ℕ → ℕ → ℕ → ℕ → Option ℕ → M (Unit {0})
  unfolding incr_refcount link_block clean_entry remove_from_transit release undo
  relink e i b obj old = do
    modify (λ s. if option_eq old (some obj) then s else link_block obj i b (incr_refcount obj s))
    modify (clean_entry e)
    modify (remove_from_transit e)
    catch (release env false (block_key i b)) (undo i b none e)

  -- `if old_obj_id:` and the reference that the block has given up
  unfoldable pub drop_old : Option ℕ → M (Unit {0})
  unfolding deref_obj
  drop_old none = pure tt
  drop_old (some old) = branch (old == 0) (pure tt) (deref_obj env old)

  -- The second half, once both the block's object and the object with the hash are known.
  unfoldable pub link_found : ℕ → ℕ → ℕ → ℕ → Option ℕ → Option ℕ → M Bool
  unfolding drop_old upload_new relink
  link_found e i b hash old none = do taken ← upload_new e i b hash; drop_old old; pure taken
  link_found e i b hash old (some obj) = do
    relink e i b obj old
    branch (option_eq old (some obj)) (pure false) (do drop_old old; pure false)

  unfoldable pub link_hash : ℕ → ℕ → ℕ → ℕ → M Bool
  unfolding object_with_hash block_object option_eq link_found
  link_hash e i b hash = do
    old ← gets (block_object i b)
    found ← gets (object_with_hash hash)
    link_found e i b hash old found

  -- After the checks: an early return, or the upload.
  unfoldable pub upload_checked : ℕ → ℕ → ℕ → Option Bool → M Bool
  unfolding hash_entry give_up link_hash
  upload_checked e i b (some r) = pure r
  upload_checked e i b none = do
    hash ← catch (hash_entry e) (give_up i b true e)
    link_hash e i b hash

  unfoldable pub upload_if_dirty : ℕ → M Bool
  unfolding acquire check_locked upload_checked
  upload_if_dirty e = do
    queued ← gets (λ s. member e s.in_transit)
    el ← gets (λ s. s.heap e)
    branch queued (pure true) (
        branch (not el.dirty) (pure false) do
          acquire env (block_key el.inode el.blockno)
          early ← check_locked e el.inode el.blockno
          upload_checked e el.inode el.blockno early)
