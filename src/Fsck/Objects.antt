-- ===== src/Fsck/Objects.antt =====
-- The checks of `objects` in src/s3ql/fsck.py, against the blocks that refer to them and against what
-- the backend holds.
use s3ql.Prelude.{
  ℕ, Bool, true, not, ◌&&◌, ◌||◌, List, [], ◌∷◌, Option, none, some, ◌==◌, if◌then◌else◌,
}
use s3ql.Prelude.Int.{pos, negsuc}
use s3ql.Prelude.Sql.{select, count, update, delete, has_key}
use s3ql.Prelude.Effect.{pure, raise, gets, branch, modify, ◌>>=◌, ◌>>◌}
use s3ql.BlockCache.State.{member}
use s3ql.Fsck.State.{
  blob, Object, Block, Stored, constraint, no_such_object, Fsck, M, Env, object_key, stored_key,
  has_row, is_some, eq_ℤ, root_inode, found_error, for_each, get_row, is_named,
}

-- b"lost+found"
abbrev pub lost_found : List ℕ
lost_found = 108 ∷ 111 ∷ 115 ∷ 116 ∷ 43 ∷ 102 ∷ 111 ∷ 117 ∷ 110 ∷ 100 ∷ []

abbrev pub is_null : Object → Bool
is_null r = not (is_some r.hash)

unfoldable pub check_objects_hash : Fsck → Fsck
unfolding is_some found_error
check_objects_hash s =
    if count is_null s.objects == 0
    then s
    else record (found_error s) { objects = delete is_null s.objects }

-- `refcounts`: how many blocks refer to an object. There is no row for 0.
abbrev pub uses : ℕ → List Block → ℕ
uses id blocks = count (λ r. r.obj_id == id) blocks

-- `wrong_refcounts`
unfoldable pub is_wrong : List Block → Object → Bool
unfolding eq_ℤ
is_wrong blocks r = not (eq_ℤ r.refcount (pos (uses r.id blocks))) || uses r.id blocks == 0

-- Object was unlinked by check_cache
unfoldable pub is_expected : List Block → List ℕ → Object → Bool
unfolding eq_ℤ member
is_expected blocks unlinked r =
    uses r.id blocks == 0 && member r.id unlinked && eq_ℤ r.refcount (pos 0)

abbrev pub with_refcount : ℕ → Object → Object
with_refcount n r = record r { refcount = pos n }

unfoldable pub fix_object : List Block → Object → List Object → List Object
fix_object blocks r t =
    if uses r.id blocks == 0
    then delete (has_key object_key r.id) t
    else update (has_key object_key r.id) (with_refcount (uses r.id blocks)) t

unfoldable pub fix_objects : List Block → List Object → List Object → List Object
unfolding fix_object
fix_objects blocks [] t = t
fix_objects blocks (r ∷ wrong) t = fix_objects blocks wrong (fix_object blocks r t)

-- The first loop of `check_objects_refcount`
unfoldable pub fix_refcounts : Fsck → Fsck
unfolding fix_objects is_wrong is_expected
fix_refcounts s =
    let wrong = delete (λ r. not (is_wrong s.blocks r)) s.objects in
    record s {
      objects = fix_objects s.blocks wrong s.objects;
      found_errors =
          s.found_errors
          || not (count (λ r. not (is_expected s.blocks s.unlinked_objects r)) wrong == 0);
    }

-- `del self.backend['s3ql_data_%d' % obj_id]`
unfoldable pub delete_stored : ℕ → M (Unit {0})
unfolding has_row
delete_stored id = do
  there ← gets (λ s. has_row stored_key id s.stored)
  branch there (modify (λ s. record s { stored = delete (has_key stored_key id) s.stored }))
      (raise no_such_object)

abbrev pub is_unused : Object → Bool
is_unused r = eq_ℤ r.refcount (pos 0)

unfoldable pub check_objects_refcount : M (Unit {0})
unfolding fix_refcounts delete_stored for_each eq_ℤ
check_objects_refcount = do
  modify fix_refcounts
  unused ← gets (λ s. delete (λ r. not (is_unused r)) s.objects)
  for_each unused (λ r. delete_stored r.id)
  modify (λ s. record s { objects = delete is_unused s.objects })

-- The names that the backend lists become numbers in `obj_ids`, a table with a primary key.
unfoldable pub listed : List (Option ℕ) → List ℕ
listed [] = []
listed (none ∷ names) = listed names
listed (some id ∷ names) = id ∷ listed names

unfoldable pub is_set : List ℕ → Bool
unfolding member
is_set [] = true
is_set (id ∷ ids) = let rest = is_set ids in not (member id ids) && rest

-- An object that is in the backend only
unfoldable pub drop_spurious : List Object → ℕ → Fsck → Fsck
unfolding has_row member found_error
drop_spurious objects id s =
    if not (has_row object_key id objects) && has_row stored_key id s.stored
    then record s {
      stored = delete (has_key stored_key id) s.stored;
      found_errors = s.found_errors || not (member id s.unlinked_objects);
    }
    else s

unfoldable pub drop_all_spurious : List Object → List ℕ → Fsck → Fsck
unfolding drop_spurious
drop_all_spurious objects [] s = s
drop_all_spurious objects (id ∷ ids) s = drop_all_spurious objects ids (drop_spurious objects id s)

-- An object that is in the table only. It may be there and not be listed yet.
unfoldable pub is_missing : List ℕ → List Stored → Object → Bool
unfolding member has_row
is_missing ids stored r = not (member r.id ids) && not (has_row stored_key r.id stored)

unfoldable pub drop_missing : List ℕ → Fsck → Fsck
unfolding is_missing
drop_missing ids s = record s {
  objects = delete (is_missing ids s.stored) s.objects;
  found_errors = s.found_errors || not (count (is_missing ids s.stored) s.objects == 0);
}

unfoldable pub check_objects_id : Env → M (Unit {0})
unfolding get_row is_named listed is_set drop_all_spurious drop_missing
check_objects_id env = do
  names ← gets (λ s. s.names)
  get_row (λ s. s.contents) (is_named names (blob lost_found) root_inode)
  ids ← gets (λ s. listed (env.list_objects s))
  branch (not (is_set ids)) (raise constraint)
      do modify (λ s. drop_all_spurious s.objects ids s); modify (drop_missing ids)

-- `self.backend.get_size('s3ql_data_%d' % obj_id)`
unfoldable pub get_size : ℕ → M ℕ
get_size id = do row ← gets (λ s. select (has_key stored_key id) s.stored); found row
  where
    found : Option Stored → M ℕ
    found none = raise no_such_object
    found (some r) = pure r.size

abbrev pub is_unsized : Object → Bool
is_unsized r = eq_ℤ r.phys_size (negsuc 0)

abbrev pub with_size : ℕ → Object → Object
with_size n r = record r { phys_size = pos n }

unfoldable pub check_phys_size : Object → M (Unit {0})
unfolding get_size found_error
check_phys_size r = do
  modify found_error
  size ← get_size r.id
  modify (λ s. record s { objects = update (has_key object_key r.id) (with_size size) s.objects })

unfoldable pub check_objects_phys_size : M (Unit {0})
unfolding check_phys_size for_each eq_ℤ
check_objects_phys_size = do
  rows ← gets (λ s. delete (λ r. not (is_unsized r)) s.objects)
  for_each rows check_phys_size
