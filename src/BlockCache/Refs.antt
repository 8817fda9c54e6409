-- ===== src/BlockCache/Refs.antt =====
-- Reference counts against the blocks that refer to an object (`objects.refcount` and
-- `inode_blocks.obj_id`): the invariant, and the statements that change one or the other.
pub mod Link
pub mod Uploads
pub mod Flushes
pub mod Dirty
pub mod Removal
pub mod Operations
pub mod Worker
use mathlib.Core.Option
use s3ql.Prelude.{
  ℕ, ◌+◌, ◌-◌, ◌≤◌, ◌<◌, ◌≡◌, refl, Bool, true, false, List, ◌∷◌, Option, none, some, inl, inr,
  arith, ltb, ◌==◌,
}
use s3ql.Prelude.Sql.{select, count, has_key, select-update, select-delete, select-insert}
use s3ql.BlockCache.State.{Object, Block, State, is_block, id_of, find_object}
use s3ql.BlockCache.Upload.{insert_object, incr_refcount, decr_refcount, delete_object}

-- `SELECT refcount`, and 0 where there is no row.
abbrev pub refcount_of : ℕ → State → ℕ
refcount_of id s = elim (select (has_key id_of id) s.objects) [ none ↦ 0 | some o ↦ o.refcount ]

abbrev pub refers : ℕ → Block → Bool
refers id r = r.obj_id == id

-- The number of blocks that refer to an object.
abbrev pub refs : ℕ → State → ℕ
refs id s = count (refers id) s.blocks

abbrev pub owed : ℕ → List ℕ → ℕ
owed id d = count (λ x. x == id) d

-- Every object counts the blocks that refer to it, and the references of `d`, which are given up
-- and not yet taken off; ids grow from 1; a block has one row at most.
pub record IsBalanced (d : List ℕ) (s : State) : Type 0 where
  pub balanced : (id : ℕ) → refcount_of id s ≡ refs id s + owed id d
  pub fresh : (id : ℕ) → s.last_object < id → select (has_key id_of id) s.objects ≡ none
  pub nonzero : select (has_key id_of 0) s.objects ≡ none
  pub unique : (i b : ℕ) → count (is_block i b) s.blocks ≤ 1

-- What is left to take off after a block has been linked elsewhere.
abbrev pub gives_up : Option ℕ → List ℕ → List ℕ
gives_up none d = d
gives_up (some old) d = old ∷ d

module _ (obj : ℕ) (d : List ℕ) (s : State) where
  pub decr_refcount-IsBalanced :
      (o : Object)
      → find_object obj s ≡ some o
      → ltb 1 o.refcount ≡ true
      → IsBalanced (obj ∷ d) s
      → IsBalanced d (decr_refcount obj s)
  unfolding decr_refcount find_object
  decr_refcount-IsBalanced o found more h = record {
    balanced = λ id. ground (
      arith,
      h.balanced id,
      select-update id_of id obj (λ o. record o { refcount = o.refcount - 1 }) s.objects
          (λ r. refl),
    );
    fresh = λ id lt. ground (
      arith,
      h.fresh id lt,
      select-update id_of id obj (λ o. record o { refcount = o.refcount - 1 }) s.objects
          (λ r. refl),
    );
    nonzero = ground (
      arith,
      h.nonzero,
      select-update id_of 0 obj (λ o. record o { refcount = o.refcount - 1 }) s.objects (λ r. refl),
    );
    unique = h.unique;
  }

  pub delete_object-IsBalanced :
      (o : Object)
      → find_object obj s ≡ some o
      → ltb 1 o.refcount ≡ false
      → IsBalanced (obj ∷ d) s
      → IsBalanced d (delete_object obj s)
  unfolding delete_object find_object
  delete_object-IsBalanced o found few h = record {
    balanced =
        λ id. ground (arith, h.balanced id, h.balanced obj, select-delete id_of id obj s.objects);
    fresh = λ id lt. ground (arith, h.fresh id lt, select-delete id_of id obj s.objects);
    nonzero = ground (arith, h.nonzero, select-delete id_of 0 obj s.objects);
    unique = h.unique;
  }

  pub incr_refcount-IsBalanced :
      (o : Object)
      → find_object obj s ≡ some o
      → IsBalanced d s
      → IsBalanced (obj ∷ d) (incr_refcount obj s)
  unfolding incr_refcount find_object
  incr_refcount-IsBalanced o found h = record {
    balanced = λ id. ground (
      arith,
      h.balanced id,
      select-update id_of id obj (λ o. record o { refcount = o.refcount + 1 }) s.objects
          (λ r. refl),
    );
    fresh = λ id lt. ground (
      arith,
      h.fresh id lt,
      select-update id_of id obj (λ o. record o { refcount = o.refcount + 1 }) s.objects
          (λ r. refl),
    );
    nonzero = ground (
      arith,
      h.nonzero,
      select-update id_of 0 obj (λ o. record o { refcount = o.refcount + 1 }) s.objects (λ r. refl),
    );
    unique = h.unique;
  }

  pub insert_object-IsBalanced :
      (hash size : ℕ)
      → IsBalanced d s
      → IsBalanced ((s.last_object + 1) ∷ d) (insert_object hash size s)
  unfolding insert_object
  insert_object-IsBalanced hash size h = record {
    balanced = λ id. ground (
      arith,
      h.balanced id,
      h.fresh (s.last_object + 1) (omega arith),
      select-insert id_of id s.objects new,
    );
    fresh = λ id lt. ground (arith, h.fresh id (omega arith), select-insert id_of id s.objects new);
    nonzero = ground (arith, h.nonzero, select-insert id_of 0 s.objects new);
    unique = h.unique;
  }
    where
      new : Object
      new = record {
        id = s.last_object + 1;
        hash = some hash;
        refcount = 1;
        phys_size = none;
        size = size;
      }
