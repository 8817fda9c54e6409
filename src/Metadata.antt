-- ===== src/Metadata.antt =====
-- `cycle_metadata` of src/s3ql/metadata.py: the copies of the metadata that the backend keeps.
pub mod Cycle
mod Tests
use s3ql.Prelude.{ℕ, zero, suc, Bool, true, false, Option, none, some, ◌==◌, if◌then◌else◌}
use s3ql.Prelude.Effect.{
  Outcome, returned, raised, Action, catch, modify, branch, pure, ◌>>=◌, ◌>>◌,
}

-- The keys `s3ql_metadata`, `s3ql_metadata_new` and `s3ql_metadata_bak_<i>`.
pub data Key : Type 0 where
  current fresh : Key
  bak : ℕ → Key

unfoldable pub key_eq : Key → Key → Bool
key_eq current current = true
key_eq fresh fresh = true
key_eq (bak i) (bak j) = i == j
key_eq _ _ = false

pub data Error : Type 0 where
  no_such_object : Error

-- What the backend holds under the keys; objects are only moved, so they are their numbers.
abbrev pub Backend : Type 0
Backend = Key → Option ℕ

unfoldable pub put : Key → Option ℕ → Backend → Backend
unfolding key_eq
put k v b = λ j. if key_eq k j then v else b j

-- `rename` and `copy` of a backend: what they do where the source is there, and where it is not.
unfoldable pub put_moved :
    Bool → Key → Key → Option ℕ → Backend → Outcome Error (Unit {0}) × Backend
unfolding put
put_moved renames src dest none b = (raised no_such_object, b)
put_moved renames src dest (some d) b =
    (returned tt, if renames then put src none (put dest (some d) b) else put dest (some d) b)

-- `cycle_fn`, which is `rename` where the backend has it, and `copy` elsewhere
unfoldable pub cycle_fn : Bool → Key → Key → Action Error Backend (Unit {0})
unfolding put_moved
cycle_fn renames src dest b = put_moved renames src dest (b src) b

-- `try: cycle_fn(src, dest) except NoSuchObject: pass`
unfoldable pub try_cycle : Bool → Key → Key → Action Error Backend (Unit {0})
unfolding cycle_fn catch pure
try_cycle renames src dest = catch (cycle_fn renames src dest) (λ _. pure tt)

-- `for i in range(keep)[::-1]`
unfoldable pub cycle_baks : Bool → ℕ → Action Error Backend (Unit {0})
unfolding try_cycle ◌>>=◌
cycle_baks renames zero = pure tt
cycle_baks renames (suc i) = do try_cycle renames (bak i) (bak (suc i)); cycle_baks renames i

-- The last steps: the new metadata becomes the current one, and is not left behind.
unfoldable pub replace_current : Bool → Action Error Backend (Unit {0})
unfolding cycle_fn put ◌>>=◌
replace_current renames = do
  cycle_fn renames fresh current
  branch renames (pure tt) (modify (put fresh none))

unfoldable pub cycle_metadata : Bool → ℕ → Action Error Backend (Unit {0})
unfolding cycle_baks try_cycle replace_current
cycle_metadata renames keep = do
  cycle_baks renames keep
  try_cycle renames current (bak 0)
  replace_current renames
