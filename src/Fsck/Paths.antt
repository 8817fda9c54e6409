-- ===== src/Fsck/Paths.antt =====
-- Names, paths and new rows in src/s3ql/fsck.py: `_add_name`, `_del_name`, `create_inode` and
-- `resolve_free`, with `get_path` and `inode_for_path` of src/s3ql/common.py.
use s3ql.Prelude.{
  ℕ, zero, suc, ◌+◌, ◌-◌, ◌/◌, ◌%◌, Bool, true, false, not, ◌&&◌, List, [], ◌∷◌, ◌++◌, Option, none,
  some, length, take, drop, map, ltb, ◌==◌, if◌then◌else◌,
}
use s3ql.Prelude.Int.{pos, ◌+ℤ◌, ◌-ℤ◌}
use s3ql.Prelude.Sql.{select, count, update, delete, has_key}
use s3ql.Prelude.Effect.{pure, raise, gets, branch, modify, catch, ◌>>=◌, ◌>>◌}
use s3ql.Fsck.State.{
  Bytes, Value, blob, text, Name, DirEntry, Error, no_such_row, key_error, constraint, unresolved,
  type_error, Fsck, M, Env, name_key, entry_key, eq_value, eq_ℤ, has_row, is_named, max_id,
  first_row, get_row, root_inode,
}

-- `INSERT INTO` and `UPDATE contents`: no two entries of a directory may have the same name.
unfoldable pub is_unique : List DirEntry → Bool
is_unique [] = true
is_unique (r ∷ t) =
    let rest = is_unique t in
    count (λ x. x.name_id == r.name_id && x.parent_inode == r.parent_inode) t == 0 && rest

unfoldable pub put_contents : List DirEntry → M (Unit {0})
unfolding is_unique
put_contents t = branch (is_unique t) (modify (λ s. record s { contents = t })) (raise constraint)

unfoldable pub insert_entry : ℕ → ℕ → ℕ → M (Unit {0})
unfolding put_contents
insert_entry name_id id parent = do
  rowid ← gets (λ s. s.last_entry + 1)
  t ← gets (λ s. s.contents)
  put_contents
      (t ++ (record { rowid = rowid; name_id = name_id; inode = id; parent_inode = parent }) ∷ [])
  modify (λ s. record s { last_entry = rowid })

-- `UPDATE contents SET name_id=?, parent_inode=? WHERE rowid=?`
abbrev pub moved : ℕ → ℕ → DirEntry → DirEntry
moved name_id parent r = record r { name_id = name_id; parent_inode = parent }

unfoldable pub move_entry : ℕ → ℕ → ℕ → M (Unit {0})
unfolding put_contents
move_entry rowid name_id parent = do
  t ← gets (λ s. s.contents)
  put_contents (update (has_key entry_key rowid) (moved name_id parent) t)

-- `_add_name`
abbrev pub more : Name → Name
more r = record r { refcount = r.refcount +ℤ pos 1 }

unfoldable pub add_name_row : Value → Option Name → Fsck → Fsck
unfolding max_id
add_name_row n none s = record s {
  names = s.names ++ (record { id = max_id name_key s.names + 1; name = n; refcount = pos 1 }) ∷ [];
}
add_name_row n (some r) s = record s { names = update (has_key name_key r.id) more s.names }

abbrev pub name_id_of : Option Name → ℕ → ℕ
name_id_of none fresh = fresh
name_id_of (some r) fresh = r.id

unfoldable pub add_name : Value → M ℕ
unfolding add_name_row max_id eq_value
add_name n = do
  row ← gets (λ s. select (λ r. eq_value r.name n) s.names)
  fresh ← gets (λ s. max_id name_key s.names + 1)
  modify (add_name_row n row)
  pure (name_id_of row fresh)

-- `_del_name`
abbrev pub less : Name → Name
less r = record r { refcount = r.refcount -ℤ pos 1 }

unfoldable pub del_name : ℕ → Fsck → Fsck
unfolding eq_ℤ
del_name id s = record s {
  names =
      delete (λ r. eq_ℤ r.refcount (pos 0) && r.id == id)
        (update (has_key name_key id) less s.names);
}

-- `create_inode`
unfoldable pub create_inode : Env → ℕ → ℕ → M ℕ
create_inode env mode refcount = do
  id ← gets (λ s. s.last_inode + 1)
  modify (λ s. record s {
    inodes =
        s.inodes
        ++ (record {
          id = id;
          mode = mode;
          refcount = refcount;
          uid = env.uid;
          gid = env.gid;
          size = 0;
          locked = false;
          rdev = 0;
          atime_ns = env.time_ns;
          mtime_ns = env.time_ns;
          ctime_ns = env.time_ns;
        })
          ∷ [];
    last_inode = id;
  })
  pure id

-- A name that is joined with others has to be bytes.
unfoldable pub bytes_of : Value → M Bytes
bytes_of (blob n) = pure n
bytes_of (text n) = raise type_error

-- `SELECT name, parent_inode FROM contents_v WHERE inode=? LIMIT 1`
unfoldable pub parent_entry : ℕ → M (Value × ℕ)
unfolding first_row has_row
parent_entry id = do
  row ← gets (λ s. select (λ r. r.inode == id && has_row name_key r.name_id s.names) s.contents)
  entry ← first_row row
  named ← gets (λ s. select (has_key name_key entry.name_id) s.names)
  name ← first_row named
  pure (name.name, entry.parent_inode)

-- `b'/'.join`
unfoldable pub join : List Bytes → Bytes
join [] = []
join (x ∷ []) = x
join (x ∷ y ∷ xs) = x ++ 47 ∷ join (y ∷ xs)

-- `get_path`: `n` is what is left of `maxdepth`, and the path is built from its end.
unfoldable pub path_loop : ℕ → ℕ → List Value → M (List Value)
unfolding parent_entry
path_loop zero id path = raise unresolved
path_loop (suc n) id path = branch (id == root_inode) (pure path) do
  (name, parent) ← parent_entry id
  branch (n == 0) (raise unresolved) (path_loop n parent (name ∷ path))

-- `b'/'.join` takes bytes only.
unfoldable pub all_bytes : List Value → M (List Bytes)
unfolding bytes_of
all_bytes [] = pure []
all_bytes (v ∷ vs) = do word ← bytes_of v; words ← all_bytes vs; pure (word ∷ words)

unfoldable pub get_path : ℕ → List Bytes → M Bytes
unfolding path_loop all_bytes join
get_path id name = do
  path ← path_loop 255 id (map blob name)
  words ← all_bytes path
  pure (join ([] ∷ words))

-- `path.lstrip(b"/").rstrip(b"/")`, and `split(b'/')`
unfoldable pub lstrip : Bytes → Bytes
lstrip [] = []
lstrip (x ∷ s) = let rest = lstrip s in if x == 47 then rest else x ∷ s

unfoldable pub rstrip : Bytes → Bytes
rstrip [] = []
rstrip (x ∷ s) =
    let rest = rstrip s in elim rest [ [] ↦ if x == 47 then [] else x ∷ [] | y ∷ ys ↦ x ∷ y ∷ ys ]

abbrev pub cons_first : ℕ → List Bytes → List Bytes
cons_first x [] = (x ∷ []) ∷ []
cons_first x (w ∷ ws) = (x ∷ w) ∷ ws

unfoldable pub split : Bytes → List Bytes
split [] = [] ∷ []
split (x ∷ s) = let rest = split s in if x == 47 then [] ∷ rest else cons_first x rest

-- `except NoSuchRowError: raise e`
unfoldable pub missing : {A : Type 0} → Error → Error → M A
missing e no_such_row = raise e
missing e x = raise x

-- `inode_for_path`
unfoldable pub traverse : List Bytes → ℕ → M ℕ
unfolding get_row is_named missing
traverse [] inode = pure inode
traverse (el ∷ els) inode = do
  names ← gets (λ s. s.names)
  row ← catch (get_row (λ s. s.contents) (is_named names (blob el) inode)) (missing key_error)
  traverse els row.inode

unfoldable pub inode_for_path : Bytes → M ℕ
unfolding lstrip rstrip split traverse
inode_for_path path = traverse (split (rstrip (lstrip path))) root_inode

-- The decimal digits of a number, as `'%d' % n` and `str(n)` have them. A number has at most as many
-- digits as its size.
unfoldable pub digits : ℕ → ℕ → Bytes
digits zero n = (48 + n % 10) ∷ []
digits (suc f) n =
    let rest = digits f (n / 10) in if ltb n 10 then (48 + n) ∷ [] else rest ++ (48 + n % 10) ∷ []

unfoldable pub decimal : ℕ → Bytes
unfolding digits
decimal n = digits n n

-- The names that `resolve_free` tries, and the shortening of a name that is too long.
unfoldable pub shortened : Bytes → Bytes
shortened name =
    if ltb 251 (length name)
    then take 120 name ++ 32 ∷ 46 ∷ 46 ∷ 46 ∷ 32 ∷ drop (length name - 120) name
    else name

unfoldable pub numbered : Bytes → ℕ → Bytes
unfolding decimal
numbered name i = if i == 0 then name else name ++ 45 ∷ decimal i

-- An entry of that name is in the directory.
unfoldable pub is_taken : Bytes → ℕ → Fsck → Bool
unfolding is_named
is_taken name inode_p s = ltb 0 (count (is_named s.names (blob name) inode_p) s.contents)

-- The loop of `resolve_free`: a name is free when there is no such row.
unfoldable pub free_loop : ℕ → ℕ → Bytes → ℕ → M Bytes
unfolding numbered is_taken is_named get_row
free_loop zero i name inode_p = raise unresolved
free_loop (suc n) i name inode_p = do
  taken ← gets (is_taken (numbered name i) inode_p)
  branch (not taken) (pure (numbered name i)) do
    names ← gets (λ s. s.names)
    get_row (λ s. s.contents) (is_named names (blob (numbered name i)) inode_p)
    free_loop n (suc i) name inode_p

-- `resolve_free`
unfoldable pub resolve_free : Bytes → Bytes → M (ℕ × Bytes)
unfolding inode_for_path free_loop shortened
resolve_free path name = do
  inode_p ← inode_for_path path
  rows ← gets (λ s. length s.contents)
  newname ← free_loop (suc rows) 0 (shortened name) inode_p
  pure (inode_p, newname)
