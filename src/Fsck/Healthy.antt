-- ===== src/Fsck/Healthy.antt =====
-- A file system without errors, told by its tables, and `Fsck.check` of src/s3ql/fsck.py on it.
use s3ql.Prelude.{
  ℕ, ◌+◌, ◌*◌, ◌≤◌, ◌<◌, ◌≡◌, ◌⊎◌, refl, ap, Bool, true, false, not, ◌&&◌, ◌||◌, List, [], ◌∷◌,
  none, some, All, arith, ltb, ◌==◌, if◌then◌else◌, inl, inr, length, Bool-cases, Option-cases,
}
use s3ql.Prelude.Int.{pos}
use s3ql.Prelude.Sql.{select, count, has_key}
use s3ql.Prelude.Effect.{returned}
use s3ql.BlockCache.State.{member}
use s3ql.Fs.State.{Inode, Symlink, inode_key, is_dir, is_reg, ctrl_inode}
use s3ql.Fsck.State.{
  blob, Name, DirEntry, Xattr, Block, Object, Dir, empty, file, folder, Fsck, Env, object_key,
  name_key, symlink_key, has_row, is_named, root_inode, eq_ℤ, is_some,
}
use s3ql.Fsck.Objects.{lost_found, is_null, is_wrong, is_unsized, listed, is_set}
use s3ql.Fsck.Attributes.{miscounts}
use s3ql.Fsck.Inodes.{is_short, min_size, block_end, is_miscounted}
use s3ql.Fsck.Reached.{HasLevel, reached_lem}
use s3ql.Fsck.Unix.{ifmt, is_lnk, is_device, violations, value_length, refers, has_no_dangling}
use s3ql.Fsck.Temp.{is_temp, has_temp}
use s3ql.Fsck.Cleaned.{is_empty, has_empty}
use s3ql.Fsck.Consistent.{All-map, is_uncounted, is_conventional, is_short_named}
use s3ql.Fsck.Quiet.{IsQuiet, check_quiet}
use s3ql.Fsck.Check.{CheckCache, check}

-- No temporary file and no empty directory.
abbrev pub IsTidy : Dir → Type 0
IsTidy empty = Unit {0}
IsTidy (file name d) = (is_temp name ≡ false) × IsTidy d
IsTidy (folder name e d) = (is_empty e ≡ false) × IsTidy e × IsTidy d

-- The type of an inode (8 a file, 4 a directory, 10 a symbolic link, 2 and 6 a device), and what may go with it: the target of a symbolic link, and its length, a device number,
-- entries, and blocks.
pub record IsTyped (s : Fsck) (r : Inode) : Type 0 where
  pub typed : 0 < ifmt r.mode
  pub link :
      ifmt r.mode ≡ 10
      → (t : Symlink) × (select (has_key symlink_key r.id) s.symlinks ≡ some t)
        × (r.size ≡ length t.target)
  pub no_link : (ifmt r.mode == 10) ≡ false → select (has_key symlink_key r.id) s.symlinks ≡ none
  pub sized : 0 < r.size → (ifmt r.mode ≡ 8) ⊎ (ifmt r.mode ≡ 10) ⊎ (ifmt r.mode ≡ 4)
  pub device : 0 < r.rdev → (ifmt r.mode ≡ 2) ⊎ (ifmt r.mode ≡ 6)
  pub folder : 0 < count (λ e. e.parent_inode == r.id) s.contents → ifmt r.mode ≡ 4
  pub regular : 0 < count (λ b. b.inode == r.id) s.blocks → ifmt r.mode ≡ 8

-- A test that fails where a number is above 0.
guarded : (n : ℕ) (b : Bool) → (0 < n → b ≡ true) → (ltb 0 n && not b) ≡ false
guarded n b h = elim (Bool-cases (ltb 0 n)) [
  | inl e ↦ ground (arith, e, h (ground (arith, e)))
  | inr e ↦ ground (arith, e)
]

sized_lem :
    (n mode : ℕ)
    → (0 < n → (ifmt mode ≡ 8) ⊎ (ifmt mode ≡ 10) ⊎ (ifmt mode ≡ 4))
    → (not (n == 0) && not (is_reg mode) && not (is_lnk mode) && not (is_dir mode)) ≡ false
sized_lem n mode h = elim (Bool-cases (ltb 0 n)) [
  | inr e ↦ ground (arith, e)
  | inl e ↦ elim (h (ground (arith, e))) [
    | inl f ↦ rw f (ground arith)
    | inr (inl f) ↦ rw f (ground arith)
    | inr (inr f) ↦ rw f (ground arith)
  ]
]

of_device : (mode : ℕ) → (ifmt mode ≡ 2) ⊎ (ifmt mode ≡ 6) → is_device mode ≡ true
of_device mode (inl e) = rw e refl
of_device mode (inr e) = rw e refl

IsTyped-conventional : (s : Fsck) (r : Inode) → IsTyped s r → is_conventional s r ≡ true
unfolding violations
IsTyped-conventional s r h =
    let a = sized_lem r.size r.mode h.sized in
    let b = guarded r.rdev (is_device r.mode) (λ k. of_device r.mode (h.device k)) in
    let c =
      guarded (count (λ e. e.parent_inode == r.id) s.contents) (is_dir r.mode)
        (λ k. rw (h.folder k) refl) in
    let d =
      guarded (count (λ b. b.inode == r.id) s.blocks) (is_reg r.mode)
        (λ k. rw (h.regular k) refl) in
    elim (Bool-cases (is_lnk r.mode)) [
      | inl e ↦
          let (t, there, size) = h.link (ground (arith, e)) in
          rw there (ground (arith, h.typed, a, b, c, d, e, size))
      | inr e ↦ rw (h.no_link e) (ground (arith, h.typed, a, b, c, d, e))
    ]

All-count : {A : Type 0} (p : A → Bool) (t : List A) → All (λ r. p r ≡ false) t → count p t ≡ 0
All-count p [] h = refl
All-count p (r ∷ t) (h, hs) = ground (arith, h, All-count p t hs)

All-refers :
    {A B : Type 0} (ref : A → ℕ) (key : B → ℕ) (rows : List A) (t : List B)
    → All (λ r. has_row key (ref r) t ≡ true) rows
    → refers ref key rows t ≡ true
unfolding refers
All-refers ref key [] t h = refl
All-refers ref key (r ∷ rows) t (h, hs) = ground (arith, h, All-refers ref key rows t hs)

eq_ℤ_refl : (n : ℕ) → eq_ℤ (pos n) (pos n) ≡ true
unfolding eq_ℤ
eq_ℤ_refl n = ground arith

sized_right : (o : Object) (n : ℕ) → o.phys_size ≡ pos n → is_unsized o ≡ false
unfolding eq_ℤ
sized_right o n e = rw e refl

tidy-has_temp : (d : Dir) → IsTidy d → (has_temp d ≡ false) × (has_empty d ≡ false)
unfolding has_temp
tidy-has_temp empty h = (refl, refl)
tidy-has_temp (file name d) (t, h) = let (a, b) = tidy-has_temp d h in (ground (arith, t, a), b)
tidy-has_temp (folder name e d) (k, h, g) =
    let (a, b) = tidy-has_temp e h in
    let (c, f) = tidy-has_temp d g in (ground (arith, a, c), ground (arith, k, b, f))

-- The end of each block that has an object.
abbrev pub Reaches : ℕ → List Object → Inode → Block → Type 0
Reaches max_obj_size objects r b =
    (o : Object)
    → (b.inode == r.id) ≡ true
    → select (has_key object_key b.obj_id) objects ≡ some o
    → b.blockno * max_obj_size + o.length ≤ r.size

block_end-le :
    (m n : ℕ) (objects : List Object) (b : Block)
    → ((o : Object)
        → select (has_key object_key b.obj_id) objects ≡ some o
        → b.blockno * m + o.length ≤ n)
    → block_end m objects b ≤ n
unfolding block_end
block_end-le m n objects b h = elim (Option-cases (select (has_key object_key b.obj_id) objects)) [
  | inl f ↦ rw (block_end, f) (omega arith)
  | inr (o, f) ↦ rw (block_end, f) (h o f)
]

Reaches-min_size :
    (m : ℕ) (objects : List Object) (r : Inode) (blocks : List Block)
    → All (Reaches m objects r) blocks
    → min_size m objects r.id blocks ≤ r.size
unfolding min_size
Reaches-min_size m objects r [] h = omega arith
Reaches-min_size m objects r (b ∷ blocks) (h, hs) =
    let ih = Reaches-min_size m objects r blocks hs in
    elim (Bool-cases (b.inode == r.id)) [
      | inr e ↦ rw e ih
      | inl e ↦ rw e (ground (arith, ih, block_end-le m r.size objects b (λ o f. h o e f)))
    ]

member-count : (x : ℕ) (ids : List ℕ) → member x ids ≡ ltb 0 (count (λ y. y == x) ids)
unfolding member
member-count x [] = refl
member-count x (y ∷ ids) = ground (arith, member-count x ids)

is_set-once : (ids : List ℕ) → ((id : ℕ) → count (λ x. x == id) ids ≤ 1) → is_set ids ≡ true
unfolding is_set
is_set-once [] h = refl
is_set-once (x ∷ ids) h =
    ground (arith, h x, member-count x ids, is_set-once ids (λ id. ground (arith, h id)))

ids_once :
    (ids : List ℕ) (there : ℕ → Bool)
    → ((id : ℕ) → count (λ x. x == id) ids ≡ (if there id then 1 else 0))
    → (is_set ids ≡ true) × ((id : ℕ) → member id ids ≡ there id)
ids_once ids there h =
    (is_set-once ids (λ id. ground (arith, h id)), λ id. ground (arith, h id, member-count id ids))

-- The counts of the rows that refer to a row.
abbrev IsCounted : Fsck → Object → Type 0
IsCounted s o =
    (0 < count (λ b. b.obj_id == o.id) s.blocks)
    × (o.refcount ≡ pos (count (λ b. b.obj_id == o.id) s.blocks))

abbrev IsLinked : Fsck → Inode → Type 0
IsLinked s r =
    ((r.id == root_inode || r.id == ctrl_inode) ≡ true)
    ⊎ ((0 < count (λ e. e.inode == r.id) s.contents)
        × (r.refcount ≡ count (λ e. e.inode == r.id) s.contents))

-- A file system without errors.
pub record IsHealthy (env : Env) (s : Fsck) : Type 0 where
  -- lost+found is one directory below the root.
  pub lof : DirEntry
  pub lof_inode : Inode
  pub lof_once : count (is_named s.names (blob lost_found) root_inode) s.contents ≡ 1
  pub lof_there : select (is_named s.names (blob lost_found) root_inode) s.contents ≡ some lof
  pub lof_row : select (has_key inode_key lof.inode) s.inodes ≡ some lof_inode
  pub lof_dir : is_dir lof_inode.mode ≡ true
  -- Nothing is left in the cache, and the directory of a local backend is clean.
  pub uncached : s.cached ≡ []
  pub tidy : (d : Dir) → s.prefix ≡ some d → IsTidy d
  -- Every reference is to a row that is there.
  pub block_inodes : All (λ b. has_row inode_key b.inode s.inodes ≡ true) s.blocks
  pub block_objects : All (λ b. has_row object_key b.obj_id s.objects ≡ true) s.blocks
  pub link_inodes : All (λ t. has_row inode_key t.inode s.inodes ≡ true) s.symlinks
  pub entry_names : All (λ e. has_row name_key e.name_id s.names ≡ true) s.contents
  pub entry_inodes : All (λ e. has_row inode_key e.inode s.inodes ≡ true) s.contents
  pub entry_parents : All (λ e. has_row inode_key e.parent_inode s.inodes ≡ true) s.contents
  pub xattr_inodes : All (λ x. has_row inode_key x.inode s.inodes ≡ true) s.xattrs
  pub xattr_names : All (λ x. has_row name_key x.name_id s.names ≡ true) s.xattrs
  -- Names, objects and inodes have the numbers of the rows that refer to them.
  pub names_counted :
      All
        (λ n.
          n.refcount
          ≡ pos
              (count (λ e. e.name_id == n.id) s.contents + count (λ x. x.name_id == n.id) s.xattrs))
        s.names
  pub objects_counted : All (IsCounted s) s.objects
  pub inodes_counted : All (IsLinked s) s.inodes
  -- The objects are those that the backend lists, each once, and have a hash and a size.
  pub complete :
      (id : ℕ)
      → count (λ x. x == id) (listed (env.list_objects s))
        ≡ (if has_row object_key id s.objects then 1 else 0)
  pub hashed : All (λ o. is_some o.hash ≡ true) s.objects
  pub sized : All (λ o. (n : ℕ) × (o.phys_size ≡ pos n)) s.objects
  -- No block ends behind the size of its inode.
  pub large_enough : All (λ r. All (Reaches env.max_obj_size s.objects r) s.blocks) s.inodes
  -- Every directory is the root or below it, which its level tells.
  pub depth : ℕ → ℕ
  pub top : depth root_inode ≡ 0
  pub levels : All (λ e. HasLevel s.contents depth e.parent_inode) s.contents
  -- Inodes have what their type allows, and names have at most 255 bytes.
  pub conventional : All (IsTyped s) s.inodes
  pub short_named :
      All
        (λ e.
          (n : Name)
          → select (has_key name_key e.name_id) s.names ≡ some n
          → value_length n.name ≤ 255)
        s.contents

module _ (env : Env) (s : Fsck) (h : IsHealthy env s) where
  no_dangling : has_no_dangling s ≡ true
  unfolding has_no_dangling
  no_dangling = ground (
    arith,
    All-refers (λ (r : Block). r.inode) inode_key s.blocks s.inodes h.block_inodes,
    All-refers (λ (r : Block). r.obj_id) object_key s.blocks s.objects h.block_objects,
    All-refers (λ (r : Symlink). r.inode) inode_key s.symlinks s.inodes h.link_inodes,
    All-refers (λ (r : DirEntry). r.name_id) name_key s.contents s.names h.entry_names,
    All-refers (λ (r : DirEntry). r.inode) inode_key s.contents s.inodes h.entry_inodes,
    All-refers (λ (r : DirEntry). r.parent_inode) inode_key s.contents s.inodes h.entry_parents,
    All-refers (λ (r : Xattr). r.inode) inode_key s.xattrs s.inodes h.xattr_inodes,
    All-refers (λ (r : Xattr). r.name_id) name_key s.xattrs s.names h.xattr_names,
  )

  names_right : count (miscounts s.contents s.xattrs) s.names ≡ 0
  unfolding miscounts
  names_right = All-count (miscounts s.contents s.xattrs) s.names (
      All-map _ (λ n. miscounts s.contents s.xattrs n ≡ false) s.names h.names_counted
        (λ n e. rw e (ap not (eq_ℤ_refl _))))

  objects_right : count (is_wrong s.blocks) s.objects ≡ 0
  unfolding is_wrong
  objects_right = All-count (is_wrong s.blocks) s.objects (
      All-map (IsCounted s) (λ o. is_wrong s.blocks o ≡ false) s.objects h.objects_counted
        (λ o (some_uses, e).
          rw e (ground (arith, eq_ℤ_refl (count (λ b. b.obj_id == o.id) s.blocks), some_uses))))

  inodes_right : count (is_uncounted s.contents) s.inodes ≡ 0
  unfolding is_miscounted
  inodes_right = All-count (is_uncounted s.contents) s.inodes (
      All-map (IsLinked s) (λ r. is_uncounted s.contents r ≡ false) s.inodes h.inodes_counted
        (λ r x. elim x [
          | inl e ↦ ground (arith, e)
          | inr (some_links, e) ↦ ground (arith, some_links, e)
        ]))

  sizes_right : count (is_short env.max_obj_size s.objects s.blocks) s.inodes ≡ 0
  unfolding is_short
  sizes_right = All-count (is_short env.max_obj_size s.objects s.blocks) s.inodes (
      All-map _ (λ r. is_short env.max_obj_size s.objects s.blocks r ≡ false) s.inodes
        h.large_enough
        (λ r k. ground (arith, Reaches-min_size env.max_obj_size s.objects r s.blocks k)))

  short_right :
      (e : DirEntry)
      → ((n : Name)
          → select (has_key name_key e.name_id) s.names ≡ some n
          → value_length n.name ≤ 255)
      → is_short_named s.names e ≡ true
  short_right e k = elim (Option-cases (select (has_key name_key e.name_id) s.names)) [
    | inl f ↦ rw (is_short_named, f) refl
    | inr (n, f) ↦ rw (is_short_named, f) (ground (arith, k n f))
  ]

  IsHealthy-IsQuiet : IsQuiet env s
  IsHealthy-IsQuiet =
      let (once, there) =
        ids_once (listed (env.list_objects s)) (λ id. has_row object_key id s.objects) h.complete in
      record {
        lof = h.lof;
        lof_inode = h.lof_inode;
        lof_once = h.lof_once;
        lof_there = h.lof_there;
        lof_row = h.lof_row;
        lof_dir = h.lof_dir;
        uncached = h.uncached;
        references = no_dangling;
        names_counted = names_right;
        tidy = λ d e. tidy-has_temp d (h.tidy d e);
        hashed =
            All-count is_null s.objects
              (All-map _ (λ o. is_null o ≡ false) s.objects h.hashed (λ o e. ap not e));
        objects_counted = objects_right;
        listed_once = once;
        complete = there;
        sized = All-count is_unsized s.objects (
            All-map _ (λ o. is_unsized o ≡ false) s.objects h.sized
              (λ o (n, e). sized_right o n e));
        inodes_counted = inodes_right;
        large_enough = sizes_right;
        reached = reached_lem s.contents h.depth h.top h.levels;
        conventional =
            All-map (IsTyped s) (λ r. is_conventional s r ≡ true) s.inodes h.conventional
              (IsTyped-conventional s);
        short_named =
            All-map _ (λ e. is_short_named s.names e ≡ true) s.contents h.short_named short_right;
      }

-- A file system without errors is left as it is: `check` returns, changes nothing, and does not report an
-- error, whether the cache is looked at or not.
pub check_lem :
    (env : Env) (cache : CheckCache) (s : Fsck)
    → IsHealthy env s
    → check env cache s ≡ (returned tt, s)
check_lem env cache s h = check_quiet env cache s (IsHealthy-IsQuiet env s h)
