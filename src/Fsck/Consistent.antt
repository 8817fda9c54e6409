-- ===== src/Fsck/Consistent.antt =====
-- The checks of src/s3ql/fsck.py of entries, inodes and conventions, on a state without errors.
use s3ql.Prelude.{
  ℕ, ◌≡◌, refl, Bool, true, false, not, ◌&&◌, ◌||◌, List, [], ◌∷◌, Option, none, some, All, ltb,
  ◌==◌, arith, inl, inr, Bool-cases,
}
use s3ql.Prelude.Sql.{select, count, has_key}
use s3ql.Prelude.Effect.{returned, pure, raise, branch, gets, modify, catch, ◌>>=◌, ◌>>◌}
use s3ql.Fs.State.{Inode, inode_key, is_dir, ctrl_inode}
use s3ql.Fsck.State.{
  blob, Name, DirEntry, Xattr, Fsck, M, Env, name_key, symlink_key, has_row, is_named, root_inode,
  found_error, for_each, first_row, get_row, delete_rows,
}
use s3ql.Fsck.Rows.{delete-not_none}
use s3ql.Fsck.Objects.{lost_found}
use s3ql.Fsck.Entries.{
  find_lof, check_lof, check_entry_name, check_contents_name, check_entry_parent,
  check_contents_parent_inode, dangles, check_contents_inode,
}
use s3ql.Fsck.Attributes.{check_attr_name, check_ext_attributes_name}
use s3ql.Fsck.Inodes.{
  is_short, check_inodes_size, is_miscounted, miscounted, fix_links, check_inodes_refcount, links,
  has_no_object, check_inode_blocks_obj_id,
}
use s3ql.Fsck.Paths.{bytes_of, get_path}
use s3ql.Fsck.Unix.{
  check_length, ifmt, mended_mode, violations, report, mend_mode, target_of, check_inode,
  value_length, refers, check_name_length, check_unix,
}
use s3ql.Fsck.Idle.{for_each_idle, refers-All, refers-count}

pub All-map :
    {A : Type 0} (P Q : A → Type 0) (xs : List A) → All P xs → ((x : A) → P x → Q x) → All Q xs
All-map P Q [] h f = tt
All-map P Q (x ∷ xs) (p, h) f = (f x p, All-map P Q xs h f)

-- A check of each row that does nothing where the row's reference is there.
for_each-refers :
    {A B : Type 0} (f : A → M (Unit {0})) (ref : A → ℕ) (key : B → ℕ) (s : Fsck) (rows : List A)
    (t : List B)
    → refers ref key rows t ≡ true
    → ((r : A) → has_row key (ref r) t ≡ true → f r s ≡ (returned tt, s))
    → for_each rows f s ≡ (returned tt, s)
for_each-refers f ref key s rows t h idle = for_each_idle f s rows (
    All-map (λ r. has_row key (ref r) t ≡ true) (λ r. f r s ≡ (returned tt, s)) rows
      (refers-All ref key t rows h) idle)

pub check_lof_idle :
    (env : Env) (s : Fsck) (r : DirEntry) (i : Inode)
    → count (is_named s.names (blob lost_found) root_inode) s.contents ≡ 1
    → select (is_named s.names (blob lost_found) root_inode) s.contents ≡ some r
    → select (has_key inode_key r.inode) s.inodes ≡ some i
    → is_dir i.mode ≡ true
    → check_lof env s ≡ (returned tt, s)
unfolding check_lof find_lof get_row first_row catch ◌>>=◌ gets raise pure branch
check_lof_idle env s r i one e f d = rw (one, e, f, d) refl

pub check_contents_name_idle :
    (s : Fsck)
    → refers (λ (r : DirEntry). r.name_id) name_key s.contents s.names ≡ true
    → check_contents_name s ≡ (returned tt, s)
unfolding check_contents_name check_entry_name ◌>>=◌ gets pure branch
check_contents_name_idle s h =
    for_each-refers check_entry_name (λ r. r.name_id) name_key s s.contents s.names h
      (λ r e. rw e refl)

pub check_contents_parent_inode_idle :
    (s : Fsck)
    → refers (λ (r : DirEntry). r.parent_inode) inode_key s.contents s.inodes ≡ true
    → check_contents_parent_inode s ≡ (returned tt, s)
unfolding check_contents_parent_inode check_entry_parent ◌>>=◌ gets pure branch
check_contents_parent_inode_idle s h =
    for_each-refers check_entry_parent (λ r. r.parent_inode) inode_key s s.contents s.inodes h
      (λ r e. rw e refl)

pub check_ext_attributes_name_idle :
    (s : Fsck)
    → refers (λ (r : Xattr). r.name_id) name_key s.xattrs s.names ≡ true
    → check_ext_attributes_name s ≡ (returned tt, s)
unfolding check_ext_attributes_name check_attr_name ◌>>=◌ gets pure branch
check_ext_attributes_name_idle s h =
    for_each-refers check_attr_name (λ r. r.name_id) name_key s s.xattrs s.names h
      (λ r e. rw e refl)

pub check_contents_inode_idle :
    (s : Fsck)
    → refers (λ (r : DirEntry). r.inode) inode_key s.contents s.inodes ≡ true
    → check_contents_inode s ≡ (returned tt, s)
unfolding check_contents_inode dangles for_each ◌>>=◌ gets pure
check_contents_inode_idle s h =
    rw
      (delete-not_none (dangles s.inodes) s.contents
        (refers-count (λ r. r.inode) inode_key s.inodes s.contents h))
      refl

pub check_inode_blocks_obj_id_idle :
    (s : Fsck)
    → count (has_no_object s.objects) s.blocks ≡ 0
    → check_inode_blocks_obj_id s ≡ (returned tt, s)
unfolding check_inode_blocks_obj_id for_each ◌>>=◌ gets pure modify delete_rows
check_inode_blocks_obj_id_idle s h = rw (delete-not_none (has_no_object s.objects) s.blocks h) refl

pub check_inodes_size_idle :
    (env : Env) (s : Fsck)
    → count (is_short env.max_obj_size s.objects s.blocks) s.inodes ≡ 0
    → check_inodes_size env s ≡ (returned tt, s)
unfolding check_inodes_size for_each ◌>>=◌ gets pure
check_inodes_size_idle env s h =
    rw (delete-not_none (is_short env.max_obj_size s.objects s.blocks) s.inodes h) refl

-- No inode but the root and the control file is miscounted.
abbrev pub is_uncounted : List DirEntry → Inode → Bool
is_uncounted contents r = is_miscounted contents r && not (r.id == root_inode || r.id == ctrl_inode)

exempt_idle :
    (s : Fsck) (r : Inode) (n : ℕ)
    → (r.id == root_inode || r.id == ctrl_inode) ≡ true
    → fix_links (r, n) s ≡ (returned tt, s)
unfolding fix_links branch pure
exempt_idle s r n e = rw e refl

fix_links_idle :
    (s : Fsck) (rows : List Inode)
    → count (is_uncounted s.contents) rows ≡ 0
    → All (λ x. fix_links x s ≡ (returned tt, s)) (miscounted s.contents rows)
unfolding miscounted
fix_links_idle s [] h = tt
fix_links_idle s (r ∷ rows) h =
    let ih : All (λ x. fix_links x s ≡ (returned tt, s)) (miscounted s.contents rows) =
      fix_links_idle s rows (ground (arith, h)) in
    elim (Bool-cases (is_miscounted s.contents r)) [
      | inl e ↦ rw e (exempt_idle s r (links r.id s.contents) (ground (arith, h, e)), ih)
      | inr e ↦ rw e ih
    ]

pub check_inodes_refcount_idle :
    (s : Fsck)
    → count (is_uncounted s.contents) s.inodes ≡ 0
    → check_inodes_refcount s ≡ (returned tt, s)
unfolding check_inodes_refcount ◌>>=◌ gets
check_inodes_refcount_idle s h =
    for_each_idle fix_links s (miscounted s.contents s.inodes) (fix_links_idle s s.inodes h)

-- An inode that has a type and violates no convention.
abbrev pub none_true : List Bool → Bool
none_true [] = true
none_true (b ∷ bs) = not b && none_true bs

abbrev pub broken : Fsck → Inode → List Bool
broken s r =
    violations (ltb 0 (count (λ e. e.parent_inode == r.id) s.contents))
      (ltb 0 (count (λ b. b.inode == r.id) s.blocks))
      (target_of (select (has_key symlink_key r.id) s.symlinks)) r.mode r

abbrev pub is_conventional : Fsck → Inode → Bool
is_conventional s r = not (ifmt r.mode == 0) && none_true (broken s r)

report_idle :
    (id : ℕ) (s : Fsck) (bs : List Bool)
    → none_true bs ≡ true
    → All (λ b. report id b s ≡ (returned tt, s)) bs
unfolding report branch pure
report_idle id s [] h = tt
report_idle id s (b ∷ bs) h = elim (Bool-cases b) [
  | inl e ↦ absurd (ground (arith, h, e))
  | inr e ↦ (rw e refl, report_idle id s bs (ground (arith, h, e)))
]

check_inode_idle :
    (s : Fsck) (r : Inode) → is_conventional s r ≡ true → check_inode r s ≡ (returned tt, s)
unfolding check_inode mend_mode mended_mode ◌>>=◌ gets pure branch
check_inode_idle s r h =
    let typed : (ifmt r.mode == 0) ≡ false = ground (arith, h) in
    let fine : none_true (broken s r) ≡ true = ground (arith, h) in
    rw typed (for_each_idle (report r.id) s (broken s r) (report_idle r.id s (broken s r) fine))

-- The name of the entry has at most 255 bytes.
abbrev pub is_short_named : List Name → DirEntry → Bool
is_short_named names e = elim (select (has_key name_key e.name_id) names) [
  | none ↦ true
  | some r ↦ not (ltb 255 (value_length r.name))
]

run-true : {A : Type 0} (b : Bool) (m n : M A) (s : Fsck) → b ≡ true → branch b m n s ≡ m s
unfolding branch
run-true b m n s e = rw e refl

check_length_idle :
    (s : Fsck) (e : DirEntry) (o : Option Name)
    → elim o [ none ↦ true | some r ↦ not (ltb 255 (value_length r.name)) ] ≡ true
    → check_length e o s ≡ (returned tt, s)
unfolding check_length pure
check_length_idle s e none h = refl
check_length_idle s e (some r) h =
    run-true (not (ltb 255 (value_length r.name))) (pure tt)
      (do n ← bytes_of r.name; get_path e.parent_inode (n ∷ []); modify found_error) s h

check_name_length_idle :
    (s : Fsck) (e : DirEntry)
    → is_short_named s.names e ≡ true
    → check_name_length e s ≡ (returned tt, s)
unfolding check_name_length ◌>>=◌ gets
check_name_length_idle s e h = check_length_idle s e (select (has_key name_key e.name_id) s.names) h

pub check_unix_idle :
    (s : Fsck)
    → All (λ r. is_conventional s r ≡ true) s.inodes
    → All (λ e. is_short_named s.names e ≡ true) s.contents
    → check_unix s ≡ (returned tt, s)
unfolding check_unix ◌>>=◌ gets
check_unix_idle s h k =
    rw
      (for_each_idle check_inode s s.inodes (
        All-map (λ r. is_conventional s r ≡ true) (λ r. check_inode r s ≡ (returned tt, s)) s.inodes
          h (check_inode_idle s)))
      (for_each_idle check_name_length s s.contents (
        All-map (λ e. is_short_named s.names e ≡ true)
          (λ e. check_name_length e s ≡ (returned tt, s)) s.contents k (check_name_length_idle s)))
