-- ===== src/Fsck/Sizes.antt =====
-- `check_inodes_size` of src/s3ql/fsck.py makes each file as large as its blocks need.
use mathlib.Core.Option
use s3ql.Prelude.{
  ℕ, ◌≤◌, max, ◌≡◌, refl, ap, ◌∙◌, Bool, true, false, not, ◌&&◌, List, [], ◌∷◌, Option, none, some,
  All, ltb, ◌==◌, if◌then◌else◌, arith, inl, inr, Bool-cases,
}
use s3ql.Prelude.Sql.{select, count, update, delete, has_key, select-update, select-holds}
use s3ql.Prelude.Effect.{returned, pure, gets, modify, ◌>>=◌}
use s3ql.Fs.State.{Inode, inode_key}
use s3ql.Fsck.State.{Bytes, Object, Block, Fsck, Env, has_row, found_error, for_each}
use s3ql.Fsck.Rows.{IsKey, select-wrong, select-right}
use s3ql.Fsck.Paths.{get_path}
use s3ql.Fsck.PathFrame.{SamePaths, get_path_frame}
use s3ql.Fsck.Inodes.{block_end, min_size, is_short, with_size, fix_size, check_inodes_size}

-- The path of the inode can be told.
abbrev pub HasPath : Fsck → Inode → Type 0
HasPath s r = (p : Bytes) × ((get_path r.id [] s).0 ≡ returned p)

module _ (env : Env) where
  abbrev needs : Fsck → ℕ → ℕ
  needs s id = min_size env.max_obj_size s.objects id s.blocks

  abbrev resized : Inode → Fsck → Fsck
  resized r s = record (found_error s) {
    inodes = update (has_key inode_key r.id) (with_size (needs s r.id)) s.inodes;
  }

  fix_size_lem :
      (s t : Fsck) (r : Inode)
      → SamePaths s t
      → HasPath s r
      → fix_size env r t ≡ (returned tt, resized r t)
  unfolding fix_size ◌>>=◌ pure gets modify found_error
  fix_size_lem s t r f (p, h) = rw (get_path_frame r.id [] s (found_error t) f, h) refl

  -- What the loop leaves of an inode.
  abbrev IsFixed : Fsck → List Inode → Fsck → Type 0
  IsFixed t rows after =
      SamePaths t after
      × (after.objects ≡ t.objects)
      × (after.blocks ≡ t.blocks)
      × ((k : ℕ)
          → select (has_key inode_key k) after.inodes ≡ (
              if has_row inode_key k rows
              then Option.map (with_size (needs t k)) (select (has_key inode_key k) t.inodes)
              else select (has_key inode_key k) t.inodes))

  with_size_twice :
      (n : ℕ) (o : Option Inode)
      → Option.map (with_size n) (Option.map (with_size n) o) ≡ Option.map (with_size n) o
  with_size_twice n none = refl
  with_size_twice n (some r) = refl

  resized-select :
      (k : ℕ) (r : Inode) (t : Fsck)
      → select (has_key inode_key k) (resized r t).inodes ≡ (
          if r.id == k
          then Option.map (with_size (needs t k)) (select (has_key inode_key k) t.inodes)
          else select (has_key inode_key k) t.inodes)
  resized-select k r t =
      rw (select-update inode_key k r.id (with_size (needs t r.id)) t.inodes (λ x. refl))
        (elim (Bool-cases (r.id == k)) [
          | inl e ↦ let i : r.id ≡ k = ground (arith, e) in rw (e, i) refl
          | inr e ↦ rw e refl
        ])

  sizes_loop :
      (s t : Fsck) (rows : List Inode)
      → SamePaths s t
      → All (HasPath s) rows
      → (after : Fsck) × (for_each rows (fix_size env) t ≡ (returned tt, after))
        × IsFixed t rows after
  unfolding for_each ◌>>=◌ pure has_row found_error
  sizes_loop s t [] f h = (t, refl, ((refl, refl), refl, refl, λ k. refl))
  sizes_loop s t (r ∷ rows) f (p, h) =
      let (after, e, (c, ao, ab, ai)) = sizes_loop s (resized r t) rows f h in
      let step : for_each (r ∷ rows) (fix_size env) t ≡ (returned tt, after) =
        rw (fix_size_lem s t r f p) e in
      (after, step, (c, ao, ab, λ k. ai k ∙ once k (resized-select k r t)))
    where
      once :
          (k : ℕ)
          → select (has_key inode_key k) (resized r t).inodes ≡ (
              if r.id == k
              then Option.map (with_size (needs t k)) (select (has_key inode_key k) t.inodes)
              else select (has_key inode_key k) t.inodes)
          → (if has_row inode_key k rows
              then Option.map
                  (with_size (needs t k))
                  (select (has_key inode_key k) (resized r t).inodes)
              else select (has_key inode_key k) (resized r t).inodes)
            ≡ (if has_row inode_key k (r ∷ rows)
                then Option.map (with_size (needs t k)) (select (has_key inode_key k) t.inodes)
                else select (has_key inode_key k) t.inodes)
      once k e =
          rw e ground (arith, with_size_twice (needs t k) (select (has_key inode_key k) t.inodes))

  ends-before :
      (objects : List Object) (id : ℕ) (n : ℕ) (blocks : List Block)
      → min_size env.max_obj_size objects id blocks ≤ n
      → count (λ b. b.inode == id && ltb n (block_end env.max_obj_size objects b)) blocks ≡ 0
  unfolding min_size
  ends-before objects id n [] h = refl
  ends-before objects id n (b ∷ blocks) h = ground (arith, h, ends-before objects id n blocks)

  -- The size of an inode that is short is set, and that of another is enough.
  size-needed :
      (s : Fsck) (k : ℕ) (r : Inode)
      → count (has_key inode_key k) s.inodes ≤ 1
      → select (has_key inode_key k) s.inodes ≡ some r
      → (if has_row inode_key k
            (delete (λ x. not (is_short env.max_obj_size s.objects s.blocks x)) s.inodes)
          then some (with_size (needs s k) r)
          else some r)
        ≡ some (with_size (max r.size (needs s k)) r)
  unfolding is_short
  size-needed s k r u e =
      let short : Inode → Bool = is_short env.max_obj_size s.objects s.blocks in
      let i : r.id ≡ k = ground (arith, select-holds (has_key inode_key k) s.inodes r e) in
      elim (Bool-cases (has_row inode_key k (delete (λ x. not (short x)) s.inodes))) [
        | inl w ↦
            let less : ltb r.size (needs s k) ≡ true =
              rw i at (select-wrong inode_key short k s.inodes r u e w) in
            rw w (ap (λ n. some (with_size n r)) (ground (arith, less)))
        | inr w ↦
            let enough : ltb r.size (needs s k) ≡ false =
              rw i at (select-right inode_key short k s.inodes r e w) in
            rw w (ap (λ n. some (with_size n r)) (ground (arith, enough)))
      ]

-- With a primary key of inodes, and where the paths of the inodes that are too small can be told, the
-- check of sizes returns. An inode keeps its size or gets the end of its last block, whichever is more,
-- and nothing else of it changes. No block of it that has an object ends behind its size then.
pub check_inodes_size_lem :
    (env : Env) (s : Fsck) (k : ℕ) (r : Inode)
    → All (HasPath s) (delete (λ x. not (is_short env.max_obj_size s.objects s.blocks x)) s.inodes)
    → IsKey inode_key s.inodes
    → select (has_key inode_key k) s.inodes ≡ some r
    → let (result, after) = check_inodes_size env s in
      let size = max r.size (min_size env.max_obj_size s.objects k s.blocks) in
      (result ≡ returned tt)
      × (select (has_key inode_key k) after.inodes ≡ some (with_size size r))
      × (count
            (λ b. b.inode == k && ltb size (block_end env.max_obj_size after.objects b))
            after.blocks
          ≡ 0)
unfolding check_inodes_size ◌>>=◌ gets
check_inodes_size_lem env s k r paths u e =
    let (after, run, (c, ao, ab, ai)) =
      sizes_loop env s s
        (delete (λ x. not (is_short env.max_obj_size s.objects s.blocks x)) s.inodes) (refl, refl)
        paths in
    let size : ℕ = max r.size (min_size env.max_obj_size s.objects k s.blocks) in
    rw run (
      refl,
      ai k ∙ (rw e (size-needed env s k r (u k) e)),
      rw (ao, ab) (ends-before env s.objects k size s.blocks (omega arith)),
    )
