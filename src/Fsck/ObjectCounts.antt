-- ===== src/Fsck/ObjectCounts.antt =====
-- `check_objects_refcount` of src/s3ql/fsck.py makes the counts of objects right.
use s3ql.Prelude.{
  ℕ, ◌≤◌, ◌≡◌, refl, sym, Bool, true, false, not, ◌&&◌, ◌||◌, List, [], ◌∷◌, Option, none, some,
  ◌==◌, if◌then◌else◌, arith, inl, inr, Bool-cases, Option-cases,
}
use s3ql.Prelude.Int.{ℤ, pos, negsuc}
use s3ql.Prelude.Sql.{
  select, count, update, delete, has_key, select-delete, select-update, select-holds,
}
use s3ql.Prelude.Effect.{returned, pure, gets, modify, ◌>>=◌}
use s3ql.Fsck.State.{Object, Block, Fsck, object_key, has_row, eq_ℤ, for_each}
use s3ql.Fsck.Rows.{count-stronger, wrong-found, delete-none, delete-not_none, select-right}
use s3ql.Fsck.Objects.{
  uses, is_wrong, with_refcount, fix_object, fix_objects, fix_refcounts, is_unused,
  check_objects_refcount,
}

-- What the table should have of an object: nothing where no block refers to it, or how many do.
abbrev pub counted : List Block → Option Object → Option Object
counted blocks none = none
counted blocks (some r) =
    if uses r.id blocks == 0 then none else some (with_refcount (uses r.id blocks) r)

pub eq_ℤ-eq : (a b : ℤ) → eq_ℤ a b ≡ true → a ≡ b
unfolding eq_ℤ
eq_ℤ-eq (pos a) (pos b) h = ground arith
eq_ℤ-eq (negsuc a) (negsuc b) h = ground arith
eq_ℤ-eq (pos a) (negsuc b) h = ground arith
eq_ℤ-eq (negsuc a) (pos b) h = ground arith

select-id :
    (k : ℕ) (t : List Object) (o : Object) → select (has_key object_key k) t ≡ some o → o.id ≡ k
select-id k t o e = ground (arith, select-holds (has_key object_key k) t o e)

counted-fix :
    (blocks : List Block) (k : ℕ) (r : Object) (t : List Object)
    → select (has_key object_key k) (fix_object blocks r t) ≡ (
        if r.id == k
        then counted blocks (select (has_key object_key k) t)
        else select (has_key object_key k) t)
unfolding fix_object
counted-fix blocks k r t = elim (Bool-cases (r.id == k)) [
  | inl w ↦
      let i : r.id ≡ k = ground (arith, w) in
      elim (Option-cases (select (has_key object_key k) t)) [
        | inl e ↦
            rw (w, e) ground
              (
                arith,
                e,
                i,
                select-delete object_key k r.id t,
                select-update object_key k r.id (with_refcount (uses r.id blocks)) t (λ x. refl),
              )
        | inr (o, e) ↦
            rw (w, e, i, select-id k t o e)
              elim (Bool-cases (uses k blocks == 0)) [
                | inl z ↦ rw z ground (arith, select-delete object_key k k t)
                | inr z ↦ rw z (
                    rw
                      (
                        select-update object_key k k (with_refcount (uses k blocks)) t (λ x. refl),
                        e,
                      )
                      ground (arith, select-id k t o e))
              ]
      ]
  | inr w ↦ rw w ground (
    arith,
    w,
    select-delete object_key k r.id t,
    select-update object_key k r.id (with_refcount (uses r.id blocks)) t (λ x. refl),
  )
]

counted_idem :
    (blocks : List Block) (o : Option Object) → counted blocks (counted blocks o) ≡ counted blocks o
counted_idem blocks none = refl
counted_idem blocks (some r) = ground arith

-- The rows that were wrong are what the table should have, and the others are as they were.
fix_objects-counted :
    (blocks : List Block) (k : ℕ) (wrong t : List Object)
    → select (has_key object_key k) (fix_objects blocks wrong t) ≡ (
        if has_row object_key k wrong
        then counted blocks (select (has_key object_key k) t)
        else select (has_key object_key k) t)
unfolding fix_objects has_row
fix_objects-counted blocks k [] t = ground arith
fix_objects-counted blocks k (r ∷ wrong) t =
    rw (fix_objects-counted blocks k wrong (fix_object blocks r t), counted-fix blocks k r t) ground
      (arith, counted_idem blocks (select (has_key object_key k) t))

counted-right :
    (blocks : List Block) (r : Object)
    → is_wrong blocks r ≡ false
    → counted blocks (some r) ≡ some r
unfolding is_wrong
counted-right blocks r e =
    let same : r.refcount ≡ pos (uses r.id blocks) =
      eq_ℤ-eq r.refcount (pos (uses r.id blocks)) (ground (arith, e)) in
    ground (arith, e, same)

-- `counted` is what the first loop leaves of every object.
fix_refcounts-counted :
    (k : ℕ) (s : Fsck)
    → select (has_key object_key k) (fix_refcounts s).objects
      ≡ counted s.blocks (select (has_key object_key k) s.objects)
unfolding fix_refcounts
fix_refcounts-counted k s =
    let wrong : List Object = delete (λ r. not (is_wrong s.blocks r)) s.objects in
    rw (fix_objects-counted s.blocks k wrong s.objects)
      (elim (Bool-cases (has_row object_key k wrong)) [
        | inl w ↦ rw w refl
        | inr w ↦ elim (Option-cases (select (has_key object_key k) s.objects)) [
          | inl e ↦ rw (w, e) refl
          | inr (r, e) ↦
              rw (w, e)
                (sym (
                  counted-right s.blocks r
                    (select-right object_key (is_wrong s.blocks) k s.objects r e w)))
        ]
      ])

-- A row that is wrong, and whose turn is not to come.
abbrev passed : List Block → List Object → Object → Bool
passed blocks wrong r = is_wrong blocks r && not (has_row object_key r.id wrong)

with_refcount-right :
    (blocks : List Block) (r : Object)
    → (uses r.id blocks == 0) ≡ false
    → is_wrong blocks (with_refcount (uses r.id blocks) r) ≡ false
unfolding is_wrong eq_ℤ
with_refcount-right blocks r e = ground (arith, e)

fix_object-passed :
    (blocks : List Block) (r : Object) (wrong t : List Object)
    → count (passed blocks (r ∷ wrong)) t ≡ 0
    → count (passed blocks wrong) (fix_object blocks r t) ≡ 0
unfolding fix_object delete update has_row
fix_object-passed blocks r wrong [] h = ground arith
fix_object-passed blocks r wrong (x ∷ t) h =
    let ih : count (passed blocks wrong) (fix_object blocks r t) ≡ 0 =
      fix_object-passed blocks r wrong t (ground (arith, h)) in
    elim (Bool-cases (x.id == r.id)) [
      | inl w ↦
          let i : x.id ≡ r.id = ground (arith, w) in
          elim (Bool-cases (uses r.id blocks == 0)) [
            | inl z ↦ ground (arith, z, i, ih)
            | inr z ↦ ground (arith, z, i, ih, with_refcount-right blocks x)
          ]
      | inr w ↦ ground (arith, w, ih)
    ]

fix_objects-passed :
    (blocks : List Block) (wrong t : List Object)
    → count (passed blocks wrong) t ≡ 0
    → count (is_wrong blocks) (fix_objects blocks wrong t) ≡ 0
unfolding fix_objects has_row
fix_objects-passed blocks [] t h =
    let all : count (is_wrong blocks) t ≤ count (passed blocks []) t =
      count-stronger (passed blocks []) (is_wrong blocks) t (λ x e. ground (arith, e)) in
    omega (arith, h, all)
fix_objects-passed blocks (r ∷ wrong) t h =
    fix_objects-passed blocks wrong (fix_object blocks r t) (fix_object-passed blocks r wrong t h)

fix_refcounts-right : (s : Fsck) → count (is_wrong s.blocks) (fix_refcounts s).objects ≡ 0
unfolding fix_refcounts
fix_refcounts-right s =
    let wrong : List Object = delete (λ r. not (is_wrong s.blocks r)) s.objects in
    fix_objects-passed s.blocks wrong s.objects
      (wrong-found (is_wrong s.blocks) object_key wrong s.objects (λ k h. h))

zero-wrong : (n : ℕ) → (not (eq_ℤ (pos 0) (pos n)) || n == 0) ≡ true
unfolding eq_ℤ
zero-wrong n = ground arith

unused-wrong : (blocks : List Block) (r : Object) → is_unused r ≡ true → is_wrong blocks r ≡ true
unfolding is_wrong
unused-wrong blocks r e =
    let z : r.refcount ≡ pos 0 = eq_ℤ-eq r.refcount (pos 0) e in
    rw z (zero-wrong (uses r.id blocks))

fix_refcounts-used : (s : Fsck) → count is_unused (fix_refcounts s).objects ≡ 0
fix_refcounts-used s =
    let all : count is_unused (fix_refcounts s).objects
        ≤ count (is_wrong s.blocks) (fix_refcounts s).objects =
      count-stronger (is_wrong s.blocks) is_unused (fix_refcounts s).objects
        (unused-wrong s.blocks) in
    omega (arith, all, fix_refcounts-right s)

-- The loop over objects with a count of 0 has nothing to do.
pub check_objects_refcount_run :
    (s : Fsck) → check_objects_refcount s ≡ (returned tt, fix_refcounts s)
unfolding check_objects_refcount fix_refcounts ◌>>=◌ pure gets modify for_each
check_objects_refcount_run s =
    let z : count is_unused (fix_refcounts s).objects ≡ 0 = fix_refcounts-used s in
    rw
      (
        delete-not_none is_unused (fix_refcounts s).objects z,
        delete-none is_unused (fix_refcounts s).objects z,
      )
      refl

-- The check of the counts of objects returns: afterwards the table has exactly the objects that blocks
-- refer to, each with the number of those blocks as its count. It never deletes an object from the
-- backend: the loop over objects with a count of 0 finds none.
pub check_objects_refcount_lem :
    (s : Fsck)
    → let (r, after) = check_objects_refcount s in
      (r ≡ returned tt)
      × (after.stored ≡ s.stored)
      × ((k : ℕ)
          → select (has_key object_key k) after.objects
            ≡ counted s.blocks (select (has_key object_key k) s.objects))
unfolding fix_refcounts
check_objects_refcount_lem s =
    rw (check_objects_refcount_run s) (refl, refl, λ k. fix_refcounts-counted k s)
