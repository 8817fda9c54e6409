-- ===== src/Fsck/NameCounts.antt =====
-- `check_names_refcount` of src/s3ql/fsck.py makes the counts of names right.
use s3ql.Prelude.{
  ℕ, ◌≡◌, refl, sym, false, not, List, [], ◌∷◌, Option, none, some, ◌==◌, if◌then◌else◌, arith, inl,
  inr, Bool-cases, Option-cases,
}
use s3ql.Prelude.Int.{pos}
use s3ql.Prelude.Sql.{
  select, count, update, delete, has_key, count-update, select-update, select-holds,
}
use s3ql.Fsck.State.{Name, DirEntry, Xattr, Fsck, name_key, has_row}
use s3ql.Fsck.Rows.{select-right}
use s3ql.Fsck.ObjectCounts.{eq_ℤ-eq}
use s3ql.Fsck.Attributes.{name_uses, miscounts, set_refcount, fix_names, check_names_refcount}

module _ (contents : List DirEntry) (xattrs : List Xattr) where
  -- What the table should have of a name.
  abbrev pub recounted : Option Name → Option Name
  recounted none = none
  recounted (some r) = some (set_refcount (name_uses r.id contents xattrs) r)

  select-id : (k : ℕ) (t : List Name) (r : Name) → select (has_key name_key k) t ≡ some r → r.id ≡ k
  select-id k t r e = ground (arith, select-holds (has_key name_key k) t r e)

  fix_names-recounted :
      (k : ℕ) (wrong t : List Name)
      → select (has_key name_key k) (fix_names contents xattrs wrong t) ≡ (
          if has_row name_key k wrong
          then recounted (select (has_key name_key k) t)
          else select (has_key name_key k) t)
  unfolding fix_names has_row
  fix_names-recounted k [] t = ground arith
  fix_names-recounted k (r ∷ wrong) t =
      rw
        (
          fix_names-recounted k wrong
              (update (has_key name_key r.id) (set_refcount (name_uses r.id contents xattrs)) t),
          select-update name_key k r.id (set_refcount (name_uses r.id contents xattrs)) t
              (λ x. refl),
        )
        elim (Bool-cases (r.id == k)) [
          | inl w ↦
              let i : r.id ≡ k = ground (arith, w) in
              elim (Option-cases (select (has_key name_key k) t)) [
                | inl e ↦ rw (w, e) ground (arith, w)
                | inr (o, e) ↦ rw (w, e, i, select-id k t o e) ground (arith, w)
              ]
          | inr w ↦ ground (arith, w)
        ]

  count-fix_names :
      (k : ℕ) (wrong t : List Name)
      → count (has_key name_key k) (fix_names contents xattrs wrong t)
        ≡ count (has_key name_key k) t
  unfolding fix_names
  count-fix_names k [] t = refl
  count-fix_names k (r ∷ wrong) t = omega (
    arith,
    count-fix_names k wrong
        (update (has_key name_key r.id) (set_refcount (name_uses r.id contents xattrs)) t),
    count-update (has_key name_key r.id) (has_key name_key k)
        (set_refcount (name_uses r.id contents xattrs)) t,
  )

  recounted-right : (r : Name) → miscounts contents xattrs r ≡ false → recounted (some r) ≡ some r
  unfolding miscounts
  recounted-right r e =
      let same : r.refcount ≡ pos (name_uses r.id contents xattrs) =
        eq_ℤ-eq r.refcount (pos (name_uses r.id contents xattrs)) (ground (arith, e)) in
      ground (arith, e, same)

-- After the check of the counts of names each name has the number of the entries and attributes that
-- have it as its count. No name is removed, also of those that nothing has: their count becomes 0.
pub check_names_refcount_lem :
    (s : Fsck) (k : ℕ)
    → let after = check_names_refcount s in
      (select (has_key name_key k) after.names
        ≡ recounted s.contents s.xattrs (select (has_key name_key k) s.names))
      × (count (has_key name_key k) after.names ≡ count (has_key name_key k) s.names)
unfolding check_names_refcount
check_names_refcount_lem s k =
    let wrong : List Name = delete (λ r. not (miscounts s.contents s.xattrs r)) s.names in
    (
      rw (fix_names-recounted s.contents s.xattrs k wrong s.names)
          (elim (Bool-cases (has_row name_key k wrong)) [
            | inl w ↦ rw w refl
            | inr w ↦ elim (Option-cases (select (has_key name_key k) s.names)) [
              | inl e ↦ rw (w, e) refl
              | inr (r, e) ↦
                  rw (w, e)
                    (sym (
                      recounted-right s.contents s.xattrs r
                        (select-right name_key (miscounts s.contents s.xattrs) k s.names r e w)))
            ]
          ]),
      count-fix_names s.contents s.xattrs k wrong s.names,
    )
