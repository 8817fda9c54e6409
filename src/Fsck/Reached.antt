-- ===== src/Fsck/Reached.antt =====
-- `delete_tree` of src/s3ql/fsck.py, for directories that are all below the root.
use mathlib.Core.Path.{subst}
use s3ql.Prelude.{
  ℕ, zero, suc, ◌+◌, ◌≤◌, ◌<◌, ◌≡◌, ◌⊎◌, refl, ap, sym, ◌∙◌, Bool, true, false, not, ◌&&◌, List, [],
  ◌∷◌, Option, none, some, All, length, ◌==◌, arith, inl, inr, Bool-cases,
}
use s3ql.Prelude.Sql.{select, delete}
use s3ql.BlockCache.State.{member}
use s3ql.Fsck.State.{DirEntry, has_row, root_inode}
use s3ql.Fsck.Loops.{
  Loop, loop_key, parent_of, loopcheck, is_in, each, without, delete_tree, unreached, inodes_of,
}

-- The row is in the table.
abbrev Among : {A : Type 0} → A → List A → Type 0
Among x [] = ⊥
Among x (y ∷ t) = (y ≡ x) ⊎ Among x t

Among-All : {A : Type 0} (P : A → Type 0) (x : A) (t : List A) → All P t → Among x t → P x
Among-All P x [] h m = absurd m
Among-All P x (y ∷ t) (h, hs) (inl e) = subst P e h
Among-All P x (y ∷ t) (h, hs) (inr m) = Among-All P x t hs m

member-without :
    (x id : ℕ) (left : List ℕ) → member x (without id left) ≡ (member x left && not (x == id))
unfolding member delete
member-without x id [] = ground arith
member-without x id (y ∷ left) = ground (arith, member-without x id left)

-- What was not left is not left again.
abbrev Shrinks : List ℕ → List ℕ → Type 0
Shrinks after before = (x : ℕ) → member x before ≡ false → member x after ≡ false

module _ (loops : List Loop) where
  -- The directory `x` is `k` levels below `p`.
  abbrev Below : ℕ → ℕ → ℕ → Type 0
  Below zero x p = x ≡ p
  Below (suc k) x p = (r : Loop) × Among r loops × (is_in p r ≡ true) × Below k x r.inode

  Below-child :
      (k x p : ℕ) (r : Loop)
      → Below k x p
      → Among r loops
      → is_in x r ≡ true
      → Below (suc k) r.inode p
  Below-child zero x p r h m i = (r, m, subst (λ q. is_in q r ≡ true) h i, refl)
  Below-child (suc k) x p r (c, n, j, h) m i = (c, n, j, Below-child k x c.inode r h m i)

  -- What `delete_tree` makes of what is left, for a directory.
  abbrev IsDeleted : (ℕ → List ℕ → Option (List ℕ)) → ℕ → Type 0
  IsDeleted f p =
      (left : List ℕ)
      → (after : List ℕ) × (f p left ≡ some after)
        × Shrinks after left
        × ((k x : ℕ) → Below k x p → member x after ≡ false)

  each_lem :
      (f : ℕ → List ℕ → Option (List ℕ)) (rows : List Loop) (left : List ℕ)
      → All (λ r. IsDeleted f r.inode) rows
      → (after : List ℕ) × (each f rows left ≡ some after)
        × Shrinks after left
        × ((r : Loop) (k x : ℕ) → Among r rows → Below k x r.inode → member x after ≡ false)
  unfolding each
  each_lem f [] left h = (left, refl, (λ x e. e), (λ r k x m b. absurd m))
  each_lem f (r ∷ rows) left (h, hs) =
      let (now, run, less, gone) = h left in
      let (after, rest, less2, gone2) = each_lem f rows now hs in
      (
        after,
        rw (each, run) rest,
        (λ x e. less2 x (less x e)),
        (λ c k x m b. elim m [
          | inl e ↦ less2 x (gone k x (subst (λ q. Below k x q.inode) (sym e) b))
          | inr n ↦ gone2 c k x n b
        ]),
      )

  children : ℕ → List Loop → List Loop
  children p rows = delete (λ r. not (is_in p r)) rows

  children-All :
      (P : Loop → Type 0) (p : ℕ) (rows : List Loop)
      → ((r : Loop) → Among r rows → is_in p r ≡ true → P r)
      → All P (children p rows)
  unfolding children delete
  children-All P p [] h = tt
  children-All P p (r ∷ rows) h = elim (Bool-cases (is_in p r)) [
    | inl e ↦ rw e (h r (inl refl) e, children-All P p rows (λ c m. h c (inr m)))
    | inr e ↦ rw e (children-All P p rows (λ c m. h c (inr m)))
  ]

  Among-children :
      (p : ℕ) (r : Loop) (rows : List Loop)
      → Among r rows
      → is_in p r ≡ true
      → Among r (children p rows)
  unfolding children delete
  Among-children p r [] m i = m
  Among-children p r (c ∷ rows) (inl e) i = rw (e, i) (inl refl)
  Among-children p r (c ∷ rows) (inr m) i = elim (Bool-cases (is_in p c)) [
    | inl e ↦ rw e (inr (Among-children p r rows m i))
    | inr e ↦ rw e (Among-children p r rows m i)
  ]

  module _ (depth : ℕ → ℕ) (deepest : ℕ)
      (levels : (r : Loop) (p : ℕ)
        → Among r loops
        → is_in p r ≡ true
        → depth r.inode ≡ suc (depth p))
      (shallow : (r : Loop) → Among r loops → depth r.inode ≤ deepest) where
    delete_tree_lem :
        (n p : ℕ)
        → depth p ≤ deepest
        → deepest < n + depth p
        → IsDeleted (λ q left. delete_tree n loops q left) p
    unfolding delete_tree children
    delete_tree_lem zero p le lt left = absurd (omega (arith, le, lt))
    delete_tree_lem (suc n) p le lt left =
        let each_child : All (λ r. IsDeleted (λ q left. delete_tree n loops q left) r.inode)
            (children p loops) =
          children-All _ p loops (λ r m i.
            delete_tree_lem n r.inode (shallow r m) (omega (arith, lt, levels r p m i))) in
        let (after, run, less, gone) =
          each_lem (delete_tree n loops) (children p loops) left each_child in
        (
          without p after,
          rw run refl,
          (λ x e. ground (arith, member-without x p after, less x e)),
          (λ k x b. removed after gone k x b),
        )
      where
        removed :
            (after : List ℕ)
            → ((r : Loop) (k x : ℕ)
                → Among r (children p loops)
                → Below k x r.inode
                → member x after ≡ false)
            → (k x : ℕ) → Below k x p
            → member x (without p after) ≡ false
        removed after gone zero x b = ground (arith, member-without x p after, b)
        removed after gone (suc k) x (r, m, i, b) =
            ground (arith, member-without x p after, gone r k x (Among-children p r loops m i) b)

    -- A directory that is not the root has a parent, one level above.
    module _ (top : depth root_inode ≡ 0)
        (parents : (r : Loop)
          → Among r loops
          → (r.inode ≡ root_inode) ⊎ ((q : Loop) × Among q loops × (is_in q.inode r ≡ true))) where
      from_root :
          (d : ℕ) (r : Loop)
          → Among r loops
          → depth r.inode ≤ d
          → (k : ℕ) × Below k r.inode root_inode
      from_root zero r m le = elim (parents r m) [
        | inl e ↦ (0, e)
        | inr (q, n, i) ↦ absurd (omega (arith, le, levels r q.inode m i))
      ]
      from_root (suc d) r m le = elim (parents r m) [
        | inl e ↦ (0, e)
        | inr (q, n, i) ↦
            let (k, b) = from_root d q n (omega (arith, le, levels r q.inode m i)) in
            (suc k, Below-child k q.inode root_inode r b m i)
      ]

      inodes_of_lem :
          (x : ℕ) (rows : List Loop)
          → member x (inodes_of rows) ≡ true
          → (r : Loop) × Among r rows × (r.inode ≡ x)
      unfolding member
      inodes_of_lem x [] h = absurd (ground (arith, h))
      inodes_of_lem x (r ∷ rows) h = elim (Bool-cases (r.inode == x)) [
        | inl e ↦ (r, inl refl, ground (arith, e))
        | inr e ↦ let (c, m, f) = inodes_of_lem x rows (rw e at h) in (c, inr m, f)
      ]

      nothing : (left : List ℕ) → ((x : ℕ) → member x left ≡ false) → left ≡ []
      unfolding member
      nothing [] h = refl
      nothing (x ∷ left) h = absurd (ground (arith, h x))

      unreached_lem :
          deepest ≤ length loops → unreached loops root_inode (inodes_of loops) ≡ some []
      unfolding unreached
      unreached_lem le =
          let (after, run, less, gone) =
            delete_tree_lem (suc (length loops)) root_inode (omega (arith, top)) (omega (arith, le))
              (inodes_of loops) in
          run
          ∙ ap (λ l. some l)
              (nothing after (λ x. elim (Bool-cases (member x (inodes_of loops))) [
                | inr e ↦ less x e
                | inl e ↦
                    let (r, m, f) = inodes_of_lem x loops e in
                    let (k, b) = from_root (depth r.inode) r m (omega arith) in
                    gone k x (subst (λ y. Below k y root_inode) f b)
              ]))

has_row-Among :
    {A : Type 0} (key : A → ℕ) (k : ℕ) (t : List A)
    → has_row key k t ≡ true
    → (r : A) × Among r t × (key r ≡ k)
unfolding has_row
has_row-Among key k [] h = absurd (ground (arith, h))
has_row-Among key k (x ∷ t) h = elim (Bool-cases (key x == k)) [
  | inl e ↦ (x, inl refl, ground (arith, e))
  | inr e ↦ let (r, m, f) = has_row-Among key k t (ground (arith, h, e)) in (r, inr m, f)
]

-- The rows of `loopcheck` are the directories that have entries.
abbrev row_of : List DirEntry → DirEntry → Loop
row_of all e = record {
  inode = e.parent_inode;
  parent_inode = parent_of (select (λ r. r.inode == e.parent_inode) all);
}

loopcheck-rows :
    (all t : List DirEntry) (r : Loop)
    → Among r (loopcheck all t)
    → (e : DirEntry) × Among e t × (row_of all e ≡ r)
unfolding loopcheck
loopcheck-rows all [] r m = absurd m
loopcheck-rows all (e ∷ t) r m =
    elim (Bool-cases (has_row loop_key e.parent_inode (loopcheck all t))) [
      | inl f ↦ let (x, n, g) = loopcheck-rows all t r (rw f at m) in (x, inr n, g)
      | inr f ↦
          let n : Among r (row_of all e ∷ loopcheck all t) = rw f at m in
          elim n [
            | inl g ↦ (e, inl refl, g)
            | inr k ↦ let (x, n, g) = loopcheck-rows all t r k in (x, inr n, g)
          ]
    ]

loopcheck-entries :
    (all t : List DirEntry) (e : DirEntry)
    → Among e t
    → (r : Loop) × Among r (loopcheck all t) × (r.inode ≡ e.parent_inode)
unfolding loopcheck
loopcheck-entries all [] e m = absurd m
loopcheck-entries all (x ∷ t) e m =
    elim (Bool-cases (has_row loop_key x.parent_inode (loopcheck all t))) [
      | inl f ↦ rw f (elim m [
        | inl g ↦
            let (r, n, h) = has_row-Among loop_key x.parent_inode (loopcheck all t) f in
            (r, n, h ∙ ap (λ y. y.parent_inode) g)
        | inr n ↦ loopcheck-entries all t e n
      ])
      | inr f ↦ rw f (elim m [
        | inl g ↦ (row_of all x, inl refl, ap (λ y. y.parent_inode) g)
        | inr n ↦ let (r, k, h) = loopcheck-entries all t e n in (r, inr k, h)
      ])
    ]

some-inj : {A : Type 0} (a b : A) → ◌≡◌ {A = Option A} (some a) (some b) → a ≡ b
some-inj a b h = ground (arith, h)

select-Among : {A : Type 0} (p : A → Bool) (t : List A) (r : A) → select p t ≡ some r → Among r t
unfolding select
select-Among p [] r h = absurd (ground (arith, h))
select-Among p (x ∷ t) r h = elim (Bool-cases (p x)) [
  | inl e ↦ inl (some-inj x r (rw e at h))
  | inr e ↦ inr (select-Among p t r (rw e at h))
]

-- The directory is the root, which has no entry, or is one level below the directory that its entry is in; there
-- are no more levels than directories.
abbrev pub HasLevel : List DirEntry → (ℕ → ℕ) → ℕ → Type 0
HasLevel contents depth p =
    (depth p ≤ length (loopcheck contents contents))
    × (((p ≡ root_inode) × (select (λ r. r.inode == p) contents ≡ none))
        ⊎ ((e : DirEntry) × (select (λ r. r.inode == p) contents ≡ some e)
            × (depth p ≡ suc (depth e.parent_inode))))

-- Directories with levels are all reached from the root.
module _ (contents : List DirEntry) (depth : ℕ → ℕ) (top : depth root_inode ≡ 0)
    (levels : All (λ e. HasLevel contents depth e.parent_inode) contents) where
  abbrev loops : List Loop
  loops = loopcheck contents contents

  -- A property of rows, shown for those of entries.
  for_rows :
      (P : Loop → Type 0)
      → ((e : DirEntry) → HasLevel contents depth e.parent_inode → P (row_of contents e))
      → (r : Loop) → Among r loops
      → P r
  for_rows P h r m =
      let (e, n, g) = loopcheck-rows contents contents r m in
      subst P g (h e (Among-All (λ x. HasLevel contents depth x.parent_inode) e contents levels n))

  row_level :
      (p : ℕ) (e : DirEntry)
      → HasLevel contents depth e.parent_inode
      → is_in p (row_of contents e) ≡ true
      → depth e.parent_inode ≡ suc (depth p)
  row_level p e (le, inl (root, none_there)) i = absurd (ground (arith, rw none_there at i))
  row_level p e (le, inr (f, there, d)) i =
      let same : f.parent_inode ≡ p = ground (arith, rw there at i) in
      d ∙ ap (λ q. suc (depth q)) same

  row_parent :
      (e : DirEntry)
      → HasLevel contents depth e.parent_inode
      → (e.parent_inode ≡ root_inode)
        ⊎ ((q : Loop) × Among q loops × (is_in q.inode (row_of contents e) ≡ true))
  row_parent e (le, inl (root, none_there)) = inl root
  row_parent e (le, inr (f, there, d)) =
      let (q, m, same) =
        loopcheck-entries contents contents f
          (select-Among (λ r. r.inode == e.parent_inode) contents f there) in
      inr (q, m, rw there (ground (arith, same)))

  pub reached_lem : unreached loops root_inode (inodes_of loops) ≡ some []
  reached_lem =
      unreached_lem loops depth (length loops)
        (λ r p m.
          for_rows (λ r. is_in p r ≡ true → depth r.inode ≡ suc (depth p)) (row_level p) r m)
        (λ r m. for_rows (λ r. depth r.inode ≤ length loops) (λ e h. h.0) r m) top
        (λ r m.
          for_rows
            (λ r. (r.inode ≡ root_inode) ⊎ ((q : Loop) × Among q loops × (is_in q.inode r ≡ true)))
            row_parent r m)
        (omega arith)
