-- ===== src/Fsck/Free.antt =====
-- `resolve_free` of src/s3ql/fsck.py ends with a name that no entry of the directory has.
use s3ql.Prelude.{
  ℕ, zero, suc, ◌+◌, ◌≤◌, ◌<◌, ◌≡◌, refl, sym, ◌∙◌, Bool, true, false, ◌||◌, List, [], ◌∷◌, length,
  arith, inl, inr, Bool-cases, Option-cases,
}
use s3ql.Prelude.Sql.{select, count, has_key}
use s3ql.Prelude.Effect.{returned, pure, branch, gets, ◌>>=◌}
use s3ql.Fsck.State.{
  Bytes, Value, blob, text, Name, DirEntry, Fsck, name_key, eq_bytes-eq, eq_value, has_name_id,
  is_named,
}
use s3ql.Fsck.Rows.{get_row_one}
use s3ql.Fsck.Digits.{numbered-inj}
use s3ql.Fsck.Paths.{numbered, shortened, is_taken, free_loop, inode_for_path, resolve_free}

eq_value-blob :
    (v : Value) (m n : Bytes) → eq_value v (blob m) ≡ true → eq_value v (blob n) ≡ true → m ≡ n
unfolding eq_value
eq_value-blob (blob x) m n h k = sym (eq_bytes-eq x m h) ∙ eq_bytes-eq x n k
eq_value-blob (text x) m n h k = ground (arith, h)

-- An entry has one name.
is_named-blob :
    (names : List Name) (m n : Bytes) (p : ℕ) (r : DirEntry)
    → is_named names (blob m) p r ≡ true
    → is_named names (blob n) p r ≡ true
    → m ≡ n
unfolding is_named has_name_id
is_named-blob names m n p r h k = elim (Option-cases (select (has_key name_key r.name_id) names)) [
  | inl e ↦ absurd (ground (arith, h, e))
  | inr (x, e) ↦ eq_value-blob x.name m n (ground (arith, h, e)) (ground (arith, k, e))
]

count-or :
    {A : Type 0} (p q : A → Bool) (t : List A)
    → ((x : A) → p x ≡ true → q x ≡ false)
    → count (λ x. p x || q x) t ≡ count p t + count q t
count-or p q [] d = refl
count-or p q (x ∷ t) d = elim (Bool-cases (p x)) [
  | inl e ↦ ground (arith, e, d x e, count-or p q t d)
  | inr e ↦ ground (arith, e, count-or p q t d)
]

count-le : {A : Type 0} (p : A → Bool) (t : List A) → count p t ≤ length t
count-le p [] = omega arith
count-le p (x ∷ t) = ground (arith, count-le p t)

taken-one :
    (m : Bytes) (p : ℕ) (s : Fsck)
    → is_taken m p s ≡ true
    → count (is_named s.names (blob m) p) s.contents ≤ 1
    → count (is_named s.names (blob m) p) s.contents ≡ 1
unfolding is_taken
taken-one m p s h u = ground (arith, h, u)

module _ (s : Fsck) (name : Bytes) (inode_p : ℕ) where
  abbrev is_tried : ℕ → DirEntry → Bool
  is_tried i r = is_named s.names (blob (numbered name i)) inode_p r

  -- The entry has one of the first names that are tried.
  abbrev before : ℕ → DirEntry → Bool
  before zero r = false
  before (suc i) r = before i r || is_tried i r

  before-other : (i j : ℕ) (r : DirEntry) → i ≤ j → before i r ≡ true → is_tried j r ≡ false
  before-other zero j r l h = ground (arith, h)
  before-other (suc i) j r l h = elim (Bool-cases (is_tried j r)) [
    | inr f ↦ f
    | inl f ↦ elim (Bool-cases (before i r)) [
      | inl e ↦ before-other i j r (omega (arith, l)) e
      | inr e ↦
          let same : numbered name i ≡ numbered name j =
            is_named-blob s.names (numbered name i) (numbered name j) inode_p r
              (ground (arith, h, e)) f in
          absurd (omega (arith, l, numbered-inj name i j same))
    ]
  ]

  -- With more tries than entries one of them is free.
  free_loop_lem :
      (n i : ℕ)
      → ((m : Bytes) → count (is_named s.names (blob m) inode_p) s.contents ≤ 1)
      → length s.contents < n + count (before i) s.contents
      → (j : ℕ) × (free_loop n i name inode_p s ≡ (returned (numbered name j), s))
        × (is_taken (numbered name j) inode_p s ≡ false)
  unfolding free_loop ◌>>=◌ gets branch pure
  free_loop_lem zero i u l = absurd (omega (arith, l, count-le (before i) s.contents))
  free_loop_lem (suc n) i u l = elim (Bool-cases (is_taken (numbered name i) inode_p s)) [
    | inr f ↦ (i, rw f refl, f)
    | inl f ↦
        let one : count (is_tried i) s.contents ≡ 1 =
          taken-one (numbered name i) inode_p s f (u (numbered name i)) in
        let all : count (before (suc i)) s.contents ≡ suc (count (before i) s.contents) = omega (
          arith,
          one,
          count-or (before i) (is_tried i) s.contents (λ r. before-other i i r (omega arith)),
        ) in
        let (j, r, k) = free_loop_lem n (suc i) u (omega (arith, l, all)) in
        let (x, y, got) = get_row_one (λ t. t.contents) (is_tried i) s one in
        let step : free_loop (suc n) i name inode_p s ≡ (returned (numbered name j), s) =
          rw (f, got) r in
        (j, step, k)
  ]

-- With a directory of that path whose entries have different names, `resolve_free` returns the
-- directory and a name that no entry of it has: the name that was asked for, cut when it is longer than
-- 251 bytes, or that with a number. Nothing changes.
pub resolve_free_lem :
    (path name : Bytes) (inode_p : ℕ) (s : Fsck)
    → inode_for_path path s ≡ (returned inode_p, s)
    → ((m : Bytes) → count (is_named s.names (blob m) inode_p) s.contents ≤ 1)
    → (j : ℕ) × (resolve_free path name s ≡ (returned (inode_p, numbered (shortened name) j), s))
      × (is_taken (numbered (shortened name) j) inode_p s ≡ false)
unfolding resolve_free ◌>>=◌ gets pure
resolve_free_lem path name inode_p s found u =
    let (j, r, k) =
      free_loop_lem s (shortened name) inode_p (suc (length s.contents)) 0 u (omega arith) in
    (j, rw (found, r) refl, k)
