-- ===== src/Fsck/Crash.antt =====
-- `check_contents_inode` of src/s3ql/fsck.py where the path of an entry cannot be told.
use mathlib.Core.Path.{subst}
use s3ql.Prelude.{
  ℕ, zero, suc, ◌≡◌, ◌⊎◌, refl, ap, sym, ◌∙◌, Bool, true, false, not, ◌&&◌, List, [], ◌∷◌, ◌++◌,
  Option, none, some, ◌==◌, arith, All, inl, inr, Bool-cases, Option-cases,
}
use s3ql.Prelude.Sql.{select, delete, has_key, select-holds}
use s3ql.Prelude.Effect.{Outcome, returned, raised, raise, pure, gets, branch, modify, catch, ◌>>=◌}
use s3ql.Fsck.State.{
  Bytes, Value, blob, text, Error, DirEntry, Fsck, M, no_such_row, no_unique_value, key_error,
  constraint, no_such_object, unresolved, type_error, strange, recursion, root_inode, name_key,
  has_row, first_row, found_error, for_each,
}
use s3ql.Fsck.Paths.{get_path, path_loop, parent_entry, all_bytes, bytes_of, del_name}
use s3ql.Fsck.PathFrame.{get_path_frame}
use s3ql.Fsck.Entries.{
  dangles, if_no_row, Label, path_bytes, path_text, to_str, entry_label, path_of, forget_entry,
  check_contents_inode,
}

some-inj : {A : Type 0} {a b : A} → ◌≡◌ {A = Option A} (some a) (some b) → a ≡ b
some-inj h = ground (arith, h)

-- The entry is in a directory that no entry has, other than the root.
abbrev pub is_cut_off : List DirEntry → DirEntry → Bool
is_cut_off contents e =
    not (e.parent_inode == root_inode)
    && not (has_row (λ (x : DirEntry). x.inode) e.parent_inode contents)

All-select :
    {A : Type 0} (P : A → Type 0) (p : A → Bool) (t : List A) (r : A)
    → All P t
    → select p t ≡ some r
    → P r
unfolding select
All-select P p [] r h e = absurd (ground (arith, e))
All-select P p (x ∷ t) r (h, hs) e = elim (Bool-cases (p x)) [
  | inl f ↦ let same : ◌≡◌ {A = Option _} (some x) (some r) = rw f at e in subst P (some-inj same) h
  | inr f ↦ All-select P p t r hs (rw f at e)
]

select-absent :
    {A : Type 0} (key : A → ℕ) (id : ℕ) (q : A → Bool) (t : List A)
    → has_row key id t ≡ false
    → select (λ r. key r == id && q r) t ≡ none
unfolding select has_row
select-absent key id q [] h = refl
select-absent key id q (x ∷ t) h = ground (arith, h, select-absent key id q t (ground (arith, h)))

module _ (s : Fsck) where
  parent_entry_lost :
      (id : ℕ)
      → has_row (λ (x : DirEntry). x.inode) id s.contents ≡ false
      → parent_entry id s ≡ (raised no_such_row, s)
  unfolding parent_entry first_row ◌>>=◌ gets raise
  parent_entry_lost id h =
      rw
        (select-absent (λ (x : DirEntry). x.inode) id (λ r. has_row name_key r.name_id s.names)
          s.contents h)
        refl

  parent_entry_cases :
      (id : ℕ)
      → (parent_entry id s ≡ (raised no_such_row, s))
        ⊎ ((e : DirEntry) × (v : Value) × (select
                (λ r. r.inode == id && has_row name_key r.name_id s.names)
                s.contents
              ≡ some e)
            × (parent_entry id s ≡ (returned (v, e.parent_inode), s)))
  unfolding parent_entry first_row ◌>>=◌ gets raise pure
  parent_entry_cases id =
      elim (Option-cases
        (select (λ r. r.inode == id && has_row name_key r.name_id s.names) s.contents)) [
          | inl e ↦ inl (rw e refl)
          | inr (r, e) ↦ elim (Option-cases (select (has_key name_key r.name_id) s.names)) [
            | inl f ↦ inl (rw (e, f) refl)
            | inr (x, f) ↦ inr (r, x.name, e, rw (e, f) refl)
          ]
        ]

  -- No path leads to an inode whose entries are all cut off.
  path_loop_lem :
      (n id : ℕ) (path : List Value)
      → (id == root_inode) ≡ false
      → All (λ e. (e.inode == id) ≡ true → is_cut_off s.contents e ≡ true) s.contents
      → path_loop (suc (suc n)) id path s ≡ (raised no_such_row, s)
  unfolding path_loop ◌>>=◌ branch raise pure
  path_loop_lem n id path u h = elim (parent_entry_cases id) [
    | inl f ↦ rw (u, f) refl
    | inr (e, v, sel, f) ↦
        let found : (e.inode == id && has_row name_key e.name_id s.names) ≡ true =
          select-holds (λ r. r.inode == id && has_row name_key r.name_id s.names) s.contents e
            sel in
        let cut_off : is_cut_off s.contents e ≡ true =
          All-select (λ e. (e.inode == id) ≡ true → is_cut_off s.contents e ≡ true)
            (λ r. r.inode == id && has_row name_key r.name_id s.names) s.contents e h sel
            (ground (arith, found)) in
        let up : (e.parent_inode == root_inode) ≡ false = ground (arith, cut_off) in
        let more : (suc n == 0) ≡ false = ground arith in
        let over = parent_entry_lost e.parent_inode (ground (arith, cut_off)) in
        rw (u, f, more, up, over) refl
  ]

  get_path_lem :
      (id : ℕ)
      → (id == root_inode) ≡ false
      → All (λ e. (e.inode == id) ≡ true → is_cut_off s.contents e ≡ true) s.contents
      → get_path id [] s ≡ (raised no_such_row, s)
  unfolding get_path ◌>>=◌
  get_path_lem id u h = rw (path_loop_lem 253 id [] u h) refl

  -- How a search for a path ends.
  abbrev IsTold : {A : Type 0} → Outcome Error A → Type 0
  IsTold {A} o =
      ((a : A) × (o ≡ returned a))
      ⊎ (o ≡ raised no_such_row)
      ⊎ (o ≡ raised type_error)
      ⊎ (o ≡ raised unresolved)

  path_loop-IsTold : (n id : ℕ) (path : List Value) → IsTold (path_loop n id path s).0
  unfolding path_loop ◌>>=◌ branch raise pure
  path_loop-IsTold zero id path = inr (inr (inr refl))
  path_loop-IsTold (suc n) id path = elim (Bool-cases (id == root_inode)) [
    | inl u ↦ rw u (inl (path, refl))
    | inr u ↦ elim (parent_entry_cases id) [
      | inl f ↦ rw (u, f) (inr (inl refl))
      | inr (e, v, sel, f) ↦ elim (Bool-cases (n == 0)) [
        | inl m ↦ rw (u, f, m) (inr (inr (inr refl)))
        | inr m ↦ rw (u, f, m) (path_loop-IsTold n e.parent_inode (v ∷ path))
      ]
    ]
  ]

  all_bytes_cases :
      (vs : List Value) (t : Fsck)
      → ((ws : List Bytes) × (all_bytes vs t ≡ (returned ws, t)))
        ⊎ (all_bytes vs t ≡ (raised type_error, t))
  unfolding all_bytes bytes_of ◌>>=◌ raise pure
  all_bytes_cases [] t = inl ([], refl)
  all_bytes_cases (text v ∷ vs) t = inr refl
  all_bytes_cases (blob v ∷ vs) t = elim (all_bytes_cases vs t) [
    | inl (ws, e) ↦ inl (v ∷ ws, rw e refl)
    | inr e ↦ inr (rw e refl)
  ]

  get_path-IsTold : (id : ℕ) → IsTold (get_path id [] s).0
  unfolding get_path ◌>>=◌ pure
  get_path-IsTold id = elim (path_loop-IsTold 255 id []) [
    | inl (a, e) ↦ elim (all_bytes_cases a (path_loop 255 id [] s).1) [
      | inl (ws, f) ↦ rw (e, f) (inl (_, refl))
      | inr f ↦ rw (e, f) (inr (inr (inl refl)))
    ]
    | inr (inl e) ↦ rw e (inr (inl refl))
    | inr (inr (inl e)) ↦ rw e (inr (inr (inl refl)))
    | inr (inr (inr e)) ↦ rw e (inr (inr (inr refl)))
  ]

-- An error is not that of a missing row where `if_no_row` raises it again; the entries are as before in any case.
if_no_row_frame : (l : Label) (e : Error) (s : Fsck) → (if_no_row (pure l) e s).1 ≡ s
unfolding if_no_row pure raise
if_no_row_frame l no_such_row s = refl
if_no_row_frame l no_unique_value s = refl
if_no_row_frame l key_error s = refl
if_no_row_frame l constraint s = refl
if_no_row_frame l no_such_object s = refl
if_no_row_frame l unresolved s = refl
if_no_row_frame l type_error s = refl
if_no_row_frame l strange s = refl
if_no_row_frame l recursion s = refl

outcome_cases :
    {A : Type 0} (r : Outcome Error A)
    → ((a : A) × (r ≡ returned a)) ⊎ ((e : Error) × (r ≡ raised e))
outcome_cases (returned a) = inl (a, refl)
outcome_cases (raised e) = inr (e, refl)

path_of_frame : (r : DirEntry) (s : Fsck) → (path_of r s).1 ≡ s
unfolding path_of catch ◌>>=◌ pure
path_of_frame r s =
    let frame : get_path r.inode [] s ≡ ((get_path r.inode [] s).0, s) =
      get_path_frame r.inode [] s s (refl, refl) in
    elim (outcome_cases (get_path r.inode [] s).0) [
      | inl (p, e) ↦ rw (frame, e) refl
      | inr (x, e) ↦ rw (frame, e) (if_no_row_frame (path_text (entry_label r)) x s)
    ]

to_str_frame : (l : Label) (s : Fsck) → (to_str l s).1 ≡ s
unfolding to_str pure raise
to_str_frame (path_bytes b) s = refl
to_str_frame (path_text b) s = refl

-- A step before another, where both keep the entries.
bind-contents :
    {A B : Type 0} (m : M A) (f : A → M B) (s : Fsck)
    → (m s).1.contents ≡ s.contents
    → ((a : A) (t : Fsck) → (f a t).1.contents ≡ t.contents)
    → ((m >>= f) s).1.contents ≡ s.contents
unfolding ◌>>=◌
bind-contents m f s h k = elim (outcome_cases (m s).0) [
  | inl (a, e) ↦ rw e (k a (m s).1 ∙ h)
  | inr (x, e) ↦ rw e h
]

forget_entry-contents : (r : DirEntry) (s : Fsck) → (forget_entry r s).1.contents ≡ s.contents
unfolding forget_entry modify found_error del_name
forget_entry-contents r s = bind-contents (modify found_error) _ s refl (λ _ t.
    bind-contents (path_of r) _ t (ap (λ u. u.contents) (path_of_frame r t))
      (λ l u. bind-contents (to_str l) _ u (ap (λ v. v.contents) (to_str_frame l u)) (λ _ v. refl)))

-- An entry is to be deleted, or the check ends: the path is a string, or longer than get_path goes.
forget_entry-cases :
    (r : DirEntry) (s : Fsck)
    → ((forget_entry r s).0 ≡ returned tt)
      ⊎ (e : Error) × ((forget_entry r s).0 ≡ raised e) × ((e ≡ type_error) ⊎ (e ≡ unresolved))
unfolding forget_entry path_of to_str if_no_row catch ◌>>=◌ modify pure raise found_error
forget_entry-cases r s =
    let t : Fsck = found_error s in
    let frame : get_path r.inode [] t ≡ ((get_path r.inode [] t).0, t) =
      get_path_frame r.inode [] t t (refl, refl) in
    elim (get_path-IsTold t r.inode) [
      | inl (a, e) ↦ rw (frame, e) (inl refl)
      | inr (inl e) ↦ rw (frame, e) (inr (type_error, refl, inl refl))
      | inr (inr (inl e)) ↦ rw (frame, e) (inr (type_error, refl, inl refl))
      | inr (inr (inr e)) ↦ rw (frame, e) (inr (unresolved, refl, inr refl))
    ]

module _ (contents : List DirEntry) (r : DirEntry) (unrooted : (r.inode == root_inode) ≡ false)
    (lost : All (λ e. (e.inode == r.inode) ≡ true → is_cut_off contents e ≡ true) contents) where
  forget_entry_lost : (s : Fsck) → s.contents ≡ contents → (forget_entry r s).0 ≡ raised type_error
  unfolding forget_entry path_of to_str if_no_row catch ◌>>=◌ modify pure raise found_error
  forget_entry_lost s same =
      let t : Fsck = found_error s in
      let h : All (λ e. (e.inode == r.inode) ≡ true → is_cut_off t.contents e ≡ true) t.contents =
        subst (λ c. All (λ e. (e.inode == r.inode) ≡ true → is_cut_off c e ≡ true) c) (sym same)
          lost in
      rw (get_path_lem t r.inode unrooted h) refl

  -- The loop does not get past the entry.
  for_each_lost :
      (before after : List DirEntry) (s : Fsck)
      → s.contents ≡ contents
      → (e : Error) × ((for_each (before ++ r ∷ after) forget_entry s).0 ≡ raised e)
        × ((e ≡ type_error) ⊎ (e ≡ unresolved))
        × ((for_each (before ++ r ∷ after) forget_entry s).1.contents ≡ contents)
  unfolding for_each ◌>>=◌
  for_each_lost [] after s same =
      let e = forget_entry_lost s same in
      (type_error, rw e refl, inl refl, rw e (forget_entry-contents r s ∙ same))
  for_each_lost (x ∷ before) after s same =
      let kept : (forget_entry x s).1.contents ≡ contents = forget_entry-contents x s ∙ same in
      elim (forget_entry-cases x s) [
        | inr (e, f, which) ↦ (e, rw f refl, which, rw f kept)
        | inl f ↦
            let (e, stops, which, all) = for_each_lost before after (forget_entry x s).1 kept in
            (e, rw f stops, which, rw f all)
      ]

delete-append :
    {A : Type 0} (p : A → Bool) (s t : List A) → delete p (s ++ t) ≡ delete p s ++ delete p t
unfolding delete
delete-append p [] t = refl
delete-append p (x ∷ s) t = ground (arith, delete-append p s t)

-- With an entry whose inode is gone, where each entry of that inode is in a directory that has no entry itself (and
-- neither is the root): the check of the inodes of entries ends with a TypeError, or with that of get_path where the
-- path of an entry before takes 255 steps, and removes no entry at all, also of the others that it is to remove.
pub check_contents_inode_lem :
    (s : Fsck) (before after : List DirEntry) (r : DirEntry)
    → s.contents ≡ before ++ r ∷ after
    → dangles s.inodes r ≡ true
    → (r.inode == root_inode) ≡ false
    → All (λ e. (e.inode == r.inode) ≡ true → is_cut_off s.contents e ≡ true) s.contents
    → (e : Error) × ((check_contents_inode s).0 ≡ raised e)
      × ((e ≡ type_error) ⊎ (e ≡ unresolved))
      × ((check_contents_inode s).1.contents ≡ s.contents)
unfolding check_contents_inode ◌>>=◌ gets delete
check_contents_inode_lem s before after r at gone unrooted lost =
    let p : DirEntry → Bool = λ x. not (dangles s.inodes x) in
    let rows : delete p s.contents ≡ delete p before ++ r ∷ delete p after =
      ap (delete p) at ∙ delete-append p before (r ∷ after) ∙ rw gone refl in
    let (e, stops, which, kept) =
      for_each_lost s.contents r unrooted lost (delete p before) (delete p after) s refl in
    (e, rw (rows, stops) refl, which, rw (rows, stops) kept)
