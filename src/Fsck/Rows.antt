-- ===== src/Fsck/Rows.antt =====
-- What src/s3ql/fsck.py does to a table when it repairs its wrong rows one by one.
use mathlib.Core.Option
use s3ql.Prelude.{
  ℕ, ◌+◌, ◌≤◌, ◌≡◌, refl, ap, sym, ◌∙◌, Bool, true, false, not, ◌&&◌, ◌||◌, List, [], ◌∷◌, ◌++◌,
  none, some, length, ◌==◌, if◌then◌else◌, arith, inl, inr, Bool-cases, Option-cases,
}
use s3ql.Prelude.Sql.{
  select, count, update, delete, has_key, count-delete-le, select-delete, select-none,
  count-select-pos,
}
use s3ql.Prelude.Effect.{returned, pure, raise, branch, gets, ◌>>=◌}
use s3ql.Fsck.State.{Fsck, delete_rows, has_row, is_some, get_row, first_row}

-- The key is a primary key.
abbrev pub IsKey : {A : Type 0} → (A → ℕ) → List A → Type 0
IsKey key t = (k : ℕ) → count (has_key key k) t ≤ 1

module _ {A : Type 0} (key : A → ℕ) where
  pub has_row-select :
      (k : ℕ) (t : List A) (r : A) → select (has_key key k) t ≡ some r → has_row key k t ≡ true
  unfolding select has_row
  has_row-select k [] r h = ground arith
  has_row-select k (x ∷ t) r h = ground (arith, has_row-select k t r)

  pub has_row-none :
      (k : ℕ) (t : List A) → select (has_key key k) t ≡ none → has_row key k t ≡ false
  unfolding select has_row
  has_row-none k [] h = ground arith
  has_row-none k (x ∷ t) h = ground (arith, has_row-none k t)

  pub has_row_lem : (k : ℕ) (t : List A) → has_row key k t ≡ is_some (select (has_key key k) t)
  unfolding select has_row is_some
  has_row_lem k [] = refl
  has_row_lem k (x ∷ t) = ground (arith, has_row_lem k t)

  pub absent-select :
      (k : ℕ) (t : List A) → has_row key k t ≡ false → select (has_key key k) t ≡ none
  unfolding is_some
  absent-select k t h = elim (Option-cases (select (has_key key k) t)) [
    | inl e ↦ e
    | inr (r, e) ↦ absurd (ground (arith, h, has_row_lem k t, e))
  ]

  -- Rows that are deleted by a condition on their key
  pub select-delete_key :
      (p : ℕ → Bool) (k : ℕ) (t : List A)
      → select (has_key key k) (delete (λ x. p (key x)) t)
        ≡ (if p k then none else select (has_key key k) t)
  unfolding select delete
  select-delete_key p k [] = ground arith
  select-delete_key p k (x ∷ t) = elim (Bool-cases (key x == k)) [
    | inl e ↦ let i : key x ≡ k = ground (arith, e) in rw i ground (arith, select-delete_key p k t)
    | inr e ↦ ground (arith, e, select-delete_key p k t)
  ]

  -- A key that is in the table and that no wrong row has is that of a right row.
  pub select-right :
      (p : A → Bool) (k : ℕ) (t : List A) (r : A)
      → select (has_key key k) t ≡ some r
      → has_row key k (delete (λ x. not (p x)) t) ≡ false
      → p r ≡ false
  unfolding select delete has_row
  select-right p k [] r h e = ground arith
  select-right p k (x ∷ t) r h e = elim (Bool-cases (p x)) [
    | inl w ↦ ground (arith, w, select-right p k t r)
    | inr w ↦ ground (arith, w, select-right p k t r)
  ]

  -- With a primary key, a key that a wrong row has is that row's only.
  pub select-wrong :
      (p : A → Bool) (k : ℕ) (t : List A) (r : A)
      → count (has_key key k) t ≤ 1
      → select (has_key key k) t ≡ some r
      → has_row key k (delete (λ x. not (p x)) t) ≡ true
      → p r ≡ true
  unfolding select delete has_row
  select-wrong p k [] r u h e = ground arith
  select-wrong p k (x ∷ t) r u h e = elim (Bool-cases (p x)) [
    | inl w ↦ ground (arith, w, select-wrong p k t r)
    | inr w ↦
        ground (arith, w, select-wrong p k t r, count-delete-le (λ x. not (p x)) (has_key key k) t)
  ]

  pub select-delete_rows :
      (k : ℕ) (rows t : List A)
      → select (has_key key k) (delete_rows key rows t)
        ≡ (if has_row key k rows then none else select (has_key key k) t)
  unfolding delete_rows has_row
  select-delete_rows k [] t = ground arith
  select-delete_rows k (r ∷ rows) t = ground (
    arith,
    select-delete_rows k rows (delete (has_key key (key r)) t),
    select-delete key k (key r) t,
  )

  pub absent-delete :
      (p : A → Bool) (k : ℕ) (t : List A)
      → select (has_key key k) t ≡ none
      → has_row key k (delete p t) ≡ false
  unfolding select has_row delete
  absent-delete p k [] h = ground arith
  absent-delete p k (x ∷ t) h = ground (arith, absent-delete p k t)

  delete-same :
      (f g : A → Bool) (t : List A)
      → IsKey key t
      → ((x : A) → select (has_key key (key x)) t ≡ some x → f x ≡ g x)
      → delete f t ≡ delete g t
  unfolding delete select
  delete-same f g [] u h = refl
  delete-same f g (y ∷ t) u h =
      let ih : delete f t ≡ delete g t =
        delete-same f g t (λ k. ground (arith, u k)) (λ x e. h x (later x e)) in
      let here : f y ≡ g y = h y (ground arith) in ground (arith, ih, here)
    where
      later :
          (x : A)
          → select (has_key key (key x)) t ≡ some x
          → (if key y == key x then some y else select (has_key key (key x)) t) ≡ some x
      later x e = ground (arith, e, u (key x), count-select-pos (has_key key (key x)) t x e)

  delete-delete :
      (f g h : A → Bool) (t : List A)
      → ((x : A) → h x ≡ (g x || f x))
      → delete f (delete g t) ≡ delete h t
  unfolding delete
  delete-delete f g h [] e = refl
  delete-delete f g h (x ∷ t) e = ground (arith, e x, delete-delete f g h t e)

  has_row-cons :
      (r x : A) (rows : List A)
      → has_row key (key x) (r ∷ rows) ≡ (has_key key (key r) x || has_row key (key x) rows)
  unfolding has_row
  has_row-cons r x rows = ground arith

  delete_rows-delete :
      (rows t : List A) → delete_rows key rows t ≡ delete (λ x. has_row key (key x) rows) t
  unfolding delete_rows has_row delete
  delete_rows-delete [] t = sym (delete-nothing t)
    where
      delete-nothing : (t : List A) → delete (λ x. false) t ≡ t
      delete-nothing [] = refl
      delete-nothing (x ∷ t) = ap (◌∷◌ x) (delete-nothing t)
  delete_rows-delete (r ∷ rows) t =
      delete_rows-delete rows (delete (has_key key (key r)) t)
      ∙ delete-delete (λ x. has_row key (key x) rows) (has_key key (key r))
          (λ x. has_row key (key x) (r ∷ rows)) t (λ x. has_row-cons r x rows)

  -- The wrong rows go, and no others.
  pub delete_rows_lem :
      (p : A → Bool) (t : List A)
      → IsKey key t
      → delete_rows key (delete (λ x. not (p x)) t) t ≡ delete p t
  delete_rows_lem p t u =
      delete_rows-delete (delete (λ x. not (p x)) t) t
      ∙ delete-same (λ x. has_row key (key x) (delete (λ y. not (p y)) t)) p t u (λ x e. same x e)
    where
      same :
          (x : A)
          → select (has_key key (key x)) t ≡ some x
          → has_row key (key x) (delete (λ y. not (p y)) t) ≡ p x
      same x e = elim (Bool-cases (has_row key (key x) (delete (λ y. not (p y)) t))) [
        | inl w ↦ w ∙ sym (select-wrong p (key x) t x (u (key x)) e w)
        | inr w ↦ w ∙ sym (select-right p (key x) t x e w)
      ]

module _ {A : Type 0} (p : A → Bool) where
  -- Where no row is wrong, no row is found and none deleted.
  pub delete-none : (t : List A) → count p t ≡ 0 → delete p t ≡ t
  unfolding delete
  delete-none [] h = refl
  delete-none (x ∷ t) h = ground (arith, delete-none t)

  -- How many wrong rows there are.
  pub length-wrong : (t : List A) → length (delete (λ x. not (p x)) t) ≡ count p t
  unfolding delete
  length-wrong [] = refl
  length-wrong (x ∷ t) = ground (arith, length-wrong t)

  pub count-split :
      (q : A → Bool) (t : List A)
      → count q (delete (λ x. not (p x)) t) + count q (delete p t) ≡ count q t
  unfolding delete
  count-split q [] = refl
  count-split q (x ∷ t) = ground (arith, count-split q t)

  pub delete-not_none : (t : List A) → count p t ≡ 0 → delete (λ x. not (p x)) t ≡ []
  unfolding delete
  delete-not_none [] h = refl
  delete-not_none (x ∷ t) h = ground (arith, delete-not_none t)

  pub count-stronger :
      (q : A → Bool) (t : List A) → ((x : A) → q x ≡ true → p x ≡ true) → count q t ≤ count p t
  count-stronger q [] f = omega arith
  count-stronger q (x ∷ t) f = elim (Bool-cases (q x)) [
    | inl e ↦ ground (arith, e, f x e, count-stronger q t f)
    | inr e ↦ ground (arith, e, count-stronger q t f)
  ]

  -- Every wrong row is among the wrong rows.
  pub wrong-found :
      (key : A → ℕ) (wrong t : List A)
      → ((k : ℕ) → has_row key k (delete (λ x. not (p x)) t) ≡ true → has_row key k wrong ≡ true)
      → count (λ x. p x && not (has_row key (key x) wrong)) t ≡ 0
  unfolding delete has_row
  wrong-found key wrong [] f = refl
  wrong-found key wrong (x ∷ t) f =
      let ih : count (λ x. p x && not (has_row key (key x) wrong)) t ≡ 0 =
        wrong-found key wrong t (λ k h. f k (ground (arith, h))) in
      elim (Bool-cases (p x)) [
        | inl e ↦ ground (arith, e, ih, f (key x) (ground (arith, e)))
        | inr e ↦ ground (arith, e, ih)
      ]

-- A row is what its key finds.
pub select-own :
    {A : Type 0} (key : A → ℕ) (p : A → Bool) (t : List A) (r : A)
    → IsKey key t
    → select p t ≡ some r
    → select (has_key key (key r)) t ≡ some r
unfolding select
select-own key p [] r u e = ground (arith, e)
select-own key p (x ∷ t) r u e = elim (Bool-cases (p x)) [
  | inl h ↦ let same : x ≡ r = ground (arith, e, h) in rw same ground arith
  | inr h ↦
      let ih : select (has_key key (key r)) t ≡ some r =
        select-own key p t r (λ k. ground (arith, u k)) (ground (arith, e, h)) in
      ground (arith, ih, u (key r), count-select-pos (has_key key (key r)) t r ih)
]

pub select-update_self :
    {A : Type 0} (p : A → Bool) (f : A → A) (t : List A)
    → ((x : A) → p (f x) ≡ p x)
    → select p (update p f t) ≡ Option.map f (select p t)
unfolding select update
select-update_self p f [] same = refl
select-update_self p f (x ∷ t) same = ground (arith, same x, select-update_self p f t same)

pub select-added :
    {A : Type 0} (p : A → Bool) (t : List A) (r : A)
    → select p t ≡ none
    → p r ≡ true
    → select p (t ++ r ∷ []) ≡ some r
unfolding select
select-added p [] r e h = ground (arith, h)
select-added p (x ∷ t) r e h = ground (arith, e, h, select-added p t r)

-- A query that one row answers returns it.
pub get_row_one :
    {A : Type 0} (table : Fsck → List A) (p : A → Bool) (s : Fsck)
    → count p (table s) ≡ 1
    → (r : A) × (select p (table s) ≡ some r) × (get_row table p s ≡ (returned r, s))
unfolding get_row first_row ◌>>=◌ pure raise branch gets
get_row_one table p s one = elim (Option-cases (select p (table s))) [
  | inl e ↦ absurd (ground (arith, one, select-none p (table s) e))
  | inr (r, e) ↦ (r, e, rw (one, e) refl)
]
