-- ===== src/BlockCache/Refs/Flushes.antt =====
-- The reference counts across `_deref_obj` and the parts of `upload_if_dirty` that link no block.
use s3ql.Prelude.{
  ℕ, ◌≡◌, refl, Bool, true, false, List, [], ◌∷◌, Option, none, some, arith, ltb, ◌==◌,
  if◌then◌else◌,
}
use s3ql.Prelude.Effect.{
  raise, modify, Keeps, Keeps-pure, Keeps-modify, Keeps-catch, keeps_rules, Ensures, Ensures-gets,
  Ensures-modify, Ensures-branch, Ensures-pure, Ensures-of_Keeps,
}
use s3ql.BlockCache.State.{Object, Error, Env, obj_key, find_object}
use s3ql.BlockCache.Upload.{delete_object, deref_row, deref_obj, remove_from_transit, clean_entry}
use s3ql.BlockCache.Flush.{
  Check, release_taken, give_up, undo, early_return, check_locked, drop_old,
}
use s3ql.BlockCache.Refs.{IsBalanced, gives_up, decr_refcount-IsBalanced, delete_object-IsBalanced}
use s3ql.BlockCache.Refs.Uploads.{
  IsLeaky, IsQuiet, weaken, release-IsBalanced, modify-IsBalanced, forget_object-IsBalanced,
}

module _ (env : Env) (quiet : IsQuiet env) (d : List ℕ) where
  deref_row-Ensures :
      (obj : ℕ) (row : Option Object)
      → Ensures
          (λ s. IsBalanced (obj ∷ d) s × (find_object obj s ≡ row))
          (deref_row env obj row)
          (λ _. IsBalanced d)
          (IsLeaky d)
  unfolding deref_row raise
  deref_row-Ensures obj none = record { at = λ s h. (obj ∷ [], h.0) }
  deref_row-Ensures obj (some o) =
      Ensures-branch (ltb 1 o.refcount) _ _
        (λ more. record {
          at = λ s h. unfold modify in decr_refcount-IsBalanced obj d s o h.1 more h.0;
        })
        (λ few.
          Ensures-modify (delete_object obj) _ (IsBalanced d)
            (λ s h. delete_object-IsBalanced obj d s o h.1 few h.0)
            (Ensures-of_Keeps (forget_object-IsBalanced env quiet d obj o.phys_size) (weaken d)))

  pub deref_obj-Ensures :
      (obj : ℕ) → Ensures (IsBalanced (obj ∷ d)) (deref_obj env obj) (λ _. IsBalanced d) (IsLeaky d)
  unfolding deref_obj
  deref_obj-Ensures obj = Ensures-gets (find_object obj) _ (deref_row-Ensures obj)

  -- Row 0 does not exist, so no reference to it is ever given up.
  pub drop_old-Ensures :
      (old : Option ℕ)
      → Ensures (IsBalanced (gives_up old d)) (drop_old env old) (λ _. IsBalanced d) (IsLeaky d)
  unfolding drop_old
  drop_old-Ensures none = Ensures-pure tt (λ s h. h)
  drop_old-Ensures (some old) =
      Ensures-branch (old == 0) _ _
        (λ zero. Ensures-pure tt (λ s h. absurd (ground (arith, h.balanced old, h.nonzero))))
        (λ _. deref_obj-Ensures old)

  -- The parts that change no table.
  pub remove_from_transit-IsBalanced :
      (e : ℕ) → Keeps {E = Error} (IsBalanced d) (modify (remove_from_transit e))
  unfolding remove_from_transit
  remove_from_transit-IsBalanced e =
      modify-IsBalanced env quiet d _ (λ s. refl) (λ s. refl) (λ s. refl)

  pub clean_entry-IsBalanced : (e : ℕ) → Keeps {E = Error} (IsBalanced d) (modify (clean_entry e))
  unfolding clean_entry
  clean_entry-IsBalanced e = modify-IsBalanced env quiet d _ (λ s. refl) (λ s. refl) (λ s. refl)

  maybe_remove :
      (added : Bool) (e : ℕ)
      → Keeps {E = Error}
          (IsBalanced d)
          (modify (λ s. if added then remove_from_transit e s else s))
  maybe_remove true e = remove_from_transit-IsBalanced e
  maybe_remove false e = Keeps-modify _ (λ s h. h)

  pub give_up-IsBalanced :
      {A : Type 0} (i b : ℕ) (added : Bool) (e : ℕ) (x : Error)
      → Keeps {A = A} (IsBalanced d) (give_up env i b added e x)
  unfolding give_up
  give_up-IsBalanced i b added e x =
      search (keeps_rules, maybe_remove, release-IsBalanced env quiet d) depth 9

  release_taken-IsBalanced : (o : Option ℕ) → Keeps (IsBalanced d) (release_taken env o)
  unfolding release_taken
  release_taken-IsBalanced none = Keeps-pure tt
  release_taken-IsBalanced (some o) = release-IsBalanced env quiet d false (obj_key o)

  pub undo-IsBalanced :
      {A : Type 0} (i b : ℕ) (o : Option ℕ) (e : ℕ) (x : Error)
      → Keeps {A = A} (IsBalanced d) (undo env i b o e x)
  unfolding undo
  undo-IsBalanced i b o e x =
      search
        (
          keeps_rules,
          remove_from_transit-IsBalanced,
          release_taken-IsBalanced,
          release-IsBalanced env quiet d,
        )
        depth 9

  early_return-IsBalanced : (i b : ℕ) (c : Check) → Keeps (IsBalanced d) (early_return env i b c)
  unfolding early_return
  early_return-IsBalanced i b Check.gone = search (keeps_rules, release-IsBalanced env quiet d)
  early_return-IsBalanced i b Check.transit = search (keeps_rules, release-IsBalanced env quiet d)
  early_return-IsBalanced i b Check.clean = search (keeps_rules, release-IsBalanced env quiet d)
  early_return-IsBalanced i b Check.todo = search keeps_rules

  pub check_locked-IsBalanced : (e i b : ℕ) → Keeps (IsBalanced d) (check_locked env e i b)
  unfolding check_locked
  check_locked-IsBalanced e i b =
      search (keeps_rules, Keeps-catch, early_return-IsBalanced, give_up-IsBalanced) depth 9
