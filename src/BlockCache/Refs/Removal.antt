-- ===== src/BlockCache/Refs/Removal.antt =====
-- The reference counts across `remove`, `wait` and `expire` of src/s3ql/block_cache.py.
use s3ql.Prelude.{
  ℕ, zero, suc, ◌-◌, ◌≡◌, refl, Bool, true, false, not, List, [], ◌∷◌, Option, none, some, inl, inr,
  if◌then◌else◌, Option-cases,
}
use s3ql.Prelude.Int.{ℤ}
use s3ql.Prelude.Effect.{
  Keeps, Keeps-pure, Keeps-gets, Keeps-raise, Keeps-modify, Keeps-bind, Keeps-branch, Ensures,
  Ensures-bind, Ensures-gets, Ensures-modify, Ensures-pre, Ensures-of_Keeps, KeepsOr,
  KeepsOr-of_Keeps, KeepsOr-bind, KeepsOr-gets, KeepsOr-branch, KeepsOr-pure, keeps_or_rules,
}
use s3ql.BlockCache.State.{State, Env, M, block_key, block_object, find_slot, acquire}
use s3ql.BlockCache.Access.{cache_remove}
use s3ql.BlockCache.Expire.{
  evict, range, delete_block, wait_loop, wait, evict_locked, expire_pass, expire_loop, expire,
  detach, remove_locked, try_lock, remove_free, remove_rest, remove,
}
use s3ql.BlockCache.Refs.{IsBalanced}
use s3ql.BlockCache.Refs.Link.{delete_block-IsBalanced}
use s3ql.BlockCache.Refs.Uploads.{
  IsLeaky, IsQuiet, IsBalanced-same, weaken, pause-IsBalanced, acquire-IsBalanced,
  release-IsBalanced,
}
use s3ql.BlockCache.Refs.Flushes.{deref_obj-Ensures}
use s3ql.BlockCache.Refs.Dirty.{upload_if_dirty-KeepsOr}

cache_remove-IsBalanced :
    (d : List ℕ) (i b : ℕ) (s : State) → IsBalanced d s → IsBalanced d (cache_remove i b s)
unfolding cache_remove
cache_remove-IsBalanced d i b s h = elim (Option-cases (find_slot i b s)) [
  | inl e ↦ rw (e, cache_remove) h
  | inr (x, e) ↦ rw (e, cache_remove) (IsBalanced-same refl refl refl h)
]

evict-IsBalanced :
    (d : List ℕ) (e i b : ℕ) (s : State) → IsBalanced d s → IsBalanced d (evict e i b s)
unfolding evict
evict-IsBalanced d e i b s h = either _ h (either _ h (cache_remove-IsBalanced d i b s h))
  where
    either :
        (c : Bool) {t u : State}
        → IsBalanced d t
        → IsBalanced d u
        → IsBalanced d (if c then t else u)
    either true ht hu = ht
    either false ht hu = hu

module _ (env : Env) (quiet : IsQuiet env) (d : List ℕ) where
  detach-Ensures :
      (i b : ℕ) (obj_id : Option ℕ)
      → Ensures
          (λ s. IsBalanced d s × (block_object i b s ≡ obj_id))
          (detach env i b obj_id)
          (λ _. IsBalanced d)
          (IsLeaky d)
  unfolding detach
  detach-Ensures i b none =
      Ensures-pre (IsBalanced d) (λ s h. h.0)
        (Ensures-of_Keeps (release-IsBalanced env quiet d false (block_key i b)) (weaken d))
  detach-Ensures i b (some obj) =
      Ensures-modify (delete_block i b) _ (IsBalanced (obj ∷ d))
        (λ s h. rw h.1 at (delete_block-IsBalanced d s i b h.0))
        (Ensures-bind
          (Ensures-of_Keeps (release-IsBalanced env quiet (obj ∷ d) false (block_key i b))
            (λ s h. (obj ∷ [], h)))
          (λ _. deref_obj-Ensures env quiet d obj))

  remove_locked-KeepsOr : (i b : ℕ) → KeepsOr (IsBalanced d) (IsLeaky d) (remove_locked env i b)
  unfolding remove_locked
  remove_locked-KeepsOr i b = record {
    ensures =
        Ensures-modify (cache_remove i b) _ (IsBalanced d) (cache_remove-IsBalanced d i b)
          (Ensures-gets (block_object i b) _ (detach-Ensures i b));
  }

  -- What changes no table settles for the counts.
  settle : {A : Type 0} {m : M A} → Keeps (IsBalanced d) m → KeepsOr (IsBalanced d) (IsLeaky d) m
  settle k = KeepsOr-of_Keeps k (weaken d)

  acquiring : (i b : ℕ) → KeepsOr (IsBalanced d) (IsLeaky d) (acquire env (block_key i b))
  acquiring i b = settle (acquire-IsBalanced env quiet d (block_key i b))

  try_lock-KeepsOr : (i b : ℕ) → KeepsOr (IsBalanced d) (IsLeaky d) (try_lock env i b)
  unfolding try_lock
  try_lock-KeepsOr i b = settle (record { at = λ s h. IsBalanced-same refl refl refl h })

  remove_free-KeepsOr :
      (i : ℕ) (bs : List ℕ) → KeepsOr (IsBalanced d) (IsLeaky d) (remove_free env i bs)
  unfolding remove_free
  remove_free-KeepsOr i [] = search keeps_or_rules
  remove_free-KeepsOr i (b ∷ bs) = KeepsOr-bind _ _ (try_lock-KeepsOr i b) (λ ok.
      KeepsOr-bind _ _
        (KeepsOr-branch ok _ _ (λ _. remove_locked-KeepsOr i b) (λ _. KeepsOr-pure tt))
        (λ _. KeepsOr-bind _ _ (remove_free-KeepsOr i bs) (λ left. KeepsOr-pure _)))

  remove_rest-KeepsOr :
      (i : ℕ) (bs : List ℕ) → KeepsOr (IsBalanced d) (IsLeaky d) (remove_rest env i bs)
  unfolding remove_rest
  remove_rest-KeepsOr i [] = KeepsOr-pure tt
  remove_rest-KeepsOr i (b ∷ bs) =
      KeepsOr-bind _ _ (acquiring i b)
        (λ _. KeepsOr-bind _ _ (remove_locked-KeepsOr i b) (λ _. remove_rest-KeepsOr i bs))

  wait_loop-IsBalanced : (n : ℕ) → Keeps (IsBalanced d) (wait_loop env n)
  unfolding wait_loop
  wait_loop-IsBalanced zero = Keeps-raise _
  wait_loop-IsBalanced (suc n) = Keeps-bind _ _ (Keeps-gets _) (λ busy.
      Keeps-branch (not busy) _ _ (λ _. Keeps-pure tt)
        (λ _. Keeps-bind _ _ (pause-IsBalanced env quiet d) (λ _.
          Keeps-bind _ _ (Keeps-gets _)
            (λ over. Keeps-branch over _ _ (λ _. Keeps-pure tt) (λ _. wait_loop-IsBalanced n)))))

  pub wait-KeepsOr : KeepsOr (IsBalanced d) (IsLeaky d) (wait env)
  unfolding wait
  wait-KeepsOr = settle (wait_loop-IsBalanced env.patience)

  evict_locked-KeepsOr : (e i b : ℕ) → KeepsOr (IsBalanced d) (IsLeaky d) (evict_locked env e i b)
  unfolding evict_locked
  evict_locked-KeepsOr e i b = KeepsOr-bind _ _ (acquiring i b) (λ _. settle (
      Keeps-bind _ _ (Keeps-modify _ (evict-IsBalanced d e i b))
        (λ _. release-IsBalanced env quiet d false (block_key i b))))

  expire_pass-KeepsOr :
      (es : List ℕ) (size count : ℤ) (busy : Bool)
      → KeepsOr (IsBalanced d) (IsLeaky d) (expire_pass env es size count busy)
  unfolding expire_pass
  expire_pass-KeepsOr [] size count busy = KeepsOr-pure busy
  expire_pass-KeepsOr (e ∷ es) size count busy =
      KeepsOr-branch _ _ _ (λ _. KeepsOr-pure busy)
        (λ _. KeepsOr-bind _ _ (KeepsOr-gets _) (λ el.
          KeepsOr-bind _ _ (upload_if_dirty-KeepsOr env d e quiet) (λ queued.
            KeepsOr-bind _ _
              (KeepsOr-branch queued _ _ (λ _. KeepsOr-pure tt) (λ _. evict_locked-KeepsOr e _ _))
              (λ _. expire_pass-KeepsOr es _ _ _))))

  expire_loop-KeepsOr : (n : ℕ) → KeepsOr (IsBalanced d) (IsLeaky d) (expire_loop env n)
  unfolding expire_loop
  expire_loop-KeepsOr zero = settle (Keeps-raise _)
  expire_loop-KeepsOr (suc n) = KeepsOr-bind _ _ (KeepsOr-gets _) (λ size.
      KeepsOr-bind _ _ (KeepsOr-gets _) (λ count. KeepsOr-bind _ _ (KeepsOr-gets _) (λ es.
        KeepsOr-branch _ _ _ (λ _. KeepsOr-pure tt)
          (λ _. KeepsOr-bind _ _ (expire_pass-KeepsOr es size count false) (λ busy.
            KeepsOr-bind _ _ (KeepsOr-branch busy _ _ (λ _. wait-KeepsOr) (λ _. KeepsOr-pure tt))
              (λ _. expire_loop-KeepsOr n))))))

-- Removing blocks keeps every reference count equal to the number of blocks that refer to the
-- object, if it returns; if it raises, none is too low. So whatever other tasks do at each wait,
-- as long as they keep the counts.
pub remove-KeepsOr :
    (env : Env) (d : List ℕ) (i start : ℕ) (end_no : Option ℕ)
    → IsQuiet env
    → KeepsOr (IsBalanced d) (IsLeaky d) (remove env i start end_no)
unfolding remove
remove-KeepsOr env d i start none quiet =
    KeepsOr-bind _ _ (remove_free-KeepsOr env quiet d i (range start 1))
      (remove_rest-KeepsOr env quiet d i)
remove-KeepsOr env d i start (some end_no) quiet =
    KeepsOr-bind _ _ (remove_free-KeepsOr env quiet d i (range start (end_no - start)))
      (remove_rest-KeepsOr env quiet d i)

-- Expiring the cache does so too.
pub expire-KeepsOr :
    (env : Env) (d : List ℕ) → IsQuiet env → KeepsOr (IsBalanced d) (IsLeaky d) (expire env)
unfolding expire
expire-KeepsOr env d quiet = expire_loop-KeepsOr env quiet d env.patience
