-- ===== src/BlockCache/Refs/Worker.antt =====
-- The reference counts across an upload by a worker thread: `_do_upload` of src/s3ql/block_cache.py.
use s3ql.Prelude.{ℕ, ◌≡◌, refl, false, inl, inr, Option-cases, List, Option, none, some, arith}
use s3ql.Prelude.Sql.{select, update, has_key, select-update}
use s3ql.Prelude.Effect.{Keeps, Keeps-gets, Keeps-modify, Keeps-bind}
use s3ql.BlockCache.State.{Object, State, Env, id_of, put_entry}
use s3ql.BlockCache.Upload.{clean_entry, remove_from_transit}
use s3ql.BlockCache.Flush.{end_thread, upload_done, store_object, do_upload}
use s3ql.BlockCache.Refs.{IsBalanced}
use s3ql.BlockCache.Refs.Uploads.{
  IsQuiet, IsBalanced-same, pause-IsBalanced, release-IsBalanced, modify-IsBalanced,
}

-- A change of the rows of an object that keeps its references.
reset_object-IsBalanced :
    (d : List ℕ) (obj : ℕ) (f : Object → Object) (s : State)
    → ((o : Object) → (f o).id ≡ o.id)
    → ((o : Object) → (f o).refcount ≡ o.refcount)
    → IsBalanced d s
    → IsBalanced d (record s { objects = update (has_key id_of obj) f s.objects })
reset_object-IsBalanced d obj f s same_id same_count h = record {
  balanced = λ id. elim (Option-cases (select (has_key id_of id) s.objects)) [
    | inl e ↦ ground (arith, h.balanced id, e, select-update id_of id obj f s.objects same_id)
    | inr (o, e) ↦
        ground
          (arith, h.balanced id, e, same_count o, select-update id_of id obj f s.objects same_id)
  ];
  fresh = λ id lt. ground (arith, h.fresh id lt, select-update id_of id obj f s.objects same_id);
  nonzero = ground (arith, h.nonzero, select-update id_of 0 obj f s.objects same_id);
  unique = h.unique;
}

module _ (env : Env) (quiet : IsQuiet env) (d : List ℕ) (e obj : ℕ) where
  upload_done-IsBalanced :
      (r : Option ℕ) (s : State) → IsBalanced d s → IsBalanced d (upload_done e obj r s)
  unfolding upload_done clean_entry put_entry
  upload_done-IsBalanced none s h =
      reset_object-IsBalanced d obj (λ o. record o { hash = none }) s (λ o. refl) (λ o. refl) h
  upload_done-IsBalanced (some size) s h = IsBalanced-same refl refl refl (
      reset_object-IsBalanced d obj (λ o. record o { phys_size = some size }) s (λ o. refl)
        (λ o. refl) h)

  store_object-IsBalanced :
      (r : Option ℕ) (s : State) → IsBalanced d s → IsBalanced d (store_object e obj r s)
  unfolding store_object put_entry
  store_object-IsBalanced none s h = h
  store_object-IsBalanced (some size) s h = IsBalanced-same refl refl refl h

  end_thread-IsBalanced :
      (r : Option ℕ) (s : State) → IsBalanced d s → IsBalanced d (end_thread r s)
  unfolding end_thread
  end_thread-IsBalanced none s h = IsBalanced-same refl refl refl h
  end_thread-IsBalanced (some size) s h = h

  do_upload-IsBalanced : (r : Option ℕ) → Keeps (IsBalanced d) (do_upload env e obj r)
  unfolding do_upload
  do_upload-IsBalanced r = Keeps-bind _ _ (Keeps-modify _ (store_object-IsBalanced r)) (λ _.
      Keeps-bind _ _ (pause-IsBalanced env quiet d) (λ _.
        Keeps-bind _ _
          (modify-IsBalanced env quiet d (remove_from_transit e)
            (λ s. unfold remove_from_transit in refl) (λ s. unfold remove_from_transit in refl)
            (λ s. unfold remove_from_transit in refl))
          (λ _. Keeps-bind _ _ (Keeps-modify _ (upload_done-IsBalanced r)) (λ _.
            Keeps-bind _ _ (Keeps-gets _) (λ el.
              Keeps-bind _ _ (release-IsBalanced env quiet d false _) (λ _.
                Keeps-bind _ _ (release-IsBalanced env quiet d false _)
                  (λ _. Keeps-modify _ (end_thread-IsBalanced r))))))))

-- Whatever other tasks do while it waits, as long as they keep the counts: an upload by a worker,
-- which succeeds or fails, and returns or raises, leaves every object counting the blocks that refer
-- to it and the references that are still to be taken off.
pub do_upload-refs :
    (env : Env) (d : List ℕ) (e obj : ℕ) (result : Option ℕ) (s : State)
    → IsQuiet env
    → IsBalanced d s
    → IsBalanced d (do_upload env e obj result s).1
do_upload-refs env d e obj result s quiet h = (do_upload-IsBalanced env quiet d e obj result).at s h
