-- ===== src/BlockCache/Refs/Dirty.antt =====
-- The reference counts across `upload_if_dirty` of src/s3ql/block_cache.py.
use mathlib.Core.Path.{subst}
use s3ql.Prelude.{
  ℕ, ◌≡◌, refl, Bool, true, false, List, [], ◌∷◌, Option, none, some, inl, inr, arith,
  if◌then◌else◌, Option-cases, Bool-cases,
}
use s3ql.Prelude.Sql.{select, select-key}
use s3ql.Prelude.Effect.{
  pure, catch, ◌>>◌, Keeps, Keeps-pure, Keeps-gets, Keeps-bind, Keeps-catch, keeps_rules, Ensures,
  Ensures-bind, Ensures-gets, Ensures-modify, Ensures-branch, Ensures-pre, Ensures-pure,
  Ensures-of_Keeps, KeepsOr, KeepsOr-of_Keeps, KeepsOr-bind, KeepsOr-gets, KeepsOr-branch,
  KeepsOr-pure,
}
use s3ql.BlockCache.State.{
  Object, State, Env, M, obj_key, id_of, find_object, block_object, acquire,
}
use s3ql.BlockCache.Upload.{
  insert_object, link_block, incr_refcount, queue_upload, has_hash, object_with_hash,
}
use s3ql.BlockCache.Flush.{
  option_eq, undo, hash_entry, upload_new, relink, link_found, link_hash, upload_checked,
  upload_if_dirty,
}
use s3ql.BlockCache.Refs.{IsBalanced, gives_up, incr_refcount-IsBalanced, insert_object-IsBalanced}
use s3ql.BlockCache.Refs.Link.{link_block-IsBalanced}
use s3ql.BlockCache.Refs.Uploads.{
  IsLeaky, IsQuiet, weaken, pause-IsBalanced, acquire-IsBalanced, release-IsBalanced,
  modify-IsBalanced, queue_upload-IsBalanced,
}
use s3ql.BlockCache.Refs.Flushes.{
  drop_old-Ensures, remove_from_transit-IsBalanced, clean_entry-IsBalanced, give_up-IsBalanced,
  undo-IsBalanced, check_locked-IsBalanced,
}

pub option_eq_iff : (a b : Option ℕ) → option_eq a b ≡ true → a ≡ b
unfolding option_eq
option_eq_iff none none h = refl
option_eq_iff (some x) (some y) h = ground arith
option_eq_iff none (some y) h = ground arith
option_eq_iff (some x) none h = ground arith

-- Rows that a block gives up are owed, which is a leak if they are not taken off.
leak : (old : Option ℕ) (d : List ℕ) (s : State) → IsBalanced (gives_up old d) s → IsLeaky d s
leak none d s h = ([], h)
leak (some o) d s h = (o ∷ [], h)

-- The object that has a hash has a row.
hash_row :
    (hash obj : ℕ) (s : State)
    → object_with_hash hash s ≡ some obj
    → (o : Object) × (find_object obj s ≡ some o)
unfolding object_with_hash find_object
hash_row hash obj s h = elim (Option-cases (select (has_hash hash) s.objects)) [
  | inl e ↦ absurd (ground arith)
  | inr (r, e) ↦
      let same : id_of r ≡ obj = ground arith in
      rw (← same) (select-key id_of (has_hash hash) s.objects r e)
]

module _ (env : Env) (quiet : IsQuiet env) (d : List ℕ) where
  hash_entry-IsBalanced : (e : ℕ) → Keeps (IsBalanced d) (hash_entry env e)
  unfolding hash_entry
  hash_entry-IsBalanced e =
      Keeps-bind _ _ (modify-IsBalanced env quiet d _ (λ s. refl) (λ s. refl) (λ s. refl)) (λ _.
        Keeps-bind _ _ (pause-IsBalanced env quiet d) (λ _. Keeps-bind _ _ (Keeps-gets _) (λ buf.
          Keeps-bind _ _ (modify-IsBalanced env quiet d _ (λ s. refl) (λ s. refl) (λ s. refl))
            (λ _. Keeps-pure _))))

  -- The waits of `upload_new`.
  queued :
      (i b e obj : ℕ) (c : List ℕ)
      → Keeps (IsBalanced c) (do
        catch (acquire env (obj_key obj)) (undo env i b none e)
        catch (queue_upload env e obj) (undo env i b (some obj) e)
        pure true)
  queued i b e obj c =
      Keeps-bind _ _
        (Keeps-catch _ _ (acquire-IsBalanced env quiet c _)
          (undo-IsBalanced env quiet c i b none e))
        (λ _.
          Keeps-bind _ _
            (Keeps-catch _ _ (queue_upload-IsBalanced env quiet c e obj)
              (undo-IsBalanced env quiet c i b (some obj) e))
            (λ _. Keeps-pure true))

  -- The new object has the one reference of its block, which has given up the old one.
  upload_new-Ensures :
      (e i b hash : ℕ) (old : Option ℕ)
      → Ensures
          (λ s. IsBalanced d s × (block_object i b s ≡ old))
          (upload_new env e i b hash)
          (λ _. IsBalanced (gives_up old d))
          (IsLeaky d)
  unfolding upload_new block_object
  upload_new-Ensures e i b hash old = Ensures-gets _ _ (λ size.
      Ensures-modify (insert_object hash size) _
        (λ s. IsBalanced (s.last_object ∷ d) s × (block_object i b s ≡ old))
        (λ s h. unfold insert_object in (insert_object-IsBalanced 0 d s hash size h.0.0, h.0.1))
        (Ensures-gets _ _ (λ obj.
          Ensures-modify (link_block obj i b) _ (IsBalanced (gives_up old d))
            (λ s h.
              rw (← h.0.1)
                (link_block-IsBalanced obj d s i b (subst (λ o. IsBalanced (o ∷ d) s) h.1 h.0.0)))
            (Ensures-of_Keeps (queued i b e obj (gives_up old d)) (leak old d)))))

  -- A block that has the object already keeps its reference; any other takes a new one.
  abbrev relinked : Option ℕ → ℕ → List ℕ
  relinked old obj = if option_eq old (some obj) then d else gives_up old d

  leak_relinked :
      (same : Bool) (old : Option ℕ) (s : State)
      → IsBalanced (if same then d else gives_up old d) s
      → IsLeaky d s
  leak_relinked true old s h = weaken d s h
  leak_relinked false old s h = leak old d s h

  relink-tables :
      (i b obj hash : ℕ) (old : Option ℕ) (s : State)
      → IsBalanced d s
      → block_object i b s ≡ old
      → object_with_hash hash s ≡ some obj
      → IsBalanced
          (relinked old obj)
          (if option_eq old (some obj) then s else link_block obj i b (incr_refcount obj s))
  relink-tables i b obj hash old s h e f = elim (Bool-cases (option_eq old (some obj))) [
    | inl same ↦ rw same h
    | inr other ↦
        let (o, row) = hash_row hash obj s f in
        rw other (
          rw (← e) (
            unfold block_object incr_refcount in
            link_block-IsBalanced obj d (incr_refcount obj s) i b
              (incr_refcount-IsBalanced obj d s o row h)))
  ]

  relink-Ensures :
      (e i b obj hash : ℕ) (old : Option ℕ)
      → Ensures
          (λ s.
            (IsBalanced d s × (block_object i b s ≡ old)) × (object_with_hash hash s ≡ some obj))
          (relink env e i b obj old)
          (λ _. IsBalanced (relinked old obj))
          (IsLeaky d)
  unfolding relink
  relink-Ensures e i b obj hash old =
      Ensures-modify _ _ (IsBalanced (relinked old obj))
        (λ s h. relink-tables i b obj hash old s h.0.0 h.0.1 h.1)
        (Ensures-of_Keeps
          (search
            (
              keeps_rules,
              Keeps-catch,
              clean_entry-IsBalanced env quiet c,
              remove_from_transit-IsBalanced env quiet c,
              release-IsBalanced env quiet c,
              undo-IsBalanced env quiet c,
            )
            depth 9)
          (leak_relinked (option_eq old (some obj)) old))
    where
      c : List ℕ
      c = relinked old obj

  link_found-Ensures :
      (e i b hash : ℕ) (old found : Option ℕ)
      → Ensures
          (λ s. (IsBalanced d s × (block_object i b s ≡ old)) × (object_with_hash hash s ≡ found))
          (link_found env e i b hash old found)
          (λ _. IsBalanced d)
          (IsLeaky d)
  unfolding link_found
  link_found-Ensures e i b hash old none =
      Ensures-bind (Ensures-pre _ (λ s h. h.0) (upload_new-Ensures e i b hash old)) (λ taken.
        Ensures-bind (drop_old-Ensures env quiet d old) (λ _. Ensures-pure taken (λ s h. h)))
  link_found-Ensures e i b hash old (some obj) =
      Ensures-bind (relink-Ensures e i b obj hash old) (λ _.
        Ensures-branch (option_eq old (some obj)) _ _
          (λ same. Ensures-pure false (λ s h. rw same at h))
          (λ other.
            Ensures-pre (IsBalanced (gives_up old d)) (λ s h. rw other at h)
              (Ensures-bind (drop_old-Ensures env quiet d old)
                (λ _. Ensures-pure false (λ s h. h)))))

  link_hash-Ensures :
      (e i b hash : ℕ)
      → Ensures (IsBalanced d) (link_hash env e i b hash) (λ _. IsBalanced d) (IsLeaky d)
  unfolding link_hash
  link_hash-Ensures e i b hash =
      Ensures-gets (block_object i b) _
        (λ old. Ensures-gets (object_with_hash hash) _ (link_found-Ensures e i b hash old))

  upload_checked-KeepsOr :
      (e i b : ℕ) (early : Option Bool)
      → KeepsOr (IsBalanced d) (IsLeaky d) (upload_checked env e i b early)
  unfolding upload_checked
  upload_checked-KeepsOr e i b (some r) = record { ensures = Ensures-pure r (λ s h. h) }
  upload_checked-KeepsOr e i b none = record {
    ensures =
        Ensures-bind
          (Ensures-of_Keeps
            (Keeps-catch _ _ (hash_entry-IsBalanced e) (give_up-IsBalanced env quiet d i b true e))
            (weaken d))
          (λ hash. link_hash-Ensures e i b hash);
  }

  settled : {A : Type 0} {m : M A} → Keeps (IsBalanced d) m → KeepsOr (IsBalanced d) (IsLeaky d) m
  settled k = KeepsOr-of_Keeps k (weaken d)

-- Uploading an entry keeps every reference count equal to the number of blocks that refer to the
-- object, if it returns; if it raises, some counts may be too high, and none is too low. This
-- holds whatever other tasks do at each wait, as long as they keep the counts.
pub upload_if_dirty-KeepsOr :
    (env : Env) (d : List ℕ) (e : ℕ)
    → IsQuiet env
    → KeepsOr (IsBalanced d) (IsLeaky d) (upload_if_dirty env e)
unfolding upload_if_dirty
upload_if_dirty-KeepsOr env d e quiet = KeepsOr-bind _ _ (KeepsOr-gets _) (λ queued.
    KeepsOr-bind _ _ (KeepsOr-gets _) (λ el.
      KeepsOr-branch _ _ _ (λ _. KeepsOr-pure true)
        (λ _.
          KeepsOr-branch _ _ _ (λ _. KeepsOr-pure false)
            (λ _. KeepsOr-bind _ _ (settled env quiet d (acquire-IsBalanced env quiet d _)) (λ _.
              KeepsOr-bind _ _ (settled env quiet d (check_locked-IsBalanced env quiet d e _ _))
                (upload_checked-KeepsOr env quiet d e _ _))))))
