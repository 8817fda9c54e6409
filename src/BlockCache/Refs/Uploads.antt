-- ===== src/BlockCache/Refs/Uploads.antt =====
-- The reference counts across waits, locks and queues of src/s3ql/block_cache.py, whatever other
-- tasks do at each wait, as long as they keep the counts.
use s3ql.Prelude.{
  ℕ, zero, suc, ◌≡◌, refl, Bool, List, [], ◌∷◌, ◌++◌, Option, none, some, inl, inr, arith,
  Option-cases,
}
use s3ql.Prelude.Effect.{modify, Keeps, Keeps-modify, keeps_rules}
use s3ql.MultiLock
use s3ql.MultiLock.{Key}
use s3ql.BlockCache.State.{State, Error, Env, pause, acquire_loop, acquire, release_now, release}
use s3ql.BlockCache.Upload.{queue_upload, queue_removal, forget_object}
use s3ql.BlockCache.Refs.{IsBalanced}

-- Some references may have been given up and not taken off: no object counts too few.
abbrev pub IsLeaky : List ℕ → State → Type 0
IsLeaky d s = (e : List ℕ) × IsBalanced (e ++ d) s

-- Only the tables count.
pub IsBalanced-same :
    {d : List ℕ} {s t : State}
    → t.objects ≡ s.objects
    → t.blocks ≡ s.blocks
    → t.last_object ≡ s.last_object
    → IsBalanced d s
    → IsBalanced d t
IsBalanced-same o b l h = record {
  balanced = λ id. rw (o, b) (h.balanced id);
  fresh = λ id lt. rw o (h.fresh id (omega arith));
  nonzero = rw o h.nonzero;
  unique = λ i c. rw b (h.unique i c);
}

-- Other tasks keep the counts.
abbrev pub IsQuiet : Env → Type 0
IsQuiet env = (d : List ℕ) (s : State) → IsBalanced d s → IsBalanced d (env.other s)

pub weaken : (d : List ℕ) (s : State) → IsBalanced d s → IsLeaky d s
weaken d s h = ([], h)

module _ (env : Env) (quiet : IsQuiet env) (d : List ℕ) where
  pub pause-IsBalanced : Keeps (IsBalanced d) (pause env)
  unfolding pause
  pause-IsBalanced = record { at = λ s h. quiet d _ (IsBalanced-same refl refl refl h) }

  acquire_loop-IsBalanced : (n : ℕ) (k : Key) → Keeps (IsBalanced d) (acquire_loop env n k)
  unfolding acquire_loop
  acquire_loop-IsBalanced zero k = record { at = λ s h. h }
  acquire_loop-IsBalanced (suc n) k = record {
    at = λ s h.
        let s' = (pause env s).1 in
        let h' = pause-IsBalanced.at s h in
        elim (Option-cases (MultiLock.acquire_round k s'.locked_keys)) [
          | inl e ↦ rw (e, acquire_loop) ((acquire_loop-IsBalanced n k).at s' h')
          | inr (ls, e) ↦ rw (e, acquire_loop) (IsBalanced-same refl refl refl h')
        ];
  }

  pub acquire-IsBalanced : (k : Key) → Keeps (IsBalanced d) (acquire env k)
  unfolding acquire
  acquire-IsBalanced k = acquire_loop-IsBalanced env.patience k

  release_now-IsBalanced :
      (noerror : Bool) (k : Key) → Keeps (IsBalanced d) (release_now env noerror k)
  unfolding release_now
  release_now-IsBalanced noerror k = record {
    at = λ s h. elim (Option-cases (MultiLock.release noerror k s.locked_keys)) [
      | inl e ↦ rw (e, release_now) h
      | inr (ls, e) ↦ rw (e, release_now) (IsBalanced-same refl refl refl h)
    ];
  }

  pub release-IsBalanced : (noerror : Bool) (k : Key) → Keeps (IsBalanced d) (release env noerror k)
  unfolding release
  release-IsBalanced noerror k = search (keeps_rules, pause-IsBalanced, release_now-IsBalanced)

  -- A change to other fields than the tables.
  pub modify-IsBalanced :
      (f : State → State)
      → ((s : State) → (f s).objects ≡ s.objects)
      → ((s : State) → (f s).blocks ≡ s.blocks)
      → ((s : State) → (f s).last_object ≡ s.last_object)
      → Keeps {E = Error} (IsBalanced d) (modify f)
  modify-IsBalanced f o b l = Keeps-modify f (λ s h. IsBalanced-same (o s) (b s) (l s) h)

  push_upload :
      (e obj : ℕ)
      → Keeps {E = Error}
          (IsBalanced d)
          (modify (λ s. record s { to_upload = s.to_upload ++ (e, obj) ∷ [] }))
  push_upload e obj = modify-IsBalanced _ (λ s. refl) (λ s. refl) (λ s. refl)

  pub queue_upload-IsBalanced : (e obj : ℕ) → Keeps (IsBalanced d) (queue_upload env e obj)
  unfolding queue_upload
  queue_upload-IsBalanced e obj = search (keeps_rules, pause-IsBalanced, push_upload) depth 9

  push_removal :
      (obj : ℕ)
      → Keeps {E = Error}
          (IsBalanced d)
          (modify (λ s. record s { to_remove = s.to_remove ++ obj ∷ [] }))
  push_removal obj = modify-IsBalanced _ (λ s. refl) (λ s. refl) (λ s. refl)

  queue_removal-IsBalanced : (n obj : ℕ) → Keeps (IsBalanced d) (queue_removal env n obj)
  unfolding queue_removal
  queue_removal-IsBalanced zero obj = search keeps_rules
  queue_removal-IsBalanced (suc n) obj =
      search (keeps_rules, pause-IsBalanced, push_removal, queue_removal-IsBalanced n) depth 12

  pub forget_object-IsBalanced :
      (obj : ℕ) (size : Option ℕ) → Keeps (IsBalanced d) (forget_object env obj size)
  unfolding forget_object
  forget_object-IsBalanced obj none =
      search (keeps_rules, acquire-IsBalanced, release-IsBalanced) depth 12
  forget_object-IsBalanced obj (some n) =
      search
        (
          keeps_rules,
          acquire-IsBalanced,
          release-IsBalanced,
          push_removal,
          queue_removal-IsBalanced env.patience,
        )
        depth 12
