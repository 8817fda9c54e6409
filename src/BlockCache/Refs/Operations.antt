-- ===== src/BlockCache/Refs/Operations.antt =====
-- The reference counts across every operation of `BlockCache` that a client calls.
use s3ql.Prelude.{
  ℕ, zero, suc, ◌≤◌, ◌≡◌, refl, Bool, false, not, List, [], ◌∷◌, Option, none, some, arith,
}
use s3ql.Prelude.Effect.{
  Outcome, pure, gets, modify, ◌>>=◌, ◌>>◌, Keeps, Keeps-pure, Keeps-gets, Keeps-raise, Keeps-bind,
  Keeps-catch, Keeps-branch, Post, KeepsOr, KeepsOr-of_Keeps, KeepsOr-bind, KeepsOr-gets,
  KeepsOr-branch, KeepsOr-pure,
}
use s3ql.BlockCache.Entry.{CacheEntry}
use s3ql.BlockCache.State.{State, Error, Env, M}
use s3ql.BlockCache.Flush.{upload_if_dirty}
use s3ql.BlockCache.Access.{
  new_entry, move_to_end, open_object, download, choose_entry, get_entry, releasing,
}
use s3ql.BlockCache.Expire.{
  use_entry, expire, get, drop, upload_all, start_flush, flush_loop, flush, remove,
}
use s3ql.BlockCache.Refs.{IsBalanced, refcount_of, refs}
use s3ql.BlockCache.Refs.Uploads.{
  IsLeaky, IsQuiet, IsBalanced-same, weaken, pause-IsBalanced, acquire-IsBalanced,
  release-IsBalanced, modify-IsBalanced,
}
use s3ql.BlockCache.Refs.Dirty.{upload_if_dirty-KeepsOr}
use s3ql.BlockCache.Refs.Removal.{wait-KeepsOr, remove-KeepsOr, expire-KeepsOr}

module _ (env : Env) (quiet : IsQuiet env) (d : List ℕ) where
  open_entry-IsBalanced :
      (i b : ℕ) (bytes : List ℕ) → Keeps {E = Error} (IsBalanced d) (modify (new_entry i b bytes))
  unfolding new_entry
  open_entry-IsBalanced i b bytes =
      modify-IsBalanced env quiet d _ (λ s. refl) (λ s. refl) (λ s. refl)

  opened :
      (i b : ℕ) (bytes : List ℕ)
      → Keeps {E = Error}
          (IsBalanced d)
          (do e ← gets (λ s. s.next_entry); modify (new_entry i b bytes); pure e)
  opened i b bytes =
      Keeps-bind _ _ (Keeps-gets _)
        (λ e. Keeps-bind _ _ (open_entry-IsBalanced i b bytes) (λ _. Keeps-pure e))

  open_object-IsBalanced :
      (i b obj : ℕ) (bad : Bool) (bytes : Option (List ℕ))
      → Keeps (IsBalanced d) (open_object env i b obj bad bytes)
  unfolding open_object
  open_object-IsBalanced i b obj bad none = Keeps-raise _
  open_object-IsBalanced i b obj bad (some bytes) =
      Keeps-branch bad _ _ (λ _. Keeps-raise _) (λ _. opened i b bytes)

  download-IsBalanced : (i b obj : ℕ) → Keeps (IsBalanced d) (download env i b obj)
  unfolding download
  download-IsBalanced i b obj = Keeps-bind _ _ (acquire-IsBalanced env quiet d _) (λ _.
      Keeps-bind _ _ (release-IsBalanced env quiet d false _) (λ _.
        Keeps-bind _ _ (pause-IsBalanced env quiet d) (λ _. Keeps-bind _ _ (Keeps-gets _) (λ bytes.
          Keeps-bind _ _ (Keeps-gets _) (λ bad. open_object-IsBalanced i b obj bad bytes)))))

  choose_entry-IsBalanced :
      (i b : ℕ) (cached obj_id : Option ℕ)
      → Keeps (IsBalanced d) (choose_entry env i b cached obj_id)
  unfolding choose_entry
  choose_entry-IsBalanced i b (some e) obj_id =
      Keeps-bind _ _
        (modify-IsBalanced env quiet d (move_to_end i b e) (λ s. unfold move_to_end in refl)
          (λ s. unfold move_to_end in refl) (λ s. unfold move_to_end in refl))
        (λ _. Keeps-pure e)
  choose_entry-IsBalanced i b none none = opened i b []
  choose_entry-IsBalanced i b none (some obj) = download-IsBalanced i b obj

  get_entry-IsBalanced : (i b : ℕ) → Keeps (IsBalanced d) (get_entry env i b)
  unfolding get_entry
  get_entry-IsBalanced i b =
      Keeps-bind _ _ (Keeps-gets _)
        (λ c. Keeps-bind _ _ (Keeps-gets _) (λ o. choose_entry-IsBalanced i b c o))

  use_entry-IsBalanced :
      {A : Type 0} (e : ℕ) (body : CacheEntry → Outcome Error A × CacheEntry)
      → Keeps (IsBalanced d) (use_entry e body)
  unfolding use_entry
  use_entry-IsBalanced e body = record { at = λ s h. IsBalanced-same refl refl refl h }

  releasing-IsBalanced :
      {A : Type 0} (i b : ℕ) (m : M A)
      → Keeps (IsBalanced d) m
      → Keeps (IsBalanced d) (releasing env i b m)
  unfolding releasing
  releasing-IsBalanced i b m k =
      Keeps-bind _ _
        (Keeps-catch _ _ k
          (λ x. Keeps-bind _ _ (release-IsBalanced env quiet d false _) (λ _. Keeps-raise x)))
        (λ r. Keeps-bind _ _ (release-IsBalanced env quiet d false _) (λ _. Keeps-pure r))

  pub get-KeepsOr :
      {A : Type 0} (i b : ℕ) (body : CacheEntry → Outcome Error A × CacheEntry)
      → KeepsOr (IsBalanced d) (IsLeaky d) (get env i b body)
  unfolding get
  get-KeepsOr i b body = KeepsOr-bind _ _ (KeepsOr-gets _) (λ full.
      KeepsOr-bind _ _
        (KeepsOr-branch full _ _ (λ _. expire-KeepsOr env d quiet) (λ _. KeepsOr-pure tt))
        (λ _.
          KeepsOr-of_Keeps
            (Keeps-bind _ _ (acquire-IsBalanced env quiet d _) (λ _.
              releasing-IsBalanced i b _
                (Keeps-bind _ _ (get_entry-IsBalanced i b) (λ e. use_entry-IsBalanced e body))))
            (weaken d)))

  upload_all-KeepsOr :
      (es : List ℕ) (busy : Bool) → KeepsOr (IsBalanced d) (IsLeaky d) (upload_all env es busy)
  unfolding upload_all
  upload_all-KeepsOr [] busy = KeepsOr-pure busy
  upload_all-KeepsOr (e ∷ es) busy =
      KeepsOr-bind _ _ (upload_if_dirty-KeepsOr env d e quiet) (λ q. upload_all-KeepsOr es _)

  pub start_flush-KeepsOr : (i : Option ℕ) → KeepsOr (IsBalanced d) (IsLeaky d) (start_flush env i)
  unfolding start_flush
  start_flush-KeepsOr none =
      KeepsOr-bind _ _ (KeepsOr-gets _)
        (λ es. KeepsOr-bind _ _ (upload_all-KeepsOr es false) (λ _. KeepsOr-pure tt))
  start_flush-KeepsOr (some i) =
      KeepsOr-bind _ _ (KeepsOr-gets _)
        (λ es. KeepsOr-bind _ _ (upload_all-KeepsOr es false) (λ _. KeepsOr-pure tt))

  flush_loop-KeepsOr : (n : ℕ) → KeepsOr (IsBalanced d) (IsLeaky d) (flush_loop env n)
  unfolding flush_loop
  flush_loop-KeepsOr zero = KeepsOr-of_Keeps (Keeps-raise _) (weaken d)
  flush_loop-KeepsOr (suc n) = KeepsOr-bind _ _ (KeepsOr-gets _) (λ es.
      KeepsOr-bind _ _ (upload_all-KeepsOr es false) (λ busy.
        KeepsOr-branch (not busy) _ _ (λ _. KeepsOr-pure tt)
          (λ _. KeepsOr-bind _ _ (wait-KeepsOr env quiet d) (λ _. flush_loop-KeepsOr n))))

  pub drop-KeepsOr : KeepsOr (IsBalanced d) (IsLeaky d) (drop env)
  unfolding drop
  drop-KeepsOr = KeepsOr-bind _ _ (KeepsOr-gets _) (λ bak.
      KeepsOr-bind _ _ (settled _ (λ s. refl) (λ s. refl) (λ s. refl)) (λ _.
        KeepsOr-bind _ _ (expire-KeepsOr env d quiet)
          (λ _. settled _ (λ s. refl) (λ s. refl) (λ s. refl))))
    where
      settled :
          (f : State → State)
          → ((s : State) → (f s).objects ≡ s.objects)
          → ((s : State) → (f s).blocks ≡ s.blocks)
          → ((s : State) → (f s).last_object ≡ s.last_object)
          → KeepsOr {E = Error} (IsBalanced d) (IsLeaky d) (modify f)
      settled f o b l = KeepsOr-of_Keeps (modify-IsBalanced env quiet d f o b l) (weaken d)

-- How an operation ends: balanced, or raised with at least the references that there are.
abbrev pub EndsBalanced : {A : Type 0} → Outcome Error A × State → Type 0
EndsBalanced (r, s) = Post (λ _. IsBalanced []) (IsLeaky []) r s

-- No object whose references may have leaked counts fewer of them than there are blocks that refer
-- to it.
pub refs-le : (d : List ℕ) (s : State) (id : ℕ) → IsLeaky d s → refs id s ≤ refcount_of id s
refs-le d s id (e, h) = omega (arith, h.balanced id)

-- Whatever other tasks do at each wait, as long as they keep the counts: from a state in which every
-- object counts the blocks that refer to it, each of `get` (with any body), `expire`, `drop`,
-- `start_flush` and `flush` ends in one when it returns, and when it raises in a state in which no
-- object counts fewer references than there are blocks that refer to it.
pub operations-refs :
    {A : Type 0} (env : Env) (s : State) (i b : ℕ)
    (body : CacheEntry → Outcome Error A × CacheEntry) (only : Option ℕ)
    → IsQuiet env
    → IsBalanced [] s
    → EndsBalanced (get env i b body s)
      × EndsBalanced (expire env s)
      × EndsBalanced (drop env s)
      × EndsBalanced (start_flush env only s)
      × EndsBalanced (flush env s)
unfolding flush
operations-refs env s i b body only quiet h = (
  (get-KeepsOr env quiet [] i b body).ensures.at s h,
  (expire-KeepsOr env [] quiet).ensures.at s h,
  (drop-KeepsOr env quiet []).ensures.at s h,
  (start_flush-KeepsOr env quiet [] only).ensures.at s h,
  (flush_loop-KeepsOr env quiet [] env.patience).ensures.at s h,
)

-- Whatever other tasks do at each wait, as long as they keep the counts: `upload_if_dirty`, from a
-- state in which every object counts the blocks that refer to it, ends in one when it returns, and
-- when it raises in a state in which no object counts fewer references than there are blocks that
-- refer to it.
pub upload_if_dirty-refs :
    (env : Env) (e : ℕ) (s : State)
    → IsQuiet env
    → IsBalanced [] s
    → EndsBalanced (upload_if_dirty env e s)
upload_if_dirty-refs env e s quiet h = (upload_if_dirty-KeepsOr env [] e quiet).ensures.at s h

-- Whatever other tasks do at each wait, as long as they keep the counts: `remove`, from a state in
-- which every object counts the blocks that refer to it, ends in one when it returns, and when it
-- raises in a state in which no object counts fewer references than there are blocks that refer to
-- it.
pub remove-refs :
    (env : Env) (i start : ℕ) (end_no : Option ℕ) (s : State)
    → IsQuiet env
    → IsBalanced [] s
    → EndsBalanced (remove env i start end_no s)
remove-refs env i start end_no s quiet h =
    (remove-KeepsOr env [] i start end_no quiet).ensures.at s h
