-- ===== src/MultiLock.antt =====
-- src/s3ql/multi_lock.py: locks on a changing set of keys. A key is the tuple of numbers that the
-- caller gives.
use s3ql.Prelude.{
  ℕ, ◌≡◌, ◌↔◌, refl, Bool, true, false, ◌&&◌, List, [], ◌∷◌, Option, none, some, arith, ◌==◌,
  if◌then◌else◌,
}

abbrev pub Key : Type 0
Key = List ℕ

-- Equality of tuples.
unfoldable pub key_eq : Key → Key → Bool
key_eq [] [] = true
key_eq (x ∷ k) (y ∷ l) = x == y && key_eq k l
key_eq _ _ = false

pub key_eq_iff : (k l : Key) → (key_eq k l ≡ true) ↔ (k ≡ l)
unfolding key_eq
key_eq_iff [] [] = (λ _. refl, λ _. refl)
key_eq_iff (x ∷ k) (y ∷ l) = ground (arith, key_eq_iff k l)
key_eq_iff [] (y ∷ l) = ground arith
key_eq_iff (x ∷ k) [] = ground arith

-- `key in self.locked_keys`
unfoldable pub is_locked : Key → List Key → Bool
is_locked k [] = false
is_locked k (l ∷ ls) = if key_eq l k then true else is_locked k ls

-- `self.locked_keys.add(key)`
unfoldable pub add : Key → List Key → List Key
add k ls = if is_locked k ls then ls else k ∷ ls

-- `self.locked_keys.discard(key)`
unfoldable pub discard : Key → List Key → List Key
discard k [] = []
discard k (l ∷ ls) = let rest = discard k ls in if key_eq l k then rest else l ∷ rest

-- `contended` says that the condition's own lock is taken (`trio.WouldBlock`).
unfoldable pub acquire_nowait : Bool → Key → List Key → Bool × List Key
unfolding add
acquire_nowait true k ls = (false, ls)
acquire_nowait false k ls = if is_locked k ls then (false, ls) else (true, add k ls)

-- One round of the loop of `acquire`: `none` is another wait for the condition.
unfoldable pub acquire_round : Key → List Key → Option (List Key)
unfolding add
acquire_round k ls = if is_locked k ls then none else some (add k ls)

-- `none` is the `KeyError` of `remove` on a key that is not locked.
unfoldable pub release : Bool → Key → List Key → Option (List Key)
release true k ls = some (discard k ls)
release false k ls = if is_locked k ls then some (discard k ls) else none

pub is_locked-discard :
    (j k : Key) (ls : List Key)
    → is_locked j (discard k ls) ≡ (if key_eq k j then false else is_locked j ls)
unfolding is_locked discard
is_locked-discard j k [] = ground arith
is_locked-discard j k (l ∷ ls) =
    ground (arith, is_locked-discard j k ls, key_eq_iff l k, key_eq_iff l j, key_eq_iff k j)

pub is_locked-add :
    (j k : Key) (ls : List Key)
    → is_locked j (add k ls) ≡ (if key_eq k j then true else is_locked j ls)
unfolding is_locked add
is_locked-add j k ls = ground (arith, key_eq_iff k j)
