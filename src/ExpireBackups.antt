-- ===== src/ExpireBackups.antt =====
-- `process_backups` of contrib/expire_backups.py: which backups are kept, so that there is one in
-- each range of ages now and later. Backups are numbered in the order of their names.
pub mod Kept
mod Tests
use s3ql.Prelude.{
  ℕ, zero, suc, ◌+◌, max, Bool, true, false, not, ◌&&◌, ◌||◌, List, [], ◌∷◌, ◌++◌, Option, none,
  some, map, leb, ltb, ◌==◌, if◌then◌else◌,
}
use s3ql.Prelude.Sql.{select, delete}
use s3ql.BlockCache.State.{member}

-- An item of `state`.
pub record Backup : Type 0 where
  pub name : ℕ
  pub age : ℕ

-- A key of `simstate`: a backup that is there, or one that will be made in a step.
pub data SimKey : Type 0 where
  actual future : ℕ → SimKey

unfoldable pub sim_eq : SimKey → SimKey → Bool
sim_eq (actual a) (actual b) = a == b
sim_eq (future a) (future b) = a == b
sim_eq _ _ = false

pub record Sim : Type 0 where
  pub key : SimKey
  pub age : ℕ

pub record Plan : Type 0 where
  pub sims : List Sim
  pub keep : List ℕ

abbrev pub name_of : Backup → ℕ
name_of r = r.name

abbrev pub in_range : ℕ → ℕ → ℕ → Bool
in_range lo hi age = leb lo age && ltb age hi

-- New backups make the others a cycle older.
unfoldable pub add_backups : List ℕ → List Backup → List Backup
add_backups [] state = state
add_backups (x ∷ xs) state = add_backups xs (
    map (λ (r : Backup). record r { age = r.age + 1 }) state ++ (record { name = x; age = 0 }) ∷ [])

-- `backup_list - set(state)`, for a sorted list
unfoldable pub new_backups : List ℕ → List Backup → List ℕ
unfolding member
new_backups names state = delete (λ x. member x (map name_of state)) names

unfoldable pub update_state : List ℕ → List Backup → List Backup
unfolding add_backups new_backups member
update_state names state =
    delete (λ (r : Backup). not (member r.name names)) (add_backups (new_backups names state) state)

-- `ranges`, from the bound of the one before
unfoldable pub ranges_from : ℕ → List ℕ → List (ℕ × ℕ)
ranges_from lo [] = []
ranges_from lo (hi ∷ cycles) = (lo, hi) ∷ ranges_from hi cycles

unfoldable pub max_of : List ℕ → ℕ
max_of [] = 0
max_of (x ∷ xs) = max x (max_of xs)

unfoldable pub any_sim : ℕ → ℕ → List Sim → Bool
any_sim lo hi [] = false
any_sim lo hi (x ∷ sims) = in_range lo hi x.age || any_sim lo hi sims

-- `simstate[key] = age`
unfoldable pub put_sim : SimKey → ℕ → List Sim → List Sim
unfolding sim_eq
put_sim k a sims = (record { key = k; age = a }) ∷ delete (λ (x : Sim). sim_eq k x.key) sims

unfoldable pub age_sims : List Sim → List Sim
age_sims sims = map (λ (x : Sim). record x { age = x.age + 1 }) sims

-- What is kept for one range in one step.
unfoldable pub keep_found : ℕ → Option Backup → Plan → Plan
unfolding put_sim
keep_found step none p = p
keep_found step (some r) p = record {
  sims = put_sim (actual r.name) (r.age + step) p.sims;
  keep = r.name ∷ p.keep;
}

unfoldable pub keep_range : ℕ → List Backup → ℕ × ℕ → Plan → Plan
unfolding any_sim keep_found
keep_range step state (lo, hi) p =
    if any_sim lo hi p.sims
    then p
    else keep_found step (select (λ (r : Backup). in_range lo hi (r.age + step)) state) p

unfoldable pub keep_ranges : ℕ → List Backup → List (ℕ × ℕ) → Plan → Plan
unfolding keep_range
keep_ranges step state [] p = p
keep_ranges step state (r ∷ rs) p = keep_ranges step state rs (keep_range step state r p)

-- A step: the simulated backups age, and one is made, but in the first.
unfoldable pub advance : ℕ → Plan → Plan
unfolding age_sims put_sim
advance step p =
    let sims = age_sims p.sims in
    record p { sims = if step == 0 then sims else put_sim (future step) 0 sims }

unfoldable pub keep_steps : ℕ → ℕ → List Backup → List (ℕ × ℕ) → Plan → Plan
unfolding advance keep_ranges
keep_steps step zero state rs p = p
keep_steps step (suc n) state rs p =
    keep_steps (step + 1) n state rs (keep_ranges step state rs (advance step p))

unfoldable pub kept : List Backup → List ℕ → List ℕ
unfolding keep_steps ranges_from max_of
kept state cycles =
    (keep_steps 0 (max_of cycles) state (ranges_from 0 cycles)
      (record { sims = []; keep = [] })).keep

-- `to_delete`, and the state that is left.
unfoldable pub process_backups : List ℕ → List Backup → List ℕ → List ℕ × List Backup
unfolding update_state kept member
process_backups names state cycles =
    let now = update_state names state in
    let keep = kept now cycles in
    (
      map name_of (delete (λ (r : Backup). member r.name keep) now),
      delete (λ (r : Backup). not (member r.name keep)) now,
    )
