-- ===== src/Fsck/PathFrame.antt =====
-- `get_path` of src/s3ql/common.py reads the entries and the names only, and changes nothing.
use s3ql.Prelude.{
  ℕ, zero, suc, ◌≡◌, ◌⊎◌, refl, ◌&&◌, List, [], ◌∷◌, map, ◌==◌, inl, inr, Bool-cases, Option-cases,
}
use s3ql.Prelude.Sql.{select, has_key}
use s3ql.Prelude.Effect.{Outcome, returned, raised, pure, raise, branch, gets, ◌>>=◌}
use s3ql.Fsck.State.{
  Bytes, Value, blob, text, Error, Fsck, name_key, has_row, first_row, root_inode,
}
use s3ql.Fsck.Paths.{bytes_of, parent_entry, path_loop, all_bytes, get_path}

-- The state in which something else changed.
abbrev pub SamePaths : Fsck → Fsck → Type 0
SamePaths s t = (t.contents ≡ s.contents) × (t.names ≡ s.names)

parent_entry_frame :
    (id : ℕ) (s t : Fsck) → SamePaths s t → parent_entry id t ≡ ((parent_entry id s).0, t)
unfolding parent_entry first_row ◌>>=◌ gets raise pure
parent_entry_frame id s t (ec, en) =
    rw (ec, en)
      (elim (Option-cases
        (select (λ r. r.inode == id && has_row name_key r.name_id s.names) s.contents)) [
          | inl e ↦ rw e refl
          | inr (r, e) ↦ elim (Option-cases (select (has_key name_key r.name_id) s.names)) [
            | inl f ↦ rw (e, f) refl
            | inr (x, f) ↦ rw (e, f) refl
          ]
        ])

outcome_cases :
    {A : Type 0} (r : Outcome Error A)
    → ((a : A) × (r ≡ returned a)) ⊎ ((e : Error) × (r ≡ raised e))
outcome_cases (returned a) = inl (a, refl)
outcome_cases (raised e) = inr (e, refl)

path_loop_frame :
    (n id : ℕ) (path : List Value) (s t : Fsck)
    → SamePaths s t
    → path_loop n id path t ≡ ((path_loop n id path s).0, t)
unfolding path_loop ◌>>=◌ raise branch pure
path_loop_frame zero id path s t f = refl
path_loop_frame (suc n) id path s t f = elim (Bool-cases (id == root_inode)) [
  | inl e ↦ rw e refl
  | inr e ↦
      rw (e, parent_entry_frame id s t f, parent_entry_frame id s s (refl, refl))
        (elim (outcome_cases (parent_entry id s).0) [
          | inr (x, g) ↦ rw g refl
          | inl ((v, p), g) ↦ elim (Bool-cases (n == 0)) [
            | inl z ↦ rw (g, z) refl
            | inr z ↦ rw (g, z) (path_loop_frame n p (v ∷ path) s t f)
          ]
        ])
]

-- What words the values are does not hang on the state.
all_bytes_frame : (vs : List Value) (s t : Fsck) → all_bytes vs t ≡ ((all_bytes vs s).0, t)
unfolding all_bytes bytes_of ◌>>=◌ raise pure
all_bytes_frame [] s t = refl
all_bytes_frame (text v ∷ vs) s t = refl
all_bytes_frame (blob v ∷ vs) s t =
    rw (all_bytes_frame vs s t, all_bytes_frame vs s s)
      (elim (outcome_cases (all_bytes vs s).0) [ inl (p, g) ↦ rw g refl | inr (x, g) ↦ rw g refl ])

pub get_path_frame :
    (id : ℕ) (name : List Bytes) (s t : Fsck)
    → SamePaths s t
    → get_path id name t ≡ ((get_path id name s).0, t)
unfolding get_path ◌>>=◌ pure
get_path_frame id name s t f =
    let path = map blob name in
    rw (path_loop_frame 255 id path s t f, path_loop_frame 255 id path s s (refl, refl))
      (elim (outcome_cases (path_loop 255 id path s).0) [
        | inl (p, g) ↦
            rw (g, all_bytes_frame p s t, all_bytes_frame p s s)
              (elim (outcome_cases (all_bytes p s).0) [
                | inl (q, k) ↦ rw k refl
                | inr (x, k) ↦ rw k refl
              ])
        | inr (x, g) ↦ rw g refl
      ])
