-- ===== src/Fsck/Cleaned.antt =====
-- `check_objects_temp` of src/s3ql/fsck.py removes temporary files and empty directories only.
use s3ql.Prelude.{
  ◌≡◌, refl, ap, sym, Bool, true, false, ◌||◌, List, [], ◌∷◌, ◌++◌, some, arith, inl, inr,
  Bool-cases,
}
use s3ql.Prelude.Sql.{delete}
use s3ql.Fsck.State.{Bytes, Dir, empty, file, folder, Fsck}
use s3ql.Fsck.Temp.{is_temp, put_folder, cleaned, has_temp, clear, check_objects_temp}

-- The files with the directories they are in.
abbrev pub files : List Bytes → Dir → List (List Bytes × Bytes)
files path empty = []
files path (file name d) = (path, name) ∷ files path d
files path (folder name e d) = files (name ∷ path) e ++ files path d

abbrev pub is_empty : Dir → Bool
is_empty empty = true
is_empty (file name d) = false
is_empty (folder name e d) = false

-- Some directory below has nothing in it.
abbrev pub has_empty : Dir → Bool
has_empty empty = false
has_empty (file name d) = has_empty d
has_empty (folder name e d) = is_empty e || has_empty e || has_empty d

delete-append :
    {A : Type 0} (p : A → Bool) (xs ys : List A) → delete p (xs ++ ys) ≡ delete p xs ++ delete p ys
unfolding delete
delete-append p [] ys = refl
delete-append p (x ∷ xs) ys = elim (Bool-cases (p x)) [
  | inl e ↦ rw e (delete-append p xs ys)
  | inr e ↦ rw e (ap (◌∷◌ x) (delete-append p xs ys))
]

files-put_folder :
    (path : List Bytes) (name : Bytes) (e d : Dir)
    → files path (put_folder name e d) ≡ files (name ∷ path) e ++ files path d
unfolding put_folder
files-put_folder path name empty d = refl
files-put_folder path name (file n e) d = refl
files-put_folder path name (folder n e f) d = refl

files-cleaned :
    (path : List Bytes) (d : Dir)
    → files path (cleaned d) ≡ delete (λ (folders, name). is_temp name) (files path d)
unfolding cleaned delete
files-cleaned path empty = refl
files-cleaned path (file name d) = elim (Bool-cases (is_temp name)) [
  | inl e ↦ rw e (files-cleaned path d)
  | inr e ↦ rw e (ap (◌∷◌ (path, name)) (files-cleaned path d))
]
files-cleaned path (folder name e d) =
    rw
      (
        files-put_folder path name (cleaned e) (cleaned d),
        files-cleaned (name ∷ path) e,
        files-cleaned path d,
      )
      (sym (delete-append (λ (folders, n). is_temp n) (files (name ∷ path) e) (files path d)))

temp-put_folder :
    (name : Bytes) (e d : Dir)
    → has_temp e ≡ false
    → has_temp d ≡ false
    → has_temp (put_folder name e d) ≡ false
unfolding has_temp put_folder
temp-put_folder name empty d h k = k
temp-put_folder name (file n e) d h k = ground (arith, h, k)
temp-put_folder name (folder n e f) d h k = ground (arith, h, k)

temp-cleaned : (d : Dir) → has_temp (cleaned d) ≡ false
unfolding cleaned has_temp
temp-cleaned empty = refl
temp-cleaned (file name d) = ground (arith, temp-cleaned d)
temp-cleaned (folder name e d) =
    temp-put_folder name (cleaned e) (cleaned d) (temp-cleaned e) (temp-cleaned d)

empty-put_folder :
    (name : Bytes) (e d : Dir)
    → has_empty e ≡ false
    → has_empty d ≡ false
    → has_empty (put_folder name e d) ≡ false
unfolding put_folder
empty-put_folder name empty d h k = k
empty-put_folder name (file n e) d h k = ground (arith, h, k)
empty-put_folder name (folder n e f) d h k = ground (arith, h, k)

empty-cleaned : (d : Dir) → has_empty (cleaned d) ≡ false
unfolding cleaned
empty-cleaned empty = refl
empty-cleaned (file name d) = ground (arith, empty-cleaned d)
empty-cleaned (folder name e d) =
    empty-put_folder name (cleaned e) (cleaned d) (empty-cleaned e) (empty-cleaned d)

-- What is clean stays as it is.
pub cleaned_idle : (d : Dir) → has_temp d ≡ false → has_empty d ≡ false → cleaned d ≡ d
unfolding cleaned has_temp
cleaned_idle empty h k = refl
cleaned_idle (file name d) h k = ground (arith, h, k, cleaned_idle d)
cleaned_idle (folder name e d) h k =
    rw
      (
        cleaned_idle e (ground (arith, h)) (ground (arith, k)),
        cleaned_idle d (ground (arith, h)) (ground (arith, k)),
      )
      (full e k)
  where
    full :
        (e : Dir)
        → (is_empty e || has_empty e || has_empty d) ≡ false
        → put_folder name e d ≡ folder name e d
    full empty k = ground (arith, k)
    full (file n e) k = refl
    full (folder n e f) k = refl

-- After the check of a local backend there is no temporary file and no empty directory. All other files
-- are where they were, and an error is reported if and only if there was a temporary file.
pub check_objects_temp_lem :
    (s : Fsck) (d : Dir)
    → s.prefix ≡ some d
    → let after = check_objects_temp s in
      (after.prefix ≡ some (cleaned d))
      × (files [] (cleaned d) ≡ delete (λ (folders, name). is_temp name) (files [] d))
      × (has_temp (cleaned d) ≡ false)
      × (has_empty (cleaned d) ≡ false)
      × (after.found_errors ≡ (s.found_errors || has_temp d))
unfolding check_objects_temp clear
check_objects_temp_lem s d e =
    rw e (refl, files-cleaned [] d, temp-cleaned d, empty-cleaned d, refl)
