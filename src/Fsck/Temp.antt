-- ===== src/Fsck/Temp.antt =====
-- `check_objects_temp` of src/s3ql/fsck.py, which clears the directory of a local backend of
-- temporary files and of empty directories.
use s3ql.Prelude.{
  ℕ, Bool, false, not, ◌&&◌, ◌||◌, [], ◌∷◌, Option, none, some, leb, ◌==◌, if◌then◌else◌,
}
use s3ql.Fsck.State.{Bytes, Dir, empty, file, folder, Fsck, eq_bytes}

abbrev is_digit : ℕ → Bool
is_digit c = leb 48 c && leb c 57

-- `\.tmp$`, which a line break may follow
unfoldable pub ends : Bytes → Bool
unfolding eq_bytes
ends s = eq_bytes s (46 ∷ 116 ∷ 109 ∷ 112 ∷ []) || eq_bytes s (46 ∷ 116 ∷ 109 ∷ 112 ∷ 10 ∷ [])

-- `[0-9]*\.tmp$`, and with one digit at least
unfoldable pub more_digits : Bytes → Bool
unfolding ends
more_digits [] = false
more_digits (c ∷ s) = let rest = more_digits s in if is_digit c then rest else ends (c ∷ s)

unfoldable pub some_digits : Bytes → Bool
unfolding more_digits
some_digits [] = false
some_digits (c ∷ s) = is_digit c && more_digits s

-- `--?[0-9]+\.tmp$` after the digits of `[0-9]+`
unfoldable pub second_number : Bytes → Bool
unfolding some_digits
second_number [] = false
second_number (c ∷ s) = if c == 45 then some_digits s else some_digits (c ∷ s)

unfoldable pub more_first : Bytes → Bool
unfolding second_number
more_first [] = false
more_first (c ∷ s) =
    let rest = more_first s in if is_digit c then rest else c == 45 && second_number s

unfoldable pub first_number : Bytes → Bool
unfolding more_first
first_number [] = false
first_number (c ∷ s) = is_digit c && more_first s

-- `^[^#]+#`, after one character
unfoldable pub after_hash : Bytes → Bool
unfolding first_number
after_hash [] = false
after_hash (c ∷ s) = let rest = after_hash s in if c == 35 then first_number s else rest

-- `re.search(r'^[^#]+#[0-9]+--?[0-9]+\.tmp$', name)`
unfoldable pub is_temp : Bytes → Bool
unfolding after_hash
is_temp [] = false
is_temp (c ∷ s) = not (c == 35) && after_hash s

-- `os.walk` from the leaves, with `os.unlink` of temporary files and `os.rmdir` of what is empty then.
unfoldable pub put_folder : Bytes → Dir → Dir → Dir
put_folder name empty rest = rest
put_folder name (file n d) rest = folder name (file n d) rest
put_folder name (folder n e d) rest = folder name (folder n e d) rest

unfoldable pub cleaned : Dir → Dir
unfolding is_temp put_folder
cleaned empty = empty
cleaned (file name d) = let rest = cleaned d in if is_temp name then rest else file name rest
cleaned (folder name e d) = put_folder name (cleaned e) (cleaned d)

unfoldable pub has_temp : Dir → Bool
unfolding is_temp
has_temp empty = false
has_temp (file name d) = let rest = has_temp d in is_temp name || rest
has_temp (folder name e d) = has_temp e || has_temp d

unfoldable pub clear : Option Dir → Fsck → Fsck
unfolding cleaned has_temp
clear none s = s
clear (some d) s = record s {
  prefix = some (cleaned d);
  found_errors = s.found_errors || has_temp d;
}

unfoldable pub check_objects_temp : Fsck → Fsck
unfolding clear
check_objects_temp s = clear s.prefix s
