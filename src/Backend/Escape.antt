-- ===== src/Backend/Escape.antt =====
-- `escape` and `unescape` of src/s3ql/backends/local.py, which make a key a file name. A string is
-- the list of its code points.
use s3ql.Prelude.{
  ℕ, ◌≡◌, refl, ap, ◌∙◌, true, false, ◌&&◌, List, [], ◌∷◌, ◌++◌, arith, ◌==◌, if◌then◌else◌,
}
use s3ql.BlockCache.State.{member}

-- `s.replace(c, w)` for a character c
unfoldable pub replace_char : ℕ → List ℕ → List ℕ → List ℕ
replace_char c w [] = []
replace_char c w (x ∷ s) = let rest = replace_char c w s in if x == c then w ++ rest else x ∷ rest

-- `s.replace(w, out)` for a w of three characters and an `out` of one
unfoldable pub replace_code : ℕ → ℕ → ℕ → ℕ → List ℕ → List ℕ
replace_code a b c out [] = []
replace_code a b c out (x ∷ []) = x ∷ []
replace_code a b c out (x ∷ y ∷ []) = x ∷ y ∷ []
replace_code a b c out (x ∷ y ∷ z ∷ s) = elim (x == a && y == b && z == c) [
  | true ↦ out ∷ replace_code a b c out s
  | false ↦ x ∷ replace_code a b c out (y ∷ z ∷ s)
]

-- '=' is 61, '/' is 47, '#' is 35, '2' is 50, '3' is 51, 'D' is 68 and 'F' is 70.
unfoldable pub escape : List ℕ → List ℕ
unfolding replace_char
escape s =
    replace_char 35 (61 ∷ 50 ∷ 51 ∷ [])
      (replace_char 47 (61 ∷ 50 ∷ 70 ∷ []) (replace_char 61 (61 ∷ 51 ∷ 68 ∷ []) s))

unfoldable pub unescape : List ℕ → List ℕ
unfolding replace_code
unescape s = replace_code 61 51 68 61 (replace_code 61 50 51 35 (replace_code 61 50 70 47 s))

-- What `escape` makes of one character, and what is left of that after one and after two steps of
-- `unescape`.
abbrev code : ℕ → List ℕ
code x =
    if x == 61
    then 61 ∷ 51 ∷ 68 ∷ []
    else if x == 47
    then 61 ∷ 50 ∷ 70 ∷ []
    else if x == 35
    then 61 ∷ 50 ∷ 51 ∷ []
    else x ∷ []

abbrev code1 : ℕ → List ℕ
code1 x = if x == 61 then 61 ∷ 51 ∷ 68 ∷ [] else if x == 35 then 61 ∷ 50 ∷ 51 ∷ [] else x ∷ []

abbrev code2 : ℕ → List ℕ
code2 x = if x == 61 then 61 ∷ 51 ∷ 68 ∷ [] else x ∷ []

escape-cons : (x : ℕ) (s : List ℕ) → escape (x ∷ s) ≡ code x ++ escape s
unfolding escape replace_char
escape-cons x s = ground arith

-- A character that is not the first of the code stays.
replace_code-other :
    (a b c out x : ℕ) (s : List ℕ)
    → (x == a) ≡ false
    → replace_code a b c out (x ∷ s) ≡ x ∷ replace_code a b c out s
unfolding replace_code
replace_code-other a b c out x [] e = refl
replace_code-other a b c out x (y ∷ []) e = refl
replace_code-other a b c out x (y ∷ z ∷ s) e = ground (arith, e)

-- Neither does a code with another second or third character.
replace_code-second :
    (a b c out x y z : ℕ) (s : List ℕ)
    → (y == b && z == c) ≡ false
    → replace_code a b c out (x ∷ y ∷ z ∷ s) ≡ x ∷ replace_code a b c out (y ∷ z ∷ s)
unfolding replace_code
replace_code-second a b c out x y z s e = ground (arith, e)

module _ (x : ℕ) (t : List ℕ) where
  slash_step : replace_code 61 50 70 47 (code x ++ t) ≡ code1 x ++ replace_code 61 50 70 47 t
  unfolding replace_code
  slash_step = ground (
    arith,
    replace_code-second 61 50 70 47 61 51 68 t refl,
    replace_code-second 61 50 70 47 61 50 51 t refl,
    replace_code-other 61 50 70 47 51 (68 ∷ t) refl,
    replace_code-other 61 50 70 47 50 (51 ∷ t) refl,
    replace_code-other 61 50 70 47 68 t refl,
    replace_code-other 61 50 70 47 51 t refl,
    replace_code-other 61 50 70 47 x t,
  )

  hash_step : replace_code 61 50 51 35 (code1 x ++ t) ≡ code2 x ++ replace_code 61 50 51 35 t
  unfolding replace_code
  hash_step = ground (
    arith,
    replace_code-second 61 50 51 35 61 51 68 t refl,
    replace_code-other 61 50 51 35 51 (68 ∷ t) refl,
    replace_code-other 61 50 51 35 68 t refl,
    replace_code-other 61 50 51 35 x t,
  )

  equals_step : replace_code 61 51 68 61 (code2 x ++ t) ≡ x ∷ replace_code 61 51 68 61 t
  unfolding replace_code
  equals_step = ground (arith, replace_code-other 61 51 68 61 x t)

-- `unescape` gives back each string that was escaped.
pub unescape-escape : (s : List ℕ) → unescape (escape s) ≡ s
unfolding unescape escape
unescape-escape [] = refl
unescape-escape (x ∷ s) =
    let one = escape-cons x s in
    let two = slash_step x (escape s) in
    let three = hash_step x (replace_code 61 50 70 47 (escape s)) in
    let four = equals_step x (replace_code 61 50 51 35 (replace_code 61 50 70 47 (escape s))) in
    ap unescape one
    ∙ ap (λ t. replace_code 61 51 68 61 (replace_code 61 50 51 35 t)) two
    ∙ ap (replace_code 61 51 68 61) three
    ∙ four
    ∙ ap (◌∷◌ x) (unescape-escape s)

member-append :
    (x : ℕ) (s t : List ℕ) → member x s ≡ false → member x t ≡ false → member x (s ++ t) ≡ false
unfolding member
member-append x [] t e f = f
member-append x (y ∷ s) t e f = ground (arith, e, f, member-append x s t)

code-plain : (x : ℕ) → (member 47 (code x) ≡ false) × (member 35 (code x) ≡ false)
unfolding member
code-plain x = ground arith

-- An escaped key has neither of '/', which would end a directory, and '#', which names of temporary
-- files have.
pub escape-plain : (s : List ℕ) → (member 47 (escape s) ≡ false) × (member 35 (escape s) ≡ false)
unfolding escape member
escape-plain [] = (refl, refl)
escape-plain (x ∷ s) =
    let (slash, hash) = escape-plain s in
    let (c, d) = code-plain x in
    rw (escape-cons x s)
      (member-append 47 (code x) (escape s) c slash, member-append 35 (code x) (escape s) d hash)
