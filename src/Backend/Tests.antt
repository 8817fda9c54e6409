-- ===== src/Backend/Tests.antt =====
-- The wrapper `retry` of src/s3ql/backends/common.py around a method that fails once, and the escape
-- codes of src/s3ql/backends/local.py for the key `a=/2F#`.
use s3ql.Prelude.{false, List, [], ◌∷◌, ℕ, zero, suc, ◌≡◌, true, none, some}
use s3ql.Prelude.Effect.{Outcome}
use s3ql.BlockCache.State.{member}
use s3ql.Backend.Escape.{escape, unescape, unescape-escape, escape-plain}
use s3ql.Backend.Retry.{Attempt, done, failed, retry, retry_timeout, IsResult, retry_lem}

abbrev once : ℕ → Attempt ℕ ℕ
once zero = failed 1 true none
once (suc k) = done 7

retry_lem_example : (r : Outcome ℕ ℕ × ℕ) × (retry once ≡ some r) × IsResult retry_timeout once r
retry_lem_example = retry_lem once

abbrev tricky : List ℕ
tricky = 97 ∷ 61 ∷ 47 ∷ 50 ∷ 70 ∷ 35 ∷ []

unescape-escape_example : unescape (escape tricky) ≡ tricky
unescape-escape_example = unescape-escape tricky

escape-plain_example : (member 47 (escape tricky) ≡ false) × (member 35 (escape tricky) ≡ false)
escape-plain_example = escape-plain tricky
