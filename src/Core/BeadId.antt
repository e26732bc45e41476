-- ===== src/Core/BeadId.antt =====
-- loom/crates/loom-core/src/identifier/bead.rs: `BeadId::new` validates the shape
-- `<prefix>-<base32>(.<digits>)?`.
pub mod Grammar
use wrapix.Prelude.{
  ◌≡◌, refl, Bool, false, not, ◌||◌, Option, none, some, is_empty, all, if◌then◌else◌,
}
use wrapix.Prelude.Text.{Str, codes, split_once, is_ascii_lowercase, is_ascii_digit}
use wrapix.Prelude.Exec.{Result, ok, err}

-- A validated text.
abbrev pub BeadId : Type 0
BeadId = Str

pub data ParseBeadIdError : Type 0 where
  invalid : Str → ParseBeadIdError

abbrev split_suffix : Option (Str × Str) → Str → Str × Option Str
split_suffix (some (body, suffix)) rest = (body, some suffix)
split_suffix none rest = (rest, none)

is_base32 : Str → Bool
unfolding is_ascii_lowercase is_ascii_digit
is_base32 body = all (λ b. is_ascii_lowercase b || is_ascii_digit b) body

bad_suffix : Option Str → Bool
unfolding is_ascii_digit
bad_suffix none = false
bad_suffix (some suffix) = is_empty suffix || not (all is_ascii_digit suffix)

check_body : Str → Str × Option Str → Result ParseBeadIdError BeadId
unfolding is_base32 bad_suffix
check_body s (body, suffix) =
    if is_empty body || not (is_base32 body)
    then err (invalid s)
    else if bad_suffix suffix
    then err (invalid s)
    else ok s

check_prefix : Str → Option (Str × Str) → Result ParseBeadIdError BeadId
unfolding check_body is_ascii_lowercase split_once
check_prefix s none = err (invalid s)
check_prefix s (some (prefix, rest)) =
    if is_empty prefix || not (all is_ascii_lowercase prefix)
    then err (invalid s)
    else check_body s (split_suffix (split_once b'.' rest) rest)

unfoldable pub new : Str → Result ParseBeadIdError BeadId
unfolding check_prefix split_once
new s = check_prefix s (split_once b'-' s)

new_sub : new (codes "wx-3hhwq.20") ≡ ok (codes "wx-3hhwq.20")
unfolding new
new_sub = refl
