-- ===== src/Core/BeadId/Grammar.antt =====
-- The texts that `BeadId::new` of loom/crates/loom-core/src/identifier/bead.rs accepts.
use wrapix.Prelude.{
  ◌≡◌, ◌≢◌, ◌↔◌, refl, sym, ◌∙◌, ap, subst, ◌⊎◌, inl, inr, true, false, not, ◌||◌, Option, none,
  some, [], ◌∷◌, ◌++◌, is_empty, all, All, arith,
}
use wrapix.Prelude.Text.{Str, split_once, is_ascii_lowercase, is_ascii_digit}
use wrapix.Prelude.Split.{
  Cut, Lacks, split_once-Cut, split_once-append, split_once-Lacks, all-All, All-all, All-Lacks,
}
use wrapix.Prelude.Exec.{ok}
use wrapix.Core.BeadId.{is_base32, bad_suffix, split_suffix, check_body, check_prefix, new}

abbrev pub IsLower : Str → Type 0
IsLower s = (s ≢ []) × All (λ c. is_ascii_lowercase c ≡ true) s

abbrev pub IsBase32 : Str → Type 0
IsBase32 s = (s ≢ []) × All (λ c. (is_ascii_lowercase c || is_ascii_digit c) ≡ true) s

abbrev pub IsNumber : Str → Type 0
IsNumber s = (s ≢ []) × All (λ c. is_ascii_digit c ≡ true) s

-- `<base32>(.<digits>)?`
abbrev pub IsBody : Str → Type 0
IsBody rest =
    IsBase32 rest
    ⊎ ((body : Str) × (number : Str) × (rest ≡ body ++ b'.' ∷ number)
        × IsBase32 body
        × IsNumber number)

-- `<prefix>-<base32>(.<digits>)?`
abbrev pub IsBeadId : Str → Type 0
IsBeadId s =
    (prefix : Str) × (rest : Str) × (s ≡ prefix ++ b'-' ∷ rest) × IsLower prefix × IsBody rest

IsLower-part : (s : Str) → (is_empty s || not (all is_ascii_lowercase s)) ≡ false → IsLower s
IsLower-part [] h = cc h
IsLower-part (c ∷ s) h = (λ e. cc e, all-All is_ascii_lowercase (c ∷ s) (ground arith))

IsBase32-part : (s : Str) → (is_empty s || not (is_base32 s)) ≡ false → IsBase32 s
unfolding is_base32
IsBase32-part [] h = cc h
IsBase32-part (c ∷ s) h =
    (λ e. cc e, all-All (λ b. is_ascii_lowercase b || is_ascii_digit b) (c ∷ s) (ground arith))

IsNumber-part : (s : Str) → bad_suffix (some s) ≡ false → IsNumber s
unfolding bad_suffix
IsNumber-part [] h = cc h
IsNumber-part (c ∷ s) h = (λ e. cc e, all-All is_ascii_digit (c ∷ s) (ground arith))

lower_test : (s : Str) → IsLower s → (is_empty s || not (all is_ascii_lowercase s)) ≡ false
lower_test [] (ne, h) = absurd (ne refl)
lower_test (c ∷ s) (ne, h) = rw (All-all is_ascii_lowercase (c ∷ s) h)

base32_test : (s : Str) → IsBase32 s → (is_empty s || not (is_base32 s)) ≡ false
unfolding is_base32
base32_test [] (ne, h) = absurd (ne refl)
base32_test (c ∷ s) (ne, h) = rw (All-all (λ b. is_ascii_lowercase b || is_ascii_digit b) (c ∷ s) h)

number_test : (s : Str) → IsNumber s → bad_suffix (some s) ≡ false
unfolding bad_suffix
number_test [] (ne, h) = absurd (ne refl)
number_test (c ∷ s) (ne, h) = rw (All-all is_ascii_digit (c ∷ s) h)

body_tests :
    (s body : Str) (suffix : Option Str) (t : Str)
    → check_body s (body, suffix) ≡ ok t
    → ((is_empty body || not (is_base32 body)) ≡ false) × (bad_suffix suffix ≡ false) × (t ≡ s)
unfolding check_body
body_tests s body suffix t h = ground arith

IsBody-sound :
    (s rest t : Str) (o : Option (Str × Str))
    → Cut b'.' rest o
    → check_body s (split_suffix o rest) ≡ ok t
    → IsBody rest × (t ≡ s)
IsBody-sound s rest t none cut h =
    let (base, _, e) = body_tests s rest none t h in (inl (IsBase32-part rest base), e)
IsBody-sound s rest t (some (body, number)) (joined, _) h =
    let (base, tail, e) = body_tests s body (some number) t h in
    (inr (body, number, joined, IsBase32-part body base, IsNumber-part number tail), e)

no_dot : (s : Str) → IsBase32 s → Lacks b'.' s
no_dot s (_, h) =
    All-Lacks (λ c. is_ascii_lowercase c || is_ascii_digit c) b'.' s
      (unfold is_ascii_lowercase is_ascii_digit in refl) h

body_complete :
    (s rest : Str) → IsBody rest → check_body s (split_suffix (split_once b'.' rest) rest) ≡ ok s
body_complete s rest (inl base) =
    rw (split_once-Lacks b'.' rest (no_dot rest base))
      (unfold check_body in rw (base32_test rest base) (unfold bad_suffix in refl))
body_complete s rest (inr (body, number, joined, base, tail)) =
    rw (joined, split_once-append b'.' body number (no_dot body base))
      (unfold check_body in rw (base32_test body base, number_test number tail))

prefix_tests :
    (s prefix rest t : Str)
    → check_prefix s (some (prefix, rest)) ≡ ok t
    → ((is_empty prefix || not (all is_ascii_lowercase prefix)) ≡ false)
      × (check_body s (split_suffix (split_once b'.' rest) rest) ≡ ok t)
unfolding check_prefix
prefix_tests s prefix rest t h = ground arith

new_sound :
    (s t : Str) (o : Option (Str × Str))
    → Cut b'-' s o
    → check_prefix s o ≡ ok t
    → (t ≡ s) × IsBeadId s
new_sound s t none cut h = unfold check_prefix in cc h
new_sound s t (some (prefix, rest)) (joined, _) h =
    let (lower, body) = prefix_tests s prefix rest t h in
    let (grammar, e) =
      IsBody-sound s rest t (split_once b'.' rest) (split_once-Cut b'.' rest) body in
    (e, (prefix, rest, joined, IsLower-part prefix lower, grammar))

new_complete : (s : Str) → IsBeadId s → new s ≡ ok s
unfolding new
new_complete s (prefix, rest, joined, lower, body) =
    subst (λ u. check_prefix s u ≡ ok s)
      (sym (split_once-append b'-' prefix rest no_dash) ∙ ap (split_once b'-') (sym joined))
      (unfold check_prefix in rw (lower_test prefix lower) (body_complete s rest body))
  where
    no_dash : Lacks b'-' prefix
    no_dash = All-Lacks is_ascii_lowercase b'-' prefix (unfold is_ascii_lowercase in refl) lower.1

-- `BeadId::new` accepts a text exactly if it has the shape `<prefix>-<base32>(.<digits>)?`, with a
-- prefix of one or more lowercase ASCII letters, one or more lowercase ASCII letters or digits, and
-- one or more digits behind a dot; then the id is that text.
pub new_iff : (s t : Str) → (new s ≡ ok t) ↔ ((t ≡ s) × IsBeadId s)
new_iff s t = (
  λ h. new_sound s t (split_once b'-' s) (split_once-Cut b'-' s) (unfold new in h),
  λ h. new_complete s h.1 ∙ ap ok (sym h.0),
)
