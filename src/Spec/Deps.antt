-- ===== src/Spec/Deps.antt =====
-- loom/crates/loom-workflow/src/spec/deps.rs: the packages of the tools that a test file uses. A file is
-- its bytes.
pub mod Uses
pub mod Packages
pub mod Collect
use wrapix.Prelude.{
  ℕ, zero, suc, Bool, true, false, ◌==◌, ◌&&◌, ◌||◌, Option, none, some, List, [], ◌∷◌, is_empty,
  length, ltb, if◌then◌else◌,
}
use wrapix.Prelude.Text.{Str, codes, str_eq, starts_with, strip_prefix, is_before}

abbrev pub is_command_boundary_before : ℕ → Bool
is_command_boundary_before b =
    b == b'\n'
    || (b == b' ' || (b == b'\t' || (b == b'|' || (b == b';' || (b == b'&' || b == b'(')))))

abbrev pub is_command_boundary_after : ℕ → Bool
is_command_boundary_after b =
    b == b'\n'
    || (b == b' ' || (b == b'\t' || (b == b'|' || (b == b';' || (b == b'&' || b == b')')))))

-- The bytes from the needle on, with the byte before it; `prev` is the byte before the haystack.
unfoldable pub find_from : Str → ℕ → Str → Option (ℕ × Str)
unfolding starts_with
find_from needle prev [] = none
find_from needle prev (c ∷ s) =
    let rest = find_from needle c s in
    if starts_with needle (c ∷ s) then some (prev, c ∷ s) else rest

abbrev pub find_subslice : Str → ℕ → Str → Option (ℕ × Str)
find_subslice needle prev haystack =
    if is_empty needle then none else find_from needle prev haystack

-- `if end == bytes.len() { b'\n' } else { bytes[end] }`
abbrev pub first_byte : Str → ℕ
first_byte [] = b'\n'
first_byte (c ∷ s) = c

abbrev pub next_byte : Option Str → ℕ
next_byte none = b'\n'
next_byte (some s) = first_byte s

abbrev pub is_use : Str → ℕ → Str → Bool
is_use needle prev s =
    is_command_boundary_before prev && is_command_boundary_after (next_byte (strip_prefix needle s))

-- The loop, behind the byte `prev`, with as many rounds as `fuel`.
unfoldable pub search_uses : ℕ → Str → ℕ → Str → Bool
unfolding find_from strip_prefix
search_uses zero needle prev s = false
search_uses (suc fuel) needle prev s = elim (find_subslice needle prev s) [
  | none ↦ false
  | some (p, []) ↦ false
  | some (p, c ∷ t) ↦ is_use needle p (c ∷ t) || search_uses fuel needle c t
]

unfoldable pub has_command_use : Str → Str → Bool
unfolding search_uses
has_command_use body tool = search_uses (length body) tool b'\n' body

abbrev pub tools : List (Str × Str)
tools =
    (codes "curl", codes "curl")
    ∷ (codes "jq", codes "jq")
    ∷ (codes "tmux", codes "tmux")
    ∷ (codes "python", codes "python3")
    ∷ (codes "python3", codes "python3")
    ∷ (codes "node", codes "nodejs")
    ∷ (codes "nodejs", codes "nodejs")
    ∷ (codes "git", codes "git")
    ∷ (codes "rsync", codes "rsync")
    ∷ (codes "wget", codes "wget")
    ∷ (codes "ssh", codes "openssh")
    ∷ (codes "scp", codes "openssh")
    ∷ (codes "socat", codes "socat")
    ∷ (codes "nc", codes "netcat")
    ∷ (codes "ncat", codes "netcat")
    ∷ (codes "netcat", codes "netcat")
    ∷ (codes "dig", codes "dnsutils")
    ∷ (codes "nslookup", codes "dnsutils")
    ∷ (codes "sqlite3", codes "sqlite")
    ∷ (codes "psql", codes "postgresql")
    ∷ (codes "docker", codes "docker")
    ∷ (codes "podman", codes "podman")
    ∷ (codes "nix", codes "nix")
    ∷ (codes "shellcheck", codes "shellcheck")
    ∷ (codes "shfmt", codes "shfmt")
    ∷ (codes "rg", codes "ripgrep")
    ∷ (codes "ripgrep", codes "ripgrep")
    ∷ (codes "fd", codes "fd")
    ∷ (codes "fzf", codes "fzf")
    ∷ (codes "bat", codes "bat")
    ∷ (codes "diff", codes "diffutils")
    ∷ (codes "patch", codes "patch")
    ∷ (codes "make", codes "gnumake")
    ∷ (codes "gcc", codes "gcc")
    ∷ (codes "cc", codes "gcc")
    ∷ (codes "go", codes "go")
    ∷ (codes "cargo", codes "rustc")
    ∷ (codes "rustc", codes "rustc")
    ∷ []

-- `BTreeSet::insert` on the elements in ascending order
unfoldable pub insert : Str → List Str → List Str
unfolding str_eq
insert x [] = x ∷ []
insert x (y ∷ ys) =
    let rest = y ∷ insert x ys in
    if str_eq x y then y ∷ ys else if is_before x y then x ∷ y ∷ ys else rest

unfoldable pub scan_tools : Str → List (Str × Str) → List Str → List Str
unfolding has_command_use insert
scan_tools body [] out = out
scan_tools body ((tool, pkg) ∷ rest) out =
    scan_tools body rest (if has_command_use body tool then insert pkg out else out)

unfoldable pub scan_file_body : Str → List Str
unfolding scan_tools
scan_file_body body = scan_tools body tools []
