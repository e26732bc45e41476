-- ===== src/Prelude/Components.antt =====
-- `std::path::Path` as its components. Two paths are equal, and in order, as their components are.
use mathlib.Core.Path.{◌≡◌, refl, ap}
use mathlib.Core.Logic.{◌↔◌}
use mathlib.Core.Bool.{Bool, true, false, ◌||◌, ◌&&◌}
use mathlib.Core.Option.{Option, none, some}
use mathlib.Core.List.{List, [], ◌∷◌, ◌++◌}
use native.Mathlib.Omega.{arith}
use wrapix.Prelude.Tests.{if◌then◌else◌}
use wrapix.Prelude.Lists.{is_empty}
use wrapix.Prelude.Text.{Str, codes, str_eq, str_eq_iff, split, is_before}

pub data Component : Type 0 where
  root cur_dir parent_dir : Component
  normal : Str → Component

abbrev pub PathBuf : Type 0
PathBuf = List Component

abbrev component : Str → Component
component s = if str_eq s (codes "..") then parent_dir else normal s

-- Empty parts and dots are left out behind the first place.
unfoldable pub relative : List Str → PathBuf
unfolding str_eq
relative [] = []
relative (s ∷ parts) =
    let rest = relative parts in
    if is_empty s || str_eq s (codes ".") then rest else component s ∷ rest

abbrev from_parts : List Str → PathBuf
from_parts [] = []
from_parts (s ∷ parts) =
    let rest = relative parts in
    if is_empty s
    then root ∷ rest
    else if str_eq s (codes ".")
    then cur_dir ∷ rest
    else relative (s ∷ parts)

unfoldable pub components : Str → PathBuf
unfolding relative split str_eq
components [] = []
components (c ∷ s) = from_parts (split b'/' (c ∷ s))

abbrev pub is_absolute : PathBuf → Bool
is_absolute (root ∷ path) = true
is_absolute path = false

-- `Path::join`: an absolute path replaces what it is joined to, and a dot in front is left out.
abbrev pub join : PathBuf → PathBuf → PathBuf
join dir (root ∷ path) = root ∷ path
join [] path = path
join (c ∷ dir) (cur_dir ∷ path) = c ∷ dir ++ path
join (c ∷ dir) path = c ∷ dir ++ path

-- `PathBuf::pop`
unfoldable pub pop : PathBuf → PathBuf
pop [] = []
pop (root ∷ []) = root ∷ []
pop (cur_dir ∷ []) = []
pop (parent_dir ∷ []) = []
pop (normal s ∷ []) = []
pop (c ∷ d ∷ path) = c ∷ pop (d ∷ path)

-- `Path::parent`
abbrev pub parent : PathBuf → Option PathBuf
parent [] = none
parent (root ∷ []) = none
parent path = some (pop path)

unfoldable pub component_eq : Component → Component → Bool
unfolding str_eq
component_eq root root = true
component_eq cur_dir cur_dir = true
component_eq parent_dir parent_dir = true
component_eq (normal s) (normal t) = str_eq s t
component_eq c d = false

unfoldable pub path_eq : PathBuf → PathBuf → Bool
unfolding component_eq
path_eq [] [] = true
path_eq (c ∷ p) (d ∷ q) = component_eq c d && path_eq p q
path_eq p q = false

abbrev component_before : Component → Component → Bool
component_before root root = false
component_before root d = true
component_before cur_dir root = false
component_before cur_dir cur_dir = false
component_before cur_dir d = true
component_before parent_dir (normal t) = true
component_before parent_dir d = false
component_before (normal s) (normal t) = is_before s t
component_before (normal s) d = false

unfoldable pub path_before : PathBuf → PathBuf → Bool
unfolding component_eq
path_before p [] = false
path_before [] (d ∷ q) = true
path_before (c ∷ p) (d ∷ q) =
    let rest = path_before p q in if component_eq c d then rest else component_before c d

component_eq_iff : (c d : Component) → (component_eq c d ≡ true) ↔ (c ≡ d)
unfolding component_eq
component_eq_iff root root = (λ h. refl, λ h. refl)
component_eq_iff root cur_dir = (λ h. cc h, λ h. cc h)
component_eq_iff root parent_dir = (λ h. cc h, λ h. cc h)
component_eq_iff root (normal t) = (λ h. cc h, λ h. cc h)
component_eq_iff cur_dir root = (λ h. cc h, λ h. cc h)
component_eq_iff cur_dir cur_dir = (λ h. refl, λ h. refl)
component_eq_iff cur_dir parent_dir = (λ h. cc h, λ h. cc h)
component_eq_iff cur_dir (normal t) = (λ h. cc h, λ h. cc h)
component_eq_iff parent_dir root = (λ h. cc h, λ h. cc h)
component_eq_iff parent_dir cur_dir = (λ h. cc h, λ h. cc h)
component_eq_iff parent_dir parent_dir = (λ h. refl, λ h. refl)
component_eq_iff parent_dir (normal t) = (λ h. cc h, λ h. cc h)
component_eq_iff (normal s) root = (λ h. cc h, λ h. cc h)
component_eq_iff (normal s) cur_dir = (λ h. cc h, λ h. cc h)
component_eq_iff (normal s) parent_dir = (λ h. cc h, λ h. cc h)
component_eq_iff (normal s) (normal t) =
    (λ h. ap normal ((str_eq_iff s t).0 h), λ h. (str_eq_iff s t).1 (ap text h))
  where
    text : Component → Str
    text (normal x) = x
    text root = []
    text cur_dir = []
    text parent_dir = []

pub path_eq_iff : (p q : PathBuf) → (path_eq p q ≡ true) ↔ (p ≡ q)
unfolding path_eq
path_eq_iff [] [] = (λ h. refl, λ h. refl)
path_eq_iff [] (d ∷ q) = (λ h. cc h, λ h. cc h)
path_eq_iff (c ∷ p) [] = (λ h. cc h, λ h. cc h)
path_eq_iff (c ∷ p) (d ∷ q) = (
  λ h. ground (arith, component_eq_iff c d, path_eq_iff p q),
  λ h. ground (arith, component_eq_iff c d, path_eq_iff p q),
)
