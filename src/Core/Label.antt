-- ===== src/Core/Label.antt =====
-- loom/crates/loom-core/src/bd/label.rs: the label families `spec:<X>`, `profile:<X>` and
-- `loom:<X>`; also the newtypes of src/identifier/ that validate nothing.
use wrapix.Prelude.{Bool, Option}
use wrapix.Prelude.Text.{Str, codes, str_eq, strip_prefix}

-- identifier/spec.rs, identifier/profile.rs, identifier/molecule.rs: a wrapped text
abbrev pub SpecLabel : Type 0
SpecLabel = Str

abbrev pub ProfileName : Type 0
ProfileName = Str

abbrev pub MoleculeId : Type 0
MoleculeId = Str

abbrev pub Label : Type 0
Label = Str

abbrev pub spec_prefix : Str
spec_prefix = codes "spec:"

abbrev pub profile_prefix : Str
profile_prefix = codes "profile:"

abbrev pub clarify : Str
clarify = codes "loom:clarify"

abbrev pub active : Str
active = codes "loom:active"

unfoldable pub spec_label : Label → Option SpecLabel
unfolding strip_prefix
spec_label l = strip_prefix spec_prefix l

unfoldable pub profile_name : Label → Option ProfileName
unfolding strip_prefix
profile_name l = strip_prefix profile_prefix l

unfoldable pub is_clarify : Label → Bool
unfolding str_eq
is_clarify l = str_eq l clarify

unfoldable pub is_active : Label → Bool
unfolding str_eq
is_active l = str_eq l active
