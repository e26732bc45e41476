-- ===== src/Core/Bd/Switches.antt =====
-- The arguments that loom/crates/loom-core/src/bd/client.rs gives to bd, as switches.
use wrapix.Prelude.{
  ◌≡◌, refl, sym, ap, ◌∙◌, Bool, true, false, Option, none, some, List, [], ◌∷◌, ◌++◌, append_assoc,
  map, In, All, All-append, inl, inr, if◌then◌else◌, arith,
}
use wrapix.Prelude.Text.{Str, codes, str_eq}
use wrapix.Core.Bd.{UpdateOpts, flag, number, each}

-- A switch without a value, or one with a value, which may be any text.
pub data Switch : Type 0 where
  alone : Str → Switch
  valued : Str → Str → Switch

abbrev put : Switch → Option (List Switch) → Option (List Switch)
put w none = none
put w (some ws) = some (w ∷ ws)

-- `--claim` stands alone; each other switch takes the argument behind it.
unfoldable pub read_switches : List Str → Option (List Switch)
unfolding str_eq
read_switches [] = some []
read_switches (f ∷ []) = if str_eq f (codes "--claim") then some (alone f ∷ []) else none
read_switches (f ∷ v ∷ rest) = elim (str_eq f (codes "--claim")) [
  | true ↦ put (alone f) (read_switches (v ∷ rest))
  | false ↦ put (valued f v) (read_switches rest)
]

-- The values of a switch, in order.
abbrev pub values_of : Str → List Switch → List Str
values_of f [] = []
values_of f (alone g ∷ ws) = values_of f ws
values_of f (valued g v ∷ ws) = let rest = values_of f ws in if str_eq g f then v ∷ rest else rest

abbrev pub option_list : Option Str → List Str
option_list none = []
option_list (some v) = v ∷ []

-- The switches that stand alone, in order.
abbrev pub lone : List Switch → List Str
lone [] = []
lone (alone g ∷ ws) = g ∷ lone ws
lone (valued g v ∷ ws) = lone ws

-- A switch that takes a value is one of these.
abbrev pub Valued : Switch → Type 0
Valued (alone g) = Unit
Valued (valued g v) =
    In g (codes "--status" ∷ codes "--priority" ∷ codes "--add-label" ∷ codes "--remove-label" ∷ [])

-- What an update asks for: `--claim` stands alone, at most once, and no other switch does; the values
-- of the other four are those asked for, and there is no fifth.
pub record Asked (opts : UpdateOpts) (ws : List Switch) : Type 0 where
  pub claim : lone ws ≡ (if opts.claim then codes "--claim" ∷ [] else [])
  pub status : values_of (codes "--status") ws ≡ option_list opts.status
  pub priority : values_of (codes "--priority") ws ≡ option_list (number opts.priority)
  pub added : values_of (codes "--add-label") ws ≡ opts.add_labels
  pub removed : values_of (codes "--remove-label") ws ≡ opts.remove_labels
  pub known : All Valued ws

-- The switches of the parts of the arguments.
abbrev flag_switch : Str → Option Str → List Switch
flag_switch f none = []
flag_switch f (some v) = valued f v ∷ []

abbrev pub switches : UpdateOpts → List Switch
switches opts =
    (if opts.claim then alone (codes "--claim") ∷ [] else [])
    ++ (flag_switch (codes "--status") opts.status
        ++ (flag_switch (codes "--priority") (number opts.priority)
            ++ (map (valued (codes "--add-label")) opts.add_labels
                ++ map (valued (codes "--remove-label")) opts.remove_labels)))

-- Arguments that are read as `ws`, in front of others.
abbrev pub Reads : List Str → List Switch → Type 0
Reads args ws =
    (rest : List Str) (us : List Switch)
    → read_switches rest ≡ some us
    → read_switches (args ++ rest) ≡ some (ws ++ us)

pub Reads-append :
    (a b : List Str) (v w : List Switch) → Reads a v → Reads b w → Reads (a ++ b) (v ++ w)
Reads-append a b v w ha hb rest us h =
    ap read_switches (append_assoc a b rest)
    ∙ ha (b ++ rest) (w ++ us) (hb rest us h)
    ∙ ap some (sym (append_assoc v w us))

pub Reads-claim :
    (claim : Bool)
    → Reads
        (if claim then codes "--claim" ∷ [] else [])
        (if claim then alone (codes "--claim") ∷ [] else [])
unfolding read_switches
Reads-claim true [] us h = ap (put (alone (codes "--claim"))) h
Reads-claim true (v ∷ rest) us h = ap (put (alone (codes "--claim"))) h
Reads-claim false rest us h = h

take_value :
    (f v : Str) (rest : List Str)
    → str_eq f (codes "--claim") ≡ false
    → read_switches (f ∷ v ∷ rest) ≡ put (valued f v) (read_switches rest)
unfolding read_switches
take_value f v rest ne =
    ap
      (λ (b : Bool). elim b as (λ _. Option (List Switch)) [
        | true ↦ put (alone f) (read_switches (v ∷ rest))
        | false ↦ put (valued f v) (read_switches rest)
      ])
      ne

pub Reads-each :
    (f : Str) (ls : List Str)
    → str_eq f (codes "--claim") ≡ false
    → Reads (each f ls) (map (valued f) ls)
Reads-each f [] ne rest us h = h
Reads-each f (l ∷ ls) ne rest us h =
    take_value f l (each f ls ++ rest) ne ∙ ap (put (valued f l)) (Reads-each f ls ne rest us h)

pub Reads-flag :
    (f : Str) (o : Option Str)
    → str_eq f (codes "--claim") ≡ false
    → Reads (flag f o) (flag_switch f o)
Reads-flag f none ne = Reads-each f [] ne
Reads-flag f (some v) ne = Reads-each f (v ∷ []) ne

pub values_of-append :
    (f : Str) (v w : List Switch) → values_of f (v ++ w) ≡ values_of f v ++ values_of f w
values_of-append f [] w = refl
values_of-append f (alone g ∷ v) w = values_of-append f v w
values_of-append f (valued g x ∷ v) w = ground (arith, values_of-append f v w)

pub same_values :
    (f g : Str) (ls : List Str) → str_eq g f ≡ true → values_of f (map (valued g) ls) ≡ ls
same_values f g [] e = refl
same_values f g (l ∷ ls) e = rw (e, same_values f g ls e) refl

pub other_values :
    (f g : Str) (ls : List Str) → str_eq g f ≡ false → values_of f (map (valued g) ls) ≡ []
other_values f g [] e = refl
other_values f g (l ∷ ls) e = rw (e, other_values f g ls e) refl

pub flag_as_map : (f : Str) (o : Option Str) → flag_switch f o ≡ map (valued f) (option_list o)
flag_as_map f none = refl
flag_as_map f (some v) = refl

pub claim_values :
    (f : Str) (b : Bool) → values_of f (if b then alone (codes "--claim") ∷ [] else []) ≡ []
claim_values f true = refl
claim_values f false = refl

-- The values of a switch among those of four.
abbrev pub group : Str → List Str → List Switch
group f ls = map (valued f) ls

abbrev pub groups : (s p a r : List Str) → List Switch
groups s p a r =
    group (codes "--status") s
    ++ (group (codes "--priority") p
        ++ (group (codes "--add-label") a ++ group (codes "--remove-label") r))

pub groups-values :
    (f : Str) (s p a r : List Str)
    → values_of f (groups s p a r)
      ≡ values_of f (group (codes "--status") s)
        ++ (values_of f (group (codes "--priority") p)
            ++ (values_of f (group (codes "--add-label") a)
                ++ values_of f (group (codes "--remove-label") r)))
groups-values f s p a r =
    values_of-append f (group (codes "--status") s) _
    ∙ ap (λ (t : List Str). values_of f (group (codes "--status") s) ++ t)
        (values_of-append f (group (codes "--priority") p) _
          ∙ ap (λ (t : List Str). values_of f (group (codes "--priority") p) ++ t)
              (values_of-append f (group (codes "--add-label") a) _))

pub lone-append : (v w : List Switch) → lone (v ++ w) ≡ lone v ++ lone w
lone-append [] w = refl
lone-append (alone g ∷ v) w = ap (λ (t : List Str). g ∷ t) (lone-append v w)
lone-append (valued g x ∷ v) w = lone-append v w

pub lone-map :
    (f : Str) (ls : List Str) (ws : List Switch) → lone (map (valued f) ls ++ ws) ≡ lone ws
lone-map f [] ws = refl
lone-map f (l ∷ ls) ws = lone-map f ls ws

pub All-group :
    (f : Str) (ls : List Str)
    → In f
        (codes "--status" ∷ codes "--priority" ∷ codes "--add-label" ∷ codes "--remove-label" ∷ [])
    → All Valued (group f ls)
All-group f [] i = tt
All-group f (l ∷ ls) i = (i, All-group f ls i)

pub All-groups : (s p a r : List Str) → All Valued (groups s p a r)
All-groups s p a r = All-append Valued (group (codes "--status") s) _ (All-group _ s (inl refl)) (
    All-append Valued (group (codes "--priority") p) _ (All-group _ p (inr (inl refl))) (
      All-append Valued (group (codes "--add-label") a) _ (All-group _ a (inr (inr (inl refl))))
        (All-group _ r (inr (inr (inr (inl refl)))))))

pub All-claim : (b : Bool) → All Valued (if b then alone (codes "--claim") ∷ [] else [])
All-claim true = (tt, tt)
All-claim false = tt
