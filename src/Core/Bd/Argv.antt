-- ===== src/Core/Bd/Argv.antt =====
-- What `bd` is told by loom/crates/loom-core/src/bd/client.rs: its arguments, read the way such a
-- program reads switches.
use wrapix.Prelude.{
  ◌≡◌, refl, sym, ap, ap₂, ◌∙◌, Bool, true, false, some, List, [], ◌∷◌, ◌++◌, append-nil, subst,
  All, All-append, if◌then◌else◌,
}
use wrapix.Prelude.Text.{Str, codes, str_eq}
use wrapix.Core.BeadId.{BeadId}
use wrapix.Core.Bd.{UpdateOpts, flag, number, each, update_args}
use wrapix.Core.Bd.Switches.{
  Switch, alone, read_switches, values_of, lone, Valued, lone-map, All-claim, All-groups,
  option_list, Asked, switches, Reads, Reads-append, Reads-claim, Reads-each, Reads-flag,
  values_of-append, same_values, other_values, flag_as_map, claim_values, group, groups,
  groups-values,
}

switches-groups :
    (opts : UpdateOpts)
    → switches opts
      ≡ (if opts.claim then alone (codes "--claim") ∷ [] else [])
        ++ groups
            (option_list opts.status)
            (option_list (number opts.priority))
            opts.add_labels
            opts.remove_labels
switches-groups opts =
    ap₂
      (λ (v w : List Switch).
        (if opts.claim then alone (codes "--claim") ∷ [] else [])
        ++ (v
            ++ (w
                ++ (group (codes "--add-label") opts.add_labels
                    ++ group (codes "--remove-label") opts.remove_labels))))
      (flag_as_map (codes "--status") opts.status)
      (flag_as_map (codes "--priority") (number opts.priority))

switches-values :
    (f : Str) (opts : UpdateOpts)
    → values_of f (switches opts)
      ≡ values_of f (group (codes "--status") (option_list opts.status))
        ++ (values_of f (group (codes "--priority") (option_list (number opts.priority)))
            ++ (values_of f (group (codes "--add-label") opts.add_labels)
                ++ values_of f (group (codes "--remove-label") opts.remove_labels)))
switches-values f opts =
    ap (values_of f) (switches-groups opts)
    ∙ values_of-append f (if opts.claim then alone (codes "--claim") ∷ [] else []) _
    ∙ ap
        (λ (t : List Str).
          t
          ++ values_of f (
              groups (option_list opts.status) (option_list (number opts.priority)) opts.add_labels
                opts.remove_labels))
        (claim_values f opts.claim)
    ∙ groups-values f (option_list opts.status) (option_list (number opts.priority)) opts.add_labels
        opts.remove_labels

joined4 :
    {s p a r s' p' a' r' : List Str}
    → s ≡ s'
    → p ≡ p'
    → a ≡ a'
    → r ≡ r'
    → s ++ (p ++ (a ++ r)) ≡ s' ++ (p' ++ (a' ++ r'))
joined4 es ep ea er = λ i. es i ++ (ep i ++ (ea i ++ er i))

lone-groups : (s p a r : List Str) → lone (groups s p a r) ≡ []
lone-groups s p a r =
    lone-map (codes "--status") s _
    ∙ lone-map (codes "--priority") p _
    ∙ lone-map (codes "--add-label") a _
    ∙ ap lone (sym (append-nil (group (codes "--remove-label") r)))
    ∙ lone-map (codes "--remove-label") r []

lone-claim :
    (claim : Bool) (s p a r : List Str)
    → lone ((if claim then alone (codes "--claim") ∷ [] else []) ++ groups s p a r)
      ≡ (if claim then codes "--claim" ∷ [] else [])
lone-claim true s p a r = ap (λ (t : List Str). codes "--claim" ∷ t) (lone-groups s p a r)
lone-claim false s p a r = lone-groups s p a r

switches-Asked : (opts : UpdateOpts) → Asked opts (switches opts)
unfolding str_eq
switches-Asked opts = record {
  claim =
      ap lone (switches-groups opts)
      ∙ lone-claim opts.claim (option_list opts.status) (option_list (number opts.priority))
          opts.add_labels opts.remove_labels;
  status =
      switches-values (codes "--status") opts
      ∙ joined4 (same_values _ (codes "--status") s refl)
          (other_values _ (codes "--priority") p refl) (other_values _ (codes "--add-label") a refl)
          (other_values _ (codes "--remove-label") r refl)
      ∙ append-nil s;
  priority =
      switches-values (codes "--priority") opts
      ∙ joined4 (other_values _ (codes "--status") s refl)
          (same_values _ (codes "--priority") p refl) (other_values _ (codes "--add-label") a refl)
          (other_values _ (codes "--remove-label") r refl)
      ∙ append-nil p;
  added =
      switches-values (codes "--add-label") opts
      ∙ joined4 (other_values _ (codes "--status") s refl)
          (other_values _ (codes "--priority") p refl) (same_values _ (codes "--add-label") a refl)
          (other_values _ (codes "--remove-label") r refl)
      ∙ append-nil a;
  removed =
      switches-values (codes "--remove-label") opts
      ∙ joined4 (other_values _ (codes "--status") s refl)
          (other_values _ (codes "--priority") p refl) (other_values _ (codes "--add-label") a refl)
          (same_values _ (codes "--remove-label") r refl);
  known = subst (All Valued) (sym (switches-groups opts)) (
      All-append Valued (if opts.claim then alone (codes "--claim") ∷ [] else []) _
        (All-claim opts.claim) (All-groups s p a r));
}
  where
    s : List Str
    s = option_list opts.status

    p : List Str
    p = option_list (number opts.priority)

    a : List Str
    a = opts.add_labels

    r : List Str
    r = opts.remove_labels

-- `bd update` is told the bead's id and what the options ask for, and nothing else: whatever texts the
-- status and the labels are, also such that look like switches, its arguments are read as switches;
-- `--claim` is there once if it is asked for, no other switch stands alone, the values of `--status`,
-- `--priority`, `--add-label` and `--remove-label` are those asked for, and there is no other switch.
pub update_args-Asked :
    (id : BeadId) (opts : UpdateOpts)
    → (tail : List Str) × (ws : List Switch) × (update_args id opts ≡ codes "update" ∷ id ∷ tail)
      × (read_switches tail ≡ some ws)
      × Asked opts ws
unfolding update_args str_eq
update_args-Asked id opts = (
  _,
  switches opts,
  refl,
  ap read_switches (sym (append-nil _))
      ∙ whole [] [] (unfold read_switches in refl)
      ∙ ap some (append-nil (switches opts)),
  switches-Asked opts,
)
  where
    whole :
        Reads
          ((if opts.claim then codes "--claim" ∷ [] else [])
            ++ (flag (codes "--status") opts.status
                ++ (flag (codes "--priority") (number opts.priority)
                    ++ (each (codes "--add-label") opts.add_labels
                        ++ each (codes "--remove-label") opts.remove_labels))))
          (switches opts)
    whole = Reads-append _ _ _ _ (Reads-claim opts.claim) (
        Reads-append _ _ _ _ (Reads-flag (codes "--status") opts.status refl) (
          Reads-append _ _ _ _ (Reads-flag (codes "--priority") (number opts.priority) refl) (
            Reads-append _ _ _ _ (Reads-each (codes "--add-label") opts.add_labels refl)
              (Reads-each (codes "--remove-label") opts.remove_labels refl))))
