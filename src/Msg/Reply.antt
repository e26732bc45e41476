-- ===== src/Msg/Reply.antt =====
-- loom/crates/loom-workflow/src/msg/reply.rs: the note that a choice writes to a bead.
use wrapix.Prelude.{
  ℕ, ◌^◌, ◌<◌, ◌≡◌, ◌≢◌, refl, ap, ◌∙◌, ◌==◌, Option, none, some, List, [], ◌∷◌, ◌++◌, is_empty,
  All, map, find, if◌then◌else◌, arith,
}
use wrapix.Prelude.Text.{Str, codes, trim, join, parse_u32}
use wrapix.Prelude.Exec.{Result, ok, err}
use wrapix.Prelude.Decimal.{to_string, parse_u32-to_string}
use wrapix.Prelude.Split.{OneLine}
use wrapix.Core.BeadId.{BeadId}
use wrapix.Msg.{MsgError, option_missing}
use wrapix.Msg.Options.{OptionEntry, OptionsParse, parse_options}
use wrapix.Msg.Options.Print.{parse_options-print}
use wrapix.Msg.Options.Written.{Shown, WellWritten, entry_of, print_options}

pub data FastReply : Type 0 where
  -- the option's number and the note
  chosen : ℕ → Str → FastReply
  verbatim : Str → FastReply

abbrev chose : ℕ → Str
chose n = codes "Chose option " ++ to_string n

unfoldable pub note_of : ℕ → OptionEntry → Str
unfolding to_string
note_of n opt =
    if is_empty opt.title
    then chose n ++ (codes ": " ++ opt.body)
    else if is_empty opt.body
    then chose n ++ (0x20 ∷ 0x2014 ∷ 0x20 ∷ opt.title)
    else chose n ++ (0x20 ∷ 0x2014 ∷ 0x20 ∷ (opt.title ++ (codes ": " ++ opt.body)))

abbrev available : List OptionEntry → Str
available options = join (codes ", ") (map (λ (o : OptionEntry). to_string o.n) options)

abbrev option_reply : BeadId → ℕ → OptionsParse → Option OptionEntry → Result MsgError FastReply
option_reply bead n parsed (some opt) = ok (chosen n (note_of n opt))
option_reply bead n parsed none = err (option_missing bead n (available parsed.options))

unfoldable pub resolve_option : BeadId → ℕ → OptionsParse → Result MsgError FastReply
unfolding note_of to_string join
resolve_option bead n parsed =
    option_reply bead n parsed (find (λ (o : OptionEntry). o.n == n) parsed.options)

abbrev reply_as : BeadId → Str → Str → Option ℕ → Result MsgError FastReply
reply_as bead choice description (some n) = resolve_option bead n (parse_options description)
reply_as bead choice description none = ok (verbatim choice)

unfoldable pub build_fast_reply : BeadId → Str → Str → Result MsgError FastReply
unfolding parse_u32 resolve_option parse_options
build_fast_reply bead choice description = reply_as bead choice description (parse_u32 choice)

find_shown :
    (n : ℕ) (xs : List Shown) (x : Shown) (ys : List Shown)
    → x.n ≡ n
    → All (λ (y : Shown). y.n ≢ n) xs
    → find (λ (o : OptionEntry). o.n == n) (map entry_of (xs ++ x ∷ ys)) ≡ some (entry_of x)
find_shown n [] x ys e h = ground arith
find_shown n (y ∷ xs) x ys e (ne, h) = ground (arith, find_shown n xs x ys e h)

by_number :
    (b : BeadId) (choice description : Str) (n : ℕ)
    → parse_u32 choice ≡ some n
    → build_fast_reply b choice description ≡ resolve_option b n (parse_options description)
unfolding build_fast_reply
by_number b choice description n e = ap (reply_as b choice description) e

found :
    (b : BeadId) (n : ℕ) (parsed : OptionsParse) (opt : OptionEntry)
    → find (λ (o : OptionEntry). o.n == n) parsed.options ≡ some opt
    → resolve_option b n parsed ≡ ok (chosen n (note_of n opt))
unfolding resolve_option
found b n parsed opt e = ap (option_reply b n parsed) e

-- The note on an option: the title and the body behind its number, and of these only what there is.
unfoldable pub note_text : ℕ → Str → Str → Str
unfolding to_string
note_text n [] body = codes "Chose option " ++ (to_string n ++ (codes ": " ++ body))
note_text n (c ∷ title) [] = codes "Chose option " ++ (to_string n ++ (codes " — " ++ c ∷ title))
note_text n (c ∷ title) (d ∷ body) =
    codes "Chose option "
    ++ (to_string n ++ (codes " — " ++ (c ∷ title ++ (codes ": " ++ d ∷ body))))

note_of-note_text : (n : ℕ) (opt : OptionEntry) → note_of n opt ≡ note_text n opt.title opt.body
unfolding note_of note_text
note_of-note_text n opt = noted opt.title opt.body
  where
    noted :
        (title body : Str)
        → note_of n (record { n = opt.n; title = title; body = body }) ≡ note_text n title body
    noted [] body = refl
    noted (c ∷ title) [] = refl
    noted (c ∷ title) (d ∷ body) = refl

-- The number of a written option is answered with a note on the first option that has it: "Chose
-- option", the number, " — " and the title, ": " and the body; without " — " and the title where the
-- title is empty, and without ": " and the body where only the body is.
pub build_fast_reply-print :
    (bead : BeadId) (summary : Str) (xs : List Shown) (x : Shown) (ys : List Shown)
    → OneLine summary
    → trim summary ≡ summary
    → All WellWritten (xs ++ x ∷ ys)
    → x.n < 2 ^ 32
    → All (λ (y : Shown). y.n ≢ x.n) xs
    → build_fast_reply bead (to_string x.n) (print_options summary (xs ++ x ∷ ys))
      ≡ ok (chosen x.n (note_text x.n x.title (join (0x0a ∷ []) x.body_lines)))
build_fast_reply-print bead summary xs x ys one trimmed h small first =
    by_number bead (to_string x.n) _ x.n (parse_u32-to_string x.n small)
    ∙ ap (resolve_option bead x.n) (parse_options-print summary (xs ++ x ∷ ys) one trimmed h)
    ∙ found bead x.n _ _ (find_shown x.n xs x ys refl first)
    ∙ ap (λ (t : Str). ok (chosen x.n t)) (note_of-note_text x.n (entry_of x))
