-- ===== src/Msg/Options/Print.antt =====
-- An options block that is written by the contract of loom/crates/loom-workflow/src/msg/options.rs is
-- read back.
use wrapix.Prelude.{
  ℕ, ◌^◌, ◌<◌, ◌≡◌, refl, sym, ap, ◌∙◌, Bool, true, false, Option, none, some, List, [], ◌∷◌, ◌++◌,
  All, All-append, map, append_assoc, append-nil,
}
use wrapix.Prelude.Text.{Str, trim, trim_start_by, keep_unless, trim_end_by, join, lines}
use wrapix.Prelude.Split.{OneLine}
use wrapix.Msg.Options.{
  OptionEntry, OptionsParse, match_options_heading, match_option_heading, is_next_h2, is_newline,
  join_body, Scan, scan_start, finish, inside, outside, scan_line, scan_lines, parse_options,
}
use wrapix.Msg.Options.Headings.{
  options_heading, option_heading, strip_separator-dash, match_options_heading_lem,
  match_option_heading_lem,
}
use wrapix.Msg.Options.Written.{
  Shown, entry_of, BodyLine, WellWritten, option_lines, all_lines, print_options, print_lines,
}

scan_lines-append :
    (a b : List Str) (s : Scan) → scan_lines (a ++ b) s ≡ scan_lines b (scan_lines a s)
unfolding scan_lines
scan_lines-append [] b s = refl
scan_lines-append (l ∷ a) b s = scan_lines-append a b (scan_line l s)

-- Within an option.
abbrev within : OptionsParse → OptionEntry → List Str → Scan
within parse entry body = record {
  parse = parse;
  in_options = true;
  current = some entry;
  current_body_lines = body;
}

scan_inside :
    (line : Str) (s : Scan)
    → s.in_options ≡ true
    → scan_line line s ≡ inside line (match_option_heading line) s
unfolding scan_line
scan_inside line s e = rw e

scan_body_line :
    (line : Str) (parse : OptionsParse) (entry : OptionEntry) (body : List Str)
    → match_option_heading line ≡ none
    → is_next_h2 line ≡ false
    → scan_line line (within parse entry body) ≡ within parse entry (body ++ line ∷ [])
scan_body_line line parse entry body no_option no_h2 =
    scan_inside line (within parse entry body) refl
    ∙ ap (λ (o : Option (ℕ × Str)). inside line o (within parse entry body)) no_option
    ∙ rw no_h2

scan_body :
    (ls : List Str) (parse : OptionsParse) (entry : OptionEntry) (body : List Str)
    → All BodyLine ls
    → scan_lines ls (within parse entry body) ≡ within parse entry (body ++ ls)
unfolding scan_lines
scan_body [] parse entry body h = ap (within parse entry) (sym (append-nil body))
scan_body (l ∷ ls) parse entry body (plain, h) =
    ap (scan_lines ls) (scan_body_line l parse entry body plain.no_option plain.no_h2)
    ∙ scan_body ls parse entry (body ++ l ∷ []) h
    ∙ ap (within parse entry) (append_assoc body (l ∷ []) ls)

trim_end_by-append :
    (p : ℕ → Bool) (s t u : Str)
    → trim_end_by p t ≡ trim_end_by p u
    → trim_end_by p (s ++ t) ≡ trim_end_by p (s ++ u)
unfolding trim_end_by
trim_end_by-append p [] t u e = e
trim_end_by-append p (c ∷ s) t u e = ap (keep_unless p c) (trim_end_by-append p s t u e)

join-blank :
    (ls : List Str)
    → trim_end_by is_newline (join (0x0a ∷ []) (ls ++ [] ∷ []))
      ≡ trim_end_by is_newline (join (0x0a ∷ []) ls)
unfolding join trim_end_by
join-blank [] = refl
join-blank (l ∷ []) =
    trim_end_by-append is_newline l (0x0a ∷ []) [] refl ∙ ap (trim_end_by is_newline) (append-nil l)
join-blank (l ∷ m ∷ ls) =
    trim_end_by-append is_newline l (0x0a ∷ join (0x0a ∷ []) (m ∷ (ls ++ [] ∷ [])))
      (0x0a ∷ join (0x0a ∷ []) (m ∷ ls)) (ap (keep_unless is_newline 0x0a) (join-blank (m ∷ ls)))

join_body-option :
    (x : Shown) → WellWritten x → join_body (x.body_lines ++ [] ∷ []) ≡ (entry_of x).body
unfolding join_body
join_body-option x w =
    ap (trim_start_by is_newline) (join-blank x.body_lines ∙ w.body_end) ∙ w.body_start

-- Between two options.
abbrev between : OptionsParse → Scan
between parse = record { parse = parse; in_options = true; current = none; current_body_lines = [] }

abbrev titled : Shown → OptionEntry
titled x = record { n = x.n; title = x.title; body = [] }

abbrev with_option : OptionsParse → OptionEntry → OptionsParse
with_option parse entry = record { summary = parse.summary; options = parse.options ++ entry ∷ [] }

abbrev with_options : OptionsParse → List Shown → OptionsParse
with_options parse xs = record {
  summary = parse.summary;
  options = parse.options ++ map entry_of xs;
}

blank : BodyLine []
unfolding match_option_heading is_next_h2
blank = record { one_line = (tt, refl); no_option = refl; no_h2 = refl }

scan_heading :
    (x : Shown) (s : Scan) (parse : OptionsParse)
    → x.n < 2 ^ 32
    → trim x.title ≡ x.title
    → s.in_options ≡ true
    → finish s ≡ between parse
    → scan_line (option_heading x.n x.title) s ≡ within parse (titled x) []
scan_heading x s parse small trimmed e f =
    scan_inside _ s e
    ∙ ap (λ (o : Option (ℕ × Str)). inside (option_heading x.n x.title) o s)
        (match_option_heading_lem x.n x.title small)
    ∙ ap
        (λ (t : Str). record (finish s) {
          current = some (record { n = x.n; title = t; body = [] });
        })
        (strip_separator-dash x.title trimmed)
    ∙ ap (λ (q : Scan). record q { current = some (titled x) }) f

scan_option :
    (x : Shown) (s : Scan) (parse : OptionsParse)
    → WellWritten x
    → s.in_options ≡ true
    → finish s ≡ between parse
    → scan_lines (option_lines x) s ≡ within parse (titled x) (x.body_lines ++ [] ∷ [])
unfolding scan_lines
scan_option x s parse w e f =
    ap (scan_lines (x.body_lines ++ [] ∷ [])) (scan_heading x s parse w.small w.trimmed e f)
    ∙ scan_body (x.body_lines ++ [] ∷ []) parse (titled x) []
        (All-append BodyLine x.body_lines ([] ∷ []) w.body (blank, tt))

finish_option :
    (x : Shown) (parse : OptionsParse)
    → WellWritten x
    → finish (within parse (titled x) (x.body_lines ++ [] ∷ []))
      ≡ between (with_option parse (entry_of x))
finish_option x parse w =
    ap (λ (b : Str). between (with_option parse (record (titled x) { body = b })))
      (join_body-option x w)

scan_options :
    (xs : List Shown) (s : Scan) (parse : OptionsParse)
    → All WellWritten xs
    → s.in_options ≡ true
    → finish s ≡ between parse
    → finish (scan_lines (all_lines xs) s) ≡ between (with_options parse xs)
unfolding scan_lines all_lines
scan_options [] s parse h e f =
    f
    ∙ ap (λ (os : List OptionEntry). between (record parse { options = os }))
        (sym (append-nil parse.options))
scan_options (x ∷ xs) s parse (w, h) e f =
    ap finish (
      scan_lines-append (option_lines x) (all_lines xs) s
      ∙ ap (scan_lines (all_lines xs)) (scan_option x s parse w e f))
    ∙ scan_options xs _ (with_option parse (entry_of x)) h refl (finish_option x parse w)
    ∙ ap (λ (os : List OptionEntry). between (record parse { options = os }))
        (append_assoc parse.options (entry_of x ∷ []) (map entry_of xs))

scan_outside :
    (line : Str) (s : Scan)
    → s.in_options ≡ false
    → scan_line line s ≡ outside (match_options_heading line) s
unfolding scan_line
scan_outside line s e = rw e

scan_summary :
    (summary : Str)
    → trim summary ≡ summary
    → scan_line [] (scan_line (options_heading summary) scan_start)
      ≡ between (record { summary = summary; options = [] })
scan_summary summary trimmed =
    ap (scan_line []) (
      scan_outside (options_heading summary) scan_start refl
      ∙ ap (λ (o : Option Str). outside o scan_start) (match_options_heading_lem summary)
      ∙ ap (λ (t : Str). between (record { summary = t; options = [] }))
          (strip_separator-dash summary trimmed))
    ∙ (unfold scan_line match_option_heading is_next_h2 in refl)

parse_lines :
    (d : Str) (ls : List Str)
    → lines d ≡ ls
    → parse_options d ≡ (finish (scan_lines ls scan_start)).parse
unfolding parse_options
parse_lines d ls e = ap (λ (ks : List Str). (finish (scan_lines ks scan_start)).parse) e

-- A block that is written with a heading, an empty line and its options, whose titles and summary are
-- trimmed and whose bodies hold no heading and no empty line at either end, is parsed to that summary
-- and to the options with their numbers (below 2 ^ 32), titles and bodies, in order.
pub parse_options-print :
    (summary : Str) (xs : List Shown)
    → OneLine summary
    → trim summary ≡ summary
    → All WellWritten xs
    → parse_options (print_options summary xs)
      ≡ record { summary = summary; options = map entry_of xs }
unfolding scan_lines
parse_options-print summary xs one trimmed h =
    parse_lines (print_options summary xs) _ (print_lines summary xs one h)
    ∙ ap (λ (s : Scan). (finish (scan_lines (all_lines xs) s)).parse) (scan_summary summary trimmed)
    ∙ ap (λ (s : Scan). s.parse)
        (scan_options xs (between _) (record { summary = summary; options = [] }) h refl refl)
