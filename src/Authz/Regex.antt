-- ===== src/Authz/Regex.antt =====
-- What the generated regular expressions mean, with no reference to how they are generated: a
-- reader for the part of the RE2 syntax that they use, and a matcher for what it reads.
use tool_gateway_agentgatewa.Prelude.{
  ℕ, Bool, true, false, ◌&&◌, ◌||◌, not, List, [], ◌∷◌, Option, none, some, ◌==◌, if◌then◌else◌,
}
use tool_gateway_agentgatewa.Prelude.Text.{Text}
use tool_gateway_agentgatewa.Authz.Glob.{is_regex_meta, backslash}

pub data Item : Type 0 where
  lit : ℕ → Item
  any_rune : Item
  any_run : Item

abbrev pub push : Item → Option (List Item) → Option (List Item)
push i none = none
push i (some is) = some (i ∷ is)

-- RE2 after `^`, up to the `$` that ends the text. A metacharacter in any other place is refused.
unfoldable pub read_items : Text → Option (List Item)
read_items [] = none
read_items (c ∷ []) = if c == b'$' then some [] else none
read_items (c ∷ d ∷ t) =
    let escaped = push (lit d) (read_items t) in
    let run = push any_run (read_items t) in
    let dot = push any_rune (read_items (d ∷ t)) in
    let plain = push (lit c) (read_items (d ∷ t)) in
    if c == backslash
    then if is_regex_meta d then escaped else none
    else if c == b'.'
    then if d == b'*' then run else dot
    else if is_regex_meta c
    then none
    else plain

unfoldable pub read_regex : Text → Option (List Item)
unfolding read_items
read_regex [] = none
read_regex (c ∷ t) = if c == b'^' then read_items t else none

abbrev pub newline : ℕ
newline = 10

-- RE2's `.` is any character but a newline.
unfoldable pub matches : List Item → Text → Bool
matches [] [] = true
matches [] (c ∷ s) = false
matches (lit d ∷ is) [] = false
matches (lit d ∷ is) (c ∷ s) = c == d && matches is s
matches (any_rune ∷ is) [] = false
matches (any_rune ∷ is) (c ∷ s) = not (c == newline) && matches is s
matches (any_run ∷ is) [] = matches is []
matches (any_run ∷ is) (c ∷ s) =
    let onward = matches (any_run ∷ is) s in
    let here = matches is (c ∷ s) in here || (not (c == newline) && onward)
