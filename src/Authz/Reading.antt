-- ===== src/Authz/Reading.antt =====
-- `globToRegex`: the text that it writes is read back as the pattern that was meant.
use tool_gateway_agentgatewa.Prelude.{
  ℕ, ◌≡◌, ◌≢◌, refl, sym, ◌∙◌, Bool, true, false, ◌&&◌, ◌||◌, List, [], ◌∷◌, ◌++◌, append_assoc,
  append-nil, some, arith, ◌==◌, if◌then◌else◌, inl, inr, Bool-cases,
}
use tool_gateway_agentgatewa.Prelude.Text.{Text, codes, is_line_break, NoBreak, NoBreak-append}
use tool_gateway_agentgatewa.Authz.Glob.{
  Builders, is_regex_meta, backslash, quote_meta, flush_literal, write_string, glob_rune,
  glob_runes, glob_to_regex,
}
use tool_gateway_agentgatewa.Authz.Regex.{
  Item, lit, any_rune, any_run, push, read_items, read_regex, matches, newline,
}

-- What a glob means, character by character.
unfoldable pub glob_item : ℕ → Item
glob_item c = if c == b'*' then any_run else if c == b'?' then any_rune else lit c

unfoldable pub glob_items : Text → List Item
unfolding glob_item
glob_items [] = []
glob_items (c ∷ g) = glob_item c ∷ glob_items g

-- The text that each character of the glob contributes.
piece : ℕ → Text
piece c = if c == b'*' then codes ".*" else if c == b'?' then codes "." else quote_meta (c ∷ [])

pieces : Text → Text
pieces [] = []
pieces (c ∷ g) = piece c ++ pieces g

quote_meta-append : (s t : Text) → quote_meta (s ++ t) ≡ quote_meta s ++ quote_meta t
unfolding quote_meta
quote_meta-append [] t = refl
quote_meta-append (c ∷ s) t = ground (arith, quote_meta-append s t)

-- What the builders stand for once the literal is flushed.
written : Builders → Text
written w = w.b ++ quote_meta w.literal

flush_literal_parts :
    (b literal : Text)
    → flush_literal (record { b = b; literal = literal })
      ≡ record { b = b ++ quote_meta literal; literal = [] }
unfolding flush_literal quote_meta
flush_literal_parts b [] = ground (arith, append-nil b)
flush_literal_parts b (c ∷ s) = ground arith

flush_literal_lem : (w : Builders) → flush_literal w ≡ record { b = written w; literal = [] }
unfolding written
flush_literal_lem w = flush_literal_parts w.b w.literal

glob_rune-written : (w : Builders) (c : ℕ) → written (glob_rune w c) ≡ written w ++ piece c
unfolding glob_rune write_string piece
glob_rune-written w c = elim (Bool-cases (c == b'*')) [
  | inl e ↦ rw (e, flush_literal_lem) (unfold written quote_meta in simp append-nil)
  | inr e ↦ rw e (elim (Bool-cases (c == b'?')) [
    | inl e' ↦ rw (e', flush_literal_lem) (unfold written quote_meta in simp append-nil)
    | inr e' ↦ rw e' (unfold written in simp (quote_meta-append, append_assoc))
  ])
]

glob_runes-written : (g : Text) (w : Builders) → written (glob_runes w g) ≡ written w ++ pieces g
unfolding pieces glob_runes
glob_runes-written [] w = sym (append-nil (written w))
glob_runes-written (c ∷ g) w = simp (glob_runes-written g, glob_rune-written, append_assoc)

glob_to_regex-pieces : (g : Text) → glob_to_regex g ≡ codes "^" ++ pieces g ++ codes "$"
unfolding glob_to_regex write_string
glob_to_regex-pieces g =
    simp (flush_literal_lem, glob_runes-written) (unfold written quote_meta in refl)

plain_rune : (c : ℕ) → is_regex_meta c ≡ false → ((c == backslash) ≡ false) × ((c == b'.') ≡ false)
unfolding is_regex_meta
plain_rune c h = ground arith

read_items-quote_meta :
    (c d : ℕ) (t : Text)
    → read_items (quote_meta (c ∷ []) ++ d ∷ t) ≡ push (lit c) (read_items (d ∷ t))
unfolding quote_meta
read_items-quote_meta c d t = elim (Bool-cases (is_regex_meta c)) [
  | inl e ↦ rw e (unfold read_items in rw e)
  | inr e ↦ rw e (unfold read_items in rw ((plain_rune c e).0, (plain_rune c e).1, e))
]

-- A piece is read as one item, whatever follows it but a star.
read_items-piece :
    (c d : ℕ) (t : Text)
    → d ≢ b'*'
    → read_items (piece c ++ d ∷ t) ≡ push (glob_item c) (read_items (d ∷ t))
unfolding piece glob_item
read_items-piece c d t h = elim (Bool-cases (c == b'*')) [
  | inl e ↦ rw e (unfold read_items in refl)
  | inr e ↦ rw e (elim (Bool-cases (c == b'?')) [
    | inl e' ↦ rw e' (unfold read_items in ground arith)
    | inr e' ↦ rw e' (read_items-quote_meta c d t)
  ])
]

-- What a piece begins with is never a bare star, so it changes nothing before it.
piece_head : (c : ℕ) (rest : Text) → (d : ℕ) × (t : Text) × (piece c ++ rest ≡ d ∷ t) × (d ≢ b'*')
unfolding piece quote_meta
piece_head c rest = elim (Bool-cases (c == b'*')) [
  | inl e ↦ (b'.', b'*' ∷ rest, rw e, omega arith)
  | inr e ↦ elim (Bool-cases (c == b'?')) [
    | inl e' ↦ (b'.', rest, rw (e, e'), omega arith)
    | inr e' ↦ elim (Bool-cases (is_regex_meta c)) [
      | inl m ↦ (backslash, c ∷ rest, rw (e, e', m), omega arith)
      | inr m ↦ (c, rest, rw (e, e', m), ground arith)
    ]
  ]
]

pieces_head : (g : Text) → (d : ℕ) × (t : Text) × (pieces g ++ codes "$" ≡ d ∷ t) × (d ≢ b'*')
unfolding pieces
pieces_head [] = (b'$', [], refl, omega arith)
pieces_head (c ∷ g) =
    let (d, t, e, h) = piece_head c (pieces g ++ codes "$") in
    (d, t, append_assoc (piece c) (pieces g) (codes "$") ∙ e, h)

read_items-pieces : (g : Text) → read_items (pieces g ++ codes "$") ≡ some (glob_items g)
unfolding pieces glob_items
read_items-pieces [] = unfold read_items in refl
read_items-pieces (c ∷ g) =
    let (d, t, e, h) = pieces_head g in
    rw (append_assoc (piece c), e, read_items-piece c d t h, ← e) (rw (read_items-pieces g))

-- The regular expression that `globToRegex` writes for a pattern is read, by the syntax of regular
-- expressions, as one item for each character of the pattern: `*` any run, `?` any character, and
-- every other character, metacharacters of regular expressions included, itself.
pub read_regex-glob_to_regex : (g : Text) → read_regex (glob_to_regex g) ≡ some (glob_items g)
unfolding read_regex
read_regex-glob_to_regex g = rw glob_to_regex-pieces (read_items-pieces g)

quote_meta-NoBreak : (c : ℕ) → is_line_break c ≡ false → NoBreak (quote_meta (c ∷ []))
unfolding quote_meta
quote_meta-NoBreak c h = elim (Bool-cases (is_regex_meta c)) [
  | inl e ↦ rw e (refl, (h, tt))
  | inr e ↦ rw e (h, tt)
]

piece-NoBreak : (c : ℕ) → is_line_break c ≡ false → NoBreak (piece c)
unfolding piece
piece-NoBreak c h = elim (Bool-cases (c == b'*')) [
  | inl e ↦ rw e (refl, (refl, tt))
  | inr e ↦ elim (Bool-cases (c == b'?')) [
    | inl e' ↦ rw (e, e') (refl, tt)
    | inr e' ↦ rw (e, e') (quote_meta-NoBreak c h)
  ]
]

pieces-NoBreak : (g : Text) → NoBreak g → NoBreak (pieces g)
unfolding pieces
pieces-NoBreak [] h = tt
pieces-NoBreak (c ∷ g) h =
    NoBreak-append (piece c) (pieces g) (piece-NoBreak c h.0) (pieces-NoBreak g h.1)

-- A pattern on one line gives a regular expression on one line.
pub glob_to_regex-NoBreak : (g : Text) → NoBreak g → NoBreak (glob_to_regex g)
glob_to_regex-NoBreak g h =
    rw glob_to_regex-pieces
      (refl, NoBreak-append (pieces g) (codes "$") (pieces-NoBreak g h) (refl, tt))

-- Whether a name matches a glob: the reading of `*` and `?` with no regular expression in it.
unfoldable pub glob_matches : Text → Text → Bool
glob_matches [] [] = true
glob_matches [] (d ∷ s) = false
glob_matches (c ∷ g) [] = c == b'*' && glob_matches g []
glob_matches (c ∷ g) (d ∷ s) =
    let onward = glob_matches (c ∷ g) s in
    let here = glob_matches g (d ∷ s) in
    let both = glob_matches g s in
    if c == b'*' then here || onward else if c == b'?' then both else (d == c && both)

abbrev pub Lacks : ℕ → Text → Type 0
Lacks b [] = Unit
Lacks b (c ∷ s) = (c ≢ b) × Lacks b s

pub matches-glob_items :
    (g s : Text) → Lacks newline s → matches (glob_items g) s ≡ glob_matches g s
unfolding glob_items glob_item matches glob_matches
matches-glob_items [] [] h = refl
matches-glob_items [] (d ∷ s) h = refl
matches-glob_items (c ∷ g) [] h = ground (arith, matches-glob_items g [])
matches-glob_items (c ∷ g) (d ∷ s) h = ground (
  arith,
  matches-glob_items g s h.1,
  matches-glob_items g (d ∷ s) h,
  matches-glob_items (c ∷ g) s h.1,
)
