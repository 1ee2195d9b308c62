-- ===== src/Otel/Spaces.antt =====
-- internal/controller/otel.go: what `strings.TrimSpace` leaves of a header.
use Prim.Native.Char.{Char, code}
use tool_gateway_agentgatewa.Prelude.{
  ℕ, ◌≡◌, refl, ap, ◌∙◌, true, false, Bool-cases, inl, inr, [], ◌∷◌, ◌++◌, ◌==◌,
}
use tool_gateway_agentgatewa.Otel.Headers.{
  Runes, is_space, trim_left, keep_rune, trim_right, trim_space,
}

abbrev pub equals : Char
equals = "="

-- The character does not occur.
abbrev pub Lacks : ℕ → Runes → Type 0
Lacks c [] = Unit
Lacks c (d ∷ s) = (code d == c ≡ false) × Lacks c s

is_space-equals : is_space (code equals) ≡ false
unfolding is_space
is_space-equals = refl

trim_left-header : (k v : Runes) → trim_left (k ++ equals ∷ v) ≡ trim_left k ++ equals ∷ v
unfolding trim_left
trim_left-header [] v = rw is_space-equals
trim_left-header (c ∷ k) v = elim (Bool-cases (is_space (code c))) [
  | inl e ↦ rw (e, trim_left-header k v)
  | inr e ↦ rw e
]

-- A character that is no space stays at the end.
keep_rune-solid : (c : Char) (t : Runes) → is_space (code c) ≡ false → keep_rune c t ≡ c ∷ t
unfolding keep_rune
keep_rune-solid c [] h = rw h
keep_rune-solid c (d ∷ t) h = refl

trim_right-solid :
    (s : Runes) (c : Char) (t : Runes)
    → is_space (code c) ≡ false
    → trim_right (s ++ c ∷ t) ≡ s ++ c ∷ trim_right t
unfolding trim_right keep_rune
trim_right-solid [] c t h = keep_rune-solid c (trim_right t) h
trim_right-solid (d ∷ []) c t h = rw (keep_rune-solid c (trim_right t) h)
trim_right-solid (d ∷ d' ∷ s) c t h = rw (trim_right-solid (d' ∷ s) c t h)

trim_left-trim_left : (s : Runes) → trim_left (trim_left s) ≡ trim_left s
unfolding trim_left
trim_left-trim_left [] = refl
trim_left-trim_left (c ∷ s) = elim (Bool-cases (is_space (code c))) [
  | inl e ↦ rw (e, trim_left-trim_left s)
  | inr e ↦ rw (e, e)
]

trim_left-keep_rune :
    (c : Char) (t : Runes) → is_space (code c) ≡ true → trim_left (keep_rune c t) ≡ trim_left t
unfolding trim_left keep_rune
trim_left-keep_rune c [] h = rw h
trim_left-keep_rune c (d ∷ t) h = rw h

trim_left-trim_right : (s : Runes) → trim_left (trim_right s) ≡ trim_right (trim_left s)
unfolding trim_left trim_right
trim_left-trim_right [] = refl
trim_left-trim_right (c ∷ s) = elim (Bool-cases (is_space (code c))) [
  | inl e ↦ rw (e, trim_left-keep_rune c (trim_right s) e, trim_left-trim_right s)
  | inr e ↦ rw (e, keep_rune-solid c (trim_right s) e, e)
]

trim_right-trim_right : (s : Runes) → trim_right (trim_right s) ≡ trim_right s
unfolding trim_right keep_rune
trim_right-trim_right [] = refl
trim_right-trim_right (c ∷ s) = kept (trim_right s) (trim_right-trim_right s)
  where
    kept : (t : Runes) → trim_right t ≡ t → trim_right (keep_rune c t) ≡ keep_rune c t
    kept [] h = elim (Bool-cases (is_space (code c))) [ inl e ↦ rw e | inr e ↦ rw (e, e) ]
    kept (d ∷ t) h = rw h

-- The spaces around a header are those before its key and those behind its value.
pub trim_space-header :
    (k v : Runes) → trim_space (k ++ equals ∷ v) ≡ trim_left k ++ equals ∷ trim_right v
unfolding trim_space
trim_space-header k v =
    ap trim_right (trim_left-header k v) ∙ trim_right-solid (trim_left k) equals v is_space-equals

pub trim_space-trim_left : (k : Runes) → trim_space (trim_left k) ≡ trim_space k
unfolding trim_space
trim_space-trim_left k = ap trim_right (trim_left-trim_left k)

pub trim_space-trim_right : (v : Runes) → trim_space (trim_right v) ≡ trim_space v
unfolding trim_space
trim_space-trim_right v =
    ap trim_right (trim_left-trim_right v) ∙ trim_right-trim_right (trim_left v)

pub Lacks-trim_left : (c : ℕ) (s : Runes) → Lacks c s → Lacks c (trim_left s)
unfolding trim_left
Lacks-trim_left c [] h = h
Lacks-trim_left c (d ∷ s) h = elim (Bool-cases (is_space (code d))) [
  | inl e ↦ rw e (Lacks-trim_left c s h.1)
  | inr e ↦ rw e h
]

pub Lacks-trim_right : (c : ℕ) (s : Runes) → Lacks c s → Lacks c (trim_right s)
unfolding trim_right keep_rune
Lacks-trim_right c [] h = h
Lacks-trim_right c (d ∷ s) (h, hs) = kept (trim_right s) (Lacks-trim_right c s hs)
  where
    kept : (t : Runes) → Lacks c t → Lacks c (keep_rune d t)
    kept [] ht = elim (Bool-cases (is_space (code d))) [ inl e ↦ rw e tt | inr e ↦ rw e (h, tt) ]
    kept (d' ∷ t) ht = (h, ht)
