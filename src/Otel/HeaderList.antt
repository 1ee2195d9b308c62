-- ===== src/Otel/HeaderList.antt =====
-- internal/controller/otel.go: `parseHeaders` on a list of headers that is written out.
use Prim.Native.Char.{Char}
use tool_gateway_agentgatewa.Prelude.{
  ℕ, String, ◌≡◌, refl, ap, ◌∙◌, List, [], ◌∷◌, ◌++◌, Option, none, some, map, All,
}
use tool_gateway_agentgatewa.Otel.Headers.{
  Runes, runes, of_runes, trim_left, trim_right, trim_space, split, split_pair, HeaderMap,
  set_header, add_pair, parse_pairs, parse_headers,
}
use tool_gateway_agentgatewa.Otel.Spaces.{
  equals, Lacks, trim_space-header, trim_space-trim_left, trim_space-trim_right, Lacks-trim_left,
  Lacks-trim_right,
}

abbrev comma : Char
comma = ","

-- A part of the list: a key and a value, or a text that is no header.
pub data Part : Type 0 where
  header : Runes → Runes → Part
  other : Runes → Part

-- No part holds a comma, and no key and no other text an equals sign; a value may hold some.
abbrev pub IsPart : Part → Type 0
IsPart (header k v) = Lacks b',' k × Lacks b'=' k × Lacks b',' v
IsPart (other s) = Lacks b',' s × Lacks b'=' s

abbrev pub shown : Part → Runes
shown (header k v) = k ++ equals ∷ v
shown (other s) = s

abbrev pub shown_all : Part → List Part → Runes
shown_all p [] = shown p
shown_all p (q ∷ ps) = shown p ++ comma ∷ shown_all q ps

-- What a list of parts means: a header without the spaces around its key and its value, and the last of
-- two with one key.
abbrev pub meaning : List Part → HeaderMap → HeaderMap
meaning [] m = m
meaning (header k v ∷ ps) m =
    meaning ps (set_header (of_runes (trim_space k)) (of_runes (trim_space v)) m)
meaning (other s ∷ ps) m = meaning ps m

Lacks-append : (c : ℕ) (s t : Runes) → Lacks c s → Lacks c t → Lacks c (s ++ t)
Lacks-append c [] t hs ht = ht
Lacks-append c (d ∷ s) t (h, hs) ht = (h, Lacks-append c s t hs ht)

shown-Lacks : (p : Part) → IsPart p → Lacks b',' (shown p)
shown-Lacks (header k v) (k_free, _, v_free) =
    Lacks-append b',' k (equals ∷ v) k_free (refl, v_free)
shown-Lacks (other s) (s_free, _) = s_free

split-Lacks : (s : Runes) → Lacks b',' s → split b',' s ≡ s ∷ []
unfolding split
split-Lacks [] h = refl
split-Lacks (c ∷ s) (h, hs) = rw (h, split-Lacks s hs)

split-part : (s t : Runes) → Lacks b',' s → split b',' (s ++ comma ∷ t) ≡ s ∷ split b',' t
unfolding split
split-part [] t h = refl
split-part (c ∷ s) t (h, hs) = rw (h, split-part s t hs)

split-shown_all :
    (p : Part) (ps : List Part)
    → All IsPart (p ∷ ps)
    → split b',' (shown_all p ps) ≡ map shown (p ∷ ps)
split-shown_all p [] (h, _) = split-Lacks (shown p) (shown-Lacks p h)
split-shown_all p (q ∷ ps) (h, hs) =
    split-part (shown p) (shown_all q ps) (shown-Lacks p h)
    ∙ ap (λ l. shown p ∷ l) (split-shown_all q ps hs)

runes-of_runes : (s : Runes) → runes (of_runes s) ≡ s
unfolding runes of_runes
runes-of_runes [] = refl
runes-of_runes (c ∷ s) = ap (λ l. c ∷ l) (runes-of_runes s)

split_pair-header : (k v : Runes) → Lacks b'=' k → split_pair (k ++ equals ∷ v) ≡ some (k, v)
unfolding split_pair
split_pair-header [] v h = refl
split_pair-header (c ∷ k) v (h, hs) = rw (h, split_pair-header k v hs)

split_pair-Lacks : (s : Runes) → Lacks b'=' s → split_pair s ≡ none
unfolding split_pair
split_pair-Lacks [] h = refl
split_pair-Lacks (c ∷ s) (h, hs) = rw (h, split_pair-Lacks s hs)

-- The header of one part.
add_pair-shown :
    (k v : Runes) (m : HeaderMap)
    → IsPart (header k v)
    → add_pair (split_pair (trim_space (shown (header k v)))) m
      ≡ set_header (of_runes (trim_space k)) (of_runes (trim_space v)) m
unfolding add_pair
add_pair-shown k v m (_, k_free, _) = rw (
  trim_space-header k v,
  split_pair-header (trim_left k) (trim_right v) (Lacks-trim_left b'=' k k_free),
  trim_space-trim_left k,
  trim_space-trim_right v,
)

split_pair-other : (s : Runes) → Lacks b'=' s → split_pair (trim_space s) ≡ none
unfolding trim_space
split_pair-other s h = split_pair-Lacks _ (Lacks-trim_right b'=' _ (Lacks-trim_left b'=' s h))

parse_pairs-meaning :
    (ps : List Part) (m : HeaderMap) → All IsPart ps → parse_pairs (map shown ps) m ≡ meaning ps m
unfolding parse_pairs add_pair
parse_pairs-meaning [] m h = refl
parse_pairs-meaning (header k v ∷ ps) m (h, hs) =
    ap (parse_pairs (map shown ps)) (add_pair-shown k v m h) ∙ parse_pairs-meaning ps _ hs
parse_pairs-meaning (other s ∷ ps) m (h, hs) =
    ap (λ r. parse_pairs (map shown ps) (add_pair r m)) (split_pair-other s h.1)
    ∙ parse_pairs-meaning ps m hs

parse_headers-none :
    (unmarshal : String → Option HeaderMap) (headers : String)
    → unmarshal headers ≡ none
    → parse_headers unmarshal headers ≡ parse_pairs (split b',' (runes headers)) []
unfolding parse_headers
parse_headers-none unmarshal headers h =
    ap
      (λ (o : Option HeaderMap). elim o as (λ _. HeaderMap) [
        | some m ↦ m
        | none ↦ parse_pairs (split b',' (runes headers)) []
      ])
      h

-- A list of headers and other texts, written out with commas between them, that `json.Unmarshal` refuses is
-- read as what it means: each header with the spaces around its key and its value taken away, the last one
-- of two with the same key, and nothing of the other texts. No part holds a comma, and no key and no
-- other text an equals sign; a value may hold some.
pub parse_headers-shown_all :
    (unmarshal : String → Option HeaderMap) (p : Part) (ps : List Part)
    → All IsPart (p ∷ ps)
    → unmarshal (of_runes (shown_all p ps)) ≡ none
    → parse_headers unmarshal (of_runes (shown_all p ps)) ≡ meaning (p ∷ ps) []
parse_headers-shown_all unmarshal p ps h refused =
    parse_headers-none unmarshal _ refused
    ∙ ap (λ s. parse_pairs (split b',' s) []) (runes-of_runes (shown_all p ps))
    ∙ ap (λ l. parse_pairs l []) (split-shown_all p ps h)
    ∙ parse_pairs-meaning (p ∷ ps) [] h
