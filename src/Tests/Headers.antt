-- ===== src/Tests/Headers.antt =====
-- A list of headers with spaces, an equals sign in a value, and a part that is no header.
use tool_gateway_agentgatewa.Prelude.{◌≡◌, refl, List, [], ◌∷◌}
use tool_gateway_agentgatewa.Otel.Headers.{
  of_runes, trim_space, trim_left, trim_right, keep_rune, is_space, set_header, parse_headers,
}
use tool_gateway_agentgatewa.Otel.HeaderList.{
  Part, header, other, shown_all, meaning, parse_headers-shown_all,
}
use tool_gateway_agentgatewa.Tests.Cluster.{unmarshal}

abbrev first : Part
first = header (" " ∷ "k" ∷ []) ("a" ∷ "=" ∷ "b" ∷ " " ∷ [])

abbrev others : List Part
others = other ("j" ∷ []) ∷ header ("k" ∷ []) (" " ∷ "c" ∷ []) ∷ []

-- The text is ` k=a=b ,j,k= c`.
text_shown : of_runes (shown_all first others) ≡ " k=a=b ,j,k= c"
unfolding of_runes
text_shown = refl

last_one : meaning (first ∷ others) [] ≡ ("k", "c") ∷ []
unfolding of_runes trim_space trim_left trim_right keep_rune is_space set_header
last_one = refl

parse_headers-shown_all_example :
    parse_headers unmarshal (of_runes (shown_all first others)) ≡ meaning (first ∷ others) []
parse_headers-shown_all_example =
    parse_headers-shown_all unmarshal first others
      (
        ((refl, (refl, tt)), (refl, (refl, tt)), (refl, (refl, (refl, (refl, tt))))),
        (((refl, tt), (refl, tt)), (((refl, tt), (refl, tt), (refl, (refl, tt))), tt)),
      )
      refl
