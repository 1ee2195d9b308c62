-- ===== src/Kube/Json.antt =====
-- Unstructured content: what Go holds in `map[string]interface{}`. A string stands as such, or, where
-- the program builds it rune by rune, as its code points (`runes`).
use tool_gateway_agentgatewa.Prelude.{ℕ, String, List, [], ◌∷◌}
use tool_gateway_agentgatewa.Prelude.Text.{Text}

mutual
  pub data Json : Type 0 where
    string : String → Json
    runes : Text → Json
    number : ℕ → Json
    array : Items → Json
    object : Fields → Json

  pub data Items : Type 0 where
    nil : Items
    cons : Json → Items → Items

  pub data Fields : Type 0 where
    end : Fields
    field : String → Json → Fields → Fields

-- A map literal, a slice literal, and a slice of strings.
abbrev pub items : List Json → Items
items [] = nil
items (x ∷ xs) = cons x (items xs)

abbrev pub slice : List Json → Json
slice xs = array (items xs)

abbrev pub fields : List (String × Json) → Fields
fields [] = end
fields ((k, v) ∷ fs) = field k v (fields fs)

abbrev pub map_of : List (String × Json) → Json
map_of fs = object (fields fs)
