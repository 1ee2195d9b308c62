-- ===== src/Wiring/Meets.antt =====
-- Where the objects of two routes meet: the children of a route are named `<gateway>-<route>`, so the
-- hyphens in the names of gateways and routes decide.
use Prim.Native.Char.{Char}
use Prim.Native.String.{◌++◌}
use mathlib.Core.Path.{subst}
use text.Mathlib.TextLemmas.{
  nil-append, cons-append, append_assoc, append_cancel_left, append_cancel_right,
  head-eq_of_cons-eq, tail-eq_of_cons-eq,
}
use tool_gateway_agentgatewa.Prelude.{String, ◌≡◌, refl, sym, ap, ◌∙◌, ◌↔◌, ◌⊎◌, inl, inr, [], ◌∷◌}
use tool_gateway_agentgatewa.Prelude.Text.{concat}
use tool_gateway_agentgatewa.Kube.Types.{Key, ToolGateway, ToolRoute}
use tool_gateway_agentgatewa.Route.Ensure.{child_key, tool_filter_policy_key}

-- The gateway's name is the other's with a part behind a hyphen, and that part stands before a hyphen
-- in the name of the other's route.
abbrev pub Nests : String → String → String → String → Type 0
Nests gateway route gateway' route' =
    (part : String) × (gateway ≡ concat (gateway' ∷ "-" ∷ part ∷ []))
    × (route' ≡ concat (part ∷ "-" ∷ route ∷ []))

-- The names are the same, or nest one way or the other.
abbrev pub NamesMeet : String → String → String → String → Type 0
NamesMeet gateway route gateway' route' =
    ((gateway ≡ gateway') × (route ≡ route'))
    ⊎ (Nests gateway route gateway' route' ⊎ Nests gateway' route' gateway route)

hyphen-append : (s : String) → "-" ++ s ≡ String.◌∷◌ "-" s
hyphen-append s = cons-append "-" "" s ∙ ap (λ t. String.◌∷◌ "-" t) (nil-append s)

-- The first gateway's name ends here.
ends_here :
    (x : Char) (a c c' : String)
    → "-" ++ c ≡ String.◌∷◌ x a ++ ("-" ++ c')
    → Nests (String.◌∷◌ x a) c' "" c
ends_here x a c c' e =
    let e' = sym (hyphen-append c) ∙ (e ∙ cons-append x a ("-" ++ c')) in
    let h = head-eq_of_cons-eq e' in
    (
      a,
      ap (λ y. String.◌∷◌ y a) (sym h) ∙ sym (nil-append ("-" ++ a) ∙ hyphen-append a),
      tail-eq_of_cons-eq e',
    )

Nests-cons :
    (x : Char) (a c a' c' : String)
    → Nests a c a' c'
    → Nests (String.◌∷◌ x a) c (String.◌∷◌ x a') c'
Nests-cons x a c a' c' (part, e, f) =
    (part, ap (λ s. String.◌∷◌ x s) e ∙ sym (cons-append x a' ("-" ++ part)), f)

NamesMeet-cons :
    (x : Char) (a c a' c' : String)
    → NamesMeet a c a' c'
    → NamesMeet (String.◌∷◌ x a) c (String.◌∷◌ x a') c'
NamesMeet-cons x a c a' c' (inl (e, f)) = inl (ap (λ s. String.◌∷◌ x s) e, f)
NamesMeet-cons x a c a' c' (inr (inl n)) = inr (inl (Nests-cons x a c a' c' n))
NamesMeet-cons x a c a' c' (inr (inr n)) = inr (inr (Nests-cons x a' c' a c n))

-- Two names with a hyphen between their parts are split alike, or one part reaches into the other.
pub hyphenated-NamesMeet :
    (a c a' c' : String) → a ++ ("-" ++ c) ≡ a' ++ ("-" ++ c') → NamesMeet a c a' c'
hyphenated-NamesMeet String.[] c String.[] c' e =
    inl (refl, append_cancel_left "-" c c' (append_cancel_left "" _ _ e))
hyphenated-NamesMeet String.[] c (String.◌∷◌ x a') c' e =
    inr (inr (ends_here x a' c c' (sym (nil-append ("-" ++ c)) ∙ e)))
hyphenated-NamesMeet (String.◌∷◌ x a) c String.[] c' e =
    inr (inl (ends_here x a c' c (sym (nil-append ("-" ++ c')) ∙ sym e)))
hyphenated-NamesMeet (String.◌∷◌ x a) c (String.◌∷◌ y a') c' e =
    let e' = sym (cons-append x a ("-" ++ c)) ∙ (e ∙ cons-append y a' ("-" ++ c')) in
    subst (λ z. NamesMeet (String.◌∷◌ x a) c (String.◌∷◌ z a') c') (head-eq_of_cons-eq e')
      (NamesMeet-cons x a c a' c' (hyphenated-NamesMeet a c a' c' (tail-eq_of_cons-eq e')))

Nests-hyphenated : (a c a' c' : String) → Nests a c a' c' → a ++ ("-" ++ c) ≡ a' ++ ("-" ++ c')
Nests-hyphenated a c a' c' (part, e, f) =
    ap (λ s. s ++ ("-" ++ c)) e
    ∙ (append_assoc a' ("-" ++ part) ("-" ++ c)
        ∙ (ap (λ s. a' ++ s) (append_assoc "-" part ("-" ++ c))
            ∙ ap (λ s. a' ++ ("-" ++ s)) (sym f)))

NamesMeet-hyphenated :
    (a c a' c' : String) → NamesMeet a c a' c' → a ++ ("-" ++ c) ≡ a' ++ ("-" ++ c')
NamesMeet-hyphenated a c a' c' (inl (e, f)) = rw (e, f)
NamesMeet-hyphenated a c a' c' (inr (inl n)) = Nests-hyphenated a c a' c' n
NamesMeet-hyphenated a c a' c' (inr (inr n)) = sym (Nests-hyphenated a' c' a c n)

-- Two routes get one key for their backend and their HTTPRoute exactly where they lie in one namespace
-- and their names meet: the gateways and the routes are named alike; or the name of one gateway is
-- `<other gateway>-<part>`, and the other's route is named `<part>-<route>`.
pub child_key_iff :
    (tg tg' : ToolGateway) (r r' : ToolRoute)
    → (child_key tg r ≡ child_key tg' r') ↔ (
        (r.key.namespace ≡ r'.key.namespace)
        × NamesMeet tg.key.name r.key.name tg'.key.name r'.key.name)
unfolding child_key
child_key_iff tg tg' r r' = (
  λ e. (ap (λ (k : Key). k.namespace) e, hyphenated-NamesMeet _ _ _ _ (ap (λ (k : Key). k.name) e)),
  λ h. let ns = h.0 in let n = NamesMeet-hyphenated _ _ _ _ h.1 in cc,
)

-- Where the policies of two routes are one object, their names meet too.
pub tool_filter_policy_key-NamesMeet :
    (tg tg' : ToolGateway) (r r' : ToolRoute)
    → tool_filter_policy_key tg r ≡ tool_filter_policy_key tg' r'
    → NamesMeet tg.key.name r.key.name tg'.key.name r'.key.name
unfolding tool_filter_policy_key
tool_filter_policy_key-NamesMeet tg tg' r r' e = hyphenated-NamesMeet _ _ _ _ (
    append_cancel_right _ _ "-toolfilter" (
      regroup tg.key.name r.key.name
      ∙ (ap (λ (k : Key). k.name) e ∙ sym (regroup tg'.key.name r'.key.name))))
  where
    regroup :
        (a c : String) → (a ++ ("-" ++ c)) ++ "-toolfilter" ≡ a ++ ("-" ++ (c ++ "-toolfilter"))
    regroup a c =
        append_assoc a ("-" ++ c) "-toolfilter"
        ∙ ap (λ s. a ++ s) (append_assoc "-" c "-toolfilter")
