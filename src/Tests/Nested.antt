-- ===== src/Tests/Nested.antt =====
-- Unstructured objects whose fields can be set at a path.
use mathlib.Core.Path.{subst}
use tool_gateway_agentgatewa.Prelude.{
  Bool, ◌⊎◌, String, ◌≡◌, refl, sym, ◌∙◌, ap, true, false, Bool-cases, inl, inr, List, [], ◌∷◌,
  str_eq, eq_refl, eq_iff, if◌then◌else◌,
}
use tool_gateway_agentgatewa.Kube.Errors.{failure, Result, ok, err, ◌>>=◌}
use tool_gateway_agentgatewa.Kube.Results.{bind-ok, ok-injective}
use tool_gateway_agentgatewa.Kube.Json.{
  Json, string, runes, number, array, object, Fields, end, field,
}
use tool_gateway_agentgatewa.Kube.Settled.{parts}

-- A change of the field of a name; a field that is missing is made from an empty object.
abbrev pub set_in : (Json → Result Json) → String → Fields → Result Fields
set_in f k end = f (object end) >>= λ j. ok (field k j end)
set_in f k (field l j fs) =
    let rest = set_in f k fs in
    if str_eq l k then (f j >>= λ j'. ok (field l j' fs)) else (rest >>= λ fs'. ok (field l j fs'))

abbrev pub set_at : List String → Json → Json → Result Json
set_at [] v j = ok v
set_at (k ∷ p) v (object fs) = set_in (set_at p v) k fs >>= λ fs'. ok (object fs')
set_at (k ∷ p) v j = err (failure "value cannot be set because it is not a map[string]interface{}")

-- A change that succeeds: what became of the first field, or of the others.
pub data IsSetIn (f : Json → Result Json) (k l : String) (j : Json) (fs fs' : Fields) : Type 0 where
  hit : (j' : Json) → str_eq l k ≡ true → f j ≡ ok j' → field l j' fs ≡ fs' → IsSetIn f k l j fs fs'
  miss :
      (rest : Fields)
      → str_eq l k ≡ false
      → set_in f k fs ≡ ok rest
      → field l j rest ≡ fs'
      → IsSetIn f k l j fs fs'

if_ok :
    {A : Type 0} {a : A} (b : Bool) (x y : Result A)
    → (if b then x else y) ≡ ok a
    → ((b ≡ true) × (x ≡ ok a)) ⊎ ((b ≡ false) × (y ≡ ok a))
if_ok true x y h = inl (refl, h)
if_ok false x y h = inr (refl, h)

pub set_in_cases :
    (f : Json → Result Json) (k l : String) (j : Json) (fs fs' : Fields)
    → set_in f k (field l j fs) ≡ ok fs'
    → IsSetIn f k l j fs fs'
set_in_cases f k l j fs fs' h =
    elim (if_ok (str_eq l k) (f j >>= λ j'. ok (field l j' fs))
      (set_in f k fs >>= λ r. ok (field l j r)) h) [
        | inl (e, h') ↦ let (j', made, e') = bind-ok (f j) h' in hit j' e made (ok-injective e')
        | inr (e, h') ↦
            let (rest, made, e') = bind-ok (set_in f k fs) h' in miss rest e made (ok-injective e')
      ]

set_in-hit :
    (f : Json → Result Json) (k l : String) (j j' : Json) (fs : Fields)
    → str_eq l k ≡ true
    → f j ≡ ok j'
    → set_in f k (field l j fs) ≡ ok (field l j' fs)
set_in-hit f k l j j' fs e h = rw (e, h)

set_in-miss :
    (f : Json → Result Json) (k l : String) (j : Json) (fs rest : Fields)
    → str_eq l k ≡ false
    → set_in f k fs ≡ ok rest
    → set_in f k (field l j fs) ≡ ok (field l j rest)
set_in-miss f k l j fs rest e h = rw (e, h)

-- Setting again.
set_in-set_in :
    (f : Json → Result Json) (k : String)
    → ((j j' : Json) → f j ≡ ok j' → f j' ≡ ok j')
    → (fs fs' : Fields) → set_in f k fs ≡ ok fs'
    → set_in f k fs' ≡ ok fs'
set_in-set_in f k keeps end fs' h =
    let (j, made, e) = bind-ok (f (object end)) h in
    subst (λ fs'. set_in f k fs' ≡ ok fs') (ok-injective e)
      (set_in-hit f k k j j end (eq_refl k) (keeps _ _ made))
set_in-set_in f k keeps (field l j fs) fs' h = elim (set_in_cases f k l j fs fs' h) [
  | hit j' e made e' ↦
      subst (λ fs'. set_in f k fs' ≡ ok fs') e' (set_in-hit f k l j' j' fs e (keeps _ _ made))
  | miss rest e made e' ↦
      subst (λ fs'. set_in f k fs' ≡ ok fs') e'
        (set_in-miss f k l j rest rest e (set_in-set_in f k keeps fs rest made))
]

pub set_at-set_at : (p : List String) (v j j' : Json) → set_at p v j ≡ ok j' → set_at p v j' ≡ ok j'
set_at-set_at [] v j j' h = h
set_at-set_at (k ∷ p) v (object fs) j' h =
    let (fs', made, e) = bind-ok (set_in (set_at p v) k fs) h in
    subst (λ j'. set_at (k ∷ p) v j' ≡ ok j') (ok-injective e)
      (rw (set_in-set_in (set_at p v) k (set_at-set_at p v) fs fs' made))
set_at-set_at (k ∷ p) v (string s) j' h = cc
set_at-set_at (k ∷ p) v (runes s) j' h = cc
set_at-set_at (k ∷ p) v (number n) j' h = cc
set_at-set_at (k ∷ p) v (array xs) j' h = cc

-- Setting beside: at the same field, and at another one.
set_in-within :
    (f g : Json → Result Json) (k : String)
    → ((j j' : Json) → f j ≡ ok j → g j ≡ ok j' → f j' ≡ ok j')
    → (fs fs' : Fields) → set_in f k fs ≡ ok fs
    → set_in g k fs ≡ ok fs'
    → set_in f k fs' ≡ ok fs'
set_in-within f g k keeps end fs' set h = let (j, made, e) = bind-ok (f (object end)) set in cc
set_in-within f g k keeps (field l j fs) fs' set h =
    elim (set_in_cases f k l j fs (field l j fs) set) [
      | hit j1 e made e1 ↦ elim (set_in_cases g k l j fs fs' h) [
        | hit j2 e' made' e2 ↦
            subst (λ fs'. set_in f k fs' ≡ ok fs') e2
              (set_in-hit f k l j2 j2 fs e (keeps j j2 (made ∙ cc) made'))
        | miss rest e' made' e2 ↦ cc
      ]
      | miss rest e made e1 ↦ elim (set_in_cases g k l j fs fs' h) [
        | hit j2 e' made' e2 ↦ cc
        | miss rest' e' made' e2 ↦
            subst (λ fs'. set_in f k fs' ≡ ok fs') e2
              (set_in-miss f k l j rest' rest' e
                (set_in-within f g k keeps fs rest' (made ∙ cc) made'))
      ]
    ]

pub same_name : (a b l : String) → str_eq l a ≡ true → str_eq l b ≡ true → str_eq a b ≡ true
same_name a b l e e' =
    let x = (eq_iff l a).0 e in let y = (eq_iff l b).0 e' in (eq_iff a b).1 (sym x ∙ y)

set_in-beside :
    (f g : Json → Result Json) (a b : String)
    → str_eq a b ≡ false
    → (fs fs' : Fields) → set_in f a fs ≡ ok fs
    → set_in g b fs ≡ ok fs'
    → set_in f a fs' ≡ ok fs'
set_in-beside f g a b apart end fs' set h = let (j, made, e) = bind-ok (f (object end)) set in cc
set_in-beside f g a b apart (field l j fs) fs' set h =
    elim (set_in_cases f a l j fs (field l j fs) set) [
      | hit j1 e made e1 ↦ elim (set_in_cases g b l j fs fs' h) [
        | hit j2 e' made' e2 ↦ let same = same_name a b l e e' in cc
        | miss rest e' made' e2 ↦
            subst (λ fs'. set_in f a fs' ≡ ok fs') e2 (set_in-hit f a l j j rest e (made ∙ cc))
      ]
      | miss rest e made e1 ↦ elim (set_in_cases g b l j fs fs' h) [
        | hit j2 e' made' e2 ↦
            subst (λ fs'. set_in f a fs' ≡ ok fs') e2 (set_in-miss f a l j2 fs fs e (made ∙ cc))
        | miss rest' e' made' e2 ↦
            subst (λ fs'. set_in f a fs' ≡ ok fs') e2
              (set_in-miss f a l j rest' rest' e
                (set_in-beside f g a b apart fs rest' (made ∙ cc) made'))
      ]
    ]

set_at-object :
    (k : String) (p : List String) (v : Json) (fs : Fields)
    → set_at (k ∷ p) v (object fs) ≡ ok (object fs)
    → set_in (set_at p v) k fs ≡ ok fs
set_at-object k p v fs h = let (fs', made, e) = bind-ok (set_in (set_at p v) k fs) h in made ∙ cc

pub if_first : (b : Bool) {x : Bool} → b ≡ true → (if b then x else true) ≡ true → x ≡ true
if_first true h e = e
if_first false h e = cc

pub set_at-keeps :
    (p q : List String) (v v' j j' : Json)
    → parts p q ≡ true
    → set_at p v j ≡ ok j
    → set_at q v' j ≡ ok j'
    → set_at p v j' ≡ ok j'
set_at-keeps [] q v v' j j' apart set h = cc
set_at-keeps (a ∷ p) [] v v' j j' apart set h = cc
set_at-keeps (a ∷ p) (b ∷ q) v v' (object fs) j' apart set h =
    let (fs', made, e) = bind-ok (set_in (set_at q v') b fs) h in
    let there = set_at-object a p v fs set in
    subst (λ j'. set_at (a ∷ p) v j' ≡ ok j') (ok-injective e)
      (ap (λ r. r >>= λ fs'. ok (object fs'))
        (kept fs' made there (λ e j j' x y. set_at-keeps p q v v' j j' e x y)))
  where
    kept :
        (fs' : Fields)
        → set_in (set_at q v') b fs ≡ ok fs'
        → set_in (set_at p v) a fs ≡ ok fs
        → (parts p q ≡ true
            → (j j' : Json) → set_at p v j ≡ ok j
            → set_at q v' j ≡ ok j'
            → set_at p v j' ≡ ok j')
        → set_in (set_at p v) a fs' ≡ ok fs'
    kept fs' made there again = elim (Bool-cases (str_eq a b)) [
      | inl e ↦
          set_in-within (set_at p v) (set_at q v') a (again (if_first (str_eq a b) e apart)) fs fs'
            there (subst (λ k. set_in (set_at q v') k fs ≡ ok fs') (sym ((eq_iff a b).0 e)) made)
      | inr e ↦ set_in-beside (set_at p v) (set_at q v') a b e fs fs' there made
    ]
set_at-keeps (a ∷ p) (b ∷ q) v v' (string s) j' apart set h = cc
set_at-keeps (a ∷ p) (b ∷ q) v v' (runes s) j' apart set h = cc
set_at-keeps (a ∷ p) (b ∷ q) v v' (number n) j' apart set h = cc
set_at-keeps (a ∷ p) (b ∷ q) v v' (array xs) j' apart set h = cc
