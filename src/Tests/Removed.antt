-- ===== src/Tests/Removed.antt =====
-- Unstructured objects whose fields can be removed at a path.
use mathlib.Core.Path.{subst}
use tool_gateway_agentgatewa.Prelude.{
  ℕ, ◌+◌, ◌≤◌, Bool, ◌⊎◌, String, ◌≡◌, refl, sym, ap, true, false, Bool-cases, inl, inr, List, [],
  ◌∷◌, str_eq, eq_refl, eq_iff, if◌then◌else◌, arith,
}
use tool_gateway_agentgatewa.Kube.Errors.{Result, ok}
use tool_gateway_agentgatewa.Kube.Results.{bind-ok, ok-injective}
use tool_gateway_agentgatewa.Kube.Json.{
  Json, string, runes, number, array, object, Fields, end, field,
}
use tool_gateway_agentgatewa.Kube.Settled.{parts}
use tool_gateway_agentgatewa.Tests.Nested.{
  set_in, set_at, hit, miss, set_in_cases, same_name, if_first,
}

abbrev pub drop : String → Fields → Fields
drop k end = end
drop k (field l j fs) = let rest = drop k fs in if str_eq l k then rest else field l j rest

abbrev pub change : (Json → Json) → String → Fields → Fields
change f k end = end
change f k (field l j fs) =
    let rest = change f k fs in if str_eq l k then field l (f j) fs else field l j rest

abbrev pub remove_at : List String → Json → Json
remove_at [] j = j
remove_at (k ∷ []) (object fs) = object (drop k fs)
remove_at (k ∷ k' ∷ p) (object fs) = object (change (remove_at (k' ∷ p)) k fs)
remove_at (k ∷ p) j = j

size : Fields → ℕ
size end = 0
size (field l j fs) = 1 + size fs

size-drop : (k : String) (fs : Fields) → size (drop k fs) ≤ size fs
unfolding size
size-drop k end = omega arith
size-drop k (field l j fs) = elim (Bool-cases (str_eq l k)) [
  | inl e ↦ let h = size-drop k fs in rw e (omega arith)
  | inr e ↦ let h = size-drop k fs in rw e (omega arith)
]

drop-drop : (k : String) (fs : Fields) → drop k (drop k fs) ≡ drop k fs
drop-drop k end = refl
drop-drop k (field l j fs) = elim (Bool-cases (str_eq l k)) [
  | inl e ↦ rw (e, drop-drop k fs)
  | inr e ↦ rw (e, e, drop-drop k fs)
]

change-change :
    (f : Json → Json) (k : String)
    → ((j : Json) → f (f j) ≡ f j)
    → (fs : Fields) → change f k (change f k fs) ≡ change f k fs
change-change f k idem end = refl
change-change f k idem (field l j fs) = elim (Bool-cases (str_eq l k)) [
  | inl e ↦ rw (e, e, idem j)
  | inr e ↦ rw (e, e, change-change f k idem fs)
]

pub remove_at-remove_at : (p : List String) (j : Json) → remove_at p (remove_at p j) ≡ remove_at p j
remove_at-remove_at [] j = refl
remove_at-remove_at (k ∷ []) (object fs) = ap object (drop-drop k fs)
remove_at-remove_at (k ∷ k' ∷ p) (object fs) =
    ap object (change-change (remove_at (k' ∷ p)) k (remove_at-remove_at (k' ∷ p)) fs)
remove_at-remove_at (k ∷ []) (string s) = refl
remove_at-remove_at (k ∷ []) (runes s) = refl
remove_at-remove_at (k ∷ []) (number n) = refl
remove_at-remove_at (k ∷ []) (array xs) = refl
remove_at-remove_at (k ∷ k' ∷ p) (string s) = refl
remove_at-remove_at (k ∷ k' ∷ p) (runes s) = refl
remove_at-remove_at (k ∷ k' ∷ p) (number n) = refl
remove_at-remove_at (k ∷ k' ∷ p) (array xs) = refl

-- Nothing of the name was there.
drop_cases :
    (k l : String) (j : Json) (fs : Fields)
    → drop k (field l j fs) ≡ field l j fs
    → (str_eq l k ≡ false) × (drop k fs ≡ fs)
unfolding size
drop_cases k l j fs h = by_test (str_eq l k) refl h
  where
    by_test :
        (b : Bool)
        → str_eq l k ≡ b
        → (if b then drop k fs else field l j (drop k fs)) ≡ field l j fs
        → (str_eq l k ≡ false) × (drop k fs ≡ fs)
    by_test true e h' =
        let smaller = size-drop k fs in let same = ap size h' in elim (too_big smaller same) [ ]
      where
        too_big : size (drop k fs) ≤ size fs → size (drop k fs) ≡ size (field l j fs) → ⊥
        too_big x y = omega arith
    by_test false e h' = (e, cc)

change_cases :
    (f : Json → Json) (k l : String) (j : Json) (fs : Fields)
    → change f k (field l j fs) ≡ field l j fs
    → ((str_eq l k ≡ true) × (f j ≡ j)) ⊎ ((str_eq l k ≡ false) × (change f k fs ≡ fs))
change_cases f k l j fs h = by_test (str_eq l k) refl h
  where
    by_test :
        (b : Bool)
        → str_eq l k ≡ b
        → (if b then field l (f j) fs else field l j (change f k fs)) ≡ field l j fs
        → ((str_eq l k ≡ true) × (f j ≡ j)) ⊎ ((str_eq l k ≡ false) × (change f k fs ≡ fs))
    by_test true e h' = inl (e, cc)
    by_test false e h' = inr (e, cc)

other_way : (a b : String) → str_eq a b ≡ false → str_eq b a ≡ false
other_way a b h = elim (Bool-cases (str_eq b a)) [
  | inl e ↦ let same = (eq_iff a b).1 (sym ((eq_iff b a).0 e)) in cc
  | inr e ↦ e
]

drop-beside :
    (g : Json → Result Json) (a b : String)
    → str_eq a b ≡ false
    → (fs fs' : Fields) → drop a fs ≡ fs
    → set_in g b fs ≡ ok fs'
    → drop a fs' ≡ fs'
drop-beside g a b apart end fs' gone h =
    let (j, made, e) = bind-ok (g (object end)) h in
    subst (λ fs'. drop a fs' ≡ fs') (ok-injective e) (rw (other_way a b apart))
drop-beside g a b apart (field l j fs) fs' gone h =
    let (e, gone') = drop_cases a l j fs gone in
    elim (set_in_cases g b l j fs fs' h) [
      | hit j2 e' made e2 ↦ subst (λ fs'. drop a fs' ≡ fs') e2 (rw (e, gone'))
      | miss rest e' made e2 ↦
          subst (λ fs'. drop a fs' ≡ fs') e2 (rw (e, drop-beside g a b apart fs rest gone' made))
    ]

change-beside :
    (f : Json → Json) (g : Json → Result Json) (a b : String)
    → str_eq a b ≡ false
    → (fs fs' : Fields) → change f a fs ≡ fs
    → set_in g b fs ≡ ok fs'
    → change f a fs' ≡ fs'
change-beside f g a b apart end fs' gone h =
    let (j, made, e) = bind-ok (g (object end)) h in
    subst (λ fs'. change f a fs' ≡ fs') (ok-injective e) (rw (other_way a b apart))
change-beside f g a b apart (field l j fs) fs' gone h = elim (change_cases f a l j fs gone) [
  | inl (e, same) ↦ elim (set_in_cases g b l j fs fs' h) [
    | hit j2 e' made e2 ↦ let alike = same_name a b l e e' in cc
    | miss rest e' made e2 ↦ subst (λ fs'. change f a fs' ≡ fs') e2 (rw (e, same))
  ]
  | inr (e, gone') ↦ elim (set_in_cases g b l j fs fs' h) [
    | hit j2 e' made e2 ↦ subst (λ fs'. change f a fs' ≡ fs') e2 (rw (e, gone'))
    | miss rest e' made e2 ↦
        subst (λ fs'. change f a fs' ≡ fs') e2
          (rw (e, change-beside f g a b apart fs rest gone' made))
  ]
]

change-within :
    (f : Json → Json) (g : Json → Result Json) (k : String)
    → f (object end) ≡ object end
    → ((j j' : Json) → f j ≡ j → g j ≡ ok j' → f j' ≡ j')
    → (fs fs' : Fields) → change f k fs ≡ fs
    → set_in g k fs ≡ ok fs'
    → change f k fs' ≡ fs'
change-within f g k empty keeps end fs' gone h =
    let (j, made, e) = bind-ok (g (object end)) h in
    subst (λ fs'. change f k fs' ≡ fs') (ok-injective e) (rw (eq_refl k, keeps _ _ empty made))
change-within f g k empty keeps (field l j fs) fs' gone h = elim (change_cases f k l j fs gone) [
  | inl (e, same) ↦ elim (set_in_cases g k l j fs fs' h) [
    | hit j2 e' made e2 ↦ subst (λ fs'. change f k fs' ≡ fs') e2 (rw (e, keeps j j2 same made))
    | miss rest e' made e2 ↦ cc
  ]
  | inr (e, gone') ↦ elim (set_in_cases g k l j fs fs' h) [
    | hit j2 e' made e2 ↦ cc
    | miss rest e' made e2 ↦
        subst (λ fs'. change f k fs' ≡ fs') e2
          (rw (e, change-within f g k empty keeps fs rest gone' made))
  ]
]

remove_at_empty : (k : String) (p : List String) → remove_at (k ∷ p) (object end) ≡ object end
remove_at_empty k [] = refl
remove_at_empty k (k' ∷ p) = refl

object_fields : {fs gs : Fields} → object fs ≡ object gs → fs ≡ gs
object_fields e = cc

not_first : (b : Bool) → (if b then false else true) ≡ true → b ≡ false
not_first true h = cc
not_first false h = refl

pub remove_at-keeps :
    (p q : List String) (v j j' : Json)
    → parts p q ≡ true
    → remove_at p j ≡ j
    → set_at q v j ≡ ok j'
    → remove_at p j' ≡ j'
remove_at-keeps [] q v j j' apart gone h = refl
remove_at-keeps (a ∷ p) [] v j j' apart gone h = cc
remove_at-keeps (a ∷ []) (b ∷ q) v (object fs) j' apart gone h =
    let (fs', made, e) = bind-ok (set_in (set_at q v) b fs) h in
    subst (λ j'. remove_at (a ∷ []) j' ≡ j') (ok-injective e)
      (ap object (
        drop-beside (set_at q v) a b (not_first (str_eq a b) apart) fs fs' (object_fields gone)
          made))
remove_at-keeps (a ∷ a' ∷ p) (b ∷ q) v (object fs) j' apart gone h =
    let (fs', made, e) = bind-ok (set_in (set_at q v) b fs) h in
    subst (λ j'. remove_at (a ∷ a' ∷ p) j' ≡ j') (ok-injective e)
      (ap object (kept fs' made (λ e j j' x y. remove_at-keeps (a' ∷ p) q v j j' e x y)))
  where
    kept :
        (fs' : Fields)
        → set_in (set_at q v) b fs ≡ ok fs'
        → (parts (a' ∷ p) q ≡ true
            → (j j' : Json) → remove_at (a' ∷ p) j ≡ j
            → set_at q v j ≡ ok j'
            → remove_at (a' ∷ p) j' ≡ j')
        → change (remove_at (a' ∷ p)) a fs' ≡ fs'
    kept fs' made again = elim (Bool-cases (str_eq a b)) [
      | inl e ↦
          change-within (remove_at (a' ∷ p)) (set_at q v) a (remove_at_empty a' p)
            (again (if_first (str_eq a b) e apart)) fs fs' (object_fields gone)
            (subst (λ k. set_in (set_at q v) k fs ≡ ok fs') (sym ((eq_iff a b).0 e)) made)
      | inr e ↦
          change-beside (remove_at (a' ∷ p)) (set_at q v) a b e fs fs' (object_fields gone) made
    ]
remove_at-keeps (a ∷ p) (b ∷ q) v (string s) j' apart gone h = cc
remove_at-keeps (a ∷ p) (b ∷ q) v (runes s) j' apart gone h = cc
remove_at-keeps (a ∷ p) (b ∷ q) v (number n) j' apart gone h = cc
remove_at-keeps (a ∷ p) (b ∷ q) v (array xs) j' apart gone h = cc
