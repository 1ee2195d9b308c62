-- ===== src/Kube/Results.antt =====
-- What a success says of the steps before it, and of texts that differ.
use tool_gateway_agentgatewa.Prelude.{
  String, ◌≡◌, ◌≢◌, refl, sym, ◌∙◌, Bool, true, false, not, ◌&&◌, str_eq, eq_iff, Bool-cases, inl,
  inr, if◌then◌else◌,
}
use tool_gateway_agentgatewa.Kube.Errors.{Error, Result, ok, err, ◌>>=◌, wrap_error}

pub bind-ok :
    {A B : Type 0} (r : Result A) {f : A → Result B} {b : B}
    → (r >>= f) ≡ ok b
    → (a : A) × (r ≡ ok a) × (f a ≡ ok b)
bind-ok (ok a) h = (a, refl, h)
bind-ok (err e) h = cc

pub wrap_error-ok :
    {A : Type 0} (text : String) (r : Result A) {a : A} → wrap_error text r ≡ ok a → r ≡ ok a
wrap_error-ok text (ok a) h = h
wrap_error-ok text (err e) h = cc

pub ok-injective : {A : Type 0} {a b : A} → ok a ≡ ok b → a ≡ b
ok-injective h = cc

-- A guard that returns an error lets only the other branch succeed.
pub guard-ok :
    {A : Type 0} (b : Bool) (e : Error) {r : Result A} {a : A}
    → (if b then err e else r) ≡ ok a
    → (b ≡ false) × (r ≡ ok a)
guard-ok true e h = cc
guard-ok false e h = (refl, h)

pub true_not_false : true ≢ false
true_not_false e = cc

pub str_eq-false : (s t : String) → str_eq s t ≡ false → s ≢ t
str_eq-false s t h e = true_not_false ((sym ((eq_iff s t).1 e)) ∙ h)

pub differs-str_eq : (s t : String) → s ≢ t → str_eq s t ≡ false
differs-str_eq s t h = elim (Bool-cases (str_eq s t)) [
  | inl e ↦ elim (h ((eq_iff s t).0 e)) [ ]
  | inr e ↦ e
]

pub not-false : (b : Bool) → not b ≡ false → b ≡ true
not-false true h = refl
not-false false h = cc

pub not-true : {b : Bool} → b ≢ true → b ≡ false
not-true {b = true} h = elim (h refl) [ ]
not-true {b = false} h = refl

pub and-true : (a b : Bool) → a && b ≡ true → (a ≡ true) × (b ≡ true)
and-true true b h = (refl, h)
and-true false b h = cc
