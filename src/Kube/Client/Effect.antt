-- ===== src/Kube/Client/Effect.antt =====
-- What the objects of the cluster are behind an action. The client's documented effect on them is a
-- hypothesis: `Store` gives the objects of a world, and what the calls do to them where nobody else writes.
use tool_gateway_agentgatewa.Prelude.{
  String, ◌≡◌, ◌≢◌, refl, Bool, true, false, Bool-cases, ◌⊎◌, inl, inr, Option, none, some,
  if◌then◌else◌,
}
use tool_gateway_agentgatewa.Kube.Errors.{Error, is_not_found, Result, ok, err}
use tool_gateway_agentgatewa.Kube.Types.{Key, Status}
use tool_gateway_agentgatewa.Kube.Objects.{
  Kind, OwnerKind, Object, Operation, created, updated, unchanged,
}
use tool_gateway_agentgatewa.Kube.Client.{
  Env, Call, Sys, Act, pure, ◌>>=◌, check, query, command, emit_normal_event, emit_operation,
}

-- The object that a mutation starts from: the one that is there, or else the one that is handed over.
abbrev pub or_blank : {k : Kind} → Option (Object k) → Object k → Object k
or_blank none blank = blank
or_blank (some o) blank = o

abbrev pub IsOther : Kind → Key → Kind → Key → Type 0
IsOther k key k' key' = ◌≢◌ {A = Kind × Key} (k', key') (k, key)

pub record Store (env : Env) : Type 0 where
  -- the object of a kind and a key
  pub look : (k : Kind) → Key → env.World → Option (Object k)
  -- `CreateOrPatch` that succeeds leaves what the mutation made of the object
  pub stores :
      (k : Kind) (key : Key) (blank : Object k) (mutate : Object k → Result (Object k))
      (w : env.World) (op : Operation)
      → (env.create_or_patch k key blank mutate w).0 ≡ ok op
      → (o : Object k) × (mutate (or_blank (look k key w) blank) ≡ ok o)
        × (look k key (env.create_or_patch k key blank mutate w).1 ≡ some o)
  -- `Delete` that succeeds, or finds nothing, leaves nothing
  pub deletes :
      (k : Kind) (key : Key) (w : env.World) (r : Result (Unit {0}))
      → (env.delete k key w).0 ≡ r
      → (r ≡ ok tt) ⊎ ((e : Error) × (r ≡ err e) × (is_not_found e ≡ true))
      → look k key (env.delete k key w).1 ≡ none
  -- the calls leave the other objects alone, a patch of a status and a `Get` all objects
  pub stores_only :
      (k : Kind) (key : Key) (blank : Object k) (mutate : Object k → Result (Object k))
      (w : env.World) (k' : Kind) (key' : Key)
      → IsOther k key k' key'
      → look k' key' (env.create_or_patch k key blank mutate w).1 ≡ look k' key' w
  pub deletes_only :
      (k : Kind) (key : Key) (w : env.World) (k' : Kind) (key' : Key)
      → IsOther k key k' key'
      → look k' key' (env.delete k key w).1 ≡ look k' key' w
  pub patches_none :
      (o : OwnerKind) (key : Key) (base new : Status) (w : env.World) (k' : Kind) (key' : Key)
      → look k' key' (env.patch_status o key base new w).1 ≡ look k' key' w
  pub gets_no_guard :
      (key : Key) (w : env.World) (k' : Kind) (key' : Key)
      → look k' key' (env.get_guard key w).1 ≡ look k' key' w
  pub gets_no_provider :
      (key : Key) (w : env.World) (k' : Kind) (key' : Key)
      → look k' key' (env.get_guardrail_provider key w).1 ≡ look k' key' w
  pub gets_no_server :
      (key : Key) (w : env.World) (k' : Kind) (key' : Key)
      → look k' key' (env.get_tool_server key w).1 ≡ look k' key' w

-- From every state that fits `P`, the action ends with a result and a world that fit `Q`.
pub record Ends (env : Env) {A : Type 0} (P : env.World → Type 0) (m : Act env A)
    (Q : A → env.World → Type 0) : Type 0 where
  pub at : (s : Sys env) → P s.world → Q (m s).0 (m s).1.world

module _ {env : Env} {A : Type 0} {P : env.World → Type 0} where
  pub Ends-pure :
      {Q : A → env.World → Type 0} (a : A) → ((w : env.World) → P w → Q a w) → Ends env P (pure a) Q
  unfolding pure
  Ends-pure a h = record { at = λ s p. h s.world p }

  pub Ends-query :
      {Q : A → env.World → Type 0} (f : env.World → A × env.World)
      → ((w : env.World) → P w → Q (f w).0 (f w).1)
      → Ends env P (query f) Q
  unfolding query
  Ends-query f h = record { at = λ s p. h s.world p }

  pub Ends-command :
      {Q : A → env.World → Type 0} (c : Call) (f : env.World → A × env.World)
      → ((w : env.World) → P w → Q (f w).0 (f w).1)
      → Ends env P (command c f) Q
  unfolding command
  Ends-command c f h = record { at = λ s p. h s.world p }

  pub Ends-if :
      {Q : A → env.World → Type 0} (b : Bool) {m n : Act env A}
      → (b ≡ true → Ends env P m Q)
      → (b ≡ false → Ends env P n Q)
      → Ends env P (if b then m else n) Q
  Ends-if true hm hn = hm refl
  Ends-if false hm hn = hn refl

  pub Ends-weaken :
      {Q R : A → env.World → Type 0} {m : Act env A}
      → Ends env P m Q
      → ((a : A) (w : env.World) → Q a w → R a w)
      → Ends env P m R
  Ends-weaken h k = record { at = λ s p. k _ _ (h.at s p) }

  -- From less.
  pub Ends-from :
      (R : env.World → Type 0) {Q : A → env.World → Type 0} {m : Act env A}
      → ((w : env.World) → P w → R w)
      → Ends env R m Q
      → Ends env P m Q
  Ends-from R k h = record { at = λ s p. h.at s (k _ p) }

module _ {env : Env} {P : env.World → Type 0} where
  pub Ends-event :
      (k : OwnerKind) (key : Key) (reason note : String)
      → Ends env P (emit_normal_event k key reason note) (λ a w. P w)
  unfolding emit_normal_event
  Ends-event k key reason note = record {
    at = λ s p. elim (Bool-cases env.has_recorder) [ inl e ↦ rw e p | inr e ↦ rw e p ];
  }

  pub Ends-operation :
      (k : OwnerKind) (key : Key) (c u : String × String) (op : Operation)
      → Ends env P (emit_operation k key c u op) (λ a w. P w)
  unfolding emit_operation
  Ends-operation k key (a, b) u created = Ends-event k key a b
  Ends-operation k key c (a, b) updated = Ends-event k key a b
  Ends-operation k key c u unchanged = Ends-pure tt (λ w p. p)

module _ {env : Env} {A B : Type 0} {P : env.World → Type 0} where
  pub Ends-bind :
      {m : Act env A} {f : A → Act env B} {R : A → env.World → Type 0} {Q : B → env.World → Type 0}
      → Ends env P m R
      → ((a : A) → Ends env (R a) (f a) Q)
      → Ends env P (m >>= f) Q
  unfolding ◌>>=◌
  Ends-bind hm hf = record { at = λ s p. (hf _).at _ (hm.at s p) }

  pub Ends-check :
      {r : Result A} {handle : Error → Act env B} {go : A → Act env B} {Q : B → env.World → Type 0}
      → ((e : Error) → r ≡ err e → Ends env P (handle e) Q)
      → ((a : A) → r ≡ ok a → Ends env P (go a) Q)
      → Ends env P (check r handle go) Q
  unfolding check
  Ends-check {r = ok a} he ha = ha a refl
  Ends-check {r = err e} he ha = he e refl
