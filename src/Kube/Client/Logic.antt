-- ===== src/Kube/Client/Logic.antt =====
-- What an action returns and writes, one rule for each way to build an action.
use tool_gateway_agentgatewa.Prelude.{
  String, ◌≡◌, refl, sym, ◌∙◌, ap, Bool, true, false, List, [], ◌∷◌, ◌++◌, append-nil, append_assoc,
  if◌then◌else◌,
}
use mathlib.Core.Path.{subst}
use tool_gateway_agentgatewa.Kube.Errors.{Error, Result, ok, err}
use tool_gateway_agentgatewa.Kube.Types.{Key, Status}
use tool_gateway_agentgatewa.Kube.Objects.{Kind, OwnerKind, Operation}
use tool_gateway_agentgatewa.Kube.Client.{
  Env, Call, upsert, remove, patch, Sys, Act, pure, ◌>>=◌, check, query, command, emit_normal_event,
  emit_operation,
}
use tool_gateway_agentgatewa.Kube.Client.Writes.{
  writes, writes-upsert, writes-remove, writes-patch, writes-emit_normal_event,
  writes-emit_operation,
}

-- The client answers so in some state of the world.
abbrev pub Answered : (env : Env) {A : Type 0} → (env.World → A × env.World) → A → Type 0
Answered env q a = (w : env.World) × ((q w).0 ≡ a)

-- From every state, the action adds some writes to the log that fit its result.
pub record Performs (env : Env) {A : Type 0} (m : Act env A) (P : A → List Call → Type 0)
    : Type 0 where
  pub at :
      (s : Sys env) → (ws : List Call) × (writes (m s).1.log ≡ writes s.log ++ ws) × P (m s).0 ws

module _ {env : Env} {A : Type 0} where
  pub Performs-pure : {P : A → List Call → Type 0} (a : A) → P a [] → Performs env (pure a) P
  unfolding pure
  Performs-pure a p = record { at = λ s. ([], sym (append-nil _), p) }

  pub Performs-query : (f : env.World → A × env.World) → Performs env (query f) (λ a ws. ws ≡ [])
  unfolding query
  Performs-query f = record { at = λ s. ([], sym (append-nil _), refl) }

  pub Performs-upsert :
      (k : Kind) (key : Key) (f : env.World → A × env.World)
      → Performs env
          (command (upsert k key) f)
          (λ a ws. (ws ≡ upsert k key ∷ []) × Answered env f a)
  unfolding command
  Performs-upsert k key f = record {
    at = λ s. (upsert k key ∷ [], writes-upsert s.log k key, (refl, (s.world, refl)));
  }

  pub Performs-remove :
      (k : Kind) (key : Key) (f : env.World → A × env.World)
      → Performs env
          (command (remove k key) f)
          (λ a ws. (ws ≡ remove k key ∷ []) × Answered env f a)
  unfolding command
  Performs-remove k key f = record {
    at = λ s. (remove k key ∷ [], writes-remove s.log k key, (refl, (s.world, refl)));
  }

  pub Performs-patch :
      (k : OwnerKind) (key : Key) (base new : Status) (f : env.World → A × env.World)
      → Performs env
          (command (patch k key base new) f)
          (λ a ws. (ws ≡ patch k key base new ∷ []) × Answered env f a)
  unfolding command
  Performs-patch k key base new f = record {
    at = λ s.
        (patch k key base new ∷ [], writes-patch s.log k key base new, (refl, (s.world, refl)));
  }

  pub Performs-if :
      {P : A → List Call → Type 0} (b : Bool) {m n : Act env A}
      → (b ≡ true → Performs env m P)
      → (b ≡ false → Performs env n P)
      → Performs env (if b then m else n) P
  Performs-if true hm hn = hm refl
  Performs-if false hm hn = hn refl

  pub Performs-weaken :
      {m : Act env A} {P Q : A → List Call → Type 0}
      → Performs env m P
      → ((a : A) (ws : List Call) → P a ws → Q a ws)
      → Performs env m Q
  Performs-weaken h k = record { at = λ s. let (ws, e, p) = h.at s in (ws, e, k _ ws p) }

module _ {env : Env} where
  pub Performs-event :
      (k : OwnerKind) (key : Key) (reason note : String)
      → Performs env (emit_normal_event k key reason note) (λ a ws. ws ≡ [])
  Performs-event k key reason note = record {
    at = λ s. ([], writes-emit_normal_event s k key reason note ∙ sym (append-nil _), refl);
  }

  pub Performs-operation :
      (k : OwnerKind) (key : Key) (c u : String × String) (op : Operation)
      → Performs env (emit_operation k key c u op) (λ a ws. ws ≡ [])
  Performs-operation k key c u op = record {
    at = λ s. ([], writes-emit_operation s k key c u op ∙ sym (append-nil _), refl);
  }

module _ {env : Env} {A B : Type 0} where
  pub Performs-bind :
      {m : Act env A} {f : A → Act env B} {P : A → List Call → Type 0} {Q : B → List Call → Type 0}
      → Performs env m P
      → ((a : A) (ws : List Call) → P a ws → Performs env (f a) (λ b vs. Q b (ws ++ vs)))
      → Performs env (m >>= f) Q
  unfolding ◌>>=◌
  Performs-bind hm hf = record {
    at = λ s.
        let (ws, e, p) = hm.at s in
        let (vs, e', q) = (hf _ ws p).at _ in
        (ws ++ vs, e' ∙ ap (λ l. l ++ vs) e ∙ append_assoc _ ws vs, q);
  }

  pub Performs-check :
      {r : Result A} {handle : Error → Act env B} {go : A → Act env B} {Q : B → List Call → Type 0}
      → ((e : Error) → r ≡ err e → Performs env (handle e) Q)
      → ((a : A) → r ≡ ok a → Performs env (go a) Q)
      → Performs env (check r handle go) Q
  unfolding check
  Performs-check {r = ok a} he ha = ha a refl
  Performs-check {r = err e} he ha = he e refl

  -- The same, where what is written does not depend on the result.
  pub Performs-then :
      {m : Act env A} {f : A → Act env B} {c : List Call} {Q : B → List Call → Type 0}
      → Performs env m (λ a ws. ws ≡ c)
      → ((a : A) → Performs env (f a) (λ b vs. Q b (c ++ vs)))
      → Performs env (m >>= f) Q
  Performs-then {f} {Q} hm hf =
      Performs-bind hm
        λ a ws e. subst (λ c. Performs env (f a) (λ b vs. Q b (c ++ vs))) (sym e) (hf a)

  -- The same, with what the action says of its result.
  pub Performs-told :
      {m : Act env A} {f : A → Act env B} {c : List Call} {R : A → Type 0}
      {Q : B → List Call → Type 0}
      → Performs env m (λ a ws. (ws ≡ c) × R a)
      → ((a : A) → R a → Performs env (f a) (λ b vs. Q b (c ++ vs)))
      → Performs env (m >>= f) Q
  Performs-told {f} {Q} hm hf =
      Performs-bind hm
        λ a ws h. subst (λ c. Performs env (f a) (λ b vs. Q b (c ++ vs))) (sym h.0) (hf a h.1)

  -- A query gives what the client answers in some state of the world.
  pub Performs-ask :
      (q : env.World → A × env.World) {f : A → Act env B} {Q : B → List Call → Type 0}
      → ((a : A) (w : env.World) → (q w).0 ≡ a → Performs env (f a) Q)
      → Performs env (query q >>= f) Q
  unfolding ◌>>=◌ query
  Performs-ask q hf = record { at = λ s. (hf _ s.world refl).at _ }

  -- An action that writes nothing, and what it says of its result.
  pub Performs-read :
      {m : Act env A} {f : A → Act env B} {R : A → Type 0} {Q : B → List Call → Type 0}
      → Performs env m (λ a ws. (ws ≡ []) × R a)
      → ((a : A) → R a → Performs env (f a) Q)
      → Performs env (m >>= f) Q
  Performs-read {f} {Q} hm hf =
      Performs-bind hm
        λ a ws h. subst (λ c. Performs env (f a) (λ b vs. Q b (c ++ vs))) (sym h.0) (hf a h.1)
