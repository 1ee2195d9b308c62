-- ===== src/Kube/Client/Passed.antt =====
-- A call that writes and whose answer is passed on: `if err != nil { return fmt.Errorf(text, err) }`.
use tool_gateway_agentgatewa.Prelude.{String, ◌≡◌, refl, ◌∙◌, true, false, List, [], append-nil}
use tool_gateway_agentgatewa.Kube.Errors.{Error, wrapped, is_not_found, Result, ok, err}
use tool_gateway_agentgatewa.Kube.Types.{Key}
use tool_gateway_agentgatewa.Kube.Objects.{OwnerKind, Operation}
use tool_gateway_agentgatewa.Kube.Client.{Env, Call, Act, pure, ◌>>=◌, check, emit_operation}
use tool_gateway_agentgatewa.Kube.Client.Logic.{
  Answered, Performs, Performs-pure, Performs-weaken, Performs-operation, Performs-then,
  Performs-told, Performs-check,
}

-- The result is a success only where the client answers with one, and else the error of the client
-- behind a text.
pub data IsPassed (env : Env) {A : Type 0} (q : env.World → Result A × env.World) (text : String)
    (r : Result (Unit {0})) : Type 0 where
  made : (a : A) → Answered env q (ok a) → r ≡ ok tt → IsPassed env q text r
  refused :
      (e : Error) → Answered env q (err e) → r ≡ err (wrapped text e "") → IsPassed env q text r

-- The same for a removal, where an object that is not there is no error.
pub data IsRemoved (env : Env) (q : env.World → Result (Unit {0}) × env.World) (text : String)
    (r : Result (Unit {0})) : Type 0 where
  removed : Answered env q (ok tt) → r ≡ ok tt → IsRemoved env q text r
  absent :
      (e : Error)
      → Answered env q (err e)
      → is_not_found e ≡ true
      → r ≡ ok tt
      → IsRemoved env q text r
  unremoved :
      (e : Error)
      → Answered env q (err e)
      → is_not_found e ≡ false
      → r ≡ err (wrapped text e "")
      → IsRemoved env q text r

module _ {env : Env} where
  pub Performs-passed :
      {A : Type 0} {m : Act env (Result A)} {q : env.World → Result A × env.World} {c : List Call}
      {text : String} {go : A → Act env (Result (Unit {0}))}
      → Performs env m (λ a ws. (ws ≡ c) × Answered env q a)
      → ((a : A) → Performs env (go a) (λ r ws. (ws ≡ []) × (r ≡ ok tt)))
      → Performs env
          (m >>= λ a. check a (λ e. pure (err (wrapped text e ""))) go)
          (λ r ws. (ws ≡ c) × IsPassed env q text r)
  Performs-passed hm hgo = Performs-told hm λ a told.
      Performs-check
        (λ e same. Performs-pure _ (append-nil _, refused e (told.0, told.1 ∙ same) refl))
        λ x same.
          Performs-weaken (hgo x)
            (λ r ws h. (rw h.0 (append-nil _), made x (told.0, told.1 ∙ same) h.1))

  -- The event of the operation, and the success.
  pub Performs-noted :
      (k : OwnerKind) (key : Key) (c u : String × String) (op : Operation)
      → Performs env
          (emit_operation k key c u op >>= λ _. pure (ok tt))
          (λ r ws. (ws ≡ []) × (r ≡ ok tt))
  Performs-noted k key c u op =
      Performs-then (Performs-operation k key c u op) (λ _. Performs-pure _ (refl, refl))

  pub Performs-done : Performs env (pure (ok tt)) (λ r ws. (ws ≡ []) × (r ≡ ok tt))
  Performs-done = Performs-pure _ (refl, refl)
