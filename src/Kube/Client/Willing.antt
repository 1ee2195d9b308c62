-- ===== src/Kube/Client/Willing.antt =====
-- A client whose calls that write succeed, and what follows for an action.
use mathlib.Core.Path.{subst}
use tool_gateway_agentgatewa.Prelude.{
  ◌≡◌, ◌≢◌, refl, sym, ◌∙◌, true, false, ◌⊎◌, inl, inr, List, [], ◌∷◌, ◌++◌,
}
use tool_gateway_agentgatewa.Kube.Errors.{Error, is_not_found, Result, ok, err}
use tool_gateway_agentgatewa.Kube.Results.{true_not_false}
use tool_gateway_agentgatewa.Kube.Types.{Key, Status}
use tool_gateway_agentgatewa.Kube.Objects.{Kind, OwnerKind, Object}
use tool_gateway_agentgatewa.Kube.Client.{Env, Call, upsert, remove, patch, Act, ◌>>=◌, command}
use tool_gateway_agentgatewa.Kube.Client.Writes.{writes-upsert, writes-remove, writes-patch}
use tool_gateway_agentgatewa.Kube.Client.Effect.{or_blank, Store}
use tool_gateway_agentgatewa.Kube.Client.Logic.{Performs, Performs-bind}

abbrev pub IsOk : {A : Type 0} → Result A → Type 0
IsOk {A} r = (a : A) × (r ≡ ok a)

-- A removal that succeeds, or that finds nothing.
abbrev pub IsGone : Result (Unit {0}) → Type 0
IsGone r = IsOk r ⊎ ((e : Error) × (r ≡ err e) × (is_not_found e ≡ true))

-- No conflict, no refusal, no failure of the API server: `CreateOrPatch` returns no other error than
-- that of the mutation of the object that is there, or of the new one; `Delete` none but that there
-- is no object.
pub record IsWilling (env : Env) (store : Store env) : Type 0 where
  pub creates :
      (k : Kind) (key : Key) (blank : Object k) (mutate : Object k → Result (Object k))
      (w : env.World)
      → IsOk (mutate (or_blank (store.look k key w) blank))
      → IsOk (env.create_or_patch k key blank mutate w).0
  pub deletes : (k : Kind) (key : Key) (w : env.World) → IsGone (env.delete k key w).0
  pub patches :
      (k : OwnerKind) (key : Key) (base new : Status) (w : env.World)
      → IsOk (env.patch_status k key base new w).0

module _ {env : Env} (store : Store env) where
  -- In every state of the cluster the mutation accepts the object of the key, or else the new one:
  -- nobody else controls that object.
  abbrev pub Accepts : (k : Kind) → Key → Object k → (Object k → Result (Object k)) → Type 0
  Accepts k key blank mutate = (w : env.World) → IsOk (mutate (or_blank (store.look k key w) blank))

module _ {env : Env} {store : Store env} (willing : IsWilling env store) where
  pub Performs-creates :
      (k : Kind) (key : Key) (blank : Object k) (mutate : Object k → Result (Object k))
      → Accepts store k key blank mutate
      → Performs env
          (command (upsert k key) (env.create_or_patch k key blank mutate))
          (λ r ws. (ws ≡ upsert k key ∷ []) × IsOk r)
  unfolding command
  Performs-creates k key blank mutate accepts = record {
    at = λ s. (
      upsert k key ∷ [],
      writes-upsert s.log k key,
      (refl, willing.creates k key blank mutate s.world (accepts s.world)),
    );
  }

  pub Performs-deletes :
      (k : Kind) (key : Key)
      → Performs env
          (command (remove k key) (env.delete k key))
          (λ r ws. (ws ≡ remove k key ∷ []) × IsGone r)
  unfolding command
  Performs-deletes k key = record {
    at = λ s. (remove k key ∷ [], writes-remove s.log k key, (refl, willing.deletes k key s.world));
  }

  pub Performs-patches :
      (k : OwnerKind) (key : Key) (base new : Status)
      → Performs env
          (command (patch k key base new) (env.patch_status k key base new))
          (λ r ws. (ws ≡ patch k key base new ∷ []) × IsOk r)
  unfolding command
  Performs-patches k key base new = record {
    at = λ s. (
      patch k key base new ∷ [],
      writes-patch s.log k key base new,
      (refl, willing.patches k key base new s.world),
    );
  }

pub ok_not_err : {A : Type 0} {a : A} {e : Error} → ok a ≢ err e
ok_not_err h = cc

-- An action that succeeds is followed by what is done with its value.
pub Performs-succeeds :
    {env : Env} {A B : Type 0} {m : Act env (Result A)} {f : Result A → Act env B} {c : List Call}
    {Q : B → List Call → Type 0}
    → Performs env m (λ r ws. (ws ≡ c) × IsOk r)
    → ((r : Result A) → IsOk r → Performs env (f r) (λ b vs. Q b (c ++ vs)))
    → Performs env (m >>= f) Q
Performs-succeeds {env} {f} {c} {Q} hm hf =
    Performs-bind hm
      λ r ws h. subst (λ c. Performs env (f r) (λ b vs. Q b (c ++ vs))) (sym h.0) (hf r h.1)

-- The error branch behind a success.
pub never :
    {env : Env} {A B : Type 0} {m : Act env B} {Q : B → List Call → Type 0} {r : Result A}
    {e : Error}
    → IsOk r
    → r ≡ err e
    → Performs env m Q
never (a, same) bad = elim (ok_not_err (sym same ∙ bad)) [ ]

-- Behind a removal: an error says that there is no object.
pub gone-not_found :
    {r : Result (Unit {0})} {e : Error} → IsGone r → r ≡ err e → is_not_found e ≡ true
gone-not_found (inl (a, same)) bad = elim (ok_not_err (sym same ∙ bad)) [ ]
gone-not_found (inr (e', same, gone)) bad = cc

-- Its branch for an error that there is an object.
pub never_kept :
    {env : Env} {B : Type 0} {m : Act env B} {Q : B → List Call → Type 0} {r : Result (Unit {0})}
    {e : Error}
    → IsGone r
    → r ≡ err e
    → is_not_found e ≡ false
    → Performs env m Q
never_kept gone bad kept = elim (true_not_false (sym (gone-not_found gone bad) ∙ kept)) [ ]
