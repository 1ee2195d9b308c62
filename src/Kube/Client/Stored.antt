-- ===== src/Kube/Client/Stored.antt =====
-- Objects that are in the cluster, and the rules for the calls that put them there.
use tool_gateway_agentgatewa.Prelude.{◌≡◌, refl, ◌∙◌, inl, inr, true, Option, none, some}
use tool_gateway_agentgatewa.Kube.Errors.{Error, is_not_found, Result, ok, err}
use tool_gateway_agentgatewa.Kube.Types.{Key, Status}
use tool_gateway_agentgatewa.Kube.Objects.{Kind, OwnerKind, Owner, Object, Operation}
use tool_gateway_agentgatewa.Kube.Client.{
  Env, upsert, remove, patch, Act, ◌>>=◌, check, query, command,
}
use tool_gateway_agentgatewa.Kube.Client.Effect.{IsOther, Store, Ends, Ends-command, Ends-bind}

-- `SetControllerReference` has made the owner the controller.
abbrev pub IsControlled : Env → Owner → Option Owner → Type 0
IsControlled env owner o =
    (before : Option Owner) × (env.set_controller_reference owner before ≡ ok o)

module _ {env : Env} (store : Store env) where
  -- There is an object of the kind and the key, and it fits.
  abbrev pub Stored : (k : Kind) → Key → (Object k → Type 0) → env.World → Type 0
  Stored k key Fits w = (o : Object k) × (store.look k key w ≡ some o) × Fits o

  abbrev pub SameBut : Kind → Key → env.World → env.World → Type 0
  SameBut k key w w' =
      (k' : Kind) (key' : Key)
      → IsOther k key k' key'
      → store.look k' key' w' ≡ store.look k' key' w

  -- What no call on the object takes away.
  abbrev pub IsKept : Kind → Key → (env.World → Type 0) → Type 0
  IsKept k key F = (w w' : env.World) → SameBut k key w w' → F w → F w'

  -- What depends on the objects that there are, and nothing else.
  abbrev pub IsOfObjects : (env.World → Type 0) → Type 0
  IsOfObjects F =
      (w w' : env.World)
      → ((k : Kind) (key : Key) → store.look k key w' ≡ store.look k key w)
      → F w
      → F w'

  pub IsKept-IsOfObjects :
      (k : Kind) (key : Key) {F : env.World → Type 0} → IsKept k key F → IsOfObjects F
  IsKept-IsOfObjects k key keeps w w' same f = keeps w w' (λ k' key' _. same k' key') f

  pub Stored-IsOfObjects :
      (k : Kind) (key : Key) (Fits : Object k → Type 0) → IsOfObjects (Stored k key Fits)
  Stored-IsOfObjects k key Fits w w' same (o, there, fits) = (o, same k key ∙ there, fits)

  pub absent-IsOfObjects : (k : Kind) (key : Key) → IsOfObjects (λ w. store.look k key w ≡ none)
  absent-IsOfObjects k key w w' same gone = same k key ∙ gone

  pub both-IsOfObjects :
      {F G : env.World → Type 0} → IsOfObjects F → IsOfObjects G → IsOfObjects (λ w. F w × G w)
  both-IsOfObjects hf hg w w' same (f, g) = (hf w w' same f, hg w w' same g)

  pub Stored-IsKept :
      (k k' : Kind) (key key' : Key) (Fits : Object k' → Type 0)
      → IsOther k key k' key'
      → IsKept k key (Stored k' key' Fits)
  Stored-IsKept k k' key key' Fits other w w' same (o, there, fits) =
      (o, same k' key' other ∙ there, fits)

  pub absent-IsKept :
      (k k' : Kind) (key key' : Key)
      → IsOther k key k' key'
      → IsKept k key (λ w. store.look k' key' w ≡ none)
  absent-IsKept k k' key key' other w w' same gone = same k' key' other ∙ gone

  pub both-IsKept :
      {k : Kind} {key : Key} {F G : env.World → Type 0}
      → IsKept k key F
      → IsKept k key G
      → IsKept k key (λ w. F w × G w)
  both-IsKept hf hg w w' same (f, g) = (hf w w' same f, hg w w' same g)

  -- The effect of a call that may fail: what held is kept, and a success gives more.
  abbrev pub Gains :
      {A : Type 0} → (env.World → Type 0) → (A → env.World → Type 0) → Result A → env.World → Type 0
  Gains F S (ok a) w = F w × S a w
  Gains F S (err e) w = F w

  pub Ends-upsert :
      {F : env.World → Type 0} (k : Kind) (key : Key) (blank : Object k)
      (mutate : Object k → Result (Object k)) (Fits : Object k → Type 0)
      → IsKept k key F
      → ((o o' : Object k) → mutate o ≡ ok o' → Fits o')
      → Ends env F
          (command (upsert k key) (env.create_or_patch k key blank mutate))
          (Gains F (λ op. Stored k key Fits))
  Ends-upsert {F} k key blank mutate Fits keeps fits = Ends-command _ _ λ w f. gains w f _ refl
    where
      kept : (w : env.World) → F w → F (env.create_or_patch k key blank mutate w).1
      kept w f = keeps w _ (λ k' key' other. store.stores_only k key blank mutate w k' key' other) f

      gains :
          (w : env.World)
          → F w
          → (r : Result Operation) → (env.create_or_patch k key blank mutate w).0 ≡ r
          → Gains F (λ op. Stored k key Fits) r (env.create_or_patch k key blank mutate w).1
      gains w f (ok op) h =
          let (o, made, there) = store.stores k key blank mutate w op h in
          (kept w f, (o, there, fits _ o made))
      gains w f (err e) h = kept w f

  -- A removal that succeeds, or that finds nothing, leaves nothing.
  abbrev pub Removes :
      (env.World → Type 0) → (env.World → Type 0) → Result (Unit {0}) → env.World → Type 0
  Removes F S (ok a) w = F w × S w
  Removes F S (err e) w = F w × ((is_not_found e ≡ true) → S w)

  pub Ends-patch :
      {F : env.World → Type 0} (o : OwnerKind) (key : Key) (base new : Status)
      → IsOfObjects F
      → Ends env F (command (patch o key base new) (env.patch_status o key base new)) (λ r w. F w)
  Ends-patch o key base new keeps =
      Ends-command _ _ λ w f. keeps w _ (λ k' key'. store.patches_none o key base new w k' key') f

  -- Going on behind a call that may fail.
  Ends-gained :
      {A B : Type 0} {F : env.World → Type 0} {S : A → env.World → Type 0}
      {Q : B → env.World → Type 0} (r : Result A) {handle : Error → Act env B} {go : A → Act env B}
      → ((e : Error) → Ends env F (handle e) Q)
      → ((a : A) → Ends env (λ w. F w × S a w) (go a) Q)
      → Ends env (Gains F S r) (check r handle go) Q
  unfolding check
  Ends-gained (ok a) he ha = ha a
  Ends-gained (err e) he ha = he e

  pub Ends-gains :
      {A B : Type 0} {F : env.World → Type 0} {S : A → env.World → Type 0}
      {Q : B → env.World → Type 0} {m : Act env (Result A)} {handle : Error → Act env B}
      {go : A → Act env B}
      → Ends env F m (Gains F S)
      → ((e : Error) → Ends env F (handle e) Q)
      → ((a : A) → Ends env (λ w. F w × S a w) (go a) Q)
      → Ends env F (m >>= λ r. check r handle go) Q
  Ends-gains hm he ha = Ends-bind hm λ r. Ends-gained r he ha

  pub Ends-remove :
      {F : env.World → Type 0} (k : Kind) (key : Key)
      → IsKept k key F
      → Ends env F
          (command (remove k key) (env.delete k key))
          (Removes F (λ w. store.look k key w ≡ none))
  Ends-remove {F} k key keeps = Ends-command _ _ λ w f. removes w f _ refl
    where
      kept : (w : env.World) → F w → F (env.delete k key w).1
      kept w f = keeps w _ (λ k' key' other. store.deletes_only k key w k' key' other) f

      removes :
          (w : env.World)
          → F w
          → (r : Result (Unit {0})) → (env.delete k key w).0 ≡ r
          → Removes F (λ w. store.look k key w ≡ none) r (env.delete k key w).1
      removes w f (ok a) h = (kept w f, store.deletes k key w _ h (inl refl))
      removes w f (err e) h = (kept w f, λ gone. store.deletes k key w _ h (inr (e, refl, gone)))

  -- Going on behind a removal.
  pub Ends-removed :
      {B : Type 0} {F S : env.World → Type 0} {Q : B → env.World → Type 0}
      {m : Act env (Result (Unit {0}))} {handle : Error → Act env B} {go : Unit {0} → Act env B}
      → Ends env F m (Removes F S)
      → ((e : Error) → Ends env (λ w. F w × ((is_not_found e ≡ true) → S w)) (handle e) Q)
      → ((a : Unit {0}) → Ends env (λ w. F w × S w) (go a) Q)
      → Ends env F (m >>= λ r. check r handle go) Q
  unfolding check
  Ends-removed {F} {S} {Q} {handle} {go} hm he ha = Ends-bind hm going
    where
      going : (r : Result (Unit {0})) → Ends env (Removes F S r) (check r handle go) Q
      going (ok a) = ha a
      going (err e) = he e

  -- Going on behind a reading, with what it gave in some state of the world.
  pub Ends-ask :
      {A B : Type 0} {F : env.World → Type 0} {Q : B → env.World → Type 0}
      (q : env.World → A × env.World) {f : A → Act env B}
      → ((w : env.World) (k' : Kind) (key' : Key)
          → store.look k' key' (q w).1 ≡ store.look k' key' w)
      → IsOfObjects F
      → ((a : A) (v : env.World) → (q v).0 ≡ a → Ends env F (f a) Q)
      → Ends env F (query q >>= f) Q
  unfolding ◌>>=◌ query
  Ends-ask q same keeps hf = record {
    at = λ s p. (hf _ s.world refl).at _ (keeps s.world _ (λ k' key'. same s.world k' key') p);
  }
