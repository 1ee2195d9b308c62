-- ===== src/Kube/Client/Writes.antt =====
-- The log without its events: the calls that change the cluster.
use tool_gateway_agentgatewa.Prelude.{
  String, ◌≡◌, refl, List, [], ◌∷◌, ◌++◌, append-nil, inl, inr, Bool-cases,
}
use tool_gateway_agentgatewa.Kube.Types.{Key}
use tool_gateway_agentgatewa.Kube.Objects.{OwnerKind, Operation, created, updated, unchanged}
use tool_gateway_agentgatewa.Kube.Client.{
  Env, Call, upsert, remove, patch, event, Sys, pure, emit_normal_event, emit_operation,
}

pub writes : List Call → List Call
writes [] = []
writes (event k key reason note ∷ log) = writes log
writes (upsert k key ∷ log) = upsert k key ∷ writes log
writes (remove k key ∷ log) = remove k key ∷ writes log
writes (patch k key base new ∷ log) = patch k key base new ∷ writes log

pub writes-append : (a b : List Call) → writes (a ++ b) ≡ writes a ++ writes b
unfolding writes
writes-append [] b = refl
writes-append (event k key reason note ∷ a) b = writes-append a b
writes-append (upsert k key ∷ a) b = rw (writes-append a b)
writes-append (remove k key ∷ a) b = rw (writes-append a b)
writes-append (patch k key base new ∷ a) b = rw (writes-append a b)

pub writes-upsert :
    (log : List Call) (k : _) (key : Key)
    → writes (log ++ upsert k key ∷ []) ≡ writes log ++ upsert k key ∷ []
writes-upsert log k key = rw writes-append (unfold writes in refl)

pub writes-remove :
    (log : List Call) (k : _) (key : Key)
    → writes (log ++ remove k key ∷ []) ≡ writes log ++ remove k key ∷ []
writes-remove log k key = rw writes-append (unfold writes in refl)

pub writes-patch :
    (log : List Call) (k : OwnerKind) (key : Key) (base new : _)
    → writes (log ++ patch k key base new ∷ []) ≡ writes log ++ patch k key base new ∷ []
writes-patch log k key base new = rw writes-append (unfold writes in refl)

pub writes-event :
    (log : List Call) (k : OwnerKind) (key : Key) (reason note : String)
    → writes (log ++ event k key reason note ∷ []) ≡ writes log
writes-event log k key reason note = rw writes-append (unfold writes in append-nil _)

module _ {env : Env} (s : Sys env) where
  pub writes-emit_normal_event :
      (k : OwnerKind) (key : Key) (reason note : String)
      → writes (emit_normal_event {env = env} k key reason note s).1.log ≡ writes s.log
  unfolding emit_normal_event
  writes-emit_normal_event k key reason note = elim (Bool-cases env.has_recorder) [
    | inl e ↦ rw e (writes-event s.log k key reason note)
    | inr e ↦ rw e refl
  ]

  pub writes-emit_operation :
      (k : OwnerKind) (key : Key) (on_create on_update : String × String) (op : Operation)
      → writes (emit_operation {env = env} k key on_create on_update op s).1.log ≡ writes s.log
  unfolding emit_operation pure
  writes-emit_operation k key (reason, note) u created = writes-emit_normal_event k key reason note
  writes-emit_operation k key c (reason, note) updated = writes-emit_normal_event k key reason note
  writes-emit_operation k key c u unchanged = refl
