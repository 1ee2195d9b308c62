-- ===== src/Otel/Extracted.antt =====
-- What the extraction of the OTEL variables keeps and what it reads.
use tool_gateway_agentgatewa.Prelude.{
  String, ◌≡◌, refl, sym, ◌∙◌, ap, Bool, true, false, any, ◌&&◌, List, [], ◌∷◌, ◌++◌, Option, none,
  some, append_assoc, append-nil, str_eq, eq_iff, Bool-cases, if-true, inl, inr, if◌then◌else◌,
  arith,
}
use tool_gateway_agentgatewa.Kube.Types.{EnvVar}
use tool_gateway_agentgatewa.Kube.Results.{str_eq-false, not-true, and-true}
use tool_gateway_agentgatewa.Otel.Env.{
  OtelConfig, empty_config, Scope, Setting, otel_name, assign, Case, cases, switch, extract_one,
  extract_loop, extract_otel_env_vars,
}

-- The variables that no case of the `switch` takes, in their order.
abbrev pub others_of : Option Case → EnvVar → List EnvVar → List EnvVar
others_of none v rest = v ∷ rest
others_of (some c) v rest = rest

unfoldable pub other_vars : List EnvVar → List EnvVar
other_vars [] = []
other_vars (v ∷ vs) = others_of (switch cases v.name) v (other_vars vs)

extract_one-others :
    (o : Option Case) (v : EnvVar) (vs : List EnvVar) (c : OtelConfig) (kept : List EnvVar)
    → (extract_one o v (c, kept)).1 ++ other_vars vs ≡ kept ++ others_of o v (other_vars vs)
unfolding extract_one
extract_one-others none v vs c kept = append_assoc kept (v ∷ []) (other_vars vs)
extract_one-others (some (s, t)) v vs c kept = refl

extract_loop-others :
    (vs : List EnvVar) (acc : OtelConfig × List EnvVar)
    → (extract_loop vs acc).1 ≡ acc.1 ++ other_vars vs
unfolding extract_loop other_vars
extract_loop-others [] (c, kept) = sym (append-nil kept)
extract_loop-others (v ∷ vs) (c, kept) =
    extract_loop-others vs (extract_one (switch cases v.name) v (c, kept))
    ∙ extract_one-others (switch cases v.name) v vs c kept

-- The field of a case.
abbrev pub setting : Scope → Setting → OtelConfig → String
setting Scope.general Setting.endpoint c = c.endpoint
setting Scope.general Setting.protocol c = c.protocol
setting Scope.general Setting.headers c = c.headers
setting Scope.traces Setting.endpoint c = c.traces_endpoint
setting Scope.traces Setting.protocol c = c.traces_protocol
setting Scope.traces Setting.headers c = c.traces_headers
setting Scope.metrics Setting.endpoint c = c.metrics_endpoint
setting Scope.metrics Setting.protocol c = c.metrics_protocol
setting Scope.metrics Setting.headers c = c.metrics_headers
setting Scope.logs Setting.endpoint c = c.logs_endpoint
setting Scope.logs Setting.protocol c = c.logs_protocol
setting Scope.logs Setting.headers c = c.logs_headers

-- The value of the last variable of a name, or what was there before.
unfoldable pub last_value : String → List EnvVar → String → String
last_value name [] before = before
last_value name (v ∷ vs) before =
    last_value name vs (if str_eq v.name name then v.value else before)

abbrev same_scope : Scope → Scope → Bool
same_scope Scope.general Scope.general = true
same_scope Scope.traces Scope.traces = true
same_scope Scope.metrics Scope.metrics = true
same_scope Scope.logs Scope.logs = true
same_scope _ _ = false

abbrev same_setting : Setting → Setting → Bool
same_setting Setting.endpoint Setting.endpoint = true
same_setting Setting.protocol Setting.protocol = true
same_setting Setting.headers Setting.headers = true
same_setting _ _ = false

setting-assign :
    (s s' : Scope) (t t' : Setting) (v : String) (c : OtelConfig)
    → setting s t (assign s' t' v c)
      ≡ (if same_scope s s' && same_setting t t' then v else setting s t c)
unfolding assign
setting-assign Scope.general s' t t' v c = ground arith
setting-assign Scope.traces s' t t' v c = ground arith
setting-assign Scope.metrics s' t t' v c = ground arith
setting-assign Scope.logs s' t t' v c = ground arith

-- Whether the case that was found is the given one.
abbrev is_case : Option Case → Scope → Setting → Bool
is_case none s t = false
is_case (some (s', t')) s t = same_scope s s' && same_setting t t'

same_case_refl : (s : Scope) (t : Setting) → is_case (some (s, t)) s t ≡ true
same_case_refl s t = ground arith

same_scope-path : (s s' : Scope) → same_scope s s' ≡ true → s' ≡ s
same_scope-path s s' h = ground arith

same_setting-path : (t t' : Setting) → same_setting t t' ≡ true → t' ≡ t
same_setting-path t t' h = ground arith

switch-otel_name : (s : Scope) (t : Setting) → switch cases (otel_name s t) ≡ some (s, t)
unfolding switch otel_name
switch-otel_name Scope.general Setting.endpoint = refl
switch-otel_name Scope.general Setting.protocol = refl
switch-otel_name Scope.general Setting.headers = refl
switch-otel_name Scope.traces Setting.endpoint = refl
switch-otel_name Scope.traces Setting.protocol = refl
switch-otel_name Scope.traces Setting.headers = refl
switch-otel_name Scope.metrics Setting.endpoint = refl
switch-otel_name Scope.metrics Setting.protocol = refl
switch-otel_name Scope.metrics Setting.headers = refl
switch-otel_name Scope.logs Setting.endpoint = refl
switch-otel_name Scope.logs Setting.protocol = refl
switch-otel_name Scope.logs Setting.headers = refl

switch-name :
    (cs : List Case) (name : String) (s : Scope) (t : Setting)
    → switch cs name ≡ some (s, t)
    → name ≡ otel_name s t
unfolding switch
switch-name [] name s t h = cc
switch-name ((s', t') ∷ cs) name s t h = elim (if-true (str_eq name (otel_name s' t')) h) [
  | inl (same, e) ↦ let p = (eq_iff name (otel_name s' t')).0 same in cc
  | inr (_, e) ↦ switch-name cs name s t e
]

found-name :
    (name : String) (s : Scope) (t : Setting) (o : Option Case)
    → switch cases name ≡ o
    → is_case o s t ≡ true
    → name ≡ otel_name s t
found-name name s t none h m = cc
found-name name s t (some (s', t')) h m =
    let found = switch-name cases name s' t' h in
    let (same_s, same_t) = and-true (same_scope s s') (same_setting t t') m in
    found
    ∙ ap (λ u. otel_name u t') (same_scope-path s s' same_s)
    ∙ ap (otel_name s) (same_setting-path t t' same_t)

is_case-switch :
    (name : String) (s : Scope) (t : Setting)
    → str_eq name (otel_name s t) ≡ is_case (switch cases name) s t
is_case-switch name s t = elim (Bool-cases (str_eq name (otel_name s t))) [
  | inl e ↦
      e
      ∙ sym (
          ap (λ n. is_case (switch cases n) s t) ((eq_iff name (otel_name s t)).0 e)
          ∙ ap (λ o. is_case o s t) (switch-otel_name s t)
          ∙ same_case_refl s t)
  | inr e ↦
      e ∙ sym (not-true (λ m. str_eq-false name (otel_name s t) e (found-name name s t _ refl m)))
]

extract_one-setting :
    (s : Scope) (t : Setting) (o : Option Case) (v : EnvVar) (acc : OtelConfig × List EnvVar)
    → setting s t (extract_one o v acc).0 ≡ (if is_case o s t then v.value else setting s t acc.0)
unfolding extract_one
extract_one-setting s t none v (c, kept) = refl
extract_one-setting s t (some (s', t')) v (c, kept) = setting-assign s s' t t' v.value c

extract_loop-setting :
    (s : Scope) (t : Setting) (vs : List EnvVar) (acc : OtelConfig × List EnvVar)
    → setting s t (extract_loop vs acc).0 ≡ last_value (otel_name s t) vs (setting s t acc.0)
unfolding extract_loop last_value
extract_loop-setting s t [] acc = refl
extract_loop-setting s t (v ∷ vs) acc =
    extract_loop-setting s t vs (extract_one (switch cases v.name) v acc)
    ∙ ap (last_value (otel_name s t) vs) (
        extract_one-setting s t (switch cases v.name) v acc
        ∙ ap (λ b. if b then v.value else setting s t acc.0) (sym (is_case-switch v.name s t)))

-- Whether a name is one of the twelve.
abbrev pub is_otel_name : String → Bool
is_otel_name name = any (λ (s, t). str_eq name (otel_name s t)) cases

unfoldable pub plain_vars : List EnvVar → List EnvVar
plain_vars [] = []
plain_vars (v ∷ vs) = let rest = plain_vars vs in if is_otel_name v.name then rest else v ∷ rest

switch-any :
    (cs : List Case) (v : EnvVar) (rest : List EnvVar)
    → others_of (switch cs v.name) v rest
      ≡ (if any (λ (s, t). str_eq v.name (otel_name s t)) cs then rest else v ∷ rest)
unfolding switch
switch-any [] v rest = refl
switch-any ((s, t) ∷ cs) v rest = ground (arith, switch-any cs v rest)

plain_vars-other_vars : (vs : List EnvVar) → other_vars vs ≡ plain_vars vs
unfolding other_vars plain_vars
plain_vars-other_vars [] = refl
plain_vars-other_vars (v ∷ vs) =
    switch-any cases v (other_vars vs)
    ∙ ap (λ l. if is_otel_name v.name then l else v ∷ l) (plain_vars-other_vars vs)

setting-empty_config : (s : Scope) (t : Setting) → setting s t empty_config ≡ ""
setting-empty_config s t = ground arith

-- The extraction leaves the variables with none of the twelve OTEL names, in their order, and each
-- setting is the value of the last variable of its name, empty where there is none.
pub extract_otel_env_vars_lem :
    (vs : List EnvVar)
    → ((extract_otel_env_vars vs).1 ≡ plain_vars vs)
      × ((s : Scope) (t : Setting)
          → setting s t (extract_otel_env_vars vs).0 ≡ last_value (otel_name s t) vs "")
unfolding extract_otel_env_vars
extract_otel_env_vars_lem vs = (
  extract_loop-others vs (empty_config, []) ∙ plain_vars-other_vars vs,
  λ s t.
      extract_loop-setting s t vs (empty_config, [])
      ∙ ap (last_value (otel_name s t) vs) (setting-empty_config s t),
)
