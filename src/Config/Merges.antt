-- ===== src/Config/Merges.antt =====
-- What a merge of overrides leaves in each field, and when a preset is valid.
use magna.Base.{
  ◌≡◌, ◌≢◌, ◌⊎◌, ◌↔◌, refl, sym, ap, ◌∙◌, ◌&&◌, if◌then◌else◌, List, [], ◌∷◌, ◌++◌, append_assoc,
  append-nil, Option, none, some, All, Memᴰ, Bytes, inl, inr, subst,
}
use magna.Config.{
  Preset, PresetOverride, put, append_taken, apply_override, merge, ResolveError, no_pg_schemas,
  no_jwt_config, Validated, valid, invalid, is_none, is_empty_list, missing, validate,
}

abbrev pub reported : Validated → List ResolveError
reported valid = []
reported (invalid errors) = errors

-- `validate` of the fields that it reads.
abbrev judge : List Bytes → Bytes → Option Bytes → Validated
judge schemas secret url =
    let errors =
      (if is_empty_list schemas then no_pg_schemas ∷ [] else [])
      ++ (if is_empty_list secret && is_none url then no_jwt_config ∷ [] else []) in
    if is_empty_list errors then valid else invalid errors

abbrev IsJudged : List Bytes → Bytes → Option Bytes → Validated → Type 0
IsJudged schemas secret url result =
    ((result ≡ valid) ↔ ((schemas ≢ []) × ((secret ≢ []) ⊎ (url ≢ none))))
    × (Memᴰ no_pg_schemas (reported result) ↔ (schemas ≡ []))
    × (Memᴰ no_jwt_config (reported result) ↔ ((secret ≡ []) × (url ≡ none)))

mem_single : {a b : ResolveError} → Memᴰ a (b ∷ []) → a ≡ b
mem_single (Memᴰ.head e) = e
mem_single (Memᴰ.tail m) = elim m [ ]

judge-IsJudged :
    (schemas : List Bytes) (secret : Bytes) (url : Option Bytes)
    → IsJudged schemas secret url (judge schemas secret url)
judge-IsJudged [] [] none = (
  (λ e. cc, λ h. absurd (h.0 refl)),
  (λ m. refl, λ e. Memᴰ.head refl),
  (λ m. (refl, refl), λ e. Memᴰ.tail (Memᴰ.head refl)),
)
judge-IsJudged [] [] (some u) = (
  (λ e. cc, λ h. absurd (h.0 refl)),
  (λ m. refl, λ e. Memᴰ.head refl),
  (λ m. cc (mem_single m), λ e. cc (e.1)),
)
judge-IsJudged [] (c ∷ cs) url = (
  (λ e. cc, λ h. absurd (h.0 refl)),
  (λ m. refl, λ e. Memᴰ.head refl),
  (λ m. cc (mem_single m), λ e. cc (e.0)),
)
judge-IsJudged (s ∷ ss) [] none = (
  (λ e. cc, λ h. elim h.1 [ inl k ↦ absurd (k refl) | inr k ↦ absurd (k refl) ]),
  (λ m. cc (mem_single m), λ e. cc),
  (λ m. (refl, refl), λ e. Memᴰ.head refl),
)
judge-IsJudged (s ∷ ss) [] (some u) = (
  (λ e. (λ p. cc, inr (λ p. cc)), λ h. refl),
  (λ m. elim m [ ], λ e. cc),
  (λ m. elim m [ ], λ e. cc (e.1)),
)
judge-IsJudged (s ∷ ss) (c ∷ cs) url = (
  (λ e. (λ p. cc, inl (λ p. cc)), λ h. refl),
  (λ m. elim m [ ], λ e. cc),
  (λ m. elim m [ ], λ e. cc (e.0)),
)

module _ {Plugin : Type 0} where
  -- The field has the value of the last override that sets it, or else that of the base.
  pub data IsLatest {A : Type 0} (set : PresetOverride Plugin → Option A) (base result : A)
      (os : List (PresetOverride Plugin)) : Type 0 where
    kept : result ≡ base → All (λ o. set o ≡ none) os → IsLatest set base result os
    latest :
        (before after : List (PresetOverride Plugin)) (o : PresetOverride Plugin)
        → os ≡ before ++ o ∷ after
        → set o ≡ some result
        → All (λ p. set p ≡ none) after
        → IsLatest set base result os

  IsLatest-cons :
      {A : Type 0} (set : PresetOverride Plugin → Option A) (base result : A)
      (o : PresetOverride Plugin) (os : List (PresetOverride Plugin))
      → IsLatest set (put (set o) base) result os
      → IsLatest set base result (o ∷ os)
  IsLatest-cons {A} set base result o os (latest before after p e s k) =
      latest (o ∷ before) after p (ap (λ t. o ∷ t) e) s k
  IsLatest-cons {A} set base result o os (kept e k) = by_set (set o) refl
    where
      by_set : (value : Option A) → set o ≡ value → IsLatest set base result (o ∷ os)
      by_set none s = kept (e ∙ ap (λ v. put v base) s) (s, k)
      by_set (some v) s = latest [] os o refl (s ∙ ap some (sym (e ∙ ap (λ w. put w base) s))) k

  merge-IsLatest :
      {A : Type 0} (set : PresetOverride Plugin → Option A) (get : Preset Plugin → A)
      → ((o : PresetOverride Plugin) (base : Preset Plugin)
          → get (apply_override o base) ≡ put (set o) (get base))
      → (base : Preset Plugin) (os : List (PresetOverride Plugin))
      → IsLatest set (get base) (get (merge base os).0) os
  unfolding merge
  merge-IsLatest set get puts base [] = kept refl tt
  merge-IsLatest set get puts base (o ∷ os) =
      IsLatest-cons set (get base) (get (merge (apply_override o base) os).0) o os (
        subst (λ v. IsLatest set v (get (merge (apply_override o base) os).0) os) (puts o base)
          (merge-IsLatest set get puts (apply_override o base) os))

  -- The plugins of all overrides, in their order.
  abbrev pub all_plugins : List (PresetOverride Plugin) → List Plugin
  all_plugins [] = []
  all_plugins (o ∷ os) = append_taken o.plugins [] ++ all_plugins os

  merge-plugins :
      (base : Preset Plugin) (os : List (PresetOverride Plugin))
      → (merge base os).0.plugins ≡ base.plugins ++ all_plugins os
  unfolding merge apply_override
  merge-plugins base [] = sym (append-nil base.plugins)
  merge-plugins base (o ∷ os) = merge-plugins (apply_override o base) os ∙ by_plugins o.plugins
    where
      by_plugins :
          (taken : Option (List Plugin))
          → append_taken taken base.plugins ++ all_plugins os
            ≡ base.plugins ++ (append_taken taken [] ++ all_plugins os)
      by_plugins none = refl
      by_plugins (some ps) = append_assoc base.plugins ps (all_plugins os)

  -- What a merge promises of every field of the preset.
  pub record IsMerged (base : Preset Plugin) (os : List (PresetOverride Plugin))
      (result : Preset Plugin) : Type 0 where
    pub pg_schemas : IsLatest (λ o. o.pg_schemas) base.pg_schemas result.pg_schemas os
    pub exposure : IsLatest (λ o. o.exposure) base.exposure result.exposure os
    pub default_role : IsLatest (λ o. o.default_role) base.default_role result.default_role os
    pub jwt_secret : IsLatest (λ o. o.jwt_secret) base.jwt.secret result.jwt.secret os
    pub jwks_url : IsLatest (λ o. o.jwks_url) base.jwt.jwks_url result.jwt.jwks_url os
    pub pool : IsLatest (λ o. o.pool) base.pool result.pool os
    pub schema : IsLatest (λ o. o.schema) base.schema result.schema os
    pub enable_subscriptions :
        IsLatest
          (λ o. o.enable_subscriptions)
          base.enable_subscriptions
          result.enable_subscriptions
          os
    pub trusted_documents_only :
        IsLatest
          (λ o. o.trusted_documents_only)
          base.trusted_documents_only
          result.trusted_documents_only
          os
    pub introspection_cache_ttl :
        IsLatest
          (λ o. o.introspection_cache_ttl)
          base.introspection_cache_ttl
          result.introspection_cache_ttl
          os
    pub plugins : result.plugins ≡ base.plugins ++ all_plugins os

  -- A merge leaves in each field the value of the last override that sets it, or else that of the
  -- base, and behind the plugins of the base those of all overrides in their order.
  pub merge-IsMerged :
      (base : Preset Plugin) (os : List (PresetOverride Plugin))
      → IsMerged base os (merge base os).0
  unfolding apply_override
  merge-IsMerged base os = record {
    pg_schemas = merge-IsLatest (λ o. o.pg_schemas) (λ p. p.pg_schemas) (λ o p. refl) base os;
    exposure = merge-IsLatest (λ o. o.exposure) (λ p. p.exposure) (λ o p. refl) base os;
    default_role = merge-IsLatest (λ o. o.default_role) (λ p. p.default_role) (λ o p. refl) base os;
    jwt_secret = merge-IsLatest (λ o. o.jwt_secret) (λ p. p.jwt.secret) (λ o p. refl) base os;
    jwks_url = merge-IsLatest (λ o. o.jwks_url) (λ p. p.jwt.jwks_url) (λ o p. refl) base os;
    pool = merge-IsLatest (λ o. o.pool) (λ p. p.pool) (λ o p. refl) base os;
    schema = merge-IsLatest (λ o. o.schema) (λ p. p.schema) (λ o p. refl) base os;
    enable_subscriptions =
        merge-IsLatest (λ o. o.enable_subscriptions) (λ p. p.enable_subscriptions) (λ o p. refl)
          base os;
    trusted_documents_only =
        merge-IsLatest (λ o. o.trusted_documents_only) (λ p. p.trusted_documents_only) (λ o p. refl)
          base os;
    introspection_cache_ttl =
        merge-IsLatest (λ o. o.introspection_cache_ttl) (λ p. p.introspection_cache_ttl)
          (λ o p. refl) base os;
    plugins = merge-plugins base os;
  }

  -- A preset is valid exactly when it names a schema and has a secret or a key URL, and the errors
  -- of another one say which of the two is missing.
  pub validate_cases :
      (preset : Preset Plugin)
      → ((validate preset ≡ valid)
          ↔ ((preset.pg_schemas ≢ []) × ((preset.jwt.secret ≢ []) ⊎ (preset.jwt.jwks_url ≢ none))))
        × (Memᴰ no_pg_schemas (reported (validate preset)) ↔ (preset.pg_schemas ≡ []))
        × (Memᴰ no_jwt_config (reported (validate preset))
            ↔ ((preset.jwt.secret ≡ []) × (preset.jwt.jwks_url ≡ none)))
  unfolding validate missing
  validate_cases preset = judge-IsJudged preset.pg_schemas preset.jwt.secret preset.jwt.jwks_url
