-- ===== src/Config.antt =====
-- crates/magna-config: presets, what they expose, how they are merged and when they are valid. A
-- text is its bytes, a plugin is a parameter, and so is the environment's JWT_SECRET.
pub mod Exposes
pub mod Merges
mod Samples
use magna.Base.{
  ℕ, ◌≡◌, Bool, true, false, ◌&&◌, ◌||◌, if◌then◌else◌, List, [], ◌∷◌, ◌++◌, map_option, Option,
  none, some, String, Bytes, bytes, bytes_eq, nat_eq, ◌==◌,
}

pub record JwtConfig : Type 0 where
  pub secret : Bytes
  pub jwks_url : Option Bytes

pub record PoolConfig : Type 0 where
  pub max_connections : ℕ
  pub min_connections : ℕ
  pub acquire_timeout_secs : ℕ
  pub max_lifetime_secs : ℕ
  pub idle_timeout_secs : ℕ

abbrev pub default_pool : PoolConfig
default_pool = record {
  max_connections = 10;
  min_connections = 1;
  acquire_timeout_secs = 30;
  max_lifetime_secs = 1800;
  idle_timeout_secs = 600;
}

pub record SchemaBuildOptions : Type 0 where
  pub default_mutations : Bool
  pub subscriptions : Bool
  pub relay : Bool
  pub connections : Bool
  pub simple_lists : Bool

abbrev pub default_schema_options : SchemaBuildOptions
default_schema_options = record {
  default_mutations = true;
  subscriptions = true;
  relay = true;
  connections = true;
  simple_lists = false;
}

pub data Exposure : Type 0 where
  all : Exposure
  only : List Bytes → Exposure
  extensions_only : Exposure

-- `str::split_once` at a character.
unfoldable pub split_once : ℕ → Bytes → Option (Bytes × Bytes)
split_once sep [] = none
split_once sep (c ∷ cs) =
    let rest = split_once sep cs in
    if c == sep then some ([], cs) else map_option (λ p. (c ∷ p.0, p.1)) rest

-- The closure of `allows`; 46 is the code of a dot.
unfoldable pub names_relation : Bytes → Bytes → Bytes → Bool
unfolding split_once
names_relation schema relation name = elim (split_once 46 name) [
  | none ↦ false
  | some p ↦ p.0 == schema && p.1 == relation
]

unfoldable pub any_names : Bytes → Bytes → List Bytes → Bool
unfolding names_relation
any_names schema relation [] = false
any_names schema relation (n ∷ ns) =
    names_relation schema relation n || any_names schema relation ns

unfoldable pub allows : Exposure → Bytes → Bytes → Bool
unfolding any_names
allows all schema relation = true
allows extensions_only schema relation = false
allows (only names) schema relation = any_names schema relation names

pub record Preset (Plugin : Type 0) : Type 0 where
  pub pg_schemas : List Bytes
  pub exposure : Exposure
  pub default_role : Option Bytes
  pub jwt : JwtConfig
  pub pool : PoolConfig
  pub schema : SchemaBuildOptions
  pub enable_subscriptions : Bool
  pub trusted_documents_only : Bool
  pub introspection_cache_ttl : ℕ
  pub plugins : List Plugin

-- `unwrap_or_default` of a text that may be missing.
abbrev pub or_empty : Option Bytes → Bytes
or_empty none = []
or_empty (some s) = s

abbrev pub default_preset : {Plugin : Type 0} → Option Bytes → Preset Plugin
default_preset jwt_secret = record {
  pg_schemas = bytes "public" ∷ [];
  exposure = all;
  default_role = some (bytes "anon");
  jwt = record { secret = or_empty jwt_secret; jwks_url = none };
  pool = default_pool;
  schema = default_schema_options;
  enable_subscriptions = true;
  trusted_documents_only = false;
  introspection_cache_ttl = 60;
  plugins = [];
}

pub record PresetOverride (Plugin : Type 0) : Type 0 where
  pub pg_schemas : Option (List Bytes)
  pub exposure : Option Exposure
  pub default_role : Option (Option Bytes)
  pub jwt_secret : Option Bytes
  pub jwks_url : Option (Option Bytes)
  pub pool : Option PoolConfig
  pub schema : Option SchemaBuildOptions
  pub enable_subscriptions : Option Bool
  pub trusted_documents_only : Option Bool
  pub introspection_cache_ttl : Option ℕ
  pub plugins : Option (List Plugin)

-- What `take` leaves of an override: `PresetOverride::default()`.
abbrev pub no_override : {Plugin : Type 0} → PresetOverride Plugin
no_override = record {
  pg_schemas = none;
  exposure = none;
  default_role = none;
  jwt_secret = none;
  jwks_url = none;
  pool = none;
  schema = none;
  enable_subscriptions = none;
  trusted_documents_only = none;
  introspection_cache_ttl = none;
  plugins = none;
}

-- `if let Some(value) = option.take() { place = value; }`
abbrev pub put : {A : Type 0} → Option A → A → A
put none place = place
put (some value) place = value

abbrev pub append_taken : {A : Type 0} → Option (List A) → List A → List A
append_taken none place = place
append_taken (some values) place = place ++ values

pub data ResolveError : Type 0 where
  no_pg_schemas no_jwt_config : ResolveError
  validation : String → ResolveError

pub data Validated : Type 0 where
  valid : Validated
  invalid : List ResolveError → Validated

abbrev is_none : {A : Type 0} → Option A → Bool
is_none none = true
is_none (some a) = false

abbrev is_empty_list : {A : Type 0} → List A → Bool
is_empty_list [] = true
is_empty_list (a ∷ rest) = false

module _ {Plugin : Type 0} where
  unfoldable pub apply_override : PresetOverride Plugin → Preset Plugin → Preset Plugin
  apply_override o base = record {
    pg_schemas = put o.pg_schemas base.pg_schemas;
    exposure = put o.exposure base.exposure;
    default_role = put o.default_role base.default_role;
    jwt = record {
      secret = put o.jwt_secret base.jwt.secret;
      jwks_url = put o.jwks_url base.jwt.jwks_url;
    };
    pool = put o.pool base.pool;
    schema = put o.schema base.schema;
    enable_subscriptions = put o.enable_subscriptions base.enable_subscriptions;
    trusted_documents_only = put o.trusted_documents_only base.trusted_documents_only;
    introspection_cache_ttl = put o.introspection_cache_ttl base.introspection_cache_ttl;
    plugins = append_taken o.plugins base.plugins;
  }

  -- The preset, and the overrides after what was in them is taken.
  unfoldable pub merge :
      Preset Plugin → List (PresetOverride Plugin) → Preset Plugin × List (PresetOverride Plugin)
  unfolding apply_override
  merge base [] = (base, [])
  merge base (o ∷ os) =
      let rest = merge (apply_override o base) os in (rest.0, no_override ∷ rest.1)

  unfoldable pub missing : Preset Plugin → List ResolveError
  missing preset =
      (if is_empty_list preset.pg_schemas then no_pg_schemas ∷ [] else [])
      ++ (if is_empty_list preset.jwt.secret && is_none preset.jwt.jwks_url
          then no_jwt_config ∷ []
          else [])

  unfoldable pub validate : Preset Plugin → Validated
  unfolding missing
  validate preset =
      let errors = missing preset in if is_empty_list errors then valid else invalid errors
