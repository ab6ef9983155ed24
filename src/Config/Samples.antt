-- ===== src/Config/Samples.antt =====
-- Small presets of crates/magna-config, and the theorems there.
use magna.Base.{ℕ, ◌≡◌, ◌≢◌, ◌⊎◌, ◌↔◌, refl, true, [], ◌∷◌, none, some, Memᴰ, bytes}
use magna.Config.{
  only, allows, Preset, default_preset, PresetOverride, no_override, merge, no_pg_schemas,
  no_jwt_config, valid, validate,
}
use magna.Config.Exposes.{IsAllowed, allows_iff}
use magna.Config.Merges.{IsMerged, merge-IsMerged, reported, validate_cases}

abbrev base : Preset ℕ
base = default_preset none

abbrev trusted : PresetOverride ℕ
trusted = record no_override { trusted_documents_only = some true; plugins = some (1 ∷ 2 ∷ []) }

abbrev only_users : PresetOverride ℕ
only_users = record no_override {
  exposure = some (only (bytes "public.users" ∷ []));
  plugins = some (3 ∷ []);
}

plugins_appended : (merge base (trusted ∷ only_users ∷ [])).0.plugins ≡ 1 ∷ 2 ∷ 3 ∷ []
unfolding merge
plugins_appended = refl

users_allowed : allows (only (bytes "public.users" ∷ [])) (bytes "public") (bytes "users") ≡ true
unfolding allows
users_allowed = refl

allows_iff_example :
    (allows (only (bytes "public.users" ∷ [])) (bytes "public") (bytes "users") ≡ true)
    ↔ IsAllowed (only (bytes "public.users" ∷ [])) (bytes "public") (bytes "users")
allows_iff_example = allows_iff (only (bytes "public.users" ∷ [])) (bytes "public") (bytes "users")

merge-IsMerged_example :
    IsMerged base (trusted ∷ only_users ∷ []) (merge base (trusted ∷ only_users ∷ [])).0
merge-IsMerged_example = merge-IsMerged base (trusted ∷ only_users ∷ [])

validate_cases_example :
    ((validate base ≡ valid)
      ↔ ((base.pg_schemas ≢ []) × ((base.jwt.secret ≢ []) ⊎ (base.jwt.jwks_url ≢ none))))
    × (Memᴰ no_pg_schemas (reported (validate base)) ↔ (base.pg_schemas ≡ []))
    × (Memᴰ no_jwt_config (reported (validate base))
        ↔ ((base.jwt.secret ≡ []) × (base.jwt.jwks_url ≡ none)))
validate_cases_example = validate_cases base
