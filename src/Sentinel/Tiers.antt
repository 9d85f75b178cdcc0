-- ===== src/Sentinel/Tiers.antt =====
-- The tier configurations that the program hands to its store, by name.
use rateforge.Base.{
  ◌≡◌, refl, sym, ap, ap₂, ◌∙◌, Option, none, some, [], ◌∷◌, inl, inr, Str, codes, str_eq,
  str_eq_iff, str_eq_refl, Bool-cases, Option-cases, if◌then◌else◌,
}
use rateforge.Dict
use rateforge.Dict.{Dict, IsUnique}
use rateforge.Config.{Config, BucketDefaults}
use rateforge.Bucket.{BucketConfig}
use rateforge.Multibucket.{default_tier}
use rateforge.Store.{Options, new}
use rateforge.Sentinel.{to_bucket_config, add_tiers, store_options}

lookup_nil {ℓ} : {V : Type ℓ} (k : Str) → Dict.lookup {V = V} k [] ≡ none
unfolding Dict.lookup
lookup_nil k = refl

lookup_cons {ℓ} :
    {V : Type ℓ} (j k : Str) (v : V) (m : Dict V)
    → Dict.lookup k ((j, v) ∷ m) ≡ (if str_eq j k then some v else Dict.lookup k m)
unfolding Dict.lookup
lookup_cons j k v m = refl

-- What a tier's name stands for in the store: its configuration, or what stood there before.
abbrev pub tier_or : Option BucketDefaults → Option BucketConfig → Option BucketConfig
tier_or none before = before
tier_or (some bd) before = some (to_bucket_config bd)

add_tiers-lookup :
    (tiers : Dict BucketDefaults)
    → IsUnique tiers
    → (defaults : Dict BucketConfig) (tier : Str)
    → Dict.lookup tier (add_tiers tiers defaults)
      ≡ tier_or (Dict.lookup tier tiers) (Dict.lookup tier defaults)
unfolding add_tiers
add_tiers-lookup [] u defaults tier =
    sym (ap (λ o. tier_or o (Dict.lookup tier defaults)) (lookup_nil tier))
add_tiers-lookup ((name, bd) ∷ tiers) (fresh, u) defaults tier =
    let c = to_bucket_config bd in
    let rest = add_tiers-lookup tiers u (Dict.insert name c defaults) tier in
    let found = Dict.lookup-insert name tier c defaults in
    let whole = lookup_cons name tier bd tiers in
    elim (Bool-cases (str_eq name tier)) [
      | inr other ↦
          let below : Dict.lookup tier ((name, bd) ∷ tiers) ≡ Dict.lookup tier tiers =
            whole ∙ rw other refl in
          let kept : Dict.lookup tier (Dict.insert name c defaults) ≡ Dict.lookup tier defaults =
            found ∙ rw other refl in
          rest
          ∙ ap (tier_or (Dict.lookup tier tiers)) kept
          ∙ ap (λ o. tier_or o (Dict.lookup tier defaults)) (sym below)
      | inl same ↦
          let gone : Dict.lookup tier tiers ≡ none = rw (← (str_eq_iff name tier).0 same) fresh in
          let here : Dict.lookup tier ((name, bd) ∷ tiers) ≡ some bd = whole ∙ rw same refl in
          let put : Dict.lookup tier (Dict.insert name c defaults) ≡ some c =
            found ∙ rw same refl in
          rest ∙ ap₂ tier_or gone put ∙ ap (λ o. tier_or o (Dict.lookup tier defaults)) (sym here)
    ]

pub looked_up :
    {F : Type 0} (cfg : Config F)
    → IsUnique cfg.tiers
    → (tier : Str)
    → Dict.lookup tier (store_options cfg).tier_defaults
      ≡ tier_or
          (Dict.lookup tier cfg.tiers)
          (if str_eq (codes "default") tier then some (to_bucket_config cfg.defaults) else none)
unfolding store_options
looked_up cfg u tier =
    let first : Dict BucketConfig = (codes "default", to_bucket_config cfg.defaults) ∷ [] in
    add_tiers-lookup cfg.tiers u first tier
    ∙ ap (tier_or (Dict.lookup tier cfg.tiers)) (
        lookup_cons (codes "default") tier (to_bucket_config cfg.defaults) []
        ∙ ap
            (λ o. if str_eq (codes "default") tier then some (to_bucket_config cfg.defaults) else o)
            (lookup_nil tier))

-- The options of main name the default tier.
pub default_there :
    {F : Type 0} (cfg : Config F)
    → IsUnique cfg.tiers
    → (c : BucketConfig) × (Dict.lookup (codes "default") (store_options cfg).tier_defaults
        ≡ some c)
default_there cfg u =
    let told = looked_up cfg u (codes "default") in
    elim (Option-cases (Dict.lookup (codes "default") cfg.tiers)) [
      | inl e ↦ (to_bucket_config cfg.defaults, told ∙ rw (e, str_eq_refl (codes "default")) refl)
      | inr (bd, e) ↦ (to_bucket_config bd, told ∙ rw e refl)
    ]

pub new-tiers :
    (S : Type 0) (opts : Options)
    → ((c : BucketConfig) × (Dict.lookup default_tier opts.tier_defaults ≡ some c))
    → (new {S = S} opts).tier_defaults ≡ opts.tier_defaults
unfolding new
new-tiers S opts (c, e) = rw (e, new) refl
