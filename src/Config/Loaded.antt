-- ===== src/Config/Loaded.antt =====
-- What Load gives.
use mathlib.Core.Option.{some-ne-none, some-injective}
use rateforge.Base.{
  ◌≡◌, refl, sym, ◌∙◌, subst, inl, inr, Option, none, some, List, [], arith, Str, codes,
  Option-cases,
}
use rateforge.Base.Int.{pos, ◌≤ℤ◌}
use rateforge.Dict
use rateforge.Dict.{Dict, AllValues}
use rateforge.Float.{Float}
use rateforge.Config.{Config, BucketDefaults, default}
use rateforge.Config.Tree.{Node, nothing, entry, scalar, section, child, parse_tree}
use rateforge.Config.Load.{
  Parsers, at_least_one, parse_bucket_defaults, layer, load_tiers, load_tree, load,
}

-- A request costs at least one token.
abbrev pub IsCosted : BucketDefaults → Type 0
IsCosted bd = pos 1 ≤ℤ bd.tokens_per_request

module _ {F : Type 0} (parse : Parsers F) where
  parsed-IsCosted :
      (n : Node) (base : BucketDefaults) → IsCosted (parse_bucket_defaults parse n base)
  unfolding parse_bucket_defaults at_least_one
  parsed-IsCosted n base = ground arith

  load_tiers-IsCosted :
      (n : Node) (base : BucketDefaults) (tiers : Dict BucketDefaults)
      → AllValues IsCosted tiers
      → AllValues IsCosted (load_tiers parse n base tiers)
  unfolding load_tiers
  load_tiers-IsCosted nothing base tiers h = h
  load_tiers-IsCosted (entry name (scalar s) n) base tiers h = load_tiers-IsCosted n base tiers h
  load_tiers-IsCosted (entry name (section t) n) base tiers h = load_tiers-IsCosted n base _ (
      Dict.AllValues-insert IsCosted name (parse_bucket_defaults parse t base) tiers
        (parsed-IsCosted t base) h)

  layer-keeps {ℓ κ} :
      {A : Type ℓ} (P : A → Type κ) (key : Str) (root : Node) (over : Node → A → A) (old : A)
      → P old
      → ((n : Node) → P (over n old))
      → P (layer parse key root over old)
  unfolding layer
  layer-keeps P key root over old h k = elim (Option-cases (child key root)) [
    | inl e ↦ rw (e, layer) h
    | inr (n, e) ↦ rw (e, layer) (k n)
  ]

  -- Whatever the file holds, in a configuration that Load returns a request costs at least one
  -- token, in the defaults and in every tier.
  pub load-IsCosted :
      ⦃float : Float F⦄
      → (trim_space : Str → Str) (file : Option (List Str)) (cfg : Config F)
      → load parse trim_space file ≡ some cfg
      → IsCosted cfg.defaults × AllValues IsCosted cfg.tiers
  unfolding load load_tree default
  load-IsCosted trim_space none cfg e =
      subst (λ (c : Config F). IsCosted c.defaults × AllValues IsCosted c.tiers)
        (some-injective default cfg e) (omega arith, tt)
  load-IsCosted trim_space (some lines) cfg e = elim (Option-cases (parse_tree trim_space lines)) [
    | inl f ↦ absurd (some-ne-none cfg (sym e ∙ rw (f, load) refl))
    | inr (root, f) ↦
        subst (λ (c : Config F). IsCosted c.defaults × AllValues IsCosted c.tiers)
          (some-injective (load_tree parse root default) cfg (sym (rw (f, load) refl) ∙ e))
          (
            layer-keeps IsCosted (codes "defaults") root (parse_bucket_defaults parse) _
                (omega arith) (λ n. parsed-IsCosted n _),
            layer-keeps (AllValues IsCosted) (codes "tiers") root _ [] tt
                (λ n. load_tiers-IsCosted n _ [] tt),
          )
  ]
