-- ===== src/Registry/Laws.antt =====
-- The table as a whole: what holds of every model that a request can name, found by going through it.
use tee_gateway.Prelude.{
  ◌≡◌, refl, inl, inr, arith, Bool, true, false, ◌&&◌, Option, Option-cases, Bool-cases, none, some,
  List, [], ◌∷◌, ltb, ◌==◌, if◌then◌else◌,
}
use tee_gateway.Prelude.Result.{Result-cases, ok, err}
use tee_gateway.Prelude.Text.{Text, text_eq, strip, lower, find_key}
use tee_gateway.Decimal.{Decimal}
use tee_gateway.Decimal.Laws.{IsPositive}
use tee_gateway.Registry.Model.{
  ModelConfig, ImageResolutionTier, tiers_of, default_tier, image_tier, tier_at, named_tier,
}
use tee_gateway.Registry.Lookup.{model_lookup}
use tee_gateway.Registry.{get_model_config}

-- A test that every value of a dict passes.
all_values {ℓ} : {A : Type ℓ} → (A → Bool) → List (Text × A) → Bool
all_values p [] = true
all_values p (entry ∷ entries) = p entry.1 && all_values p entries

all_values-find_key {ℓ} :
    {A : Type ℓ} (p : A → Bool) (key : Text) (entries : List (Text × A)) (a : A)
    → all_values p entries ≡ true
    → find_key key entries ≡ some a
    → p a ≡ true
unfolding all_values find_key
all_values-find_key p key [] a h e = ground arith
all_values-find_key p key (entry ∷ entries) a h e = elim (Bool-cases (text_eq key entry.0)) [
  | inl here ↦ ground (arith, here, h, e)
  | inr later ↦ all_values-find_key p key entries a (ground (arith, h)) (ground (arith, later, e))
]

-- A price that is set is positive.
is_priced : Option Decimal → Bool
is_priced none = true
is_priced (some d) = ltb 0 d.coeff

is_set : Option Decimal → Bool
is_set none = false
is_set (some d) = true

tier_is_priced : ImageResolutionTier → Bool
unfolding is_priced
tier_is_priced tier =
    ltb 0 tier.per_image_price_usd.coeff && is_priced tier.per_reference_image_price_usd

has_default_at : ModelConfig → List (Text × ImageResolutionTier) → Bool
has_default_at cfg [] = true
has_default_at cfg (t ∷ ts) = elim (default_tier cfg) [ ok tier ↦ true | err e ↦ false ]

has_default : ModelConfig → Bool
unfolding has_default_at
has_default cfg = has_default_at cfg (tiers_of cfg)

is_billable : ModelConfig → Bool
unfolding is_priced is_set tier_is_priced all_values
is_billable cfg =
    (if cfg.image_generation
      then is_set cfg.per_image_price_usd
        && (cfg.input_price_usd.coeff == 0 && cfg.output_price_usd.coeff == 0)
      else ltb 0 cfg.input_price_usd.coeff && ltb 0 cfg.output_price_usd.coeff)
    && (is_priced cfg.per_image_price_usd && is_priced cfg.image_output_price_usd)
    && is_priced cfg.per_reference_image_price_usd
    && (all_values tier_is_priced (tiers_of cfg) && has_default cfg)

model_lookup-is_billable : all_values is_billable model_lookup ≡ true
unfolding all_values is_billable is_priced is_set tier_is_priced has_default has_default_at
    model_lookup default_tier find_key
model_lookup-is_billable = refl

-- A model that generates no images has positive token prices; an image model has a price per image,
-- and its token prices are zero. A price per image, per reference image or of image output that is
-- set is positive, at every resolution, and an image can be asked for without naming a resolution.
abbrev pub IsBillable : ModelConfig → Type 0
IsBillable cfg =
    (cfg.image_generation ≡ false
      → IsPositive cfg.input_price_usd × IsPositive cfg.output_price_usd)
    × (cfg.image_generation ≡ true → (p : Decimal) × (cfg.per_image_price_usd ≡ some p))
    × ((p : Decimal) → cfg.per_image_price_usd ≡ some p → IsPositive p)
    × ((p : Decimal) → cfg.image_output_price_usd ≡ some p → IsPositive p)
    × ((key : Text) (tier : ImageResolutionTier)
        → find_key key (tiers_of cfg) ≡ some tier
        → IsPositive tier.per_image_price_usd)
    × ((p : Decimal) → cfg.per_reference_image_price_usd ≡ some p → IsPositive p)
    × ((key : Text) (tier : ImageResolutionTier) (p : Decimal)
        → find_key key (tiers_of cfg) ≡ some tier
        → tier.per_reference_image_price_usd ≡ some p
        → IsPositive p)
    × (cfg.image_generation ≡ true
        → (cfg.input_price_usd.coeff ≡ 0) × (cfg.output_price_usd.coeff ≡ 0))
    × ((t : Option ImageResolutionTier) × (image_tier cfg none ≡ ok t))

is_priced-IsPositive :
    (price : Option Decimal) (p : Decimal) → is_priced price ≡ true → price ≡ some p → IsPositive p
unfolding is_priced
is_priced-IsPositive none p h e = ground arith
is_priced-IsPositive (some d) p h e = ground arith

is_set-some : (price : Option Decimal) → is_set price ≡ true → (p : Decimal) × (price ≡ some p)
unfolding is_set
is_set-some none h = ground arith
is_set-some (some d) h = (d, refl)

tier_is_priced-IsPositive :
    (tier : ImageResolutionTier) → tier_is_priced tier ≡ true → IsPositive tier.per_image_price_usd
unfolding tier_is_priced
tier_is_priced-IsPositive tier h = ground arith

tier_is_priced-reference :
    (tier : ImageResolutionTier)
    → tier_is_priced tier ≡ true
    → is_priced tier.per_reference_image_price_usd ≡ true
unfolding tier_is_priced
tier_is_priced-reference tier h = ground (arith, h)

tier_at-nil :
    (cfg : ModelConfig) (tiers : List (Text × ImageResolutionTier))
    → has_default_at cfg tiers ≡ true
    → (t : Option ImageResolutionTier) × (tier_at cfg [] tiers ≡ ok t)
unfolding tier_at has_default_at
tier_at-nil cfg [] h = (none, refl)
tier_at-nil cfg (t ∷ ts) h = elim (Result-cases (default_tier cfg)) [
  | inl (tier, e) ↦ (tier, e)
  | inr (e, failed) ↦ absurd (ground (arith, failed, h))
]

has_default-image_tier :
    (cfg : ModelConfig)
    → has_default cfg ≡ true
    → (t : Option ImageResolutionTier) × (image_tier cfg none ≡ ok t)
unfolding has_default image_tier strip
has_default-image_tier cfg h = tier_at-nil cfg (tiers_of cfg) h

is_billable-IsBillable : (cfg : ModelConfig) → is_billable cfg ≡ true → IsBillable cfg
unfolding is_billable
is_billable-IsBillable cfg h = (
  λ text_model. (ground (arith, text_model, h), ground (arith, text_model, h)),
  λ image_model. is_set-some cfg.per_image_price_usd (ground (arith, image_model, h)),
  λ p e. is_priced-IsPositive cfg.per_image_price_usd p (ground (arith, h)) e,
  λ p e. is_priced-IsPositive cfg.image_output_price_usd p (ground (arith, h)) e,
  λ key tier e.
      tier_is_priced-IsPositive tier
        (all_values-find_key tier_is_priced key (tiers_of cfg) tier (ground (arith, h)) e),
  λ p e. is_priced-IsPositive cfg.per_reference_image_price_usd p (ground (arith, h)) e,
  λ key tier p found e.
      is_priced-IsPositive tier.per_reference_image_price_usd p
        (tier_is_priced-reference tier
          (all_values-find_key tier_is_priced key (tiers_of cfg) tier (ground (arith, h)) found))
        e,
  λ image_model. (ground (arith, image_model, h), ground (arith, image_model, h)),
  has_default-image_tier cfg (ground (arith, h)),
)

-- A model that a request can name has positive token prices, or it generates images, has a positive
-- price per image and token prices of zero. Each price per image, per reference image and of image
-- output that it or one of its resolutions has is positive, and an image without a named resolution
-- has a tier, or the model has none.
pub get_model_config-IsBillable :
    (model : Text) (cfg : ModelConfig) → get_model_config model ≡ ok cfg → IsBillable cfg
unfolding get_model_config
get_model_config-IsBillable model cfg h =
    elim (Option-cases (find_key (lower (strip model)) model_lookup)) [
      | inl missing ↦ absurd (ground (arith, missing, h))
      | inr (entry, found) ↦
          let same : entry ≡ cfg = ground (arith, found, h) in
          rw (← same) (
            is_billable-IsBillable entry (
              all_values-find_key is_billable (lower (strip model)) model_lookup entry
                model_lookup-is_billable found))
    ]

tier_at-found :
    (cfg : ModelConfig) (key : Text) (tiers : List (Text × ImageResolutionTier))
    (tier : ImageResolutionTier)
    → tier_at cfg key tiers ≡ ok (some tier)
    → (name : Text) × (find_key name (tiers_of cfg) ≡ some tier)
unfolding tier_at default_tier named_tier
tier_at-found cfg [] [] tier h = ground arith
tier_at-found cfg [] (t ∷ ts) tier h = elim (Option-cases cfg.image_default_resolution) [
  | inl unset ↦ absurd (ground (arith, unset, h))
  | inr (name, e) ↦ elim (Option-cases (find_key name (tiers_of cfg))) [
    | inl missing ↦ absurd (ground (arith, e, missing, h))
    | inr (found, k) ↦ (name, ground (arith, e, k, h))
  ]
]
tier_at-found cfg (c ∷ key) [] tier h = ground arith
tier_at-found cfg (c ∷ key) (t ∷ ts) tier h =
    elim (Option-cases (find_key (c ∷ key) (tiers_of cfg))) [
      | inl missing ↦ absurd (ground (arith, missing, h))
      | inr (found, k) ↦ (c ∷ key, ground (arith, k, h))
    ]

-- The tier that a request runs at is one of the model's tiers.
pub image_tier-found :
    (cfg : ModelConfig) (resolution : Option Text) (tier : ImageResolutionTier)
    → image_tier cfg resolution ≡ ok (some tier)
    → (name : Text) × (find_key name (tiers_of cfg) ≡ some tier)
unfolding image_tier
image_tier-found cfg resolution tier h =
    tier_at-found cfg (strip (elim resolution [ none ↦ [] | some given ↦ given ])) (tiers_of cfg)
      tier h
