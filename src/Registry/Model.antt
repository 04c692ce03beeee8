-- ===== src/Registry/Model.antt =====
-- The records of tee_gateway/model_registry.py. Prices are decimals in USD; a mapping is its list of
-- entries.
use tee_gateway.Prelude.{ℕ, zero, suc, String, Bool, true, false, Option, none, some, List, [], ◌∷◌}
use tee_gateway.Prelude.Int.{pos, negsuc}
use tee_gateway.Prelude.Result.{Result, ok, err}
use tee_gateway.Prelude.Text.{Text, strip, find_key}
use tee_gateway.Decimal.{Decimal}

-- Decimal("…") with `places` digits after the point.
abbrev pub usd : ℕ → ℕ → Decimal
usd coeff zero = record { coeff = coeff; exp = pos 0 }
usd coeff (suc places) = record { coeff = coeff; exp = negsuc places }

-- The values of `image_extra_params`.
pub data Param : Type 0 where
  text : String → Param
  flag : Bool → Param

pub record ImageResolutionTier : Type 0 where
  pub per_image_price_usd : Decimal
  pub aspect_ratios : List (String × String)
  pub extra_params : List (String × Param)
  pub per_reference_image_price_usd : Option Decimal

pub record ModelConfig : Type 0 where
  pub provider : String
  pub api_name : String
  pub input_price_usd : Decimal
  pub output_price_usd : Decimal
  pub force_temperature : Option Decimal
  pub thinking_budget : Option ℕ
  pub supports_temperature : Bool
  pub image_output : Bool
  pub image_generation : Bool
  pub per_image_price_usd : Option Decimal
  pub image_response_format : Option String
  pub image_send_n : Bool
  pub image_supports_reference : Bool
  pub image_edit_endpoint : Option String
  pub image_edit_model : Option String
  pub image_max_references : ℕ
  pub per_reference_image_price_usd : Option Decimal
  pub image_extra_params : Option (List (String × Param))
  pub image_aspect_ratios : Option (List (String × String))
  pub image_aspect_ratio_param : String
  pub image_resolutions : Option (List (Text × ImageResolutionTier))
  pub image_default_resolution : Option Text
  pub image_output_price_usd : Option Decimal
  pub responses_api_for_tools : Bool
  pub openrouter_provider : Option String

-- The fields without a default, and the defaults of the others.
abbrev pub model_config : String → String → Decimal → Decimal → ModelConfig
model_config provider api_name input_price output_price = record {
  provider = provider;
  api_name = api_name;
  input_price_usd = input_price;
  output_price_usd = output_price;
  force_temperature = none;
  thinking_budget = none;
  supports_temperature = true;
  image_output = false;
  image_generation = false;
  per_image_price_usd = none;
  image_response_format = some "b64_json";
  image_send_n = true;
  image_supports_reference = false;
  image_edit_endpoint = none;
  image_edit_model = none;
  image_max_references = 10;
  per_reference_image_price_usd = none;
  image_extra_params = none;
  image_aspect_ratios = none;
  image_aspect_ratio_param = "aspect_ratio";
  image_resolutions = none;
  image_default_resolution = none;
  image_output_price_usd = none;
  responses_api_for_tools = false;
  openrouter_provider = none;
}

-- The ValueErrors of the module, the AssertionError and the KeyError of `image_tier`.
pub data RegistryError : Type 0 where
  unsupported_model : RegistryError
  single_resolution : RegistryError
  unsupported_resolution : RegistryError
  no_default_resolution : RegistryError

abbrev pub tiers_of : ModelConfig → List (Text × ImageResolutionTier)
tiers_of cfg = elim cfg.image_resolutions [ none ↦ [] | some tiers ↦ tiers ]

-- tiers[self.image_default_resolution], after the assertion that it is set.
unfoldable pub default_tier : ModelConfig → Result RegistryError (Option ImageResolutionTier)
default_tier cfg = elim cfg.image_default_resolution [
  | none ↦ err no_default_resolution
  | some name ↦ elim (find_key name (tiers_of cfg)) [
    | none ↦ err unsupported_resolution
    | some tier ↦ ok (some tier)
  ]
]

-- The tier of a key that is not empty.
unfoldable pub named_tier : ModelConfig → Text → Result RegistryError (Option ImageResolutionTier)
named_tier cfg key = elim (find_key key (tiers_of cfg)) [
  | none ↦ err unsupported_resolution
  | some tier ↦ ok (some tier)
]

-- The branches of `image_tier`, by the stripped key and by the tiers there are.
unfoldable pub tier_at :
    ModelConfig
    → Text
    → List (Text × ImageResolutionTier)
    → Result RegistryError (Option ImageResolutionTier)
unfolding default_tier named_tier
tier_at cfg [] [] = ok none
tier_at cfg [] (t ∷ ts) = default_tier cfg
tier_at cfg (c ∷ key) [] = err single_resolution
tier_at cfg (c ∷ key) (t ∷ ts) = named_tier cfg (c ∷ key)

-- ModelConfig.image_tier of a string or of None.
unfoldable pub image_tier :
    ModelConfig → Option Text → Result RegistryError (Option ImageResolutionTier)
unfolding tier_at
image_tier cfg resolution =
    tier_at cfg (strip (elim resolution [ none ↦ [] | some given ↦ given ])) (tiers_of cfg)
