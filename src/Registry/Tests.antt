-- ===== src/Registry/Tests.antt =====
-- The table at some names, and the theorem about it at one of them.
use tee_gateway.Prelude.{◌≡◌, refl, some}
use tee_gateway.Prelude.Result.{ok, err}
use tee_gateway.Prelude.Text.{codes, is_space, lstrip, rstrip, strip, lower, find_key}
use tee_gateway.Registry.Model.{
  usd, image_tier, tier_at, named_tier, unsupported_model, unsupported_resolution,
}
use tee_gateway.Registry.OpenAi.{gpt_5}
use tee_gateway.Registry.Others.{krea_3}
use tee_gateway.Registry.Lookup.{model_lookup}
use tee_gateway.Registry.{get_model_config, get_rate_card}
use tee_gateway.Registry.Laws.{IsBillable, get_model_config-IsBillable}

pub found_gpt_5 : get_model_config (codes " GPT-5 ") ≡ ok gpt_5
unfolding get_model_config model_lookup find_key strip lstrip rstrip is_space lower
found_gpt_5 = refl

unknown_model : get_model_config (codes "gpt-99") ≡ err unsupported_model
unfolding get_model_config model_lookup find_key strip lstrip rstrip is_space lower
unknown_model = refl

rate_card_gpt_5 : get_rate_card (codes "gpt-5") ≡ ok (usd 125 8, usd 1 5)
unfolding get_rate_card get_model_config model_lookup find_key strip lstrip rstrip is_space lower
rate_card_gpt_5 = refl

krea_resolution : image_tier krea_3 (some (codes "4K")) ≡ err unsupported_resolution
unfolding image_tier tier_at named_tier find_key strip lstrip rstrip is_space
krea_resolution = refl

get_model_config-IsBillable_example : IsBillable gpt_5
get_model_config-IsBillable_example =
    get_model_config-IsBillable (codes " GPT-5 ") gpt_5 found_gpt_5
