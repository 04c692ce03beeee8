-- ===== src/Registry/Xai.antt =====
-- The xAI models of tee_gateway/model_registry.py.
use tee_gateway.Prelude.{true, String, some, List, [], ◌∷◌}
use tee_gateway.Decimal.{Decimal}
use tee_gateway.Registry.Model.{usd, ModelConfig, model_config}

abbrev pub xai_retired_input_usd : Decimal
xai_retired_input_usd = usd 125 8

abbrev pub xai_retired_output_usd : Decimal
xai_retired_output_usd = usd 25 7

abbrev pub grok_image_aspect_ratios : List (String × String)
grok_image_aspect_ratios =
    ("1:1", "1:1")
    ∷ ("16:9", "16:9")
    ∷ ("9:16", "9:16")
    ∷ ("4:3", "4:3")
    ∷ ("3:4", "3:4")
    ∷ ("3:2", "3:2")
    ∷ ("2:3", "2:3")
    ∷ ("2:1", "2:1")
    ∷ ("1:2", "1:2")
    ∷ ("19.5:9", "19.5:9")
    ∷ ("9:19.5", "9:19.5")
    ∷ ("20:9", "20:9")
    ∷ ("9:20", "9:20")
    ∷ ("21:9", "21:9")
    ∷ ("5:2", "5:2")
    ∷ []

abbrev pub grok_4_7 : ModelConfig
grok_4_7 = model_config "x-ai" "grok-4.7" (usd 2 6) (usd 6 6)

abbrev pub grok_4_6 : ModelConfig
grok_4_6 = model_config "x-ai" "grok-4.6" (usd 2 6) (usd 6 6)

abbrev pub grok_4_5 : ModelConfig
grok_4_5 = model_config "x-ai" "grok-4.5" (usd 2 6) (usd 6 6)

abbrev pub grok_4_3 : ModelConfig
grok_4_3 = model_config "x-ai" "grok-4.3" (usd 125 8) (usd 25 7)

abbrev pub grok_4 : ModelConfig
grok_4 = model_config "x-ai" "grok-4" xai_retired_input_usd xai_retired_output_usd

abbrev pub grok_4_fast : ModelConfig
grok_4_fast = model_config "x-ai" "grok-4-fast" xai_retired_input_usd xai_retired_output_usd

abbrev pub grok_4_1_fast : ModelConfig
grok_4_1_fast = model_config "x-ai" "grok-4-1-fast" xai_retired_input_usd xai_retired_output_usd

abbrev pub grok_4_1_fast_non_reasoning : ModelConfig
grok_4_1_fast_non_reasoning =
    model_config "x-ai" "grok-4-1-fast-non-reasoning" xai_retired_input_usd xai_retired_output_usd

abbrev pub grok_4_20_reasoning : ModelConfig
grok_4_20_reasoning = model_config "x-ai" "grok-4.20-reasoning" (usd 2 6) (usd 6 6)

abbrev pub grok_4_20_non_reasoning : ModelConfig
grok_4_20_non_reasoning = model_config "x-ai" "grok-4.20-non-reasoning" (usd 2 6) (usd 6 6)

abbrev pub grok_code_fast_1 : ModelConfig
grok_code_fast_1 =
    model_config "x-ai" "grok-code-fast-1" xai_retired_input_usd xai_retired_output_usd

abbrev pub grok_2_image : ModelConfig
grok_2_image = record (model_config "x-ai" "grok-imagine-image" (usd 0 0) (usd 0 0)) {
  image_generation = true;
  per_image_price_usd = some (usd 2 2);
  image_response_format = some "url";
  image_aspect_ratios = some grok_image_aspect_ratios;
}

abbrev pub grok_imagine_image_2_0 : ModelConfig
grok_imagine_image_2_0 = record (model_config "x-ai" "grok-imagine-image-2.0" (usd 0 0) (usd 0 0)) {
  image_generation = true;
  per_image_price_usd = some (usd 4 2);
  image_response_format = some "url";
  image_aspect_ratios = some grok_image_aspect_ratios;
}

abbrev pub grok_3_mini : ModelConfig
grok_3_mini = model_config "x-ai" "grok-3-mini" xai_retired_input_usd xai_retired_output_usd

abbrev pub grok_3 : ModelConfig
grok_3 = model_config "x-ai" "grok-3-latest" xai_retired_input_usd xai_retired_output_usd
