-- ===== src/Registry/OpenAi.antt =====
-- The OpenAI models of tee_gateway/model_registry.py.
use tee_gateway.Prelude.{true, false, String, none, some, List, [], ◌∷◌}
use tee_gateway.Registry.Model.{usd, text, ModelConfig, model_config}

abbrev pub gpt_image_aspect_sizes : List (String × String)
gpt_image_aspect_sizes =
    ("1:1", "1024x1024")
    ∷ ("3:2", "1536x1024")
    ∷ ("2:3", "1024x1536")
    ∷ ("4:3", "1408x1056")
    ∷ ("3:4", "1056x1408")
    ∷ ("5:4", "1280x1024")
    ∷ ("4:5", "1024x1280")
    ∷ ("16:9", "1536x864")
    ∷ ("9:16", "864x1536")
    ∷ ("21:9", "1792x768")
    ∷ []

abbrev pub gpt_4_1 : ModelConfig
gpt_4_1 = model_config "openai" "gpt-4.1-2025-04-14" (usd 2 6) (usd 8 6)

abbrev pub gpt_4_1_mini : ModelConfig
gpt_4_1_mini = model_config "openai" "gpt-4.1-mini" (usd 4 7) (usd 16 7)

abbrev pub gpt_4_1_nano : ModelConfig
gpt_4_1_nano = model_config "openai" "gpt-4.1-nano" (usd 1 7) (usd 4 7)

abbrev pub o3 : ModelConfig
o3 = record (model_config "openai" "o3" (usd 1 5) (usd 4 5)) { force_temperature = some (usd 10 1) }

abbrev pub o4_mini : ModelConfig
o4_mini = record (model_config "openai" "o4-mini" (usd 11 7) (usd 44 7)) {
  force_temperature = some (usd 10 1);
}

abbrev pub gpt_5 : ModelConfig
gpt_5 = model_config "openai" "gpt-5" (usd 125 8) (usd 1 5)

abbrev pub gpt_5_mini : ModelConfig
gpt_5_mini = model_config "openai" "gpt-5-mini" (usd 25 8) (usd 2 6)

abbrev pub gpt_5_2 : ModelConfig
gpt_5_2 = model_config "openai" "gpt-5.2" (usd 175 8) (usd 14 6)

abbrev pub gpt_5_4 : ModelConfig
gpt_5_4 = model_config "openai" "gpt-5.4" (usd 25 7) (usd 15 6)

abbrev pub gpt_5_4_mini : ModelConfig
gpt_5_4_mini = model_config "openai" "gpt-5.4-mini" (usd 75 8) (usd 45 7)

abbrev pub gpt_5_4_nano : ModelConfig
gpt_5_4_nano = model_config "openai" "gpt-5.4-nano" (usd 2 7) (usd 125 8)

abbrev pub gpt_5_5 : ModelConfig
gpt_5_5 = model_config "openai" "gpt-5.5" (usd 5 6) (usd 3 5)

abbrev pub gpt_5_6_sol : ModelConfig
gpt_5_6_sol = record (model_config "openai" "gpt-5.6-sol" (usd 5 6) (usd 3 5)) {
  responses_api_for_tools = true;
}

abbrev pub gpt_5_6_terra : ModelConfig
gpt_5_6_terra = record (model_config "openai" "gpt-5.6-terra" (usd 25 7) (usd 15 6)) {
  responses_api_for_tools = true;
}

abbrev pub gpt_5_6_luna : ModelConfig
gpt_5_6_luna = record (model_config "openai" "gpt-5.6-luna" (usd 1 6) (usd 6 6)) {
  responses_api_for_tools = true;
}

abbrev pub gpt_6_astra : ModelConfig
gpt_6_astra = record (model_config "openai" "gpt-6-astra" (usd 1 5) (usd 5 5)) {
  responses_api_for_tools = true;
  supports_temperature = false;
}

abbrev pub gpt_6_sol : ModelConfig
gpt_6_sol = record (model_config "openai" "gpt-6-sol" (usd 2 6) (usd 1 5)) {
  responses_api_for_tools = true;
  supports_temperature = false;
}

abbrev pub gpt_6_luna : ModelConfig
gpt_6_luna = record (model_config "openai" "gpt-6-luna" (usd 1 7) (usd 5 7)) {
  responses_api_for_tools = true;
  supports_temperature = false;
}

abbrev pub gpt_image_2 : ModelConfig
gpt_image_2 = record (model_config "openai" "gpt-image-2" (usd 0 0) (usd 0 0)) {
  image_generation = true;
  per_image_price_usd = some (usd 5 2);
  image_response_format = none;
  image_supports_reference = true;
  image_edit_endpoint = some "/images/edits";
  image_extra_params = some (("quality", text "medium") ∷ []);
  image_aspect_ratios = some gpt_image_aspect_sizes;
  image_aspect_ratio_param = "size";
}

abbrev pub gpt_image_2_5_flare : ModelConfig
gpt_image_2_5_flare = record (model_config "openai" "gpt-image-2.5-flare" (usd 0 0) (usd 0 0)) {
  image_generation = true;
  per_image_price_usd = some (usd 5 2);
  image_response_format = none;
  image_supports_reference = true;
  image_edit_endpoint = some "/images/edits";
  image_extra_params = some (("quality", text "medium") ∷ []);
  image_aspect_ratios = some gpt_image_aspect_sizes;
  image_aspect_ratio_param = "size";
}

abbrev pub gpt_image_2_5_sunburst : ModelConfig
gpt_image_2_5_sunburst =
    record (model_config "openai" "gpt-image-2.5-sunburst" (usd 0 0) (usd 0 0)) {
      image_generation = true;
      per_image_price_usd = some (usd 5 2);
      image_response_format = none;
      image_supports_reference = true;
      image_edit_endpoint = some "/images/edits";
      image_extra_params = some (("quality", text "medium") ∷ []);
      image_aspect_ratios = some gpt_image_aspect_sizes;
      image_aspect_ratio_param = "size";
    }
