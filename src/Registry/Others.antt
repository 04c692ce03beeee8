-- ===== src/Registry/Others.antt =====
-- The models of OpenRouter, Z.ai, Abliteration, Moonshot and WaveSpeed of tee_gateway/model_registry.py.
use tee_gateway.Prelude.{true, false, String, none, some, List, [], ◌∷◌}
use tee_gateway.Prelude.Text.{codes}
use tee_gateway.Registry.Model.{usd, text, flag, ModelConfig, model_config}

abbrev pub wavespeed_qwen_image_aspect_ratios : List (String × String)
wavespeed_qwen_image_aspect_ratios =
    ("1:1", "1:1")
    ∷ ("1:2", "1:2")
    ∷ ("2:1", "2:1")
    ∷ ("1:3", "1:3")
    ∷ ("3:1", "3:1")
    ∷ ("2:3", "2:3")
    ∷ ("3:2", "3:2")
    ∷ ("3:4", "3:4")
    ∷ ("4:3", "4:3")
    ∷ ("4:5", "4:5")
    ∷ ("5:4", "5:4")
    ∷ ("9:16", "9:16")
    ∷ ("16:9", "16:9")
    ∷ ("9:21", "9:21")
    ∷ ("21:9", "21:9")
    ∷ []

abbrev pub wavespeed_krea_1k_sizes : List (String × String)
wavespeed_krea_1k_sizes =
    ("1:1", "1024*1024")
    ∷ ("4:3", "1152*864")
    ∷ ("3:4", "864*1152")
    ∷ ("3:2", "1248*832")
    ∷ ("2:3", "832*1248")
    ∷ ("16:9", "1360*768")
    ∷ ("9:16", "768*1360")
    ∷ ("5:4", "1136*912")
    ∷ ("4:5", "912*1136")
    ∷ ("21:9", "1536*656")
    ∷ []

abbrev pub wavespeed_krea_2k_sizes : List (String × String)
wavespeed_krea_2k_sizes =
    ("1:1", "2048*2048")
    ∷ ("4:3", "2304*1728")
    ∷ ("3:4", "1728*2304")
    ∷ ("3:2", "2496*1664")
    ∷ ("2:3", "1664*2496")
    ∷ ("16:9", "2720*1536")
    ∷ ("9:16", "1536*2720")
    ∷ ("5:4", "2272*1824")
    ∷ ("4:5", "1824*2272")
    ∷ ("21:9", "3072*1312")
    ∷ []

abbrev pub aion_3_5 : ModelConfig
aion_3_5 = model_config "openrouter" "aion-labs/aion-3.5" (usd 3 6) (usd 6 6)

abbrev pub deepseek_v4_pro : ModelConfig
deepseek_v4_pro =
    record (model_config "openrouter" "deepseek/deepseek-v4-pro-0813" (usd 132 8) (usd 396 8)) {
      openrouter_provider = some "together";
    }

abbrev pub hy4_preview : ModelConfig
hy4_preview = model_config "openrouter" "tencent/hy4-preview" (usd 834 9) (usd 2501 9)

abbrev pub hermes_4_405b : ModelConfig
hermes_4_405b = model_config "openrouter" "nousresearch/hermes-4-405b" (usd 1 6) (usd 3 6)

abbrev pub hy3 : ModelConfig
hy3 = model_config "openrouter" "tencent/hy3" (usd 132 9) (usd 528 9)

abbrev pub glm_image : ModelConfig
glm_image = record (model_config "zai" "glm-image" (usd 0 0) (usd 0 0)) {
  image_generation = true;
  per_image_price_usd = some (usd 15 3);
  image_response_format = none;
  image_send_n = false;
  image_aspect_ratios = some (
      ("1:1", "1280x1280")
      ∷ ("3:2", "1568x1056")
      ∷ ("2:3", "1056x1568")
      ∷ ("4:3", "1472x1088")
      ∷ ("3:4", "1088x1472")
      ∷ ("16:9", "1728x960")
      ∷ ("9:16", "960x1728")
      ∷ []);
  image_aspect_ratio_param = "size";
}

abbrev pub kimi_k3_1_pro : ModelConfig
kimi_k3_1_pro = record (model_config "moonshot" "kimi-k3.1-pro" (usd 2 6) (usd 1 5)) {
  supports_temperature = false;
}

abbrev pub abliterated_large_v2 : ModelConfig
abliterated_large_v2 = model_config "abliteration" "abliterated-model-large-v2" (usd 3 6) (usd 5 6)

abbrev pub krea_3 : ModelConfig
krea_3 = record (model_config "wavespeed" "krea/v3/text-to-image" (usd 0 0) (usd 0 0)) {
  image_generation = true;
  per_image_price_usd = some (usd 3 2);
  image_response_format = none;
  image_send_n = false;
  image_supports_reference = true;
  image_edit_model = some "krea/v3/edit";
  image_max_references = 8;
  per_reference_image_price_usd = some (usd 3 2);
  image_extra_params = some (("model", text "berry") ∷ ("reasoning_level", text "medium") ∷ []);
  image_aspect_ratios = some wavespeed_krea_1k_sizes;
  image_aspect_ratio_param = "size";
  image_resolutions = some (
      (
        codes "1K",
        record {
          per_image_price_usd = usd 3 2;
          aspect_ratios = wavespeed_krea_1k_sizes;
          extra_params = [];
          per_reference_image_price_usd = some (usd 3 2);
        },
      )
      ∷ (
        codes "2K",
        record {
          per_image_price_usd = usd 12 2;
          aspect_ratios = wavespeed_krea_2k_sizes;
          extra_params = ("size", text "2048*2048") ∷ [];
          per_reference_image_price_usd = some (usd 12 2);
        },
      )
      ∷ []);
  image_default_resolution = some (codes "1K");
}

abbrev pub qwen_image_3_0_pro : ModelConfig
qwen_image_3_0_pro =
    record (model_config "wavespeed" "alibaba/qwen-image-3.0-pro/text-to-image" (usd 0 0)
      (usd 0 0)) {
        image_generation = true;
        per_image_price_usd = some (usd 4 2);
        image_response_format = none;
        image_send_n = false;
        image_supports_reference = true;
        image_edit_model = some "alibaba/qwen-image-3.0-pro/edit";
        image_max_references = 3;
        per_reference_image_price_usd = some (usd 3 3);
        image_extra_params = some (("enable_prompt_expansion", flag false) ∷ []);
        image_aspect_ratios = some wavespeed_qwen_image_aspect_ratios;
        image_resolutions = some (
            (
              codes "1K",
              record {
                per_image_price_usd = usd 4 2;
                aspect_ratios = wavespeed_qwen_image_aspect_ratios;
                extra_params = ("resolution", text "1k") ∷ [];
                per_reference_image_price_usd = none;
              },
            )
            ∷ (
              codes "2K",
              record {
                per_image_price_usd = usd 75 3;
                aspect_ratios = wavespeed_qwen_image_aspect_ratios;
                extra_params = ("resolution", text "2k") ∷ [];
                per_reference_image_price_usd = none;
              },
            )
            ∷ []);
        image_default_resolution = some (codes "1K");
      }
