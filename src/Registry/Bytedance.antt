-- ===== src/Registry/Bytedance.antt =====
-- The ByteDance models of tee_gateway/model_registry.py.
use tee_gateway.Prelude.{true, false, String, none, some, List, [], ◌∷◌}
use tee_gateway.Prelude.Text.{codes}
use tee_gateway.Registry.Model.{usd, Param, text, flag, ModelConfig, model_config}

abbrev pub bytedance_ep_image_params : List (String × Param)
bytedance_ep_image_params =
    ("sequential_image_generation", text "disabled")
    ∷ ("watermark", flag false)
    ∷ ("size", text "2K")
    ∷ ("stream", flag false)
    ∷ []

abbrev pub seedance_5_image_params : List (String × Param)
seedance_5_image_params = ("watermark", flag false) ∷ ("stream", flag false) ∷ []

abbrev pub bytedance_2k_aspect_sizes : List (String × String)
bytedance_2k_aspect_sizes =
    ("1:1", "2048x2048")
    ∷ ("16:9", "2560x1440")
    ∷ ("9:16", "1440x2560")
    ∷ ("4:3", "2368x1776")
    ∷ ("3:4", "1776x2368")
    ∷ ("3:2", "2496x1664")
    ∷ ("2:3", "1664x2496")
    ∷ ("21:9", "3136x1344")
    ∷ []

abbrev pub bytedance_1_5k_aspect_sizes : List (String × String)
bytedance_1_5k_aspect_sizes =
    ("1:1", "1536x1536")
    ∷ ("16:9", "2048x1152")
    ∷ ("9:16", "1152x2048")
    ∷ ("4:3", "1792x1344")
    ∷ ("3:4", "1344x1792")
    ∷ ("3:2", "1872x1248")
    ∷ ("2:3", "1248x1872")
    ∷ ("21:9", "2352x1008")
    ∷ []

abbrev pub seed_1_6 : ModelConfig
seed_1_6 = model_config "bytedance" "seed-1-6-250615" (usd 8 7) (usd 8 6)

abbrev pub seed_1_8 : ModelConfig
seed_1_8 = model_config "bytedance" "seed-1-8-251228" (usd 8 7) (usd 8 6)

abbrev pub seed_2_0_lite : ModelConfig
seed_2_0_lite = model_config "bytedance" "seed-2-0-lite-260228" (usd 4 7) (usd 16 7)

abbrev pub dola_seed_2_0_mini : ModelConfig
dola_seed_2_0_mini = model_config "bytedance" "ep-20260624214211-j4vhk" (usd 1 7) (usd 4 7)

abbrev pub deepseek_v4_flash : ModelConfig
deepseek_v4_flash = model_config "bytedance" "deepseek-v4-flash-260425" (usd 14 8) (usd 28 8)

abbrev pub seedream_4_0 : ModelConfig
seedream_4_0 = record (model_config "bytedance" "seedream-4-0-250828" (usd 0 0) (usd 0 0)) {
  image_generation = true;
  per_image_price_usd = some (usd 3 2);
  image_supports_reference = true;
  image_aspect_ratios = some bytedance_2k_aspect_sizes;
  image_aspect_ratio_param = "size";
}

abbrev pub seedream_5_0_lite : ModelConfig
seedream_5_0_lite =
    record (model_config "bytedance" "ep-20260624213657-7zc5n" (usd 0 0) (usd 0 0)) {
      image_generation = true;
      per_image_price_usd = some (usd 35 3);
      image_response_format = some "url";
      image_send_n = false;
      image_supports_reference = true;
      image_extra_params = some bytedance_ep_image_params;
      image_aspect_ratios = some bytedance_2k_aspect_sizes;
      image_aspect_ratio_param = "size";
    }

abbrev pub seedance_4_5 : ModelConfig
seedance_4_5 = record (model_config "bytedance" "ep-20260624042612-7dxcv" (usd 0 0) (usd 0 0)) {
  image_generation = true;
  per_image_price_usd = some (usd 5 2);
  image_response_format = some "url";
  image_send_n = false;
  image_supports_reference = true;
  image_extra_params = some bytedance_ep_image_params;
  image_aspect_ratios = some bytedance_2k_aspect_sizes;
  image_aspect_ratio_param = "size";
}

abbrev pub seedance_5_0 : ModelConfig
seedance_5_0 = record (model_config "bytedance" "ep-20260803211347-hq9k8" (usd 0 0) (usd 0 0)) {
  image_generation = true;
  per_image_price_usd = some (usd 45 3);
  image_response_format = some "url";
  image_send_n = false;
  image_supports_reference = true;
  image_extra_params = some seedance_5_image_params;
  image_aspect_ratios = some bytedance_1_5k_aspect_sizes;
  image_aspect_ratio_param = "size";
  image_resolutions = some (
      (
        codes "1.5K",
        record {
          per_image_price_usd = usd 45 3;
          aspect_ratios = bytedance_1_5k_aspect_sizes;
          extra_params = ("size", text "1.5K") ∷ [];
          per_reference_image_price_usd = none;
        },
      )
      ∷ (
        codes "2K",
        record {
          per_image_price_usd = usd 9 2;
          aspect_ratios = bytedance_2k_aspect_sizes;
          extra_params = ("size", text "2K") ∷ [];
          per_reference_image_price_usd = none;
        },
      )
      ∷ []);
  image_default_resolution = some (codes "1.5K");
}

abbrev pub glm_5_2 : ModelConfig
glm_5_2 = model_config "bytedance" "ep-20260803211658-fwpzs" (usd 14 7) (usd 44 7)
