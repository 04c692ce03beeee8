-- ===== src/Registry/Google.antt =====
-- The Google models of tee_gateway/model_registry.py.
use tee_gateway.Prelude.{true, false, String, some, List, [], ◌∷◌}
use tee_gateway.Registry.Model.{usd, ModelConfig, model_config}

abbrev pub gemini_image_aspect_ratios : List (String × String)
gemini_image_aspect_ratios =
    ("1:1", "1:1")
    ∷ ("1:4", "1:4")
    ∷ ("1:8", "1:8")
    ∷ ("2:3", "2:3")
    ∷ ("3:2", "3:2")
    ∷ ("3:4", "3:4")
    ∷ ("4:1", "4:1")
    ∷ ("4:3", "4:3")
    ∷ ("4:5", "4:5")
    ∷ ("5:4", "5:4")
    ∷ ("8:1", "8:1")
    ∷ ("9:16", "9:16")
    ∷ ("16:9", "16:9")
    ∷ ("21:9", "21:9")
    ∷ []

abbrev pub gemini_2_5_flash : ModelConfig
gemini_2_5_flash = record (model_config "google" "gemini-2.5-flash" (usd 3 7) (usd 25 7)) {
  thinking_budget = some 0;
}

abbrev pub gemini_2_5_pro : ModelConfig
gemini_2_5_pro = record (model_config "google" "gemini-2.5-pro" (usd 125 8) (usd 1 5)) {
  thinking_budget = some 128;
}

abbrev pub gemini_2_5_flash_lite : ModelConfig
gemini_2_5_flash_lite = record (model_config "google" "gemini-2.5-flash-lite" (usd 1 7) (usd 4 7)) {
  thinking_budget = some 0;
}

abbrev pub gemini_3_flash_preview : ModelConfig
gemini_3_flash_preview = model_config "google" "gemini-3-flash-preview" (usd 5 7) (usd 3 6)

abbrev pub gemini_3_1_pro_preview : ModelConfig
gemini_3_1_pro_preview =
    record (model_config "google" "gemini-3.1-pro-preview" (usd 2 6) (usd 12 6)) {
      thinking_budget = some 128;
    }

abbrev pub gemini_2_5_flash_image : ModelConfig
gemini_2_5_flash_image =
    record (model_config "google" "gemini-2.5-flash-image" (usd 3 7) (usd 15 7)) {
      image_output = true;
      image_output_price_usd = some (usd 3 5);
      image_aspect_ratios = some (
          ("1:1", "1:1")
          ∷ ("2:3", "2:3")
          ∷ ("3:2", "3:2")
          ∷ ("3:4", "3:4")
          ∷ ("4:3", "4:3")
          ∷ ("4:5", "4:5")
          ∷ ("5:4", "5:4")
          ∷ ("9:16", "9:16")
          ∷ ("16:9", "16:9")
          ∷ ("21:9", "21:9")
          ∷ []);
    }

abbrev pub gemini_3_1_flash_image : ModelConfig
gemini_3_1_flash_image =
    record (model_config "google" "gemini-3.1-flash-image" (usd 5 7) (usd 3 6)) {
      image_output = true;
      image_output_price_usd = some (usd 6 5);
      image_aspect_ratios = some gemini_image_aspect_ratios;
    }

abbrev pub gemini_nano_banana_2_1 : ModelConfig
gemini_nano_banana_2_1 =
    record (model_config "google" "gemini-nano-banana-2.1" (usd 15 7) (usd 75 7)) {
      image_output = true;
      image_output_price_usd = some (usd 3 5);
      image_aspect_ratios = some gemini_image_aspect_ratios;
    }

abbrev pub gemini_3_5_flash : ModelConfig
gemini_3_5_flash = model_config "google" "gemini-3.5-flash" (usd 15 7) (usd 9 6)

abbrev pub gemini_3_5_flash_lite : ModelConfig
gemini_3_5_flash_lite = model_config "google" "gemini-3.5-flash-lite" (usd 3 7) (usd 25 7)

abbrev pub gemini_3_6_flash : ModelConfig
gemini_3_6_flash = model_config "google" "gemini-3.6-flash" (usd 15 7) (usd 75 7)

abbrev pub gemini_3_7_flash : ModelConfig
gemini_3_7_flash = model_config "google" "gemini-3.7-flash" (usd 75 8) (usd 375 8)

abbrev pub gemini_3_8_flash : ModelConfig
gemini_3_8_flash = model_config "google" "gemini-3.8-flash" (usd 75 8) (usd 375 8)

abbrev pub gemini_4_argon : ModelConfig
gemini_4_argon = record (model_config "google" "gemini-4-argon" (usd 4 6) (usd 2 5)) {
  supports_temperature = false;
}
