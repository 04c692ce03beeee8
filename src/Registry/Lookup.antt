-- ===== src/Registry/Lookup.antt =====
-- The lookup table and the price of a web search of tee_gateway/model_registry.py.
use tee_gateway.Prelude.{List, [], ◌∷◌}
use tee_gateway.Prelude.Text.{Text, codes}
use tee_gateway.Decimal.{Decimal}
use tee_gateway.Registry.Model.{usd, ModelConfig}
use tee_gateway.Registry.OpenAi.{
  gpt_4_1, gpt_4_1_mini, gpt_4_1_nano, o3, o4_mini, gpt_5, gpt_5_mini, gpt_5_2, gpt_5_4,
  gpt_5_4_mini, gpt_5_4_nano, gpt_5_5, gpt_5_6_sol, gpt_5_6_terra, gpt_5_6_luna, gpt_6_astra,
  gpt_6_sol, gpt_6_luna, gpt_image_2, gpt_image_2_5_flare, gpt_image_2_5_sunburst,
}
use tee_gateway.Registry.Anthropic.{
  claude_sonnet_4_5, claude_sonnet_4_6, claude_sonnet_5_5, claude_sonnet_5, claude_haiku_5_5,
  claude_haiku_4_5, claude_opus_4_5, claude_opus_4_6, claude_opus_4_7, claude_opus_4_8,
  claude_opus_5_5, claude_opus_5, claude_fable_5, claude_fable_5_1,
}
use tee_gateway.Registry.Google.{
  gemini_2_5_flash, gemini_2_5_pro, gemini_2_5_flash_lite, gemini_3_flash_preview,
  gemini_3_1_pro_preview, gemini_2_5_flash_image, gemini_3_1_flash_image, gemini_nano_banana_2_1,
  gemini_3_5_flash, gemini_3_5_flash_lite, gemini_3_6_flash, gemini_3_7_flash, gemini_3_8_flash,
  gemini_4_argon,
}
use tee_gateway.Registry.Xai.{
  grok_4_7, grok_4_6, grok_4_5, grok_4_3, grok_4, grok_4_fast, grok_4_1_fast,
  grok_4_1_fast_non_reasoning, grok_4_20_reasoning, grok_4_20_non_reasoning, grok_code_fast_1,
  grok_2_image, grok_imagine_image_2_0, grok_3_mini, grok_3,
}
use tee_gateway.Registry.Bytedance.{
  seed_1_6, seed_1_8, seed_2_0_lite, dola_seed_2_0_mini, deepseek_v4_flash, seedream_4_0,
  seedream_5_0_lite, seedance_4_5, seedance_5_0, glm_5_2,
}
use tee_gateway.Registry.Others.{
  aion_3_5, deepseek_v4_pro, hy4_preview, hermes_4_405b, hy3, glm_image, kimi_k3_1_pro,
  abliterated_large_v2, krea_3, qwen_image_3_0_pro,
}

abbrev pub web_search_price_usd : Decimal
web_search_price_usd = usd 15 3

unfoldable pub model_lookup : List (Text × ModelConfig)
model_lookup =
    (codes "gpt-4.1-2025-04-14", gpt_4_1)
    ∷ (codes "gpt-4.1", gpt_4_1)
    ∷ (codes "gpt-4.1-mini", gpt_4_1_mini)
    ∷ (codes "gpt-4.1-mini-2025-04-14", gpt_4_1_mini)
    ∷ (codes "gpt-4.1-nano", gpt_4_1_nano)
    ∷ (codes "gpt-4.1-nano-2025-04-14", gpt_4_1_nano)
    ∷ (codes "o3", o3)
    ∷ (codes "o3-2025-04-16", o3)
    ∷ (codes "o4-mini", o4_mini)
    ∷ (codes "gpt-5", gpt_5)
    ∷ (codes "gpt-5-mini", gpt_5_mini)
    ∷ (codes "gpt-5.2", gpt_5_2)
    ∷ (codes "gpt-5.4", gpt_5_4)
    ∷ (codes "gpt-5.4-mini", gpt_5_4_mini)
    ∷ (codes "gpt-5.4-nano", gpt_5_4_nano)
    ∷ (codes "gpt-5.5", gpt_5_5)
    ∷ (codes "gpt-5.6", gpt_5_6_sol)
    ∷ (codes "gpt-5.6-sol", gpt_5_6_sol)
    ∷ (codes "gpt-5.6-terra", gpt_5_6_terra)
    ∷ (codes "gpt-5.6-luna", gpt_5_6_luna)
    ∷ (codes "gpt-6-astra", gpt_6_astra)
    ∷ (codes "gpt-6-sol", gpt_6_sol)
    ∷ (codes "gpt-6-luna", gpt_6_luna)
    ∷ (codes "gpt-image-2", gpt_image_2)
    ∷ (codes "gpt-image-2.5", gpt_image_2_5_flare)
    ∷ (codes "gpt-image-2.5-flare", gpt_image_2_5_flare)
    ∷ (codes "gpt-image-2.5-flare-2026-09-08", gpt_image_2_5_flare)
    ∷ (codes "gpt-image-2.5-sunburst", gpt_image_2_5_sunburst)
    ∷ (codes "gpt-image-2.5-sunburst-2026-09-08", gpt_image_2_5_sunburst)
    ∷ (codes "claude-sonnet-4-5", claude_sonnet_4_5)
    ∷ (codes "claude-sonnet-4-6", claude_sonnet_4_6)
    ∷ (codes "claude-sonnet-5-5", claude_sonnet_5_5)
    ∷ (codes "claude-sonnet-5.5", claude_sonnet_5_5)
    ∷ (codes "claude-sonnet-5", claude_sonnet_5)
    ∷ (codes "claude-haiku-5-5", claude_haiku_5_5)
    ∷ (codes "claude-haiku-5.5", claude_haiku_5_5)
    ∷ (codes "claude-haiku-4-5", claude_haiku_4_5)
    ∷ (codes "claude-opus-4-5", claude_opus_4_5)
    ∷ (codes "claude-opus-4-6", claude_opus_4_6)
    ∷ (codes "claude-opus-4-7", claude_opus_4_7)
    ∷ (codes "claude-opus-4-8", claude_opus_4_8)
    ∷ (codes "claude-opus-5", claude_opus_5)
    ∷ (codes "claude-opus-5-5", claude_opus_5_5)
    ∷ (codes "claude-opus-5.5", claude_opus_5_5)
    ∷ (codes "claude-fable-5", claude_fable_5)
    ∷ (codes "claude-fable-5-1", claude_fable_5_1)
    ∷ (codes "claude-fable-5.1", claude_fable_5_1)
    ∷ (codes "gemini-2.5-flash", gemini_2_5_flash)
    ∷ (codes "gemini-2.5-pro", gemini_2_5_pro)
    ∷ (codes "gemini-2.5-flash-lite", gemini_2_5_flash_lite)
    ∷ (codes "gemini-3-flash-preview", gemini_3_flash_preview)
    ∷ (codes "gemini-3.1-pro-preview", gemini_3_1_pro_preview)
    ∷ (codes "gemini-2.5-flash-image", gemini_2_5_flash_image)
    ∷ (codes "gemini-3.1-flash-image", gemini_3_1_flash_image)
    ∷ (codes "gemini-nano-banana-2.1", gemini_nano_banana_2_1)
    ∷ (codes "gemini-nano-banana-2-1", gemini_nano_banana_2_1)
    ∷ (codes "gemini-3.5-flash", gemini_3_5_flash)
    ∷ (codes "gemini-3.5-flash-lite", gemini_3_5_flash_lite)
    ∷ (codes "gemini-3.6-flash", gemini_3_6_flash)
    ∷ (codes "gemini-3.7-flash", gemini_3_7_flash)
    ∷ (codes "gemini-3.8-flash", gemini_3_8_flash)
    ∷ (codes "gemini-4-argon", gemini_4_argon)
    ∷ (codes "gemini-4.0-argon", gemini_4_argon)
    ∷ (codes "grok-4.7", grok_4_7)
    ∷ (codes "grok-4.6", grok_4_6)
    ∷ (codes "grok-4.5", grok_4_5)
    ∷ (codes "grok-4.5-latest", grok_4_5)
    ∷ (codes "grok-4.3", grok_4_3)
    ∷ (codes "grok-4", grok_4)
    ∷ (codes "grok-4-fast", grok_4_fast)
    ∷ (codes "grok-4-1-fast", grok_4_1_fast)
    ∷ (codes "grok-4.1-fast", grok_4_1_fast)
    ∷ (codes "grok-4-1-fast-non-reasoning", grok_4_1_fast_non_reasoning)
    ∷ (codes "grok-4.20-reasoning", grok_4_20_reasoning)
    ∷ (codes "grok-4.20-non-reasoning", grok_4_20_non_reasoning)
    ∷ (codes "grok-code-fast-1", grok_code_fast_1)
    ∷ (codes "grok-2-image", grok_2_image)
    ∷ (codes "grok-2-image-1212", grok_2_image)
    ∷ (codes "grok-2-image-latest", grok_2_image)
    ∷ (codes "grok-imagine-image", grok_2_image)
    ∷ (codes "grok-imagine-image-2026-03-02", grok_2_image)
    ∷ (codes "grok-imagine-image-2.0", grok_imagine_image_2_0)
    ∷ (codes "grok-imagine-image-2-0", grok_imagine_image_2_0)
    ∷ (codes "seed-1-6-250615", seed_1_6)
    ∷ (codes "seed-1.6", seed_1_6)
    ∷ (codes "seed-1-8-251228", seed_1_8)
    ∷ (codes "seed-1.8", seed_1_8)
    ∷ (codes "seed-2-0-lite-260228", seed_2_0_lite)
    ∷ (codes "seed-2.0-lite", seed_2_0_lite)
    ∷ (codes "dola-seed-2.0-mini", dola_seed_2_0_mini)
    ∷ (codes "dola-seed-2-0-mini", dola_seed_2_0_mini)
    ∷ (codes "deepseek-v4-flash-260425", deepseek_v4_flash)
    ∷ (codes "deepseek-v4-flash", deepseek_v4_flash)
    ∷ (codes "seedream-4-0-250828", seedream_4_0)
    ∷ (codes "seedream-4.0", seedream_4_0)
    ∷ (codes "seedream-4-0", seedream_4_0)
    ∷ (codes "seedream-5.0-lite", seedream_5_0_lite)
    ∷ (codes "seedream-5-0-lite", seedream_5_0_lite)
    ∷ (codes "ep-20260624042612-7dxcv", seedance_4_5)
    ∷ (codes "seedance-4.5", seedance_4_5)
    ∷ (codes "seedance-4-5", seedance_4_5)
    ∷ (codes "ep-20260803211347-hq9k8", seedance_5_0)
    ∷ (codes "seedance-5.0", seedance_5_0)
    ∷ (codes "seedance-5-0", seedance_5_0)
    ∷ (codes "aion-3.5", aion_3_5)
    ∷ (codes "aion-3-5", aion_3_5)
    ∷ (codes "aion-labs/aion-3.5", aion_3_5)
    ∷ (codes "deepseek-v4-pro", deepseek_v4_pro)
    ∷ (codes "deepseek-v4-pro-0813", deepseek_v4_pro)
    ∷ (codes "deepseek/deepseek-v4-pro-0813", deepseek_v4_pro)
    ∷ (codes "deepseek-v4-pro-260425", deepseek_v4_pro)
    ∷ (codes "hermes-4-405b", hermes_4_405b)
    ∷ (codes "nousresearch/hermes-4-405b", hermes_4_405b)
    ∷ (codes "hy3", hy3)
    ∷ (codes "tencent/hy3", hy3)
    ∷ (codes "tencent/hy3:floor", hy3)
    ∷ (codes "hy4-preview", hy4_preview)
    ∷ (codes "hy4", hy4_preview)
    ∷ (codes "tencent/hy4-preview", hy4_preview)
    ∷ (codes "glm-5.2", glm_5_2)
    ∷ (codes "ep-20260803211658-fwpzs", glm_5_2)
    ∷ (codes "glm-image", glm_image)
    ∷ (codes "kimi-k3.1-pro", kimi_k3_1_pro)
    ∷ (codes "kimi-k3-1-pro", kimi_k3_1_pro)
    ∷ (codes "kimi-3.1-pro", kimi_k3_1_pro)
    ∷ (codes "moonshotai/kimi-k3.1-pro", kimi_k3_1_pro)
    ∷ (codes "abliterated-model-large-v2", abliterated_large_v2)
    ∷ (codes "abliterated-large-v2", abliterated_large_v2)
    ∷ (codes "abliteration/abliterated-model-large-v2", abliterated_large_v2)
    ∷ (codes "krea-3", krea_3)
    ∷ (codes "krea-v3", krea_3)
    ∷ (codes "krea3", krea_3)
    ∷ (codes "krea/v3", krea_3)
    ∷ (codes "krea/v3/text-to-image", krea_3)
    ∷ (codes "qwen-image-3.0-pro", qwen_image_3_0_pro)
    ∷ (codes "qwen-image-3-0-pro", qwen_image_3_0_pro)
    ∷ (codes "qwen-image-3-pro", qwen_image_3_0_pro)
    ∷ (codes "alibaba/qwen-image-3.0-pro", qwen_image_3_0_pro)
    ∷ (codes "alibaba/qwen-image-3.0-pro/text-to-image", qwen_image_3_0_pro)
    ∷ (codes "grok-3-mini-beta", grok_3_mini)
    ∷ (codes "grok-3-mini", grok_3_mini)
    ∷ (codes "grok-3-beta", grok_3)
    ∷ (codes "grok-3", grok_3)
    ∷ []
