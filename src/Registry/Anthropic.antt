-- ===== src/Registry/Anthropic.antt =====
-- The Anthropic models of tee_gateway/model_registry.py.
use tee_gateway.Prelude.{false}
use tee_gateway.Registry.Model.{usd, ModelConfig, model_config}

abbrev pub claude_sonnet_4_5 : ModelConfig
claude_sonnet_4_5 = model_config "anthropic" "claude-sonnet-4-5" (usd 3 6) (usd 15 6)

abbrev pub claude_sonnet_4_6 : ModelConfig
claude_sonnet_4_6 = model_config "anthropic" "claude-sonnet-4-6" (usd 3 6) (usd 15 6)

abbrev pub claude_sonnet_5_5 : ModelConfig
claude_sonnet_5_5 = record (model_config "anthropic" "claude-sonnet-5-5" (usd 2 6) (usd 1 5)) {
  supports_temperature = false;
}

abbrev pub claude_sonnet_5 : ModelConfig
claude_sonnet_5 = record (model_config "anthropic" "claude-sonnet-5" (usd 3 6) (usd 15 6)) {
  supports_temperature = false;
}

abbrev pub claude_haiku_5_5 : ModelConfig
claude_haiku_5_5 = record (model_config "anthropic" "claude-haiku-5-5" (usd 1 7) (usd 5 7)) {
  supports_temperature = false;
}

abbrev pub claude_haiku_4_5 : ModelConfig
claude_haiku_4_5 = model_config "anthropic" "claude-haiku-4-5-20251001" (usd 1 6) (usd 5 6)

abbrev pub claude_opus_4_5 : ModelConfig
claude_opus_4_5 = model_config "anthropic" "claude-opus-4-5-20251101" (usd 5 6) (usd 25 6)

abbrev pub claude_opus_4_6 : ModelConfig
claude_opus_4_6 = model_config "anthropic" "claude-opus-4-6" (usd 5 6) (usd 25 6)

abbrev pub claude_opus_4_7 : ModelConfig
claude_opus_4_7 = record (model_config "anthropic" "claude-opus-4-7" (usd 5 6) (usd 25 6)) {
  supports_temperature = false;
}

abbrev pub claude_opus_4_8 : ModelConfig
claude_opus_4_8 = record (model_config "anthropic" "claude-opus-4-8" (usd 5 6) (usd 25 6)) {
  supports_temperature = false;
}

abbrev pub claude_opus_5_5 : ModelConfig
claude_opus_5_5 = record (model_config "anthropic" "claude-opus-5-5" (usd 4 6) (usd 2 5)) {
  supports_temperature = false;
}

abbrev pub claude_opus_5 : ModelConfig
claude_opus_5 = record (model_config "anthropic" "claude-opus-5" (usd 5 6) (usd 25 6)) {
  supports_temperature = false;
}

abbrev pub claude_fable_5 : ModelConfig
claude_fable_5 = record (model_config "anthropic" "claude-fable-5" (usd 1 5) (usd 5 5)) {
  supports_temperature = false;
}

abbrev pub claude_fable_5_1 : ModelConfig
claude_fable_5_1 = record (model_config "anthropic" "claude-fable-5-1" (usd 1 5) (usd 5 5)) {
  supports_temperature = false;
}
