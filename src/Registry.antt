-- ===== src/Registry.antt =====
-- tee_gateway/model_registry.py: the models and their prices. The enumeration's members are in a file
-- per provider, in the source's order.
pub mod Model
pub mod OpenAi
pub mod Anthropic
pub mod Google
pub mod Xai
pub mod Bytedance
pub mod Others
pub mod Lookup
pub mod Laws
mod Tests
use tee_gateway.Prelude.{Option, none, some}
use tee_gateway.Prelude.Result.{Result, ok, err, ◌>>=◌}
use tee_gateway.Prelude.Text.{Text, strip, lower, find_key}
use tee_gateway.Decimal.{Decimal}
use tee_gateway.Registry.Model.{ModelConfig, RegistryError, unsupported_model}
use tee_gateway.Registry.Lookup.{model_lookup}

unfoldable pub get_model_config : Text → Result RegistryError ModelConfig
get_model_config model = elim (find_key (lower (strip model)) model_lookup) [
  | none ↦ err unsupported_model
  | some entry ↦ ok entry
]

-- get_rate_card: the prices of input and output.
unfoldable pub get_rate_card : Text → Result RegistryError (Decimal × Decimal)
unfolding get_model_config
get_rate_card model =
    get_model_config model >>= λ cfg. ok (cfg.input_price_usd, cfg.output_price_usd)
