-- ===== src/Gateway/Tests.antt =====
-- Two injections, and a gated request.
use tee_gateway.Prelude.{◌≡◌, ◌↔◌, refl, Bool, true, false, none, some, [], ◌∷◌}
use tee_gateway.Prelude.Result.{ok}
use tee_gateway.Prelude.Text.{Text, codes, text_mem}
use tee_gateway.Prelude.Json.{Json, str, obj, field, no_fields}
use tee_gateway.Decimal.{Decimal}
use tee_gateway.PriceFeed.{get_price, new_feed}
use tee_gateway.Gateway.{
  ProviderConfig, started, missing, refused, initial_gateway, set_provider_keys, inject_keys,
  initialized_providers,
}
use tee_gateway.Gateway.Keys.{
  KeysCall, answer, answers, count_accepted, IsOnce, set_provider_keys-IsOnce,
}
use tee_gateway.Gateway.Gate.{
  goes_on, check_pricing_ready, modelless_paths, IsKnown, check_pricing_ready_iff,
}

abbrev openai_only : ProviderConfig
openai_only = record {
  openai_api_key = some (codes "sk");
  anthropic_api_key = none;
  google_api_key = some [];
  xai_api_key = none;
  bytedance_api_key = none;
  openrouter_api_key = none;
  zai_api_key = none;
  abliteration_api_key = none;
  moonshot_api_key = none;
  wavespeed_api_key = none;
  exa_api_key = none;
}

abbrev keys_call : KeysCall
keys_call = record {
  body = some (record {
    keys = openai_only;
    facilitator_url = none;
    heartbeat_contract_address = some (codes "0x01");
    tee_heartbeat_interval = refused;
    tee_heartbeat_buffer = missing;
  });
  start = started;
  attaches = true;
}

abbrev facilitator : Text
facilitator = codes "https://facilitator.memchat.io"

openai_listed : initialized_providers openai_only ≡ codes "openai" ∷ []
unfolding initialized_providers
openai_listed = refl

once_of_two :
    count_accepted (answers facilitator (keys_call ∷ keys_call ∷ []) initial_gateway).0 ≡ 1
unfolding answers answer set_provider_keys inject_keys
once_of_two = refl

set_provider_keys-IsOnce_example :
    IsOnce 0 (answers facilitator (keys_call ∷ keys_call ∷ []) initial_gateway)
set_provider_keys-IsOnce_example = set_provider_keys-IsOnce facilitator (keys_call ∷ keys_call ∷ [])

abbrev gpt_5_body : Json
gpt_5_body = obj (field (codes "model") (str (codes "gpt-5")) no_fields)

check_pricing_ready_iff_example :
    (check_pricing_ready (codes "/v1/completions") gpt_5_body 1000 (new_feed 300 3) ≡ goes_on) ↔ (
      ((price : Decimal × Bool) × (get_price 1000 (new_feed 300 3) ≡ ok price))
      × ((text_mem (codes "/v1/completions") modelless_paths ≡ false) → IsKnown gpt_5_body))
check_pricing_ready_iff_example =
    check_pricing_ready_iff (codes "/v1/completions") gpt_5_body 1000 (new_feed 300 3) refl
