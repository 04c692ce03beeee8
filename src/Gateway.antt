-- ===== src/Gateway.antt =====
-- tee_gateway/__main__.py and tee_gateway/config.py: the injection of the keys, and the pricing gate.
-- What the heartbeat service and the payment middleware do at their start is whether they raise; a
-- middleware that raises attaches nothing; making the provider clients does not raise.
pub mod Keys
pub mod Gate
mod Tests
use tee_gateway.Prelude.{
  ℕ, zero, suc, Bool, true, false, not, ◌&&◌, Option, none, some, List, [], ◌∷◌, ◌++◌,
  if◌then◌else◌,
}
use tee_gateway.Prelude.Int.{ℤ, pos, negsuc}
use tee_gateway.Prelude.Result.{Result, ok, err, ◌>>=◌}
use tee_gateway.Prelude.Text.{Text, codes}

abbrev pub default_heartbeat_interval : ℤ
default_heartbeat_interval = pos 900

abbrev pub default_heartbeat_buffer : ℤ
default_heartbeat_buffer = pos 300

pub record ProviderConfig : Type 0 where
  pub openai_api_key : Option Text
  pub anthropic_api_key : Option Text
  pub google_api_key : Option Text
  pub xai_api_key : Option Text
  pub bytedance_api_key : Option Text
  pub openrouter_api_key : Option Text
  pub zai_api_key : Option Text
  pub abliteration_api_key : Option Text
  pub moonshot_api_key : Option Text
  pub wavespeed_api_key : Option Text
  pub exa_api_key : Option Text

pub record HeartbeatConfig : Type 0 where
  pub contract_address : Text
  pub facilitator_url : Text
  pub interval : ℤ
  pub timestamp_buffer : ℤ

-- The truth of an optional text.
abbrev pub is_given : Option Text → Bool
is_given none = false
is_given (some []) = false
is_given (some (c ∷ s)) = true

-- `value or None`
abbrev pub or_none : Option Text → Option Text
or_none key = if is_given key then key else none

abbrev pub listed : Option Text → Text → List Text
listed key name = if is_given key then name ∷ [] else []

-- ProviderConfig.initialized_providers
unfoldable pub initialized_providers : ProviderConfig → List Text
initialized_providers cfg =
    listed cfg.openai_api_key (codes "openai")
    ++ (listed cfg.anthropic_api_key (codes "anthropic")
        ++ (listed cfg.google_api_key (codes "google")
            ++ (listed cfg.xai_api_key (codes "xai")
                ++ (listed cfg.bytedance_api_key (codes "bytedance")
                    ++ (listed cfg.openrouter_api_key (codes "openrouter")
                        ++ (listed cfg.zai_api_key (codes "zai")
                            ++ (listed cfg.abliteration_api_key (codes "abliteration")
                                ++ (listed cfg.moonshot_api_key (codes "moonshot")
                                    ++ listed cfg.wavespeed_api_key (codes "wavespeed")))))))))

-- A number in the JSON body: missing, one for which `int` raises a ValueError or a TypeError, an
-- infinity, for which it raises an OverflowError, or what `int` gives.
pub data RawInt : Type 0 where
  missing : RawInt
  refused : RawInt
  infinite : RawInt
  given : ℤ → RawInt

-- The OverflowError is not caught.
abbrev pub int_or : ℤ → RawInt → Result (Unit {0}) ℤ
int_or default missing = ok default
int_or default refused = ok default
int_or default infinite = err tt
int_or default (given n) = ok n

-- The JSON body of POST /v1/keys.
pub record KeysBody : Type 0 where
  pub keys : ProviderConfig
  pub facilitator_url : Option Text
  pub heartbeat_contract_address : Option Text
  pub tee_heartbeat_interval : RawInt
  pub tee_heartbeat_buffer : RawInt

-- The process-wide state that the injection sets. `middlewares` counts the payment middlewares that
-- have been put around the application.
pub record Gateway : Type 0 where
  pub keys_initialized : Bool
  pub provider_config : Option ProviderConfig
  pub active_facilitator_url : Option Text
  pub heartbeat_service : Option HeartbeatConfig
  pub middlewares : ℕ

abbrev pub initial_gateway : Gateway
initial_gateway = record {
  keys_initialized = false;
  provider_config = none;
  active_facilitator_url = none;
  heartbeat_service = none;
  middlewares = 0;
}

pub record KeysSummary : Type 0 where
  pub providers_initialized : List Text
  pub heartbeat_enabled : Bool
  pub web_search_enabled : Bool
  pub moderation_enabled : Bool

-- 200, 400, 409, and 500 where the handler raises.
pub data KeysResponse : Type 0 where
  accepted : KeysSummary → KeysResponse
  body_required : KeysResponse
  already_initialized : KeysResponse
  server_error : KeysResponse

abbrev pub provider_config_of : ProviderConfig → ProviderConfig
provider_config_of k = record {
  openai_api_key = or_none k.openai_api_key;
  anthropic_api_key = or_none k.anthropic_api_key;
  google_api_key = or_none k.google_api_key;
  xai_api_key = or_none k.xai_api_key;
  bytedance_api_key = or_none k.bytedance_api_key;
  openrouter_api_key = or_none k.openrouter_api_key;
  zai_api_key = or_none k.zai_api_key;
  abliteration_api_key = or_none k.abliteration_api_key;
  moonshot_api_key = or_none k.moonshot_api_key;
  wavespeed_api_key = or_none k.wavespeed_api_key;
  exa_api_key = or_none k.exa_api_key;
}

-- `body.get("facilitator_url") or FACILITATOR_URL`
abbrev pub facilitator_or : Text → Option Text → Text
facilitator_or default none = default
facilitator_or default (some []) = default
facilitator_or default (some (c ∷ s)) = c ∷ s

unfoldable pub heartbeat_config_of : Text → KeysBody → Result (Unit {0}) (Option HeartbeatConfig)
heartbeat_config_of facilitator_url body = elim body.heartbeat_contract_address [
  | none ↦ ok none
  | some [] ↦ ok none
  | some (c ∷ s) ↦ int_or default_heartbeat_interval body.tee_heartbeat_interval >>= λ interval.
      int_or default_heartbeat_buffer body.tee_heartbeat_buffer >>= λ timestamp_buffer. ok (
        some (record {
          contract_address = c ∷ s;
          facilitator_url = facilitator_url;
          interval = interval;
          timestamp_buffer = timestamp_buffer;
        }))
]

-- The providers of the answer, in the answer's order.
abbrev pub providers_set : ProviderConfig → List Text
providers_set cfg =
    listed cfg.openai_api_key (codes "openai")
    ++ (listed cfg.google_api_key (codes "google")
        ++ (listed cfg.anthropic_api_key (codes "anthropic")
            ++ (listed cfg.xai_api_key (codes "xai")
                ++ (listed cfg.bytedance_api_key (codes "bytedance")
                    ++ (listed cfg.openrouter_api_key (codes "openrouter")
                        ++ (listed cfg.zai_api_key (codes "zai")
                            ++ (listed cfg.abliteration_api_key (codes "abliteration")
                                ++ (listed cfg.moonshot_api_key (codes "moonshot")
                                    ++ listed cfg.wavespeed_api_key (codes "wavespeed")))))))))

-- What the heartbeat service does: making it raises, its start raises, or neither.
pub data HeartbeatStart : Type 0 where
  not_made : HeartbeatStart
  not_started : HeartbeatStart
  started : HeartbeatStart

-- _init_heartbeat, whose exceptions the caller catches: a service that was made is kept.
abbrev pub init_heartbeat :
    HeartbeatStart → Option HeartbeatConfig → Option HeartbeatConfig → Option HeartbeatConfig
init_heartbeat start config (some running) = some running
init_heartbeat start none none = none
init_heartbeat not_made (some config) none = none
init_heartbeat not_started (some config) none = some config
init_heartbeat started (some config) none = some config

abbrev pub is_some {ℓ} : {A : Type ℓ} → Option A → Bool
is_some none = false
is_some (some a) = true

-- From the heartbeat's configuration on. `attaches` says that _init_payment_middleware does not
-- raise.
unfoldable pub start_services :
    HeartbeatStart
    → Bool
    → ProviderConfig
    → Text
    → Option HeartbeatConfig
    → Gateway
    → KeysResponse × Gateway
start_services start attaches cfg url heartbeat g =
    let running = init_heartbeat start heartbeat g.heartbeat_service in
    if attaches
    then (
      accepted (record {
        providers_initialized = providers_set cfg;
        heartbeat_enabled = is_some heartbeat;
        web_search_enabled = is_given cfg.exa_api_key;
        moderation_enabled = is_given cfg.openai_api_key;
      }),
      record {
        keys_initialized = true;
        provider_config = some cfg;
        active_facilitator_url = some url;
        heartbeat_service = running;
        middlewares = suc g.middlewares;
      },
    )
    else (server_error, record g { provider_config = some cfg; heartbeat_service = running })

-- The part of the handler that runs once the body is there.
unfoldable pub inject_keys :
    Text → HeartbeatStart → Bool → KeysBody → Gateway → KeysResponse × Gateway
unfolding heartbeat_config_of start_services
inject_keys default_url start attaches body g =
    let cfg = provider_config_of body.keys in
    let url = facilitator_or default_url body.facilitator_url in
    elim (heartbeat_config_of url body) [
      | err raised ↦ (server_error, record g { provider_config = some cfg })
      | ok heartbeat ↦ start_services start attaches cfg url heartbeat g
    ]

-- set_provider_keys, which holds `_keys_lock`: `body` is none where the request has no JSON body.
unfoldable pub set_provider_keys :
    Text → HeartbeatStart → Bool → Option KeysBody → Gateway → KeysResponse × Gateway
unfolding inject_keys
set_provider_keys default_url start attaches body g =
    if g.keys_initialized then (already_initialized, g) else elim body [
      | none ↦ (body_required, g)
      | some b ↦ inject_keys default_url start attaches b g
    ]
