-- ===== src/Lib.antt =====
-- tee-gateway: an OpenAI-compatible gateway that runs in an enclave, takes requests in the clear or
-- wrapped in Oblivious HTTP, forwards them to model providers, and settles the cost of each in OPG
-- tokens through x402.
--
-- The parts and their files. A paid request first meets BodyPreread (tee_gateway/body_preread.py),
-- which reads its upload or refuses it, and then the pricing gate, Gateway.Gate
-- (`_check_pricing_ready` of tee_gateway/__main__.py), which asks PriceFeed
-- (tee_gateway/price_feed/feed.py, config.py) for a price and Registry (tee_gateway/model_registry.py)
-- for the model. An anonymous request is opened and its answer sealed by Ohttp
-- (tee_gateway/ohttp.py). A failure is answered as Errors (tee_gateway/errors.py) classifies it. When
-- the work is done Pricing (tee_gateway/pricing.py) computes the cost from the usage, the registry and
-- the price. Gateway.Keys (`set_provider_keys` of tee_gateway/__main__.py) injects the configuration,
-- and Heartbeat (tee_gateway/heartbeat/heartbeat.py) reports that the enclave is alive. Moderation
-- (tee_gateway/moderation.py) scores the prompts of image models. OhttpController
-- (tee_gateway/controllers/ohttp_controller.py) opens an anonymous request, strips it, dispatches it
-- to the application itself and seals the answer, with the cost that x402 charges told to the relay.
-- WebSearch (tee_gateway/web_search.py and controllers/web_search_controller.py) runs one search and
-- signs it with Attestation (tee_gateway/tee_manager.py), which hashes what the enclave signs.
-- ChatStream (tee_gateway/controllers/chat_controller.py) is the generator of a streamed completion,
-- which signs what it has sent and charges it with Pricing, and LlmBackend (tee_gateway/llm_backend.py)
-- reads the attachments of a request and the usage of an answer. Completions
-- (tee_gateway/controllers/completions_controller.py) answers a text completion and signs it.
-- ImageGeneration (tee_gateway/image_generation.py) checks the shape of an image and its references.
--
-- How code becomes definitions. A function has the source's name without a leading underscore. An
-- object is a record of its fields, and a method is a function from the record to the record. An
-- exception is `err` of a `Result`, or a constructor of the answer. Bytes are lists of numbers, text
-- that the code walks through is a list of code points (Prelude.Text), and a dict is the list of its
-- entries. Other libraries appear as the outcomes that the code tells apart: a reply of CoinGecko or of
-- the facilitator, whether a constructor raises, what `int` makes of a JSON value.
--   * Ohttp.Varint: encode_varint, decode_varint. Ohttp.Request: key_config, decapsulate_request.
--     Ohttp.Response: ChunkedResponseEncrypter, encapsulate_response. Ohttp.Client: the client of
--     scripts/test_ohttp.py, which the exchange is proved against. Ohttp.Crypto: HPKE, the AEAD and
--     the key derivation, as records of operations with the laws that the code relies on (opening
--     undoes sealing, exports agree, lengths); Ohttp.Toy has functions that meet them. Ohttp.Stream
--     writes a whole chunked response.
--   * Decimal: Python's decimal arithmetic, 28 digits, ties to even. Values are not negative, and the
--     exponents stay far from the context's limits.
--   * PriceFeed.Fetch reads an answer, PriceFeed keeps the cache, PriceFeed.Start has the two steps of
--     concurrent callers of `start`.
--   * OhttpController.Context has the cost context and `_session_cost_calculator`, Headers what passes
--     to the relay, Streaming the generator of a streamed answer as the list of what it yields,
--     Subrequest the inner WSGI environment, Handler the handler. JSON values are Prelude.Json; its
--     parser and printer, and UTF-8, are fields of Context.Codec.
--   * WebSearch has the call of Exa by its outcomes, Format the text and the citations, Controller the
--     handler. Attestation.Hex is bytes.hex and bytes.fromhex.
--   * LlmBackend.Attachments converts and normalises content parts, Validate checks them against the
--     model and gives their canonical text, Usage has extract_usage. ChatStream.State has the variables
--     of `generate`, ChatStream its loop and its end; an event stands for the JSON text of it.
--   * Registry.OpenAi and its siblings hold the members of SupportedModel, Registry.Lookup the names.
--
-- Bounds and fuel. Chunk counters are below 2^96, where the 12-byte nonce repeats, and lengths below
-- 2^62, where the framing ends. `decrypt_chunks` runs on one more than the stream's length, and each
-- round takes at least one byte. `digits_fuel` runs on the number itself, which has no more digits.
-- The retry loops run on the number of attempts that is left.
--
-- Not modelled: of the chat controller all but its streaming generator; of image generation all but
-- the checks of a request and its references; convert_messages and the provider clients; key
-- generation and the registration of the enclave; a client that hangs up in the middle of a stream;
-- the scores that moderation reports, and so the OverflowError of a score that no float can hold;
-- logging; JSON text. Times are whole seconds, and str.lower is that of ASCII. The texts that the
-- enclave hashes have no lone surrogates, which UTF-8 refuses, and a chunk that is sealed is shorter
-- than 2^31 bytes, the limit of the cipher's implementation. json.loads of an inner body or of an
-- event gives a value or a JSONDecodeError: an integer of more than 4300 digits and a nesting beyond
-- the recursion limit, for which it raises otherwise, are left out, and with them an exception in the
-- `finally` clause of the streaming answer. In a streamed completion the items of a chunk's content
-- have texts, a fragment of a tool call has an index, and the moderation verdict on the final event
-- is left out.
pub mod Prelude
pub mod Ohttp
pub mod Errors
pub mod Decimal
pub mod PriceFeed
pub mod Registry
pub mod Pricing
pub mod BodyPreread
pub mod Gateway
pub mod Heartbeat
pub mod Moderation
pub mod Attestation
pub mod OhttpController
pub mod WebSearch
pub mod LlmBackend
pub mod ChatStream
pub mod Completions
pub mod ImageGeneration
