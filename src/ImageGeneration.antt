-- ===== src/ImageGeneration.antt =====
-- tee_gateway/image_generation.py: what is checked of an image request, and the reference images
-- that are sent with it. base64.b64decode is an argument.
mod Laws
mod Tests
use tee_gateway.Prelude.{
  ℕ, String, List, [], ◌∷◌, length, take, drop, Bool, true, false, Option, none, some, ◌==◌, ◌||◌,
  not, if◌then◌else◌,
}
use tee_gateway.Prelude.Result.{Result, ok, err}
use tee_gateway.Prelude.Text.{Text, codes, text_eq, text_mem, starts_with, before, strip}
use tee_gateway.Prelude.Json.{Json, null, str}
use tee_gateway.LlmBackend.Attachments.{after}
use tee_gateway.Registry.Model.{ModelConfig, ImageResolutionTier, RegistryError, image_tier}
use tee_gateway.Registry.{get_model_config}

-- The ValueErrors, and what image_tier raises.
pub data ShapeError : Type 0 where
  not_a_string : ShapeError
  unsupported_aspect_ratio : ShapeError
  tier_error : RegistryError → ShapeError

abbrev pub find_ratio : Text → List (String × String) → Option String
find_ratio ratio [] = none
find_ratio ratio (entry ∷ entries) =
    let rest = find_ratio ratio entries in
    if text_eq ratio (codes entry.0) then some entry.1 else rest

abbrev pub supported_ratios : ModelConfig → Option ImageResolutionTier → List (String × String)
supported_ratios cfg (some tier) = tier.aspect_ratios
supported_ratios cfg none = elim cfg.image_aspect_ratios [ none ↦ [] | some ratios ↦ ratios ]

-- A ratio that is neither empty nor auto.
unfoldable pub ratio_params :
    ModelConfig → Text → Option Text → Result ShapeError (List (String × String))
ratio_params cfg ratio resolution = elim (image_tier cfg resolution) [
  | err e ↦ err (tier_error e)
  | ok tier ↦ elim (find_ratio ratio (supported_ratios cfg tier)) [
    | none ↦ err unsupported_aspect_ratio
    | some value ↦ ok ((cfg.image_aspect_ratio_param, value) ∷ [])
  ]
]

unfoldable pub aspect_ratio_params :
    ModelConfig → Json → Option Text → Result ShapeError (List (String × String))
unfolding ratio_params
aspect_ratio_params cfg null resolution = ok []
aspect_ratio_params cfg (str s) resolution =
    if text_mem (strip s) ([] ∷ codes "auto" ∷ [])
    then ok []
    else ratio_params cfg (strip s) resolution
aspect_ratio_params cfg _ resolution = err not_a_string

unfoldable pub validate_aspect_ratio : Text → Json → Option Text → Result ShapeError (Unit {0})
unfolding aspect_ratio_params
validate_aspect_ratio model null resolution = ok tt
validate_aspect_ratio model aspect_ratio resolution = elim (get_model_config model) [
  | err e ↦ ok tt
  | ok cfg ↦
      if cfg.image_generation || cfg.image_output
      then elim (aspect_ratio_params cfg aspect_ratio resolution) [
        | err e ↦ err e
        | ok params ↦ ok tt
      ]
      else ok tt
]

unfoldable pub validate_resolution : Text → Option Text → Result RegistryError (Unit {0})
validate_resolution model none = ok tt
validate_resolution model (some resolution) = elim (get_model_config model) [
  | err e ↦ ok tt
  | ok cfg ↦
      if cfg.image_generation || cfg.image_output
      then elim (image_tier cfg (some resolution)) [ err e ↦ err e | ok tier ↦ ok tt ]
      else ok tt
]

-- text.split(separator)
abbrev pub split_on : ℕ → Text → Text × List Text
split_on separator [] = ([], [])
split_on separator (c ∷ s) =
    let rest = split_on separator s in
    if c == separator then ([], rest.0 ∷ rest.1) else (c ∷ rest.0, rest.1)

abbrev pub mime_or_png : Text → Text
mime_or_png [] = codes "image/png"
mime_or_png (c ∷ s) = c ∷ s

-- The texts that are not empty.
abbrev pub nonempty_texts : List Json → List Text
nonempty_texts [] = []
nonempty_texts (str (c ∷ s) ∷ refs) = (c ∷ s) ∷ nonempty_texts refs
nonempty_texts (_ ∷ refs) = nonempty_texts refs

module _ (b64decode : Text → Option (List ℕ)) where
  -- The payload of a data URI whose parameters name base64.
  unfoldable pub decode_payload : Text → Text → Option (List ℕ × Text)
  decode_payload mime b64 = elim (b64decode b64) [
    | none ↦ none
    | some [] ↦ none
    | some (b ∷ raw) ↦ some (b ∷ raw, mime_or_png (strip mime))
  ]

  unfoldable pub decode_data_uri : Text → Option (List ℕ × Text)
  unfolding decode_payload after before starts_with
  decode_data_uri uri =
      let params = split_on b';' (drop 5 (before b',' uri)) in
      if starts_with uri (codes "data:")
      then elim (after b',' uri) [
        | none ↦ none
        | some [] ↦ none
        | some (c ∷ b64) ↦
            if text_mem (codes "base64") params.1 then decode_payload params.0 (c ∷ b64) else none
      ]
      else none

  -- A reference that WaveSpeed can be given.
  unfoldable pub is_uploadable : Text → Bool
  unfolding decode_data_uri
  is_uploadable ref =
      not (starts_with ref (codes "data:"))
      || elim (decode_data_uri ref) [ none ↦ false | some decoded ↦ true ]

  abbrev pub uploadable : List Text → List Text
  uploadable [] = []
  uploadable (ref ∷ refs) =
      let rest = uploadable refs in if is_uploadable ref then ref ∷ rest else rest

  -- No references are an empty list.
  unfoldable pub forwarded_references : ModelConfig → List Json → List Text
  unfolding is_uploadable
  forwarded_references cfg references =
      let refs = nonempty_texts references in
      if cfg.image_supports_reference
      then take cfg.image_max_references
          (if text_eq (codes cfg.provider) (codes "wavespeed") then uploadable refs else refs)
      else []
