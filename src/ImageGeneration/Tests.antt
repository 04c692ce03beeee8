-- ===== src/ImageGeneration/Tests.antt =====
-- References and ratios of the WaveSpeed model krea-3.
use tee_gateway.Prelude.{
  ℕ, ◌≤◌, ◌≡◌, ◌⊎◌, refl, List, [], ◌∷◌, length, All, true, Option, none, some, if◌then◌else◌,
}
use tee_gateway.Prelude.Result.{err}
use tee_gateway.Prelude.Text.{Text, codes, strip, text_eq}
use tee_gateway.Prelude.Json.{Json, null, bool, str}
use tee_gateway.Registry.Others.{krea_3}
use tee_gateway.ImageGeneration.{
  aspect_ratio_params, not_a_string, decode_data_uri, forwarded_references,
}
use tee_gateway.ImageGeneration.Laws.{IsSendable, forwarded_references-All}

-- Payloads are taken as they are, and an exclamation mark is no base64.
abbrev toy_b64decode : Text → Option (List ℕ)
toy_b64decode s = if text_eq s (codes "!") then none else some s

abbrev references : List Json
references =
    null
    ∷ str (codes "https://a/b.png")
    ∷ str (codes "data:image/png;base64,!")
    ∷ str (codes "data:;base64,AA")
    ∷ []

forwarded_references-All_example :
    ((forwarded_references toy_b64decode krea_3 references ≡ [])
      ⊎ (krea_3.image_supports_reference ≡ true))
    × (length (forwarded_references toy_b64decode krea_3 references) ≤ krea_3.image_max_references)
    × All (IsSendable toy_b64decode krea_3) (forwarded_references toy_b64decode krea_3 references)
forwarded_references-All_example = forwarded_references-All toy_b64decode krea_3 references

two_sent :
    forwarded_references toy_b64decode krea_3 references
    ≡ codes "https://a/b.png" ∷ codes "data:;base64,AA" ∷ []
unfolding forwarded_references
two_sent = refl

png_by_default :
    decode_data_uri toy_b64decode (codes "data:;base64,AA") ≡ some (codes "AA", codes "image/png")
unfolding decode_data_uri strip
png_by_default = refl

ratio_no_string : aspect_ratio_params krea_3 (bool true) none ≡ err not_a_string
unfolding aspect_ratio_params
ratio_no_string = refl
