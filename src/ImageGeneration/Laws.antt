-- ===== src/ImageGeneration/Laws.antt =====
-- The references that are forwarded.
use tee_gateway.Prelude.{
  ℕ, zero, suc, ◌≤◌, ◌≡◌, ◌≢◌, ◌⊎◌, inl, inr, refl, List, [], ◌∷◌, length, take, All, true, false,
  Option, Bool-cases, arith,
}
use tee_gateway.Prelude.Text.{Text, codes, text_eq}
use tee_gateway.Prelude.Json.{Json, null, bool, int, float, str, arr, obj}
use tee_gateway.Registry.Model.{ModelConfig}
use tee_gateway.ImageGeneration.{nonempty_texts, is_uploadable, uploadable, forwarded_references}

length-take_le {ℓ} : {A : Type ℓ} (n : ℕ) (xs : List A) → length (take n xs) ≤ n
length-take_le zero xs = omega arith
length-take_le (suc n) [] = omega arith
length-take_le (suc n) (x ∷ xs) = let rest = length-take_le n xs in omega arith

All-take {ℓ κ} : {A : Type ℓ} (P : A → Type κ) (n : ℕ) (xs : List A) → All P xs → All P (take n xs)
All-take P zero xs all = tt
All-take P (suc n) [] all = tt
All-take P (suc n) (x ∷ xs) (first, others) = (first, All-take P n xs others)

nonempty_texts-All : (refs : List Json) → All (λ ref. ref ≢ []) (nonempty_texts refs)
nonempty_texts-All [] = tt
nonempty_texts-All (str (c ∷ s) ∷ refs) = (ground (arith), nonempty_texts-All refs)
nonempty_texts-All (str [] ∷ refs) = nonempty_texts-All refs
nonempty_texts-All (null ∷ refs) = nonempty_texts-All refs
nonempty_texts-All (bool b ∷ refs) = nonempty_texts-All refs
nonempty_texts-All (int n ∷ refs) = nonempty_texts-All refs
nonempty_texts-All (float x ∷ refs) = nonempty_texts-All refs
nonempty_texts-All (arr vs ∷ refs) = nonempty_texts-All refs
nonempty_texts-All (obj fs ∷ refs) = nonempty_texts-All refs

module _ (b64decode : Text → Option (List ℕ)) where
  -- A reference that may be sent: a text that is not empty, and for WaveSpeed one that it can take.
  abbrev pub IsSendable : ModelConfig → Text → Type 0
  IsSendable cfg ref =
      (ref ≢ [])
      × ((text_eq (codes cfg.provider) (codes "wavespeed") ≡ false)
          ⊎ (is_uploadable b64decode ref ≡ true))

  All-plain :
      (cfg : ModelConfig) (refs : List Text)
      → text_eq (codes cfg.provider) (codes "wavespeed") ≡ false
      → All (λ ref. ref ≢ []) refs
      → All (IsSendable cfg) refs
  All-plain cfg [] other all = tt
  All-plain cfg (ref ∷ refs) other (first, others) =
      ((first, inl other), All-plain cfg refs other others)

  uploadable-All :
      (cfg : ModelConfig) (refs : List Text)
      → All (λ ref. ref ≢ []) refs
      → All (IsSendable cfg) (uploadable b64decode refs)
  uploadable-All cfg [] all = tt
  uploadable-All cfg (ref ∷ refs) (first, others) =
      elim (Bool-cases (is_uploadable b64decode ref)) [
        | inl fits ↦ rw (fits) ((first, inr fits), uploadable-All cfg refs others)
        | inr dropped ↦ rw (dropped) (uploadable-All cfg refs others)
      ]

  -- The references that a request sends are none, or its model takes references; there are no more
  -- than the model's maximum; none is empty, and to WaveSpeed goes none that is an inline image
  -- which does not decode.
  pub forwarded_references-All :
      (cfg : ModelConfig) (references : List Json)
      → ((forwarded_references b64decode cfg references ≡ [])
          ⊎ (cfg.image_supports_reference ≡ true))
        × (length (forwarded_references b64decode cfg references) ≤ cfg.image_max_references)
        × All (IsSendable cfg) (forwarded_references b64decode cfg references)
  unfolding forwarded_references
  forwarded_references-All cfg references =
      let refs = nonempty_texts references in
      let all = nonempty_texts-All references in
      elim (Bool-cases cfg.image_supports_reference) [
        | inr without ↦ rw (without) (inl refl, omega arith, tt)
        | inl taken ↦ elim (Bool-cases (text_eq (codes cfg.provider) (codes "wavespeed"))) [
          | inl wave ↦
              rw (taken, wave)
                (
                  inr refl,
                  length-take_le cfg.image_max_references (uploadable b64decode refs),
                  All-take (IsSendable cfg) cfg.image_max_references (uploadable b64decode refs)
                      (uploadable-All cfg refs all),
                )
          | inr plain ↦
              rw (taken, plain)
                (
                  inr refl,
                  length-take_le cfg.image_max_references refs,
                  All-take (IsSendable cfg) cfg.image_max_references refs
                      (All-plain cfg refs plain all),
                )
        ]
      ]
