-- ===== src/Moderation/Laws.antt =====
-- Failing open: what an outcome can be, and when the check raises instead.
use tee_gateway.Prelude.{
  ℕ, ◌≡◌, ◌⊎◌, refl, inl, inr, arith, Bool, Bool-cases, true, false, none, some, List, [], ◌∷◌,
  ◌==◌, ◌&&◌, take,
}
use tee_gateway.Prelude.Result.{ok, err}
use tee_gateway.Prelude.Text.{Text}
use tee_gateway.Moderation.{
  Message, Payload, mapping, not_mapping, Item, item, not_dict, ModerationReply, request_error,
  reply, ModerationOutcome, unchecked, attribute_error, hits, any_blocked, read_item, read_reply,
  moderate_messages, extract_moderation_input, payload, is_blank, has_none, max_text_chars,
  max_image_parts,
}

-- An unchecked outcome flags and blocks nothing; a checked one reports the sorted names of the
-- categories that a 200 answer sets, and blocks exactly for those of them that are blocked.
abbrev pub IsVerdict :
    (List Text → List Text) → (Payload → ModerationReply) → ModerationOutcome → Type 0
IsVerdict sort post o =
    ((e : Bool) × (o ≡ unchecked e))
    ⊎ ((sent : Payload) × (flags : List (Text × Bool)) × (post sent
          ≡ reply 200 (some (item o.flagged (mapping flags) true)))
        × (o.checked ≡ true)
        × (o.categories ≡ sort (hits flags))
        × (o.blocked ≡ any_blocked o.categories))

read_item-IsVerdict :
    (sort : List Text → List Text) (post : Payload → ModerationReply) (sent : Payload) (r : Item)
    (o : ModerationOutcome)
    → post sent ≡ reply 200 (some r)
    → read_item sort r ≡ ok o
    → IsVerdict sort post o
unfolding read_item
read_item-IsVerdict sort post sent not_dict o p h = absurd (ground (arith, h))
read_item-IsVerdict sort post sent (item flagged not_mapping scores) o p h =
    absurd (ground (arith, h))
read_item-IsVerdict sort post sent (item flagged (mapping flags) false) o p h =
    absurd (ground (arith, h))
read_item-IsVerdict sort post sent (item flagged (mapping flags) true) o p h =
    let same : record {
      checked = true;
      flagged = flagged;
      blocked = any_blocked (sort (hits flags));
      categories = sort (hits flags);
      error = false;
    }
        ≡ o =
      ground (arith, h) in
    rw (← same) (inr (sent, flags, p, refl, refl, refl))

read_reply-IsVerdict :
    (sort : List Text → List Text) (post : Payload → ModerationReply) (sent : Payload)
    (r : ModerationReply) (o : ModerationOutcome)
    → post sent ≡ r
    → read_reply sort r ≡ ok o
    → IsVerdict sort post o
unfolding read_reply
read_reply-IsVerdict sort post sent request_error o p h = inl (true, ground (arith, h))
read_reply-IsVerdict sort post sent (reply status none) o p h = inl (true, ground (arith, h))
read_reply-IsVerdict sort post sent (reply status (some r)) o p h =
    elim (Bool-cases (status == 200)) [
      | inl good ↦
          let is_200 : status ≡ 200 = ground (arith, good) in
          read_item-IsVerdict sort post sent r o (rw (← is_200) p) (ground (arith, good, h))
      | inr bad ↦ inl (true, ground (arith, bad, h))
    ]

-- If `moderate_messages` returns, a request that could not be scored is neither flagged nor blocked,
-- and one that was scored carries the verdict of a 200 answer: its flag, the sorted names of the
-- categories that it sets, and a block exactly if a blocked category is among those.
pub moderate_messages-IsVerdict :
    (sort : List Text → List Text) (available : Bool) (post : Payload → ModerationReply)
    (messages : List Message) (o : ModerationOutcome)
    → moderate_messages sort available post messages ≡ ok o
    → IsVerdict sort post o
unfolding moderate_messages
moderate_messages-IsVerdict sort available post messages o h =
    let found = extract_moderation_input messages ([], []) in
    let text = take max_text_chars found.0 in
    let images = take max_image_parts found.1 in
    elim (Bool-cases available) [
      | inr off ↦ inl (false, ground (arith, off, h))
      | inl on ↦ elim (Bool-cases (is_blank text && has_none images)) [
        | inl empty ↦ inl (false, ground (arith, on, empty, h))
        | inr scored ↦
            read_reply-IsVerdict sort post (payload text images) (post (payload text images)) o refl
              (ground (arith, on, scored, h))
      ]
    ]

-- The check can raise, although it is meant to fail open: with a key, and with a text that is not
-- blank and no image to score, an endpoint that answers 200 with a first result that is not an object
-- makes it raise an AttributeError.
pub moderate_messages_escapes :
    (sort : List Text → List Text) (post : Payload → ModerationReply) (messages : List Message)
    (c : ℕ) (t : Text)
    → extract_moderation_input messages ([], []) ≡ (c ∷ t, [])
    → is_blank (take max_text_chars (c ∷ t)) ≡ false
    → ((sent : Payload) → post sent ≡ reply 200 (some not_dict))
    → moderate_messages sort true post messages ≡ err attribute_error
unfolding moderate_messages read_reply read_item
moderate_messages_escapes sort post messages c t e full answered =
    rw (moderate_messages, e, full, answered (payload (take max_text_chars (c ∷ t)) [])) refl
