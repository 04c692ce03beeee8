-- ===== src/Moderation/Tests.antt =====
-- A prompt that is blocked, and an answer that makes the check raise.
use tee_gateway.Prelude.{◌≡◌, refl, true, false, some, List, [], ◌∷◌, ◌++◌, take}
use tee_gateway.Prelude.Result.{ok, err}
use tee_gateway.Prelude.Text.{Text, codes, is_space, lstrip, rstrip, strip, lower, starts_with}
use tee_gateway.Moderation.{
  is_blank, max_text_chars, Message, Payload, string, parts, text_part, image_url, mapping, item,
  not_dict, ModerationReply, reply, ModerationOutcome, attribute_error, headers, split_content,
  payload, extract_moderation_input, read_item, read_reply, moderate_messages,
}
use tee_gateway.Moderation.Laws.{IsVerdict, moderate_messages-IsVerdict, moderate_messages_escapes}

-- A sort for lists of at most one name.
abbrev keep : List Text → List Text
keep names = names

abbrev prompt : List Message
prompt =
    record { role = codes "user"; content = string (codes "draw") }
    ∷ record { role = codes "assistant"; content = string (codes "done") }
    ∷ []

abbrev blocking : Payload → ModerationReply
blocking sent = reply 200 (some (item true (mapping ((codes "sexual/minors", true) ∷ [])) true))

abbrev verdict : ModerationOutcome
verdict = record {
  checked = true;
  flagged = true;
  blocked = true;
  categories = codes "sexual/minors" ∷ [];
  error = false;
}

prompt_blocked : moderate_messages keep true blocking prompt ≡ ok verdict
unfolding moderate_messages extract_moderation_input split_content payload read_reply read_item
    strip lstrip rstrip is_space lower
prompt_blocked = refl

two_parts :
    split_content (
      parts
        (text_part (codes "a") ∷ image_url (some (codes "ftp://x")) ∷ text_part (codes "b") ∷ []))
    ≡ (codes "a" ++ (10 ∷ codes "b"), [])
unfolding split_content starts_with
two_parts = refl

verdict-headers :
    headers verdict
    ≡ (codes "X-Moderation-Flagged", codes "true")
      ∷ (codes "X-Moderation-Categories", codes "sexual/minors")
      ∷ (codes "X-Moderation-Blocked", codes "true")
      ∷ []
verdict-headers = refl

moderate_messages-IsVerdict_example : IsVerdict keep blocking verdict
moderate_messages-IsVerdict_example =
    moderate_messages-IsVerdict keep true blocking prompt verdict prompt_blocked

extracted : extract_moderation_input prompt ([], []) ≡ (codes "draw", [])
unfolding extract_moderation_input split_content lower
extracted = refl

not_blank : is_blank (take max_text_chars (codes "draw")) ≡ false
unfolding strip lstrip rstrip is_space
not_blank = refl

moderate_messages_escapes_example :
    moderate_messages keep true (λ sent. reply 200 (some not_dict)) prompt ≡ err attribute_error
moderate_messages_escapes_example =
    moderate_messages_escapes keep (λ sent. reply 200 (some not_dict)) prompt b'd' (codes "raw")
      extracted not_blank (λ sent. refl)
