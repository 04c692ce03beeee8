-- ===== src/Moderation.antt =====
-- tee_gateway/moderation.py: the check of a prompt before an image model. Scores are left out: they are
-- reported and decide nothing. What `response.json()` gives is told apart as far as the code does.
pub mod Laws
mod Tests
use tee_gateway.Prelude.{
  ℕ, Bool, true, false, not, ◌&&◌, ◌||◌, Option, none, some, List, [], ◌∷◌, ◌++◌, take, ◌==◌,
  if◌then◌else◌,
}
use tee_gateway.Prelude.Result.{Result, ok, err}
use tee_gateway.Prelude.Text.{Text, codes, text_eq, text_mem, strip, lower, starts_with}

abbrev pub blocked_categories : List Text
blocked_categories = codes "sexual/minors" ∷ []

abbrev pub max_text_chars : ℕ
max_text_chars = 20000

abbrev pub max_image_parts : ℕ
max_image_parts = 5

-- A part of a message's content, with its fields after `or`: a text, the URL of an image_url part if
-- it is a string, the data and the MIME type of an image part, or a part of another type.
pub data Part : Type 0 where
  bare : Text → Part
  text_part : Text → Part
  image_url : Option Text → Part
  image : Text → Text → Part
  other_part : Part

-- None, a string, a list, or another value by its `str`.
pub data Content : Type 0 where
  no_content : Content
  string : Text → Content
  parts : List Part → Content
  other_content : Text → Content

pub record Message : Type 0 where
  pub role : Text
  pub content : Content

abbrev pub is_scoreable_url : Text → Bool
is_scoreable_url url =
    starts_with url (codes "data:")
    || (starts_with url (codes "http://") || starts_with url (codes "https://"))

abbrev pub text_of : Part → List Text
text_of (bare t) = t ∷ []
text_of (text_part []) = []
text_of (text_part (c ∷ t)) = (c ∷ t) ∷ []
text_of _ = []

abbrev pub image_of : Part → List Text
image_of (image_url (some url)) = if is_scoreable_url url then url ∷ [] else []
image_of (image [] mime) = []
image_of (image (c ∷ base64) mime) =
    (codes "data:" ++ (mime ++ (codes ";base64," ++ (c ∷ base64)))) ∷ []
image_of _ = []

abbrev pub join_lines : List Text → Text
join_lines [] = []
join_lines (t ∷ []) = t
join_lines (t ∷ u ∷ ts) = t ++ (10 ∷ join_lines (u ∷ ts))

abbrev pub gather : (Part → List Text) → List Part → List Text
gather f [] = []
gather f (p ∷ ps) = f p ++ gather f ps

-- _split_content
unfoldable pub split_content : Content → Text × List Text
split_content no_content = ([], [])
split_content (string t) = (t, [])
split_content (other_content t) = (t, [])
split_content (parts ps) = (join_lines (gather text_of ps), gather image_of ps)

-- The newest user turn: the last one in the list.
unfoldable pub extract_moderation_input : List Message → Text × List Text → Text × List Text
unfolding split_content
extract_moderation_input [] found = found
extract_moderation_input (m ∷ ms) found =
    extract_moderation_input ms
      (if text_eq (lower m.role) (codes "user") then split_content m.content else found)

-- The input that is sent: a string, or a list of an optional text and images.
pub data Payload : Type 0 where
  plain : Text → Payload
  listed : Option Text → List Text → Payload

abbrev pub is_blank : Text → Bool
is_blank t = elim (strip t) [ [] ↦ true | _ ∷ _ ↦ false ]

abbrev pub has_none : List Text → Bool
has_none [] = true
has_none (url ∷ urls) = false

unfoldable pub payload : Text → List Text → Payload
payload text [] = plain text
payload text (url ∷ urls) = listed (if is_blank text then none else some text) (url ∷ urls)

-- A mapping, after `or {}`; `not_mapping` has no `items`.
pub data Flags : Type 0 where
  mapping : List (Text × Bool) → Flags
  not_mapping : Flags

-- results[0]: a dict by its `flagged` and `categories`, and whether its scores are a mapping; or a
-- value without `get`.
pub data Item : Type 0 where
  item : Bool → Flags → Bool → Item
  not_dict : Item

-- No answer, or a status and, for 200, the first result, none where reading it raises one of the
-- errors that the code catches.
pub data ModerationReply : Type 0 where
  request_error : ModerationReply
  reply : ℕ → Option Item → ModerationReply

pub record ModerationOutcome : Type 0 where
  pub checked : Bool
  pub flagged : Bool
  pub blocked : Bool
  pub categories : List Text
  pub error : Bool

abbrev pub unchecked : Bool → ModerationOutcome
unchecked error = record {
  checked = false;
  flagged = false;
  blocked = false;
  categories = [];
  error = error;
}

-- An AttributeError, which `moderate_messages` does not catch.
pub data Escaped : Type 0 where
  attribute_error : Escaped

-- The names that are set, before they are sorted.
abbrev pub hits : List (Text × Bool) → List Text
hits [] = []
hits ((name, hit) ∷ flags) = if hit then name ∷ hits flags else hits flags

abbrev pub any_blocked : List Text → Bool
any_blocked [] = false
any_blocked (name ∷ names) = text_mem name blocked_categories || any_blocked names

-- From the first result to the outcome. `sort` is Python's `sorted` on strings.
unfoldable pub read_item : (List Text → List Text) → Item → Result Escaped ModerationOutcome
read_item sort not_dict = err attribute_error
read_item sort (item flagged not_mapping scores) = err attribute_error
read_item sort (item flagged (mapping flags) false) = err attribute_error
read_item sort (item flagged (mapping flags) true) = ok (record {
  checked = true;
  flagged = flagged;
  blocked = any_blocked (sort (hits flags));
  categories = sort (hits flags);
  error = false;
})

unfoldable pub read_reply :
    (List Text → List Text) → ModerationReply → Result Escaped ModerationOutcome
unfolding read_item
read_reply sort request_error = ok (unchecked true)
read_reply sort (reply status none) = ok (unchecked true)
read_reply sort (reply status (some result)) =
    if status == 200 then read_item sort result else ok (unchecked true)

-- moderate_messages: `available` says that a key was injected, `post` what the endpoint answers.
unfoldable pub moderate_messages :
    (List Text → List Text)
    → Bool
    → (Payload → ModerationReply)
    → List Message
    → Result Escaped ModerationOutcome
unfolding extract_moderation_input payload read_reply
moderate_messages sort available post messages =
    let (whole, urls) = extract_moderation_input messages ([], []) in
    let text = take max_text_chars whole in
    let images = take max_image_parts urls in
    if not available
    then ok (unchecked false)
    else if is_blank text && has_none images
    then ok (unchecked false)
    else read_reply sort (post (payload text images))

abbrev pub join_commas : List Text → Text
join_commas [] = []
join_commas (t ∷ []) = t
join_commas (t ∷ u ∷ ts) = t ++ (b',' ∷ join_commas (u ∷ ts))

-- ModerationOutcome.headers
abbrev pub headers : ModerationOutcome → List (Text × Text)
headers o =
    if not o.flagged
    then []
    else ((codes "X-Moderation-Flagged", codes "true")
        ∷ (codes "X-Moderation-Categories", join_commas o.categories)
        ∷ (if o.blocked then (codes "X-Moderation-Blocked", codes "true") ∷ [] else []))
