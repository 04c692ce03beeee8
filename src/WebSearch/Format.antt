-- ===== src/WebSearch/Format.antt =====
-- `_format_results` and `_clean_str`: the blocks that the model is shown, with their citations.
use tee_gateway.Prelude.{
  ℕ, ◌+◌, List, [], ◌∷◌, ◌++◌, length, take, Option, none, some, ltb, ◌&&◌, if◌then◌else◌,
}
use tee_gateway.Prelude.Text.{Text, codes, strip, rstrip, decimal}
use tee_gateway.Prelude.Json.{Json, str, obj, get}

abbrev pub max_result_chars : ℕ
max_result_chars = 1500

abbrev pub max_total_chars : ℕ
max_total_chars = 12000

pub record Citation : Type 0 where
  pub title : Text
  pub url : Text
  pub published_date : Option Text

-- A result that can be cited, cleaned.
pub record Source : Type 0 where
  pub title : Text
  pub url : Text
  pub published : Text
  pub author : Text
  pub excerpt : Text

unfoldable pub clean_str : Json → Text
clean_str (str s) = strip s
clean_str _ = []

abbrev pub newline : ℕ
newline = 10

-- if len(text) > MAX_RESULT_CHARS
unfoldable pub shorten : Text → Text
shorten text =
    if ltb max_result_chars (length text)
    then rstrip (take max_result_chars text) ++ (0x2026 ∷ [])
    else text

abbrev pub title_or : Text → Text → Text
title_or [] url = url
title_or (c ∷ s) url = c ∷ s

-- The results that are no dict, or have no url, are skipped.
unfoldable pub source_of : Json → Option Source
unfolding clean_str shorten
source_of (obj item) = elim (get (codes "url") item) [
  | str (c ∷ url) ↦ some (record {
    title = title_or (clean_str (get (codes "title") item)) (c ∷ url);
    url = c ∷ url;
    published = clean_str (get (codes "publishedDate") item);
    author = clean_str (get (codes "author") item);
    excerpt = shorten (clean_str (get (codes "text") item));
  })
  | _ ↦ none
]
source_of _ = none

-- A line that stands only if its text is not empty.
abbrev pub line_if : Text → Text → List Text
line_if [] line = []
line_if (c ∷ s) line = line ∷ []

-- separator.join(lines)
abbrev pub join_texts : Text → List Text → Text
join_texts separator [] = []
join_texts separator (line ∷ []) = line
join_texts separator (line ∷ next ∷ lines) =
    line ++ (separator ++ join_texts separator (next ∷ lines))

unfoldable pub block_of : ℕ → Source → Text
block_of index s = join_texts (newline ∷ []) (
    (codes "[" ++ (decimal index ++ (codes "] " ++ s.title)))
    ∷ (codes "URL: " ++ s.url)
    ∷ (line_if s.published (codes "Published: " ++ take 10 s.published)
        ++ (line_if s.author (codes "Author: " ++ s.author) ++ line_if s.excerpt s.excerpt)))

abbrev pub citation_of : Source → Citation
citation_of s = record {
  title = s.title;
  url = s.url;
  published_date = elim s.published [ [] ↦ none | c ∷ p ↦ some (c ∷ p) ];
}

-- The loop: `count` results are cited, and `used` characters are used.
unfoldable pub collect : ℕ → ℕ → List Json → List (Text × Citation)
unfolding source_of block_of
collect count used [] = []
collect count used (item ∷ items) =
    let skipped = collect count used items in
    elim (source_of item) [
      | none ↦ skipped
      | some source ↦
          let block = block_of (count + 1) source in
          let rest = collect (count + 1) (used + (length block + 2)) items in
          if ltb 0 count && ltb max_total_chars (used + (length block + 2))
          then []
          else (block, citation_of source) ∷ rest
    ]

abbrev pub blocks_of : List (Text × Citation) → List Text
blocks_of [] = []
blocks_of (entry ∷ entries) = entry.0 ∷ blocks_of entries

abbrev pub citations_of : List (Text × Citation) → List Citation
citations_of [] = []
citations_of (entry ∷ entries) = entry.1 ∷ citations_of entries

abbrev pub header : Text → Text
header query = codes "Web search results for \"" ++ (query ++ (codes "\":" ++ (newline ∷ [])))

abbrev pub footer : Text
footer =
    newline
    ∷ codes
        "Cite the sources you relied on by their URL, and say so plainly if the results do not answer the question."

abbrev pub no_results_text : Text → Text
no_results_text query =
    codes "No web results were found for \""
    ++ (query
        ++ codes
            "\". Try a broader or differently-worded query, or tell the user you could not find anything.")

abbrev pub unusable_text : Text → Text
unusable_text query = codes "No usable web results were found for \"" ++ (query ++ codes "\".")

-- The text and the citations of the blocks that were collected.
unfoldable pub render : Text → List (Text × Citation) → Text × List Citation
render query [] = (unusable_text query, [])
render query (first ∷ others) =
    let blocks = join_texts (newline ∷ newline ∷ []) (blocks_of (first ∷ others)) in
    (header query ++ (newline ∷ (blocks ++ (newline ∷ footer))), citations_of (first ∷ others))

unfoldable pub format_results : Text → List Json → Text × List Citation
unfolding collect render
format_results query results = render query (collect 0 (length (header query)) results)
