-- ===== src/Site.antt =====
-- agent/runtime/site_context.py: page roles and the evidence for a job detail page.
-- A site's profile is read from a JSON file through pydantic, and the patterns are run by `re`:
-- both are parameters, as a function from a URL to the declared guidance of its detail page and a
-- pattern search.
use l2c.Common.{
  ℕ, String, ◌≡◌, arith, Bool, true, ◌&&◌, ◌||◌, not, List, [], ◌∷◌, ◌==◌, leb, length, keep, any,
  if◌then◌else◌,
}
use l2c.Common.Text.{
  Unicode, is_empty, append, contains, replace_char, strip, casefold, normalize_text,
}

-- `PageGuidance`; an undeclared guidance has no patterns and no cues.
pub record Guidance : Type 0 where
  pub url_patterns : List String
  pub visible_cues : List String
  pub minimum_visible_cues : ℕ

pub record Sites : Type 0 where
  pub unicode : Unicode
  pub detail_guidance : String → Guidance
  pub re_search : String → String → Bool

-- `_PAGE_ROLE_ALIASES.get(role, role)`
unfoldable pub page_role_alias : String → String
page_role_alias role =
    if role == "detail"
      || role == "posting_detail"
      || role == "jobdetail"
      || role == "detail_tab"
      || role == "side_panel_detail"
    then "job_detail"
    else if role == "list" || role == "results" || role == "search_results"
    then "search"
    else role

unfoldable pub normalize_page_role : Unicode → String → String
unfolding page_role_alias
normalize_page_role u value =
    page_role_alias
      (replace_char b'-' "_" (replace_char b' ' "_" (casefold u (normalize_text u value))))

module _ (sites : Sites) where
  open sites use {unicode, detail_guidance, re_search}

  unfoldable pub matches_declared_url_pattern : String → List String → Bool
  matches_declared_url_pattern url patterns =
      any
        (λ raw. let pattern = strip unicode raw in not (is_empty pattern) && re_search pattern url)
        patterns

  unfoldable pub looks_like_job_detail_url : String → Bool
  unfolding matches_declared_url_pattern
  looks_like_job_detail_url url =
      not (is_empty url) && matches_declared_url_pattern url (detail_guidance url).url_patterns

  -- `" ".join(texts)`
  joined : List String → String
  joined [] = ""
  joined (t ∷ []) = t
  joined (t ∷ s ∷ ts) = append t (append " " (joined (s ∷ ts)))

  -- `re.sub(r"\s+", "", text)`
  no_spaces : String → String
  no_spaces String.[] = String.[]
  no_spaces (String.◌∷◌ c s) =
      let rest = no_spaces s in if unicode.is_space c then rest else String.◌∷◌ c rest

  unfoldable pub matched_visible_cues : List String → List String → List String
  unfolding joined no_spaces
  matched_visible_cues texts cues =
      let page = no_spaces (casefold unicode (normalize_text unicode (joined texts))) in
      keep
        (λ raw.
          let cue = no_spaces (casefold unicode (normalize_text unicode raw)) in
          not (is_empty cue) && contains cue page)
        cues

  unfoldable pub is_job_detail_context : String → String → List String → Bool
  unfolding matches_declared_url_pattern matched_visible_cues
  is_job_detail_context url page_role texts =
      let guidance = detail_guidance url in
      let cues = guidance.visible_cues in
      let matched = matched_visible_cues texts cues in
      let minimum =
        (if leb 1 guidance.minimum_visible_cues then guidance.minimum_visible_cues else 2) in
      normalize_page_role unicode page_role == "job_detail"
      || (not (is_empty url) && matches_declared_url_pattern url guidance.url_patterns)
      || (leb 1 (length cues) && leb minimum (length matched))

  -- A page whose URL matches a declared detail pattern is a detail page, whatever its role and
  -- text.
  pub is_job_detail_context_of_url :
      (url role : String) (texts : List String)
      → looks_like_job_detail_url url ≡ true
      → is_job_detail_context url role texts ≡ true
  unfolding is_job_detail_context looks_like_job_detail_url
  is_job_detail_context_of_url url role texts h = ground arith
