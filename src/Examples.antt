-- ===== src/Examples.antt =====
-- Concrete inputs, and the theorems of the other modules applied to them. The character table is
-- the ASCII part of Unicode, in which lower-case text folds to itself.
use l2c.Common.{
  ℕ, ◌≤◌, String, Bool, true, false, ◌&&◌, ◌||◌, not, Option, none, some, List, [], ◌∷◌, leb,
  nat_eq, ◌==◌,
}
use Prim.Native.Char.{Char, code}
use l2c.Common.Text.{Unicode}
use l2c.Worker.State.{Marker, Card, CardStatus, pending, WorkerState, create_worker_state}
use l2c.Site.{Guidance, Sites}
pub mod Cards
pub mod Runs
pub mod Plans
pub mod Graphs
pub mod Actions
pub mod Executions
pub mod Details
pub mod Selections

abbrev pub between : ℕ → ℕ → Char → Bool
between lo hi c = leb lo (code c) && leb (code c) hi

abbrev pub ascii : Unicode
ascii = record {
  is_space = λ c. nat_eq (code c) 32;
  is_alnum = λ c. between 48 57 c || between 97 122 c;
  is_digit = between 48 57;
  fold = λ c. String.◌∷◌ c String.[];
  lower = λ c. String.◌∷◌ c String.[];
}

abbrev pub no_guidance : Guidance
no_guidance = record { url_patterns = []; visible_cues = []; minimum_visible_cues = 0 }

-- A site whose detail pages are those whose URL equals the pattern.
abbrev pub detail_guidance : Guidance
detail_guidance = record {
  url_patterns = "/job" ∷ [];
  visible_cues = "apply" ∷ [];
  minimum_visible_cues = 1;
}

abbrev pub sites : Sites
sites = record {
  unicode = ascii;
  detail_guidance = λ url. detail_guidance;
  re_search = λ pattern text. pattern == text;
}
