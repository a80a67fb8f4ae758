-- ===== src/Common/Text.antt =====
-- Python's text operations, as far as the modelled code uses them, over the tables of Unicode, and
-- agent/utils/text.py `normalize_text`, whose two regular expressions are written out.
use Prim.Native.Nat.{ℕ, zero, suc, ◌+◌}
use Prim.Native.Char.{Char, code}
use Prim.Native.String.{String}
use mathlib.Core.Bool.{Bool, true, false, ◌&&◌, ◌||◌}
use text.Mathlib.Text
use l2c.Common.Tests.{nat_eq, leb, if◌then◌else◌}

-- What the interpreter's character database says of a code point.
pub record Unicode : Type 0 where
  pub is_space : Char → Bool
  pub is_alnum : Char → Bool
  pub is_digit : Char → Bool
  pub fold : Char → String
  pub lower : Char → String

-- `not s`
abbrev pub is_empty : String → Bool
is_empty String.[] = true
is_empty (String.◌∷◌ c s) = false

-- `a or b` on texts.
abbrev pub or_text : String → String → String
or_text s t = if is_empty s then t else s

unfoldable pub append : String → String → String
append String.[] t = t
append (String.◌∷◌ c s) t = String.◌∷◌ c (append s t)

unfoldable pub starts_with : String → String → Bool
starts_with String.[] s = true
starts_with (String.◌∷◌ c p) String.[] = false
starts_with (String.◌∷◌ c p) (String.◌∷◌ d s) =
    let rest = starts_with p s in if nat_eq (code c) (code d) then rest else false

-- `t in s`
unfoldable pub contains : String → String → Bool
unfolding starts_with
contains t String.[] = is_empty t
contains t (String.◌∷◌ c s) = starts_with t (String.◌∷◌ c s) || contains t s

-- `s[:n]`
unfoldable pub take_text : ℕ → String → String
take_text zero s = String.[]
take_text (suc n) String.[] = String.[]
take_text (suc n) (String.◌∷◌ c s) = String.◌∷◌ c (take_text n s)

-- `s.endswith(t)`
unfoldable pub ends_with : String → String → Bool
ends_with t String.[] = is_empty t
ends_with t (String.◌∷◌ c s) = Text.◌==◌ t (String.◌∷◌ c s) || ends_with t s

unfoldable pub text_length : String → ℕ
text_length String.[] = 0
text_length (String.◌∷◌ c s) = suc (text_length s)

-- `s.replace(" ", t)` at a one-character pattern.
unfoldable pub replace_char : ℕ → String → String → String
unfolding append
replace_char k t String.[] = String.[]
replace_char k t (String.◌∷◌ c s) =
    let rest = replace_char k t s in if nat_eq (code c) k then append t rest else String.◌∷◌ c rest

-- The text before the first `sep`, as `s.split(sep, 1)[0]`.
unfoldable pub before_char : ℕ → String → String
before_char k String.[] = String.[]
before_char k (String.◌∷◌ c s) =
    let rest = before_char k s in if nat_eq (code c) k then String.[] else String.◌∷◌ c rest

-- The text after the first `sep`, empty without one, as `s.partition(sep)[2]`.
unfoldable pub after_char : ℕ → String → String
after_char k String.[] = String.[]
after_char k (String.◌∷◌ c s) = let rest = after_char k s in if nat_eq (code c) k then s else rest

module _ (u : Unicode) where
  open u use {is_space, is_alnum, is_digit, fold, lower}

  unfoldable pub lstrip : String → String
  lstrip String.[] = String.[]
  lstrip (String.◌∷◌ c s) = let rest = lstrip s in if is_space c then rest else String.◌∷◌ c s

  unfoldable pub rstrip : String → String
  rstrip String.[] = String.[]
  rstrip (String.◌∷◌ c s) =
      let rest = rstrip s in if is_space c && is_empty rest then String.[] else String.◌∷◌ c rest

  unfoldable pub strip : String → String
  unfolding lstrip rstrip
  strip s = rstrip (lstrip s)

  unfoldable pub casefold : String → String
  unfolding append
  casefold String.[] = String.[]
  casefold (String.◌∷◌ c s) = append (fold c) (casefold s)

  unfoldable pub to_lower : String → String
  unfolding append
  to_lower String.[] = String.[]
  to_lower (String.◌∷◌ c s) = append (lower c) (to_lower s)

  -- `"".join(char for char in s if char.isalnum())`
  unfoldable pub keep_alnum : String → String
  keep_alnum String.[] = String.[]
  keep_alnum (String.◌∷◌ c s) =
      let rest = keep_alnum s in if is_alnum c then String.◌∷◌ c rest else rest

  -- `\s*` at the head of a text, as the number of characters that it takes.
  spaces_length : String → ℕ
  spaces_length String.[] = 0
  spaces_length (String.◌∷◌ c s) = let n = spaces_length s in if is_space c then suc n else 0

  -- `\d*\]` at the head of a text: the characters it takes, or 0 where it does not match.
  digits_close_length : String → ℕ
  digits_close_length String.[] = 0
  digits_close_length (String.◌∷◌ c s) =
      let n = digits_close_length s in
      if is_digit c then (if leb 1 n then suc n else 0) else if nat_eq (code c) b']' then 1 else 0

  -- `\d+\]`
  number_close_length : String → ℕ
  unfolding digits_close_length
  number_close_length s = let n = digits_close_length s in if leb 2 n then n else 0

  drop_text : ℕ → String → String
  drop_text zero s = s
  drop_text (suc n) String.[] = String.[]
  drop_text (suc n) (String.◌∷◌ c s) = drop_text n s

  -- `(?:id:\s*)?\d+\]`
  noise_body_length : String → ℕ
  unfolding spaces_length number_close_length drop_text starts_with
  noise_body_length s =
      let body = drop_text 3 s in
      let gap = spaces_length body in
      let n = number_close_length (drop_text gap body) in
      if starts_with "id:" s then (if leb 1 n then 3 + gap + n else 0) else number_close_length s

  -- `_MARKER_NOISE.sub("", s)`, with the characters of the current match still to be skipped.
  drop_noise : ℕ → String → String
  unfolding noise_body_length
  drop_noise k String.[] = String.[]
  drop_noise (suc k) (String.◌∷◌ c s) = drop_noise k s
  drop_noise zero (String.◌∷◌ c s) =
      let n = noise_body_length s in
      let skipped = drop_noise n s in
      let kept = String.◌∷◌ c (drop_noise 0 s) in
      if nat_eq (code c) b'[' && leb 1 n then skipped else kept

  -- `_MULTISPACE.sub(" ", s)`; the flag says that the last character was a space.
  squeeze : Bool → String → String
  squeeze after String.[] = String.[]
  squeeze after (String.◌∷◌ c s) =
      let rest = squeeze (is_space c) s in
      if is_space c then (if after then rest else append " " rest) else String.◌∷◌ c rest

  -- `" ".join(s.split())`
  unfoldable pub joined_words : String → String
  unfolding squeeze strip
  joined_words s = strip (squeeze false s)

  unfoldable pub normalize_text : String → String
  unfolding drop_noise squeeze strip append
  normalize_text s = strip (squeeze false (drop_noise 0 s))
