-- ===== src/Selection/Log.antt =====
-- agent/recipe/replay.py `ReflexRejectionLog`: why the stored rules were not chosen.
use l2c.Common.{
  ℕ, suc, String, Bool, true, Option, none, some, List, [], ◌∷◌, ◌++◌, ◌==◌, ltb, if◌then◌else◌,
}
use l2c.Common.Text.{or_text}

-- `ReflexRejectionLog`: `reason_score` is absent where the program has -1.
pub record RejectionLog : Type 0 where
  pub rejected_count : ℕ
  pub last_reason : String
  pub reason_score : Option ℕ
  pub reason_counts : List (String × ℕ)
  pub candidates : List (String × String)

abbrev pub no_rejections : RejectionLog
no_rejections = record {
  rejected_count = 0;
  last_reason = "";
  reason_score = none;
  reason_counts = [];
  candidates = [];
}

-- `_REJECT_REASON_PRIORITY`
unfoldable pub reject_reason_priority : String → ℕ
reject_reason_priority reason =
    if reason == "url_scope_mismatch"
    then 100
    else if reason == "page_role_mismatch"
    then 95
    else if reason == "target_unresolved"
    then 80
    else 50

abbrev pub count_reason : String → List (String × ℕ) → List (String × ℕ)
count_reason reason [] = (reason, 1) ∷ []
count_reason reason ((r, n) ∷ counts) =
    let rest = count_reason reason counts in
    if r == reason then (r, suc n) ∷ counts else (r, n) ∷ rest

abbrev pub is_above : ℕ → Option ℕ → Bool
is_above n none = true
is_above n (some m) = ltb m n

unfoldable pub reject : String → String → RejectionLog → RejectionLog
unfolding reject_reason_priority
reject rule_key reason log =
    let resolved = or_text reason "candidate_invalid" in
    let score = reject_reason_priority resolved in
    let higher = is_above score log.reason_score in
    record log {
      last_reason = (if higher then resolved else log.last_reason);
      reason_score = (if higher then some score else log.reason_score);
      reason_counts = count_reason resolved log.reason_counts;
      candidates = log.candidates ++ (rule_key, resolved) ∷ [];
    }

abbrev pub add_rejected : RejectionLog → RejectionLog
add_rejected log = record log { rejected_count = suc log.rejected_count }

unfoldable pub reject_candidate : String → String → RejectionLog → RejectionLog
unfolding reject
reject_candidate rule_key reason log = reject rule_key reason (add_rejected log)
