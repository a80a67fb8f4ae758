-- ===== src/Execution/Contract.antt =====
-- The contract that a collection intent makes, against the texts that the intent holds.
use l2c.Common.{
  String, ◌≡◌, refl, sym, ◌∙◌, subst, Bool, true, false, ◌||◌, not, nat_eq, length, ◌&&◌,
  if◌then◌else◌, some, List, [], ◌∷◌, ◌++◌, map, keep, ◌==◌, ==-refl, ==→≡, arith, if_elim,
  Bool-cases, inl, inr,
}
use l2c.Common.Text.{Unicode, is_empty, strip, casefold}
use l2c.Worker.State.{Args, Contract}
use l2c.Worker.Replay.{holds}
use l2c.Execution.Permission.{
  Value, Values, text, nested, opaque, empty, also, insert_text, normalized_text,
  collect_input_values, collect_all, build_public_collection_permission_contract, known_values,
  task_permission_reason,
}

-- The texts of a value, wherever they are nested.
unfoldable mutual
  pub texts : Value → List String
  texts (text s) = s ∷ []
  texts (nested vs) = all_texts vs
  texts opaque = []

  pub all_texts : Values → List String
  all_texts empty = []
  all_texts (also v vs) = texts v ++ all_texts vs

holds-append :
    (key : String) (xs ys : List String) → holds key (xs ++ ys) ≡ (holds key xs || holds key ys)
holds-append key [] ys = refl
holds-append key (x ∷ xs) ys = ground (arith, holds-append key xs ys)

inserted-holds : (t : String) (ts : List String) → holds t (insert_text t ts) ≡ true
inserted-holds t ts =
    if_elim (λ xs. holds t xs ≡ true) (holds t ts) ts (ts ++ t ∷ []) (λ h. h)
      (λ _. holds-append t ts (t ∷ []) ∙ ground (arith, ==-refl t))

kept-holds :
    (key t : String) (ts : List String) → holds key ts ≡ true → holds key (insert_text t ts) ≡ true
kept-holds key t ts h =
    if_elim (λ xs. holds key xs ≡ true) (holds t ts) ts (ts ++ t ∷ []) (λ _. h)
      (λ _. holds-append key ts (t ∷ []) ∙ ground (arith, h))

holds-map :
    (f : String → String) (key : String) (xs : List String)
    → holds key xs ≡ true
    → holds (f key) (map f xs) ≡ true
holds-map f key [] h = ground arith
holds-map f key (x ∷ xs) h = elim (Bool-cases (x == key)) [
  | inl here ↦ rw (==→≡ x key here) (ground (arith, ==-refl (f key)))
  | inr later ↦ ground (arith, holds-map f key xs (ground arith))
]

holds-keep :
    (key : String) (xs : List String)
    → is_empty key ≡ false
    → holds key xs ≡ true
    → holds key (keep (λ v. not (is_empty v)) xs) ≡ true
holds-keep key [] e h = h
holds-keep key (x ∷ xs) e h = elim (Bool-cases (x == key)) [
  | inl here ↦ rw (==→≡ x key here, e) (ground (arith, ==-refl key))
  | inr later ↦ ground (arith, holds-keep key xs e (ground arith))
]

module _ (u : Unicode) where
  -- Collecting loses nothing that was collected.
  mutual
    unfolding collect_input_values

    collect-keeps :
        (key : String) (v : Value) (values : List String)
        → holds key values ≡ true
        → holds key (collect_input_values u v values) ≡ true
    collect-keeps key (text s) values h =
        if_elim (λ xs. holds key xs ≡ true) (is_empty (normalized_text u s)) values
          (insert_text (normalized_text u s) values) (λ _. h)
          (λ _. kept-holds key (normalized_text u s) values h)
    collect-keeps key (nested vs) values h = all-keeps key vs values h
    collect-keeps key opaque values h = h

    all-keeps :
        (key : String) (vs : Values) (values : List String)
        → holds key values ≡ true
        → holds key (collect_all u vs values) ≡ true
    all-keeps key empty values h = h
    all-keeps key (also v vs) values h =
        all-keeps key vs (collect_input_values u v values) (collect-keeps key v values h)

  module _ (typed : String) (visible : is_empty (normalized_text u typed) ≡ false) where
    leaf :
        (s : String) (values : List String)
        → holds typed (s ∷ []) ≡ true
        → holds (normalized_text u typed) (collect_input_values u (text s) values) ≡ true
    unfolding collect_input_values
    leaf s values h =
        subst (λ t. holds (normalized_text u typed) (collect_input_values u (text t) values) ≡ true)
          (sym (==→≡ s typed (ground (arith, h))))
          (rw visible (inserted-holds (normalized_text u typed) values))

    mutual
      unfolding collect_input_values texts

      collected :
          (v : Value) (values : List String)
          → holds typed (texts v) ≡ true
          → holds (normalized_text u typed) (collect_input_values u v values) ≡ true
      collected (text s) values h = leaf s values h
      collected (nested vs) values h = all_collected vs values h
      collected opaque values h = ground arith

      all_collected :
          (vs : Values) (values : List String)
          → holds typed (all_texts vs) ≡ true
          → holds (normalized_text u typed) (collect_all u vs values) ≡ true
      all_collected empty values h = ground arith
      all_collected (also v vs) values h = elim (Bool-cases (holds typed (texts v))) [
        | inl here ↦
            all-keeps (normalized_text u typed) vs (collect_input_values u v values)
              (collected v values here)
        | inr later ↦
            all_collected vs (collect_input_values u v values)
              (ground (arith, holds-append typed (texts v) (all_texts vs)))
      ]

known-typed :
    (u : Unicode) (sort_texts : List String → List String) (domains : List String) (intent : Value)
    (typed : String)
    → ((key : String) (keys : List String) → holds key (sort_texts keys) ≡ holds key keys)
    → holds typed (texts intent) ≡ true
    → is_empty (normalized_text u typed) ≡ false
    → normalized_text u (normalized_text u typed) ≡ normalized_text u typed
    → holds
        (normalized_text u typed)
        (known_values u (build_public_collection_permission_contract u sort_texts domains intent))
      ≡ true
unfolding build_public_collection_permission_contract
known-typed u sort_texts domains intent typed sorted h visible stable =
    let v = normalized_text u typed in
    let found =
      sorted v (collect_input_values u intent []) ∙ collected u typed visible intent [] h in
    let allowed = sort_texts (collect_input_values u intent []) in
    let values = map (normalized_text u) allowed in
    let mapped =
      subst (λ w. holds w values ≡ true) stable (holds-map (normalized_text u) v allowed found) in
    holds-keep v values visible mapped

-- Whether the arguments name one of the risks that an action may have.
abbrev pub declares_risk : Unicode → Args → Bool
declares_risk u args =
    let risk = casefold u (strip u args.risk_level) in
    risk == "safe_read" || risk == "safe_navigation" || risk == "sensitive"

reason_of_known :
    (limited model declared : Bool)
    → ◌≡◌ {A = String}
        (if limited && not true
          then "task_contract_input_not_authorized"
          else if model && true && not declared
          then "task_contract_risk_not_declared"
          else "")
        (if model && not declared then "task_contract_risk_not_declared" else "")
reason_of_known true true true = refl
reason_of_known true true false = refl
reason_of_known true false true = refl
reason_of_known true false false = refl
reason_of_known false true true = refl
reason_of_known false true false = refl
reason_of_known false false true = refl
reason_of_known false false false = refl

known-authorized :
    (u : Unicode) (hostname : String → String) (c : Contract) (args : Args) (source : String)
    → holds (normalized_text u args.text) (known_values u c) ≡ true
    → task_permission_reason u hostname (some c) "type_in_marker" args source ≡ (
        if source == "llm" && not (declares_risk u args)
        then "task_contract_risk_not_declared"
        else "")
unfolding task_permission_reason
known-authorized u hostname c args source h = rw h (
    reason_of_known (not (nat_eq (length (known_values u c)) 0)) (source == "llm")
      (declares_risk u args))

-- A text that the collection intent holds, wherever it is nested, may be typed under the contract
-- that the intent makes, unless the model asks for it and declares none of the risks that an action
-- may have: that is then the reason of the refusal, and there is no other. The text does not
-- normalize to nothing, its normal form is a fixed point, and sorting keeps the members of a list.
pub contract-authorizes :
    (u : Unicode) (hostname : String → String) (sort_texts : List String → List String)
    (domains : List String) (intent : Value) (args : Args) (source : String)
    → ((key : String) (keys : List String) → holds key (sort_texts keys) ≡ holds key keys)
    → holds args.text (texts intent) ≡ true
    → is_empty (normalized_text u args.text) ≡ false
    → normalized_text u (normalized_text u args.text) ≡ normalized_text u args.text
    → task_permission_reason u hostname
        (some (build_public_collection_permission_contract u sort_texts domains intent))
        "type_in_marker"
        args
        source
      ≡ (if source == "llm" && not (declares_risk u args)
          then "task_contract_risk_not_declared"
          else "")
unfolding task_permission_reason
contract-authorizes u hostname sort_texts domains intent args source sorted typed visible stable =
    known-authorized u hostname
      (build_public_collection_permission_contract u sort_texts domains intent) args source
      (known-typed u sort_texts domains intent args.text sorted typed visible stable)
