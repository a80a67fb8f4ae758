-- ===== src/Registry/Keys.antt =====
-- The laws of the ordered dictionary.
use l2c.Common.{
  ℕ, suc, ◌≤◌, ◌<◌, String, ◌≡◌, refl, true, false, Option, none, some, [], ◌∷◌, ◌++◌, arith, ◌==◌,
  eq_iff, ==-refl, length, length-append, is_some, ◌⊎◌, inl, inr, if◌then◌else◌,
}
use l2c.Registry.Items.{Item, Items, lookup, put, remove, move_to_end, trim}

pub lookup-put :
    (k j : String) (item : Item) (items : Items)
    → lookup j (put k item items) ≡ (if k == j then some item else lookup j items)
unfolding lookup put
lookup-put k j item [] = refl
lookup-put k j item ((i, old) ∷ items) =
    ground (arith, eq_iff k j, eq_iff i k, eq_iff i j, lookup-put k j item items)

pub length-put :
    (k : String) (item : Item) (items : Items)
    → length (put k item items)
      ≡ (if is_some (lookup k items) then length items else suc (length items))
unfolding lookup put
length-put k item [] = refl
length-put k item ((i, old) ∷ items) = ground (arith, length-put k item items)

pub lookup-append :
    (j : String) (xs ys : Items)
    → lookup j (xs ++ ys) ≡ (if is_some (lookup j xs) then lookup j xs else lookup j ys)
unfolding lookup
lookup-append j [] ys = refl
lookup-append j ((i, x) ∷ xs) ys = ground (arith, lookup-append j xs ys)

-- No key occurs twice.
abbrev pub Unique : Items → Type 0
Unique [] = Unit
Unique (entry ∷ items) = (lookup entry.0 items ≡ none) × Unique items

lookup-remove :
    (k j : String) (items : Items)
    → Unique items
    → lookup j (remove k items) ≡ (if k == j then none else lookup j items)
unfolding lookup remove
lookup-remove k j [] h = ground arith
lookup-remove k j ((i, x) ∷ items) h =
    ground (arith, lookup-remove k j items h.1, eq_iff k j, eq_iff i k, eq_iff i j)

Unique-remove : (k : String) (items : Items) → Unique items → Unique (remove k items)
unfolding remove
Unique-remove k [] h = tt
Unique-remove k ((i, x) ∷ items) h =
    ground (arith, Unique-remove k items h.1, lookup-remove k i items h.1)

pub Unique-put :
    (k : String) (item : Item) (items : Items) → Unique items → Unique (put k item items)
unfolding put lookup
Unique-put k item [] h = (refl, tt)
Unique-put k item ((i, x) ∷ items) h =
    ground (arith, Unique-put k item items h.1, lookup-put k i item items, eq_iff i k, eq_iff k i)

Unique-snoc :
    (k : String) (item : Item) (items : Items)
    → Unique items
    → lookup k items ≡ none
    → Unique (items ++ (k, item) ∷ [])
unfolding lookup
Unique-snoc k item [] h e = (refl, tt)
Unique-snoc k item ((i, x) ∷ items) h e = ground (
  arith,
  Unique-snoc k item items h.1,
  lookup-append i items ((k, item) ∷ []),
  eq_iff i k,
  eq_iff k i,
)

lookup-remove_self : (k : String) (items : Items) → Unique items → lookup k (remove k items) ≡ none
lookup-remove_self k items h = rw (lookup-remove k k items h) (rw (==-refl k))

remove-put :
    (k : String) (item : Item) (items : Items) → remove k (put k item items) ≡ remove k items
unfolding put remove
remove-put k item [] = rw (==-refl k)
remove-put k item ((i, x) ∷ items) = ground (arith, remove-put k item items, ==-refl k, eq_iff i k)

-- Writing an entry and moving it to the end leaves the other entries in order and the entry last.
pub move_to_end-put :
    (k : String) (item : Item) (items : Items)
    → move_to_end k (put k item items) ≡ remove k items ++ (k, item) ∷ []
unfolding move_to_end
move_to_end-put k item items =
    rw (move_to_end, lookup-put k k item items, ==-refl k, remove-put k item items)

pub length-remove : (k : String) (items : Items) → length (remove k items) ≤ length items
unfolding remove
length-remove k [] = omega arith
length-remove k ((i, x) ∷ items) = ground (arith, length-remove k items)

pub length-trim : (limit : ℕ) (items : Items) → length (trim limit items) ≤ limit
unfolding trim
length-trim limit [] = omega arith
length-trim limit (x ∷ items) = ground (arith, length-trim limit items)

pub trim-short : (limit : ℕ) (items : Items) → length items ≤ limit → trim limit items ≡ items
unfolding trim
trim-short limit [] h = refl
trim-short limit (x ∷ items) h = ground arith

trim-snoc :
    (limit : ℕ) (items : Items) (x : String × Item)
    → trim (suc limit) (items ++ x ∷ []) ≡ trim limit items ++ x ∷ []
unfolding trim
trim-snoc limit [] x = ground arith
trim-snoc limit (y ∷ items) x =
    ground (arith, trim-snoc limit items x, length-append items (x ∷ []))

Unique-trim : (limit : ℕ) (items : Items) → Unique items → Unique (trim limit items)
unfolding trim
Unique-trim limit [] h = tt
Unique-trim limit (x ∷ items) h = ground (arith, Unique-trim limit items h.1)

trim-none :
    (j : String) (limit : ℕ) (items : Items)
    → lookup j items ≡ none
    → lookup j (trim limit items) ≡ none
unfolding trim lookup
trim-none j limit [] h = refl
trim-none j limit ((i, x) ∷ items) h = ground (arith, trim-none j limit items)

-- Trimming leaves an entry as it is, or forgets it because there are too many.
lookup-trim :
    (j : String) (limit : ℕ) (items : Items)
    → Unique items
    → ((lookup j (trim limit items) ≡ none) × (limit < length items))
      ⊎ (lookup j (trim limit items) ≡ lookup j items)
unfolding trim lookup
lookup-trim j limit [] h = inr refl
lookup-trim j limit ((i, x) ∷ items) h =
    ground (arith, lookup-trim j limit items h.1, eq_iff i j, trim-none i limit items)

-- What `start` makes of the entries.
abbrev pub started : ℕ → String → Item → Items → Items
started limit k item items = trim limit (move_to_end k (put k item items))

pub started_lem :
    (limit : ℕ) (k : String) (item : Item) (items : Items)
    → started (suc limit) k item items ≡ trim limit (remove k items) ++ (k, item) ∷ []
started_lem limit k item items =
    rw (move_to_end-put k item items) (trim-snoc limit (remove k items) (k, item))

none-or-some {ℓ} : {A : Type ℓ} (o : Option A) → (o ≡ none) ⊎ (is_some o ≡ true)
none-or-some none = inl refl
none-or-some (some a) = inr refl

pub Unique-started :
    (limit : ℕ) (k : String) (item : Item) (items : Items)
    → Unique items
    → Unique (started (suc limit) k item items)
Unique-started limit k item items h = rw (started_lem limit k item items) (
    Unique-snoc k item (trim limit (remove k items))
      (Unique-trim limit (remove k items) (Unique-remove k items h))
      (trim-none k limit (remove k items) (lookup-remove_self k items h)))

-- The started entry is there, and every other key is as it was, or is forgotten because there are
-- too many.
pub lookup-started_self :
    (limit : ℕ) (k : String) (item : Item) (items : Items)
    → Unique items
    → lookup k (started (suc limit) k item items) ≡ some item
lookup-started_self limit k item items h = rw (started_lem limit k item items) (
    rw (lookup-append k (trim limit (remove k items)) ((k, item) ∷ [])) (
      rw (trim-none k limit (remove k items) (lookup-remove_self k items h))
        (unfold lookup in rw (==-refl k))))

lookup-single : (k j : String) (item : Item) → (k == j) ≡ false → lookup j ((k, item) ∷ []) ≡ none
unfolding lookup
lookup-single k j item h = rw h

pub lookup-started :
    (limit : ℕ) (k j : String) (item : Item) (items : Items)
    → Unique items
    → (k == j) ≡ false
    → ((lookup j (started (suc limit) k item items) ≡ none) × (suc limit ≤ length (remove k items)))
      ⊎ (lookup j (started (suc limit) k item items) ≡ lookup j items)
lookup-started limit k j item items h e = rw (started_lem limit k item items) (
    rw (lookup-append j (trim limit (remove k items)) ((k, item) ∷ [])) (
      ground (
        arith,
        lookup-single k j item e,
        lookup-trim j limit (remove k items) (Unique-remove k items h),
        lookup-remove k j items h,
      )))
