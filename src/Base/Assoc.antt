-- ===== src/Base/Assoc.antt =====
-- A hash map as a list of its entries, in the order in which it would be iterated.
use mathlib.Core.Path.{◌≡◌, refl, sym, ap, ◌∙◌, subst}
use mathlib.Core.Logic.{inl, inr}
use mathlib.Core.Bool.{Bool, true, false, not, ◌&&◌, ◌||◌}
use mathlib.Core.List.{List, [], ◌∷◌}
use mathlib.Core.Option.{Option, none, some}
use native.Mathlib.Omega.{arith}
use Prim.Native.Nat.{suc, ◌+◌, ◌≤◌}
use sukkula.Base.Tests.{if◌then◌else◌, Bool-cases}
use sukkula.Base.Lists.{length, filter, All}

-- A test of equality of keys.
pub record IsTest {K : Type 0} (same : K → K → Bool) : Type 0 where
  pub same_self : (k : K) → same k k ≡ true
  pub sound : (k j : K) → same k j ≡ true → k ≡ j

abbrev pub is_some {ℓ} : {A : Type ℓ} → Option A → Bool
is_some none = false
is_some (some a) = true

pub none_of_is_some {ℓ} : {A : Type ℓ} (o : Option A) → is_some o ≡ false → o ≡ none
none_of_is_some none h = refl
none_of_is_some (some a) h = ground (arith, h)

module _ {K V : Type 0} (same : K → K → Bool) where
  abbrev pub lookup : K → List (K × V) → Option V
  lookup k [] = none
  lookup k ((j, v) ∷ m) = if same j k then some v else lookup k m

  abbrev pub insert : K → V → List (K × V) → List (K × V)
  insert k v [] = (k, v) ∷ []
  insert k v ((j, w) ∷ m) = if same j k then (j, v) ∷ m else (j, w) ∷ insert k v m

  abbrev pub remove : K → List (K × V) → List (K × V)
  remove k [] = []
  remove k ((j, v) ∷ m) = if same j k then m else (j, v) ∷ remove k m

  -- No key stands twice.
  abbrev pub IsMap : List (K × V) → Type 0
  IsMap [] = Unit
  IsMap ((k, v) ∷ m) = (lookup k m ≡ none) × IsMap m

  pub lookup-remove-none :
      (k j : K) (m : List (K × V)) → lookup j m ≡ none → lookup j (remove k m) ≡ none
  lookup-remove-none k j [] h = refl
  lookup-remove-none k j ((i, v) ∷ m) h = elim (Bool-cases (same i k)) [
    | inl e ↦ elim (Bool-cases (same i j)) [
      | inl f ↦ ground (arith, e, f)
      | inr f ↦ rw e (ground (arith, f))
    ]
    | inr e ↦ elim (Bool-cases (same i j)) [
      | inl f ↦ ground (arith, e, f)
      | inr f ↦ rw (e, f) (lookup-remove-none k j m (ground (arith, f)))
    ]
  ]

  pub remove-IsMap : (k : K) (m : List (K × V)) → IsMap m → IsMap (remove k m)
  remove-IsMap k [] h = tt
  remove-IsMap k ((j, v) ∷ m) h = elim (Bool-cases (same j k)) [
    | inl e ↦ rw e h.1
    | inr e ↦ rw e (lookup-remove-none k j m h.0, remove-IsMap k m h.1)
  ]

  -- `retain` by a test on the entries.
  pub lookup-filter-none :
      (p : K × V → Bool) (j : K) (m : List (K × V))
      → lookup j m ≡ none
      → lookup j (filter p m) ≡ none
  lookup-filter-none p j [] h = refl
  lookup-filter-none p j ((i, v) ∷ m) h = elim (Bool-cases (same i j)) [
    | inl f ↦ ground arith
    | inr f ↦
        let ih = lookup-filter-none p j m (ground (arith, f)) in
        elim (Bool-cases (p (i, v))) [ inl e ↦ rw (e, f) ih | inr e ↦ rw e ih ]
  ]

  pub filter-IsMap : (p : K × V → Bool) (m : List (K × V)) → IsMap m → IsMap (filter p m)
  filter-IsMap p [] h = tt
  filter-IsMap p ((j, v) ∷ m) h = elim (Bool-cases (p (j, v))) [
    | inl e ↦ rw e (lookup-filter-none p j m h.0, filter-IsMap p m h.1)
    | inr e ↦ rw e (filter-IsMap p m h.1)
  ]

  -- Fewer entries pass a test when some are taken out.
  pub count-filter :
      (p q : K × V → Bool) (m : List (K × V)) → length (filter p (filter q m)) ≤ length (filter p m)
  count-filter p q [] = omega arith
  count-filter p q ((j, v) ∷ m) = elim (Bool-cases (q (j, v))) [
    | inl e ↦ rw e (ground (arith, count-filter p q m))
    | inr e ↦ rw e (ground (arith, count-filter p q m))
  ]

  pub count-remove_le :
      (p : K × V → Bool) (k : K) (m : List (K × V))
      → length (filter p (remove k m)) ≤ length (filter p m)
  count-remove_le p k [] = omega arith
  count-remove_le p k ((j, v) ∷ m) = elim (Bool-cases (same j k)) [
    | inl e ↦ rw e (ground arith)
    | inr e ↦ rw e (ground (arith, count-remove_le p k m))
  ]

  -- Whether a key is there.
  abbrev pub has : K → List (K × V) → Bool
  has k m = is_some (lookup k m)

  pub length-insert_le : (k : K) (v : V) (m : List (K × V)) → length (insert k v m) ≤ length m + 1
  length-insert_le k v [] = omega arith
  length-insert_le k v ((j, w) ∷ m) = ground (arith, length-insert_le k v m)

  pub length-insert_known :
      (k : K) (v : V) (m : List (K × V)) → has k m ≡ true → length (insert k v m) ≡ length m
  length-insert_known k v [] h = ground (arith, h)
  length-insert_known k v ((j, w) ∷ m) h = elim (Bool-cases (same j k)) [
    | inl e ↦ rw e refl
    | inr e ↦ rw e (ap suc (length-insert_known k v m (ground (arith, h, e))))
  ]

  pub length-remove_le : (k : K) (m : List (K × V)) → length (remove k m) ≤ length m
  length-remove_le k [] = omega arith
  length-remove_le k ((j, w) ∷ m) = ground (arith, length-remove_le k m)

  -- What holds of every entry.
  pub All-filter :
      (P : K × V → Type 0) (q : K × V → Bool) (m : List (K × V)) → All P m → All P (filter q m)
  All-filter P q [] h = tt
  All-filter P q (p ∷ m) h = elim (Bool-cases (q p)) [
    | inl e ↦ rw e (h.0, All-filter P q m h.1)
    | inr e ↦ rw e (All-filter P q m h.1)
  ]

  pub All-remove : (P : K × V → Type 0) (k : K) (m : List (K × V)) → All P m → All P (remove k m)
  All-remove P k [] h = tt
  All-remove P k ((j, v) ∷ m) h = elim (Bool-cases (same j k)) [
    | inl e ↦ rw e h.1
    | inr e ↦ rw e (h.0, All-remove P k m h.1)
  ]

  module _ (t : IsTest same) where
    pub All-insert :
        (P : K × V → Type 0) (k : K) (v : V) (m : List (K × V))
        → P (k, v)
        → All P m
        → All P (insert k v m)
    All-insert P k v [] p h = (p, tt)
    All-insert P k v ((j, w) ∷ m) p h = elim (Bool-cases (same j k)) [
      | inl e ↦ rw e (subst (λ x. P (x, v)) (sym (t.sound j k e)) p, h.1)
      | inr e ↦ rw e (h.0, All-insert P k v m p h.1)
    ]

    pub lookup-All :
        (P : K × V → Type 0) (k : K) (v : V) (m : List (K × V))
        → lookup k m ≡ some v
        → All P m
        → P (k, v)
    lookup-All P k v [] e h = ground (arith, e)
    lookup-All P k v ((j, w) ∷ m) e h = elim (Bool-cases (same j k)) [
      | inl f ↦
          let g : w ≡ v = ground (arith, e, f) in
          subst (λ x. P (k, x)) g (subst (λ x. P (x, w)) (t.sound j k f) h.0)
      | inr f ↦ lookup-All P k v m (ground (arith, e, f)) h.1
    ]

    -- What is taken out is gone, and nothing else is.
    pub lookup-remove : (k : K) (m : List (K × V)) → IsMap m → lookup k (remove k m) ≡ none
    lookup-remove k [] h = refl
    lookup-remove k ((j, v) ∷ m) h = elim (Bool-cases (same j k)) [
      | inl e ↦ rw e (subst (λ x. lookup x m ≡ none) (t.sound j k e) h.0)
      | inr e ↦ rw (e, e) (lookup-remove k m h.1)
    ]

    pub lookup-remove_other :
        (k j : K) (m : List (K × V)) → same k j ≡ false → lookup j (remove k m) ≡ lookup j m
    lookup-remove_other k j [] h = refl
    lookup-remove_other k j ((i, v) ∷ m) h = elim (Bool-cases (same i k)) [
      | inl e ↦
          let f : same i j ≡ false = subst (λ x. same x j ≡ false) (sym (t.sound i k e)) h in
          rw (e, f) refl
      | inr e ↦ rw e (ap (λ o. if same i j then some v else o) (lookup-remove_other k j m h))
    ]

    pub count-insert_known :
        (p : K × V → Bool) (k : K) (v w : V) (m : List (K × V))
        → lookup k m ≡ some w
        → length (filter p (insert k v m)) + (if p (k, w) then 1 else 0)
          ≡ length (filter p m) + (if p (k, v) then 1 else 0)
    count-insert_known p k v w [] h = ground arith
    count-insert_known p k v w ((j, u) ∷ m) h = elim (Bool-cases (same j k)) [
      | inl e ↦ let f : u ≡ w = ground (arith, e) in rw (e, t.sound j k e, f) (ground arith)
      | inr e ↦ rw e (ground (arith, count-insert_known p k v w m (ground (arith, e))))
    ]

    pub lookup-insert : (k : K) (v : V) (m : List (K × V)) → lookup k (insert k v m) ≡ some v
    lookup-insert k v [] = rw (t.same_self k) refl
    lookup-insert k v ((j, w) ∷ m) = elim (Bool-cases (same j k)) [
      | inl e ↦ rw (e, e) refl
      | inr e ↦ rw (e, e) (lookup-insert k v m)
    ]

    pub lookup-insert_other :
        (k j : K) (v : V) (m : List (K × V))
        → same k j ≡ false
        → lookup j (insert k v m) ≡ lookup j m
    lookup-insert_other k j v [] h = rw h refl
    lookup-insert_other k j v ((i, w) ∷ m) h = elim (Bool-cases (same i k)) [
      | inl e ↦
          let f : same i j ≡ false = subst (λ x. same x j ≡ false) (sym (t.sound i k e)) h in
          rw (e, f) refl
      | inr e ↦ rw e (ap (λ o. if same i j then some w else o) (lookup-insert_other k j v m h))
    ]

    pub insert-IsMap : (k : K) (v : V) (m : List (K × V)) → IsMap m → IsMap (insert k v m)
    insert-IsMap k v [] h = (refl, tt)
    insert-IsMap k v ((j, w) ∷ m) h = elim (Bool-cases (same j k)) [
      | inl e ↦ rw e h
      | inr e ↦
          let f : same k j ≡ false = elim (Bool-cases (same k j)) [
            | inl g ↦ absurd (
                ground
                  (arith, subst (λ x. same x k ≡ false) (sym (t.sound k j g)) e, t.same_self k))
            | inr g ↦ g
          ] in
          rw e (lookup-insert_other k j v m f ∙ h.0, insert-IsMap k v m h.1)
    ]

    pub has-insert :
        (k j : K) (v : V) (m : List (K × V)) → has j (insert k v m) ≡ same k j || has j m
    has-insert k j v m = elim (Bool-cases (same k j)) [
      | inl e ↦ rw e (
          subst (λ x. has x (insert k v m) ≡ true) (t.sound k j e)
            (ap is_some (lookup-insert k v m)))
      | inr e ↦ rw e (ap is_some (lookup-insert_other k j v m e))
    ]

    pub has-remove :
        (k j : K) (m : List (K × V)) → IsMap m → has j (remove k m) ≡ not (same k j) && has j m
    has-remove k j m d = elim (Bool-cases (same k j)) [
      | inl e ↦ rw e (
          subst (λ x. has x (remove k m) ≡ false) (t.sound k j e)
            (ap is_some (lookup-remove k m d)))
      | inr e ↦ rw e (ap is_some (lookup-remove_other k j m e))
    ]

    -- How many entries pass a test, after one was put in or taken out.
    pub count-insert_new :
        (p : K × V → Bool) (k : K) (v : V) (m : List (K × V))
        → lookup k m ≡ none
        → length (filter p (insert k v m)) ≡ length (filter p m) + (if p (k, v) then 1 else 0)
    count-insert_new p k v [] h = ground arith
    count-insert_new p k v ((j, w) ∷ m) h = elim (Bool-cases (same j k)) [
      | inl e ↦ ground arith
      | inr e ↦ rw e (ground (arith, count-insert_new p k v m (ground (arith, e))))
    ]

    pub count-remove :
        (p : K × V → Bool) (k : K) (v : V) (m : List (K × V))
        → lookup k m ≡ some v
        → length (filter p (remove k m)) + (if p (k, v) then 1 else 0) ≡ length (filter p m)
    count-remove p k v [] h = ground arith
    count-remove p k v ((j, w) ∷ m) h = elim (Bool-cases (same j k)) [
      | inl e ↦ let f : w ≡ v = ground (arith, e) in rw (e, t.sound j k e, f) (ground arith)
      | inr e ↦ rw e (ground (arith, count-remove p k v m (ground (arith, e))))
    ]
