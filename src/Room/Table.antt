-- ===== src/Room/Table.antt =====
-- `make_room` of peers.rs in a table: what a newcomer does to the numbers of entries.
use mathlib.Core.Path.{subst}
use sukkula.Base.{
  ℕ, suc, ◌+◌, ◌≤◌, ◌<◌, ◌≡◌, ◌⊎◌, refl, sym, ◌∙◌, ap, inl, inr, Bool, true, false, none, some,
  List, [], ◌∷◌, arith, length, filter, Any, Bool-cases, map, max, if◌then◌else◌,
}
use sukkula.Base.Assoc.{
  IsTest, lookup, insert, remove, IsMap, count-insert_new, count-remove, lookup-remove-none,
  insert-IsMap, remove-IsMap, lookup-insert_other, lookup-remove_other,
}
use sukkula.Room.{Slot, Room, count, make_room, settle_in}
use sukkula.Room.Fair.{IsFair, replace-IsFair, free-IsRoomy}

pub length-map : {A B : Type 0} (f : A → B) (m : List A) → length (map f m) ≡ length m
length-map f [] = refl
length-map f (x ∷ m) = ap suc (length-map f m)

pub length-filter-map :
    {A B : Type 0} (f : A → B) (p : B → Bool) (m : List A)
    → length (filter p (map f m)) ≡ length (filter (λ x. p (f x)) m)
length-filter-map f p [] = refl
length-filter-map f p (x ∷ m) = elim (Bool-cases (p (f x))) [
  | inl e ↦ rw e (ap suc (length-filter-map f p m))
  | inr e ↦ rw e (length-filter-map f p m)
]

pub length-filter_all : {A : Type 0} (m : List A) → length (filter (λ x. true) m) ≡ length m
length-filter_all [] = refl
length-filter_all (x ∷ m) = ap suc (length-filter_all m)

module _ {K V I : Type 0} (same_ip : I → I → Bool) (same_key : K → K → Bool)
    (is_ip : IsTest same_ip) (is_key : IsTest same_key) (slot : K × V → Slot K I)
    (keyed : (p : K × V) → (slot p).key ≡ p.0) where
  -- How many entries of a table are for an address.
  abbrev pub held : I → List (K × V) → ℕ
  held ip m = count same_ip ip (map slot m)

  pub Any-lookup :
      (P : Slot K I → Type 0) (k : K) (m : List (K × V))
      → IsMap same_key m
      → Any (λ s. (s.key ≡ k) × P s) (map slot m)
      → (v : V) × (lookup same_key k m ≡ some v) × P (slot (k, v))
  Any-lookup P k [] d h = absurd h
  Any-lookup P k ((j, w) ∷ m) d (inl h) =
      let e : j ≡ k = sym (keyed (j, w)) ∙ h.0 in
      let f : same_key j k ≡ true = subst (λ x. same_key j x ≡ true) e (is_key.same_self j) in
      (w, rw f refl, subst (λ x. P (slot (x, w))) e h.1)
  Any-lookup P k ((j, w) ∷ m) d (inr h) =
      let r = Any-lookup P k m d.1 h in
      elim (Bool-cases (same_key j k)) [
        | inl e ↦ absurd (
            ground
              (arith, sym (subst (λ x. lookup same_key x m ≡ none) (is_key.sound j k e) d.0) ∙ r.1))
        | inr e ↦ (r.0, rw e r.1, r.2)
      ]

  -- The entry that a newcomer replaces is in the table.
  pub victim-IsFair :
      (m : List (K × V)) (ip : I) (rank limit per_ip : ℕ) (j : K)
      → IsMap same_key m
      → make_room same_ip (map slot m) ip rank limit per_ip ≡ Room.replace j
      → (w : V) × (lookup same_key j m ≡ some w)
        × IsFair same_ip (map slot m) ip rank limit per_ip (slot (j, w))
  victim-IsFair m ip rank limit per_ip j d h =
      Any-lookup (IsFair same_ip (map slot m) ip rank limit per_ip) j m d
        (replace-IsFair same_ip (map slot m) ip rank limit per_ip j h)

  held-insert :
      (ip : I) (k : K) (v : V) (m : List (K × V))
      → lookup same_key k m ≡ none
      → held ip (insert same_key k v m) ≡ held ip m + (if same_ip (slot (k, v)).ip ip then 1 else 0)
  held-insert ip k v m h =
      let p : K × V → Bool = λ q. same_ip (slot q).ip ip in
      length-filter-map slot (λ s. same_ip s.ip ip) (insert same_key k v m)
      ∙ count-insert_new same_key is_key p k v m h
      ∙ ap (λ n. n + (if p (k, v) then 1 else 0))
          (sym (length-filter-map slot (λ s. same_ip s.ip ip) m))

  held-remove :
      (ip : I) (k : K) (v : V) (m : List (K × V))
      → lookup same_key k m ≡ some v
      → held ip (remove same_key k m) + (if same_ip (slot (k, v)).ip ip then 1 else 0) ≡ held ip m
  held-remove ip k v m h =
      let p : K × V → Bool = λ q. same_ip (slot q).ip ip in
      ap (λ n. n + (if p (k, v) then 1 else 0))
        (length-filter-map slot (λ s. same_ip s.ip ip) (remove same_key k m))
      ∙ count-remove same_key is_key p k v m h
      ∙ sym (length-filter-map slot (λ s. same_ip s.ip ip) m)

  pub length-insert :
      (k : K) (v : V) (m : List (K × V))
      → lookup same_key k m ≡ none
      → length (insert same_key k v m) ≡ length m + 1
  length-insert k v m h =
      sym (length-filter_all (insert same_key k v m))
      ∙ count-insert_new same_key is_key (λ q. true) k v m h
      ∙ ap (λ n. n + 1) (length-filter_all m)

  pub length-remove :
      (k : K) (v : V) (m : List (K × V))
      → lookup same_key k m ≡ some v
      → length (remove same_key k m) + 1 ≡ length m
  length-remove k v m h =
      ap (λ n. n + 1) (sym (length-filter_all (remove same_key k m)))
      ∙ count-remove same_key is_key (λ q. true) k v m h
      ∙ length-filter_all m

  -- The numbers after the newcomer, in each of the ways in.
  free-held :
      (m : List (K × V)) (ip : I) (k : K) (v : V) (rank limit per_ip : ℕ) (i : I)
      → lookup same_key k m ≡ none
      → (slot (k, v)).ip ≡ ip
      → make_room same_ip (map slot m) ip rank limit per_ip ≡ Room.free
      → held i (insert same_key k v m) ≤ max per_ip (held i m)
  free-held m ip k v rank limit per_ip i n q h =
      let r = free-IsRoomy same_ip (map slot m) ip rank limit per_ip h in
      let c = held-insert i k v m n in
      elim (Bool-cases (same_ip (slot (k, v)).ip i)) [
        | inl e ↦
            let f : ip ≡ i = sym q ∙ is_ip.sound (slot (k, v)).ip i e in
            let b : held i m < per_ip = subst (λ x. held x m < per_ip) f r.0 in
            ground (arith, c, e, b)
        | inr e ↦ ground (arith, c, e)
      ]

  replace-held :
      (m : List (K × V)) (ip : I) (k : K) (v : V) (rank limit per_ip : ℕ) (i : I) (j : K)
      → IsMap same_key m
      → lookup same_key k m ≡ none
      → (slot (k, v)).ip ≡ ip
      → make_room same_ip (map slot m) ip rank limit per_ip ≡ Room.replace j
      → held i (insert same_key k v (remove same_key j m)) ≤ max per_ip (held i m)
  unfolding IsFair
  replace-held m ip k v rank limit per_ip i j d n q h =
      let w = victim-IsFair m ip rank limit per_ip j d h in
      let c = held-insert i k v (remove same_key j m) (lookup-remove-none same_key j k m n) in
      let b = held-remove i j w.0 m w.1 in
      elim (Bool-cases (same_ip (slot (k, v)).ip i)) [
        | inl e ↦
            let f : ip ≡ i = sym q ∙ is_ip.sound (slot (k, v)).ip i e in
            elim w.2.1 [
              | inl own ↦
                  let g : same_ip (slot (j, w.0)).ip i ≡ true =
                    subst (λ x. same_ip (slot (j, w.0)).ip x ≡ true) f own.0 in
                  ground (arith, c, b, e, g)
              | inr other ↦
                  let g : held i m < per_ip = subst (λ x. held x m < per_ip) f other.0 in
                  ground (arith, c, b, e, g)
            ]
        | inr e ↦ ground (arith, c, b, e)
      ]

  -- What a newcomer does to a table.
  pub record IsSettled (m m' : List (K × V)) (limit per_ip : ℕ) : Type 0 where
    pub distinct : IsMap same_key m'
    pub few : length m' ≤ limit
    pub share : (i : I) → held i m' ≤ max per_ip (held i m)

  settle :
      (m : List (K × V)) (ip : I) (k : K) (v : V) (rank limit per_ip : ℕ)
      → IsMap same_key m
      → length m ≤ limit
      → lookup same_key k m ≡ none
      → (slot (k, v)).ip ≡ ip
      → (r : Room K) → make_room same_ip (map slot m) ip rank limit per_ip ≡ r
      → IsSettled m (settle_in same_key r k v m) limit per_ip
  settle m ip k v rank limit per_ip d b n q Room.free h = record {
    distinct = insert-IsMap same_key is_key k v m d;
    few =
        let r = free-IsRoomy same_ip (map slot m) ip rank limit per_ip h in
        omega (arith, length-insert k v m n, length-map slot m, r.1);
    share = λ i. free-held m ip k v rank limit per_ip i n q h;
  }
  settle m ip k v rank limit per_ip d b n q (Room.replace j) h = record {
    distinct = insert-IsMap same_key is_key k v (remove same_key j m) (remove-IsMap same_key j m d);
    few =
        let w = victim-IsFair m ip rank limit per_ip j d h in
        omega (
          arith,
          length-insert k v (remove same_key j m) (lookup-remove-none same_key j k m n),
          length-remove j w.0 m w.1,
          b,
        );
    share = λ i. replace-held m ip k v rank limit per_ip i j d n q h;
  }
  settle m ip k v rank limit per_ip d b n q Room.full h = record {
    distinct = d;
    few = b;
    share = λ i. omega arith;
  }

  pub settle_in-IsSettled :
      (m : List (K × V)) (ip : I) (k : K) (v : V) (rank limit per_ip : ℕ)
      → IsMap same_key m
      → length m ≤ limit
      → lookup same_key k m ≡ none
      → (slot (k, v)).ip ≡ ip
      → IsSettled m
          (settle_in same_key (make_room same_ip (map slot m) ip rank limit per_ip) k v m)
          limit
          per_ip
  settle_in-IsSettled m ip k v rank limit per_ip d b n q =
      settle m ip k v rank limit per_ip d b n q
        (make_room same_ip (map slot m) ip rank limit per_ip) refl

  -- An entry that goes for a newcomer is one that the newcomer may replace.
  settle_in_cases :
      (m : List (K × V)) (ip : I) (k : K) (v : V) (rank limit per_ip : ℕ) (j : K)
      → IsMap same_key m
      → same_key k j ≡ false
      → (r : Room K) → make_room same_ip (map slot m) ip rank limit per_ip ≡ r
      → (lookup same_key j (settle_in same_key r k v m) ≡ lookup same_key j m)
        ⊎ ((w : V) × (lookup same_key j m ≡ some w)
            × IsFair same_ip (map slot m) ip rank limit per_ip (slot (j, w)))
  settle_in_cases m ip k v rank limit per_ip j d n Room.free h =
      inl (lookup-insert_other same_key is_key k j v m n)
  settle_in_cases m ip k v rank limit per_ip j d n Room.full h = inl refl
  settle_in_cases m ip k v rank limit per_ip j d n (Room.replace i) h =
      elim (Bool-cases (same_key i j)) [
        | inl e ↦ inr (
            victim-IsFair m ip rank limit per_ip j d
              (h ∙ ap (λ x. Room.replace x) (is_key.sound i j e)))
        | inr e ↦ inl (
            lookup-insert_other same_key is_key k j v (remove same_key i m) n
            ∙ lookup-remove_other same_key is_key i j m e)
      ]

  pub settle_in-IsFair :
      (m : List (K × V)) (ip : I) (k : K) (v : V) (rank limit per_ip : ℕ) (j : K)
      → IsMap same_key m
      → same_key k j ≡ false
      → (lookup same_key j
            (settle_in same_key (make_room same_ip (map slot m) ip rank limit per_ip) k v m)
          ≡ lookup same_key j m)
        ⊎ ((w : V) × (lookup same_key j m ≡ some w)
            × IsFair same_ip (map slot m) ip rank limit per_ip (slot (j, w)))
  settle_in-IsFair m ip k v rank limit per_ip j d n =
      settle_in_cases m ip k v rank limit per_ip j d n
        (make_room same_ip (map slot m) ip rank limit per_ip) refl
