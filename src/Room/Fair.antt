-- ===== src/Room/Fair.antt =====
-- `make_room` of peers.rs: which entry a newcomer replaces, and how many entries there are then.
use mathlib.Core.Path.{subst}
use sukkula.Base.{
  ℕ, ◌+◌, ◌≤◌, ◌<◌, ◌≡◌, ◌≢◌, ◌⊎◌, refl, sym, ◌∙◌, inl, inr, Bool, true, false, Option, none, some,
  List, [], ◌∷◌, arith, leb, ltb, length, filter, min_by, least, Any, Any-map, Any-filter,
  least-Any, Bool-cases, leb→le, ltb→lt, not_leb→lt, not_ltb→le,
}
use sukkula.Room.{Slot, Room, own, count, gives_way, is_weaker, is_staler, room_of, make_room}

module _ {K I : Type 0} (same : I → I → Bool) where
  -- An entry that a newcomer of `rank` from `ip` may replace: it ranks no better; if the newcomer's
  -- address has its share, it is an entry of that address; else the table is full, and the entry
  -- ranks lower or its address holds two more entries than the newcomer's.
  unfoldable pub IsFair : List (Slot K I) → I → ℕ → ℕ → ℕ → Slot K I → Type 0
  IsFair slots ip rank limit per_ip s =
      (s.rank ≤ rank)
      × (((same s.ip ip ≡ true) × (per_ip ≤ count same ip slots))
          ⊎ ((count same ip slots < per_ip)
              × (limit ≤ length slots)
              × (s.rank < rank ⊎ (count same ip slots + 2 ≤ count same s.ip slots))))

  -- What `make_room` chooses from the newcomer's own entries, and from a full table.
  own_choice : List (Slot K I) → I → ℕ → Option (Slot K I)
  own_choice slots ip rank =
      min_by (is_staler same) (filter (λ s. leb s.rank rank) (own same ip slots))

  any_choice : List (Slot K I) → I → ℕ → Option (Slot K I)
  any_choice slots ip rank =
      min_by (is_weaker same slots) (filter (gives_way same slots rank (count same ip slots)) slots)

  in_share :
      (slots : List (Slot K I)) (ip : I) (rank limit per_ip : ℕ)
      → leb per_ip (count same ip slots) ≡ true
      → make_room same slots ip rank limit per_ip ≡ room_of same (own_choice slots ip rank)
  unfolding make_room own_choice
  in_share slots ip rank limit per_ip e = rw e refl

  in_full :
      (slots : List (Slot K I)) (ip : I) (rank limit per_ip : ℕ)
      → leb per_ip (count same ip slots) ≡ false
      → ltb (length slots) limit ≡ false
      → make_room same slots ip rank limit per_ip ≡ room_of same (any_choice slots ip rank)
  unfolding make_room any_choice
  in_full slots ip rank limit per_ip e f = rw (e, f) refl

  room_of-free : (o : Option (Slot K I)) → room_of same o ≢ Room.free
  room_of-free none h = ground (arith, h)
  room_of-free (some s) h = ground (arith, h)

  -- There is room where neither bound is reached.
  pub free-IsRoomy :
      (slots : List (Slot K I)) (ip : I) (rank limit per_ip : ℕ)
      → make_room same slots ip rank limit per_ip ≡ Room.free
      → (count same ip slots < per_ip) × (length slots < limit)
  unfolding make_room
  free-IsRoomy slots ip rank limit per_ip h = elim (Bool-cases (leb per_ip (count same ip slots))) [
    | inl e ↦
        absurd (
          room_of-free (own_choice slots ip rank) (sym (in_share slots ip rank limit per_ip e) ∙ h))
    | inr e ↦ elim (Bool-cases (ltb (length slots) limit)) [
      | inl f ↦ (not_leb→lt per_ip (count same ip slots) e, ltb→lt (length slots) limit f)
      | inr f ↦ absurd (
          room_of-free (any_choice slots ip rank)
            (sym (in_full slots ip rank limit per_ip e f) ∙ h))
    ]
  ]

  room_of-replace :
      (is_less : Slot K I → Slot K I → Bool) (xs : List (Slot K I)) (k : K)
      → room_of same (min_by is_less xs) ≡ Room.replace k
      → Any (λ s. s.key ≡ k) xs
  room_of-replace is_less [] k h = ground arith
  room_of-replace is_less (x ∷ xs) k h =
      let e : (least is_less x xs).key ≡ k = ground arith in
      Any-map (λ s. least is_less x xs ≡ s) (λ s. s.key ≡ k) (x ∷ xs)
        (λ s g. subst (λ y. y.key ≡ k) g e) (least-Any is_less x xs (least is_less x xs) refl)

  gives_way-rank :
      (slots : List (Slot K I)) (rank held : ℕ) (s : Slot K I)
      → gives_way same slots rank held s ≡ true
      → s.rank ≤ rank
  gives_way-rank slots rank held s h = ground (arith, h)

  gives_way-held :
      (slots : List (Slot K I)) (rank held : ℕ) (s : Slot K I)
      → gives_way same slots rank held s ≡ true
      → s.rank < rank ⊎ (held + 2 ≤ count same s.ip slots)
  gives_way-held slots rank held s h = elim (Bool-cases (ltb s.rank rank)) [
    | inl e ↦ inl (ltb→lt s.rank rank e)
    | inr e ↦ inr (ground (arith, h, e))
  ]

  pub replace-IsFair :
      (slots : List (Slot K I)) (ip : I) (rank limit per_ip : ℕ) (k : K)
      → make_room same slots ip rank limit per_ip ≡ Room.replace k
      → Any (λ s. (s.key ≡ k) × IsFair slots ip rank limit per_ip s) slots
  unfolding make_room IsFair own_choice any_choice
  replace-IsFair slots ip rank limit per_ip k h =
      let held = count same ip slots in
      elim (Bool-cases (leb per_ip held)) [
        | inl e ↦
            let h' = sym (in_share slots ip rank limit per_ip e) ∙ h in
            let r =
              room_of-replace (is_staler same) (filter (λ s. leb s.rank rank) (own same ip slots)) k
                h' in
            Any-map _ _ slots
              (λ s g. (g.1.1, (leb→le s.rank rank g.1.0, inl (g.0, leb→le per_ip held e))))
              (Any-filter _ (λ s. same s.ip ip) slots
                (Any-filter _ (λ s. leb s.rank rank) (own same ip slots) r))
        | inr e ↦ elim (Bool-cases (ltb (length slots) limit)) [
          | inl f ↦ ground (arith, h, e, f)
          | inr f ↦
              let h' = sym (in_full slots ip rank limit per_ip e f) ∙ h in
              let r =
                room_of-replace (is_weaker same slots)
                  (filter (gives_way same slots rank held) slots) k h' in
              Any-map _ _ slots
                (λ s g. (
                  g.1,
                  (
                    gives_way-rank slots rank held s g.0,
                    inr (
                      not_leb→lt per_ip held e,
                      not_ltb→le (length slots) limit f,
                      gives_way-held slots rank held s g.0,
                    ),
                  ),
                ))
                (Any-filter _ (gives_way same slots rank held) slots r)
        ]
      ]
