-- ===== src/Transfers/Progress.antt =====
-- What one call of `add_progress` of ctx.rs tells the UI.
use mathlib.Core.Path.{subst}
use mathlib.Core.List.{append-nil}
use sukkula.Base.{
  ℕ, ◌+◌, ◌%◌, ◌≤◌, ◌<◌, ◌^◌, ◌≡◌, ◌⊎◌, min, refl, sym, inl, Bool, true, false, ◌&&◌, ◌||◌, Option,
  none, some, List, [], ◌∷◌, ◌++◌, arith, leb, ◌==◌, ==_iff, map, All, if◌then◌else◌, if-split,
}
use sukkula.Api.{Event}
use sukkula.Transfers.{
  Transfers, TransferHandle, tell, throttle, is_new, is_late, is_due, shown_of, counted,
  add_progress,
}

abbrev pub sum_of : List (ℕ × ℕ) → ℕ
sum_of [] = 0
sum_of ((n, now) ∷ cs) = n + sum_of cs

abbrev pub last_of : Option ℕ → List ℕ → Option ℕ
last_of o [] = o
last_of o (b ∷ bs) = last_of (some b) bs

abbrev pub IsAbove : Option ℕ → ℕ → Type 0
IsAbove none b = Unit
IsAbove (some a) b = a < b

abbrev pub IsAscending : Option ℕ → List ℕ → Type 0
IsAscending o [] = Unit
IsAscending o (b ∷ bs) = IsAbove o b × IsAscending (some b) bs

-- What the last report says of the counter.
abbrev pub IsHonestAt : ℕ → ℕ → Option ℕ → Type 0
IsHonestAt bytes total none = (bytes < total) ⊎ (bytes ≡ 0)
IsHonestAt bytes total (some x) = (x ≤ bytes) × (x ≤ total) × (total ≤ bytes → x ≡ total)

abbrev pub IsHonest : TransferHandle → Type 0
IsHonest h = IsHonestAt h.bytes h.total h.last_report.shown

-- Whether a count is told, and what is known then.
due-IsAbove :
    (bytes total n : ℕ) (o : Option ℕ)
    → IsHonestAt bytes total o
    → is_new o (min (bytes + n) total) ≡ true
    → IsAbove o (min (bytes + n) total)
due-IsAbove bytes total n none h d = tt
due-IsAbove bytes total n (some x) h d = ground (arith, h.0, h.1, d)

told_honest : (bytes total : ℕ) → IsHonestAt bytes total (some (min bytes total))
told_honest bytes total = (omega arith, omega arith, λ l. omega (arith, l))

untold_honest :
    (bytes total n : ℕ) (o : Option ℕ) (late : Bool)
    → IsHonestAt bytes total o
    → is_new o (min (bytes + n) total) && (leb total (min (bytes + n) total) || late) ≡ false
    → IsHonestAt (bytes + n) total o
untold_honest bytes total n none late h d = inl (ground (arith, d))
untold_honest bytes total n (some x) late h d =
    (omega (arith, h.0), h.1, λ l. ground (arith, d, l, h.0, h.1))

and_left : (a b : Bool) → a && b ≡ true → a ≡ true
and_left a b h = ground (arith, h)

mod_small : {a : ℕ} → a < 2 ^ 64 → a % 2 ^ 64 ≡ a
mod_small h = omega (arith, h)

module _ {X : Type 0} where
  abbrev pub progress_all :
      Transfers X → TransferHandle → List (ℕ × ℕ) → Transfers X × TransferHandle
  progress_all s h [] = (s, h)
  progress_all s h ((n, now) ∷ cs) = let r = add_progress s h n now in progress_all r.0 r.1 cs

  abbrev pub told_of : TransferHandle → List ℕ → List (Event X)
  told_of h bs = map (λ b. Event.transfer_progress h.id b h.total) bs

  -- What some calls told the UI: counts that ascend to the total, the total at last if all of it is
  -- counted, and nothing else.
  pub record IsTold (s : Transfers X) (h : TransferHandle) (n : ℕ)
      (r : Transfers X × TransferHandle) : Type 0 where
    pub counts : List ℕ
    pub told : r.0.events ≡ s.events ++ told_of h counts
    pub ascending : IsAscending h.last_report.shown counts
    pub within : All (λ b. b ≤ h.total) counts
    pub latest : last_of h.last_report.shown counts ≡ r.1.last_report.shown
    pub raised : r.1.bytes ≡ h.bytes + n
    pub same_id : r.1.id ≡ h.id
    pub same_total : r.1.total ≡ h.total
    pub honest : IsHonest r.1

  pub untold-IsTold :
      (s : Transfers X) (h : TransferHandle) (n : ℕ)
      → IsHonestAt (h.bytes + n) h.total h.last_report.shown
      → (h' : TransferHandle) → h'.bytes ≡ h.bytes + n
      → h'.id ≡ h.id
      → h'.total ≡ h.total
      → h'.last_report.shown ≡ h.last_report.shown
      → IsTold s h n (s, h')
  untold-IsTold s h n v h' b i t l = record {
    counts = [];
    told = sym (append-nil s.events);
    ascending = tt;
    within = tt;
    latest = sym l;
    raised = b;
    same_id = i;
    same_total = t;
    honest =
        subst (λ x. IsHonestAt x h'.total h'.last_report.shown) (sym b)
          (subst (λ x. IsHonestAt (h.bytes + n) x h'.last_report.shown) (sym t)
            (subst (λ x. IsHonestAt (h.bytes + n) h.total x) (sym l) v));
  }

  pub add_progress-IsTold :
      (s : Transfers X) (h : TransferHandle) (n now : ℕ)
      → h.bytes + n < 2 ^ 64
      → IsHonest h
      → IsTold s h n (add_progress s h n now)
  unfolding add_progress throttle
  add_progress-IsTold s h n now b v =
      let P : Transfers X × TransferHandle → Type 0 = IsTold s h n in
      let still : Transfers X × TransferHandle = (s, h) in
      let c = shown_of h n in
      let count : TransferHandle × Bool = (counted h n, false) in
      let tells : TransferHandle × Bool =
        (record (counted h n) { last_report = record { at = some now; shown = some c } }, true) in
      let e : c ≡ min (h.bytes + n) h.total = omega (arith, b) in
      let w : (h.bytes + n) % 2 ^ 64 ≡ h.bytes + n = mod_small b in
      if-split P (n == 0) still (tell s c (if is_due h c now then tells else count))
        (λ z.
          let o : n ≡ 0 = (==_iff n 0).0 z in
          let g : h.bytes ≡ h.bytes + n = omega (arith, o) in
          untold-IsTold s h n (subst (λ x. IsHonestAt x h.total h.last_report.shown) g v) h g refl
            refl refl)
        (λ z.
          if-split (λ r. P (tell s c r)) (is_due h c now) tells count
            (λ d. record {
              counts = c ∷ [];
              told = refl;
              ascending = (
                subst (λ x. IsAbove h.last_report.shown x) (sym e)
                    (due-IsAbove h.bytes h.total n h.last_report.shown v (
                      and_left _ _ (
                        subst
                          (λ x.
                            is_new h.last_report.shown x
                              && (leb h.total x || is_late h.last_report.at now)
                            ≡ true)
                          e d))),
                tt,
              );
              within = (omega (arith, e), tt);
              latest = refl;
              raised = w;
              same_id = refl;
              same_total = refl;
              honest =
                  subst (λ x. IsHonestAt x h.total (some c)) (sym w)
                    (subst (λ x. IsHonestAt (h.bytes + n) h.total (some x)) (sym e)
                      (told_honest (h.bytes + n) h.total));
            })
            (λ d.
              untold-IsTold s h n
                (untold_honest h.bytes h.total n h.last_report.shown (is_late h.last_report.at now)
                  v
                  (subst
                    (λ x.
                      is_new h.last_report.shown x
                        && (leb h.total x || is_late h.last_report.at now)
                      ≡ false)
                    e d))
                (counted h n) w refl refl refl))
