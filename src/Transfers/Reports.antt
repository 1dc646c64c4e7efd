-- ===== src/Transfers/Reports.antt =====
-- The progress that a transfer of ctx.rs reports, over the calls of `add_progress` one after another.
use mathlib.Core.Path.{subst}
use mathlib.Core.List.{append_assoc}
use sukkula.Base.{
  ℕ, ◌+◌, ◌≤◌, ◌<◌, ◌^◌, ◌≡◌, refl, sym, ◌∙◌, ap, inl, inr, Option, none, some, List, [], ◌∷◌, ◌++◌,
  arith, map, All, All-append,
}
use sukkula.Api.{Event}
use sukkula.Transfers.{Transfers, TransferHandle, new_handle, add_progress}
use sukkula.Transfers.Progress.{
  sum_of, last_of, IsAscending, IsHonestAt, IsHonest, progress_all, told_of, IsTold, untold-IsTold,
  add_progress-IsTold,
}

IsAscending-append :
    (o o' : Option ℕ) (bs cs : List ℕ)
    → IsAscending o bs
    → last_of o bs ≡ o'
    → IsAscending o' cs
    → IsAscending o (bs ++ cs)
IsAscending-append o o' [] cs a l c = subst (λ x. IsAscending x cs) (sym l) c
IsAscending-append o o' (b ∷ bs) cs a l c = (a.0, IsAscending-append (some b) o' bs cs a.1 l c)

last_of-append : (o : Option ℕ) (bs cs : List ℕ) → last_of o (bs ++ cs) ≡ last_of (last_of o bs) cs
last_of-append o [] cs = refl
last_of-append o (b ∷ bs) cs = last_of-append (some b) bs cs

honest_complete :
    (n total : ℕ) (o : Option ℕ) → IsHonestAt n total o → 0 < n → total ≤ n → o ≡ some total
honest_complete n total none (inl a) p l = absurd (omega (arith, a, l))
honest_complete n total none (inr z) p l = absurd (omega (arith, z, p))
honest_complete n total (some x) v p l = ap some (v.2 l)

module _ {X : Type 0} where
  told_of-append :
      (h : TransferHandle) (bs cs : List ℕ)
      → told_of {X = X} h (bs ++ cs) ≡ told_of {X = X} h bs ++ told_of {X = X} h cs
  told_of-append h [] cs = refl
  told_of-append h (b ∷ bs) cs =
      ap (λ l. Event.transfer_progress h.id b h.total ∷ l) (told_of-append h bs cs)

  told_of-same :
      (h h' : TransferHandle) (bs : List ℕ)
      → h'.id ≡ h.id
      → h'.total ≡ h.total
      → told_of {X = X} h' bs ≡ told_of {X = X} h bs
  told_of-same h h' bs i t = λ k. map (λ b. Event.transfer_progress (i k) b (t k)) bs

  chain-IsTold :
      (s : Transfers X) (h : TransferHandle) (n m : ℕ) (r r' : Transfers X × TransferHandle)
      → IsTold s h n r
      → IsTold r.0 r.1 m r'
      → IsTold s h (n + m) r'
  chain-IsTold s h n m r r' a b = record {
    counts = a.counts ++ b.counts;
    told =
        b.told
        ∙ ap (λ l. l ++ told_of r.1 b.counts) a.told
        ∙ append_assoc s.events (told_of h a.counts) (told_of r.1 b.counts)
        ∙ ap (λ l. s.events ++ (told_of h a.counts ++ l))
            (told_of-same h r.1 b.counts a.same_id a.same_total)
        ∙ ap (λ l. s.events ++ l) (sym (told_of-append h a.counts b.counts));
    ascending =
        IsAscending-append h.last_report.shown r.1.last_report.shown a.counts b.counts a.ascending
          a.latest b.ascending;
    within =
        All-append (λ x. x ≤ h.total) a.counts b.counts a.within
          (subst (λ t. All (λ x. x ≤ t) b.counts) a.same_total b.within);
    latest =
        last_of-append h.last_report.shown a.counts b.counts
        ∙ ap (λ o. last_of o b.counts) a.latest
        ∙ b.latest;
    raised = omega (arith, a.raised, b.raised);
    same_id = b.same_id ∙ a.same_id;
    same_total = b.same_total ∙ a.same_total;
    honest = b.honest;
  }

  progress_all-IsTold :
      (s : Transfers X) (h : TransferHandle) (cs : List (ℕ × ℕ))
      → h.bytes + sum_of cs < 2 ^ 64
      → IsHonest h
      → IsTold s h (sum_of cs) (progress_all s h cs)
  progress_all-IsTold s h [] b v =
      untold-IsTold s h 0 (subst (λ x. IsHonestAt x h.total h.last_report.shown) (omega arith) v) h
        (omega arith) refl refl refl
  progress_all-IsTold s h ((n, now) ∷ cs) b v =
      let r = add_progress s h n now in
      let a = add_progress-IsTold s h n now (omega (arith, b)) v in
      chain-IsTold s h n (sum_of cs) r (progress_all r.0 r.1 cs) a
        (progress_all-IsTold r.0 r.1 cs (omega (arith, a.raised, b)) a.honest)

  -- What a transfer reports: ascending counts up to the total, and the total at last when all of it
  -- was counted.
  pub record IsProgress (s s' : Transfers X) (id total n : ℕ) : Type 0 where
    pub counts : List ℕ
    pub told : s'.events ≡ s.events ++ map (λ b. Event.transfer_progress id b total) counts
    pub ascending : IsAscending none counts
    pub within : All (λ b. b ≤ total) counts
    pub complete : 0 < n → total ≤ n → last_of none counts ≡ some total

  -- Over calls of `add_progress` for a new transfer, each of which returns before the next begins, at any
  -- times, if the counts do not overflow: it
  -- reports counts that strictly ascend and do not pass the total, and if something was counted and it
  -- reaches the total, the last count it reports is the total.
  pub progress_all-IsProgress :
      (s : Transfers X) (id total : ℕ) (cs : List (ℕ × ℕ))
      → sum_of cs < 2 ^ 64
      → IsProgress s ((progress_all s (new_handle id total) cs).0) id total (sum_of cs)
  progress_all-IsProgress s id total cs b =
      let h = new_handle id total in
      let v = progress_all-IsTold s h cs (omega (arith, b)) (inr refl) in
      let f = (progress_all s h cs).1 in
      record {
        counts = v.counts;
        told = v.told;
        ascending = v.ascending;
        within = v.within;
        complete = λ p l.
            v.latest
            ∙ honest_complete (sum_of cs) total f.last_report.shown
                (subst (λ x. IsHonestAt x total f.last_report.shown) (omega (arith, v.raised))
                  (subst (λ x. IsHonestAt f.bytes x f.last_report.shown) v.same_total v.honest))
                p l;
      }
