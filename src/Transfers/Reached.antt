-- ===== src/Transfers/Reached.antt =====
-- What many callers at once report of one transfer of ctx.rs.
use mathlib.Core.Path.{subst}
use sukkula.Base.{
  ℕ, ◌+◌, ◌≤◌, ◌<◌, ◌^◌, ◌≡◌, ◌⊎◌, min, refl, ◌∙◌, ap, inl, inr, Bool, true, false, ◌&&◌, ◌||◌,
  Option, none, some, List, [], ◌∷◌, arith, leb, ◌==◌, ==_iff, any-append, All, All-append,
  Bool-cases, not_leb→lt, if-split,
}
use sukkula.Transfers.{TransferHandle, counted, shown_of, is_new, is_late, is_due, throttle}
use sukkula.Transfers.Callers.{
  Callers, Step, IsTaken, take_at, take_at-IsTaken, throttled, lock_at, emit_at, raise, step, run,
  added, sum_added, is_in, some-injective, new_callers,
}

-- What holds at any time, for the bytes counted so far.
record IsFair (total n : ℕ) (w : Callers) : Type 0 where
  total_is : w.handle.total ≡ total
  bytes_is : w.handle.bytes ≡ n
  raised_within : All (λ c. c ≤ total) w.raised
  due_within : All (λ c. c ≤ total) w.due
  told_within : All (λ c. c ≤ total) w.told
  seen : (x : ℕ) → w.handle.last_report.shown ≡ some x → (is_in x w.due || is_in x w.told) ≡ true
  complete :
      0 < n → total ≤ n → (is_in total w.raised || is_in total w.due || is_in total w.told) ≡ true

-- A count that reaches the total is due, unless it was the last one.
undue_last :
    (o : Option ℕ) (c total : ℕ) (late : Bool)
    → (is_new o c && (leb total c || late)) ≡ false
    → c ≡ total
    → o ≡ some total
undue_last none c total late h e = ground (arith, h, e)
undue_last (some x) c total late h e = let y : x ≡ total = ground (arith, h, e) in ap some y

raise-IsFair :
    (total n k : ℕ) (w : Callers)
    → n + k < 2 ^ 64
    → IsFair total n w
    → IsFair total (n + k) (raise w k)
raise-IsFair total n k w b v =
    let c = shown_of w.handle k in
    let r : Callers = record w { handle = counted w.handle k; raised = c ∷ w.raised } in
    let d : c ≡ min (n + k) total = omega (arith, v.bytes_is, v.total_is, b) in
    if-split (IsFair total (n + k)) (k == 0) w r
      (λ z.
        let y : n ≡ n + k = let x : k ≡ 0 = (==_iff k 0).0 z in omega (arith, x) in
        subst (λ m. IsFair total m w) y v)
      (λ z. record {
        total_is = v.total_is;
        bytes_is = omega (arith, v.bytes_is, b);
        raised_within = (omega (arith, d), v.raised_within);
        due_within = v.due_within;
        told_within = v.told_within;
        seen = v.seen;
        complete = λ p l.
            let e : c ≡ total = omega (arith, d, l) in
            let f : (c == total) ≡ true = (==_iff c total).1 e in rw f refl;
      })

lock-IsFair :
    (total n : ℕ) (w : Callers) (c now : ℕ) (rest : List ℕ)
    → IsTaken w.raised c rest
    → IsFair total n w
    → IsFair total n (throttled w c rest (throttle w.handle c now))
unfolding throttle
lock-IsFair total n w c now rest t v =
    let h = w.handle in
    let b = t.bound total v.raised_within in
    let told : TransferHandle × Bool =
      (record h { last_report = record { at = some now; shown = some c } }, true) in
    let quiet : TransferHandle × Bool = (h, false) in
    if-split (λ r. IsFair total n (throttled w c rest r)) (is_due h c now) told quiet
      (λ d. record {
        total_is = v.total_is;
        bytes_is = v.bytes_is;
        raised_within = b.1;
        due_within = (b.0, v.due_within);
        told_within = v.told_within;
        seen = λ x q. let f : (c == x) ≡ true = (==_iff c x).1 (some-injective q) in rw f refl;
        complete = λ p l. ground (arith, v.complete p l, t.same total);
      })
      (λ d. record {
        total_is = v.total_is;
        bytes_is = v.bytes_is;
        raised_within = b.1;
        due_within = v.due_within;
        told_within = v.told_within;
        seen = v.seen;
        complete = λ p l. elim (Bool-cases (c == total)) [
          | inl f ↦
              let g : (is_new h.last_report.shown c
                    && (leb total c || is_late h.last_report.at now))
                  ≡ false =
                subst
                  (λ m.
                    (is_new h.last_report.shown c && (leb m c || is_late h.last_report.at now))
                    ≡ false)
                  v.total_is d in
              let s = v.seen total (
                undue_last h.last_report.shown c total (is_late h.last_report.at now) g
                  ((==_iff c total).0 f)) in
              ground (arith, s)
          | inr f ↦ ground (arith, v.complete p l, t.same total, f)
        ];
      })

lock_at-IsFair :
    (total n : ℕ) (w : Callers) (now : ℕ) (o : Option (ℕ × List ℕ))
    → ((c : ℕ) (rest : List ℕ) → o ≡ some (c, rest) → IsTaken w.raised c rest)
    → IsFair total n w
    → IsFair total n (lock_at w now o)
lock_at-IsFair total n w now none t v = v
lock_at-IsFair total n w now (some (c, rest)) t v =
    lock-IsFair total n w c now rest (t c rest refl) v

emit_at-IsFair :
    (total n : ℕ) (w : Callers) (o : Option (ℕ × List ℕ))
    → ((c : ℕ) (rest : List ℕ) → o ≡ some (c, rest) → IsTaken w.due c rest)
    → IsFair total n w
    → IsFair total n (emit_at w o)
emit_at-IsFair total n w none t v = v
emit_at-IsFair total n w (some (c, rest)) t v =
    let u = t c rest refl in
    let b = u.bound total v.due_within in
    record {
      total_is = v.total_is;
      bytes_is = v.bytes_is;
      raised_within = v.raised_within;
      due_within = b.1;
      told_within = All-append (λ y. y ≤ total) w.told (c ∷ []) v.told_within (b.0, tt);
      seen = λ x q. ground (arith, v.seen x q, u.same x, any-append (λ y. y == x) w.told (c ∷ []));
      complete = λ p l.
          ground
            (arith, v.complete p l, u.same total, any-append (λ y. y == total) w.told (c ∷ []));
    }

step-IsFair :
    (total n : ℕ) (w : Callers) (s : Step)
    → n + added s < 2 ^ 64
    → IsFair total n w
    → IsFair total (n + added s) (step w s)
step-IsFair total n w (Step.raising k) b v = raise-IsFair total n k w b v
step-IsFair total n w (Step.locking i now) b v =
    let e : n ≡ n + 0 = omega arith in
    subst (λ m. IsFair total m (step w (Step.locking i now))) e
      (lock_at-IsFair total n w now (take_at i w.raised) (take_at-IsTaken i w.raised) v)
step-IsFair total n w (Step.emitting i) b v =
    let e : n ≡ n + 0 = omega arith in
    subst (λ m. IsFair total m (step w (Step.emitting i))) e
      (emit_at-IsFair total n w (take_at i w.due) (take_at-IsTaken i w.due) v)

run-IsFair :
    (total n : ℕ) (w : Callers) (ss : List Step)
    → n + sum_added ss < 2 ^ 64
    → IsFair total n w
    → IsFair total (n + sum_added ss) (run w ss)
run-IsFair total n w [] b v = let e : n ≡ n + 0 = omega arith in subst (λ m. IsFair total m w) e v
run-IsFair total n w (s ∷ ss) b v =
    let e : n + added s + sum_added ss ≡ n + (added s + sum_added ss) = omega arith in
    subst (λ m. IsFair total m (run (step w s) ss)) e
      (run-IsFair total (n + added s) (step w s) ss (omega (arith, b))
        (step-IsFair total n w s (omega (arith, b)) v))

-- Whatever callers report the progress of a new transfer at once, in whatever order their parts of
-- `add_progress` run and at whatever times, if the counts do not overflow: no byte counted is lost; no
-- event goes past the total; and if something was counted and it reaches the total, an event with the
-- total was emitted, or a caller has it on its way to the lock or to the event.
pub run-IsReported :
    (id total : ℕ) (ss : List Step)
    → sum_added ss < 2 ^ 64
    → let w = run (new_callers id total) ss in
      (w.handle.bytes ≡ sum_added ss)
      × All (λ c. c ≤ total) w.told
      × ((sum_added ss ≡ 0)
          ⊎ (sum_added ss < total)
          ⊎ ((is_in total w.raised || is_in total w.due || is_in total w.told) ≡ true))
run-IsReported id total ss b =
    let w = run (new_callers id total) ss in
    let n = sum_added ss in
    let z : 0 + n ≡ n = omega arith in
    let v = run-IsFair total 0 (new_callers id total) ss (omega (arith, b)) (record {
      total_is = refl;
      bytes_is = refl;
      raised_within = tt;
      due_within = tt;
      told_within = tt;
      seen = λ x q. ground (arith, q);
      complete = λ p l. absurd (omega (arith, p));
    }) in
    (
      v.bytes_is ∙ z,
      v.told_within,
      elim (Bool-cases (n == 0)) [
        | inl e ↦ inl ((==_iff n 0).0 e)
        | inr e ↦ elim (Bool-cases (leb total n)) [
          | inl f ↦ inr (inr (v.complete (ground (arith, e)) (ground (arith, f))))
          | inr f ↦ inr (inl (not_leb→lt total n f))
        ]
      ],
    )
