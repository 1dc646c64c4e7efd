-- ===== src/Leads/Gone.antt =====
-- `Leads` of peers.rs: when a lead goes.
use mathlib.Core.Path.{subst}
use sukkula.Base.{
  ℕ, zero, suc, ◌+◌, ◌≤◌, ◌<◌, ◌≡◌, refl, sym, ◌∙◌, ap, inl, inr, Option, none, some, List, [], Str,
  arith, leb, Bool-cases, Option-cases, min, if◌then◌else◌,
}
use sukkula.Base.Assoc.{lookup, insert, remove, lookup-remove, lookup-insert, lookup-All}
use sukkula.Addr.{SocketAddr}
use sukkula.Leads.{Lead, Key, Leads, Call, same_key, missed_at, missed, calls, max_lead_tries}
use sukkula.Leads.Bounded.{IsLeads, same_key-IsTest, missed_at-IsLeads, calls-IsLeads}

-- `missed`, several times.
unfoldable pub misses : ℕ → Leads → SocketAddr → Str → Leads
misses zero m addr fingerprint = m
misses (suc n) m addr fingerprint = misses n (missed m addr fingerprint) addr fingerprint

tries_of : Option Lead → ℕ
tries_of none = 0
tries_of (some l) = l.tries

missed_at-tries :
    (m : Leads) (k : Key) (n : ℕ) (o : Option Lead)
    → lookup same_key k m ≡ o
    → IsLeads m
    → ((l : Lead) → lookup same_key k m ≡ some l → max_lead_tries ≤ l.tries + suc n)
    → (l : Lead) → lookup same_key k (missed_at m k o) ≡ some l
    → max_lead_tries ≤ l.tries + n
unfolding tries_of
missed_at-tries m k n none h v f l g = ground (arith, h, g)
missed_at-tries m k n (some x) h v f l g =
    let t = lookup-All same_key same_key-IsTest (λ p. p.1.tries < max_lead_tries) k x m h v.tried in
    let y : Lead = record x { tries = min 255 (x.tries + 1) } in
    elim (Bool-cases (leb max_lead_tries (min 255 (x.tries + 1)))) [
      | inl e ↦ absurd (ground (arith, lookup-remove same_key same_key-IsTest k m v.distinct, e, g))
      | inr e ↦
          let i = lookup-insert same_key same_key-IsTest k y m in
          let g' : lookup same_key k (insert same_key k y m) ≡ some l =
            subst
              (λ b.
                lookup same_key k (if b then remove same_key k m else insert same_key k y m)
                ≡ some l)
              e g in
          let c = ap tries_of (sym i ∙ g') in omega (arith, f x h, t, c)
    ]

misses-gone :
    (n : ℕ) (m : Leads) (addr : SocketAddr) (fingerprint : Str)
    → IsLeads m
    → ((l : Lead) → lookup same_key (addr, fingerprint) m ≡ some l → max_lead_tries ≤ l.tries + n)
    → lookup same_key (addr, fingerprint) (misses n m addr fingerprint) ≡ none
unfolding misses missed
misses-gone zero m addr fingerprint v f =
    elim (Option-cases (lookup same_key (addr, fingerprint) m)) [
      | inl e ↦ e
      | inr e ↦ absurd (
          omega (
            arith,
            f e.0 e.1,
            lookup-All same_key same_key-IsTest (λ p. p.1.tries < max_lead_tries)
                (addr, fingerprint) e.0 m e.1 v.tried,
          ))
    ]
misses-gone (suc n) m addr fingerprint v f =
    let k : Key = (addr, fingerprint) in
    misses-gone n (missed m addr fingerprint) addr fingerprint
      (missed_at-IsLeads m k (lookup same_key k m) refl v)
      (missed_at-tries m k n (lookup same_key k m) refl v f)

-- Whatever was done before, a lead that is missed three times in a row is not kept any more.
pub misses-lookup :
    (cs : List Call) (addr : SocketAddr) (fingerprint : Str)
    → lookup same_key (addr, fingerprint) (misses 3 (calls [] cs) addr fingerprint) ≡ none
misses-lookup cs addr fingerprint =
    misses-gone 3 (calls [] cs) addr fingerprint (calls-IsLeads cs) (λ l e. omega arith)
