-- ===== src/Ctx/Flood.antt =====
-- How many offers nobody asked for reach the user, by ctx.rs, offer.rs, reach.rs and consent.rs
-- together.
use sukkula.Base.{
  ℕ, ◌+◌, ◌-◌, ◌≤◌, ◌<◌, ◌≡◌, refl, ◌∙◌, ap, Bool, true, false, not, ◌&&◌, List, [], ◌∷◌, arith,
  leb, if◌then◌else◌, length, All, min, Bool-cases, inl, inr,
}
use sukkula.Base.Outcome.{Result, ok, err}
use sukkula.Addr.{same_ip, same_ip-IsTest}
use sukkula.Limits.{max_active_transfers, global_offer_burst, global_offer_window}
use sukkula.Offer.{RawOffer, Offer, OfferError, is_none, validate}
use sukkula.Reach.{allow}
use sukkula.Reach.Bounded.{count_allowed}
use sukkula.Reach.First.{allowed_from_new}
use sukkula.Transfers.{Transfers}
use sukkula.Consent.{Broker, ask_begin}
use sukkula.Ctx.{Ctx, Asked, Declined, everyone, decide_valid, decide_before, new_ctx}

abbrev pub is_ok : {A E : Type 0} → Result E A → Bool
is_ok (ok a) = true
is_ok (err e) = false

-- An offer from the LAN, with the transfers that run and the broker's state when it comes, and when
-- that is.
pub record Attempt (X : Type 0) : Type 0 where
  pub raw : RawOffer
  pub running : Transfers X
  pub broker : Broker
  pub now : ℕ

-- Whether the broker takes an offer that it is asked about into its queue, and so shows it.
abbrev pub is_taken : Broker → Result Declined Offer → Bool
is_taken b (err e) = false
is_taken b (ok offer) = is_none ((ask_begin b).1)

taken_asked :
    (b : Broker) (r : Result Declined Offer)
    → (if is_taken b r then 1 else 0) ≤ (if is_ok r then 1 else 0)
taken_asked b (err e) = omega arith
taken_asked b (ok offer) = ground arith

module _ {X : Type 0} where
  -- How many of some offers the consent broker is asked about.
  abbrev pub asks : Ctx X → List (Attempt X) → ℕ
  asks c [] = 0
  asks c (a ∷ rest) =
      let r = decide_before (record c { transfers = a.running }) a.raw Asked.no a.now in
      (if is_ok r.1 then 1 else 0) + asks r.0 rest

  -- How many of some offers the user is shown.
  abbrev pub count_shown : Ctx X → List (Attempt X) → ℕ
  count_shown c [] = 0
  count_shown c (a ∷ rest) =
      let r = decide_before (record c { transfers = a.running }) a.raw Asked.no a.now in
      (if is_taken a.broker r.1 then 1 else 0) + count_shown r.0 rest

  count_shown-asks : (c : Ctx X) (offers : List (Attempt X)) → count_shown c offers ≤ asks c offers
  count_shown-asks c [] = omega arith
  count_shown-asks c (a ∷ rest) =
      let r = decide_before (record c { transfers = a.running }) a.raw Asked.no a.now in
      omega (arith, taken_asked a.broker r.1, count_shown-asks r.0 rest)

  -- Whether an offer is well formed and finds room for a transfer, and when such offers come.
  abbrev pub is_serious : Attempt X → Result OfferError Offer → Bool
  is_serious a o = is_ok o && not (leb max_active_transfers (length a.running.active))

  abbrev pub serious_times : List (Attempt X) → List ℕ
  serious_times [] = []
  serious_times (a ∷ rest) =
      let times = serious_times rest in
      if is_serious a (validate a.raw) then a.now ∷ times else times

  -- The first of some offers, by the outcome of its check.
  asks_as : Ctx X → Attempt X → Result OfferError Offer → List (Attempt X) → ℕ
  asks_as c a o rest =
      let r = decide_valid (record c { transfers = a.running }) Asked.no a.now o in
      (if is_ok r.1 then 1 else 0) + asks r.0 rest

  times_as : Attempt X → Result OfferError Offer → List (Attempt X) → List ℕ
  times_as a o rest =
      let times = serious_times rest in if is_serious a o then a.now ∷ times else times

  asks-allowed_as :
      (c : Ctx X) (a : Attempt X) (rest : List (Attempt X))
      → ((d : Ctx X)
          → asks d rest
            ≡ count_allowed same_ip d.global_offer_limiter everyone (serious_times rest))
      → (o : Result OfferError Offer)
      → asks_as c a o rest
        ≡ count_allowed same_ip c.global_offer_limiter everyone (times_as a o rest)
  unfolding asks_as times_as
  asks-allowed_as c a rest ih (err e) = omega (arith, ih (record c { transfers = a.running }))
  asks-allowed_as c a rest ih (ok offer) =
      elim (Bool-cases (leb max_active_transfers (length a.running.active))) [
        | inl e ↦ rw e (omega (arith, ih (record c { transfers = a.running })))
        | inr e ↦
            let r = allow same_ip c.global_offer_limiter everyone a.now in
            let i = ih (record c { transfers = a.running; global_offer_limiter = r.0 }) in
            rw e (elim (Bool-cases r.1) [
              | inl f ↦ rw f (omega (arith, i))
              | inr f ↦ rw f (omega (arith, i))
            ])
      ]

  asks-allowed :
      (c : Ctx X) (offers : List (Attempt X))
      → asks c offers ≡ count_allowed same_ip c.global_offer_limiter everyone (serious_times offers)
  unfolding decide_before asks_as times_as
  asks-allowed c [] = refl
  asks-allowed c (a ∷ rest) = asks-allowed_as c a rest (λ d. asks-allowed d rest) (validate a.raw)

  asks-first :
      (transfers : Transfers X) (allow_loopback : Bool) (offers : List (Attempt X)) (now : ℕ)
      (times : List ℕ)
      → serious_times offers ≡ now ∷ times
      → All (λ t. t - now < global_offer_window) times
      → asks (new_ctx transfers allow_loopback) offers
        ≡ min (length (serious_times offers)) global_offer_burst
  asks-first transfers allow_loopback offers now times s h =
      let c = new_ctx transfers allow_loopback in
      asks-allowed c offers
      ∙ ap (λ l. count_allowed same_ip c.global_offer_limiter everyone l) s
      ∙ allowed_from_new same_ip same_ip-IsTest.same_self global_offer_burst global_offer_window
          everyone now times (omega arith) (omega arith) h
      ∙ omega (arith, ap length s)

  -- Of the offers that come from the LAN to a new context, are well formed and find fewer than 8
  -- transfers running, if all of them come within a minute of the first: the consent broker is asked
  -- about ten of them, or all if there are fewer, and about no other offer. Whatever state the broker
  -- is in when each offer comes, the user is shown at most ten.
  pub asks-bounded :
      (transfers : Transfers X) (allow_loopback : Bool) (offers : List (Attempt X)) (now : ℕ)
      (times : List ℕ)
      → serious_times offers ≡ now ∷ times
      → All (λ t. t - now < global_offer_window) times
      → let c = new_ctx transfers allow_loopback in
        (asks c offers ≡ min (length (serious_times offers)) global_offer_burst)
        × (count_shown c offers ≤ global_offer_burst)
  asks-bounded transfers allow_loopback offers now times s h =
      let c = new_ctx transfers allow_loopback in
      let e = asks-first transfers allow_loopback offers now times s h in
      (e, omega (arith, e, count_shown-asks c offers))
