-- ===== src/Ctx/Tests.antt =====
-- The theorems about ctx.rs at concrete offers.
use sukkula.Base.{
  ℕ, ◌+◌, ◌-◌, ◌*◌, ◌≤◌, ◌<◌, Option, ◌≡◌, ◌∙◌, refl, ap, Bool, true, false, none, some, List, [],
  ◌∷◌, arith, length, All, min, if◌then◌else◌,
}
use sukkula.Base.Outcome.{ok}
use sukkula.Limits.{global_offer_burst, mib}
use sukkula.Offer.{RawOffer, Offer, OfferError, validate}
use sukkula.Offer.Tests.{photo, bad_file, offering, photo_offer, photo_offer_checked}
use sukkula.Transfers.{Transfers, new_handle, next_id}
use sukkula.Consent.{Broker, with_limits}
use sukkula.Ctx.{Ctx, Asked, Accepted, new_ctx, decide_valid, decide_before, decide_after}
use sukkula.Ctx.Flood.{Attempt, asks, count_shown, serious_times, asks-bounded}
use sukkula.Ctx.Accepts.{IsGoing, decide-IsGoing}

abbrev quiet : Transfers ℕ
quiet = record { next = 4; active = []; is_shut_down = false; events = [] }

abbrev fresh : Ctx ℕ
fresh = new_ctx quiet false

-- A broker that takes two offers.
abbrev broker : Broker
broker = with_limits 2

abbrev attempt : RawOffer → ℕ → Attempt ℕ
attempt raw now = record { raw = raw; running = quiet; broker = broker; now = now }

abbrev evening : List (Attempt ℕ)
evening =
    attempt (offering (photo ∷ [])) 5
    ∷ attempt (offering (photo ∷ bad_file ∷ [])) 6
    ∷ attempt (offering (photo ∷ [])) 7
    ∷ []

evening_serious : serious_times evening ≡ 5 ∷ 7 ∷ []
unfolding validate sukkula.Text.display sukkula.Name.sanitize sukkula.Offer.Mime.clean_mime
    sukkula.Text.classify sukkula.Base.len_utf8 sukkula.Base.as_bytes
evening_serious = refl

asks-bounded_example :
    (asks (new_ctx quiet false) evening ≡ min (length (serious_times evening)) global_offer_burst)
    × (count_shown (new_ctx quiet false) evening ≤ global_offer_burst)
asks-bounded_example = asks-bounded quiet false evening 5 (7 ∷ []) evening_serious (omega arith, tt)

-- 100 MiB are free.
abbrev free : Option ℕ
free = some (100 * mib)

abbrev accepted : Accepted
accepted = record { offer_id = 9; offer = photo_offer; transfer = new_handle 5 1000 }

photo_asked : (decide_before fresh (offering (photo ∷ [])) Asked.no 5).1 ≡ ok photo_offer
unfolding decide_before sukkula.Reach.allow sukkula.Reach.new_limiter
photo_asked = ap (λ o. (decide_valid fresh Asked.no 5 o).1) photo_offer_checked ∙ refl

photo_accepted : (decide_after fresh photo_offer (ok 9) free).1 ≡ ok accepted
unfolding decide_after sukkula.Inbox.check_space sukkula.Transfers.begin
    sukkula.Transfers.begin_views
photo_accepted = refl

decide-IsGoing_example :
    IsGoing
      (offering (photo ∷ []))
      photo_offer
      (ok 9)
      free
      quiet
      (decide_after fresh photo_offer (ok 9) free).0.transfers
      accepted
decide-IsGoing_example =
    decide-IsGoing fresh fresh (offering (photo ∷ [])) Asked.no 5 photo_offer (ok 9) free accepted
      photo_asked photo_accepted
