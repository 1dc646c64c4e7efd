-- ===== src/Ctx.antt =====
-- crates/sukkula-engine/src/ctx.rs: the path of an offer through `Ctx`, and a file that is received.
-- `decide` is cut at its await: `decide_before` is what it does until it asks the consent broker, which
-- may still refuse, `decide_after` what it does with the broker's answer. Times are in seconds for the limiters and in milliseconds for the
-- progress.
pub mod Flood
pub mod Accepts
pub mod Tests
use sukkula.Base.{
  ℕ, ◌+◌, ◌-◌, Bool, true, false, not, ◌&&◌, Option, none, some, List, [], ◌∷◌, Str, codes, leb,
  ltb, if◌then◌else◌, length,
}
use sukkula.Base.Outcome.{Result, ok, err, ◌>>=◌}
use sukkula.Addr.{same_ip}
use sukkula.Limits.{
  max_active_transfers, offer_burst, offer_window, global_offer_burst, global_offer_window,
  discovery_burst, discovery_window,
}
use sukkula.Offer.{RawOffer, OfferFile, Offer, OfferError, validate}
use sukkula.Reach.{IpAddr, Ipv4Addr, v4, RateLimiter, new_limiter, permits, allow}
use sukkula.Inbox.{InboxError, Incoming, Saved, Done, WriteAll, check_space, write, Placing}
use sukkula.Consent.{Refusal}
use sukkula.Api.{ErrorCode, ErrorInfo, Direction}
use sukkula.Transfers.{Transfers, TransferHandle, begin, is_cancelled, add_progress, cancelled}

pub record Ctx (X : Type 0) : Type 0 where
  pub transfers : Transfers X
  pub offer_limiter : RateLimiter IpAddr
  pub global_offer_limiter : RateLimiter IpAddr
  pub discovery_limiter : RateLimiter IpAddr
  pub allow_loopback : Bool

-- Whether the user asked for an offer.
pub data Asked : Type 0 where
  yes no : Asked

abbrev pub is_no : Asked → Bool
is_no Asked.yes = false
is_no Asked.no = true

-- Why an offer is not going ahead.
pub data Declined : Type 0 where
  invalid : OfferError → Declined
  refused : Refusal → Declined
  no_space : Declined
  busy : Declined

-- An offer the user accepted.
pub record Accepted : Type 0 where
  pub offer_id : ℕ
  pub offer : Offer
  pub transfer : TransferHandle

-- `IpAddr::V4(Ipv4Addr::UNSPECIFIED)`.
abbrev pub everyone : IpAddr
everyone = v4 (record { a = 0; b = 0; c = 0; d = 0 })

abbrev pub storage_code : InboxError → ErrorCode
storage_code InboxError.too_large = ErrorCode.too_large
storage_code InboxError.overflow = ErrorCode.too_large
storage_code (InboxError.truncated n m) = ErrorCode.network
storage_code InboxError.digest_mismatch = ErrorCode.network
storage_code InboxError.no_space = ErrorCode.storage
storage_code InboxError.no_free_name = ErrorCode.storage
storage_code InboxError.io = ErrorCode.storage
storage_code (InboxError.not_a_directory path) = ErrorCode.storage

-- Bytes that a file still expects.
unfoldable pub remaining : Incoming → ℕ
remaining f = f.declared - f.written

module _ {X : Type 0} where
  -- The limiters of a new context.
  abbrev pub new_ctx : Transfers X → Bool → Ctx X
  new_ctx transfers allow_loopback = record {
    transfers = transfers;
    offer_limiter = new_limiter offer_burst offer_window;
    global_offer_limiter = new_limiter global_offer_burst global_offer_window;
    discovery_limiter = new_limiter discovery_burst discovery_window;
    allow_loopback = allow_loopback;
  }

  unfoldable pub allow_offer : Ctx X → IpAddr → ℕ → Ctx X × Bool
  allow_offer c ip now =
      if permits c.allow_loopback ip
      then (let r = allow same_ip c.offer_limiter ip now in (record c { offer_limiter = r.0 }, r.1))
      else (c, false)

  unfoldable pub allow_discovery : Ctx X → IpAddr → ℕ → Ctx X × Bool
  allow_discovery c ip now =
      if permits c.allow_loopback ip
      then (let r = allow same_ip c.discovery_limiter ip now in
          (record c { discovery_limiter = r.0 }, r.1))
      else (c, false)

  -- The limit on the offers nobody asked for.
  abbrev pub limited : Ctx X → Offer → RateLimiter IpAddr × Bool → Ctx X × Result Declined Offer
  limited c offer (l, is_allowed) =
      (record c { global_offer_limiter = l }, if is_allowed then ok offer else err Declined.busy)

  abbrev pub decide_valid :
      Ctx X → Asked → ℕ → Result OfferError Offer → Ctx X × Result Declined Offer
  decide_valid c asked now (err e) = (c, err (Declined.invalid e))
  decide_valid c asked now (ok offer) =
      if leb max_active_transfers (length c.transfers.active)
      then (c, err Declined.busy)
      else if is_no asked
      then limited c offer (allow same_ip c.global_offer_limiter everyone now)
      else (c, ok offer)

  unfoldable pub decide_before : Ctx X → RawOffer → Asked → ℕ → Ctx X × Result Declined Offer
  decide_before c raw asked now = decide_valid c asked now (validate raw)

  abbrev pub registered :
      Ctx X → Offer → ℕ → Transfers X × Option TransferHandle → Ctx X × Result Declined Accepted
  registered c offer id (s, none) = (record c { transfers = s }, err Declined.busy)
  registered c offer id (s, some h) =
      (record c { transfers = s }, ok (record { offer_id = id; offer = offer; transfer = h }))

  abbrev pub decide_spacious :
      Ctx X → Offer → ℕ → Result InboxError Done → Ctx X × Result Declined Accepted
  decide_spacious c offer id (err e) = (c, err Declined.no_space)
  decide_spacious c offer id (ok u) =
      registered c offer id
        (begin c.transfers Direction.incoming offer.protocol offer.sender offer.files)

  -- `space` is the free space that the file system reports.
  unfoldable pub decide_after :
      Ctx X → Offer → Result Refusal ℕ → Option ℕ → Ctx X × Result Declined Accepted
  decide_after c offer (err why) space = (c, err (Declined.refused why))
  decide_after c offer (ok id) space =
      decide_spacious c offer id (check_space space offer.total_bytes)

  -- `ReceivingFile`: the inbox's file with its transfer. `message` prints an error of the inbox.
  abbrev pub written :
      (InboxError → Str)
      → Transfers X
      → TransferHandle
      → List ℕ
      → ℕ
      → Incoming × Result InboxError Done
      → Transfers X × TransferHandle × Incoming × Result ErrorInfo Done
  written message s h chunk now (f, err e) =
      (s, h, f, err (record { code = storage_code e; message = message e }))
  written message s h chunk now (f, ok u) =
      let r = add_progress s h (length chunk) now in (r.0, r.1, f, ok u)

  unfoldable pub write_file :
      (InboxError → Str)
      → Transfers X
      → TransferHandle
      → Incoming
      → List ℕ
      → WriteAll
      → ℕ
      → Transfers X × TransferHandle × Incoming × Result ErrorInfo Done
  write_file message s h f chunk w now =
      if is_cancelled s h
      then (s, h, f, err cancelled)
      else written message s h chunk now (write f chunk w)
