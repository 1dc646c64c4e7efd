-- ===== src/Ctx/Accepts.antt =====
-- What an accepted offer is, by ctx.rs, offer.rs and inbox.rs together.
use mathlib.Core.Path.{subst}
use sukkula.Base.{
  ℕ, ◌+◌, ◌-◌, ◌≤◌, ◌<◌, ◌^◌, ◌≡◌, min, refl, ◌∙◌, ap, true, false, Option, none, some, List, [],
  ◌∷◌, ◌++◌, arith, leb, ltb, length, All, Bool-cases, inl, inr, map, if-split, not_ltb→le,
  not_leb→lt, take,
}
use sukkula.Base.Outcome.{Result, ok, err, ok-injective}
use sukkula.Addr.{same_ip}
use sukkula.Limits.{max_active_transfers, max_file_bytes, max_offer_bytes}
use sukkula.Offer.{RawFile, RawOffer, OfferFile, Offer, OfferError, validate}
use sukkula.Offer.Files.{AllChecked, sum_sizes}
use sukkula.Offer.Promises.{IsOffer, validate-IsOffer}
use sukkula.Inbox.{InboxError, Done, Opening, check_space, space_reserve, begin}
use sukkula.Inbox.Intact.{IsOpened, begin-IsOpened}
use sukkula.Consent.{Refusal}
use sukkula.Api.{Event, TransferView, Direction}
use sukkula.Gate.{sat_add}
use sukkula.Reach.{allow}
use sukkula.Transfers.{
  Transfers, begin as begin_transfer, emit, same_id, TransferHandle, total_of, view_of, begin_views,
  new_handle, next_id, max_listed_files,
}
use sukkula.Ctx.{
  Ctx, Asked, Accepted, everyone, decide_valid, decide_before, registered, decide_spacious,
  decide_after,
}
use sukkula.Base.Assoc.{insert}
use sukkula.Room.Table.{length-map}
use sukkula.Ctx.Flood.{is_ok}

-- A file is begun when its directories and its staging file open.
abbrev pub CanBegin : OfferFile → Type 0
CanBegin f = (o : Opening) → IsOpened o → is_ok (begin o f.name f.size f.sha256) ≡ true

begin-CanBegin : (f : OfferFile) → f.size ≤ max_file_bytes → CanBegin f
begin-CanBegin f h o v = ap is_ok (begin-IsOpened o f.name f.size f.sha256 v h)

all-CanBegin : (fs : List RawFile) (os : List OfferFile) → AllChecked fs os → All CanBegin os
all-CanBegin [] [] h = tt
all-CanBegin [] (o ∷ os) h = absurd h
all-CanBegin (f ∷ fs) [] h = absurd h
all-CanBegin (f ∷ fs) (o ∷ os) h = (begin-CanBegin o h.0.within, all-CanBegin fs os h.1)

-- The total of a checked offer does not saturate.
total_of_lem :
    (os : List OfferFile) (acc : ℕ)
    → acc + sum_sizes os < 2 ^ 64
    → total_of os acc ≡ acc + sum_sizes os
total_of_lem [] acc h = omega arith
total_of_lem (o ∷ os) acc h =
    let e : sat_add acc o.size ≡ acc + o.size = omega (arith, h) in
    ap (total_of os) e ∙ total_of_lem os (acc + o.size) (omega (arith, h)) ∙ omega arith

check_space-room :
    (space : Option ℕ) (total free : ℕ) (u : Done)
    → check_space space total ≡ ok u
    → space ≡ some free
    → total ≤ max_offer_bytes
    → total + space_reserve ≤ free
unfolding check_space
check_space-room none total free u h s b = ground (arith, s)
check_space-room (some x) total free u h s b =
    elim (Bool-cases (ltb x (min (total + space_reserve) (2 ^ 64 - 1)))) [
      | inl e ↦ ground (arith, h, e)
      | inr e ↦
          let y : x ≡ free = ground (arith, s) in
          let r = not_ltb→le x (min (total + space_reserve) (2 ^ 64 - 1)) e in
          omega (arith, r, y, b)
    ]

module _ {X : Type 0} where
  decide_valid-ok :
      (c : Ctx X) (asked : Asked) (now : ℕ) (o : Result OfferError Offer) (offer : Offer)
      → (decide_valid c asked now o).1 ≡ ok offer
      → o ≡ ok offer
  decide_valid-ok c asked now (err e) offer h = ground (arith, h)
  decide_valid-ok c asked now (ok x) offer h =
      let full = leb max_active_transfers (length c.transfers.active) in
      let r = allow same_ip c.global_offer_limiter everyone now in
      elim (Bool-cases full) [
        | inl e ↦ ground (arith, h, e)
        | inr e ↦
            elim asked as (λ a. (decide_valid c a now (ok x)).1 ≡ ok offer → ok x ≡ ok offer) [
              | Asked.yes ↦ λ g. ground (arith, g, e)
              | Asked.no ↦ λ g. elim (Bool-cases r.1) [
                | inl f ↦ ground (arith, g, e, f)
                | inr f ↦ ground (arith, g, e, f)
              ]
            ]
              h
      ]

  -- What an accepted offer is: it was checked, the user granted it, there is room for it and for the
  -- reserve where the file system reports its free space, fewer than 8 transfers ran, each of its files
  -- is begun when its directories and its staging file open, and the UI was told of a transfer with its
  -- sender, the number of its files and its total.
  pub record IsGoing (raw : RawOffer) (offer : Offer) (answer : Result Refusal ℕ) (space : Option ℕ)
      (s s' : Transfers X) (a : Accepted) : Type 0 where
    pub checked : IsOffer raw offer
    pub same_offer : a.offer ≡ offer
    pub granted : answer ≡ ok a.offer_id
    pub room : (free : ℕ) → space ≡ some free → offer.total_bytes + space_reserve ≤ free
    pub free_slot : length s.active < max_active_transfers
    pub can_begin : All CanBegin offer.files
    pub total_kept : a.transfer.total ≡ offer.total_bytes
    pub told :
        (v : TransferView) × (s'.events ≡ s.events ++ (Event.transfer_started v ∷ []))
        × (v.id ≡ a.transfer.id)
        × (v.peer ≡ offer.sender)
        × (v.file_count ≡ length offer.files)
        × (v.total_bytes ≡ offer.total_bytes)

  register-IsGoing :
      (raw : RawOffer) (offer : Offer) (id : ℕ) (space : Option ℕ) (u : Done) (c : Ctx X)
      (a : Accepted)
      → IsOffer raw offer
      → check_space space offer.total_bytes ≡ ok u
      → let r =
          registered c offer id (
            begin_transfer c.transfers Direction.incoming offer.protocol offer.sender
              offer.files) in
        r.1 ≡ ok a → IsGoing raw offer (ok id) space c.transfers r.0.transfers a
  unfolding begin_transfer begin_views
  register-IsGoing raw offer id space u c a o r h =
      let s = c.transfers in
      let total = total_of offer.files 0 in
      let e : total ≡ offer.total_bytes =
        total_of_lem offer.files 0 (omega (arith, o.within, o.total_kept))
        ∙ omega (arith, o.total_kept) in
      let k = next_id s.next in
      let v : TransferView = record {
        id = k;
        direction = Direction.incoming;
        protocol = offer.protocol;
        peer = offer.sender;
        files = take max_listed_files (map view_of offer.files);
        file_count = length (map view_of offer.files);
        total_bytes = total;
      } in
      let none_left : Transfers X × Option TransferHandle = (s, none) in
      let starts : Transfers X × Option TransferHandle = (
        emit (record s { next = k; active = insert same_id k false s.active })
            (Event.transfer_started v),
        some (new_handle k total),
      ) in
      let P : Transfers X × Option TransferHandle → Type 0 = λ x.
        (registered c offer id x).1 ≡ ok a
        → IsGoing raw offer (ok id) space s (registered c offer id x).0.transfers a in
      if-split P (leb max_active_transfers (length s.active)) none_left starts
        (λ f g. ground (arith, g))
        (λ f g.
          subst (λ x. IsGoing raw offer (ok id) space s starts.0 x) (ok-injective g)
            (record {
              checked = o;
              same_offer = refl;
              granted = refl;
              room = λ free q. check_space-room space offer.total_bytes free u r q o.within;
              free_slot = not_leb→lt max_active_transfers (length s.active) f;
              can_begin = all-CanBegin raw.files offer.files o.files_checked;
              total_kept = e;
              told = (v, refl, refl, refl, length-map view_of offer.files, e);
            }))
        h

  spacious-IsGoing :
      (raw : RawOffer) (offer : Offer) (id : ℕ) (space : Option ℕ) (c : Ctx X) (a : Accepted)
      (r : Result InboxError Done)
      → IsOffer raw offer
      → check_space space offer.total_bytes ≡ r
      → (decide_spacious c offer id r).1 ≡ ok a
      → IsGoing raw offer (ok id) space c.transfers (decide_spacious c offer id r).0.transfers a
  spacious-IsGoing raw offer id space c a (err e) o q h = ground (arith, h)
  spacious-IsGoing raw offer id space c a (ok u) o q h =
      register-IsGoing raw offer id space u c a o q h

  answered-IsGoing :
      (raw : RawOffer) (offer : Offer) (answer : Result Refusal ℕ) (space : Option ℕ) (c : Ctx X)
      (a : Accepted)
      → IsOffer raw offer
      → (decide_after c offer answer space).1 ≡ ok a
      → IsGoing raw offer answer space c.transfers (decide_after c offer answer space).0.transfers a
  unfolding decide_after
  answered-IsGoing raw offer (err why) space c a o h = ground (arith, h)
  answered-IsGoing raw offer (ok id) space c a o h =
      spacious-IsGoing raw offer id space c a (check_space space offer.total_bytes) o refl h

  -- If `decide` asks the consent broker about an offer and then accepts it, whatever became of the context in
  -- between: the offer was checked, the user granted it, there is room for it and for the reserve if
  -- the file system reports its free space, fewer than 8 transfers ran, each of its files is begun when
  -- its directories and its staging file open, and the UI was told of a transfer with its sender, the
  -- number of its files and its total.
  pub decide-IsGoing :
      (c c' : Ctx X) (raw : RawOffer) (asked : Asked) (now : ℕ) (offer : Offer)
      (answer : Result Refusal ℕ) (space : Option ℕ) (a : Accepted)
      → (decide_before c raw asked now).1 ≡ ok offer
      → (decide_after c' offer answer space).1 ≡ ok a
      → IsGoing raw offer answer space c'.transfers
          (decide_after c' offer answer space).0.transfers
          a
  unfolding decide_before
  decide-IsGoing c c' raw asked now offer answer space a h g =
      answered-IsGoing raw offer answer space c' a
        (validate-IsOffer raw offer (decide_valid-ok c asked now (validate raw) offer h)) g
