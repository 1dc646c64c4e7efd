-- ===== src/Discovery/Shown.antt =====
-- A UI that follows the events of mod.rs has the peers of the table, as they are in the table.
use mathlib.Core.Path.{subst}
use sukkula.Base.{
  ℕ, ◌≡◌, refl, sym, ◌∙◌, ap, inl, inr, true, Option, none, some, Str, arith, if◌then◌else◌,
  Bool-cases, ◌==◌,
}
use sukkula.Base.Assoc.{
  lookup, insert, remove, IsMap, lookup-insert, lookup-insert_other, lookup-remove,
  lookup-remove_other, insert-IsMap, remove-IsMap,
}
use sukkula.Addr.{same_text, same_text-IsTest}
use sukkula.Offer.{Protocol}
use sukkula.Peers.{
  DeviceType, Peer, Entry, Peers, peer_id, same_peer, same_option, protocol_number, device_number,
}
use sukkula.Discovery.Ui.{Ui, same_text-peer_id}

same_option_sound : (a b : Option Str) → same_option a b ≡ true → a ≡ b
same_option_sound none none h = refl
same_option_sound none (some y) h = ground (arith, h)
same_option_sound (some x) none h = ground (arith, h)
same_option_sound (some x) (some y) h = ap some (same_text-IsTest.sound x y h)

protocol_at : ℕ → Protocol
protocol_at n =
    if n == 0
    then Protocol.local_send
    else if n == 1
    then Protocol.quick_share
    else if n == 2
    then Protocol.wormhole
    else if n == 3
    then Protocol.bluetooth
    else Protocol.croc

protocol_at-number : (p : Protocol) → protocol_at (protocol_number p) ≡ p
unfolding protocol_at
protocol_at-number Protocol.local_send = refl
protocol_at-number Protocol.quick_share = refl
protocol_at-number Protocol.wormhole = refl
protocol_at-number Protocol.bluetooth = refl
protocol_at-number Protocol.croc = refl

device_at : ℕ → DeviceType
device_at n =
    if n == 0
    then DeviceType.phone
    else if n == 1
    then DeviceType.tablet
    else if n == 2
    then DeviceType.computer
    else DeviceType.unknown

device_at-number : (d : DeviceType) → device_at (device_number d) ≡ d
unfolding device_at
device_at-number DeviceType.phone = refl
device_at-number DeviceType.tablet = refl
device_at-number DeviceType.computer = refl
device_at-number DeviceType.unknown = refl

pub same_peer_sound : (p q : Peer) → same_peer p q ≡ true → p ≡ q
unfolding same_peer
same_peer_sound p q h =
    let id_eq = same_text-IsTest.sound p.id q.id (ground (arith, h)) in
    let name_eq = same_text-IsTest.sound p.name q.name (ground (arith, h)) in
    let model_eq = same_option_sound p.model q.model (ground (arith, h)) in
    let address_eq = same_option_sound p.address q.address (ground (arith, h)) in
    let fingerprint_eq = same_option_sound p.fingerprint q.fingerprint (ground (arith, h)) in
    let a : protocol_number p.protocol ≡ protocol_number q.protocol = ground (arith, h) in
    let b : device_number p.device_type ≡ device_number q.device_type = ground (arith, h) in
    let protocol_eq =
      sym (protocol_at-number p.protocol) ∙ ap protocol_at a ∙ protocol_at-number q.protocol in
    let device_eq =
      sym (device_at-number p.device_type) ∙ ap device_at b ∙ device_at-number q.device_type in
    λ i. record {
      id = id_eq i;
      protocol = protocol_eq i;
      name = name_eq i;
      model = model_eq i;
      device_type = device_eq i;
      address = address_eq i;
      fingerprint = fingerprint_eq i;
    }

abbrev pub peer_at : Option Entry → Option Peer
peer_at none = none
peer_at (some e) = some e.peer

-- A UI lists the peers of a table.
pub record IsShown (ui : Ui) (m : Peers) : Type 0 where
  pub distinct : IsMap same_text ui
  pub shows : (k : Str) → lookup same_text (peer_id k) ui ≡ peer_at (lookup same_text k m)

-- The table and the UI change together.
pub insert-IsShown :
    (ui : Ui) (m : Peers) (k : Str) (e : Entry)
    → e.peer.id ≡ peer_id k
    → IsShown ui m
    → IsShown (insert same_text e.peer.id e.peer ui) (insert same_text k e m)
insert-IsShown ui m k e h v = record {
  distinct = insert-IsMap same_text same_text-IsTest e.peer.id e.peer ui v.distinct;
  shows = λ j.
      let p = same_text-IsTest in
      subst
        (λ x.
          lookup same_text (peer_id j) (insert same_text x e.peer ui)
          ≡ peer_at (lookup same_text j (insert same_text k e m)))
        (sym h)
        (elim (Bool-cases (same_text k j)) [
          | inl f ↦
              subst
                (λ x.
                  lookup same_text (peer_id x) (insert same_text (peer_id k) e.peer ui)
                  ≡ peer_at (lookup same_text x (insert same_text k e m)))
                (p.sound k j f)
                (lookup-insert same_text p (peer_id k) e.peer ui
                  ∙ sym (ap peer_at (lookup-insert same_text p k e m)))
          | inr f ↦
              lookup-insert_other same_text p (peer_id k) (peer_id j) e.peer ui
                (same_text-peer_id k j ∙ f)
              ∙ v.shows j
              ∙ sym (ap peer_at (lookup-insert_other same_text p k j e m f))
        ]);
}

-- An entry is refreshed without a change that the UI would show.
pub keep-IsShown :
    (ui : Ui) (m : Peers) (k : Str) (old e : Entry)
    → lookup same_text k m ≡ some old
    → old.peer ≡ e.peer
    → IsShown ui m
    → IsShown ui (insert same_text k e m)
keep-IsShown ui m k old e h q v = record {
  distinct = v.distinct;
  shows = λ j.
      let p = same_text-IsTest in
      v.shows j ∙ elim (Bool-cases (same_text k j)) [
        | inl f ↦
            subst
              (λ x.
                peer_at (lookup same_text x m)
                ≡ peer_at (lookup same_text x (insert same_text k e m)))
              (p.sound k j f)
              (ap peer_at h ∙ ap some q ∙ sym (ap peer_at (lookup-insert same_text p k e m)))
        | inr f ↦ sym (ap peer_at (lookup-insert_other same_text p k j e m f))
      ];
}

pub remove-IsShown :
    (ui : Ui) (m : Peers) (k : Str)
    → IsMap same_text m
    → IsShown ui m
    → IsShown (remove same_text (peer_id k) ui) (remove same_text k m)
remove-IsShown ui m k d v = record {
  distinct = remove-IsMap same_text (peer_id k) ui v.distinct;
  shows = λ j.
      let p = same_text-IsTest in
      elim (Bool-cases (same_text k j)) [
        | inl f ↦
            subst
              (λ x.
                lookup same_text (peer_id x) (remove same_text (peer_id k) ui)
                ≡ peer_at (lookup same_text x (remove same_text k m)))
              (p.sound k j f)
              (lookup-remove same_text p (peer_id k) ui v.distinct
                ∙ sym (ap peer_at (lookup-remove same_text p k m d)))
        | inr f ↦
            lookup-remove_other same_text p (peer_id k) (peer_id j) ui (same_text-peer_id k j ∙ f)
            ∙ v.shows j
            ∙ sym (ap peer_at (lookup-remove_other same_text p k j m f))
      ];
}
