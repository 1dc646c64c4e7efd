-- ===== src/Discovery/Ui.antt =====
-- The list of peers that a UI keeps from the events: a peer that is found goes under its id, a peer
-- that is lost goes.
use mathlib.Core.Path.{subst}
use sukkula.Base.{
  ◌≡◌, refl, sym, ◌∙◌, ap, inl, inr, Bool, true, false, not, Option, none, some, List, [], ◌∷◌,
  ◌++◌, Str, if◌then◌else◌, map, any, filter, All, Bool-cases,
}
use sukkula.Base.Assoc.{
  lookup, insert, remove, IsMap, lookup-remove, lookup-remove_other, insert-IsMap, remove-IsMap,
}
use sukkula.Addr.{same_text, same_text-IsTest}
use sukkula.Peers.{Peer, Entry, Peers, peer_id}
use sukkula.Peers.Bounded.{IsKeyed}
use sukkula.Discovery.{Event, lost_events}

abbrev pub Ui : Type 0
Ui = List (Str × Peer)

abbrev pub hear : Ui → Event → Ui
hear ui (Event.peer_found peer) = insert same_text peer.id peer ui
hear ui (Event.peer_lost id) = remove same_text id ui

abbrev pub hear_all : Ui → List Event → Ui
hear_all ui [] = ui
hear_all ui (e ∷ es) = hear_all (hear ui e) es

pub hear_all-append :
    (ui : Ui) (es fs : List Event) → hear_all ui (es ++ fs) ≡ hear_all (hear_all ui es) fs
hear_all-append ui [] fs = refl
hear_all-append ui (e ∷ es) fs = hear_all-append (hear ui e) es fs

hear-IsMap : (ui : Ui) (e : Event) → IsMap same_text ui → IsMap same_text (hear ui e)
hear-IsMap ui (Event.peer_found peer) v = insert-IsMap same_text same_text-IsTest peer.id peer ui v
hear-IsMap ui (Event.peer_lost id) v = remove-IsMap same_text id ui v

pub hear_all-IsMap :
    (ui : Ui) (es : List Event) → IsMap same_text ui → IsMap same_text (hear_all ui es)
hear_all-IsMap ui [] v = v
hear_all-IsMap ui (e ∷ es) v = hear_all-IsMap (hear ui e) es (hear-IsMap ui e v)

if-none : (b : Bool) (o : Option Peer) → o ≡ none → (if b then none else o) ≡ none
if-none true o h = refl
if-none false o h = h

-- Which ids a UI still has after some were lost.
pub lookup-lost_events :
    (ids : List Str) (ui : Ui) (id : Str)
    → IsMap same_text ui
    → lookup same_text id (hear_all ui (lost_events ids))
      ≡ (if any (λ i. same_text i id) ids then none else lookup same_text id ui)
lookup-lost_events [] ui id v = refl
lookup-lost_events (i ∷ ids) ui id v =
    lookup-lost_events ids (remove same_text i ui) id (remove-IsMap same_text i ui v)
    ∙ elim (Bool-cases (same_text i id)) [
      | inl e ↦
          let z : lookup same_text id (remove same_text i ui) ≡ none =
            subst (λ x. lookup same_text x (remove same_text i ui) ≡ none)
              (same_text-IsTest.sound i id e) (lookup-remove same_text same_text-IsTest i ui v) in
          rw e (
            if-none (any (λ j. same_text j id) ids) (lookup same_text id (remove same_text i ui)) z)
      | inr e ↦ rw e (
          ap (λ o. if any (λ j. same_text j id) ids then none else o)
            (lookup-remove_other same_text same_text-IsTest i id ui e))
    ]

pub same_text-peer_id : (k j : Str) → same_text (peer_id k) (peer_id j) ≡ same_text k j
unfolding peer_id
same_text-peer_id k j = refl

-- The ids of the entries that fail a test.
abbrev pub gone_ids : (Str × Entry → Bool) → Peers → List Str
gone_ids q m = map (λ p. p.1.peer.id) (filter (λ p. not (q p)) m)

abbrev pub fails : (Str × Entry → Bool) → Str → Option Entry → Bool
fails q k none = false
fails q k (some e) = not (q (k, e))

abbrev pub passing : (Str × Entry → Bool) → Str → Option Entry → Option Entry
passing q k none = none
passing q k (some e) = if q (k, e) then some e else none

keyed_id :
    (j k : Str) (e : Entry) → IsKeyed (j, e) → same_text e.peer.id (peer_id k) ≡ same_text j k
unfolding IsKeyed
keyed_id j k e h = ap (λ x. same_text x (peer_id k)) h.1 ∙ same_text-peer_id j k

pub any-gone_ids :
    (q : Str × Entry → Bool) (k : Str) (m : Peers)
    → IsMap same_text m
    → All IsKeyed m
    → any (λ i. same_text i (peer_id k)) (gone_ids q m) ≡ fails q k (lookup same_text k m)
any-gone_ids q k [] d a = refl
any-gone_ids q k ((j, e) ∷ m) d a =
    let ih = any-gone_ids q k m d.1 a.1 in
    elim (Bool-cases (same_text j k)) [
      | inl f ↦
          let g = same_text-IsTest.sound j k f in
          let z : lookup same_text k m ≡ none = subst (λ x. lookup same_text x m ≡ none) g d.0 in
          elim (Bool-cases (q (j, e))) [
            | inl t ↦
                let u : q (k, e) ≡ true = subst (λ x. q (x, e) ≡ true) g t in
                rw (f, t) (ih ∙ ap (fails q k) z ∙ sym (ap not u))
            | inr t ↦
                let u : q (k, e) ≡ false = subst (λ x. q (x, e) ≡ false) g t in
                rw (f, t, keyed_id j k e a.0 ∙ f) (sym (ap not u))
          ]
      | inr f ↦ elim (Bool-cases (q (j, e))) [
        | inl t ↦ rw (t, f) ih
        | inr t ↦ rw (f, t, keyed_id j k e a.0 ∙ f) ih
      ]
    ]

pub lookup-filter :
    (q : Str × Entry → Bool) (k : Str) (m : Peers)
    → IsMap same_text m
    → lookup same_text k (filter q m) ≡ passing q k (lookup same_text k m)
lookup-filter q k [] d = refl
lookup-filter q k ((j, e) ∷ m) d = elim (Bool-cases (same_text j k)) [
  | inl f ↦
      let g = same_text-IsTest.sound j k f in
      let z : lookup same_text k m ≡ none = subst (λ x. lookup same_text x m ≡ none) g d.0 in
      elim (Bool-cases (q (j, e))) [
        | inl t ↦
            let u : q (k, e) ≡ true = subst (λ x. q (x, e) ≡ true) g t in
            rw (t, f) (sym (ap (λ b. if b then some e else none) u))
        | inr t ↦
            let u : q (k, e) ≡ false = subst (λ x. q (x, e) ≡ false) g t in
            rw (t, f)
              (lookup-filter q k m d.1
                ∙ ap (passing q k) z
                ∙ sym (ap (λ b. if b then some e else none) u))
      ]
  | inr f ↦ elim (Bool-cases (q (j, e))) [
    | inl t ↦ rw (t, f) (lookup-filter q k m d.1)
    | inr t ↦ rw (t, f) (lookup-filter q k m d.1)
  ]
]
