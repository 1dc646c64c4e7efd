-- ===== src/Leads/Tests.antt =====
-- The theorems about the leads of peers.rs at concrete leads.
use sukkula.Base.{◌≡◌, refl, true, false, none, some, List, [], ◌∷◌, codes, length}
use sukkula.Base.Assoc.{lookup}
use sukkula.Addr.{SocketAddr}
use sukkula.Reach.{v4}
use sukkula.Leads.{Lead, Leads, Key, Call, add, missed, due, calls, same_key, new_lead}
use sukkula.Leads.Bounded.{IsLeads, calls-IsLeads}
use sukkula.Leads.Gone.{misses, misses-lookup}

abbrev here : SocketAddr
here = record {
  ip = v4 (record { a = 192; b = 168; c = 1; d = 9 });
  port = 53317;
  flowinfo = 0;
  scope_id = 0;
}

-- Five announcements from one address: the fifth takes the place of the first.
abbrev flood : List Call
flood =
    Call.adding here (codes "A") false 1
    ∷ Call.adding here (codes "B") false 2
    ∷ Call.adding here (codes "C") true 3
    ∷ Call.adding here (codes "D") false 4
    ∷ Call.adding here (codes "E") false 5
    ∷ []

flood_count : length (calls [] flood) ≡ 4
unfolding calls sukkula.Leads.call add sukkula.Room.make_room
flood_count = refl

flood_first_gone : lookup same_key (here, codes "A") (calls [] flood) ≡ none
unfolding calls sukkula.Leads.call add sukkula.Room.make_room
flood_first_gone = refl

flood_proven_kept : lookup same_key (here, codes "C") (calls [] flood) ≡ some (new_lead true 3)
unfolding calls sukkula.Leads.call add sukkula.Room.make_room
flood_proven_kept = refl

missed_twice :
    lookup same_key (here, codes "B") (misses 2 (calls [] flood) here (codes "B"))
    ≡ some (record { is_proven = false; tries = 2; since = 2 })
unfolding calls sukkula.Leads.call add sukkula.Room.make_room misses missed
missed_twice = refl

calls-IsLeads_example : IsLeads (calls [] flood)
calls-IsLeads_example = calls-IsLeads flood

misses-lookup_example :
    lookup same_key (here, codes "B") (misses 3 (calls [] flood) here (codes "B")) ≡ none
misses-lookup_example = misses-lookup flood here (codes "B")
