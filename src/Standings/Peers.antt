-- ===== src/Standings/Peers.antt =====
-- By wins: more wins stand higher, and peers of as many wins by their tie-break.
use plan_my_pickle_backend.Base.{◌≡◌, List, String, All}
use plan_my_pickle_backend.Standings.{Standing, HeadToHead}
use plan_my_pickle_backend.Standings.Adjacent.{Adjacent}
use plan_my_pickle_backend.Standings.Peer.{peer_wins}

module _ (h : HeadToHead) (table : List Standing) where
  -- For the ranks that are left, those who are left count for the whole table.
  abbrev IsRest : List Standing → List Standing → Type 0
  IsRest out rows =
      All (λ y. (a : String) → peer_wins h table y.wins a ≡ peer_wins h out y.wins a) rows
