-- ===== src/BallotBox/Entry.antt =====
-- What a ballot of the queue stands for: the configurations of its log entry and the peers that have
-- acknowledged it.
use quorumkit.Prelude.{ℕ, zero, suc, ◌≡◌, Bool, ◌&&◌, List, [], ◌∷◌, Option}
use quorumkit.Peer.{PeerOrder}
use quorumkit.Configuration.Set.{IsDistinct}
use quorumkit.Ballot.{Ballot, PosHint, granted, grant_hint}
use quorumkit.Ballot.Majority.{
  ballot_of, Old, is_majority, is_old_majority, grant_hint-ballot_of, granted-ballot_of,
}

pub record Entry (P : Type 0) : Type 0 where
  pub conf : List P
  pub old_conf : Option (List P)
  pub voters : List P

module _ {P : Type 0} ⦃o : PeerOrder P⦄ where
  abbrev pub ballot : Entry P → Ballot P
  ballot e = ballot_of e.conf e.old_conf e.voters

  abbrev pub vote : P → Entry P → Entry P
  vote peer e = record e { voters = peer ∷ e.voters }

  -- A majority of each configuration has acknowledged the entry.
  abbrev pub has_quorum : Entry P → Bool
  has_quorum e = is_majority e.voters e.conf && is_old_majority e.voters e.old_conf

  abbrev pub IsProper : Entry P → Type 0
  IsProper e = IsDistinct e.conf × Old e.old_conf

  abbrev pub AllProper : List (Entry P) → Type 0
  AllProper [] = Unit
  AllProper (e ∷ es) = IsProper e × AllProper es

  pub grant_hint-ballot :
      (e : Entry P) (peer : P) (hint : PosHint)
      → IsProper e
      → (grant_hint (ballot e) peer hint).0 ≡ ballot (vote peer e)
  grant_hint-ballot e peer hint p =
      grant_hint-ballot_of e.conf e.old_conf e.voters peer hint p.0 p.1

  pub granted-ballot : (e : Entry P) → granted (ballot e) ≡ has_quorum e
  granted-ballot e = granted-ballot_of e.conf e.old_conf e.voters

  -- The entries after a peer acknowledged `count` of them, behind the first `skip`.
  abbrev pub vote_range : P → ℕ → ℕ → List (Entry P) → List (Entry P)
  vote_range peer skip count [] = []
  vote_range peer (suc skip) count (e ∷ es) = e ∷ vote_range peer skip count es
  vote_range peer zero zero (e ∷ es) = e ∷ es
  vote_range peer zero (suc count) (e ∷ es) = vote peer e ∷ vote_range peer zero count es
