-- ===== src/Ballot.antt =====
-- src/braft/ballot.h and ballot.cpp: the votes of one log entry or one election, under one
-- configuration or, in joint consensus, under two. An iterator into a vector is its position, and
-- `end()` is `none`. `int` is ℤ: the counters go below zero.
pub mod Tally
pub mod Majority
pub mod Change
use quorumkit.Prelude.{
  ℕ, suc, zero, ◌+◌, ◌/◌, Bool, true, false, ◌&&◌, List, [], ◌∷◌, map, Option, none, some,
  if◌then◌else◌, length, get_elem?, ℤ, pos, negsuc, dec_ℤ, is_nonpos,
}
use quorumkit.Peer.{PeerOrder}

pub record UnfoundPeerId (P : Type 0) : Type 0 where
  pub peer_id : P
  pub found : Bool

pub record PosHint : Type 0 where
  pub pos0 : ℤ
  pub pos1 : ℤ

pub record Ballot (P : Type 0) : Type 0 where
  pub peers : List (UnfoundPeerId P)
  pub quorum : ℤ
  pub old_peers : List (UnfoundPeerId P)
  pub old_quorum : ℤ

abbrev pub no_hint : PosHint
no_hint = record { pos0 = negsuc 0; pos1 = negsuc 0 }

abbrev pub empty_ballot : {P : Type 0} → Ballot P
empty_ballot = record { peers = []; quorum = pos 0; old_peers = []; old_quorum = pos 0 }

-- `++iter` on a position.
abbrev pub bump : Option ℕ → Option ℕ
bump none = none
bump (some i) = some (suc i)

module _ {P : Type 0} where
  abbrev pub unfound : P → UnfoundPeerId P
  unfound p = record { peer_id = p; found = false }

  unfoldable pub init : List P → Option (List P) → Ballot P
  init conf none = record {
    peers = map unfound conf;
    quorum = pos (length conf / 2 + 1);
    old_peers = [];
    old_quorum = pos 0;
  }
  init conf (some old_conf) = record {
    peers = map unfound conf;
    quorum = pos (length conf / 2 + 1);
    old_peers = map unfound old_conf;
    old_quorum = pos (length old_conf / 2 + 1);
  }

  unfoldable pub granted : Ballot P → Bool
  granted b = is_nonpos b.quorum && is_nonpos b.old_quorum

  -- `iter->found`; an iterator in range is meant.
  unfoldable pub found_at : List (UnfoundPeerId P) → ℕ → Bool
  found_at [] i = false
  found_at (u ∷ us) zero = u.found
  found_at (u ∷ us) (suc i) = found_at us i

  -- `iter->found = true`
  unfoldable pub set_found : List (UnfoundPeerId P) → ℕ → List (UnfoundPeerId P)
  set_found [] i = []
  set_found (u ∷ us) zero = record u { found = true } ∷ us
  set_found (u ∷ us) (suc i) = u ∷ set_found us i

  -- What `grant` does with one of the two lists, its counter and its position.
  grant_at : List (UnfoundPeerId P) → ℤ → Option ℕ → List (UnfoundPeerId P) × ℤ × ℤ
  grant_at us quorum none = (us, quorum, negsuc 0)
  grant_at us quorum (some i) =
      if found_at us i then (us, quorum, pos i) else (set_found us i, dec_ℤ quorum, pos i)

  abbrev pub is_none : List (UnfoundPeerId P) → Bool
  is_none [] = true
  is_none (u ∷ us) = false

module _ {P : Type 0} ⦃o : PeerOrder P⦄ where
  -- The loop of `find_peer`.
  unfoldable pub scan : P → List (UnfoundPeerId P) → Option ℕ
  scan peer [] = none
  scan peer (u ∷ us) = if o.peer_eq u.peer_id peer then some zero else bump (scan peer us)

  -- The test of `peers[pos_hint]`, `none` for a position out of range.
  hinted : P → Option (UnfoundPeerId P) → Bool
  hinted peer none = false
  hinted peer (some u) = o.peer_eq u.peer_id peer

  unfoldable pub find_peer : P → List (UnfoundPeerId P) → ℤ → Option ℕ
  unfolding scan hinted
  find_peer peer peers (negsuc n) = scan peer peers
  find_peer peer peers (pos i) = if hinted peer (get_elem? peers i) then some i else scan peer peers

  unfoldable pub grant_group : P → ℤ → List (UnfoundPeerId P) → ℤ → List (UnfoundPeerId P) × ℤ × ℤ
  unfolding grant_at
  grant_group peer hint us quorum = grant_at us quorum (find_peer peer us hint)

  unfoldable pub grant_hint : Ballot P → P → PosHint → Ballot P × PosHint
  grant_hint b peer hint =
      let (us, q, pos0) = grant_group peer hint.pos0 b.peers b.quorum in
      let c = record b { peers = us; quorum = q } in
      let (vs, r, pos1) = grant_group peer hint.pos1 b.old_peers b.old_quorum in
      if is_none b.old_peers
      then (c, record { pos0 = pos0; pos1 = negsuc 0 })
      else (record c { old_peers = vs; old_quorum = r }, record { pos0 = pos0; pos1 = pos1 })

  unfoldable pub grant : Ballot P → P → Ballot P
  unfolding grant_hint
  grant b peer = (grant_hint b peer no_hint).0
