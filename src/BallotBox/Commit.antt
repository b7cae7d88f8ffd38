-- ===== src/BallotBox/Commit.antt =====
-- `commit_at` commits what a quorum has acknowledged: soundly, and as far as it can.
use quorumkit.Prelude.{
  ℕ, ◌+◌, ◌-◌, ◌≤◌, ◌<◌, max, ◌≡◌, ◌≢◌, sym, subst, ap, ◌∙◌, inl, inr, true, List, map, some,
  length, length-map, get_elem?, drop, map-drop, arith,
}
use quorumkit.Peer.{PeerOrder}
use quorumkit.Ballot.{Ballot, no_hint}
use quorumkit.BallotBox.{BallotBox, grant_range, finish_commit, commit_at}
use quorumkit.BallotBox.Entry.{Entry, ballot, vote, has_quorum, AllProper, vote_range}
use quorumkit.BallotBox.Range.{
  Answer, grant_range-ballots, grant_range-Answer, grant_range-greatest,
}

module _ {P : Type 0} ⦃o : PeerOrder P⦄ where
  -- The index of an answer, read off the queue.
  Answer-index :
      (peer : P) (pending first last c : ℕ) (es : List (Entry P))
      → pending ≤ last
      → c ≢ 0
      → Answer peer
          (max pending first - pending)
          (last + 1 - max pending first)
          (max pending first)
          0
          es
          c
      → (pending ≤ c)
        × (first ≤ c)
        × (c ≤ last)
        × ((e : Entry P) × (get_elem? es (c - pending) ≡ some e)
            × (has_quorum (vote peer e) ≡ true))
  Answer-index peer pending first last c es lo pos (inl z) = absurd (pos z)
  Answer-index peer pending first last c es lo pos (inr (j, e, a, b, at, got, k)) =
      let here : c - pending ≡ j = omega arith in
      (omega arith, omega arith, omega arith, (e, rw here got, k))

module _ {P C : Type 0} ⦃o : PeerOrder P⦄ where
  abbrev pub Represents : BallotBox P C → List (Entry P) → Type 0
  Represents box es = (box.pending_meta_queue ≡ map ballot es) × AllProper es

  abbrev run_range : BallotBox P C → ℕ → ℕ → P → List (Ballot P) × ℕ
  run_range box first last peer =
      grant_range peer (max box.pending_index first - box.pending_index)
        (last + 1 - max box.pending_index first) (max box.pending_index first) no_hint 0
        box.pending_meta_queue

  abbrev pub acknowledged : BallotBox P C → ℕ → ℕ → P → List (Entry P) → List (Entry P)
  acknowledged box first last peer es =
      vote_range peer (max box.pending_index first - box.pending_index)
        (last + 1 - max box.pending_index first) es

  commit_at_in_range :
      (box : BallotBox P C) (first last : ℕ) (peer : P)
      → box.pending_index ≢ 0
      → box.pending_index ≤ last
      → last < box.pending_index + length box.pending_meta_queue
      → commit_at box first last peer ≡ finish_commit box (run_range box first last peer)
  unfolding commit_at
  commit_at_in_range box first last peer h k l = ground arith

  -- A commit comes from the loop only.
  commit_at-some :
      (box : BallotBox P C) (first last c : ℕ) (peer : P)
      → (commit_at box first last peer).on_committed ≡ some c
      → (box.pending_index ≢ 0)
        × (box.pending_index ≤ last)
        × (last < box.pending_index + length box.pending_meta_queue)
        × ((run_range box first last peer).1 ≡ c)
        × (c ≢ 0)
  unfolding commit_at finish_commit
  commit_at-some box first last c peer h = ground arith

  finish_some :
      (box : BallotBox P C) (r : List (Ballot P) × ℕ)
      → r.1 ≢ 0
      → ((finish_commit box r).on_committed ≡ some r.1)
        × ((finish_commit box r).box.last_committed_index ≡ r.1)
        × ((finish_commit box r).box.pending_index ≡ r.1 + 1)
        × ((finish_commit box r).box.pending_meta_queue ≡ drop (r.1 + 1 - box.pending_index) r.0)
  unfolding finish_commit
  finish_some box r h = ground arith

  run_ballots :
      (box : BallotBox P C) (es : List (Entry P)) (first last : ℕ) (peer : P)
      → Represents box es
      → (run_range box first last peer).0 ≡ map ballot (acknowledged box first last peer es)
  run_ballots box es first last peer (q, p) = rw q (grant_range-ballots peer _ _ _ no_hint 0 es p)

  run-Answer :
      (box : BallotBox P C) (es : List (Entry P)) (first last : ℕ) (peer : P)
      → Represents box es
      → Answer peer
          (max box.pending_index first - box.pending_index)
          (last + 1 - max box.pending_index first)
          (max box.pending_index first)
          0
          es
          (run_range box first last peer).1
  run-Answer box es first last peer (q, p) = rw q (grant_range-Answer peer _ _ _ no_hint 0 es p)

  -- In a box whose ballots stand for the entries `es`, each over configurations without equal
  -- peers, an index that `commit_at` commits lies in the acknowledged range and in the queue; a
  -- majority of the configuration of its entry (of both, in joint consensus) has acknowledged it,
  -- this peer included; and the box is left with exactly the entries after it, every one of the
  -- range with this peer's vote.
  pub commit_at_sound :
      (box : BallotBox P C) (es : List (Entry P)) (first last c : ℕ) (peer : P)
      → Represents box es
      → (commit_at box first last peer).on_committed ≡ some c
      → (box.pending_index ≤ c)
        × (first ≤ c)
        × (c ≤ last)
        × ((e : Entry P) × (get_elem? es (c - box.pending_index) ≡ some e)
            × (has_quorum (vote peer e) ≡ true))
        × ((commit_at box first last peer).box.last_committed_index ≡ c)
        × ((commit_at box first last peer).box.pending_index ≡ c + 1)
        × ((commit_at box first last peer).box.pending_meta_queue
            ≡ map ballot (drop (c + 1 - box.pending_index) (acknowledged box first last peer es)))
  commit_at_sound box es first last c peer rep h =
      let (some_pending, lo, hi, at, pos) = commit_at-some box first last c peer h in
      let run : (run_range box first last peer).1 ≢ 0 = λ z. pos (sym at ∙ z) in
      let fin = finish_some box (run_range box first last peer) run in
      let value = commit_at_in_range box first last peer some_pending lo hi in
      let found =
        Answer-index peer box.pending_index first last c es lo pos
          (subst (Answer peer _ _ _ 0 es) at (run-Answer box es first last peer rep)) in
      (
        found.0,
        found.1,
        found.2,
        found.3,
        ap (λ r. r.box.last_committed_index) value ∙ fin.1 ∙ at,
        ap (λ r. r.box.pending_index) value ∙ fin.2 ∙ ap (λ n. n + 1) at,
        ap (λ r. r.box.pending_meta_queue) value
            ∙ fin.3
            ∙ ap (λ n. drop (n + 1 - box.pending_index) (run_range box first last peer).0) at
            ∙ ap (drop (c + 1 - box.pending_index)) (run_ballots box es first last peer rep)
            ∙ map-drop ballot (c + 1 - box.pending_index) (acknowledged box first last peer es),
      )

  -- In such a box that is pending, if the acknowledged range ends in the queue and an index of
  -- both has its quorum with this peer's vote, then `commit_at` commits that index or a later
  -- one.
  pub commit_at_complete :
      (box : BallotBox P C) (es : List (Entry P)) (first last j : ℕ) (peer : P) (f : Entry P)
      → Represents box es
      → box.pending_index ≢ 0
      → last < box.pending_index + length es
      → max box.pending_index first ≤ j
      → j ≤ last
      → get_elem? es (j - box.pending_index) ≡ some f
      → has_quorum (vote peer f) ≡ true
      → (c : ℕ) × (j ≤ c) × ((commit_at box first last peer).on_committed ≡ some c)
  commit_at_complete box es first last j peer f (q, p) h l lo hi got k = (
    (run_range box first last peer).1,
    reached,
    ap (λ r. r.on_committed) (commit_at_in_range box first last peer h (omega arith) fits)
        ∙ (finish_some box (run_range box first last peer) (omega (arith, reached))).0,
  )
    where
      fits : last < box.pending_index + length box.pending_meta_queue
      fits = omega (arith, ap length q, length-map es ballot)

      start : ℕ
      start = max box.pending_index first

      greatest :
          start + (j - box.pending_index)
          ≤ (grant_range peer
              (start - box.pending_index)
              (last + 1 - start)
              start
              no_hint
              0
              (map ballot es)).1
            + (start - box.pending_index)
      greatest =
          grant_range-greatest peer _ _ start no_hint 0 es (j - box.pending_index) f p (omega arith)
            (omega arith) (omega arith) got k

      reached : j ≤ (run_range box first last peer).1
      reached = rw q (omega (arith, greatest))
