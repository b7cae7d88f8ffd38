-- ===== src/Tests/Votes.antt =====
-- Ballots and the ballot box.
use quorumkit.Prelude.{
  ℕ, ◌+◌, ◌-◌, length, ◌≡◌, ◌≤◌, ◌≢◌, refl, true, ◌&&◌, List, [], ◌∷◌, none, some, get_elem?, arith,
}
use quorumkit.Errno.{ok}
use quorumkit.Configuration.Set.{member}
use quorumkit.ClosureQueue
use quorumkit.Ballot.{
  PosHint, no_hint, init, granted, grant_hint, grant_group, find_peer, found_at, set_found, scan,
}
use quorumkit.Ballot.Majority.{
  grant_all, voters, is_majority, is_old_majority, granted_iff, quorum_intersection,
}
use quorumkit.Ballot.Tally.{voted}
use quorumkit.Ballot.Change.{one_change_intersection, joint_intersection}
use quorumkit.BallotBox.{
  BallotBox, new_box, commit_at, append_pending_task, reset_pending_index, finish_commit,
  grant_range,
}
use quorumkit.BallotBox.Entry.{Entry, ballot, has_quorum, vote}
use quorumkit.BallotBox.Commit.{commit_at_sound, commit_at_complete}
use quorumkit.BallotBox.Invariant.{IsValid, new_box-IsValid}
use quorumkit.BallotBox.Reachable.{
  Reach, here, next, resets, appends, commits, Reach-IsValid, pop_committed,
}
use quorumkit.Tests.{number_peer, three}

abbrev one_two : List (ℕ × PosHint)
one_two = (1, no_hint) ∷ (2, no_hint) ∷ (9, no_hint) ∷ []

abbrev two_three : List (ℕ × PosHint)
two_three = (3, no_hint) ∷ (2, no_hint) ∷ []

granted_iff_example :
    granted (grant_all (init three none) one_two)
    ≡ (is_majority (voters one_two) three && is_old_majority (voters one_two) none)
granted_iff_example = granted_iff three none one_two (ground arith) tt

quorum_intersection_example :
    (p : ℕ) × (member p three ≡ true)
    × (voted (voters one_two) p ≡ true)
    × (voted (voters two_three) p ≡ true)
quorum_intersection_example =
    quorum_intersection three none none one_two two_three (ground arith) tt tt
      (granted_iff three none one_two (ground arith) tt)
      (granted_iff three none two_three (ground arith) tt)

abbrev three_four : List (ℕ × PosHint)
three_four = (3, no_hint) ∷ (4, no_hint) ∷ (2, no_hint) ∷ []

-- Peer 4 is added.
one_change_intersection_example :
    (q : ℕ) × (voted (voters one_two) q ≡ true) × (voted (voters three_four) q ≡ true)
unfolding quorumkit.Configuration.add_peer quorumkit.Configuration.Set.insert
one_change_intersection_example =
    one_change_intersection true three 4 one_two three_four (ground arith)
      (granted_iff three none one_two (ground arith) tt)
      (granted_iff (1 ∷ 2 ∷ 3 ∷ 4 ∷ []) none three_four (ground arith) tt)

-- From the peers 1, 2 and 3 to the peers 3, 4 and 5.
abbrev four : List ℕ
four = 3 ∷ 4 ∷ 5 ∷ []

abbrev two_to_four : List (ℕ × PosHint)
two_to_four = (2, no_hint) ∷ three_four

joint_intersection_example :
    ((p : ℕ) × (member p three ≡ true)
      × (voted (voters two_to_four) p ≡ true)
      × (voted (voters one_two) p ≡ true))
    × ((p : ℕ) × (member p four ≡ true)
        × (voted (voters two_to_four) p ≡ true)
        × (voted (voters three_four) p ≡ true))
joint_intersection_example =
    joint_intersection four three two_to_four one_two three_four (ground arith) (ground arith)
      (granted_iff four (some three) two_to_four (ground arith) (ground arith))
      (granted_iff three none one_two (ground arith) tt)
      (granted_iff four none three_four (ground arith) tt)

-- Two entries that peer 1 has acknowledged.
abbrev entry_of_one : Entry ℕ
entry_of_one = record { conf = three; old_conf = none; voters = 1 ∷ [] }

abbrev joint_entry : Entry ℕ
joint_entry = record { conf = three; old_conf = some (1 ∷ 2 ∷ []); voters = 1 ∷ [] }

abbrev two_entries : List (Entry ℕ)
two_entries = entry_of_one ∷ joint_entry ∷ []

abbrev waiting_box : BallotBox ℕ ℕ
waiting_box = record {
  last_committed_index = 4;
  pending_index = 5;
  pending_meta_queue = ballot entry_of_one ∷ ballot joint_entry ∷ [];
  closure_queue = record { first_index = 5; queue = some 7 ∷ none ∷ [] };
}

waiting_commits : (commit_at waiting_box 1 6 2).on_committed ≡ some 6
unfolding commit_at finish_commit grant_range granted grant_hint grant_group find_peer found_at
waiting_commits = refl

commit_at_sound_example :
    (5 ≤ 6)
    × (1 ≤ 6)
    × (6 ≤ 6)
    × ((e : Entry ℕ) × (get_elem? two_entries 1 ≡ some e) × (has_quorum (vote 2 e) ≡ true))
    × ((commit_at waiting_box 1 6 2).box.last_committed_index ≡ 6)
    × ((commit_at waiting_box 1 6 2).box.pending_index ≡ 7)
    × ((commit_at waiting_box 1 6 2).box.pending_meta_queue ≡ [])
commit_at_sound_example =
    commit_at_sound waiting_box two_entries 1 6 6 2 (refl, ground arith) waiting_commits

commit_at_complete_example :
    (c : ℕ) × (6 ≤ c) × ((commit_at waiting_box 1 6 2).on_committed ≡ some c)
commit_at_complete_example =
    commit_at_complete waiting_box two_entries 1 6 6 2 joint_entry (refl, ground arith)
      (ground arith) (omega arith) (omega arith) (omega arith) refl refl

-- The box of a new leader that has appended two entries and heard of one majority.
abbrev leader_box : BallotBox ℕ ℕ
leader_box =
    (commit_at
      (commit_at
        (append_pending_task
          (append_pending_task (reset_pending_index new_box 1) three none (some 7)) three none none)
        1 1 1).box
      1 1 2).box

leader-Reach : Reach new_box leader_box
unfolding new_box reset_pending_index append_pending_task
leader-Reach =
    next
      (next
        (next
          (next (next here (resets 1 refl (omega arith)))
            (appends three none (some 7) (ground arith)))
          (appends three none none (ground arith)))
        (commits 1 1 1))
      (commits 1 1 2)

Reach-IsValid_example : IsValid ℕ ℕ leader_box × (0 ≤ leader_box.last_committed_index)
unfolding new_box
Reach-IsValid_example = Reach-IsValid leader-Reach (new_box-IsValid ℕ ℕ)

one_committed : 1 ≤ leader_box.last_committed_index
unfolding new_box reset_pending_index append_pending_task init commit_at finish_commit grant_range
    granted grant_hint grant_group find_peer found_at set_found scan
one_committed = omega arith

pop_committed_example :
    let r = ClosureQueue.pop_closure_until leader_box.closure_queue 1 in
    (r.code ≡ ok)
    × (leader_box.pending_index ≢ 0
        → leader_box.closure_queue.first_index ≤ 1
        → (r.out_first_index ≡ some leader_box.closure_queue.first_index)
          × (length r.out ≡ 1 + 1 - leader_box.closure_queue.first_index))
pop_committed_example = pop_committed leader_box 1 leader-Reach one_committed
