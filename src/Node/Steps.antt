-- ===== src/Node/Steps.antt =====
-- The steps of a node, and what any run of them keeps.
use quorumkit.Prelude.{
  ℕ, suc, ◌≡◌, ◌≤◌, ◌⊎◌, inl, inr, refl, Bool, true, false, Option, ◌==◌, arith, Bool-cases,
}
use quorumkit.Errno.{Code}
use quorumkit.Peer.{PeerOrder}
use quorumkit.LogEntry.{LogId}
use quorumkit.Node.{Node, is_leader}
use quorumkit.Node.StepDown.{step_down, check_step_down, increase_term_to}
use quorumkit.Node.VoteRequest.{
  RequestVoteRequest, RequestVoteResponse, Pending, begin_request_vote, end_request_vote,
}
use quorumkit.Node.OneVote.{
  Keeps, Keeps-refl, Keeps-trans, step_down-Keeps, check_step_down-Keeps, increase_term_to-Keeps,
  begin_request_vote-Keeps, end_request_vote-Keeps,
}
use quorumkit.Node.Election.{start_elect, save_own_vote, finish_elect, finish_pre_vote}
use quorumkit.Node.Answers.{
  handle_request_vote_response, handle_pre_vote_response, grant_vote_timedout,
  grant_pre_vote_timedout, handle_vote_timeout, handle_election_timeout, handle_timeout_now_request,
}
use quorumkit.Node.Quorum.{Won, Turns, start_elect-Turns, finish_elect-Turns, finish_pre_vote-Turns}
use quorumkit.Node.Responses.{handle_request_vote_response-Turns}
use quorumkit.Node.Timeouts.{
  grant_vote_timedout-Turns, grant_pre_vote_timedout-Turns, handle_pre_vote_response-Turns,
  handle_vote_timeout-Turns, handle_election_timeout-Turns, handle_timeout_now_request-Turns,
}

-- The steps of the elections that a node starts. In `asks` the write of the node's own vote succeeds;
-- `Runs` below has the step in which it fails.
pub data Turn {P C : Type 0} ⦃o : PeerOrder P⦄ : Node P C → Node P C → Type 0 where
  starts : (stepped_down : Bool) (n : Node P C) → Turn n (start_elect stepped_down n).0.0
  asks :
      (enabled : Bool) (now last_log_index : ℕ) (last_log_id : LogId) (old_term : ℕ) (n : Node P C)
      → Turn n (finish_elect true enabled now last_log_index last_log_id old_term n).0
  asks_before :
      (enabled : Bool) (now : ℕ) (last_log_id : LogId) (old_term : ℕ) (triggered : Bool)
      → (n : Node P C) → Turn n (finish_pre_vote enabled now last_log_id old_term triggered n).0.0
  hears_vote :
      (saved : Bool) (last_log_index : ℕ) (p : P) (term version : ℕ)
      → (response : RequestVoteResponse) (n : Node P C)
      → Turn n (handle_request_vote_response saved last_log_index p term version response n).0
  hears_pre_vote :
      (saved : Bool) (p : P) (term version : ℕ) (response : RequestVoteResponse) (n : Node P C)
      → Turn n (handle_pre_vote_response saved p term version response n).0.0
  counts_itself :
      (enabled : Bool) (now last_log_index version : ℕ) (n : Node P C)
      → Turn n (grant_vote_timedout enabled now last_log_index version n).0
  counts_itself_before :
      (enabled : Bool) (now version : ℕ) (n : Node P C)
      → Turn n (grant_pre_vote_timedout enabled now version n).0.0
  vote_times_out :
      (saved steps_down installing : Bool) (n : Node P C)
      → Turn n (handle_vote_timeout saved steps_down installing n).0.0
  leader_times_out :
      (now : ℕ) (installing : Bool) (n : Node P C)
      → Turn n (handle_election_timeout now installing n).0.0
  is_told :
      (saved enabled : Bool) (request_term : ℕ) (stepped_down : Bool) (n : Node P C)
      → Turn n (handle_timeout_now_request saved enabled request_term stepped_down n).0.0.0

module _ {P C : Type 0} ⦃o : PeerOrder P⦄ where
  Turn-Turns : {n m : Node P C} → Turn n m → Turns n m
  Turn-Turns (starts b n) = start_elect-Turns b n
  Turn-Turns (asks enabled now last_log_index last_log_id old_term n) =
      finish_elect-Turns enabled now last_log_index last_log_id old_term n
  Turn-Turns (asks_before enabled now last_log_id old_term triggered n) =
      finish_pre_vote-Turns enabled now last_log_id old_term triggered n
  Turn-Turns (hears_vote saved last_log_index p term version response n) =
      handle_request_vote_response-Turns saved last_log_index p term version response n
  Turn-Turns (hears_pre_vote saved p term version response n) =
      handle_pre_vote_response-Turns saved p term version response n
  Turn-Turns (counts_itself enabled now last_log_index version n) =
      grant_vote_timedout-Turns enabled now last_log_index version n
  Turn-Turns (counts_itself_before enabled now version n) =
      grant_pre_vote_timedout-Turns enabled now version n
  Turn-Turns (vote_times_out saved steps_down installing n) =
      handle_vote_timeout-Turns saved steps_down installing n
  Turn-Turns (leader_times_out now installing n) = handle_election_timeout-Turns now installing n
  Turn-Turns (is_told saved enabled request_term stepped_down n) =
      handle_timeout_now_request-Turns saved enabled request_term stepped_down n

  -- A node that such a step makes the leader has a granted ballot, names itself as the leader, and
  -- keeps its term and its vote.
  leads_by_quorum :
      {n m : Node P C} → Turn n m → is_leader n.state ≡ false → is_leader m.state ≡ true → Won n m
  leads_by_quorum t = (Turn-Turns t).leads

-- All the steps: messages from others, and the elections that the node starts.
pub data Step (S : Type 0) {P C : Type 0} ⦃o : PeerOrder P⦄ : Node P C → Node P C → Type 0 where
  turns : {n m : Node P C} → Turn n m → Step S n m
  steps_down :
      (saved : Bool) (term : ℕ) (wakeup : Bool) (status : Code) (n : Node P C)
      → Step S n (step_down saved term wakeup status n).0
  hears_leader :
      (saved : Bool) (term : ℕ) (server_id : P) (n : Node P C)
      → Step S n (check_step_down saved term server_id n).0
  increases_term :
      (saved : Bool) (term : ℕ) (status : Code) (n : Node P C)
      → Step S n (increase_term_to saved term status n).0.0
  begins_vote :
      (parse : S → Option P) (request : RequestVoteRequest S) (n : Node P C)
      → Step S n (begin_request_vote parse request n).0
  ends_vote :
      (saved_term saved_vote enabled : Bool) (now : ℕ) (last : LogId) (pending : Pending P)
      → (request : RequestVoteRequest S) (n : Node P C)
      → Step S n (end_request_vote saved_term saved_vote enabled now last pending request n).0.0

pub data Run (S : Type 0) {P C : Type 0} ⦃o : PeerOrder P⦄ : Node P C → Node P C → Type 0 where
  halt : (n : Node P C) → Run S n n
  next : {n m k : Node P C} → Step S n m → Run S m k → Run S n k

module _ {P C S : Type 0} ⦃o : PeerOrder P⦄ where
  Step-Keeps : {n m : Node P C} → Step S n m → Keeps n m
  Step-Keeps (turns t) = (Turn-Turns t).keeps
  Step-Keeps (steps_down saved term wakeup status n) = step_down-Keeps saved term wakeup status n
  Step-Keeps (hears_leader saved term server_id n) = check_step_down-Keeps saved term server_id n
  Step-Keeps (increases_term saved term status n) = increase_term_to-Keeps saved term status n
  Step-Keeps (begins_vote parse request n) = begin_request_vote-Keeps parse request n
  Step-Keeps (ends_vote saved_term saved_vote enabled now last pending request n) =
      end_request_vote-Keeps saved_term saved_vote enabled now last pending request n

  pub Run-Keeps : {n m : Node P C} → Run S n m → Keeps n m
  Run-Keeps (halt n) = Keeps-refl n
  Run-Keeps (next s r) = Keeps-trans (Step-Keeps s) (Run-Keeps r)

-- Runs in which the write of the node's own vote may fail, with the number of those failures.
pub data Runs (S : Type 0) {P C : Type 0} ⦃o : PeerOrder P⦄ : ℕ → Node P C → Node P C → Type 0 where
  done : (n : Node P C) → Runs S 0 n n
  does : {f : ℕ} {n m k : Node P C} → Step S n m → Runs S f m k → Runs S f n k
  fails :
      {f : ℕ} {k : Node P C} (enabled : Bool) (now last_log_index : ℕ) (last_log_id : LogId)
      → (old_term : ℕ) (n : Node P C)
      → Runs S f (finish_elect false enabled now last_log_index last_log_id old_term n).0 k
      → Runs S (suc f) n k

module _ {P C : Type 0} ⦃o : PeerOrder P⦄ where
  -- The node is as it was, or holds no vote in the same term.
  finish_elect-failed :
      (enabled : Bool) (now last_log_index : ℕ) (last_log_id : LogId) (old_term : ℕ) (n : Node P C)
      → let m = (finish_elect false enabled now last_log_index last_log_id old_term n).0 in
        (m.current_term ≡ n.current_term)
        × ((m.voted_id ≡ n.voted_id) ⊎ (m.voted_id ≡ o.empty_peer))
  unfolding finish_elect save_own_vote
  finish_elect-failed enabled now last_log_index last_log_id old_term n =
      elim (Bool-cases (old_term == n.current_term)) [
        | inl t ↦ rw (finish_elect, t) (refl, inr refl)
        | inr t ↦ rw (finish_elect, t) (refl, inl refl)
      ]

module _ {P C S : Type 0} ⦃o : PeerOrder P⦄ where
  term_le : {f : ℕ} {n m : Node P C} → Runs S f n m → n.current_term ≤ m.current_term
  term_le (done n) = omega arith
  term_le (does s r) = omega (arith, (Step-Keeps s).term_le, term_le r)
  term_le (fails enabled now last_log_index last_log_id old_term n r) =
      let e = (finish_elect-failed enabled now last_log_index last_log_id old_term n).0 in
      omega (arith, e, term_le r)

  pub kept_by : {f : ℕ} {n m : Node P C} → Runs S f n m → f ≡ 0 → Keeps n m
  kept_by (done n) z = Keeps-refl n
  kept_by (does s r) z = Keeps-trans (Step-Keeps s) (kept_by r z)
  kept_by (fails enabled now last_log_index last_log_id old_term n r) z = absurd (ground (arith, z))

  -- Over any steps of the handlers and elections the term of a node does not fall. If no write of its
  -- own vote in `elect_self` fails on the way and the node ends in the term that it started in, a
  -- vote that it held is still held. Such a failed write leaves the term, and takes back the vote
  -- or changes no vote.
  pub Runs-Keeps :
      (f : ℕ) (n m : Node P C)
      → Runs S f n m
      → (n.current_term ≤ m.current_term)
        × (f ≡ 0 → Keeps n m)
        × ((enabled : Bool) (now last_log_index : ℕ) (last_log_id : LogId) (old_term : ℕ)
            → let k = (finish_elect false enabled now last_log_index last_log_id old_term m).0 in
              (k.current_term ≡ m.current_term)
              × ((k.voted_id ≡ m.voted_id) ⊎ (k.voted_id ≡ o.empty_peer)))
  Runs-Keeps f n m r = (
    term_le r,
    kept_by r,
    λ enabled now last_log_index last_log_id old_term.
        finish_elect-failed enabled now last_log_index last_log_id old_term m,
  )
