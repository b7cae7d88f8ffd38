-- ===== src/Node/Accepted.antt =====
-- Each task of a leader is refused, or becomes an entry with a ballot and its closure.
use mathlib.Core.List.{append-nil, append_assoc}
use quorumkit.Prelude.{
  ℕ, ◌≡◌, refl, inl, inr, sym, ap, ◌∙◌, Bool, true, false, not, ◌||◌, List, [], ◌∷◌, ◌++◌, map,
  if◌then◌else◌, length, Bool-cases,
}
use quorumkit.Errno.{eperm}
use quorumkit.Peer.{PeerOrder}
use quorumkit.Ballot
use quorumkit.Ballot.{Ballot}
use quorumkit.BallotBox
use quorumkit.BallotBox.{BallotBox}
use quorumkit.ClosureQueue
use quorumkit.ConfigurationManager.{ConfigurationEntry}
use quorumkit.LogStorage.{LogStorage}
use quorumkit.LogManager.{LogManager}
use quorumkit.LogManager.Write.{append_entries}
use quorumkit.Node.{Node, is_leader}
use quorumkit.Node.Append.{StableClosure, leader_stable}
use quorumkit.Node.Apply.{
  Task, run_done, refuse_all, expects, refusal, old_conf_of, user_entry, take_tasks, append_tasks,
  apply,
}

module _ {C : Type 0} where
  -- The tasks that expect the term, or any.
  abbrev pub accepted : ℕ → List (Task C) → List (Task C)
  accepted term [] = []
  accepted term (t ∷ ts) =
      let rest = accepted term ts in if expects t.expected_term term then t ∷ rest else rest

  abbrev pub rejected : ℕ → List (Task C) → List (Task C)
  rejected term [] = []
  rejected term (t ∷ ts) =
      let rest = rejected term ts in if expects t.expected_term term then rest else t ∷ rest

module _ {P C : Type 0} ⦃o : PeerOrder P⦄ where
  abbrev pub ballots_of : ConfigurationEntry P → List (Task C) → List (Ballot P)
  ballots_of conf ts = map (λ t. Ballot.init conf.conf (old_conf_of conf)) ts

  take_tasks_lem :
      (conf : ConfigurationEntry P) (term : ℕ) (tasks : List (Task C)) (box : BallotBox P C)
      → let r = take_tasks conf term tasks box in
        (r.0 ≡ map (λ t. user_entry term t.content) (accepted term tasks))
        × (r.1.pending_meta_queue ≡ box.pending_meta_queue ++ ballots_of conf (accepted term tasks))
        × (r.1.closure_queue.queue
            ≡ box.closure_queue.queue ++ map (λ t. t.done) (accepted term tasks))
        × (r.2 ≡ refuse_all eperm (rejected term tasks))
  unfolding take_tasks refuse_all BallotBox.append_pending_task ClosureQueue.append_pending_closure
  take_tasks_lem conf term [] box = (refl, sym (append-nil _), sym (append-nil _), refl)
  take_tasks_lem conf term (t ∷ ts) box = elim (Bool-cases (expects t.expected_term term)) [
    | inl h ↦
        let b = BallotBox.append_pending_task box conf.conf (old_conf_of conf) t.done in
        let (e, m, q, r) = take_tasks_lem conf term ts b in
        rw h (
          ap (◌∷◌ (user_entry term t.content)) e,
          m
              ∙ append_assoc box.pending_meta_queue (Ballot.init conf.conf (old_conf_of conf) ∷ [])
                  (ballots_of conf (accepted term ts)),
          q
              ∙ append_assoc box.closure_queue.queue (t.done ∷ [])
                  (map (λ t. t.done) (accepted term ts)),
          r,
        )
    | inr h ↦
        let (e, m, q, r) = take_tasks_lem conf term ts box in
        rw h (e, m, q, ap (λ x. run_done t.done eperm ++ x) r)
  ]

module _ {P S C W A : Type 0} ⦃o : PeerOrder P⦄ ⦃s : LogStorage P S⦄ where
  -- A node that does not lead, or is read-only, leaves its state and its log as they are and runs the
  -- closure of each task with one error. A leader runs, with an error, exactly the closures of the
  -- tasks that expect another term; each of the others, in order, becomes one user's entry of the
  -- current term, one ballot over the configuration and one waiting closure.
  pub apply_lem :
      (node_readonly : Bool) (tasks : List (Task C)) (n : Node P C)
      (lm : LogManager P S (StableClosure A) W)
      → let r = apply node_readonly tasks n lm in
        let readonly = node_readonly || n.majority_nodes_readonly in
        let taken = accepted n.current_term tasks in
        let es = map (λ t. user_entry n.current_term t.content) taken in
        (((not (is_leader n.state) || readonly) ≡ true)
          → (r.node ≡ n) × (r.log ≡ lm) × (r.runs ≡ refuse_all (refusal n.state readonly) tasks))
        × (((not (is_leader n.state) || readonly) ≡ false)
            → (r.runs ≡ refuse_all eperm (rejected n.current_term tasks))
              × (r.log ≡ (append_entries lm es (leader_stable (length es))).0)
              × (r.node.ballot_box.pending_meta_queue
                  ≡ n.ballot_box.pending_meta_queue ++ ballots_of n.conf taken)
              × (r.node.ballot_box.closure_queue.queue
                  ≡ n.ballot_box.closure_queue.queue ++ map (λ t. t.done) taken))
  unfolding apply append_tasks
  apply_lem node_readonly tasks n lm =
      let (e, m, q, r) = take_tasks_lem n.conf n.current_term tasks n.ballot_box in
      (
        λ h. rw h (refl, refl, refl),
        λ h. rw h (r, ap (λ es. (append_entries lm es (leader_stable (length es))).0) e, m, q),
      )
