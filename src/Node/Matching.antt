-- ===== src/Node/Matching.antt =====
-- What a follower does to its log and its commits for an AppendEntries request.
use quorumkit.Prelude.{
  ℕ, ◌+◌, ◌≤◌, ◌≡◌, ◌⊎◌, inl, inr, refl, min, Bool, true, false, not, ◌&&◌, List, [], ◌∷◌, Option,
  none, some, ltb, ◌==◌, if◌then◌else◌, length, null, arith, Bool-cases,
}
use quorumkit.Errno.{Code, is_ok, einval, ebusy, erequest, eleader_conflict}
use quorumkit.Peer.{PeerOrder}
use quorumkit.LogStorage.{LogStorage}
use quorumkit.LogManager.{LogManager}
use quorumkit.LogManager
use quorumkit.LogManager.Write.{append_entries}
use quorumkit.BallotBox
use quorumkit.BallotBox.{BallotBox, Committed}
use quorumkit.Lease.Follower
use quorumkit.Node.{Node, Effect, is_active_state, ◌▸◌}
use quorumkit.Node.StepDown.{step_down, check_step_down}
use quorumkit.Node.Append.{
  EntryMeta, AppendEntriesRequest, StableClosure, follower_stable, Reply, fails, answers, later,
  caches, Outcome, outcome, parse_entries, accept_empty, accept_entries, match_log, from_leader,
  conflict, handle_parsed, handle_append_entries_request, follower_stable_run,
}

module _ {N : Type 0} where
  null-eq : (es : List (EntryMeta N)) → null es ≡ true → es ≡ []
  null-eq [] h = refl
  null-eq (e ∷ es) h = absurd (ground (arith, h))

module _ {P C : Type 0} ⦃o : PeerOrder P⦄ where
  -- A commit that `set_last_committed_index` makes is the index that it was given.
  set_committed :
      (box : BallotBox P C) (i k : ℕ)
      → (BallotBox.set_last_committed_index box i).on_committed ≡ some k
      → k ≡ i
  unfolding BallotBox.set_last_committed_index
  set_committed box i k h = ground (arith, h)

module _ {P S C W A N : Type 0} ⦃o : PeerOrder P⦄ ⦃s : LogStorage P S⦄ (parse : N → Option P) where
  -- What an outcome keeps to.
  pub record Faithful (done : A) (request : AppendEntriesRequest N)
      (lm : LogManager P S (StableClosure A) W) (out : Outcome P S C W A) : Type 0 where
    pub writes :
        (out.log ≡ lm)
        ⊎ ((out.reply ≡ later)
            × (LogManager.get_term lm request.prev_log_index ≡ request.prev_log_term)
            × (out.log
                ≡ (append_entries lm
                    (parse_entries parse request.prev_log_index request.entries request.attachment)
                    (follower_stable request.committed_index
                      (request.prev_log_index + length request.entries)
                      out.node.current_term
                      done)).0))
    pub answers_true :
        (term : ℕ) (last : Option ℕ)
        → out.reply ≡ answers true term last
        → (LogManager.get_term lm request.prev_log_index ≡ request.prev_log_term)
          × (out.node.current_term ≡ term)
          × (request.entries ≡ [])
    pub commits :
        (k : ℕ)
        → out.on_committed ≡ some k
        → (k ≤ request.committed_index) × (k ≤ request.prev_log_index)

  refused :
      (done : A) (request : AppendEntriesRequest N) (r : Node P C × List (Effect P C))
      (lm : LogManager P S (StableClosure A) W) (reply : Reply)
      → ((term : ℕ) (last : Option ℕ) → ¬ (reply ≡ answers true term last))
      → Faithful done request lm (outcome r lm reply)
  refused done request r lm reply h = record {
    writes = inl refl;
    answers_true = λ term last e. absurd (h term last e);
    commits = λ k e. absurd (ground (arith, e));
  }

  accept_empty-Faithful :
      (done : A) (request : AppendEntriesRequest N) (r : Node P C × List (Effect P C))
      (lm : LogManager P S (StableClosure A) W)
      → LogManager.get_term lm request.prev_log_index ≡ request.prev_log_term
      → request.entries ≡ []
      → Faithful done request lm (accept_empty request r lm)
  unfolding accept_empty
  accept_empty-Faithful done request r lm h e = record {
    writes = inl refl;
    answers_true = λ term last a. (h, ground (arith, a), e);
    commits = λ k a.
        let b =
          set_committed r.0.ballot_box (min request.committed_index request.prev_log_index) k a in
        (omega (arith, b), omega (arith, b));
  }

  accept_entries-Faithful :
      (done : A) (request : AppendEntriesRequest N) (r : Node P C × List (Effect P C))
      (lm : LogManager P S (StableClosure A) W)
      → LogManager.get_term lm request.prev_log_index ≡ request.prev_log_term
      → Faithful done request lm (accept_entries parse done request r lm)
  unfolding accept_entries
  accept_entries-Faithful done request r lm h = record {
    writes = inr (refl, h, refl);
    answers_true = λ term last a. absurd (ground (arith, a));
    commits = λ k a. absurd (ground (arith, a));
  }

  match_log-Faithful :
      (from_cache cached : Bool) (done : A) (request : AppendEntriesRequest N)
      (r : Node P C × List (Effect P C)) (lm : LogManager P S (StableClosure A) W)
      → Faithful done request lm (match_log parse from_cache cached done request r lm)
  unfolding match_log
  match_log-Faithful from_cache cached done request r lm =
      elim (Bool-cases (LogManager.get_term lm request.prev_log_index == request.prev_log_term)) [
        | inr m ↦ elim (Bool-cases (not from_cache && cached)) [
          | inl c ↦
              rw (match_log, m, c) (refused done request r lm caches (λ t l a. ground (arith, a)))
          | inr c ↦
              rw (match_log, m, c)
                (refused done request r lm (answers false r.0.current_term (some lm.last_log_index))
                  (λ t l a. ground (arith, a)))
        ]
        | inl m ↦ elim (Bool-cases (null request.entries)) [
          | inl c ↦
              rw (match_log, m, c)
                (accept_empty-Faithful done request r lm (ground arith) (null-eq request.entries c))
          | inr c ↦ rw (match_log, m, c) (accept_entries-Faithful done request r lm (ground arith))
        ]
      ]

  from_leader-Faithful :
      (installing from_cache cached : Bool) (now : ℕ) (done : A) (request : AppendEntriesRequest N)
      (r : Node P C × List (Effect P C)) (lm : LogManager P S (StableClosure A) W)
      → Faithful done request lm
          (from_leader parse installing from_cache cached now done request r lm)
  unfolding from_leader
  from_leader-Faithful installing from_cache cached now done request r lm =
      let n : Node P C =
        if from_cache
        then r.0
        else record r.0 { follower_lease = Follower.renew r.0.follower_lease now r.0.leader_id } in
      elim (Bool-cases (not (null request.entries) && installing)) [
        | inl h ↦
            rw (from_leader, h)
              (refused done request (n, r.1) lm (fails ebusy) (λ t l a. ground (arith, a)))
        | inr h ↦
            rw (from_leader, h) (match_log-Faithful from_cache cached done request (n, r.1) lm)
      ]

  handle_parsed-Faithful :
      (saved installing from_cache cached : Bool) (now : ℕ) (done : A) (id : Option P)
      (request : AppendEntriesRequest N) (n : Node P C) (lm : LogManager P S (StableClosure A) W)
      → Faithful done request lm
          (handle_parsed parse saved installing from_cache cached now done id request n lm)
  unfolding handle_parsed conflict
  handle_parsed-Faithful saved installing from_cache cached now done none request n lm =
      refused done request (n, []) lm (fails erequest) (λ t l a. ground (arith, a))
  handle_parsed-Faithful saved installing from_cache cached now done (some id) request n lm =
      let r = check_step_down saved request.term id n in
      elim (Bool-cases (ltb request.term n.current_term)) [
        | inl t ↦
            rw (handle_parsed, t)
              (refused done request (n, []) lm (answers false n.current_term none)
                (λ t l a. ground (arith, a)))
        | inr t ↦ elim (Bool-cases (o.peer_eq id r.0.leader_id)) [
          | inr l ↦
              rw (handle_parsed, t, l)
                (refused done request
                  (r ▸ step_down saved (request.term + 1) false eleader_conflict) lm
                  (answers false (request.term + 1) none) (λ t l a. ground (arith, a)))
          | inl l ↦
              rw (handle_parsed, t, l)
                (from_leader-Faithful installing from_cache cached now done request r lm)
        ]
      ]

  -- Whatever the state of a follower and the request: its log is left as it is, or the term that it
  -- has before the entries is the one that the request names, the answer is left to the closure, and
  -- the log is written as `append_entries` writes the parsed entries. An answer of success at once
  -- is in the node's own term, needs the same match, and is for a request without entries. What is
  -- committed is at most the leader's committed index, and at most the index before the entries.
  pub handle_append_entries_request-Faithful :
      (saved installing from_cache cached : Bool) (now : ℕ) (done : A)
      (request : AppendEntriesRequest N) (n : Node P C) (lm : LogManager P S (StableClosure A) W)
      → Faithful done request lm (
          handle_append_entries_request parse saved installing from_cache cached now done request n
            lm)
  unfolding handle_append_entries_request
  handle_append_entries_request-Faithful saved installing from_cache cached now done request n lm =
      elim (Bool-cases (is_active_state n.state)) [
        | inr a ↦
            rw (handle_append_entries_request, a)
              (refused done request (n, []) lm (fails einval) (λ t l a. ground (arith, a)))
        | inl a ↦
            rw (handle_append_entries_request, a)
              (handle_parsed-Faithful saved installing from_cache cached now done
                (parse request.server_id) request n lm)
      ]

module _ {P C : Type 0} ⦃o : PeerOrder P⦄ where
  -- The closure of the written entries answers success only for a successful write and in the term
  -- of the request; what it commits then is at most the leader's committed index and at most the last
  -- of the entries, and it leaves the term and the vote of the node.
  pub follower_stable_run_lem :
      (status : Code) (committed_index last_index term : ℕ) (n : Node P C)
      → let r = follower_stable_run status committed_index last_index term n in
        ((t : ℕ) (l : Option ℕ)
          → r.1 ≡ answers true t l
          → (is_ok status ≡ true) × (n.current_term ≡ term) × (t ≡ term))
        × ((k : ℕ)
            → r.2 ≡ some k
            → (k ≤ committed_index) × (k ≤ last_index) × (n.current_term ≡ term))
        × (r.0.current_term ≡ n.current_term)
        × (r.0.voted_id ≡ n.voted_id)
  unfolding follower_stable_run
  follower_stable_run_lem status committed_index last_index term n =
      elim (Bool-cases (is_ok status)) [
        | inr h ↦
            rw (follower_stable_run, h)
              (
                (λ t l a. absurd (ground (arith, a))),
                (λ k a. absurd (ground (arith, a))),
                refl,
                refl,
              )
        | inl h ↦ elim (Bool-cases (term == n.current_term)) [
          | inr e ↦
              rw (follower_stable_run, h, e)
                (
                  (λ t l a. absurd (ground (arith, a))),
                  (λ k a. absurd (ground (arith, a))),
                  refl,
                  refl,
                )
          | inl e ↦
              let m : n.current_term ≡ term = ground arith in
              rw (follower_stable_run, h, e)
                (
                  (λ t l a. (refl, m, ground (arith, a))),
                  (λ k a.
                      let b = set_committed n.ballot_box (min committed_index last_index) k a in
                      (omega (arith, b), omega (arith, b), m)),
                  refl,
                  refl,
                )
        ]
      ]
