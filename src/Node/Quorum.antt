-- ===== src/Node/Quorum.antt =====
-- What the elections that a node starts do to its term and vote, and when it becomes a leader.
use quorumkit.Prelude.{
  ℕ, ◌+◌, ◌≡◌, refl, sym, ap, ◌∙◌, inl, inr, Bool, true, false, ◌==◌, arith, Bool-cases,
}
use quorumkit.Errno.{Code, eraft_timed_out}
use quorumkit.Peer.{PeerOrder}
use quorumkit.LogEntry.{LogId}
use quorumkit.ConfigurationManager.{contains}
use quorumkit.Lease.Follower
use quorumkit.Node.VoteCtx
use quorumkit.Node.{Node, candidate, follower, is_active_state, is_leader, set_term_and_votedfor}
use quorumkit.Node.StepDown.{leave_role, become_follower, raise_term, step_down, reset_leader_id}
use quorumkit.Node.OneVote.{Keeps, Keeps-refl, Keeps-trans, step_down-Keeps}
use quorumkit.Node.Election.{
  become_leader, lead_if_granted, grant_self_vote, to_candidate, disrupt, start_candidate,
  start_elect, save_own_vote, finish_elect, elect_if_granted, grant_self_pre_vote, finish_pre_vote,
}

module _ {P C : Type 0} ⦃o : PeerOrder P⦄ where
  -- The node has the votes of a quorum, and leads in the term and with the vote that it had.
  abbrev pub Won : Node P C → Node P C → Type 0
  Won n m =
      (VoteCtx.granted m.vote_ctx ≡ true)
      × (m.leader_id ≡ m.server_id)
      × (m.server_id ≡ n.server_id)
      × (m.current_term ≡ n.current_term)
      × (m.voted_id ≡ n.voted_id)

  pub record Turns (n m : Node P C) : Type 0 where
    pub keeps : Keeps n m
    pub leads : is_leader n.state ≡ false → is_leader m.state ≡ true → Won n m

  -- What no election step but a win, a step down or a start changes.
  pub record Quiet (n m : Node P C) : Type 0 where
    pub state_eq : m.state ≡ n.state
    pub term_eq : m.current_term ≡ n.current_term
    pub voted_eq : m.voted_id ≡ n.voted_id
    pub server_eq : m.server_id ≡ n.server_id

  pub quiet : (n : Node P C) → Quiet n n
  quiet n = record { state_eq = refl; term_eq = refl; voted_eq = refl; server_eq = refl }

  Quiet-Keeps : (n m : Node P C) → Quiet n m → Keeps n m
  Quiet-Keeps n m q = record { term_le = omega (arith, q.term_eq); vote_eq = λ e v. q.voted_eq }

  pub Quiet-Turns : (n m k : Node P C) → Quiet n m → Turns m k → Turns n k
  Quiet-Turns n m k q t = record {
    keeps = Keeps-trans (Quiet-Keeps n m q) t.keeps;
    leads = λ h l.
        let (a, b, c, d, e) = t.leads (ap is_leader q.state_eq ∙ h) l in
        (a, b, c ∙ q.server_eq, d ∙ q.term_eq, e ∙ q.voted_eq);
  }

  pub stays : (n : Node P C) → Turns n n
  stays n = record { keeps = Keeps-refl n; leads = λ h l. absurd (ground arith) }

  pub rests : (n m : Node P C) → Quiet n m → Turns n m
  rests n m q = Quiet-Turns n m m q (stays m)

  pub become_leader-Turns :
      (last_log_index : ℕ) (n : Node P C)
      → VoteCtx.granted n.vote_ctx ≡ true
      → Turns n (become_leader last_log_index n).0
  unfolding become_leader VoteCtx.granted VoteCtx.reset
  become_leader-Turns last_log_index n g = record {
    keeps = record { term_le = omega arith; vote_eq = λ e v. refl };
    leads = λ h l. (g, refl, refl, refl, refl);
  }

  lead_if_granted-Turns :
      (last_log_index : ℕ) (n : Node P C) → Turns n (lead_if_granted last_log_index n).0
  unfolding lead_if_granted
  lead_if_granted-Turns last_log_index n = elim (Bool-cases (VoteCtx.granted n.vote_ctx)) [
    | inl g ↦ rw (lead_if_granted, g) (become_leader-Turns last_log_index n g)
    | inr g ↦ rw (lead_if_granted, g) (stays n)
  ]

  pub grant_self_vote-Turns :
      (enabled : Bool) (now last_log_index : ℕ) (n : Node P C)
      → Turns n (grant_self_vote enabled now last_log_index n).0
  unfolding grant_self_vote
  grant_self_vote-Turns enabled now last_log_index n =
      elim (Bool-cases (Follower.votable_time_from_now enabled now n.follower_lease == 0)) [
        | inl w ↦
            let m : Node P C = record n { vote_ctx = VoteCtx.grant n.vote_ctx n.server_id } in
            rw (grant_self_vote, w)
              (Quiet-Turns n m (lead_if_granted last_log_index m).0
                (record { state_eq = refl; term_eq = refl; voted_eq = refl; server_eq = refl })
                (lead_if_granted-Turns last_log_index m))
        | inr w ↦ rw (grant_self_vote, w) (stays n)
      ]

  raise_term-state :
      (saved : Bool) (term : ℕ) (n : Node P C) → (raise_term saved term n).state ≡ n.state
  unfolding raise_term set_term_and_votedfor
  raise_term-state saved term n = ground arith

  step_down-state :
      (saved : Bool) (term : ℕ) (wakeup : Bool) (status : Code) (n : Node P C)
      → is_active_state n.state ≡ true
      → (step_down saved term wakeup status n).0.state ≡ follower
  unfolding step_down
  step_down-state saved term wakeup status n h =
      let m =
        become_follower (reset_leader_id o.empty_peer status (leave_role status n.state n).0).0 in
      rw (step_down, h) (raise_term-state saved term m)

  pub step_down-Turns :
      (saved : Bool) (term : ℕ) (wakeup : Bool) (status : Code) (n : Node P C)
      → Turns n (step_down saved term wakeup status n).0
  unfolding is_leader
  step_down-Turns saved term wakeup status n = record {
    keeps = step_down-Keeps saved term wakeup status n;
    leads = elim (Bool-cases (is_active_state n.state)) [
      | inl a ↦ λ h l.
          absurd
            (ground (arith, sym l ∙ ap is_leader (step_down-state saved term wakeup status n a)))
      | inr a ↦ unfold step_down in rw a (λ h l. absurd (ground arith))
    ];
  }

  -- A start takes the node to the next term, as a candidate.
  starts-Turns :
      (n m : Node P C) → m.current_term ≡ n.current_term + 1 → m.state ≡ candidate → Turns n m
  unfolding is_leader
  starts-Turns n m t s = record {
    keeps = record { term_le = omega (arith, t); vote_eq = λ e v. absurd (omega (arith, t, e)) };
    leads = λ h l. absurd (ground (arith, sym l ∙ ap is_leader s));
  }

  pub reset_leader_id-Quiet :
      (p : P) (status : Code) (n : Node P C) → Quiet n (reset_leader_id p status n).0
  unfolding reset_leader_id
  reset_leader_id-Quiet p status n = elim (Bool-cases (o.is_empty p)) [
    | inl h ↦
        rw (reset_leader_id, h)
          (record { state_eq = refl; term_eq = refl; voted_eq = refl; server_eq = refl })
    | inr h ↦ elim (Bool-cases (o.is_empty n.leader_id)) [
      | inl k ↦
          rw (reset_leader_id, h, k)
            (record { state_eq = refl; term_eq = refl; voted_eq = refl; server_eq = refl })
      | inr k ↦
          rw (reset_leader_id, h, k)
            (record { state_eq = refl; term_eq = refl; voted_eq = refl; server_eq = refl })
    ]
  ]

  disrupt-Quiet : (b : Bool) (p : P) (t : ℕ) (n : Node P C) → Quiet n (disrupt b p t n)
  unfolding disrupt
  disrupt-Quiet true p t n = record {
    state_eq = refl;
    term_eq = refl;
    voted_eq = refl;
    server_eq = refl;
  }
  disrupt-Quiet false p t n = quiet n

  -- The node that asks for votes has given itself its vote in the new term.
  pub start_candidate_lem :
      (b : Bool) (n : Node P C)
      → ((start_candidate b n).0.current_term ≡ n.current_term + 1)
        × ((start_candidate b n).0.state ≡ candidate)
        × ((start_candidate b n).0.voted_id ≡ n.server_id)
  unfolding start_candidate
  start_candidate_lem b n =
      let r = (reset_leader_id o.empty_peer eraft_timed_out n).0 in
      let q = reset_leader_id-Quiet o.empty_peer eraft_timed_out n in
      let d = disrupt-Quiet b n.leader_id n.current_term (to_candidate r) in
      (d.term_eq ∙ ap (λ t. t + 1) q.term_eq, d.state_eq, d.voted_eq ∙ q.server_eq)

  pub start_elect-Turns : (b : Bool) (n : Node P C) → Turns n (start_elect b n).0.0
  unfolding start_elect
  start_elect-Turns b n = elim (Bool-cases (contains n.conf n.server_id)) [
    | inr c ↦ rw (start_elect, c) (stays n)
    | inl c ↦
        let (t, s, v) = start_candidate_lem b n in
        rw (start_elect, c) (starts-Turns n (start_candidate b n).0 t s)
  ]

  pub finish_elect-Turns :
      (enabled : Bool) (now last_log_index : ℕ) (last_log_id : LogId) (old_term : ℕ) (n : Node P C)
      → Turns n (finish_elect true enabled now last_log_index last_log_id old_term n).0
  unfolding finish_elect save_own_vote set_term_and_votedfor
  finish_elect-Turns enabled now last_log_index last_log_id old_term n =
      elim (Bool-cases (old_term == n.current_term)) [
        | inr t ↦ rw (finish_elect, t) (stays n)
        | inl t ↦
            let m : Node P C = record n {
              vote_ctx = VoteCtx.set_last_log_id n.vote_ctx last_log_id;
              meta = record { term = n.current_term; votedfor = n.server_id };
            } in
            rw (finish_elect, t)
              (Quiet-Turns n m (grant_self_vote enabled now last_log_index m).0
                (record { state_eq = refl; term_eq = refl; voted_eq = refl; server_eq = refl })
                (grant_self_vote-Turns enabled now last_log_index m))
      ]

  pub elect_if_granted-Turns : (n : Node P C) → Turns n (elect_if_granted n).0.0
  unfolding elect_if_granted
  elect_if_granted-Turns n = elim (Bool-cases (VoteCtx.granted n.pre_vote_ctx)) [
    | inl g ↦ rw (elect_if_granted, g) (start_elect-Turns false n)
    | inr g ↦ rw (elect_if_granted, g) (stays n)
  ]

  pub grant_self_pre_vote-Turns :
      (enabled : Bool) (now : ℕ) (n : Node P C) → Turns n (grant_self_pre_vote enabled now n).0.0
  unfolding grant_self_pre_vote
  grant_self_pre_vote-Turns enabled now n =
      elim (Bool-cases (Follower.votable_time_from_now enabled now n.follower_lease == 0)) [
        | inl w ↦
            let m : Node P C = record n {
              pre_vote_ctx = VoteCtx.grant n.pre_vote_ctx n.server_id;
            } in
            rw (grant_self_pre_vote, w)
              (Quiet-Turns n m (elect_if_granted m).0.0
                (record { state_eq = refl; term_eq = refl; voted_eq = refl; server_eq = refl })
                (elect_if_granted-Turns m))
        | inr w ↦ rw (grant_self_pre_vote, w) (stays n)
      ]

  pub finish_pre_vote-Turns :
      (enabled : Bool) (now : ℕ) (last_log_id : LogId) (old_term : ℕ) (triggered : Bool)
      (n : Node P C)
      → Turns n (finish_pre_vote enabled now last_log_id old_term triggered n).0.0
  unfolding finish_pre_vote
  finish_pre_vote-Turns enabled now last_log_id old_term triggered n =
      elim (Bool-cases (old_term == n.current_term)) [
        | inr t ↦ rw (finish_pre_vote, t) (stays n)
        | inl t ↦
            let m : Node P C = record n {
              pre_vote_ctx = VoteCtx.init n.pre_vote_ctx n.conf triggered;
            } in
            rw (finish_pre_vote, t)
              (Quiet-Turns n m (grant_self_pre_vote enabled now m).0.0
                (record { state_eq = refl; term_eq = refl; voted_eq = refl; server_eq = refl })
                (grant_self_pre_vote-Turns enabled now m))
      ]

  pub started :
      (b : Bool) (n : Node P C)
      → contains n.conf n.server_id ≡ true
      → ((start_elect b n).0.0.current_term ≡ n.current_term + 1)
        × ((start_elect b n).0.0.voted_id ≡ n.server_id)
  unfolding start_elect
  started b n c = let (t, s, v) = start_candidate_lem b n in rw c (t, v)
