-- ===== src/Node/OneVote.antt =====
-- Terms only grow, and a node that has voted in a term keeps the vote.
use quorumkit.Prelude.{
  ℕ, ◌≤◌, ◌≡◌, refl, sym, ◌∙◌, inl, inr, Bool, true, false, Option, none, some, ltb, List, [], ◌==◌,
  leb, if◌then◌else◌, arith, Bool-cases,
}
use quorumkit.Errno.{Code, enew_leader, evote_for_candidate, ehigher_term_request}
use quorumkit.Peer.{PeerOrder}
use quorumkit.LogEntry.{LogId}
use quorumkit.Lease.Follower
use quorumkit.Node.{Node, Effect, is_active_state, is_follower, set_term_and_votedfor}
use quorumkit.Node.StepDown.{
  reset_leader_id, raise_term, step_down, down_for, save_leader, check_step_down, increase_term_to,
}
use quorumkit.Node.Same.{Same, reset_leader_id-Same, step_down-Same}
use quorumkit.Node.VoteRequest.{
  RequestVoteRequest, Pending, save_vote, adopt_term, vote_for, cast_vote, disrupts,
  expire_disrupted, begin_vote_parsed, begin_request_vote, end_request_vote,
}

module _ {P C : Type 0} ⦃o : PeerOrder P⦄ where
  -- The term does not fall, and a vote of the term stays.
  pub record Keeps (n m : Node P C) : Type 0 where
    pub term_le : n.current_term ≤ m.current_term
    pub vote_eq :
        m.current_term ≡ n.current_term → o.is_empty n.voted_id ≡ false → m.voted_id ≡ n.voted_id

  pub Keeps-refl : (n : Node P C) → Keeps n n
  Keeps-refl n = record { term_le = omega arith; vote_eq = λ e v. refl }

  pub Keeps-trans : {n m k : Node P C} → Keeps n m → Keeps m k → Keeps n k
  Keeps-trans {n} {m} {k} a b = record {
    term_le = omega (arith, a.term_le, b.term_le);
    vote_eq = λ e v.
        let same : m.current_term ≡ n.current_term = omega (arith, a.term_le, b.term_le) in
        let held = a.vote_eq same v in b.vote_eq (e ∙ sym same) (rw held v) ∙ held;
  }

  Same-Keeps : {n m : Node P C} → Same n m → Keeps n m
  Same-Keeps s = record { term_le = omega (arith, s.term_eq); vote_eq = λ e v. s.voted_eq }

  raise_term-Keeps : (saved : Bool) (term : ℕ) (n : Node P C) → Keeps n (raise_term saved term n)
  unfolding raise_term set_term_and_votedfor
  raise_term-Keeps saved term n = record { term_le = ground arith; vote_eq = λ e v. ground arith }

  pub step_down-Keeps :
      (saved : Bool) (term : ℕ) (wakeup : Bool) (status : Code) (n : Node P C)
      → Keeps n (step_down saved term wakeup status n).0
  step_down-Keeps saved term wakeup status n = elim (Bool-cases (is_active_state n.state)) [
    | inl h ↦
        Keeps-trans (raise_term-Keeps saved term n)
          (Same-Keeps (step_down-Same saved term wakeup status n h))
    | inr h ↦ unfold step_down in rw h (Keeps-refl n)
  ]

  down_for-Keeps : (saved : Bool) (term : ℕ) (n : Node P C) → Keeps n (down_for saved term n).0
  unfolding down_for
  down_for-Keeps saved term n =
      let down = step_down-Keeps saved term false enew_leader n in
      elim (Bool-cases (ltb n.current_term term)) [
        | inl a ↦ rw (a, down_for) down
        | inr a ↦ elim (Bool-cases (is_follower n.state)) [
          | inl b ↦ elim (Bool-cases (o.is_empty n.leader_id)) [
            | inl c ↦ rw (a, b, c, down_for) down
            | inr c ↦ rw (a, b, c, down_for) (Keeps-refl n)
          ]
          | inr b ↦ rw (a, b, down_for) down
        ]
      ]

  either-Keeps :
      (b : Bool) (n : Node P C) (x y : Node P C × List (Effect P C))
      → Keeps n x.0
      → Keeps n y.0
      → Keeps n (if b then x else y).0
  either-Keeps true n x y a c = a
  either-Keeps false n x y a c = c

  save_leader-Keeps : (server_id : P) (n : Node P C) → Keeps n (save_leader server_id n).0
  unfolding save_leader
  save_leader-Keeps server_id n =
      either-Keeps (o.is_empty n.leader_id) n (reset_leader_id server_id enew_leader n) (n, [])
        (Same-Keeps (reset_leader_id-Same server_id enew_leader n)) (Keeps-refl n)

  pub check_step_down-Keeps :
      (saved : Bool) (term : ℕ) (server_id : P) (n : Node P C)
      → Keeps n (check_step_down saved term server_id n).0
  unfolding check_step_down
  check_step_down-Keeps saved term server_id n =
      Keeps-trans (down_for-Keeps saved term n) (save_leader-Keeps server_id _)

  -- A vote is cast only where there is none in the term.
  fresh_vote :
      (saved_term saved_vote : Bool) (c : P) (term : ℕ) (status : Code) (n : Node P C)
      → o.is_empty n.voted_id ≡ true
      → Keeps n (save_vote saved_vote c (step_down saved_term term false status n).0)
  unfolding save_vote set_term_and_votedfor
  fresh_vote saved_term saved_vote c term status n e =
      let down = step_down-Keeps saved_term term false status n in
      record { term_le = ground (arith, down.term_le); vote_eq = λ t v. ground arith }

  vote_for-Keeps :
      (saved_term saved_vote log_is_ok : Bool) (c : P) (term : ℕ) (n : Node P C)
      → Keeps n (vote_for saved_term saved_vote log_is_ok c term n).0
  unfolding vote_for
  vote_for-Keeps saved_term saved_vote false c term n = Keeps-refl n
  vote_for-Keeps saved_term saved_vote true c term n = elim (Bool-cases (o.is_empty n.voted_id)) [
    | inl h ↦ rw (h, vote_for) (fresh_vote saved_term saved_vote c term evote_for_candidate n h)
    | inr h ↦ rw (h, vote_for) (Keeps-refl n)
  ]

  adopt_term-Keeps : (saved : Bool) (term : ℕ) (n : Node P C) → Keeps n (adopt_term saved term n).0
  unfolding adopt_term
  adopt_term-Keeps saved term n = elim (Bool-cases (ltb n.current_term term)) [
    | inl a ↦ rw (a, adopt_term) (step_down-Keeps saved term false ehigher_term_request n)
    | inr a ↦ rw (a, adopt_term) (Keeps-refl n)
  ]

  cast_vote-Keeps :
      (saved_term saved_vote log_is_ok : Bool) (c : P) (term : ℕ) (n : Node P C)
      → Keeps n (cast_vote saved_term saved_vote log_is_ok c term n).0
  unfolding cast_vote
  cast_vote-Keeps saved_term saved_vote log_is_ok c term n =
      Keeps-trans (adopt_term-Keeps saved_term term n)
        (vote_for-Keeps saved_term saved_vote log_is_ok c term _)

  pub increase_term_to-Keeps :
      (saved : Bool) (term : ℕ) (status : Code) (n : Node P C)
      → Keeps n (increase_term_to saved term status n).0.0
  unfolding increase_term_to
  increase_term_to-Keeps saved term status n = elim (Bool-cases (leb term n.current_term)) [
    | inl h ↦ rw h (Keeps-refl n)
    | inr h ↦ rw h (step_down-Keeps saved term false status n)
  ]

module _ {P C S : Type 0} ⦃o : PeerOrder P⦄ where
  pub end_request_vote-Keeps :
      (saved_term saved_vote enabled : Bool) (now : ℕ) (last : LogId) (pending : Pending P)
      → (request : RequestVoteRequest S) (n : Node P C)
      → Keeps n (end_request_vote saved_term saved_vote enabled now last pending request n).0.0
  unfolding end_request_vote
  end_request_vote-Keeps saved_term saved_vote enabled now last pending request n =
      elim (Bool-cases (pending.previous_term == n.current_term)) [
        | inl a ↦
            elim (Bool-cases
              (ltb 0 (Follower.votable_time_from_now enabled now n.follower_lease))) [
                | inl b ↦ rw (a, b) (Keeps-refl n)
                | inr b ↦
                    rw (a, b)
                      (cast_vote-Keeps saved_term saved_vote _ pending.candidate_id request.term n)
              ]
        | inr a ↦ rw a (Keeps-refl n)
      ]

  expire_disrupted-Keeps :
      (parse : S → Option P) (request : RequestVoteRequest S) (n : Node P C)
      → Keeps n (expire_disrupted parse request n)
  unfolding expire_disrupted
  expire_disrupted-Keeps parse request n =
      elim (Bool-cases (disrupts parse request.disrupted_leader n)) [
        | inl a ↦ rw (a, expire_disrupted) (record { term_le = omega arith; vote_eq = λ e v. refl })
        | inr a ↦ rw (a, expire_disrupted) (Keeps-refl n)
      ]

  begin_vote_parsed-Keeps :
      (parse : S → Option P) (c : Option P) (request : RequestVoteRequest S) (n : Node P C)
      → Keeps n (begin_vote_parsed parse c request n).0
  unfolding begin_vote_parsed
  begin_vote_parsed-Keeps parse none request n = Keeps-refl n
  begin_vote_parsed-Keeps parse (some c) request n =
      elim (Bool-cases (ltb request.term (expire_disrupted parse request n).current_term)) [
        | inl a ↦ rw a (expire_disrupted-Keeps parse request n)
        | inr a ↦ rw a (expire_disrupted-Keeps parse request n)
      ]

  pub begin_request_vote-Keeps :
      (parse : S → Option P) (request : RequestVoteRequest S) (n : Node P C)
      → Keeps n (begin_request_vote parse request n).0
  unfolding begin_request_vote
  begin_request_vote-Keeps parse request n = elim (Bool-cases (is_active_state n.state)) [
    | inl a ↦ rw a (begin_vote_parsed-Keeps parse (parse request.server_id) request n)
    | inr a ↦ rw a (Keeps-refl n)
  ]
