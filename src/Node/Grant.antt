-- ===== src/Node/Grant.antt =====
-- What a granted vote is worth.
use quorumkit.Prelude.{
  ℕ, ◌+◌, ◌≡◌, ◌⊎◌, refl, sym, ap, ◌∙◌, inl, inr, Bool, true, false, ◌&&◌, ltb, ◌==◌, arith,
  Bool-cases,
}
use quorumkit.Errno.{ehigher_term_request, evote_for_candidate}
use quorumkit.Peer.{PeerOrder}
use quorumkit.Peer.Order.{peer_eq_sym, eq_of_eq_left}
use quorumkit.LogEntry.{LogId, id_ge}
use quorumkit.Lease.Follower
use quorumkit.Node.{Node, is_active_state, set_term_and_votedfor}
use quorumkit.Node.StepDown.{raise_term, step_down}
use quorumkit.Node.Same.{step_down-Same}
use quorumkit.Node.OneVote.{Keeps-trans, end_request_vote-Keeps}
use quorumkit.ConfigurationManager.{contains}
use quorumkit.Node.Election.{start_elect}
use quorumkit.Node.Quorum.{started}
use quorumkit.Node.Steps.{Run, Run-Keeps, Runs, kept_by}
use quorumkit.Node.VoteRequest.{
  RequestVoteRequest, Pending, response_to, save_vote, adopt_term, vote_for, cast_vote,
  end_request_vote,
}

module _ {P : Type 0} ⦃o : PeerOrder P⦄ where
  not_empty : (a c : P) → o.peer_eq a c ≡ true → o.is_empty c ≡ false → o.is_empty a ≡ false
  not_empty a c h e =
      ground (arith, o.is_empty_eq a, o.is_empty_eq c, eq_of_eq_left a c o.empty_peer h)

  common : (v a b : P) → o.peer_eq v a ≡ true → o.peer_eq v b ≡ true → o.peer_eq a b ≡ true
  common v a b h k = sym (eq_of_eq_left v a b h) ∙ k

  empty_differs : (c : P) → o.is_empty c ≡ false → o.peer_eq o.empty_peer c ≡ false
  empty_differs c e = ground (arith, o.is_empty_eq c, peer_eq_sym c o.empty_peer)

module _ {P C : Type 0} ⦃o : PeerOrder P⦄ where
  -- Taking over a higher term leaves the node as it is, or without a vote.
  adopted :
      (saved : Bool) (term : ℕ) (n : Node P C)
      → ((adopt_term saved term n).0 ≡ n) ⊎ ((adopt_term saved term n).0.voted_id ≡ o.empty_peer)
  unfolding adopt_term raise_term set_term_and_votedfor
  adopted saved term n = elim (Bool-cases (ltb n.current_term term)) [
    | inl a ↦ elim (Bool-cases (is_active_state n.state)) [
      | inl b ↦
          let s = step_down-Same saved term false ehigher_term_request n b in
          inr (rw (a, adopt_term) (s.voted_eq ∙ ground arith))
      | inr b ↦ inl (rw (a, adopt_term) (unfold step_down in rw b refl))
    ]
    | inr a ↦ inl (rw (a, adopt_term) refl)
  ]

  -- What a vote for `c` in the term rests on.
  abbrev Worth : Bool → Bool → P → ℕ → Node P C → Node P C → Type 0
  Worth saved log_is_ok c term n after =
      ((n.current_term ≡ term) × (o.peer_eq n.voted_id c ≡ true))
      ⊎ ((log_is_ok ≡ true) × (saved ≡ true) × (after.meta ≡ record { term = term; votedfor = c }))

  saved-Worth :
      (saved : Bool) (c : P) (term : ℕ) (n k : Node P C)
      → o.is_empty c ≡ false
      → (save_vote saved c k).current_term ≡ term
      → o.peer_eq (save_vote saved c k).voted_id c ≡ true
      → Worth saved true c term n (save_vote saved c k)
  unfolding save_vote set_term_and_votedfor
  saved-Worth true c term n k e at h = inr (refl, refl, rw at refl)
  saved-Worth false c term n k e at h = absurd (ground (arith, empty_differs c e))

  no_new_vote :
      (sv log_is_ok : Bool) (c : P) (term : ℕ) (n m : Node P C)
      → o.is_empty c ≡ false
      → (m ≡ n) ⊎ (m.voted_id ≡ o.empty_peer)
      → m.current_term ≡ term
      → o.peer_eq m.voted_id c ≡ true
      → Worth sv log_is_ok c term n m
  no_new_vote sv log_is_ok c term n m e (inl q) at h =
      inl (ap (λ k. k.current_term) (sym q) ∙ at, ap (λ k. o.peer_eq k.voted_id c) (sym q) ∙ h)
  no_new_vote sv log_is_ok c term n m e (inr q) at h =
      absurd (ground (arith, empty_differs c e, ap (λ v. o.peer_eq v c) q))

  vote-Worth :
      (st sv log_is_ok : Bool) (c : P) (term : ℕ) (n m : Node P C)
      → o.is_empty c ≡ false
      → (m ≡ n) ⊎ (m.voted_id ≡ o.empty_peer)
      → (vote_for st sv log_is_ok c term m).0.current_term ≡ term
      → o.peer_eq (vote_for st sv log_is_ok c term m).0.voted_id c ≡ true
      → Worth sv log_is_ok c term n (vote_for st sv log_is_ok c term m).0
  unfolding vote_for
  vote-Worth st sv false c term n m e q = no_new_vote sv false c term n m e q
  vote-Worth st sv true c term n m e q = elim (Bool-cases (o.is_empty m.voted_id)) [
    | inl a ↦
        rw (a, vote_for)
          (saved-Worth sv c term n (step_down st term false evote_for_candidate m).0 e)
    | inr a ↦ rw (a, vote_for) (no_new_vote sv true c term n m e q)
  ]

  cast-Worth :
      (st sv log_is_ok : Bool) (c : P) (term : ℕ) (n : Node P C)
      → o.is_empty c ≡ false
      → (cast_vote st sv log_is_ok c term n).0.current_term ≡ term
      → o.peer_eq (cast_vote st sv log_is_ok c term n).0.voted_id c ≡ true
      → Worth sv log_is_ok c term n (cast_vote st sv log_is_ok c term n).0
  unfolding cast_vote
  cast-Worth st sv log_is_ok c term n e at h =
      vote-Worth st sv log_is_ok c term n _ e (adopted st term n) at h

module _ {P C S : Type 0} ⦃o : PeerOrder P⦄ where
  answers :
      (st sv en : Bool) (now : ℕ) (last : LogId) (p : Pending P) (request : RequestVoteRequest S)
      → (n : Node P C)
      → (end_request_vote st sv en now last p request n).1.granted ≡ (
          request.term == (end_request_vote st sv en now last p request n).0.0.current_term
          && o.peer_eq (end_request_vote st sv en now last p request n).0.0.voted_id p.candidate_id)
  unfolding end_request_vote response_to
  answers st sv en now last p request n = elim (Bool-cases (p.previous_term == n.current_term)) [
    | inl a ↦ elim (Bool-cases (ltb 0 (Follower.votable_time_from_now en now n.follower_lease))) [
      | inl b ↦ rw (a, b, end_request_vote) refl
      | inr b ↦ rw (a, b, end_request_vote) refl
    ]
    | inr a ↦ rw (a, end_request_vote) refl
  ]

  -- A vote that is granted is the one that the node holds, in the term of the request.
  granted_held :
      (st sv en : Bool) (now : ℕ) (last : LogId) (p : Pending P) (request : RequestVoteRequest S)
      → (n : Node P C) → (end_request_vote st sv en now last p request n).1.granted ≡ true
      → ((end_request_vote st sv en now last p request n).0.0.current_term ≡ request.term)
        × (o.peer_eq (end_request_vote st sv en now last p request n).0.0.voted_id p.candidate_id
            ≡ true)
  granted_held st sv en now last p request n h =
      held (request.term) _ _ (sym (answers st sv en now last p request n) ∙ h)
    where
      held : (a b : ℕ) (c : Bool) → (a == b && c) ≡ true → (b ≡ a) × (c ≡ true)
      held a b c h = ground arith

  -- What a new vote rests on.
  abbrev pub NewVote :
      Bool → ℕ → LogId → Pending P → RequestVoteRequest S → Node P C → Node P C → Type 0
  NewVote en now last p request n after =
      (p.previous_term ≡ n.current_term)
      × (id_ge request.last_log_id last ≡ true)
      × (Follower.votable_time_from_now en now n.follower_lease ≡ 0)
      × (after.meta ≡ record { term = request.term; votedfor = p.candidate_id })

  new_vote :
      (sv en : Bool) (now : ℕ) (last : LogId) (p : Pending P) (request : RequestVoteRequest S)
      → (n after : Node P C) → p.previous_term == n.current_term ≡ true
      → ltb 0 (Follower.votable_time_from_now en now n.follower_lease) ≡ false
      → Worth sv (id_ge request.last_log_id last) p.candidate_id request.term n after
      → ((n.current_term ≡ request.term) × (o.peer_eq n.voted_id p.candidate_id ≡ true))
        ⊎ NewVote en now last p request n after
  new_vote sv en now last p request n after a b (inl held) = inl held
  new_vote sv en now last p request n after a b (inr (log_ok, saved, stored)) =
      inr (ground arith, log_ok, ground arith, stored)

  end_worth :
      (st sv en : Bool) (now : ℕ) (last : LogId) (p : Pending P) (request : RequestVoteRequest S)
      → (n : Node P C) → o.is_empty p.candidate_id ≡ false
      → (end_request_vote st sv en now last p request n).0.0.current_term ≡ request.term
      → o.peer_eq (end_request_vote st sv en now last p request n).0.0.voted_id p.candidate_id
        ≡ true
      → ((n.current_term ≡ request.term) × (o.peer_eq n.voted_id p.candidate_id ≡ true))
        ⊎ NewVote en now last p request n (end_request_vote st sv en now last p request n).0.0
  unfolding end_request_vote
  end_worth st sv en now last p request n e =
      elim (Bool-cases (p.previous_term == n.current_term)) [
        | inl a ↦
            elim (Bool-cases (ltb 0 (Follower.votable_time_from_now en now n.follower_lease))) [
              | inl b ↦ rw (a, b, end_request_vote) (λ at held. inl (at, held))
              | inr b ↦ rw (a, b, end_request_vote) (λ at held. cast a b at held)
            ]
        | inr a ↦ rw (a, end_request_vote) (λ at held. inl (at, held))
      ]
    where
      cast :
          p.previous_term == n.current_term ≡ true
          → ltb 0 (Follower.votable_time_from_now en now n.follower_lease) ≡ false
          → (cast_vote st sv
              (id_ge request.last_log_id last)
              p.candidate_id
              request.term
              n).0.current_term
            ≡ request.term
          → o.peer_eq
              (cast_vote st sv
                (id_ge request.last_log_id last)
                p.candidate_id
                request.term
                n).0.voted_id
              p.candidate_id
            ≡ true
          → ((n.current_term ≡ request.term) × (o.peer_eq n.voted_id p.candidate_id ≡ true))
            ⊎ NewVote en now last p request n
                (cast_vote st sv (id_ge request.last_log_id last) p.candidate_id request.term n).0
      cast a b at held =
          new_vote sv en now last p request n
            (cast_vote st sv (id_ge request.last_log_id last) p.candidate_id request.term n).0 a b
            (cast-Worth st sv (id_ge request.last_log_id last) p.candidate_id request.term n e at
              held)

  -- A vote granted to a candidate with an address is either the vote that the node already held in
  -- the request's term, or a new one: then the term was not raised during the wait, the candidate's
  -- log is at least as up-to-date, the follower lease is over, and the meta storage holds the term and
  -- the vote. In both cases the node ends in the request's term with that vote.
  pub granted_vote_lem :
      (st sv en : Bool) (now : ℕ) (last : LogId) (p : Pending P) (request : RequestVoteRequest S)
      → (n : Node P C) → o.is_empty p.candidate_id ≡ false
      → (end_request_vote st sv en now last p request n).1.granted ≡ true
      → ((end_request_vote st sv en now last p request n).0.0.current_term ≡ request.term)
        × (o.peer_eq (end_request_vote st sv en now last p request n).0.0.voted_id p.candidate_id
            ≡ true)
        × (((n.current_term ≡ request.term) × (o.peer_eq n.voted_id p.candidate_id ≡ true))
            ⊎ NewVote en now last p request n (end_request_vote st sv en now last p request n).0.0)
  granted_vote_lem st sv en now last p request n e g =
      let (at, held) = granted_held st sv en now last p request n g in
      (at, held, end_worth st sv en now last p request n e at held)

  -- If a node grants a vote to a candidate with an address, then takes any steps of `Run`, in which
  -- no write of its own vote in `elect_self` fails, and then grants a vote in the same term, the
  -- two candidates are equal.
  pub one_vote_per_term :
      (st sv en : Bool) (now : ℕ) (last : LogId) (p : Pending P) (request : RequestVoteRequest S)
      → (n m : Node P C) → (st' sv' en' : Bool) (now' : ℕ) (last' : LogId) (p' : Pending P)
      → (request' : RequestVoteRequest S) → o.is_empty p.candidate_id ≡ false
      → (end_request_vote st sv en now last p request n).1.granted ≡ true
      → Run S (end_request_vote st sv en now last p request n).0.0 m
      → (end_request_vote st' sv' en' now' last' p' request' m).1.granted ≡ true
      → request'.term ≡ request.term
      → o.peer_eq p.candidate_id p'.candidate_id ≡ true
  one_vote_per_term st sv en now last p request n m st' sv' en' now' last' p' request' e g run g'
        t =
      let first = granted_held st sv en now last p request n g in
      let second = granted_held st' sv' en' now' last' p' request' m g' in
      let later = Run-Keeps run in
      let again = end_request_vote-Keeps st' sv' en' now' last' p' request' m in
      let kept = Keeps-trans later again in
      let same = kept.vote_eq (second.0 ∙ t ∙ sym first.0) (not_empty _ p.candidate_id first.1 e) in
      common _ p.candidate_id p'.candidate_id first.1 (rw⁻¹ same second.1)

  -- A node of the configuration that starts an election in the next term, and then takes any steps
  -- in which no write of its own vote in `elect_self` fails, grants no vote in that term but to its
  -- own name.
  pub own_vote_lem :
      (stepped_down : Bool) (n m : Node P C)
      → (st sv en : Bool) (now : ℕ) (last : LogId) (p : Pending P) (request : RequestVoteRequest S)
      → contains n.conf n.server_id ≡ true
      → o.is_empty n.server_id ≡ false
      → Runs S 0 (start_elect stepped_down n).0.0 m
      → (end_request_vote st sv en now last p request m).1.granted ≡ true
      → request.term ≡ n.current_term + 1
      → o.peer_eq n.server_id p.candidate_id ≡ true
  own_vote_lem stepped_down n m st sv en now last p request c e run g t =
      let (at, held) = granted_held st sv en now last p request m g in
      let (term, vote) = started stepped_down n c in
      let kept =
        Keeps-trans (kept_by run refl) (end_request_vote-Keeps st sv en now last p request m) in
      let own = kept.vote_eq (at ∙ t ∙ sym term) (ap o.is_empty vote ∙ e) ∙ vote in
      ap (λ v. o.peer_eq v p.candidate_id) (sym own) ∙ held
