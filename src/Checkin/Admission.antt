-- ===== src/Checkin/Admission.antt =====
-- CheckinService::handle_checkin_request and validate_client_request: the conditions that a check-in
-- request meets where it makes its voter pending.
use pollbook_server.Prelude.{
  ◌≡◌, refl, sym, ap, ◌∙◌, ◌≢◌, ◌⊎◌, inl, inr, ℕ, Bool, true, false, Option, none, some, arith,
  ◌==◌, nat_eq, text_eq, Option-cases, Bool-cases, nat_beq_iff,
}
use pollbook_server.Map.{lookup, lookup-insert}
use pollbook_server.Freshness.{is_stale}
use pollbook_server.Run.{
  Run, done, or_throw, Ensures, Ensures-bind, Ensures-if, Ensures-map, Ensures-eq, or_throw-eq-done,
}
use pollbook_server.External.{External}
use pollbook_server.Signature.{verify_text, Verifier}
use pollbook_server.Messages.VoterId.{id_statement}
use pollbook_server.Messages.Checkin.{CheckinRequest, checkin_body_to_json}
use pollbook_server.Checkin.State.{
  VoterStatus, eligible, pending, checked_in, Service, Settings, Ambient, Endpoint, emit, fault,
  id_of, touch_id, ensure_verifier,
}
use pollbook_server.Checkin.Requests.{
  start_timer, validate_claims, validate_id_signature, validate_client_request, mark, mark_pending,
  consider, checkin_identified, handle_checkin_request,
}
use pollbook_server.Checkin.Refines.Phase1.{
  Keeps, ensure_verifier-Keeps, answer-Keeps, validate-Keeps,
}

-- What validate_client_request tests of a request, in the state `s`.
pub record IsValid (x : External) (st : Settings) (a : Ambient) (r : CheckinRequest) (s : Service)
    : Type 0 where
  pub verifier : Verifier
  pub is_verifier : lookup r.body.client_id_num s.client_verifiers ≡ some verifier
  -- the client signed the body
  pub signed :
      verify_text x (x.dump (checkin_body_to_json x r.body)) r.client_signature verifier ≡ done true
  -- the ID service signed the presented ID and the voter's number
  pub id_signed :
      verify_text x
        (x.dump (
          id_statement x r.body.verified_id_message.presented_id
            r.body.verified_id_message.voter_unique_id))
        r.body.verified_id_message.id_service_signature
        s.id_service_verifier
      ≡ done true
  -- the voter claimed is the voter verified
  pub same_voter : (r.body.voter_unique_id == r.body.verified_id_message.voter_unique_id) ≡ true
  pub fresh : is_stale a.now r.body.timestamp st.request_freshness_interval ≡ false

-- Every condition that a check-in request has to meet.
pub record Admits (x : External) (st : Settings) (a : Ambient) (ip : Endpoint) (r : CheckinRequest)
    (s : Service) : Type 0 where
  -- the kiosk is who its certificate says
  pub named : r.body.client_id_num ≡ id_of ip s
  -- its key is in memory or can be loaded
  pub keyed : Service
  pub has_key : ensure_verifier a r.body.client_id_num (touch_id ip s) ≡ some keyed
  pub valid : IsValid x st a r keyed
  -- the voter is registered, and no check-in has begun
  pub is_eligible : lookup r.body.voter_unique_id s.voter_status_table ≡ some eligible

module _ (x : External) (st : Settings) (a : Ambient) where
  claims_hold :
      (r : CheckinRequest) (s : Service)
      → (validate_claims x st a r s).1 ≡ true
      → ((r.body.voter_unique_id == r.body.verified_id_message.voter_unique_id) ≡ true)
        × (is_stale a.now r.body.timestamp st.request_freshness_interval ≡ false)
  unfolding validate_claims
  claims_hold r s h = (ground arith, ground arith)

  validate-IsValid :
      (r : CheckinRequest) (s : Service)
      → Ensures (λ p. p.1 ≡ true → IsValid x st a r s) (validate_client_request x st a r s)
  unfolding validate_client_request validate_id_signature
  validate-IsValid r s =
      let P : Service × Bool → Type 0 = λ p. p.1 ≡ true → IsValid x st a r s in
      Ensures-bind P (or_throw (lookup r.body.client_id_num s.client_verifiers)) _ λ verifier found.
        Ensures-bind P (verify_text x _ r.client_signature verifier) _ λ ok verified.
          Ensures-if P ok _ _
            (λ is_ok.
              Ensures-bind P (verify_text x _ _ s.id_service_verifier) _ λ id_ok id_verified.
                Ensures-if P id_ok _ _
                  (λ is_id_ok h.
                    let (same, fresh) = claims_hold r s h in
                    record {
                      verifier = verifier;
                      is_verifier = or_throw-eq-done _ verifier found;
                      signed = verified ∙ ap done is_ok;
                      id_signed = id_verified ∙ ap done is_id_ok;
                      same_voter = same;
                      fresh = fresh;
                    })
                  (λ _ h. cc))
            (λ _ h. cc)

  mark_others :
      (u v : ℕ) (status : Option VoterStatus) (s : Service)
      → lookup u s.voter_status_table ≡ status
      → (lookup v (mark x st a u status s).0.voter_status_table ≡ lookup v s.voter_status_table)
        ⊎ ((u ≡ v) × (lookup u s.voter_status_table ≡ some eligible))
  unfolding mark start_timer emit
  mark_others u v (some eligible) s e = elim (Bool-cases (u == v)) [
    | inl hit ↦ inr ((nat_beq_iff u v).0 hit, e)
    | inr miss ↦ inl (lookup-insert u v pending s.voter_status_table ∙ rw miss)
  ]
  mark_others u v (some pending) s e = inl refl
  mark_others u v (some checked_in) s e = inl refl
  mark_others u v none s e = inl refl

module _ (x : External) (st : Settings) (a : Ambient) (ip : Endpoint) (r : CheckinRequest)
    (s : Service) (v : ℕ) where
  -- The voter `v` is as before, or is the request's voter, and the request meets every condition.
  abbrev Admitted : Service → Type 0
  Admitted t =
      (lookup v t.voter_status_table ≡ lookup v s.voter_status_table)
      ⊎ ((r.body.voter_unique_id ≡ v) × Admits x st a ip r s)

  kept : (m : Run Service) (s1 : Service) → Keeps s s1 → Ensures (Keeps s1) m → Ensures Admitted m
  kept m s1 k =
      Ensures-map (Keeps s1) Admitted m (λ t h. inl (ap (λ b. lookup v b.statuses) (h ∙ k)))

  consider_cases :
      (s1 : Service) (ok : Bool)
      → Keeps s s1
      → (ok ≡ true
          → lookup r.body.voter_unique_id s.voter_status_table ≡ some eligible
          → Admits x st a ip r s)
      → Ensures Admitted (consider x st a ip r (s1, ok))
  unfolding consider mark_pending
  consider_cases s1 true k admits =
      let u : ℕ = r.body.voter_unique_id in
      let marked = mark_pending x st a u s1 in
      Ensures-map (Keeps marked.0) Admitted _
        (λ t h. elim (mark_others x st a u v _ s1 refl) [
          | inl same ↦
              inl (ap (λ b. lookup v b.statuses) h ∙ same ∙ ap (λ b. lookup v b.statuses) k)
          | inr (e, i) ↦ inr (e, admits refl (ap (λ b. lookup u b.statuses) (sym k) ∙ i))
        ])
        (answer-Keeps x st a ip r marked.1 marked.0)
  consider_cases s1 false k admits = kept _ s1 k (answer-Keeps x st a ip r false s1)

  identified_cases :
      r.body.client_id_num ≡ id_of ip s
      → Ensures Admitted (checkin_identified x st a ip r (touch_id ip s))
  unfolding checkin_identified touch_id
  identified_cases named =
      elim (Option-cases (ensure_verifier a r.body.client_id_num (touch_id ip s))) [
        | inl e ↦ rw (e, checkin_identified, Ensures) (inl refl)
        | inr (s1, e) ↦
            let k = ensure_verifier-Keeps a r.body.client_id_num (touch_id ip s) s1 e in
            rw (e, checkin_identified, Ensures)
              (Ensures-bind Admitted (validate_client_request x st a r s1) _ λ p h.
                consider_cases p.0 p.1
                  (Ensures-eq (λ q. Keeps s1 q.0) _ p h (validate-Keeps x st a r s1) ∙ k)
                  (λ ok i. record {
                    named = named;
                    keyed = s1;
                    has_key = e;
                    valid =
                        Ensures-eq (λ q. q.1 ≡ true → IsValid x st a r s1) _ p h
                          (validate-IsValid x st a r s1) ok;
                    is_eligible = i;
                  }))
      ]

  checkin_request_cases : Ensures Admitted (handle_checkin_request x st a ip r s)
  unfolding handle_checkin_request touch_id fault
  checkin_request_cases =
      Ensures-if Admitted (r.body.client_id_num == id_of ip s) _ _
        (λ named. identified_cases ((nat_beq_iff r.body.client_id_num (id_of ip s)).0 named))
        (λ _. kept _ s refl (answer-Keeps x st a ip r false _))

  -- A check-in request changes a voter's status only if this is the voter whom the request names,
  -- and the request meets every condition: the kiosk is who its certificate says, its signature on
  -- the body and the ID service's on the identity are valid, the voter claimed is the voter
  -- verified, the time stamp is fresh, and the voter is registered and eligible.
  pub checkin_sound :
      (s' : Service)
      → handle_checkin_request x st a ip r s ≡ done s'
      → lookup v s'.voter_status_table ≢ lookup v s.voter_status_table
      → (r.body.voter_unique_id ≡ v) × Admits x st a ip r s
  checkin_sound s' h changed = elim (Ensures-eq Admitted _ s' h checkin_request_cases) [
    | inl same ↦ absurd (changed same)
    | inr found ↦ found
  ]
