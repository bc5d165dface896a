-- ===== src/Accounts/Access.antt =====
-- Whose requests are let through.
use pulse_keeper.Prelude.{
  ==_iff, Option, Option-cases, Text, ap, find, find-holds, inl, inr, none, refl, some, sym, ℕ,
  ◌==◌, ◌↔◌, ◌∙◌, ◌≡◌,
}
use pulse_keeper.Async.{Result, from_result, ret, returned, run, thrown, ◌>>=◌}
use pulse_keeper.Web.{
  VerifyReply, text_payload, token_expired, token_invalid, verified, verify_failed,
}
use pulse_keeper.Store.{Config, User, World}
use pulse_keeper.Store.Calls.{IsReliable, found_or, pass_time, query, run-db_call_then}
use pulse_keeper.Accounts.{no_account}
use pulse_keeper.Accounts.Sessions.{
  AuthTokenPayload, AuthUser, Request, extract_token, find_user, judge_token, no_token,
  require_auth, verify_auth_token, verify_options,
}

module _ (config : Config) (w : World) where
  -- The token stands for this user at this moment.
  abbrev pub Verifies : Text → ℕ → Type 0
  Verifies token subject =
      (email : Text) × (config.auth.verify config.jwt_secret (w.env.clock w.moment)
          (verify_options config) token
        ≡ verified (some subject) email)

  -- What it takes to be let through as this user.
  abbrev pub IsAuthentic : Request → AuthUser → Type 0
  IsAuthentic request principal =
      (token : Text) × (extract_token request ≡ some token)
      × Verifies token principal.id
      × (stored : User) × (find (λ u. u.id == principal.id) w.db.users ≡ some stored)
      × (principal ≡ record { id = stored.id; email = stored.email; name = stored.name })

  abbrev principal_of : User → AuthUser
  principal_of u = record { id = u.id; email = u.email; name = u.name }

  abbrev judged : Option User → Result AuthUser
  judged none = thrown no_account
  judged (some u) = returned (principal_of u)

  abbrev decided : Result AuthTokenPayload → Result AuthUser
  decided (thrown e) = thrown e
  decided (returned payload) = judged (find (λ u. u.id == payload.subject) w.db.users)

  abbrev verdict : Text → Result AuthTokenPayload
  verdict token =
      judge_token
        (config.auth.verify config.jwt_secret (w.env.clock w.moment) (verify_options config) token)

  run-judged :
      (o : Option User) (v : World)
      → (run (◌>>=◌ {B = AuthUser} (found_or no_account o) (λ u. ret (principal_of u))) v).0
        ≡ judged o
  unfolding run ◌>>=◌
  run-judged none v = refl
  run-judged (some u) v = refl

  run-decided :
      (r : Result AuthTokenPayload)
      → IsReliable w
      → (run (◌>>=◌ {B = AuthUser} (from_result r) (find_user config)) (pass_time w)).0 ≡ decided r
  unfolding run ◌>>=◌ find_user query
  run-decided (thrown e) reliable = refl
  run-decided (returned payload) reliable =
      ap (λ r. r.0)
        (run-db_call_then (λ d. d) (λ d. ret (find (λ u. u.id == payload.subject) d.users)) _
          (pass_time w) reliable)
      ∙ run-judged (find (λ u. u.id == payload.subject) w.db.users) _

  run-require_auth :
      (request : Request) (o : Option Text)
      → IsReliable w
      → extract_token request ≡ o
      → (run (require_auth config request) w).0
        ≡ elim o [ none ↦ thrown no_token | some token ↦ decided (verdict token) ]
  unfolding require_auth verify_auth_token run ◌>>=◌
  run-require_auth request none reliable e = rw e refl
  run-require_auth request (some token) reliable e = rw e (run-decided (verdict token) reliable)

  judge_token-returned :
      (v : VerifyReply) (payload : AuthTokenPayload)
      → judge_token v ≡ returned payload
      → v ≡ verified (some payload.subject) payload.email
  unfolding judge_token
  judge_token-returned (verified none email) payload h = cc
  judge_token-returned (verified (some subject) email) payload h =
      let same : record { subject = subject; email = email } ≡ payload = cc in rw (← same) refl
  judge_token-returned text_payload payload h = cc
  judge_token-returned token_expired payload h = cc
  judge_token-returned token_invalid payload h = cc
  judge_token-returned (verify_failed e) payload h = cc

  judged-returned :
      (o : Option User) (principal : AuthUser)
      → judged o ≡ returned principal
      → (stored : User) × (o ≡ some stored) × (principal ≡ principal_of stored)
  judged-returned none principal h = cc
  judged-returned (some u) principal h =
      let same : principal_of u ≡ principal = cc in (u, refl, sym same)

  token_sound :
      (token : Text) (r : Result AuthTokenPayload) (principal : AuthUser)
      → verdict token ≡ r
      → decided r ≡ returned principal
      → Verifies token principal.id
        × ((stored : User) × (find (λ u. u.id == principal.id) w.db.users ≡ some stored)
            × (principal ≡ principal_of stored))
  token_sound token (thrown e) principal v h = cc
  token_sound token (returned payload) principal v h =
      let (stored, found, same) = judged-returned _ principal h in
      let hit : stored.id ≡ payload.subject =
        (==_iff stored.id payload.subject).0
          (find-holds (λ u. u.id == payload.subject) w.db.users stored found) in
      let id_same : principal.id ≡ payload.subject = ap (λ p. p.id) same ∙ hit in
      let stored_there : find (λ u. u.id == principal.id) w.db.users ≡ some stored =
        ap (λ i. find (λ (u : User). u.id == i) w.db.users) id_same ∙ found in
      (
        (payload.email, judge_token-returned _ payload v ∙ rw id_same refl),
        (stored, stored_there, same),
      )

  token_complete :
      (token : Text) (principal : AuthUser) (stored : User)
      → Verifies token principal.id
      → find (λ u. u.id == principal.id) w.db.users ≡ some stored
      → principal ≡ principal_of stored
      → decided (verdict token) ≡ returned principal
  unfolding judge_token
  token_complete token principal stored v found same = rw (v.1, found) (ap returned (sym same))

  -- In a world whose database answers: a request is let through as a user exactly if it carries a
  -- token that jsonwebtoken verifies now, with the server's secret and the pinned algorithm, issuer
  -- and audience, for a user who is still stored; the principal has that user's stored name and email.
  pub require_auth_iff :
      (request : Request) (principal : AuthUser)
      → IsReliable w
      → ((run (require_auth config request) w).0 ≡ returned principal)
        ↔ IsAuthentic request principal
  require_auth_iff request principal reliable = elim (Option-cases (extract_token request)) [
    | inl e ↦
        let outcome = run-require_auth request none reliable e in
        (
          λ h. let refused : thrown no_token ≡ returned principal = sym outcome ∙ h in cc,
          λ p. let there_is = p.1 in cc,
        )
    | inr (token, e) ↦
        let outcome = run-require_auth request (some token) reliable e in
        (
          λ h.
              let (verifies, (stored, found, same)) =
                token_sound token (verdict token) principal refl (sym outcome ∙ h) in
              (token, e, verifies, stored, found, same),
          λ (t, there_is, verifies, stored, found, same).
              let one_token : token ≡ t = cc in
              outcome ∙ token_complete token principal stored (rw one_token verifies) found same,
        )
  ]
