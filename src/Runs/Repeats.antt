-- ===== src/Runs/Repeats.antt =====
-- Repeated requests: store_idempotency.py and its two uses in service/flows/.
use mathlib.Core.Option
use orchestra_threads.Prelude.{
  ℕ, ◌≡◌, refl, ap, sym, ◌∙◌, false, Option, none, some, inl, inr, Bool-cases, Option-cases,
  Result-cases, Error, Result, ok, err, pure, is_some, subst, ◌>>=◌, ◌>>◌,
}
use orchestra_threads.Text.{Text, eq_refl}
use orchestra_threads.Sql.{fetchrow, exists_row}
use orchestra_threads.Sql.Laws.{fetchrow-append, exists_row-eq-is_some}
use orchestra_threads.Rows.{Db, Response, EventKind, IdempotencyKey, message}
use orchestra_threads.Requests.{MessageRequest}
use orchestra_threads.Store.Agents.{get_agent, has_slug}
use orchestra_threads.Store.Idempotency.{has_key, get_idempotent_result, save_idempotent_result}
use orchestra_threads.Service.Config.{Config}
use orchestra_threads.Service.Message.{
  NewIds, build_message_response, answer, send_message_with_lock_context,
}
use orchestra_threads.Service.Routing.{ensure_peer_allowed}
use orchestra_threads.Runs.Aside.{Aside, aside_build}

-- A key that was free is answered by the response that is saved under it.
saved_found :
    (from id : Text) (kind : EventKind) (response : Response) (now : ℕ) (db : Db)
    → get_idempotent_result db from id ≡ none
    → get_idempotent_result (save_idempotent_result from id kind response now db).1 from id
      ≡ some response
unfolding get_idempotent_result save_idempotent_result
saved_found from id kind response now db free =
    let absent : is_some (fetchrow (has_key from id) db.idempotency_keys) ≡ false =
      none_of (fetchrow (has_key from id) db.idempotency_keys) free in
    let taken : exists_row (has_key from id) db.idempotency_keys ≡ false =
      exists_row-eq-is_some (has_key from id) db.idempotency_keys ∙ absent in
    rw (taken, fetchrow-append, absent, eq_refl from, eq_refl id) refl
  where
    none_of :
        (o : Option IdempotencyKey) → Option.map (λ k. k.response_json) o ≡ none → is_some o ≡ false
    none_of none h = refl
    none_of (some k) h = cc

module _ (config : Config) (ids : NewIds) (now : ℕ) where
  -- The end of a message request: the response is saved, or an error is raised.
  abbrev end_of : MessageRequest → Result Response × Db → Result Response × Db
  end_of r (ok response, v) = (
    ok response,
    (save_idempotent_result r.from_agent_slug r.client_request_id message response now v).1,
  )
  end_of r (err e, v) = (err e, v)

  answer-eq :
      (r : MessageRequest) (db : Db)
      → answer config ids now r none db ≡ end_of r (build_message_response config ids now r db)
  unfolding save_idempotent_result
  answer-eq r db = by (build_message_response config ids now r db)
    where
      by :
          (out : Result Response × Db)
          → ((λ (u : Db). out) >>= (λ response.
                save_idempotent_result r.from_agent_slug r.client_request_id message response now
                >> pure response))
              db
            ≡ end_of r out
      by (ok response, v) = refl
      by (err e, v) = refl

allowed_by : Db → MessageRequest → Result (Unit {0})
allowed_by db r =
    ensure_peer_allowed (get_agent db r.from_agent_slug) r.from_agent_slug r.to_agent_slug

allowed_by-agents :
    (db u : Db) (r : MessageRequest) → u.agents ≡ db.agents → allowed_by u r ≡ allowed_by db r
unfolding allowed_by get_agent
allowed_by-agents db u r same =
    ap
      (λ agents.
        ensure_peer_allowed (fetchrow (has_slug r.from_agent_slug) agents) r.from_agent_slug
          r.to_agent_slug)
      same

known-Aside :
    {db u : Db} (from id : Text)
    → Aside db u
    → get_idempotent_result u from id ≡ get_idempotent_result db from id
unfolding get_idempotent_result
known-Aside from id h =
    ap (λ keys. Option.map (λ k. k.response_json) (fetchrow (has_key from id) keys)) h.keys

saved-agents :
    (from id : Text) (kind : EventKind) (response : Response) (now : ℕ) (db : Db)
    → (save_idempotent_result from id kind response now db).1.agents ≡ db.agents
unfolding save_idempotent_result
saved-agents from id kind response now db =
    elim (Bool-cases (exists_row (has_key from id) db.idempotency_keys)) [
      | inl e ↦ rw e refl
      | inr e ↦ rw e refl
    ]

module _ (config : Config) (ids : NewIds) (now : ℕ) (r : MessageRequest) where
  refused_send :
      (e : Error) (db : Db)
      → allowed_by db r ≡ err e
      → send_message_with_lock_context config ids now r db ≡ (err e, db)
  unfolding send_message_with_lock_context allowed_by
  refused_send e db h = rw h refl

  allowed_send :
      (db : Db)
      → allowed_by db r ≡ ok tt
      → send_message_with_lock_context config ids now r db
        ≡ answer config ids now r
            (get_idempotent_result db r.from_agent_slug r.client_request_id)
            db
  unfolding send_message_with_lock_context allowed_by
  allowed_send db h = rw h refl

  -- A stored response is returned, and nothing is written.
  known_send :
      (response : Response) (db : Db)
      → allowed_by db r ≡ ok tt
      → get_idempotent_result db r.from_agent_slug r.client_request_id ≡ some response
      → send_message_with_lock_context config ids now r db ≡ (ok response, db)
  known_send response db h k = allowed_send db h ∙ rw k refl

  -- After a request that succeeds, the sender may still write, and the response is stored.
  Stored : Response → Db → Type 0
  Stored response u =
      (allowed_by u r ≡ ok tt)
      × (get_idempotent_result u r.from_agent_slug r.client_request_id ≡ some response)

  StoredAfter : Result Response × Db → Type 0
  StoredAfter (ok response, u) = Stored response u
  StoredAfter (err e, u) = ⊥

  built-Stored :
      (db : Db) (out : Result Response × Db) (response : Response) (u : Db)
      → Aside db out.1
      → allowed_by db r ≡ ok tt
      → get_idempotent_result db r.from_agent_slug r.client_request_id ≡ none
      → end_of config ids now r out ≡ (ok response, u)
      → Stored response u
  unfolding Stored StoredAfter
  built-Stored db (err e, v) response u a h k q = absurd (cc)
  built-Stored db (ok x, v) response u a h k q = subst StoredAfter q (
    allowed_by-agents db _ r
          (saved-agents r.from_agent_slug r.client_request_id message x now v ∙ a.agents)
        ∙ h,
    saved_found r.from_agent_slug r.client_request_id message x now v
        (known-Aside r.from_agent_slug r.client_request_id a ∙ k),
  )

  success-Stored :
      (response : Response) (db u : Db)
      → send_message_with_lock_context config ids now r db ≡ (ok response, u)
      → Stored response u
  unfolding Stored StoredAfter
  success-Stored response db u h = elim (Result-cases (allowed_by db r)) [
    | inr (e, k) ↦ absurd (cc (h, refused_send e db k))
    | inl (passed, k) ↦
        elim (Option-cases (get_idempotent_result db r.from_agent_slug r.client_request_id)) [
          | inr (x, known) ↦ subst StoredAfter (sym (known_send x db k known) ∙ h) (k, known)
          | inl free ↦
              built-Stored db (build_message_response config ids now r db) response u
                ((aside_build config ids now r).at db) k free
                (sym (allowed_send db k ∙ rw free (answer-eq config ids now r db)) ∙ h)
        ]
  ]

-- A message request that has succeeded and is made again, at any later time, with the store that the
-- first one left, returns the response of the first one and writes nothing.
pub message_repeats :
    (config : Config) (ids ids' : NewIds) (now now' : ℕ) (r : MessageRequest) (response : Response)
    (db u : Db)
    → send_message_with_lock_context config ids now r db ≡ (ok response, u)
    → send_message_with_lock_context config ids' now' r u ≡ (ok response, u)
unfolding Stored
message_repeats config ids ids' now now' r response db u h =
    let (k, known) = success-Stored config ids now r response db u h in
    known_send config ids' now' r response u k known
