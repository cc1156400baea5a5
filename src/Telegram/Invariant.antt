-- ===== src/Telegram/Invariant.antt =====
-- telegram_bot_listener/state_store.py: `sessions` and `active_session_by_user` agree.
use orchestra_threads.Prelude.{
  ◌≡◌, refl, ap, ◌∙◌, sym, true, false, none, some, [], ◌⊎◌, inl, inr, is_some, Bool-cases,
}
use mathlib.Core.Option
use orchestra_threads.Text.{Text, ◌==◌, eq→path, eq_refl}
use orchestra_threads.Text.Decimal.{str_int}
use orchestra_threads.Dict.{
  Dict, get, put, pop, put-cases, pop-cases, get-put-same, get-put-other, get-pop-other, differ,
}
use orchestra_threads.Telegram.Models.{SurveySession}
use orchestra_threads.Telegram.Sessions.{active_status, completed_status}
use orchestra_threads.Telegram.StateStore.{completed}

-- A session that is open is the one that its user's entry names; one that is not is completed.
abbrev pub Fate : Dict Text → Text → SurveySession → Type 0
Fate active key x =
    (x.session_id ≡ key)
    × (((x.status ≡ active_status)
          × (x.completed_at ≡ none)
          × (get (str_int x.telegram_user_id) active ≡ some key))
        ⊎ ((x.status ≡ completed_status) × (is_some x.completed_at ≡ true)))

-- The session that a user's entry names is there, open, and the user's own.
abbrev pub Named : Dict SurveySession → Text → Text → Type 0
Named sessions user key =
    (x : SurveySession) × (get key sessions ≡ some x)
    × (x.status ≡ active_status)
    × (str_int x.telegram_user_id ≡ user)

pub record IsConsistent (sessions : Dict SurveySession) (active : Dict Text) : Type 0 where
  pub named : (user key : Text) → get user active ≡ some key → Named sessions user key
  pub fate : (key : Text) (x : SurveySession) → get key sessions ≡ some x → Fate active key x

pub empty-IsConsistent : IsConsistent [] []
unfolding get
empty-IsConsistent = record { named = λ u k h. absurd (cc h); fate = λ k x h. absurd (cc h) }

-- What a change of a session in place leaves alone.
pub record SameFate (x y : SurveySession) : Type 0 where
  pub session_id : y.session_id ≡ x.session_id
  pub user : y.telegram_user_id ≡ x.telegram_user_id
  pub status : y.status ≡ x.status
  pub completed_at : y.completed_at ≡ x.completed_at

Fate-same :
    (active : Dict Text) (key : Text) (x y : SurveySession)
    → SameFate x y
    → Fate active key x
    → Fate active key y
Fate-same active key x y f h = rw (f.session_id, f.user, f.status, f.completed_at) h

one_value :
    {A : Type 0} {j k : Text} {a b : A} (d : Dict A)
    → j ≡ k
    → get j d ≡ some a
    → get k d ≡ some b
    → a ≡ b
one_value d e h h' = Option.some_inj.0 (sym h ∙ ap (λ i. get i d) e ∙ h')

equal_not : {j k : Text} → (j == k) ≡ false → j ≡ k → ⊥
equal_not {j} h e = cc (eq_refl j, h, e)

module _ (sessions : Dict SurveySession) (active : Dict Text)
    (c : IsConsistent sessions active) where
  pub edited-IsConsistent :
      (key : Text) (x y : SurveySession)
      → get key sessions ≡ some x
      → SameFate x y
      → IsConsistent (put key y sessions) active
  edited-IsConsistent key x y found f = record {
    named = λ user k h.
        let (z, at, status, owner) = c.named user k h in
        elim (Bool-cases (key == k)) [
          | inl e ↦
              let keys = eq→path key k e in
              let same : x ≡ z = one_value sessions keys found at in
              (
                y,
                ap (λ i. get k (put i y sessions)) keys ∙ get-put-same k y sessions,
                f.status ∙ ap (λ (s : SurveySession). s.status) same ∙ status,
                ap str_int (f.user ∙ ap (λ (s : SurveySession). s.telegram_user_id) same) ∙ owner,
              )
          | inr e ↦ (z, get-put-other k key y sessions e ∙ at, status, owner)
        ];
    fate = λ k z h. elim (put-cases k key y z sessions h) [
      | inl (e, g) ↦ rw (g, ← e) (Fate-same active key x y f (c.fate key x found))
      | inr (e, g) ↦ c.fate k z g
    ];
  }

  pub created-IsConsistent :
      (x : SurveySession)
      → x.status ≡ active_status
      → x.completed_at ≡ none
      → get x.session_id sessions ≡ none
      → get (str_int x.telegram_user_id) active ≡ none
      → IsConsistent
          (put x.session_id x sessions)
          (put (str_int x.telegram_user_id) x.session_id active)
  created-IsConsistent x status unset new free = record {
    named = λ user k h. elim (put-cases user (str_int x.telegram_user_id) x.session_id k active h) [
      | inl (e, g) ↦ (
        x,
        ap (λ i. get i (put x.session_id x sessions)) g ∙ get-put-same x.session_id x sessions,
        status,
        e,
      )
      | inr (e, g) ↦
          let (z, at, status, owner) = c.named user k g in
          (
            z,
            get-put-other k x.session_id x sessions
                  (differ x.session_id k λ same. absurd (cc (new, same, at)))
                ∙ at,
            status,
            owner,
          )
    ];
    fate = λ k z h. elim (put-cases k x.session_id x z sessions h) [
      | inl (e, g) ↦
          rw (g, ← e)
            (
              refl,
              inl (status, unset, get-put-same (str_int x.telegram_user_id) x.session_id active),
            )
      | inr (e, g) ↦
          let (id, fate) = c.fate k z g in
          (
            id,
            elim fate [
              | inr done ↦ inr done
              | inl (s, o, at) ↦ inl (
                s,
                o,
                get-put-other (str_int z.telegram_user_id) (str_int x.telegram_user_id) x.session_id
                      active (differ _ _ λ same. absurd (cc (free, same, at)))
                    ∙ at,
              )
            ],
          )
    ];
  }

  pub finished-IsConsistent :
      (user key now : Text) (x : SurveySession)
      → get user active ≡ some key
      → get key sessions ≡ some x
      → IsConsistent (put key (completed now x) sessions) (pop user active)
  finished-IsConsistent user key now x names found = record {
    named = λ u k h.
        let (apart, at) = pop-cases u user k active h in
        let (z, there, status, owner) = c.named u k at in
        (
          z,
          get-put-other k key (completed now x) sessions
                (differ key k λ same. two_names u k z apart same there owner)
              ∙ there,
          status,
          owner,
        );
    fate = λ k z h. elim (put-cases k key (completed now x) z sessions h) [
      | inl (e, g) ↦ rw (g, ← e) ((c.fate key x found).0, inr (refl, refl))
      | inr (e, g) ↦
          let (id, fate) = c.fate k z g in
          (
            id,
            elim fate [
              | inr done ↦ inr done
              | inl (s, o, at) ↦ inl (
                s,
                o,
                get-pop-other (str_int z.telegram_user_id) user active
                      (differ _ _ λ same. equal_not e (one_value active same names at))
                    ∙ at,
              )
            ],
          )
    ];
  }
    where
      two_names :
          (u k : Text) (z : SurveySession)
          → (user == u) ≡ false
          → key ≡ k
          → get k sessions ≡ some z
          → str_int z.telegram_user_id ≡ u
          → ⊥
      two_names u k z apart same there owner =
          let (y, at, status, owner') = c.named user key names in
          let sessions : y ≡ z = one_value sessions same at there in
          equal_not apart
            (sym owner' ∙ ap (λ (s : SurveySession). str_int s.telegram_user_id) sessions ∙ owner)
