-- ===== src/Auth/Rbac/Revocation.antt =====
-- What becomes of a session when its account changes, src/auth/rbac.ts.
use hop_watch.Prelude.{String, ◌≡◌, refl, ap, Option, none, some}
use hop_watch.Auth.Rbac.{
  RbacConfig, AuthDb, Session, answered, no_access, role_to_access, without_session,
  anonymous_access, session_role_key, session_access, valid_key, resolve_access, page_access,
  require_admin, require_tx,
}

gone_key :
    (cfg : RbacConfig) (db : AuthDb) (s : Session)
    → db.user_role s.sub ≡ answered none
    → session_role_key cfg db s ≡ none
unfolding session_role_key
gone_key cfg db s gone = rw (gone, session_role_key) refl

same_key :
    (cfg : RbacConfig) (db : AuthDb) (sub role role' : String) (o : Option String)
    → db.user_role sub ≡ answered o
    → session_role_key cfg db (record { sub = sub; role = role })
      ≡ session_role_key cfg db (record { sub = sub; role = role' })
unfolding session_role_key
same_key cfg db sub role role' none known = rw (known, session_role_key) refl
same_key cfg db sub role role' (some r) known = rw (known, session_role_key) refl

-- The session of an account that is gone grants nothing: the request is taken as one without it.
pub deleted_user :
    (cfg : RbacConfig) (db : AuthDb) (s : Session) (bearer : Option String)
    → db.user_role s.sub ≡ answered none
    → (session_access cfg db s ≡ no_access)
      × (require_admin cfg db (record { session = some s; bearer = bearer }) ≡ none)
      × (require_tx cfg db (record { session = some s; bearer = bearer })
          ≡ require_tx cfg db (record { session = none; bearer = bearer }))
      × (resolve_access cfg db (record { session = some s; bearer = bearer })
          ≡ resolve_access cfg db (record { session = none; bearer = bearer }))
      × (page_access cfg db (some s) ≡ page_access cfg db none)
unfolding session_access require_admin require_tx resolve_access page_access valid_key
deleted_user cfg db s bearer gone =
    let k = gone_key cfg db s gone in
    (
      rw (k, session_access) refl,
      rw (k, session_access) refl,
      rw (k, session_access) refl,
      ap (λ q. elim q [ none ↦ without_session cfg db bearer | some key ↦ role_to_access cfg key ])
          k,
      ap (λ q. elim q [ none ↦ anonymous_access cfg | some key ↦ role_to_access cfg key ]) k,
    )

-- While the database answers, the role in the cookie is ignored: two sessions of one account are
-- granted the same, whatever roles they were issued with.
pub cookie_role_ignored :
    (cfg : RbacConfig) (db : AuthDb) (sub role role' : String) (o : Option String)
    (bearer : Option String)
    → db.user_role sub ≡ answered o
    → (session_access cfg db (record { sub = sub; role = role })
        ≡ session_access cfg db (record { sub = sub; role = role' }))
      × (resolve_access cfg db
            (record { session = some (record { sub = sub; role = role }); bearer = bearer })
          ≡ resolve_access cfg db
              (record { session = some (record { sub = sub; role = role' }); bearer = bearer }))
      × (page_access cfg db (some (record { sub = sub; role = role }))
          ≡ page_access cfg db (some (record { sub = sub; role = role' })))
unfolding session_access resolve_access page_access valid_key
cookie_role_ignored cfg db sub role role' o bearer known =
    let k = same_key cfg db sub role role' o known in
    (
      ap (λ q. elim q [ none ↦ no_access | some key ↦ role_to_access cfg key ]) k,
      ap (λ q. elim q [ none ↦ without_session cfg db bearer | some key ↦ role_to_access cfg key ])
          k,
      ap (λ q. elim q [ none ↦ anonymous_access cfg | some key ↦ role_to_access cfg key ]) k,
    )
