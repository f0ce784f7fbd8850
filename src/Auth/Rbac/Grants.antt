-- ===== src/Auth/Rbac/Grants.antt =====
-- Where what a request is granted comes from, src/auth/rbac.ts and src/auth/guard.ts.
use hop_watch.Prelude.{
  String, ◌≡◌, refl, sym, subst, ◌∙◌, ◌⊎◌, inl, inr, true, false, not, ◌||◌, Option, none, some,
  List, [], ◌∷◌, arith, str_eq, str_eq_iff, if◌then◌else◌, Bool-cases, if-cases, any,
}
use hop_watch.Auth.Rbac.{
  Role, RbacConfig, AuthDb, Session, TokenRow, Request, Access, Actor, user, token_holder,
  module_keys, find_role, or_else, no_access, role_to_access, anonymous_access, token_row,
  token_access, token_tx, without_session, session_role_key, session_access, valid_key,
  resolve_access, page_access, require_module, require_admin, require_tx,
}

-- An access that grants neither administration nor modules, or one that has just the
-- administration and the modules of the role of its key.
pub data Backed (cfg : RbacConfig) (acc : Access) : Type 0 where
  nothing : acc.admin ≡ false → acc.modules ≡ [] → Backed cfg acc
  by_role :
      (r : Role)
      → find_role acc.role_key cfg.roles ≡ some r
      → acc.admin ≡ r.admin
      → acc.modules ≡ (if r.admin then module_keys else r.modules)
      → Backed cfg acc

find_role_key : (key : String) (rs : List Role) (r : Role) → find_role key rs ≡ some r → r.key ≡ key
unfolding find_role
find_role_key key [] r h = absurd (cc)
find_role_key key (x ∷ rs) r h = ground (arith, str_eq_iff x.key key, find_role_key key rs r)

role_to_access-Backed : (cfg : RbacConfig) (key : String) → Backed cfg (role_to_access cfg key)
unfolding role_to_access
role_to_access-Backed cfg key =
    at (find_role key cfg.roles) (find_role cfg.anonymous_role cfg.roles) refl refl
  where
    found :
        (k : String) (r : Role)
        → find_role k cfg.roles ≡ some r
        → find_role r.key cfg.roles ≡ some r
    found k r e =
        subst (λ k. find_role k cfg.roles ≡ some r) (sym (find_role_key k cfg.roles r e)) e

    at :
        (o p : Option Role)
        → find_role key cfg.roles ≡ o
        → find_role cfg.anonymous_role cfg.roles ≡ p
        → Backed cfg (elim (or_else o p) [
          | none ↦ record { role_key = key; admin = false; can_tx = false; modules = [] }
          | some r ↦ record {
            role_key = r.key;
            admin = r.admin;
            can_tx = r.admin || r.can_tx;
            modules = if r.admin then module_keys else r.modules;
          }
        ])
    at (some r) p e f = by_role r (found key r e) refl refl
    at none (some r) e f = by_role r (found cfg.anonymous_role r f) refl refl
    at none none e f = nothing refl refl

no_access-Backed : (cfg : RbacConfig) → Backed cfg no_access
unfolding no_access
no_access-Backed cfg = nothing refl refl

keyed-Backed :
    (cfg : RbacConfig) (o : Option String) (other : Access)
    → Backed cfg other
    → Backed cfg (elim o [ none ↦ other | some key ↦ role_to_access cfg key ])
keyed-Backed cfg none other h = h
keyed-Backed cfg (some key) other h = role_to_access-Backed cfg key

anonymous_access-Backed : (cfg : RbacConfig) → Backed cfg (anonymous_access cfg)
unfolding anonymous_access
anonymous_access-Backed cfg =
    if-cases (Backed cfg) (not cfg.anonymous_read_only) (λ _. no_access-Backed cfg)
      (λ _. role_to_access-Backed cfg cfg.anonymous_role)

token_access-Backed : (cfg : RbacConfig) (row : TokenRow) → Backed cfg (token_access cfg row)
unfolding token_access
token_access-Backed cfg row =
    elim (role_to_access-Backed cfg
      (if str_eq row.role_key "" then cfg.token_default_role else row.role_key)) [
        | nothing a m ↦ nothing a m
        | by_role r e a m ↦ by_role r e a m
      ]

without_session-Backed :
    (cfg : RbacConfig) (db : AuthDb) (bearer : Option String)
    → Backed cfg (without_session cfg db bearer)
unfolding without_session
without_session-Backed cfg db bearer = at (token_row db bearer)
  where
    at :
        (o : Option TokenRow)
        → Backed cfg (elim o [ none ↦ anonymous_access cfg | some row ↦ token_access cfg row ])
    at none = anonymous_access-Backed cfg
    at (some row) = token_access-Backed cfg row

-- No access of a session, a request or a page view grants administration or modules that are not
-- those of a role that the configuration has now: it has none, or just those of the role of its key.
pub accesses-Backed :
    (cfg : RbacConfig) (db : AuthDb) (s : Session) (req : Request)
    → Backed cfg (session_access cfg db s)
      × Backed cfg (resolve_access cfg db req)
      × Backed cfg (page_access cfg db req.session)
unfolding session_access resolve_access page_access
accesses-Backed cfg db s req = (
  keyed-Backed cfg (session_role_key cfg db s) no_access (no_access-Backed cfg),
  keyed-Backed cfg (valid_key cfg db req.session) _ (without_session-Backed cfg db req.bearer),
  keyed-Backed cfg (valid_key cfg db req.session) _ (anonymous_access-Backed cfg),
)

no_token_tx :
    (db : AuthDb) (bearer : Option String) → token_row db bearer ≡ none → token_tx db bearer ≡ none
unfolding token_tx
no_token_tx db bearer h = rw (h, token_tx) refl

plain :
    (cfg : RbacConfig) (db : AuthDb) (bearer : Option String)
    → token_row db bearer ≡ none
    → without_session cfg db bearer ≡ anonymous_access cfg
unfolding without_session
plain cfg db bearer h = rw (h, without_session) refl

closed : (cfg : RbacConfig) → cfg.anonymous_read_only ≡ false → anonymous_access cfg ≡ no_access
unfolding anonymous_access
closed cfg h = rw (h, anonymous_access) refl

denied : (m : String) → (no_access.admin || any (λ k. str_eq k m) no_access.modules) ≡ false
unfolding no_access
denied m = refl

-- A request without a session and without a valid token is no administrator's and may not transmit,
-- and where anonymous reading is switched off it may not use any module.
pub stranger_denied :
    (cfg : RbacConfig) (db : AuthDb) (req : Request) (m : String)
    → req.session ≡ none
    → token_row db req.bearer ≡ none
    → (require_admin cfg db req ≡ none)
      × (require_tx cfg db req ≡ none)
      × (cfg.anonymous_read_only ≡ false → require_module cfg db req m ≡ false)
unfolding require_admin require_tx require_module resolve_access valid_key
stranger_denied cfg db req m no_session no_token = (
  rw no_session refl,
  rw no_session (no_token_tx db req.bearer no_token),
  λ shut. rw no_session (rw (plain cfg db req.bearer no_token ∙ closed cfg shut) (denied m)),
)

-- Whom the transmit guard lets pass: the account of a session whose access may transmit, or the
-- holder of a token, in the request and not revoked, that may itself transmit.
pub require_tx_actor :
    (cfg : RbacConfig) (db : AuthDb) (req : Request) (a : Actor)
    → require_tx cfg db req ≡ some a
    → ((s : Session) × (req.session ≡ some s)
        × ((session_access cfg db s).can_tx ≡ true)
        × (a ≡ user s.sub))
      ⊎ ((row : TokenRow) × (token_row db req.bearer ≡ some row)
          × (row.can_tx ≡ true)
          × (a ≡ token_holder))
unfolding require_tx token_tx
require_tx_actor cfg db req a h = by_session req.session refl h
  where
    by_token :
        (o : Option TokenRow)
        → token_row db req.bearer ≡ o
        → (elim o [ none ↦ none | some row ↦ if row.can_tx then some token_holder else none ])
          ≡ some a
        → (row : TokenRow) × (token_row db req.bearer ≡ some row)
          × (row.can_tx ≡ true)
          × (a ≡ token_holder)
    by_token none e k = absurd (cc)
    by_token (some row) e k = elim (Bool-cases row.can_tx) [
      | inl t ↦ (row, e, t, ground arith)
      | inr f ↦ absurd (ground arith)
    ]

    by_session :
        (o : Option Session)
        → req.session ≡ o
        → (elim o [
          | none ↦ token_tx db req.bearer
          | some s ↦
              if (session_access cfg db s).can_tx then some (user s.sub) else token_tx db req.bearer
        ])
          ≡ some a
        → ((s : Session) × (req.session ≡ some s)
            × ((session_access cfg db s).can_tx ≡ true)
            × (a ≡ user s.sub))
          ⊎ ((row : TokenRow) × (token_row db req.bearer ≡ some row)
              × (row.can_tx ≡ true)
              × (a ≡ token_holder))
    by_session none e k = inr (by_token (token_row db req.bearer) refl k)
    by_session (some s) e k = elim (Bool-cases (session_access cfg db s).can_tx) [
      | inl t ↦ inl (s, e, t, ground arith)
      | inr f ↦ inr (
          by_token (token_row db req.bearer) refl
            (subst (λ b. (if b then some (user s.sub) else token_tx db req.bearer) ≡ some a) f k))
    ]
