-- ===== src/Auth/Rbac.antt =====
-- Roles, sessions and tokens, src/auth/rbac.ts, and the guards on top of them, src/auth/guard.ts.
-- The cookie's signature check and the hash of a token are not modelled: a request carries the
-- session and the token that they yield, and the database is what it answers.
pub mod Grants
pub mod Revocation
mod Tests
use hop_watch.Prelude.{
  String, Bool, false, not, ◌||◌, Option, none, some, List, [], ◌∷◌, str_eq, if◌then◌else◌, any,
}

pub record Role : Type 0 where
  pub key : String
  pub admin : Bool
  pub can_tx : Bool
  pub modules : List String

pub record RbacConfig : Type 0 where
  pub roles : List Role
  pub anonymous_role : String
  pub member_role : String
  pub token_default_role : String
  pub anonymous_read_only : Bool

pub record Access : Type 0 where
  pub role_key : String
  pub admin : Bool
  pub can_tx : Bool
  pub modules : List String

-- The keys of the module registry, src/auth/modules.ts.
abbrev pub module_keys : List String
module_keys =
    "dashboard" ∷ "livemap" ∷ "map" ∷ "coverage" ∷ "history" ∷ "graph" ∷ "nodes" ∷ "owned"
    ∷ "watchlist" ∷ "power" ∷ "packets" ∷ "gateways" ∷ "messages" ∷ "matrix" ∷ "analytics"
    ∷ "propagation" ∷ "link-budget" ∷ "site-planner" ∷ "records" ∷ "scoreboard" ∷ "fleet"
    ∷ "traceroutes" ∷ "backbone" ∷ "new-nodes" ∷ "ghosts" ∷ "flags" ∷ "spammers" ∷ "weather"
    ∷ "environment" ∷ "ambience" ∷ "kiosk" ∷ "replay" ∷ "health" ∷ "api" ∷ "admin" ∷ []

unfoldable pub no_access : Access
no_access = record { role_key = "none"; admin = false; can_tx = false; modules = [] }

unfoldable pub find_role : String → List Role → Option Role
find_role key [] = none
find_role key (r ∷ rs) = if str_eq r.key key then some r else find_role key rs

-- `??`.
abbrev pub or_else : Option Role → Option Role → Option Role
or_else none b = b
or_else (some a) b = some a

unfoldable pub role_to_access : RbacConfig → String → Access
unfolding find_role
role_to_access cfg role_key =
    elim (or_else (find_role role_key cfg.roles) (find_role cfg.anonymous_role cfg.roles)) [
      | none ↦ record { role_key = role_key; admin = false; can_tx = false; modules = [] }
      | some r ↦ record {
        role_key = r.key;
        admin = r.admin;
        can_tx = r.admin || r.can_tx;
        modules = if r.admin then module_keys else r.modules;
      }
    ]

pub record Session : Type 0 where
  pub sub : String
  pub role : String

pub record TokenRow : Type 0 where
  pub role_key : String
  pub can_tx : Bool

-- What the database answers when it is asked for the role of a user: nothing when it is down.
pub data Stored : Type 0 where
  unavailable : Stored
  answered : Option String → Stored

pub record AuthDb : Type 0 where
  pub user_role : String → Stored
  pub token : String → Option TokenRow

pub record Request : Type 0 where
  pub session : Option Session
  pub bearer : Option String

unfoldable pub role_key_or_member : RbacConfig → String → String
role_key_or_member cfg role_key =
    if any (λ r. str_eq r.key role_key) cfg.roles then role_key else cfg.member_role

-- An empty role is no role.
unfoldable pub session_role_key : RbacConfig → AuthDb → Session → Option String
unfolding role_key_or_member
session_role_key cfg db s = elim (db.user_role s.sub) [
  | unavailable ↦ some (role_key_or_member cfg s.role)
  | answered none ↦ none
  | answered (some role) ↦ if str_eq role "" then none else some (role_key_or_member cfg role)
]

unfoldable pub session_access : RbacConfig → AuthDb → Session → Access
unfolding session_role_key role_to_access no_access
session_access cfg db s = elim (session_role_key cfg db s) [
  | none ↦ no_access
  | some key ↦ role_to_access cfg key
]

unfoldable pub anonymous_access : RbacConfig → Access
unfolding no_access role_to_access
anonymous_access cfg =
    if not cfg.anonymous_read_only then no_access else role_to_access cfg cfg.anonymous_role

-- The row of a token that is sent and not revoked.
unfoldable pub token_row : AuthDb → Option String → Option TokenRow
token_row db none = none
token_row db (some t) = if str_eq t "" then none else db.token t

unfoldable pub token_access : RbacConfig → TokenRow → Access
unfolding role_to_access
token_access cfg row =
    let a =
      role_to_access cfg
        (if str_eq row.role_key "" then cfg.token_default_role else row.role_key) in
    record a { can_tx = a.can_tx || row.can_tx }

-- `resolveAccess` once the session has been passed over.
unfoldable pub without_session : RbacConfig → AuthDb → Option String → Access
unfolding token_row token_access anonymous_access
without_session cfg db bearer = elim (token_row db bearer) [
  | none ↦ anonymous_access cfg
  | some row ↦ token_access cfg row
]

-- The role key of a session that is still valid.
unfoldable pub valid_key : RbacConfig → AuthDb → Option Session → Option String
unfolding session_role_key
valid_key cfg db none = none
valid_key cfg db (some s) = session_role_key cfg db s

unfoldable pub resolve_access : RbacConfig → AuthDb → Request → Access
unfolding valid_key without_session role_to_access
resolve_access cfg db req = elim (valid_key cfg db req.session) [
  | none ↦ without_session cfg db req.bearer
  | some key ↦ role_to_access cfg key
]

unfoldable pub page_access : RbacConfig → AuthDb → Option Session → Access
unfolding valid_key anonymous_access role_to_access
page_access cfg db session = elim (valid_key cfg db session) [
  | none ↦ anonymous_access cfg
  | some key ↦ role_to_access cfg key
]

-- Whether the guard lets the request pass.
unfoldable pub require_module : RbacConfig → AuthDb → Request → String → Bool
unfolding resolve_access
require_module cfg db req m =
    let acc = resolve_access cfg db req in acc.admin || any (λ k. str_eq k m) acc.modules

unfoldable pub require_admin : RbacConfig → AuthDb → Request → Option Session
unfolding session_access
require_admin cfg db req = elim req.session [
  | none ↦ none
  | some s ↦ if (session_access cfg db s).admin then some s else none
]

pub data Actor : Type 0 where
  user : String → Actor
  token_holder : Actor

unfoldable pub token_tx : AuthDb → Option String → Option Actor
unfolding token_row
token_tx db bearer = elim (token_row db bearer) [
  | none ↦ none
  | some row ↦ if row.can_tx then some token_holder else none
]

unfoldable pub require_tx : RbacConfig → AuthDb → Request → Option Actor
unfolding session_access token_tx
require_tx cfg db req = elim req.session [
  | none ↦ token_tx db req.bearer
  | some s ↦ if (session_access cfg db s).can_tx then some (user s.sub) else token_tx db req.bearer
]
