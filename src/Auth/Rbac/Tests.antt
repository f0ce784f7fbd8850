-- ===== src/Auth/Rbac/Tests.antt =====
-- Requests against a small role table, and the theorems at concrete values.
use hop_watch.Prelude.{
  String, ◌≡◌, refl, true, false, Option, none, some, [], ◌∷◌, str_eq, if◌then◌else◌,
}
use hop_watch.Auth.Rbac.{
  Role, RbacConfig, AuthDb, answered, Session, TokenRow, Request, token_holder, no_access,
  session_access, resolve_access, page_access, require_admin, require_tx, token_row, token_tx,
  role_to_access, find_role, role_key_or_member, session_role_key,
}
use hop_watch.Auth.Rbac.Grants.{Backed, accesses-Backed}
use hop_watch.Auth.Rbac.Revocation.{deleted_user}

abbrev viewer : Role
viewer = record { key = "viewer"; admin = false; can_tx = false; modules = "map" ∷ [] }

abbrev boss : Role
boss = record { key = "admin"; admin = true; can_tx = false; modules = [] }

abbrev rbac : RbacConfig
rbac = record {
  roles = viewer ∷ boss ∷ [];
  anonymous_role = "viewer";
  member_role = "viewer";
  token_default_role = "viewer";
  anonymous_read_only = false;
}

abbrev role_of : String → Option String
role_of u = if str_eq u "ann" then some "admin" else none

abbrev row_of : String → Option TokenRow
row_of t = if str_eq t "t1" then some (record { role_key = "viewer"; can_tx = true }) else none

abbrev db : AuthDb
db = record { user_role = λ u. answered (role_of u); token = row_of }

abbrev ann : Session
ann = record { sub = "ann"; role = "viewer" }

abbrev bob : Session
bob = record { sub = "bob"; role = "admin" }

abbrev visit : Option Session → Option String → Request
visit s b = record { session = s; bearer = b }

ann_admin : (session_access rbac db ann).admin ≡ true
unfolding session_access session_role_key role_key_or_member role_to_access find_role
ann_admin = refl

deleted_user_example :
    (session_access rbac db bob ≡ no_access)
    × (require_admin rbac db (visit (some bob) none) ≡ none)
    × (require_tx rbac db (visit (some bob) none) ≡ require_tx rbac db (visit none none))
    × (resolve_access rbac db (visit (some bob) none) ≡ resolve_access rbac db (visit none none))
    × (page_access rbac db (some bob) ≡ page_access rbac db none)
deleted_user_example = deleted_user rbac db bob none refl

accesses-Backed_example :
    Backed rbac (session_access rbac db ann)
    × Backed rbac (resolve_access rbac db (visit (some bob) (some "t1")))
    × Backed rbac (page_access rbac db (some bob))
accesses-Backed_example = accesses-Backed rbac db ann (visit (some bob) (some "t1"))

token_may : require_tx rbac db (visit none (some "t1")) ≡ some token_holder
unfolding require_tx token_tx token_row
token_may = refl
