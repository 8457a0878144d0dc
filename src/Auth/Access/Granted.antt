-- ===== src/Auth/Access/Granted.antt =====
-- FerrumGUI/src/authManager.ts: who gets past `authMiddleware`, said without its order of tests.
use mathlib.Core.Bool.{false≢true}
use mathlib.Core.Option.{some-injective}
use mathlib.Core.List.{Memᴰ}
use ferrum_proxy.Base.{
  ℕ, ◌≤◌, ◌≡◌, refl, ap, ◌∙◌, sym, ◌≢◌, ◌↔◌, any, true, false, Bool-cases, Option-cases, inl, inr,
  Text, text_eq, text_eq_iff, text_eq_refl, get, Option, none, some, List, [], ◌∷◌, ◌++◌, arith,
}
use ferrum_proxy.Base.Patterns.{NoSlash}
use ferrum_proxy.Services
use ferrum_proxy.Services.{ServiceManager}
use ferrum_proxy.Services.Instances.{Instance}
use ferrum_proxy.Auth.{AuthManager, Session, validate_session}
use ferrum_proxy.Auth.Login.{Server}
use ferrum_proxy.Auth.Access.{
  Request, session_token_from_request, bearer_token_of, token_is, has_token, bearer_allowed,
  is_manager_token_allowed, next, by_session, is_public, auth_middleware, strict_auth_middleware,
}
use ferrum_proxy.Auth.Access.Paths.{
  instances_path, instance_prefix, metadata_suffix, public_metadata_id, public_metadata_id_iff,
}

-- A session of this token that is not over.
pub data HasSession (now : ℕ) (req : Request) (a : AuthManager) : Type 0 where
  session :
      (t : Text) (x : Session)
      → session_token_from_request req ≡ some t
      → t ≢ []
      → get t a.sessions ≡ some x
      → now ≤ x.expires
      → HasSession now req a

-- A manager's token, good for reading the list and for the metadata of its own instance.
pub data HasManagerToken (req : Request) (m : ServiceManager) : Type 0 where
  for_list :
      (t : Text) (i : Instance)
      → bearer_token_of req.authorization ≡ some t
      → req.path ≡ instances_path
      → Memᴰ i (Services.get_all m)
      → i.manager_token ≡ some t
      → HasManagerToken req m
  for_metadata :
      (t id : Text) (i : Instance)
      → bearer_token_of req.authorization ≡ some t
      → req.path ≡ instance_prefix ++ (id ++ metadata_suffix)
      → NoSlash id
      → id ≢ []
      → Services.get_by_id id m ≡ some i
      → i.manager_token ≡ some t
      → HasManagerToken req m

pub data Granted (now : ℕ) (req : Request) (s : Server) : Type 0 where
  to_all : is_public req.path ≡ true → Granted now req s
  unprotected : Services.get_auth s.services ≡ none → Granted now req s
  to_manager : HasManagerToken req s.services → Granted now req s
  to_session : HasSession now req s.auth → Granted now req s

token_is_iff : (t : Text) (o : Option Text) → (token_is t o ≡ true) ↔ (o ≡ some t)
token_is_iff t none = ((λ e. cc), (λ e. cc))
token_is_iff t (some m) = ground (arith, text_eq_iff m t)

any-Mem :
    (t : Text) (is : List Instance)
    → any (λ i. token_is t i.manager_token) is ≡ true
    → (i : Instance) × Memᴰ i is × (i.manager_token ≡ some t)
any-Mem t [] e = absurd (cc)
any-Mem t (i ∷ is) e = elim (Bool-cases (token_is t i.manager_token)) [
  | inl here ↦ (i, Memᴰ.head refl, (token_is_iff t _).0 here)
  | inr there ↦ let (j, m, same) = any-Mem t is (rw there at e) in (j, Memᴰ.tail m, same)
]

Mem-any :
    (t : Text) (is : List Instance) {i : Instance}
    → Memᴰ i is
    → i.manager_token ≡ some t
    → any (λ i. token_is t i.manager_token) is ≡ true
Mem-any t [] m e = elim m [ ]
Mem-any t (j ∷ is) (Memᴰ.head same) e =
    rw ((token_is_iff t j.manager_token).1 (ap (λ (i : Instance). i.manager_token) (sym same) ∙ e))
Mem-any t (j ∷ is) (Memᴰ.tail m) e = elim (Bool-cases (token_is t j.manager_token)) [
  | inl here ↦ rw here
  | inr there ↦ rw there (Mem-any t is m e)
]

has_token_iff :
    (t : Text) (o : Option Instance)
    → (has_token t o ≡ true) ↔ ((i : Instance) × (o ≡ some i) × (i.manager_token ≡ some t))
has_token_iff t none = ((λ e. absurd (cc)), (λ h. cc (h.1)))
has_token_iff t (some i) = ((λ e. (i, refl, (token_is_iff t i.manager_token).0 e)), from)
  where
    from :
        (j : Instance) × (some i ≡ some j) × (j.manager_token ≡ some t)
        → token_is t i.manager_token ≡ true
    from (j, e, h) =
        (token_is_iff t i.manager_token).1
          (ap (λ (k : Instance). k.manager_token) (some-injective i j e) ∙ h)

-- The tests on a bearer token find a manager's token, and only that.
bearer_sound :
    (req : Request) (m : ServiceManager) (o : Option Text)
    → bearer_token_of req.authorization ≡ o
    → bearer_allowed o req.path m ≡ true
    → HasManagerToken req m
bearer_sound req m none b e = absurd (cc)
bearer_sound req m (some t) b e = elim (Bool-cases (text_eq req.path instances_path)) [
  | inl list ↦
      let (i, mem, same) = any-Mem t (Services.get_all m) (rw list at e) in
      for_list t i b ((text_eq_iff _ _).0 list) mem same
  | inr other ↦ elim (Option-cases (public_metadata_id req.path)) [
    | inl no_id ↦ absurd (false≢true (rw (other, no_id) at e))
    | inr (id, found) ↦
        let (path, plain, n) = (public_metadata_id_iff req.path id).0 found in
        let (i, here, same) =
          (has_token_iff t (Services.get_by_id id m)).0 (rw (other, found) at e) in
        for_metadata t id i b path plain n here same
  ]
]

not_list : (id : Text) → text_eq (instance_prefix ++ id) instances_path ≡ false
unfolding text_eq
not_list id = refl

bearer_complete :
    (req : Request) (m : ServiceManager)
    → HasManagerToken req m
    → bearer_allowed (bearer_token_of req.authorization) req.path m ≡ true
bearer_complete req m (for_list t i b path mem same) =
    rw (b, path, text_eq_refl instances_path) (Mem-any t (Services.get_all m) mem same)
bearer_complete req m (for_metadata t id i b path plain n found same) =
    rw (b, (public_metadata_id_iff req.path id).1 (path, plain, n))
      (rw (path, not_list (id ++ metadata_suffix))
        ((has_token_iff t (Services.get_by_id id m)).1 (i, found, same)))

by_session_sound :
    (now : ℕ) (req : Request) (s : Server) (o : Option Text)
    → session_token_from_request req ≡ o
    → (by_session now o s).1 ≡ next
    → HasSession now req s.auth
unfolding validate_session
by_session_sound now req s none b e = cc
by_session_sound now req s (some []) b e = cc
by_session_sound now req s (some (c ∷ t)) b e = elim (Option-cases (get (c ∷ t) s.auth.sessions)) [
  | inl missing ↦ absurd (ground arith)
  | inr (x, found) ↦ session (c ∷ t) x b (λ nil. cc) found (ground arith)
]

by_session_complete :
    (now : ℕ) (req : Request) (s : Server)
    → HasSession now req s.auth
    → (by_session now (session_token_from_request req) s).1 ≡ next
unfolding validate_session
by_session_complete now req s (session [] x b n found h) = absurd (n refl)
by_session_complete now req s (session (c ∷ t) x b n found h) = rw b (ground arith)

no_auth : (m : ServiceManager) → (Services.has_auth m ≡ false) ↔ (Services.get_auth m ≡ none)
unfolding Services.has_auth Services.get_auth
no_auth m = ground arith

is_manager_token_allowed_iff :
    (req : Request) (m : ServiceManager)
    → (is_manager_token_allowed req m ≡ true) ↔ HasManagerToken req m
unfolding is_manager_token_allowed
is_manager_token_allowed_iff req m =
    (bearer_sound req m (bearer_token_of req.authorization) refl, bearer_complete req m)

-- A request passes exactly if its path is open to all, no credentials are set, it has the token of
-- a manager for the list or for that manager's metadata, or it has a session that is not over.
pub auth_middleware-next_iff :
    (now : ℕ) (req : Request) (s : Server)
    → ((auth_middleware now req s).1 ≡ next) ↔ Granted now req s
unfolding auth_middleware
auth_middleware-next_iff now req s = (to, from)
  where
    manager : (is_manager_token_allowed req s.services ≡ true) ↔ HasManagerToken req s.services
    manager = is_manager_token_allowed_iff req s.services

    to : (auth_middleware now req s).1 ≡ next → Granted now req s
    to e = elim (Bool-cases (is_public req.path)) [
      | inl open_path ↦ to_all open_path
      | inr other ↦ elim (Bool-cases (Services.has_auth s.services)) [
        | inr unset ↦ unprotected ((no_auth s.services).0 unset)
        | inl configured ↦ elim (Bool-cases (is_manager_token_allowed req s.services)) [
          | inl allowed ↦ to_manager (manager.0 allowed)
          | inr denied ↦
              to_session (by_session_sound now req s _ refl (rw (other, configured, denied) at e))
        ]
      ]
    ]

    from : Granted now req s → (auth_middleware now req s).1 ≡ next
    from (to_all e) = rw e
    from (unprotected e) = ground (arith, (no_auth s.services).1 e)
    from (to_manager h) = ground (arith, manager.1 h)
    from (to_session h) = ground (arith, by_session_complete now req s h)

-- The middleware of the routes that issue relay tokens lets a request pass exactly if credentials
-- are set and the request has a session that is not over.
pub strict_auth_middleware-next_iff :
    (now : ℕ) (req : Request) (s : Server)
    → ((strict_auth_middleware now req s).1 ≡ next)
      ↔ ((Services.get_auth s.services ≢ none) × HasSession now req s.auth)
unfolding strict_auth_middleware
strict_auth_middleware-next_iff now req s = (to, from)
  where
    to :
        (strict_auth_middleware now req s).1 ≡ next
        → (Services.get_auth s.services ≢ none) × HasSession now req s.auth
    to e = elim (Bool-cases (Services.has_auth s.services)) [
      | inr unset ↦ absurd (cc (rw unset at e))
      | inl configured ↦ (
        (λ missing. false≢true (sym ((no_auth s.services).1 missing) ∙ configured)),
        by_session_sound now req s _ refl (rw configured at e),
      )
    ]

    from :
        (Services.get_auth s.services ≢ none) × HasSession now req s.auth
        → (strict_auth_middleware now req s).1 ≡ next
    from (n, h) = elim (Bool-cases (Services.has_auth s.services)) [
      | inr unset ↦ absurd (n ((no_auth s.services).0 unset))
      | inl configured ↦ rw configured (by_session_complete now req s h)
    ]
