-- ===== src/Sessions.antt =====
-- Sessions of guests (app/auth/sessions.py, `AuthService`), with app/domain/repositories/users.py and
-- sessions.py. The id of a new user and the hash of a new token are arguments; a token is known by its hash.
-- Times are milliseconds. Each method is one transaction.
pub mod Laws
use musicfy.Prelude.{
  ℕ, zero, suc, ◌+◌, ◌-◌, ◌*◌, ◌/◌, ◌≤◌, ◌<◌, min, max, String, ◌≡◌, refl, sym, ap, ◌∙◌, subst, ◌≢◌,
  ◌↔◌, ◌⊎◌, inl, inr, ite, Bool, true, false, not, ◌&&◌, ◌||◌, Option, none, some, List, [], ◌∷◌,
  map, arith, ltb, leb, ◌==◌, str_eq, if◌then◌else◌, Bool-cases, Option-cases, get_or, is_some,
  find, truthy, first_some, Error, Result, ok, err, is_ok, Action, pure, raise, gets, modify,
  transaction, catch, branch, or_raise, ◌>>=◌, ◌>>◌, Table, lookup, insert, erase, lookup-insert,
  lookup-erase, size, cut, size-cut, and_then, ok_inj, invalid_session,
}
use musicfy.Enums.{AuthProvider}
use musicfy.Bank.{Identity}
use musicfy.Platform.{Platform}
use Prim.Native.String.{◌++◌}

pub record User : Type 0 where
  pub is_guest : Bool

pub record Session : Type 0 where
  pub user_id : ℕ
  pub expires_at : ℕ
  pub revoked_at : Option ℕ

pub record Site : Type 0 where
  pub users : Table User
  pub identities : List Identity
  pub sessions : Table Session

abbrev pub is_guest_provider : AuthProvider → Bool
is_guest_provider AuthProvider.guest = true
is_guest_provider _ = false

-- Whether an identity is the guest's of a device.
abbrev pub is_subject : String → Identity → Bool
is_subject subject i = is_guest_provider i.provider && str_eq i.subject subject

-- `find_identity` of the provider `guest`
unfoldable pub find_identity : String → Site → Option Identity
find_identity subject s = find (is_subject subject) s.identities

abbrev pub guest_identity : ℕ → String → Identity
guest_identity user_id subject = record {
  user_id = user_id;
  provider = AuthProvider.guest;
  subject = subject;
}

-- `UsersRepository.create`
abbrev pub create_user : ℕ → Action Site (Unit {0})
create_user id = modify (λ s. record s { users = insert id (record { is_guest = true }) s.users })

abbrev pub add_unless : Bool → ℕ → String → Action Site Bool
add_unless true id subject s = pure false s
add_unless false id subject s =
    pure true (record s { identities = guest_identity id subject ∷ s.identities })

-- `add_identity_if_absent`: whether the subject was free
abbrev pub add_identity_if_absent : ℕ → String → Action Site Bool
add_identity_if_absent id subject s = add_unless (is_some (find_identity subject s)) id subject s

-- The user of an identity, where it is there and a guest.
abbrev pub guest_of : Option Identity → Site → Option ℕ
guest_of none s = none
guest_of (some i) s = elim (lookup i.user_id s.users) [
  | none ↦ none
  | some u ↦ if u.is_guest then some i.user_id else none
]

module _ (platform : Platform) (ttl : ℕ) where
  abbrev pub subject_or : ℕ → Option String → String
  subject_or id subject =
      if truthy subject then get_or "" subject else "guest:" ++ platform.show_uuid id

  -- The new user, or the guest who had the subject first.
  abbrev pub claimed_or : ℕ → Option String → Bool → Action Site ℕ
  claimed_or id subject claimed s =
      pure
        (if claimed || not (is_some subject)
          then id
          else get_or id (guest_of (find_identity (get_or "" subject) s) s))
        s

  -- `_create_guest_user`
  unfoldable pub create_guest_user : ℕ → Option String → Action Site ℕ
  create_guest_user id subject =
      create_user id
      >> (add_identity_if_absent id (subject_or id subject) >>= claimed_or id subject)

  abbrev pub resolve_owner : ℕ → Option String → Option Identity → Option ℕ → Action Site ℕ
  resolve_owner id device none owner = create_guest_user id device
  resolve_owner id device (some i) (some owner) = pure owner
  resolve_owner id device (some i) none = create_guest_user id none

  -- `_resolve_guest`
  unfoldable pub resolve_guest : ℕ → Option String → Action Site ℕ
  resolve_guest id device s =
      let i = find_identity (get_or "" device) s in
      if truthy device
      then resolve_owner id device i (guest_of i s) s
      else create_guest_user id device s

  -- `SessionsRepository.create`
  abbrev pub create_session : ℕ → ℕ → ℕ → Action Site (Unit {0})
  create_session now token user_id = modify (λ s. record s {
    sessions =
        insert token (record { user_id = user_id; expires_at = now + ttl; revoked_at = none })
          s.sessions;
  })

  abbrev pub open_session : ℕ → ℕ → ℕ → Action Site ℕ
  open_session now token user_id = do create_session now token user_id; pure user_id

  -- `create_guest`
  unfoldable pub create_guest : ℕ → ℕ → ℕ → Option String → Action Site ℕ
  create_guest now id token device = resolve_guest id device >>= open_session now token

-- Whether a session may be used.
abbrev pub is_open : ℕ → Session → Bool
is_open now x = not (is_some x.revoked_at) && not (leb x.expires_at now)

abbrev pub user_of : ℕ → Option Session → Option ℕ
user_of now none = none
user_of now (some x) = if is_open now x then some x.user_id else none

abbrev pub known_user : Option ℕ → Action Site ℕ
known_user none s = raise invalid_session s
known_user (some id) s = if is_some (lookup id s.users) then pure id s else raise invalid_session s

-- `resolve`
unfoldable pub resolve : ℕ → ℕ → Action Site ℕ
resolve now token s = known_user (user_of now (lookup token s.sessions)) s

abbrev pub revoke_if : ℕ → Option Session → ℕ → Site → Site
revoke_if now none token s = s
revoke_if now (some x) token s =
    if is_some x.revoked_at
    then s
    else record s { sessions = insert token (record x { revoked_at = some now }) s.sessions }

-- `logout`, with `SessionsRepository.revoke`
unfoldable pub logout : ℕ → ℕ → Action Site (Unit {0})
logout now token = modify (λ s. revoke_if now (lookup token s.sessions) token s)
