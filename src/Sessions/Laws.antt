-- ===== src/Sessions/Laws.antt =====
-- What the sessions of guests promise (app/auth/sessions.py).
use musicfy.Prelude.{
  ℕ, ◌+◌, ◌<◌, String, ◌≡◌, refl, sym, subst, inl, inr, Bool, true, false, not, Option, none, some,
  arith, if◌then◌else◌, Bool-cases, Option-cases, get_or, is_some, truthy, Result, ok, err, ◌>>=◌,
  lookup, insert, lookup-insert, ok_inj, invalid_session,
}
use musicfy.Sessions.{
  open_session, create_guest, subject_or, find_identity, claimed_or, create_user, add_unless,
  create_session, resolve_owner, resolve_guest, guest_of, create_guest_user, Platform, Identity,
  Site, Session, resolve, logout, user_of, revoke_if,
}

user_of-revoked :
    (now now' token : ℕ) (s : Site) (o : Option Session)
    → lookup token s.sessions ≡ o
    → user_of now' (lookup token (revoke_if now o token s).sessions) ≡ none
user_of-revoked now now' token s none e = ground (arith, e)
user_of-revoked now now' token s (some x) e =
    ground (arith, e, lookup-insert token token (record x { revoked_at = some now }) s.sessions)

-- A token that was logged out opens nothing any more, at any time.
pub resolve-logout :
    (now now' token : ℕ) (s : Site)
    → resolve now' token (logout now token s).1 ≡ (err invalid_session, (logout now token s).1)
unfolding resolve logout
resolve-logout now now' token s =
    rw (user_of-revoked now now' token s (lookup token s.sessions) refl) refl

guest_of-known :
    (o : Option Identity) (s : Site) (u : ℕ)
    → guest_of o s ≡ some u
    → is_some (lookup u s.users) ≡ true
guest_of-known none s u e = cc
guest_of-known (some i) s u e = elim (Option-cases (lookup i.user_id s.users)) [
  | inl q ↦ ground (arith, q, e)
  | inr (x, q) ↦ ground (arith, q, e)
]

-- A user was returned, and is there.
abbrev pub Known : Result ℕ × Site → Type 0
Known r = (u : ℕ) × (r.0 ≡ ok u) × (is_some (lookup u r.1.users) ≡ true)

module _ (platform : Platform) (ttl : ℕ) where
  chosen-Known :
      (claimed : Bool) (id : ℕ) (o : Option Identity) (s : Site)
      → is_some (lookup id s.users) ≡ true
      → is_some (lookup (if claimed then id else get_or id (guest_of o s)) s.users) ≡ true
  chosen-Known true id o s h = h
  chosen-Known false id o s h = elim (Option-cases (guest_of o s)) [
    | inl q ↦ rw q h
    | inr (u, q) ↦ rw q (guest_of-known o s u q)
  ]

  claimed-Known :
      (taken : Bool) (id : ℕ) (text : String) (subject : Option String) (s : Site)
      → is_some (lookup id s.users) ≡ true
      → Known ((add_unless taken id text >>= claimed_or platform ttl id subject) s)
  claimed-Known true id text subject s h =
      (_, refl, chosen-Known (not (is_some subject)) id (find_identity (get_or "" subject) s) s h)
  claimed-Known false id text subject s h = (id, refl, h)

  create_guest_user-Known :
      (id : ℕ) (subject : Option String) (s : Site)
      → Known (create_guest_user platform ttl id subject s)
  unfolding create_guest_user
  create_guest_user-Known id subject s =
      let s1 = (create_user id s).1 in
      claimed-Known (is_some (find_identity (subject_or platform ttl id subject) s1)) id _ subject
        s1 (ground (arith, lookup-insert id id (record { is_guest = true }) s.users))

  owner-Known :
      (id : ℕ) (device : Option String) (i : Option Identity) (owner : Option ℕ) (s : Site)
      → guest_of i s ≡ owner
      → Known (resolve_owner platform ttl id device i owner s)
  owner-Known id device none owner s e = create_guest_user-Known id device s
  owner-Known id device (some i) none s e = create_guest_user-Known id none s
  owner-Known id device (some i) (some u) s e = (u, refl, guest_of-known (some i) s u e)

  resolve_guest-Known :
      (id : ℕ) (device : Option String) (s : Site) → Known (resolve_guest platform ttl id device s)
  unfolding resolve_guest
  resolve_guest-Known id device s =
      let i = find_identity (get_or "" device) s in
      elim (Bool-cases (truthy device)) [
        | inl q ↦ rw q (owner-Known id device i (guest_of i s) s refl)
        | inr q ↦ rw q (create_guest_user-Known id device s)
      ]

  opened-resolves :
      (now now' token u : ℕ) (s : Site)
      → is_some (lookup u s.users) ≡ true
      → now' < now + ttl
      → let s' = (create_session platform ttl now token u s).1 in resolve now' token s' ≡ (ok u, s')
  unfolding resolve
  opened-resolves now now' token u s h p =
      let x : Session = record { user_id = u; expires_at = now + ttl; revoked_at = none } in
      let found : user_of now' (lookup token (insert token x s.sessions)) ≡ some u =
        ground (arith, lookup-insert token token x s.sessions) in
      rw (found, h) refl

  -- A session was opened for a user, and its token is theirs.
  abbrev pub Opens : ℕ → ℕ → Result ℕ × Site → Type 0
  Opens now' token r = (u : ℕ) × (r.0 ≡ ok u) × (resolve now' token r.1 ≡ (ok u, r.1))

  Known-Opens :
      (now now' token : ℕ) (x : Result ℕ) (s : Site)
      → now' < now + ttl
      → Known (x, s)
      → Opens now' token (((λ (_ : Site). (x, s)) >>= open_session platform ttl now token) s)
  Known-Opens now now' token (err e) s p k = absurd cc
  Known-Opens now now' token (ok v) s p (u, e, h) = (
    v,
    refl,
    opened-resolves now now' token v s
        (subst (λ t. is_some (lookup t s.users) ≡ true) (sym (ok_inj e)) h) p,
  )

  -- A guest's session is always opened, for a user that is there; until it expires, its token stands for
  -- that user.
  pub resolve-create_guest :
      (now now' id token : ℕ) (device : Option String) (s : Site)
      → now' < now + ttl
      → Opens now' token (create_guest platform ttl now id token device s)
  unfolding create_guest
  resolve-create_guest now now' id token device s p =
      let r = resolve_guest platform ttl id device s in
      Known-Opens now now' token r.0 r.1 p (resolve_guest-Known id device s)
