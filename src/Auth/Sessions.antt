-- ===== src/Auth/Sessions.antt =====
-- internal/auth/service.go: what a session lets in, and for how long.
use yield_forge.Base.{
  ℕ, true, Option, none, some, List, [], ◌∷◌, ◌≡◌, refl, subst, inl, inr, arith, Bool-cases,
  Option-cases, if◌then◌else◌,
}
use yield_forge.Base.Int.{ℤ, ◌+ℤ◌, ltb_ℤ}
use yield_forge.Base.Text.{Text}
use yield_forge.Base.Result.{Result, ok, err, session_not_found, Result-cases}
use yield_forge.Base.Unique.{
  find_by, is_free, is_free-none, find_by-All, find_by-append_new, find_by-drop_by, find_by-find_by,
}
use yield_forge.Base.Database.{Database}
use yield_forge.Base.Effect.{go_on, go_on-ok}
use yield_forge.Marketdata.Quote.{Time}
use yield_forge.Auth.{User, Session, Library, normalize_email, new_session_token, hash_token}
use yield_forge.Auth.Service.{PasswordHasher, Service, login, logout, authenticate, found_or_denied}
use yield_forge.Auth.Postgres.{
  Tables, user_id, user_email, session_id, session_token, new_session, get_user_by_email,
  get_user_by_id, create_session, insert_session, get_session_by_token_hash, delete_session,
}
use yield_forge.Auth.WellFormed.{IsCanonical}
use yield_forge.Auth.Reachable.{Reachable, deployed, Reachable-IsWellFormed}

module _ (lib : Library) (db : Database) (hasher : PasswordHasher) (ttl : ℤ) (dummy : Text) where
  abbrev service : Service Tables
  service = deployed db hasher ttl dummy

  -- After a logout the token lets nobody in, at any time.
  authenticate-logout :
      (now : Time) (token : Text) (s : Tables)
      → (authenticate lib service now token (logout lib service token s).1).0
        ≡ err session_not_found
  unfolding authenticate logout delete_session get_session_by_token_hash
  authenticate-logout now [] s = refl
  authenticate-logout now (c ∷ token) s =
      rw (find_by-drop_by session_token (hash_token lib (c ∷ token)) s.sessions) refl

  -- Whoever a token lets in is the user of a stored session with the hash of the token, and that
  -- session expires after now.
  pub authenticate-ok :
      (now : Time) (token : Text) (s : Tables) (user : User)
      → (authenticate lib service now token s).0 ≡ ok user
      → (session : Session) × (find_by session_token (hash_token lib token) s.sessions
          ≡ some session)
        × (ltb_ℤ now session.expires_at ≡ true)
        × (get_user_by_id db session.user_id s ≡ ok user)
  unfolding authenticate get_session_by_token_hash
  authenticate-ok now [] s user h = ground (arith, h)
  authenticate-ok now (c ∷ token) s user h =
      elim (Option-cases (find_by session_token (hash_token lib (c ∷ token)) s.sessions)) [
        | inl missing ↦ ground (arith, h, missing)
        | inr (x, found) ↦ elim (Bool-cases (ltb_ℤ now x.expires_at)) [
          | inl valid ↦ (x, found, valid, ground (arith, h, found, valid))
          | inr over ↦ ground (arith, h, found, over)
        ]
      ]

  created_session :
      (o : Option Text) (hash : Text) (at : Time) (s : Tables) (x : Session)
      → (insert_session db o hash at s).0 ≡ ok x
      → (owner : Text) × (o ≡ some owner)
        × (find_by session_token hash (insert_session db o hash at s).1.sessions
            ≡ some (new_session db owner hash at s.drawn))
        × ((insert_session db o hash at s).1.users ≡ s.users)
  created_session none hash at s x h = ground (arith, h)
  created_session (some owner) hash at s x h = elim (Option-cases (find_by user_id owner s.users)) [
    | inl missing ↦ ground (arith, h, missing)
    | inr (user, found) ↦ elim (Bool-cases (is_free session_token hash s.sessions)) [
      | inr taken ↦ ground (arith, h, found, taken)
      | inl new ↦ elim (Bool-cases (is_free session_id (db.new_id s.drawn) s.sessions)) [
        | inr taken ↦ ground (arith, h, found, new, taken)
        | inl fresh ↦ (
          owner,
          refl,
          rw (found, new, fresh)
              (find_by-append_new session_token s.sessions (new_session db owner hash at s.drawn)
                (is_free-none session_token hash s.sessions new)),
          rw (found, new, fresh) refl,
        )
      ]
    ]
  ]

  -- What a login that succeeds leaves behind.
  record IsLogin (now : Time) (user : User) (token : Text) (s t : Tables) : Type 0 where
    owner : Text
    cast : db.uuid user.id ≡ some owner
    email_row : (email : Text) × (find_by user_email email s.users ≡ some user)
    session_row :
        find_by session_token (hash_token lib token) t.sessions
        ≡ some (new_session db owner (hash_token lib token) (now +ℤ ttl) s.drawn)
    users_kept : t.users ≡ s.users

  found_by_email :
      (email : Text) (s : Tables) (user : User)
      → found_or_denied lib service (get_user_by_email db email s) ≡ ok user
      → find_by user_email email s.users ≡ some user
  unfolding get_user_by_email
  found_by_email email s user h = elim (Option-cases (find_by user_email email s.users)) [
    | inl missing ↦ ground (arith, h, missing)
    | inr (x, found) ↦ ground (arith, h, found)
  ]

  -- The last step of a login, for a user and a token that was made.
  abbrev issue : Time → User → Text → Tables → Result (User × Text) × Tables
  issue now x made s =
      go_on {B = User × Text} (λ session t. (ok (x, made), t))
        (create_session db x.id (hash_token lib made) (now +ℤ ttl) s)

  issue-IsLogin :
      (now : Time) (email token made : Text) (s : Tables) (user x : User)
      → find_by user_email email s.users ≡ some x
      → (issue now x made s).0 ≡ ok (user, token)
      → IsLogin now user token s (issue now x made s).1
  unfolding create_session
  issue-IsLogin now email token made s user x found h =
      let out = insert_session db (db.uuid x.id) (hash_token lib made) (now +ℤ ttl) s in
      let asked : User × Text = (x, made) in
      let answered : User × Text = (user, token) in
      let answer = go_on-ok asked answered out h in
      let row =
        created_session (db.uuid x.id) (hash_token lib made) (now +ℤ ttl) s answer.1.0 answer.1.1 in
      subst (λ p. IsLogin now p.0 p.1 s (issue now x made s).1) answer.0
        (record {
          owner = row.0;
          cast = row.1;
          email_row = (email, found);
          session_row = rw answer.2 row.2;
          users_kept = rw answer.2 row.3;
        })

  login-IsLogin :
      (drawn : Result (List ℕ)) (now : Time) (email password token : Text) (s : Tables)
      (user : User)
      → (login lib service drawn now email password s).0 ≡ ok (user, token)
      → IsLogin now user token s (login lib service drawn now email password s).1
  unfolding login
  login-IsLogin drawn now email password token s user =
      elim (Result-cases
        (found_or_denied lib service (get_user_by_email db (normalize_email lib email) s))) [
          | inr (e, bad) ↦ rw bad (λ h. ground (arith, h))
          | inl (x, found) ↦ elim (Result-cases (hasher.compare x.password_hash password)) [
            | inr (e, bad) ↦ rw (found, bad) (λ h. ground (arith, h))
            | inl (done, matched) ↦ elim (Result-cases (new_session_token lib drawn)) [
              | inr (e, bad) ↦ rw (found, matched, bad) (λ h. ground (arith, h))
              | inl (made, new) ↦
                  rw (found, matched, new)
                    (issue-IsLogin now (normalize_email lib email) token made s user x
                      (found_by_email (normalize_email lib email) s x found))
            ]
          ]
        ]

  -- Where the identifiers that the database draws are in canonical form, and in a state that the
  -- service reaches: once a login has answered a user and a token that is not empty, the token lets
  -- that user in at every time before the expiry that the database keeps, the time of the login plus
  -- the lifetime of sessions, and nobody from then on.
  pub authenticate-login :
      ((n : ℕ) → db.uuid (db.new_id n) ≡ some (db.new_id n))
      → (drawn : Result (List ℕ)) (now later : Time) (email password : Text) (c : ℕ) (token : Text)
        (s : Tables) (user : User)
      → Reachable lib service s
      → (login lib service drawn now email password s).0 ≡ ok (user, c ∷ token)
      → (authenticate lib service later
          (c ∷ token)
          (login lib service drawn now email password s).1).0
        ≡ (if ltb_ℤ later (db.timestamp (now +ℤ ttl)) then ok user else err session_not_found)
  unfolding authenticate get_session_by_token_hash get_user_by_id
  authenticate-login canonical drawn now later email password c token s user past h =
      let w = Reachable-IsWellFormed lib db canonical hasher ttl dummy past in
      let left = login-IsLogin drawn now email password (c ∷ token) s user h in
      let t = (login lib service drawn now email password s).1 in
      let id : db.uuid user.id ≡ some user.id =
        find_by-All user_email (IsCanonical db) left.email_row.0 s.users user w.canonical
          left.email_row.1 in
      let same : left.owner ≡ user.id = ground (arith, id, left.cast) in
      let row : find_by user_id user.id s.users ≡ some user =
        find_by-find_by user_email user_id left.email_row.0 s.users user w.ids left.email_row.1 in
      elim (Bool-cases (ltb_ℤ later (db.timestamp (now +ℤ ttl)))) [
        | inl valid ↦ rw (left.session_row, valid, same, id, left.users_kept, row) refl
        | inr over ↦ rw (left.session_row, over) refl
      ]
