-- ===== src/Auth/Accounts.antt =====
-- internal/auth/service.go: what an account lets in.
use yield_forge.Base.{
  ℕ, true, some, List, [], ◌∷◌, ◌++◌, ◌≡◌, refl, sym, subst, inl, inr, arith, Bool-cases,
  Option-cases, ◌≤◌, ◌↔◌,
}
use yield_forge.Base.Int.{ℤ}
use yield_forge.Base.Text.{Text}
use yield_forge.Base.Result.{Result, ok, err, email_taken, invalid_credentials, Result-cases}
use yield_forge.Base.Unique.{find_by, is_free, is_free-none, find_by-append_new}
use yield_forge.Base.Database.{Database}
use yield_forge.Marketdata.Quote.{Time}
use yield_forge.Auth.{
  User, Library, normalize_email, validate_email, validate_password, new_session_token, hash_token,
  byte_length, check_address,
}
use yield_forge.Auth.Service.{PasswordHasher, Service, register, login}
use yield_forge.Auth.Postgres.{
  Tables, user_id, user_email, session_id, session_token, create_user, get_user_by_email,
  create_session, new_user,
}
use yield_forge.Auth.Reachable.{deployed}

-- A password is accepted just when its length is from 8 to 72 bytes.
validate_password_iff :
    (password : Text)
    → (validate_password password ≡ ok tt)
      ↔ ((8 ≤ byte_length password) × (byte_length password ≤ 72))
unfolding validate_password
validate_password_iff password = ground arith

module _ (lib : Library) (db : Database) (hasher : PasswordHasher) (ttl : ℤ) (dummy : Text) where
  abbrev service : Service Tables
  service = deployed db hasher ttl dummy

  taken :
      (email hash : Text) (s : Tables) (row : User)
      → find_by user_email email s.users ≡ some row
      → create_user db email hash s ≡ (err email_taken, s)
  unfolding create_user
  taken email hash s row found = rw found refl

  -- An email that has an account is not registered again, however it is written, and the tables stay
  -- as they were.
  register-taken :
      (salt : ℕ) (email password address hash : Text) (s : Tables) (row : User)
      → validate_email lib email ≡ ok address
      → validate_password password ≡ ok tt
      → hasher.hash salt password ≡ ok hash
      → find_by user_email address s.users ≡ some row
      → register lib service salt email password s ≡ (err email_taken, s)
  unfolding register
  register-taken salt email password address hash s row valid strong hashed found =
      rw (valid, strong, hashed) (taken address hash s row found)

  -- A login whose email has no account, or has one whose password is not the given one, answers one
  -- error and leaves the tables as they were.
  login-denied :
      (drawn : Result (List ℕ)) (now : Time) (email password : Text) (s : Tables)
      → ((row : User)
          → find_by user_email (normalize_email lib email) s.users ≡ some row
          → hasher.compare row.password_hash password ≡ err invalid_credentials)
      → login lib service drawn now email password s ≡ (err invalid_credentials, s)
  unfolding login get_user_by_email
  login-denied drawn now email password s wrong =
      elim (Option-cases (find_by user_email (normalize_email lib email) s.users)) [
        | inl missing ↦ rw missing refl
        | inr (row, found) ↦ rw (found, wrong row found) refl
      ]

  created_user :
      (email hash : Text) (s : Tables) (user : User)
      → (create_user db email hash s).0 ≡ ok user
      → (find_by user_email email (create_user db email hash s).1.users ≡ some user)
        × (find_by user_id user.id (create_user db email hash s).1.users ≡ some user)
        × (user.password_hash ≡ hash)
        × ((n : ℕ) × (user.id ≡ db.new_id n))
  unfolding create_user
  created_user email hash s user =
      let r : User = new_user db email hash s.drawn in
      elim (Bool-cases (is_free user_email email s.users)) [
        | inr held ↦ rw held (λ h. ground (arith, h))
        | inl new ↦ elim (Bool-cases (is_free user_id r.id s.users)) [
          | inr held ↦ rw (new, held) (λ h. ground (arith, h))
          | inl fresh ↦
              rw (new, fresh)
                (λ h.
                  let same : r ≡ user = ground (arith, h) in
                  subst
                    (λ x.
                      (find_by user_email email (s.users ++ r ∷ []) ≡ some x)
                      × (find_by user_id x.id (s.users ++ r ∷ []) ≡ some x)
                      × (x.password_hash ≡ hash)
                      × ((n : ℕ) × (x.id ≡ db.new_id n)))
                    same
                    (
                      find_by-append_new user_email s.users r
                          (is_free-none user_email email s.users new),
                      find_by-append_new user_id s.users r
                          (is_free-none user_id r.id s.users fresh),
                      refl,
                      (s.drawn, refl),
                    ))
        ]
      ]

  -- What a registration that succeeds leaves behind.
  record IsRegistered (email password : Text) (user : User) (t : Tables) : Type 0 where
    email_row : find_by user_email (normalize_email lib email) t.users ≡ some user
    id_row : find_by user_id user.id t.users ≡ some user
    hashed : (salt : ℕ) × (hasher.hash salt password ≡ ok user.password_hash)
    drawn_id : (n : ℕ) × (user.id ≡ db.new_id n)

  validate_email-ok :
      (email address : Text)
      → validate_email lib email ≡ ok address
      → address ≡ normalize_email lib email
  unfolding validate_email
  validate_email-ok email address h = go (normalize_email lib email) h
    where
      go : (e : Text) → check_address lib e ≡ ok address → address ≡ e
      go [] h = ground (arith, h)
      go (c ∷ e) h = ground (arith, h)

  register-IsRegistered :
      (salt : ℕ) (email password : Text) (s : Tables) (user : User)
      → (register lib service salt email password s).0 ≡ ok user
      → IsRegistered email password user (register lib service salt email password s).1
  unfolding register
  register-IsRegistered salt email password s user =
      elim (Result-cases (validate_email lib email)) [
        | inr (e, bad) ↦ rw bad (λ h. ground (arith, h))
        | inl (address, good) ↦ elim (Result-cases (validate_password password)) [
          | inr (e, bad) ↦ rw (good, bad) (λ h. ground (arith, h))
          | inl (done, fine) ↦ elim (Result-cases (hasher.hash salt password)) [
            | inr (e, bad) ↦ rw (good, fine, bad) (λ h. ground (arith, h))
            | inl (hash, made) ↦
                rw (good, fine, made)
                  (λ h.
                    let row = created_user address hash s user h in
                    record {
                      email_row = rw (sym (validate_email-ok email address good)) row.0;
                      id_row = row.1;
                      hashed = (salt, rw row.2 made);
                      drawn_id = row.3;
                    })
          ]
        ]
      ]

  -- Where the hasher accepts the password that a hash was made from, and the database draws
  -- identifiers in canonical form: after a registration that succeeds, a login with the same password
  -- and any writing of the same email answers the new user and the token that was drawn, if neither
  -- the hash of the token nor the identifier drawn for the session is held by a session already.
  pub login-register :
      ((n : ℕ) → db.uuid (db.new_id n) ≡ some (db.new_id n))
      → ((salt : ℕ) (password hash : Text)
          → hasher.hash salt password ≡ ok hash
          → hasher.compare hash password ≡ ok tt)
      → (salt : ℕ) (email again password : Text) (now : Time) (bytes : List ℕ) (s : Tables)
        (user : User)
      → (register lib service salt email password s).0 ≡ ok user
      → normalize_email lib again ≡ normalize_email lib email
      → let t = (register lib service salt email password s).1 in
        is_free session_token (hash_token lib (lib.base64_url bytes)) t.sessions ≡ true
        → is_free session_id (db.new_id t.drawn) t.sessions ≡ true
        → (login lib service (ok bytes) now again password t).0 ≡ ok (user, lib.base64_url bytes)
  unfolding login get_user_by_email create_session new_session_token
  login-register canonical accepts salt email again password now bytes s user h same free fresh =
      let r = register-IsRegistered salt email password s user h in
      let matched = accepts r.hashed.0 password user.password_hash r.hashed.1 in
      let cast : db.uuid user.id ≡ some user.id = rw r.drawn_id.1 (canonical r.drawn_id.0) in
      rw (same, r.email_row, matched, cast, r.id_row, free, fresh) refl
