-- ===== src/Auth/Service.antt =====
-- internal/auth/service.go, over the ports of ports.go: states are passed from call to call, the
-- clock's now is an argument, and so is what is drawn at random. The time a call takes is left out.
use yield_forge.Base.{ℕ, List, [], ◌∷◌, Option, none, some, if◌then◌else◌}
use yield_forge.Base.Int.{ℤ, ◌+ℤ◌, ltb_ℤ}
use yield_forge.Base.Text.{Text, codes}
use yield_forge.Base.Result.{
  Result, ok, err, user_not_found, invalid_credentials, session_not_found,
}
use yield_forge.Base.Effect.{Op, lift, query, ◌>>=◌}
use yield_forge.Marketdata.Quote.{Time}
use yield_forge.Auth.{
  User, Session, Library, normalize_email, validate_email, validate_password, new_session_token,
  hash_token,
}

pub record UserRepository (S : Type 0) : Type 0 where
  pub create_user : Text → Text → Op S User
  pub get_user_by_email : Text → S → Result User
  pub get_user_by_id : Text → S → Result User

pub record SessionRepository (S : Type 0) : Type 0 where
  pub create_session : Text → Text → Time → Op S Session
  pub get_session_by_token_hash : Text → S → Result Session
  pub delete_session : Text → Op S (Unit {0})

-- The number stands for the salt that the hash draws.
pub record PasswordHasher : Type 0 where
  pub hash : ℕ → Text → Result Text
  pub compare : Text → Text → Result (Unit {0})

pub record Service (S : Type 0) : Type 0 where
  pub users : UserRepository S
  pub sessions : SessionRepository S
  pub hasher : PasswordHasher
  pub ttl : ℤ
  pub dummy_hash : Text

module _ {S : Type 0} where
  -- `none` is the panic.
  abbrev with_dummy :
      UserRepository S → SessionRepository S → PasswordHasher → ℤ → Result Text → Option (Service S)
  with_dummy users sessions hasher ttl (err e) = none
  with_dummy users sessions hasher ttl (ok dummy) = some (record {
    users = users;
    sessions = sessions;
    hasher = hasher;
    ttl = ttl;
    dummy_hash = dummy;
  })

  unfoldable pub new_service :
      UserRepository S → SessionRepository S → PasswordHasher → ℤ → ℕ → Option (Service S)
  new_service users sessions hasher ttl salt =
      with_dummy users sessions hasher ttl
        (hasher.hash salt (codes "yieldforge-constant-time-dummy"))

module _ {S : Type 0} (lib : Library) (service : Service S) where
  unfoldable pub register : ℕ → Text → Text → Op S User
  register salt email password s =
      (do
        normalized ← lift (validate_email lib email)
        done ← lift (validate_password password)
        hash ← lift (service.hasher.hash salt password)
        service.users.create_user normalized hash)
        s

  -- An unknown email costs a comparison too, whose answer is dropped.
  abbrev pub found_or_denied : Result User → Result User
  found_or_denied (ok user) = ok user
  found_or_denied (err user_not_found) = err invalid_credentials
  found_or_denied (err e) = err e

  unfoldable pub login : Result (List ℕ) → Time → Text → Text → Op S (User × Text)
  login drawn now email password s =
      (do
        user ←
            query
              (λ t. found_or_denied (service.users.get_user_by_email (normalize_email lib email) t))
        matched ← lift (service.hasher.compare user.password_hash password)
        token ← lift (new_session_token lib drawn)
        session ←
            service.sessions.create_session user.id (hash_token lib token) (now +ℤ service.ttl)
        lift (ok (user, token)))
        s

  unfoldable pub get_user_by_id : Text → S → Result User
  get_user_by_id id s = service.users.get_user_by_id id s

  unfoldable pub logout : Text → Op S (Unit {0})
  logout [] s = (ok tt, s)
  logout (c ∷ token) s = service.sessions.delete_session (hash_token lib (c ∷ token)) s

  -- The session at the clock's now; what the deletion of an expired one answers is dropped.
  abbrev pub admit : Time → Session → Op S User
  admit now session s =
      if ltb_ℤ now session.expires_at
      then (service.users.get_user_by_id session.user_id s, s)
      else (err session_not_found, (service.sessions.delete_session session.token_hash s).1)

  unfoldable pub authenticate : Time → Text → Op S User
  authenticate now [] s = (err session_not_found, s)
  authenticate now (c ∷ token) s =
      (do
        session ← query (service.sessions.get_session_by_token_hash (hash_token lib (c ∷ token)))
        admit now session)
        s
