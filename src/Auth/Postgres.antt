-- ===== src/Auth/Postgres.antt =====
-- internal/auth/postgres/postgres.go: the two repositories over the tables of
-- migrations/0002_auth.up.sql, with their unique indexes and the foreign key.
use yield_forge.Base.{ℕ, suc, ◌&&◌, not, Option, none, some, List, [], ◌∷◌, ◌++◌, if◌then◌else◌}
use yield_forge.Base.Text.{Text}
use yield_forge.Base.Result.{
  Result, ok, err, failure, email_taken, user_not_found, session_not_found,
}
use yield_forge.Base.Unique.{find_by, drop_by, is_free}
use yield_forge.Base.Effect.{Op}
use yield_forge.Base.Database.{Database}
use yield_forge.Marketdata.Quote.{Time}
use yield_forge.Auth.{User, Session}
use yield_forge.Auth.Service.{UserRepository, SessionRepository}

-- The two tables, and how many identifiers were drawn.
pub record Tables : Type 0 where
  pub users : List User
  pub sessions : List Session
  pub drawn : ℕ

abbrev pub user_id : User → Text
user_id r = r.id

abbrev pub user_email : User → Text
user_email r = r.email

abbrev pub session_id : Session → Text
session_id r = r.id

abbrev pub session_token : Session → Text
session_token r = r.token_hash

module _ (db : Database) where
  abbrev pub new_user : Text → Text → ℕ → User
  new_user email password_hash n = record {
    id = db.new_id n;
    email = email;
    password_hash = password_hash;
    created_at = db.now n;
    updated_at = db.now n;
  }

  -- A violation of either unique index has the code that is looked for.
  unfoldable pub create_user : Text → Text → Op Tables User
  create_user email password_hash s =
      let r = new_user email password_hash s.drawn in
      if is_free user_email email s.users && is_free user_id r.id s.users
      then (ok r, record s { users = s.users ++ r ∷ []; drawn = suc s.drawn })
      else (err email_taken, s)

  abbrev pub scan_user : Option User → Result User
  scan_user none = err user_not_found
  scan_user (some r) = ok r

  unfoldable pub get_user_by_email : Text → Tables → Result User
  get_user_by_email email s = scan_user (find_by user_email email s.users)

  -- By what the cast of the identifier gives.
  abbrev pub select_user : Option Text → Tables → Result User
  select_user none s = err user_not_found
  select_user (some id) s = scan_user (find_by user_id id s.users)

  unfoldable pub get_user_by_id : Text → Tables → Result User
  get_user_by_id id s = select_user (db.uuid id) s

  abbrev pub new_session : Text → Text → Time → ℕ → Session
  new_session owner token_hash expires_at n = record {
    id = db.new_id n;
    user_id = owner;
    token_hash = token_hash;
    expires_at = db.timestamp expires_at;
    created_at = db.now n;
  }

  abbrev pub insert_session : Option Text → Text → Time → Op Tables Session
  insert_session none token_hash expires_at s = (err (failure 0), s)
  insert_session (some owner) token_hash expires_at s =
      let r = new_session owner token_hash expires_at s.drawn in
      if not (is_free user_id owner s.users)
        && is_free session_token token_hash s.sessions
        && is_free session_id r.id s.sessions
      then (ok r, record s { sessions = s.sessions ++ r ∷ []; drawn = suc s.drawn })
      else (err (failure 0), s)

  unfoldable pub create_session : Text → Text → Time → Op Tables Session
  create_session id token_hash expires_at s = insert_session (db.uuid id) token_hash expires_at s

  abbrev pub scan_session : Option Session → Result Session
  scan_session none = err session_not_found
  scan_session (some r) = ok r

  unfoldable pub get_session_by_token_hash : Text → Tables → Result Session
  get_session_by_token_hash token_hash s =
      scan_session (find_by session_token token_hash s.sessions)

  unfoldable pub delete_session : Text → Op Tables (Unit {0})
  delete_session token_hash s =
      (ok tt, record s { sessions = drop_by session_token token_hash s.sessions })

  abbrev pub user_repository : UserRepository Tables
  user_repository = record {
    create_user = create_user;
    get_user_by_email = get_user_by_email;
    get_user_by_id = get_user_by_id;
  }

  abbrev pub session_repository : SessionRepository Tables
  session_repository = record {
    create_session = create_session;
    get_session_by_token_hash = get_session_by_token_hash;
    delete_session = delete_session;
  }
