-- ===== src/Tests/Auth.antt =====
-- internal/auth over concrete tables, a hasher that keeps the password behind its salt, and a
-- library that keeps every text.
use yield_forge.Base.{
  ℕ, Bool, true, false, some, List, [], ◌∷◌, ◌≡◌, refl, ap, subst, arith, if◌then◌else◌,
}
use yield_forge.Base.Int.{pos, ◌+ℤ◌, ltb_ℤ}
use yield_forge.Base.Text.{Text, codes, text_eq, text_eq_refl, trim_space}
use yield_forge.Base.Result.{Result, ok, err, invalid_credentials, session_not_found}
use yield_forge.Base.Unique.{find_by, is_free}
use yield_forge.Auth.{
  User, Session, Library, normalize_email, validate_email, validate_password, new_session_token,
  hash_token,
}
use yield_forge.Auth.Service.{PasswordHasher, Service, register, login, authenticate}
use yield_forge.Auth.Postgres.{
  Tables, session_id, session_token, get_user_by_id, get_user_by_email, create_user, create_session,
  get_session_by_token_hash,
}
use yield_forge.Auth.WellFormed.{IsWellFormed}
use yield_forge.Auth.Reachable.{
  deployed, no_tables, Reachable, start, after, registers, Reachable-IsWellFormed,
}
use yield_forge.Auth.Sessions.{authenticate-login, authenticate-ok}
use yield_forge.Auth.Accounts.{login-register}
use yield_forge.Tests.{plain, database}

abbrev accept : Bool → Result (Unit {0})
accept true = ok tt
accept false = err invalid_credentials

abbrev matches : Text → Text → Result (Unit {0})
matches [] password = err invalid_credentials
matches (salt ∷ kept) password = accept (text_eq kept password)

abbrev hasher : PasswordHasher
hasher = record { hash = λ salt password. ok (salt ∷ password); compare = matches }

abbrev library : Library
library = record {
  unicode = plain;
  is_address = λ t. true;
  base64_url = λ bytes. bytes;
  sha256 = λ t. t;
  hex = λ bytes. bytes;
}

abbrev auth_service : Service Tables
auth_service = deployed database hasher (pos 10) []

abbrev account : User
account = record {
  id = 0 ∷ [];
  email = codes "ana@b.c";
  password_hash = 7 ∷ codes "password";
  created_at = pos 0;
  updated_at = pos 0;
}

abbrev one_account : Tables
one_account = record { users = account ∷ []; sessions = []; drawn = 1 }

registered :
    register library auth_service 7 (codes "Ana@B.c") (codes "password") no_tables
    ≡ (ok account, one_account)
unfolding register validate_email normalize_email trim_space validate_password create_user find_by
registered = refl

abbrev secret : List ℕ
secret = 5 ∷ 6 ∷ []

abbrev session : Session
session = record {
  id = 1 ∷ [];
  user_id = 0 ∷ [];
  token_hash = secret;
  expires_at = pos 13;
  created_at = pos 1;
}

abbrev one_session : Tables
one_session = record { users = account ∷ []; sessions = session ∷ []; drawn = 2 }

logged_in :
    login library auth_service (ok secret) (pos 3) (codes "ANA@b.c ") (codes "password") one_account
    ≡ (ok (account, secret), one_session)
unfolding login normalize_email trim_space get_user_by_email find_by new_session_token
    create_session hash_token ◌+ℤ◌
logged_in = refl

past : Reachable library auth_service one_account
past =
    subst (λ p. Reachable library auth_service p.1) registered
      (after no_tables
        (register library auth_service 7 (codes "Ana@B.c") (codes "password") no_tables).1 start
        (registers 7 (codes "Ana@B.c") (codes "password") no_tables))

Reachable-IsWellFormed_example : IsWellFormed database one_account
Reachable-IsWellFormed_example =
    Reachable-IsWellFormed library database (λ n. refl) hasher (pos 10) [] past

authenticate-login_example :
    (authenticate library auth_service
      (pos 12)
      secret
      (login library auth_service
        (ok secret)
        (pos 3)
        (codes "ANA@b.c ")
        (codes "password")
        one_account).1).0
    ≡ (if ltb_ℤ (pos 12) (pos 3 +ℤ pos 10) then ok account else err session_not_found)
authenticate-login_example =
    authenticate-login library database hasher (pos 10) [] (λ n. refl) (ok secret) (pos 3) (pos 12)
      (codes "ANA@b.c ") (codes "password") 5 (6 ∷ []) one_account account past
      (ap (λ p. p.0) logged_in)

let_in : (authenticate library auth_service (pos 12) secret one_session).0 ≡ ok account
unfolding authenticate get_session_by_token_hash find_by hash_token get_user_by_id
let_in = refl

authenticate-ok_example :
    (x : Session) × (find_by session_token (hash_token library secret) one_session.sessions
      ≡ some x)
    × (ltb_ℤ (pos 12) x.expires_at ≡ true)
    × (get_user_by_id database x.user_id one_session ≡ ok account)
authenticate-ok_example =
    authenticate-ok library database hasher (pos 10) [] (pos 12) secret one_session account let_in

hasher_accepts :
    (salt : ℕ) (password hash : Text)
    → hasher.hash salt password ≡ ok hash
    → hasher.compare hash password ≡ ok tt
hasher_accepts salt password [] h = ground (arith, h)
hasher_accepts salt password (c ∷ hash) h =
    let same : hash ≡ password = ground (arith, h) in
    let equal : text_eq hash password ≡ true = rw same (text_eq_refl password) in ap accept equal

spelled : normalize_email library (codes "ANA@b.c ") ≡ normalize_email library (codes "Ana@B.c")
unfolding normalize_email trim_space
spelled = refl

free_token :
    let t = (register library auth_service 7 (codes "Ana@B.c") (codes "password") no_tables).1 in
    is_free session_token (hash_token library secret) t.sessions ≡ true
unfolding find_by
free_token = rw registered refl

free_id :
    let t = (register library auth_service 7 (codes "Ana@B.c") (codes "password") no_tables).1 in
    is_free session_id (database.new_id t.drawn) t.sessions ≡ true
unfolding find_by
free_id = rw registered refl

login-register_example :
    (login library auth_service
      (ok secret)
      (pos 3)
      (codes "ANA@b.c ")
      (codes "password")
      (register library auth_service 7 (codes "Ana@B.c") (codes "password") no_tables).1).0
    ≡ ok (account, secret)
login-register_example =
    login-register library database hasher (pos 10) [] (λ n. refl) hasher_accepts 7
      (codes "Ana@B.c") (codes "ANA@b.c ") (codes "password") (pos 3) secret no_tables account
      (ap (λ p. p.0) registered) spelled free_token free_id
