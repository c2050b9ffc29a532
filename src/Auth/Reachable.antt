-- ===== src/Auth/Reachable.antt =====
-- internal/auth: the calls of the service over its repositories, as steps of a state machine.
use yield_forge.Base.{ℕ, some, List, [], ◌∷◌, ◌≡◌, inl, inr, Bool-cases}
use yield_forge.Base.Int.{ℤ, ◌+ℤ◌, ltb_ℤ}
use yield_forge.Base.Text.{Text}
use yield_forge.Base.Result.{Result, ok, err, Result-cases}
use yield_forge.Base.Effect.{go_on}
use yield_forge.Base.Database.{Database}
use yield_forge.Base.Unique.{IsUnique}
use yield_forge.Marketdata.Quote.{Time}
use yield_forge.Auth.{
  Library, normalize_email, validate_email, validate_password, new_session_token, hash_token,
}
use yield_forge.Auth.Service.{
  PasswordHasher, Service, register, login, logout, authenticate, found_or_denied,
}
use yield_forge.Auth.Postgres.{
  Tables, user_repository, session_repository, get_user_by_email, get_session_by_token_hash,
}
use yield_forge.Auth.WellFormed.{
  IsWellFormed, create_user-IsWellFormed, create_session-IsWellFormed, delete_session-IsWellFormed,
}

abbrev pub deployed : Database → PasswordHasher → ℤ → Text → Service Tables
deployed db hasher ttl dummy_hash = record {
  users = user_repository db;
  sessions = session_repository db;
  hasher = hasher;
  ttl = ttl;
  dummy_hash = dummy_hash;
}

abbrev pub no_tables : Tables
no_tables = record { users = []; sessions = []; drawn = 0 }

-- One call of the service, whatever it answers.
pub data Step (lib : Library) (service : Service Tables) : Tables → Tables → Type 0 where
  registers :
      (salt : ℕ) (email password : Text) (s : Tables)
      → Step lib service s (register lib service salt email password s).1
  logs_in :
      (drawn : Result (List ℕ)) (now : Time) (email password : Text) (s : Tables)
      → Step lib service s (login lib service drawn now email password s).1
  logs_out : (token : Text) (s : Tables) → Step lib service s (logout lib service token s).1
  authenticates :
      (now : Time) (token : Text) (s : Tables)
      → Step lib service s (authenticate lib service now token s).1

pub data Reachable (lib : Library) (service : Service Tables) : Tables → Type 0 where
  start : Reachable lib service no_tables
  after : (s t : Tables) → Reachable lib service s → Step lib service s t → Reachable lib service t

module _ (lib : Library) (db : Database)
    (drawn_canonical : (n : ℕ) → db.uuid (db.new_id n) ≡ some (db.new_id n))
    (hasher : PasswordHasher) (ttl : ℤ) (dummy : Text) where
  abbrev service : Service Tables
  service = deployed db hasher ttl dummy

  register-IsWellFormed :
      (salt : ℕ) (email password : Text) (s : Tables)
      → IsWellFormed db s
      → IsWellFormed db (register lib service salt email password s).1
  unfolding register
  register-IsWellFormed salt email password s w = elim (Result-cases (validate_email lib email)) [
    | inr (e, bad) ↦ rw bad w
    | inl (address, good) ↦ elim (Result-cases (validate_password password)) [
      | inr (e, bad) ↦ rw (good, bad) w
      | inl (done, fine) ↦ elim (Result-cases (hasher.hash salt password)) [
        | inr (e, bad) ↦ rw (good, fine, bad) w
        | inl (h, hashed) ↦
            rw (good, fine, hashed) (create_user-IsWellFormed db drawn_canonical address h s w)
      ]
    ]
  ]

  kept_by_answer :
      {A B : Type 0} (f : A → B) (out : Result A × Tables)
      → IsWellFormed db out.1
      → IsWellFormed db (go_on (λ a t. (ok (f a), t)) out).1
  kept_by_answer f (ok a, t) w = w
  kept_by_answer f (err e, t) w = w

  login-IsWellFormed :
      (drawn : Result (List ℕ)) (now : Time) (email password : Text) (s : Tables)
      → IsWellFormed db s
      → IsWellFormed db (login lib service drawn now email password s).1
  unfolding login
  login-IsWellFormed drawn now email password s w =
      elim (Result-cases
        (found_or_denied lib service (get_user_by_email db (normalize_email lib email) s))) [
          | inr (e, bad) ↦ rw bad w
          | inl (user, found) ↦ elim (Result-cases (hasher.compare user.password_hash password)) [
            | inr (e, bad) ↦ rw (found, bad) w
            | inl (done, matched) ↦ elim (Result-cases (new_session_token lib drawn)) [
              | inr (e, bad) ↦ rw (found, matched, bad) w
              | inl (token, made) ↦
                  rw (found, matched, made)
                    (kept_by_answer (λ x. (user, token)) _
                      (create_session-IsWellFormed db drawn_canonical user.id (hash_token lib token)
                        (now +ℤ ttl) s w))
            ]
          ]
        ]

  logout-IsWellFormed :
      (token : Text) (s : Tables)
      → IsWellFormed db s
      → IsWellFormed db (logout lib service token s).1
  unfolding logout
  logout-IsWellFormed [] s w = w
  logout-IsWellFormed (c ∷ token) s w =
      delete_session-IsWellFormed db drawn_canonical (hash_token lib (c ∷ token)) s w

  authenticate-IsWellFormed :
      (now : Time) (token : Text) (s : Tables)
      → IsWellFormed db s
      → IsWellFormed db (authenticate lib service now token s).1
  unfolding authenticate
  authenticate-IsWellFormed now [] s w = w
  authenticate-IsWellFormed now (c ∷ token) s w =
      elim (Result-cases (get_session_by_token_hash db (hash_token lib (c ∷ token)) s)) [
        | inr (e, bad) ↦ rw bad w
        | inl (session, found) ↦ elim (Bool-cases (ltb_ℤ now session.expires_at)) [
          | inl valid ↦ rw (found, valid) w
          | inr over ↦
              rw (found, over)
                (delete_session-IsWellFormed db drawn_canonical session.token_hash s w)
        ]
      ]

  -- Where the identifiers that the database draws are in canonical form, every state that the service
  -- reaches from empty tables keeps the identifiers, the emails and the token hashes unique, the
  -- identifiers canonical, and each session with a user that exists.
  pub Reachable-IsWellFormed : {s : Tables} → Reachable lib service s → IsWellFormed db s
  unfolding IsUnique
  Reachable-IsWellFormed start = record {
    ids = tt;
    emails = tt;
    tokens = tt;
    canonical = tt;
    owned = tt;
  }
  Reachable-IsWellFormed (after s t past (registers salt email password _)) =
      register-IsWellFormed salt email password s (Reachable-IsWellFormed past)
  Reachable-IsWellFormed (after s t past (logs_in drawn now email password _)) =
      login-IsWellFormed drawn now email password s (Reachable-IsWellFormed past)
  Reachable-IsWellFormed (after s t past (logs_out token _)) =
      logout-IsWellFormed token s (Reachable-IsWellFormed past)
  Reachable-IsWellFormed (after s t past (authenticates now token _)) =
      authenticate-IsWellFormed now token s (Reachable-IsWellFormed past)
