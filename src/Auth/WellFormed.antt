-- ===== src/Auth/WellFormed.antt =====
-- internal/auth/postgres: what the statements keep of the two tables.
use yield_forge.Base.{
  ℕ, Option, none, some, List, [], ◌∷◌, ◌++◌, ◌≡◌, inl, inr, All, All-append, All-map, Bool-cases,
  Option-cases,
}
use yield_forge.Base.Text.{Text}
use yield_forge.Base.Unique.{
  find_by, is_free, is_free-none, IsUnique, append-IsUnique, drop_by-IsUnique, drop_by-All,
  find_by-append_old,
}
use yield_forge.Base.Database.{Database}
use yield_forge.Marketdata.Quote.{Time}
use yield_forge.Auth.{User, Session}
use yield_forge.Auth.Postgres.{
  Tables, user_id, user_email, session_id, session_token, new_user, new_session, create_user,
  insert_session, create_session, delete_session,
}

-- The identifier is in the canonical form that the database gives back.
abbrev pub IsCanonical : Database → User → Type 0
IsCanonical db r = db.uuid r.id ≡ some r.id

-- The session belongs to one of the users.
abbrev pub IsOwned : List User → Session → Type 0
IsOwned users x = (owner : User) × (find_by user_id x.user_id users ≡ some owner)

pub record IsWellFormed (db : Database) (s : Tables) : Type 0 where
  pub ids : IsUnique user_id s.users
  pub emails : IsUnique user_email s.users
  pub tokens : IsUnique session_token s.sessions
  pub canonical : All (IsCanonical db) s.users
  pub owned : All (IsOwned s.users) s.sessions

module _ (db : Database)
    (drawn_canonical : (n : ℕ) → db.uuid (db.new_id n) ≡ some (db.new_id n)) where
  pub create_user-IsWellFormed :
      (email hash : Text) (s : Tables)
      → IsWellFormed db s
      → IsWellFormed db (create_user db email hash s).1
  unfolding create_user
  create_user-IsWellFormed email hash s w =
      let r : User = new_user db email hash s.drawn in
      elim (Bool-cases (is_free user_email email s.users)) [
        | inr taken ↦ rw taken w
        | inl new ↦ elim (Bool-cases (is_free user_id r.id s.users)) [
          | inr taken ↦ rw (new, taken) w
          | inl fresh ↦
              rw (new, fresh)
                (record {
                  ids =
                      append-IsUnique user_id s.users r (is_free-none user_id r.id s.users fresh)
                        w.ids;
                  emails =
                      append-IsUnique user_email s.users r
                        (is_free-none user_email email s.users new) w.emails;
                  tokens = w.tokens;
                  canonical =
                      All-append (IsCanonical db) s.users r w.canonical (drawn_canonical s.drawn);
                  owned =
                      All-map (IsOwned s.users) (IsOwned (s.users ++ r ∷ [])) s.sessions
                        (λ x o. (o.0, find_by-append_old user_id x.user_id s.users r o.0 o.1))
                        w.owned;
                })
        ]
      ]

  insert_session-IsWellFormed :
      (o : Option Text) (hash : Text) (at : Time) (s : Tables)
      → IsWellFormed db s
      → IsWellFormed db (insert_session db o hash at s).1
  insert_session-IsWellFormed none hash at s w = w
  insert_session-IsWellFormed (some owner) hash at s w =
      let r : Session = new_session db owner hash at s.drawn in
      elim (Option-cases (find_by user_id owner s.users)) [
        | inl missing ↦ rw missing w
        | inr (user, found) ↦ elim (Bool-cases (is_free session_token hash s.sessions)) [
          | inr taken ↦ rw (found, taken) w
          | inl new ↦ elim (Bool-cases (is_free session_id r.id s.sessions)) [
            | inr taken ↦ rw (found, new, taken) w
            | inl fresh ↦
                rw (found, new, fresh)
                  (record {
                    ids = w.ids;
                    emails = w.emails;
                    tokens =
                        append-IsUnique session_token s.sessions r
                          (is_free-none session_token hash s.sessions new) w.tokens;
                    canonical = w.canonical;
                    owned = All-append (IsOwned s.users) s.sessions r w.owned (user, found);
                  })
          ]
        ]
      ]

  pub create_session-IsWellFormed :
      (id hash : Text) (at : Time) (s : Tables)
      → IsWellFormed db s
      → IsWellFormed db (create_session db id hash at s).1
  unfolding create_session
  create_session-IsWellFormed id hash at s w = insert_session-IsWellFormed (db.uuid id) hash at s w

  pub delete_session-IsWellFormed :
      (hash : Text) (s : Tables) → IsWellFormed db s → IsWellFormed db (delete_session db hash s).1
  unfolding delete_session
  delete_session-IsWellFormed hash s w = record {
    ids = w.ids;
    emails = w.emails;
    tokens = drop_by-IsUnique session_token hash s.sessions w.tokens;
    canonical = w.canonical;
    owned = drop_by-All session_token (IsOwned s.users) hash s.sessions w.owned;
  }
