-- ===== src/Services/Users.antt =====
-- The user repository and the guard that the services make of it: `DbUserRepository` of
-- src/services/user.rs.
use torrust_index.Base.{ℕ, not}
use torrust_index.Database.{Database}
use torrust_index.Errors.{ServiceError, user_not_found, unauthorized}
use torrust_index.Models.{UserCompact}
use torrust_index.Services.World.{Action, ◌>>=◌, refuse_if, read}

module _ {S : Type 0} (database : Database S) where
  unfoldable pub get_compact : ℕ → Action S ServiceError UserCompact
  get_compact user_id = read (λ e. user_not_found) (database.get_user_compact_from_id user_id)

  -- the two steps that every operation for administrators starts with
  unfoldable pub require_administrator : ℕ → Action S ServiceError (Unit {0})
  unfolding get_compact
  require_administrator user_id = do
    user ← get_compact user_id
    refuse_if (not user.administrator) unauthorized
