-- ===== src/Tokens/Refresh.antt =====
-- src/services/refresh-token.service.ts over the table of
-- src/storage/postgres/postgres-refresh-token.storage.ts. `hash` is the hexadecimal SHA-256 of a token,
-- which the runtime computes; what the runtime or the database makes (tokens, ids) is `Fresh`, and
-- instants are milliseconds. The empty string is what the code tests for truth.
pub mod Counting
pub mod Families
pub mod Reuse
use competition_factory_serv.Prelude.{
  ℕ, ◌+◌, ◌*◌, String, ◌==◌, Bool, true, false, not, ◌&&◌, Option, none, some, List, [], ◌∷◌, ◌++◌,
  map, if◌then◌else◌, leb, find, filter,
}

abbrev pub refresh_token_ttl_ms : ℕ
refresh_token_ttl_ms = 30 * 24 * 60 * 60 * 1000

pub record RefreshTokenRow : Type 0 where
  pub token_id : String
  pub user_id : String
  pub email : String
  pub token_hash : String
  pub family_id : String
  pub expires_at : ℕ
  pub revoked_at : Option ℕ
  pub replaced_by : Option String
  pub user_agent : Option String
  pub acting_provider_id : Option String

abbrev pub Table : Type 0
Table = List RefreshTokenRow

-- A minted token and the id of its row.
pub record Fresh : Type 0 where
  pub token : String
  pub token_id : String

pub record RotationResult : Type 0 where
  pub user_id : String
  pub email : String
  pub refresh_token : String
  pub acting_provider_id : Option String

pub data Rotation : Type 0 where
  unauthorized : String → Rotation
  rotated : RotationResult → Rotation

abbrev pub is_live : RefreshTokenRow → Bool
is_live row = elim row.revoked_at [ none ↦ true | some t ↦ false ]

abbrev pub find_by_hash : String → Table → Option RefreshTokenRow
find_by_hash h table = find (λ row. row.token_hash == h) table

abbrev or_kept : Option String → Option String → Option String
or_kept none kept = kept
or_kept (some id) kept = some id

-- `UPDATE … SET revoked_at = NOW(), … WHERE … AND revoked_at IS NULL`
abbrev pub revoke_if : Bool → ℕ → Option String → RefreshTokenRow → RefreshTokenRow
revoke_if test now successor row =
    if test && is_live row
    then record row { revoked_at = some now; replaced_by = or_kept successor row.replaced_by }
    else row

unfoldable pub revoke_token : String → Option String → ℕ → Table → Table
revoke_token id successor now [] = []
revoke_token id successor now (row ∷ rows) =
    revoke_if (row.token_id == id) now successor row ∷ revoke_token id successor now rows

unfoldable pub revoke_family : String → ℕ → Table → Table
revoke_family family now [] = []
revoke_family family now (row ∷ rows) =
    revoke_if (row.family_id == family) now none row ∷ revoke_family family now rows

unfoldable pub revoke_user : String → ℕ → Table → Table
revoke_user user now [] = []
revoke_user user now (row ∷ rows) =
    revoke_if (row.user_id == user) now none row ∷ revoke_user user now rows

-- What the read at the start of `rotate` leads to.
pub data LookUp : Type 0 where
  refused : String → LookUp
  reused : RefreshTokenRow → LookUp
  valid : RefreshTokenRow → LookUp

module _ (hash : String → String) where
  abbrev pub token_row :
      Fresh → String → String → String → Option String → Option String → ℕ → RefreshTokenRow
  token_row fresh user_id email family_id user_agent acting_provider_id now = record {
    token_id = fresh.token_id;
    user_id = user_id;
    email = email;
    token_hash = hash fresh.token;
    family_id = family_id;
    expires_at = now + refresh_token_ttl_ms;
    revoked_at = none;
    replaced_by = none;
    user_agent = user_agent;
    acting_provider_id = acting_provider_id;
  }

  unfoldable pub issue :
      Fresh → String → String → String → Option String → Option String → ℕ → Table → Table
  issue fresh family user_id email user_agent acting now table =
      table ++ token_row fresh user_id email family user_agent acting now ∷ []

  abbrev look_at : ℕ → Option RefreshTokenRow → LookUp
  look_at now none = refused "Invalid refresh token"
  look_at now (some row) =
      if not (is_live row)
      then reused row
      else if leb row.expires_at now
      then refused "Refresh token expired"
      else valid row

  unfoldable pub look_up : String → ℕ → Table → LookUp
  look_up presented now table =
      if presented == ""
      then refused "Missing refresh token"
      else look_at now (find_by_hash (hash presented) table)

  -- The writes of `rotate`, for the row that was read.
  unfoldable pub finish : LookUp → Fresh → Option String → ℕ → Table → Rotation × Table
  unfolding revoke_family revoke_token
  finish (refused message) fresh agent now table = (unauthorized message, table)
  finish (reused row) fresh agent now table =
      (unauthorized "Refresh token already used", revoke_family row.family_id now table)
  finish (valid row) fresh agent now table = (
    rotated (record {
      user_id = row.user_id;
      email = row.email;
      refresh_token = fresh.token;
      acting_provider_id = row.acting_provider_id;
    }),
    revoke_token row.token_id (some fresh.token_id) now (
        table
        ++ token_row fresh row.user_id row.email row.family_id agent row.acting_provider_id now
          ∷ []),
  )

  -- `rotate` with nothing in between.
  unfoldable pub rotate : String → Fresh → Option String → ℕ → Table → Rotation × Table
  unfolding look_up finish
  rotate presented fresh agent now table =
      finish (look_up presented now table) fresh agent now table

  abbrev revoke_found : ℕ → Table → Option RefreshTokenRow → Table
  revoke_found now table none = table
  revoke_found now table (some row) =
      if is_live row then revoke_token row.token_id none now table else table

  unfoldable pub revoke : String → ℕ → Table → Table
  unfolding revoke_token
  revoke presented now table =
      if presented == ""
      then table
      else revoke_found now table (find_by_hash (hash presented) table)

unfoldable pub revoke_all_for_user : String → ℕ → Table → Table
unfolding revoke_user
revoke_all_for_user user now table = if user == "" then table else revoke_user user now table

abbrev pub delete_expired : ℕ → Table → Table
delete_expired now table = filter (λ row. not (leb row.expires_at now)) table

-- A request, with what it is given. `login` is `issue` with its new family.
pub data Request : Type 0 where
  login : Fresh → String → String → String → Option String → Option String → Request
  refresh : String → Fresh → Option String → Request
  logout : String → Request
  logout_all : String → Request
  purge : Request

module _ (hash : String → String) where
  abbrev pub serve : Table → ℕ → Request → Table
  serve table now (login fresh family user_id email agent acting) =
      issue hash fresh family user_id email agent acting now table
  serve table now (refresh presented fresh agent) = (rotate hash presented fresh agent now table).1
  serve table now (logout presented) = revoke hash presented now table
  serve table now (logout_all user) = revoke_all_for_user user now table
  serve table now purge = delete_expired now table

  unfoldable pub serve_all : Table → List (ℕ × Request) → Table
  unfolding issue rotate revoke revoke_all_for_user
  serve_all table [] = table
  serve_all table ((now, q) ∷ qs) = serve_all (serve table now q) qs
