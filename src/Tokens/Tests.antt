-- ===== src/Tokens/Tests.antt =====
-- One session that is refreshed, and its first token presented again.
use competition_factory_serv.Prelude.{
  ℕ, ◌+◌, ◌≤◌, String, ◌≡◌, refl, Option, none, some, List, [], ◌∷◌,
}
use competition_factory_serv.Tokens.Refresh.{
  RefreshTokenRow, Table, Fresh, Rotation, unauthorized, find_by_hash, look_up, finish, rotate,
  Request, login, refresh, logout, purge, serve_all,
}
use competition_factory_serv.Tokens.Refresh.Counting.{live_count, logins}
use competition_factory_serv.Tokens.Refresh.Families.{serve_all-live_count}
use competition_factory_serv.Tokens.Refresh.Reuse.{IsRefused, replay_ends_family, finish_both}

-- Any text stands for its own hash.
abbrev hash : String → String
hash token = token

abbrev fresh_one : Fresh
fresh_one = record { token = "rtok_1"; token_id = "id1" }

abbrev fresh_two : Fresh
fresh_two = record { token = "rtok_2"; token_id = "id2" }

abbrev fresh_three : Fresh
fresh_three = record { token = "rtok_3"; token_id = "id3" }

abbrev session : List (ℕ × Request)
session =
    (0, login fresh_one "f1" "u1" "u1@club" none (some "p1"))
    ∷ (5, refresh "rtok_1" fresh_two none)
    ∷ (6, purge)
    ∷ []

abbrev first_row : RefreshTokenRow
first_row = record {
  token_id = "id1";
  user_id = "u1";
  email = "u1@club";
  token_hash = "rtok_1";
  family_id = "f1";
  expires_at = 2592000000;
  revoked_at = none;
  replaced_by = none;
  user_agent = none;
  acting_provider_id = some "p1";
}

abbrev used_row : RefreshTokenRow
used_row = record first_row { revoked_at = some 5; replaced_by = some "id2" }

abbrev second_row : RefreshTokenRow
second_row = record first_row { token_id = "id2"; token_hash = "rtok_2"; expires_at = 2592000005 }

session_rows : serve_all hash [] session ≡ used_row ∷ second_row ∷ []
unfolding serve_all
session_rows = refl

replay_refused : rotate hash "rtok_1" fresh_three none 7 (used_row ∷ second_row ∷ []) ≡ (
  unauthorized "Refresh token already used",
  used_row ∷ record second_row { revoked_at = some 7 } ∷ [],
)
unfolding rotate
replay_refused = refl

serve_all-live_count_example :
    live_count "f1" (serve_all hash [] session) ≤ live_count "f1" [] + logins "f1" session
serve_all-live_count_example = serve_all-live_count hash "f1" session []

abbrev later_requests : List (ℕ × Request)
later_requests = (8, refresh "rtok_2" fresh_three none) ∷ (9, logout "rtok_2") ∷ []

abbrev after_replay : Table
after_replay =
    serve_all hash (rotate hash "rtok_1" fresh_three none 7 (used_row ∷ second_row ∷ [])).1
      later_requests

replay_ends_family_example :
    IsRefused (rotate hash "rtok_1" fresh_three none 7 (used_row ∷ second_row ∷ [])).0
    × (live_count "f1" after_replay ≡ 0)
    × ((presented : String) (later : ℕ) (new : Fresh) (by : Option String) (found : RefreshTokenRow)
        → find_by_hash (hash presented) after_replay ≡ some found
        → found.family_id ≡ "f1"
        → IsRefused (rotate hash presented new by later after_replay).0)
replay_ends_family_example =
    replay_ends_family hash "rtok_1" 7 fresh_three none (used_row ∷ second_row ∷ []) used_row
      later_requests refl refl refl refl

abbrev both_read : Rotation × Table
both_read = finish hash (look_up hash "rtok_1" 5 (first_row ∷ [])) fresh_two none 5 (first_row ∷ [])

abbrev both_done : Rotation × Table
both_done = finish hash (look_up hash "rtok_1" 6 (first_row ∷ [])) fresh_three none 6 both_read.1

finish_both_example :
    (¬ IsRefused both_read.0) × (¬ IsRefused both_done.0) × (2 ≤ live_count "f1" both_done.1)
finish_both_example =
    finish_both hash "rtok_1" 5 6 fresh_two fresh_three none (first_row ∷ []) first_row refl refl
      refl refl refl refl refl
