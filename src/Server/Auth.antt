-- ===== src/Server/Auth.antt =====
-- replicant-server/src/auth.rs, and the users of database.rs. The table of credentials is an argument:
-- its `last_used_at`, which nothing reads, is left out.
use replicant.Prelude.{
  ℕ, ◌+◌, Bool, true, false, ◌&&◌, ◌||◌, not, Option, none, some, List, [], ◌∷◌, ◌++◌, Text,
  text_eq, if◌then◌else◌, ◌==◌,
}
use replicant.Prelude.Int.{ℤ, pos, pos_part, neg_part, sub_ℕ, ltb_ℤ, wrap_i64, show_int}
use replicant.Errors.{SyncResult}
use replicant.Server.State.{M, ◌>>◌, pure, fail, query, put_tables}
use replicant.Server.Database.{unique_violation}

-- A row of `api_credentials`.
pub record ApiCredentials : Type 0 where
  pub api_key : Text
  pub secret : Text
  pub is_active : Bool

-- What the code takes from other crates: HMAC-SHA256 in hexadecimal digits, by its key and its
-- message, the Unix time of a time, and the two sorts of `Uuid` that it makes.
pub record AuthLibrary : Type 0 where
  pub hmac_hex : Text → Text → Text
  pub timestamp : ℕ → ℤ
  pub user_uuid : Text → ℕ
  pub session_uuid : ℕ → ℕ

-- `i64` subtraction and `abs`, which wrap.
unfoldable pub sub_i64 : ℤ → ℤ → ℤ
unfolding wrap_i64
sub_i64 a b = wrap_i64 (sub_ℕ (pos_part a + neg_part b) (neg_part a + pos_part b))

unfoldable pub abs_i64 : ℤ → ℤ
unfolding wrap_i64
abs_i64 a = wrap_i64 (pos (pos_part a + neg_part a))

unfoldable pub in_window : ℤ → ℤ → Bool
unfolding sub_i64 abs_i64
in_window now timestamp = not (ltb_ℤ (pos 300) (abs_i64 (sub_i64 now timestamp)))

unfoldable pub starts_with_rpa : Text → Bool
starts_with_rpa (a ∷ b ∷ c ∷ d ∷ rest) = (a == b'r') && (b == b'p') && (c == b'a') && (d == b'_')
starts_with_rpa _ = false

-- `WHERE api_key = $1 AND is_active = true`; a key is unique.
unfoldable pub find_secret : Text → List ApiCredentials → Option Text
find_secret api_key [] = none
find_secret api_key (c ∷ cs) =
    let rest = find_secret api_key cs in
    if text_eq c.api_key api_key && c.is_active then some c.secret else rest

unfoldable pub find_email : Text → List (ℕ × Text) → Option ℕ
find_email email [] = none
find_email email ((id, e) ∷ users) =
    let rest = find_email email users in if text_eq e email then some id else rest

unfoldable pub get_user_by_email : Text → M (Option ℕ)
unfolding query find_email
get_user_by_email email = query >> (λ s. (SyncResult.ok (find_email email s.tables.users), s))

abbrev pub is_known : ℕ → Text → List (ℕ × Text) → Bool
is_known id email [] = false
is_known id email ((u, e) ∷ users) = (u == id) || text_eq e email || is_known id email users

module _ (auth : AuthLibrary) where
  unfoldable pub create_hmac_signature : Text → ℤ → Text → Text → Text → Text
  create_hmac_signature secret timestamp email api_key body =
      auth.hmac_hex secret
        (show_int timestamp ++ (b'.' ∷ (email ++ (b'.' ∷ (api_key ++ (b'.' ∷ body))))))

  module _ (credentials : List ApiCredentials) (api_key signature : Text) (timestamp : ℤ)
      (email body : Text) where
    -- A signature that fits is noted in the row.
    unfoldable pub compare_signature : Option Text → M Bool
    unfolding query create_hmac_signature
    compare_signature none = pure false
    compare_signature (some secret) =
        if text_eq signature (create_hmac_signature secret timestamp email api_key body)
        then query >> pure true
        else pure false

    unfoldable pub look_up : Bool → M Bool
    unfolding query find_secret compare_signature
    look_up false = pure false
    look_up true = query >> compare_signature (find_secret api_key credentials)

    unfoldable pub verify_hmac : M Bool
    unfolding in_window starts_with_rpa look_up
    verify_hmac s =
        look_up (in_window (auth.timestamp s.now) timestamp && starts_with_rpa api_key) s

  -- Both the id and the e-mail address are unique.
  unfoldable pub create_user : Text → M ℕ
  unfolding query
  create_user email = query >> (λ s.
      if is_known (auth.user_uuid email) email s.tables.users then fail unique_violation s else (
        SyncResult.ok (auth.user_uuid email),
        put_tables
            (record s.tables { users = s.tables.users ++ (auth.user_uuid email, email) ∷ [] }) s,
      ))
