-- ===== src/Persistence/Redis/Strings.antt =====
-- The commands on strings and keys (presistence/MyRedis.cc).
use echo_frame.Base.{
  ℕ, ◌+◌, ◌*◌, Bool, false, ◌&&◌, not, Option, none, some, List, [], ◌∷◌, ◌++◌, if◌then◌else◌,
}
use echo_frame.Util.Text.{Text}
use echo_frame.Persistence.Names.{ℤ, pos, int_str, codes, is_one, is_positive}
use echo_frame.Persistence.Redis.{
  ReplyType, string_reply, array_reply, integer_reply, nil_reply, status_reply, error_reply, Reply,
  type, integer, str, has_error, is_success, Exec, M, pure, ◌>>=◌,
}

-- `timeval`
pub record Timeval : Type 0 where
  pub tv_sec : ℕ
  pub tv_usec : ℕ

-- The digits of a number, or the bytes, or nothing.
abbrev typed_value : ReplyType → ℤ → Text → Text
typed_value string_reply i s = s
typed_value integer_reply i s = int_str i
typed_value array_reply i s = []
typed_value nil_reply i s = []
typed_value status_reply i s = []
typed_value error_reply i s = []

abbrev pub value : Option Reply → Text
value none = []
value (some r) = typed_value (type r) (integer r) (str r)

abbrev typed_string : ReplyType → Text → Text
typed_string string_reply s = s
typed_string integer_reply s = []
typed_string array_reply s = []
typed_string nil_reply s = []
typed_string status_reply s = []
typed_string error_reply s = []

abbrev pub string_value : Option Reply → Text
string_value none = []
string_value (some r) = typed_string (type r) (str r)

-- `!haserror() && test(integer)`
abbrev pub checks_integer : (ℤ → Bool) → Option Reply → Bool
checks_integer test none = false
checks_integer test (some r) = not (has_error (some r)) && test (integer r)

-- The number of a reply, and what stands for an error.
abbrev pub integer_or : ℤ → Option Reply → ℤ
integer_or i none = i
integer_or i (some r) = if has_error (some r) then i else integer r

abbrev unless_create : Bool → List Text
unless_create create = if create then [] else codes "XX" ∷ []

-- The milliseconds as the source adds them up.
abbrev expiry : Option Timeval → List Text
expiry none = []
expiry (some tv) = codes "PX" ∷ int_str (pos (tv.tv_sec * 1000 + tv.tv_usec)) ∷ []

module _ {W : Type 0} (exec : Exec W) where
  unfoldable pub get : Text → M W Text
  get key = do r ← exec (codes "GET" ∷ key ∷ []); pure (value r)

  unfoldable pub get_range : Text → ℤ → ℤ → M W Text
  get_range key begin end = do
    r ← exec (codes "GETRANGE" ∷ key ∷ int_str begin ∷ int_str end ∷ [])
    pure (string_value r)

  unfoldable pub set : Text → Text → Bool → Option Timeval → M W Bool
  set key v create tv = do
    r ← exec ((codes "SET" ∷ key ∷ v ∷ []) ++ unless_create create ++ expiry tv)
    pure (is_success r)

  unfoldable pub set_range : Text → ℕ → Text → M W Bool
  set_range key offset v = do
    r ← exec (codes "SETRANGE" ∷ key ∷ int_str (pos offset) ∷ v ∷ [])
    pure (checks_integer is_positive r)

  unfoldable pub getset : Text → Text → M W Text
  getset key v = do r ← exec (codes "GETSET" ∷ key ∷ v ∷ []); pure (value r)

  unfoldable pub append : Text → Text → M W Bool
  append key v = do r ← exec (codes "APPEND" ∷ key ∷ v ∷ []); pure (checks_integer is_positive r)

  unfoldable pub exists : Text → M W Bool
  exists key = do r ← exec (codes "EXISTS" ∷ key ∷ []); pure (checks_integer is_one r)

  unfoldable pub del : Text → M W Bool
  del key = do r ← exec (codes "DEL" ∷ key ∷ []); pure (checks_integer is_one r)

  -- `del` of several keys.
  unfoldable pub del_all : List Text → M W ℤ
  del_all keys = do r ← exec (codes "DEL" ∷ keys); pure (integer_or (pos 0) r)

  unfoldable pub hash_del : Text → List Text → M W ℤ
  hash_del key fields = do r ← exec (codes "HDEL" ∷ key ∷ fields); pure (integer_or (pos 0) r)

  unfoldable pub expire : Text → ℕ → M W Bool
  expire key seconds = do
    r ← exec (codes "EXPIRE" ∷ key ∷ int_str (pos seconds) ∷ [])
    pure (checks_integer is_one r)

  unfoldable pub expire_at : Text → ℕ → M W Bool
  expire_at key timestamp = do
    r ← exec (codes "EXPIREAT" ∷ key ∷ int_str (pos timestamp) ∷ [])
    pure (checks_integer is_one r)
