-- ===== src/Persistence/Redis/Lists.antt =====
-- The commands on lists (presistence/MyRedis.cc).
use echo_frame.Base.{Bool, not, Option, List, [], ◌∷◌}
use echo_frame.Util.Text.{Text}
use echo_frame.Persistence.Names.{ℤ, negsuc, int_str, codes, c_str}
use echo_frame.Persistence.Redis.{
  ReplyType, string_reply, array_reply, integer_reply, nil_reply, status_reply, error_reply, Reply,
  Replies, nothing, element, type, str, has_error, Exec, M, pure, ◌>>=◌,
}
use echo_frame.Persistence.Redis.Strings.{integer_or, string_value}
use echo_frame.Persistence.Redis.Hashes.{array_elements}

-- The children of `lrange` that are strings.
abbrev keep_string : ReplyType → Text → List Text → List Text
keep_string string_reply s rest = s ∷ rest
keep_string array_reply s rest = rest
keep_string integer_reply s rest = rest
keep_string nil_reply s rest = rest
keep_string status_reply s rest = rest
keep_string error_reply s rest = rest

unfoldable pub string_texts : Replies → List Text
string_texts nothing = []
string_texts (element r es) = keep_string (type r) (str r) (string_texts es)

-- A string reply, read as a C string.
abbrev pub c_value : Option Reply → Text
c_value r = c_str (string_value r)

module _ {W : Type 0} (exec : Exec W) where
  unfoldable pub lpush : Text → Text → M W ℤ
  lpush key v = do r ← exec (codes "LPUSH" ∷ key ∷ v ∷ []); pure (integer_or (negsuc 0) r)

  unfoldable pub rpush : Text → Text → M W ℤ
  rpush key v = do r ← exec (codes "RPUSH" ∷ key ∷ v ∷ []); pure (integer_or (negsuc 0) r)

  unfoldable pub linsert : Text → Text → Text → M W ℤ
  linsert key before v = do
    r ← exec (codes "LINSERT" ∷ key ∷ codes "BEFORE" ∷ before ∷ v ∷ [])
    pure (integer_or (negsuc 0) r)

  unfoldable pub lset : Text → Text → ℤ → M W Bool
  lset key v index = do
    r ← exec (codes "LSET" ∷ key ∷ int_str index ∷ v ∷ [])
    pure (not (has_error r))

  unfoldable pub lpop : Text → M W Text
  lpop key = do r ← exec (codes "LPOP" ∷ key ∷ []); pure (c_value r)

  unfoldable pub rpop : Text → M W Text
  rpop key = do r ← exec (codes "RPOP" ∷ key ∷ []); pure (c_value r)

  unfoldable pub lrange : Text → ℤ → ℤ → M W (List Text)
  lrange key begin end = do
    r ← exec (codes "LRANGE" ∷ key ∷ int_str begin ∷ int_str end ∷ [])
    pure (string_texts (array_elements r))

  unfoldable pub lrem : Text → ℤ → Text → M W ℤ
  lrem key count begin = do
    r ← exec (codes "LREM" ∷ key ∷ int_str count ∷ begin ∷ [])
    pure (integer_or (negsuc 0) r)

  unfoldable pub ltrim : Text → ℤ → ℤ → M W Bool
  ltrim key begin end = do
    r ← exec (codes "LTRIM" ∷ key ∷ int_str begin ∷ int_str end ∷ [])
    pure (not (has_error r))

  unfoldable pub lindex : Text → ℤ → M W Text
  lindex key index = do r ← exec (codes "LINDEX" ∷ key ∷ int_str index ∷ []); pure (c_value r)

  unfoldable pub llen : Text → M W ℤ
  llen key = do r ← exec (codes "LLEN" ∷ key ∷ []); pure (integer_or (negsuc 0) r)
