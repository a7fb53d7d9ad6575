-- ===== src/Persistence/Redis/Hashes.antt =====
-- The commands on hashes and on several keys, and the counters (presistence/MyRedis.cc).
use echo_frame.Base.{
  ℕ, ◌+◌, ◌/◌, ◌^◌, ◌==◌, Bool, true, false, not, Option, none, some, List, [], ◌∷◌, if◌then◌else◌,
}
use echo_frame.Util.Text.{Text}
use echo_frame.Persistence.Names.{ℤ, pos, negsuc, int_str, codes, is_one, emplace}
use echo_frame.Persistence.Redis.{
  ReplyType, string_reply, array_reply, integer_reply, nil_reply, status_reply, error_reply, Reply,
  reply, Replies, nothing, element, type, str, elements, has_error, is_success, Exec, M, pure,
  ◌>>=◌,
}
use echo_frame.Persistence.Redis.Strings.{Timeval, value, checks_integer, integer_or, expire, del}

-- The elements of a reply that is an array.
abbrev pub typed_elements : ReplyType → Replies → Replies
typed_elements array_reply es = es
typed_elements string_reply es = nothing
typed_elements integer_reply es = nothing
typed_elements nil_reply es = nothing
typed_elements status_reply es = nothing
typed_elements error_reply es = nothing

abbrev pub array_elements : Option Reply → Replies
array_elements none = nothing
array_elements (some r) = typed_elements (type r) (elements r)

-- The text of a child that is put into a map; other types are passed over.
abbrev pub child_text : Reply → Option Text
child_text (reply string_reply i s es) = some s
child_text (reply integer_reply i s es) = some (int_str i)
child_text (reply array_reply i s es) = none
child_text (reply nil_reply i s es) = none
child_text (reply status_reply i s es) = none
child_text (reply error_reply i s es) = none

abbrev pub Names : Type 0
Names = List (Text × Text)

abbrev pub put_value : Text → Option Text → Names → Names
put_value k none values = values
put_value k (some v) values = emplace k v values

-- The loop of `mget` and `hmget`: `none` reads a key behind the last one.
abbrev put_unnamed : Option Text → Option Names → Option Names
put_unnamed none rest = rest
put_unnamed (some v) rest = none

unfoldable pub named_values : List Text → Replies → Names → Option Names
named_values keys nothing values = some values
named_values [] (element r es) values = put_unnamed (child_text r) (named_values [] es values)
named_values (k ∷ keys) (element r es) values =
    named_values keys es (put_value k (child_text r) values)

-- The loop of `hgetall`: `none` reads an element behind the last one.
unfoldable pub paired_values : Replies → Names → Option Names
paired_values nothing values = some values
paired_values (element name nothing) values = none
paired_values (element name (element r es)) values =
    paired_values es (put_value (str name) (child_text r) values)

-- The loop of `hkeys` and `hvalues`: every child's bytes.
unfoldable pub all_texts : Replies → List Text
all_texts nothing = []
all_texts (element r es) = str r ∷ all_texts es

-- The names and the values of a map, one behind the other.
unfoldable pub flat : Names → List Text
flat [] = []
flat ((k, v) ∷ m) = k ∷ v ∷ flat m

-- What a loop that may read out of range gives.
abbrev pub defined : {W A : Type 0} → Option A → M W A
defined none c = none
defined (some a) c = some (a, c)

-- `value * -1` on a number of 32 bits: the least one stays what it is.
abbrev pub negated : ℤ → ℤ
negated (pos ℕ.zero) = pos 0
negated (pos (ℕ.suc n)) = negsuc n
negated (negsuc n) = if n + 1 == 2 ^ 31 then negsuc n else pos (n + 1)

module _ {W : Type 0} (exec : Exec W) where
  abbrev pub del_on_failure : Text → Bool → M W Bool
  del_on_failure key true = pure true
  del_on_failure key false = do deleted ← del exec key; pure false

  abbrev pub expire_set : Text → Option Timeval → Bool → M W Bool
  expire_set key tv false = pure false
  expire_set key none true = pure true
  expire_set key (some tv) true = do
    done ← expire exec key (tv.tv_sec + tv.tv_usec / 1000)
    del_on_failure key done

  unfoldable pub hset : Text → Text → Text → Option Timeval → M W Bool
  hset key field v tv = do
    r ← exec (codes "HSET" ∷ key ∷ field ∷ v ∷ [])
    expire_set key tv (not (has_error r))

  unfoldable pub mset : Names → M W Bool
  mset keys = do r ← exec (codes "MSET" ∷ flat keys); pure (is_success r)

  unfoldable pub hmset : Text → Names → M W Bool
  hmset key fields = do r ← exec (codes "HMSET" ∷ key ∷ flat fields); pure (is_success r)

  unfoldable pub hexists : Text → Text → M W Bool
  hexists key field = do
    r ← exec (codes "HEXISTS" ∷ key ∷ field ∷ [])
    pure (checks_integer is_one r)

  unfoldable pub hget : Text → Text → M W Text
  hget key field = do r ← exec (codes "HGET" ∷ key ∷ field ∷ []); pure (value r)

  unfoldable pub mget : List Text → M W Names
  mget keys = do r ← exec (codes "MGET" ∷ keys); defined (named_values keys (array_elements r) [])

  unfoldable pub hmget : Text → List Text → M W Names
  hmget key fields = do
    r ← exec (codes "HMGET" ∷ key ∷ fields)
    defined (named_values fields (array_elements r) [])

  unfoldable pub hgetall : Text → M W Names
  hgetall key = do
    r ← exec (codes "HGETALL" ∷ key ∷ [])
    defined (paired_values (array_elements r) [])

  unfoldable pub hkeys : Text → M W (List Text)
  hkeys key = do r ← exec (codes "HKEYS" ∷ key ∷ []); pure (all_texts (array_elements r))

  unfoldable pub hvalues : Text → M W (List Text)
  hvalues key = do r ← exec (codes "HVALS" ∷ key ∷ []); pure (all_texts (array_elements r))

  unfoldable pub hlen : Text → M W ℤ
  hlen key = do r ← exec (codes "HLEN" ∷ key ∷ []); pure (integer_or (pos 0) r)

  unfoldable pub incr : Text → ℤ → M W ℤ
  incr key by = do r ← exec (codes "INCRBY" ∷ key ∷ int_str by ∷ []); pure (integer_or (negsuc 0) r)

  unfoldable pub hincr : Text → Text → ℤ → M W ℤ
  hincr key field by = do
    r ← exec (codes "HINCRBY" ∷ key ∷ field ∷ int_str by ∷ [])
    pure (integer_or (negsuc 0) r)

  unfoldable pub decr : Text → ℤ → M W ℤ
  decr key by = do r ← exec (codes "DECRBY" ∷ key ∷ int_str by ∷ []); pure (integer_or (negsuc 0) r)

  unfoldable pub hdecr : Text → Text → ℤ → M W ℤ
  hdecr key field by = do
    r ← exec (codes "HINCRBY" ∷ key ∷ field ∷ int_str (negated by) ∷ [])
    pure (integer_or (negsuc 0) r)
