-- ===== src/Persistence/Redis.antt =====
-- DCRedis (presistence/MyRedis.h, presistence/MyRedis.cc): the connection and the reader of replies.
-- The commands are in the files of this directory. The body of `exec` in the header cannot be
-- compiled: it lacks a brace and uses names that are declared nowhere. So `exec` is a parameter of
-- the commands: the words of a command, and what comes back, a reply whose pointer may be null.
-- Where there is no helper of a reply, a command reads through a null pointer and has no result,
-- `none`.
pub mod Strings
pub mod Hashes
pub mod Lists
pub mod Expiring
pub mod Mapping
use echo_frame.Base.{
  ℕ, ◌+◌, ◌-◌, ◌%◌, ◌^◌, Bool, true, false, ◌&&◌, ◌||◌, not, Option, none, some, List, [], ◌∷◌, map,
  leb, if◌then◌else◌,
}
use echo_frame.Util.Text.{Text}
use echo_frame.Util.PropertyTree.{text_eq}
use echo_frame.Persistence.Names.{ℤ, negsuc, codes, c_str}

-- `redisReply` of hiredis: the type, the number, the bytes of `str` and the elements.
pub data ReplyType : Type 0 where
  string_reply array_reply integer_reply nil_reply status_reply error_reply : ReplyType

mutual
  pub data Reply : Type 0 where
    reply : ReplyType → ℤ → Text → Replies → Reply

  pub data Replies : Type 0 where
    nothing : Replies
    element : Reply → Replies → Replies

abbrev pub type : Reply → ReplyType
type (reply t i s es) = t

abbrev pub integer : Reply → ℤ
integer (reply t i s es) = i

abbrev pub str : Reply → Text
str (reply t i s es) = s

abbrev pub elements : Reply → Replies
elements (reply t i s es) = es

abbrev pub is_error : ReplyType → Bool
is_error string_reply = false
is_error array_reply = false
is_error integer_reply = false
is_error nil_reply = false
is_error status_reply = false
is_error error_reply = true

abbrev is_status : ReplyType → Bool
is_status string_reply = false
is_status array_reply = false
is_status integer_reply = false
is_status nil_reply = false
is_status status_reply = true
is_status error_reply = false

-- `upper`
abbrev upper_char : ℕ → ℕ
upper_char c = if leb b'a' c && leb c b'z' then c - 32 else c

unfoldable upper : Text → Text
upper s = map upper_char s

-- The helper of a reply holds a pointer to it, `none` where that is null.
abbrev pub is_null : Option Reply → Bool
is_null none = true
is_null (some r) = false

unfoldable pub is_success : Option Reply → Bool
unfolding upper
is_success none = false
is_success (some r) =
    not (is_error (type r)) && is_status (type r) && text_eq (upper (c_str (str r))) (codes "OK")

abbrev pub has_error : Option Reply → Bool
has_error none = true
has_error (some r) = is_error (type r)

abbrev pub get_err_str : Option Reply → Text
get_err_str none = []
get_err_str (some r) = if is_error (type r) then c_str (str r) else []

-- The errors of a connection, and what opening one gives.
pub data ContextError : Type 0 where
  fine io other eof protocol out_of_memory timeout : ContextError

pub data Opened : Type 0 where
  no_context : Opened
  context : ContextError → Opened

-- hiredis, on the state of the servers and of the connections.
pub record Hiredis (W : Type 0) : Type 0 where
  pub connect_with_timeout : Text → ℕ → W → Opened × W
  pub free_context : W → W
  pub enable_keep_alive : W → W

-- `DCRedisConf`, with the port as `connect` takes it.
pub record DcRedisConf : Type 0 where
  pub host : Text
  pub db : ℕ
  pub port : ℕ

-- `has_context`: the pointer to the connection is not null.
pub record DcRedis (W : Type 0) : Type 0 where
  pub has_context : Bool
  pub config : DcRedisConf
  pub last_error : Text
  pub last_reconnect_count : ℕ
  pub world : W

-- A command acts on the client, and has no result where it reads through a null pointer.
abbrev pub M : Type 0 → Type 0 → Type 0
M W A = DcRedis W → Option (A × DcRedis W)

module _ {W : Type 0} where
  abbrev pub pure : {A : Type 0} → A → M W A
  pure a c = some (a, c)

  abbrev then_with : {A B : Type 0} → (A → M W B) → Option (A × DcRedis W) → Option (B × DcRedis W)
  then_with f none = none
  then_with f (some (a, c)) = f a c

  infixl 5 ◌>>=◌
  abbrev pub ◌>>=◌ : {A B : Type 0} → M W A → (A → M W B) → M W B
  ◌>>=◌ m f c = then_with f (m c)

abbrev pub connected : Opened → Bool
connected no_context = false
connected (context fine) = true
connected (context io) = false
connected (context other) = false
connected (context eof) = false
connected (context protocol) = false
connected (context out_of_memory) = false
connected (context timeout) = false

abbrev pub is_context : Opened → Bool
is_context no_context = false
is_context (context e) = true

-- `exec`, which runs a command.
abbrev pub Exec : Type 0 → Type 0
Exec W = List Text → M W (Option Reply)

module _ {W : Type 0} (hiredis : Hiredis W) where
  -- `connect`: what it returns is not read; behind a connection that stands it returns nothing.
  abbrev opened : Opened × W → DcRedis W → Option ℤ × DcRedis W
  opened (o, w) c = (
    if connected o then none else some (negsuc 0),
    record c {
      has_context = is_context o;
      last_reconnect_count = (c.last_reconnect_count + 1) % 2 ^ 32;
      world = if connected o then hiredis.enable_keep_alive w else w;
    },
  )

  unfoldable pub connect : Text → ℕ → ℕ → DcRedis W → Option ℤ × DcRedis W
  connect host port database c = opened (hiredis.connect_with_timeout host port c.world) c

  unfoldable pub disconnect : DcRedis W → DcRedis W
  disconnect c =
      if c.has_context
      then record c { has_context = false; world = hiredis.free_context c.world }
      else c

  -- The constructor.
  abbrev pub start : DcRedisConf → W → DcRedis W
  start conf w =
      (connect conf.host conf.port conf.db record {
        has_context = false;
        config = conf;
        last_error = [];
        last_reconnect_count = 0;
        world = w;
      }).1
