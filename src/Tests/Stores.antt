-- ===== src/Tests/Stores.antt =====
-- The Redis client, against a server that keeps the fields of one key and against one with a list of
-- answers.
use echo_frame.Base.{
  ◌≡◌, ◌≢◌, refl, ap, Bool, true, false, Option, none, some, List, [], ◌∷◌, ◌++◌, if◌then◌else◌,
  map,
}
use echo_frame.Util.Text.{Text}
use echo_frame.Util.PropertyTree.{text_eq, text_lt}
use echo_frame.Persistence.Names.{pos, codes, int_str, c_str, entry, Rising, Behind}
use echo_frame.Persistence.Redis.{
  Reply, reply, nothing, string_reply, array_reply, integer_reply, nil_reply, status_reply,
  DcRedisConf, DcRedis, Exec,
}
use echo_frame.Persistence.Redis.Strings.{Timeval, expire, del}
use echo_frame.Persistence.Redis.Expiring.{HsetRun, hset-HsetRun}
use echo_frame.Persistence.Redis.Hashes.{Names, flat, mget, hset, hmset, hgetall}
use echo_frame.Persistence.Redis.Mapping.{
  KeepsHashes, Answers, keys_of, replies_of, text_replies, answer, mget-answer, hgetall-hmset,
}

abbrev conf : DcRedisConf
conf = record { host = codes "localhost"; db = 0; port = 6379 }

abbrev client : {W : Type 0} → W → DcRedis W
client w = record {
  has_context = true;
  config = conf;
  last_error = [];
  last_reconnect_count = 1;
  world = w;
}

-- The fields and values behind HMSET and the key.
unflat : List Text → Names
unflat [] = []
unflat (k ∷ []) = []
unflat (k ∷ v ∷ rest) = (k, v) ∷ unflat rest

unflat-flat : (m : Names) → unflat (flat m) ≡ m
unfolding unflat flat
unflat-flat [] = refl
unflat-flat ((k, v) ∷ m) = ap (◌∷◌ (k, v)) (unflat-flat m)

ok_reply : Reply
ok_reply = reply status_reply (pos 0) (codes "OK") nothing

abbrev hash_command : Text → List Text → Names → Option Reply × Names
hash_command c rest w =
    if text_eq c (codes "HMSET")
    then (some (reply status_reply (pos 0) (codes "OK") nothing), unflat rest)
    else (some (reply array_reply (pos 0) [] (text_replies (flat w))), w)

abbrev hash_answer : List Text → Names → Option Reply × Names
hash_answer [] w = (none, w)
hash_answer (c ∷ []) w = (none, w)
hash_answer (c ∷ key ∷ rest) w = hash_command c rest w

-- Sends the words as strings of C.
abbrev hash_exec : Exec Names
hash_exec args c =
    if c.has_context
    then some (
      (hash_answer (map c_str args) c.world).0,
      record c { world = (hash_answer (map c_str args) c.world).1 },
    )
    else none

abbrev fields_of : Text → Names → Names
fields_of key w = w

keeps_hashes : KeepsHashes hash_exec fields_of
unfolding text_eq c_str
keeps_hashes = record {
  hmset_answer = λ key m c a ne whole all_whole empty.
      (record c { world = m }, rw (a, all_whole, unflat-flat m) refl, a, λ k. refl);
  hgetall_answer = λ key c a whole. (c, rw (a) refl);
}

abbrev two_fields : Names
two_fields = (codes "a", codes "1") ∷ (codes "b", codes "2") ∷ []

two_fields-Rising : Rising two_fields
unfolding Rising Behind text_lt
two_fields-Rising = ((refl, tt), (tt, tt))

abbrev is_there : Names → Bool
is_there [] = false
is_there (x ∷ xs) = true

two_fields-some : two_fields ≢ []
two_fields-some e = cc (ap is_there e)

hgetall-hmset_example :
    (b : DcRedis Names) × (d : DcRedis Names) × (hmset hash_exec (codes "k") two_fields (client [])
      ≡ some (true, b))
    × (hgetall hash_exec (codes "k") b ≡ some (two_fields, d))
unfolding flat c_str
hgetall-hmset_example =
    hgetall-hmset hash_exec fields_of (codes "k") two_fields (client []) keeps_hashes refl refl refl
      two_fields-Rising two_fields-some refl

-- The first key is asked for twice, the second has no value.
abbrev answers : Answers
answers =
    (codes "x", reply string_reply (pos 0) (codes "7") nothing)
    ∷ (codes "y", reply nil_reply (pos 0) [] nothing)
    ∷ (codes "x", reply integer_reply (pos 8) [] nothing)
    ∷ []

abbrev listed : Exec (Unit {0})
listed args c = some (some (reply array_reply (pos 0) [] (replies_of answers)), c)

mget-answer_example :
    (m : Names) × (mget listed (keys_of answers) (client tt) ≡ some (m, client tt))
    × Rising m
    × ((k : Text) → entry k m ≡ answer k answers)
mget-answer_example = mget-answer listed answers (pos 0) [] (client tt) (client tt) refl

-- Answers every command with zero, and keeps what it is sent.
abbrev zero_exec : Exec (List (List Text))
zero_exec args c =
    some
      (some (reply integer_reply (pos 0) [] nothing), record c { world = c.world ++ (args ∷ []) })

abbrev one_second : Timeval
one_second = record { tv_sec = 1; tv_usec = 0 }

abbrev set_expired_deleted : List (List Text)
set_expired_deleted =
    (codes "HSET" ∷ codes "k" ∷ codes "f" ∷ codes "v" ∷ [])
    ∷ (codes "EXPIRE" ∷ codes "k" ∷ codes "1" ∷ [])
    ∷ (codes "DEL" ∷ codes "k" ∷ [])
    ∷ []

hset-HsetRun_example :
    (hset zero_exec (codes "k") (codes "f") (codes "v") (some one_second) (client [])
        ≡ some (false, client set_expired_deleted)
      → HsetRun zero_exec
          (codes "k")
          (codes "f")
          (codes "v")
          (client [])
          (some one_second)
          false
          (client set_expired_deleted))
    × (HsetRun zero_exec
          (codes "k")
          (codes "f")
          (codes "v")
          (client [])
          (some one_second)
          false
          (client set_expired_deleted)
        → hset zero_exec (codes "k") (codes "f") (codes "v") (some one_second) (client [])
          ≡ some (false, client set_expired_deleted))
hset-HsetRun_example =
    hset-HsetRun zero_exec (codes "k") (codes "f") (codes "v") (client []) (some one_second) false
      (client set_expired_deleted)

hset_deletes :
    hset zero_exec (codes "k") (codes "f") (codes "v") (some one_second) (client [])
    ≡ some (false, client set_expired_deleted)
unfolding hset expire del int_str echo_frame.Util.PropertyTree.digits
hset_deletes = refl
