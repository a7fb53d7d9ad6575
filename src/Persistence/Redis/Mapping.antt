-- ===== src/Persistence/Redis/Mapping.antt =====
-- The replies to MGET and HGETALL as maps, and HMSET and HGETALL against a server that keeps hashes.
use echo_frame.Base.{
  ◌≡◌, ◌≢◌, refl, sym, ap, ◌∙◌, Bool, true, false, Option, none, some, List, [], ◌∷◌, map,
  if◌then◌else◌, Bool-cases, inl, inr,
}
use echo_frame.Util.Text.{Text}
use echo_frame.Util.PropertyTree.{text_eq}
use echo_frame.Persistence.Names.{ℤ, pos, codes, c_str, emplace, entry, Rising}
use echo_frame.Persistence.Names.Order.{
  emplace-Rising, entry-emplace, or_else, or_else-none, or_else_assoc, Rising-ext,
}
use echo_frame.Persistence.Redis.{
  Reply, reply, Replies, nothing, element, array_reply, string_reply, status_reply, is_success,
  DcRedis, Exec,
}
use echo_frame.Persistence.Redis.Hashes.{
  Names, child_text, put_value, named_values, paired_values, flat, mget, hmset, hgetall,
}

abbrev pub Answers : Type 0
Answers = List (Text × Reply)

abbrev pub keys_of : Answers → List Text
keys_of [] = []
keys_of ((k, r) ∷ ps) = k ∷ keys_of ps

abbrev pub replies_of : Answers → Replies
replies_of [] = nothing
replies_of ((k, r) ∷ ps) = element r (replies_of ps)

abbrev when_key : Bool → Option Text → Option Text
when_key true o = o
when_key false o = none

-- What the answers give a key: the text of its first answer that has one.
unfoldable pub answer : Text → Answers → Option Text
answer k [] = none
answer k ((j, r) ∷ ps) = or_else (when_key (text_eq j k) (child_text r)) (answer k ps)

put_value-Rising : (k : Text) (o : Option Text) (m : Names) → Rising m → Rising (put_value k o m)
put_value-Rising k none m r = r
put_value-Rising k (some v) m r = emplace-Rising k v m r

entry-put_value :
    (j k : Text) (o : Option Text) (m : Names)
    → Rising m
    → entry j (put_value k o m) ≡ or_else (entry j m) (when_key (text_eq k j) o)
entry-put_value j k none m r = elim (Bool-cases (text_eq k j)) [
  | inl e ↦ rw (e, or_else-none) refl
  | inr e ↦ rw (e, or_else-none) refl
]
entry-put_value j k (some v) m r = elim (Bool-cases (text_eq k j)) [
  | inl e ↦ rw (e) (rw (e) at (entry-emplace j k v m r))
  | inr e ↦ rw (e) (rw (e) at (entry-emplace j k v m r))
]

-- A map that answers as another map and then as a list of answers do.
abbrev Adds : Names → (Text → Option Text) → Names → Type 0
Adds acc f m = Rising m × ((k : Text) → entry k m ≡ or_else (entry k acc) (f k))

Adds-first :
    (j : Text) (o : Option Text) (f : Text → Option Text) (acc m : Names)
    → Rising acc
    → Adds (put_value j o acc) f m
    → Adds acc (λ k. or_else (when_key (text_eq j k) o) (f k)) m
Adds-first j o f acc m r a = (
  a.0,
  λ k.
      a.1 k
      ∙ ap (λ e. or_else e (f k)) (entry-put_value k j o acc r)
      ∙ or_else_assoc (entry k acc) (when_key (text_eq j k) o) (f k),
)

named_values-answer :
    (ps : Answers) (acc : Names)
    → Rising acc
    → (m : Names) × (named_values (keys_of ps) (replies_of ps) acc ≡ some m)
      × Adds acc (λ k. answer k ps) m
unfolding named_values answer
named_values-answer [] acc r = (acc, refl, (r, λ k. sym (or_else-none (entry k acc))))
named_values-answer ((j, a) ∷ ps) acc r =
    let (m, e, h) =
      named_values-answer ps (put_value j (child_text a) acc)
        (put_value-Rising j (child_text a) acc r) in
    (m, e, Adds-first j (child_text a) (λ k. answer k ps) acc m r h)

abbrev text_reply : Text → Reply
text_reply s = reply string_reply (pos 0) s nothing

abbrev pub text_replies : List Text → Replies
text_replies [] = nothing
text_replies (s ∷ ss) = element (text_reply s) (text_replies ss)

first_entry :
    (b : Bool) (v : Text) (o : Option Text)
    → or_else (when_key b (some v)) o ≡ (if b then some v else o)
first_entry true v o = refl
first_entry false v o = refl

paired_values-entry :
    (ps acc : Names)
    → Rising acc
    → (m : Names) × (paired_values (text_replies (flat ps)) acc ≡ some m)
      × Adds acc (λ k. entry k ps) m
unfolding paired_values flat entry
paired_values-entry [] acc r = (acc, refl, (r, λ k. sym (or_else-none (entry k acc))))
paired_values-entry ((j, v) ∷ ps) acc r =
    let (m, e, h) = paired_values-entry ps (emplace j v acc) (emplace-Rising j v acc r) in
    let (s, g) = Adds-first j (some v) (λ k. entry k ps) acc m r h in
    (m, e, (s, λ k. g k ∙ ap (or_else (entry k acc)) (first_entry (text_eq j k) v (entry k ps))))

-- `mget` of keys that the server answers one by one, repeated keys included, returns a map in which
-- every key has the text that the answers give it first, and which has no other entry.
pub mget-answer :
    {W : Type 0} (exec : Exec W) (ps : Answers) (i : ℤ) (s : Text) (c d : DcRedis W)
    → exec (codes "MGET" ∷ keys_of ps) c ≡ some (some (reply array_reply i s (replies_of ps)), d)
    → (m : Names) × (mget exec (keys_of ps) c ≡ some (m, d))
      × Rising m
      × ((k : Text) → entry k m ≡ answer k ps)
unfolding mget Rising entry
mget-answer exec ps i s c d e =
    let (m, f, h) = named_values-answer ps [] tt in (m, rw (e, f) refl, h.0, h.1)

module _ {W : Type 0} (exec : Exec W) where
  -- A server that keeps the fields of a key, behind an `exec` that brings back what it answers on a
  -- connection that stands. The words of a command are strings of C, which end before a zero. HMSET
  -- on a key without fields answers OK and stores them, HGETALL answers the fields in an order of its
  -- own.
  pub record KeepsHashes (fields : Text → W → Names) : Type 0 where
    pub hmset_answer :
        (key : Text) (m : Names) (c : DcRedis W)
        → c.has_context ≡ true
        → m ≢ []
        → c_str key ≡ key
        → map c_str (flat m) ≡ flat m
        → fields key c.world ≡ []
        → (d : DcRedis W) × (exec (codes "HMSET" ∷ key ∷ flat m) c
            ≡ some (some (reply status_reply (pos 0) (codes "OK") nothing), d))
          × (d.has_context ≡ true)
          × ((k : Text) → entry k (fields key d.world) ≡ entry k m)
    pub hgetall_answer :
        (key : Text) (c : DcRedis W)
        → c.has_context ≡ true
        → c_str key ≡ key
        → (d : DcRedis W) × (exec (codes "HGETALL" ∷ key ∷ []) c
            ≡ some
                (some (reply array_reply (pos 0) [] (text_replies (flat (fields key c.world)))), d))

  hgetall-fields :
      (fields : Text → W → Names) (key : Text) (m : Names) (c : DcRedis W)
      → KeepsHashes fields
      → c.has_context ≡ true
      → c_str key ≡ key
      → Rising m
      → ((k : Text) → entry k (fields key c.world) ≡ entry k m)
      → (d : DcRedis W) × (hgetall exec key c ≡ some (m, d))
  unfolding hgetall Rising entry
  hgetall-fields fields key m c keeps a whole r h =
      let (n, e, (s, g)) = paired_values-entry (fields key c.world) [] tt in
      let same : n ≡ m = Rising-ext n m s r (λ k. g k ∙ h k) in
      let (d, answered) = keeps.hgetall_answer key c a whole in (d, rw (answered, e, same) refl)

  -- On a client with a connection, and with an `exec` that brings back what a server that keeps
  -- hashes answers: `hmset` of a map that is not empty on a key without fields succeeds, and
  -- `hgetall` of the key then returns that map, whatever order the server lists the fields in. The
  -- key, the names and the values have no zero bytes.
  pub hgetall-hmset :
      (fields : Text → W → Names) (key : Text) (m : Names) (c : DcRedis W)
      → KeepsHashes fields
      → c.has_context ≡ true
      → c_str key ≡ key
      → map c_str (flat m) ≡ flat m
      → Rising m
      → m ≢ []
      → fields key c.world ≡ []
      → (b d : DcRedis W) × (hmset exec key m c ≡ some (true, b))
        × (hgetall exec key b ≡ some (m, d))
  unfolding hmset is_success text_eq c_str
  hgetall-hmset fields key m c keeps a whole all_whole r ne empty =
      let (b, e, stands, h) = keeps.hmset_answer key m c a ne whole all_whole empty in
      let (d, g) = hgetall-fields fields key m b keeps stands whole r h in (b, d, rw (e) refl, g)
