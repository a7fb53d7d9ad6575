-- ===== src/Client/Sessions.antt =====
-- The requests of a client that wait for their responses: the request ids of MySession
-- (net/client/MySession.h) and addSession, removeSession and findSession of MyClient
-- (net/client/MyClient.cc).
use echo_frame.Base.{
  ℕ, ◌+◌, ◌*◌, ◌%◌, ◌^◌, ◌<◌, ◌≡◌, ◌↔◌, Option, none, some, ◌==◌, if◌then◌else◌, arith, Bool-cases,
  inl, inr, eq→==, refl, ap₂,
}
use echo_frame.Base.OrdMap
use echo_frame.Base.OrdMap.{OrdMap, lookup, set, lookup-set, lookup-erase}

-- A session: its request id, and what is to be done with the response.
pub record Session {ℓ} (A : Type ℓ) : Type ℓ where
  pub request_id : ℕ
  pub action : A

-- `(static_cast<uint64_t>(uid) << 32) | now`; the low half is free, so `|` adds the 32-bit time.
unfoldable pub make_request_id : ℕ → ℕ → ℕ
make_request_id uid now = (uid * 2 ^ 32) % 2 ^ 64 + now

module _ {ℓ} {A : Type ℓ} where
  -- The constructor of a session, for a client that is still there.
  abbrev pub new_session : ℕ → ℕ → A → Session A
  new_session uid now a = record { request_id = make_request_id uid now; action = a }

  unfoldable pub add_session : Session A → OrdMap (Session A) → OrdMap (Session A)
  add_session s m = set s.request_id s m

  unfoldable pub remove_session : ℕ → OrdMap (Session A) → OrdMap (Session A)
  remove_session id m = OrdMap.erase id m

  unfoldable pub find_session : ℕ → OrdMap (Session A) → Option (Session A)
  find_session id m = lookup id m

-- The request ids of two sessions are the same exactly when their clients have the same uid and
-- they were made in the same second, for uids and times of 32 bits.
make_request_id_iff :
    (u v s t : ℕ)
    → u < 2 ^ 32
    → v < 2 ^ 32
    → s < 2 ^ 32
    → t < 2 ^ 32
    → (make_request_id u s ≡ make_request_id v t) ↔ ((u ≡ v) × (s ≡ t))
unfolding make_request_id
make_request_id_iff u v s t hu hv hs ht =
    (λ e. (omega arith, omega arith), λ (e, e'). ap₂ make_request_id e e')

same_test :
    (uid s t : ℕ)
    → uid < 2 ^ 32
    → s < 2 ^ 32
    → t < 2 ^ 32
    → make_request_id uid t == make_request_id uid s ≡ (s == t)
unfolding make_request_id
same_test uid s t hu hs ht = elim (Bool-cases (s == t)) [
  | inl e ↦ ground (arith, e)
  | inr e ↦ ground (arith, e)
]

sym_test : (s t : ℕ) → t == s ≡ (s == t)
sym_test s t = ground arith

-- For a uid and times of 32 bits: of two sessions that one client makes, the first is found by its request id after both have been
-- added only if the clock showed another second for the second one. Otherwise the second session
-- stands in its place, and removing the first takes the second away.
pub second_session {ℓ} :
    {A : Type ℓ} (uid s t : ℕ) (a b : A) (m : OrdMap (Session A))
    → uid < 2 ^ 32
    → s < 2 ^ 32
    → t < 2 ^ 32
    → let both = add_session (new_session uid t b) (add_session (new_session uid s a) m) in
      (find_session (make_request_id uid s) both
        ≡ (if s == t then some (new_session uid t b) else some (new_session uid s a)))
      × (find_session (make_request_id uid t) (remove_session (make_request_id uid s) both)
          ≡ (if s == t then none else some (new_session uid t b)))
unfolding find_session add_session remove_session
second_session {A = A} uid s t a b m hu hs ht = (
  rw
      (
        lookup-set i j (new_session uid t b) first,
        same_test uid s t hu hs ht,
        lookup-set i i (new_session uid s a) m,
        eq→== i i refl,
      )
      refl,
  rw
      (
        lookup-erase j i (add_session (new_session uid t b) first),
        lookup-set j j (new_session uid t b) first,
        eq→== j j refl,
        same_test uid t s hu ht hs,
        sym_test s t,
      )
      refl,
)
  where
    i : ℕ
    i = make_request_id uid s

    j : ℕ
    j = make_request_id uid t

    first : OrdMap (Session A)
    first = add_session (new_session uid s a) m
