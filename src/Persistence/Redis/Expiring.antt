-- ===== src/Persistence/Redis/Expiring.antt =====
-- HSET with a time to live (presistence/MyRedis.cc), as the commands that it runs one behind the
-- other.
use echo_frame.Base.{
  ◌⊎◌, subst, ◌+◌, ◌/◌, ◌≡◌, refl, Bool, true, false, Option, none, some, List, [], ◌∷◌, Bool-cases,
  inl, inr,
}
use echo_frame.Util.Text.{Text}
use echo_frame.Persistence.Names.{pos, int_str, codes, is_one}
use echo_frame.Persistence.Redis.{Reply, has_error, DcRedis, Exec}
use echo_frame.Persistence.Redis.Strings.{Timeval, checks_integer, expire, del}
use echo_frame.Persistence.Redis.Hashes.{del_on_failure, expire_set, hset}

answered_cases :
    {A B : Type 0} (o : Option (A × B)) → (o ≡ none) ⊎ ((a : A) × (b : B) × (o ≡ some (a, b)))
answered_cases none = inl refl
answered_cases (some (a, b)) = inr (a, b, refl)

module _ {W : Type 0} (exec : Exec W) where
  abbrev Runs : List Text → DcRedis W → Option Reply → DcRedis W → Type 0
  Runs words c r d = exec words c ≡ some (r, d)

  -- The time to live that EXPIRE is given: the microseconds count a thousandth of a second.
  abbrev pub seconds_of : Timeval → Text
  seconds_of tv = int_str (pos (tv.tv_sec + tv.tv_usec / 1000))

  -- The ways in which a field is set and its key made to expire: the client before, what is returned
  -- and the client behind.
  pub data HsetRun (key field v : Text) (c : DcRedis W)
      : Option Timeval → Bool → DcRedis W → Type 0 where
    refused :
        {tv : Option Timeval} {r : Option Reply} {d : DcRedis W}
        → Runs (codes "HSET" ∷ key ∷ field ∷ v ∷ []) c r d
        → has_error r ≡ true
        → HsetRun key field v c tv false d
    kept :
        {r : Option Reply} {d : DcRedis W}
        → Runs (codes "HSET" ∷ key ∷ field ∷ v ∷ []) c r d
        → has_error r ≡ false
        → HsetRun key field v c none true d
    expires :
        {tv : Timeval} {r s : Option Reply} {b d : DcRedis W}
        → Runs (codes "HSET" ∷ key ∷ field ∷ v ∷ []) c r b
        → has_error r ≡ false
        → Runs (codes "EXPIRE" ∷ key ∷ seconds_of tv ∷ []) b s d
        → checks_integer is_one s ≡ true
        → HsetRun key field v c (some tv) true d
    deleted :
        {tv : Timeval} {r s t : Option Reply} {a b d : DcRedis W}
        → Runs (codes "HSET" ∷ key ∷ field ∷ v ∷ []) c r a
        → has_error r ≡ false
        → Runs (codes "EXPIRE" ∷ key ∷ seconds_of tv ∷ []) a s b
        → checks_integer is_one s ≡ false
        → Runs (codes "DEL" ∷ key ∷ []) b t d
        → HsetRun key field v c (some tv) false d

  HsetRun-hset :
      (key field v : Text) (c : DcRedis W) (tv : Option Timeval) (success : Bool) (d : DcRedis W)
      → HsetRun key field v c tv success d
      → hset exec key field v tv c ≡ some (success, d)
  unfolding hset expire del
  HsetRun-hset key field v c tv false d (refused e f) = rw (e, f) refl
  HsetRun-hset key field v c none true d (kept e f) = rw (e, f) refl
  HsetRun-hset key field v c (some tv) true d (expires e f g h) = rw (e, f, g, h) refl
  HsetRun-hset key field v c (some tv) false d (deleted e f g h i) = rw (e, f, g, h, i) refl

  -- What stands where a call of `hset` returned.
  abbrev Explained :
      Text → Text → Text → Option Timeval → DcRedis W → Option (Bool × DcRedis W) → Type 0
  Explained key field v tv c none = Unit {0}
  Explained key field v tv c (some (success, d)) = HsetRun key field v c tv success d

  hset-Explained :
      (key field v : Text) (c : DcRedis W) (tv : Option Timeval)
      → Explained key field v tv c (hset exec key field v tv c)
  unfolding hset expire del
  hset-Explained key field v c tv =
      elim (answered_cases (exec (codes "HSET" ∷ key ∷ field ∷ v ∷ []) c)) [
        | inl e ↦ rw (e) tt
        | inr (r, a, e) ↦ elim (Bool-cases (has_error r)) [
          | inl f ↦ rw (e, f) (refused e f)
          | inr f ↦ rw (e, f) (behind_set tv r a e f)
        ]
      ]
    where
      expired :
          (t : Timeval) (r s : Option Reply) (a b : DcRedis W)
          → Runs (codes "HSET" ∷ key ∷ field ∷ v ∷ []) c r a
          → has_error r ≡ false
          → Runs (codes "EXPIRE" ∷ key ∷ seconds_of t ∷ []) a s b
          → Explained key field v (some t) c (del_on_failure exec key (checks_integer is_one s) b)
      expired t r s a b e f g = elim (Bool-cases (checks_integer is_one s)) [
        | inl h ↦ rw (h) (expires e f g h)
        | inr h ↦ elim (answered_cases (exec (codes "DEL" ∷ key ∷ []) b)) [
          | inl i ↦ rw (h, i) tt
          | inr (t, d, i) ↦ rw (h, i) (deleted e f g h i)
        ]
      ]

      behind_set :
          (tv : Option Timeval) (r : Option Reply) (a : DcRedis W)
          → Runs (codes "HSET" ∷ key ∷ field ∷ v ∷ []) c r a
          → has_error r ≡ false
          → Explained key field v tv c (expire_set exec key tv true a)
      behind_set none r a e f = kept e f
      behind_set (some t) r a e f =
          elim (answered_cases (exec (codes "EXPIRE" ∷ key ∷ seconds_of t ∷ []) a)) [
            | inl g ↦ rw (g) tt
            | inr (s, b, g) ↦ rw (g) (expired t r s a b e f g)
          ]

  -- `hset` returns exactly in these ways: false, if HSET brings back an error or nothing; true behind
  -- HSET, if there is no time to live; true behind HSET and EXPIRE with the seconds and a thousandth of
  -- the microseconds, if EXPIRE brings back one; and otherwise false behind HSET, EXPIRE and DEL of the
  -- whole key, whatever DEL brings back.
  pub hset-HsetRun :
      (key field v : Text) (c : DcRedis W) (tv : Option Timeval) (success : Bool) (d : DcRedis W)
      → (hset exec key field v tv c ≡ some (success, d) → HsetRun key field v c tv success d)
        × (HsetRun key field v c tv success d → hset exec key field v tv c ≡ some (success, d))
  hset-HsetRun key field v c tv success d = (
    λ e. subst (Explained key field v tv c) e (hset-Explained key field v c tv),
    HsetRun-hset key field v c tv success d,
  )
