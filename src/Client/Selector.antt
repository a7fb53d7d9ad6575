-- ===== src/Client/Selector.antt =====
-- class MyClientSelector (net/client/MyClient.h, net/client/MyClient.cc): the weak pointers to a
-- proxy's clients, by uid. Whether a client is still there, which is what `lock` of its weak pointer
-- tells, is an argument of `getClient`. Each operation runs under the selector's lock and is one step.
pub mod Choice
use echo_frame.Base.{
  ℕ, ◌≤◌, sym, ltb→lt, not_ltb→le, eq→==, ◌≡◌, ◌∙◌, ap, refl, Bool, true, false, Option, none, some,
  [], ◌∷◌, ◌==◌, if◌then◌else◌, ltb, arith, Bool-cases, inl, inr,
}
use echo_frame.Base.OrdMap
use echo_frame.Base.OrdMap.{OrdMap, lookup, set, IsSorted, Above, set-IsSorted, lookup-Above}

-- A MyClient, as far as the selector looks at it: which object it is, and its uid.
pub record Client : Type 0 where
  pub object : ℕ
  pub uid : ℕ

abbrev pub add_client : Client → OrdMap Client → OrdMap Client
add_client c m = set c.uid c m

abbrev pub remove_client : ℕ → OrdMap Client → OrdMap Client
remove_client uid m = OrdMap.erase uid m

-- `getClient`; its strategy is not looked at.
unfoldable pub get_client : (Client → Bool) → ℕ → OrdMap Client → Option Client × OrdMap Client
get_client alive strategy [] = (none, [])
get_client alive strategy ((k, c) ∷ rest) =
    let later = get_client alive strategy rest in
    if alive c then (some c, set c.uid c rest) else later

-- Every client stands under its own uid.
abbrev pub IsKeyed : OrdMap Client → Type 0
IsKeyed [] = Unit {0}
IsKeyed ((k, c) ∷ m) = (c.uid ≡ k) × IsKeyed m

pub record IsSelector (m : OrdMap Client) : Type 0 where
  pub sorted : IsSorted m
  pub keyed : IsKeyed m

set-front : (k : ℕ) (c : Client) (m : OrdMap Client) → Above k m → set k c m ≡ (k, c) ∷ m
unfolding set
set-front k c [] s = refl
set-front k c ((i, d) ∷ m) s = ground arith

-- Adding back the client that stood first puts it where it stood.
pub set_back :
    (k : ℕ) (c : Client) (m : OrdMap Client) → IsSelector ((k, c) ∷ m) → set c.uid c m ≡ (k, c) ∷ m
set_back k c m h = ap (λ j. set j c m) h.keyed.0 ∙ set-front k c m h.sorted.0

add_client-IsKeyed : (c : Client) (m : OrdMap Client) → IsKeyed m → IsKeyed (add_client c m)
unfolding set
add_client-IsKeyed c [] h = (refl, tt)
add_client-IsKeyed c ((i, d) ∷ m) h = ground (arith, add_client-IsKeyed c m h.1)

remove_client-IsKeyed : (uid : ℕ) (m : OrdMap Client) → IsKeyed m → IsKeyed (remove_client uid m)
unfolding OrdMap.erase
remove_client-IsKeyed uid [] h = tt
remove_client-IsKeyed uid ((i, d) ∷ m) h = ground (arith, remove_client-IsKeyed uid m h.1)

pub get_client-kept :
    (alive : Client → Bool) (strategy : ℕ) (m : OrdMap Client)
    → IsSelector m
    → IsSelector (get_client alive strategy m).1
unfolding get_client
get_client-kept alive strategy [] h = h
get_client-kept alive strategy ((k, c) ∷ m) h = elim (Bool-cases (alive c)) [
  | inl here ↦ rw (here, set_back k c m h) h
  | inr gone ↦
      rw gone (get_client-kept alive strategy m (record { sorted = h.sorted.1; keyed = h.keyed.1 }))
]

-- In a selector that has its uids in order and every client under its own uid, adding a client,
-- removing one, and `getClient` leave it so.
operations-IsSelector :
    (m : OrdMap Client)
    → IsSelector m
    → ((c : Client) → IsSelector (add_client c m))
      × ((uid : ℕ) → IsSelector (remove_client uid m))
      × ((alive : Client → Bool) (strategy : ℕ) → IsSelector (get_client alive strategy m).1)
operations-IsSelector m h = (
  λ c. record { sorted = set-IsSorted c.uid c m h.sorted; keyed = add_client-IsKeyed c m h.keyed },
  λ uid. record {
    sorted = OrdMap.erase-IsSorted uid m h.sorted;
    keyed = remove_client-IsKeyed uid m h.keyed;
  },
  λ alive strategy. get_client-kept alive strategy m h,
)

-- A client under a key that is above all others has a greater uid.
first-least :
    (j k : ℕ) (c d : Client) (m : OrdMap Client)
    → IsSelector ((k, c) ∷ m)
    → lookup j ((k, c) ∷ m) ≡ some d
    → c.uid ≤ j
unfolding lookup
first-least j k c d m h e = elim (Bool-cases (k == j)) [
  | inl same ↦ ground (arith, h.keyed.0)
  | inr other ↦ elim (Bool-cases (ltb j k)) [
    | inl below ↦
        let nothing = lookup-Above j k m (omega (arith, ltb→lt j k below)) h.sorted.0 in
        cc (rw (other) at e)
    | inr above ↦ omega (arith, h.keyed.0, not_ltb→le j k above)
  ]
]

-- What stands in the rest stands under another key than the first.
lookup-later :
    (j k : ℕ) (x c : Client) (m : OrdMap Client)
    → Above k m
    → lookup j m ≡ some c
    → lookup j ((k, x) ∷ m) ≡ some c
unfolding lookup
lookup-later j k x c m above e = ground (arith, lookup-Above j k m)

-- Where a selector that has its uids in order and every client under its own uid holds a client that
-- is still there, `getClient` returns one that it holds and that is still there, and the uid of that
-- one is not the larger.
get_client-least :
    (alive : Client → Bool) (strategy : ℕ) (m : OrdMap Client) (k : ℕ) (d : Client)
    → IsSelector m
    → lookup k m ≡ some d
    → alive d ≡ true
    → (c : Client) × ((get_client alive strategy m).0 ≡ some c)
      × (lookup c.uid m ≡ some c)
      × (alive c ≡ true)
      × (c.uid ≤ k)
unfolding get_client lookup
get_client-least alive strategy [] k d h e here = cc
get_client-least alive strategy ((i, x) ∷ m) k d h e here = elim (Bool-cases (alive x)) [
  | inl first ↦
      (x, rw first refl, rw (eq→== i x.uid (sym h.keyed.0)) refl, first, first-least k i x d m h e)
  | inr gone ↦
      let other : i == k ≡ false = elim (Bool-cases (i == k)) [
        | inr no_match ↦ no_match
        | inl same ↦ cc (rw same at e)
      ] in
      let (c, found, held, live, least) =
        get_client-least alive strategy m k d (record { sorted = h.sorted.1; keyed = h.keyed.1 })
          (rw other at e) here in
      (c, rw gone found, lookup-later c.uid i x c m h.sorted.0 held, live, least)
]

-- In a selector that has its uids in order and every client under its own uid, a second `getClient`
-- gives the same as the first, the client as well as the selector that is left, if no client goes in
-- between.
get_client-again :
    (alive : Client → Bool) (strategy : ℕ) (m : OrdMap Client)
    → IsSelector m
    → get_client alive strategy (get_client alive strategy m).1 ≡ get_client alive strategy m
unfolding get_client
get_client-again alive strategy [] h = refl
get_client-again alive strategy ((k, c) ∷ m) h = elim (Bool-cases (alive c)) [
  | inl here ↦ rw (here, set_back k c m h, here, set_back k c m h)
  | inr gone ↦
      rw gone
        (get_client-again alive strategy m (record { sorted = h.sorted.1; keyed = h.keyed.1 }))
]
