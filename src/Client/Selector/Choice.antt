-- ===== src/Client/Selector/Choice.antt =====
-- Which client MyClientSelector::getClient gives, and what it leaves (net/client/MyClient.cc).
use echo_frame.Base.{
  ℕ, ◌<◌, ◌≡◌, inl, inr, refl, sym, ◌∙◌, Bool, true, false, Option, none, some, [], ◌∷◌, ◌==◌,
  if◌then◌else◌, ltb, arith, Bool-cases, eq→==, ne→==, ltb→lt, not_ltb→le,
}
use echo_frame.Base.OrdMap.{OrdMap, lookup, Above, lookup-Above}
use echo_frame.Client.Selector.{Client, get_client, IsSelector, set_back, get_client-kept}

-- All the clients that a selector holds under these uids are gone.
abbrev pub Gone : (Client → Bool) → (ℕ → Type 0) → OrdMap Client → Type 0
Gone alive At m = (k : ℕ) (d : Client) → At k → lookup k m ≡ some d → alive d ≡ false

-- The client with the least uid among those that are still there, where there is one; the clients
-- before it, which are gone, are taken out, and all else stays.
pub data Chosen (alive : Client → Bool) (m : OrdMap Client)
    : Option Client → OrdMap Client → Type 0 where
  nobody : Gone alive (λ k. Unit {0}) m → Chosen alive m none []
  client :
      (c : Client) {left : OrdMap Client}
      → alive c ≡ true
      → lookup c.uid m ≡ some c
      → Gone alive (λ k. k < c.uid) m
      → ((k : ℕ) → lookup k left ≡ (if ltb k c.uid then none else lookup k m))
      → Chosen alive m (some c) left

lookup-below :
    (k i : ℕ) (x : Client) (m : OrdMap Client) → k < i → Above i m → lookup k ((i, x) ∷ m) ≡ none
unfolding lookup
lookup-below k i x m h s = rw (ne→== i k (omega arith)) (lookup-Above k i m (omega arith) s)

lookup-above :
    (k i : ℕ) (x : Client) (m : OrdMap Client) → i < k → lookup k ((i, x) ∷ m) ≡ lookup k m
unfolding lookup
lookup-above k i x m h = rw (ne→== i k (omega arith)) refl

lookup-first :
    (i : ℕ) (x : Client) (k : ℕ) (m : OrdMap Client) → i ≡ k → lookup k ((i, x) ∷ m) ≡ some x
unfolding lookup
lookup-first i x k m e = rw (eq→== i k e) refl

lookup-empty : (k : ℕ) (d : Client) (P : Type 0) → lookup k [] ≡ some d → P
unfolding lookup
lookup-empty k d P e = cc

-- The key of what stands in a map lies above the bound of its keys.
lookup-bound : (i k : ℕ) (d : Client) (m : OrdMap Client) → Above i m → lookup k m ≡ some d → i < k
lookup-bound i k d m s e = elim (Bool-cases (ltb i k)) [
  | inl h ↦ ltb→lt i k h
  | inr h ↦ let nothing = lookup-Above k i m (not_ltb→le i k h) s in cc (e, nothing)
]

-- A client that is gone, before others.
Gone-first :
    (alive : Client → Bool) (At : ℕ → Type 0) (i : ℕ) (x : Client) (m : OrdMap Client)
    → alive x ≡ false
    → Gone alive At m
    → Gone alive At ((i, x) ∷ m)
unfolding lookup
Gone-first alive At i x m gone rest k d at e = elim (Bool-cases (i == k)) [
  | inl same ↦ cc (rw same at e, gone)
  | inr other ↦ rest k d at (rw other at e)
]

first-Chosen :
    (alive : Client → Bool) (i : ℕ) (x : Client) (m : OrdMap Client)
    → IsSelector ((i, x) ∷ m)
    → alive x ≡ true
    → Chosen alive ((i, x) ∷ m) (some x) ((i, x) ∷ m)
first-Chosen alive i x m h here = client x here held below kept
  where
    held : lookup x.uid ((i, x) ∷ m) ≡ some x
    held = lookup-first i x x.uid m (sym h.keyed.0)

    below : Gone alive (λ k. k < x.uid) ((i, x) ∷ m)
    below k d l e =
        let nothing = lookup-below k i x m (omega (arith, h.keyed.0)) h.sorted.0 in cc (e, nothing)

    kept : (k : ℕ) → lookup k ((i, x) ∷ m) ≡ (if ltb k x.uid then none else lookup k ((i, x) ∷ m))
    kept k = elim (Bool-cases (ltb k x.uid)) [
      | inl l ↦
          rw (l) (lookup-below k i x m (omega (arith, h.keyed.0, ltb→lt k x.uid l)) h.sorted.0)
      | inr l ↦ rw (l) refl
    ]

later-Chosen :
    (alive : Client → Bool) (i : ℕ) (x : Client) (m : OrdMap Client)
    → Above i m
    → alive x ≡ false
    → (o : Option Client) (left : OrdMap Client) → Chosen alive m o left
    → Chosen alive ((i, x) ∷ m) o left
later-Chosen alive i x m s gone _ _ (nobody all) =
    nobody (Gone-first alive (λ k. Unit {0}) i x m gone all)
later-Chosen alive i x m s gone _ left (client c here held below kept) =
    let bound = lookup-bound i c.uid c m s held in
    client c here (lookup-above c.uid i x m bound ∙ held)
      (Gone-first alive (λ k. k < c.uid) i x m gone below)
      (λ k. elim (Bool-cases (ltb k c.uid)) [
        | inl l ↦ rw (l) (rw (l) at (kept k))
        | inr l ↦
            rw (l, lookup-above k i x m (omega (arith, bound, not_ltb→le k c.uid l)))
              (rw (l) at (kept k))
      ])

choice :
    (alive : Client → Bool) (strategy : ℕ) (m : OrdMap Client)
    → IsSelector m
    → Chosen alive m (get_client alive strategy m).0 (get_client alive strategy m).1
unfolding get_client
choice alive strategy [] h = nobody (λ k d at e. lookup-empty k d (alive d ≡ false) e)
choice alive strategy ((i, x) ∷ m) h = elim (Bool-cases (alive x)) [
  | inl here ↦ rw (here, set_back i x m h) (first-Chosen alive i x m h here)
  | inr gone ↦ rw gone (
      later-Chosen alive i x m h.sorted.0 gone _ _
        (choice alive strategy m (record { sorted = h.sorted.1; keyed = h.keyed.1 })))
]

-- In a selector that has its uids in order and every client under its own uid, `getClient` gives the
-- client with the least uid among those that are still there, and no client where none is. The
-- selector that is left is such a selector again: the clients with smaller uids, which are gone, are
-- no longer in it, and every other uid, that of the client given included, finds what it found
-- before.
pub get_client-Chosen :
    (alive : Client → Bool) (strategy : ℕ) (m : OrdMap Client)
    → IsSelector m
    → Chosen alive m (get_client alive strategy m).0 (get_client alive strategy m).1
      × IsSelector (get_client alive strategy m).1
get_client-Chosen alive strategy m h =
    (choice alive strategy m h, get_client-kept alive strategy m h)
