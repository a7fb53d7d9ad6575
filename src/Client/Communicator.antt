-- ===== src/Client/Communicator.antt =====
-- MyCommunicator (net/client/MyCommunicator.h): the proxies by the names of their servants. Each
-- operation runs under the lock. A map with strings for keys is a list with one entry for a key. How
-- a proxy is made and updated with a configuration are parameters.
use echo_frame.Base.{
  ◌≡◌, refl, ap, Option, none, some, List, [], ◌∷◌, if◌then◌else◌, Bool-cases, Option-cases, inl,
  inr,
}
use echo_frame.Util.Text.{Text}
use echo_frame.Util.PropertyTree.{text_eq}
use echo_frame.Util.PropertyTree.Lookup.{text_eq_refl}

module _ {ℓ} {V : Type ℓ} where
  unfoldable pub by_name : Text → List (Text × V) → Option V
  by_name k [] = none
  by_name k ((j, v) ∷ m) = if text_eq j k then some v else by_name k m

  unfoldable pub put_name : Text → V → List (Text × V) → List (Text × V)
  put_name k w [] = (k, w) ∷ []
  put_name k w ((j, v) ∷ m) =
      let rest = put_name k w m in if text_eq j k then (j, w) ∷ m else (j, v) ∷ rest

  by_name-put_name : (k : Text) (w : V) (m : List (Text × V)) → by_name k (put_name k w m) ≡ some w
  unfolding by_name put_name
  by_name-put_name k w [] = rw (text_eq_refl k) refl
  by_name-put_name k w ((j, v) ∷ m) = elim (Bool-cases (text_eq j k)) [
    | inl same ↦ rw (same, same) refl
    | inr other ↦ rw (other, other) (by_name-put_name k w m)
  ]

pub record Communicator {ℓ κ} (P : Type ℓ) (C : Type κ) : Type (ℓ ⊔ κ) where
  pub proxys : List (Text × P)
  pub proxy_configs : List (Text × C)

module _ {ℓ κ} {P : Type ℓ} {C : Type κ} (make : Text → P) (update_proxy : C → P → P) where
  abbrev updated : Text → C → Communicator P C → Option P → Communicator P C
  updated name config s none = s
  updated name config s (some p) = record s {
    proxys = put_name name (update_proxy config p) s.proxys;
  }

  -- `update`
  unfoldable pub update_config : Text → C → Communicator P C → Communicator P C
  update_config name config s =
      updated name config (record s { proxy_configs = put_name name config s.proxy_configs })
        (by_name name s.proxys)

  abbrev made : Text → Communicator P C → Option C → Option P × Communicator P C
  made name s none = (none, s)
  made name s (some config) =
      let p = update_proxy config (make name) in
      (some p, record s { proxys = put_name name p s.proxys })

  abbrev existing : Text → Communicator P C → Option P → Option P × Communicator P C
  existing name s (some p) = (some p, s)
  existing name s none = made name s (by_name name s.proxy_configs)

  -- `getServantProxy`
  unfoldable pub get_servant_proxy : Text → Communicator P C → Option P × Communicator P C
  get_servant_proxy name s = existing name s (by_name name s.proxys)

  -- A proxy that was returned is returned again, and nothing changes.
  get_servant_proxy-again :
      (name : Text) (s : Communicator P C) (p : P)
      → (get_servant_proxy name s).0 ≡ some p
      → get_servant_proxy name (get_servant_proxy name s).1 ≡ (some p, (get_servant_proxy name s).1)
  unfolding get_servant_proxy
  get_servant_proxy-again name s p e = elim (Option-cases (by_name name s.proxys)) [
    | inr (q, there) ↦ rw (there, there) (ap (λ o. (o, s)) (rw there at e))
    | inl missing ↦ elim (Option-cases (by_name name s.proxy_configs)) [
      | inl unknown ↦ cc (rw (missing, unknown) at e)
      | inr (config, known) ↦
          let q : P = update_proxy config (make name) in
          rw (missing, known, by_name-put_name name q s.proxys)
            (ap (λ o. (o, record s { proxys = put_name name q s.proxys }))
              (rw (missing, known) at e))
    ]
  ]
