-- ===== src/Server/Registration/Rounds.antt =====
-- What the rounds of MyServer::wait do to the servants (net/server/MyServer.cc).
use echo_frame.Base.{
  ℕ, ◌≡◌, refl, ◌∙◌, Bool, true, false, Option, none, some, List, [], ◌∷◌, if◌then◌else◌,
  Bool-cases, inl, inr,
}
use echo_frame.Util.Text.{Text}
use echo_frame.Server.Registration.{
  Route, RoutedServant, ServantMap, left_out, register_servant, served, visited, visit_servants,
  wait_server,
}

-- The servants before and after: those that take part are registered, and no time was written.
pub data Rounded (route : Text) : ServantMap → ServantMap → Type 0 where
  no_servant : Rounded route [] []
  null_servant :
      {name : Text} {m n : ServantMap}
      → Rounded route m n
      → Rounded route ((name, none) ∷ m) ((name, none) ∷ n)
  passed_over :
      {name : Text} {s : RoutedServant} {m n : ServantMap}
      → left_out route name ≡ true
      → Rounded route m n
      → Rounded route ((name, some s) ∷ m) ((name, some s) ∷ n)
  takes_part :
      {name : Text} {s t : RoutedServant} {m n : ServantMap}
      → left_out route name ≡ false
      → t.registered ≡ true
      → t.last_sync_time ≡ s.last_sync_time
      → Rounded route m n
      → Rounded route ((name, some s) ∷ m) ((name, some t) ∷ n)

Rounded-trans :
    {route : Text} {l m n : ServantMap} → Rounded route l m → Rounded route m n → Rounded route l n
Rounded-trans no_servant no_servant = no_servant
Rounded-trans (null_servant a) (null_servant b) = null_servant (Rounded-trans a b)
Rounded-trans (passed_over h a) (passed_over k b) = passed_over h (Rounded-trans a b)
Rounded-trans (passed_over h a) (takes_part k r t b) = cc
Rounded-trans (takes_part h r t a) (passed_over k b) = takes_part h r t (Rounded-trans a b)
Rounded-trans (takes_part h r t a) (takes_part k q u b) = takes_part h q (u ∙ t) (Rounded-trans a b)

-- A servant that is registered, with the time that another one has.
abbrev IsServed : RoutedServant → RoutedServant → Type 0
IsServed s t = (t.registered ≡ true) × (t.last_sync_time ≡ s.last_sync_time)

module _ {W : Type 0} where
  IsServed-if :
      (b : Bool) (s : RoutedServant) (w : W) (p : RoutedServant × W)
      → s.registered ≡ b
      → IsServed s p.0
      → IsServed s (if b then (s, w) else p).0
  IsServed-if true s w p e g = (e, refl)
  IsServed-if false s w p e g = g

module _ {W : Type 0} (calls : Route W)
    (found : (route : Text) (w : W) → (calls.find_proxy route w).0 ≡ true)
    (answers : (name : Text) (version : ℕ) (w : W) → (calls.register name version w).0 ≡ true) where
  register_servant-IsServed :
      (route name : Text) (s : RoutedServant) (w : W)
      → IsServed s (register_servant calls route name s w).0
  unfolding register_servant
  register_servant-IsServed route name s w =
      rw (found route w, answers name s.version (calls.find_proxy route w).1) (refl, refl)

  served-IsServed :
      (route name : Text) (s : RoutedServant) (w : W) → IsServed s (served calls route name s w).0
  served-IsServed route name s w =
      IsServed-if s.registered s w (register_servant calls route name s w) refl
        (register_servant-IsServed route name s w)

  visited-Rounded :
      (route name : Text) (s : Option RoutedServant) (w : W) (m n : ServantMap)
      → Rounded route m n
      → Rounded route ((name, s) ∷ m) ((name, (visited calls route name s w).0) ∷ n)
  visited-Rounded route name none w m n r = null_servant r
  visited-Rounded route name (some s) w m n r = elim (Bool-cases (left_out route name)) [
    | inl out ↦ rw (out) (passed_over out r)
    | inr takes ↦ let (a, b) = served-IsServed route name s w in rw (takes) (takes_part takes a b r)
  ]

  visit_servants-Rounded :
      (route : Text) (m : ServantMap) (w : W) → Rounded route m (visit_servants calls route m w).0
  unfolding visit_servants
  visit_servants-Rounded route [] w = no_servant
  visit_servants-Rounded route ((name, s) ∷ m) w =
      let v = (visited calls route name s w).1 in
      visited-Rounded route name s w m (visit_servants calls route m v).0
        (visit_servants-Rounded route m v)

  wait_server-later :
      (route : Text) (more : List Bool) (l m : ServantMap) (w : W)
      → Rounded route l m
      → Rounded route l (wait_server calls route more m w).0
  unfolding wait_server
  wait_server-later route [] l m w r = r
  wait_server-later route (true ∷ more) l m w r = r
  wait_server-later route (false ∷ more) l m w r =
      wait_server-later route more l (visit_servants calls route m w).0
        (visit_servants calls route m w).1 (Rounded-trans r (visit_servants-Rounded route m w))

  -- If the proxy of the route servant is found and its registrations are answered, then after any
  -- number of rounds of `wait`, one at least, every servant that takes part is registered, and the
  -- time of its last heartbeat is what it was. All but null pointers and the route servant itself
  -- take part, and none where no route servant is named; the others are as they were.
  pub wait_server-Rounded :
      (route : Text) (more : List Bool) (m : ServantMap) (w : W)
      → Rounded route m (wait_server calls route (false ∷ more) m w).0
  unfolding wait_server
  wait_server-Rounded route more m w =
      wait_server-later route more m (visit_servants calls route m w).0
        (visit_servants calls route m w).1 (visit_servants-Rounded route m w)
