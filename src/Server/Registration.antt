-- ===== src/Server/Registration.antt =====
-- MyServer (net/server/MyServer.h, net/server/MyServer.cc) and the calls of a servant to the route
-- service, registerServant and syncServant (net/server/MyServant.cc). What the proxy of the route
-- servant answers, and the clock, are functions on the state of the network.
pub mod Rounds
use echo_frame.Base.{
  ℕ, ◌+◌, ◌-◌, ◌%◌, ◌^◌, ◌≡◌, refl, sym, ap, ◌∙◌, Bool, true, false, ◌||◌, not, Option, none, some,
  List, [], ◌∷◌, ltb, if◌then◌else◌, Bool-cases, inl, inr,
}
use echo_frame.Util.Text.{Text}
use echo_frame.Util.PropertyTree.{text_eq}

-- Whether a proxy is found, whether a registration and a heartbeat are answered, and the time.
pub record Route (W : Type 0) : Type 0 where
  pub find_proxy : Text → W → Bool × W
  pub register : Text → ℕ → W → Bool × W
  pub send_heartbeat : ℕ → W → Bool × W
  pub now : W → ℕ

pub record RoutedServant : Type 0 where
  pub version : ℕ
  pub registered : Bool
  pub last_sync_time : ℕ

-- `servantMap`; a null pointer is `none`.
abbrev pub ServantMap : Type 0
ServantMap = List (Text × Option RoutedServant)

abbrev is_unnamed : Text → Bool
is_unnamed [] = true
is_unnamed (c ∷ cs) = false

-- The servants that do not take part.
abbrev pub left_out : Text → Text → Bool
left_out route name = is_unnamed route || text_eq name route

module _ {W : Type 0} (calls : Route W) where
  abbrev answered_register : Bool × W → RoutedServant → RoutedServant × W
  answered_register (true, w) s = (record s { registered = true }, w)
  answered_register (false, w) s = (s, w)

  abbrev pub register_with : Text → Bool × W → RoutedServant → RoutedServant × W
  register_with name (true, w) s = answered_register (calls.register name s.version w) s
  register_with name (false, w) s = (s, w)

  unfoldable pub register_servant : Text → Text → RoutedServant → W → RoutedServant × W
  register_servant route name s w = register_with name (calls.find_proxy route w) s

  abbrev sync_with : Bool × W → RoutedServant → W
  sync_with (true, w) s = (calls.send_heartbeat s.version w).1
  sync_with (false, w) s = w

  unfoldable pub sync_servant : Text → RoutedServant → W → W
  sync_servant route s w = sync_with (calls.find_proxy route w) s

  -- The difference of the times is one of 32 bits.
  abbrev is_due : RoutedServant → W → Bool
  is_due s w = ltb 1 ((calls.now w + 2 ^ 32 - s.last_sync_time) % 2 ^ 32)

  abbrev pub synced : Text → RoutedServant × W → RoutedServant × W
  synced route (s, w) = (s, if is_due s w then sync_servant route s w else w)

  abbrev pub served : Text → Text → RoutedServant → W → RoutedServant × W
  served route name s w =
      synced route (if s.registered then (s, w) else register_servant route name s w)

  abbrev pub visited : Text → Text → Option RoutedServant → W → Option RoutedServant × W
  visited route name none w = (none, w)
  visited route name (some s) w =
      if left_out route name
      then (some s, w)
      else (some (served route name s w).0, (served route name s w).1)

  -- The loop over the servants.
  unfoldable pub visit_servants : Text → ServantMap → W → ServantMap × W
  visit_servants route [] w = ([], w)
  visit_servants route ((name, s) ∷ m) w =
      let (t, v) = visited route name s w in
      let (n, u) = visit_servants route m v in ((name, t) ∷ n, u)

  -- `wait`, for what `loopManager->wait()` answers in turn; it goes on until that is true.
  unfoldable pub wait_server : Text → List Bool → ServantMap → W → ServantMap × W
  wait_server route [] m w = (m, w)
  wait_server route (done ∷ more) m w =
      let (n, v) = visit_servants route m w in
      let rest = wait_server route more n v in if done then (m, w) else rest
