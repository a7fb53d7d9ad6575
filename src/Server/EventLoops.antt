-- ===== src/Server/EventLoops.antt =====
-- EventLoop and EventLoopManager (net/server/EventLoop.h, net/server/EventLoop.cc): the channels of a
-- server by their uids, divided among the loops; and the timeout of a channel (onTimeout of
-- net/server/MyServant.cc). Times are seconds of 32 bits.
use echo_frame.Base.{
  ℕ, zero, suc, ◌+◌, ◌++◌, ◌-◌, ◌%◌, ◌^◌, ◌<◌, ◌≡◌, refl, Bool, true, false, not, Option, none,
  some, List, [], ◌∷◌, ltb, ◌==◌, if◌then◌else◌, length, arith, Bool-cases, ==_iff, ne→==, inl, inr,
  ap, ◌∙◌,
}
use echo_frame.Base.Loops.{
  Loop, new_loop, loop_at, find_entry, add_entry, remove_entry, find_entry-add_entry,
  find_entry-remove_entry,
}
use echo_frame.Base.OrdMap.{OrdMap, IsSorted, lookup, lookup-Above}

pub record Channel : Type 0 where
  pub uid : ℕ
  pub last_receive_time : ℕ

abbrev pub EventLoop : Type 0
EventLoop = Loop Channel

pub record EventLoopManager : Type 0 where
  pub loops : List EventLoop
  pub cur_index : ℕ

-- The route of a uid: `uid % loops_.size()`.
abbrev pub by_uid : ℕ → ℕ
by_uid uid = uid

unfoldable pub find_channel : ℕ → EventLoopManager → Option Channel
find_channel uid m = find_entry by_uid uid m.loops

unfoldable pub add_channel : Channel → EventLoopManager → EventLoopManager
add_channel c m = record m { loops = add_entry by_uid c.uid c m.loops }

-- `removeChannel`, with the channels that it closes.
unfoldable pub remove_channel : Channel → EventLoopManager → EventLoopManager × List Channel
remove_channel c m =
    if length m.loops == 0
    then (m, [])
    else (record m { loops = remove_entry by_uid c.uid m.loops }, c ∷ [])

-- `getNextLoop`: the loop's index and the manager; `none` is the access into an empty list.
abbrev pub get_next_loop : EventLoopManager → Option (ℕ × EventLoopManager)
get_next_loop m =
    let index = if ltb m.cur_index (length m.loops) then m.cur_index else 0 in
    if length m.loops == 0 then none else some (index, record m { cur_index = suc index })

-- `get`: `none` is the exception.
abbrev pub get_loop : ℕ → EventLoopManager → Option EventLoop
get_loop index m = loop_at index m.loops

abbrev new_loops : ℕ → List EventLoop
new_loops zero = []
new_loops (suc n) = new_loop 0 ∷ new_loops n

-- `initialize`: what it returns, and the loops. Each thread that was started is joinable, so that the
-- wait for it is over at once.
unfoldable pub initialize : ℕ → EventLoopManager → Bool × EventLoopManager
initialize zero m = (false, m)
initialize (suc n) m = (true, record m { loops = m.loops ++ new_loops (suc n) })

-- The difference of two times, as it wraps.
abbrev pub since : ℕ → ℕ → ℕ
since now time = (now + 2 ^ 32 - time) % 2 ^ 32

-- `onTimeout` of a servant, which waits for the dispatcher's handler and then closes in any case.
abbrev pub on_timeout : ℕ → ℕ → Channel → Bool
on_timeout now timeout c = not (ltb (since now c.last_receive_time) timeout)

module _ (check_timeout : Channel → Bool) where
  -- The loop of `onIdle`, with the channels that it closes.
  pub sweep : OrdMap Channel → OrdMap Channel × List Channel
  sweep [] = ([], [])
  sweep ((uid, c) ∷ m) =
      let (kept, closed) = sweep m in
      (
        if check_timeout c then kept else (uid, c) ∷ kept,
        if check_timeout c then c ∷ closed else closed,
      )

  -- `onIdle`, with what it returns: `none` where it ends without a `return`.
  unfoldable pub on_idle : ℕ → EventLoop → Option Bool × EventLoop × List Channel
  on_idle now l =
      let (kept, closed) = sweep l.entries in
      if ltb (since now l.last_check_time) 1
      then (some false, l, [])
      else (none, record { entries = kept; last_check_time = now }, closed)

  abbrev pub unless_late : Option Channel → Option Channel
  unless_late none = none
  unless_late (some c) = if check_timeout c then none else some c

  sweep-lookup :
      (uid : ℕ) (m : OrdMap Channel)
      → IsSorted m
      → lookup uid (sweep m).0 ≡ unless_late (lookup uid m)
  unfolding sweep lookup
  sweep-lookup uid [] s = refl
  sweep-lookup uid ((k, c) ∷ m) s = elim (Bool-cases (k == uid)) [
    | inl same ↦ elim (Bool-cases (check_timeout c)) [
      | inl late ↦
          rw (late, same, late)
            (sweep-lookup uid m s.1
              ∙ ap unless_late (lookup-Above uid k m (omega (arith, (==_iff k uid).0 same)) s.0))
      | inr early ↦ rw (early, same, early) refl
    ]
    | inr other ↦ elim (Bool-cases (check_timeout c)) [
      | inl late ↦ rw (late, other) (sweep-lookup uid m s.1)
      | inr early ↦ rw (early, other) (sweep-lookup uid m s.1)
    ]
  ]

  on_idle-lookup :
      (uid now : ℕ) (l : EventLoop)
      → IsSorted l.entries
      → lookup uid (on_idle now l).1.entries ≡ (
          if ltb (since now l.last_check_time) 1
          then lookup uid l.entries
          else unless_late (lookup uid l.entries))
  unfolding on_idle
  on_idle-lookup uid now l s = elim (Bool-cases (ltb (since now l.last_check_time) 1)) [
    | inl soon ↦ rw soon refl
    | inr due ↦ rw due (sweep-lookup uid l.entries s)
  ]

-- For a manager with a loop: a channel that is added is what its uid finds, one that is removed is
-- closed and not found, and neither touches another uid. For a loop whose uids rise, `onIdle` leaves the
-- channels as they are within a second of the last check, and else takes out those that have timed
-- out, and no other.
pub channels_lem :
    (check_timeout : Channel → Bool) (c : Channel) (uid now : ℕ) (m : EventLoopManager)
    (l : EventLoop)
    → 0 < length m.loops
    → IsSorted l.entries
    → (find_channel uid (add_channel c m) ≡ (if c.uid == uid then some c else find_channel uid m))
      × ((remove_channel c m).1 ≡ c ∷ [])
      × (find_channel uid (remove_channel c m).0
          ≡ (if c.uid == uid then none else find_channel uid m))
      × (lookup uid (on_idle check_timeout now l).1.entries ≡ (
          if ltb (since now l.last_check_time) 1
          then lookup uid l.entries
          else unless_late check_timeout (lookup uid l.entries)))
unfolding find_channel add_channel remove_channel
channels_lem check_timeout c uid now m l pos s =
    let some_loop : (length m.loops == 0) ≡ false = ne→== (length m.loops) 0 (λ e. omega arith) in
    (
      find_entry-add_entry by_uid uid c.uid c m.loops pos,
      rw some_loop refl,
      rw some_loop (find_entry-remove_entry by_uid uid c.uid m.loops pos),
      on_idle-lookup check_timeout uid now l s,
    )
