-- ===== src/Tests/Maps.antt =====
-- The maps at concrete inputs: timeouts, the client selector, sessions and filters.
use echo_frame.Base.{
  ℕ, ◌≡◌, refl, Bool, true, false, none, some, List, [], ◌∷◌, ltb, leb, ◌==◌, if◌then◌else◌, arith,
}
use echo_frame.Base.OrdMap
use echo_frame.Base.OrdMap.{OrdMap, lookup, lookup_nil}
use echo_frame.Util.TimeoutMap.Marks.{mark}
use echo_frame.Util.TimeoutMap.{TimeoutMap, ValueWrapper, clear, insert, do_timeout, cutoff}
use echo_frame.Util.TimeoutMap.Tracked.{
  IsTracked, Call, inserts, updates, times_out, clear-IsTracked, insert-IsTracked,
}
use echo_frame.Util.TimeoutMap.Exact.{IsExact, insert-IsExact, do_timeout-lookup, insert-stale}
use echo_frame.Client.Selector.{Client, IsSelector, get_client}
use echo_frame.Client.Selector.Choice.{Chosen, get_client-Chosen}
use echo_frame.Client.Sessions.{
  make_request_id, new_session, add_session, remove_session, find_session, second_session,
}

abbrev none_yet : TimeoutMap ℕ
none_yet = record { values = []; keys = []; timeout = 60 }

none_yet-IsTracked : IsTracked none_yet
unfolding clear
none_yet-IsTracked = clear-IsTracked none_yet

none_yet-IsExact : IsExact none_yet
unfolding mark lookup
none_yet-IsExact k t e = cc

abbrev script : List (ℕ × Call ℕ)
script =
    (100, inserts 1 (some 10)) ∷ (150, inserts 2 none) ∷ (200, updates 1) ∷ (230, times_out) ∷ []

-- Key 1, stored at time 100.
abbrev one : TimeoutMap ℕ
one = insert 1 (some 10) 100 none_yet

abbrev wrapped : ValueWrapper ℕ
wrapped = record { ts = 100; v = some 10 }

one-IsTracked : IsTracked one
one-IsTracked = insert-IsTracked 1 (some 10) 100 none_yet-IsTracked

one_holds : lookup 1 one.values ≡ some wrapped
unfolding insert OrdMap.set lookup
one_holds = refl

cutoff_170 : cutoff 170 one ≡ 110
unfolding insert
cutoff_170 = refl

one-IsExact : IsExact one
one-IsExact = insert-IsExact 1 (some 10) 100 none_yet (lookup_nil 1) none_yet-IsExact

do_timeout-lookup_example :
    lookup 1 (do_timeout 150 one).0.values
    ≡ (if ltb 100 (cutoff 150 one) then none else some wrapped)
do_timeout-lookup_example = do_timeout-lookup 150 one 1 wrapped one-IsTracked one-IsExact one_holds

-- Inserted again at time 165, and gone at time 170 for all that.
insert-stale_example : lookup 1 (do_timeout 170 (insert 1 (some 11) 165 one)).0.values ≡ none
insert-stale_example =
    insert-stale 1 (some 11) 165 170 one wrapped one-IsTracked one_holds (omega (arith, cutoff_170))

abbrev client : ℕ → Client
client n = record { object = n; uid = n }

abbrev three : OrdMap Client
three = (4, client 4) ∷ (6, client 6) ∷ (9, client 9) ∷ []

abbrev all_but_4 : Client → Bool
all_but_4 c = leb 5 c.uid

three-IsSelector : IsSelector three
three-IsSelector = record {
  sorted = ((omega arith, (omega arith, tt)), ((omega arith, tt), (tt, tt)));
  keyed = (refl, (refl, (refl, tt)));
}

get_client-Chosen_example :
    Chosen all_but_4 three (get_client all_but_4 0 three).0 (get_client all_but_4 0 three).1
    × IsSelector (get_client all_but_4 0 three).1
get_client-Chosen_example = get_client-Chosen all_but_4 0 three three-IsSelector

three_at_9 : lookup 9 three ≡ some (client 9)
unfolding lookup
three_at_9 = refl

get_client-three :
    get_client all_but_4 0 three ≡ (some (client 6), (6, client 6) ∷ (9, client 9) ∷ [])
unfolding get_client OrdMap.set
get_client-three = refl

abbrev uid : ℕ
uid = 5

abbrev moment : ℕ
moment = 100

abbrev later : ℕ
later = 101

second_session_example :
    let both =
      add_session (new_session uid moment false) (add_session (new_session uid moment true) []) in
    (find_session (make_request_id uid moment) both ≡ (
      if moment == moment
      then some (new_session uid moment false)
      else some (new_session uid moment true)))
    × (find_session (make_request_id uid moment) (remove_session (make_request_id uid moment) both)
        ≡ (if moment == moment then none else some (new_session uid moment false)))
second_session_example =
    second_session uid moment moment true false [] (omega arith) (omega arith) (omega arith)
